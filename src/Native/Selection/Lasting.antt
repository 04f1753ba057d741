-- ===== src/Native/Selection/Lasting.antt =====
-- How long the choice by a touch in crates/fido-key-wrap-libfido2/src/native.rs lasts.
use fido_key_wrap.Common.{
  ℕ, zero, suc, ◌+◌, ◌*◌, ◌≤◌, Option, none, some, List, [], ◌∷◌, length, arith,
}
use Prim.Native.String.{String}
use fido_key_wrap.Config.{nanos_per_millisecond}
use fido_key_wrap.Native.Errors.{Error, Outcome, fault, done}
use fido_key_wrap.Native.Action.Runs.{Ends}
use fido_key_wrap.Native.Library.{Library, Handle}
use fido_key_wrap.Native.Request.{Config, operation_milliseconds}
use fido_key_wrap.Native.Device.{set, checked}
use fido_key_wrap.Native.Selection.{Offer, Authenticator}
use fido_key_wrap.Native.Selection.Touch.{
  cancel_all, chosen, swap_remove, but_last, new_authenticator, select_by_touch,
}
use fido_key_wrap.Native.Selection.Polling.{time}
use fido_key_wrap.Native.Selection.Timed.{
  IsPrompt, Timed, Timed-bind, Timed-weaken, Timed-pure, Timed-lift, Timed-call,
}
use fido_key_wrap.Native.Selection.Waiting.{
  after_read, cancel_cost, cancels, begin_touch-Timed, last_poll, poll-Timed,
}

module _ {W : Type 0} (lib : Library W) (slack : ℕ) (prompt : IsPrompt lib slack) where
  open lib use {
    now, rc_new, fido_dev_cancel, fido_dev_set_timeout, fido_dev_get_touch_begin,
    fido_dev_get_touch_status,
  }

  module _ (deadline : ℕ) (all : List Offer) (config : Config) where
    swap_remove-length : (ds : List Offer) (i : ℕ) → length (swap_remove lib ds i) ≤ length ds
    unfolding swap_remove
    swap_remove-length [] i = omega arith
    swap_remove-length (d ∷ []) zero = omega arith
    swap_remove-length (d ∷ x ∷ xs) zero = omega (arith, but_last-length x xs)
      where
        but_last-length : (y : Offer) (ys : List Offer) → length (but_last lib y ys) ≤ length ys
        but_last-length y [] = omega arith
        but_last-length y (z ∷ zs) = omega (arith, but_last-length z zs)
    swap_remove-length (d ∷ ds) (suc i) = omega (arith, swap_remove-length ds i)

    -- All but one are cancelled, no more than all.
    others_cost :
        (i : ℕ) (w : W)
        → time lib (cancel_all lib (swap_remove lib all i) w).1 ≤ time lib w + cancels slack all
    others_cost i w = grind (
      arith,
      cancel_cost lib slack prompt (swap_remove lib all i) w,
      scaled (swap_remove-length all i),
    )
      where
        scaled : {a b : ℕ} → a ≤ b → a * slack ≤ b * slack
        scaled h = grind arith

    new_authenticator-Timed :
        {pre late : ℕ} (d : Offer) → Timed lib (new_authenticator lib d) pre (pre + slack) late
    unfolding new_authenticator
    new_authenticator-Timed d =
        Timed-bind lib _ _ (Timed-call lib _ slack prompt.owner) (λ a. Timed-pure lib _)

    restored-Timed :
        {pre : ℕ} (operation : String) (d : Handle) (ms : ℕ)
        → Timed lib (set operation (fido_dev_set_timeout d ms)) pre (pre + slack) (pre + slack)
    unfolding set checked
    restored-Timed operation d ms =
        Timed-bind lib _ _ (Timed-call lib _ slack (prompt.timeout_set d ms))
          (λ status. Timed-lift lib _)

    chosen-Timed :
        (c : Option (ℕ × Offer))
        → Timed lib
            (chosen lib config all c)
            (last_poll slack deadline)
            (last_poll slack deadline + cancels slack all + 2 * slack)
            (last_poll slack deadline + cancels slack all + 2 * slack)
    unfolding chosen
    chosen-Timed none =
        Timed-weaken lib {pre = last_poll slack deadline} {post = last_poll slack deadline}
          {late = last_poll slack deadline} _ (omega arith) (omega arith) (omega arith)
          (Timed-pure lib _)
    chosen-Timed (some (i, d)) =
        Timed-bind lib _ _ (Timed-call lib _ (cancels slack all) (others_cost i)) (λ _.
          Timed-bind lib {mid = last_poll slack deadline + cancels slack all + slack} _ _
            (Timed-weaken lib _ (omega arith) (omega arith) (omega arith) (
              restored-Timed {pre = last_poll slack deadline + cancels slack all} _ d.0
                (operation_milliseconds config)))
            (λ _.
              Timed-bind lib {mid = last_poll slack deadline + cancels slack all + 2 * slack} _ _
                (Timed-weaken lib _ (omega arith) (omega arith) (omega arith) (
                  new_authenticator-Timed
                    {pre = last_poll slack deadline + cancels slack all + slack}
                    {late = last_poll slack deadline + cancels slack all + 2 * slack} d))
                (λ a. Timed-pure lib _)))

  select_by_touch-Timed :
      (config : Config) (fuel : ℕ) (devices : List Offer) (start : ℕ)
      → Timed lib
          (select_by_touch lib config fuel devices)
          start
          (start
            + config.selection_timeout
            + nanos_per_millisecond
            + (5 * slack + length devices * slack))
          (start
            + config.selection_timeout
            + nanos_per_millisecond
            + (5 * slack + length devices * slack))
  unfolding select_by_touch
  select_by_touch-Timed config fuel devices start = after_read lib slack prompt _ (λ t h.
      let deadline = t + config.selection_timeout in
      Timed-bind lib {mid = last_poll slack deadline} _ _
        (Timed-weaken lib _ (omega arith) (omega arith) (omega (arith, h))
          (begin_touch-Timed lib slack prompt deadline devices devices))
        (λ _.
          Timed-bind lib {mid = last_poll slack deadline} _ _
            (Timed-weaken lib _ (omega arith) (omega arith) (omega (arith, h))
              (poll-Timed lib slack prompt deadline devices config fuel))
            (λ c.
              Timed-weaken lib _ (omega arith) (omega (arith, h)) (omega (arith, h))
                (chosen-Timed deadline devices config c))))

  -- However it ends.
  pub select_by_touch_lasts :
      (config : Config) (fuel : ℕ) (devices : List Offer) {w w' : W}
      (r : Outcome Error (Option Authenticator))
      → Ends (select_by_touch lib config fuel devices) w r w'
      → time lib w'
        ≤ time lib w
          + config.selection_timeout
          + nanos_per_millisecond
          + (5 * slack + length devices * slack)
  select_by_touch_lasts config fuel devices {w} {w'} (done o) h =
      (select_by_touch-Timed config fuel devices (time lib w)).good w w' o (omega arith) h
  select_by_touch_lasts config fuel devices {w} {w'} (fault e) h =
      (select_by_touch-Timed config fuel devices (time lib w)).bad w w' e (omega arith) h
