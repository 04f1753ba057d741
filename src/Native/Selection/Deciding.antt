-- ===== src/Native/Selection/Deciding.antt =====
-- The choice by a touch in crates/fido-key-wrap-libfido2/src/native.rs ends, with an authenticator or
-- an error.
use fido_key_wrap.Common.{
  ℕ, suc, ◌+◌, ◌≤◌, ◌≡◌, refl, ap, Bool, true, false, Option, none, some, List, [], ◌∷◌, length,
  arith,
}
use mathlib.Core.Path.{subst}
use fido_key_wrap.Native.Errors.{Error, Outcome, fault, done}
use fido_key_wrap.Native.Action.{Action, pure, lift, call, ◌>>=◌}
use fido_key_wrap.Native.Action.Runs.{Ends, Ends-bind, Ends-lift, Ends-pure, Ends-raise, Ends-call}
use fido_key_wrap.Native.Library.{Library}
use fido_key_wrap.Native.Request.{Config}
use fido_key_wrap.Native.Selection.{Offer, Authenticator}
use fido_key_wrap.Native.Selection.Touch.{
  give_up, or_give_up_by, selection_milliseconds, begin_touch, poll, chosen, select_by_touch,
}
use fido_key_wrap.Native.Selection.Polling.{time, IsClock, rounds}
use fido_key_wrap.Native.Selection.Lasting.{select_by_touch_lasts}
use fido_key_wrap.Native.Selection.Timed.{IsPrompt}
use fido_key_wrap.Config.{nanos_per_millisecond}
use fido_key_wrap.Common.{◌*◌, ◌⊎◌, inl, inr}

module _ {W : Type 0} (lib : Library W) where
  open lib use {now, fido_dev_set_timeout, fido_dev_get_touch_begin, fido_dev_get_touch_status}

  -- The clock is not turned back by calls that end well.
  abbrev Onward : {A : Type 0} → Action W Error A → Type 0
  Onward {A} m = (w w' : W) (a : A) → Ends m w (done a) w' → time lib w ≤ time lib w'

  module _ {A B : Type 0} where
    Onward-bind :
        (m : Action W Error A) (f : A → Action W Error B)
        → Onward m
        → ((a : A) → Onward (f a))
        → Onward (m >>= f)
    Onward-bind m f hm hf w w' c h =
        let (a, v, k, l) = Ends-bind _ _ h in omega (arith, hm w v a k, hf a v w' c l)

  module _ {A : Type 0} where
    Onward-pure : (a : A) → Onward (pure a)
    Onward-pure a w w' c h = subst (λ t. time lib w ≤ time lib t) (Ends-pure _ h).1 (omega arith)

    Onward-lift : (r : Outcome Error A) → Onward (lift r)
    Onward-lift r w w' c h = subst (λ t. time lib w ≤ time lib t) (Ends-lift _ h).1 (omega arith)

    Onward-call : (f : W → A × W) → ((w : W) → time lib w ≤ time lib (f w).1) → Onward (call f)
    Onward-call f on w w' a h =
        subst (λ t. time lib w ≤ time lib t) (ap (λ (p : A × W). p.1) (Ends-call _ h)) (on w)

  module _ (clock : IsClock lib) (deadline : ℕ) (all : List Offer) where
    selection_milliseconds-Onward : Onward (selection_milliseconds lib deadline)
    unfolding selection_milliseconds
    selection_milliseconds-Onward = Onward-bind _ _ (Onward-call _ clock.reads_on) (λ t.
        Onward-bind _ _ (Onward-lift _) (λ _. Onward-bind _ _ (Onward-lift _) (λ _. Onward-pure _)))

    or_give_up_by-Onward : (e : Error) (is_ok : Bool) → Onward (or_give_up_by lib all e is_ok)
    unfolding or_give_up_by give_up
    or_give_up_by-Onward e true w w' a h = Onward-pure tt w w' a h
    or_give_up_by-Onward e false w w' a h =
        let (_, _, _, k) = Ends-bind _ _ h in absurd (cc (Ends-raise _ k).0)

    begin_touch-Onward : (ds : List Offer) → Onward (begin_touch lib deadline all ds)
    unfolding begin_touch
    begin_touch-Onward [] = Onward-pure tt
    begin_touch-Onward (d ∷ ds) = Onward-bind _ _ selection_milliseconds-Onward (λ ms.
        Onward-bind _ _ (Onward-call _ (clock.timeout_on d.0 ms)) (λ s.
          Onward-bind _ _ (or_give_up_by-Onward _ _) (λ _.
            Onward-bind _ _ (Onward-call _ (clock.begin_on d.0))
              (λ s'. Onward-bind _ _ (or_give_up_by-Onward _ _) (λ _. begin_touch-Onward ds)))))

  chosen-none :
      (config : Config) (devices : List Offer) (c : Option (ℕ × Offer)) {w w' : W}
      → Ends (chosen lib config devices c) w (done none) w'
      → c ≡ none
  unfolding chosen
  chosen-none config devices none h = refl
  chosen-none config devices (some (i, d)) h =
      let (_, _, _, h1) = Ends-bind _ _ h in
      let (_, _, _, h2) = Ends-bind _ _ h1 in
      let (_, _, _, h3) = Ends-bind _ _ h2 in absurd (cc (Ends-pure _ h3).0)

  some_authenticator :
      (config : Config) (devices : List Offer)
      → IsClock lib
      → 1 ≤ length devices
      → {w w' : W} {o : Option Authenticator}
      → Ends (select_by_touch lib config (config.selection_timeout + 1) devices) w (done o) w'
      → (a : Authenticator) × (o ≡ some a)
  unfolding select_by_touch
  some_authenticator config devices clock some' {o = some a} h = (a, refl)
  some_authenticator config devices clock some' {w} {o = none} h =
      let (t, v1, ht, h1) = Ends-bind _ _ h in
      let (_, v2, hb, h2) = Ends-bind _ _ h1 in
      let (c, v3, hc, h3) = Ends-bind _ _ h2 in
      absurd (
        omega (
          arith,
          ap (λ (p : ℕ × W). p.0) (Ends-call _ ht),
          Onward-call _ clock.reads_on w v1 t ht,
          begin_touch-Onward clock (t + config.selection_timeout) devices devices v1 v2 tt hb,
          rounds lib clock config (t + config.selection_timeout) devices config.selection_timeout
              some'
              (one_more (t + config.selection_timeout) (
                subst
                  (λ o.
                    Ends
                      (poll lib config (t + config.selection_timeout) devices
                        (config.selection_timeout + 1))
                      v2 (done o) v3)
                  (chosen-none config devices c h3) hc)),
        ))
    where
      one_more :
          (deadline : ℕ) {v v' : W}
          → Ends (poll lib config deadline devices (config.selection_timeout + 1)) v (done none) v'
          → Ends (poll lib config deadline devices (suc config.selection_timeout)) v (done none) v'
      one_more deadline {v} {v'} k =
          subst (λ n. Ends (poll lib config deadline devices n) v (done none) v') (omega arith) k

  -- Under a clock that runs, and with calls that take no longer than `slack` beyond the milliseconds that
  -- a poll is given, the choice by a touch between one device or more ends, on as many rounds as the
  -- selection timeout has nanoseconds and one more, with an authenticator or an error, no later than the
  -- selection timeout, one millisecond and `slack` for each device and five times more after its start.
  pub select_by_touch-decides :
      (config : Config) (devices : List Offer) (slack : ℕ)
      → IsClock lib
      → IsPrompt lib slack
      → 1 ≤ length devices
      → {w w' : W} {r : Outcome Error (Option Authenticator)}
      → Ends (select_by_touch lib config (config.selection_timeout + 1) devices) w r w'
      → (((e : Error) × (r ≡ fault e)) ⊎ ((a : Authenticator) × (r ≡ done (some a))))
        × (time lib w'
            ≤ time lib w
              + config.selection_timeout
              + nanos_per_millisecond
              + (5 * slack + length devices * slack))
  select_by_touch-decides config devices slack clock prompt some' {r = fault e} h =
      (inl (e, refl), select_by_touch_lasts lib slack prompt config _ devices (fault e) h)
  select_by_touch-decides config devices slack clock prompt some' {r = done o} h =
      let (a, same) = some_authenticator config devices clock some' h in
      (inr (a, ap done same), select_by_touch_lasts lib slack prompt config _ devices (done o) h)
