-- ===== src/Native/Selection/Waiting.antt =====
-- How long the rounds of polls of `select_by_touch` in crates/fido-key-wrap-libfido2/src/native.rs last.
use fido_key_wrap.Common.{
  ℕ, zero, suc, ◌+◌, ◌-◌, ◌*◌, ◌≤◌, ◌<◌, ◌≡◌, refl, ap, Bool, true, false, Option, none, some, List,
  [], ◌∷◌, length, leb, ltb, arith, inl, inr,
}
use fido_key_wrap.Config.{nanos_per_millisecond}
use fido_key_wrap.Native.Errors.{ℤ, Error, done, fault_if}
use fido_key_wrap.Native.Action.{Action, lift, call, ◌>>=◌}
use fido_key_wrap.Native.Action.Runs.{Ends, Ends-bind, Ends-bind_fault, Ends-call, Ends-call_fault}
use fido_key_wrap.Native.Library.{Library, Handle}
use fido_key_wrap.Native.Request.{Config}
use fido_key_wrap.Native.Selection.{Offer}
use fido_key_wrap.Native.Selection.Touch.{
  cancel_all, give_up, or_give_up_by, selection_milliseconds, begin_touch, poll_milliseconds,
  touched_by, poll_before, poll_device, poll_next, poll_all, again, poll,
}
use fido_key_wrap.Native.Selection.Polling.{time}
use fido_key_wrap.Native.Selection.Timed.{
  IsPrompt, Timed, Timed-bind, Timed-weaken, moved_on, Timed-pure, Timed-raise, Timed-lift,
  Timed-fault, Timed-done, Timed-call,
}

-- How long a cancellation of all devices takes at most.
abbrev pub cancels : ℕ → List Offer → ℕ
cancels slack all = length all * slack

-- The last moment at which a poll that has begun before the deadline ends.
abbrev pub last_poll : ℕ → ℕ → ℕ
last_poll slack deadline = deadline + nanos_per_millisecond + 3 * slack

module _ {W : Type 0} (lib : Library W) (slack : ℕ) (prompt : IsPrompt lib slack) where
  open lib use {
    now, rc_new, fido_dev_cancel, fido_dev_set_timeout, fido_dev_get_touch_begin,
    fido_dev_get_touch_status,
  }

  -- What follows a reading of the clock starts that much after what was read.
  pub after_read :
      {B : Type 0} {pre post late : ℕ} (f : ℕ → Action W Error B)
      → ((t : ℕ) → t ≤ pre → Timed lib (f t) (t + slack) post late)
      → Timed lib (call now >>= f) pre post late
  after_read f hf = record {
    good = λ w w' b h k.
        let (t, v, km, kf) = Ends-bind _ _ k in
        let (same, soon) = was_read w v t km in (hf t (omega (arith, same, h))).good v w' b soon kf;
    bad = λ w w' e h k. elim (Ends-bind_fault _ _ k) [
      | inl km ↦ absurd (Ends-call_fault _ km)
      | inr (t, v, km, kf) ↦
          let (same, soon) = was_read w v t km in (hf t (omega (arith, same, h))).bad v w' e soon kf
    ];
  }
    where
      was_read :
          (w v : W) (t : ℕ)
          → Ends {E = Error} (call now) w (done t) v
          → (time lib w ≡ t) × (time lib v ≤ t + slack)
      was_read w v t km =
          let same : time lib w ≡ t = ap (λ (p : ℕ × W). p.0) (Ends-call _ km) in
          (
            same,
            moved_on lib (ap (λ (p : ℕ × W). p.1) (Ends-call _ km))
                (omega (arith, same, prompt.read w)),
          )

  pub cancel_cost :
      (ds : List Offer) (w : W) → time lib (cancel_all lib ds w).1 ≤ time lib w + length ds * slack
  unfolding cancel_all
  cancel_cost [] w = omega arith
  cancel_cost (d ∷ ds) w =
      grind (arith, prompt.cancelled d.0 w, cancel_cost ds (fido_dev_cancel d.0 w).1)

  give_up-Timed :
      {A : Type 0} {pre post : ℕ} (ds : List Offer) (e : Error)
      → Timed lib {A = A} (give_up lib ds e) pre post (pre + length ds * slack)
  unfolding give_up
  give_up-Timed ds e =
      Timed-bind lib _ _ (Timed-call lib _ (length ds * slack) (cancel_cost ds))
        (λ _. Timed-raise lib e)

  module _ (deadline : ℕ) (all : List Offer) where
    or_give_up_by-Timed :
        {pre : ℕ} (e : Error) (is_ok : Bool)
        → Timed lib (or_give_up_by lib all e is_ok) pre pre (pre + cancels slack all)
    unfolding or_give_up_by
    or_give_up_by-Timed e true = Timed-pure lib tt
    or_give_up_by-Timed e false = give_up-Timed all e

    not_late :
        (t : ℕ) (e : Error) (late : Bool)
        → t ≤ deadline + 3 * slack
        → ltb deadline t ≡ late
        → Timed lib (lift (fault_if late e)) (t + slack) (deadline + slack) (deadline + 4 * slack)
    not_late t e true h k =
        Timed-weaken lib {pre = t + slack} {post = deadline + slack} {late = t + slack} _
          (omega arith) (omega arith) (omega (arith, h)) (Timed-fault lib e)
    not_late t e false h k =
        Timed-weaken lib {pre = t + slack} {post = t + slack} {late = deadline + 4 * slack} _
          (omega arith) (ground (arith, k)) (omega arith) (Timed-done lib tt)

    selection_milliseconds-Timed :
        Timed lib
          (selection_milliseconds lib deadline)
          (deadline + 3 * slack)
          (deadline + slack)
          (deadline + 4 * slack)
    unfolding selection_milliseconds
    selection_milliseconds-Timed = after_read _ (λ t h.
        Timed-bind lib _ _ (not_late t _ _ h refl) (λ _.
          Timed-bind lib _ _
            (Timed-weaken lib {pre = deadline + slack} {post = deadline + slack}
              {late = deadline + slack} _ (omega arith) (omega arith) (omega arith)
              (Timed-lift lib _))
            (λ _. Timed-pure lib _)))

    pub begin_touch-Timed :
        (ds : List Offer)
        → Timed lib
            (begin_touch lib deadline all ds)
            (deadline + 3 * slack)
            (deadline + 3 * slack)
            (deadline + 4 * slack + cancels slack all)
    unfolding begin_touch
    begin_touch-Timed [] = Timed-pure lib tt
    begin_touch-Timed (d ∷ ds) =
        Timed-bind lib {mid = deadline + slack} _ _
          (Timed-weaken lib _ (omega arith) (omega arith) (omega arith)
            selection_milliseconds-Timed)
          (λ ms. Timed-bind lib _ _ (Timed-call lib _ slack (prompt.timeout_set d.0 ms)) (λ status.
            Timed-bind lib {mid = deadline + 2 * slack} _ _
              (Timed-weaken lib _ (omega arith) (omega arith) (omega arith)
                (or_give_up_by-Timed {pre = deadline + 2 * slack} _ _))
              (λ _. Timed-bind lib _ _ (Timed-call lib _ slack (prompt.begun d.0)) (λ status'.
                Timed-bind lib {mid = deadline + 3 * slack} _ _
                  (Timed-weaken lib _ (omega arith) (omega arith) (omega arith)
                    (or_give_up_by-Timed {pre = deadline + 3 * slack} _ _))
                  (λ _. begin_touch-Timed ds)))))

    module _ (config : Config) where
      clamped :
          (t : ℕ)
          → t < deadline
          → t + poll_milliseconds lib config (deadline - t) * nanos_per_millisecond
            ≤ deadline + nanos_per_millisecond
      clamped t h = ground arith

      touched_by-Timed :
          {pre : ℕ} (status : ℤ) (ok' one zero' : Bool)
          → Timed lib
              (touched_by lib config deadline all status ok' one zero')
              pre
              pre
              (pre + cancels slack all)
      unfolding touched_by
      touched_by-Timed status false one zero' = give_up-Timed all _
      touched_by-Timed status true true zero' = Timed-pure lib _
      touched_by-Timed status true false false = give_up-Timed all _
      touched_by-Timed status true false true = Timed-pure lib _

      poll_before-Timed :
          (d : Handle) (t : ℕ) (late : Bool)
          → t ≤ (last_poll slack deadline)
          → leb deadline t ≡ late
          → Timed lib
              (poll_before lib config deadline all d t late)
              (t + slack)
              (last_poll slack deadline)
              (last_poll slack deadline + slack + cancels slack all)
      unfolding poll_before
      poll_before-Timed d t true h k =
          Timed-weaken lib {pre = t + slack} {post = last_poll slack deadline} _ (omega arith)
            (omega arith) (omega (arith, h)) (give_up-Timed all _)
      poll_before-Timed d t false h k =
          let early : t < deadline = ground (arith, k) in
          Timed-bind lib _ _
            (Timed-call lib _
              (poll_milliseconds lib config (deadline - t) * nanos_per_millisecond + slack)
              (λ w. omega (arith, prompt.polled d (poll_milliseconds lib config (deadline - t)) w)))
            (λ answer.
              Timed-weaken lib {pre = last_poll slack deadline} {post = last_poll slack deadline}
                {late = last_poll slack deadline + cancels slack all} _
                (omega (arith, clamped t early)) (omega arith) (omega arith)
                (touched_by-Timed answer.0 _ _ _))

      poll_device-Timed :
          (d : Handle)
          → Timed lib
              (poll_device lib config deadline all d)
              (last_poll slack deadline)
              (last_poll slack deadline)
              (last_poll slack deadline + slack + cancels slack all)
      unfolding poll_device
      poll_device-Timed d = after_read _ (λ t h. poll_before-Timed d t _ h refl)

      poll_next-Timed :
          (i : ℕ) (d : Offer) (rest : Action W Error (Option (ℕ × Offer))) (touched : Bool)
          → Timed lib rest
              (last_poll slack deadline)
              (last_poll slack deadline)
              (last_poll slack deadline + slack + cancels slack all)
          → Timed lib
              (poll_next lib config deadline all i d rest touched)
              (last_poll slack deadline)
              (last_poll slack deadline)
              (last_poll slack deadline + slack + cancels slack all)
      unfolding poll_next
      poll_next-Timed i d rest true h = Timed-pure lib _
      poll_next-Timed i d rest false h = h

      poll_all-Timed :
          (i : ℕ) (ds : List Offer)
          → Timed lib
              (poll_all lib config deadline all i ds)
              (last_poll slack deadline)
              (last_poll slack deadline)
              (last_poll slack deadline + slack + cancels slack all)
      unfolding poll_all
      poll_all-Timed i [] = Timed-pure lib _
      poll_all-Timed i (d ∷ ds) =
          Timed-bind lib _ _ (poll_device-Timed d.0)
            (λ touched. poll_next-Timed i d _ touched (poll_all-Timed (i + 1) ds))

      again-Timed :
          (rest : Action W Error (Option (ℕ × Offer))) (c : Option (ℕ × Offer))
          → Timed lib rest
              (last_poll slack deadline)
              (last_poll slack deadline)
              (last_poll slack deadline + slack + cancels slack all)
          → Timed lib
              (again lib config deadline all rest c)
              (last_poll slack deadline)
              (last_poll slack deadline)
              (last_poll slack deadline + slack + cancels slack all)
      unfolding again
      again-Timed rest none h = h
      again-Timed rest (some c) h = Timed-pure lib _

      pub poll-Timed :
          (fuel : ℕ)
          → Timed lib
              (poll lib config deadline all fuel)
              (last_poll slack deadline)
              (last_poll slack deadline)
              (last_poll slack deadline + slack + cancels slack all)
      unfolding poll
      poll-Timed zero = Timed-pure lib _
      poll-Timed (suc fuel) =
          Timed-bind lib _ _ (poll_all-Timed 0 all) (λ c. again-Timed _ c (poll-Timed fuel))
