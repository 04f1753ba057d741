-- ===== src/Native/Selection/Polling.antt =====
-- The choice by a touch ends: the loop of `select_by_touch` does not outlive its deadline.
use fido_key_wrap.Common.{
  ℕ, zero, suc, ◌+◌, ◌-◌, ◌≤◌, ◌<◌, ◌≡◌, refl, ap, ◌∙◌, Bool, true, false, Option, none, some, List,
  [], ◌∷◌, length, leb, arith, ◌/◌,
}
use mathlib.Core.Path.{subst}
use fido_key_wrap.Config.{nanos_per_millisecond}
use fido_key_wrap.Native.Errors.{ℤ, pos, eq_int→eq, Error, done}
use fido_key_wrap.Native.Action.{Action}
use fido_key_wrap.Native.Action.Runs.{Ends, Ends-bind, Ends-pure, Ends-raise, Ends-call}
use fido_key_wrap.Native.Status.{fido_ok}
use fido_key_wrap.Native.Library.{Library, Handle}
use fido_key_wrap.Native.Request.{Config}
use fido_key_wrap.Native.Selection.{Offer}
use fido_key_wrap.Native.Selection.Touch.{
  min, give_up, at_least_one, poll_milliseconds, touched_by, poll_before, poll_device, poll_next,
  poll_all, again, poll,
}

module _ {W : Type 0} (lib : Library W) where
  open lib use {now, fido_dev_set_timeout, fido_dev_get_touch_begin, fido_dev_get_touch_status}

  abbrev pub time : W → ℕ
  time w = (now w).0

  -- The clock is not turned back, and a poll of at least a millisecond without a touch takes time.
  pub record IsClock : Type 0 where
    pub reads_on : (w : W) → time w ≤ time (now w).1
    pub timeout_on : (d : Handle) (ms : ℕ) (w : W) → time w ≤ time (fido_dev_set_timeout d ms w).1
    pub begin_on : (d : Handle) (w : W) → time w ≤ time (fido_dev_get_touch_begin d w).1
    pub waits :
        (d : Handle) (ms : ℕ) (w : W)
        → 1 ≤ ms
        → (fido_dev_get_touch_status d ms w).0 ≡ (fido_ok, pos 0)
        → time w < time (fido_dev_get_touch_status d ms w).1

  module _ (clock : IsClock) (config : Config) (deadline : ℕ) (all : List Offer) where
    no_touch :
        (status : ℤ) (ok' one zero' : Bool) {w w' : W}
        → Ends (touched_by lib config deadline all status ok' one zero') w (done false) w'
        → (ok' ≡ true) × (zero' ≡ true) × (w ≡ w')
    unfolding touched_by give_up
    no_touch status false one zero' h =
        let (_, _, _, k) = Ends-bind _ _ h in absurd (cc (Ends-raise _ k).0)
    no_touch status true true zero' h = absurd (cc (Ends-pure _ h).0)
    no_touch status true false false h =
        let (_, _, _, k) = Ends-bind _ _ h in absurd (cc (Ends-raise _ k).0)
    no_touch status true false true h = (refl, refl, (Ends-pure _ h).1)

    at_least : (n : ℕ) → 1 ≤ at_least_one lib n
    at_least n = ground arith

    answered : (answer : ℤ × ℤ) (x y : ℤ) → answer.0 ≡ x → answer.1 ≡ y → answer ≡ (x, y)
    answered (a, b) x y ex ey = cc

    took_time :
        (d : Handle) (ms : ℕ) (answer : ℤ × ℤ) {w v w' : W}
        → 1 ≤ ms
        → fido_dev_get_touch_status d ms w ≡ (answer, v)
        → answer ≡ (fido_ok, pos 0)
        → v ≡ w'
        → time w < time w'
    took_time d ms answer {w} {v} {w'} some' e ea same =
        subst (λ t. time w < time t) (ap (λ (p : (ℤ × ℤ) × W). p.1) e ∙ same)
          (clock.waits d ms w some' (ap (λ (p : (ℤ × ℤ) × W). p.0) e ∙ ea))

    waited :
        (d : Handle) (t : ℕ) (late : Bool) {w w' : W}
        → Ends (poll_before lib config deadline all d t late) w (done false) w'
        → (late ≡ false) × (time w < time w')
    unfolding poll_before give_up
    waited d t true h = let (_, _, _, k) = Ends-bind _ _ h in absurd (cc (Ends-raise _ k).0)
    waited d t false h =
        let (answer, _, ha, k) = Ends-bind _ _ h in
        let (es, ez, same) = no_touch answer.0 _ _ _ k in
        (
          refl,
          took_time d (poll_milliseconds lib config (deadline - t)) answer
              (at_least (min lib config.touch_poll_interval (deadline - t) / nanos_per_millisecond))
              (Ends-call _ ha)
              (answered answer fido_ok (pos 0) (eq_int→eq answer.0 fido_ok es)
                (eq_int→eq answer.1 (pos 0) ez))
              same,
        )

    -- A poll that finds no touch was before the deadline, and took time.
    polled :
        (d : Handle) {w w' : W}
        → Ends (poll_device lib config deadline all d) w (done false) w'
        → (time w < deadline) × (time w < time w')
    unfolding poll_device
    polled d {w} {w'} h =
        let (t, v, ht, k) = Ends-bind _ _ h in
        let (early, later) = waited d t (leb deadline t) k in
        let et = ap (λ (p : ℕ × W). p.0) (Ends-call _ ht) in
        let ev = ap (λ (p : ℕ × W). p.1) (Ends-call _ ht) in
        (
          before t (time w) et early,
          further (subst (λ u. time w ≤ time u) ev (clock.reads_on w)) later,
        )
      where
        before : (t s : ℕ) → s ≡ t → leb deadline t ≡ false → s < deadline
        before t s e h = ground arith

        further : {a b c : ℕ} → a ≤ b → b < c → a < c
        further h k = omega arith

    poll_next-none :
        (i : ℕ) (d : Offer) (rest : Action W Error (Option (ℕ × Offer))) (touched : Bool) {w w' : W}
        → Ends (poll_next lib config deadline all i d rest touched) w (done none) w'
        → (touched ≡ false) × Ends rest w (done none) w'
    unfolding poll_next
    poll_next-none i d rest true h = absurd (cc (Ends-pure _ h).0)
    poll_next-none i d rest false h = (refl, h)

    slower : {a b c : ℕ} → a < b → b ≤ c → a < c
    slower h k = omega arith

    by_touch :
        (d : Handle) (touched : Bool) {w w' : W}
        → touched ≡ false
        → Ends (poll_device lib config deadline all d) w (done touched) w'
        → Ends (poll_device lib config deadline all d) w (done false) w'
    by_touch d touched {w} {w'} e h =
        subst (λ t. Ends (poll_device lib config deadline all d) w (done t) w') e h

    first_poll :
        (i : ℕ) (d : Offer) (ds : List Offer) {w w' : W}
        → Ends (poll_all lib config deadline all i (d ∷ ds)) w (done none) w'
        → (v : W) × (time w < deadline)
          × (time w < time v)
          × Ends (poll_all lib config deadline all (i + 1) ds) v (done none) w'
    unfolding poll_all
    first_poll i d ds h =
        let (touched, v, hd, k) = Ends-bind _ _ h in
        let (e, rest) = poll_next-none i d _ touched k in
        let (early, later) = polled d.0 (by_touch d.0 touched e hd) in (v, early, later, rest)

    untouched :
        (i : ℕ) (ds : List Offer) {w w' : W}
        → Ends (poll_all lib config deadline all i ds) w (done none) w'
        → time w ≤ time w'
    unfolding poll_all
    untouched i [] {w} h = subst (λ t. time w ≤ time t) (Ends-pure _ h).1 (omega arith)
    untouched i (d ∷ ds) h =
        let (v, _, later, rest) = first_poll i d ds h in
        omega (arith, slower later (untouched (i + 1) ds rest))

    -- A round over one device or more.
    round :
        (i : ℕ) (ds : List Offer) {w w' : W}
        → 1 ≤ length ds
        → Ends (poll_all lib config deadline all i ds) w (done none) w'
        → (time w < deadline) × (time w < time w')
    round i [] some' h = absurd (omega arith)
    round i (d ∷ ds) some' h =
        let (v, early, later, rest) = first_poll i d ds h in
        (early, slower later (untouched (i + 1) ds rest))

    again-none :
        (rest : Action W Error (Option (ℕ × Offer))) (c : Option (ℕ × Offer)) {w w' : W}
        → Ends (again lib config deadline all rest c) w (done none) w'
        → (c ≡ none) × Ends rest w (done none) w'
    unfolding again
    again-none rest none h = (refl, h)
    again-none rest (some c) h = absurd (cc (Ends-pure _ h).0)

    one_round :
        (fuel : ℕ) {w w' : W}
        → Ends (poll lib config deadline all (suc fuel)) w (done none) w'
        → (v : W) × Ends (poll_all lib config deadline all 0 all) w (done none) v
          × Ends (poll lib config deadline all fuel) v (done none) w'
    unfolding poll
    one_round fuel {w} h =
        let (c, v, hc, k) = Ends-bind _ _ h in
        let (e, rest) = again-none _ c k in
        (v, subst (λ t. Ends (poll_all lib config deadline all 0 all) w (done t) v) e hc, rest)

    -- Rounds without a touch fit between the start and the deadline.
    pub rounds :
        (fuel : ℕ) {w w' : W}
        → 1 ≤ length all
        → Ends (poll lib config deadline all (suc fuel)) w (done none) w'
        → time w + suc fuel ≤ deadline
    rounds zero some' h =
        let (v, k, _) = one_round zero h in
        let (early, _) = round 0 all some' k in omega (arith, early)
    rounds (suc fuel) some' h =
        let (v, k, rest) = one_round (suc fuel) h in
        let (_, later) = round 0 all some' k in omega (arith, later, rounds fuel some' rest)
