-- ===== src/Native/Selection/Timed.antt =====
-- Bounds on the time at which an action of crates/fido-key-wrap-libfido2/src/native.rs ends.
use fido_key_wrap.Common.{ℕ, ◌+◌, ◌*◌, ◌≤◌, ◌≡◌, ap, arith, inl, inr}
use mathlib.Core.Path.{subst}
use fido_key_wrap.Config.{nanos_per_millisecond}
use fido_key_wrap.Native.Errors.{Error, Outcome, fault, done}
use fido_key_wrap.Native.Action.{Action, pure, raise, lift, call, ◌>>=◌}
use fido_key_wrap.Native.Action.Runs.{
  Ends, Ends-bind, Ends-bind_fault, Ends-lift, Ends-pure, Ends-raise, Ends-call, Ends-call_fault,
}
use fido_key_wrap.Native.Library.{Library, Handle}
use fido_key_wrap.Native.Selection.Polling.{time}

module _ {W : Type 0} (lib : Library W) where
  open lib use {
    now, rc_new, fido_dev_cancel, fido_dev_set_timeout, fido_dev_get_touch_begin,
    fido_dev_get_touch_status,
  }

  -- A poll lasts no longer than the milliseconds that it is given and `slack`, and the other calls no
  -- longer than `slack`.
  pub record IsPrompt (slack : ℕ) : Type 0 where
    pub read : (w : W) → time lib (now w).1 ≤ time lib w + slack
    pub owner : (w : W) → time lib (rc_new w).1 ≤ time lib w + slack
    pub cancelled : (d : Handle) (w : W) → time lib (fido_dev_cancel d w).1 ≤ time lib w + slack
    pub timeout_set :
        (d : Handle) (ms : ℕ) (w : W)
        → time lib (fido_dev_set_timeout d ms w).1 ≤ time lib w + slack
    pub begun :
        (d : Handle) (w : W) → time lib (fido_dev_get_touch_begin d w).1 ≤ time lib w + slack
    pub polled :
        (d : Handle) (ms : ℕ) (w : W)
        → time lib (fido_dev_get_touch_status d ms w).1
          ≤ time lib w + ms * nanos_per_millisecond + slack

  -- Started at the time `pre` or before, the action succeeds at `post` at the latest, and fails at
  -- `late` at the latest.
  pub record Timed {A : Type 0} (m : Action W Error A) (pre post late : ℕ) : Type 0 where
    pub good : (w w' : W) (a : A) → time lib w ≤ pre → Ends m w (done a) w' → time lib w' ≤ post
    pub bad : (w w' : W) (e : Error) → time lib w ≤ pre → Ends m w (fault e) w' → time lib w' ≤ late

  module _ {A B : Type 0} where
    pub Timed-bind :
        {pre mid post late : ℕ} (m : Action W Error A) (f : A → Action W Error B)
        → Timed m pre mid late
        → ((a : A) → Timed (f a) mid post late)
        → Timed (m >>= f) pre post late
    Timed-bind m f hm hf = record {
      good = λ w w' b h k.
          let (a, v, km, kf) = Ends-bind _ _ k in (hf a).good v w' b (hm.good w v a h km) kf;
      bad = λ w w' e h k. elim (Ends-bind_fault _ _ k) [
        | inl km ↦ hm.bad w w' e h km
        | inr (a, v, km, kf) ↦ (hf a).bad v w' e (hm.good w v a h km) kf
      ];
    }

  pub moved_on : {v v' : W} {n : ℕ} → v ≡ v' → time lib v ≤ n → time lib v' ≤ n
  moved_on {n = n} e h = subst (λ t. time lib t ≤ n) e h

  module _ {A : Type 0} where
    pub Timed-weaken :
        {pre post late pre' post' late' : ℕ} (m : Action W Error A)
        → pre' ≤ pre
        → post ≤ post'
        → late ≤ late'
        → Timed m pre post late
        → Timed m pre' post' late'
    Timed-weaken m h k l t = record {
      good = λ w w' a i e. omega (arith, h, k, t.good w w' a (omega (arith, h, i)) e);
      bad = λ w w' x i e. omega (arith, h, l, t.bad w w' x (omega (arith, h, i)) e);
    }

    pub Timed-pure : {pre late : ℕ} (a : A) → Timed (pure a) pre pre late
    Timed-pure a = record {
      good = λ w w' b h k. moved_on (Ends-pure _ k).1 h;
      bad = λ w w' e h k. absurd (cc (Ends-pure _ k).0);
    }

    pub Timed-raise : {pre post : ℕ} (e : Error) → Timed {A = A} (raise e) pre post pre
    Timed-raise e = record {
      good = λ w w' b h k. absurd (cc (Ends-raise _ k).0);
      bad = λ w w' x h k. moved_on (Ends-raise _ k).1 h;
    }

    pub Timed-lift : {pre : ℕ} (r : Outcome Error A) → Timed (lift r) pre pre pre
    Timed-lift r = record {
      good = λ w w' b h k. moved_on (Ends-lift _ k).1 h;
      bad = λ w w' x h k. moved_on (Ends-lift _ k).1 h;
    }

    pub Timed-fault : {pre post : ℕ} (e : Error) → Timed {A = A} (lift (fault e)) pre post pre
    Timed-fault e = record {
      good = λ w w' b h k. absurd (cc (Ends-lift _ k).0);
      bad = λ w w' x h k. moved_on (Ends-lift _ k).1 h;
    }

    pub Timed-done : {pre late : ℕ} (a : A) → Timed (lift (done a)) pre pre late
    Timed-done a = record {
      good = λ w w' b h k. moved_on (Ends-lift _ k).1 h;
      bad = λ w w' x h k. absurd (cc (Ends-lift _ k).0);
    }

    pub Timed-call :
        {pre late : ℕ} (f : W → A × W) (cost : ℕ)
        → ((w : W) → time lib (f w).1 ≤ time lib w + cost)
        → Timed (call f) pre (pre + cost) late
    Timed-call f cost quick = record {
      good = λ w w' a h k.
          moved_on (ap (λ (p : A × W). p.1) (Ends-call _ k)) (omega (arith, h, quick w));
      bad = λ w w' e h k. absurd (Ends-call_fault _ k);
    }
