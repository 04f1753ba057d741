-- ===== src/Backend/Cleanup.antt =====
-- What the clean-up after a failed enrolment has done when it reports success, and what the errors of
-- `accept_managed` mean.
use fido_key_wrap.Common.{
  ◌≡◌, refl, ap, ◌⊎◌, inl, inr, Bool, true, false, Bytes, Option, none, some,
}
use mathlib.Core.Path.{subst}
use fido_key_wrap.Error.{Error, Result, ok, err, authenticator, credential_may_remain}
use fido_key_wrap.Policy.{FidoPolicy}
use fido_key_wrap.Effect.Runs.{
  Ends, Ends-bind, Ends-bind_err, Ends-pure, Ends-raise, Ends-lift, NeverFails, NeverFails-pure,
  NeverFails-attempt, NeverFails-bind,
}
use fido_key_wrap.Native.Errors.{Outcome, fault, done}
use fido_key_wrap.Native.Action.{Action}
use fido_key_wrap.Native.Action.Runs
use fido_key_wrap.Native.Errors
use fido_key_wrap.Native.Request
use fido_key_wrap.Native.Request.{PendingManagedCredential, EnrolledCredential, EnrollmentFailure}
use fido_key_wrap.Native.Inventory.{pending}
use fido_key_wrap.Native.Authenticator.Managed.{prepare_managed_cleanup}
use fido_key_wrap.Native.Selection.{Authenticator}
use fido_key_wrap.Native.Authenticator.Absent.{
  moved, SeenAbsent, finish_cleanup-SeenAbsent, prepare_managed_cleanup-SeenAbsent,
}
use fido_key_wrap.Backend.Prompts.{from_native, from_outcome, outcome_of, map_native_error}
use fido_key_wrap.Backend.{NativeBackend}
use fido_key_wrap.Backend.Managed.{
  is_done, finish_touched, finish_pending, cleanup_native_pending, reject_pending_managed,
  reject_created_managed, reject_failure, accept_managed, report, reject_any, accept_key,
  accept_created, with_session,
}

from_outcome-ok :
    {A : Type 0} (r : Outcome Errors.Error A) {a : A} → from_outcome r ≡ ok a → r ≡ done a
from_outcome-ok (done a) h = cc
from_outcome-ok (fault e) h = cc

module _ {W A : Type 0} where
  pub Ends-from_native :
      (m : Action W Errors.Error A) {w w' : W} {a : A}
      → Ends (from_native m) w (ok a) w'
      → Runs.Ends m w (done a) w'
  unfolding from_native
  Ends-from_native m {w} {a = a} h = record {
    ends = cc (h.ends, from_outcome-ok (m w).0 {a = a} (cc h.ends));
  }

module _ {W E A : Type 0} where
  pub Ends-outcome_of :
      (m : Action W E A) {w w' : W} {r : Outcome E A}
      → Ends (outcome_of m) w (ok r) w'
      → Runs.Ends m w r w'
  unfolding outcome_of
  Ends-outcome_of m h = record { ends = cc h.ends }

  pub NeverFails-outcome_of : (m : Action W E A) → NeverFails (outcome_of m)
  unfolding outcome_of
  NeverFails-outcome_of m w w' e h = absurd (cc h.ends)

module _ {W : Type 0} (b : NativeBackend W) where
  open b use {library}

  module _ (a : Authenticator) (pin label : Bytes) (policy : FidoPolicy) where
    all_done :
        (r : Outcome Errors.Error (Unit {0})) {v w' : W}
        → Ends (is_done b r) v (ok true) w'
        → (r ≡ done tt) × (v ≡ w')
    unfolding is_done
    all_done (fault e) h = absurd (cc (Ends-pure false h).0)
    all_done (done _) h = (refl, (Ends-pure true h).1)

    finish_touched-SeenAbsent :
        (p : PendingManagedCredential) (touched : Result (Unit {0})) {v w' : W}
        → Ends (finish_touched b a pin p touched) v (ok true) w'
        → SeenAbsent library a (pending p) pin w'
    unfolding finish_touched
    finish_touched-SeenAbsent p (err _) h = absurd (cc (Ends-pure false h).0)
    finish_touched-SeenAbsent p (ok _) h =
        let (finished, _, hf, h1) = Ends-bind _ _ h in
        let (e, same) = all_done finished h1 in
        finish_cleanup-SeenAbsent library a p pin (moved (Ends-outcome_of _ hf) e same)

    finish_pending-SeenAbsent :
        (p : PendingManagedCredential) (o : Option PendingManagedCredential) {v w' : W}
        → ((o ≡ none) × SeenAbsent library a (pending p) pin v) ⊎ (o ≡ some p)
        → Ends (finish_pending b a pin label policy (done o)) v (ok true) w'
        → SeenAbsent library a (pending p) pin w'
    unfolding finish_pending
    finish_pending-SeenAbsent p none (inl k) h =
        subst (SeenAbsent library a (pending p) pin) (Ends-pure true h).1 k.1
    finish_pending-SeenAbsent p none (inr k) h = cc
    finish_pending-SeenAbsent p (some q) (inl k) h = absurd (cc k.0)
    finish_pending-SeenAbsent p (some q) {v} {w'} (inr k) h =
        let (touched, _, _, h1) = Ends-bind _ _ h in
        subst (λ t. SeenAbsent library a (pending t) pin w') (cc k)
          (finish_touched-SeenAbsent q touched h1)

    prepared-SeenAbsent :
        (p : PendingManagedCredential) (r : Outcome Errors.Error (Option PendingManagedCredential))
        {w v w' : W}
        → Runs.Ends (prepare_managed_cleanup library a p pin) w r v
        → Ends (finish_pending b a pin label policy r) v (ok true) w'
        → SeenAbsent library a (pending p) pin w'
    unfolding finish_pending
    prepared-SeenAbsent p (fault e) k h = absurd (cc (Ends-pure false h).0)
    prepared-SeenAbsent p (done o) k h =
        finish_pending-SeenAbsent p o (prepare_managed_cleanup-SeenAbsent library a p pin o k) h

    -- A clean-up that reports success has ended with the credential absent.
    cleanup_native_pending-SeenAbsent :
        (p : PendingManagedCredential) {w w' : W}
        → Ends (cleanup_native_pending b a pin p label policy) w (ok true) w'
        → SeenAbsent library a (pending p) pin w'
    unfolding cleanup_native_pending
    cleanup_native_pending-SeenAbsent p h =
        let (r, _, hr, h1) = Ends-bind _ _ h in prepared-SeenAbsent p r (Ends-outcome_of _ hr) h1

    -- What an error of a rejection means.
    abbrev Cleaned : PendingManagedCredential → Error → W → Type 0
    Cleaned p e w' =
        (e ≡ authenticator credential_may_remain) ⊎ SeenAbsent library a (pending p) pin w'

    report-Cleaned :
        (p : PendingManagedCredential) (original : Error) (cleaned : Bool) {w v w' : W} {e : Error}
        → Ends (cleanup_native_pending b a pin p label policy) w (ok cleaned) v
        → Ends (report b original cleaned) v (err e) w'
        → Cleaned p e w'
    unfolding report
    report-Cleaned p original false k h = inl (cc (Ends-raise _ h).0)
    report-Cleaned p original true k h = inr (
        subst (SeenAbsent library a (pending p) pin) (Ends-raise original h).1
          (cleanup_native_pending-SeenAbsent p k))

    is_done-NeverFails : (r : Outcome Errors.Error (Unit {0})) → NeverFails (is_done b r)
    unfolding is_done
    is_done-NeverFails (fault _) = NeverFails-pure false
    is_done-NeverFails (done _) = NeverFails-pure true

    finish_touched-NeverFails :
        (p : PendingManagedCredential) (r : Result (Unit {0}))
        → NeverFails (finish_touched b a pin p r)
    unfolding finish_touched
    finish_touched-NeverFails p (err _) = NeverFails-pure false
    finish_touched-NeverFails p (ok _) =
        NeverFails-bind _ _ (NeverFails-outcome_of _) is_done-NeverFails

    finish_pending-NeverFails :
        (r : Outcome Errors.Error (Option PendingManagedCredential))
        → NeverFails (finish_pending b a pin label policy r)
    unfolding finish_pending
    finish_pending-NeverFails (fault _) = NeverFails-pure false
    finish_pending-NeverFails (done none) = NeverFails-pure true
    finish_pending-NeverFails (done (some p)) =
        NeverFails-bind _ _ (NeverFails-attempt _) (finish_touched-NeverFails p)

    cleanup_native_pending-NeverFails :
        (p : PendingManagedCredential) → NeverFails (cleanup_native_pending b a pin p label policy)
    unfolding cleanup_native_pending
    cleanup_native_pending-NeverFails p =
        NeverFails-bind _ _ (NeverFails-outcome_of _) finish_pending-NeverFails

    reject_pending_managed-Cleaned :
        (p : PendingManagedCredential) (original : Error) {w w' : W} {e : Error}
        → Ends (reject_pending_managed b a pin p label policy original) w (err e) w'
        → Cleaned p e w'
    unfolding reject_pending_managed
    reject_pending_managed-Cleaned p original {w} {w'} {e} h = elim (Ends-bind_err _ _ h) [
      | inl k ↦ absurd (cleanup_native_pending-NeverFails p w w' e k)
      | inr k ↦ report-Cleaned p original k.0 k.2 k.3
    ]

    -- The credential that an error has to account for is the one of the outcome.
    abbrev pub Accounts : Option PendingManagedCredential → Error → W → Type 0
    Accounts o e w' =
        (e ≡ authenticator credential_may_remain)
        ⊎ ((p : PendingManagedCredential) × (o ≡ some p) × SeenAbsent library a (pending p) pin w')

    reject_any-Accounts :
        (missing original : Error) (o : Option PendingManagedCredential) {w w' : W} {e : Error}
        → (o ≡ none → missing ≡ authenticator credential_may_remain)
        → Ends (reject_any b a pin missing label policy original o) w (err e) w'
        → Accounts o e w'
    unfolding reject_any
    reject_any-Accounts missing original none m h = inl (cc ((Ends-raise missing h).0, m refl))
    reject_any-Accounts missing original (some p) m h =
        elim (reject_pending_managed-Cleaned p original h) [
          | inl k ↦ inl k
          | inr k ↦ inr (p, refl, k)
        ]

    without_session :
        (c : EnrolledCredential) (key : Bytes) (o : Option PendingManagedCredential) {x : Error}
        → with_session b a pin c policy key o ≡ err x
        → x ≡ authenticator credential_may_remain
    unfolding with_session
    without_session c key none k = cc
    without_session c key (some p) k = cc

    accept_key-Accounts :
        (e : Request.Enrollment) (key : Result Bytes) {w w' : W} {x : Error}
        → Ends (accept_key b a pin label policy e key) w (err x) w'
        → Accounts e.managed_cleanup x w'
    unfolding accept_key reject_created_managed
    accept_key-Accounts e (err _) h = reject_any-Accounts _ _ e.managed_cleanup (λ _. refl) h
    accept_key-Accounts e (ok key) h =
        inl (without_session e.credential key e.managed_cleanup (Ends-lift _ h).0)

    accept_created-Accounts :
        (e : Request.Enrollment) (matches : Bool) {w w' : W} {x : Error}
        → Ends (accept_created b a pin label policy e matches) w (err x) w'
        → Accounts e.managed_cleanup x w'
    unfolding accept_created reject_created_managed
    accept_created-Accounts e false h = reject_any-Accounts _ _ e.managed_cleanup (λ _. refl) h
    accept_created-Accounts e true h = accept_key-Accounts e _ h

    -- The credential that an outcome leaves for a clean-up.
    abbrev pub left : Outcome EnrollmentFailure Request.Enrollment → Option PendingManagedCredential
    left (fault f) = f.pending_managed
    left (done e) = e.managed_cleanup

    -- An outcome that leaves no credential reports that one may remain.
    abbrev pub IsAccounted : Outcome EnrollmentFailure Request.Enrollment → Type 0
    IsAccounted (fault f) = f.pending_managed ≡ none → f.error ≡ Errors.credential_may_remain
    IsAccounted (done e) = Unit {0}

    pub accept_managed-Accounts :
        (r : Outcome EnrollmentFailure Request.Enrollment) {w w' : W} {x : Error}
        → IsAccounted r
        → Ends (accept_managed b a pin label policy r) w (err x) w'
        → Accounts (left r) x w'
    unfolding accept_managed reject_failure map_native_error
    accept_managed-Accounts (fault f) k h =
        reject_any-Accounts _ _ f.pending_managed (λ e. ap map_native_error (k e)) h
    accept_managed-Accounts (done e) k h = accept_created-Accounts e _ h
