-- ===== src/Backend/Enrolled.antt =====
-- What `NativeBackend::enroll_managed` of crates/fido-key-wrap/src/backend.rs returns.
use fido_key_wrap.Common.{
  ◌≡◌, refl, ap, sym, ◌∙◌, Bool, true, false, Bytes, Option, none, some, arith,
}
use fido_key_wrap.Error.{Error, Result, ok, err}
use fido_key_wrap.Policy.{FidoPolicy}
use fido_key_wrap.Interaction.{Operation}
use fido_key_wrap.Effect.Runs.{Ends, Ends-bind, Ends-lift, Ends-raise}
use fido_key_wrap.Native.Errors.{Outcome, fault, done}
use fido_key_wrap.Native.Request
use fido_key_wrap.Native.Request.{PendingManagedCredential, EnrollmentFailure, EnrolledCredential}
use fido_key_wrap.Native.Selection.{Authenticator}
use fido_key_wrap.Native.Authenticator.Tracked.{finish_enrollment_done}
use fido_key_wrap.Native.Authenticator.Created.{Created, Created-done}
use fido_key_wrap.Native.Authenticator.Absent.{moved}
use fido_key_wrap.Envelope.Decode.{new_public_key}
use fido_key_wrap.Protector.Env.{ManagedEnrollment}
use fido_key_wrap.Backend.{NativeBackend, ManagedSession}
use fido_key_wrap.Backend.Managed.{
  report, reject_pending_managed, reject_any, reject_created_managed, reject_failure, with_session,
  accept_key, accept_created, accept_managed, managed_enrollment_request, enroll_on, enroll_managed,
}
use fido_key_wrap.Backend.Cleanup.{Ends-outcome_of}

same_ok : {A : Type 0} {x y : A} → ◌≡◌ {A = Result A} (ok x) (ok y) → x ≡ y
same_ok h = cc

same_some : {A : Type 0} {a b : A} → ◌≡◌ {A = Option A} (some a) (some b) → a ≡ b
same_some h = cc

module _ {W : Type 0} (b : NativeBackend W) (application recipient : Bytes)
    (policy : FidoPolicy) where
  open b use {library, wire}

  -- What a successful enrolment has stored, and what its session keeps for a clean-up.
  pub record Enrolled (m : ManagedEnrollment ManagedSession) : Type 0 where
    pub party : m.session.cleanup.relying_party_id ≡ application
    pub owner : m.session.cleanup.user_id ≡ recipient
    pub maker : m.session.cleanup.affinity ≡ m.session.authenticator.affinity
    pub identity : m.session.cleanup.credential_id ≡ m.credential.credential_id
    pub key : m.session.cleanup.es256_public_key ≡ m.credential.public_key
    pub kept : m.policy ≡ policy
    pub valid : new_public_key b.wire m.credential.public_key ≡ ok m.credential.public_key

  module _ (a : Authenticator) (pin : Bytes) where
    -- What is returned for an accepted credential.
    record Returns (m : ManagedEnrollment ManagedSession) (e : Request.Enrollment) : Type 0 where
      pub pending : PendingManagedCredential
      pub left : e.managed_cleanup ≡ some pending
      pub valid : new_public_key wire e.credential.es256_public_key ≡ ok m.credential.public_key
      pub identity : m.credential.credential_id ≡ e.credential.credential_id
      pub session : m.session ≡ record { authenticator = a; pin = pin; cleanup = pending }
      pub kept : m.policy ≡ policy

  module _ (a : Authenticator) (pin label : Bytes) {m : ManagedEnrollment ManagedSession} where
    unreported :
        (original : Error) (cleaned : Bool) {v w' : W}
        → Ends (report b original cleaned) v (ok m) w'
        → ⊥
    unfolding report
    unreported original true h = absurd (cc (Ends-raise _ h).0)
    unreported original false h = absurd (cc (Ends-raise _ h).0)

    -- A rejection returns no enrolment.
    rejected :
        (missing original : Error) (o : Option PendingManagedCredential) {v w' : W}
        → Ends (reject_any b a pin missing label policy original o) v (ok m) w'
        → ⊥
    unfolding reject_any reject_pending_managed
    rejected missing original none h = absurd (cc (Ends-raise _ h).0)
    rejected missing original (some p) h =
        let (cleaned, _, _, k) = Ends-bind _ _ h in unreported original cleaned k

    session_of :
        (e : Request.Enrollment) (key : Bytes) (o : Option PendingManagedCredential)
        → new_public_key wire e.credential.es256_public_key ≡ ok key
        → e.managed_cleanup ≡ o
        → with_session b a pin e.credential policy key o ≡ ok m
        → Returns a pin m e
    unfolding with_session
    session_of e key none v eo h = absurd (cc h)
    session_of e key (some p) v eo h =
        let same = same_ok h in
        record {
          pending = p;
          left = eo;
          valid =
              v ∙ ap (λ (t : ManagedEnrollment ManagedSession). ok t.credential.public_key) same;
          identity =
              ap (λ (t : ManagedEnrollment ManagedSession). t.credential.credential_id) (sym same);
          session = ap (λ (t : ManagedEnrollment ManagedSession). t.session) (sym same);
          kept = ap (λ (t : ManagedEnrollment ManagedSession). t.policy) (sym same);
        }

    key_accepted :
        (e : Request.Enrollment) (key : Result Bytes) {v w' : W}
        → new_public_key wire e.credential.es256_public_key ≡ key
        → Ends (accept_key b a pin label policy e key) v (ok m) w'
        → Returns a pin m e
    unfolding accept_key reject_created_managed
    key_accepted e (err _) ek h = absurd (rejected _ _ e.managed_cleanup h)
    key_accepted e (ok key) ek h = session_of e key e.managed_cleanup ek refl (Ends-lift _ h).0

    created_accepted :
        (e : Request.Enrollment) (matches : Bool) {v w' : W}
        → Ends (accept_created b a pin label policy e matches) v (ok m) w'
        → Returns a pin m e
    unfolding accept_created reject_created_managed
    created_accepted e false h = absurd (rejected _ _ e.managed_cleanup h)
    created_accepted e true h = key_accepted e _ refl h

    accepted :
        (r : Outcome EnrollmentFailure Request.Enrollment) {v w' : W}
        → Ends (accept_managed b a pin label policy r) v (ok m) w'
        → (e : Request.Enrollment) × (r ≡ done e) × Returns a pin m e
    unfolding accept_managed reject_failure
    accepted (fault f) h = absurd (rejected _ _ f.pending_managed h)
    accepted (done e) h = (e, refl, created_accepted e _ h)

  same_key : (k k' : Bytes) → new_public_key wire k ≡ ok k' → k ≡ k'
  unfolding new_public_key
  same_key k k' h = ground arith

  returned :
      (a : Authenticator) (pin : Bytes) (m : ManagedEnrollment ManagedSession)
      (e : Request.Enrollment) {v : W}
      → Created library a (managed_enrollment_request application recipient policy) pin (done e) v
      → Returns a pin m e
      → Enrolled m
  returned a pin m e c r =
      let (t, ei, ek) = finish_enrollment_done library a c.credential _ recipient refl c.finished in
      let same = same_some (sym t.left ∙ r.left) in
      let cleanup = same ∙ ap (λ (s : ManagedSession). s.cleanup) (sym r.session) in
      let key = same_key _ _ r.valid in
      record {
        party =
            ap (λ (q : PendingManagedCredential). q.relying_party_id) (sym cleanup)
            ∙ t.tracks.party;
        owner = ap (λ (q : PendingManagedCredential). q.user_id) (sym cleanup) ∙ t.tracks.owner;
        maker =
            ap (λ (q : PendingManagedCredential). q.affinity) (sym cleanup)
            ∙ t.tracks.maker
            ∙ ap (λ (s : ManagedSession). s.authenticator.affinity) (sym r.session);
        identity =
            ap (λ (q : PendingManagedCredential). q.credential_id) (sym cleanup)
            ∙ ei
            ∙ sym r.identity;
        key = ap (λ (q : PendingManagedCredential). q.es256_public_key) (sym cleanup) ∙ ek ∙ key;
        kept = r.kept;
        valid = ap (new_public_key wire) (sym key) ∙ r.valid;
      }

  -- A successful enrolment of a managed credential returns a key that is a point of the curve and the
  -- policy that was asked for, and keeps for a clean-up the application, the recipient, the
  -- authenticator that it returns, and the identity and key of the credential that it returns.
  pub enroll_managed-Enrolled :
      (label : Bytes) (operation : Operation) {w w' : W} {m : ManagedEnrollment ManagedSession}
      → Ends (enroll_managed b application recipient policy label operation) w (ok m) w'
      → Enrolled m
  unfolding enroll_managed enroll_on
  enroll_managed-Enrolled label operation {m = m} h =
      let ((a, pin), _, _, h1) = Ends-bind _ _ h in
      let (r, _, hr, h2) = Ends-bind _ _ h1 in
      let (e, er, ret) = accepted a pin label r h2 in
      returned a pin m e (Created-done library a _ pin (moved (Ends-outcome_of _ hr) er refl)) ret
