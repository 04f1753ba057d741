-- ===== src/Backend/Enrolling.antt =====
-- How `NativeBackend::enroll_managed` of crates/fido-key-wrap/src/backend.rs ends.
use fido_key_wrap.Common.{◌≡◌, refl, ap, sym, ◌∙◌, inl, inr, Bytes, Option, none, some}
use fido_key_wrap.Error.{Error, Result, ok, err, authenticator, credential_may_remain}
use fido_key_wrap.Policy.{FidoPolicy}
use fido_key_wrap.Interaction.{Operation}
use mathlib.Core.Path.{subst}
use fido_key_wrap.Effect.{raise}
use fido_key_wrap.Effect.Runs.{Ends, Ends-bind_err, Ends-raise}
use fido_key_wrap.Native.Errors.{Outcome, fault, done}
use fido_key_wrap.Native.Library.{Handle}
use fido_key_wrap.Native.Request
use fido_key_wrap.Native.Request.{PendingManagedCredential, EnrollmentFailure}
use fido_key_wrap.Native.Inventory.{pending}
use fido_key_wrap.Native.Selection.{Authenticator}
use fido_key_wrap.Native.Authenticator.{enroll}
use fido_key_wrap.Native.Action.Runs
use fido_key_wrap.Native.Authenticator.Absent.{SeenAbsent}
use fido_key_wrap.Native.Authenticator.Tracked.{
  IsTracked, finish_enrollment_fault, finish_enrollment_done,
}
use fido_key_wrap.Native.Authenticator.Created.{
  Uncreated, unprepared, refused, Created, Created-fault, Created-done,
}
use fido_key_wrap.Protector.Env.{ManagedEnrollment}
use fido_key_wrap.Backend.Prompts.{map_native_error}
use fido_key_wrap.Backend.{NativeBackend, ManagedSession}
use fido_key_wrap.Backend.Managed.{
  prepare_enrollment, managed_enrollment_request, enroll_on, enroll_managed, accept_managed,
  reject_failure, reject_any,
}
use fido_key_wrap.Backend.Cleanup.{
  Ends-outcome_of, IsAccounted, left, accept_managed-Accounts, NeverFails-outcome_of,
}

same_some : {A : Type 0} {a b : A} → ◌≡◌ {A = Option A} (some a) (some b) → a ≡ b
same_some h = cc

same_err : {A : Type 0} {x y : Error} → ◌≡◌ {A = Result A} (err x) (err y) → x ≡ y
same_err h = cc

module _ {W : Type 0} (b : NativeBackend W) (application recipient : Bytes)
    (policy : FidoPolicy) where
  open b use {library}

  -- Every way in which the enrolment can fail. In the first two no authenticator was asked for a
  -- credential, or its status was not ambiguous.
  pub data Failed (label : Bytes) (operation : Operation) (w : W) (x : Error) (w' : W)
      : Type 0 where
    unasked :
        Ends (prepare_enrollment b policy label operation) w (err x) w'
        → Failed label operation w x w'
    uncreated :
        (a : Authenticator) (pin : Bytes) {v v' : W} (f : EnrollmentFailure)
        → Ends (prepare_enrollment b policy label operation) w (ok (a, pin)) v
        → Uncreated library a (managed_enrollment_request application recipient policy) pin v f v'
        → x ≡ map_native_error f.error
        → Failed label operation w x w'
    may_remain : x ≡ authenticator credential_may_remain → Failed label operation w x w'
    removed :
        (a : Authenticator) (pin : Bytes) (p : PendingManagedCredential)
        → p.relying_party_id ≡ application
        → p.user_id ≡ recipient
        → SeenAbsent library a (pending p) pin w'
        → Failed label operation w x w'

  module _ (a : Authenticator) (pin label : Bytes) where
    -- What the new credential is known by.
    abbrev Known : Option PendingManagedCredential → Type 0
    Known o =
        (p : PendingManagedCredential)
        → o ≡ some p
        → (p.relying_party_id ≡ application) × (p.user_id ≡ recipient)

    Known-by :
        {c : Handle} {v : W} {o : Option PendingManagedCredential}
        → IsTracked library a c application recipient v o
        → Known o
    Known-by t p e =
        let same = same_some (sym t.left ∙ e) in
        (
          ap (λ (q : PendingManagedCredential). q.relying_party_id) (sym same) ∙ t.tracks.party,
          ap (λ (q : PendingManagedCredential). q.user_id) (sym same) ∙ t.tracks.owner,
        )

    accounted :
        {operation : Operation} (r : Outcome EnrollmentFailure Request.Enrollment) {v w w' : W}
        {x : Error}
        → IsAccounted b a pin label policy r
        → Known (left b a pin label policy r)
        → Ends (accept_managed b a pin label policy r) v (err x) w'
        → Failed label operation w x w'
    accounted r acc known h = elim (accept_managed-Accounts b a pin label policy r acc h) [
      | inl e ↦ may_remain e
      | inr (p, el, seen) ↦ let (party, owner) = known p el in removed a pin p party owner seen
    ]

    accounted_fault :
        {operation : Operation} (f : EnrollmentFailure) {v w w' : W} {x : Error}
        → Created library a
            (managed_enrollment_request application recipient policy)
            pin
            (fault f)
            v
        → Ends (accept_managed b a pin label policy (fault f)) v (err x) w'
        → Failed label operation w x w'
    accounted_fault f c h =
        elim (finish_enrollment_fault library a c.credential _ recipient refl c.finished) [
          | inl e ↦
              accounted (fault f) (λ _. ap (λ (t : EnrollmentFailure). t.error) e)
                (λ p k. absurd (cc (ap (λ (t : EnrollmentFailure). t.pending_managed) e, k))) h
          | inr t ↦ accounted (fault f) (λ k. absurd (cc (k, t.left))) (Known-by t) h
        ]

    accounted_done :
        {operation : Operation} (e : Request.Enrollment) {v w w' : W} {x : Error}
        → Created library a (managed_enrollment_request application recipient policy) pin (done e) v
        → Ends (accept_managed b a pin label policy (done e)) v (err x) w'
        → Failed label operation w x w'
    accounted_done e c h =
        let (t, _, _) = finish_enrollment_done library a c.credential _ recipient refl c.finished in
        accounted (done e) tt (Known-by t) h

  nothing_left :
      {a : Authenticator} {pin : Bytes} {f : EnrollmentFailure} {v u : W}
      → Uncreated library a (managed_enrollment_request application recipient policy) pin v f u
      → f.pending_managed ≡ none
  nothing_left (unprepared _ n) = n
  nothing_left (refused _ _ _ _ _ n) = n

  unpending_error :
      (a : Authenticator) (pin label : Bytes) (f : EnrollmentFailure) {u w' : W} {x : Error}
      → f.pending_managed ≡ none
      → Ends (accept_managed b a pin label policy (fault f)) u (err x) w'
      → x ≡ map_native_error f.error
  unfolding accept_managed reject_failure reject_any
  unpending_error a pin label f {u} {w'} {x} n h = same_err (sym (Ends-raise _ raised).0)
    where
      raised :
          Ends {A = ManagedEnrollment ManagedSession}
            (raise (map_native_error f.error))
            u
            (err x)
            w'
      raised =
          subst
            (λ o.
              Ends
                (reject_any b a pin (map_native_error f.error) label policy
                  (map_native_error f.error) o)
                u (err x) w')
            n h

  on_error :
      (label : Bytes) (operation : Operation) (a : Authenticator) (pin : Bytes) {w v u w' : W}
      {x : Error} (r : Outcome EnrollmentFailure Request.Enrollment)
      → Ends (prepare_enrollment b policy label operation) w (ok (a, pin)) v
      → Runs.Ends
          (enroll library a (managed_enrollment_request application recipient policy) pin)
          v
          r
          u
      → Ends (accept_managed b a pin label policy r) u (err x) w'
      → Failed label operation w x w'
  unfolding map_native_error
  on_error label operation a pin (fault f) hp he h = elim (Created-fault library a _ pin refl he) [
    | inl n ↦ uncreated a pin f hp n (unpending_error a pin label f (nothing_left n) h)
    | inr (inl unsure) ↦ may_remain (
        unpending_error a pin label f (ap (λ (t : EnrollmentFailure). t.pending_managed) unsure) h
        ∙ ap (λ (t : EnrollmentFailure). map_native_error t.error) unsure)
    | inr (inr c) ↦ accounted_fault a pin label f c h
  ]
  on_error label operation a pin (done e) hp he h =
      accounted_done a pin label e (Created-done library a _ pin he) h

  -- An enrolment of a managed credential that fails has ended before an authenticator was asked for
  -- one, or with a status from it that is not ambiguous, or reports that a credential may remain, or
  -- ended with an enumeration in which the credential of this application and recipient was absent. A
  -- status is ambiguous for a time that is over, a failed transport, an answer that cannot be read and
  -- an internal error.
  pub enroll_managed-Failed :
      (label : Bytes) (operation : Operation) {w w' : W} {x : Error}
      → Ends (enroll_managed b application recipient policy label operation) w (err x) w'
      → Failed label operation w x w'
  unfolding enroll_managed enroll_on
  enroll_managed-Failed label operation {w} {w'} {x} h = elim (Ends-bind_err _ _ h) [
    | inl k ↦ unasked k
    | inr ((a, pin), v, hp, k) ↦ elim (Ends-bind_err _ _ k) [
      | inl l ↦ absurd (NeverFails-outcome_of _ v w' x l)
      | inr (r, u, hr, l) ↦ on_error label operation a pin r hp (Ends-outcome_of _ hr) l
    ]
  ]
