-- ===== src/Backend/Managed.antt =====
-- crates/fido-key-wrap/src/backend.rs: credentials that the authenticator stores, and their removal
-- when an enrolment cannot be kept.
use fido_key_wrap.Common.{Bool, true, false, Option, none, some, Bytes}
use fido_key_wrap.Error.{
  Error, Result, ok, err, authenticator, credential_may_remain, authenticator_response_invalid,
}
use fido_key_wrap.Policy.{FidoPolicy}
use fido_key_wrap.Interaction.{Operation, retire_managed_recipient}
use fido_key_wrap.Effect.{Effect, pure, raise, lift, attempt, ◌>>=◌, ◌>>◌}
use fido_key_wrap.Envelope.Decode.{new_public_key}
use fido_key_wrap.Protector.Env.{ManagedRequest, ManagedEnrollment, PrfRequest}
use fido_key_wrap.Native.Errors
use fido_key_wrap.Native.Errors.{Outcome, fault, done}
use fido_key_wrap.Native.Request
use fido_key_wrap.Native.Request.{
  Config, ExactPolicy, CredentialProtection, ManagedCapability, CredentialStorage,
  PendingManagedCredential, EnrollmentFailure, EnrolledCredential, Capabilities, eq_protection,
  supports_presence_policy, supports_verified_policy, new_pin,
}
use fido_key_wrap.Native.Selection.{Authenticator}
use fido_key_wrap.Native.Authenticator
use fido_key_wrap.Native.Authenticator.Managed
use fido_key_wrap.Native.Authenticator.Managed.{prepare_managed_cleanup, finish_cleanup}
use fido_key_wrap.Backend.Prompts.{
  enrollment, assertion, from_native, outcome_of, map_native_error, native_policy,
  native_protection,
}
use fido_key_wrap.Backend.{
  NativeBackend, ManagedSession, ask_pin, enrollment_request, native_managed_credential,
  native_prf_request, select_managed, touch,
}

abbrev pub managed_enrollment_request : Bytes → Bytes → FidoPolicy → Request.EnrollmentRequest
managed_enrollment_request application recipient policy =
    enrollment_request application policy (CredentialStorage.managed_discoverable recipient)

module _ {W : Type 0} (b : NativeBackend W) where
  open b use {library, wire}

  -- `cleanup.finish().is_ok()`
  unfoldable pub is_done : Outcome Errors.Error (Unit {0}) → Effect W Bool
  is_done (fault _) = pure false
  is_done (done _) = pure true

  -- The second operand of `&&`, after the prompt.
  unfoldable pub finish_touched :
      Authenticator → Bytes → PendingManagedCredential → Result (Unit {0}) → Effect W Bool
  finish_touched a pin p (err _) = pure false
  finish_touched a pin p (ok _) = do
    finished ← outcome_of (finish_cleanup library a p pin)
    is_done finished

  -- `cleanup_native_pending` after `prepare_managed_cleanup`.
  unfoldable pub finish_pending :
      Authenticator
      → Bytes
      → Bytes
      → FidoPolicy
      → Outcome Errors.Error (Option PendingManagedCredential)
      → Effect W Bool
  finish_pending a pin label policy (fault _) = pure false
  finish_pending a pin label policy (done none) = pure true
  finish_pending a pin label policy (done (some p)) = do
    touched ← attempt (touch b retire_managed_recipient label assertion policy)
    finish_touched a pin p touched

  unfoldable pub cleanup_native_pending :
      Authenticator → Bytes → PendingManagedCredential → Bytes → FidoPolicy → Effect W Bool
  cleanup_native_pending a pin p label policy = do
    prepared ← outcome_of (prepare_managed_cleanup library a p pin)
    finish_pending a pin label policy prepared

  -- The error after a clean-up that did what it should, or did not.
  unfoldable pub report : Error → Bool → Effect W (ManagedEnrollment ManagedSession)
  report original true = raise original
  report original false = raise (authenticator credential_may_remain)

  unfoldable pub reject_pending_managed :
      Authenticator
      → Bytes
      → PendingManagedCredential
      → Bytes
      → FidoPolicy
      → Error
      → Effect W (ManagedEnrollment ManagedSession)
  reject_pending_managed a pin p label policy original = do
    cleaned ← cleanup_native_pending a pin p label policy
    report original cleaned

  -- The credential that is to be removed, with the error to return when there is none.
  unfoldable pub reject_any :
      Authenticator
      → Bytes
      → Error
      → Bytes
      → FidoPolicy
      → Error
      → Option PendingManagedCredential
      → Effect W (ManagedEnrollment ManagedSession)
  reject_any a pin missing label policy original none = raise missing
  reject_any a pin missing label policy original (some p) =
      reject_pending_managed a pin p label policy original

  unfoldable pub reject_created_managed :
      Authenticator
      → Bytes
      → Request.Enrollment
      → Bytes
      → FidoPolicy
      → Error
      → Effect W (ManagedEnrollment ManagedSession)
  reject_created_managed a pin enrolled label policy original =
      reject_any a pin (authenticator credential_may_remain) label policy original
        enrolled.managed_cleanup

  -- The branch for an `EnrollmentFailure`.
  unfoldable pub reject_failure :
      Authenticator
      → Bytes
      → EnrollmentFailure
      → Bytes
      → FidoPolicy
      → Effect W (ManagedEnrollment ManagedSession)
  reject_failure a pin failure label policy =
      reject_any a pin (map_native_error failure.error) label policy
        (map_native_error failure.error) failure.pending_managed

  -- The last step of `enroll_managed`.
  unfoldable pub with_session :
      Authenticator
      → Bytes
      → EnrolledCredential
      → FidoPolicy
      → Bytes
      → Option PendingManagedCredential
      → Result (ManagedEnrollment ManagedSession)
  with_session a pin c policy key none = err (authenticator credential_may_remain)
  with_session a pin c policy key (some p) = ok (record {
    credential = record { credential_id = c.credential_id; public_key = key };
    policy = policy;
    session = record { authenticator = a; pin = pin; cleanup = p };
  })

  -- The `let … else` on the public key, and what follows.
  unfoldable pub accept_key :
      Authenticator
      → Bytes
      → Bytes
      → FidoPolicy
      → Request.Enrollment
      → Result Bytes
      → Effect W (ManagedEnrollment ManagedSession)
  accept_key a pin label policy e (err _) =
      reject_created_managed a pin e label policy authenticator_response_invalid
  accept_key a pin label policy e (ok key) =
      lift (with_session a pin e.credential policy key e.managed_cleanup)

  -- The checks of a credential that the authenticator has created and stores.
  unfoldable pub accept_created :
      Authenticator
      → Bytes
      → Bytes
      → FidoPolicy
      → Request.Enrollment
      → Bool
      → Effect W (ManagedEnrollment ManagedSession)
  accept_created a pin label policy e false =
      reject_created_managed a pin e label policy authenticator_response_invalid
  accept_created a pin label policy e true =
      accept_key a pin label policy e (new_public_key wire e.credential.es256_public_key)

  unfoldable pub accept_managed :
      Authenticator
      → Bytes
      → Bytes
      → FidoPolicy
      → Outcome EnrollmentFailure Request.Enrollment
      → Effect W (ManagedEnrollment ManagedSession)
  accept_managed a pin label policy (fault failure) = reject_failure a pin failure label policy
  accept_managed a pin label policy (done e) =
      accept_created a pin label policy e
        (eq_protection e.credential.protection (native_protection policy))

  -- `NativeBackend::enroll_managed` up to the ceremony: the authenticator, and the PIN.
  unfoldable pub prepare_enrollment :
      FidoPolicy → Bytes → Operation → Effect W (Authenticator × Bytes)
  prepare_enrollment policy label operation = do
    a ←
        select_managed b operation label policy
          (ManagedCapability.enrollment (native_policy policy))
    pin ← ask_pin b operation label enrollment
    touch b operation label enrollment policy
    pure (a, pin)

  unfoldable pub enroll_on :
      Bytes
      → Bytes
      → FidoPolicy
      → Bytes
      → Authenticator
      → Bytes
      → Effect W (ManagedEnrollment ManagedSession)
  enroll_on application recipient policy label a pin = do
    enrolled ← outcome_of (
        Authenticator.enroll library a (managed_enrollment_request application recipient policy)
          pin)
    accept_managed a pin label policy enrolled

  -- `NativeBackend::enroll_managed`
  unfoldable pub enroll_managed :
      Bytes → Bytes → FidoPolicy → Bytes → Operation → Effect W (ManagedEnrollment ManagedSession)
  enroll_managed application recipient policy label operation = do
    (a, pin) ← prepare_enrollment policy label operation
    enroll_on application recipient policy label a pin

  unfoldable pub request_native_pin : ManagedRequest → Effect W Bytes
  request_native_pin request = ask_pin b request.operation request.credential.label assertion

  unfoldable pub touch_managed : ManagedRequest → Effect W (Unit {0})
  touch_managed request =
      touch b request.operation request.credential.label assertion request.credential.policy

  -- `NativeBackend::verify_managed`
  unfoldable pub verify_managed : ManagedRequest → Effect W (Unit {0})
  verify_managed request = do
    a ←
        select_managed b request.operation request.credential.label request.credential.policy
          ManagedCapability.management
    pin ← request_native_pin request
    touch_managed request
    from_native (Managed.verify_managed library a (native_managed_credential request) pin)

  unfoldable pub retire_native_managed :
      Authenticator → Bytes → ManagedRequest → Effect W (Unit {0})
  retire_native_managed a pin request = do
    touch_managed request
    from_native (Managed.retire_managed library a (native_managed_credential request) pin)

  -- `NativeBackend::retire_managed`
  unfoldable pub retire_managed : ManagedRequest → Effect W (Unit {0})
  retire_managed request = do
    a ←
        select_managed b request.operation request.credential.label request.credential.policy
          ManagedCapability.management
    pin ← request_native_pin request
    retire_native_managed a pin request

  -- `evaluate_native_managed`
  unfoldable pub evaluate_native_managed : ManagedSession → PrfRequest → Effect W Bytes
  evaluate_native_managed session request = do
    touch b request.operation request.credential.label assertion request.credential.policy
    from_native (
        Managed.evaluate_managed_enrollment library session.authenticator
          (native_prf_request request)
          (native_managed_credential
            (record { credential = request.credential; operation = request.operation }))
          session.pin)

  -- What follows `prepare_managed_cleanup`.
  unfoldable pub finish_prepared :
      ManagedSession → ManagedRequest → Option PendingManagedCredential → Effect W (Unit {0})
  finish_prepared session request none = pure tt
  finish_prepared session request (some p) = do
    touch_managed request
    from_native (finish_cleanup library session.authenticator p session.pin)

  -- `cleanup_native_managed_enrollment`
  unfoldable pub cleanup_native_managed_enrollment :
      ManagedSession → ManagedRequest → Effect W (Unit {0})
  cleanup_native_managed_enrollment session request = do
    prepared ←
        from_native
          (prepare_managed_cleanup library session.authenticator session.cleanup session.pin)
    finish_prepared session request prepared
