-- ===== src/Native/Authenticator.antt =====
-- crates/fido-key-wrap-libfido2/src/native.rs: the operations of an `Authenticator`. Its device stays
-- the same, so that it is an argument, and what the device stores is part of the world.
pub mod Managed
pub mod Absent
pub mod Tracked
pub mod Created
use fido_key_wrap.Common.{
  ℕ, Bool, true, false, not, ◌&&◌, ◌||◌, ltb, ◌==◌, Option, none, some, Bytes, length,
  if◌then◌else◌,
}
use fido_key_wrap.Native.Errors.{
  ℤ, eq_int, Error, invalid_input, pin_required, unsupported, credential_management_unsupported,
  credential_may_remain, credential_not_found, credential_mismatch, retirement_uncertain, protocol,
  Outcome, fault, done, fault_if,
}
use fido_key_wrap.Native.Action.{
  Action, pure, raise, raise_from, lift, reads, call, attempt, map_fault, ◌>>=◌, ◌>>◌,
}
use fido_key_wrap.Native.Status.{
  fido_ok, fido_err_no_credentials, managed_enrollment_status_is_uncertain,
  retirement_status_is_uncertain,
}
use fido_key_wrap.Native.Library.{Library, Handle}
use fido_key_wrap.Native.Request.{
  ExactPolicy, presence, user_verified, enrollment, management, supports_policy, supports_managed,
  CredentialStorage, non_discoverable, managed_discoverable, EnrollmentRequest, PrfRequest,
  ManagedCredential, PendingManagedCredential, EnrolledCredential, Enrollment, EnrollmentFailure,
  without_pending, managed_enrollment_matches, max_credential_id_bytes,
}
use fido_key_wrap.Native.Request.Checks.{
  validate_rp_id, validate_name, validate_user_id, validate_credential_id, c_string,
}
use fido_key_wrap.Native.Device.{allocate, random_array, translate, translate_management, accept}
use fido_key_wrap.Native.Selection.{Authenticator}
use fido_key_wrap.Native.Inventory.{
  ManagedPresence, present, absent, InventoryExpectation, exact, pending, relying_party_id, user_id,
  credential_id, es256_public_key, find,
}
use fido_key_wrap.Native.Credential.{for_enrollment, copy_pending_managed, copy_enrollment, verify}
use fido_key_wrap.Native.Assertion.{
  for_evaluation, for_verification, verified_secret, verify_identity,
}

abbrev pub is_managed : CredentialStorage → Bool
is_managed non_discoverable = false
is_managed (managed_discoverable _) = true

abbrev pub affine : ℕ → ℕ → Bool
affine a b = a == b

unfoldable pub retirement_outcome :
    Outcome Error (Unit {0}) → Outcome Error ManagedPresence → Outcome Error (Unit {0})
retirement_outcome _ (done absent) = done tt
retirement_outcome (done _) (done present) = fault protocol
retirement_outcome (fault credential_not_found) (done present) = fault protocol
retirement_outcome (fault e) (done present) = fault e
retirement_outcome _ (fault credential_mismatch) = fault credential_mismatch
retirement_outcome _ (fault _) = fault retirement_uncertain

abbrev pub if_present : {A : Type 0} → A → ManagedPresence → Option A
if_present a present = some a
if_present a absent = none

module _ {W : Type 0} (lib : Library W) (a : Authenticator) where
  open lib use {
    fido_dev_make_cred, fido_dev_get_assert, fido_credman_rk_new, fido_credman_get_dev_rk,
    fido_credman_del_dev_rk,
  }

  -- The test of the managed user's identity.
  unfoldable pub validate_storage : CredentialStorage → Action W Error (Unit {0})
  validate_storage non_discoverable = pure tt
  validate_storage (managed_discoverable user_id) = lift (validate_user_id user_id)

  unfoldable pub validate_enrollment : EnrollmentRequest → Action W Error Bool
  validate_enrollment request = do
    lift (validate_rp_id request.relying_party_id)
    lift (validate_name request.relying_party_name)
    validate_storage request.storage
    lift (
        fault_if
          (is_managed request.storage
            && not (supports_managed a.capabilities (enrollment request.policy)))
          credential_management_unsupported)
    lift (fault_if (not (supports_policy a.capabilities request.policy)) unsupported)
    pure (is_managed request.storage)

  unfoldable pub user_of : CredentialStorage → Action W Error Bytes
  user_of non_discoverable = random_array lib
  user_of (managed_discoverable user_id) = pure user_id

  -- `Authenticator::enroll` up to the call of `fido_dev_make_cred`: the credential to fill.
  unfoldable pub prepare_credential : EnrollmentRequest → Action W Error Handle
  prepare_credential request = do
    managed ← validate_enrollment request
    client_data_hash ← random_array lib
    user ← user_of request.storage
    for_enrollment lib request user client_data_hash managed

  -- The error for a status that is not `FIDO_OK`, by whether a credential may have been stored.
  unfoldable pub refuse : ℤ → Bool → Action W Error (Unit {0})
  refuse status true = raise credential_may_remain
  refuse status false = raise_from (translate lib a.device status "make credential")

  -- The handling of the status of `fido_dev_make_cred`, by whether it is `FIDO_OK`.
  unfoldable pub accept_made_status : Bool → ℤ → Bool → Action W Error (Unit {0})
  accept_made_status managed status true = pure tt
  accept_made_status managed status false =
      refuse status (managed && managed_enrollment_status_is_uncertain status)

  abbrev pub accept_made : Bool → ℤ → Action W Error (Unit {0})
  accept_made managed status = accept_made_status managed status (eq_int status fido_ok)

  -- The `match` on what `copy_pending_managed` returned.
  unfoldable pub tracked :
      Outcome Error PendingManagedCredential
      → Outcome EnrollmentFailure (Option PendingManagedCredential)
  tracked (done p) = done (some p)
  tracked (fault _) = fault (without_pending credential_may_remain)

  -- What a later failure has to remove.
  unfoldable pub pending_of :
      Handle
      → Bytes
      → CredentialStorage
      → Action W EnrollmentFailure (Option PendingManagedCredential)
  pending_of credential relying_party_id non_discoverable = pure none
  pending_of credential relying_party_id (managed_discoverable user) = do
    copied ← attempt (copy_pending_managed lib credential relying_party_id user a.affinity)
    lift (tracked copied)

  abbrev pub failing : Option PendingManagedCredential → Error → EnrollmentFailure
  failing p e = record { error = e; pending_managed = p }

  -- The rest of `Authenticator::enroll`, from `copy_enrollment` on.
  unfoldable pub finish_tracked :
      Handle → ExactPolicy → Option PendingManagedCredential → Action W EnrollmentFailure Enrollment
  finish_tracked credential policy p = do
    copied ← map_fault (failing p) (copy_enrollment lib credential)
    map_fault (failing p) (verify lib credential policy)
    pure (record { credential = copied; managed_cleanup = p })

  -- `Authenticator::enroll` after a call of `fido_dev_make_cred` that succeeded.
  unfoldable pub finish_enrollment :
      Handle → EnrollmentRequest → Action W EnrollmentFailure Enrollment
  finish_enrollment credential request = do
    p ← pending_of credential request.relying_party_id request.storage
    finish_tracked credential request.policy p

  -- `Authenticator::enroll`
  unfoldable pub enroll : EnrollmentRequest → Bytes → Action W EnrollmentFailure Enrollment
  enroll request pin = do
    credential ← map_fault without_pending (prepare_credential request)
    status ← call (fido_dev_make_cred a.device credential pin)
    map_fault without_pending (accept_made (is_managed request.storage) status)
    finish_enrollment credential request

  -- The combinations of policy and PIN that `evaluate` accepts.
  unfoldable pub pin_agrees : ExactPolicy → Option Bytes → Outcome Error (Unit {0})
  pin_agrees presence none = done tt
  pin_agrees user_verified (some _) = done tt
  pin_agrees presence (some _) = fault (invalid_input "presence policy must not receive a PIN")
  pin_agrees user_verified none = fault pin_required

  abbrev pub is_presence : ExactPolicy → Bool
  is_presence presence = true
  is_presence user_verified = false

  -- `Authenticator::evaluate`
  unfoldable pub evaluate : PrfRequest → Option Bytes → Action W Error Bytes
  evaluate request pin = do
    lift (validate_rp_id request.relying_party_id)
    lift (
        fault_if
          ((length request.credential_id == 0)
            || ltb max_credential_id_bytes (length request.credential_id))
          (invalid_input "credential ID length is invalid"))
    lift (pin_agrees request.policy pin)
    lift (fault_if (is_presence request.policy && a.capabilities.always_uv) unsupported)
    assertion ← for_evaluation lib request
    status ← call (fido_dev_get_assert a.device assertion pin)
    accept lib a.device status "get assertion"
    verified_secret lib assertion request.credential_id request.es256_public_key request.policy
