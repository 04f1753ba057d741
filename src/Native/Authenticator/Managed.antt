-- ===== src/Native/Authenticator/Managed.antt =====
-- crates/fido-key-wrap-libfido2/src/native.rs: the operations of an `Authenticator` on the credentials
-- that it stores.
use fido_key_wrap.Common.{not, ◌&&◌, Option, none, some, Bytes, if◌then◌else◌}
use fido_key_wrap.Native.Errors.{
  ℤ, eq_int, Error, credential_management_unsupported, credential_not_found, credential_mismatch,
  Outcome, fault, done, fault_if,
}
use fido_key_wrap.Native.Action.{Action, pure, raise_from, lift, reads, call, attempt, ◌>>=◌, ◌>>◌}
use fido_key_wrap.Native.Status.{fido_ok, fido_err_no_credentials, retirement_status_is_uncertain}
use fido_key_wrap.Native.Library.{Library, Handle}
use fido_key_wrap.Native.Request.{
  ExactPolicy, presence, user_verified, management, supports_managed, PrfRequest, ManagedCredential,
  PendingManagedCredential, managed_enrollment_matches,
}
use fido_key_wrap.Native.Request.Checks.{
  validate_rp_id, validate_user_id, validate_credential_id, c_string,
}
use fido_key_wrap.Native.Device.{allocate, translate_management, accept}
use fido_key_wrap.Native.Selection.{Authenticator}
use fido_key_wrap.Native.Inventory.{
  ManagedPresence, present, absent, InventoryExpectation, exact, pending, relying_party_id, user_id,
  credential_id, es256_public_key, find,
}
use fido_key_wrap.Native.Assertion.{for_verification, verify_identity}
use fido_key_wrap.Native.Authenticator.{affine, evaluate, if_present, retirement_outcome}

module _ {W : Type 0} (lib : Library W) (a : Authenticator) where
  open lib use {
    fido_dev_make_cred, fido_dev_get_assert, fido_credman_rk_new, fido_credman_get_dev_rk,
    fido_credman_del_dev_rk,
  }

  unfoldable pub validate_managed : InventoryExpectation → Action W Error (Unit {0})
  validate_managed expected = do
    lift (
        fault_if (not (supports_managed a.capabilities management))
          credential_management_unsupported)
    lift (validate_rp_id (relying_party_id expected))
    lift (validate_user_id (user_id expected))
    lift (validate_credential_id (credential_id expected))

  unfoldable pub verify_managed_assertion : InventoryExpectation → Bytes → Action W Error (Unit {0})
  verify_managed_assertion expected pin = do
    assertion ← for_verification lib expected
    status ← call (fido_dev_get_assert a.device assertion (some pin))
    accept lib a.device status "verify managed credential"
    verify_identity lib assertion (credential_id expected) (es256_public_key expected) user_verified

  -- What `managed_presence` makes of the status of `fido_credman_get_dev_rk`.
  unfoldable pub enumerated : InventoryExpectation → Handle → ℤ → Action W Error ManagedPresence
  enumerated expected credentials status =
      if eq_int status fido_err_no_credentials
      then pure absent
      else if not (eq_int status fido_ok)
      then raise_from (translate_management lib a.device status "enumerate managed credentials")
      else reads (λ w. find lib w expected credentials)

  unfoldable pub managed_presence : InventoryExpectation → Bytes → Action W Error ManagedPresence
  managed_presence expected pin = do
    rp_id ← lift (c_string (relying_party_id expected) "relying-party ID contains a NUL byte")
    credentials ← allocate fido_credman_rk_new
    status ← call (fido_credman_get_dev_rk a.device rp_id credentials pin)
    enumerated expected credentials status

  abbrev pub must_be_present : ManagedPresence → Outcome Error (Unit {0})
  must_be_present present = done tt
  must_be_present absent = fault credential_not_found

  unfoldable pub confirm_managed_inventory :
      InventoryExpectation → Bytes → Action W Error (Unit {0})
  confirm_managed_inventory expected pin = do
    p ← managed_presence expected pin
    lift (must_be_present p)

  -- What `delete_managed` makes of the status of `fido_credman_del_dev_rk`.
  unfoldable pub delete_result : ℤ → Action W Error (Outcome Error (Unit {0}))
  delete_result status =
      if not (eq_int status fido_ok) && not (retirement_status_is_uncertain status)
      then raise_from (translate_management lib a.device status "delete managed credential")
      else if eq_int status fido_ok
      then pure (done tt)
      else attempt
          (raise_from (translate_management lib a.device status "delete managed credential"))

  unfoldable pub delete_managed : Bytes → InventoryExpectation → Bytes → Action W Error (Unit {0})
  delete_managed credential_id expected pin = do
    status ← call (fido_credman_del_dev_rk a.device credential_id pin)
    deleted ← delete_result status
    seen ← attempt (managed_presence expected pin)
    lift (retirement_outcome deleted seen)

  unfoldable pub verify_managed : ManagedCredential → Bytes → Action W Error (Unit {0})
  verify_managed credential pin = do
    validate_managed (exact credential)
    verify_managed_assertion (exact credential) pin
    confirm_managed_inventory (exact credential) pin

  abbrev pub assertion_pin : ExactPolicy → Bytes → Option Bytes
  assertion_pin presence pin = none
  assertion_pin user_verified pin = some pin

  unfoldable pub evaluate_managed_enrollment :
      PrfRequest → ManagedCredential → Bytes → Action W Error Bytes
  evaluate_managed_enrollment request credential pin = do
    validate_managed (exact credential)
    lift (fault_if (not (managed_enrollment_matches request credential)) credential_mismatch)
    secret ← evaluate lib a request (assertion_pin request.policy pin)
    confirm_managed_inventory (exact credential) pin
    pure secret

  unfoldable pub retire_managed : ManagedCredential → Bytes → Action W Error (Unit {0})
  retire_managed credential pin = do
    verify_managed credential pin
    delete_managed credential.credential_id (exact credential) pin

  -- Whether there is something to clean up; `ManagedCleanup` holds the arguments.
  unfoldable pub prepare_managed_cleanup :
      PendingManagedCredential → Bytes → Action W Error (Option (PendingManagedCredential))
  prepare_managed_cleanup credential pin = do
    lift (fault_if (not (affine credential.affinity a.affinity)) credential_mismatch)
    validate_managed (pending credential)
    p ← managed_presence (pending credential) pin
    pure (if_present credential p)

  -- `ManagedCleanup::finish`
  unfoldable pub finish_cleanup : PendingManagedCredential → Bytes → Action W Error (Unit {0})
  finish_cleanup credential pin = do
    verify_managed_assertion (pending credential) pin
    delete_managed credential.credential_id (pending credential) pin
