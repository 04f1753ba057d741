-- ===== src/Native/Assertion.antt =====
-- crates/fido-key-wrap-libfido2/src/native.rs: `Assertion`, the object that a ceremony with a
-- credential fills, and the two ceremonies that prepare one.
pub mod Verified
use fido_key_wrap.Common.{
  ℕ, Bool, true, false, not, ◌||◌, ◌==◌, Option, none, some, Bytes, length, take, eq_bytes,
  if◌then◌else◌,
}
use fido_key_wrap.Native.Errors.{
  ℤ, eq_int, Error, verification_failed, Outcome, fault, done, fault_if, done_or,
}
use fido_key_wrap.Native.Action.{Action, pure, lift, reads, call, ◌>>=◌, ◌>>◌}
use fido_key_wrap.Native.Status.{
  fido_ok, fido_opt_true, fido_opt_false, fido_ext_hmac_secret, cose_es256,
}
use fido_key_wrap.Native.Library.{Library, Handle}
use fido_key_wrap.Native.Request.{ExactPolicy, presence, user_verified, PrfRequest, secret_bytes}
use fido_key_wrap.Native.Request.Checks.{c_string}
use fido_key_wrap.Native.Device.{allocate, set, checked, random_array}
use fido_key_wrap.Native.Credential.{flags_match}
use fido_key_wrap.Native.Inventory.{InventoryExpectation, relying_party_id, credential_id}

module _ {W : Type 0} (lib : Library W) where
  open lib use {
    fido_assert_new, fido_assert_set_rp, fido_assert_set_clientdata_hash, fido_assert_allow_cred,
    fido_assert_set_extensions, fido_assert_set_hmac_salt, fido_assert_set_up, fido_assert_set_uv,
    es256_pk_new, es256_pk_from_ptr, fido_assert_verify, fido_assert_count, fido_assert_flags,
    fido_assert_id_ptr, fido_assert_id_len, fido_assert_hmac_secret_ptr,
    fido_assert_hmac_secret_len,
  }

  abbrev pub uv_option : ExactPolicy → ℤ
  uv_option presence = fido_opt_false
  uv_option user_verified = fido_opt_true

  -- The assertion that `Authenticator::evaluate` sends.
  unfoldable pub for_evaluation : PrfRequest → Action W Error Handle
  for_evaluation request = do
    rp_id ← lift (c_string request.relying_party_id "relying-party ID contains a NUL byte")
    client_data_hash ← random_array lib
    raw ← allocate fido_assert_new
    set "set relying party" (fido_assert_set_rp raw rp_id)
    set "set client-data hash" (fido_assert_set_clientdata_hash raw client_data_hash)
    set "set allowed credential" (fido_assert_allow_cred raw request.credential_id)
    set "set hmac-secret extension" (fido_assert_set_extensions raw fido_ext_hmac_secret)
    set "set hmac-secret salt" (fido_assert_set_hmac_salt raw request.salt)
    set "require user presence" (fido_assert_set_up raw fido_opt_true)
    set "set exact user verification" (fido_assert_set_uv raw (uv_option request.policy))
    pure raw

  -- The assertion that `Authenticator::verify_managed_assertion` sends.
  unfoldable pub for_verification : InventoryExpectation → Action W Error Handle
  for_verification expected = do
    rp_id ← lift (c_string (relying_party_id expected) "relying-party ID contains a NUL byte")
    client_data_hash ← random_array lib
    raw ← allocate fido_assert_new
    set "set relying party" (fido_assert_set_rp raw rp_id)
    set "set client-data hash" (fido_assert_set_clientdata_hash raw client_data_hash)
    set "set allowed credential" (fido_assert_allow_cred raw (credential_id expected))
    set "require user presence" (fido_assert_set_up raw fido_opt_true)
    set "require user verification" (fido_assert_set_uv raw fido_opt_true)
    pure raw

  -- `Es256PublicKey::from_bytes`
  unfoldable pub from_bytes : Bytes → Action W Error Handle
  from_bytes bytes = do
    key ← allocate es256_pk_new
    checked (λ _. verification_failed) (es256_pk_from_ptr key bytes)
    pure key

  -- The bytes at `pointer` are `expected`.
  abbrev pub points_to : Option Bytes → ℕ → Bytes → Bool
  points_to none len expected = false
  points_to (some bytes) len expected = eq_bytes (take len bytes) expected

  unfoldable pub verify_identity : Handle → Bytes → Bytes → ExactPolicy → Action W Error (Unit {0})
  verify_identity raw expected_id public_key policy = do
    reads (λ w. fault_if (not (fido_assert_count raw w == 1)) verification_failed)
    key ← from_bytes public_key
    checked (λ _. verification_failed) (fido_assert_verify raw 0 cose_es256 key)
    reads (λ w. fault_if (not (flags_match (fido_assert_flags raw 0 w) policy)) verification_failed)
    reads (λ w.
        fault_if
          (not (fido_assert_id_len raw 0 w == length expected_id)
            || not
                (points_to (fido_assert_id_ptr raw 0 w) (fido_assert_id_len raw 0 w) expected_id))
          verification_failed)

  -- `exact_secret_pointer`
  unfoldable pub exact_secret_pointer : Option Bytes → ℕ → Outcome Error Bytes
  exact_secret_pointer pointer len =
      if not (len == secret_bytes)
      then fault verification_failed
      else done_or verification_failed pointer

  unfoldable pub copy_secret : Outcome Error Bytes → Outcome Error Bytes
  copy_secret (fault e) = fault e
  copy_secret (done bytes) = done (take secret_bytes bytes)

  unfoldable pub verified_secret : Handle → Bytes → Bytes → ExactPolicy → Action W Error Bytes
  verified_secret raw expected_id public_key policy = do
    verify_identity raw expected_id public_key policy
    reads (λ w. copy_secret (
        exact_secret_pointer (fido_assert_hmac_secret_ptr raw 0 w)
          (fido_assert_hmac_secret_len raw 0 w)))
