-- ===== src/Native/Inventory.antt =====
-- crates/fido-key-wrap-libfido2/src/native.rs: the managed credentials that an authenticator
-- enumerates for a relying party (`ManagedCredentials`), against the one that is expected.
pub mod Laws
pub mod Found
use fido_key_wrap.Common.{
  ℕ, zero, suc, ◌+◌, Bool, true, false, not, ◌||◌, ltb, ◌==◌, Option, none, some, Bytes, length,
  take, eq_bytes,
}
use fido_key_wrap.Native.Errors.{
  ℤ, eq_int, Error, protocol, credential_mismatch, Outcome, fault, done, fault_if, done_or,
  map_done, ◌>>=◌, ◌>>◌,
}
use fido_key_wrap.Native.Status.{cose_es256}
use fido_key_wrap.Native.Library.{Library, Handle}
use fido_key_wrap.Native.Request.{
  CredentialProtection, native_code, ManagedCredential, PendingManagedCredential,
  max_credential_id_bytes, max_user_id_bytes, es256_public_key_bytes,
}

pub data ManagedPresence : Type 0 where
  present absent : ManagedPresence

pub data InventoryExpectation : Type 0 where
  exact : ManagedCredential → InventoryExpectation
  pending : PendingManagedCredential → InventoryExpectation

abbrev pub relying_party_id : InventoryExpectation → Bytes
relying_party_id (exact c) = c.relying_party_id
relying_party_id (pending c) = c.relying_party_id

abbrev pub user_id : InventoryExpectation → Bytes
user_id (exact c) = c.user_id
user_id (pending c) = c.user_id

abbrev pub credential_id : InventoryExpectation → Bytes
credential_id (exact c) = c.credential_id
credential_id (pending c) = c.credential_id

abbrev pub es256_public_key : InventoryExpectation → Bytes
es256_public_key (exact c) = c.es256_public_key
es256_public_key (pending c) = c.es256_public_key

abbrev pub protection : InventoryExpectation → Option CredentialProtection
protection (exact c) = some c.protection
protection (pending c) = none

abbrev pub max_managed_credentials_per_rp : ℕ
max_managed_credentials_per_rp = 1_024

-- The bytes at a pointer, which may be null.
unfoldable pub copy_native_bytes : Option Bytes → ℕ → ℕ → Outcome Error Bytes
copy_native_bytes none len max_len = fault protocol
copy_native_bytes (some bytes) len max_len = do
  fault_if ((len == 0) || ltb max_len len) protocol
  done (take len bytes)

abbrev pub both : Bool → Bool → Outcome Error Bool
both false false = done false
both true true = done true
both _ _ = fault credential_mismatch

unfoldable pub managed_identity_matches : Bytes → Bytes → InventoryExpectation → Outcome Error Bool
managed_identity_matches actual_id actual_user_id expected =
    both (eq_bytes actual_id (credential_id expected)) (eq_bytes actual_user_id (user_id expected))

-- `is_none_or`
abbrev pub admits_protection : Option CredentialProtection → ℤ → Bool
admits_protection none actual = true
admits_protection (some p) actual = eq_int actual (native_code p)

-- `found` before and after.
unfoldable pub include_managed_match :
    Bool → ℤ → ℤ → Bytes → InventoryExpectation → Outcome Error Bool
include_managed_match found actual_type actual_protection actual_public_key expected = do
  fault_if
      (found
        || not (eq_int actual_type cose_es256)
        || not (admits_protection (protection expected) actual_protection)
        || not (eq_bytes actual_public_key (es256_public_key expected)))
      credential_mismatch
  done true

-- `if found { Present } else { Absent }`
abbrev pub presence : Bool → ManagedPresence
presence true = present
presence false = absent

module _ {W : Type 0} (lib : Library W) (w : W) (expected : InventoryExpectation) where
  open lib use {
    fido_cred_id_ptr, fido_cred_id_len, fido_cred_user_id_ptr, fido_cred_user_id_len,
    fido_cred_pubkey_ptr, fido_cred_pubkey_len, fido_cred_type, fido_cred_prot, fido_credman_rk,
    fido_credman_rk_count,
  }

  -- The body of the loop after the test of the identities.
  unfoldable pub include_credential : Bool → Handle → Bool → Outcome Error Bool
  include_credential found credential false = done found
  include_credential found credential true = do
    public_key ←
        copy_native_bytes (fido_cred_pubkey_ptr credential w) (fido_cred_pubkey_len credential w)
          es256_public_key_bytes
    include_managed_match found (fido_cred_type credential w) (fido_cred_prot credential w)
        public_key expected

  -- The body of the loop: `found` before and after.
  unfoldable pub visit : Handle → ℕ → Bool → Outcome Error Bool
  visit credentials index found = do
    credential ← done_or protocol (fido_credman_rk credentials index w)
    id ←
        copy_native_bytes (fido_cred_id_ptr credential w) (fido_cred_id_len credential w)
          max_credential_id_bytes
    user ←
        copy_native_bytes (fido_cred_user_id_ptr credential w) (fido_cred_user_id_len credential w)
          max_user_id_bytes
    matches ← managed_identity_matches id user expected
    include_credential found credential matches

  -- The loop, with the number of entries that are left.
  unfoldable pub visit_all : Handle → ℕ → ℕ → Bool → Outcome Error Bool
  visit_all credentials index zero found = done found
  visit_all credentials index (suc left) found =
      visit credentials index found >>= visit_all credentials (index + 1) left

  -- `ManagedCredentials::find`
  unfoldable pub find : Handle → Outcome Error ManagedPresence
  find credentials = do
    fault_if (ltb max_managed_credentials_per_rp (fido_credman_rk_count credentials w)) protocol
    found ← visit_all credentials 0 (fido_credman_rk_count credentials w) false
    done (presence found)
