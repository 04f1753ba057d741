-- ===== src/Native/Credential.antt =====
-- crates/fido-key-wrap-libfido2/src/native.rs: `Credential`, the object that an enrolment fills.
use fido_key_wrap.Common.{
  ℕ, ◌+◌, ◌/◌, ◌%◌, Bool, true, false, not, ◌&&◌, ◌||◌, ltb, ◌==◌, Option, none, some, Bytes, take,
  eq_bytes, if◌then◌else◌,
}
use fido_key_wrap.Common.Text.{ascii_bytes}
use fido_key_wrap.Native.Errors.{
  eq_int, Error, verification_failed, protocol, Outcome, fault, done, fault_if, done_or,
}
use fido_key_wrap.Native.Action.{Action, pure, lift, reads, call, ◌>>=◌, ◌>>◌}
use fido_key_wrap.Native.Status.{
  fido_ok, fido_opt_true, fido_opt_false, fido_ext_hmac_secret, fido_ext_cred_protect, cose_es256,
  authdata_up, authdata_uv, authdata_be, authdata_bs,
}
use fido_key_wrap.Native.Library.{Library, Handle}
use fido_key_wrap.Native.Request.{
  ExactPolicy, presence, user_verified, native_protection, from_native, EnrollmentRequest,
  EnrolledCredential, PendingManagedCredential, max_credential_id_bytes, es256_public_key_bytes,
}
use fido_key_wrap.Native.Request.Checks.{c_string}
use fido_key_wrap.Native.Device.{allocate, set}

-- `flags & mask != 0` for a mask of one bit.
abbrev pub has_bit : ℕ → ℕ → Bool
has_bit mask flags = not ((flags / mask) % 2 == 0)

-- `uv == (policy == ExactPolicy::UserVerified)`
abbrev pub uv_exact : Bool → ExactPolicy → Bool
uv_exact uv presence = not uv
uv_exact uv user_verified = uv

unfoldable pub flags_match : ℕ → ExactPolicy → Bool
flags_match flags policy =
    has_bit authdata_up flags
    && uv_exact (has_bit authdata_uv flags) policy
    && not (has_bit authdata_be flags)
    && not (has_bit authdata_bs flags)

unfoldable pub attestation_certificate_present : Option Bytes → ℕ → Outcome Error Bool
attestation_certificate_present none len =
    if len == 0 then done false else fault verification_failed
attestation_certificate_present (some bytes) len =
    if len == 0 then fault verification_failed else done true

-- `format.is_null() || … != b"packed"`
abbrev pub is_packed : Option Bytes → Bool
is_packed none = false
is_packed (some format) = eq_bytes format (ascii_bytes "packed")

module _ {W : Type 0} (lib : Library W) where
  open lib use {
    fido_cred_new, fido_cred_set_clientdata_hash, fido_cred_set_rp, fido_cred_set_user,
    fido_cred_set_type, fido_cred_set_extensions, fido_cred_set_prot, fido_cred_set_rk,
    fido_cred_set_uv, fido_cred_verify, fido_cred_verify_self, fido_cred_fmt, fido_cred_type,
    fido_cred_prot, fido_cred_flags, fido_cred_x5c_ptr, fido_cred_x5c_len, fido_cred_id_ptr,
    fido_cred_id_len, fido_cred_pubkey_ptr, fido_cred_pubkey_len,
  }

  unfoldable pub for_enrollment : EnrollmentRequest → Bytes → Bytes → Bool → Action W Error Handle
  for_enrollment request user_id client_data_hash managed = do
    rp_id ← lift (c_string request.relying_party_id "relying-party ID contains a NUL byte")
    rp_name ← lift (c_string request.relying_party_name "relying-party name contains a NUL byte")
    user_name ← lift (c_string (ascii_bytes "fido-key-wrap") "fixed user name is invalid")
    raw ← allocate fido_cred_new
    set "set client-data hash" (fido_cred_set_clientdata_hash raw client_data_hash)
    set "set relying party" (fido_cred_set_rp raw rp_id rp_name)
    set "set user" (fido_cred_set_user raw user_id user_name user_name)
    set "set ES256" (fido_cred_set_type raw cose_es256)
    set "set extensions"
        (fido_cred_set_extensions raw (fido_ext_hmac_secret + fido_ext_cred_protect))
    set "set credential protection" (fido_cred_set_prot raw (native_protection request.policy))
    set "set credential storage"
        (fido_cred_set_rk raw (if managed then fido_opt_true else fido_opt_false))
    set "require user verification" (fido_cred_set_uv raw fido_opt_true)
    pure raw

  unfoldable pub copy_id : Handle → W → Outcome Error Bytes
  copy_id raw w = copied (fido_cred_id_ptr raw w) (fido_cred_id_len raw w)
    where
      copied : Option Bytes → ℕ → Outcome Error Bytes
      copied none len = fault protocol
      copied (some bytes) len =
          if (len == 0) || ltb max_credential_id_bytes len
          then fault protocol
          else done (take len bytes)

  unfoldable pub copy_public_key : Handle → W → Outcome Error Bytes
  copy_public_key raw w =
      if not (fido_cred_pubkey_len raw w == es256_public_key_bytes)
      then fault protocol
      else copied (fido_cred_pubkey_ptr raw w)
    where
      copied : Option Bytes → Outcome Error Bytes
      copied none = fault protocol
      copied (some bytes) = done (take es256_public_key_bytes bytes)

  -- The enrolment, as yet without its clean-up.
  unfoldable pub copy_enrollment : Handle → Action W Error EnrolledCredential
  copy_enrollment raw = do
    protection ← reads (λ w. done_or verification_failed (from_native (fido_cred_prot raw w)))
    id ← reads (copy_id raw)
    key ← reads (copy_public_key raw)
    pure (record { credential_id = id; es256_public_key = key; protection = protection })

  unfoldable pub copy_pending_managed :
      Handle → Bytes → Bytes → ℕ → Action W Error PendingManagedCredential
  copy_pending_managed raw relying_party_id user_id affinity = do
    id ← reads (copy_id raw)
    key ← reads (copy_public_key raw)
    pure (record {
      relying_party_id = relying_party_id;
      user_id = user_id;
      credential_id = id;
      es256_public_key = key;
      affinity = affinity;
    })

  -- `Credential::verify`
  unfoldable pub verify : Handle → ExactPolicy → Action W Error (Unit {0})
  verify raw policy = do
    reads (λ w. fault_if (not (is_packed (fido_cred_fmt raw w))) verification_failed)
    reads (λ w.
        fault_if
          (not (eq_int (fido_cred_type raw w) cose_es256)
            || not (eq_int (fido_cred_prot raw w) (native_protection policy)))
          verification_failed)
    certified ←
        reads
          (λ w. attestation_certificate_present (fido_cred_x5c_ptr raw w) (fido_cred_x5c_len raw w))
    status ← call (if certified then fido_cred_verify raw else fido_cred_verify_self raw)
    lift (fault_if (not (eq_int status fido_ok)) verification_failed)
    reads (λ w.
        fault_if (not (flags_match (fido_cred_flags raw w) user_verified)) verification_failed)
