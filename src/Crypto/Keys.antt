-- ===== src/Crypto/Keys.antt =====
-- crates/fido-key-wrap/src/crypto.rs: the keys that are derived for one layer of a recipient. The
-- memory that is cleared when a key leaves scope has no counterpart in the model.
use fido_key_wrap.Common.{[], ◌∷◌, not, ◌==◌, Bytes}
use fido_key_wrap.Common.Text.{ascii_bytes}
use fido_key_wrap.Error.{
  Result, ok, err, ok_or, reject_if, ◌>>=◌, ◌>>◌, invalid_envelope, kdf_resource_unavailable,
  unlock_failed,
}
use fido_key_wrap.Transcript
use fido_key_wrap.Envelope.{
  RecipientRecord, passphrase, fido, fido_and_passphrase, KdfDescriptor, RecoverySecretRecord,
  FidoAndLocalSecretRecipient,
}
use fido_key_wrap.Crypto.Suite.{Suite}
use fido_key_wrap.Crypto.Context.{recipient_context, recovery_secret_context, fido_local_context}

unfoldable pub passphrase_key_domain : Bytes
unfolding ascii_bytes
passphrase_key_domain = ascii_bytes "fido_key_wrap/format_1/passphrase_key"

unfoldable pub fido_key_domain : Bytes
unfolding ascii_bytes
fido_key_domain = ascii_bytes "fido_key_wrap/format_1/fido_key"

unfoldable pub fido_local_fido_key_domain : Bytes
unfolding ascii_bytes
fido_local_fido_key_domain = ascii_bytes "fido_key_wrap/format_1/fido_local_fido_key"

unfoldable pub fido_local_secret_key_domain : Bytes
unfolding ascii_bytes
fido_local_secret_key_domain = ascii_bytes "fido_key_wrap/format_1/fido_local_secret_key"

unfoldable pub fido_local_combined_key_domain : Bytes
unfolding ascii_bytes
fido_local_combined_key_domain = ascii_bytes "fido_key_wrap/format_1/fido_local_combined_key"

unfoldable pub recovery_secret_key_domain : Bytes
unfolding ascii_bytes
recovery_secret_key_domain = ascii_bytes "fido_key_wrap/format_1/recovery_secret_key"

module _ (s : Suite) where
  -- key material, salt, info
  unfoldable pub derive_key : Bytes → Bytes → Bytes → Result Bytes
  derive_key ikm salt info = ok_or invalid_envelope (s.hkdf salt ikm info)

  unfoldable pub argon2_output : Bytes → KdfDescriptor → Result Bytes
  argon2_output pass kdf = do
    block_count ←
        ok_or invalid_envelope (
          s.argon2_block_count kdf.parameters.memory_kib kdf.parameters.passes kdf.parameters.lanes)
    reject_if (not (block_count == kdf.parameters.memory_kib)) invalid_envelope
    reject_if (not (s.reserve block_count)) kdf_resource_unavailable
    ok_or unlock_failed (
        s.argon2 kdf.parameters.memory_kib kdf.parameters.passes kdf.parameters.lanes pass kdf.salt)

  abbrev pub kdf_of : RecipientRecord → Result KdfDescriptor
  kdf_of (passphrase r) = ok r.kdf
  kdf_of (fido_and_passphrase r) = ok r.kdf
  kdf_of _ = err invalid_envelope

  -- recipient, application, envelope, passphrase
  unfoldable pub derive_passphrase_key : RecipientRecord → Bytes → Bytes → Bytes → Result Bytes
  derive_passphrase_key r application envelope_id pass = do
    kdf ← kdf_of r
    context ← recipient_context s r application envelope_id
    intermediate ← argon2_output pass kdf
    info ← Transcript.encode (passphrase_key_domain ∷ context ∷ [])
    derive_key intermediate envelope_id info

  unfoldable pub hash_fido_key : RecipientRecord → Bytes → Bytes → Bytes → Result Bytes
  hash_fido_key r application envelope_id prf = do
    context ← recipient_context s r application envelope_id
    info ← Transcript.encode (fido_key_domain ∷ context ∷ [])
    derive_key prf envelope_id info

  -- recipient, application, envelope, verified prf result
  unfoldable pub derive_fido_key : RecipientRecord → Bytes → Bytes → Bytes → Result Bytes
  derive_fido_key (fido r) application envelope_id prf =
      hash_fido_key (fido r) application envelope_id prf
  derive_fido_key (fido_and_passphrase r) application envelope_id prf =
      hash_fido_key (fido_and_passphrase r) application envelope_id prf
  derive_fido_key r application envelope_id prf = err invalid_envelope

  -- recipient, application, envelope, verified prf result, local secret
  unfoldable pub derive_fido_local_key :
      FidoAndLocalSecretRecipient → Bytes → Bytes → Bytes → Bytes → Result Bytes
  derive_fido_local_key r application envelope_id prf local_secret = do
    context ← fido_local_context s r application envelope_id
    fido_info ← Transcript.encode (fido_local_fido_key_domain ∷ context ∷ [])
    fido_key ← derive_key prf envelope_id fido_info
    local_info ← Transcript.encode (fido_local_secret_key_domain ∷ context ∷ [])
    local_key ← derive_key local_secret envelope_id local_info
    combined_info ← Transcript.encode (fido_local_combined_key_domain ∷ context ∷ [])
    derive_key fido_key local_key combined_info

  -- recipient, application, envelope, recovery secret
  unfoldable pub derive_recovery_secret_key :
      RecoverySecretRecord → Bytes → Bytes → Bytes → Result Bytes
  derive_recovery_secret_key r application envelope_id secret = do
    context ← recovery_secret_context s r application envelope_id
    info ← Transcript.encode (recovery_secret_key_domain ∷ context ∷ [])
    derive_key secret envelope_id info
