-- ===== src/Crypto/Wrap.antt =====
-- crates/fido-key-wrap/src/crypto.rs: the root under the key of a layer, and back.
pub mod RoundTrip
pub mod Total
pub mod Layers
use fido_key_wrap.Common.{
  ℕ, ◌+◌, Option, none, some, [], ◌∷◌, ◌++◌, not, ◌==◌, Bytes, take, drop, length,
}
use fido_key_wrap.Common.Text.{ascii_bytes}
use fido_key_wrap.Error.{
  Result, ok, err, ok_or, reject_if, ◌>>=◌, ◌>>◌, invalid_envelope, unlock_failed,
}
use fido_key_wrap.Transcript
use fido_key_wrap.Envelope.{
  PassphraseRecipient, RecoverySecretRecord, FidoRecipient, FidoAndPassphraseRecipient,
  FidoAndLocalSecretRecipient, root_bytes, wrapped_root_bytes, combined_wrapped_root_bytes,
}
use fido_key_wrap.Crypto.Suite.{Suite}
use fido_key_wrap.Crypto.Context.{
  passphrase_context, recovery_secret_context, fido_context, fido_local_context, combined_context,
}

abbrev pub tag_bytes : ℕ
tag_bytes = 16

unfoldable pub passphrase_aad_domain : Bytes
unfolding ascii_bytes
passphrase_aad_domain = ascii_bytes "fido_key_wrap/format_1/passphrase_aad"

unfoldable pub fido_aad_domain : Bytes
unfolding ascii_bytes
fido_aad_domain = ascii_bytes "fido_key_wrap/format_1/fido_aad"

unfoldable pub fido_local_aad_domain : Bytes
unfolding ascii_bytes
fido_local_aad_domain = ascii_bytes "fido_key_wrap/format_1/fido_local_aad"

unfoldable pub recovery_secret_aad_domain : Bytes
unfolding ascii_bytes
recovery_secret_aad_domain = ascii_bytes "fido_key_wrap/format_1/recovery_secret_aad"

unfoldable pub combined_passphrase_aad_domain : Bytes
unfolding ascii_bytes
combined_passphrase_aad_domain = ascii_bytes "fido_key_wrap/format_1/combined_passphrase_aad"

unfoldable pub combined_fido_aad_domain : Bytes
unfolding ascii_bytes
combined_fido_aad_domain = ascii_bytes "fido_key_wrap/format_1/combined_fido_aad"

module _ (s : Suite) where
  -- The sizes of plaintext and ciphertext, key, nonce, plaintext, associated data.
  unfoldable pub encrypt_fixed : ℕ → ℕ → Bytes → Bytes → Bytes → Bytes → Result Bytes
  encrypt_fixed plain cipher key nonce plaintext aad = do
    reject_if (not (cipher == plain + tag_bytes)) invalid_envelope
    (c, tag) ← ok_or invalid_envelope (s.encrypt key nonce aad plaintext)
    ok (c ++ tag)

  unfoldable pub decrypt_fixed : ℕ → ℕ → Bytes → Bytes → Bytes → Bytes → Result Bytes
  decrypt_fixed plain cipher key nonce ciphertext aad = do
    reject_if (not (cipher == plain + tag_bytes)) invalid_envelope
    reject_if (not (length (drop plain ciphertext) == tag_bytes)) invalid_envelope
    ok_or unlock_failed (s.decrypt key nonce aad (take plain ciphertext) (drop plain ciphertext))

  -- recipient, application, envelope, root, key
  unfoldable pub wrap_passphrase_root :
      PassphraseRecipient → Bytes → Bytes → Bytes → Bytes → Result Bytes
  wrap_passphrase_root r application envelope_id root key = do
    context ← passphrase_context s r application envelope_id
    aad ← Transcript.encode (passphrase_aad_domain ∷ context ∷ [])
    encrypt_fixed root_bytes wrapped_root_bytes key r.passphrase_nonce root aad

  -- recipient, application, envelope, key
  unfoldable pub unwrap_passphrase_root : PassphraseRecipient → Bytes → Bytes → Bytes → Result Bytes
  unwrap_passphrase_root r application envelope_id key = do
    context ← passphrase_context s r application envelope_id
    aad ← Transcript.encode (passphrase_aad_domain ∷ context ∷ [])
    decrypt_fixed root_bytes wrapped_root_bytes key r.passphrase_nonce r.wrapped_root aad

  unfoldable pub wrap_recovery_secret_root :
      RecoverySecretRecord → Bytes → Bytes → Bytes → Bytes → Result Bytes
  wrap_recovery_secret_root r application envelope_id root key = do
    context ← recovery_secret_context s r application envelope_id
    aad ← Transcript.encode (recovery_secret_aad_domain ∷ context ∷ [])
    encrypt_fixed root_bytes wrapped_root_bytes key r.recovery_nonce root aad

  unfoldable pub unwrap_recovery_secret_root :
      RecoverySecretRecord → Bytes → Bytes → Bytes → Result Bytes
  unwrap_recovery_secret_root r application envelope_id key = do
    context ← recovery_secret_context s r application envelope_id
    aad ← Transcript.encode (recovery_secret_aad_domain ∷ context ∷ [])
    decrypt_fixed root_bytes wrapped_root_bytes key r.recovery_nonce r.wrapped_root aad

  unfoldable pub wrap_fido_root : FidoRecipient → Bytes → Bytes → Bytes → Bytes → Result Bytes
  wrap_fido_root r application envelope_id root key = do
    context ← fido_context s r application envelope_id
    aad ← Transcript.encode (fido_aad_domain ∷ context ∷ [])
    encrypt_fixed root_bytes wrapped_root_bytes key r.fido_nonce root aad

  unfoldable pub unwrap_fido_root : FidoRecipient → Bytes → Bytes → Bytes → Result Bytes
  unwrap_fido_root r application envelope_id key = do
    context ← fido_context s r application envelope_id
    aad ← Transcript.encode (fido_aad_domain ∷ context ∷ [])
    decrypt_fixed root_bytes wrapped_root_bytes key r.fido_nonce r.wrapped_root aad

  unfoldable pub wrap_fido_local_root :
      FidoAndLocalSecretRecipient → Bytes → Bytes → Bytes → Bytes → Result Bytes
  wrap_fido_local_root r application envelope_id root key = do
    context ← fido_local_context s r application envelope_id
    aad ← Transcript.encode (fido_local_aad_domain ∷ context ∷ [])
    encrypt_fixed root_bytes wrapped_root_bytes key r.wrap_nonce root aad

  unfoldable pub unwrap_fido_local_root :
      FidoAndLocalSecretRecipient → Bytes → Bytes → Bytes → Result Bytes
  unwrap_fido_local_root r application envelope_id key = do
    context ← fido_local_context s r application envelope_id
    aad ← Transcript.encode (fido_local_aad_domain ∷ context ∷ [])
    decrypt_fixed root_bytes wrapped_root_bytes key r.wrap_nonce r.wrapped_root aad

  -- recipient, application, envelope, root, passphrase key
  unfoldable pub wrap_combined_inner :
      FidoAndPassphraseRecipient → Bytes → Bytes → Bytes → Bytes → Result Bytes
  wrap_combined_inner r application envelope_id root passphrase_key = do
    context ← combined_context s r application envelope_id
    aad ← Transcript.encode (combined_passphrase_aad_domain ∷ context ∷ [])
    encrypt_fixed root_bytes wrapped_root_bytes passphrase_key r.passphrase_nonce root aad

  -- recipient, application, envelope, inner layer, security-key key
  unfoldable pub wrap_combined_outer :
      FidoAndPassphraseRecipient → Bytes → Bytes → Bytes → Bytes → Result Bytes
  wrap_combined_outer r application envelope_id inner fido_key = do
    context ← combined_context s r application envelope_id
    aad ← Transcript.encode (combined_fido_aad_domain ∷ context ∷ [])
    encrypt_fixed wrapped_root_bytes combined_wrapped_root_bytes fido_key r.fido_nonce inner aad

  unfoldable pub wrap_combined_root :
      FidoAndPassphraseRecipient → Bytes → Bytes → Bytes → Bytes → Bytes → Result Bytes
  wrap_combined_root r application envelope_id root passphrase_key fido_key = do
    inner ← wrap_combined_inner r application envelope_id root passphrase_key
    wrap_combined_outer r application envelope_id inner fido_key

  unfoldable pub unwrap_combined_outer :
      FidoAndPassphraseRecipient → Bytes → Bytes → Bytes → Result Bytes
  unwrap_combined_outer r application envelope_id fido_key = do
    context ← combined_context s r application envelope_id
    aad ← Transcript.encode (combined_fido_aad_domain ∷ context ∷ [])
    decrypt_fixed wrapped_root_bytes combined_wrapped_root_bytes fido_key r.fido_nonce
        r.wrapped_root aad

  unfoldable pub unwrap_combined_inner :
      FidoAndPassphraseRecipient → Bytes → Bytes → Bytes → Bytes → Result Bytes
  unwrap_combined_inner r application envelope_id inner passphrase_key = do
    context ← combined_context s r application envelope_id
    aad ← Transcript.encode (combined_passphrase_aad_domain ∷ context ∷ [])
    decrypt_fixed root_bytes wrapped_root_bytes passphrase_key r.passphrase_nonce inner aad
