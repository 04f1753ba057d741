-- ===== src/Crypto/Context.antt =====
-- crates/fido-key-wrap/src/crypto.rs: the transcripts that bind a recipient, and their digests.
pub mod Binding
use fido_key_wrap.Common.{ℕ, List, [], ◌∷◌, Bytes}
use fido_key_wrap.Common.Text.{ascii_bytes}
use fido_key_wrap.Error.{Result, ok, err, ◌>>=◌, invalid_envelope}
use fido_key_wrap.Policy.{FidoStorage, non_discoverable, managed, code}
use fido_key_wrap.Transcript
use fido_key_wrap.Transcript.{to_be_bytes}
use fido_key_wrap.Envelope.{
  RecipientRecord, passphrase, recovery_secret, fido, fido_and_passphrase, fido_and_local_secret,
  PassphraseRecipient, RecoverySecretRecord, FidoRecipient, FidoAndPassphraseRecipient,
  FidoAndLocalSecretRecipient,
}
use fido_key_wrap.Crypto.Suite.{Suite}

unfoldable pub recipient_context_domain : Bytes
unfolding ascii_bytes
recipient_context_domain = ascii_bytes "fido_key_wrap/format_1/recipient_context"

unfoldable pub prf_input_domain : Bytes
unfolding ascii_bytes
prf_input_domain = ascii_bytes "fido_key_wrap/format_1/prf_input"

abbrev pub format : Bytes
format = 1 ∷ []

abbrev pub passphrase_suite : Bytes
passphrase_suite = 1 ∷ []

abbrev pub fido_suite : Bytes
fido_suite = 2 ∷ []

abbrev pub combined_suite : Bytes
combined_suite = 3 ∷ []

abbrev pub recovery_secret_suite : Bytes
recovery_secret_suite = 4 ∷ []

abbrev pub managed_fido_suite : Bytes
managed_fido_suite = 5 ∷ []

abbrev pub fido_and_local_secret_suite : Bytes
fido_and_local_secret_suite = 6 ∷ []

abbrev pub argon2id_kdf : Bytes
argon2id_kdf = 1 ∷ []

abbrev pub storage_suite : FidoStorage → Bytes
storage_suite non_discoverable = fido_suite
storage_suite managed = managed_fido_suite

unfoldable pub recovery_secret_context_transcript :
    RecoverySecretRecord → Bytes → Bytes → Result Bytes
recovery_secret_context_transcript r application envelope_id = Transcript.encode (
    recipient_context_domain ∷ format ∷ recovery_secret_suite ∷ application ∷ envelope_id ∷ r.id
    ∷ r.label ∷ r.recovery_nonce ∷ [])

unfoldable pub passphrase_context_transcript : PassphraseRecipient → Bytes → Bytes → Result Bytes
passphrase_context_transcript r application envelope_id = Transcript.encode (
    recipient_context_domain
    ∷ format
    ∷ passphrase_suite
    ∷ application
    ∷ envelope_id
    ∷ r.id
    ∷ argon2id_kdf
    ∷ to_be_bytes r.kdf.parameters.memory_kib
    ∷ to_be_bytes r.kdf.parameters.passes
    ∷ (r.kdf.parameters.lanes ∷ [])
    ∷ r.kdf.salt
    ∷ r.passphrase_nonce
    ∷ [])

unfoldable pub fido_context_transcript : FidoRecipient → Bytes → Bytes → Result Bytes
fido_context_transcript r application envelope_id = Transcript.encode (
    recipient_context_domain
    ∷ format
    ∷ storage_suite r.storage
    ∷ application
    ∷ envelope_id
    ∷ r.id
    ∷ r.credential_id
    ∷ r.public_key
    ∷ (code r.policy ∷ [])
    ∷ r.prf_nonce
    ∷ r.fido_nonce
    ∷ [])

unfoldable pub combined_context_transcript :
    FidoAndPassphraseRecipient → Bytes → Bytes → Result Bytes
combined_context_transcript r application envelope_id = Transcript.encode (
    recipient_context_domain
    ∷ format
    ∷ combined_suite
    ∷ application
    ∷ envelope_id
    ∷ r.id
    ∷ r.credential_id
    ∷ r.public_key
    ∷ (code r.policy ∷ [])
    ∷ r.prf_nonce
    ∷ r.fido_nonce
    ∷ argon2id_kdf
    ∷ to_be_bytes r.kdf.parameters.memory_kib
    ∷ to_be_bytes r.kdf.parameters.passes
    ∷ (r.kdf.parameters.lanes ∷ [])
    ∷ r.kdf.salt
    ∷ r.passphrase_nonce
    ∷ [])

unfoldable pub fido_local_context_transcript :
    FidoAndLocalSecretRecipient → Bytes → Bytes → Result Bytes
fido_local_context_transcript r application envelope_id = Transcript.encode (
    recipient_context_domain ∷ format ∷ fido_and_local_secret_suite ∷ application ∷ envelope_id
    ∷ r.id ∷ r.label ∷ r.credential_id ∷ r.public_key ∷ r.prf_nonce ∷ r.wrap_nonce ∷ [])

unfoldable pub recipient_context_transcript : RecipientRecord → Bytes → Bytes → Result Bytes
recipient_context_transcript (passphrase r) = passphrase_context_transcript r
recipient_context_transcript (recovery_secret r) = recovery_secret_context_transcript r
recipient_context_transcript (fido r) = fido_context_transcript r
recipient_context_transcript (fido_and_passphrase r) = combined_context_transcript r
recipient_context_transcript (fido_and_local_secret r) = fido_local_context_transcript r

module _ (s : Suite) where
  -- The digest of a transcript.
  abbrev pub digest : Result Bytes → Result Bytes
  digest t = do encoded ← t; ok (s.sha256 encoded)

  unfoldable pub recipient_context : RecipientRecord → Bytes → Bytes → Result Bytes
  recipient_context r application envelope_id =
      digest (recipient_context_transcript r application envelope_id)

  unfoldable pub passphrase_context : PassphraseRecipient → Bytes → Bytes → Result Bytes
  passphrase_context r application envelope_id =
      digest (passphrase_context_transcript r application envelope_id)

  unfoldable pub fido_context : FidoRecipient → Bytes → Bytes → Result Bytes
  fido_context r application envelope_id =
      digest (fido_context_transcript r application envelope_id)

  unfoldable pub recovery_secret_context : RecoverySecretRecord → Bytes → Bytes → Result Bytes
  recovery_secret_context r application envelope_id =
      digest (recovery_secret_context_transcript r application envelope_id)

  unfoldable pub combined_context : FidoAndPassphraseRecipient → Bytes → Bytes → Result Bytes
  combined_context r application envelope_id =
      digest (combined_context_transcript r application envelope_id)

  unfoldable pub fido_local_context : FidoAndLocalSecretRecipient → Bytes → Bytes → Result Bytes
  fido_local_context r application envelope_id =
      digest (fido_local_context_transcript r application envelope_id)

  unfoldable pub prf_input_transcript : Bytes → Result Bytes
  prf_input_transcript context = Transcript.encode (prf_input_domain ∷ context ∷ [])

  -- `prf_input`, behind its check that the recipient has a security key
  unfoldable pub hash_prf_input : RecipientRecord → Bytes → Bytes → Result Bytes
  hash_prf_input r application envelope_id = do
    context ← recipient_context r application envelope_id
    encoded ← prf_input_transcript context
    ok (s.sha256 encoded)

  unfoldable pub prf_input : RecipientRecord → Bytes → Bytes → Result Bytes
  prf_input (passphrase r) application envelope_id = err invalid_envelope
  prf_input (recovery_secret r) application envelope_id = err invalid_envelope
  prf_input r application envelope_id = hash_prf_input r application envelope_id
