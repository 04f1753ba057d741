-- ===== src/Envelope/RoundTrip/Records.antt =====
-- Reading back what the writer of crates/fido-key-wrap/src/envelope.rs writes: recipients.
use fido_key_wrap.Common.{
  ◌<◌, ◌≡◌, refl, List, [], ◌∷◌, ◌++◌, append_assoc, arith, Bytes, All, length,
}
use fido_key_wrap.Error.{ok}
use fido_key_wrap.Policy.{FidoStorage, non_discoverable, managed, code}
use fido_key_wrap.Envelope.{
  RecipientRecord, passphrase, recovery_secret, fido, fido_and_passphrase, fido_and_local_secret,
  PassphraseRecipient, RecoverySecretRecord, FidoRecipient, FidoAndPassphraseRecipient,
  FidoAndLocalSecretRecipient,
}
use fido_key_wrap.Envelope.Wire.{Wire, WireLaws}
use fido_key_wrap.Envelope.Encode.{storage_suite, encode_recipient, encode_recipients}
use fido_key_wrap.Envelope.Decode.{
  decode_passphrase_recipient, decode_recovery_secret_recipient, decode_fido_recipient,
  decode_fido_and_passphrase_recipient, decode_fido_and_local_secret_recipient, decode_suite,
  decode_recipient, decode_recipients,
}
use fido_key_wrap.Envelope.WellFormed.{
  IsRecipient, IsPassphraseRecipient, IsRecoverySecretRecord, IsFidoRecipient,
  IsFidoAndPassphraseRecipient, IsFidoAndLocalSecretRecipient,
}
use fido_key_wrap.Envelope.RoundTrip.Fields.{
  array_read, array_bytes, label_read, credential_read, key_read, policy_read, kdf_read,
}

module _ (w : Wire) (laws : WireLaws w) where
  open w use {enc_array, enc_u8, enc_u32, enc_str, enc_bytes}

  passphrase_read :
      (r : PassphraseRecipient) (rest : Bytes)
      → IsPassphraseRecipient r
      → decode_recipient w (encode_recipient w (passphrase r) ++ rest) ≡ ok (passphrase r, rest)
  unfolding decode_recipient decode_suite decode_passphrase_recipient encode_recipient
  passphrase_read r rest h = simp (
    append_assoc,
    array_read w laws 6 _ (omega arith),
    laws.u8_back 1 _ (omega arith),
    array_bytes w laws 32 r.id _ (omega arith) h.id,
    label_read w laws r.label _ h.label,
    kdf_read w laws r.kdf _ h.kdf,
    array_bytes w laws 12 r.passphrase_nonce _ (omega arith) h.passphrase_nonce,
    array_bytes w laws 48 r.wrapped_root _ (omega arith) h.wrapped_root,
  )

  recovery_secret_read :
      (r : RecoverySecretRecord) (rest : Bytes)
      → IsRecoverySecretRecord r
      → decode_recipient w (encode_recipient w (recovery_secret r) ++ rest)
        ≡ ok (recovery_secret r, rest)
  unfolding decode_recipient decode_suite decode_recovery_secret_recipient encode_recipient
  recovery_secret_read r rest h = simp (
    append_assoc,
    array_read w laws 5 _ (omega arith),
    laws.u8_back 4 _ (omega arith),
    array_bytes w laws 32 r.id _ (omega arith) h.id,
    label_read w laws r.label _ h.label,
    array_bytes w laws 12 r.recovery_nonce _ (omega arith) h.recovery_nonce,
    array_bytes w laws 48 r.wrapped_root _ (omega arith) h.wrapped_root,
  )

  fido_fields_read :
      (r : FidoRecipient) (rest : Bytes)
      → IsFidoRecipient w r
      → decode_fido_recipient w r.storage (
          enc_bytes r.id
          ++ (enc_str r.label
              ++ (enc_bytes r.credential_id
                  ++ (enc_bytes r.public_key
                      ++ (enc_u8 (code r.policy)
                          ++ (enc_bytes r.prf_nonce
                              ++ (enc_bytes r.fido_nonce
                                  ++ (enc_bytes r.wrapped_root ++ rest))))))))
        ≡ ok (fido r, rest)
  unfolding decode_fido_recipient
  fido_fields_read r rest h = simp (
    array_bytes w laws 32 r.id _ (omega arith) h.id,
    label_read w laws r.label _ h.label,
    credential_read w laws r.credential_id _ h.credential_id,
    key_read w laws r.public_key _ h.public_key,
    policy_read w laws r.policy,
    array_bytes w laws 32 r.prf_nonce _ (omega arith) h.prf_nonce,
    array_bytes w laws 12 r.fido_nonce _ (omega arith) h.fido_nonce,
    array_bytes w laws 48 r.wrapped_root _ (omega arith) h.wrapped_root,
  )

  storage_suite_read :
      (s : FidoStorage) (ts : Bytes)
      → decode_suite w (storage_suite s) 9 ts ≡ decode_fido_recipient w s ts
  unfolding decode_suite
  storage_suite_read non_discoverable ts = refl
  storage_suite_read managed ts = refl

  storage_suite-byte : (s : FidoStorage) → storage_suite s < 256
  storage_suite-byte non_discoverable = omega arith
  storage_suite-byte managed = omega arith

  fido_read :
      (r : FidoRecipient) (rest : Bytes)
      → IsFidoRecipient w r
      → decode_recipient w (encode_recipient w (fido r) ++ rest) ≡ ok (fido r, rest)
  unfolding decode_recipient encode_recipient
  fido_read r rest h = simp (
    append_assoc,
    array_read w laws 9 _ (omega arith),
    laws.u8_back (storage_suite r.storage) _ (storage_suite-byte r.storage),
    storage_suite_read r.storage,
    fido_fields_read r rest h,
  )

  fido_and_passphrase_read :
      (r : FidoAndPassphraseRecipient) (rest : Bytes)
      → IsFidoAndPassphraseRecipient w r
      → decode_recipient w (encode_recipient w (fido_and_passphrase r) ++ rest)
        ≡ ok (fido_and_passphrase r, rest)
  unfolding decode_recipient decode_suite decode_fido_and_passphrase_recipient encode_recipient
  fido_and_passphrase_read r rest h = simp (
    append_assoc,
    array_read w laws 11 _ (omega arith),
    laws.u8_back 3 _ (omega arith),
    array_bytes w laws 32 r.id _ (omega arith) h.id,
    label_read w laws r.label _ h.label,
    credential_read w laws r.credential_id _ h.credential_id,
    key_read w laws r.public_key _ h.public_key,
    policy_read w laws r.policy,
    array_bytes w laws 32 r.prf_nonce _ (omega arith) h.prf_nonce,
    array_bytes w laws 12 r.fido_nonce _ (omega arith) h.fido_nonce,
    kdf_read w laws r.kdf _ h.kdf,
    array_bytes w laws 12 r.passphrase_nonce _ (omega arith) h.passphrase_nonce,
    array_bytes w laws 64 r.wrapped_root _ (omega arith) h.wrapped_root,
  )

  fido_and_local_secret_read :
      (r : FidoAndLocalSecretRecipient) (rest : Bytes)
      → IsFidoAndLocalSecretRecipient w r
      → decode_recipient w (encode_recipient w (fido_and_local_secret r) ++ rest)
        ≡ ok (fido_and_local_secret r, rest)
  unfolding decode_recipient decode_suite decode_fido_and_local_secret_recipient encode_recipient
  fido_and_local_secret_read r rest h = simp (
    append_assoc,
    array_read w laws 8 _ (omega arith),
    laws.u8_back 6 _ (omega arith),
    array_bytes w laws 32 r.id _ (omega arith) h.id,
    label_read w laws r.label _ h.label,
    credential_read w laws r.credential_id _ h.credential_id,
    key_read w laws r.public_key _ h.public_key,
    array_bytes w laws 32 r.prf_nonce _ (omega arith) h.prf_nonce,
    array_bytes w laws 12 r.wrap_nonce _ (omega arith) h.wrap_nonce,
    array_bytes w laws 48 r.wrapped_root _ (omega arith) h.wrapped_root,
  )

  pub recipient_read :
      (r : RecipientRecord) (rest : Bytes)
      → IsRecipient w r
      → decode_recipient w (encode_recipient w r ++ rest) ≡ ok (r, rest)
  recipient_read (passphrase r) = passphrase_read r
  recipient_read (recovery_secret r) = recovery_secret_read r
  recipient_read (fido r) = fido_read r
  recipient_read (fido_and_passphrase r) = fido_and_passphrase_read r
  recipient_read (fido_and_local_secret r) = fido_and_local_secret_read r

  pub recipients_read :
      (rs : List RecipientRecord) (rest : Bytes)
      → All (IsRecipient w) rs
      → decode_recipients w (length rs) (encode_recipients w rs ++ rest) ≡ ok (rs, rest)
  unfolding decode_recipients encode_recipients
  recipients_read [] rest h = refl
  recipients_read (r ∷ rs) rest (h, hs) =
      simp (append_assoc, recipient_read r _ h, recipients_read rs rest hs)
