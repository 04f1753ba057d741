-- ===== src/Envelope/Encode.antt =====
-- crates/fido-key-wrap/src/envelope.rs: the writer. Writing into memory does not fail, so an encoder
-- is the bytes that it appends.
use fido_key_wrap.Common.{ℕ, List, [], ◌∷◌, ◌++◌, Bytes, length}
use fido_key_wrap.Error.{Result, ok}
use fido_key_wrap.Policy.{FidoStorage, non_discoverable, managed, code}
use fido_key_wrap.Envelope.{
  RecipientRecord, passphrase, recovery_secret, fido, fido_and_passphrase, fido_and_local_secret,
  KdfDescriptor, KeyEnvelope,
}
use fido_key_wrap.Envelope.Wire.{Wire}

-- `FKW\0`
abbrev pub magic : Bytes
magic = 0x46 ∷ 0x4b ∷ 0x57 ∷ 0 ∷ []

abbrev pub format_version : ℕ
format_version = 1

abbrev pub passphrase_suite : ℕ
passphrase_suite = 1

abbrev pub fido_suite : ℕ
fido_suite = 2

abbrev pub fido_and_passphrase_suite : ℕ
fido_and_passphrase_suite = 3

abbrev pub recovery_secret_suite : ℕ
recovery_secret_suite = 4

abbrev pub managed_fido_suite : ℕ
managed_fido_suite = 5

abbrev pub fido_and_local_secret_suite : ℕ
fido_and_local_secret_suite = 6

abbrev pub argon2id_kdf : ℕ
argon2id_kdf = 1

abbrev pub storage_suite : FidoStorage → ℕ
storage_suite non_discoverable = fido_suite
storage_suite managed = managed_fido_suite

module _ (w : Wire) where
  open w use {enc_array, enc_u8, enc_u32, enc_str, enc_bytes}

  unfoldable pub encode_kdf : KdfDescriptor → Bytes
  encode_kdf k =
      enc_array 5
      ++ (enc_u8 argon2id_kdf
          ++ (enc_u32 k.parameters.memory_kib
              ++ (enc_u32 k.parameters.passes ++ (enc_u8 k.parameters.lanes ++ enc_bytes k.salt))))

  unfoldable pub encode_recipient : RecipientRecord → Bytes
  encode_recipient (passphrase r) =
      enc_array 6
      ++ (enc_u8 passphrase_suite
          ++ (enc_bytes r.id
              ++ (enc_str r.label
                  ++ (encode_kdf r.kdf
                      ++ (enc_bytes r.passphrase_nonce ++ enc_bytes r.wrapped_root)))))
  encode_recipient (recovery_secret r) =
      enc_array 5
      ++ (enc_u8 recovery_secret_suite
          ++ (enc_bytes r.id
              ++ (enc_str r.label ++ (enc_bytes r.recovery_nonce ++ enc_bytes r.wrapped_root))))
  encode_recipient (fido r) =
      enc_array 9
      ++ (enc_u8 (storage_suite r.storage)
          ++ (enc_bytes r.id
              ++ (enc_str r.label
                  ++ (enc_bytes r.credential_id
                      ++ (enc_bytes r.public_key
                          ++ (enc_u8 (code r.policy)
                              ++ (enc_bytes r.prf_nonce
                                  ++ (enc_bytes r.fido_nonce ++ enc_bytes r.wrapped_root))))))))
  encode_recipient (fido_and_passphrase r) =
      enc_array 11
      ++ (enc_u8 fido_and_passphrase_suite
          ++ (enc_bytes r.id
              ++ (enc_str r.label
                  ++ (enc_bytes r.credential_id
                      ++ (enc_bytes r.public_key
                          ++ (enc_u8 (code r.policy)
                              ++ (enc_bytes r.prf_nonce
                                  ++ (enc_bytes r.fido_nonce
                                      ++ (encode_kdf r.kdf
                                          ++ (enc_bytes r.passphrase_nonce
                                              ++ enc_bytes r.wrapped_root))))))))))
  encode_recipient (fido_and_local_secret r) =
      enc_array 8
      ++ (enc_u8 fido_and_local_secret_suite
          ++ (enc_bytes r.id
              ++ (enc_str r.label
                  ++ (enc_bytes r.credential_id
                      ++ (enc_bytes r.public_key
                          ++ (enc_bytes r.prf_nonce
                              ++ (enc_bytes r.wrap_nonce ++ enc_bytes r.wrapped_root)))))))

  unfoldable pub encode_recipients : List RecipientRecord → Bytes
  encode_recipients [] = []
  encode_recipients (r ∷ rs) = encode_recipient r ++ encode_recipients rs

  unfoldable pub encode_body_fields : KeyEnvelope → Bytes
  encode_body_fields e =
      enc_u8 format_version
      ++ (enc_str e.application_id
          ++ (enc_bytes e.envelope_id
              ++ (enc_array (length e.recipients) ++ encode_recipients e.recipients)))

  unfoldable pub encode_body : KeyEnvelope → Bytes
  unfolding encode_body_fields
  encode_body e = enc_array 4 ++ encode_body_fields e

  unfoldable pub encode_full : KeyEnvelope → Bytes
  unfolding encode_body_fields
  encode_full e = enc_array 5 ++ (encode_body_fields e ++ enc_bytes e.mac)

  -- `KeyEnvelope::encode`
  unfoldable pub encode : KeyEnvelope → Bytes
  unfolding encode_full
  encode e = magic ++ encode_full e

  -- `KeyEnvelope::canonical_body`
  unfoldable pub canonical_body : KeyEnvelope → Result Bytes
  canonical_body e = ok (encode_body e)
