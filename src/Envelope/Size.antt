-- ===== src/Envelope/Size.antt =====
-- Every well-formed envelope of crates/fido-key-wrap/src/envelope.rs fits the size that its decoder
-- allows.
use fido_key_wrap.Common.{ℕ, ◌*◌, ◌≤◌, List, [], ◌∷◌, arith, length, length-append, All}
use fido_key_wrap.Envelope.{
  max_envelope_size, RecipientRecord, passphrase, recovery_secret, fido, fido_and_passphrase,
  fido_and_local_secret, KdfDescriptor, KeyEnvelope,
}
use fido_key_wrap.Envelope.Wire.{Wire, WireLaws}
use fido_key_wrap.Envelope.Encode.{
  encode_body, encode_kdf, encode_recipient, encode_recipients, encode,
}
use fido_key_wrap.Envelope.WellFormed.{IsKdf, IsRecipient, IsWellFormed}

-- The largest recipient is a security key with a passphrase and a credential of 1,024 bytes.
abbrev recipient_size : ℕ
recipient_size = 1_437

module _ (w : Wire) (laws : WireLaws w) where
  length-encode_kdf : (k : KdfDescriptor) → IsKdf k → length (encode_kdf w k) ≤ 48
  unfolding encode_kdf
  length-encode_kdf k h = omega (
    arith,
    length-append {0},
    laws.array_size,
    laws.u8_size,
    laws.u32_size,
    laws.bytes_size,
    h.salt.0,
  )

  length-encode_recipient :
      (r : RecipientRecord) → IsRecipient w r → length (encode_recipient w r) ≤ recipient_size
  unfolding encode_recipient
  length-encode_recipient (passphrase r) h = omega (
    arith,
    length-append {0},
    laws.array_size,
    laws.u8_size,
    laws.str_size,
    laws.bytes_size,
    length-encode_kdf r.kdf h.kdf,
    h.label.bounded,
    h.id.0,
    h.passphrase_nonce.0,
    h.wrapped_root.0,
  )
  length-encode_recipient (recovery_secret r) h = omega (
    arith,
    length-append {0},
    laws.array_size,
    laws.u8_size,
    laws.str_size,
    laws.bytes_size,
    h.label.bounded,
    h.id.0,
    h.recovery_nonce.0,
    h.wrapped_root.0,
  )
  length-encode_recipient (fido r) h = omega (
    arith,
    length-append {0},
    laws.array_size,
    laws.u8_size,
    laws.str_size,
    laws.bytes_size,
    h.label.bounded,
    h.credential_id.bounded,
    h.public_key.array.0,
    h.id.0,
    h.prf_nonce.0,
    h.fido_nonce.0,
    h.wrapped_root.0,
  )
  length-encode_recipient (fido_and_passphrase r) h = omega (
    arith,
    length-append {0},
    laws.array_size,
    laws.u8_size,
    laws.str_size,
    laws.bytes_size,
    length-encode_kdf r.kdf h.kdf,
    h.label.bounded,
    h.credential_id.bounded,
    h.public_key.array.0,
    h.id.0,
    h.prf_nonce.0,
    h.fido_nonce.0,
    h.passphrase_nonce.0,
    h.wrapped_root.0,
  )
  length-encode_recipient (fido_and_local_secret r) h = omega (
    arith,
    length-append {0},
    laws.array_size,
    laws.u8_size,
    laws.str_size,
    laws.bytes_size,
    h.label.bounded,
    h.credential_id.bounded,
    h.public_key.array.0,
    h.id.0,
    h.prf_nonce.0,
    h.wrap_nonce.0,
    h.wrapped_root.0,
  )

  length-encode_recipients :
      (rs : List RecipientRecord)
      → All (IsRecipient w) rs
      → length (encode_recipients w rs) ≤ length rs * recipient_size
  unfolding encode_recipients
  length-encode_recipients [] h = omega arith
  length-encode_recipients (r ∷ rs) (h, hs) = omega (
    arith,
    length-append (encode_recipient w r) (encode_recipients w rs),
    length-encode_recipient r h,
    length-encode_recipients rs hs,
  )

  -- A well-formed envelope encodes to at most 46,352 bytes, and so stays below the 65,536 bytes
  -- that the decoder admits.
  pub length-encode :
      (e : KeyEnvelope)
      → IsWellFormed w e
      → (length (encode w e) ≤ 46_352) × (46_352 ≤ max_envelope_size)
  unfolding encode
  length-encode e h = omega (
    arith,
    length-append {0},
    laws.array_size,
    laws.u8_size,
    laws.str_size,
    laws.bytes_size,
    length-encode_recipients e.recipients h.each,
    h.application_id.bounded,
    h.bounded,
    h.envelope_id.0,
    h.mac.0,
  )

  pub length-encode_body : (e : KeyEnvelope) → IsWellFormed w e → length (encode_body w e) ≤ 65_536
  unfolding encode_body
  length-encode_body e h = omega (
    arith,
    length-append {0},
    laws.array_size,
    laws.u8_size,
    laws.str_size,
    laws.bytes_size,
    length-encode_recipients e.recipients h.each,
    h.application_id.bounded,
    h.bounded,
    h.envelope_id.0,
  )
