-- ===== src/Envelope/RoundTrip/Fields.antt =====
-- Reading back what the writer of crates/fido-key-wrap/src/envelope.rs writes: single fields.
use fido_key_wrap.Common.{
  ℕ, ◌<◌, ◌≡◌, [], ◌∷◌, ◌++◌, append_assoc, arith, Bytes, IsArray, All, some,
}
use fido_key_wrap.Error.{ok}
use fido_key_wrap.Policy.{FidoPolicy, presence, user_verification, code, from_code}
use fido_key_wrap.Policy.Parameters
use fido_key_wrap.Policy.Parameters.{PassphraseParameters, IsFormat1, new-of_format1}
use fido_key_wrap.Policy.Label.{IsLabel, IsPrintable, validate-of_IsLabel}
use fido_key_wrap.Ident.Application
use fido_key_wrap.Ident.Application.Grammar.{
  IsApplicationId, new-of_IsApplicationId, ascii-of_IsApplicationId,
}
use fido_key_wrap.Envelope.{KdfDescriptor}
use fido_key_wrap.Envelope.Wire.{Wire, WireLaws}
use fido_key_wrap.Envelope.Encode.{encode_kdf}
use fido_key_wrap.Envelope.Decode.{
  to_usize, definite_array_len, require_array, exact_bytes, decode_label, decode_credential_id,
  new_public_key, decode_public_key, decode_policy, decode_kdf,
}
use fido_key_wrap.Envelope.WellFormed.{IsKdf, IsCredentialId, IsPublicKey}

ascii_label : (l : Bytes) → All IsPrintable l → All (λ b. b < 128) l
ascii_label [] h = tt
ascii_label (b ∷ bs) (h, hs) = (omega arith, ascii_label bs hs)

module _ (w : Wire) (laws : WireLaws w) where
  open w use {enc_array, enc_u8, enc_u32, enc_str, enc_bytes}

  pub array_read :
      (n : ℕ) (rest : Bytes) → n < 100 → definite_array_len w (enc_array n ++ rest) ≡ ok (n, rest)
  unfolding definite_array_len to_usize
  array_read n rest h = rw (laws.array_back n rest (omega arith)) (ground arith)

  pub array_required :
      (n : ℕ) (rest : Bytes) → n < 100 → require_array w n (enc_array n ++ rest) ≡ ok (tt, rest)
  unfolding require_array
  array_required n rest h = rw (array_read n rest h) (ground arith)

  pub array_bytes :
      (n : ℕ) (b rest : Bytes)
      → n < 100
      → IsArray n b
      → exact_bytes w n (enc_bytes b ++ rest) ≡ ok (b, rest)
  unfolding exact_bytes
  array_bytes n b rest h k = rw (laws.bytes_back b rest k.1 (omega arith)) (ground arith)

  pub label_read : (l rest : Bytes) → IsLabel l → decode_label w (enc_str l ++ rest) ≡ ok (l, rest)
  unfolding decode_label
  label_read l rest h =
      rw (laws.str_back l rest (ascii_label l h.text) (omega arith), validate-of_IsLabel l h)

  pub credential_read :
      (c rest : Bytes)
      → IsCredentialId c
      → decode_credential_id w (enc_bytes c ++ rest) ≡ ok (c, rest)
  unfolding decode_credential_id
  credential_read c rest h = rw (laws.bytes_back c rest h.bytes (omega arith)) (ground arith)

  pub key_read :
      (k rest : Bytes) → IsPublicKey w k → decode_public_key w (enc_bytes k ++ rest) ≡ ok (k, rest)
  unfolding decode_public_key new_public_key
  key_read k rest h = rw (array_bytes 64 k rest (omega arith) h.array, h.point)

  pub policy_read :
      (p : FidoPolicy) (rest : Bytes) → decode_policy w (enc_u8 (code p) ++ rest) ≡ ok (p, rest)
  unfolding decode_policy code from_code
  policy_read presence rest = rw (laws.u8_back 1 rest (omega arith))
  policy_read user_verification rest = rw (laws.u8_back 2 rest (omega arith))

  pub parameters_read :
      (p : PassphraseParameters)
      → IsFormat1 p.memory_kib p.passes p.lanes
      → Parameters.decode p.memory_kib p.passes p.lanes ≡ ok p
  unfolding Parameters.decode
  parameters_read p h = rw (new-of_format1 p.memory_kib p.passes p.lanes h)

  pub kdf_read :
      (k : KdfDescriptor) (rest : Bytes)
      → IsKdf k
      → decode_kdf w (encode_kdf w k ++ rest) ≡ ok (k, rest)
  unfolding decode_kdf encode_kdf
  kdf_read k rest h = simp (
    append_assoc,
    array_required 5 _ (omega arith),
    laws.u8_back 1 _ (omega arith),
    laws.u32_back k.parameters.memory_kib _ (omega (arith, h.parameters.memory_hi)),
    laws.u32_back k.parameters.passes _ (omega (arith, h.parameters.passes_hi)),
    laws.u8_back k.parameters.lanes _ (omega (arith, h.parameters.lanes_hi)),
    parameters_read k.parameters h.parameters,
    array_bytes 16 k.salt _ (omega arith) h.salt,
  )

  pub application_read :
      (a rest : Bytes)
      → IsApplicationId a
      → (w.dec_str (enc_str a ++ rest) ≡ some (a, rest)) × (Application.new a ≡ ok a)
  application_read a rest h = (
    laws.str_back a rest (ascii-of_IsApplicationId a h) (omega (arith, h.bounded)),
    new-of_IsApplicationId a h,
  )
