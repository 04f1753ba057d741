-- ===== src/Envelope/RoundTrip.antt =====
-- What the writer of crates/fido-key-wrap/src/envelope.rs writes, its reader reads back.
mod Fields
mod Records
use fido_key_wrap.Common.{
  ℕ, leb, ◌&&◌, [], ◌+◌, ◌*◌, ◌≤◌, ◌<◌, ◌≡◌, ◌∙◌, refl, true, false, ◌++◌, append_assoc, append-nil,
  arith, Bytes, length, length-append, drop, eq_bytes_refl, All,
}
use fido_key_wrap.Error.{ok}
use fido_key_wrap.Ident.Application
use fido_key_wrap.Ident.Application.Grammar.{IsApplicationId, new-of_IsApplicationId}
use fido_key_wrap.Envelope.{KeyEnvelope, max_envelope_size, max_recipients}
use fido_key_wrap.Envelope.Wire.{Wire, WireLaws}
use fido_key_wrap.Envelope.Encode.{encode_body_fields, magic, encode_full, encode}
use fido_key_wrap.Envelope.Recipients.Laws.{validate-of_IsRecipientSet}
use fido_key_wrap.Envelope.Decode.{bad_header, decode_fields, finish, decode}
use fido_key_wrap.Envelope.WellFormed.{IsWellFormed}
use fido_key_wrap.Envelope.Size.{length-encode}
use Fields.{array_read, array_required, array_bytes, application_read}
use Records.{recipients_read}

in_range : (n : ℕ) → 1 ≤ n → n ≤ max_recipients → (leb 1 n && leb n max_recipients) ≡ true
in_range n lo hi = ground arith

module _ (w : Wire) (laws : WireLaws w) where
  fields_read :
      (e : KeyEnvelope) → IsWellFormed w e → decode_fields w (encode_full w e) ≡ ok (e, [])
  unfolding decode_fields encode_full
  fields_read e h = rw (← append-nil (w.enc_bytes e.mac)) (
      simp (
        append_assoc,
        array_required w laws 5 _ (omega arith),
        laws.u8_back 1 _ (omega arith),
        (application_read w laws e.application_id _ h.application_id).0,
        (application_read w laws e.application_id [] h.application_id).1,
        array_bytes w laws 32 e.envelope_id _ (omega arith) h.envelope_id,
        array_read w laws (length e.recipients) _ (omega (arith, h.bounded)),
        in_range (length e.recipients) h.nonempty h.bounded,
        recipients_read w laws e.recipients _ h.each,
        array_bytes w laws 32 e.mac _ (omega arith) h.mac,
      ))

  good_header : (e : KeyEnvelope) → IsWellFormed w e → bad_header (encode w e) ≡ false
  unfolding encode
  good_header e h = ground (arith, length-encode w laws e h, eq_bytes_refl magic)

  rest_of_encode : (e : KeyEnvelope) → drop (length magic) (encode w e) ≡ encode_full w e
  unfolding encode
  rest_of_encode e = refl

  finish-encode : (e : KeyEnvelope) → IsWellFormed w e → finish w (encode w e) (e, []) ≡ ok e
  unfolding finish
  finish-encode e h = rw (validate-of_IsRecipientSet e.recipients h.set, eq_bytes_refl (encode w e))

  -- Decoding an encoded well-formed envelope gives that envelope.
  pub decode-encode : (e : KeyEnvelope) → IsWellFormed w e → decode w (encode w e) ≡ ok e
  unfolding decode
  decode-encode e h = rw (good_header e h, rest_of_encode e, fields_read e h) (finish-encode e h)
