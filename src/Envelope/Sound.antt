-- ===== src/Envelope/Sound.antt =====
-- What the decoder of crates/fido-key-wrap/src/envelope.rs returns is well formed and canonical.
mod Rules
mod Records
use mathlib.Core.Path.{subst}
use fido_key_wrap.Common.{
  ℕ, ◌≤◌, ◌<◌, ◌≡◌, refl, sym, ap, ◌∙◌, Bool, true, false, not, ◌==◌, ◌&&◌, leb, ltb, List, [], ◌∷◌,
  arith, Bytes, IsArray, All, length, drop, eq_bytes, eq_bytes→eq, Bool-cases, inl, inr,
}
use fido_key_wrap.Error
use fido_key_wrap.Error.{
  Result, ok, err, reject_if, map_err, invalid_envelope, Result-cases, >>=-eq-ok,
}
use fido_key_wrap.Ident.Application
use fido_key_wrap.Ident.Application.Grammar.{IsApplicationId, IsApplicationId-of_new}
use fido_key_wrap.Envelope.{KeyEnvelope, RecipientRecord, max_envelope_size, max_recipients}
use fido_key_wrap.Envelope.Wire.{Wire, WireLaws}
use fido_key_wrap.Envelope.Encode.{magic, encode, format_version}
use fido_key_wrap.Envelope.Recipients.{validate_recipient_set}
use fido_key_wrap.Envelope.Recipients.Laws.{IsRecipientSet, IsRecipientSet-of_validate}
use fido_key_wrap.Envelope.Decode.{
  lift, read, bad_header, definite_array_len, require_array, decode_fields, finish, decode,
}
use fido_key_wrap.Envelope.WellFormed.{IsRecipient, IsWellFormed}
use Rules.{Yields, Yields-pure, Yields-bind, Yields-skip, Yields-check}
use Records.{exact_bytes-Yields, recipients-Yields}

application-IsApplicationId :
    (s a : Bytes) → map_err invalid_envelope (Application.new s) ≡ ok a → IsApplicationId a
application-IsApplicationId s a e = elim (Result-cases (Application.new s)) [
  | inl (t, k) ↦
      let (h, same) = IsApplicationId-of_new s t k in
      subst IsApplicationId (sym same ∙ ground (arith, k)) h
  | inr (x, k) ↦ absurd (ground (arith, k))
]

small : (input : Bytes) → bad_header input ≡ false → length input ≤ max_envelope_size
small input h = ground arith

module _ (w : Wire) (laws : WireLaws w) where
  -- What the fields satisfy before the recipients are checked against each other.
  record IsRead (e : KeyEnvelope) : Type 0 where
    application_id : IsApplicationId e.application_id
    envelope_id : IsArray 32 e.envelope_id
    nonempty : 1 ≤ length e.recipients
    bounded : length e.recipients ≤ max_recipients
    each : All (IsRecipient w) e.recipients
    mac : IsArray 32 e.mac

  fields-Yields : Yields IsRead (decode_fields w)
  unfolding decode_fields
  fields-Yields = Yields-skip (require_array w 5) _ λ _. Yields-skip (read w.dec_u8) _ λ version.
      Yields-skip (lift (reject_if (not (version == format_version)) invalid_envelope)) _ λ _.
        Yields-skip (read w.dec_str) _ λ s.
          Yields-check (map_err invalid_envelope (Application.new s)) _ λ a ea.
            Yields-bind _ _ (exact_bytes-Yields w laws 32) λ id hid.
              Yields-skip (definite_array_len w) _ λ n.
                Yields-check (reject_if (not (leb 1 n && leb n max_recipients)) invalid_envelope) _
                  λ u en. Yields-bind _ _ (recipients-Yields w laws n) λ rs hrs.
                    Yields-bind _ _ (exact_bytes-Yields w laws 32) λ mac hmac.
                      Yields-pure _ (record {
                        application_id = application-IsApplicationId s a ea;
                        envelope_id = hid;
                        nonempty = ground arith;
                        bounded = ground arith;
                        each = hrs.1;
                        mac = hmac;
                      })

  finish_sound :
      (input rest : Bytes) (r e : KeyEnvelope)
      → finish w input (r, rest) ≡ ok e
      → (r ≡ e) × (validate_recipient_set e.recipients ≡ ok tt) × (encode w e ≡ input)
  unfolding finish
  finish_sound input rest r e h =
      let same : r ≡ e = ground arith in
      (
        same,
        subst (λ x. validate_recipient_set x.recipients ≡ ok tt) same (ground arith),
        subst (λ x. encode w x ≡ input) same (eq_bytes→eq (encode w r) input (ground arith)),
      )

  assemble :
      (e : KeyEnvelope) → IsRead e → validate_recipient_set e.recipients ≡ ok tt → IsWellFormed w e
  assemble e h set = record {
    application_id = h.application_id;
    envelope_id = h.envelope_id;
    nonempty = h.nonempty;
    bounded = h.bounded;
    each = h.each;
    set = IsRecipientSet-of_validate e.recipients set;
    mac = h.mac;
  }

  -- What the decoder accepts is well formed, and it is the very encoding of what it returns, of at
  -- most 65,536 bytes: no two inputs decode to one envelope.
  pub decode-IsWellFormed :
      (input : Bytes) (e : KeyEnvelope)
      → decode w input ≡ ok e
      → IsWellFormed w e × (encode w e ≡ input) × (length input ≤ max_envelope_size)
  unfolding decode
  decode-IsWellFormed input e h = elim (Bool-cases (bad_header input)) [
    | inl bad ↦ absurd (ground (arith, bad))
    | inr good ↦
        let fields = decode_fields w (drop (length magic) input) in
        let ((r, rest), er, ef) = >>=-eq-ok fields (finish w input) (ground (arith, good)) in
        let (same, set, canonical) = finish_sound input rest r e ef in
        (
          assemble e (subst IsRead same ((fields-Yields).at _ r rest er)) set,
          canonical,
          small input good,
        )
  ]
