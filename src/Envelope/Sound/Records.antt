-- ===== src/Envelope/Sound/Records.antt =====
-- The recipients that the decoder of crates/fido-key-wrap/src/envelope.rs returns are well formed.
use fido_key_wrap.Common.{
  ℕ, zero, suc, ◌≡◌, refl, sym, ap, [], ◌∷◌, arith, Bytes, IsArray, All, length, not, ◌==◌,
}
use mathlib.Core.Path.{subst}
use fido_key_wrap.Error.{Result, ok, err, reject_if, ok_or, map_err, invalid_envelope}
use fido_key_wrap.Policy.{FidoStorage, non_discoverable, managed}
use fido_key_wrap.Policy.Parameters
use fido_key_wrap.Policy.Parameters.{PassphraseParameters, IsFormat1Parameters, IsFormat1-of_new}
use fido_key_wrap.Policy.Label.{IsLabel, validate_label, IsLabel-of_validate}
use fido_key_wrap.Envelope.Wire.{Wire, WireLaws}
use fido_key_wrap.Envelope.Encode.{argon2id_kdf}
use fido_key_wrap.Envelope.Decode.{
  lift, read, definite_array_len, require_array, exact_bytes, decode_label, decode_credential_id,
  new_public_key, decode_public_key, decode_policy, decode_kdf, decode_passphrase_recipient,
  decode_recovery_secret_recipient, decode_fido_recipient, decode_fido_and_passphrase_recipient,
  decode_fido_and_local_secret_recipient, decode_suite, decode_recipient, decode_recipients,
}
use fido_key_wrap.Envelope.WellFormed.{IsKdf, IsCredentialId, IsPublicKey, IsRecipient}
use fido_key_wrap.Envelope.Sound.Rules.{
  Yields, Yields-pure, Yields-lift, Yields-read, Yields-bind, Yields-skip, Yields-check, Yields-if,
  Yields-fail,
}

module _ (w : Wire) (laws : WireLaws w) where
  pub exact_bytes-Yields : (n : ℕ) → Yields (IsArray n) (exact_bytes w n)
  unfolding exact_bytes
  exact_bytes-Yields n =
      Yields-bind _ _ (Yields-read w.dec_bytes laws.bytes_range)
        λ b h. Yields-check _ _ λ u e. Yields-pure b (ground arith, h)

  pub label-Yields : Yields IsLabel (decode_label w)
  unfolding decode_label
  label-Yields = Yields-skip (read w.dec_str) _ λ l.
      Yields-check (ok_or invalid_envelope (validate_label l)) _
        λ u e. Yields-pure l (IsLabel-of_validate l (ground arith))

  credential-Yields : Yields IsCredentialId (decode_credential_id w)
  unfolding decode_credential_id
  credential-Yields = Yields-bind _ _ (Yields-read w.dec_bytes laws.bytes_range) λ c h.
      Yields-check _ _
        λ u e. Yields-pure c (record { nonempty = ground arith; bounded = ground arith; bytes = h })

  new_public_key-IsPublicKey :
      (k a : Bytes) → IsArray 64 k → new_public_key w k ≡ ok a → IsPublicKey w a
  unfolding new_public_key
  new_public_key-IsPublicKey k a h e =
      subst (IsPublicKey w) same (record { array = h; point = ground arith })
    where
      same : k ≡ a
      same = ground arith

  key-Yields : Yields (IsPublicKey w) (decode_public_key w)
  unfolding decode_public_key
  key-Yields =
      Yields-bind _ _ (exact_bytes-Yields 64)
        λ k h. Yields-lift _ λ a e. new_public_key-IsPublicKey k a h e

  parameters-IsFormat1 :
      (m p l : ℕ) (q : PassphraseParameters)
      → Parameters.decode m p l ≡ ok q
      → IsFormat1Parameters q
  unfolding Parameters.decode
  parameters-IsFormat1 m p l q e =
      let (h, same) = IsFormat1-of_new m p l {q = q} (unwrapped (Parameters.new m p l) e) in
      subst IsFormat1Parameters (sym same) h
    where
      unwrapped : (r : Result PassphraseParameters) → map_err invalid_envelope r ≡ ok q → r ≡ ok q
      unwrapped (ok a) h = h
      unwrapped (err x) h = cc

  IsKdf-Yields : Yields IsKdf (decode_kdf w)
  unfolding decode_kdf
  IsKdf-Yields = Yields-skip (require_array w 5) _ λ _. Yields-skip (read w.dec_u8) _ λ kdf.
      Yields-skip (lift (reject_if (not (kdf == argon2id_kdf)) invalid_envelope)) _ λ _.
        Yields-skip (read w.dec_u32) _ λ m. Yields-skip (read w.dec_u32) _ λ p.
          Yields-skip (read w.dec_u8) _ λ l. Yields-check (Parameters.decode m p l) _ λ q e.
            Yields-bind _ _ (exact_bytes-Yields 16) λ s h.
              Yields-pure _ (record { parameters = parameters-IsFormat1 m p l q e; salt = h })

  passphrase-Yields : Yields (IsRecipient w) (decode_passphrase_recipient w)
  unfolding decode_passphrase_recipient
  passphrase-Yields = Yields-bind _ _ (exact_bytes-Yields 32) λ id hid.
      Yields-bind _ _ label-Yields λ label hlabel. Yields-bind _ _ IsKdf-Yields λ kdf hkdf.
        Yields-bind _ _ (exact_bytes-Yields 12) λ nonce hnonce.
          Yields-bind _ _ (exact_bytes-Yields 48) λ root hroot. Yields-pure _ (record {
            id = hid;
            label = hlabel;
            kdf = hkdf;
            passphrase_nonce = hnonce;
            wrapped_root = hroot;
          })

  recovery_secret-Yields : Yields (IsRecipient w) (decode_recovery_secret_recipient w)
  unfolding decode_recovery_secret_recipient
  recovery_secret-Yields = Yields-bind _ _ (exact_bytes-Yields 32) λ id hid.
      Yields-bind _ _ label-Yields λ label hlabel.
        Yields-bind _ _ (exact_bytes-Yields 12) λ nonce hnonce.
          Yields-bind _ _ (exact_bytes-Yields 48) λ root hroot.
            Yields-pure _
              (record { id = hid; label = hlabel; recovery_nonce = hnonce; wrapped_root = hroot })

  fido-Yields : (s : FidoStorage) → Yields (IsRecipient w) (decode_fido_recipient w s)
  unfolding decode_fido_recipient
  fido-Yields s = Yields-bind _ _ (exact_bytes-Yields 32) λ id hid.
      Yields-bind _ _ label-Yields λ label hlabel. Yields-bind _ _ credential-Yields λ c hc.
        Yields-bind _ _ key-Yields λ k hk. Yields-skip (decode_policy w) _ λ p.
          Yields-bind _ _ (exact_bytes-Yields 32) λ prf hprf.
            Yields-bind _ _ (exact_bytes-Yields 12) λ nonce hnonce.
              Yields-bind _ _ (exact_bytes-Yields 48) λ root hroot. Yields-pure _ (record {
                id = hid;
                label = hlabel;
                credential_id = hc;
                public_key = hk;
                prf_nonce = hprf;
                fido_nonce = hnonce;
                wrapped_root = hroot;
              })

  fido_and_passphrase-Yields : Yields (IsRecipient w) (decode_fido_and_passphrase_recipient w)
  unfolding decode_fido_and_passphrase_recipient
  fido_and_passphrase-Yields = Yields-bind _ _ (exact_bytes-Yields 32) λ id hid.
      Yields-bind _ _ label-Yields λ label hlabel. Yields-bind _ _ credential-Yields λ c hc.
        Yields-bind _ _ key-Yields λ k hk. Yields-skip (decode_policy w) _ λ p.
          Yields-bind _ _ (exact_bytes-Yields 32) λ prf hprf.
            Yields-bind _ _ (exact_bytes-Yields 12) λ fnonce hfnonce.
              Yields-bind _ _ IsKdf-Yields λ kdf hkdf.
                Yields-bind _ _ (exact_bytes-Yields 12) λ nonce hnonce.
                  Yields-bind _ _ (exact_bytes-Yields 64) λ root hroot. Yields-pure _ (record {
                    id = hid;
                    label = hlabel;
                    credential_id = hc;
                    public_key = hk;
                    prf_nonce = hprf;
                    fido_nonce = hfnonce;
                    kdf = hkdf;
                    passphrase_nonce = hnonce;
                    wrapped_root = hroot;
                  })

  fido_and_local_secret-Yields : Yields (IsRecipient w) (decode_fido_and_local_secret_recipient w)
  unfolding decode_fido_and_local_secret_recipient
  fido_and_local_secret-Yields = Yields-bind _ _ (exact_bytes-Yields 32) λ id hid.
      Yields-bind _ _ label-Yields λ label hlabel. Yields-bind _ _ credential-Yields λ c hc.
        Yields-bind _ _ key-Yields λ k hk. Yields-bind _ _ (exact_bytes-Yields 32) λ prf hprf.
          Yields-bind _ _ (exact_bytes-Yields 12) λ nonce hnonce.
            Yields-bind _ _ (exact_bytes-Yields 48) λ root hroot. Yields-pure _ (record {
              id = hid;
              label = hlabel;
              credential_id = hc;
              public_key = hk;
              prf_nonce = hprf;
              wrap_nonce = hnonce;
              wrapped_root = hroot;
            })

  suite-Yields : (suite n : ℕ) → Yields (IsRecipient w) (decode_suite w suite n)
  unfolding decode_suite
  suite-Yields suite n = Yields-if _ passphrase-Yields (
      Yields-if _ recovery_secret-Yields (
        Yields-if _ (fido-Yields non_discoverable) (
          Yields-if _ (fido-Yields managed) (
            Yields-if _ fido_and_passphrase-Yields
              (Yields-if _ fido_and_local_secret-Yields (Yields-fail invalid_envelope))))))

  IsRecipient-Yields : Yields (IsRecipient w) (decode_recipient w)
  unfolding decode_recipient
  IsRecipient-Yields =
      Yields-skip (definite_array_len w) _
        λ n. Yields-skip (read w.dec_u8) _ λ suite. suite-Yields suite n

  pub recipients-Yields :
      (n : ℕ) → Yields (λ rs. (length rs ≡ n) × All (IsRecipient w) rs) (decode_recipients w n)
  unfolding decode_recipients
  recipients-Yields zero = Yields-pure [] (refl, tt)
  recipients-Yields (suc n) = Yields-bind _ _ IsRecipient-Yields λ r h.
      Yields-bind _ _ (recipients-Yields n) λ rs hs. Yields-pure (r ∷ rs) (ap suc hs.0, (h, hs.1))
