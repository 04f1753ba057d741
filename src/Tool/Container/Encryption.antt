-- ===== src/Tool/Container/Encryption.antt =====
-- The secret of crates/fkw-tool/src/container.rs: its encryption is undone.
use fido_key_wrap.Common.{
  ℕ, ◌+◌, ◌≡◌, refl, ap, sym, ◌∙◌, Bool, true, false, Option, none, some, ◌++◌, Bytes, length, take,
  drop, length-append, take-append, drop-append, arith,
}
use Prim.Native.String.{String}
use fido_key_wrap.Native.Errors.{done, fault_if, done_or, >>=-eq-done, same_done}
use fido_key_wrap.Crypto.Suite.{Suite, SuiteLaws}
use fido_key_wrap.Tool.Container.{
  tag_bytes, EncryptedSecret, validate_length, validate_envelope_len, validate_ciphertext_len,
  secret_aad, invalid_plaintext, derive_secret_key, joined, without_tag, encrypt_with_nonce,
  decrypt_secret,
}

module _ (s : Suite) (laws : SuiteLaws s) where
  open s use {encrypt, decrypt}

  parts :
      (o : Option (Bytes × Bytes)) (e : String) (ciphertext : Bytes)
      → done_or e (joined s o) ≡ done ciphertext
      → (c : Bytes) × (t : Bytes) × (o ≡ some (c, t)) × (ciphertext ≡ c ++ t)
  parts none e ciphertext h = cc h
  parts (some (c, t)) e ciphertext h = (c, t, refl, cc h)

  fits :
      (plaintext : Bytes) (n : ℕ)
      → invalid_plaintext plaintext ≡ false
      → n ≡ length plaintext + tag_bytes
      → validate_ciphertext_len n ≡ done tt
  unfolding validate_ciphertext_len validate_length
  fits plaintext n hp e = ground arith

  split :
      (c t : Bytes)
      → length t ≡ tag_bytes
      → (take (without_tag s (c ++ t)) (c ++ t) ≡ c) × (drop (without_tag s (c ++ t)) (c ++ t) ≡ t)
  split c t h =
      let where_tag : without_tag s (c ++ t) ≡ length c = omega (arith, length-append c t, h) in
      (
        ap (λ n. take n (c ++ t)) where_tag ∙ take-append c t,
        ap (λ n. drop n (c ++ t)) where_tag ∙ drop-append c t,
      )

  decrypted :
      (root application envelope plaintext nonce key aad c t : Bytes)
      → validate_envelope_len envelope ≡ done tt
      → invalid_plaintext plaintext ≡ false
      → derive_secret_key s root application ≡ done key
      → secret_aad envelope ≡ done aad
      → encrypt key nonce aad plaintext ≡ some (c, t)
      → decrypt_secret s (record { nonce = nonce; ciphertext = c ++ t }) root application envelope
        ≡ done plaintext
  unfolding decrypt_secret
  decrypted root application envelope plaintext nonce key aad c t he hp hk ha h =
      let (same, _, (tag, _)) = laws.encrypt_shape key nonce aad plaintext c t h in
      let (front, back) = split c t tag in
      rw (
        he,
        fits plaintext (length (c ++ t)) hp (omega (arith, length-append c t, same, tag)),
        hk,
        ha,
        front,
        back,
        laws.decrypt_back key nonce aad plaintext c t h,
        hp,
      )

  -- A secret that is encrypted under a root, an application and an envelope is decrypted under them to
  -- what it was.
  pub decrypt_secret-encrypt :
      (root application envelope plaintext nonce : Bytes) (secret : EncryptedSecret)
      → encrypt_with_nonce s root application envelope plaintext nonce ≡ done secret
      → decrypt_secret s secret root application envelope ≡ done plaintext
  unfolding encrypt_with_nonce
  decrypt_secret-encrypt root application envelope plaintext nonce secret h =
      let (_, he, h1) = >>=-eq-done (validate_envelope_len envelope) _ h in
      let (_, hp, h2) = >>=-eq-done (fault_if (invalid_plaintext plaintext) _) _ h1 in
      let (key, hk, h3) = >>=-eq-done (derive_secret_key s root application) _ h2 in
      let (aad, ha, h4) = >>=-eq-done (secret_aad envelope) _ h3 in
      let (ciphertext, hc, h5) =
        >>=-eq-done (done_or _ (joined s (encrypt key nonce aad plaintext))) _ h4 in
      let (c, t, e, same) = parts (encrypt key nonce aad plaintext) _ ciphertext hc in
      ap (λ (x : EncryptedSecret). decrypt_secret s x root application envelope)
        (sym (same_done h5) ∙ ap (λ x. record { nonce = nonce; ciphertext = x }) same)
      ∙ decrypted root application envelope plaintext nonce key aad c t he
          (valid (invalid_plaintext plaintext) _ hp) hk ha e
    where
      valid : (b : Bool) (e : String) → fault_if b e ≡ done tt → b ≡ false
      valid false e k = refl
      valid true e k = cc k
