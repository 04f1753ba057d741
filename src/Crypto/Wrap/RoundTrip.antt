-- ===== src/Crypto/Wrap/RoundTrip.antt =====
-- Unwrapping undoes wrapping, for every layer of crates/fido-key-wrap/src/crypto.rs.
use fido_key_wrap.Common.{
  ℕ, ◌+◌, ◌≡◌, ◌∙◌, [], ◌∷◌, ◌++◌, some, arith, Bytes, IsArray, IsByte, All-append, length,
  length-append, take-append, drop-append, Option-cases, inl, inr,
}
use fido_key_wrap.Error.{Result, ok, ◌>>=◌, >>=-eq-ok}
use fido_key_wrap.Transcript
use fido_key_wrap.Envelope.{
  PassphraseRecipient, RecoverySecretRecord, FidoRecipient, FidoAndPassphraseRecipient,
  FidoAndLocalSecretRecipient, root_bytes,
}
use fido_key_wrap.Crypto.Suite.{Suite, SuiteLaws}
use fido_key_wrap.Crypto.Context.{
  passphrase_context, recovery_secret_context, fido_context, fido_local_context, combined_context,
  passphrase_context_transcript, recovery_secret_context_transcript, fido_context_transcript,
  fido_local_context_transcript, combined_context_transcript,
}
use fido_key_wrap.Crypto.Wrap.{
  encrypt_fixed, decrypt_fixed, passphrase_aad_domain, recovery_secret_aad_domain, fido_aad_domain,
  fido_local_aad_domain, combined_passphrase_aad_domain, combined_fido_aad_domain,
  wrap_passphrase_root, unwrap_passphrase_root, wrap_recovery_secret_root,
  unwrap_recovery_secret_root, wrap_fido_root, unwrap_fido_root, wrap_fido_local_root,
  unwrap_fido_local_root, wrap_combined_inner, wrap_combined_outer, wrap_combined_root,
  unwrap_combined_outer, unwrap_combined_inner,
}

module _ (s : Suite) (laws : SuiteLaws s) where
  encrypted_parts :
      (p q : ℕ) (key nonce plain aad b : Bytes)
      → encrypt_fixed s p q key nonce plain aad ≡ ok b
      → (c : Bytes) × (t : Bytes) × (s.encrypt key nonce aad plain ≡ some (c, t))
        × (b ≡ c ++ t)
        × (q ≡ p + 16)
  unfolding encrypt_fixed
  encrypted_parts p q key nonce plain aad b h =
      elim (Option-cases (s.encrypt key nonce aad plain)) [
        | inl e ↦ absurd (ground (arith, e))
        | inr ((c, t), e) ↦ (c, t, e, ground (arith, e), ground arith)
      ]

  decrypts :
      (p q : ℕ) (key nonce plain aad c t : Bytes)
      → q ≡ p + 16
      → length c ≡ p
      → length t ≡ 16
      → s.encrypt key nonce aad plain ≡ some (c, t)
      → decrypt_fixed s p q key nonce (c ++ t) aad ≡ ok plain
  unfolding decrypt_fixed
  decrypts p q key nonce plain aad c t sizes lc lt e =
      rw (← lc, take-append c t, drop-append c t, laws.decrypt_back key nonce aad plain c t e)
        (ground arith)

  pub decrypt-encrypt :
      (p q : ℕ) (key nonce plain aad b : Bytes)
      → length plain ≡ p
      → encrypt_fixed s p q key nonce plain aad ≡ ok b
      → (decrypt_fixed s p q key nonce b aad ≡ ok plain) × IsArray q b
  decrypt-encrypt p q key nonce plain aad b lp h =
      let (c, t, e, same, sizes) = encrypted_parts p q key nonce plain aad b h in
      let (lc, bc, at) = laws.encrypt_shape key nonce aad plain c t e in
      (
        rw same (decrypts p q key nonce plain aad c t sizes (lc ∙ lp) at.0 e),
        (rw same (omega (arith, length-append c t, at.0)), rw same (All-append IsByte c t bc at.1)),
      )

  -- A layer that is bound to a context under a domain.
  abbrev pub seal : Result Bytes → Bytes → ℕ → ℕ → Bytes → Bytes → Bytes → Result Bytes
  seal context domain p q key nonce plain = do
    c ← context
    aad ← Transcript.encode (domain ∷ c ∷ [])
    encrypt_fixed s p q key nonce plain aad

  abbrev pub unseal : Result Bytes → Bytes → ℕ → ℕ → Bytes → Bytes → Bytes → Result Bytes
  unseal context domain p q key nonce b = do
    c ← context
    aad ← Transcript.encode (domain ∷ c ∷ [])
    decrypt_fixed s p q key nonce b aad

  pub unseal-seal :
      (context : Result Bytes) (domain : Bytes) (p q : ℕ) (key nonce plain b : Bytes)
      → length plain ≡ p
      → seal context domain p q key nonce plain ≡ ok b
      → (unseal context domain p q key nonce b ≡ ok plain) × IsArray q b
  unseal-seal context domain p q key nonce plain b lp h =
      let (c, ec, h') = >>=-eq-ok context _ h in
      let (aad, ea, h'') = >>=-eq-ok (Transcript.encode (domain ∷ c ∷ [])) _ h' in
      let (opens, array) = decrypt-encrypt p q key nonce plain aad b lp h'' in
      (rw (ec, ea) opens, array)

  pub unwrap-wrap_passphrase_root :
      (r : PassphraseRecipient) (a i root key b : Bytes)
      → length root ≡ root_bytes
      → wrap_passphrase_root s r a i root key ≡ ok b
      → (unwrap_passphrase_root s (record r { wrapped_root = b }) a i key ≡ ok root) × IsArray 48 b
  unfolding wrap_passphrase_root unwrap_passphrase_root passphrase_context
      passphrase_context_transcript
  unwrap-wrap_passphrase_root r a i root key b lr h =
      unseal-seal (passphrase_context s r a i) passphrase_aad_domain 32 48 key r.passphrase_nonce
        root b lr h

  pub unwrap-wrap_recovery_secret_root :
      (r : RecoverySecretRecord) (a i root key b : Bytes)
      → length root ≡ root_bytes
      → wrap_recovery_secret_root s r a i root key ≡ ok b
      → (unwrap_recovery_secret_root s (record r { wrapped_root = b }) a i key ≡ ok root)
        × IsArray 48 b
  unfolding wrap_recovery_secret_root unwrap_recovery_secret_root recovery_secret_context
      recovery_secret_context_transcript
  unwrap-wrap_recovery_secret_root r a i root key b lr h =
      unseal-seal (recovery_secret_context s r a i) recovery_secret_aad_domain 32 48 key
        r.recovery_nonce root b lr h

  pub unwrap-wrap_fido_root :
      (r : FidoRecipient) (a i root key b : Bytes)
      → length root ≡ root_bytes
      → wrap_fido_root s r a i root key ≡ ok b
      → (unwrap_fido_root s (record r { wrapped_root = b }) a i key ≡ ok root) × IsArray 48 b
  unfolding wrap_fido_root unwrap_fido_root fido_context fido_context_transcript
  unwrap-wrap_fido_root r a i root key b lr h =
      unseal-seal (fido_context s r a i) fido_aad_domain 32 48 key r.fido_nonce root b lr h

  pub unwrap-wrap_fido_local_root :
      (r : FidoAndLocalSecretRecipient) (a i root key b : Bytes)
      → length root ≡ root_bytes
      → wrap_fido_local_root s r a i root key ≡ ok b
      → (unwrap_fido_local_root s (record r { wrapped_root = b }) a i key ≡ ok root) × IsArray 48 b
  unfolding wrap_fido_local_root unwrap_fido_local_root fido_local_context
      fido_local_context_transcript
  unwrap-wrap_fido_local_root r a i root key b lr h =
      unseal-seal (fido_local_context s r a i) fido_local_aad_domain 32 48 key r.wrap_nonce root b
        lr h

  -- When a 32-byte root has been wrapped in the two layers of a combined recipient, the outer layer of
  -- the 64 bytes opens under the security-key key and gives what the inner layer opens to the root
  -- under the passphrase key.
  pub unwrap-wrap_combined_root :
      (r : FidoAndPassphraseRecipient) (a i root pass_key fido_key b : Bytes)
      → length root ≡ root_bytes
      → wrap_combined_root s r a i root pass_key fido_key ≡ ok b
      → let stored = record r { wrapped_root = b } in
        (inner : Bytes) × (unwrap_combined_outer s stored a i fido_key ≡ ok inner)
        × (unwrap_combined_inner s stored a i inner pass_key ≡ ok root)
        × IsArray 64 b
  unfolding wrap_combined_root wrap_combined_inner wrap_combined_outer unwrap_combined_outer
      unwrap_combined_inner combined_context combined_context_transcript
  unwrap-wrap_combined_root r a i root pass_key fido_key b lr h =
      let (inner, ei, eo) = >>=-eq-ok (wrap_combined_inner s r a i root pass_key) _ h in
      let (opens_inner, array_inner) =
        unseal-seal (combined_context s r a i) combined_passphrase_aad_domain 32 48 pass_key
          r.passphrase_nonce root inner lr ei in
      let (opens_outer, array_outer) =
        unseal-seal (combined_context s r a i) combined_fido_aad_domain 48 64 fido_key r.fido_nonce
          inner b array_inner.0 eo in
      (inner, opens_outer, opens_inner, array_outer)
