-- ===== src/Crypto/Wrap/Total.antt =====
-- Wrapping with crates/fido-key-wrap/src/crypto.rs succeeds for every well-formed recipient, and
-- what it gives opens again.
use fido_key_wrap.Common.{ℕ, ◌+◌, ◌≡◌, refl, [], ◌∷◌, ◌++◌, Bytes, IsArray, IsByte, All, arith}
use fido_key_wrap.Common.Text.{ascii_bytes}
use fido_key_wrap.Error.{Result, ok}
use fido_key_wrap.Transcript.{to_be_bytes, Fits, encode-total, length-to_be_bytes}
use fido_key_wrap.Policy.{code}
use fido_key_wrap.Envelope.{FidoAndPassphraseRecipient}
use fido_key_wrap.Envelope.Wire.{Wire}
use fido_key_wrap.Envelope.WellFormed.{IsFidoAndPassphraseRecipient}
use fido_key_wrap.Ident.Application.Grammar.{IsApplicationId}
use fido_key_wrap.Crypto.Suite.{Suite, SuiteLaws}
use fido_key_wrap.Crypto.Context.{
  format, combined_suite, argon2id_kdf, recipient_context_domain, combined_context,
  combined_context_transcript,
}
use fido_key_wrap.Crypto.Wrap.{
  encrypt_fixed, wrap_combined_inner, wrap_combined_outer, wrap_combined_root,
  unwrap_combined_outer, unwrap_combined_inner, combined_passphrase_aad_domain,
  combined_fido_aad_domain,
}
use fido_key_wrap.Crypto.Wrap.RoundTrip.{unwrap-wrap_combined_root, unseal-seal, seal}

pub Fits-context_domain : Fits recipient_context_domain
unfolding recipient_context_domain ascii_bytes
Fits-context_domain = omega arith

Fits-combined_passphrase : Fits combined_passphrase_aad_domain
unfolding combined_passphrase_aad_domain ascii_bytes
Fits-combined_passphrase = omega arith

Fits-combined_fido : Fits combined_fido_aad_domain
unfolding combined_fido_aad_domain ascii_bytes
Fits-combined_fido = omega arith

module _ (s : Suite) (laws : SuiteLaws s) where
  encrypts :
      (p q : ℕ) (key nonce plain aad : Bytes)
      → q ≡ p + 16
      → IsArray 32 key
      → IsArray 12 nonce
      → All IsByte plain
      → (b : Bytes) × (encrypt_fixed s p q key nonce plain aad ≡ ok b)
  unfolding encrypt_fixed
  encrypts p q key nonce plain aad sizes hk hn hp =
      let (c, t, e) = laws.encrypt_total key nonce aad plain hk hn hp in (c ++ t, ground (arith, e))

  pub seals :
      (context : Result Bytes) (domain c : Bytes) (p q : ℕ) (key nonce plain : Bytes)
      → context ≡ ok c
      → IsArray 32 c
      → Fits domain
      → q ≡ p + 16
      → IsArray 32 key
      → IsArray 12 nonce
      → All IsByte plain
      → (b : Bytes) × (seal s laws context domain p q key nonce plain ≡ ok b)
  seals context domain c p q key nonce plain ec hc hd sizes hk hn hp =
      let (aad, ea) =
        encode-total (domain ∷ c ∷ []) (omega arith) (hd, (omega (arith, hc.0), tt)) in
      let (b, eb) = encrypts p q key nonce plain aad sizes hk hn hp in (b, rw (ec, ea) eb)

  combined_context-total :
      (w : Wire) (r : FidoAndPassphraseRecipient) (a i : Bytes)
      → IsFidoAndPassphraseRecipient w r
      → IsApplicationId a
      → IsArray 32 i
      → (c : Bytes) × (combined_context s r a i ≡ ok c) × IsArray 32 c
  unfolding combined_context combined_context_transcript
  combined_context-total w r a i h ha hi =
      let (t, e) =
        encode-total
          (recipient_context_domain
            ∷ format
            ∷ combined_suite
            ∷ a
            ∷ i
            ∷ r.id
            ∷ r.credential_id
            ∷ r.public_key
            ∷ (code r.policy ∷ [])
            ∷ r.prf_nonce
            ∷ r.fido_nonce
            ∷ argon2id_kdf
            ∷ to_be_bytes r.kdf.parameters.memory_kib
            ∷ to_be_bytes r.kdf.parameters.passes
            ∷ (r.kdf.parameters.lanes ∷ [])
            ∷ r.kdf.salt
            ∷ r.passphrase_nonce
            ∷ [])
          (omega arith)
          (
            Fits-context_domain,
            (
              omega arith,
              (
                omega arith,
                (
                  omega (arith, ha.bounded),
                  (
                    omega (arith, hi.0),
                    (
                      omega (arith, h.id.0),
                      (
                        omega (arith, h.credential_id.bounded),
                        (
                          omega (arith, h.public_key.array.0),
                          (
                            omega arith,
                            (
                              omega (arith, h.prf_nonce.0),
                              (
                                omega (arith, h.fido_nonce.0),
                                (
                                  omega arith,
                                  (
                                    omega (arith, length-to_be_bytes r.kdf.parameters.memory_kib),
                                    (
                                      omega (arith, length-to_be_bytes r.kdf.parameters.passes),
                                      (
                                        omega arith,
                                        (
                                          omega (arith, h.kdf.salt.0),
                                          (omega (arith, h.passphrase_nonce.0), tt),
                                        ),
                                      ),
                                    ),
                                  ),
                                ),
                              ),
                            ),
                          ),
                        ),
                      ),
                    ),
                  ),
                ),
              ),
            ),
          ) in
      (s.sha256 t, rw e refl, laws.sha256_array t)

  -- A root of 32 bytes is always wrapped in the two layers of a well-formed combined recipient, under
  -- keys of 32 bytes, for an application and an envelope: the outer layer of the 64 bytes opens under
  -- the security-key key and gives what the inner layer opens to the root under the passphrase key.
  pub wrap_combined_root-opens :
      (w : Wire) (r : FidoAndPassphraseRecipient) (a i root pass_key fido_key : Bytes)
      → IsFidoAndPassphraseRecipient w r
      → IsApplicationId a
      → IsArray 32 i
      → IsArray 32 root
      → IsArray 32 pass_key
      → IsArray 32 fido_key
      → (b : Bytes) × (wrap_combined_root s r a i root pass_key fido_key ≡ ok b)
        × (let stored = record r { wrapped_root = b } in
            (inner : Bytes) × (unwrap_combined_outer s stored a i fido_key ≡ ok inner)
            × (unwrap_combined_inner s stored a i inner pass_key ≡ ok root)
            × IsArray 64 b)
  unfolding wrap_combined_root wrap_combined_inner wrap_combined_outer
  wrap_combined_root-opens w r a i root pass_key fido_key h ha hi hr hp hf =
      let (c, ec, hc) = combined_context-total w r a i h ha hi in
      let (inner, e1) =
        seals (combined_context s r a i) combined_passphrase_aad_domain c 32 48 pass_key
          r.passphrase_nonce root ec hc Fits-combined_passphrase refl hp h.passphrase_nonce hr.1 in
      let array =
        (unseal-seal s laws (combined_context s r a i) combined_passphrase_aad_domain 32 48 pass_key
          r.passphrase_nonce root inner hr.0 e1).1 in
      let (b, e2) =
        seals (combined_context s r a i) combined_fido_aad_domain c 48 64 fido_key r.fido_nonce
          inner ec hc Fits-combined_fido refl hf h.fido_nonce array.1 in
      (b, rw e1 e2, unwrap-wrap_combined_root s laws r a i root pass_key fido_key b hr.0 (rw e1 e2))
