-- ===== src/Crypto/Wrap/Layers.antt =====
-- Wrapping with crates/fido-key-wrap/src/crypto.rs in one layer succeeds for every well-formed
-- recipient, and what it gives opens again.
use fido_key_wrap.Common.{◌≡◌, refl, [], ◌∷◌, Bytes, IsArray, arith}
use fido_key_wrap.Common.Text.{ascii_bytes}
use fido_key_wrap.Error.{ok}
use fido_key_wrap.Policy.{code, FidoStorage, managed, non_discoverable}
use fido_key_wrap.Transcript.{Fits, encode-total, to_be_bytes, length-to_be_bytes}
use fido_key_wrap.Envelope.{
  PassphraseRecipient, RecoverySecretRecord, FidoRecipient, FidoAndLocalSecretRecipient,
}
use fido_key_wrap.Envelope.Wire.{Wire}
use fido_key_wrap.Envelope.WellFormed.{
  IsPassphraseRecipient, IsRecoverySecretRecord, IsFidoRecipient, IsFidoAndLocalSecretRecipient,
}
use fido_key_wrap.Ident.Application.Grammar.{IsApplicationId}
use fido_key_wrap.Crypto.Suite.{Suite, SuiteLaws}
use fido_key_wrap.Crypto.Context.{
  format, passphrase_suite, recovery_secret_suite, storage_suite, fido_and_local_secret_suite,
  argon2id_kdf, recipient_context_domain, passphrase_context, passphrase_context_transcript,
  recovery_secret_context, recovery_secret_context_transcript, fido_context,
  fido_context_transcript, fido_local_context, fido_local_context_transcript,
}
use fido_key_wrap.Crypto.Wrap.{
  passphrase_aad_domain, recovery_secret_aad_domain, fido_aad_domain, fido_local_aad_domain,
  wrap_passphrase_root, wrap_recovery_secret_root, wrap_fido_root, wrap_fido_local_root,
  unwrap_passphrase_root, unwrap_recovery_secret_root, unwrap_fido_root, unwrap_fido_local_root,
}
use fido_key_wrap.Crypto.Wrap.RoundTrip.{
  unwrap-wrap_passphrase_root, unwrap-wrap_recovery_secret_root, unwrap-wrap_fido_root,
  unwrap-wrap_fido_local_root,
}
use fido_key_wrap.Crypto.Wrap.Total.{Fits-context_domain, seals}

Fits-storage_suite : (t : FidoStorage) → Fits (storage_suite t)
Fits-storage_suite non_discoverable = omega arith
Fits-storage_suite managed = omega arith

Fits-passphrase : Fits passphrase_aad_domain
unfolding passphrase_aad_domain ascii_bytes
Fits-passphrase = omega arith

Fits-recovery_secret : Fits recovery_secret_aad_domain
unfolding recovery_secret_aad_domain ascii_bytes
Fits-recovery_secret = omega arith

Fits-fido : Fits fido_aad_domain
unfolding fido_aad_domain ascii_bytes
Fits-fido = omega arith

Fits-fido_local : Fits fido_local_aad_domain
unfolding fido_local_aad_domain ascii_bytes
Fits-fido_local = omega arith

module _ (s : Suite) (laws : SuiteLaws s) where
  passphrase_context-total :
      (r : PassphraseRecipient) (a i : Bytes)
      → IsPassphraseRecipient r
      → IsApplicationId a
      → IsArray 32 i
      → (c : Bytes) × (passphrase_context s r a i ≡ ok c) × IsArray 32 c
  unfolding passphrase_context passphrase_context_transcript
  passphrase_context-total r a i h ha hi =
      let (t, e) =
        encode-total
          (recipient_context_domain
            ∷ format
            ∷ passphrase_suite
            ∷ a
            ∷ i
            ∷ r.id
            ∷ argon2id_kdf
            ∷ to_be_bytes r.kdf.parameters.memory_kib
            ∷ to_be_bytes r.kdf.parameters.passes
            ∷ (r.kdf.parameters.lanes ∷ [])
            ∷ r.kdf.salt
            ∷ r.passphrase_nonce
            ∷ [])
          (omega arith)
          (
            Fits-context_domain,
            (
              omega arith,
              (
                omega arith,
                (
                  omega (arith, ha.bounded),
                  (
                    omega (arith, hi.0),
                    (
                      omega (arith, h.id.0),
                      (
                        omega arith,
                        (
                          omega (arith, length-to_be_bytes r.kdf.parameters.memory_kib),
                          (
                            omega (arith, length-to_be_bytes r.kdf.parameters.passes),
                            (
                              omega arith,
                              (
                                omega (arith, h.kdf.salt.0),
                                (omega (arith, h.passphrase_nonce.0), tt),
                              ),
                            ),
                          ),
                        ),
                      ),
                    ),
                  ),
                ),
              ),
            ),
          ) in
      (s.sha256 t, rw e refl, laws.sha256_array t)

  -- A root of 32 bytes is always wrapped for a well-formed passphrase recipient, under a key of 32 bytes,
  -- for an application and an envelope, and the 48 bytes open under that key to the root.
  pub wrap_passphrase_root-opens :
      (r : PassphraseRecipient) (a i root key : Bytes)
      → IsPassphraseRecipient r
      → IsApplicationId a
      → IsArray 32 i
      → IsArray 32 root
      → IsArray 32 key
      → (b : Bytes) × (wrap_passphrase_root s r a i root key ≡ ok b)
        × (unwrap_passphrase_root s (record r { wrapped_root = b }) a i key ≡ ok root)
        × IsArray 48 b
  unfolding wrap_passphrase_root
  wrap_passphrase_root-opens r a i root key h ha hi hr hk =
      let (c, ec, hc) = passphrase_context-total r a i h ha hi in
      let (b, e) =
        seals s laws (passphrase_context s r a i) passphrase_aad_domain c 32 48 key
          r.passphrase_nonce root ec hc Fits-passphrase refl hk h.passphrase_nonce hr.1 in
      let (opens, array) = unwrap-wrap_passphrase_root s laws r a i root key b hr.0 e in
      (b, e, opens, array)

  recovery_secret_context-total :
      (r : RecoverySecretRecord) (a i : Bytes)
      → IsRecoverySecretRecord r
      → IsApplicationId a
      → IsArray 32 i
      → (c : Bytes) × (recovery_secret_context s r a i ≡ ok c) × IsArray 32 c
  unfolding recovery_secret_context recovery_secret_context_transcript
  recovery_secret_context-total r a i h ha hi =
      let (t, e) =
        encode-total
          (recipient_context_domain ∷ format ∷ recovery_secret_suite ∷ a ∷ i ∷ r.id ∷ r.label
            ∷ r.recovery_nonce ∷ [])
          (omega arith)
          (
            Fits-context_domain,
            (
              omega arith,
              (
                omega arith,
                (
                  omega (arith, ha.bounded),
                  (
                    omega (arith, hi.0),
                    (
                      omega (arith, h.id.0),
                      (omega (arith, h.label.bounded), (omega (arith, h.recovery_nonce.0), tt)),
                    ),
                  ),
                ),
              ),
            ),
          ) in
      (s.sha256 t, rw e refl, laws.sha256_array t)

  -- A root of 32 bytes is always wrapped for a well-formed recovery-secret recipient, under a key of 32 bytes,
  -- for an application and an envelope, and the 48 bytes open under that key to the root.
  pub wrap_recovery_secret_root-opens :
      (r : RecoverySecretRecord) (a i root key : Bytes)
      → IsRecoverySecretRecord r
      → IsApplicationId a
      → IsArray 32 i
      → IsArray 32 root
      → IsArray 32 key
      → (b : Bytes) × (wrap_recovery_secret_root s r a i root key ≡ ok b)
        × (unwrap_recovery_secret_root s (record r { wrapped_root = b }) a i key ≡ ok root)
        × IsArray 48 b
  unfolding wrap_recovery_secret_root
  wrap_recovery_secret_root-opens r a i root key h ha hi hr hk =
      let (c, ec, hc) = recovery_secret_context-total r a i h ha hi in
      let (b, e) =
        seals s laws (recovery_secret_context s r a i) recovery_secret_aad_domain c 32 48 key
          r.recovery_nonce root ec hc Fits-recovery_secret refl hk h.recovery_nonce hr.1 in
      let (opens, array) = unwrap-wrap_recovery_secret_root s laws r a i root key b hr.0 e in
      (b, e, opens, array)

  fido_context-total :
      (w : Wire) (r : FidoRecipient) (a i : Bytes)
      → IsFidoRecipient w r
      → IsApplicationId a
      → IsArray 32 i
      → (c : Bytes) × (fido_context s r a i ≡ ok c) × IsArray 32 c
  unfolding fido_context fido_context_transcript
  fido_context-total w r a i h ha hi =
      let (t, e) =
        encode-total
          (recipient_context_domain
            ∷ format
            ∷ storage_suite r.storage
            ∷ a
            ∷ i
            ∷ r.id
            ∷ r.credential_id
            ∷ r.public_key
            ∷ (code r.policy ∷ [])
            ∷ r.prf_nonce
            ∷ r.fido_nonce
            ∷ [])
          (omega arith)
          (
            Fits-context_domain,
            (
              omega arith,
              (
                Fits-storage_suite r.storage,
                (
                  omega (arith, ha.bounded),
                  (
                    omega (arith, hi.0),
                    (
                      omega (arith, h.id.0),
                      (
                        omega (arith, h.credential_id.bounded),
                        (
                          omega (arith, h.public_key.array.0),
                          (
                            omega arith,
                            (omega (arith, h.prf_nonce.0), (omega (arith, h.fido_nonce.0), tt)),
                          ),
                        ),
                      ),
                    ),
                  ),
                ),
              ),
            ),
          ) in
      (s.sha256 t, rw e refl, laws.sha256_array t)

  -- A root of 32 bytes is always wrapped for a well-formed security-key recipient, under a key of 32 bytes,
  -- for an application and an envelope, and the 48 bytes open under that key to the root.
  pub wrap_fido_root-opens :
      (w : Wire) (r : FidoRecipient) (a i root key : Bytes)
      → IsFidoRecipient w r
      → IsApplicationId a
      → IsArray 32 i
      → IsArray 32 root
      → IsArray 32 key
      → (b : Bytes) × (wrap_fido_root s r a i root key ≡ ok b)
        × (unwrap_fido_root s (record r { wrapped_root = b }) a i key ≡ ok root)
        × IsArray 48 b
  unfolding wrap_fido_root
  wrap_fido_root-opens w r a i root key h ha hi hr hk =
      let (c, ec, hc) = fido_context-total w r a i h ha hi in
      let (b, e) =
        seals s laws (fido_context s r a i) fido_aad_domain c 32 48 key r.fido_nonce root ec hc
          Fits-fido refl hk h.fido_nonce hr.1 in
      let (opens, array) = unwrap-wrap_fido_root s laws r a i root key b hr.0 e in
      (b, e, opens, array)

  fido_local_context-total :
      (w : Wire) (r : FidoAndLocalSecretRecipient) (a i : Bytes)
      → IsFidoAndLocalSecretRecipient w r
      → IsApplicationId a
      → IsArray 32 i
      → (c : Bytes) × (fido_local_context s r a i ≡ ok c) × IsArray 32 c
  unfolding fido_local_context fido_local_context_transcript
  fido_local_context-total w r a i h ha hi =
      let (t, e) =
        encode-total
          (recipient_context_domain ∷ format ∷ fido_and_local_secret_suite ∷ a ∷ i ∷ r.id ∷ r.label
            ∷ r.credential_id ∷ r.public_key ∷ r.prf_nonce ∷ r.wrap_nonce ∷ [])
          (omega arith)
          (
            Fits-context_domain,
            (
              omega arith,
              (
                omega arith,
                (
                  omega (arith, ha.bounded),
                  (
                    omega (arith, hi.0),
                    (
                      omega (arith, h.id.0),
                      (
                        omega (arith, h.label.bounded),
                        (
                          omega (arith, h.credential_id.bounded),
                          (
                            omega (arith, h.public_key.array.0),
                            (omega (arith, h.prf_nonce.0), (omega (arith, h.wrap_nonce.0), tt)),
                          ),
                        ),
                      ),
                    ),
                  ),
                ),
              ),
            ),
          ) in
      (s.sha256 t, rw e refl, laws.sha256_array t)

  -- A root of 32 bytes is always wrapped for a well-formed security-key recipient with a local secret, under a key of 32 bytes,
  -- for an application and an envelope, and the 48 bytes open under that key to the root.
  pub wrap_fido_local_root-opens :
      (w : Wire) (r : FidoAndLocalSecretRecipient) (a i root key : Bytes)
      → IsFidoAndLocalSecretRecipient w r
      → IsApplicationId a
      → IsArray 32 i
      → IsArray 32 root
      → IsArray 32 key
      → (b : Bytes) × (wrap_fido_local_root s r a i root key ≡ ok b)
        × (unwrap_fido_local_root s (record r { wrapped_root = b }) a i key ≡ ok root)
        × IsArray 48 b
  unfolding wrap_fido_local_root
  wrap_fido_local_root-opens w r a i root key h ha hi hr hk =
      let (c, ec, hc) = fido_local_context-total w r a i h ha hi in
      let (b, e) =
        seals s laws (fido_local_context s r a i) fido_local_aad_domain c 32 48 key r.wrap_nonce
          root ec hc Fits-fido_local refl hk h.wrap_nonce hr.1 in
      let (opens, array) = unwrap-wrap_fido_local_root s laws r a i root key b hr.0 e in
      (b, e, opens, array)
