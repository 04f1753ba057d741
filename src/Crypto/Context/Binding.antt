-- ===== src/Crypto/Context/Binding.antt =====
-- What the context transcript of crates/fido-key-wrap/src/crypto.rs fixes about a recipient.
use fido_key_wrap.Common.{
  ◌^◌, ◌<◌, ◌≡◌, ◌≢◌, refl, ap, Option, some, none, List, arith, Bytes, length,
}
use fido_key_wrap.Error.{ok}
use fido_key_wrap.Policy.{
  FidoPolicy, presence, user_verification, code, FidoStorage, non_discoverable, managed,
}
use fido_key_wrap.Policy.Parameters.{PassphraseParameters}
use fido_key_wrap.Transcript.{to_be_bytes-injective, encode-injective}
use fido_key_wrap.Envelope.{
  RecipientRecord, passphrase, recovery_secret, fido, fido_and_passphrase, fido_and_local_secret,
  id, policy, passphrase_parameters, credential_id, passphrase_salt, PassphraseRecipient,
  FidoRecipient, FidoAndPassphraseRecipient,
}
use fido_key_wrap.Crypto.Context.{
  storage_suite, fido_and_local_secret_suite, passphrase_context_transcript,
  recovery_secret_context_transcript, fido_context_transcript, combined_context_transcript,
  fido_local_context_transcript, recipient_context_transcript,
}

-- The parameters are `u32` values.
abbrev pub HasU32Parameters : Option PassphraseParameters → Type 0
HasU32Parameters none = Unit
HasU32Parameters (some p) = (p.memory_kib < 2 ^ 32) × (p.passes < 2 ^ 32)

-- Two uses of recipients agree on where they stand and on what they need.
pub record IsSameBinding (r s : RecipientRecord) (a b i j : Bytes) : Type 0 where
  pub application : a ≡ b
  pub envelope : i ≡ j
  pub recipient : id r ≡ id s
  pub factors : policy r ≡ policy s
  pub work : passphrase_parameters r ≡ passphrase_parameters s
  pub credential : credential_id r ≡ credential_id s
  pub salt : passphrase_salt r ≡ passphrase_salt s

code-injective : (p q : FidoPolicy) → code p ≡ code q → p ≡ q
unfolding code
code-injective presence presence h = refl
code-injective presence user_verification h = absurd (omega arith)
code-injective user_verification presence h = absurd (omega arith)
code-injective user_verification user_verification h = refl

storage_suite-injective : (p q : FidoStorage) → storage_suite p ≡ storage_suite q → p ≡ q
storage_suite-injective non_discoverable non_discoverable h = refl
storage_suite-injective non_discoverable managed h = cc
storage_suite-injective managed non_discoverable h = cc
storage_suite-injective managed managed h = refl

storage_suite-ne_local : (p : FidoStorage) → storage_suite p ≢ fido_and_local_secret_suite
storage_suite-ne_local non_discoverable h = cc
storage_suite-ne_local managed h = cc

module _ (a b i j t : Bytes) where
  fido_binding :
      (r s : FidoRecipient)
      → fido_context_transcript r a i ≡ ok t
      → fido_context_transcript s b j ≡ ok t
      → IsSameBinding (fido r) (fido s) a b i j
  unfolding fido_context_transcript
  fido_binding r s h k =
      let e = encode-injective _ _ t h k in
      record {
        application = cc;
        envelope = cc;
        recipient = cc;
        factors = cc (
          code-injective r.policy s.policy (cc),
          storage_suite-injective r.storage s.storage (cc),
        );
        work = refl;
        credential = cc;
        salt = refl;
      }

  passphrase_binding :
      (r s : PassphraseRecipient)
      → HasU32Parameters (some r.kdf.parameters)
      → HasU32Parameters (some s.kdf.parameters)
      → passphrase_context_transcript r a i ≡ ok t
      → passphrase_context_transcript s b j ≡ ok t
      → IsSameBinding (passphrase r) (passphrase s) a b i j
  unfolding passphrase_context_transcript
  passphrase_binding r s hr hs h k =
      let e = encode-injective _ _ t h k in
      record {
        application = cc;
        envelope = cc;
        recipient = cc;
        factors = refl;
        work = cc (
          to_be_bytes-injective r.kdf.parameters.memory_kib s.kdf.parameters.memory_kib hr.0 hs.0
              (cc),
          to_be_bytes-injective r.kdf.parameters.passes s.kdf.parameters.passes hr.1 hs.1 (cc),
        );
        credential = refl;
        salt = cc;
      }

  combined_binding :
      (r s : FidoAndPassphraseRecipient)
      → HasU32Parameters (some r.kdf.parameters)
      → HasU32Parameters (some s.kdf.parameters)
      → combined_context_transcript r a i ≡ ok t
      → combined_context_transcript s b j ≡ ok t
      → IsSameBinding (fido_and_passphrase r) (fido_and_passphrase s) a b i j
  unfolding combined_context_transcript
  combined_binding r s hr hs h k =
      let e = encode-injective _ _ t h k in
      record {
        application = cc;
        envelope = cc;
        recipient = cc;
        factors = cc (code-injective r.policy s.policy (cc));
        work = cc (
          to_be_bytes-injective r.kdf.parameters.memory_kib s.kdf.parameters.memory_kib hr.0 hs.0
              (cc),
          to_be_bytes-injective r.kdf.parameters.passes s.kdf.parameters.passes hr.1 hs.1 (cc),
        );
        credential = cc;
        salt = cc;
      }

  -- Recipients with `u32` parameters that have one context transcript stand in the same envelope of
  -- the same application, and have the same identity, factor policy, argon2id work, credential and
  -- passphrase salt: recipients of different kinds never share a transcript.
  pub recipient_context_transcript_binds :
      (r s : RecipientRecord)
      → HasU32Parameters (passphrase_parameters r)
      → HasU32Parameters (passphrase_parameters s)
      → recipient_context_transcript r a i ≡ ok t
      → recipient_context_transcript s b j ≡ ok t
      → IsSameBinding r s a b i j
  unfolding recipient_context_transcript passphrase_context_transcript
      recovery_secret_context_transcript fido_context_transcript combined_context_transcript
      fido_local_context_transcript
  recipient_context_transcript_binds (passphrase r) (passphrase s) hr hs h k =
      passphrase_binding r s hr hs h k
  recipient_context_transcript_binds (fido r) (fido s) hr hs h k = fido_binding r s h k
  recipient_context_transcript_binds (fido_and_passphrase r) (fido_and_passphrase s) hr hs h k =
      combined_binding r s hr hs h k
  recipient_context_transcript_binds (recovery_secret r) (recovery_secret s) hr hs h k =
      let e = encode-injective _ _ t h k in
      record {
        application = cc;
        envelope = cc;
        recipient = cc;
        factors = refl;
        work = refl;
        credential = refl;
        salt = refl;
      }
  recipient_context_transcript_binds (fido_and_local_secret r) (fido_and_local_secret s) hr hs h k =
      let e = encode-injective _ _ t h k in
      record {
        application = cc;
        envelope = cc;
        recipient = cc;
        factors = refl;
        work = refl;
        credential = cc;
        salt = refl;
      }
  recipient_context_transcript_binds (fido r) (fido_and_local_secret s) hr hs h k =
      let e = encode-injective _ _ t h k in absurd (storage_suite-ne_local r.storage (cc))
  recipient_context_transcript_binds (fido_and_local_secret r) (fido s) hr hs h k =
      let e = encode-injective _ _ t k h in absurd (storage_suite-ne_local s.storage (cc))
  recipient_context_transcript_binds r s hr hs h k =
      absurd (omega (arith, ap (λ (l : List Bytes). length l) (encode-injective _ _ t h k)))
