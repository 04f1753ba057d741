-- ===== src/Protector/Rewrap.antt =====
-- crates/fido-key-wrap/src/protector.rs: a recipient gets a new passphrase, with fresh nonces and a
-- fresh salt.
use fido_key_wrap.Common.{not, Bytes, replicate, set}
use fido_key_wrap.Error.{ok_or, reject_if, recipient_not_found, recipient_does_not_use_passphrase}
use fido_key_wrap.Interaction.{Operation}
use fido_key_wrap.Policy.{uses_passphrase}
use fido_key_wrap.Policy.Parameters.{PassphraseParameters}
use fido_key_wrap.Envelope.{
  RecipientRecord, passphrase, recovery_secret, fido, fido_and_passphrase, fido_and_local_secret,
  PassphraseRecipient, FidoAndPassphraseRecipient, KeyEnvelope, policy, passphrase_parameters,
}
use fido_key_wrap.Envelope.Wire.{Wire}
use fido_key_wrap.Envelope.Find.{find, binary_search}
use fido_key_wrap.Crypto.Suite.{Suite}
use fido_key_wrap.Crypto.Keys.{derive_passphrase_key, derive_fido_key}
use fido_key_wrap.Crypto.Wrap.{wrap_passphrase_root, wrap_combined_root}
use fido_key_wrap.Crypto.Mac.{verify_envelope_mac}
use fido_key_wrap.Effect.{Effect, pure, raise, lift, on_world, current, store, ◌>>=◌, ◌>>◌}
use fido_key_wrap.Protector.{KeyProtector}
use fido_key_wrap.Protector.Env.{Env}
use fido_key_wrap.Protector.Guards.{require_application, admit_parameters}
use fido_key_wrap.Protector.Fresh.{
  random_attempts, unique_salt, fresh_array, request_new_passphrase,
}
use fido_key_wrap.Protector.Enroll.{evaluate}
use fido_key_wrap.Protector.Stage.{stage_existing_record}
use fido_key_wrap.Protector.Stage.Keys.{RecoveryKeys}

module _ (s : Suite) {World Session : Type 0} (env : Env World Session) where
  unfoldable pub rewrap_passphrase_record :
      KeyProtector
      → KeyEnvelope
      → Bytes
      → PassphraseRecipient
      → PassphraseParameters
      → Effect World (RecipientRecord × RecoveryKeys)
  rewrap_passphrase_record p e root old parameters = do
    salt ← unique_salt env random_attempts e
    nonce ← fresh_array env random_attempts 12 old.passphrase_nonce
    let r : PassphraseRecipient = record {
      id = old.id;
      label = old.label;
      kdf = record { parameters = parameters; salt = salt };
      passphrase_nonce = nonce;
      wrapped_root = replicate 48 0;
    }
    pass ← request_new_passphrase env Operation.rewrap_passphrase old.label
    key ← lift (derive_passphrase_key s (passphrase r) p.application_id e.envelope_id pass)
    wrapped ← lift (wrap_passphrase_root s r p.application_id e.envelope_id root key)
    pure (passphrase (record r { wrapped_root = wrapped }), RecoveryKeys.passphrase key)

  unfoldable pub rewrap_combined_record :
      KeyProtector
      → KeyEnvelope
      → Bytes
      → FidoAndPassphraseRecipient
      → PassphraseParameters
      → Effect World (RecipientRecord × RecoveryKeys)
  rewrap_combined_record p e root old parameters = do
    prf_nonce ← fresh_array env random_attempts 32 old.prf_nonce
    fido_nonce ← fresh_array env random_attempts 12 old.fido_nonce
    salt ← unique_salt env random_attempts e
    passphrase_nonce ← fresh_array env random_attempts 12 old.passphrase_nonce
    let r : FidoAndPassphraseRecipient = record {
      id = old.id;
      label = old.label;
      credential_id = old.credential_id;
      public_key = old.public_key;
      policy = old.policy;
      prf_nonce = prf_nonce;
      fido_nonce = fido_nonce;
      kdf = record { parameters = parameters; salt = salt };
      passphrase_nonce = passphrase_nonce;
      wrapped_root = replicate 64 0;
    }
    prf ← evaluate s env p (fido_and_passphrase r) e Operation.rewrap_passphrase
    fido_key ← lift (derive_fido_key s (fido_and_passphrase r) p.application_id e.envelope_id prf)
    pass ← request_new_passphrase env Operation.rewrap_passphrase old.label
    pass_key ←
        lift (derive_passphrase_key s (fido_and_passphrase r) p.application_id e.envelope_id pass)
    wrapped ← lift (wrap_combined_root s r p.application_id e.envelope_id root pass_key fido_key)
    pure (
      fido_and_passphrase (record r { wrapped_root = wrapped }),
      RecoveryKeys.combined pass_key fido_key,
    )

  -- The `match` of `rewrap_passphrase_inner` on the record.
  unfoldable pub rewrap_record :
      KeyProtector
      → KeyEnvelope
      → Bytes
      → RecipientRecord
      → PassphraseParameters
      → Effect World (RecipientRecord × RecoveryKeys)
  rewrap_record p e root (passphrase old) parameters =
      rewrap_passphrase_record p e root old parameters
  rewrap_record p e root (recovery_secret _) parameters = raise recipient_does_not_use_passphrase
  rewrap_record p e root (fido_and_local_secret _) parameters =
      raise recipient_does_not_use_passphrase
  rewrap_record p e root (fido _) parameters = raise recipient_does_not_use_passphrase
  rewrap_record p e root (fido_and_passphrase old) parameters =
      rewrap_combined_record p e root old parameters

module _ (w : Wire) (s : Suite) {World Session : Type 0} (env : Env World Session) where
  unfoldable pub rewrap_passphrase_inner :
      KeyProtector → Bytes → Bytes → PassphraseParameters → Effect (KeyEnvelope × World) (Unit {0})
  rewrap_passphrase_inner p root recipient parameters = do
    e ← current
    lift (require_application p e)
    old ← lift (find e recipient)
    lift (reject_if (not (uses_passphrase (policy old))) recipient_does_not_use_passphrase)
    lift (verify_envelope_mac w s e root)
    lift (admit_parameters p parameters)
    replaced ← on_world (rewrap_record s env p e root old parameters)
    let (replacement, keys) = replaced
    index ← lift (ok_or recipient_not_found (binary_search e.recipients recipient))
    staged ← lift (
        stage_existing_record w s (record e { recipients = set e.recipients index replacement })
          recipient root keys)
    store staged
    pure tt

  unfoldable pub rewrap_passphrase_with_parameters :
      KeyProtector → Bytes → Bytes → PassphraseParameters → Effect (KeyEnvelope × World) (Unit {0})
  rewrap_passphrase_with_parameters p root recipient parameters =
      rewrap_passphrase_inner p root recipient parameters

  unfoldable pub rewrap_passphrase :
      KeyProtector → Bytes → Bytes → Effect (KeyEnvelope × World) (Unit {0})
  rewrap_passphrase p root recipient = do
    e ← current
    lift (require_application p e)
    old ← lift (find e recipient)
    parameters ← lift (ok_or recipient_does_not_use_passphrase (passphrase_parameters old))
    rewrap_passphrase_inner p root recipient parameters
