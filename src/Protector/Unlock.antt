-- ===== src/Protector/Unlock.antt =====
-- crates/fido-key-wrap/src/protector.rs: the recovery of a root through one selected recipient.
use fido_key_wrap.Common.{Bytes}
use fido_key_wrap.Error.{Result, ok, err, map_err, unlock_failed}
use fido_key_wrap.Interaction.{Operation, PassphrasePurpose}
use fido_key_wrap.Envelope.{
  RecipientRecord, passphrase, recovery_secret, fido, fido_and_passphrase, fido_and_local_secret,
  PassphraseRecipient, RecoverySecretRecord, FidoRecipient, FidoAndPassphraseRecipient,
  FidoAndLocalSecretRecipient, KeyEnvelope,
}
use fido_key_wrap.Envelope.Wire.{Wire}
use fido_key_wrap.Envelope.Find.{find}
use fido_key_wrap.Crypto.Suite.{Suite}
use fido_key_wrap.Crypto.Keys.{
  derive_passphrase_key, derive_fido_key, derive_fido_local_key, derive_recovery_secret_key,
}
use fido_key_wrap.Crypto.Wrap.{
  unwrap_passphrase_root, unwrap_recovery_secret_root, unwrap_fido_root, unwrap_fido_local_root,
  unwrap_combined_outer, unwrap_combined_inner,
}
use fido_key_wrap.Effect.{Effect, raise, lift, ◌>>=◌, ◌>>◌}
use fido_key_wrap.Error
use fido_key_wrap.Protector.{KeyProtector}
use fido_key_wrap.Protector.Env.{Env}
use fido_key_wrap.Protector.Guards.{require_application, admit_record, accept_root}
use fido_key_wrap.Protector.Fresh.{request_passphrase}
use fido_key_wrap.Protector.Enroll.{evaluate}

-- `let RecipientRecord::RecoverySecret(record) = ... else`
abbrev pub as_recovery_secret : RecipientRecord → Result RecoverySecretRecord
as_recovery_secret (recovery_secret r) = ok r
as_recovery_secret _ = err unlock_failed

-- `let RecipientRecord::FidoAndLocalSecret(inner) = record else`
abbrev pub as_fido_and_local_secret : RecipientRecord → Result FidoAndLocalSecretRecipient
as_fido_and_local_secret (fido_and_local_secret r) = ok r
as_fido_and_local_secret _ = err unlock_failed

module _ (w : Wire) (s : Suite) where
  unfoldable pub unlock_with_recovery_secret :
      KeyProtector → KeyEnvelope → Bytes → Bytes → Result Bytes
  unlock_with_recovery_secret p e recipient secret = Error.◌>>◌ (require_application p e) (
      Error.◌>>=◌ (map_err unlock_failed (find e recipient)) λ found.
        Error.◌>>=◌ (as_recovery_secret found) λ r.
          Error.◌>>=◌ (derive_recovery_secret_key s r p.application_id e.envelope_id secret) λ key.
            Error.◌>>=◌ (unwrap_recovery_secret_root s r p.application_id e.envelope_id key)
              λ root. accept_root w s e root)

module _ (w : Wire) (s : Suite) {World Session : Type 0} (env : Env World Session) where
  unfoldable pub unlock_passphrase :
      KeyProtector → KeyEnvelope → PassphraseRecipient → Effect World Bytes
  unlock_passphrase p e r = do
    pass ← request_passphrase env Operation.unlock r.label PassphrasePurpose.unlock
    key ← lift (derive_passphrase_key s (passphrase r) p.application_id e.envelope_id pass)
    lift (unwrap_passphrase_root s r p.application_id e.envelope_id key)

  unfoldable pub unlock_fido : KeyProtector → KeyEnvelope → FidoRecipient → Effect World Bytes
  unlock_fido p e r = do
    prf ← evaluate s env p (fido r) e Operation.unlock
    key ← lift (derive_fido_key s (fido r) p.application_id e.envelope_id prf)
    lift (unwrap_fido_root s r p.application_id e.envelope_id key)

  -- The outer layer is opened before the passphrase is asked for.
  unfoldable pub unlock_combined :
      KeyProtector → KeyEnvelope → FidoAndPassphraseRecipient → Effect World Bytes
  unlock_combined p e r = do
    prf ← evaluate s env p (fido_and_passphrase r) e Operation.unlock
    fido_key ← lift (derive_fido_key s (fido_and_passphrase r) p.application_id e.envelope_id prf)
    inner ← lift (unwrap_combined_outer s r p.application_id e.envelope_id fido_key)
    pass ← request_passphrase env Operation.unlock r.label PassphrasePurpose.unlock
    pass_key ←
        lift (derive_passphrase_key s (fido_and_passphrase r) p.application_id e.envelope_id pass)
    lift (unwrap_combined_inner s r p.application_id e.envelope_id inner pass_key)

  -- The `match` of `unlock` on the record.
  unfoldable pub unlock_record : KeyProtector → KeyEnvelope → RecipientRecord → Effect World Bytes
  unlock_record p e (passphrase r) = unlock_passphrase p e r
  unlock_record p e (recovery_secret r) = raise unlock_failed
  unlock_record p e (fido_and_local_secret r) = raise unlock_failed
  unlock_record p e (fido r) = unlock_fido p e r
  unlock_record p e (fido_and_passphrase r) = unlock_combined p e r

  unfoldable pub unlock : KeyProtector → KeyEnvelope → Bytes → Effect World Bytes
  unlock p e recipient = do
    lift (require_application p e)
    r ← lift (find e recipient)
    lift (admit_record p r)
    root ← unlock_record p e r
    lift (accept_root w s e root)

  unfoldable pub unlock_with_fido_and_local_secret :
      KeyProtector → KeyEnvelope → Bytes → Bytes → Effect World Bytes
  unlock_with_fido_and_local_secret p e recipient secret = do
    lift (require_application p e)
    r ← lift (map_err unlock_failed (find e recipient))
    inner ← lift (as_fido_and_local_secret r)
    prf ← evaluate s env p r e Operation.unlock
    key ← lift (derive_fido_local_key s inner p.application_id e.envelope_id prf secret)
    root ← lift (unwrap_fido_local_root s inner p.application_id e.envelope_id key)
    lift (accept_root w s e root)
