-- ===== src/Protector/Create.antt =====
-- crates/fido-key-wrap/src/protector.rs: the protection of a root by its first recipient.
use fido_key_wrap.Common.{[], Bytes, replicate}
use fido_key_wrap.Interaction.{Operation}
use fido_key_wrap.Policy.Enrollment.{Enrollment}
use fido_key_wrap.Envelope.{KeyEnvelope, id}
use fido_key_wrap.Envelope.Wire.{Wire}
use fido_key_wrap.Crypto.Suite.{Suite}
use fido_key_wrap.Effect.{Effect, pure, lift, ◌>>=◌, ◌>>◌}
use fido_key_wrap.Protector.{KeyProtector}
use fido_key_wrap.Protector.Env.{Env}
use fido_key_wrap.Protector.Guards.{admit_enrollment, validate_dedicated_label}
use fido_key_wrap.Protector.Enroll.{
  enroll_recipient, new_recovery_secret_record, enroll_fido_local_recipient,
}
use fido_key_wrap.Protector.Stage.{stage_enrollment, stage_record}
use fido_key_wrap.Protector.Stage.Keys.{RecoveryKeys}

-- The identity of a recipient and the secret that goes to its owner.
abbrev pub SecretRecipient : Type 0
SecretRecipient = Bytes × Bytes

abbrev pub blank_envelope : KeyProtector → Bytes → KeyEnvelope
blank_envelope p envelope_id = record {
  application_id = p.application_id;
  envelope_id = envelope_id;
  recipients = [];
  mac = replicate 32 0;
}

module _ (w : Wire) (s : Suite) {World Session : Type 0} (env : Env World Session) where
  unfoldable pub protect_root_for_operation :
      KeyProtector → Bytes → Enrollment → Operation → Effect World (KeyEnvelope × Bytes)
  protect_root_for_operation p root en operation = do
    lift (admit_enrollment p en)
    envelope_id ← env.random_array 32
    let e = blank_envelope p envelope_id
    enrolled ← enroll_recipient s env p e root en operation
    let (r, keys, enrollment) = enrolled
    staged ← stage_enrollment w s env p e r root keys enrollment
    pure (staged, id r)

  unfoldable pub protect_root :
      KeyProtector → Bytes → Enrollment → Effect World (KeyEnvelope × Bytes)
  protect_root p root en = protect_root_for_operation p root en Operation.protect_root

  unfoldable pub create_root :
      KeyProtector → Enrollment → Effect World (Bytes × KeyEnvelope × Bytes)
  create_root p en = do
    root ← env.random_array 32
    protected ← protect_root_for_operation p root en Operation.create_root
    let (e, recipient) = protected
    pure (root, e, recipient)

  unfoldable pub protect_root_with_recovery_secret :
      KeyProtector → Bytes → Bytes → Effect World (KeyEnvelope × SecretRecipient)
  protect_root_with_recovery_secret p root label = do
    valid ← lift (validate_dedicated_label label)
    envelope_id ← env.random_array 32
    let e = blank_envelope p envelope_id
    made ← new_recovery_secret_record s env e root valid
    let (r, secret, key) = made
    staged ← lift (stage_record w s e r root (RecoveryKeys.recovery key))
    pure (staged, (id r, secret))

  unfoldable pub create_root_with_recovery_secret :
      KeyProtector → Bytes → Effect World (Bytes × KeyEnvelope × SecretRecipient)
  create_root_with_recovery_secret p label = do
    root ← env.random_array 32
    protected ← protect_root_with_recovery_secret p root label
    let (e, recipient) = protected
    pure (root, e, recipient)

  unfoldable pub protect_root_with_fido_and_local_secret_for_operation :
      KeyProtector → Bytes → Bytes → Operation → Effect World (KeyEnvelope × SecretRecipient)
  protect_root_with_fido_and_local_secret_for_operation p root label operation = do
    valid ← lift (validate_dedicated_label label)
    envelope_id ← env.random_array 32
    let e = blank_envelope p envelope_id
    made ← enroll_fido_local_recipient s env p e root valid operation
    let (r, secret, key) = made
    staged ← lift (stage_record w s e r root (RecoveryKeys.fido_and_local key))
    pure (staged, (id r, secret))

  unfoldable pub protect_root_with_fido_and_local_secret :
      KeyProtector → Bytes → Bytes → Effect World (KeyEnvelope × SecretRecipient)
  protect_root_with_fido_and_local_secret p root label =
      protect_root_with_fido_and_local_secret_for_operation p root label Operation.protect_root

  unfoldable pub create_root_with_fido_and_local_secret :
      KeyProtector → Bytes → Effect World (Bytes × KeyEnvelope × SecretRecipient)
  create_root_with_fido_and_local_secret p label = do
    root ← env.random_array 32
    protected ←
        protect_root_with_fido_and_local_secret_for_operation p root label Operation.create_root
    let (e, recipient) = protected
    pure (root, e, recipient)
