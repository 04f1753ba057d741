-- ===== src/Protector/Recipients.antt =====
-- crates/fido-key-wrap/src/protector.rs: recipients are added to an envelope and removed from it.
-- The envelope that the caller lends is the first part of the state.
use fido_key_wrap.Common.{ℕ, suc, ◌==◌, leb, ◌++◌, List, Bytes, length, take, drop}
use fido_key_wrap.Error
use fido_key_wrap.Error.{
  Result, ok, ok_or, reject_if, too_many_recipients, recipient_not_found,
  would_remove_last_recipient,
}
use fido_key_wrap.Interaction.{Operation}
use fido_key_wrap.Policy.Enrollment.{Enrollment}
use fido_key_wrap.Envelope.{KeyEnvelope, id, max_recipients}
use fido_key_wrap.Envelope.Wire.{Wire}
use fido_key_wrap.Envelope.Find.{binary_search}
use fido_key_wrap.Crypto.Suite.{Suite}
use fido_key_wrap.Crypto.Mac.{compute_envelope_mac, verify_envelope_mac}
use fido_key_wrap.Effect.{Effect, pure, lift, on_world, current, store, ◌>>=◌, ◌>>◌}
use fido_key_wrap.Protector.{KeyProtector}
use fido_key_wrap.Protector.Env.{Env}
use fido_key_wrap.Protector.Guards.{
  require_application, require_authenticated, admit_enrollment, validate_dedicated_label,
}
use fido_key_wrap.Protector.Enroll.{
  enroll_recipient, new_recovery_secret_record, enroll_fido_local_recipient,
}
use fido_key_wrap.Protector.Stage.{canonicalize, stage_enrollment, stage_record}
use fido_key_wrap.Protector.Stage.Keys.{RecoveryKeys}
use fido_key_wrap.Protector.Create.{SecretRecipient}

abbrev pub reject_full : KeyEnvelope → Result (Unit {0})
reject_full e = reject_if (leb max_recipients (length e.recipients)) too_many_recipients

-- `Vec::remove`
abbrev pub remove {ℓ} : {A : Type ℓ} → List A → ℕ → List A
remove xs i = take i xs ++ drop (suc i) xs

module _ (w : Wire) (s : Suite) where
  -- The envelope that takes the place of the old one.
  unfoldable pub without_recipient : KeyProtector → KeyEnvelope → Bytes → Bytes → Result KeyEnvelope
  without_recipient p e root recipient = Error.◌>>◌ (require_application p e) (
      Error.◌>>=◌ (ok_or recipient_not_found (binary_search e.recipients recipient)) λ index.
        Error.◌>>◌ (reject_if (length e.recipients == 1) would_remove_last_recipient) (
          Error.◌>>◌ (verify_envelope_mac w s e root) (
            let staged = record e { recipients = remove e.recipients index } in
            Error.◌>>=◌ (compute_envelope_mac w s staged root) λ mac.
              Error.◌>>=◌ (canonicalize w s (record staged { mac = mac }))
                λ canonical. Error.◌>>◌ (verify_envelope_mac w s canonical root) (ok canonical))))

module _ (w : Wire) (s : Suite) {World Session : Type 0} (env : Env World Session) where
  unfoldable pub add_recipient :
      KeyProtector → Bytes → Enrollment → Effect (KeyEnvelope × World) Bytes
  add_recipient p root en = do
    e ← current
    lift (require_authenticated w s p e root)
    lift (reject_full e)
    lift (admit_enrollment p en)
    enrolled ← on_world (enroll_recipient s env p e root en Operation.add_recipient)
    let (r, keys, enrollment) = enrolled
    staged ← on_world (stage_enrollment w s env p e r root keys enrollment)
    store staged
    pure (id r)

  unfoldable pub add_recovery_secret :
      KeyProtector → Bytes → Bytes → Effect (KeyEnvelope × World) SecretRecipient
  add_recovery_secret p root label = do
    e ← current
    lift (require_authenticated w s p e root)
    lift (reject_full e)
    valid ← lift (validate_dedicated_label label)
    made ← on_world (new_recovery_secret_record s env e root valid)
    let (r, secret, key) = made
    staged ← lift (stage_record w s e r root (RecoveryKeys.recovery key))
    store staged
    pure (id r, secret)

  unfoldable pub add_fido_and_local_secret :
      KeyProtector → Bytes → Bytes → Effect (KeyEnvelope × World) SecretRecipient
  add_fido_and_local_secret p root label = do
    e ← current
    lift (require_authenticated w s p e root)
    lift (reject_full e)
    valid ← lift (validate_dedicated_label label)
    made ← on_world (enroll_fido_local_recipient s env p e root valid Operation.add_recipient)
    let (r, secret, key) = made
    staged ← lift (stage_record w s e r root (RecoveryKeys.fido_and_local key))
    store staged
    pure (id r, secret)

module _ (w : Wire) (s : Suite) {World : Type 0} where
  unfoldable pub remove_recipient :
      KeyProtector → Bytes → Bytes → Effect (KeyEnvelope × World) (Unit {0})
  remove_recipient p root recipient = do
    e ← current
    staged ← lift (without_recipient w s p e root recipient)
    store staged
    pure tt
