-- ===== src/Protector/Managed.antt =====
-- crates/fido-key-wrap/src/protector.rs: the management of credentials that an authenticator stores.
use fido_key_wrap.Common.{Bytes}
use fido_key_wrap.Error.{Result, ok, err, recipient_is_not_managed}
use fido_key_wrap.Interaction.{Operation}
use fido_key_wrap.Policy.{FidoStorage, managed, non_discoverable}
use fido_key_wrap.Envelope.{RecipientRecord, fido, FidoRecipient, KeyEnvelope}
use fido_key_wrap.Envelope.Wire.{Wire}
use fido_key_wrap.Envelope.Find.{find}
use fido_key_wrap.Crypto.Suite.{Suite}
use fido_key_wrap.Effect.{Effect, lift, ◌>>=◌, ◌>>◌}
use fido_key_wrap.Protector.{KeyProtector}
use fido_key_wrap.Protector.Env.{Env, ManagedRequest}
use fido_key_wrap.Protector.Guards.{require_authenticated}

abbrev pub stored_managed : FidoRecipient → FidoStorage → Result FidoRecipient
stored_managed r managed = ok r
stored_managed r non_discoverable = err recipient_is_not_managed

-- The two early returns on the record.
abbrev pub as_managed : RecipientRecord → Result FidoRecipient
as_managed (fido r) = stored_managed r r.storage
as_managed _ = err recipient_is_not_managed

abbrev pub managed_request : KeyProtector → FidoRecipient → Operation → ManagedRequest
managed_request p r operation = record {
  credential = record {
    application_id = p.application_id;
    recipient_id = r.id;
    credential_id = r.credential_id;
    public_key = r.public_key;
    policy = r.policy;
    label = r.label;
  };
  operation = operation;
}

module _ (w : Wire) (s : Suite) {World Session : Type 0} (env : Env World Session) where
  unfoldable pub verify_managed_recipient :
      KeyProtector → KeyEnvelope → Bytes → Bytes → Effect World (Unit {0})
  verify_managed_recipient p e root recipient = do
    lift (require_authenticated w s p e root)
    found ← lift (find e recipient)
    r ← lift (as_managed found)
    env.verify_managed (managed_request p r Operation.verify_managed_recipient)

  unfoldable pub retire_managed_recipient :
      KeyProtector → KeyEnvelope → Bytes → Bytes → Effect World (Unit {0})
  retire_managed_recipient p e root recipient = do
    lift (require_authenticated w s p e root)
    found ← lift (find e recipient)
    r ← lift (as_managed found)
    env.retire_managed (managed_request p r Operation.retire_managed_recipient)
