-- ===== src/Protector/Env.antt =====
-- What crates/fido-key-wrap/src/protector.rs works with: the random source of the system, the
-- application's interaction, and the backend of crates/fido-key-wrap/src/backend.rs. Each call may
-- change the world. A session is a handle for the authenticator that enrolled a managed credential.
use fido_key_wrap.Common.{ℕ, Bytes}
use fido_key_wrap.Error.{InteractionError, Result, ok, err, interaction}
use fido_key_wrap.Policy.{FidoPolicy}
use fido_key_wrap.Interaction.{Operation, PassphrasePurpose}
use fido_key_wrap.Effect.{Effect}

pub record CredentialMaterial : Type 0 where
  pub credential_id : Bytes
  pub public_key : Bytes

pub record CredentialBinding : Type 0 where
  pub application_id : Bytes
  pub recipient_id : Bytes
  pub credential_id : Bytes
  pub public_key : Bytes
  pub policy : FidoPolicy
  pub label : Bytes

pub record ManagedRequest : Type 0 where
  pub credential : CredentialBinding
  pub operation : Operation

pub record ManagedEnrollment (Session : Type 0) : Type 0 where
  pub credential : CredentialMaterial
  pub policy : FidoPolicy
  pub session : Session

pub record PrfRequest : Type 0 where
  pub credential : CredentialBinding
  pub input : Bytes
  pub operation : Operation

-- The application's answer to a prompt.
pub data Answer : Type 0 where
  answered : Bytes → Answer
  refused : InteractionError → Answer

-- `map_err(Error::from)`
abbrev pub from_answer : Answer → Result Bytes
from_answer (answered p) = ok p
from_answer (refused e) = err (interaction e)

pub record Env (World Session : Type 0) : Type 0 where
  -- `getrandom::fill` of that many bytes
  pub random_array : ℕ → Effect World Bytes
  -- operation, label, purpose
  pub ask_passphrase : Operation → Bytes → PassphrasePurpose → World → Answer × World
  -- application, policy, label, operation
  pub enroll : Bytes → FidoPolicy → Bytes → Operation → Effect World CredentialMaterial
  -- application, recipient, policy, label, operation
  pub enroll_managed :
      Bytes → Bytes → FidoPolicy → Bytes → Operation → Effect World (ManagedEnrollment Session)
  pub evaluate : PrfRequest → Effect World Bytes
  pub evaluate_managed_enrollment : Session → PrfRequest → Effect World Bytes
  pub cleanup_managed_enrollment : Session → ManagedRequest → Effect World (Unit {0})
  pub verify_managed : ManagedRequest → Effect World (Unit {0})
  pub retire_managed : ManagedRequest → Effect World (Unit {0})
