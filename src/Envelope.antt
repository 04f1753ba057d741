-- ===== src/Envelope.antt =====
-- crates/fido-key-wrap/src/envelope.rs: the recipient records and the envelope. Arrays, vectors and
-- strings are lists of bytes; the length of an array is part of the invariants of WellFormed.
-- The children model the codec (Wire, Encode, Decode), the checks on the recipient list (Recipients)
-- and the lookup (Find), and prove what they promise.
pub mod Wire
pub mod Encode
pub mod Recipients
pub mod Decode
pub mod WellFormed
pub mod Size
pub mod RoundTrip
pub mod Sound
pub mod Canonical
pub mod Find
use fido_key_wrap.Common.{ℕ, Option, none, some, List, Bytes}
use fido_key_wrap.Policy.{FidoPolicy, FidoStorage, non_discoverable, managed, RecipientPolicy}
use fido_key_wrap.Policy.Parameters.{PassphraseParameters}

abbrev pub max_envelope_size : ℕ
max_envelope_size = 65_536

abbrev pub max_recipients : ℕ
max_recipients = 32

abbrev pub max_credential_id : ℕ
max_credential_id = 1_024

-- The sizes of the arrays.
abbrev pub root_bytes : ℕ
root_bytes = 32

abbrev pub envelope_id_bytes : ℕ
envelope_id_bytes = 32

abbrev pub recipient_id_bytes : ℕ
recipient_id_bytes = 32

abbrev pub public_key_bytes : ℕ
public_key_bytes = 64

abbrev pub prf_nonce_bytes : ℕ
prf_nonce_bytes = 32

abbrev pub gcm_nonce_bytes : ℕ
gcm_nonce_bytes = 12

abbrev pub argon2_salt_bytes : ℕ
argon2_salt_bytes = 16

abbrev pub wrapped_root_bytes : ℕ
wrapped_root_bytes = 48

abbrev pub combined_wrapped_root_bytes : ℕ
combined_wrapped_root_bytes = 64

pub record KdfDescriptor : Type 0 where
  pub parameters : PassphraseParameters
  pub salt : Bytes

pub record PassphraseRecipient : Type 0 where
  pub id : Bytes
  pub label : Bytes
  pub kdf : KdfDescriptor
  pub passphrase_nonce : Bytes
  pub wrapped_root : Bytes

pub record RecoverySecretRecord : Type 0 where
  pub id : Bytes
  pub label : Bytes
  pub recovery_nonce : Bytes
  pub wrapped_root : Bytes

pub record FidoRecipient : Type 0 where
  pub id : Bytes
  pub label : Bytes
  pub credential_id : Bytes
  pub public_key : Bytes
  pub policy : FidoPolicy
  pub storage : FidoStorage
  pub prf_nonce : Bytes
  pub fido_nonce : Bytes
  pub wrapped_root : Bytes

pub record FidoAndPassphraseRecipient : Type 0 where
  pub id : Bytes
  pub label : Bytes
  pub credential_id : Bytes
  pub public_key : Bytes
  pub policy : FidoPolicy
  pub prf_nonce : Bytes
  pub fido_nonce : Bytes
  pub kdf : KdfDescriptor
  pub passphrase_nonce : Bytes
  pub wrapped_root : Bytes

pub record FidoAndLocalSecretRecipient : Type 0 where
  pub id : Bytes
  pub label : Bytes
  pub credential_id : Bytes
  pub public_key : Bytes
  pub prf_nonce : Bytes
  pub wrap_nonce : Bytes
  pub wrapped_root : Bytes

pub data RecipientRecord : Type 0 where
  passphrase : PassphraseRecipient → RecipientRecord
  recovery_secret : RecoverySecretRecord → RecipientRecord
  fido : FidoRecipient → RecipientRecord
  fido_and_passphrase : FidoAndPassphraseRecipient → RecipientRecord
  fido_and_local_secret : FidoAndLocalSecretRecipient → RecipientRecord

-- The accessors of `RecipientRecord`.
abbrev pub id : RecipientRecord → Bytes
id (passphrase r) = r.id
id (recovery_secret r) = r.id
id (fido r) = r.id
id (fido_and_passphrase r) = r.id
id (fido_and_local_secret r) = r.id

abbrev pub label : RecipientRecord → Bytes
label (passphrase r) = r.label
label (recovery_secret r) = r.label
label (fido r) = r.label
label (fido_and_passphrase r) = r.label
label (fido_and_local_secret r) = r.label

abbrev fido_policy : FidoStorage → FidoPolicy → RecipientPolicy
fido_policy non_discoverable p = RecipientPolicy.fido p
fido_policy managed p = RecipientPolicy.managed_fido p

abbrev pub policy : RecipientRecord → RecipientPolicy
policy (passphrase r) = RecipientPolicy.passphrase
policy (recovery_secret r) = RecipientPolicy.recovery_secret
policy (fido r) = fido_policy r.storage r.policy
policy (fido_and_passphrase r) = RecipientPolicy.fido_and_passphrase r.policy
policy (fido_and_local_secret r) = RecipientPolicy.fido_presence_and_local_secret

abbrev pub passphrase_parameters : RecipientRecord → Option PassphraseParameters
passphrase_parameters (passphrase r) = some r.kdf.parameters
passphrase_parameters (fido_and_passphrase r) = some r.kdf.parameters
passphrase_parameters _ = none

abbrev pub credential_id : RecipientRecord → Option Bytes
credential_id (passphrase r) = none
credential_id (recovery_secret r) = none
credential_id (fido r) = some r.credential_id
credential_id (fido_and_passphrase r) = some r.credential_id
credential_id (fido_and_local_secret r) = some r.credential_id

abbrev pub passphrase_salt : RecipientRecord → Option Bytes
passphrase_salt (passphrase r) = some r.kdf.salt
passphrase_salt (fido_and_passphrase r) = some r.kdf.salt
passphrase_salt _ = none

pub record KeyEnvelope : Type 0 where
  pub application_id : Bytes
  pub envelope_id : Bytes
  pub recipients : List RecipientRecord
  pub mac : Bytes
