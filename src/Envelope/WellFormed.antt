-- ===== src/Envelope/WellFormed.antt =====
-- The invariant of the envelopes of crates/fido-key-wrap/src/envelope.rs: the sizes and contents
-- that the types and the checks of the decoder promise.
use fido_key_wrap.Common.{◌≤◌, ◌≡◌, true, ◌∷◌, Bytes, IsByte, IsArray, All, length}
use fido_key_wrap.Policy.Parameters.{IsFormat1Parameters}
use fido_key_wrap.Policy.Label.{IsLabel}
use fido_key_wrap.Ident.Application.Grammar.{IsApplicationId}
use fido_key_wrap.Envelope.{
  max_recipients, max_credential_id, RecipientRecord, passphrase, recovery_secret, fido,
  fido_and_passphrase, fido_and_local_secret, KdfDescriptor, PassphraseRecipient,
  RecoverySecretRecord, FidoRecipient, FidoAndPassphraseRecipient, FidoAndLocalSecretRecipient,
  KeyEnvelope,
}
use fido_key_wrap.Envelope.Wire.{Wire}
use fido_key_wrap.Envelope.Recipients.Laws.{IsRecipientSet}

pub record IsKdf (k : KdfDescriptor) : Type 0 where
  pub parameters : IsFormat1Parameters k.parameters
  pub salt : IsArray 16 k.salt

pub record IsCredentialId (c : Bytes) : Type 0 where
  pub nonempty : 1 ≤ length c
  pub bounded : length c ≤ max_credential_id
  pub bytes : All IsByte c

module _ (w : Wire) where
  pub record IsPublicKey (k : Bytes) : Type 0 where
    pub array : IsArray 64 k
    pub point : w.is_sec1_point (4 ∷ k) ≡ true

pub record IsPassphraseRecipient (r : PassphraseRecipient) : Type 0 where
  pub id : IsArray 32 r.id
  pub label : IsLabel r.label
  pub kdf : IsKdf r.kdf
  pub passphrase_nonce : IsArray 12 r.passphrase_nonce
  pub wrapped_root : IsArray 48 r.wrapped_root

pub record IsRecoverySecretRecord (r : RecoverySecretRecord) : Type 0 where
  pub id : IsArray 32 r.id
  pub label : IsLabel r.label
  pub recovery_nonce : IsArray 12 r.recovery_nonce
  pub wrapped_root : IsArray 48 r.wrapped_root

module _ (w : Wire) where
  pub record IsFidoRecipient (r : FidoRecipient) : Type 0 where
    pub id : IsArray 32 r.id
    pub label : IsLabel r.label
    pub credential_id : IsCredentialId r.credential_id
    pub public_key : IsPublicKey w r.public_key
    pub prf_nonce : IsArray 32 r.prf_nonce
    pub fido_nonce : IsArray 12 r.fido_nonce
    pub wrapped_root : IsArray 48 r.wrapped_root

  pub record IsFidoAndPassphraseRecipient (r : FidoAndPassphraseRecipient) : Type 0 where
    pub id : IsArray 32 r.id
    pub label : IsLabel r.label
    pub credential_id : IsCredentialId r.credential_id
    pub public_key : IsPublicKey w r.public_key
    pub prf_nonce : IsArray 32 r.prf_nonce
    pub fido_nonce : IsArray 12 r.fido_nonce
    pub kdf : IsKdf r.kdf
    pub passphrase_nonce : IsArray 12 r.passphrase_nonce
    pub wrapped_root : IsArray 64 r.wrapped_root

  pub record IsFidoAndLocalSecretRecipient (r : FidoAndLocalSecretRecipient) : Type 0 where
    pub id : IsArray 32 r.id
    pub label : IsLabel r.label
    pub credential_id : IsCredentialId r.credential_id
    pub public_key : IsPublicKey w r.public_key
    pub prf_nonce : IsArray 32 r.prf_nonce
    pub wrap_nonce : IsArray 12 r.wrap_nonce
    pub wrapped_root : IsArray 48 r.wrapped_root

  abbrev pub IsRecipient : RecipientRecord → Type 0
  IsRecipient (passphrase r) = IsPassphraseRecipient r
  IsRecipient (recovery_secret r) = IsRecoverySecretRecord r
  IsRecipient (fido r) = IsFidoRecipient r
  IsRecipient (fido_and_passphrase r) = IsFidoAndPassphraseRecipient r
  IsRecipient (fido_and_local_secret r) = IsFidoAndLocalSecretRecipient r

  pub record IsWellFormed (e : KeyEnvelope) : Type 0 where
    pub application_id : IsApplicationId e.application_id
    pub envelope_id : IsArray 32 e.envelope_id
    pub nonempty : 1 ≤ length e.recipients
    pub bounded : length e.recipients ≤ max_recipients
    pub each : All IsRecipient e.recipients
    pub set : IsRecipientSet e.recipients
    pub mac : IsArray 32 e.mac
