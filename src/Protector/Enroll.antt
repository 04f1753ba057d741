-- ===== src/Protector/Enroll.antt =====
-- crates/fido-key-wrap/src/protector.rs: the enrolment of a new recipient, one function for each
-- kind. A record is built with a blank wrapped root, which is filled in at the end.
use fido_key_wrap.Common.{Option, none, some, Bytes, replicate}
use fido_key_wrap.Error.{ok, err, ok_or, invalid_envelope, invalid_passphrase_parameters}
use fido_key_wrap.Policy.{FidoPolicy, RecipientPolicy, presence, non_discoverable, managed}
use fido_key_wrap.Policy.Parameters.{PassphraseParameters}
use fido_key_wrap.Policy.Enrollment.{Enrollment}
use fido_key_wrap.Envelope.{
  RecipientRecord, passphrase, recovery_secret, fido, fido_and_passphrase, fido_and_local_secret,
  PassphraseRecipient, RecoverySecretRecord, FidoRecipient, FidoAndPassphraseRecipient,
  FidoAndLocalSecretRecipient, KeyEnvelope, id, label,
}
use fido_key_wrap.Crypto.Suite.{Suite}
use fido_key_wrap.Crypto.Context.{prf_input}
use fido_key_wrap.Crypto.Keys.{
  derive_passphrase_key, derive_fido_key, derive_fido_local_key, derive_recovery_secret_key,
}
use fido_key_wrap.Crypto.Wrap.{
  wrap_passphrase_root, wrap_recovery_secret_root, wrap_fido_root, wrap_fido_local_root,
  wrap_combined_root,
}
use fido_key_wrap.Interaction.{Operation}
use fido_key_wrap.Effect.{Effect, pure, raise, lift, attempt, ◌>>=◌, ◌>>◌}
use fido_key_wrap.Protector.{KeyProtector}
use fido_key_wrap.Protector.Env.{Env, ManagedEnrollment, PrfRequest}
use fido_key_wrap.Protector.Guards.{validate_credential}
use fido_key_wrap.Protector.Fresh.{
  random_attempts, unique_recipient_id, unique_salt, request_new_passphrase,
}
use fido_key_wrap.Protector.Stage.{cleanup_failed_managed_enrollment}
use fido_key_wrap.Protector.Stage.Keys.{RecoveryKeys}

-- What an enrolment hands to the staging.
abbrev pub Enrolled : Type 0 → Type 0
Enrolled Session = RecipientRecord × RecoveryKeys × Option (ManagedEnrollment Session)

abbrev blank : Bytes
blank = replicate 48 0

abbrev combined_blank : Bytes
combined_blank = replicate 64 0

module _ (s : Suite) {World Session : Type 0} (env : Env World Session) where
  abbrev prf_request :
      KeyProtector → RecipientRecord → Bytes → Bytes → FidoPolicy → Bytes → Operation → PrfRequest
  prf_request p r credential_id public_key policy input operation = record {
    credential = record {
      application_id = p.application_id;
      recipient_id = id r;
      credential_id = credential_id;
      public_key = public_key;
      policy = policy;
      label = label r;
    };
    input = input;
    operation = operation;
  }

  -- The end of `evaluate`, with the credential of the record.
  unfoldable pub evaluate_credential :
      KeyProtector
      → RecipientRecord
      → Bytes
      → Bytes
      → FidoPolicy
      → KeyEnvelope
      → Operation
      → Effect World Bytes
  evaluate_credential p r credential_id public_key policy e operation = do
    input ← lift (prf_input s r p.application_id e.envelope_id)
    env.evaluate (prf_request p r credential_id public_key policy input operation)

  unfoldable pub evaluate :
      KeyProtector → RecipientRecord → KeyEnvelope → Operation → Effect World Bytes
  evaluate p (passphrase r) e operation = raise invalid_envelope
  evaluate p (recovery_secret r) e operation = raise invalid_envelope
  evaluate p (fido r) e operation =
      evaluate_credential p (fido r) r.credential_id r.public_key r.policy e operation
  evaluate p (fido_and_passphrase r) e operation =
      evaluate_credential p (fido_and_passphrase r) r.credential_id r.public_key r.policy e
        operation
  evaluate p (fido_and_local_secret r) e operation =
      evaluate_credential p (fido_and_local_secret r) r.credential_id r.public_key presence e
        operation

  unfoldable pub enroll_passphrase_recipient :
      KeyProtector
      → KeyEnvelope
      → Bytes
      → Bytes
      → PassphraseParameters
      → Operation
      → Effect World (RecipientRecord × RecoveryKeys)
  enroll_passphrase_recipient p e root label parameters operation = do
    id ← unique_recipient_id env random_attempts e
    salt ← unique_salt env random_attempts e
    nonce ← env.random_array 12
    let r : PassphraseRecipient = record {
      id = id;
      label = label;
      kdf = record { parameters = parameters; salt = salt };
      passphrase_nonce = nonce;
      wrapped_root = blank;
    }
    pass ← request_new_passphrase env operation label
    key ← lift (derive_passphrase_key s (passphrase r) p.application_id e.envelope_id pass)
    wrapped ← lift (wrap_passphrase_root s r p.application_id e.envelope_id root key)
    pure (passphrase (record r { wrapped_root = wrapped }), RecoveryKeys.passphrase key)

  -- The record, the secret and the key.
  unfoldable pub new_recovery_secret_record :
      KeyEnvelope → Bytes → Bytes → Effect World (RecipientRecord × Bytes × Bytes)
  new_recovery_secret_record e root label = do
    secret ← env.random_array 32
    id ← unique_recipient_id env random_attempts e
    nonce ← env.random_array 12
    let r : RecoverySecretRecord = record {
      id = id;
      label = label;
      recovery_nonce = nonce;
      wrapped_root = blank;
    }
    key ← lift (derive_recovery_secret_key s r e.application_id e.envelope_id secret)
    wrapped ← lift (wrap_recovery_secret_root s r e.application_id e.envelope_id root key)
    pure (recovery_secret (record r { wrapped_root = wrapped }), secret, key)

  unfoldable pub enroll_fido_recipient :
      KeyProtector
      → KeyEnvelope
      → Bytes
      → Bytes
      → FidoPolicy
      → Operation
      → Effect World (RecipientRecord × RecoveryKeys)
  enroll_fido_recipient p e root label policy operation = do
    credential ← env.enroll p.application_id policy label operation
    lift (validate_credential e credential.credential_id)
    id ← unique_recipient_id env random_attempts e
    prf_nonce ← env.random_array 32
    fido_nonce ← env.random_array 12
    let r : FidoRecipient = record {
      id = id;
      label = label;
      credential_id = credential.credential_id;
      public_key = credential.public_key;
      policy = policy;
      storage = non_discoverable;
      prf_nonce = prf_nonce;
      fido_nonce = fido_nonce;
      wrapped_root = blank;
    }
    prf ← evaluate p (fido r) e operation
    key ← lift (derive_fido_key s (fido r) p.application_id e.envelope_id prf)
    wrapped ← lift (wrap_fido_root s r p.application_id e.envelope_id root key)
    pure (fido (record r { wrapped_root = wrapped }), RecoveryKeys.fido key)

  -- The record, the local secret and the key.
  unfoldable pub enroll_fido_local_recipient :
      KeyProtector
      → KeyEnvelope
      → Bytes
      → Bytes
      → Operation
      → Effect World (RecipientRecord × Bytes × Bytes)
  enroll_fido_local_recipient p e root label operation = do
    id ← unique_recipient_id env random_attempts e
    secret ← env.random_array 32
    prf_nonce ← env.random_array 32
    wrap_nonce ← env.random_array 12
    credential ← env.enroll p.application_id presence label operation
    lift (validate_credential e credential.credential_id)
    let r : FidoAndLocalSecretRecipient = record {
      id = id;
      label = label;
      credential_id = credential.credential_id;
      public_key = credential.public_key;
      prf_nonce = prf_nonce;
      wrap_nonce = wrap_nonce;
      wrapped_root = blank;
    }
    prf ← evaluate p (fido_and_local_secret r) e operation
    key ← lift (derive_fido_local_key s r p.application_id e.envelope_id prf secret)
    wrapped ← lift (wrap_fido_local_root s r p.application_id e.envelope_id root key)
    pure (fido_and_local_secret (record r { wrapped_root = wrapped }), secret, key)

  unfoldable pub finish_managed_fido_recipient :
      KeyProtector
      → KeyEnvelope
      → Bytes
      → Bytes
      → Bytes
      → FidoPolicy
      → Operation
      → ManagedEnrollment Session
      → Effect World (RecipientRecord × RecoveryKeys)
  finish_managed_fido_recipient p e root id label policy operation enrollment = do
    lift (validate_credential e enrollment.credential.credential_id)
    prf_nonce ← env.random_array 32
    fido_nonce ← env.random_array 12
    let r : FidoRecipient = record {
      id = id;
      label = label;
      credential_id = enrollment.credential.credential_id;
      public_key = enrollment.credential.public_key;
      policy = policy;
      storage = managed;
      prf_nonce = prf_nonce;
      fido_nonce = fido_nonce;
      wrapped_root = blank;
    }
    input ← lift (prf_input s (fido r) p.application_id e.envelope_id)
    prf ←
        env.evaluate_managed_enrollment enrollment.session
          (prf_request p (fido r) r.credential_id r.public_key r.policy input operation)
    key ← lift (derive_fido_key s (fido r) p.application_id e.envelope_id prf)
    wrapped ← lift (wrap_fido_root s r p.application_id e.envelope_id root key)
    pure (fido (record r { wrapped_root = wrapped }), RecoveryKeys.fido key)

  unfoldable pub enroll_managed_fido_recipient :
      KeyProtector
      → KeyEnvelope
      → Bytes
      → Bytes
      → FidoPolicy
      → Operation
      → Effect World (Enrolled Session)
  enroll_managed_fido_recipient p e root label policy operation = do
    id ← unique_recipient_id env random_attempts e
    enrollment ← env.enroll_managed p.application_id id policy label operation
    outcome ← attempt (finish_managed_fido_recipient p e root id label policy operation enrollment)
    elim outcome [
      | ok (r, keys) ↦ pure (r, keys, some enrollment)
      | err x ↦ cleanup_failed_managed_enrollment env p enrollment id label x >>= raise
    ]

  unfoldable pub enroll_combined_recipient :
      KeyProtector
      → KeyEnvelope
      → Bytes
      → Bytes
      → FidoPolicy
      → PassphraseParameters
      → Operation
      → Effect World (RecipientRecord × RecoveryKeys)
  enroll_combined_recipient p e root label policy parameters operation = do
    credential ← env.enroll p.application_id policy label operation
    lift (validate_credential e credential.credential_id)
    id ← unique_recipient_id env random_attempts e
    prf_nonce ← env.random_array 32
    fido_nonce ← env.random_array 12
    salt ← unique_salt env random_attempts e
    passphrase_nonce ← env.random_array 12
    let r : FidoAndPassphraseRecipient = record {
      id = id;
      label = label;
      credential_id = credential.credential_id;
      public_key = credential.public_key;
      policy = policy;
      prf_nonce = prf_nonce;
      fido_nonce = fido_nonce;
      kdf = record { parameters = parameters; salt = salt };
      passphrase_nonce = passphrase_nonce;
      wrapped_root = combined_blank;
    }
    prf ← evaluate p (fido_and_passphrase r) e operation
    fido_key ← lift (derive_fido_key s (fido_and_passphrase r) p.application_id e.envelope_id prf)
    pass ← request_new_passphrase env operation label
    pass_key ←
        lift (derive_passphrase_key s (fido_and_passphrase r) p.application_id e.envelope_id pass)
    wrapped ← lift (wrap_combined_root s r p.application_id e.envelope_id root pass_key fido_key)
    pure (
      fido_and_passphrase (record r { wrapped_root = wrapped }),
      RecoveryKeys.combined pass_key fido_key,
    )

  abbrev pub unmanaged : RecipientRecord × RecoveryKeys → Effect World (Enrolled Session)
  unmanaged (r, keys) = pure (r, keys, none)

  -- The `match` of `enroll_recipient` on the policy.
  unfoldable pub enroll_policy :
      KeyProtector
      → KeyEnvelope
      → Bytes
      → RecipientPolicy
      → Enrollment
      → Operation
      → Effect World (Enrolled Session)
  enroll_policy p e root RecipientPolicy.passphrase en operation = do
    parameters ← lift (ok_or invalid_passphrase_parameters en.parameters)
    enrolled ← enroll_passphrase_recipient p e root en.label parameters operation
    unmanaged enrolled
  enroll_policy p e root RecipientPolicy.recovery_secret en operation = raise invalid_envelope
  enroll_policy p e root RecipientPolicy.fido_presence_and_local_secret en operation =
      raise invalid_envelope
  enroll_policy p e root (RecipientPolicy.fido policy) en operation = do
    enrolled ← enroll_fido_recipient p e root en.label policy operation
    unmanaged enrolled
  enroll_policy p e root (RecipientPolicy.managed_fido policy) en operation =
      enroll_managed_fido_recipient p e root en.label policy operation
  enroll_policy p e root (RecipientPolicy.fido_and_passphrase policy) en operation = do
    parameters ← lift (ok_or invalid_passphrase_parameters en.parameters)
    enrolled ← enroll_combined_recipient p e root en.label policy parameters operation
    unmanaged enrolled

  unfoldable pub enroll_recipient :
      KeyProtector → KeyEnvelope → Bytes → Enrollment → Operation → Effect World (Enrolled Session)
  enroll_recipient p e root en operation = enroll_policy p e root en.policy en operation
