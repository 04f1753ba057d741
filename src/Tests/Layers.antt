-- ===== src/Tests/Layers.antt =====
-- Wrapping and unwrapping at one small recipient of each kind.
use fido_key_wrap.Common.{
  ℕ, ◌<◌, ◌≡◌, refl, some, [], ◌∷◌, replicate, Bytes, IsArray, arith, length-replicate,
}
use fido_key_wrap.Error.{ok}
use fido_key_wrap.Policy.{presence, non_discoverable}
use fido_key_wrap.Policy.Label.{IsLabel, validate_label, IsLabel-of_validate}
use fido_key_wrap.Envelope.{
  KdfDescriptor, PassphraseRecipient, RecoverySecretRecord, FidoRecipient,
  FidoAndPassphraseRecipient, FidoAndLocalSecretRecipient,
}
use fido_key_wrap.Envelope.WellFormed.{
  IsKdf, IsCredentialId, IsPublicKey, IsPassphraseRecipient, IsRecoverySecretRecord,
  IsFidoRecipient, IsFidoAndPassphraseRecipient, IsFidoAndLocalSecretRecipient,
}
use fido_key_wrap.Ident.Application
use fido_key_wrap.Ident.Application.Grammar.{IsApplicationId, IsApplicationId-of_new}
use fido_key_wrap.Crypto.Wrap.{
  wrap_passphrase_root, wrap_recovery_secret_root, wrap_fido_root, wrap_fido_local_root,
  unwrap_passphrase_root, unwrap_recovery_secret_root, unwrap_fido_root, unwrap_fido_local_root,
  wrap_combined_root, unwrap_combined_outer, unwrap_combined_inner,
}
use fido_key_wrap.Crypto.Wrap.Total.{wrap_combined_root-opens}
use fido_key_wrap.Crypto.Wrap.Layers.{
  wrap_passphrase_root-opens, wrap_recovery_secret_root-opens, wrap_fido_root-opens,
  wrap_fido_local_root-opens,
}
use fido_key_wrap.Tests.Fixtures.{small_wire, small_suite, small_suite_laws, replicate-IsByte}
use fido_key_wrap.Tests.World.{application, root, label, light}
use fido_key_wrap.Tests.Values.{light-IsFormat1}

replicate-IsArray : (n b : ℕ) → b < 256 → IsArray n (replicate n b)
replicate-IsArray n b h = (length-replicate n b, replicate-IsByte n b h)

label_valid : validate_label label ≡ some tt
unfolding validate_label
label_valid = refl

application_valid : Application.new application ≡ ok application
unfolding Application.new Application.split
application_valid = refl

application-IsApplicationId : IsApplicationId application
application-IsApplicationId = (IsApplicationId-of_new application application application_valid).0

label-IsLabel : IsLabel label
label-IsLabel = IsLabel-of_validate label label_valid

abbrev kdf : KdfDescriptor
kdf = record { parameters = light; salt = replicate 16 4 }

kdf-IsKdf : IsKdf kdf
kdf-IsKdf = record { parameters = light-IsFormat1; salt = replicate-IsArray 16 4 (omega arith) }

credential-IsCredentialId : IsCredentialId (5 ∷ [])
credential-IsCredentialId = record {
  nonempty = omega arith;
  bounded = omega arith;
  bytes = (omega arith, tt);
}

key-IsPublicKey : IsPublicKey small_wire (replicate 64 4)
key-IsPublicKey = record { array = replicate-IsArray 64 4 (omega arith); point = refl }

abbrev passphrase_record : PassphraseRecipient
passphrase_record = record {
  id = replicate 32 3;
  label = label;
  kdf = kdf;
  passphrase_nonce = replicate 12 5;
  wrapped_root = replicate 48 0;
}

passphrase_record-IsPassphraseRecipient : IsPassphraseRecipient passphrase_record
passphrase_record-IsPassphraseRecipient = record {
  id = replicate-IsArray 32 3 (omega arith);
  label = label-IsLabel;
  kdf = kdf-IsKdf;
  passphrase_nonce = replicate-IsArray 12 5 (omega arith);
  wrapped_root = replicate-IsArray 48 0 (omega arith);
}

wrap_passphrase_root-opens_example :
    (b : Bytes) × (wrap_passphrase_root small_suite passphrase_record application
        (replicate 32 2)
        root
        (replicate 32 6)
      ≡ ok b)
    × (unwrap_passphrase_root small_suite
          (record passphrase_record { wrapped_root = b })
          application
          (replicate 32 2)
          (replicate 32 6)
        ≡ ok root)
    × IsArray 48 b
wrap_passphrase_root-opens_example =
    wrap_passphrase_root-opens small_suite small_suite_laws passphrase_record application
      (replicate 32 2) root (replicate 32 6) passphrase_record-IsPassphraseRecipient
      application-IsApplicationId (replicate-IsArray 32 2 (omega arith))
      (replicate-IsArray 32 77 (omega arith)) (replicate-IsArray 32 6 (omega arith))

abbrev recovery_secret_record : RecoverySecretRecord
recovery_secret_record = record {
  id = replicate 32 3;
  label = label;
  recovery_nonce = replicate 12 5;
  wrapped_root = replicate 48 0;
}

recovery_secret_record-IsRecoverySecretRecord : IsRecoverySecretRecord recovery_secret_record
recovery_secret_record-IsRecoverySecretRecord = record {
  id = replicate-IsArray 32 3 (omega arith);
  label = label-IsLabel;
  recovery_nonce = replicate-IsArray 12 5 (omega arith);
  wrapped_root = replicate-IsArray 48 0 (omega arith);
}

wrap_recovery_secret_root-opens_example :
    (b : Bytes) × (wrap_recovery_secret_root small_suite recovery_secret_record application
        (replicate 32 2)
        root
        (replicate 32 6)
      ≡ ok b)
    × (unwrap_recovery_secret_root small_suite
          (record recovery_secret_record { wrapped_root = b })
          application
          (replicate 32 2)
          (replicate 32 6)
        ≡ ok root)
    × IsArray 48 b
wrap_recovery_secret_root-opens_example =
    wrap_recovery_secret_root-opens small_suite small_suite_laws recovery_secret_record application
      (replicate 32 2) root (replicate 32 6) recovery_secret_record-IsRecoverySecretRecord
      application-IsApplicationId (replicate-IsArray 32 2 (omega arith))
      (replicate-IsArray 32 77 (omega arith)) (replicate-IsArray 32 6 (omega arith))

abbrev fido_record : FidoRecipient
fido_record = record {
  id = replicate 32 3;
  label = label;
  credential_id = 5 ∷ [];
  public_key = replicate 64 4;
  policy = presence;
  storage = non_discoverable;
  prf_nonce = replicate 32 8;
  fido_nonce = replicate 12 9;
  wrapped_root = replicate 48 0;
}

fido_record-IsFidoRecipient : IsFidoRecipient small_wire fido_record
fido_record-IsFidoRecipient = record {
  id = replicate-IsArray 32 3 (omega arith);
  label = label-IsLabel;
  credential_id = credential-IsCredentialId;
  public_key = key-IsPublicKey;
  prf_nonce = replicate-IsArray 32 8 (omega arith);
  fido_nonce = replicate-IsArray 12 9 (omega arith);
  wrapped_root = replicate-IsArray 48 0 (omega arith);
}

wrap_fido_root-opens_example :
    (b : Bytes) × (wrap_fido_root small_suite fido_record application
        (replicate 32 2)
        root
        (replicate 32 6)
      ≡ ok b)
    × (unwrap_fido_root small_suite
          (record fido_record { wrapped_root = b })
          application
          (replicate 32 2)
          (replicate 32 6)
        ≡ ok root)
    × IsArray 48 b
wrap_fido_root-opens_example =
    wrap_fido_root-opens small_suite small_suite_laws small_wire fido_record application
      (replicate 32 2) root (replicate 32 6) fido_record-IsFidoRecipient application-IsApplicationId
      (replicate-IsArray 32 2 (omega arith)) (replicate-IsArray 32 77 (omega arith))
      (replicate-IsArray 32 6 (omega arith))

abbrev fido_local_record : FidoAndLocalSecretRecipient
fido_local_record = record {
  id = replicate 32 3;
  label = label;
  credential_id = 5 ∷ [];
  public_key = replicate 64 4;
  prf_nonce = replicate 32 8;
  wrap_nonce = replicate 12 9;
  wrapped_root = replicate 48 0;
}

fido_local_record-IsFidoAndLocalSecretRecipient :
    IsFidoAndLocalSecretRecipient small_wire fido_local_record
fido_local_record-IsFidoAndLocalSecretRecipient = record {
  id = replicate-IsArray 32 3 (omega arith);
  label = label-IsLabel;
  credential_id = credential-IsCredentialId;
  public_key = key-IsPublicKey;
  prf_nonce = replicate-IsArray 32 8 (omega arith);
  wrap_nonce = replicate-IsArray 12 9 (omega arith);
  wrapped_root = replicate-IsArray 48 0 (omega arith);
}

wrap_fido_local_root-opens_example :
    (b : Bytes) × (wrap_fido_local_root small_suite fido_local_record application
        (replicate 32 2)
        root
        (replicate 32 6)
      ≡ ok b)
    × (unwrap_fido_local_root small_suite
          (record fido_local_record { wrapped_root = b })
          application
          (replicate 32 2)
          (replicate 32 6)
        ≡ ok root)
    × IsArray 48 b
wrap_fido_local_root-opens_example =
    wrap_fido_local_root-opens small_suite small_suite_laws small_wire fido_local_record application
      (replicate 32 2) root (replicate 32 6) fido_local_record-IsFidoAndLocalSecretRecipient
      application-IsApplicationId (replicate-IsArray 32 2 (omega arith))
      (replicate-IsArray 32 77 (omega arith)) (replicate-IsArray 32 6 (omega arith))

abbrev combined_record : FidoAndPassphraseRecipient
combined_record = record {
  id = replicate 32 3;
  label = label;
  credential_id = 5 ∷ [];
  public_key = replicate 64 4;
  policy = presence;
  prf_nonce = replicate 32 8;
  fido_nonce = replicate 12 9;
  kdf = kdf;
  passphrase_nonce = replicate 12 5;
  wrapped_root = replicate 64 0;
}

combined_record-IsFidoAndPassphraseRecipient :
    IsFidoAndPassphraseRecipient small_wire combined_record
combined_record-IsFidoAndPassphraseRecipient = record {
  id = replicate-IsArray 32 3 (omega arith);
  label = label-IsLabel;
  credential_id = credential-IsCredentialId;
  public_key = key-IsPublicKey;
  prf_nonce = replicate-IsArray 32 8 (omega arith);
  fido_nonce = replicate-IsArray 12 9 (omega arith);
  kdf = kdf-IsKdf;
  passphrase_nonce = replicate-IsArray 12 5 (omega arith);
  wrapped_root = replicate-IsArray 64 0 (omega arith);
}

wrap_combined_root-opens_example :
    (b : Bytes) × (wrap_combined_root small_suite combined_record application
        (replicate 32 2)
        root
        (replicate 32 6)
        (replicate 32 7)
      ≡ ok b)
    × (let stored = record combined_record { wrapped_root = b } in
        (inner : Bytes) × (unwrap_combined_outer small_suite stored application
            (replicate 32 2)
            (replicate 32 7)
          ≡ ok inner)
        × (unwrap_combined_inner small_suite stored application
              (replicate 32 2)
              inner
              (replicate 32 6)
            ≡ ok root)
        × IsArray 64 b)
wrap_combined_root-opens_example =
    wrap_combined_root-opens small_suite small_suite_laws small_wire combined_record application
      (replicate 32 2) root (replicate 32 6) (replicate 32 7)
      combined_record-IsFidoAndPassphraseRecipient application-IsApplicationId
      (replicate-IsArray 32 2 (omega arith)) (replicate-IsArray 32 77 (omega arith))
      (replicate-IsArray 32 6 (omega arith)) (replicate-IsArray 32 7 (omega arith))
