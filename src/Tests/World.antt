-- ===== src/Tests/World.antt =====
-- A scripted world: a counter, from which the random arrays are drawn.
use fido_key_wrap.Common.{ℕ, suc, ◌%◌, [], ◌∷◌, ◌++◌, some, Bytes, replicate}
use fido_key_wrap.Error.{ok, err, no_compatible_authenticator}
use fido_key_wrap.Envelope.{KeyEnvelope, RecipientRecord, recovery_secret}
use fido_key_wrap.Protector.{KeyProtector, new}
use fido_key_wrap.Protector.Env.{Env, answered}
use fido_key_wrap.Protector.Create.{SecretRecipient}
use fido_key_wrap.Policy.{passphrase}
use fido_key_wrap.Policy.Parameters.{PassphraseParameters}
use fido_key_wrap.Policy.Enrollment.{Enrollment}
use fido_key_wrap.Protector.Stage.Keys.{RecoveryKeys}

abbrev pub scripted : Env ℕ (Unit {0})
scripted = record {
  random_array = λ n c. (ok (replicate n (c % 256)), suc c);
  ask_passphrase = λ operation label purpose c. (answered (1 ∷ 2 ∷ []), c);
  enroll = λ application policy label operation c.
      (ok (record { credential_id = 5 ∷ []; public_key = replicate 64 4 }), suc c);
  enroll_managed =
      λ application recipient policy label operation c. (err no_compatible_authenticator, c);
  evaluate = λ request c. (ok (replicate 32 6), c);
  evaluate_managed_enrollment = λ session request c. (err no_compatible_authenticator, c);
  cleanup_managed_enrollment = λ session request c. (ok tt, c);
  verify_managed = λ request c. (ok tt, c);
  retire_managed = λ request c. (ok tt, c);
}

-- `a.b`
abbrev pub application : Bytes
application = 0x61 ∷ 0x2e ∷ 0x62 ∷ []

abbrev pub protector : KeyProtector
protector = new application

abbrev pub root : Bytes
root = replicate 32 77

abbrev pub label : Bytes
label = 0x6b ∷ []

abbrev pub one : KeyEnvelope
one = record {
  application_id = application;
  envelope_id = replicate 32 1;
  recipients =
      recovery_secret (record {
        id = replicate 32 3;
        label = label;
        recovery_nonce = replicate 12 4;
        wrapped_root = replicate 32 77 ++ replicate 16 9;
      })
      ∷ [];
  mac = replicate 32 148;
}

abbrev pub secret : SecretRecipient
secret = (replicate 32 3, replicate 32 2)

-- The envelope after the addition of a second recovery secret.
abbrev pub two : KeyEnvelope
two = record {
  application_id = application;
  envelope_id = replicate 32 1;
  recipients =
      recovery_secret (record {
        id = replicate 32 3;
        label = label;
        recovery_nonce = replicate 12 4;
        wrapped_root = replicate 32 77 ++ replicate 16 9;
      })
      ∷ recovery_secret (record {
        id = replicate 32 6;
        label = label;
        recovery_nonce = replicate 12 7;
        wrapped_root = replicate 32 77 ++ replicate 16 9;
      })
      ∷ [];
  mac = replicate 32 78;
}

abbrev pub second_secret : SecretRecipient
second_secret = (replicate 32 6, replicate 32 5)

abbrev pub light : PassphraseParameters
light = record { memory_kib = 65_536; passes = 3; lanes = 1 }

abbrev pub enrollment : Enrollment
enrollment = record { label = label; policy = passphrase; parameters = some light }

abbrev pub new_root : Bytes
new_root = replicate 32 1

abbrev pub guarded : KeyEnvelope
guarded = record {
  application_id = application;
  envelope_id = replicate 32 2;
  recipients =
      RecipientRecord.passphrase (record {
        id = replicate 32 3;
        label = label;
        kdf = record { parameters = light; salt = replicate 16 4 };
        passphrase_nonce = replicate 12 5;
        wrapped_root = replicate 32 1 ++ replicate 16 9;
      })
      ∷ [];
  mac = replicate 32 160;
}

abbrev pub some_keys : RecoveryKeys
some_keys = RecoveryKeys.recovery (replicate 32 0)
