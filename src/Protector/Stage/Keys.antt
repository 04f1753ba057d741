-- ===== src/Protector/Stage/Keys.antt =====
-- crates/fido-key-wrap/src/protector.rs: the keys of a new route, and the recovery with them.
use fido_key_wrap.Common.{Bytes}
use fido_key_wrap.Error.{Result, err, ◌>>=◌, invalid_envelope}
use fido_key_wrap.Envelope.{RecipientRecord}
use fido_key_wrap.Crypto.Suite.{Suite}
use fido_key_wrap.Crypto.Wrap.{
  unwrap_passphrase_root, unwrap_recovery_secret_root, unwrap_fido_root, unwrap_fido_local_root,
  unwrap_combined_outer, unwrap_combined_inner,
}

pub data RecoveryKeys : Type 0 where
  passphrase recovery fido fido_and_local : Bytes → RecoveryKeys
  -- the passphrase key and the security-key key
  combined : Bytes → Bytes → RecoveryKeys

module _ (s : Suite) where
  unfoldable pub recover_with_keys : RecipientRecord → Bytes → Bytes → RecoveryKeys → Result Bytes
  recover_with_keys (RecipientRecord.passphrase r) application envelope_id (passphrase key) =
      unwrap_passphrase_root s r application envelope_id key
  recover_with_keys (RecipientRecord.recovery_secret r) application envelope_id (recovery key) =
      unwrap_recovery_secret_root s r application envelope_id key
  recover_with_keys (RecipientRecord.fido r) application envelope_id (fido key) =
      unwrap_fido_root s r application envelope_id key
  recover_with_keys (RecipientRecord.fido_and_local_secret r) application envelope_id
        (fido_and_local key) =
      unwrap_fido_local_root s r application envelope_id key
  recover_with_keys (RecipientRecord.fido_and_passphrase r) application envelope_id
        (combined pass_key fido_key) =
      do
        inner ← unwrap_combined_outer s r application envelope_id fido_key
        unwrap_combined_inner s r application envelope_id inner pass_key
  recover_with_keys _ application envelope_id keys = err invalid_envelope
