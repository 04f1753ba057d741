-- ===== src/Protector/Atomic.antt =====
-- Every operation of crates/fido-key-wrap/src/protector.rs that changes an envelope changes it as a
-- whole or not at all.
use fido_key_wrap.Common.{Bytes}
use fido_key_wrap.Error.{Result}
use fido_key_wrap.Policy.Parameters.{PassphraseParameters}
use fido_key_wrap.Policy.Enrollment.{Enrollment}
use fido_key_wrap.Envelope.{KeyEnvelope}
use fido_key_wrap.Envelope.Wire.{Wire}
use fido_key_wrap.Crypto.Suite.{Suite}
use fido_key_wrap.Effect.{Effect, lift, on_world, current, ◌>>=◌}
use fido_key_wrap.Effect.Frame.{
  IsAtomic, IsAtomic-bind, IsAtomic-store, Frames-lift, Frames-on_world, Frames-current,
}
use fido_key_wrap.Protector.{KeyProtector}
use fido_key_wrap.Protector.Env.{Env}
use fido_key_wrap.Protector.Recipients.{
  add_recipient, add_recovery_secret, add_fido_and_local_secret, remove_recipient,
}
use fido_key_wrap.Protector.Rewrap.{rewrap_passphrase, rewrap_passphrase_inner}

module _ {World A B : Type 0} where
  check_first :
      (r : Result A) (f : A → Effect (KeyEnvelope × World) B)
      → ((a : A) → IsAtomic (f a))
      → IsAtomic (lift r >>= f)
  check_first r f h = IsAtomic-bind (lift r) f (Frames-lift r) h

  world_first :
      (m : Effect World A) (f : A → Effect (KeyEnvelope × World) B)
      → ((a : A) → IsAtomic (f a))
      → IsAtomic (on_world m >>= f)
  world_first m f h = IsAtomic-bind (on_world m) f (Frames-on_world m) h

module _ {World B : Type 0} where
  read_first :
      (f : KeyEnvelope → Effect (KeyEnvelope × World) B)
      → ((e : KeyEnvelope) → IsAtomic (f e))
      → IsAtomic (current >>= f)
  read_first f h = IsAtomic-bind current f Frames-current h

module _ (w : Wire) (s : Suite) {World Session : Type 0} (env : Env World Session) where
  pub add_recipient-IsAtomic :
      (p : KeyProtector) (root : Bytes) (en : Enrollment)
      → IsAtomic (add_recipient w s env p root en)
  unfolding add_recipient
  add_recipient-IsAtomic p root en = read_first _ λ e. check_first _ _ λ _. check_first _ _ λ _.
      check_first _ _ λ _.
        world_first _ _ λ (r, keys, enrolled). world_first _ _ λ staged. IsAtomic-store staged _

  pub add_recovery_secret-IsAtomic :
      (p : KeyProtector) (root label : Bytes) → IsAtomic (add_recovery_secret w s env p root label)
  unfolding add_recovery_secret
  add_recovery_secret-IsAtomic p root label = read_first _ λ e. check_first _ _ λ _.
      check_first _ _ λ _.
        check_first _ _
          λ _. world_first _ _ λ (r, secret, key). check_first _ _ λ staged. IsAtomic-store staged _

  pub add_fido_and_local_secret-IsAtomic :
      (p : KeyProtector) (root label : Bytes)
      → IsAtomic (add_fido_and_local_secret w s env p root label)
  unfolding add_fido_and_local_secret
  add_fido_and_local_secret-IsAtomic p root label = read_first _ λ e. check_first _ _ λ _.
      check_first _ _ λ _.
        check_first _ _
          λ _. world_first _ _ λ (r, secret, key). check_first _ _ λ staged. IsAtomic-store staged _

  pub rewrap_passphrase_inner-IsAtomic :
      (p : KeyProtector) (root recipient : Bytes) (q : PassphraseParameters)
      → IsAtomic (rewrap_passphrase_inner w s env p root recipient q)
  unfolding rewrap_passphrase_inner
  rewrap_passphrase_inner-IsAtomic p root recipient q = read_first _ λ e. check_first _ _ λ _.
      check_first _ _ λ old. check_first _ _ λ _. check_first _ _ λ _. check_first _ _ λ _.
        world_first _ _
          λ (r, keys). check_first _ _ λ index. check_first _ _ λ staged. IsAtomic-store staged _

  pub rewrap_passphrase-IsAtomic :
      (p : KeyProtector) (root recipient : Bytes)
      → IsAtomic (rewrap_passphrase w s env p root recipient)
  unfolding rewrap_passphrase
  rewrap_passphrase-IsAtomic p root recipient = read_first _ λ e. check_first _ _ λ _.
      check_first _ _
        λ old. check_first _ _ λ q. rewrap_passphrase_inner-IsAtomic p root recipient q

module _ (w : Wire) (s : Suite) {World : Type 0} where
  pub remove_recipient-IsAtomic :
      (p : KeyProtector) (root recipient : Bytes)
      → IsAtomic (remove_recipient w s {World = World} p root recipient)
  unfolding remove_recipient
  remove_recipient-IsAtomic p root recipient =
      read_first _ λ e. check_first _ _ λ staged. IsAtomic-store staged _
