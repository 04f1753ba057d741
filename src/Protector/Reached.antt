-- ===== src/Protector/Reached.antt =====
-- The life of an envelope under crates/fido-key-wrap/src/protector.rs: its creation by one of the
-- protecting operations, and the changes that follow.
use fido_key_wrap.Common.{◌≡◌, Bytes}
use fido_key_wrap.Error.{ok}
use fido_key_wrap.Policy.Enrollment.{Enrollment}
use fido_key_wrap.Interaction.{Operation}
use fido_key_wrap.Envelope.{KeyEnvelope}
use fido_key_wrap.Envelope.Wire.{Wire, WireLaws}
use fido_key_wrap.Crypto.Suite.{Suite}
use fido_key_wrap.Effect.Post.{Gives, Gives-pure, Gives-skip, Gives-check, Gives-bind}
use fido_key_wrap.Protector.{KeyProtector}
use fido_key_wrap.Protector.Env.{Env}
use fido_key_wrap.Protector.Adding.{HasRoute, stage_enrollment-Gives, stage_record-HasRoute}
use fido_key_wrap.Protector.Create.{
  SecretRecipient, protect_root_for_operation, create_root, protect_root_with_recovery_secret,
  protect_root_with_fido_and_local_secret_for_operation,
}
use fido_key_wrap.Protector.Changes.{Change, run, IsSealed, HasRoute-IsSealed, run-IsSealed}

-- The envelopes that a root protects over time: one that a protecting operation returns, and what any
-- change makes of one that was reached, in whatever world it runs.
module _ (w : Wire) (s : Suite) {World Session : Type 0} (env : Env World Session)
    (p : KeyProtector) (root : Bytes) where
  pub data Reached : KeyEnvelope → Type 0 where
    protected :
        (en : Enrollment) (o : Operation) (world : World) (e : KeyEnvelope) (recipient : Bytes)
        → (protect_root_for_operation w s env p root en o world).0 ≡ ok (e, recipient)
        → Reached e
    protected_by_secret :
        (label : Bytes) (world : World) (e : KeyEnvelope) (recipient : SecretRecipient)
        → (protect_root_with_recovery_secret w s env p root label world).0 ≡ ok (e, recipient)
        → Reached e
    protected_by_local_secret :
        (label : Bytes) (o : Operation) (world : World) (e : KeyEnvelope)
        (recipient : SecretRecipient)
        → (protect_root_with_fido_and_local_secret_for_operation w s env p root label o world).0
          ≡ ok (e, recipient)
        → Reached e
    changed :
        (c : Change) (e : KeyEnvelope) (world : World)
        → Reached e
        → Reached (run w s env p root c (e, world)).1.0

module _ (w : Wire) (laws : WireLaws w) (s : Suite) {World Session : Type 0}
    (env : Env World Session) where
  pub protect-Gives :
      (p : KeyProtector) (root : Bytes) (en : Enrollment) (o : Operation)
      → Gives (λ (e, i). HasRoute w s e i root) (protect_root_for_operation w s env p root en o)
  unfolding protect_root_for_operation
  protect-Gives p root en o = Gives-skip _ _ λ _. Gives-skip _ _ λ envelope_id.
      Gives-skip _ _ λ (r, keys, enrolled).
        Gives-bind _ _ (stage_enrollment-Gives w laws s env p _ r root keys enrolled)
          λ staged h. Gives-pure _ h

  pub protect_secret-Gives :
      (p : KeyProtector) (root label : Bytes)
      → Gives
          (λ (e, i). HasRoute w s e i.0 root)
          (protect_root_with_recovery_secret w s env p root label)
  unfolding protect_root_with_recovery_secret
  protect_secret-Gives p root label = Gives-skip _ _ λ valid. Gives-skip _ _ λ envelope_id.
      Gives-skip _ _ λ (r, secret, key).
        Gives-check _ _
          λ staged h. Gives-pure _ (stage_record-HasRoute w laws s _ staged r root _ h)

  pub protect_local-Gives :
      (p : KeyProtector) (root label : Bytes) (o : Operation)
      → Gives
          (λ (e, i). HasRoute w s e i.0 root)
          (protect_root_with_fido_and_local_secret_for_operation w s env p root label o)
  unfolding protect_root_with_fido_and_local_secret_for_operation
  protect_local-Gives p root label o = Gives-skip _ _ λ valid. Gives-skip _ _ λ envelope_id.
      Gives-skip _ _ λ (r, secret, key).
        Gives-check _ _
          λ staged h. Gives-pure _ (stage_record-HasRoute w laws s _ staged r root _ h)

  -- Every envelope that a protecting operation returns for a root, and every envelope that changes,
  -- failed ones included, then make of it in whatever worlds, is well formed, and the root
  -- authenticates it.
  pub Reached-IsSealed :
      (p : KeyProtector) (root : Bytes) (e : KeyEnvelope)
      → Reached w s env p root e
      → IsSealed w s root e
  Reached-IsSealed p root e (protected en o world f i h) =
      HasRoute-IsSealed w laws s root i f ((protect-Gives p root en o).result world (f, i) h)
  Reached-IsSealed p root e (protected_by_secret label world f i h) =
      HasRoute-IsSealed w laws s root i.0 f
        ((protect_secret-Gives p root label).result world (f, i) h)
  Reached-IsSealed p root e (protected_by_local_secret label o world f i h) =
      HasRoute-IsSealed w laws s root i.0 f
        ((protect_local-Gives p root label o).result world (f, i) h)
  Reached-IsSealed p root e (changed c f world h) =
      run-IsSealed w laws s env p root c f world (Reached-IsSealed p root f h)

  create-Gives :
      (p : KeyProtector) (en : Enrollment)
      → Gives (λ (root, e, i). HasRoute w s e i root) (create_root w s env p en)
  unfolding create_root
  create-Gives p en =
      Gives-skip _ _ λ root. Gives-bind _ _ (protect-Gives p root en _) λ (e, i) h. Gives-pure _ h

  -- When `create_root` succeeds, the envelope is well formed, the new root authenticates it, and the
  -- recipient that is returned is found in it and opens to that root with some keys.
  pub create_root-HasRoute :
      (p : KeyProtector) (en : Enrollment) (world : World) (root : Bytes) (e : KeyEnvelope)
      (recipient : Bytes)
      → (create_root w s env p en world).0 ≡ ok (root, e, recipient)
      → HasRoute w s e recipient root
  create_root-HasRoute p en world root e recipient h =
      (create-Gives p en).result world (root, e, recipient) h
