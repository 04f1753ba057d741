-- ===== src/Protector/Adding.antt =====
-- What the changes of crates/fido-key-wrap/src/protector.rs leave behind when they succeed.
use fido_key_wrap.Common.{◌≡◌, Option, none, some, Bytes, Bool-cases, inl, inr}
use fido_key_wrap.Error.{Error, ok, Result-cases}
use fido_key_wrap.Policy.Parameters.{PassphraseParameters}
use fido_key_wrap.Policy.Enrollment.{Enrollment}
use fido_key_wrap.Envelope.{KeyEnvelope, RecipientRecord, id}
use fido_key_wrap.Envelope.Wire.{Wire, WireLaws}
use fido_key_wrap.Crypto.Suite.{Suite}
use fido_key_wrap.Effect.Frame.{Frames-on_world, Frames-current}
use fido_key_wrap.Effect.Post.{
  Gives, Gives-pure, Gives-raise, Gives-skip, Ensures, Ensures-skip, Ensures-check,
  Ensures-on_world, Ensures-current, Ensures-store,
}
use fido_key_wrap.Protector.{KeyProtector}
use fido_key_wrap.Protector.Env.{Env, ManagedEnrollment}
use fido_key_wrap.Protector.Stage.{
  abandon_enrollment, stage_record, stage_existing_record, stage_enrollment, is_managed,
}
use fido_key_wrap.Protector.Stage.Keys.{RecoveryKeys}
use fido_key_wrap.Protector.Staging.{IsVerified, stage_existing_record-IsVerified}
use fido_key_wrap.Protector.Freshness.{
  IsFresh, enroll_recipient-Gives, recovery_secret-Gives, enroll_fido_local-Gives,
}
use fido_key_wrap.Protector.Recipients.{
  add_recipient, add_recovery_secret, add_fido_and_local_secret,
}
use fido_key_wrap.Protector.Rewrap.{rewrap_passphrase_inner, rewrap_passphrase}

module _ (w : Wire) (s : Suite) where
  -- Some keys open the recipient's route.
  abbrev pub HasRoute : KeyEnvelope → Bytes → Bytes → Type 0
  HasRoute e recipient root = (keys : RecoveryKeys) × IsVerified w s e recipient root keys

module _ (w : Wire) (laws : WireLaws w) (s : Suite) where
  stage_existing_record-HasRoute :
      (e staged : KeyEnvelope) (recipient root : Bytes) (keys : RecoveryKeys)
      → stage_existing_record w s e recipient root keys ≡ ok staged
      → HasRoute w s staged recipient root
  stage_existing_record-HasRoute e staged recipient root keys h =
      (keys, (stage_existing_record-IsVerified w laws s e staged recipient root keys h).0)

  pub stage_record-HasRoute :
      (e staged : KeyEnvelope) (r : RecipientRecord) (root : Bytes) (keys : RecoveryKeys)
      → stage_record w s e r root keys ≡ ok staged
      → HasRoute w s staged (id r) root
  unfolding stage_record
  stage_record-HasRoute e staged r root keys h =
      stage_existing_record-HasRoute _ staged (id r) root keys h

  module _ {World Session : Type 0} (env : Env World Session) where
    abandon-Gives :
        (P : KeyEnvelope → Type 0) (p : KeyProtector) (r : RecipientRecord)
        (enrolled : Option (ManagedEnrollment Session)) (x : Error)
        → Gives P (abandon_enrollment env p r enrolled x)
    unfolding abandon_enrollment
    abandon-Gives P p r none x = Gives-raise x
    abandon-Gives P p r (some enrollment) x = elim (Bool-cases (is_managed r)) [
      | inl managed ↦ rw (managed, abandon_enrollment) (Gives-skip _ _ (λ e. Gives-raise e))
      | inr other ↦ rw (other, abandon_enrollment) (Gives-raise _)
    ]

    pub stage_enrollment-Gives :
        (p : KeyProtector) (e : KeyEnvelope) (r : RecipientRecord) (root : Bytes)
        (keys : RecoveryKeys) (enrolled : Option (ManagedEnrollment Session))
        → Gives
            (λ staged. HasRoute w s staged (id r) root)
            (stage_enrollment w s env p e r root keys enrolled)
    unfolding stage_enrollment
    stage_enrollment-Gives p e r root keys enrolled =
        elim (Result-cases (stage_record w s e r root keys)) [
          | inl (staged, h) ↦
              rw (h, stage_enrollment)
                (Gives-pure staged (stage_record-HasRoute e staged r root keys h))
          | inr (x, h) ↦
              rw (h, stage_enrollment)
                (abandon-Gives (λ staged. HasRoute w s staged (id r) root) p r enrolled x)
        ]

    pub add_recipient-Ensures :
        (p : KeyProtector) (root : Bytes) (en : Enrollment)
        → Ensures
            (λ old recipient new. IsFresh old recipient × HasRoute w s new recipient root)
            (add_recipient w s env p root en)
    unfolding add_recipient
    add_recipient-Ensures p root en = Ensures-current _ λ e. Ensures-check _ _ λ _ _.
        Ensures-check _ _ λ _ _. Ensures-check _ _ λ _ _.
          Ensures-on_world _ _ (enroll_recipient-Gives s env p e root en _)
            λ (r, keys, enrolled) fresh.
              Ensures-on_world _ _ (stage_enrollment-Gives p e r root keys enrolled)
                λ staged h. Ensures-store staged (id r) (λ t same. (fresh, h))

    pub add_recovery_secret-Ensures :
        (p : KeyProtector) (root label : Bytes)
        → Ensures
            (λ old (recipient, _) new. IsFresh old recipient × HasRoute w s new recipient root)
            (add_recovery_secret w s env p root label)
    unfolding add_recovery_secret
    add_recovery_secret-Ensures p root label = Ensures-current _ λ e. Ensures-check _ _ λ _ _.
        Ensures-check _ _ λ _ _. Ensures-check _ _ λ valid _.
          Ensures-on_world _ _ (recovery_secret-Gives s env e root valid) λ (r, secret, key) fresh.
            Ensures-check _ _ λ staged h.
              Ensures-store staged _ (λ t same. (fresh, stage_record-HasRoute e staged r root _ h))

    pub add_fido_and_local_secret-Ensures :
        (p : KeyProtector) (root label : Bytes)
        → Ensures
            (λ old (recipient, _) new. IsFresh old recipient × HasRoute w s new recipient root)
            (add_fido_and_local_secret w s env p root label)
    unfolding add_fido_and_local_secret
    add_fido_and_local_secret-Ensures p root label = Ensures-current _ λ e. Ensures-check _ _ λ _ _.
        Ensures-check _ _ λ _ _. Ensures-check _ _ λ valid _.
          Ensures-on_world _ _ (enroll_fido_local-Gives s env p e root valid _)
            λ (r, secret, key) fresh. Ensures-check _ _ λ staged h.
              Ensures-store staged _ (λ t same. (fresh, stage_record-HasRoute e staged r root _ h))

    pub rewrap_passphrase_inner-Ensures :
        (p : KeyProtector) (root recipient : Bytes) (q : PassphraseParameters)
        → Ensures
            (λ old _ new. HasRoute w s new recipient root)
            (rewrap_passphrase_inner w s env p root recipient q)
    unfolding rewrap_passphrase_inner
    rewrap_passphrase_inner-Ensures p root recipient q = Ensures-current _ λ e.
        Ensures-check _ _ λ _ _. Ensures-check _ _ λ old _. Ensures-check _ _ λ _ _.
          Ensures-check _ _ λ _ _. Ensures-check _ _ λ _ _.
            Ensures-skip _ _ (Frames-on_world _) λ (r, keys). Ensures-check _ _ λ index _.
              Ensures-check _ _ λ staged h.
                Ensures-store staged tt
                  (λ t _. stage_existing_record-HasRoute _ staged recipient root keys h)

    pub rewrap_passphrase-Ensures :
        (p : KeyProtector) (root recipient : Bytes)
        → Ensures
            (λ old _ new. HasRoute w s new recipient root)
            (rewrap_passphrase w s env p root recipient)
    unfolding rewrap_passphrase
    rewrap_passphrase-Ensures p root recipient = Ensures-skip _ _ Frames-current λ e.
        Ensures-check _ _ λ _ _.
          Ensures-check _ _
            λ old _. Ensures-check _ _ λ q _. rewrap_passphrase_inner-Ensures p root recipient q

    -- When `add_recipient` succeeds, the recipient that it returns was not in the envelope before; the
    -- envelope that is left is well formed, the root authenticates it, and the recipient is found in
    -- it and opens to the root with some keys.
    pub add_recipient-adds :
        (p : KeyProtector) (root : Bytes) (en : Enrollment) (e : KeyEnvelope) (world : World)
        (recipient : Bytes)
        → (add_recipient w s env p root en (e, world)).0 ≡ ok recipient
        → IsFresh e recipient
          × HasRoute w s (add_recipient w s env p root en (e, world)).1.0 recipient root
    add_recipient-adds p root en e world recipient h =
        (add_recipient-Ensures p root en).on_success e world recipient h

    -- When `add_recovery_secret` succeeds, the recipient that it returns was not in the envelope
    -- before; the envelope that is left is well formed, the root authenticates it, and the recipient
    -- is found in it and opens to the root with some keys.
    pub add_recovery_secret-adds :
        (p : KeyProtector) (root label : Bytes) (e : KeyEnvelope) (world : World)
        (recipient secret : Bytes)
        → (add_recovery_secret w s env p root label (e, world)).0 ≡ ok (recipient, secret)
        → IsFresh e recipient
          × HasRoute w s (add_recovery_secret w s env p root label (e, world)).1.0 recipient root
    add_recovery_secret-adds p root label e world recipient secret h =
        (add_recovery_secret-Ensures p root label).on_success e world (recipient, secret) h
