-- ===== src/Protector/Freshness.antt =====
-- The random values of crates/fido-key-wrap/src/protector.rs do not occur in the envelope yet, and
-- every enrolment hands on a fresh identity.
use fido_key_wrap.Common.{
  Option, ℕ, zero, suc, ◌≡◌, ◌≢◌, false, Bool-cases, inl, inr, refl, some, Bytes, any, eq_bytes,
  eq_bytes_refl,
}
use fido_key_wrap.Error.{Error, Result, Result-cases, ok, err}
use fido_key_wrap.Policy.{FidoPolicy, RecipientPolicy}
use fido_key_wrap.Policy.Parameters.{PassphraseParameters}
use fido_key_wrap.Policy.Enrollment.{Enrollment}
use fido_key_wrap.Interaction.{Operation}
use fido_key_wrap.Envelope.{KeyEnvelope, RecipientRecord, id}
use fido_key_wrap.Envelope.Find.{find}
use fido_key_wrap.Crypto.Suite.{Suite}
use fido_key_wrap.Effect.{Effect, pure, raise, ◌>>=◌}
use fido_key_wrap.Effect.Post.{
  Gives, Gives-pure, Gives-raise, Gives-skip, Gives-bind, Gives-attempt,
}
use fido_key_wrap.Protector.{KeyProtector}
use fido_key_wrap.Protector.Env.{Env, ManagedEnrollment}
use fido_key_wrap.Protector.Fresh.{
  has_salt, unique_recipient_id, unique_salt, fresh_array, random_attempts,
}
use fido_key_wrap.Protector.Enroll.{
  enroll_passphrase_recipient, new_recovery_secret_record, enroll_fido_recipient,
  enroll_fido_local_recipient, finish_managed_fido_recipient, enroll_managed_fido_recipient,
  enroll_combined_recipient, unmanaged, enroll_policy, enroll_recipient,
}
use fido_key_wrap.Protector.Stage.{cleanup_failed_managed_enrollment}
use fido_key_wrap.Protector.Stage.Keys.{RecoveryKeys}

-- The envelope has no recipient of that identity.
abbrev pub IsFresh : KeyEnvelope → Bytes → Type 0
IsFresh e recipient = (x : Error) × (find e recipient ≡ err x)

module _ {World Session : Type 0} (env : Env World Session) where
  -- A recipient identity that is drawn is not one of the envelope's.
  pub unique_recipient_id-Gives :
      (n : ℕ) (e : KeyEnvelope) → Gives (IsFresh e) (unique_recipient_id env n e)
  unfolding unique_recipient_id
  unique_recipient_id-Gives zero e = Gives-raise _
  unique_recipient_id-Gives (suc n) e = Gives-skip _ _ λ r. elim (Result-cases (find e r)) [
    | inl (found, h) ↦ rw h (unique_recipient_id-Gives n e)
    | inr (x, h) ↦ rw h (Gives-pure r (x, h))
  ]

  -- A passphrase salt that is drawn is not one of the envelope's.
  pub unique_salt-Gives :
      (n : ℕ) (e : KeyEnvelope)
      → Gives (λ salt. any (has_salt salt) e.recipients ≡ false) (unique_salt env n e)
  unfolding unique_salt
  unique_salt-Gives zero e = Gives-raise _
  unique_salt-Gives (suc n) e = Gives-skip _ _ λ salt.
      elim (Bool-cases (any (has_salt salt) e.recipients)) [
        | inl used ↦ rw used (unique_salt-Gives n e)
        | inr unused ↦ rw unused (Gives-pure salt unused)
      ]

  -- A nonce that replaces another differs from it.
  pub fresh_array-Gives :
      (n size : ℕ) (old : Bytes) → Gives (λ value. value ≢ old) (fresh_array env n size old)
  unfolding fresh_array
  fresh_array-Gives zero size old = Gives-raise _
  fresh_array-Gives (suc n) size old = Gives-skip _ _ λ value.
      elim (Bool-cases (eq_bytes value old)) [
        | inl same ↦ rw same (fresh_array-Gives n size old)
        | inr other ↦ rw other (Gives-pure value (λ e. cc (e, other, eq_bytes_refl old)))
      ]

module _ (s : Suite) {World Session : Type 0} (env : Env World Session) where
  abbrev IsFreshRecord : {K : Type 0} → KeyEnvelope → RecipientRecord × K → Type 0
  IsFreshRecord e (r, _) = IsFresh e (id r)

  abbrev HasFreshRecord : {K L : Type 0} → KeyEnvelope → RecipientRecord × K × L → Type 0
  HasFreshRecord e (r, _, _) = IsFresh e (id r)

  enroll_passphrase-Gives :
      (p : KeyProtector) (e : KeyEnvelope) (root label : Bytes) (q : PassphraseParameters)
      (o : Operation)
      → Gives (IsFreshRecord e) (enroll_passphrase_recipient s env p e root label q o)
  unfolding enroll_passphrase_recipient
  enroll_passphrase-Gives p e root label q o =
      Gives-bind _ _ (unique_recipient_id-Gives env random_attempts e) λ i h. Gives-skip _ _ λ salt.
        Gives-skip _ _ λ nonce.
          Gives-skip _ _ λ pass. Gives-skip _ _ λ key. Gives-skip _ _ λ wrapped. Gives-pure _ h

  pub recovery_secret-Gives :
      (e : KeyEnvelope) (root label : Bytes)
      → Gives (HasFreshRecord e) (new_recovery_secret_record s env e root label)
  unfolding new_recovery_secret_record
  recovery_secret-Gives e root label = Gives-skip _ _ λ secret.
      Gives-bind _ _ (unique_recipient_id-Gives env random_attempts e) λ i h.
        Gives-skip _ _ λ nonce. Gives-skip _ _ λ key. Gives-skip _ _ λ wrapped. Gives-pure _ h

  enroll_fido-Gives :
      (p : KeyProtector) (e : KeyEnvelope) (root label : Bytes) (q : FidoPolicy) (o : Operation)
      → Gives (IsFreshRecord e) (enroll_fido_recipient s env p e root label q o)
  unfolding enroll_fido_recipient
  enroll_fido-Gives p e root label q o = Gives-skip _ _ λ c. Gives-skip _ _ λ _.
      Gives-bind _ _ (unique_recipient_id-Gives env random_attempts e) λ i h.
        Gives-skip _ _ λ prf_nonce. Gives-skip _ _ λ fido_nonce.
          Gives-skip _ _ λ prf. Gives-skip _ _ λ key. Gives-skip _ _ λ wrapped. Gives-pure _ h

  pub enroll_fido_local-Gives :
      (p : KeyProtector) (e : KeyEnvelope) (root label : Bytes) (o : Operation)
      → Gives (HasFreshRecord e) (enroll_fido_local_recipient s env p e root label o)
  unfolding enroll_fido_local_recipient
  enroll_fido_local-Gives p e root label o =
      Gives-bind _ _ (unique_recipient_id-Gives env random_attempts e) λ i h.
        Gives-skip _ _ λ secret. Gives-skip _ _ λ prf_nonce. Gives-skip _ _ λ wrap_nonce.
          Gives-skip _ _ λ c. Gives-skip _ _ λ _.
            Gives-skip _ _ λ prf. Gives-skip _ _ λ key. Gives-skip _ _ λ wrapped. Gives-pure _ h

  enroll_combined-Gives :
      (p : KeyProtector) (e : KeyEnvelope) (root label : Bytes) (f : FidoPolicy)
      (q : PassphraseParameters) (o : Operation)
      → Gives (IsFreshRecord e) (enroll_combined_recipient s env p e root label f q o)
  unfolding enroll_combined_recipient
  enroll_combined-Gives p e root label f q o = Gives-skip _ _ λ c. Gives-skip _ _ λ _.
      Gives-bind _ _ (unique_recipient_id-Gives env random_attempts e) λ i h.
        Gives-skip _ _ λ prf_nonce. Gives-skip _ _ λ fido_nonce. Gives-skip _ _ λ salt.
          Gives-skip _ _ λ nonce. Gives-skip _ _ λ prf. Gives-skip _ _ λ fido_key.
            Gives-skip _ _ λ pass. Gives-skip _ _ λ key. Gives-skip _ _ λ wrapped. Gives-pure _ h

  finish_managed-Gives :
      (p : KeyProtector) (e : KeyEnvelope) (root i label : Bytes) (f : FidoPolicy) (o : Operation)
      (enrollment : ManagedEnrollment Session)
      → IsFresh e i
      → Gives
          (IsFreshRecord e)
          (finish_managed_fido_recipient s env p e root i label f o enrollment)
  unfolding finish_managed_fido_recipient
  finish_managed-Gives p e root i label f o enrollment h = Gives-skip _ _ λ _.
      Gives-skip _ _ λ prf_nonce. Gives-skip _ _ λ fido_nonce. Gives-skip _ _ λ input.
        Gives-skip _ _ λ prf. Gives-skip _ _ λ key. Gives-skip _ _ λ wrapped. Gives-pure _ h

  abbrev IsFreshOutcome : KeyEnvelope → Result (RecipientRecord × RecoveryKeys) → Type 0
  IsFreshOutcome e outcome =
      (a : RecipientRecord × RecoveryKeys) → outcome ≡ ok a → IsFreshRecord e a

  -- The `match` on the outcome of the end of a managed enrolment.
  after_finish :
      (p : KeyProtector) (e : KeyEnvelope) (i label : Bytes)
      (enrollment : ManagedEnrollment Session) (outcome : Result (RecipientRecord × RecoveryKeys))
      → IsFreshOutcome e outcome
      → Gives {S = World}
          (HasFreshRecord {K = RecoveryKeys} {L = Option (ManagedEnrollment Session)} e)
          (elim outcome [
            | ok (r, keys) ↦ pure (r, keys, some enrollment)
            | err x ↦ cleanup_failed_managed_enrollment env p enrollment i label x >>= raise
          ])
  after_finish p e i label enrollment (ok a) h = Gives-pure _ (h a refl)
  after_finish p e i label enrollment (err x) h = Gives-skip _ _ λ y. Gives-raise y

  enroll_managed-Gives :
      (p : KeyProtector) (e : KeyEnvelope) (root label : Bytes) (f : FidoPolicy) (o : Operation)
      → Gives (HasFreshRecord e) (enroll_managed_fido_recipient s env p e root label f o)
  unfolding enroll_managed_fido_recipient
  enroll_managed-Gives p e root label f o =
      Gives-bind _ _ (unique_recipient_id-Gives env random_attempts e) λ i h.
        Gives-skip _ _ λ enrollment.
          Gives-bind _ _ (Gives-attempt (finish_managed-Gives p e root i label f o enrollment h))
            (after_finish p e i label enrollment)

  unmanaged-Gives :
      (e : KeyEnvelope) (m : Effect World (RecipientRecord × RecoveryKeys))
      → Gives (IsFreshRecord e) m
      → Gives (HasFreshRecord e) (m >>= unmanaged s env)
  unmanaged-Gives e m h = Gives-bind m _ h λ (r, keys) fresh. Gives-pure _ fresh

  enroll_policy-Gives :
      (p : KeyProtector) (e : KeyEnvelope) (root : Bytes) (policy : RecipientPolicy)
      (en : Enrollment) (o : Operation)
      → Gives (HasFreshRecord e) (enroll_policy s env p e root policy en o)
  unfolding enroll_policy
  enroll_policy-Gives p e root RecipientPolicy.passphrase en o =
      Gives-skip _ _ λ q. unmanaged-Gives e _ (enroll_passphrase-Gives p e root en.label q o)
  enroll_policy-Gives p e root RecipientPolicy.recovery_secret en o = Gives-raise _
  enroll_policy-Gives p e root RecipientPolicy.fido_presence_and_local_secret en o = Gives-raise _
  enroll_policy-Gives p e root (RecipientPolicy.fido f) en o =
      unmanaged-Gives e _ (enroll_fido-Gives p e root en.label f o)
  enroll_policy-Gives p e root (RecipientPolicy.managed_fido f) en o =
      enroll_managed-Gives p e root en.label f o
  enroll_policy-Gives p e root (RecipientPolicy.fido_and_passphrase f) en o =
      Gives-skip _ _ λ q. unmanaged-Gives e _ (enroll_combined-Gives p e root en.label f q o)

  -- Whatever its policy, an enrolment that succeeds gives a record whose identity the envelope does
  -- not have.
  pub enroll_recipient-Gives :
      (p : KeyProtector) (e : KeyEnvelope) (root : Bytes) (en : Enrollment) (o : Operation)
      → Gives (λ (r, _, _). IsFresh e (id r)) (enroll_recipient s env p e root en o)
  unfolding enroll_recipient
  enroll_recipient-Gives p e root en o = enroll_policy-Gives p e root en.policy en o
