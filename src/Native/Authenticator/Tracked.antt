-- ===== src/Native/Authenticator/Tracked.antt =====
-- What is known of a managed credential once the authenticator has created it.
use fido_key_wrap.Common.{◌≡◌, refl, ap, sym, ◌∙◌, ◌⊎◌, inl, inr, Bytes, Option, some}
use mathlib.Core.Path.{subst}
use fido_key_wrap.Native.Errors.{
  same_done, same_fault, Error, Outcome, fault, done, credential_may_remain,
}
use fido_key_wrap.Native.Action.{Action, attempt}
use fido_key_wrap.Native.Action.Runs.{
  Ends, Ends-bind, Ends-bind_fault, Ends-lift, Ends-attempt, Ends-pure, Ends-reads, Ends-map_fault,
  Ends-map_fault_done,
}
use fido_key_wrap.Native.Library.{Library, Handle}
use fido_key_wrap.Native.Request.{
  ExactPolicy, EnrollmentRequest, managed_discoverable, PendingManagedCredential,
  EnrolledCredential, Enrollment, EnrollmentFailure, without_pending,
}
use fido_key_wrap.Native.Selection.{Authenticator}
use fido_key_wrap.Native.Credential.{
  copy_id, copy_public_key, copy_pending_managed, copy_enrollment,
}
use fido_key_wrap.Native.Authenticator.{
  failing, tracked, pending_of, finish_tracked, finish_enrollment,
}

module _ {W E F A : Type 0} where
  attempted : (m : Action W E A) {w w' : W} {e : F} → Ends (attempt {F = F} m) w (fault e) w' → ⊥
  unfolding attempt
  attempted m h = absurd (cc h.ends)

module _ {W : Type 0} (lib : Library W) (a : Authenticator) where
  -- The clean-up names this relying party, user and authenticator, with the identity and the key that
  -- the library holds of the new credential.
  pub record Tracks (credential : Handle) (relying_party_id user : Bytes) (w : W)
      (p : PendingManagedCredential) : Type 0 where
    pub party : p.relying_party_id ≡ relying_party_id
    pub owner : p.user_id ≡ user
    pub maker : p.affinity ≡ a.affinity
    pub identity : copy_id lib credential w ≡ done p.credential_id
    pub key : copy_public_key lib credential w ≡ done p.es256_public_key

  tracks :
      (c : Handle) (rp user id key : Bytes) (p : PendingManagedCredential) {w : W}
      → copy_id lib c w ≡ done id
      → copy_public_key lib c w ≡ done key
      → record {
        relying_party_id = rp;
        user_id = user;
        credential_id = id;
        es256_public_key = key;
        affinity = a.affinity;
      }
        ≡ p
      → Tracks c rp user w p
  tracks c rp user id key p ei ek e = record {
    party = ap (λ (t : PendingManagedCredential). t.relying_party_id) (sym e);
    owner = ap (λ (t : PendingManagedCredential). t.user_id) (sym e);
    maker = ap (λ (t : PendingManagedCredential). t.affinity) (sym e);
    identity = ei ∙ ap (λ (t : PendingManagedCredential). done t.credential_id) e;
    key = ek ∙ ap (λ (t : PendingManagedCredential). done t.es256_public_key) e;
  }

  copied-Tracks :
      (c : Handle) (rp user : Bytes) (p : PendingManagedCredential) {w w' : W}
      → Ends (copy_pending_managed lib c rp user a.affinity) w (done p) w'
      → Tracks c rp user w p × (w ≡ w')
  unfolding copy_pending_managed
  copied-Tracks c rp user p h =
      let (id, _, hi, h1) = Ends-bind _ _ h in
      let (key, _, hk, h2) = Ends-bind _ _ h1 in
      let (ei, si) = Ends-reads _ hi in
      let (ek, sk) = Ends-reads _ hk in
      let (e, s) = Ends-pure _ h2 in
      (tracks c rp user id key p ei (ap (copy_public_key lib c) si ∙ ek) (same_done e), si ∙ sk ∙ s)

  -- Nothing to clean up is left without the report that a credential may remain.
  tracked_fault :
      (r : Outcome Error PendingManagedCredential) (f : EnrollmentFailure)
      → tracked lib a r ≡ fault f
      → f ≡ without_pending credential_may_remain
  unfolding tracked
  tracked_fault (done p) f h = cc
  tracked_fault (fault e) f h = sym (same_fault h)

  tracked_done :
      (r : Outcome Error PendingManagedCredential) (o : Option PendingManagedCredential)
      → tracked lib a r ≡ done o
      → (p : PendingManagedCredential) × (r ≡ done p) × (o ≡ some p)
  unfolding tracked
  tracked_done (done p) o h = (p, refl, cc)
  tracked_done (fault e) o h = cc

  pending_of_fault :
      (c : Handle) (rp user : Bytes) {w w' : W} {f : EnrollmentFailure}
      → Ends (pending_of lib a c rp (managed_discoverable user)) w (fault f) w'
      → f ≡ without_pending credential_may_remain
  unfolding pending_of
  pending_of_fault c rp user {w} {w'} {f} h = elim (Ends-bind_fault _ _ h) [
    | inl k ↦ absurd (attempted _ k)
    | inr k ↦ tracked_fault k.0 f (Ends-lift _ k.3).0
  ]

  pending_of-Tracks :
      (c : Handle) (rp user : Bytes) {w w' : W} {o : Option PendingManagedCredential}
      → Ends (pending_of lib a c rp (managed_discoverable user)) w (done o) w'
      → (p : PendingManagedCredential) × (o ≡ some p) × Tracks c rp user w p × (w ≡ w')
  unfolding pending_of
  pending_of-Tracks c rp user {w} {w'} {o} h =
      let (r, v, hr, h1) = Ends-bind _ _ h in
      let (e, s) = Ends-lift _ h1 in
      let (p, er, eo) = tracked_done r o e in
      let (t, same) =
        copied-Tracks c rp user p (record { ends = cc ((Ends-attempt _ hr).ends, er) }) in
      (p, eo, t, same ∙ s)

  -- What a failure after the creation of a managed credential leaves, or a success.
  pub record IsTracked (credential : Handle) (relying_party_id user : Bytes) (w : W)
      (o : Option PendingManagedCredential) : Type 0 where
    pub pending : PendingManagedCredential
    pub left : o ≡ some pending
    pub tracks : Tracks credential relying_party_id user w pending

  module _ (c : Handle) where
    finish_tracked_fault :
        (policy : ExactPolicy) (o : Option PendingManagedCredential) {v w' : W}
        {f : EnrollmentFailure}
        → Ends (finish_tracked lib a c policy o) v (fault f) w'
        → f.pending_managed ≡ o
    unfolding finish_tracked
    finish_tracked_fault policy o h = elim (Ends-bind_fault _ _ h) [
      | inl k ↦ pending_of_failing o (Ends-map_fault _ _ k).1
      | inr k ↦ elim (Ends-bind_fault _ _ k.3) [
        | inl l ↦ pending_of_failing o (Ends-map_fault _ _ l).1
        | inr l ↦ absurd (cc (Ends-pure _ l.3).0)
      ]
    ]
      where
        pending_of_failing :
            (o : Option PendingManagedCredential) {e : Error} {f : EnrollmentFailure}
            → failing lib a o e ≡ f
            → f.pending_managed ≡ o
        pending_of_failing o k = ap (λ (t : EnrollmentFailure). t.pending_managed) (sym k)

    copy_enrollment_done :
        {v v' : W} {copied : EnrolledCredential}
        → Ends (copy_enrollment lib c) v (done copied) v'
        → (copy_id lib c v ≡ done copied.credential_id)
          × (copy_public_key lib c v ≡ done copied.es256_public_key)
    unfolding copy_enrollment
    copy_enrollment_done {copied = copied} h =
        let (protection, _, hp, h1) = Ends-bind _ _ h in
        let (id, _, hi, h2) = Ends-bind _ _ h1 in
        let (key, _, hk, h3) = Ends-bind _ _ h2 in
        let (_, sp) = Ends-reads _ hp in
        let (ei, si) = Ends-reads _ hi in
        let (ek, _) = Ends-reads _ hk in
        let made = same_done (Ends-pure _ h3).0 in
        (
          ap (copy_id lib c) sp ∙ ei ∙ ap (λ (t : EnrolledCredential). done t.credential_id) made,
          ap (copy_public_key lib c) (sp ∙ si)
              ∙ ek
              ∙ ap (λ (t : EnrolledCredential). done t.es256_public_key) made,
        )

    finish_tracked_done :
        (policy : ExactPolicy) (o : Option PendingManagedCredential) {v w' : W} {e : Enrollment}
        → Ends (finish_tracked lib a c policy o) v (done e) w'
        → (e.managed_cleanup ≡ o)
          × (copy_id lib c v ≡ done e.credential.credential_id)
          × (copy_public_key lib c v ≡ done e.credential.es256_public_key)
    unfolding finish_tracked
    finish_tracked_done policy o {e = e} h =
        let (copied, _, hc, h1) = Ends-bind _ _ h in
        let (_, _, _, h2) = Ends-bind _ _ h1 in
        let made = same_done (Ends-pure _ h2).0 in
        let (ei, ek) = copy_enrollment_done (Ends-map_fault_done _ _ hc) in
        (
          ap (λ (t : Enrollment). t.managed_cleanup) (sym made),
          ei ∙ ap (λ (t : Enrollment). done t.credential.credential_id) made,
          ek ∙ ap (λ (t : Enrollment). done t.credential.es256_public_key) made,
        )

  module _ (c : Handle) (request : EnrollmentRequest) (user : Bytes) where
    stored :
        request.storage ≡ managed_discoverable user
        → {r : Outcome EnrollmentFailure (Option PendingManagedCredential)} {v v' : W}
        → Ends (pending_of lib a c request.relying_party_id request.storage) v r v'
        → Ends (pending_of lib a c request.relying_party_id (managed_discoverable user)) v r v'
    stored e {r} {v} {v'} k =
        subst (λ t. Ends (pending_of lib a c request.relying_party_id t) v r v') e k

    -- A failure of `enroll` after the creation of a managed credential names the credential for the
    -- clean-up, or says that a credential may remain.
    pub finish_enrollment_fault :
        request.storage ≡ managed_discoverable user
        → {w w' : W} {f : EnrollmentFailure}
        → Ends (finish_enrollment lib a c request) w (fault f) w'
        → (f ≡ without_pending credential_may_remain)
          ⊎ IsTracked c request.relying_party_id user w f.pending_managed
    unfolding finish_enrollment
    finish_enrollment_fault m {w} {w'} {f} h = elim (Ends-bind_fault _ _ h) [
      | inl k ↦ inl (pending_of_fault c request.relying_party_id user (stored m k))
      | inr k ↦
          let (p, eo, t, _) = pending_of-Tracks c request.relying_party_id user (stored m k.2) in
          inr (record {
            pending = p;
            left = finish_tracked_fault c request.policy k.0 k.3 ∙ eo;
            tracks = t;
          })
    ]

    -- A success names the credential that it returns for a later clean-up.
    pub finish_enrollment_done :
        request.storage ≡ managed_discoverable user
        → {w w' : W} {e : Enrollment} → Ends (finish_enrollment lib a c request) w (done e) w'
        → (t : IsTracked c request.relying_party_id user w e.managed_cleanup)
          × (t.pending.credential_id ≡ e.credential.credential_id)
          × (t.pending.es256_public_key ≡ e.credential.es256_public_key)
    unfolding finish_enrollment
    finish_enrollment_done m {w} {w'} {e} h =
        let (o, v, hp, h1) = Ends-bind _ _ h in
        let (p, eo, t, s) = pending_of-Tracks c request.relying_party_id user (stored m hp) in
        let (eq, ei, ek) = finish_tracked_done c request.policy o h1 in
        (
          record { pending = p; left = eq ∙ eo; tracks = t },
          same_done (sym t.identity ∙ ap (copy_id lib c) s ∙ ei),
          same_done (sym t.key ∙ ap (copy_public_key lib c) s ∙ ek),
        )
