-- ===== src/Native/Authenticator/Created.antt =====
-- Whether an enrolment ended before or after the authenticator reported a new credential.
use fido_key_wrap.Common.{
  ◌≡◌, ◌≢◌, refl, ap, sym, ◌∙◌, ◌⊎◌, inl, inr, Bool, true, false, Bytes, none,
}
use mathlib.Core.Path.{subst}
use fido_key_wrap.Native.Errors.{
  ℤ, eq_int, eq_int→eq, Error, credential_may_remain, Outcome, fault, done,
}
use fido_key_wrap.Native.Action.Runs.{
  Ends, Ends-bind, Ends-bind_fault, Ends-map_fault, Ends-map_fault_done, Ends-pure, Ends-raise,
  Ends-raise_from, Ends-call, Ends-call_fault,
}
use fido_key_wrap.Native.Status.{
  fido_ok, fido_err_timeout, fido_err_user_action_timeout, fido_err_action_timeout, fido_err_tx,
  fido_err_rx, fido_err_rx_not_cbor, fido_err_rx_invalid_cbor, fido_err_internal,
  managed_enrollment_status_is_uncertain,
}
use fido_key_wrap.Native.Library.{Library, Handle}
use fido_key_wrap.Native.Request.{EnrollmentRequest, Enrollment, EnrollmentFailure, without_pending}
use fido_key_wrap.Native.Selection.{Authenticator}
use fido_key_wrap.Native.Authenticator.{
  is_managed, prepare_credential, refuse, accept_made_status, accept_made, enroll,
  finish_enrollment,
}

-- A status after which the authenticator may have stored the credential that it was asked for: the time
-- is over, the transport has failed, the answer cannot be read, or the library has failed.
pub data IsAmbiguous : ℤ → Type 0 where
  timeout : IsAmbiguous fido_err_timeout
  user_action_timeout : IsAmbiguous fido_err_user_action_timeout
  action_timeout : IsAmbiguous fido_err_action_timeout
  not_sent : IsAmbiguous fido_err_tx
  not_received : IsAmbiguous fido_err_rx
  not_cbor : IsAmbiguous fido_err_rx_not_cbor
  invalid_cbor : IsAmbiguous fido_err_rx_invalid_cbor
  internal : IsAmbiguous fido_err_internal

uncertain : (status : ℤ) → IsAmbiguous status → managed_enrollment_status_is_uncertain status ≡ true
unfolding managed_enrollment_status_is_uncertain
uncertain _ timeout = refl
uncertain _ user_action_timeout = refl
uncertain _ action_timeout = refl
uncertain _ not_sent = refl
uncertain _ not_received = refl
uncertain _ not_cbor = refl
uncertain _ invalid_cbor = refl
uncertain _ internal = refl

module _ {W : Type 0} (lib : Library W) (a : Authenticator) where
  module _ (request : EnrollmentRequest) (pin : Bytes) where
    -- `enroll` has ended before the authenticator was asked for a credential, or with a status of it that
    -- is not ambiguous.
    pub data Uncreated (w : W) (f : EnrollmentFailure) (w' : W) : Type 0 where
      unprepared :
          Ends (prepare_credential lib a request) w (fault f.error) w'
          → f.pending_managed ≡ none
          → Uncreated w f w'
      refused :
          {c : Handle} {v v' : W} (status : ℤ)
          → Ends (prepare_credential lib a request) w (done c) v
          → lib.fido_dev_make_cred a.device c pin v ≡ (status, v')
          → status ≢ fido_ok
          → (IsAmbiguous status → ⊥)
          → f.pending_managed ≡ none
          → Uncreated w f w'

    -- The authenticator has reported a new credential, before this outcome.
    pub record Created (r : Outcome EnrollmentFailure Enrollment) (w' : W) : Type 0 where
      pub credential : Handle
      pub before : W
      pub after : W
      pub made : lib.fido_dev_make_cred a.device credential pin before ≡ (fido_ok, after)
      pub finished : Ends (finish_enrollment lib a credential request) after r w'

    unrefused :
        (status : ℤ) (uncertain : Bool) {v v' : W} {A : Type 0}
        → Ends (refuse lib a status uncertain) v (done tt) v'
        → A
    unfolding refuse
    unrefused status true h = absurd (cc (Ends-raise _ h).0)
    unrefused status false h = absurd (Ends-raise_from _ h)

    accepted :
        (managed : Bool) (status : ℤ) (is_ok : Bool) {v v' : W}
        → eq_int status fido_ok ≡ is_ok
        → Ends (accept_made_status lib a managed status is_ok) v (done tt) v'
        → (status ≡ fido_ok) × (v ≡ v')
    unfolding accept_made_status
    accepted managed status true e h = (eq_int→eq status fido_ok e, (Ends-pure _ h).1)
    accepted managed status false e h = unrefused status _ h

    told_apart :
        (status : ℤ) (is_uncertain : Bool) {v v' : W} {e : Error}
        → managed_enrollment_status_is_uncertain status ≡ is_uncertain
        → Ends (refuse lib a status is_uncertain) v (fault e) v'
        → (IsAmbiguous status → ⊥) ⊎ (e ≡ credential_may_remain)
    unfolding refuse
    told_apart status true k h = inr (cc (Ends-raise _ h).0)
    told_apart status false k h = inl (λ x. cc (uncertain status x, k))

    not_ok : (status : ℤ) → eq_int status fido_ok ≡ false → status ≢ fido_ok
    not_ok status h e = cc (rw e at h)

    rejected :
        (status : ℤ) (is_ok : Bool) {v v' : W} {e : Error}
        → eq_int status fido_ok ≡ is_ok
        → Ends (accept_made_status lib a true status is_ok) v (fault e) v'
        → (status ≢ fido_ok) × ((IsAmbiguous status → ⊥) ⊎ (e ≡ credential_may_remain))
    unfolding accept_made_status
    rejected status true k h = absurd (cc (Ends-pure _ h).0)
    rejected status false k h = (not_ok status k, told_apart status _ refl h)

    unpending :
        {e : Error} {f : EnrollmentFailure}
        → without_pending e ≡ f
        → (e ≡ f.error) × (f.pending_managed ≡ none)
    unpending k = (
      ap (λ (t : EnrollmentFailure). t.error) k,
      ap (λ (t : EnrollmentFailure). t.pending_managed) (sym k),
    )

    -- The rest of `enroll`, once the credential was reported.
    finish_made :
        {c : Handle} (status : ℤ) {r : Outcome EnrollmentFailure Enrollment} {before v u w' : W}
        → lib.fido_dev_make_cred a.device c pin before ≡ (status, v)
        → Ends (accept_made lib a (is_managed request.storage) status) v (done tt) u
        → Ends (finish_enrollment lib a c request) u r w'
        → Created r w'
    finish_made {c} status {r} {before} {v} {u} {w'} hm ha h =
        let (es, sv) = accepted _ status _ refl ha in
        record {
          credential = c;
          before = before;
          after = v;
          made = hm ∙ ap (λ t. (t, v)) es;
          finished = subst (λ t. Ends (finish_enrollment lib a c request) t r w') (sym sv) h;
        }

    pub Created-done :
        {w w' : W} {e : Enrollment}
        → Ends (enroll lib a request pin) w (done e) w'
        → Created (done e) w'
    unfolding enroll
    Created-done h =
        let (_, _, _, h1) = Ends-bind _ _ h in
        let (status, _, hm, h2) = Ends-bind _ _ h1 in
        let (_, _, ha, h3) = Ends-bind _ _ h2 in
        finish_made status (Ends-call _ hm) (Ends-map_fault_done _ _ ha) h3

    -- How an enrolment whose credential the authenticator would store can fail.
    abbrev pub Outcomes : W → EnrollmentFailure → W → Type 0
    Outcomes w f w' =
        Uncreated w f w' ⊎ (f ≡ without_pending credential_may_remain) ⊎ Created (fault f) w'

    refused_or_unsure :
        {c : Handle} (status : ℤ) {w v v' u : W} {f : EnrollmentFailure}
        → Ends (prepare_credential lib a request) w (done c) v
        → lib.fido_dev_make_cred a.device c pin v ≡ (status, v')
        → (x : Error) × (without_pending x ≡ f)
          × Ends (accept_made lib a true status) v' (fault x) u
        → Outcomes w f u
    refused_or_unsure status hp hm (x, ex, hx) =
        let (bad, why) = rejected status _ refl hx in
        elim why [
          | inl definite ↦ inl (refused status hp hm bad definite (unpending ex).1)
          | inr same ↦ inr (inl (sym ex ∙ ap without_pending same))
        ]

    pub Created-fault :
        is_managed request.storage ≡ true
        → {w w' : W} {f : EnrollmentFailure} → Ends (enroll lib a request pin) w (fault f) w'
        → Outcomes w f w'
    unfolding enroll
    Created-fault stores {w} {w'} {f} h = elim (Ends-bind_fault _ _ h) [
      | inl k ↦
          let (x, ex, hx) = Ends-map_fault _ _ k in
          let (same, nothing) = unpending ex in
          inl (unprepared (record { ends = cc (hx.ends, same) }) nothing)
      | inr k ↦ elim (Ends-bind_fault _ _ k.3) [
        | inl l ↦ absurd (Ends-call_fault _ l)
        | inr l ↦ elim (Ends-bind_fault _ _ l.3) [
          | inl m ↦
              refused_or_unsure l.0 (Ends-map_fault_done _ _ k.2) (Ends-call _ l.2)
                (of_managed l.0 (Ends-map_fault _ _ m))
          | inr m ↦ inr (inr (finish_made l.0 (Ends-call _ l.2) (Ends-map_fault_done _ _ m.2) m.3))
        ]
      ]
    ]
      where
        of_managed :
            (status : ℤ) {v u : W} {f : EnrollmentFailure}
            → (x : Error) × (without_pending x ≡ f)
              × Ends (accept_made lib a (is_managed request.storage) status) v (fault x) u
            → (x : Error) × (without_pending x ≡ f)
              × Ends (accept_made lib a true status) v (fault x) u
        of_managed status {v} {u} (x, ex, hx) =
            (x, ex, subst (λ m. Ends (accept_made lib a m status) v (fault x) u) stores hx)
