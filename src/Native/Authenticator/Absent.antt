-- ===== src/Native/Authenticator/Absent.antt =====
-- When the removal of a credential from an authenticator ends well.
use fido_key_wrap.Common.{◌≡◌, refl, ap, ◌⊎◌, inl, inr, Bytes, Option, none, some, arith}
use fido_key_wrap.Native.Errors.{Error, Outcome, fault, done}
use fido_key_wrap.Native.Action.{Action}
use fido_key_wrap.Native.Action.Runs.{Ends, Ends-bind, Ends-lift, Ends-attempt, Ends-pure}
use fido_key_wrap.Native.Library.{Library}
use fido_key_wrap.Native.Request.{ManagedCredential, PendingManagedCredential}
use fido_key_wrap.Native.Inventory.{
  ManagedPresence, present, absent, InventoryExpectation, exact, pending,
}
use fido_key_wrap.Native.Selection.{Authenticator}
use fido_key_wrap.Native.Authenticator.{retirement_outcome, if_present}
use fido_key_wrap.Native.Authenticator.Managed.{
  managed_presence, delete_managed, retire_managed, prepare_managed_cleanup, finish_cleanup,
}

retired_absent :
    (deleted : Outcome Error (Unit {0})) (seen : Outcome Error ManagedPresence)
    → retirement_outcome deleted seen ≡ done tt
    → seen ≡ done absent
unfolding retirement_outcome
retired_absent (done _) (done present) h = cc
retired_absent (done _) (done absent) h = refl
retired_absent (fault e) (done absent) h = refl
retired_absent (fault e) (done present) h = ground arith
retired_absent (fault e) (fault x) h = ground arith
retired_absent (done _) (fault x) h = ground arith

presence_cases :
    (c : PendingManagedCredential) (p : ManagedPresence)
    → ((p ≡ absent) × (if_present c p ≡ none)) ⊎ (if_present c p ≡ some c)
presence_cases c present = inr refl
presence_cases c absent = inl (refl, refl)

module _ {W E A : Type 0} where
  pub moved :
      {m : Action W E A} {w v v' : W} {r r' : Outcome E A}
      → Ends m w r v
      → r ≡ r'
      → v ≡ v'
      → Ends m w r' v'
  moved h e same = record { ends = cc (h.ends, e, same) }

module _ {W : Type 0} (lib : Library W) (a : Authenticator) where
  -- The world is what an enumeration of the stored credentials left, in which the expected one was
  -- absent.
  abbrev pub SeenAbsent : InventoryExpectation → Bytes → W → Type 0
  SeenAbsent expected pin w' =
      (v : W) × Ends (managed_presence lib a expected pin) v (done absent) w'

  delete_managed-SeenAbsent :
      (id : Bytes) (expected : InventoryExpectation) (pin : Bytes) {w w' : W}
      → Ends (delete_managed lib a id expected pin) w (done tt) w'
      → SeenAbsent expected pin w'
  unfolding delete_managed
  delete_managed-SeenAbsent id expected pin h =
      let (status, _, _, h1) = Ends-bind _ _ h in
      let (deleted, _, _, h2) = Ends-bind _ _ h1 in
      let (seen, v, hs, h3) = Ends-bind _ _ h2 in
      let (e, same) = Ends-lift (retirement_outcome deleted seen) h3 in
      (_, moved (Ends-attempt _ hs) (retired_absent deleted seen e) same)

  -- A retirement ends well only after an enumeration without the credential.
  pub retire_managed-SeenAbsent :
      (credential : ManagedCredential) (pin : Bytes) {w w' : W}
      → Ends (retire_managed lib a credential pin) w (done tt) w'
      → SeenAbsent (exact credential) pin w'
  unfolding retire_managed
  retire_managed-SeenAbsent credential pin h =
      let (_, _, _, k) = Ends-bind _ _ h in
      delete_managed-SeenAbsent credential.credential_id (exact credential) pin k

  pub finish_cleanup-SeenAbsent :
      (credential : PendingManagedCredential) (pin : Bytes) {w w' : W}
      → Ends (finish_cleanup lib a credential pin) w (done tt) w'
      → SeenAbsent (pending credential) pin w'
  unfolding finish_cleanup
  finish_cleanup-SeenAbsent credential pin h =
      let (_, _, _, k) = Ends-bind _ _ h in
      delete_managed-SeenAbsent credential.credential_id (pending credential) pin k

  -- Either there is nothing to clean up, or the same credential is.
  pub prepare_managed_cleanup-SeenAbsent :
      (credential : PendingManagedCredential) (pin : Bytes) (o : Option PendingManagedCredential)
      {w w' : W}
      → Ends (prepare_managed_cleanup lib a credential pin) w (done o) w'
      → ((o ≡ none) × SeenAbsent (pending credential) pin w') ⊎ (o ≡ some credential)
  unfolding prepare_managed_cleanup
  prepare_managed_cleanup-SeenAbsent credential pin o h =
      let (_, _, _, h1) = Ends-bind _ _ h in
      let (_, _, _, h2) = Ends-bind _ _ h1 in
      let (p, v, hp, h3) = Ends-bind _ _ h2 in
      let (e, same) = Ends-pure (if_present credential p) h3 in
      elim (presence_cases credential p) [
        | inl x ↦ inl (cc (e, x.1), (_, moved hp (ap done x.0) same))
        | inr x ↦ inr (cc (e, x))
      ]
