-- ===== src/Backend/Retired.antt =====
-- The retirement of a managed credential, from crates/fido-key-wrap/src/protector.rs through the native
-- backend to the authenticator.
use fido_key_wrap.Common.{ℕ, ◌≡◌, refl, ap, ◌∙◌, Bytes}
use mathlib.Core.Path.{subst}
use fido_key_wrap.Error.{ok}
use fido_key_wrap.Policy.{FidoStorage, managed, non_discoverable}
use fido_key_wrap.Interaction.{Operation, PassphrasePurpose}
use fido_key_wrap.Envelope.{KeyEnvelope, RecipientRecord, FidoRecipient, fido}
use fido_key_wrap.Envelope.Wire.{Wire}
use fido_key_wrap.Envelope.Find.{find}
use fido_key_wrap.Crypto.Suite.{Suite}
use fido_key_wrap.Effect.{Effect}
use fido_key_wrap.Effect.Runs.{Ends, Ends-bind, Ends-lift}
use fido_key_wrap.Protector.{KeyProtector}
use fido_key_wrap.Protector.Env.{Answer, ManagedRequest}
use fido_key_wrap.Protector.Guards.{require_authenticated}
use fido_key_wrap.Protector.Managed.{
  stored_managed, as_managed, managed_request, retire_managed_recipient,
}
use fido_key_wrap.Native.Inventory.{exact}
use fido_key_wrap.Native.Selection.{Authenticator}
use fido_key_wrap.Native.Authenticator.Absent.{SeenAbsent, retire_managed-SeenAbsent}
use fido_key_wrap.Backend.{NativeBackend, native_managed_credential}
use fido_key_wrap.Backend.Managed.{retire_native_managed, retire_managed}
use fido_key_wrap.Backend.Environment.{environment}
use fido_key_wrap.Backend.Cleanup.{Ends-from_native}

is_stored :
    (r : FidoRecipient) (storage : FidoStorage) {q : FidoRecipient}
    → stored_managed r storage ≡ ok q
    → (r ≡ q) × (storage ≡ managed)
is_stored r managed h = (cc, refl)
is_stored r non_discoverable h = cc

is_managed :
    (record' : RecipientRecord) {r : FidoRecipient}
    → as_managed record' ≡ ok r
    → (record' ≡ fido r) × (r.storage ≡ managed)
is_managed (fido q) h =
    let (same, stored) = is_stored q q.storage h in
    (ap fido same, subst (λ (t : FidoRecipient). t.storage ≡ managed) same stored)
is_managed (RecipientRecord.passphrase _) h = cc
is_managed (RecipientRecord.recovery_secret _) h = cc
is_managed (RecipientRecord.fido_and_passphrase _) h = cc
is_managed (RecipientRecord.fido_and_local_secret _) h = cc

module _ {W : Type 0} (b : NativeBackend W) where
  open b use {library}

  -- The retirement ends well only after an enumeration in which the credential was absent.
  retire_managed-Absent :
      (request : ManagedRequest) {w w' : W}
      → Ends (retire_managed b request) w (ok tt) w'
      → (a : Authenticator) × (pin : Bytes) × SeenAbsent library a
          (exact (native_managed_credential request))
          pin
          w'
  unfolding retire_managed retire_native_managed
  retire_managed-Absent request h =
      let (a, _, _, h1) = Ends-bind _ _ h in
      let (pin, _, _, h2) = Ends-bind _ _ h1 in
      let (_, _, _, h3) = Ends-bind _ _ h2 in
      (
        a,
        pin,
        retire_managed-SeenAbsent library a (native_managed_credential request) pin
            (Ends-from_native _ h3),
      )

  module _ (wire : Wire) (s : Suite) (random_array : ℕ → Effect W Bytes)
      (ask_passphrase : Operation → Bytes → PassphrasePurpose → W → Answer × W) where
    -- When `retire_managed_recipient` over the native backend succeeds, the root authenticates the
    -- envelope, the recipient is a managed one of it, and the last that was asked of an authenticator is
    -- an enumeration of its credentials, in which the credential of that recipient was absent.
    pub retire_managed_recipient-Absent :
        (p : KeyProtector) (e : KeyEnvelope) (root recipient : Bytes) {w w' : W}
        → Ends
            (retire_managed_recipient wire s
              (environment random_array ask_passphrase b)
              p
              e
              root
              recipient)
            w
            (ok tt)
            w'
        → (r : FidoRecipient) × (require_authenticated wire s p e root ≡ ok tt)
          × (find e recipient ≡ ok (fido r))
          × (r.storage ≡ managed)
          × (a : Authenticator) × (pin : Bytes) × SeenAbsent library a
              (exact (
                native_managed_credential (managed_request p r Operation.retire_managed_recipient)))
              pin
              w'
    unfolding retire_managed_recipient environment
    retire_managed_recipient-Absent p e root recipient h =
        let (_, _, ha, h1) = Ends-bind _ _ h in
        let (record', _, hf, h2) = Ends-bind _ _ h1 in
        let (r, _, hr, h3) = Ends-bind _ _ h2 in
        let (a, pin, seen) = retire_managed-Absent _ h3 in
        let (er, stored) = is_managed record' (Ends-lift _ hr).0 in
        (r, (Ends-lift _ ha).0, (Ends-lift _ hf).0 ∙ ap ok er, stored, a, pin, seen)
