-- ===== src/Protector/Unlocking.antt =====
-- What the unlock operations of crates/fido-key-wrap/src/protector.rs promise of a root they return,
-- and what they check before they turn to the user or to a security key.
use fido_key_wrap.Common.{◌≡◌, true, Bytes, Bool-cases, inl, inr, eq_bytes, eq_bytes→eq, some}
use fido_key_wrap.Error.{ok, >>=-eq-ok}
use fido_key_wrap.Envelope.{RecipientRecord, KeyEnvelope, passphrase_parameters}
use fido_key_wrap.Policy.Parameters.{accepts}
use fido_key_wrap.Envelope.Wire.{Wire}
use fido_key_wrap.Envelope.Find.{find}
use fido_key_wrap.Crypto.Suite.{Suite}
use fido_key_wrap.Crypto.Mac.{envelope_mac_matches}
use fido_key_wrap.Effect.Post.{Gives, Gives-check, Gives-skip, Gives-lift}
use fido_key_wrap.Protector.{KeyProtector}
use fido_key_wrap.Protector.Env.{Env}
use fido_key_wrap.Protector.Guards.{
  require_application, admit_record, admit_parameters, accept_root,
}
use fido_key_wrap.Protector.Unlock.{unlock}

-- A root that may be returned: the envelope is the application's, the recipient exists and its
-- passphrase work is within the limits, and the root authenticates the whole envelope.
pub record IsRecovered (w : Wire) (s : Suite) (p : KeyProtector) (e : KeyEnvelope)
    (recipient root : Bytes) : Type 0 where
  pub application : e.application_id ≡ p.application_id
  pub record_found :
      (r : RecipientRecord) × (find e recipient ≡ ok r)
      × ((q : _) → passphrase_parameters r ≡ some q → accepts p.passphrase_limits q ≡ true)
  pub authentic : envelope_mac_matches w s e root ≡ ok true

same_application :
    (p : KeyProtector) (e : KeyEnvelope)
    → require_application p e ≡ ok tt
    → e.application_id ≡ p.application_id
unfolding require_application
same_application p e h = elim (Bool-cases (eq_bytes e.application_id p.application_id)) [
  | inl same ↦ eq_bytes→eq _ _ same
  | inr other ↦ cc (rw other at h)
]

within_limits :
    (p : KeyProtector) (r : RecipientRecord) (q : _)
    → admit_record p r ≡ ok tt
    → passphrase_parameters r ≡ some q
    → accepts p.passphrase_limits q ≡ true
unfolding admit_record admit_parameters
within_limits p r q h e = elim (Bool-cases (accepts p.passphrase_limits q)) [
  | inl holds ↦ holds
  | inr fails ↦ cc (rw (e, fails) at h)
]

module _ (w : Wire) (s : Suite) where
  accepted_root :
      (e : KeyEnvelope) (root root' : Bytes)
      → accept_root w s e root ≡ ok root'
      → envelope_mac_matches w s e root' ≡ ok true
  unfolding accept_root
  accepted_root e root root' h =
      let (m, matched, h1) = >>=-eq-ok (envelope_mac_matches w s e root) _ h in
      elim (Bool-cases m) [
        | inl holds ↦ cc (matched, rw holds at h1)
        | inr fails ↦ cc (rw fails at h1)
      ]

  module _ {World Session : Type 0} (env : Env World Session) where
    unlock-Gives :
        (p : KeyProtector) (e : KeyEnvelope) (recipient : Bytes)
        → Gives (IsRecovered w s p e recipient) (unlock w s env p e recipient)
    unfolding unlock
    unlock-Gives p e recipient = Gives-check _ _ λ _ app. Gives-check _ _ λ r found.
        Gives-check _ _ λ _ admitted. Gives-skip _ _ λ root. Gives-lift _ λ root' accepted. record {
          application = same_application p e app;
          record_found = (r, found, λ q. within_limits p r q admitted);
          authentic = accepted_root e root root' accepted;
        }

    -- A root that `unlock` returns authenticates the whole envelope, which is an envelope of the
    -- protector's application, has the selected recipient, and asks for no more passphrase work than
    -- the protector's limits accept.
    pub unlock-IsRecovered :
        (p : KeyProtector) (e : KeyEnvelope) (recipient root : Bytes) (world : World)
        → (unlock w s env p e recipient world).0 ≡ ok root
        → IsRecovered w s p e recipient root
    unlock-IsRecovered p e recipient root world h = (unlock-Gives p e recipient).result world root h
