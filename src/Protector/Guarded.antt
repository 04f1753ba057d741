-- ===== src/Protector/Guarded.antt =====
-- What the operations of crates/fido-key-wrap/src/protector.rs check before they turn to the user, to
-- a security key or to the random source.
use fido_key_wrap.Common.{◌≡◌, ◌≢◌, true, Bool-cases, inl, inr, ◌==◌, length, Bytes}
use fido_key_wrap.Error.{
  Error, ok, err, >>=-eq-ok, ok_or, reject_if, recipient_not_found, would_remove_last_recipient,
}
use fido_key_wrap.Policy.Parameters.{PassphraseParameters}
use fido_key_wrap.Envelope.{KeyEnvelope}
use fido_key_wrap.Envelope.Wire.{Wire}
use fido_key_wrap.Envelope.Find.{binary_search}
use fido_key_wrap.Crypto.Suite.{Suite}
use fido_key_wrap.Crypto.Mac.{envelope_mac_matches, verify_envelope_mac}
use fido_key_wrap.Effect.Stops.{Stops, Stops-check, Stops-current, Stops-discard}
use fido_key_wrap.Protector.{KeyProtector}
use fido_key_wrap.Protector.Env.{Env}
use fido_key_wrap.Protector.Guards.{require_application, require_authenticated}
use fido_key_wrap.Protector.Recipients.{
  add_recipient, add_recovery_secret, add_fido_and_local_secret, remove_recipient,
  without_recipient,
}
use fido_key_wrap.Protector.Rewrap.{
  rewrap_passphrase, rewrap_passphrase_inner, rewrap_passphrase_with_parameters,
}
use fido_key_wrap.Protector.Changes.{
  Change, add, add_secret, add_local_secret, drop_recipient, rewrap, rewrap_with, run,
}
use fido_key_wrap.Protector.Managed.{verify_managed_recipient, retire_managed_recipient}

module _ (w : Wire) (s : Suite) (e : KeyEnvelope) (root : Bytes)
    (bad : envelope_mac_matches w s e root ≢ ok true) where
  unverified : verify_envelope_mac w s e root ≢ ok tt
  unfolding verify_envelope_mac
  unverified h =
      let (m, matched, h1) = >>=-eq-ok (envelope_mac_matches w s e root) _ h in
      elim (Bool-cases m) [ inl holds ↦ absurd (bad (cc)) | inr fails ↦ cc (rw fails at h1) ]

  unauthenticated : (p : KeyProtector) → require_authenticated w s p e root ≢ ok tt
  unfolding require_authenticated
  unauthenticated p h = let (_, _, h1) = >>=-eq-ok (require_application p e) _ h in unverified h1

  not_removed :
      (p : KeyProtector) (recipient : Bytes) (staged : KeyEnvelope)
      → without_recipient w s p e root recipient ≢ ok staged
  unfolding without_recipient
  not_removed p recipient staged h =
      let (_, _, h1) = >>=-eq-ok (require_application p e) _ h in
      let (index, _, h2) =
        >>=-eq-ok (ok_or recipient_not_found (binary_search e.recipients recipient)) _ h1 in
      let (_, _, h3) =
        >>=-eq-ok (reject_if (length e.recipients == 1) would_remove_last_recipient) _ h2 in
      let (_, v, _) = >>=-eq-ok (verify_envelope_mac w s e root) _ h3 in unverified v

  module _ {World Session : Type 0} (env : Env World Session) (p : KeyProtector)
      (world : World) where
    rewrap-Stops :
        (recipient : Bytes) (q : PassphraseParameters)
        → Stops (rewrap_passphrase_inner w s env p root recipient q) (e, world)
    unfolding rewrap_passphrase_inner
    rewrap-Stops recipient q = Stops-current _ e world (
        Stops-check _ _ _ λ _ _.
          Stops-check _ _ _
            λ old _. Stops-check _ _ _ λ _ _. Stops-check _ _ _ λ _ h. absurd (unverified h))

    run-Stops : (c : Change) → Stops (run w s env p root c) (e, world)
    unfolding add_recipient add_recovery_secret add_fido_and_local_secret remove_recipient
        rewrap_passphrase rewrap_passphrase_with_parameters
    run-Stops (add en) =
        Stops-discard _ _
          (Stops-current _ e world (Stops-check _ _ _ λ _ h. absurd (unauthenticated p h)))
    run-Stops (add_secret label) =
        Stops-discard _ _
          (Stops-current _ e world (Stops-check _ _ _ λ _ h. absurd (unauthenticated p h)))
    run-Stops (add_local_secret label) =
        Stops-discard _ _
          (Stops-current _ e world (Stops-check _ _ _ λ _ h. absurd (unauthenticated p h)))
    run-Stops (drop_recipient recipient) = Stops-discard _ _ (
        Stops-current _ e world
          (Stops-check _ _ _ λ staged h. absurd (not_removed p recipient staged h)))
    run-Stops (rewrap recipient) = Stops-discard _ _ (
        Stops-current _ e world (
          Stops-check _ _ _
            λ _ _. Stops-check _ _ _ λ old _. Stops-check _ _ _ λ q _. rewrap-Stops recipient q))
    run-Stops (rewrap_with recipient q) = Stops-discard _ _ (rewrap-Stops recipient q)

module _ (w : Wire) (s : Suite) {World Session : Type 0} (env : Env World Session) where
  -- An envelope that the root does not authenticate is not changed: whatever change is asked for, it
  -- ends in an error with the envelope and the world as they were, before any prompt, any call of a
  -- security key and any random value.
  pub run-unauthenticated :
      (p : KeyProtector) (root : Bytes) (c : Change) (e : KeyEnvelope) (world : World)
      → envelope_mac_matches w s e root ≢ ok true
      → (x : Error) × (run w s env p root c (e, world) ≡ (err x, (e, world)))
  run-unauthenticated p root c e world bad = run-Stops w s e root bad env p world c

  -- When the root does not authenticate the envelope, both operations on managed credentials end in an
  -- error and leave the world as it was.
  pub managed-unauthenticated :
      (p : KeyProtector) (e : KeyEnvelope) (root recipient : Bytes) (world : World)
      → envelope_mac_matches w s e root ≢ ok true
      → ((x : Error) × (verify_managed_recipient w s env p e root recipient world ≡ (err x, world)))
        × ((x : Error) × (retire_managed_recipient w s env p e root recipient world
              ≡ (err x, world)))
  unfolding verify_managed_recipient retire_managed_recipient
  managed-unauthenticated p e root recipient world bad = (
    Stops-check _ _ world λ _ h. absurd (unauthenticated w s e root bad p h),
    Stops-check _ _ world λ _ h. absurd (unauthenticated w s e root bad p h),
  )
