-- ===== src/Protector/Changes.antt =====
-- The changes of an envelope that crates/fido-key-wrap/src/protector.rs offers, as one menu, and the
-- envelopes that can be reached with them.
use fido_key_wrap.Common.{◌≡◌, sym, true, Bytes, length, ◌==◌, Bool-cases, inl, inr}
use mathlib.Core.Path.{subst}
use fido_key_wrap.Error.{
  Error, Result-cases, ok, err, >>=-eq-ok, ok_or, reject_if, recipient_not_found,
  would_remove_last_recipient,
}
use fido_key_wrap.Policy.Parameters.{PassphraseParameters}
use fido_key_wrap.Policy.Enrollment.{Enrollment}
use fido_key_wrap.Envelope.{KeyEnvelope}
use fido_key_wrap.Envelope.Wire.{Wire, WireLaws}
use fido_key_wrap.Envelope.Encode.{encode}
use fido_key_wrap.Envelope.Decode.{decode}
use fido_key_wrap.Envelope.Find.{binary_search}
use fido_key_wrap.Envelope.WellFormed.{IsWellFormed}
use fido_key_wrap.Envelope.Sound.{decode-IsWellFormed}
use fido_key_wrap.Crypto.Suite.{Suite}
use fido_key_wrap.Crypto.Mac.{compute_envelope_mac, envelope_mac_matches, verify_envelope_mac}
use fido_key_wrap.Effect.{Effect}
use fido_key_wrap.Effect.Frame.{IsAtomic, IsAtomic-discard, discard}
use fido_key_wrap.Effect.Post.{
  Ensures, Ensures-current, Ensures-check, Ensures-store, Ensures-discard,
}
use fido_key_wrap.Protector.{KeyProtector}
use fido_key_wrap.Protector.Env.{Env}
use fido_key_wrap.Protector.Guards.{require_application}
use fido_key_wrap.Protector.Stage.{canonicalize}
use fido_key_wrap.Protector.Recipients.{
  add_recipient, add_recovery_secret, add_fido_and_local_secret, remove_recipient,
  without_recipient, remove,
}
use fido_key_wrap.Protector.Rewrap.{rewrap_passphrase, rewrap_passphrase_with_parameters}
use fido_key_wrap.Protector.Atomic.{
  add_recipient-IsAtomic, add_recovery_secret-IsAtomic, add_fido_and_local_secret-IsAtomic,
  remove_recipient-IsAtomic, rewrap_passphrase-IsAtomic, rewrap_passphrase_inner-IsAtomic,
}
use fido_key_wrap.Protector.Adding.{
  HasRoute, add_recipient-Ensures, add_recovery_secret-Ensures, add_fido_and_local_secret-Ensures,
  rewrap_passphrase-Ensures, rewrap_passphrase_inner-Ensures,
}

pub data Change : Type 0 where
  add : Enrollment → Change
  add_secret add_local_secret drop_recipient rewrap : Bytes → Change
  rewrap_with : Bytes → PassphraseParameters → Change

-- An envelope is well formed and the root authenticates it.
pub record IsSealed (w : Wire) (s : Suite) (root : Bytes) (e : KeyEnvelope) : Type 0 where
  pub well_formed : IsWellFormed w e
  pub authentic : envelope_mac_matches w s e root ≡ ok true

module _ (w : Wire) (s : Suite) {World Session : Type 0} (env : Env World Session) where
  abbrev pub run : KeyProtector → Bytes → Change → Effect (KeyEnvelope × World) (Unit {0})
  run p root (add en) = discard (add_recipient w s env p root en)
  run p root (add_secret label) = discard (add_recovery_secret w s env p root label)
  run p root (add_local_secret label) = discard (add_fido_and_local_secret w s env p root label)
  run p root (drop_recipient recipient) = discard (remove_recipient w s p root recipient)
  run p root (rewrap recipient) = discard (rewrap_passphrase w s env p root recipient)
  run p root (rewrap_with recipient q) =
      discard (rewrap_passphrase_with_parameters w s env p root recipient q)

  run-IsAtomic : (p : KeyProtector) (root : Bytes) (c : Change) → IsAtomic (run p root c)
  unfolding rewrap_passphrase_with_parameters
  run-IsAtomic p root (add en) = IsAtomic-discard _ (add_recipient-IsAtomic w s env p root en)
  run-IsAtomic p root (add_secret label) =
      IsAtomic-discard _ (add_recovery_secret-IsAtomic w s env p root label)
  run-IsAtomic p root (add_local_secret label) =
      IsAtomic-discard _ (add_fido_and_local_secret-IsAtomic w s env p root label)
  run-IsAtomic p root (drop_recipient recipient) =
      IsAtomic-discard _ (remove_recipient-IsAtomic w s p root recipient)
  run-IsAtomic p root (rewrap recipient) =
      IsAtomic-discard _ (rewrap_passphrase-IsAtomic w s env p root recipient)
  run-IsAtomic p root (rewrap_with recipient q) =
      IsAtomic-discard _ (rewrap_passphrase_inner-IsAtomic w s env p root recipient q)

  -- A change of an envelope that ends in an error, at whatever point, leaves the envelope as it was.
  pub run-atomic :
      (p : KeyProtector) (root : Bytes) (c : Change) (e : KeyEnvelope) (world : World) (x : Error)
      → (run p root c (e, world)).0 ≡ err x
      → (run p root c (e, world)).1.0 ≡ e
  run-atomic p root c e world x h = (run-IsAtomic p root c).on_error e world x h

module _ (w : Wire) (laws : WireLaws w) (s : Suite) where
  verified :
      (e : KeyEnvelope) (root : Bytes)
      → verify_envelope_mac w s e root ≡ ok tt
      → envelope_mac_matches w s e root ≡ ok true
  unfolding verify_envelope_mac
  verified e root h =
      let (m, matched, h1) = >>=-eq-ok (envelope_mac_matches w s e root) _ h in
      elim (Bool-cases m) [ inl holds ↦ cc | inr fails ↦ cc (rw fails at h1) ]

  removed-IsSealed :
      (p : KeyProtector) (e staged : KeyEnvelope) (root recipient : Bytes)
      → without_recipient w s p e root recipient ≡ ok staged
      → IsSealed w s root staged
  unfolding without_recipient canonicalize
  removed-IsSealed p e staged root recipient h =
      let (_, _, h1) = >>=-eq-ok (require_application p e) _ h in
      let (index, _, h2) =
        >>=-eq-ok (ok_or recipient_not_found (binary_search e.recipients recipient)) _ h1 in
      let (_, _, h3) =
        >>=-eq-ok (reject_if (length e.recipients == 1) would_remove_last_recipient) _ h2 in
      let (_, _, h4) = >>=-eq-ok (verify_envelope_mac w s e root) _ h3 in
      let (mac, _, h5) =
        >>=-eq-ok
          (compute_envelope_mac w s (record e { recipients = remove e.recipients index }) root) _
          h4 in
      let (canonical, decoded, h6) =
        >>=-eq-ok
          (decode w (encode w (record e { recipients = remove e.recipients index; mac = mac }))) _
          h5 in
      let (_, matched, h7) = >>=-eq-ok (verify_envelope_mac w s canonical root) _ h6 in
      subst (IsSealed w s root) (cc (h7)) (record {
        well_formed = (decode-IsWellFormed w laws _ canonical decoded).0;
        authentic = verified canonical root matched;
      })

  pub HasRoute-IsSealed :
      (root recipient : Bytes) (e : KeyEnvelope)
      → HasRoute w s e recipient root
      → IsSealed w s root e
  HasRoute-IsSealed root recipient e (keys, h) = record {
    well_formed = h.well_formed;
    authentic = h.authentic;
  }

  module _ {World Session : Type 0} (env : Env World Session) where
    remove-Ensures :
        (p : KeyProtector) (root recipient : Bytes)
        → Ensures {W = World} (λ _ _ u. IsSealed w s root u) (remove_recipient w s p root recipient)
    unfolding remove_recipient
    remove-Ensures p root recipient = Ensures-current _ λ e.
        Ensures-check _ _
          λ staged h. Ensures-store staged tt (λ t _. removed-IsSealed p e staged root recipient h)

    pub run-Ensures :
        (p : KeyProtector) (root : Bytes) (c : Change)
        → Ensures (λ _ _ u. IsSealed w s root u) (run w s env p root c)
    unfolding rewrap_passphrase_with_parameters
    run-Ensures p root (add en) =
        Ensures-discard _ (add_recipient-Ensures w laws s env p root en)
          (λ t i u h. HasRoute-IsSealed root i u h.1)
    run-Ensures p root (add_secret label) =
        Ensures-discard _ (add_recovery_secret-Ensures w laws s env p root label)
          (λ t i u h. HasRoute-IsSealed root i.0 u h.1)
    run-Ensures p root (add_local_secret label) =
        Ensures-discard _ (add_fido_and_local_secret-Ensures w laws s env p root label)
          (λ t i u h. HasRoute-IsSealed root i.0 u h.1)
    run-Ensures p root (drop_recipient recipient) =
        Ensures-discard _ (remove-Ensures p root recipient) (λ t i u h. h)
    run-Ensures p root (rewrap recipient) =
        Ensures-discard _ (rewrap_passphrase-Ensures w laws s env p root recipient)
          (λ t i u h. HasRoute-IsSealed root recipient u h)
    run-Ensures p root (rewrap_with recipient q) =
        Ensures-discard _ (rewrap_passphrase_inner-Ensures w laws s env p root recipient q)
          (λ t i u h. HasRoute-IsSealed root recipient u h)

    -- An envelope that is well formed and that the root authenticates is so again after a change,
    -- whether the change succeeds or fails.
    pub run-IsSealed :
        (p : KeyProtector) (root : Bytes) (c : Change) (e : KeyEnvelope) (world : World)
        → IsSealed w s root e
        → IsSealed w s root (run w s env p root c (e, world)).1.0
    run-IsSealed p root c e world h = elim (Result-cases (run w s env p root c (e, world)).0) [
      | inl (tt, k) ↦ (run-Ensures p root c).on_success e world tt k
      | inr (x, k) ↦ subst (IsSealed w s root) (sym (run-atomic w s env p root c e world x k)) h
    ]
