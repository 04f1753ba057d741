-- ===== src/Protector/Staging.antt =====
-- What the staging of crates/fido-key-wrap/src/protector.rs promises of the envelope that takes the
-- place of the old one.
use fido_key_wrap.Common.{
  ◌≡◌, Bool, true, false, Bytes, eq_bytes, eq_bytes→eq, Bool-cases, inl, inr, ap, not, ◌∙◌,
}
use mathlib.Core.Path.{subst}
use fido_key_wrap.Error.{ok, ◌>>◌, >>=-eq-ok, reject_if, unlock_failed}
use fido_key_wrap.Envelope.{RecipientRecord, KeyEnvelope}
use fido_key_wrap.Envelope.Wire.{Wire, WireLaws}
use fido_key_wrap.Envelope.Encode.{encode}
use fido_key_wrap.Envelope.Decode.{decode}
use fido_key_wrap.Envelope.Find.{find}
use fido_key_wrap.Envelope.WellFormed.{IsWellFormed}
use fido_key_wrap.Envelope.Sound.{decode-IsWellFormed}
use fido_key_wrap.Crypto.Suite.{Suite}
use fido_key_wrap.Crypto.Mac.{compute_envelope_mac, envelope_mac_matches}
use fido_key_wrap.Protector.Stage.{canonicalize, route_matches, check_route, stage_existing_record}
use fido_key_wrap.Protector.Stage.Keys.{RecoveryKeys, recover_with_keys}

-- An envelope is well formed, the root authenticates it, and the keys open the recipient's route to
-- that root.
pub record IsVerified (w : Wire) (s : Suite) (e : KeyEnvelope) (recipient root : Bytes)
    (keys : RecoveryKeys) : Type 0 where
  pub well_formed : IsWellFormed w e
  pub authentic : envelope_mac_matches w s e root ≡ ok true
  pub route :
      (r : RecipientRecord) × (find e recipient ≡ ok r)
      × (recover_with_keys s r e.application_id e.envelope_id keys ≡ ok root)

module _ (w : Wire) (laws : WireLaws w) (s : Suite) where
  matches_sound :
      (e : KeyEnvelope) (root recovered : Bytes)
      → route_matches w s e root recovered ≡ ok true
      → (root ≡ recovered) × (envelope_mac_matches w s e recovered ≡ ok true)
  unfolding route_matches
  matches_sound e root recovered h = elim (Bool-cases (eq_bytes root recovered)) [
    | inl same ↦ (eq_bytes→eq root recovered same, rw same at h)
    | inr other ↦ cc (rw other at h)
  ]

  accepted :
      (e staged : KeyEnvelope) (m : Bool)
      → ((reject_if (not m) unlock_failed >> ok e) ≡ ok staged)
      → (m ≡ true) × (e ≡ staged)
  accepted e staged true h = (cc, cc)
  accepted e staged false h = cc

  route_sound :
      (e staged : KeyEnvelope) (recipient root : Bytes) (keys : RecoveryKeys)
      → IsWellFormed w e
      → check_route w s e recipient root keys ≡ ok staged
      → IsVerified w s staged recipient root keys
  unfolding check_route
  route_sound e staged recipient root keys wf h =
      let (r, found, h1) = >>=-eq-ok (find e recipient) _ h in
      let (recovered, opened, h2) =
        >>=-eq-ok (recover_with_keys s r e.application_id e.envelope_id keys) _ h1 in
      let (m, matched, h3) = >>=-eq-ok (route_matches w s e root recovered) _ h2 in
      let (is_true, same) = accepted e staged m h3 in
      let (is_root, authentic) = matches_sound e root recovered (matched ∙ ap ok is_true) in
      subst (λ t. IsVerified w s t recipient root keys) same
        (record {
          well_formed = wf;
          authentic = cc (is_root, authentic);
          route = (r, found, cc (is_root, opened));
        })

  route-returns :
      (e staged : KeyEnvelope) (recipient root : Bytes) (keys : RecoveryKeys)
      → check_route w s e recipient root keys ≡ ok staged
      → e ≡ staged
  unfolding check_route
  route-returns e staged recipient root keys h =
      let (r, found, h1) = >>=-eq-ok (find e recipient) _ h in
      let (recovered, opened, h2) =
        >>=-eq-ok (recover_with_keys s r e.application_id e.envelope_id keys) _ h1 in
      let (m, matched, h3) = >>=-eq-ok (route_matches w s e root recovered) _ h2 in
      (accepted e staged m h3).1

  -- When the staging of an envelope succeeds, the staged envelope is well formed, the root
  -- authenticates it, its recipient is found and opens to the root with the given keys; its encoding
  -- is that of the envelope that was to be staged with a mac computed under the root.
  pub stage_existing_record-IsVerified :
      (e staged : KeyEnvelope) (recipient root : Bytes) (keys : RecoveryKeys)
      → stage_existing_record w s e recipient root keys ≡ ok staged
      → IsVerified w s staged recipient root keys
        × ((mac : Bytes) × (compute_envelope_mac w s e root ≡ ok mac)
            × (encode w staged ≡ encode w (record e { mac = mac })))
  unfolding stage_existing_record canonicalize
  stage_existing_record-IsVerified e staged recipient root keys h =
      let (mac, computed, h1) = >>=-eq-ok (compute_envelope_mac w s e root) _ h in
      let (canonical, decoded, h2) =
        >>=-eq-ok (decode w (encode w (record e { mac = mac }))) _ h1 in
      let (wf, same, _) = decode-IsWellFormed w laws _ canonical decoded in
      let is_staged = route-returns canonical staged recipient root keys h2 in
      (
        route_sound canonical staged recipient root keys wf h2,
        (mac, computed, cc (same, is_staged)),
      )
