-- ===== src/Crypto/Mac/Total.antt =====
-- The mac of crates/fido-key-wrap/src/crypto.rs never fails on a well-formed envelope.
use fido_key_wrap.Common.{◌≡◌, refl, [], ◌∷◌, Bytes, IsArray, arith}
use fido_key_wrap.Common.Text.{ascii_bytes}
use fido_key_wrap.Error.{ok}
use fido_key_wrap.Transcript.{Fits, encode-total}
use fido_key_wrap.Envelope.{KeyEnvelope}
use fido_key_wrap.Envelope.Wire.{Wire, WireLaws}
use fido_key_wrap.Envelope.Encode.{encode_body, canonical_body}
use fido_key_wrap.Envelope.WellFormed.{IsWellFormed}
use fido_key_wrap.Envelope.Size.{length-encode_body}
use fido_key_wrap.Crypto.Suite.{Suite, SuiteLaws}
use fido_key_wrap.Crypto.Context.{format}
use fido_key_wrap.Crypto.Keys.{derive_key}
use fido_key_wrap.Crypto.Mac.{envelope_mac_key_domain, envelope_mac_domain, compute_envelope_mac}

Fits-key_domain : Fits envelope_mac_key_domain
unfolding envelope_mac_key_domain ascii_bytes
Fits-key_domain = omega arith

Fits-domain : Fits envelope_mac_domain
unfolding envelope_mac_domain ascii_bytes
Fits-domain = omega arith

module _ (w : Wire) (laws : WireLaws w) (s : Suite) (suite_laws : SuiteLaws s) where
  -- The mac of a well-formed envelope is computed without an error under any root, and has 32 bytes.
  pub compute_envelope_mac-total :
      (e : KeyEnvelope) (root : Bytes)
      → IsWellFormed w e
      → (mac : Bytes) × (compute_envelope_mac w s e root ≡ ok mac) × IsArray 32 mac
  unfolding compute_envelope_mac derive_key canonical_body
  compute_envelope_mac-total e root h =
      let (info, e1) =
        encode-total (envelope_mac_key_domain ∷ format ∷ e.application_id ∷ []) (omega arith)
          (Fits-key_domain, (omega arith, (omega (arith, h.application_id.bounded), tt))) in
      let (key, e2) = suite_laws.hkdf_total e.envelope_id root info in
      let (message, e3) =
        encode-total (envelope_mac_domain ∷ format ∷ encode_body w e ∷ []) (omega arith)
          (Fits-domain, (omega arith, (omega (arith, length-encode_body w laws e h), tt))) in
      let (mac, e4) = suite_laws.hmac_total key message in
      (mac, rw (e1, e2, e3, e4) refl, suite_laws.hmac_array key message mac e4)
