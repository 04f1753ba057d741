-- ===== src/Envelope/Canonical.antt =====
-- The codec of crates/fido-key-wrap/src/envelope.rs as a bijection between well-formed envelopes and
-- the accepted inputs.
use fido_key_wrap.Common.{◌≡◌, ◌↔◌, Bytes}
use mathlib.Core.Path.{subst}
use fido_key_wrap.Error.{ok}
use fido_key_wrap.Envelope.{KeyEnvelope}
use fido_key_wrap.Envelope.Wire.{Wire, WireLaws}
use fido_key_wrap.Envelope.Encode.{encode}
use fido_key_wrap.Envelope.Decode.{decode}
use fido_key_wrap.Envelope.WellFormed.{IsWellFormed}
use fido_key_wrap.Envelope.RoundTrip.{decode-encode}
use fido_key_wrap.Envelope.Sound.{decode-IsWellFormed}

module _ (w : Wire) (laws : WireLaws w) where
  -- An input decodes to an envelope exactly when the envelope is well formed and the input is its
  -- encoding.
  pub decode_iff :
      (input : Bytes) (e : KeyEnvelope)
      → (decode w input ≡ ok e) ↔ (IsWellFormed w e × (encode w e ≡ input))
  decode_iff input e = (
    λ h. let (wf, same, _) = decode-IsWellFormed w laws input e h in (wf, same),
    λ h. subst (λ t. decode w t ≡ ok e) h.1 (decode-encode w laws e h.0),
  )
