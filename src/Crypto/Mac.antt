-- ===== src/Crypto/Mac.antt =====
-- crates/fido-key-wrap/src/crypto.rs: the mac of the whole envelope under a key of the root.
pub mod Total
use fido_key_wrap.Common.{
  ◌≡◌, ◌↔◌, Bool, true, false, [], ◌∷◌, Bytes, IsArray, eq_bytes, if◌then◌else◌,
}
use fido_key_wrap.Common.Text.{ascii_bytes}
use fido_key_wrap.Error.{
  Result, ok, err, ok_or, ◌>>=◌, invalid_envelope, envelope_authentication_failed,
}
use fido_key_wrap.Transcript
use fido_key_wrap.Envelope.{KeyEnvelope}
use fido_key_wrap.Envelope.Wire.{Wire}
use fido_key_wrap.Envelope.Encode.{canonical_body}
use fido_key_wrap.Crypto.Suite.{Suite}
use fido_key_wrap.Crypto.Context.{format}
use fido_key_wrap.Crypto.Keys.{derive_key}

unfoldable pub envelope_mac_key_domain : Bytes
unfolding ascii_bytes
envelope_mac_key_domain = ascii_bytes "fido_key_wrap/format_1/envelope_mac_key"

unfoldable pub envelope_mac_domain : Bytes
unfolding ascii_bytes
envelope_mac_domain = ascii_bytes "fido_key_wrap/format_1/envelope_mac"

module _ (w : Wire) (s : Suite) where
  unfoldable pub compute_envelope_mac : KeyEnvelope → Bytes → Result Bytes
  compute_envelope_mac e root = do
    key_info ← Transcript.encode (envelope_mac_key_domain ∷ format ∷ e.application_id ∷ [])
    key ← derive_key s root e.envelope_id key_info
    body ← canonical_body w e
    message ← Transcript.encode (envelope_mac_domain ∷ format ∷ body ∷ [])
    ok_or invalid_envelope (s.hmac key message)

  unfoldable pub envelope_mac_matches : KeyEnvelope → Bytes → Result Bool
  envelope_mac_matches e root = do
    expected ← compute_envelope_mac e root
    ok (eq_bytes expected e.mac)

  unfoldable pub verify_envelope_mac : KeyEnvelope → Bytes → Result (Unit {0})
  verify_envelope_mac e root = do
    matches ← envelope_mac_matches e root
    if matches then ok tt else err envelope_authentication_failed
