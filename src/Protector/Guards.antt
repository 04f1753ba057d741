-- ===== src/Protector/Guards.antt =====
-- crates/fido-key-wrap/src/protector.rs: the checks that stand before an operation.
use fido_key_wrap.Common.{
  ◌≡◌, ◌≢◌, refl, eq_bytes_refl, ne→eq_bytes_false, Bool, false, ◌||◌, ◌==◌, ltb, Option, none,
  some, Bytes, length, any, eq_bytes, if◌then◌else◌,
}
use fido_key_wrap.Error.{
  Result, ok, err, ok_or, reject_if, ◌>>=◌, ◌>>◌, application_mismatch, passphrase_limit_exceeded,
  authenticator_response_invalid, invalid_label, unlock_failed,
}
use fido_key_wrap.Policy.Parameters.{PassphraseParameters, accepts}
use fido_key_wrap.Policy.Label.{validate_label}
use fido_key_wrap.Policy.Enrollment.{Enrollment}
use fido_key_wrap.Envelope.{
  RecipientRecord, KeyEnvelope, passphrase_parameters, credential_id, max_credential_id,
}
use fido_key_wrap.Envelope.Wire.{Wire}
use fido_key_wrap.Crypto.Suite.{Suite}
use fido_key_wrap.Crypto.Mac.{envelope_mac_matches, verify_envelope_mac}
use fido_key_wrap.Protector.{KeyProtector}

unfoldable pub require_application : KeyProtector → KeyEnvelope → Result (Unit {0})
require_application p e =
    if eq_bytes e.application_id p.application_id then ok tt else err application_mismatch

pub admits :
    (p : KeyProtector) (e : KeyEnvelope)
    → e.application_id ≡ p.application_id
    → require_application p e ≡ ok tt
unfolding require_application
admits p e same = rw (same, eq_bytes_refl p.application_id) refl

pub mismatches :
    (p : KeyProtector) (e : KeyEnvelope)
    → e.application_id ≢ p.application_id
    → require_application p e ≡ err application_mismatch
unfolding require_application
mismatches p e other = rw (ne→eq_bytes_false _ _ other) refl

unfoldable pub admit_parameters : KeyProtector → PassphraseParameters → Result (Unit {0})
admit_parameters p parameters =
    if accepts p.passphrase_limits parameters then ok tt else err passphrase_limit_exceeded

abbrev pub admit_optional : KeyProtector → Option PassphraseParameters → Result (Unit {0})
admit_optional p none = ok tt
admit_optional p (some parameters) = admit_parameters p parameters

unfoldable pub admit_enrollment : KeyProtector → Enrollment → Result (Unit {0})
admit_enrollment p enrollment = admit_optional p enrollment.parameters

unfoldable pub admit_record : KeyProtector → RecipientRecord → Result (Unit {0})
admit_record p r = admit_optional p (passphrase_parameters r)

-- `record.credential_id == credential_id` for the recipients that have one
abbrev pub has_credential : Bytes → RecipientRecord → Bool
has_credential c r = elim (credential_id r) [ none ↦ false | some d ↦ eq_bytes d c ]

unfoldable pub validate_credential : KeyEnvelope → Bytes → Result (Unit {0})
validate_credential e c =
    reject_if
      ((length c == 0) || ltb max_credential_id (length c) || any (has_credential c) e.recipients)
      authenticator_response_invalid

unfoldable pub validate_dedicated_label : Bytes → Result Bytes
validate_dedicated_label label = do ok_or invalid_label (validate_label label); ok label

module _ (w : Wire) (s : Suite) where
  unfoldable pub require_authenticated : KeyProtector → KeyEnvelope → Bytes → Result (Unit {0})
  require_authenticated p e root = do require_application p e; verify_envelope_mac w s e root

  -- The end of each unlock: a root is returned if it authenticates the envelope.
  unfoldable pub accept_root : KeyEnvelope → Bytes → Result Bytes
  accept_root e root = do
    matches ← envelope_mac_matches w s e root
    if matches then ok root else err unlock_failed
