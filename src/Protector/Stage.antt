-- ===== src/Protector/Stage.antt =====
-- crates/fido-key-wrap/src/protector.rs: a changed envelope is staged, encoded, decoded, and its new
-- route is opened, before it takes the place of the old one.
pub mod Keys
use fido_key_wrap.Common.{
  ℕ, Bool, true, false, not, ◌&&◌, ◌||◌, Ordering, List, [], ◌∷◌, ◌++◌, Option, none, some, Bytes,
  cmp_bytes, eq_bytes, if◌then◌else◌,
}
use fido_key_wrap.Error.{
  AuthenticatorFailure, credential_may_remain, authenticator, Error, Result, ok, err, reject_if,
  ◌>>=◌, ◌>>◌, unlock_failed, invalid_envelope, authenticator_response_invalid,
}
use fido_key_wrap.Policy.{managed, non_discoverable}
use fido_key_wrap.Envelope.{
  RecipientRecord, passphrase, recovery_secret, fido, fido_and_passphrase, fido_and_local_secret,
  KeyEnvelope, id, label,
}
use fido_key_wrap.Envelope.Wire.{Wire}
use fido_key_wrap.Envelope.Encode.{encode}
use fido_key_wrap.Envelope.Decode.{decode}
use fido_key_wrap.Envelope.Find.{find}
use fido_key_wrap.Crypto.Suite.{Suite}
use fido_key_wrap.Crypto.Mac.{compute_envelope_mac, envelope_mac_matches}
use fido_key_wrap.Interaction.{retire_managed_recipient}
use fido_key_wrap.Effect
use fido_key_wrap.Effect.{Effect, pure, raise, attempt}
use fido_key_wrap.Protector.{KeyProtector}
use fido_key_wrap.Protector.Env.{Env, ManagedEnrollment}
use fido_key_wrap.Protector.Stage.Keys.{RecoveryKeys, recover_with_keys}

-- `sort_by_key(RecipientRecord::id)`: a stable sort.
unfoldable pub insert_by_id : RecipientRecord → List RecipientRecord → List RecipientRecord
insert_by_id r [] = r ∷ []
insert_by_id r (x ∷ xs) =
    let rest = insert_by_id r xs in
    elim (cmp_bytes (id r) (id x)) [ Ordering.gt ↦ x ∷ rest | _ ↦ r ∷ x ∷ xs ]

unfoldable pub sort_by_id : List RecipientRecord → List RecipientRecord
sort_by_id [] = []
sort_by_id (x ∷ xs) = insert_by_id x (sort_by_id xs)

abbrev pub roots_match : Bytes → Bytes → Bool
roots_match left right = eq_bytes left right

module _ (w : Wire) (s : Suite) where
  unfoldable pub canonicalize : KeyEnvelope → Result KeyEnvelope
  canonicalize e = decode w (encode w e)

  -- `roots_match(..) && envelope_mac_matches(..)?`: the mac is computed only for an equal root.
  unfoldable pub route_matches : KeyEnvelope → Bytes → Bytes → Result Bool
  route_matches staged root recovered =
      if roots_match root recovered then envelope_mac_matches w s staged recovered else ok false

  -- The canonical envelope, the identity, the root and the keys of the route.
  unfoldable pub check_route : KeyEnvelope → Bytes → Bytes → RecoveryKeys → Result KeyEnvelope
  check_route staged recipient root keys = do
    r ← find staged recipient
    recovered ← recover_with_keys s r staged.application_id staged.envelope_id keys
    matches ← route_matches staged root recovered
    reject_if (not matches) unlock_failed
    ok staged

  unfoldable pub stage_existing_record :
      KeyEnvelope → Bytes → Bytes → RecoveryKeys → Result KeyEnvelope
  stage_existing_record staged recipient root keys = do
    mac ← compute_envelope_mac w s staged root
    canonical ← canonicalize (record staged { mac = mac })
    check_route canonical recipient root keys

  unfoldable pub stage_record :
      KeyEnvelope → RecipientRecord → Bytes → RecoveryKeys → Result KeyEnvelope
  stage_record staged r root keys =
      stage_existing_record
        (record staged { recipients = sort_by_id (staged.recipients ++ (r ∷ [])) }) (id r) root keys

-- `matches!(record, RecipientRecord::Fido(FidoRecipient { storage: FidoStorage::Managed, .. }))`
abbrev pub is_managed : RecipientRecord → Bool
is_managed (fido r) = elim r.storage [ managed ↦ true | non_discoverable ↦ false ]
is_managed _ = false

module _ {World Session : Type 0} (env : Env World Session) where
  -- The error that a failed enrolment ends with.
  unfoldable pub cleanup_failed_managed_enrollment :
      KeyProtector → ManagedEnrollment Session → Bytes → Bytes → Error → Effect World Error
  cleanup_failed_managed_enrollment p enrollment recipient_id label original =
      Effect.◌>>=◌
        (attempt (
          env.cleanup_managed_enrollment enrollment.session (record {
            credential = record {
              application_id = p.application_id;
              recipient_id = recipient_id;
              credential_id = enrollment.credential.credential_id;
              public_key = enrollment.credential.public_key;
              policy = enrollment.policy;
              label = label;
            };
            operation = retire_managed_recipient;
          })))
        (λ outcome. elim outcome [
          | ok _ ↦ pure original
          | err _ ↦ pure (authenticator credential_may_remain)
        ])

  -- The failure of a staging that had enrolled a managed credential, or none.
  unfoldable pub abandon_enrollment :
      KeyProtector
      → RecipientRecord
      → Option (ManagedEnrollment Session)
      → Error
      → Effect World KeyEnvelope
  abandon_enrollment p r none e = raise e
  abandon_enrollment p r (some enrollment) e =
      if is_managed r
      then Effect.◌>>=◌ (cleanup_failed_managed_enrollment p enrollment (id r) (label r) e) raise
      else raise authenticator_response_invalid

module _ (w : Wire) (s : Suite) {World Session : Type 0} (env : Env World Session) where
  unfoldable pub stage_enrollment :
      KeyProtector
      → KeyEnvelope
      → RecipientRecord
      → Bytes
      → RecoveryKeys
      → Option (ManagedEnrollment Session)
      → Effect World KeyEnvelope
  stage_enrollment p e r root keys enrolled = elim (stage_record w s e r root keys) [
    | ok staged ↦ pure staged
    | err x ↦ abandon_enrollment env p r enrolled x
  ]
