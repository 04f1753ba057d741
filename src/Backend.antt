-- ===== src/Backend.antt =====
-- crates/fido-key-wrap/src/backend.rs: `NativeBackend`, the ceremonies of the library over
-- crates/fido-key-wrap-libfido2, between the prompts of the application.
pub mod Prompts
pub mod Managed
pub mod Environment
pub mod Cleanup
pub mod Enrolling
pub mod Enrolled
pub mod Retired
pub mod Selected
pub mod Settings
use Prim.Native.String.{String}
use fido_key_wrap.Common.{
  ℕ, Bool, true, false, not, ltb, Option, none, some, List, Bytes, length, ◌&&◌, if◌then◌else◌,
}
use fido_key_wrap.Common.Text.{ascii_bytes}
use fido_key_wrap.Error.{
  Error, Result, ok, err, reject_if, map_err, ok_or, authenticator, credential_may_remain,
  no_compatible_authenticator, authenticator_response_invalid,
}
use fido_key_wrap.Policy.{FidoPolicy, presence, user_verification}
use fido_key_wrap.Interaction.{Operation, retire_managed_recipient}
use fido_key_wrap.Effect.{Effect, pure, raise, lift, attempt, ◌>>=◌, ◌>>◌}
use fido_key_wrap.Envelope.Wire.{Wire}
use fido_key_wrap.Envelope.Decode.{new_public_key}
use fido_key_wrap.Protector.Env.{
  CredentialMaterial, CredentialBinding, ManagedRequest, ManagedEnrollment, PrfRequest,
}
use fido_key_wrap.Native.Errors.{Outcome, fault, done}
use fido_key_wrap.Native.Library.{Library}
use fido_key_wrap.Native.Request
use fido_key_wrap.Native.Request.{
  Config, ExactPolicy, CredentialProtection, ManagedCapability, CredentialStorage,
  PendingManagedCredential, EnrollmentFailure, Capabilities, eq_protection,
  supports_presence_policy, supports_verified_policy, new_pin,
}
use fido_key_wrap.Native.Selection
use fido_key_wrap.Native.Selection.{
  Authenticator, Offer, prepare_selection, prepare_managed_selection,
}
use fido_key_wrap.Native.Selection.Touch.{select}
use fido_key_wrap.Native.Authenticator
use fido_key_wrap.Backend.Prompts.{
  FidoCeremony, enrollment, assertion, SelectionPrompt, PinPrompt, TouchPrompt, Interaction,
  from_native, outcome_of, from_outcome, map_native_error, native_policy, native_protection,
}

-- `ManagedSession::Native`
pub record ManagedSession : Type 0 where
  pub authenticator : Authenticator
  pub pin : Bytes
  pub cleanup : PendingManagedCredential

-- `Vec::len`
abbrev pub offers : List Offer → ℕ
offers devices = length devices

unfoldable pub supports : FidoPolicy → Capabilities → Bool
supports presence c = supports_presence_policy c
supports user_verification c = supports_verified_policy c

abbrev pub relying_party_name : Bytes
relying_party_name = ascii_bytes "fido key wrap"

unfoldable pub native_managed_credential : ManagedRequest → Request.ManagedCredential
native_managed_credential request = record {
  relying_party_id = request.credential.application_id;
  user_id = request.credential.recipient_id;
  credential_id = request.credential.credential_id;
  es256_public_key = request.credential.public_key;
  protection = native_protection request.credential.policy;
}

unfoldable pub native_prf_request : PrfRequest → Request.PrfRequest
native_prf_request request = record {
  relying_party_id = request.credential.application_id;
  credential_id = request.credential.credential_id;
  es256_public_key = request.credential.public_key;
  salt = request.input;
  policy = native_policy request.credential.policy;
}

abbrev pub enrollment_request : Bytes → FidoPolicy → CredentialStorage → Request.EnrollmentRequest
enrollment_request application policy storage = record {
  relying_party_id = application;
  relying_party_name = relying_party_name;
  policy = native_policy policy;
  storage = storage;
}

abbrev pub has_some : {A : Type 0} → Option A → Bool
has_some none = false
has_some (some _) = true

-- `NativeBackend`, with what its operations are handed or call: the settings, the C library, the
-- application's prompts and the codec.
pub record NativeBackend (W : Type 0) : Type 0 where
  pub config : Config
  pub library : Library W
  pub prompts : Interaction W
  pub wire : Wire

module _ {W : Type 0} (b : NativeBackend W) where
  open b use {config, library, prompts, wire}
  open prompts use {select_authenticator_by_touch, request_pin, touch_required}

  -- The prompt before a choice between several authenticators.
  unfoldable pub announce : Operation → Bytes → FidoPolicy → List Offer → Effect W (Unit {0})
  announce operation label policy devices =
      if ltb 1 (offers devices)
      then select_authenticator_by_touch
          (record { operation = operation; label = label; policy = policy })
      else pure tt

  -- `NativeBackend::select`
  unfoldable pub select_for : Operation → Bytes → FidoPolicy → Effect W Authenticator
  select_for operation label policy = do
    devices ← from_native (prepare_selection library config (native_policy policy))
    announce operation label policy devices
    a ← from_native (select library config devices)
    lift (reject_if (not (supports policy a.capabilities)) no_compatible_authenticator)
    pure a

  unfoldable pub select_managed :
      Operation → Bytes → FidoPolicy → ManagedCapability → Effect W Authenticator
  select_managed operation label policy capability = do
    devices ← from_native (prepare_managed_selection library config capability)
    announce operation label policy devices
    from_native (select library config devices)

  -- `interaction.request_pin(…)` and `native::Pin::new(…)`
  unfoldable pub ask_pin : Operation → Bytes → FidoCeremony → Effect W Bytes
  ask_pin operation label ceremony = do
    pin ← request_pin (record { operation = operation; label = label; ceremony = ceremony })
    lift (from_outcome (new_pin pin))

  unfoldable pub touch : Operation → Bytes → FidoCeremony → FidoPolicy → Effect W (Unit {0})
  touch operation label ceremony policy =
      touch_required
        (record { operation = operation; label = label; ceremony = ceremony; policy = policy })

  -- The `match` on the enrolment of a credential that the authenticator does not store.
  unfoldable pub accept_enrollment :
      FidoPolicy → Outcome EnrollmentFailure Request.Enrollment → Result CredentialMaterial
  accept_enrollment policy (fault failure) =
      if has_some failure.pending_managed
      then err (authenticator credential_may_remain)
      else err (map_native_error failure.error)
  accept_enrollment policy (done e) =
      if not (eq_protection e.credential.protection (native_protection policy))
      then err authenticator_response_invalid
      else keep (
          map_err authenticator_response_invalid
            (new_public_key wire e.credential.es256_public_key))
    where
      keep : Result Bytes → Result CredentialMaterial
      keep (err x) = err x
      keep (ok key) =
          if has_some e.managed_cleanup
          then err (authenticator credential_may_remain)
          else ok (record { credential_id = e.credential.credential_id; public_key = key })

  -- `NativeBackend::enroll`
  unfoldable pub enroll : Bytes → FidoPolicy → Bytes → Operation → Effect W CredentialMaterial
  enroll application policy label operation = do
    a ← select_for operation label policy
    pin ← ask_pin operation label enrollment
    touch operation label enrollment policy
    enrolled ← outcome_of (
        Authenticator.enroll library a
          (enrollment_request application policy CredentialStorage.non_discoverable) pin)
    lift (accept_enrollment policy enrolled)

  -- The PIN of an assertion, for a policy that verifies the user.
  unfoldable pub pin_for : FidoPolicy → Operation → Bytes → Effect W (Option Bytes)
  pin_for presence operation label = pure none
  pin_for user_verification operation label = do
    pin ← ask_pin operation label assertion
    pure (some pin)

  -- `NativeBackend::evaluate`
  unfoldable pub evaluate : PrfRequest → Effect W Bytes
  evaluate request = do
    a ← select_for request.operation request.credential.label request.credential.policy
    pin ← pin_for request.credential.policy request.operation request.credential.label
    touch request.operation request.credential.label assertion request.credential.policy
    from_native (Authenticator.evaluate library a (native_prf_request request) pin)
