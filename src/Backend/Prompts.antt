-- ===== src/Backend/Prompts.antt =====
-- What crates/fido-key-wrap/src/backend.rs asks the application for (the prompts of interaction.rs),
-- and what it makes of the values and the errors of crates/fido-key-wrap-libfido2.
use fido_key_wrap.Common.{Bytes}
use fido_key_wrap.Error.{
  Error, Result, ok, err, authenticator, AuthenticatorFailure, fido_support_unavailable,
  no_compatible_authenticator, authenticator_response_invalid, random_unavailable,
}
use fido_key_wrap.Policy.{FidoPolicy, presence, user_verification}
use fido_key_wrap.Interaction.{Operation}
use fido_key_wrap.Effect.{Effect}
use fido_key_wrap.Native.Errors
use fido_key_wrap.Native.Errors.{Outcome, fault, done}
use fido_key_wrap.Native.Action.{Action}
use fido_key_wrap.Native.Request.{ExactPolicy, CredentialProtection}

pub data FidoCeremony : Type 0 where
  enrollment assertion : FidoCeremony

pub record SelectionPrompt : Type 0 where
  pub operation : Operation
  pub label : Bytes
  pub policy : FidoPolicy

pub record PinPrompt : Type 0 where
  pub operation : Operation
  pub label : Bytes
  pub ceremony : FidoCeremony

pub record TouchPrompt : Type 0 where
  pub operation : Operation
  pub label : Bytes
  pub ceremony : FidoCeremony
  pub policy : FidoPolicy

-- The application's `Interaction`; a `Pin` is its bytes.
pub record Interaction (W : Type 0) : Type 0 where
  pub select_authenticator_by_touch : SelectionPrompt → Effect W (Unit {0})
  pub request_pin : PinPrompt → Effect W Bytes
  pub touch_required : TouchPrompt → Effect W (Unit {0})

unfoldable pub native_policy : FidoPolicy → ExactPolicy
native_policy presence = ExactPolicy.presence
native_policy user_verification = ExactPolicy.user_verified

unfoldable pub native_protection : FidoPolicy → CredentialProtection
native_protection presence = CredentialProtection.optional_with_credential_id
native_protection user_verification = CredentialProtection.user_verification_required

unfoldable pub map_native_error : Errors.Error → Error
map_native_error Errors.library_unavailable = fido_support_unavailable
map_native_error Errors.library_incompatible = fido_support_unavailable
map_native_error Errors.no_authenticators = no_compatible_authenticator
map_native_error Errors.no_compatible_authenticators = no_compatible_authenticator
map_native_error Errors.verification_failed = authenticator_response_invalid
map_native_error Errors.protocol = authenticator_response_invalid
map_native_error Errors.random_unavailable = random_unavailable
map_native_error (Errors.pin_invalid retries) =
    authenticator (AuthenticatorFailure.pin_invalid retries)
map_native_error Errors.pin_blocked = authenticator AuthenticatorFailure.pin_blocked
map_native_error Errors.pin_auth_blocked =
    authenticator AuthenticatorFailure.pin_temporarily_blocked
map_native_error Errors.selection_timed_out = authenticator AuthenticatorFailure.timed_out
map_native_error Errors.timed_out = authenticator AuthenticatorFailure.timed_out
map_native_error Errors.busy = authenticator AuthenticatorFailure.busy
map_native_error Errors.credential_not_found =
    authenticator AuthenticatorFailure.credential_unavailable
map_native_error Errors.credential_store_full =
    authenticator AuthenticatorFailure.credential_store_full
map_native_error Errors.credential_may_remain =
    authenticator AuthenticatorFailure.credential_may_remain
map_native_error Errors.credential_management_unsupported = no_compatible_authenticator
map_native_error Errors.credential_mismatch = authenticator_response_invalid
map_native_error Errors.retirement_uncertain =
    authenticator AuthenticatorFailure.retirement_uncertain
map_native_error Errors.transport = authenticator AuthenticatorFailure.transport
map_native_error _ = authenticator AuthenticatorFailure.operation_failed

module _ {A : Type 0} where
  abbrev pub from_outcome : Outcome Errors.Error A → Result A
  from_outcome (done a) = ok a
  from_outcome (fault e) = err (map_native_error e)

module _ {W A : Type 0} where
  -- `map_err(|error| map_native_error(&error))`
  unfoldable pub from_native : Action W Errors.Error A → Effect W A
  from_native m w = let (r, w') = m w in (from_outcome r, w')

module _ {W E A : Type 0} where
  abbrev pub both : Outcome E A × W → Result (Outcome E A) × W
  both (r, w) = (ok r, w)

  -- A call whose outcome is matched on.
  unfoldable pub outcome_of : Action W E A → Effect W (Outcome E A)
  outcome_of m w = both (m w)
