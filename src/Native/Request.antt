-- ===== src/Native/Request.antt =====
-- crates/fido-key-wrap-libfido2/src/native.rs: policies, settings, PINs and requests, with their
-- checks. The text of a `str` is its bytes.
pub mod Checks
use fido_key_wrap.Common.{
  ℕ, ◌+◌, ◌*◌, ◌/◌, Bool, true, false, not, ◌&&◌, ◌||◌, ltb, leb, ◌==◌, [], ◌∷◌, ◌++◌, Bytes,
  length, any, eq_bytes, Option, none, some, if◌then◌else◌,
}
use fido_key_wrap.Config.{i32_max, nanos_per_millisecond}
use fido_key_wrap.Native.Errors.{ℤ, eq_int, Error, invalid_input, Outcome, done, fault_if, ◌>>◌}
use fido_key_wrap.Native.Status.{fido_cred_prot_uv_optional_with_id, fido_cred_prot_uv_required}
use Prim.Native.String.{String}

abbrev pub hard_max_devices : ℕ
hard_max_devices = 32

abbrev pub max_rp_id_bytes : ℕ
max_rp_id_bytes = 253

abbrev pub max_name_bytes : ℕ
max_name_bytes = 128

abbrev pub max_credential_id_bytes : ℕ
max_credential_id_bytes = 1_024

abbrev pub max_user_id_bytes : ℕ
max_user_id_bytes = 64

abbrev pub es256_public_key_bytes : ℕ
es256_public_key_bytes = 64

abbrev pub secret_bytes : ℕ
secret_bytes = 32

pub data ExactPolicy : Type 0 where
  presence user_verified : ExactPolicy

pub data CredentialProtection : Type 0 where
  optional_with_credential_id user_verification_required : CredentialProtection

-- The derived equality.
abbrev pub eq_protection : CredentialProtection → CredentialProtection → Bool
eq_protection optional_with_credential_id optional_with_credential_id = true
eq_protection user_verification_required user_verification_required = true
eq_protection optional_with_credential_id user_verification_required = false
eq_protection user_verification_required optional_with_credential_id = false

-- `CredentialProtection::native`
unfoldable pub native_code : CredentialProtection → ℤ
native_code optional_with_credential_id = fido_cred_prot_uv_optional_with_id
native_code user_verification_required = fido_cred_prot_uv_required

unfoldable pub from_native : ℤ → Option CredentialProtection
from_native protection =
    if eq_int protection fido_cred_prot_uv_optional_with_id
    then some optional_with_credential_id
    else if eq_int protection fido_cred_prot_uv_required
    then some user_verification_required
    else none

unfoldable pub protection : ExactPolicy → CredentialProtection
protection presence = optional_with_credential_id
protection user_verified = user_verification_required

unfoldable pub native_protection : ExactPolicy → ℤ
native_protection policy = native_code (protection policy)

pub data ManagedCapability : Type 0 where
  enrollment : ExactPolicy → ManagedCapability
  management : ManagedCapability

-- The bytes of a `Pin`, with the NUL that ends them.
unfoldable pub new_pin : Bytes → Outcome Error Bytes
new_pin pin = do
  fault_if (length pin == 0) (invalid_input "PIN must not be empty")
  fault_if (ltb 63 (length pin)) (invalid_input "PIN exceeds the CTAP byte limit")
  fault_if (any (λ b. b == 0) pin) (invalid_input "PIN contains a NUL byte")
  done (pin ++ (0 ∷ []))

pub record Config : Type 0 where
  pub operation_timeout : ℕ
  pub selection_timeout : ℕ
  pub touch_poll_interval : ℕ
  pub max_devices : ℕ

unfoldable pub validate_milliseconds : ℕ → String → Outcome Error (Unit {0})
validate_milliseconds duration message =
    fault_if
      (ltb (duration / nanos_per_millisecond) 1 || ltb i32_max (duration / nanos_per_millisecond))
      (invalid_input message)

unfoldable pub new_config : ℕ → ℕ → ℕ → Outcome Error Config
new_config operation selection devices = do
  validate_milliseconds operation "operation timeout is out of range"
  validate_milliseconds selection "selection timeout is out of range"
  fault_if (not (leb 1 devices && leb devices hard_max_devices))
      (invalid_input "device limit must be between 1 and 32")
  done (record {
    operation_timeout = operation;
    selection_timeout = selection;
    touch_poll_interval = 100 * nanos_per_millisecond;
    max_devices = devices;
  })

-- `operation_milliseconds`; the conversion to `i32` cannot fail on a validated timeout.
abbrev pub operation_milliseconds : Config → ℕ
operation_milliseconds config = config.operation_timeout / nanos_per_millisecond

pub record Capabilities : Type 0 where
  pub fido2 : Bool
  pub hmac_secret : Bool
  pub credential_protection : Bool
  pub discoverable_credentials : Bool
  pub credential_management : Bool
  pub es256 : Bool
  pub client_pin_supported : Bool
  pub client_pin_configured : Bool
  pub always_uv : Bool

unfoldable pub compatible : Capabilities → Bool
compatible c =
    c.fido2 && c.hmac_secret && c.credential_protection && c.es256 && c.client_pin_supported
    && c.client_pin_configured

unfoldable pub supports_presence_policy : Capabilities → Bool
supports_presence_policy c = compatible c && not c.always_uv

unfoldable pub supports_verified_policy : Capabilities → Bool
supports_verified_policy c = compatible c

unfoldable pub supports_policy : Capabilities → ExactPolicy → Bool
supports_policy c presence = supports_presence_policy c
supports_policy c user_verified = supports_verified_policy c

abbrev pub supports_management : Capabilities → Bool
supports_management c =
    c.fido2 && c.es256 && c.client_pin_supported && c.client_pin_configured
    && c.credential_management

unfoldable pub supports_managed : Capabilities → ManagedCapability → Bool
supports_managed c (enrollment policy) =
    supports_management c
    && c.hmac_secret
    && c.credential_protection
    && c.discoverable_credentials
    && supports_policy c policy
supports_managed c management = supports_management c

pub data CredentialStorage : Type 0 where
  non_discoverable : CredentialStorage
  -- with the user's identity
  managed_discoverable : Bytes → CredentialStorage

pub record EnrollmentRequest : Type 0 where
  pub relying_party_id : Bytes
  pub relying_party_name : Bytes
  pub policy : ExactPolicy
  pub storage : CredentialStorage

pub record PrfRequest : Type 0 where
  pub relying_party_id : Bytes
  pub credential_id : Bytes
  pub es256_public_key : Bytes
  pub salt : Bytes
  pub policy : ExactPolicy

pub record ManagedCredential : Type 0 where
  pub relying_party_id : Bytes
  pub user_id : Bytes
  pub credential_id : Bytes
  pub es256_public_key : Bytes
  pub protection : CredentialProtection

pub record PendingManagedCredential : Type 0 where
  pub relying_party_id : Bytes
  pub user_id : Bytes
  pub credential_id : Bytes
  pub es256_public_key : Bytes
  pub affinity : ℕ

pub record EnrolledCredential : Type 0 where
  pub credential_id : Bytes
  pub es256_public_key : Bytes
  pub protection : CredentialProtection

pub record Enrollment : Type 0 where
  pub credential : EnrolledCredential
  pub managed_cleanup : Option PendingManagedCredential

pub record EnrollmentFailure : Type 0 where
  pub error : Error
  pub pending_managed : Option PendingManagedCredential

-- `From<Error> for EnrollmentFailure`
abbrev pub without_pending : Error → EnrollmentFailure
without_pending e = record { error = e; pending_managed = none }

unfoldable pub managed_enrollment_matches : PrfRequest → ManagedCredential → Bool
managed_enrollment_matches request credential =
    eq_bytes request.relying_party_id credential.relying_party_id
    && eq_bytes request.credential_id credential.credential_id
    && eq_bytes request.es256_public_key credential.es256_public_key
    && eq_protection (protection request.policy) credential.protection
