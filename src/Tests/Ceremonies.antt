-- ===== src/Tests/Ceremonies.antt =====
-- What the ceremonies do with the authenticator of `Token`, by computation.
use fido_key_wrap.Common.{
  ℕ, ◌≡◌, refl, Option, some, List, [], ◌∷◌, ◌++◌, true, false, Bytes, replicate,
}
use fido_key_wrap.Common.Text.{ascii_bytes}
use fido_key_wrap.Error.{ok, err, authenticator_response_invalid}
use fido_key_wrap.Policy.{user_verification, managed}
use fido_key_wrap.Interaction.{Operation, PassphrasePurpose}
use fido_key_wrap.Envelope.{KeyEnvelope, FidoRecipient, fido}
use fido_key_wrap.Effect.{Effect, pure}
use fido_key_wrap.Effect.Runs as Effect_runs
use fido_key_wrap.Protector.Env.{Answer, answered, ManagedEnrollment}
use fido_key_wrap.Protector.Managed.{retire_managed_recipient}
use fido_key_wrap.Native.Errors.{done}
use fido_key_wrap.Native.Action.Runs as Native_runs
use fido_key_wrap.Native.Request.{ExactPolicy, ManagedCapability, PrfRequest}
use fido_key_wrap.Native.Authenticator.{evaluate}
use fido_key_wrap.Native.Selection.{Authenticator}
use fido_key_wrap.Native.Selection.Touch.{select_by_touch}
use fido_key_wrap.Backend.{ManagedSession, select_managed}
use fido_key_wrap.Backend.Managed.{enroll_managed}
use fido_key_wrap.Backend.Environment.{environment}
use fido_key_wrap.Tests.Fixtures.{small_wire, small_suite}
use fido_key_wrap.Tests.World.{application, protector, root, label}
use fido_key_wrap.Tests.Token.{
  Token, token, config, backend, capable, two_devices, credential_id, public_key, user,
}

abbrev pub start : Token
start = record { clock = 0; stored = false }

abbrev pub holding : Token
holding = record { clock = 0; stored = true }

abbrev pub first : Authenticator
first = record { device = 3; capabilities = capable; affinity = 9 }

abbrev pub second : Authenticator
second = record { device = 4; capabilities = capable; affinity = 9 }

pub touched :
    Native_runs.Ends
      (select_by_touch (token 5) config 6 two_devices)
      start
      (done (some second))
      (record { clock = 3; stored = false })
unfolding fido_key_wrap.Native.Action.pure fido_key_wrap.Native.Action.lift
    fido_key_wrap.Native.Action.call fido_key_wrap.Native.Action.◌>>=◌
    fido_key_wrap.Native.Device.checked fido_key_wrap.Native.Device.set
    fido_key_wrap.Native.Selection.Touch.cancel_all
    fido_key_wrap.Native.Selection.Touch.or_give_up_by
    fido_key_wrap.Native.Selection.Touch.selection_milliseconds
    fido_key_wrap.Native.Selection.Touch.begin_touch fido_key_wrap.Native.Selection.Touch.touched_by
    fido_key_wrap.Native.Selection.Touch.poll_before
    fido_key_wrap.Native.Selection.Touch.poll_device fido_key_wrap.Native.Selection.Touch.poll_next
    fido_key_wrap.Native.Selection.Touch.poll_all fido_key_wrap.Native.Selection.Touch.again
    fido_key_wrap.Native.Selection.Touch.poll fido_key_wrap.Native.Selection.Touch.swap_remove
    fido_key_wrap.Native.Selection.Touch.new_authenticator
    fido_key_wrap.Native.Selection.Touch.chosen fido_key_wrap.Native.Selection.Touch.select_by_touch
touched = record { ends = refl }

pub selected :
    Effect_runs.Ends
      (select_managed
        (backend 5)
        Operation.add_recipient
        label
        user_verification
        (ManagedCapability.enrollment ExactPolicy.user_verified))
      start
      (ok first)
      start
unfolding fido_key_wrap.Backend.announce fido_key_wrap.Backend.select_managed
    fido_key_wrap.Effect.pure fido_key_wrap.Effect.◌>>=◌ fido_key_wrap.Native.Action.pure
    fido_key_wrap.Native.Action.lift fido_key_wrap.Native.Action.reads
    fido_key_wrap.Native.Action.call fido_key_wrap.Native.Action.attempt
    fido_key_wrap.Native.Action.◌>>=◌ fido_key_wrap.Native.Device.allocate
    fido_key_wrap.Native.Device.checked fido_key_wrap.Native.Device.set
    fido_key_wrap.Native.Device.candidates fido_key_wrap.Native.Device.manifest
    fido_key_wrap.Native.Device.open_device fido_key_wrap.Native.Device.accept
    fido_key_wrap.Native.Device.capabilities fido_key_wrap.Native.Request.compatible
    fido_key_wrap.Native.Request.supports_verified_policy
    fido_key_wrap.Native.Request.supports_policy fido_key_wrap.Native.Request.supports_managed
    fido_key_wrap.Native.Selection.prepared fido_key_wrap.Native.Selection.finish_search
    fido_key_wrap.Native.Selection.initialize_thread fido_key_wrap.Native.Selection.examined
    fido_key_wrap.Native.Selection.opened fido_key_wrap.Native.Selection.search_candidates
    fido_key_wrap.Native.Selection.prepare_selection_matching
    fido_key_wrap.Native.Selection.prepare_managed_selection
    fido_key_wrap.Native.Device.Info.copy_string fido_key_wrap.Native.Device.Info.copy_strings
    fido_key_wrap.Native.Device.Info.copy_string_array
    fido_key_wrap.Native.Device.Info.search_options fido_key_wrap.Native.Device.Info.option_value
    fido_key_wrap.Native.Device.Info.has_es256 fido_key_wrap.Native.Device.Info.read_capabilities
    fido_key_wrap.Native.Device.Utf8.first_byte fido_key_wrap.Native.Device.Utf8.next_byte
    fido_key_wrap.Native.Device.Utf8.decoded fido_key_wrap.Native.Device.Utf8.is_utf8
    fido_key_wrap.Native.Selection.Touch.new_authenticator
    fido_key_wrap.Native.Selection.Touch.select fido_key_wrap.Backend.Prompts.from_native
    fido_key_wrap.Common.cmp_bytes fido_key_wrap.Common.Text.ascii_bytes
selected = record { ends = refl }

abbrev pub kept : ManagedEnrollment ManagedSession
kept = record {
  credential = record { credential_id = credential_id; public_key = public_key };
  policy = user_verification;
  session = record {
    authenticator = first;
    pin = ascii_bytes "1234" ++ (0 ∷ []);
    cleanup = record {
      relying_party_id = application;
      user_id = user;
      credential_id = credential_id;
      es256_public_key = public_key;
      affinity = 9;
    };
  };
}

pub enrolled :
    Effect_runs.Ends
      (enroll_managed (backend 5) application user user_verification label Operation.add_recipient)
      start
      (ok kept)
      holding
unfolding fido_key_wrap.Backend.announce fido_key_wrap.Backend.select_managed
    fido_key_wrap.Backend.ask_pin fido_key_wrap.Backend.touch fido_key_wrap.Effect.pure
    fido_key_wrap.Effect.lift fido_key_wrap.Effect.◌>>=◌ fido_key_wrap.Native.Action.pure
    fido_key_wrap.Native.Action.lift fido_key_wrap.Native.Action.reads
    fido_key_wrap.Native.Action.call fido_key_wrap.Native.Action.attempt
    fido_key_wrap.Native.Action.map_fault fido_key_wrap.Native.Action.◌>>=◌
    fido_key_wrap.Native.Authenticator.validate_storage
    fido_key_wrap.Native.Authenticator.validate_enrollment
    fido_key_wrap.Native.Authenticator.user_of fido_key_wrap.Native.Authenticator.prepare_credential
    fido_key_wrap.Native.Authenticator.accept_made_status fido_key_wrap.Native.Authenticator.tracked
    fido_key_wrap.Native.Authenticator.pending_of fido_key_wrap.Native.Authenticator.finish_tracked
    fido_key_wrap.Native.Authenticator.finish_enrollment fido_key_wrap.Native.Authenticator.enroll
    fido_key_wrap.Native.Credential.flags_match
    fido_key_wrap.Native.Credential.attestation_certificate_present
    fido_key_wrap.Native.Credential.for_enrollment fido_key_wrap.Native.Credential.copy_id
    fido_key_wrap.Native.Credential.copy_public_key fido_key_wrap.Native.Credential.copy_enrollment
    fido_key_wrap.Native.Credential.copy_pending_managed fido_key_wrap.Native.Credential.verify
    fido_key_wrap.Native.Device.allocate fido_key_wrap.Native.Device.checked
    fido_key_wrap.Native.Device.set fido_key_wrap.Native.Device.random_array
    fido_key_wrap.Native.Device.candidates fido_key_wrap.Native.Device.manifest
    fido_key_wrap.Native.Device.open_device fido_key_wrap.Native.Device.accept
    fido_key_wrap.Native.Device.capabilities fido_key_wrap.Native.Request.native_code
    fido_key_wrap.Native.Request.from_native fido_key_wrap.Native.Request.protection
    fido_key_wrap.Native.Request.native_protection fido_key_wrap.Native.Request.new_pin
    fido_key_wrap.Native.Request.compatible fido_key_wrap.Native.Request.supports_verified_policy
    fido_key_wrap.Native.Request.supports_policy fido_key_wrap.Native.Request.supports_managed
    fido_key_wrap.Native.Selection.prepared fido_key_wrap.Native.Selection.finish_search
    fido_key_wrap.Native.Selection.initialize_thread fido_key_wrap.Native.Selection.examined
    fido_key_wrap.Native.Selection.opened fido_key_wrap.Native.Selection.search_candidates
    fido_key_wrap.Native.Selection.prepare_selection_matching
    fido_key_wrap.Native.Selection.prepare_managed_selection
    fido_key_wrap.Native.Device.Info.copy_string fido_key_wrap.Native.Device.Info.copy_strings
    fido_key_wrap.Native.Device.Info.copy_string_array
    fido_key_wrap.Native.Device.Info.search_options fido_key_wrap.Native.Device.Info.option_value
    fido_key_wrap.Native.Device.Info.has_es256 fido_key_wrap.Native.Device.Info.read_capabilities
    fido_key_wrap.Native.Device.Utf8.first_byte fido_key_wrap.Native.Device.Utf8.next_byte
    fido_key_wrap.Native.Device.Utf8.decoded fido_key_wrap.Native.Device.Utf8.is_utf8
    fido_key_wrap.Native.Selection.Touch.new_authenticator
    fido_key_wrap.Native.Selection.Touch.select fido_key_wrap.Native.Request.Checks.validate_rp_id
    fido_key_wrap.Native.Request.Checks.validate_name
    fido_key_wrap.Native.Request.Checks.validate_user_id
    fido_key_wrap.Native.Request.Checks.c_string fido_key_wrap.Backend.Managed.with_session
    fido_key_wrap.Backend.Managed.accept_key fido_key_wrap.Backend.Managed.accept_created
    fido_key_wrap.Backend.Managed.accept_managed fido_key_wrap.Backend.Managed.prepare_enrollment
    fido_key_wrap.Backend.Managed.enroll_on fido_key_wrap.Backend.Managed.enroll_managed
    fido_key_wrap.Backend.Prompts.native_policy fido_key_wrap.Backend.Prompts.native_protection
    fido_key_wrap.Backend.Prompts.from_native fido_key_wrap.Backend.Prompts.outcome_of
    fido_key_wrap.Common.cmp_bytes fido_key_wrap.Common.Text.ascii_bytes
    fido_key_wrap.Envelope.Decode.new_public_key
enrolled = record { ends = refl }

-- The authenticator reports that the user was not verified.
pub rejected :
    Effect_runs.Ends
      (enroll_managed (backend 1) application user user_verification label Operation.add_recipient)
      start
      (err authenticator_response_invalid)
      start
unfolding fido_key_wrap.Backend.announce fido_key_wrap.Backend.select_managed
    fido_key_wrap.Backend.ask_pin fido_key_wrap.Backend.touch fido_key_wrap.Effect.pure
    fido_key_wrap.Effect.raise fido_key_wrap.Effect.lift fido_key_wrap.Effect.attempt
    fido_key_wrap.Effect.◌>>=◌ fido_key_wrap.Native.Action.pure fido_key_wrap.Native.Action.lift
    fido_key_wrap.Native.Action.reads fido_key_wrap.Native.Action.call
    fido_key_wrap.Native.Action.attempt fido_key_wrap.Native.Action.map_fault
    fido_key_wrap.Native.Action.◌>>=◌ fido_key_wrap.Native.Assertion.for_verification
    fido_key_wrap.Native.Assertion.from_bytes fido_key_wrap.Native.Assertion.verify_identity
    fido_key_wrap.Native.Authenticator.retirement_outcome
    fido_key_wrap.Native.Authenticator.validate_storage
    fido_key_wrap.Native.Authenticator.validate_enrollment
    fido_key_wrap.Native.Authenticator.user_of fido_key_wrap.Native.Authenticator.prepare_credential
    fido_key_wrap.Native.Authenticator.accept_made_status fido_key_wrap.Native.Authenticator.tracked
    fido_key_wrap.Native.Authenticator.pending_of fido_key_wrap.Native.Authenticator.finish_tracked
    fido_key_wrap.Native.Authenticator.finish_enrollment fido_key_wrap.Native.Authenticator.enroll
    fido_key_wrap.Native.Credential.flags_match
    fido_key_wrap.Native.Credential.attestation_certificate_present
    fido_key_wrap.Native.Credential.for_enrollment fido_key_wrap.Native.Credential.copy_id
    fido_key_wrap.Native.Credential.copy_public_key fido_key_wrap.Native.Credential.copy_enrollment
    fido_key_wrap.Native.Credential.copy_pending_managed fido_key_wrap.Native.Credential.verify
    fido_key_wrap.Native.Device.allocate fido_key_wrap.Native.Device.checked
    fido_key_wrap.Native.Device.set fido_key_wrap.Native.Device.random_array
    fido_key_wrap.Native.Device.candidates fido_key_wrap.Native.Device.manifest
    fido_key_wrap.Native.Device.open_device fido_key_wrap.Native.Device.accept
    fido_key_wrap.Native.Device.capabilities fido_key_wrap.Native.Inventory.copy_native_bytes
    fido_key_wrap.Native.Inventory.managed_identity_matches
    fido_key_wrap.Native.Inventory.include_managed_match
    fido_key_wrap.Native.Inventory.include_credential fido_key_wrap.Native.Inventory.visit
    fido_key_wrap.Native.Inventory.visit_all fido_key_wrap.Native.Inventory.find
    fido_key_wrap.Native.Request.native_code fido_key_wrap.Native.Request.from_native
    fido_key_wrap.Native.Request.protection fido_key_wrap.Native.Request.native_protection
    fido_key_wrap.Native.Request.new_pin fido_key_wrap.Native.Request.compatible
    fido_key_wrap.Native.Request.supports_verified_policy
    fido_key_wrap.Native.Request.supports_policy fido_key_wrap.Native.Request.supports_managed
    fido_key_wrap.Native.Selection.prepared fido_key_wrap.Native.Selection.finish_search
    fido_key_wrap.Native.Selection.initialize_thread fido_key_wrap.Native.Selection.examined
    fido_key_wrap.Native.Selection.opened fido_key_wrap.Native.Selection.search_candidates
    fido_key_wrap.Native.Selection.prepare_selection_matching
    fido_key_wrap.Native.Selection.prepare_managed_selection
    fido_key_wrap.Native.Authenticator.Managed.validate_managed
    fido_key_wrap.Native.Authenticator.Managed.verify_managed_assertion
    fido_key_wrap.Native.Authenticator.Managed.enumerated
    fido_key_wrap.Native.Authenticator.Managed.managed_presence
    fido_key_wrap.Native.Authenticator.Managed.delete_result
    fido_key_wrap.Native.Authenticator.Managed.delete_managed
    fido_key_wrap.Native.Authenticator.Managed.prepare_managed_cleanup
    fido_key_wrap.Native.Authenticator.Managed.finish_cleanup
    fido_key_wrap.Native.Device.Info.copy_string fido_key_wrap.Native.Device.Info.copy_strings
    fido_key_wrap.Native.Device.Info.copy_string_array
    fido_key_wrap.Native.Device.Info.search_options fido_key_wrap.Native.Device.Info.option_value
    fido_key_wrap.Native.Device.Info.has_es256 fido_key_wrap.Native.Device.Info.read_capabilities
    fido_key_wrap.Native.Device.Utf8.first_byte fido_key_wrap.Native.Device.Utf8.next_byte
    fido_key_wrap.Native.Device.Utf8.decoded fido_key_wrap.Native.Device.Utf8.is_utf8
    fido_key_wrap.Native.Selection.Touch.new_authenticator
    fido_key_wrap.Native.Selection.Touch.select fido_key_wrap.Native.Request.Checks.validate_rp_id
    fido_key_wrap.Native.Request.Checks.validate_name
    fido_key_wrap.Native.Request.Checks.validate_user_id
    fido_key_wrap.Native.Request.Checks.validate_credential_id
    fido_key_wrap.Native.Request.Checks.c_string fido_key_wrap.Backend.Managed.is_done
    fido_key_wrap.Backend.Managed.finish_touched fido_key_wrap.Backend.Managed.finish_pending
    fido_key_wrap.Backend.Managed.cleanup_native_pending fido_key_wrap.Backend.Managed.report
    fido_key_wrap.Backend.Managed.reject_pending_managed fido_key_wrap.Backend.Managed.reject_any
    fido_key_wrap.Backend.Managed.reject_failure fido_key_wrap.Backend.Managed.accept_managed
    fido_key_wrap.Backend.Managed.prepare_enrollment fido_key_wrap.Backend.Managed.enroll_on
    fido_key_wrap.Backend.Managed.enroll_managed fido_key_wrap.Backend.Prompts.native_policy
    fido_key_wrap.Backend.Prompts.map_native_error fido_key_wrap.Backend.Prompts.from_native
    fido_key_wrap.Backend.Prompts.outcome_of fido_key_wrap.Common.cmp_bytes
    fido_key_wrap.Common.Text.ascii_bytes
rejected = record { ends = refl }

abbrev pub keyed : KeyEnvelope
keyed = record {
  application_id = application;
  envelope_id = replicate 32 1;
  recipients =
      fido (record {
        id = user;
        label = label;
        credential_id = credential_id;
        public_key = public_key;
        policy = user_verification;
        storage = managed;
        prf_nonce = replicate 32 6;
        fido_nonce = replicate 12 7;
        wrapped_root = replicate 32 77 ++ replicate 16 9;
      })
      ∷ [];
  mac = replicate 32 194;
}

abbrev pub random_array : ℕ → Effect Token Bytes
random_array n = pure (replicate n 0)

abbrev pub ask_passphrase : Operation → Bytes → PassphrasePurpose → Token → Answer × Token
ask_passphrase operation name purpose t = (answered (1 ∷ 2 ∷ []), t)

pub retired :
    Effect_runs.Ends
      (retire_managed_recipient small_wire small_suite
        (environment random_array ask_passphrase (backend 5))
        protector
        keyed
        root
        user)
      holding
      (ok tt)
      start
unfolding fido_key_wrap.Backend.native_managed_credential fido_key_wrap.Backend.announce
    fido_key_wrap.Backend.select_managed fido_key_wrap.Backend.ask_pin fido_key_wrap.Backend.touch
    fido_key_wrap.Effect.pure fido_key_wrap.Effect.lift fido_key_wrap.Effect.◌>>=◌
    fido_key_wrap.Native.Action.pure fido_key_wrap.Native.Action.lift
    fido_key_wrap.Native.Action.reads fido_key_wrap.Native.Action.call
    fido_key_wrap.Native.Action.attempt fido_key_wrap.Native.Action.◌>>=◌
    fido_key_wrap.Native.Assertion.for_verification fido_key_wrap.Native.Assertion.from_bytes
    fido_key_wrap.Native.Assertion.verify_identity
    fido_key_wrap.Native.Authenticator.retirement_outcome
    fido_key_wrap.Native.Credential.flags_match fido_key_wrap.Native.Device.allocate
    fido_key_wrap.Native.Device.checked fido_key_wrap.Native.Device.set
    fido_key_wrap.Native.Device.random_array fido_key_wrap.Native.Device.candidates
    fido_key_wrap.Native.Device.manifest fido_key_wrap.Native.Device.open_device
    fido_key_wrap.Native.Device.accept fido_key_wrap.Native.Device.capabilities
    fido_key_wrap.Native.Inventory.copy_native_bytes
    fido_key_wrap.Native.Inventory.managed_identity_matches
    fido_key_wrap.Native.Inventory.include_managed_match
    fido_key_wrap.Native.Inventory.include_credential fido_key_wrap.Native.Inventory.visit
    fido_key_wrap.Native.Inventory.visit_all fido_key_wrap.Native.Inventory.find
    fido_key_wrap.Native.Request.native_code fido_key_wrap.Native.Request.new_pin
    fido_key_wrap.Native.Request.supports_managed fido_key_wrap.Native.Selection.prepared
    fido_key_wrap.Native.Selection.finish_search fido_key_wrap.Native.Selection.initialize_thread
    fido_key_wrap.Native.Selection.examined fido_key_wrap.Native.Selection.opened
    fido_key_wrap.Native.Selection.search_candidates
    fido_key_wrap.Native.Selection.prepare_selection_matching
    fido_key_wrap.Native.Selection.prepare_managed_selection
    fido_key_wrap.Native.Authenticator.Managed.validate_managed
    fido_key_wrap.Native.Authenticator.Managed.verify_managed_assertion
    fido_key_wrap.Native.Authenticator.Managed.enumerated
    fido_key_wrap.Native.Authenticator.Managed.managed_presence
    fido_key_wrap.Native.Authenticator.Managed.confirm_managed_inventory
    fido_key_wrap.Native.Authenticator.Managed.delete_result
    fido_key_wrap.Native.Authenticator.Managed.delete_managed
    fido_key_wrap.Native.Authenticator.Managed.verify_managed
    fido_key_wrap.Native.Authenticator.Managed.retire_managed
    fido_key_wrap.Native.Device.Info.copy_string fido_key_wrap.Native.Device.Info.copy_strings
    fido_key_wrap.Native.Device.Info.copy_string_array
    fido_key_wrap.Native.Device.Info.search_options fido_key_wrap.Native.Device.Info.option_value
    fido_key_wrap.Native.Device.Info.has_es256 fido_key_wrap.Native.Device.Info.read_capabilities
    fido_key_wrap.Native.Device.Utf8.first_byte fido_key_wrap.Native.Device.Utf8.next_byte
    fido_key_wrap.Native.Device.Utf8.decoded fido_key_wrap.Native.Device.Utf8.is_utf8
    fido_key_wrap.Native.Selection.Touch.new_authenticator
    fido_key_wrap.Native.Selection.Touch.select fido_key_wrap.Native.Request.Checks.validate_rp_id
    fido_key_wrap.Native.Request.Checks.validate_user_id
    fido_key_wrap.Native.Request.Checks.validate_credential_id
    fido_key_wrap.Native.Request.Checks.c_string fido_key_wrap.Backend.Environment.environment
    fido_key_wrap.Backend.Managed.request_native_pin fido_key_wrap.Backend.Managed.touch_managed
    fido_key_wrap.Backend.Managed.retire_native_managed fido_key_wrap.Backend.Managed.retire_managed
    fido_key_wrap.Backend.Prompts.native_protection fido_key_wrap.Backend.Prompts.from_native
    fido_key_wrap.Common.cmp_bytes fido_key_wrap.Policy.code fido_key_wrap.Transcript.to_be_bytes
    fido_key_wrap.Transcript.check_capacity fido_key_wrap.Transcript.write_fields
    fido_key_wrap.Transcript.encode fido_key_wrap.Protector.Guards.require_application
    fido_key_wrap.Protector.Guards.require_authenticated
    fido_key_wrap.Protector.Managed.retire_managed_recipient fido_key_wrap.Crypto.Keys.derive_key
    fido_key_wrap.Crypto.Mac.envelope_mac_key_domain fido_key_wrap.Crypto.Mac.envelope_mac_domain
    fido_key_wrap.Crypto.Mac.compute_envelope_mac fido_key_wrap.Crypto.Mac.envelope_mac_matches
    fido_key_wrap.Crypto.Mac.verify_envelope_mac fido_key_wrap.Envelope.Encode.encode_recipient
    fido_key_wrap.Envelope.Encode.encode_recipients fido_key_wrap.Envelope.Encode.encode_body
    fido_key_wrap.Envelope.Encode.canonical_body fido_key_wrap.Envelope.Find.probe
    fido_key_wrap.Envelope.Find.narrow fido_key_wrap.Envelope.Find.binary_search
    fido_key_wrap.Envelope.Find.find
retired = record { ends = refl }

abbrev pub request : PrfRequest
request = record {
  relying_party_id = application;
  credential_id = credential_id;
  es256_public_key = public_key;
  salt = replicate 32 1;
  policy = ExactPolicy.user_verified;
}

abbrev pub secret : Bytes
secret = replicate 32 6

pub evaluated :
    Native_runs.Ends
      (evaluate (token 5) first request (some (ascii_bytes "1234")))
      holding
      (done secret)
      holding
unfolding fido_key_wrap.Native.Action.pure fido_key_wrap.Native.Action.lift
    fido_key_wrap.Native.Action.reads fido_key_wrap.Native.Action.call
    fido_key_wrap.Native.Action.◌>>=◌ fido_key_wrap.Native.Assertion.for_evaluation
    fido_key_wrap.Native.Assertion.from_bytes fido_key_wrap.Native.Assertion.verify_identity
    fido_key_wrap.Native.Assertion.exact_secret_pointer fido_key_wrap.Native.Assertion.copy_secret
    fido_key_wrap.Native.Assertion.verified_secret fido_key_wrap.Native.Authenticator.pin_agrees
    fido_key_wrap.Native.Authenticator.evaluate fido_key_wrap.Native.Credential.flags_match
    fido_key_wrap.Native.Device.allocate fido_key_wrap.Native.Device.checked
    fido_key_wrap.Native.Device.set fido_key_wrap.Native.Device.random_array
    fido_key_wrap.Native.Device.accept fido_key_wrap.Native.Request.Checks.validate_rp_id
    fido_key_wrap.Native.Request.Checks.c_string fido_key_wrap.Common.cmp_bytes
evaluated = record { ends = refl }
