-- ===== src/Tests/Runs.antt =====
-- What the operations do in the scripted world, by computation.
use fido_key_wrap.Common.{
  ℕ, suc, ◌%◌, ◌≡◌, refl, [], ◌∷◌, ◌++◌, Option, some, none, false, Bytes, replicate,
}
use fido_key_wrap.Error.{ok}
use fido_key_wrap.Envelope.{KeyEnvelope, RecipientRecord, recovery_secret, RecoverySecretRecord}
use fido_key_wrap.Protector.{KeyProtector, new}
use fido_key_wrap.Protector.Create.{SecretRecipient, create_root, protect_root_with_recovery_secret}
use fido_key_wrap.Policy.{passphrase}
use fido_key_wrap.Policy.Parameters.{PassphraseParameters}
use fido_key_wrap.Envelope.Encode.{encode}
use fido_key_wrap.Envelope.Decode.{decode}
use fido_key_wrap.Crypto.Mac.{envelope_mac_matches}
use fido_key_wrap.Protector.Recipients.{add_recipient, add_recovery_secret}
use fido_key_wrap.Protector.Unlock.{unlock}
use fido_key_wrap.Protector.Stage.{stage_existing_record}
use fido_key_wrap.Protector.Stage.Keys.{RecoveryKeys}
use fido_key_wrap.Tests.Fixtures.{small_wire, small_suite}
use fido_key_wrap.Tests.World.{
  scripted, protector, root, label, one, secret, two, second_secret, enrollment, new_root, guarded,
  some_keys,
}

pub one_made :
    protect_root_with_recovery_secret small_wire small_suite scripted protector root label 1
    ≡ (ok (one, secret), 5)
unfolding fido_key_wrap.Effect.pure fido_key_wrap.Effect.lift fido_key_wrap.Effect.◌>>=◌
    fido_key_wrap.Transcript.to_be_bytes fido_key_wrap.Transcript.check_capacity
    fido_key_wrap.Transcript.write_fields fido_key_wrap.Transcript.encode
    fido_key_wrap.Ident.Application.new fido_key_wrap.Policy.Label.validate_label
    fido_key_wrap.Common.cmp_bytes fido_key_wrap.Protector.Create.protect_root_with_recovery_secret
    fido_key_wrap.Protector.Enroll.new_recovery_secret_record
    fido_key_wrap.Protector.Fresh.unique_recipient_id
    fido_key_wrap.Protector.Guards.validate_dedicated_label
    fido_key_wrap.Protector.Stage.insert_by_id fido_key_wrap.Protector.Stage.sort_by_id
    fido_key_wrap.Protector.Stage.canonicalize fido_key_wrap.Protector.Stage.route_matches
    fido_key_wrap.Protector.Stage.check_route fido_key_wrap.Protector.Stage.stage_existing_record
    fido_key_wrap.Protector.Stage.stage_record fido_key_wrap.Protector.Stage.Keys.recover_with_keys
    fido_key_wrap.Crypto.Context.recipient_context_domain
    fido_key_wrap.Crypto.Context.recovery_secret_context_transcript
    fido_key_wrap.Crypto.Context.recovery_secret_context
    fido_key_wrap.Crypto.Keys.recovery_secret_key_domain fido_key_wrap.Crypto.Keys.derive_key
    fido_key_wrap.Crypto.Keys.derive_recovery_secret_key
    fido_key_wrap.Crypto.Mac.envelope_mac_key_domain fido_key_wrap.Crypto.Mac.envelope_mac_domain
    fido_key_wrap.Crypto.Mac.compute_envelope_mac fido_key_wrap.Crypto.Mac.envelope_mac_matches
    fido_key_wrap.Crypto.Wrap.recovery_secret_aad_domain fido_key_wrap.Crypto.Wrap.encrypt_fixed
    fido_key_wrap.Crypto.Wrap.decrypt_fixed fido_key_wrap.Crypto.Wrap.wrap_recovery_secret_root
    fido_key_wrap.Crypto.Wrap.unwrap_recovery_secret_root fido_key_wrap.Envelope.Decode.to_usize
    fido_key_wrap.Envelope.Decode.definite_array_len fido_key_wrap.Envelope.Decode.require_array
    fido_key_wrap.Envelope.Decode.exact_bytes fido_key_wrap.Envelope.Decode.decode_label
    fido_key_wrap.Envelope.Decode.decode_recovery_secret_recipient
    fido_key_wrap.Envelope.Decode.decode_suite fido_key_wrap.Envelope.Decode.decode_recipient
    fido_key_wrap.Envelope.Decode.decode_recipients fido_key_wrap.Envelope.Decode.decode_fields
    fido_key_wrap.Envelope.Decode.finish fido_key_wrap.Envelope.Decode.decode
    fido_key_wrap.Envelope.Encode.encode_recipient fido_key_wrap.Envelope.Encode.encode_recipients
    fido_key_wrap.Envelope.Encode.encode_body fido_key_wrap.Envelope.Encode.encode
    fido_key_wrap.Envelope.Encode.canonical_body fido_key_wrap.Envelope.Find.probe
    fido_key_wrap.Envelope.Find.narrow fido_key_wrap.Envelope.Find.binary_search
    fido_key_wrap.Envelope.Find.find fido_key_wrap.Envelope.Recipients.check_order
    fido_key_wrap.Envelope.Recipients.check_others fido_key_wrap.Envelope.Recipients.check_unique
    fido_key_wrap.Envelope.Recipients.validate_recipient_set
one_made = refl

pub two_made :
    add_recovery_secret small_wire small_suite scripted protector root label (one, 5)
    ≡ (ok second_secret, (two, 8))
unfolding fido_key_wrap.Effect.pure fido_key_wrap.Effect.lift fido_key_wrap.Effect.◌>>=◌
    fido_key_wrap.Effect.on_world fido_key_wrap.Effect.current fido_key_wrap.Effect.store
    fido_key_wrap.Transcript.to_be_bytes fido_key_wrap.Transcript.check_capacity
    fido_key_wrap.Transcript.write_fields fido_key_wrap.Transcript.encode
    fido_key_wrap.Ident.Application.new fido_key_wrap.Policy.Label.validate_label
    fido_key_wrap.Common.cmp_bytes fido_key_wrap.Protector.Enroll.new_recovery_secret_record
    fido_key_wrap.Protector.Fresh.unique_recipient_id
    fido_key_wrap.Protector.Guards.require_application
    fido_key_wrap.Protector.Guards.validate_dedicated_label
    fido_key_wrap.Protector.Guards.require_authenticated
    fido_key_wrap.Protector.Recipients.add_recovery_secret
    fido_key_wrap.Protector.Stage.insert_by_id fido_key_wrap.Protector.Stage.sort_by_id
    fido_key_wrap.Protector.Stage.canonicalize fido_key_wrap.Protector.Stage.route_matches
    fido_key_wrap.Protector.Stage.check_route fido_key_wrap.Protector.Stage.stage_existing_record
    fido_key_wrap.Protector.Stage.stage_record fido_key_wrap.Protector.Stage.Keys.recover_with_keys
    fido_key_wrap.Crypto.Context.recipient_context_domain
    fido_key_wrap.Crypto.Context.recovery_secret_context_transcript
    fido_key_wrap.Crypto.Context.recovery_secret_context
    fido_key_wrap.Crypto.Keys.recovery_secret_key_domain fido_key_wrap.Crypto.Keys.derive_key
    fido_key_wrap.Crypto.Keys.derive_recovery_secret_key
    fido_key_wrap.Crypto.Mac.envelope_mac_key_domain fido_key_wrap.Crypto.Mac.envelope_mac_domain
    fido_key_wrap.Crypto.Mac.compute_envelope_mac fido_key_wrap.Crypto.Mac.envelope_mac_matches
    fido_key_wrap.Crypto.Mac.verify_envelope_mac
    fido_key_wrap.Crypto.Wrap.recovery_secret_aad_domain fido_key_wrap.Crypto.Wrap.encrypt_fixed
    fido_key_wrap.Crypto.Wrap.decrypt_fixed fido_key_wrap.Crypto.Wrap.wrap_recovery_secret_root
    fido_key_wrap.Crypto.Wrap.unwrap_recovery_secret_root fido_key_wrap.Envelope.Decode.to_usize
    fido_key_wrap.Envelope.Decode.definite_array_len fido_key_wrap.Envelope.Decode.require_array
    fido_key_wrap.Envelope.Decode.exact_bytes fido_key_wrap.Envelope.Decode.decode_label
    fido_key_wrap.Envelope.Decode.decode_recovery_secret_recipient
    fido_key_wrap.Envelope.Decode.decode_suite fido_key_wrap.Envelope.Decode.decode_recipient
    fido_key_wrap.Envelope.Decode.decode_recipients fido_key_wrap.Envelope.Decode.decode_fields
    fido_key_wrap.Envelope.Decode.finish fido_key_wrap.Envelope.Decode.decode
    fido_key_wrap.Envelope.Encode.encode_recipient fido_key_wrap.Envelope.Encode.encode_recipients
    fido_key_wrap.Envelope.Encode.encode_body fido_key_wrap.Envelope.Encode.encode
    fido_key_wrap.Envelope.Encode.canonical_body fido_key_wrap.Envelope.Find.probe
    fido_key_wrap.Envelope.Find.narrow fido_key_wrap.Envelope.Find.binary_search
    fido_key_wrap.Envelope.Find.find fido_key_wrap.Envelope.Recipients.check_order
    fido_key_wrap.Envelope.Recipients.check_others fido_key_wrap.Envelope.Recipients.check_unique
    fido_key_wrap.Envelope.Recipients.validate_recipient_set
two_made = refl

pub guarded_made :
    create_root small_wire small_suite scripted protector enrollment 1
    ≡ (ok (new_root, guarded, replicate 32 3), 6)
unfolding fido_key_wrap.Effect.pure fido_key_wrap.Effect.lift fido_key_wrap.Effect.◌>>=◌
    fido_key_wrap.Interaction.confirmation_matches fido_key_wrap.Transcript.to_be_bytes
    fido_key_wrap.Transcript.check_capacity fido_key_wrap.Transcript.write_fields
    fido_key_wrap.Transcript.encode fido_key_wrap.Ident.Application.new
    fido_key_wrap.Policy.Label.validate_label fido_key_wrap.Policy.Parameters.new
    fido_key_wrap.Policy.Parameters.decode fido_key_wrap.Policy.Parameters.accepts
    fido_key_wrap.Common.cmp_bytes fido_key_wrap.Protector.Create.protect_root_for_operation
    fido_key_wrap.Protector.Create.create_root
    fido_key_wrap.Protector.Enroll.enroll_passphrase_recipient
    fido_key_wrap.Protector.Enroll.enroll_policy fido_key_wrap.Protector.Enroll.enroll_recipient
    fido_key_wrap.Protector.Fresh.unique_recipient_id fido_key_wrap.Protector.Fresh.unique_salt
    fido_key_wrap.Protector.Fresh.request_passphrase
    fido_key_wrap.Protector.Fresh.request_new_passphrase
    fido_key_wrap.Protector.Guards.admit_parameters fido_key_wrap.Protector.Guards.admit_enrollment
    fido_key_wrap.Protector.Stage.insert_by_id fido_key_wrap.Protector.Stage.sort_by_id
    fido_key_wrap.Protector.Stage.canonicalize fido_key_wrap.Protector.Stage.route_matches
    fido_key_wrap.Protector.Stage.check_route fido_key_wrap.Protector.Stage.stage_existing_record
    fido_key_wrap.Protector.Stage.stage_record fido_key_wrap.Protector.Stage.stage_enrollment
    fido_key_wrap.Protector.Stage.Keys.recover_with_keys
    fido_key_wrap.Crypto.Context.recipient_context_domain
    fido_key_wrap.Crypto.Context.passphrase_context_transcript
    fido_key_wrap.Crypto.Context.recipient_context_transcript
    fido_key_wrap.Crypto.Context.recipient_context fido_key_wrap.Crypto.Context.passphrase_context
    fido_key_wrap.Crypto.Keys.passphrase_key_domain fido_key_wrap.Crypto.Keys.derive_key
    fido_key_wrap.Crypto.Keys.argon2_output fido_key_wrap.Crypto.Keys.derive_passphrase_key
    fido_key_wrap.Crypto.Mac.envelope_mac_key_domain fido_key_wrap.Crypto.Mac.envelope_mac_domain
    fido_key_wrap.Crypto.Mac.compute_envelope_mac fido_key_wrap.Crypto.Mac.envelope_mac_matches
    fido_key_wrap.Crypto.Wrap.passphrase_aad_domain fido_key_wrap.Crypto.Wrap.encrypt_fixed
    fido_key_wrap.Crypto.Wrap.decrypt_fixed fido_key_wrap.Crypto.Wrap.wrap_passphrase_root
    fido_key_wrap.Crypto.Wrap.unwrap_passphrase_root fido_key_wrap.Envelope.Decode.to_usize
    fido_key_wrap.Envelope.Decode.definite_array_len fido_key_wrap.Envelope.Decode.require_array
    fido_key_wrap.Envelope.Decode.exact_bytes fido_key_wrap.Envelope.Decode.decode_label
    fido_key_wrap.Envelope.Decode.decode_kdf
    fido_key_wrap.Envelope.Decode.decode_passphrase_recipient
    fido_key_wrap.Envelope.Decode.decode_suite fido_key_wrap.Envelope.Decode.decode_recipient
    fido_key_wrap.Envelope.Decode.decode_recipients fido_key_wrap.Envelope.Decode.decode_fields
    fido_key_wrap.Envelope.Decode.finish fido_key_wrap.Envelope.Decode.decode
    fido_key_wrap.Envelope.Encode.encode_kdf fido_key_wrap.Envelope.Encode.encode_recipient
    fido_key_wrap.Envelope.Encode.encode_recipients fido_key_wrap.Envelope.Encode.encode_body
    fido_key_wrap.Envelope.Encode.encode fido_key_wrap.Envelope.Encode.canonical_body
    fido_key_wrap.Envelope.Find.probe fido_key_wrap.Envelope.Find.narrow
    fido_key_wrap.Envelope.Find.binary_search fido_key_wrap.Envelope.Find.find
    fido_key_wrap.Envelope.Recipients.check_order fido_key_wrap.Envelope.Recipients.check_others
    fido_key_wrap.Envelope.Recipients.check_unique
    fido_key_wrap.Envelope.Recipients.validate_recipient_set
guarded_made = refl

pub unlocked :
    unlock small_wire small_suite scripted protector guarded (replicate 32 3) 9 ≡ (ok new_root, 9)
unfolding fido_key_wrap.Effect.lift fido_key_wrap.Effect.◌>>=◌ fido_key_wrap.Transcript.to_be_bytes
    fido_key_wrap.Transcript.check_capacity fido_key_wrap.Transcript.write_fields
    fido_key_wrap.Transcript.encode fido_key_wrap.Policy.Parameters.accepts
    fido_key_wrap.Common.cmp_bytes fido_key_wrap.Protector.Fresh.request_passphrase
    fido_key_wrap.Protector.Guards.require_application
    fido_key_wrap.Protector.Guards.admit_parameters fido_key_wrap.Protector.Guards.admit_record
    fido_key_wrap.Protector.Guards.accept_root fido_key_wrap.Protector.Unlock.unlock_passphrase
    fido_key_wrap.Protector.Unlock.unlock_record fido_key_wrap.Protector.Unlock.unlock
    fido_key_wrap.Crypto.Context.recipient_context_domain
    fido_key_wrap.Crypto.Context.passphrase_context_transcript
    fido_key_wrap.Crypto.Context.recipient_context_transcript
    fido_key_wrap.Crypto.Context.recipient_context fido_key_wrap.Crypto.Context.passphrase_context
    fido_key_wrap.Crypto.Keys.passphrase_key_domain fido_key_wrap.Crypto.Keys.derive_key
    fido_key_wrap.Crypto.Keys.argon2_output fido_key_wrap.Crypto.Keys.derive_passphrase_key
    fido_key_wrap.Crypto.Mac.envelope_mac_key_domain fido_key_wrap.Crypto.Mac.envelope_mac_domain
    fido_key_wrap.Crypto.Mac.compute_envelope_mac fido_key_wrap.Crypto.Mac.envelope_mac_matches
    fido_key_wrap.Crypto.Wrap.passphrase_aad_domain fido_key_wrap.Crypto.Wrap.decrypt_fixed
    fido_key_wrap.Crypto.Wrap.unwrap_passphrase_root fido_key_wrap.Envelope.Encode.encode_kdf
    fido_key_wrap.Envelope.Encode.encode_recipient fido_key_wrap.Envelope.Encode.encode_recipients
    fido_key_wrap.Envelope.Encode.encode_body fido_key_wrap.Envelope.Encode.canonical_body
    fido_key_wrap.Envelope.Find.probe fido_key_wrap.Envelope.Find.narrow
    fido_key_wrap.Envelope.Find.binary_search fido_key_wrap.Envelope.Find.find
unlocked = refl

-- The mac does not fit another root.
pub mismatch : envelope_mac_matches small_wire small_suite one (replicate 32 78) ≡ ok false
unfolding fido_key_wrap.Transcript.to_be_bytes fido_key_wrap.Transcript.check_capacity
    fido_key_wrap.Transcript.write_fields fido_key_wrap.Transcript.encode
    fido_key_wrap.Common.cmp_bytes fido_key_wrap.Crypto.Keys.derive_key
    fido_key_wrap.Crypto.Mac.envelope_mac_key_domain fido_key_wrap.Crypto.Mac.envelope_mac_domain
    fido_key_wrap.Crypto.Mac.compute_envelope_mac fido_key_wrap.Crypto.Mac.envelope_mac_matches
    fido_key_wrap.Envelope.Encode.encode_recipient fido_key_wrap.Envelope.Encode.encode_recipients
    fido_key_wrap.Envelope.Encode.encode_body fido_key_wrap.Envelope.Encode.canonical_body
mismatch = refl

pub two_mismatch : envelope_mac_matches small_wire small_suite two (replicate 32 78) ≡ ok false
unfolding fido_key_wrap.Transcript.to_be_bytes fido_key_wrap.Transcript.check_capacity
    fido_key_wrap.Transcript.write_fields fido_key_wrap.Transcript.encode
    fido_key_wrap.Common.cmp_bytes fido_key_wrap.Crypto.Keys.derive_key
    fido_key_wrap.Crypto.Mac.envelope_mac_key_domain fido_key_wrap.Crypto.Mac.envelope_mac_domain
    fido_key_wrap.Crypto.Mac.compute_envelope_mac fido_key_wrap.Crypto.Mac.envelope_mac_matches
    fido_key_wrap.Envelope.Encode.encode_recipient fido_key_wrap.Envelope.Encode.encode_recipients
    fido_key_wrap.Envelope.Encode.encode_body fido_key_wrap.Envelope.Encode.canonical_body
two_mismatch = refl

pub one_decodes : decode small_wire (encode small_wire one) ≡ ok one
unfolding fido_key_wrap.Ident.Application.new fido_key_wrap.Policy.Label.validate_label
    fido_key_wrap.Common.cmp_bytes fido_key_wrap.Envelope.Decode.to_usize
    fido_key_wrap.Envelope.Decode.definite_array_len fido_key_wrap.Envelope.Decode.require_array
    fido_key_wrap.Envelope.Decode.exact_bytes fido_key_wrap.Envelope.Decode.decode_label
    fido_key_wrap.Envelope.Decode.decode_recovery_secret_recipient
    fido_key_wrap.Envelope.Decode.decode_suite fido_key_wrap.Envelope.Decode.decode_recipient
    fido_key_wrap.Envelope.Decode.decode_recipients fido_key_wrap.Envelope.Decode.decode_fields
    fido_key_wrap.Envelope.Decode.finish fido_key_wrap.Envelope.Decode.decode
    fido_key_wrap.Envelope.Encode.encode_recipient fido_key_wrap.Envelope.Encode.encode_recipients
    fido_key_wrap.Envelope.Encode.encode fido_key_wrap.Envelope.Recipients.check_order
    fido_key_wrap.Envelope.Recipients.check_others fido_key_wrap.Envelope.Recipients.check_unique
    fido_key_wrap.Envelope.Recipients.validate_recipient_set
one_decodes = refl

pub staged :
    stage_existing_record small_wire small_suite one (replicate 32 3) root some_keys ≡ ok one
unfolding fido_key_wrap.Transcript.to_be_bytes fido_key_wrap.Transcript.check_capacity
    fido_key_wrap.Transcript.write_fields fido_key_wrap.Transcript.encode
    fido_key_wrap.Ident.Application.new fido_key_wrap.Policy.Label.validate_label
    fido_key_wrap.Common.cmp_bytes fido_key_wrap.Protector.Stage.insert_by_id
    fido_key_wrap.Protector.Stage.sort_by_id fido_key_wrap.Protector.Stage.canonicalize
    fido_key_wrap.Protector.Stage.route_matches fido_key_wrap.Protector.Stage.check_route
    fido_key_wrap.Protector.Stage.stage_existing_record fido_key_wrap.Protector.Stage.stage_record
    fido_key_wrap.Protector.Stage.Keys.recover_with_keys
    fido_key_wrap.Crypto.Context.recipient_context_domain
    fido_key_wrap.Crypto.Context.recovery_secret_context_transcript
    fido_key_wrap.Crypto.Context.recovery_secret_context
    fido_key_wrap.Crypto.Keys.recovery_secret_key_domain fido_key_wrap.Crypto.Keys.derive_key
    fido_key_wrap.Crypto.Keys.derive_recovery_secret_key
    fido_key_wrap.Crypto.Mac.envelope_mac_key_domain fido_key_wrap.Crypto.Mac.envelope_mac_domain
    fido_key_wrap.Crypto.Mac.compute_envelope_mac fido_key_wrap.Crypto.Mac.envelope_mac_matches
    fido_key_wrap.Crypto.Mac.verify_envelope_mac
    fido_key_wrap.Crypto.Wrap.recovery_secret_aad_domain fido_key_wrap.Crypto.Wrap.encrypt_fixed
    fido_key_wrap.Crypto.Wrap.decrypt_fixed fido_key_wrap.Crypto.Wrap.wrap_recovery_secret_root
    fido_key_wrap.Crypto.Wrap.unwrap_recovery_secret_root fido_key_wrap.Envelope.Decode.to_usize
    fido_key_wrap.Envelope.Decode.definite_array_len fido_key_wrap.Envelope.Decode.require_array
    fido_key_wrap.Envelope.Decode.exact_bytes fido_key_wrap.Envelope.Decode.decode_label
    fido_key_wrap.Envelope.Decode.decode_recovery_secret_recipient
    fido_key_wrap.Envelope.Decode.decode_suite fido_key_wrap.Envelope.Decode.decode_recipient
    fido_key_wrap.Envelope.Decode.decode_recipients fido_key_wrap.Envelope.Decode.decode_fields
    fido_key_wrap.Envelope.Decode.finish fido_key_wrap.Envelope.Decode.decode
    fido_key_wrap.Envelope.Encode.encode_recipient fido_key_wrap.Envelope.Encode.encode_recipients
    fido_key_wrap.Envelope.Encode.encode_body fido_key_wrap.Envelope.Encode.encode
    fido_key_wrap.Envelope.Encode.canonical_body fido_key_wrap.Envelope.Find.probe
    fido_key_wrap.Envelope.Find.narrow fido_key_wrap.Envelope.Find.binary_search
    fido_key_wrap.Envelope.Find.find fido_key_wrap.Envelope.Recipients.check_order
    fido_key_wrap.Envelope.Recipients.check_others fido_key_wrap.Envelope.Recipients.check_unique
    fido_key_wrap.Envelope.Recipients.validate_recipient_set
staged = refl

pub added :
    (add_recipient small_wire small_suite scripted protector root enrollment (one, 5)).0
    ≡ ok (replicate 32 5)
unfolding fido_key_wrap.Effect.pure fido_key_wrap.Effect.lift fido_key_wrap.Effect.◌>>=◌
    fido_key_wrap.Effect.on_world fido_key_wrap.Effect.current fido_key_wrap.Effect.store
    fido_key_wrap.Transcript.to_be_bytes fido_key_wrap.Transcript.check_capacity
    fido_key_wrap.Transcript.write_fields fido_key_wrap.Transcript.encode
    fido_key_wrap.Ident.Application.new fido_key_wrap.Policy.Label.validate_label
    fido_key_wrap.Common.cmp_bytes fido_key_wrap.Protector.Enroll.new_recovery_secret_record
    fido_key_wrap.Protector.Fresh.unique_recipient_id
    fido_key_wrap.Protector.Guards.require_application
    fido_key_wrap.Protector.Guards.validate_dedicated_label
    fido_key_wrap.Protector.Guards.require_authenticated fido_key_wrap.Protector.Stage.insert_by_id
    fido_key_wrap.Protector.Stage.sort_by_id fido_key_wrap.Protector.Stage.canonicalize
    fido_key_wrap.Protector.Stage.route_matches fido_key_wrap.Protector.Stage.check_route
    fido_key_wrap.Protector.Stage.stage_existing_record fido_key_wrap.Protector.Stage.stage_record
    fido_key_wrap.Protector.Stage.Keys.recover_with_keys
    fido_key_wrap.Crypto.Context.recipient_context_domain
    fido_key_wrap.Crypto.Context.recovery_secret_context_transcript
    fido_key_wrap.Crypto.Context.recovery_secret_context
    fido_key_wrap.Crypto.Keys.recovery_secret_key_domain fido_key_wrap.Crypto.Keys.derive_key
    fido_key_wrap.Crypto.Keys.derive_recovery_secret_key
    fido_key_wrap.Crypto.Mac.envelope_mac_key_domain fido_key_wrap.Crypto.Mac.envelope_mac_domain
    fido_key_wrap.Crypto.Mac.compute_envelope_mac fido_key_wrap.Crypto.Mac.envelope_mac_matches
    fido_key_wrap.Crypto.Mac.verify_envelope_mac
    fido_key_wrap.Crypto.Wrap.recovery_secret_aad_domain fido_key_wrap.Crypto.Wrap.encrypt_fixed
    fido_key_wrap.Crypto.Wrap.decrypt_fixed fido_key_wrap.Crypto.Wrap.wrap_recovery_secret_root
    fido_key_wrap.Crypto.Wrap.unwrap_recovery_secret_root fido_key_wrap.Envelope.Decode.to_usize
    fido_key_wrap.Envelope.Decode.definite_array_len fido_key_wrap.Envelope.Decode.require_array
    fido_key_wrap.Envelope.Decode.exact_bytes fido_key_wrap.Envelope.Decode.decode_label
    fido_key_wrap.Envelope.Decode.decode_recovery_secret_recipient
    fido_key_wrap.Envelope.Decode.decode_suite fido_key_wrap.Envelope.Decode.decode_recipient
    fido_key_wrap.Envelope.Decode.decode_recipients fido_key_wrap.Envelope.Decode.decode_fields
    fido_key_wrap.Envelope.Decode.finish fido_key_wrap.Envelope.Decode.decode
    fido_key_wrap.Envelope.Encode.encode_recipient fido_key_wrap.Envelope.Encode.encode_recipients
    fido_key_wrap.Envelope.Encode.encode_body fido_key_wrap.Envelope.Encode.encode
    fido_key_wrap.Envelope.Encode.canonical_body fido_key_wrap.Envelope.Find.probe
    fido_key_wrap.Envelope.Find.narrow fido_key_wrap.Envelope.Find.binary_search
    fido_key_wrap.Envelope.Find.find fido_key_wrap.Envelope.Recipients.check_order
    fido_key_wrap.Envelope.Recipients.check_others fido_key_wrap.Envelope.Recipients.check_unique
    fido_key_wrap.Envelope.Recipients.validate_recipient_set
    fido_key_wrap.Interaction.confirmation_matches fido_key_wrap.Policy.Parameters.new
    fido_key_wrap.Policy.Parameters.decode fido_key_wrap.Policy.Parameters.accepts
    fido_key_wrap.Protector.Enroll.enroll_passphrase_recipient
    fido_key_wrap.Protector.Enroll.enroll_policy fido_key_wrap.Protector.Enroll.enroll_recipient
    fido_key_wrap.Protector.Fresh.unique_salt fido_key_wrap.Protector.Fresh.request_passphrase
    fido_key_wrap.Protector.Fresh.request_new_passphrase
    fido_key_wrap.Protector.Guards.admit_parameters fido_key_wrap.Protector.Guards.admit_enrollment
    fido_key_wrap.Protector.Stage.stage_enrollment
    fido_key_wrap.Crypto.Context.passphrase_context_transcript
    fido_key_wrap.Crypto.Context.recipient_context_transcript
    fido_key_wrap.Crypto.Context.recipient_context fido_key_wrap.Crypto.Context.passphrase_context
    fido_key_wrap.Crypto.Keys.passphrase_key_domain fido_key_wrap.Crypto.Keys.argon2_output
    fido_key_wrap.Crypto.Keys.derive_passphrase_key fido_key_wrap.Crypto.Wrap.passphrase_aad_domain
    fido_key_wrap.Crypto.Wrap.wrap_passphrase_root fido_key_wrap.Crypto.Wrap.unwrap_passphrase_root
    fido_key_wrap.Envelope.Decode.decode_kdf
    fido_key_wrap.Envelope.Decode.decode_passphrase_recipient
    fido_key_wrap.Envelope.Encode.encode_kdf fido_key_wrap.Protector.Recipients.add_recipient
added = refl
