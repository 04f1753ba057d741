-- ===== src/Tests/Authenticators.antt =====
-- The properties of the native backend and of the container format, at an authenticator that stores
-- one credential.
use fido_key_wrap.Common.{ℕ, ◌≤◌, ◌≡◌, refl, ◌↔◌, some, [], ◌∷◌, true, Bytes, replicate, arith}
use fido_key_wrap.Error.{ok, authenticator_response_invalid}
use fido_key_wrap.Policy.{user_verification, managed}
use fido_key_wrap.Interaction.{Operation}
use fido_key_wrap.Envelope.{FidoRecipient, fido}
use fido_key_wrap.Envelope.Find.{find}
use fido_key_wrap.Protector.Guards.{require_authenticated}
use fido_key_wrap.Protector.Managed.{managed_request}
use fido_key_wrap.Native.Errors.{Error, Outcome, fault, done}
use fido_key_wrap.Common.{◌⊎◌, ◌+◌, ◌*◌, Option}
use fido_key_wrap.Native.Request.{
  PendingManagedCredential, ManagedCapability, ExactPolicy, supports_managed,
}
use fido_key_wrap.Native.Inventory
use fido_key_wrap.Native.Inventory.{present, absent, exact, pending, max_managed_credentials_per_rp}
use fido_key_wrap.Native.Inventory.Found.{AllOther, OneExact, find_iff}
use fido_key_wrap.Native.Selection.{Authenticator}
use fido_key_wrap.Native.Library.{Handle}
use fido_key_wrap.Native.Assertion.Verified.{IsVerified, IsSecret, evaluate-IsVerified}
use fido_key_wrap.Common.Text.{ascii_bytes}
use fido_key_wrap.Config
use fido_key_wrap.Config.{FidoConfig, i32_max, nanos_per_millisecond}
use fido_key_wrap.Native.Request.{operation_milliseconds}
use fido_key_wrap.Native.Selection.Touch.{poll_milliseconds}
use fido_key_wrap.Backend.Settings.{native_config, settings, native_config-total}
use fido_key_wrap.Native.Selection.Deciding.{select_by_touch-decides}
use fido_key_wrap.Native.Authenticator.Absent.{SeenAbsent}
use fido_key_wrap.Backend.{native_managed_credential}
use fido_key_wrap.Backend.Enrolling.{Failed, enroll_managed-Failed}
use fido_key_wrap.Backend.Enrolled.{Enrolled, enroll_managed-Enrolled}
use fido_key_wrap.Backend.Retired.{retire_managed_recipient-Absent}
use fido_key_wrap.Backend.Selected.{select_managed-supports}
use fido_key_wrap.Tool.Container.{SecretFile, encode, decode}
use fido_key_wrap.Tool.Container.Decoding.{IsFile}
use fido_key_wrap.Tool.Container.{EncryptedSecret, encrypt_with_nonce, decrypt_secret}
use fido_key_wrap.Tool.Container.Encryption.{decrypt_secret-encrypt}
use fido_key_wrap.Tests.Fixtures.{small_suite_laws}
use fido_key_wrap.Tool.Container.Reading.{decode_file_iff}
use fido_key_wrap.Common.{All, IsByte}
use fido_key_wrap.Tests.Fixtures.{small_wire, small_suite, All-of_are_bytes}
use fido_key_wrap.Tests.World.{application, protector, root, label}
use fido_key_wrap.Tests.Token.{
  token, token_clock, token-IsPrompt, config, backend, capable, two_devices, credential_id,
  public_key, user,
}
use fido_key_wrap.Tests.Ceremonies.{
  start, holding, first, second, touched, selected, kept, enrolled, rejected, keyed, random_array,
  ask_passphrase, retired, request, secret, evaluated,
}

abbrev left_over : PendingManagedCredential
left_over = kept.session.cleanup

find_iff_example :
    ((Inventory.find (token 5) holding (pending left_over) 8 ≡ done present) ↔ (
      (1 ≤ max_managed_credentials_per_rp) × OneExact (token 5) holding (pending left_over) 8 0 1))
    × ((Inventory.find (token 5) holding (pending left_over) 8 ≡ done absent) ↔ (
        (1 ≤ max_managed_credentials_per_rp)
        × AllOther (token 5) holding (pending left_over) 8 0 1))
find_iff_example = find_iff (token 5) holding (pending left_over) 8

select_by_touch-decides_example :
    (((e : Error) × (◌≡◌ {A = Outcome Error (Option Authenticator)} (done (some second)) (fault e)))
      ⊎ ((a : Authenticator) × (◌≡◌ {A = Outcome Error (Option Authenticator)}
            (done (some second))
            (done (some a)))))
    × (3 ≤ 0 + 5 + 1_000_000 + (5 * 1 + 2 * 1))
select_by_touch-decides_example =
    select_by_touch-decides (token 5) config two_devices 1 token_clock token-IsPrompt (omega arith)
      touched

select_managed-supports_example :
    supports_managed capable (ManagedCapability.enrollment ExactPolicy.user_verified) ≡ true
select_managed-supports_example =
    select_managed-supports (backend 5) Operation.add_recipient label user_verification
      (ManagedCapability.enrollment ExactPolicy.user_verified) selected

enroll_managed-Enrolled_example : Enrolled (backend 5) application user user_verification kept
enroll_managed-Enrolled_example =
    enroll_managed-Enrolled (backend 5) application user user_verification label
      Operation.add_recipient enrolled

enroll_managed-Failed_example :
    Failed
      (backend 1)
      application
      user
      user_verification
      label
      Operation.add_recipient
      start
      authenticator_response_invalid
      start
enroll_managed-Failed_example =
    enroll_managed-Failed (backend 1) application user user_verification label
      Operation.add_recipient rejected

retire_managed_recipient-Absent_example :
    (r : FidoRecipient) × (require_authenticated small_wire small_suite protector keyed root
      ≡ ok tt)
    × (find keyed user ≡ ok (fido r))
    × (r.storage ≡ managed)
    × (a : Authenticator) × (pin : Bytes) × SeenAbsent
        (token 5)
        a
        (exact (
          native_managed_credential
            (managed_request protector r Operation.retire_managed_recipient)))
        pin
        start
retire_managed_recipient-Absent_example =
    retire_managed_recipient-Absent (backend 5) small_wire small_suite random_array ask_passphrase
      protector keyed root user retired

abbrev file : SecretFile
file = record {
  envelope = 1 ∷ 2 ∷ [];
  secret = record { nonce = replicate 12 3; ciphertext = replicate 20 4 };
}

file_bytes : All IsByte (encode file)
unfolding encode fido_key_wrap.Transcript.to_be_bytes
file_bytes = All-of_are_bytes (encode file) refl

decode_file_iff_example :
    (decode (encode file) ≡ done file) ↔ (IsFile file × (encode file ≡ encode file))
decode_file_iff_example = decode_file_iff (encode file) file file_bytes

evaluate-IsVerified_example :
    (raw : Handle) × IsVerified
      (token 5)
      raw
      credential_id
      public_key
      ExactPolicy.user_verified
      holding
    × IsSecret (token 5) raw secret holding
evaluate-IsVerified_example =
    evaluate-IsVerified (token 5) first request (some (ascii_bytes "1234")) evaluated

abbrev defaults : FidoConfig
defaults = Config.default

accepted_default :
    Config.new Config.default_operation_timeout Config.default_selection_timeout
      Config.default_max_devices
    ≡ ok defaults
unfolding fido_key_wrap.Config.new fido_key_wrap.Config.validate_timeout
accepted_default = refl

native_config-total_example :
    (native_config defaults ≡ done (settings defaults))
    × (1 ≤ operation_milliseconds (settings defaults))
    × (operation_milliseconds (settings defaults) ≤ i32_max)
    × ((left : ℕ)
        → (1 ≤ poll_milliseconds (token 5) (settings defaults) left)
          × (poll_milliseconds (token 5) (settings defaults) left ≤ 100))
native_config-total_example =
    native_config-total (token 5) Config.default_operation_timeout Config.default_selection_timeout
      Config.default_max_devices defaults accepted_default

abbrev sealed : EncryptedSecret
sealed = record { nonce = replicate 12 3; ciphertext = 8 ∷ replicate 16 9 }

encrypted :
    encrypt_with_nonce small_suite root application (1 ∷ 2 ∷ []) (8 ∷ []) (replicate 12 3)
    ≡ done sealed
unfolding encrypt_with_nonce fido_key_wrap.Tool.Container.validate_envelope_len
    fido_key_wrap.Tool.Container.validate_length fido_key_wrap.Tool.Container.derive_secret_key
    fido_key_wrap.Tool.Container.transcript fido_key_wrap.Tool.Container.check_lengths
    fido_key_wrap.Tool.Container.secret_aad fido_key_wrap.Transcript.to_be_bytes
    fido_key_wrap.Transcript.write_fields ascii_bytes
encrypted = refl

decrypt_secret-encrypt_example :
    decrypt_secret small_suite sealed root application (1 ∷ 2 ∷ []) ≡ done (8 ∷ [])
decrypt_secret-encrypt_example =
    decrypt_secret-encrypt small_suite small_suite_laws root application (1 ∷ 2 ∷ []) (8 ∷ [])
      (replicate 12 3) sealed encrypted
