-- ===== src/Native/Request/Checks.antt =====
-- crates/fido-key-wrap-libfido2/src/native.rs: the checks of what a caller hands in.
use fido_key_wrap.Common.{ℕ, Bool, ◌||◌, ltb, ◌==◌, Bytes, length, any}
use fido_key_wrap.Native.Errors.{Error, invalid_input, Outcome, done, fault_if, ◌>>◌}
use Prim.Native.String.{String}
use fido_key_wrap.Native.Request.{
  max_credential_id_bytes, max_name_bytes, max_rp_id_bytes, max_user_id_bytes,
}

-- `byte == 0 || byte.is_ascii_control()`
abbrev pub forbidden : ℕ → Bool
forbidden byte = (byte == 0) || (ltb byte 0x20 || (byte == 0x7f))

unfoldable pub validate_rp_id : Bytes → Outcome Error (Unit {0})
validate_rp_id value = do
  fault_if ((length value == 0) || ltb max_rp_id_bytes (length value))
      (invalid_input "relying-party ID length is invalid")
  fault_if (any forbidden value) (invalid_input "relying-party ID contains a forbidden byte")

unfoldable pub validate_name : Bytes → Outcome Error (Unit {0})
validate_name value = do
  fault_if ((length value == 0) || ltb max_name_bytes (length value))
      (invalid_input "relying-party name length is invalid")
  fault_if (any (λ b. b == 0) value) (invalid_input "relying-party name contains a NUL byte")

unfoldable pub validate_user_id : Bytes → Outcome Error (Unit {0})
validate_user_id value =
    fault_if ((length value == 0) || ltb max_user_id_bytes (length value))
      (invalid_input "managed user ID length is invalid")

unfoldable pub validate_credential_id : Bytes → Outcome Error (Unit {0})
validate_credential_id value =
    fault_if ((length value == 0) || ltb max_credential_id_bytes (length value))
      (invalid_input "credential ID length is invalid")

-- `c_string`: the bytes before the NUL that the conversion appends.
unfoldable pub c_string : Bytes → String → Outcome Error Bytes
c_string value message = do fault_if (any (λ b. b == 0) value) (invalid_input message); done value
