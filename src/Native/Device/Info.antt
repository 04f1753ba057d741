-- ===== src/Native/Device/Info.antt =====
-- What crates/fido-key-wrap-libfido2/src/native.rs reads from an authenticator's information: arrays
-- of texts, options, and the capabilities that follow from them.
use fido_key_wrap.Common.{
  ℕ, zero, suc, ◌+◌, Bool, false, ◌&&◌, ◌||◌, ltb, ◌==◌, Option, none, some, List, [], ◌∷◌, Bytes,
  length, take, any, eq_bytes, if◌then◌else◌,
}
use fido_key_wrap.Common.Text.{ascii_bytes}
use fido_key_wrap.Native.Errors.{
  eq_int, Error, protocol, Outcome, fault, done, fault_if, done_or, ◌>>=◌, ◌>>◌,
}
use fido_key_wrap.Native.Status.{cose_es256}
use fido_key_wrap.Native.Library.{Library, Handle}
use fido_key_wrap.Native.Request.{Capabilities}
use fido_key_wrap.Native.Device.Utf8.{is_utf8}

unfoldable pub copy_string : Option Bytes → Outcome Error Bytes
copy_string none = fault protocol
copy_string (some text) = if is_utf8 text then done text else fault protocol

-- The conversion of each entry, up to the first error.
unfoldable pub copy_strings : List (Option Bytes) → Outcome Error (List Bytes)
copy_strings [] = done []
copy_strings (entry ∷ entries) =
    let rest = copy_strings entries in
    copy_string entry >>= λ text. rest >>= λ texts. done (text ∷ texts)

unfoldable pub copy_string_array : Option (List (Option Bytes)) → ℕ → Outcome Error (List Bytes)
copy_string_array pointer len = do
  fault_if (ltb 128 len) protocol
  if len == 0
      then done []
      else do entries ← done_or protocol pointer; copy_strings (take len entries)

-- The loop over the names, with their values beside them.
unfoldable pub search_options :
    List (Option Bytes) → List Bool → Bytes → Outcome Error (Option Bool)
search_options [] values wanted = done none
search_options names [] wanted = done none
search_options (none ∷ names) (value ∷ values) wanted = fault protocol
search_options (some name ∷ names) (value ∷ values) wanted =
    let rest = search_options names values wanted in
    if eq_bytes name wanted then done (some value) else rest

-- `unwrap_or(false)`
abbrev pub or_false : Option Bool → Bool
or_false none = false
or_false (some b) = b

-- `starts_with`
abbrev pub starts_with : Bytes → Bytes → Bool
starts_with prefix text = eq_bytes (take (length prefix) text) prefix

module _ {W : Type 0} (lib : Library W) (w : W) where
  open lib use {
    fido_cbor_info_options_len, fido_cbor_info_options_name_ptr, fido_cbor_info_options_value_ptr,
    fido_cbor_info_extensions_ptr, fido_cbor_info_extensions_len, fido_cbor_info_versions_ptr,
    fido_cbor_info_versions_len, fido_cbor_info_algorithm_count, fido_cbor_info_algorithm_cose,
    fido_dev_is_fido2, fido_dev_supports_cred_prot, fido_dev_supports_credman,
    fido_dev_supports_pin, fido_dev_has_pin,
  }

  unfoldable pub option_value : Handle → Bytes → Outcome Error (Option Bool)
  option_value info wanted = do
    let len = fido_cbor_info_options_len info w
    fault_if (ltb 128 len) protocol
    if len == 0 then done none else do
      names ← done_or protocol (fido_cbor_info_options_name_ptr info w)
      values ← done_or protocol (fido_cbor_info_options_value_ptr info w)
      search_options (take len names) (take len values) wanted

  -- `any` over the indices from `index` on
  unfoldable pub has_es256 : Handle → ℕ → ℕ → Bool
  has_es256 info index zero = false
  has_es256 info index (suc left) =
      eq_int (fido_cbor_info_algorithm_cose info index w) cose_es256
      || has_es256 info (index + 1) left

  -- `RawDevice::capabilities`, after the library has filled `info`.
  unfoldable pub read_capabilities : Handle → Handle → Outcome Error Capabilities
  read_capabilities device info = do
    extensions ←
        copy_string_array (fido_cbor_info_extensions_ptr info w)
          (fido_cbor_info_extensions_len info w)
    versions ←
        copy_string_array (fido_cbor_info_versions_ptr info w) (fido_cbor_info_versions_len info w)
    always_uv ← option_value info (ascii_bytes "alwaysUv")
    discoverable ← option_value info (ascii_bytes "rk")
    let algorithm_count = fido_cbor_info_algorithm_count info w
    fault_if (ltb 64 algorithm_count) protocol
    done (record {
      fido2 = fido_dev_is_fido2 device w && any (starts_with (ascii_bytes "FIDO_2")) versions;
      hmac_secret = any (eq_bytes (ascii_bytes "hmac-secret")) extensions;
      credential_protection =
          fido_dev_supports_cred_prot device w
          && any (eq_bytes (ascii_bytes "credProtect")) extensions;
      discoverable_credentials = or_false discoverable;
      credential_management = fido_dev_supports_credman device w;
      es256 = has_es256 info 0 algorithm_count;
      client_pin_supported = fido_dev_supports_pin device w;
      client_pin_configured = fido_dev_has_pin device w;
      always_uv = or_false always_uv;
    })
