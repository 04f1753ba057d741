-- ===== src/Native/Device.antt =====
-- crates/fido-key-wrap-libfido2/src/native.rs: the devices of the library (`manifest`, `RawDevice`),
-- their capabilities, and the errors that they report. Closing and freeing have no counterpart.
pub mod Utf8
pub mod Info
use Prim.Native.String.{String}
use fido_key_wrap.Common.{
  ℕ, zero, suc, ◌+◌, Bool, true, false, not, ◌&&◌, ◌||◌, ltb, ◌==◌, Option, none, some, List, [],
  ◌∷◌, Bytes, length, take, any, eq_bytes, if◌then◌else◌,
}
use fido_key_wrap.Common.Text.{ascii_bytes}
use fido_key_wrap.Native.Errors.{
  ℤ, pos, negsuc, eq_int, Error, allocation_failed, random_unavailable, protocol, pin_invalid,
  credential_management_unsupported, Outcome, fault, done, fault_if, done_or,
}
use fido_key_wrap.Native.Action.{Action, raise, raise_from, lift, reads, call, pure, ◌>>=◌, ◌>>◌}
use fido_key_wrap.Native.Status.{
  fido_ok, fido_err_pin_invalid, fido_err_invalid_command, fido_err_unsupported_extension,
  fido_err_unsupported_option, fido_err_invalid_option, fido_err_unsupported_algorithm, cose_es256,
  one_of, translate_status, translate_open_status,
}
use fido_key_wrap.Native.Library.{Library, Handle}
use fido_key_wrap.Native.Device.Info.{read_capabilities}
use fido_key_wrap.Native.Request.{Config, operation_milliseconds, Capabilities}

module _ {W A : Type 0} where
  -- `NonNull::new(…).ok_or(Error::AllocationFailed)`
  unfoldable pub allocate : (W → Option A × W) → Action W Error A
  allocate new = do pointer ← call new; lift (done_or allocation_failed pointer)

module _ {W : Type 0} where
  -- A call whose status is translated when it is not 0.
  unfoldable pub checked : (ℤ → Error) → (W → ℤ × W) → Action W Error (Unit {0})
  checked translate f = do
    status ← call f
    lift (fault_if (not (eq_int status fido_ok)) (translate status))

  -- `Credential::call` and `Assertion::call`
  unfoldable pub set : String → (W → ℤ × W) → Action W Error (Unit {0})
  set operation f = checked (λ status. translate_status status operation) f

  module _ (lib : Library W) where
    open lib use {
      getrandom, fido_dev_info_new, fido_dev_info_manifest, fido_dev_info_ptr, fido_dev_info_path,
      fido_dev_new, fido_dev_set_timeout, fido_dev_open, fido_dev_get_cbor_info, fido_cbor_info_new,
      fido_dev_get_retry_count,
    }

    unfoldable pub random_array : Action W Error Bytes
    random_array = do bytes ← call getrandom; lift (done_or random_unavailable bytes)

    -- The loop of `manifest` over the indices from `index` on; a device without a path is left out.
    unfoldable pub candidates : Handle → ℕ → ℕ → W → Outcome Error (List Bytes)
    candidates list index zero w = done []
    candidates list index (suc left) w =
        let rest = candidates list (index + 1) left w in
        candidate (fido_dev_info_ptr list index w) rest
      where
        with_path : Option Bytes → List Bytes → List Bytes
        with_path none rest = rest
        with_path (some path) rest = path ∷ rest

        candidate : Option Handle → Outcome Error (List Bytes) → Outcome Error (List Bytes)
        candidate none rest = fault protocol
        candidate (some info) (fault e) = fault e
        candidate (some info) (done paths) = done (with_path (fido_dev_info_path info w) paths)

    unfoldable pub manifest : ℕ → Action W Error (List Bytes)
    manifest max_devices = do
      list ← allocate (fido_dev_info_new max_devices)
      (status, found) ← call (fido_dev_info_manifest list max_devices)
      lift (fault_if (not (eq_int status fido_ok)) (translate_status status "manifest devices"))
      lift (fault_if (ltb max_devices found) protocol)
      reads (candidates list 0 found)

    -- `RawDevice::open`
    unfoldable pub open_device : Bytes → Config → Action W Error Handle
    open_device path config = do
      device ← allocate fido_dev_new
      set "set authenticator timeout" (fido_dev_set_timeout device (operation_milliseconds config))
      checked translate_open_status (fido_dev_open device path)
      pure device

    abbrev pub as_u8 : ℤ → Option ℕ
    as_u8 (pos n) = if ltb n 256 then some n else none
    as_u8 (negsuc n) = none

    -- `RawDevice::translate`, which asks for the number of attempts that are left.
    unfoldable pub translate : Handle → ℤ → String → W → Error × W
    translate device status operation w =
        if eq_int status fido_err_pin_invalid
        then (let (answer, w') = fido_dev_get_retry_count device w in
            (pin_invalid (if eq_int answer.0 fido_ok then as_u8 answer.1 else none), w'))
        else (translate_status status operation, w)

    unfoldable pub translate_management : Handle → ℤ → String → W → Error × W
    translate_management device status operation w =
        if one_of
          (fido_err_invalid_command ∷ fido_err_unsupported_extension ∷ fido_err_unsupported_option
            ∷ fido_err_invalid_option ∷ fido_err_unsupported_algorithm ∷ [])
          status
        then (credential_management_unsupported, w)
        else translate device status operation w

    -- `if result != FIDO_OK { return Err(self.device.translate(…)) }`
    unfoldable pub accept : Handle → ℤ → String → Action W Error (Unit {0})
    accept device status operation =
        if eq_int status fido_ok then pure tt else raise_from (translate device status operation)

    -- `RawDevice::capabilities`
    unfoldable pub capabilities : Handle → Action W Error Capabilities
    capabilities device = do
      info ← allocate fido_cbor_info_new
      status ← call (fido_dev_get_cbor_info device info)
      accept device status "get authenticator info"
      reads (λ w. read_capabilities lib w device info)
