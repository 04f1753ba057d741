-- ===== src/Native/Status.antt =====
-- The status codes of libfido2 as crates/fido-key-wrap-libfido2/src/ffi.rs declares them, and their
-- translations at the end of native.rs.
use Prim.Native.String.{String}
use fido_key_wrap.Common.{ℕ, Bool, false, ◌||◌, none, List, [], ◌∷◌, if◌then◌else◌}
use fido_key_wrap.Native.Errors.{
  ℤ, pos, negsuc, eq_int, Error, timed_out, busy, transport, pin_invalid, pin_blocked,
  pin_auth_blocked, pin_required, user_action, unsupported, credential_store_full,
  credential_not_found, verification_failed, protocol, native,
}

abbrev pub fido_disable_u2f_fallback : ℤ
fido_disable_u2f_fallback = pos 0x02

abbrev pub fido_ok : ℤ
fido_ok = pos 0x00

abbrev pub fido_err_invalid_command : ℤ
fido_err_invalid_command = pos 0x01

abbrev pub fido_err_timeout : ℤ
fido_err_timeout = pos 0x05

abbrev pub fido_err_channel_busy : ℤ
fido_err_channel_busy = pos 0x06

abbrev pub fido_err_unsupported_extension : ℤ
fido_err_unsupported_extension = pos 0x16

abbrev pub fido_err_unsupported_algorithm : ℤ
fido_err_unsupported_algorithm = pos 0x26

abbrev pub fido_err_operation_denied : ℤ
fido_err_operation_denied = pos 0x27

abbrev pub fido_err_key_store_full : ℤ
fido_err_key_store_full = pos 0x28

abbrev pub fido_err_unsupported_option : ℤ
fido_err_unsupported_option = pos 0x2b

abbrev pub fido_err_invalid_option : ℤ
fido_err_invalid_option = pos 0x2c

abbrev pub fido_err_keepalive_cancel : ℤ
fido_err_keepalive_cancel = pos 0x2d

abbrev pub fido_err_no_credentials : ℤ
fido_err_no_credentials = pos 0x2e

abbrev pub fido_err_user_action_timeout : ℤ
fido_err_user_action_timeout = pos 0x2f

abbrev pub fido_err_not_allowed : ℤ
fido_err_not_allowed = pos 0x30

abbrev pub fido_err_pin_invalid : ℤ
fido_err_pin_invalid = pos 0x31

abbrev pub fido_err_pin_blocked : ℤ
fido_err_pin_blocked = pos 0x32

abbrev pub fido_err_pin_auth_blocked : ℤ
fido_err_pin_auth_blocked = pos 0x34

abbrev pub fido_err_pin_not_set : ℤ
fido_err_pin_not_set = pos 0x35

abbrev pub fido_err_pin_required : ℤ
fido_err_pin_required = pos 0x36

abbrev pub fido_err_action_timeout : ℤ
fido_err_action_timeout = pos 0x3a

abbrev pub fido_err_uv_blocked : ℤ
fido_err_uv_blocked = pos 0x3c

abbrev pub fido_err_uv_invalid : ℤ
fido_err_uv_invalid = pos 0x3f

abbrev pub fido_err_tx : ℤ
fido_err_tx = negsuc 0

abbrev pub fido_err_rx : ℤ
fido_err_rx = negsuc 1

abbrev pub fido_err_rx_not_cbor : ℤ
fido_err_rx_not_cbor = negsuc 2

abbrev pub fido_err_rx_invalid_cbor : ℤ
fido_err_rx_invalid_cbor = negsuc 3

abbrev pub fido_err_invalid_sig : ℤ
fido_err_invalid_sig = negsuc 5

abbrev pub fido_err_user_presence_required : ℤ
fido_err_user_presence_required = negsuc 7

abbrev pub fido_err_internal : ℤ
fido_err_internal = negsuc 8

abbrev pub fido_opt_false : ℤ
fido_opt_false = pos 1

abbrev pub fido_opt_true : ℤ
fido_opt_true = pos 2

abbrev pub fido_ext_hmac_secret : ℕ
fido_ext_hmac_secret = 0x01

abbrev pub fido_ext_cred_protect : ℕ
fido_ext_cred_protect = 0x02

abbrev pub fido_cred_prot_uv_optional_with_id : ℤ
fido_cred_prot_uv_optional_with_id = pos 0x02

abbrev pub fido_cred_prot_uv_required : ℤ
fido_cred_prot_uv_required = pos 0x03

abbrev pub cose_es256 : ℤ
cose_es256 = negsuc 6

abbrev pub authdata_up : ℕ
authdata_up = 0x01

abbrev pub authdata_uv : ℕ
authdata_uv = 0x04

abbrev pub authdata_be : ℕ
authdata_be = 0x08

abbrev pub authdata_bs : ℕ
authdata_bs = 0x10

-- `matches!` on a number.
abbrev pub one_of : List ℤ → ℤ → Bool
one_of [] status = false
one_of (code ∷ codes) status = eq_int status code || one_of codes status

abbrev pub timeout_codes : List ℤ
timeout_codes =
    fido_err_timeout ∷ fido_err_user_action_timeout ∷ fido_err_action_timeout ∷ fido_err_rx ∷ []

abbrev pub user_action_codes : List ℤ
user_action_codes =
    fido_err_operation_denied ∷ fido_err_keepalive_cancel ∷ fido_err_not_allowed
    ∷ fido_err_user_presence_required ∷ fido_err_uv_blocked ∷ fido_err_uv_invalid ∷ []

abbrev pub unsupported_codes : List ℤ
unsupported_codes =
    fido_err_unsupported_extension ∷ fido_err_unsupported_algorithm ∷ fido_err_unsupported_option
    ∷ []

unfoldable pub translate_status : ℤ → String → Error
translate_status status operation =
    if one_of timeout_codes status
    then timed_out
    else if eq_int status fido_err_channel_busy
    then busy
    else if eq_int status fido_err_tx
    then transport
    else if eq_int status fido_err_pin_invalid
    then pin_invalid none
    else if eq_int status fido_err_pin_blocked
    then pin_blocked
    else if eq_int status fido_err_pin_auth_blocked
    then pin_auth_blocked
    else if one_of (fido_err_pin_not_set ∷ fido_err_pin_required ∷ []) status
    then pin_required
    else if one_of user_action_codes status
    then user_action
    else if one_of unsupported_codes status
    then unsupported
    else if eq_int status fido_err_key_store_full
    then credential_store_full
    else if eq_int status fido_err_no_credentials
    then credential_not_found
    else if eq_int status fido_err_invalid_sig
    then verification_failed
    else if one_of (fido_err_rx_not_cbor ∷ fido_err_rx_invalid_cbor ∷ []) status
    then protocol
    else native operation status

-- The request may have reached the authenticator.
abbrev pub uncertain_codes : List ℤ
uncertain_codes =
    fido_err_timeout ∷ fido_err_user_action_timeout ∷ fido_err_action_timeout ∷ fido_err_tx
    ∷ fido_err_rx ∷ fido_err_rx_not_cbor ∷ fido_err_rx_invalid_cbor ∷ fido_err_internal ∷ []

unfoldable pub managed_enrollment_status_is_uncertain : ℤ → Bool
managed_enrollment_status_is_uncertain status = one_of uncertain_codes status

unfoldable pub retirement_status_is_uncertain : ℤ → Bool
retirement_status_is_uncertain status =
    one_of uncertain_codes status || eq_int status fido_err_no_credentials

unfoldable pub translate_open_status : ℤ → Error
translate_open_status status =
    if eq_int status fido_err_internal
    then transport
    else translate_status status "open authenticator"
