-- ===== src/Tests/Token.antt =====
-- An authenticator that stores one credential, the application's prompts, and the native backend over
-- them.
use fido_key_wrap.Common.{
  ℕ, suc, ◌<◌, ◌≡◌, Bool, true, false, none, some, List, [], ◌∷◌, Bytes, replicate, leb, arith,
}
use fido_key_wrap.Common.Text.{ascii_bytes}
use fido_key_wrap.Effect
use fido_key_wrap.Native.Errors.{ℤ, pos}
use fido_key_wrap.Native.Action.{pure}
use fido_key_wrap.Native.Status.{fido_ok, cose_es256, fido_cred_prot_uv_required}
use fido_key_wrap.Native.Library.{Library}
use fido_key_wrap.Native.Request.{Config, Capabilities}
use fido_key_wrap.Native.Selection.{Offer}
use fido_key_wrap.Native.Selection.Polling.{IsClock}
use fido_key_wrap.Native.Selection.Timed.{IsPrompt}
use fido_key_wrap.Config.{nanos_per_millisecond}
use fido_key_wrap.Common.{◌*◌, ◌≤◌, ◌+◌}
use fido_key_wrap.Backend.Prompts.{Interaction}
use fido_key_wrap.Backend.{NativeBackend}
use fido_key_wrap.Tests.Fixtures.{small_wire}

pub record Token : Type 0 where
  pub clock : ℕ
  pub stored : Bool

abbrev pub credential_id : Bytes
credential_id = replicate 16 5

abbrev pub public_key : Bytes
public_key = replicate 64 4

abbrev pub user : Bytes
user = replicate 32 3

-- The touch comes at the third nanosecond; until then, each poll takes one.
abbrev polled : Bool → Token → (ℤ × ℤ) × Token
polled true t = ((fido_ok, pos 1), t)
polled false t = ((fido_ok, pos 0), record t { clock = suc t.clock })

abbrev entries : Bool → ℕ
entries true = 1
entries false = 0

-- The flags are those of a new credential.
abbrev pub token : ℕ → Library Token
token flags = record {
  ensure_loaded = pure tt;
  fido_init = λ n t. (tt, t);
  getrandom = λ t. (some (replicate 32 8), t);
  now = λ t. (t.clock, t);
  rc_new = λ t. (9, t);
  fido_dev_info_new = λ n t. (some 1, t);
  fido_dev_info_manifest = λ l n t. ((fido_ok, 1), t);
  fido_dev_info_ptr = λ l i t. some 2;
  fido_dev_info_path = λ i t. some (ascii_bytes "usb");
  fido_dev_new = λ t. (some 3, t);
  fido_dev_set_timeout = λ d ms t. (fido_ok, t);
  fido_dev_open = λ d path t. (fido_ok, t);
  fido_dev_cancel = λ d t. (fido_ok, t);
  fido_dev_get_touch_begin = λ d t. (fido_ok, t);
  fido_dev_get_touch_status = λ d ms t. polled (leb 3 t.clock) t;
  fido_dev_get_retry_count = λ d t. ((fido_ok, pos 8), t);
  fido_dev_is_fido2 = λ d t. true;
  fido_dev_supports_cred_prot = λ d t. true;
  fido_dev_supports_credman = λ d t. true;
  fido_dev_supports_pin = λ d t. true;
  fido_dev_has_pin = λ d t. true;
  fido_cbor_info_new = λ t. (some 4, t);
  fido_dev_get_cbor_info = λ d i t. (fido_ok, t);
  fido_cbor_info_extensions_ptr =
      λ i t. some (some (ascii_bytes "hmac-secret") ∷ some (ascii_bytes "credProtect") ∷ []);
  fido_cbor_info_extensions_len = λ i t. 2;
  fido_cbor_info_versions_ptr = λ i t. some (some (ascii_bytes "FIDO_2_1") ∷ []);
  fido_cbor_info_versions_len = λ i t. 1;
  fido_cbor_info_options_name_ptr = λ i t. some (some (ascii_bytes "rk") ∷ []);
  fido_cbor_info_options_value_ptr = λ i t. some (true ∷ []);
  fido_cbor_info_options_len = λ i t. 1;
  fido_cbor_info_algorithm_count = λ i t. 1;
  fido_cbor_info_algorithm_cose = λ i n t. cose_es256;
  fido_cred_new = λ t. (some 5, t);
  fido_cred_set_clientdata_hash = λ c h t. (fido_ok, t);
  fido_cred_set_rp = λ c i n t. (fido_ok, t);
  fido_cred_set_user = λ c i n d t. (fido_ok, t);
  fido_cred_set_type = λ c n t. (fido_ok, t);
  fido_cred_set_extensions = λ c n t. (fido_ok, t);
  fido_cred_set_prot = λ c n t. (fido_ok, t);
  fido_cred_set_rk = λ c n t. (fido_ok, t);
  fido_cred_set_uv = λ c n t. (fido_ok, t);
  fido_dev_make_cred = λ d c pin t. (fido_ok, record t { stored = true });
  fido_cred_verify = λ c t. (fido_ok, t);
  fido_cred_verify_self = λ c t. (fido_ok, t);
  fido_cred_fmt = λ c t. some (ascii_bytes "packed");
  fido_cred_type = λ c t. cose_es256;
  fido_cred_prot = λ c t. fido_cred_prot_uv_required;
  fido_cred_flags = λ c t. flags;
  fido_cred_x5c_ptr = λ c t. none;
  fido_cred_x5c_len = λ c t. 0;
  fido_cred_id_ptr = λ c t. some credential_id;
  fido_cred_id_len = λ c t. 16;
  fido_cred_pubkey_ptr = λ c t. some public_key;
  fido_cred_pubkey_len = λ c t. 64;
  fido_cred_user_id_ptr = λ c t. some user;
  fido_cred_user_id_len = λ c t. 32;
  fido_assert_new = λ t. (some 6, t);
  fido_assert_set_rp = λ a i t. (fido_ok, t);
  fido_assert_set_clientdata_hash = λ a h t. (fido_ok, t);
  fido_assert_allow_cred = λ a i t. (fido_ok, t);
  fido_assert_set_extensions = λ a n t. (fido_ok, t);
  fido_assert_set_hmac_salt = λ a s t. (fido_ok, t);
  fido_assert_set_up = λ a n t. (fido_ok, t);
  fido_assert_set_uv = λ a n t. (fido_ok, t);
  fido_dev_get_assert = λ d a pin t. (fido_ok, t);
  es256_pk_new = λ t. (some 7, t);
  es256_pk_from_ptr = λ k b t. (fido_ok, t);
  fido_assert_verify = λ a i n k t. (fido_ok, t);
  fido_assert_count = λ a t. 1;
  fido_assert_flags = λ a i t. 5;
  fido_assert_id_ptr = λ a i t. some credential_id;
  fido_assert_id_len = λ a i t. 16;
  fido_assert_hmac_secret_ptr = λ a i t. some (replicate 32 6);
  fido_assert_hmac_secret_len = λ a i t. 32;
  fido_credman_rk_new = λ t. (some 8, t);
  fido_credman_get_dev_rk = λ d i l pin t. (fido_ok, t);
  fido_credman_del_dev_rk = λ d i pin t. (fido_ok, record t { stored = false });
  fido_credman_rk_count = λ l t. entries t.stored;
  fido_credman_rk = λ l i t. some 5;
}

abbrev pub config : Config
config = record {
  operation_timeout = 1_000_000;
  selection_timeout = 5;
  touch_poll_interval = 100_000_000;
  max_devices = 4;
}

abbrev pub prompts : Interaction Token
prompts = record {
  select_authenticator_by_touch = λ p. Effect.pure tt;
  request_pin = λ p. Effect.pure (ascii_bytes "1234");
  touch_required = λ p. Effect.pure tt;
}

abbrev pub backend : ℕ → NativeBackend Token
backend flags = record {
  config = config;
  library = token flags;
  prompts = prompts;
  wire = small_wire;
}

abbrev pub capable : Capabilities
capable = record {
  fido2 = true;
  hmac_secret = true;
  credential_protection = true;
  discoverable_credentials = true;
  credential_management = true;
  es256 = true;
  client_pin_supported = true;
  client_pin_configured = true;
  always_uv = false;
}

abbrev pub two_devices : List Offer
two_devices = (3, capable) ∷ (4, capable) ∷ []

waited :
    (touched : Bool) (t : Token)
    → (polled touched t).0 ≡ (fido_ok, pos 0)
    → t.clock < (polled touched t).1.clock
waited true t h = absurd (cc h)
waited false t h = omega arith

pub token_clock : IsClock (token 5)
token_clock = record {
  reads_on = λ t. omega arith;
  timeout_on = λ d ms t. omega arith;
  begin_on = λ d t. omega arith;
  waits = λ d ms t some' h. waited (leb 3 t.clock) t h;
}

polled_soon :
    (touched : Bool) (t : Token) (ms : ℕ)
    → (polled touched t).1.clock ≤ t.clock + ms * nanos_per_millisecond + 1
polled_soon true t ms = omega arith
polled_soon false t ms = omega arith

pub token-IsPrompt : IsPrompt (token 5) 1
token-IsPrompt = record {
  read = λ t. omega arith;
  owner = λ t. omega arith;
  cancelled = λ d t. omega arith;
  timeout_set = λ d ms t. omega arith;
  begun = λ d t. omega arith;
  polled = λ d ms t. polled_soon (leb 3 t.clock) t ms;
}
