-- ===== src/Native/Library.antt =====
-- What native.rs calls: the C library libfido2, through the declarations of
-- crates/fido-key-wrap-libfido2/src/ffi.rs, the random source of the system and its clock. A call
-- may change the world; what only reads an object of the library takes the world and leaves it.
-- An object of the library is a number, a pointer that may be null is an `Option`, and a pointer to
-- bytes is the bytes that stand there.
use fido_key_wrap.Common.{ℕ, Bool, Option, List, Bytes}
use fido_key_wrap.Native.Errors.{ℤ, Error}
use fido_key_wrap.Native.Action.{Action}

abbrev pub Handle : Type 0
Handle = ℕ

pub record Library (W : Type 0) : Type 0 where
  pub ensure_loaded : Action W Error (Unit {0})
  pub fido_init : ℤ → W → Unit {0} × W
  -- `getrandom::fill` of 32 bytes
  pub getrandom : W → Option Bytes × W
  -- `Instant::now`, in nanoseconds
  pub now : W → ℕ × W
  -- `Rc::new(())`, as the address of the allocation
  pub rc_new : W → ℕ × W
  pub fido_dev_info_new : ℕ → W → Option Handle × W
  -- The status, and the number of devices.
  pub fido_dev_info_manifest : Handle → ℕ → W → (ℤ × ℕ) × W
  pub fido_dev_info_ptr : Handle → ℕ → W → Option Handle
  pub fido_dev_info_path : Handle → W → Option Bytes
  pub fido_dev_new : W → Option Handle × W
  pub fido_dev_set_timeout : Handle → ℕ → W → ℤ × W
  pub fido_dev_open : Handle → Bytes → W → ℤ × W
  pub fido_dev_cancel : Handle → W → ℤ × W
  pub fido_dev_get_touch_begin : Handle → W → ℤ × W
  -- The status, and what is written to `touched`.
  pub fido_dev_get_touch_status : Handle → ℕ → W → (ℤ × ℤ) × W
  -- The status, and the count.
  pub fido_dev_get_retry_count : Handle → W → (ℤ × ℤ) × W
  pub fido_dev_is_fido2 : Handle → W → Bool
  pub fido_dev_supports_cred_prot : Handle → W → Bool
  pub fido_dev_supports_credman : Handle → W → Bool
  pub fido_dev_supports_pin : Handle → W → Bool
  pub fido_dev_has_pin : Handle → W → Bool
  pub fido_cbor_info_new : W → Option Handle × W
  pub fido_dev_get_cbor_info : Handle → Handle → W → ℤ × W
  pub fido_cbor_info_extensions_ptr : Handle → W → Option (List (Option Bytes))
  pub fido_cbor_info_extensions_len : Handle → W → ℕ
  pub fido_cbor_info_versions_ptr : Handle → W → Option (List (Option Bytes))
  pub fido_cbor_info_versions_len : Handle → W → ℕ
  pub fido_cbor_info_options_name_ptr : Handle → W → Option (List (Option Bytes))
  pub fido_cbor_info_options_value_ptr : Handle → W → Option (List Bool)
  pub fido_cbor_info_options_len : Handle → W → ℕ
  pub fido_cbor_info_algorithm_count : Handle → W → ℕ
  pub fido_cbor_info_algorithm_cose : Handle → ℕ → W → ℤ
  pub fido_cred_new : W → Option Handle × W
  pub fido_cred_set_clientdata_hash : Handle → Bytes → W → ℤ × W
  -- identity, name
  pub fido_cred_set_rp : Handle → Bytes → Bytes → W → ℤ × W
  -- identity, name, display name
  pub fido_cred_set_user : Handle → Bytes → Bytes → Bytes → W → ℤ × W
  pub fido_cred_set_type : Handle → ℤ → W → ℤ × W
  pub fido_cred_set_extensions : Handle → ℕ → W → ℤ × W
  pub fido_cred_set_prot : Handle → ℤ → W → ℤ × W
  pub fido_cred_set_rk : Handle → ℤ → W → ℤ × W
  pub fido_cred_set_uv : Handle → ℤ → W → ℤ × W
  pub fido_dev_make_cred : Handle → Handle → Bytes → W → ℤ × W
  pub fido_cred_verify : Handle → W → ℤ × W
  pub fido_cred_verify_self : Handle → W → ℤ × W
  pub fido_cred_fmt : Handle → W → Option Bytes
  pub fido_cred_type : Handle → W → ℤ
  pub fido_cred_prot : Handle → W → ℤ
  pub fido_cred_flags : Handle → W → ℕ
  pub fido_cred_x5c_ptr : Handle → W → Option Bytes
  pub fido_cred_x5c_len : Handle → W → ℕ
  pub fido_cred_id_ptr : Handle → W → Option Bytes
  pub fido_cred_id_len : Handle → W → ℕ
  pub fido_cred_pubkey_ptr : Handle → W → Option Bytes
  pub fido_cred_pubkey_len : Handle → W → ℕ
  pub fido_cred_user_id_ptr : Handle → W → Option Bytes
  pub fido_cred_user_id_len : Handle → W → ℕ
  pub fido_assert_new : W → Option Handle × W
  pub fido_assert_set_rp : Handle → Bytes → W → ℤ × W
  pub fido_assert_set_clientdata_hash : Handle → Bytes → W → ℤ × W
  pub fido_assert_allow_cred : Handle → Bytes → W → ℤ × W
  pub fido_assert_set_extensions : Handle → ℕ → W → ℤ × W
  pub fido_assert_set_hmac_salt : Handle → Bytes → W → ℤ × W
  pub fido_assert_set_up : Handle → ℤ → W → ℤ × W
  pub fido_assert_set_uv : Handle → ℤ → W → ℤ × W
  pub fido_dev_get_assert : Handle → Handle → Option Bytes → W → ℤ × W
  pub es256_pk_new : W → Option Handle × W
  pub es256_pk_from_ptr : Handle → Bytes → W → ℤ × W
  -- assertion, index, algorithm, key
  pub fido_assert_verify : Handle → ℕ → ℤ → Handle → W → ℤ × W
  pub fido_assert_count : Handle → W → ℕ
  pub fido_assert_flags : Handle → ℕ → W → ℕ
  pub fido_assert_id_ptr : Handle → ℕ → W → Option Bytes
  pub fido_assert_id_len : Handle → ℕ → W → ℕ
  pub fido_assert_hmac_secret_ptr : Handle → ℕ → W → Option Bytes
  pub fido_assert_hmac_secret_len : Handle → ℕ → W → ℕ
  pub fido_credman_rk_new : W → Option Handle × W
  pub fido_credman_get_dev_rk : Handle → Bytes → Handle → Bytes → W → ℤ × W
  pub fido_credman_del_dev_rk : Handle → Bytes → Bytes → W → ℤ × W
  pub fido_credman_rk_count : Handle → W → ℕ
  pub fido_credman_rk : Handle → ℕ → W → Option Handle
