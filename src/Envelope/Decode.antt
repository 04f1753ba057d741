-- ===== src/Envelope/Decode.antt =====
-- crates/fido-key-wrap/src/envelope.rs: the reader. A decoder is the input that is left, and each
-- step returns a value with what it leaves.
use fido_key_wrap.Common.{
  ℕ, zero, suc, Bool, not, ◌&&◌, ◌||◌, Option, none, some, List, [], ◌∷◌, leb, ltb, ◌==◌,
  if◌then◌else◌, Bytes, length, take, drop, eq_bytes,
}
use fido_key_wrap.Error
use fido_key_wrap.Error.{Result, ok, err, ok_or, map_err, reject_if, invalid_envelope}
use fido_key_wrap.Policy.{FidoPolicy, FidoStorage, non_discoverable, managed, from_code}
use fido_key_wrap.Policy.Parameters
use fido_key_wrap.Policy.Parameters.{usize_max}
use fido_key_wrap.Policy.Label.{validate_label}
use fido_key_wrap.Ident.Application
use fido_key_wrap.Envelope.{
  max_envelope_size, max_recipients, max_credential_id, root_bytes, envelope_id_bytes,
  recipient_id_bytes, public_key_bytes, prf_nonce_bytes, gcm_nonce_bytes, argon2_salt_bytes,
  wrapped_root_bytes, combined_wrapped_root_bytes, RecipientRecord, passphrase, recovery_secret,
  fido, fido_and_passphrase, fido_and_local_secret, KdfDescriptor, KeyEnvelope,
}
use fido_key_wrap.Envelope.Wire.{Wire}
use fido_key_wrap.Envelope.Encode.{
  magic, format_version, passphrase_suite, fido_suite, fido_and_passphrase_suite,
  recovery_secret_suite, managed_fido_suite, fido_and_local_secret_suite, argon2id_kdf, encode,
}
use fido_key_wrap.Envelope.Recipients.{validate_recipient_set}

abbrev pub Decoder : Type 0 → Type 0
Decoder A = Bytes → Result (A × Bytes)

infixl 5 ◌>>=◌ ◌>>◌
abbrev pub ◌>>=◌ : {A B : Type 0} → Decoder A → (A → Decoder B) → Decoder B
◌>>=◌ p f ts = Error.◌>>=◌ (p ts) (λ (a, rest). f a rest)

abbrev pub ◌>>◌ : {B : Type 0} → Decoder (Unit {0}) → Decoder B → Decoder B
p >> q = p >>= λ _. q

abbrev pub pure : {A : Type 0} → A → Decoder A
pure a ts = ok (a, ts)

-- A check that reads nothing.
abbrev pub lift : {A : Type 0} → Result A → Decoder A
lift (ok a) ts = ok (a, ts)
lift (err e) ts = err e

-- `.map_err(invalid)`
abbrev pub read : {A : Type 0} → (Bytes → Option (A × Bytes)) → Decoder A
read p ts = ok_or invalid_envelope (p ts)

-- `usize::try_from`
unfoldable pub to_usize : Option ℕ → Result ℕ
to_usize none = err invalid_envelope
to_usize (some n) = if leb n usize_max then ok n else err invalid_envelope

-- An input that is too large or does not begin with the magic.
abbrev pub bad_header : Bytes → Bool
bad_header input =
    ltb max_envelope_size (length input)
    || ltb (length input) (length magic)
    || not (eq_bytes (take (length magic) input) magic)

module _ (w : Wire) where
  open w use {dec_array, dec_u8, dec_u32, dec_str, dec_bytes, is_sec1_point}

  unfoldable pub definite_array_len : Decoder ℕ
  definite_array_len = do n ← read dec_array; lift (to_usize n)

  unfoldable pub require_array : ℕ → Decoder (Unit {0})
  require_array expected = do
    n ← definite_array_len
    lift (reject_if (not (n == expected)) invalid_envelope)

  unfoldable pub exact_bytes : ℕ → Decoder Bytes
  exact_bytes n = do
    b ← read dec_bytes
    lift (reject_if (not (length b == n)) invalid_envelope)
    pure b

  unfoldable pub decode_label : Decoder Bytes
  decode_label = do
    label ← read dec_str
    lift (ok_or invalid_envelope (validate_label label))
    pure label

  unfoldable pub decode_credential_id : Decoder Bytes
  decode_credential_id = do
    c ← read dec_bytes
    lift (reject_if ((length c == 0) || ltb max_credential_id (length c)) invalid_envelope)
    pure c

  -- `PublicKey64::new` of the bytes that `exact_bytes` returned
  unfoldable pub new_public_key : Bytes → Result Bytes
  new_public_key b = if is_sec1_point (4 ∷ b) then ok b else err invalid_envelope

  unfoldable pub decode_public_key : Decoder Bytes
  decode_public_key = do b ← exact_bytes public_key_bytes; lift (new_public_key b)

  unfoldable pub decode_policy : Decoder FidoPolicy
  decode_policy = do c ← read dec_u8; lift (from_code c)

  unfoldable pub decode_kdf : Decoder KdfDescriptor
  decode_kdf = do
    require_array 5
    kdf ← read dec_u8
    lift (reject_if (not (kdf == argon2id_kdf)) invalid_envelope)
    memory_kib ← read dec_u32
    passes ← read dec_u32
    lanes ← read dec_u8
    parameters ← lift (Parameters.decode memory_kib passes lanes)
    salt ← exact_bytes argon2_salt_bytes
    pure (record { parameters = parameters; salt = salt })

  unfoldable pub decode_passphrase_recipient : Decoder RecipientRecord
  decode_passphrase_recipient = do
    id ← exact_bytes recipient_id_bytes
    label ← decode_label
    kdf ← decode_kdf
    passphrase_nonce ← exact_bytes gcm_nonce_bytes
    wrapped_root ← exact_bytes wrapped_root_bytes
    pure (
        passphrase (record {
          id = id;
          label = label;
          kdf = kdf;
          passphrase_nonce = passphrase_nonce;
          wrapped_root = wrapped_root;
        }))

  unfoldable pub decode_recovery_secret_recipient : Decoder RecipientRecord
  decode_recovery_secret_recipient = do
    id ← exact_bytes recipient_id_bytes
    label ← decode_label
    recovery_nonce ← exact_bytes gcm_nonce_bytes
    wrapped_root ← exact_bytes wrapped_root_bytes
    pure (
        recovery_secret (record {
          id = id;
          label = label;
          recovery_nonce = recovery_nonce;
          wrapped_root = wrapped_root;
        }))

  unfoldable pub decode_fido_recipient : FidoStorage → Decoder RecipientRecord
  decode_fido_recipient storage = do
    id ← exact_bytes recipient_id_bytes
    label ← decode_label
    credential_id ← decode_credential_id
    public_key ← decode_public_key
    policy ← decode_policy
    prf_nonce ← exact_bytes prf_nonce_bytes
    fido_nonce ← exact_bytes gcm_nonce_bytes
    wrapped_root ← exact_bytes wrapped_root_bytes
    pure (
        fido (record {
          id = id;
          label = label;
          credential_id = credential_id;
          public_key = public_key;
          policy = policy;
          storage = storage;
          prf_nonce = prf_nonce;
          fido_nonce = fido_nonce;
          wrapped_root = wrapped_root;
        }))

  unfoldable pub decode_fido_and_passphrase_recipient : Decoder RecipientRecord
  decode_fido_and_passphrase_recipient = do
    id ← exact_bytes recipient_id_bytes
    label ← decode_label
    credential_id ← decode_credential_id
    public_key ← decode_public_key
    policy ← decode_policy
    prf_nonce ← exact_bytes prf_nonce_bytes
    fido_nonce ← exact_bytes gcm_nonce_bytes
    kdf ← decode_kdf
    passphrase_nonce ← exact_bytes gcm_nonce_bytes
    wrapped_root ← exact_bytes combined_wrapped_root_bytes
    pure (
        fido_and_passphrase (record {
          id = id;
          label = label;
          credential_id = credential_id;
          public_key = public_key;
          policy = policy;
          prf_nonce = prf_nonce;
          fido_nonce = fido_nonce;
          kdf = kdf;
          passphrase_nonce = passphrase_nonce;
          wrapped_root = wrapped_root;
        }))

  unfoldable pub decode_fido_and_local_secret_recipient : Decoder RecipientRecord
  decode_fido_and_local_secret_recipient = do
    id ← exact_bytes recipient_id_bytes
    label ← decode_label
    credential_id ← decode_credential_id
    public_key ← decode_public_key
    prf_nonce ← exact_bytes prf_nonce_bytes
    wrap_nonce ← exact_bytes gcm_nonce_bytes
    wrapped_root ← exact_bytes wrapped_root_bytes
    pure (
        fido_and_local_secret (record {
          id = id;
          label = label;
          credential_id = credential_id;
          public_key = public_key;
          prf_nonce = prf_nonce;
          wrap_nonce = wrap_nonce;
          wrapped_root = wrapped_root;
        }))

  -- The `match` on the suite and the length of its array.
  unfoldable pub decode_suite : ℕ → ℕ → Decoder RecipientRecord
  decode_suite suite n =
      if (suite == passphrase_suite) && (n == 6)
      then decode_passphrase_recipient
      else if (suite == recovery_secret_suite) && (n == 5)
      then decode_recovery_secret_recipient
      else if (suite == fido_suite) && (n == 9)
      then decode_fido_recipient non_discoverable
      else if (suite == managed_fido_suite) && (n == 9)
      then decode_fido_recipient managed
      else if (suite == fido_and_passphrase_suite) && (n == 11)
      then decode_fido_and_passphrase_recipient
      else if (suite == fido_and_local_secret_suite) && (n == 8)
      then decode_fido_and_local_secret_recipient
      else lift (err invalid_envelope)

  unfoldable pub decode_recipient : Decoder RecipientRecord
  decode_recipient = do n ← definite_array_len; suite ← read dec_u8; decode_suite suite n

  -- The loop over `0..recipient_count`.
  unfoldable pub decode_recipients : ℕ → Decoder (List RecipientRecord)
  decode_recipients zero = pure []
  decode_recipients (suc n) = do r ← decode_recipient; rs ← decode_recipients n; pure (r ∷ rs)

  -- The fields behind the magic, up to the mac.
  unfoldable pub decode_fields : Decoder KeyEnvelope
  decode_fields = do
    require_array 5
    version ← read dec_u8
    lift (reject_if (not (version == format_version)) invalid_envelope)
    application ← read dec_str
    application_id ← lift (map_err invalid_envelope (Application.new application))
    envelope_id ← exact_bytes envelope_id_bytes
    count ← definite_array_len
    lift (reject_if (not (leb 1 count && leb count max_recipients)) invalid_envelope)
    recipients ← decode_recipients count
    mac ← exact_bytes root_bytes
    pure (record {
      application_id = application_id;
      envelope_id = envelope_id;
      recipients = recipients;
      mac = mac;
    })

  -- What follows the reading: nothing is left, the recipient set is valid, and the envelope
  -- encodes to the very input.
  unfoldable pub finish : Bytes → KeyEnvelope × Bytes → Result KeyEnvelope
  finish input (e, rest) = Error.◌>>◌ (reject_if (not (length rest == 0)) invalid_envelope) (
      Error.◌>>◌ (validate_recipient_set e.recipients)
        (Error.◌>>◌ (reject_if (not (eq_bytes (encode w e) input)) invalid_envelope) (ok e)))

  -- `KeyEnvelope::decode`
  unfoldable pub decode : Bytes → Result KeyEnvelope
  decode input =
      Error.◌>>◌ (reject_if (bad_header input) invalid_envelope)
        (Error.◌>>=◌ (decode_fields (drop (length magic) input)) (finish input))
