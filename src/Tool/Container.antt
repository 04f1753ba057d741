-- ===== src/Tool/Container.antt =====
-- crates/fkw-tool/src/container.rs: the file of an encrypted secret. An error is the text that `bail!`
-- or `context` gives it, and a `RootKey` and an `ApplicationId` are their bytes.
pub mod Decoding
pub mod Reading
pub mod Encryption
use Prim.Native.String.{String}
use fido_key_wrap.Common.{
  ℕ, ◌+◌, ◌-◌, ◌*◌, ◌^◌, Bool, not, ◌&&◌, ◌||◌, ltb, leb, ◌==◌, Option, none, some, List, [], ◌∷◌,
  ◌++◌, Bytes, length, take, drop, eq_bytes,
}
use fido_key_wrap.Common.Text.{ascii_bytes}
use fido_key_wrap.Native.Errors.{Outcome, fault, done, fault_if, done_or, ◌>>=◌, ◌>>◌}
use fido_key_wrap.Transcript.{to_be_bytes, write_fields}
use fido_key_wrap.Crypto.Suite.{Suite}

-- `FKW\0`
abbrev pub magic : Bytes
magic = 0x46 ∷ 0x4b ∷ 0x57 ∷ 0 ∷ []

abbrev pub format : ℕ
format = 1

abbrev pub nonce_bytes : ℕ
nonce_bytes = 12

abbrev pub tag_bytes : ℕ
tag_bytes = 16

abbrev pub max_envelope_bytes : ℕ
max_envelope_bytes = 65_536

abbrev pub max_secret_bytes : ℕ
max_secret_bytes = 1_024 * 1_024

abbrev pub max_container_bytes : ℕ
max_container_bytes =
    4 + 1 + 4 + max_envelope_bytes + nonce_bytes + 4 + max_secret_bytes + tag_bytes

pub record EncryptedSecret : Type 0 where
  pub nonce : Bytes
  pub ciphertext : Bytes

pub record SecretFile : Type 0 where
  pub envelope : Bytes
  pub secret : EncryptedSecret

unfoldable pub validate_length : ℕ → ℕ → ℕ → Outcome String (Unit {0})
validate_length len low high =
    fault_if (not (leb low len && leb len high)) "the encrypted secret is invalid"

unfoldable pub validate_envelope_len : Bytes → Outcome String (Unit {0})
validate_envelope_len envelope = validate_length (length envelope) 1 max_envelope_bytes

unfoldable pub validate_ciphertext_len : ℕ → Outcome String (Unit {0})
validate_ciphertext_len len = validate_length len (tag_bytes + 1) (max_secret_bytes + tag_bytes)

-- `transcript`, on a 64-bit `usize`: the loop over the lengths.
unfoldable pub check_lengths : ℕ → List Bytes → Outcome String (Unit {0})
check_lengths total [] = done tt
check_lengths total (f ∷ fs) = do
  fault_if (leb (2 ^ 32) (length f)) "transcript field is too large"
  fault_if (leb (2 ^ 64) (total + 4) || leb (2 ^ 64) (total + 4 + length f))
      "transcript is too large"
  check_lengths (total + 4 + length f) fs

unfoldable pub transcript : List Bytes → Outcome String Bytes
transcript fields = do
  fault_if (leb (2 ^ 32) (length fields)) "too many transcript fields"
  check_lengths 4 fields
  done (to_be_bytes (length fields) ++ write_fields fields)

unfoldable pub secret_aad : Bytes → Outcome String Bytes
secret_aad envelope = transcript (ascii_bytes "fkw-tool/format_1/secret_aad" ∷ envelope ∷ [])

abbrev pub invalid_plaintext : Bytes → Bool
invalid_plaintext plaintext = (length plaintext == 0) || ltb max_secret_bytes (length plaintext)

module _ (s : Suite) where
  open s use {hkdf, encrypt, decrypt}

  -- `Hkdf::extract` without a salt, then `expand`.
  unfoldable pub derive_secret_key : Bytes → Bytes → Outcome String Bytes
  derive_secret_key root application = do
    info ← transcript (ascii_bytes "fkw-tool/format_1/secret_encryption_key" ∷ application ∷ [])
    done_or "failed to derive the secret-encryption key" (hkdf [] root info)

  -- The ciphertext with the tag behind it, as `Aead::encrypt` returns it.
  abbrev pub joined : Option (Bytes × Bytes) → Option Bytes
  joined none = none
  joined (some (c, t)) = some (c ++ t)

  unfoldable pub encrypt_with_nonce :
      Bytes → Bytes → Bytes → Bytes → Bytes → Outcome String EncryptedSecret
  encrypt_with_nonce root application envelope plaintext nonce = do
    validate_envelope_len envelope
    fault_if (invalid_plaintext plaintext) "the secret must contain between 1 byte and 1 MiB"
    key ← derive_secret_key root application
    aad ← secret_aad envelope
    ciphertext ← done_or "failed to encrypt the secret" (joined (encrypt key nonce aad plaintext))
    done (record { nonce = nonce; ciphertext = ciphertext })

  -- `EncryptedSecret::encrypt`, with the outcome of `getrandom::fill`.
  unfoldable pub encrypt_secret :
      Bytes → Bytes → Bytes → Bytes → Option Bytes → Outcome String EncryptedSecret
  encrypt_secret root application envelope plaintext random = do
    fault_if (invalid_plaintext plaintext) "the secret must contain between 1 byte and 1 MiB"
    nonce ← done_or "secure randomness is unavailable" random
    encrypt_with_nonce root application envelope plaintext nonce

  -- `Aead::decrypt` splits the tag off the end.
  abbrev pub without_tag : Bytes → ℕ
  without_tag ciphertext = length ciphertext - tag_bytes

  unfoldable pub decrypt_secret : EncryptedSecret → Bytes → Bytes → Bytes → Outcome String Bytes
  decrypt_secret secret root application envelope = do
    validate_envelope_len envelope
    validate_ciphertext_len (length secret.ciphertext)
    key ← derive_secret_key root application
    aad ← secret_aad envelope
    plaintext ← done_or "the encrypted secret failed authentication" (
        decrypt key secret.nonce aad (take (without_tag secret.ciphertext) secret.ciphertext)
          (drop (without_tag secret.ciphertext) secret.ciphertext))
    fault_if (invalid_plaintext plaintext) "the encrypted secret is invalid"
    done plaintext

-- `SecretFile::new`
unfoldable pub new_file : Bytes → EncryptedSecret → Outcome String SecretFile
new_file envelope secret = do
  validate_envelope_len envelope
  validate_ciphertext_len (length secret.ciphertext)
  done (record { envelope = envelope; secret = secret })

unfoldable pub encode : SecretFile → Bytes
encode file =
    magic
    ++ ((format ∷ [])
        ++ (to_be_bytes (length file.envelope)
            ++ (file.envelope
                ++ (file.secret.nonce
                    ++ (to_be_bytes (length file.secret.ciphertext) ++ file.secret.ciphertext)))))

-- `ByteCursor::take`; a cursor is what is left of its input.
unfoldable pub take_bytes : ℕ → Bytes → Outcome String (Bytes × Bytes)
take_bytes len rest = do
  fault_if (ltb (length rest) len) "the encrypted secret file is truncated"
  done (take len rest, drop len rest)

-- `u32::from_be_bytes`
abbrev pub from_be_bytes : Bytes → ℕ
from_be_bytes (a ∷ b ∷ c ∷ d ∷ []) = a * 2 ^ 24 + b * 2 ^ 16 + c * 2 ^ 8 + d
from_be_bytes _ = 0

-- `ByteCursor::take_u32`
unfoldable pub take_u32 : Bytes → Outcome String (ℕ × Bytes)
take_u32 rest = do (bytes, rest') ← take_bytes 4 rest; done (from_be_bytes bytes, rest')

-- `SecretFile::decode` after the envelope.
unfoldable pub decode_secret : Bytes → Bytes → Outcome String SecretFile
decode_secret envelope rest4 = do
  (nonce, rest5) ← take_bytes nonce_bytes rest4
  (ciphertext_len, rest6) ← take_u32 rest5
  validate_ciphertext_len ciphertext_len
  (ciphertext, rest7) ← take_bytes ciphertext_len rest6
  fault_if (not (length rest7 == 0)) "the encrypted secret has trailing data"
  done (record { envelope = envelope; secret = record { nonce = nonce; ciphertext = ciphertext } })

-- `SecretFile::decode` after the header.
unfoldable pub decode_body : Bytes → Outcome String SecretFile
decode_body rest2 = do
  (envelope_len, rest3) ← take_u32 rest2
  validate_length envelope_len 1 max_envelope_bytes
  (envelope, rest4) ← take_bytes envelope_len rest3
  decode_secret envelope rest4

unfoldable pub decode : Bytes → Outcome String SecretFile
decode input = do
  fault_if (ltb max_container_bytes (length input)) "the encrypted secret file is too large"
  (start, rest1) ← take_bytes (length magic) input
  fault_if (not (eq_bytes start magic)) "this is not a supported fkw secret file"
  (version, rest2) ← take_bytes 1 rest1
  fault_if (not (eq_bytes version (format ∷ []))) "this is not a supported fkw secret file"
  decode_body rest2
