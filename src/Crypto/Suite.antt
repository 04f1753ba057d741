-- ===== src/Crypto/Suite.antt =====
-- What crates/fido-key-wrap/src/crypto.rs takes from other crates: sha2, hkdf, hmac, aes-gcm and
-- argon2, with the failures that their interfaces have.
use fido_key_wrap.Common.{ℕ, ◌≡◌, Bool, Option, some, Bytes, IsArray, IsByte, All, length}

pub record Suite : Type 0 where
  pub sha256 : Bytes → Bytes
  -- Extraction from a salt and key material, then expansion with an info to 32 bytes.
  pub hkdf : Bytes → Bytes → Bytes → Option Bytes
  pub hmac : Bytes → Bytes → Option Bytes
  -- `encrypt_in_place_detached`: key, nonce, associated data, plaintext; the ciphertext and the tag.
  pub encrypt : Bytes → Bytes → Bytes → Bytes → Option (Bytes × Bytes)
  -- `decrypt_in_place_detached`: key, nonce, associated data, ciphertext, tag.
  pub decrypt : Bytes → Bytes → Bytes → Bytes → Bytes → Option Bytes
  -- `Params::new`, with its block count
  pub argon2_block_count : ℕ → ℕ → ℕ → Option ℕ
  -- whether memory for that many blocks can be reserved
  pub reserve : ℕ → Bool
  -- memory, passes, lanes, passphrase, salt
  pub argon2 : ℕ → ℕ → ℕ → Bytes → Bytes → Option Bytes

-- The documented behaviour: digests, keys and macs have 32 bytes; a 32-byte key encrypts, with a
-- ciphertext of the plaintext's length and a 16-byte tag, and decryption undoes encryption.
pub record SuiteLaws (s : Suite) : Type 0 where
  pub sha256_array : (m : Bytes) → IsArray 32 (s.sha256 m)
  pub hkdf_total : (salt ikm info : Bytes) → (k : Bytes) × (s.hkdf salt ikm info ≡ some k)
  pub hkdf_array : (salt ikm info k : Bytes) → s.hkdf salt ikm info ≡ some k → IsArray 32 k
  pub hmac_total : (key m : Bytes) → (t : Bytes) × (s.hmac key m ≡ some t)
  pub hmac_array : (key m t : Bytes) → s.hmac key m ≡ some t → IsArray 32 t
  pub encrypt_total :
      (key nonce aad p : Bytes)
      → IsArray 32 key
      → IsArray 12 nonce
      → All IsByte p
      → (c : Bytes) × (t : Bytes) × (s.encrypt key nonce aad p ≡ some (c, t))
  pub encrypt_shape :
      (key nonce aad p c t : Bytes)
      → s.encrypt key nonce aad p ≡ some (c, t)
      → (length c ≡ length p) × All IsByte c × IsArray 16 t
  pub decrypt_back :
      (key nonce aad p c t : Bytes)
      → s.encrypt key nonce aad p ≡ some (c, t)
      → s.decrypt key nonce aad c t ≡ some p
