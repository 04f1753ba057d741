-- ===== src/Envelope/Wire.antt =====
-- What crates/fido-key-wrap/src/envelope.rs takes from other crates: the encoder and decoder of
-- `minicbor`, and the point check of `p256`. A decoder is the input that it has not read yet.
use fido_key_wrap.Common.{
  ℕ, ◌+◌, ◌^◌, ◌≤◌, ◌<◌, ◌≡◌, Bool, Option, some, ◌++◌, Bytes, IsByte, All, length,
}

pub record Wire : Type 0 where
  pub enc_array : ℕ → Bytes
  pub enc_u8 : ℕ → Bytes
  pub enc_u32 : ℕ → Bytes
  pub enc_str : Bytes → Bytes
  pub enc_bytes : Bytes → Bytes
  -- `none` is a decoder's error. An array of indefinite length has no length.
  pub dec_array : Bytes → Option (Option ℕ × Bytes)
  pub dec_u8 : Bytes → Option (ℕ × Bytes)
  pub dec_u32 : Bytes → Option (ℕ × Bytes)
  pub dec_str : Bytes → Option (Bytes × Bytes)
  pub dec_bytes : Bytes → Option (Bytes × Bytes)
  -- `PublicKey::from_sec1_bytes` accepts the 65 bytes of an uncompressed point.
  pub is_sec1_point : Bytes → Bool

-- The documented behaviour that the codec relies on: what is written is read back, whatever
-- follows it; a decoded value lies in its type; a header takes nine bytes at most.
pub record WireLaws (w : Wire) : Type 0 where
  pub array_back :
      (n : ℕ) (rest : Bytes)
      → n < 2 ^ 64
      → w.dec_array (w.enc_array n ++ rest) ≡ some (some n, rest)
  pub u8_back : (n : ℕ) (rest : Bytes) → n < 256 → w.dec_u8 (w.enc_u8 n ++ rest) ≡ some (n, rest)
  pub u32_back :
      (n : ℕ) (rest : Bytes) → n < 2 ^ 32 → w.dec_u32 (w.enc_u32 n ++ rest) ≡ some (n, rest)
  pub str_back :
      (s rest : Bytes)
      → All (λ b. b < 128) s
      → length s < 2 ^ 64
      → w.dec_str (w.enc_str s ++ rest) ≡ some (s, rest)
  pub bytes_back :
      (b rest : Bytes)
      → All IsByte b
      → length b < 2 ^ 64
      → w.dec_bytes (w.enc_bytes b ++ rest) ≡ some (b, rest)
  pub bytes_range : (ts b rest : Bytes) → w.dec_bytes ts ≡ some (b, rest) → All IsByte b
  pub array_size : (n : ℕ) → length (w.enc_array n) ≤ 9
  pub u8_size : (n : ℕ) → length (w.enc_u8 n) ≤ 2
  pub u32_size : (n : ℕ) → length (w.enc_u32 n) ≤ 5
  pub str_size : (s : Bytes) → length (w.enc_str s) ≤ length s + 9
  pub bytes_size : (b : Bytes) → length (w.enc_bytes b) ≤ length b + 9
