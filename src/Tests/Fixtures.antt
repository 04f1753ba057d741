-- ===== src/Tests/Fixtures.antt =====
-- A small codec, a small cipher suite and a scripted world, with which the operations compute.
use fido_key_wrap.Common.{
  ℕ, zero, suc, ◌+◌, ◌%◌, ◌<◌, ◌≡◌, refl, ap, sym, Bool, true, Option, none, some, [], ◌∷◌, ◌++◌,
  Bytes, IsByte, IsArray, All, length, take, drop, replicate, length-replicate, take-append,
  drop-append, length-append, all, ltb, leb, if◌then◌else◌, arith, Bool-cases, inl, inr,
}
use mathlib.Core.Option.{some-injective}
use mathlib.Core.Path.{subst}
use fido_key_wrap.Envelope.Wire.{Wire, WireLaws}
use fido_key_wrap.Crypto.Suite.{Suite, SuiteLaws}

-- One element for a head or a number.
abbrev dec_number : Bytes → Option (ℕ × Bytes)
dec_number [] = none
dec_number (n ∷ rest) = some (n, rest)

abbrev dec_length : Bytes → Option (Option ℕ × Bytes)
dec_length [] = none
dec_length (n ∷ rest) = some (some n, rest)

abbrev dec_raw : Bytes → Option (Bytes × Bytes)
dec_raw [] = none
dec_raw (n ∷ rest) = if leb n (length rest) then some (take n rest, drop n rest) else none

abbrev are_bytes : Bytes → Bool
are_bytes bs = all (λ b. ltb b 256) bs

abbrev only_bytes : Option (Bytes × Bytes) → Option (Bytes × Bytes)
only_bytes none = none
only_bytes (some (b, rest)) = if are_bytes b then some (b, rest) else none

abbrev pub small_wire : Wire
small_wire = record {
  enc_array = λ n. n ∷ [];
  enc_u8 = λ n. n ∷ [];
  enc_u32 = λ n. n ∷ [];
  enc_str = λ t. length t ∷ t;
  enc_bytes = λ b. length b ∷ b;
  dec_array = dec_length;
  dec_u8 = dec_number;
  dec_u32 = dec_number;
  dec_str = dec_raw;
  dec_bytes = λ t. only_bytes (dec_raw t);
  is_sec1_point = λ _. true;
}

are_bytes-of_All : (b : Bytes) → All IsByte b → are_bytes b ≡ true
are_bytes-of_All [] h = refl
are_bytes-of_All (x ∷ xs) h = ground (arith, h.0, are_bytes-of_All xs h.1)

pub All-of_are_bytes : (b : Bytes) → are_bytes b ≡ true → All IsByte b
All-of_are_bytes [] h = tt
All-of_are_bytes (x ∷ xs) h = (ground arith, All-of_are_bytes xs (ground arith))

raw_back : (b rest : Bytes) → dec_raw ((length b ∷ b) ++ rest) ≡ some (b, rest)
raw_back b rest =
    let fits : leb (length b) (length (b ++ rest)) ≡ true = ground (arith, length-append b rest) in
    rw (fits, take-append b rest, drop-append b rest) refl

only_bytes-range :
    (m : Option (Bytes × Bytes)) (b rest : Bytes) → only_bytes m ≡ some (b, rest) → All IsByte b
only_bytes-range none b rest h = cc
only_bytes-range (some (c, t)) b rest h = elim (Bool-cases (are_bytes c)) [
  | inl good ↦ subst (All IsByte) (cc (rw good at h)) (All-of_are_bytes c good)
  | inr bad ↦ cc (rw bad at h)
]

pub small_wire_laws : WireLaws small_wire
small_wire_laws = record {
  array_back = λ n rest h. refl;
  u8_back = λ n rest h. refl;
  u32_back = λ n rest h. refl;
  str_back = λ t rest h k. raw_back t rest;
  bytes_back = λ b rest h k. rw (raw_back b rest, are_bytes-of_All b h) refl;
  bytes_range = λ ts b rest h. only_bytes-range (dec_raw ts) b rest h;
  array_size = λ n. omega arith;
  u8_size = λ n. omega arith;
  u32_size = λ n. omega arith;
  str_size = λ t. omega arith;
  bytes_size = λ b. omega arith;
}

abbrev total : Bytes → ℕ
total [] = 0
total (b ∷ bs) = b + total bs

-- 32 equal bytes that depend on the message.
abbrev checksum : Bytes → Bytes
checksum m = replicate 32 (total m % 251)

abbrev tag : Bytes
tag = replicate 16 9

abbrev small_encrypt : Bytes → Option (Bytes × Bytes)
small_encrypt p = if are_bytes p then some (p, tag) else none

abbrev pub small_suite : Suite
small_suite = record {
  sha256 = λ m. checksum m;
  hkdf = λ salt ikm info. some (checksum (salt ++ (ikm ++ info)));
  hmac = λ key m. some (checksum (key ++ m));
  encrypt = λ key nonce aad p. small_encrypt p;
  decrypt = λ key nonce aad c t. some c;
  argon2_block_count = λ memory passes lanes. some memory;
  reserve = λ n. true;
  argon2 = λ memory passes lanes pass salt. some (checksum (pass ++ salt));
}

pub replicate-IsByte : (n b : ℕ) → b < 256 → All IsByte (replicate n b)
replicate-IsByte zero b h = tt
replicate-IsByte (suc n) b h = (h, replicate-IsByte n b h)

checksum-IsArray : (m : Bytes) → IsArray 32 (checksum m)
checksum-IsArray m =
    (length-replicate 32 (total m % 251), replicate-IsByte 32 (total m % 251) (omega arith))

some_array : (m k : Bytes) → some (checksum m) ≡ some k → IsArray 32 k
some_array m k h =
    let same : checksum m ≡ k = some-injective _ _ h in subst (IsArray 32) same (checksum-IsArray m)

encrypted : (p c t : Bytes) → small_encrypt p ≡ some (c, t) → (c ≡ p) × (t ≡ tag) × All IsByte p
encrypted p c t h = elim (Bool-cases (are_bytes p)) [
  | inl good ↦ (cc (rw good at h), cc (rw good at h), All-of_are_bytes p good)
  | inr bad ↦ cc (rw bad at h)
]

pub small_suite_laws : SuiteLaws small_suite
small_suite_laws = record {
  sha256_array = λ m. checksum-IsArray m;
  hkdf_total = λ salt ikm info. (_, refl);
  hkdf_array = λ salt ikm info k h. some_array (salt ++ (ikm ++ info)) k h;
  hmac_total = λ key m. (_, refl);
  hmac_array = λ key m t h. some_array (key ++ m) t h;
  encrypt_total = λ key nonce aad p hk hn hp. (p, tag, rw (are_bytes-of_All p hp) refl);
  encrypt_shape = λ key nonce aad p c t h.
      let (cp, tt', hp) = encrypted p c t h in
      (
        ap length cp,
        subst (All IsByte) (sym cp) hp,
        subst (IsArray 16) (sym tt') (refl, replicate-IsByte 16 9 (omega arith)),
      );
  decrypt_back = λ key nonce aad p c t h. ap some (encrypted p c t h).0;
}
