-- ===== src/Transcript.antt =====
-- crates/fido-key-wrap/src/transcript.rs: byte transcripts for domain separation.
use fido_key_wrap.Common.{
  ℕ, ◌+◌, ◌*◌, ◌/◌, ◌%◌, ◌^◌, ◌≤◌, ◌<◌, ◌≡◌, refl, ◌∙◌, sym, ◌||◌, List, [], ◌∷◌, ◌++◌, leb, ltb,
  arith, Bytes, length, append-eq_length, inl, inr, All,
}
use fido_key_wrap.Error.{Result, Result-cases, ok, reject_if, ◌>>=◌, ◌>>◌, invalid_envelope}

abbrev pub max_fields : ℕ
max_fields = 32

abbrev usize_mod : ℕ
usize_mod = 2 ^ 64

-- `u32::to_be_bytes`
unfoldable pub to_be_bytes : ℕ → Bytes
to_be_bytes n = n / 2 ^ 24 % 256 ∷ n / 2 ^ 16 % 256 ∷ n / 2 ^ 8 % 256 ∷ n % 256 ∷ []

-- The fold that computes the capacity: each length fits a `u32`, and the sum a `usize`.
unfoldable pub check_capacity : ℕ → List Bytes → Result ℕ
check_capacity total [] = ok total
check_capacity total (f ∷ fs) = do
  reject_if (leb (2 ^ 32) (length f)) invalid_envelope
  reject_if (leb usize_mod (total + 4) || leb usize_mod (total + 4 + length f)) invalid_envelope
  check_capacity (total + 4 + length f) fs

-- The loop that writes the fields, each behind its length.
unfoldable pub write_fields : List Bytes → Bytes
write_fields [] = []
write_fields (f ∷ fs) = to_be_bytes (length f) ++ (f ++ write_fields fs)

unfoldable pub encode : List Bytes → Result Bytes
encode fields = do
  reject_if (ltb max_fields (length fields)) invalid_envelope
  _ ← check_capacity 4 fields
  ok (to_be_bytes (length fields) ++ write_fields fields)

pub to_be_bytes-injective :
    (m n : ℕ) → m < 2 ^ 32 → n < 2 ^ 32 → to_be_bytes m ≡ to_be_bytes n → m ≡ n
unfolding to_be_bytes
to_be_bytes-injective m n h k e = ground arith

pub length-to_be_bytes : (n : ℕ) → length (to_be_bytes n) ≡ 4
unfolding to_be_bytes
length-to_be_bytes n = refl

abbrev pub Fits : Bytes → Type 0
Fits f = length f < 2 ^ 32

check_capacity-Fits : (fs : List Bytes) (t : ℕ) {r : ℕ} → check_capacity t fs ≡ ok r → All Fits fs
unfolding check_capacity
check_capacity-Fits [] t h = tt
check_capacity-Fits (f ∷ fs) t {r} h =
    (ground arith, check_capacity-Fits fs (t + 4 + length f) {r = r} (ground arith))

-- The fields are read back one by one: each length says where the next field begins.
write_fields-injective :
    (fs gs : List Bytes)
    → All Fits fs
    → All Fits gs
    → length fs ≡ length gs
    → write_fields fs ≡ write_fields gs
    → fs ≡ gs
unfolding write_fields
write_fields-injective [] [] h k n e = refl
write_fields-injective [] (g ∷ gs) h k n e = absurd (omega arith)
write_fields-injective (f ∷ fs) [] h k n e = absurd (omega arith)
write_fields-injective (f ∷ fs) (g ∷ gs) (h, hs) (k, ks) n e =
    let (el, er) =
      append-eq_length (to_be_bytes (length f)) (to_be_bytes (length g)) (f ++ write_fields fs)
        (g ++ write_fields gs)
        (omega (arith, length-to_be_bytes (length f), length-to_be_bytes (length g))) e in
    let (ef, es) =
      append-eq_length f g (write_fields fs) (write_fields gs)
        (to_be_bytes-injective (length f) (length g) h k el) er in
    cc (ef, write_fields-injective fs gs hs ks (omega arith) es)

encode-parts :
    (fs : List Bytes) {b : Bytes}
    → encode fs ≡ ok b
    → (length fs ≤ max_fields) × All Fits fs × (b ≡ to_be_bytes (length fs) ++ write_fields fs)
unfolding encode
encode-parts fs h = elim (Result-cases (check_capacity 4 fs)) [
  | inl (c, e) ↦ (ground arith, check_capacity-Fits fs 4 e, ground arith)
  | inr (x, e) ↦ absurd (ground arith)
]

-- A transcript determines its fields: two field lists that encode to the same bytes are equal.
pub encode-injective :
    (fs gs : List Bytes) (b : Bytes) → encode fs ≡ ok b → encode gs ≡ ok b → fs ≡ gs
encode-injective fs gs b h k =
    let (hn, hf, he) = encode-parts fs h in
    let (kn, kf, ke) = encode-parts gs k in
    let (en, er) =
      append-eq_length (to_be_bytes (length fs)) (to_be_bytes (length gs)) (write_fields fs)
        (write_fields gs)
        (omega (arith, length-to_be_bytes (length fs), length-to_be_bytes (length gs)))
        (sym he ∙ ke) in
    write_fields-injective fs gs hf kf
      (to_be_bytes-injective (length fs) (length gs) (omega arith) (omega arith) en) er

check_capacity-total :
    (fs : List Bytes) (t : ℕ)
    → All Fits fs
    → t + length fs * (2 ^ 32 + 4) < usize_mod
    → (c : ℕ) × (check_capacity t fs ≡ ok c)
unfolding check_capacity
check_capacity-total [] t h k = (t, refl)
check_capacity-total (f ∷ fs) t (h, hs) k =
    let (c, e) = check_capacity-total fs (t + 4 + length f) hs (omega arith) in
    (c, ground (arith, e))

-- Up to 32 fields, each shorter than 4 GiB, always have a transcript.
pub encode-total :
    (fs : List Bytes) → length fs ≤ max_fields → All Fits fs → (b : Bytes) × (encode fs ≡ ok b)
unfolding encode
encode-total fs h k =
    let (c, e) = check_capacity-total fs 4 k (omega arith) in
    (to_be_bytes (length fs) ++ write_fields fs, ground (arith, e))
