-- ===== src/Tool/Container/Reading.antt =====
-- The container of crates/fkw-tool/src/container.rs: nothing is read but the encoding of a file within
-- the bounds.
use fido_key_wrap.Common.{
  ℕ, zero, suc, ◌+◌, ◌*◌, ◌^◌, ◌≤◌, ◌<◌, ◌≡◌, refl, ap, sym, ◌∙◌, ◌↔◌, Bool, true, false, not, ltb,
  ◌==◌, [], ◌∷◌, ◌++◌, Bytes, IsByte, All, length, take, drop, eq_bytes, eq_bytes→eq, ltb_false→le,
  append-nil, arith,
}
use mathlib.Core.Path.{subst}
use Prim.Native.String.{String}
use fido_key_wrap.Native.Errors.{done, fault_if, >>=-eq-done, same_done}
use fido_key_wrap.Transcript.{to_be_bytes}
use fido_key_wrap.Tool.Container.{
  magic, format, nonce_bytes, tag_bytes, max_envelope_bytes, max_secret_bytes, max_container_bytes,
  SecretFile, validate_length, validate_ciphertext_len, encode, take_bytes, from_be_bytes, take_u32,
  decode, decode_body, decode_secret,
}
use fido_key_wrap.Tool.Container.Decoding.{IsFile, tail, body, decode-encode_file}

split :
    (n : ℕ) (xs : Bytes) → n ≤ length xs → (xs ≡ take n xs ++ drop n xs) × (length (take n xs) ≡ n)
split zero xs h = (refl, refl)
split (suc n) [] h = absurd (omega arith)
split (suc n) (x ∷ xs) h =
    let (e, l) = split n xs (omega arith) in (ap (λ t. x ∷ t) e, omega (arith, l))

taken :
    (n : ℕ) (xs a rest : Bytes)
    → take_bytes n xs ≡ done (a, rest)
    → (xs ≡ a ++ rest) × (length a ≡ n)
unfolding take_bytes
taken n xs a rest h =
    let (_, fits, e) = >>=-eq-done (fault_if (ltb (length xs) n) _) _ h in
    let (parts, size) = split n xs (ltb_false→le (length xs) n (ground arith)) in
    let same = same_done e in
    (
      parts ∙ ap (λ (p : Bytes × Bytes). p.0 ++ p.1) same,
      ap (λ (p : Bytes × Bytes). length p.0) (sym same) ∙ size,
    )

be_back :
    (a b c d : ℕ)
    → a < 256
    → b < 256
    → c < 256
    → d < 256
    → to_be_bytes (a * 2 ^ 24 + b * 2 ^ 16 + c * 2 ^ 8 + d) ≡ a ∷ b ∷ c ∷ d ∷ []
unfolding to_be_bytes
be_back a b c d ha hb hc hd = ground arith

bytes_of : (a rest : Bytes) → All IsByte (a ++ rest) → All IsByte a × All IsByte rest
bytes_of [] rest h = (tt, h)
bytes_of (x ∷ a) rest h = let (ha, hr) = bytes_of a rest h.1 in ((h.0, ha), hr)

from_be-back : (bs : Bytes) → length bs ≡ 4 → All IsByte bs → to_be_bytes (from_be_bytes bs) ≡ bs
from_be-back [] l h = absurd (omega arith)
from_be-back (a ∷ []) l h = absurd (omega arith)
from_be-back (a ∷ b ∷ []) l h = absurd (omega arith)
from_be-back (a ∷ b ∷ c ∷ []) l h = absurd (omega arith)
from_be-back (a ∷ b ∷ c ∷ d ∷ []) l (ha, (hb, (hc, (hd, _)))) = be_back a b c d ha hb hc hd
from_be-back (a ∷ b ∷ c ∷ d ∷ e ∷ bs) l h = absurd (omega arith)

taken_u32 :
    (xs rest : Bytes) (n : ℕ)
    → All IsByte xs
    → take_u32 xs ≡ done (n, rest)
    → (xs ≡ to_be_bytes n ++ rest) × All IsByte rest
unfolding take_u32
taken_u32 xs rest n bytes h =
    let ((bs, r), et, e) = >>=-eq-done (take_bytes 4 xs) _ h in
    let (parts, size) = taken 4 xs bs r et in
    let (ours, theirs) = bytes_of bs r (subst (All IsByte) parts bytes) in
    let same = same_done e in
    let left = ap (λ (p : ℕ × Bytes). p.1) same in
    (
      parts
          ∙ ap (λ t. t ++ r) (sym (from_be-back bs size ours))
          ∙ ap (λ (p : ℕ × Bytes). to_be_bytes p.0 ++ p.1) same,
      subst (All IsByte) left theirs,
    )

within : (n low high : ℕ) → validate_length n low high ≡ done tt → (low ≤ n) × (n ≤ high)
unfolding validate_length
within n low high h = (ground arith, ground arith)

no_more :
    (xs : Bytes)
    → fault_if {E = String} (not (length xs == 0)) "the encrypted secret has trailing data"
      ≡ done tt
    → xs ≡ []
no_more [] h = refl
no_more (x ∷ xs) h = absurd (ground arith)

same_bytes : (a b : Bytes) (e : String) → fault_if (not (eq_bytes a b)) e ≡ done tt → a ≡ b
same_bytes a b e h = eq_bytes→eq a b (passed (eq_bytes a b) h)
  where
    passed : (t : Bool) → fault_if (not t) e ≡ done tt → t ≡ true
    passed true k = refl
    passed false k = cc k

-- What is behind the envelope of a file, and its bounds.
abbrev Holds : Bytes → Bytes → SecretFile → Type 0
Holds envelope rest file =
    (file.envelope ≡ envelope)
    × (rest ≡ tail file)
    × (length file.secret.nonce ≡ nonce_bytes)
    × (tag_bytes + 1 ≤ length file.secret.ciphertext)
    × (length file.secret.ciphertext ≤ max_secret_bytes + tag_bytes)

holds :
    (envelope rest nonce rest5 rest6 ciphertext rest7 : Bytes) (n : ℕ)
    → All IsByte rest
    → take_bytes nonce_bytes rest ≡ done (nonce, rest5)
    → take_u32 rest5 ≡ done (n, rest6)
    → validate_length n (tag_bytes + 1) (max_secret_bytes + tag_bytes) ≡ done tt
    → take_bytes n rest6 ≡ done (ciphertext, rest7)
    → rest7 ≡ []
    → Holds envelope rest
        (record { envelope = envelope; secret = record { nonce = nonce; ciphertext = ciphertext } })
holds envelope rest nonce rest5 rest6 ciphertext rest7 n bytes e5 e6 r e7 z =
    let (p5, size) = taken nonce_bytes rest nonce rest5 e5 in
    let (p6, _) =
      taken_u32 rest5 rest6 n (bytes_of nonce rest5 (subst (All IsByte) p5 bytes)).1 e6 in
    let (p7, long) = taken n rest6 ciphertext rest7 e7 in
    let (low, high) = within n (tag_bytes + 1) (max_secret_bytes + tag_bytes) r in
    (
      refl,
      p5
          ∙ ap (λ t. nonce ++ t)
              (p6
                ∙ ap (λ t. to_be_bytes n ++ t)
                    (p7 ∙ ap (λ t. ciphertext ++ t) z ∙ append-nil ciphertext)
                ∙ ap (λ m. to_be_bytes m ++ ciphertext) (sym long)),
      size,
      omega (arith, low, long),
      omega (arith, high, long),
    )

read_secret :
    (envelope rest : Bytes) (file : SecretFile)
    → All IsByte rest
    → decode_secret envelope rest ≡ done file
    → Holds envelope rest file
unfolding decode_secret validate_ciphertext_len
read_secret envelope rest file bytes h =
    let ((nonce, rest5), e5, h1) = >>=-eq-done (take_bytes nonce_bytes rest) _ h in
    let ((n, rest6), e6, h2) = >>=-eq-done (take_u32 rest5) _ h1 in
    let (_, r, h3) =
      >>=-eq-done (validate_length n (tag_bytes + 1) (max_secret_bytes + tag_bytes)) _ h2 in
    let ((ciphertext, rest7), e7, h4) = >>=-eq-done (take_bytes n rest6) _ h3 in
    let (_, z, h5) = >>=-eq-done (fault_if (not (length rest7 == 0)) _) _ h4 in
    subst (Holds envelope rest) (same_done h5)
      (holds envelope rest nonce rest5 rest6 ciphertext rest7 n bytes e5 e6 r e7 (no_more rest7 z))

-- What is behind the header.
bounded :
    (envelope rest2 rest3 rest4 : Bytes) (n : ℕ) (file : SecretFile)
    → All IsByte rest2
    → take_u32 rest2 ≡ done (n, rest3)
    → validate_length n 1 max_envelope_bytes ≡ done tt
    → take_bytes n rest3 ≡ done (envelope, rest4)
    → decode_secret envelope rest4 ≡ done file
    → IsFile file × (rest2 ≡ body file)
bounded envelope rest2 rest3 rest4 n file bytes e3 r e4 h =
    let (p3, bytes3) = taken_u32 rest2 rest3 n bytes e3 in
    let (p4, long) = taken n rest3 envelope rest4 e4 in
    let (low, high) = within n 1 max_envelope_bytes r in
    let (same, pt, size, least, most) =
      read_secret envelope rest4 file (bytes_of envelope rest4 (subst (All IsByte) p4 bytes3)).1
        h in
    let long' = ap length same ∙ long in
    (
      record {
        envelope_low = omega (arith, low, long');
        envelope_high = omega (arith, high, long');
        nonce_length = size;
        ciphertext_low = least;
        ciphertext_high = most;
      },
      p3
          ∙ ap (λ t. to_be_bytes n ++ t)
              (p4 ∙ ap (λ t. envelope ++ t) pt ∙ ap (λ t. t ++ tail file) (sym same))
          ∙ ap (λ m. to_be_bytes m ++ (file.envelope ++ tail file)) (sym long'),
    )

read_body :
    (rest2 : Bytes) (file : SecretFile)
    → All IsByte rest2
    → decode_body rest2 ≡ done file
    → IsFile file × (rest2 ≡ body file)
unfolding decode_body
read_body rest2 file bytes h =
    let ((n, rest3), e3, h1) = >>=-eq-done (take_u32 rest2) _ h in
    let (_, r, h2) = >>=-eq-done (validate_length n 1 max_envelope_bytes) _ h1 in
    let ((envelope, rest4), e4, h3) = >>=-eq-done (take_bytes n rest3) _ h2 in
    bounded envelope rest2 rest3 rest4 n file bytes e3 r e4 h3

headed :
    (input start rest1 version rest2 : Bytes) (file : SecretFile)
    → All IsByte input
    → take_bytes (length magic) input ≡ done (start, rest1)
    → start ≡ magic
    → take_bytes 1 rest1 ≡ done (version, rest2)
    → version ≡ format ∷ []
    → decode_body rest2 ≡ done file
    → IsFile file × (encode file ≡ input)
unfolding encode
headed input start rest1 version rest2 file bytes e1 m e2 f h =
    let (p1, _) = taken (length magic) input start rest1 e1 in
    let (p2, _) = taken 1 rest1 version rest2 e2 in
    let bytes1 = (bytes_of start rest1 (subst (All IsByte) p1 bytes)).1 in
    let (good, p3) =
      read_body rest2 file (bytes_of version rest2 (subst (All IsByte) p2 bytes1)).1 h in
    (
      good,
      sym (
          p1
          ∙ ap (λ t. t ++ rest1) m
          ∙ ap (λ t. magic ++ t) (p2 ∙ ap (λ t. t ++ rest2) f ∙ ap (λ t. (format ∷ []) ++ t) p3)),
    )

read :
    (input : Bytes) (file : SecretFile)
    → All IsByte input
    → decode input ≡ done file
    → IsFile file × (encode file ≡ input)
unfolding decode
read input file bytes h =
    let (_, _, h1) = >>=-eq-done (fault_if (ltb max_container_bytes (length input)) _) _ h in
    let ((start, rest1), e1, h2) = >>=-eq-done (take_bytes (length magic) input) _ h1 in
    let (_, m, h3) = >>=-eq-done (fault_if (not (eq_bytes start magic)) _) _ h2 in
    let ((version, rest2), e2, h4) = >>=-eq-done (take_bytes 1 rest1) _ h3 in
    let (_, f, h5) = >>=-eq-done (fault_if (not (eq_bytes version (format ∷ []))) _) _ h4 in
    headed input start rest1 version rest2 file bytes e1 (same_bytes start magic _ m) e2
      (same_bytes version (format ∷ []) _ f) h5

-- An input of bytes is read as a file exactly when the file is within the bounds of the format and the
-- input is its encoding.
pub decode_file_iff :
    (input : Bytes) (file : SecretFile)
    → All IsByte input
    → (decode input ≡ done file) ↔ (IsFile file × (encode file ≡ input))
decode_file_iff input file bytes =
    (λ h. read input file bytes h, λ h. ap decode (sym h.1) ∙ decode-encode_file file h.0)
