-- ===== src/Tool/Container/Decoding.antt =====
-- The container of crates/fkw-tool/src/container.rs: an encoding is read back.
use fido_key_wrap.Common.{
  ℕ, zero, suc, ◌+◌, ◌-◌, ◌*◌, ◌^◌, ◌≤◌, ◌<◌, ◌≡◌, refl, ap, sym, ◌∙◌, ◌↔◌, Bool, true, false, not,
  ltb, leb, ◌==◌, List, [], ◌∷◌, ◌++◌, append_assoc, append-nil, Bytes, IsByte, All, length, take,
  drop, eq_bytes, eq_bytes→eq, eq_bytes_refl, length-append, take-append, drop-append, le→ltb_false,
  ltb_false→le, arith,
}
use fido_key_wrap.Native.Errors.{done}
use fido_key_wrap.Transcript.{to_be_bytes, length-to_be_bytes}
use fido_key_wrap.Tool.Container.{
  magic, format, nonce_bytes, tag_bytes, max_envelope_bytes, max_secret_bytes, max_container_bytes,
  SecretFile, validate_length, validate_ciphertext_len, encode, take_bytes, take_u32, decode,
  decode_body, decode_secret,
}

-- The bounds of a file.
pub record IsFile (file : SecretFile) : Type 0 where
  pub envelope_low : 1 ≤ length file.envelope
  pub envelope_high : length file.envelope ≤ max_envelope_bytes
  pub nonce_length : length file.secret.nonce ≡ nonce_bytes
  pub ciphertext_low : tag_bytes + 1 ≤ length file.secret.ciphertext
  pub ciphertext_high : length file.secret.ciphertext ≤ max_secret_bytes + tag_bytes

takes : (a rest : Bytes) (n : ℕ) → length a ≡ n → take_bytes n (a ++ rest) ≡ done (a, rest)
unfolding take_bytes
takes a rest n e = rw (
  ← e,
  le→ltb_false (length (a ++ rest)) (length a) (omega (arith, length-append a rest)),
  take-append a rest,
  drop-append a rest,
)

take_u32-back :
    (n : ℕ) (rest : Bytes) → n < 2 ^ 32 → take_u32 (to_be_bytes n ++ rest) ≡ done (n, rest)
unfolding take_u32 to_be_bytes
take_u32-back n rest h = rw (takes (to_be_bytes n) rest 4 refl) (ground arith)

abbrev pub tail : SecretFile → Bytes
tail file =
    file.secret.nonce ++ (to_be_bytes (length file.secret.ciphertext) ++ file.secret.ciphertext)

abbrev pub body : SecretFile → Bytes
body file = to_be_bytes (length file.envelope) ++ (file.envelope ++ tail file)

length-tail :
    (file : SecretFile)
    → length (tail file) ≡ length file.secret.nonce + 4 + length file.secret.ciphertext
length-tail file = omega (
  arith,
  length-append file.secret.nonce
      (to_be_bytes (length file.secret.ciphertext) ++ file.secret.ciphertext),
  length-append (to_be_bytes (length file.secret.ciphertext)) file.secret.ciphertext,
  length-to_be_bytes (length file.secret.ciphertext),
)

length-body :
    (file : SecretFile) → length (body file) ≡ 4 + length file.envelope + length (tail file)
length-body file = omega (
  arith,
  length-append (to_be_bytes (length file.envelope)) (file.envelope ++ tail file),
  length-append file.envelope (tail file),
  length-to_be_bytes (length file.envelope),
)

length-encode : (file : SecretFile) → length (encode file) ≡ 5 + length (body file)
unfolding encode
length-encode file = omega (
  arith,
  length-append magic ((format ∷ []) ++ body file),
  length-append (format ∷ []) (body file),
)

header :
    (file : SecretFile)
    → take_bytes (length magic) (encode file) ≡ done (magic, (format ∷ []) ++ body file)
unfolding encode
header file = takes magic ((format ∷ []) ++ body file) 4 refl

last_taken : (xs : Bytes) → take_bytes (length xs) xs ≡ done (xs, [])
last_taken xs = ap (take_bytes (length xs)) (sym (append-nil xs)) ∙ takes xs [] (length xs) refl

validated : (n low high : ℕ) → low ≤ n → n ≤ high → validate_length n low high ≡ done tt
unfolding validate_length
validated n low high h k = ground arith

small : (file : SecretFile) → IsFile file → ltb max_container_bytes (length (encode file)) ≡ false
small file v = le→ltb_false max_container_bytes (length (encode file)) (
    omega (
      arith,
      length-encode file,
      length-body file,
      length-tail file,
      v.envelope_high,
      v.nonce_length,
      v.ciphertext_high,
    ))

-- A file within the bounds is read back from its encoding.
pub decode-encode_file : (file : SecretFile) → IsFile file → decode (encode file) ≡ done file
unfolding decode decode_body decode_secret validate_ciphertext_len fido_key_wrap.Common.cmp_bytes
decode-encode_file file v = rw (
  small file v,
  header file,
  takes (format ∷ []) (body file) 1 refl,
  take_u32-back (length file.envelope) (file.envelope ++ tail file)
      (omega (arith, v.envelope_high)),
  validated (length file.envelope) 1 max_envelope_bytes v.envelope_low v.envelope_high,
  takes file.envelope (tail file) (length file.envelope) refl,
  takes file.secret.nonce (to_be_bytes (length file.secret.ciphertext) ++ file.secret.ciphertext)
      nonce_bytes v.nonce_length,
  take_u32-back (length file.secret.ciphertext) file.secret.ciphertext
      (omega (arith, v.ciphertext_high)),
  validated (length file.secret.ciphertext) (tag_bytes + 1) (max_secret_bytes + tag_bytes)
      v.ciphertext_low v.ciphertext_high,
  last_taken file.secret.ciphertext,
)
