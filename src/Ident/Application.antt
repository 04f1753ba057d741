-- ===== src/Ident/Application.antt =====
-- crates/fido-key-wrap/src/id.rs: `ApplicationId::new`. A string is the list of its UTF-8 bytes.
pub mod Grammar
use fido_key_wrap.Common.{
  ℕ, ◌+◌, ◌≤◌, ◌<◌, ◌≡◌, ◌≢◌, ◌↔◌, refl, ap, ◌∙◌, Bool, true, false, not, ◌&&◌, ◌||◌, List, [], ◌∷◌,
  ◌++◌, leb, ltb, ◌==◌, if◌then◌else◌, arith, Bytes, length, length-append, all, All, last, front,
  last-append, append-of_last, All-last, drop, Bool-cases, append_assoc, append-nil, inl, inr,
  leb→le,
}
use fido_key_wrap.Error.{Result, ok, err, reject_if, ◌>>=◌, ◌>>◌, invalid_application_id}

abbrev pub min_application_id_bytes : ℕ
min_application_id_bytes = 3

abbrev pub max_application_id_bytes : ℕ
max_application_id_bytes = 253

-- `str::split('.')`: the pieces between dots, one at least.
unfoldable pub split : Bytes → Bytes → List Bytes
split piece [] = piece ∷ []
split piece (b ∷ bs) = elim (b == 0x2e) [
  | true ↦ piece ∷ split [] bs
  | false ↦ split (piece ++ (b ∷ [])) bs
]

abbrev is_ascii_lowercase : ℕ → Bool
is_ascii_lowercase b = leb 0x61 b && leb b 0x7a

abbrev is_ascii_uppercase : ℕ → Bool
is_ascii_uppercase b = leb 0x41 b && leb b 0x5a

abbrev is_ascii_digit : ℕ → Bool
is_ascii_digit b = leb 0x30 b && leb b 0x39

abbrev is_ascii_alphanumeric : ℕ → Bool
is_ascii_alphanumeric b = is_ascii_lowercase b || is_ascii_uppercase b || is_ascii_digit b

abbrev label_byte : ℕ → Bool
label_byte b = is_ascii_lowercase b || is_ascii_digit b || (b == 0x2d)

-- The tests of one piece in the loop of `new`.
dns_label : Bytes → Bool
dns_label [] = false
dns_label (b ∷ bs) =
    not (ltb 63 (length (b ∷ bs)))
    && is_ascii_alphanumeric b
    && is_ascii_alphanumeric (last b bs)
    && all label_byte (b ∷ bs)

-- The loop, with the number of pieces seen before.
check_labels : ℕ → List Bytes → Result ℕ
check_labels count [] = ok count
check_labels count (l ∷ ls) = do
  reject_if (not (dns_label l)) invalid_application_id
  check_labels (count + 1) ls

-- `ApplicationId::new`
unfoldable pub new : Bytes → Result Bytes
unfolding split dns_label check_labels
new value = do
  reject_if
      (not (
          leb min_application_id_bytes (length value)
          && leb (length value) max_application_id_bytes)
        || not (all (λ b. ltb b 128) value))
      invalid_application_id
  count ← check_labels 0 (split [] value)
  reject_if (ltb count 2) invalid_application_id
  ok value
