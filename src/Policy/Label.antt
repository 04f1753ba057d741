-- ===== src/Policy/Label.antt =====
-- crates/fido-key-wrap/src/policy.rs: `validate_label`.
use fido_key_wrap.Common.{
  ℕ, ◌≤◌, ◌≡◌, ◌≢◌, ◌↔◌, refl, ap, Bool, true, not, ◌&&◌, ◌||◌, Option, none, some, [], ◌∷◌, ◌++◌,
  leb, ltb, ◌==◌, if◌then◌else◌, arith, Bytes, length, all, All, last, front, last-append,
  append-of_last,
}

abbrev pub max_label_bytes : ℕ
max_label_bytes = 64

-- `(0x20..=0x7e).contains(byte)`
abbrev printable : ℕ → Bool
printable b = leb 0x20 b && leb b 0x7e

unfoldable pub validate_label : Bytes → Option (Unit {0})
validate_label [] = none
validate_label (b ∷ bs) =
    if ltb max_label_bytes (length (b ∷ bs))
      || (b == 0x20)
      || (last b bs == 0x20)
      || not (all printable (b ∷ bs))
    then none
    else some tt

abbrev pub IsPrintable : ℕ → Type 0
IsPrintable b = (0x20 ≤ b) × (b ≤ 0x7e)

-- What a label is: 1 to 64 printable ASCII bytes with no space at either end.
pub record IsLabel (l : Bytes) : Type 0 where
  pub nonempty : 1 ≤ length l
  pub bounded : length l ≤ max_label_bytes
  pub text : All IsPrintable l
  pub no_leading_space : (rest : Bytes) → l ≢ 0x20 ∷ rest
  pub no_trailing_space : (front : Bytes) → l ≢ front ++ (0x20 ∷ [])

all-printable : (l : Bytes) → all printable l ≡ true → All IsPrintable l
all-printable [] h = tt
all-printable (b ∷ bs) h = (ground arith, all-printable bs (ground arith))

printable-all : (l : Bytes) → All IsPrintable l → all printable l ≡ true
printable-all [] h = refl
printable-all (b ∷ bs) (h, hs) = ground (arith, printable-all bs hs)

pub IsLabel-of_validate : (l : Bytes) → validate_label l ≡ some tt → IsLabel l
unfolding validate_label
IsLabel-of_validate [] h = cc
IsLabel-of_validate (b ∷ bs) h = record {
  nonempty = omega arith;
  bounded = ground arith;
  text = all-printable (b ∷ bs) (ground arith);
  no_leading_space = λ rest e. ground arith;
  no_trailing_space = λ f e. ends (last-append b bs f 0x20 e);
}
  where
    ends : last b bs ≢ 0x20
    ends = ground arith

pub validate-of_IsLabel : (l : Bytes) → IsLabel l → validate_label l ≡ some tt
unfolding validate_label
validate-of_IsLabel [] h = absurd (omega arith)
validate-of_IsLabel (b ∷ bs) h = ground (arith, printable-all (b ∷ bs) h.text, no_lead, no_trail)
  where
    no_lead : b ≢ 0x20
    no_lead e = h.no_leading_space bs (ap (λ (t : ℕ). t ∷ bs) e)

    no_trail : last b bs ≢ 0x20
    no_trail e = h.no_trailing_space (front b bs) (append-of_last b bs 0x20 e)

-- `validate_label` accepts exactly the labels: 1 to 64 printable ASCII bytes with no space at
-- either end.
validate_label_iff : (l : Bytes) → (validate_label l ≡ some tt) ↔ IsLabel l
validate_label_iff l = (IsLabel-of_validate l, validate-of_IsLabel l)
