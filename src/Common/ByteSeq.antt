-- ===== src/Common/ByteSeq.antt =====
-- Byte sequences: `Vec<u8>`, `&[u8]`, `[u8; N]` and the bytes of a `str` are lists of numbers.
use Prim.Native.Nat.{ℕ, ◌<◌, compare, Ordering}
use mathlib.Core.Path.{◌≡◌, refl, ap, ◌∙◌}
use mathlib.Core.Bool.{Bool, true, false}
use mathlib.Core.Logic.{◌≢◌}
use mathlib.Core.List.{List, [], ◌∷◌, ◌++◌}
use native.Mathlib.Omega.{arith}
use fido_key_wrap.Common.Lists.{length, All}

abbrev pub Bytes : Type 0
Bytes = List ℕ

abbrev pub IsByte : ℕ → Type 0
IsByte b = b < 256

-- A value of the type `[u8; n]`.
abbrev pub IsArray : ℕ → Bytes → Type 0
IsArray n b = (length b ≡ n) × All IsByte b

-- The derived order of arrays and vectors: lexicographic.
unfoldable pub cmp_bytes : Bytes → Bytes → Ordering
cmp_bytes [] [] = Ordering.eq
cmp_bytes [] (b ∷ bs) = Ordering.lt
cmp_bytes (a ∷ as') [] = Ordering.gt
cmp_bytes (a ∷ as') (b ∷ bs) =
    let rest = cmp_bytes as' bs in
    elim (compare a b) [
      | Ordering.lt ↦ Ordering.lt
      | Ordering.eq ↦ rest
      | Ordering.gt ↦ Ordering.gt
    ]

abbrev pub lt_bytes : Bytes → Bytes → Bool
lt_bytes a b = elim (cmp_bytes a b) [ Ordering.lt ↦ true | _ ↦ false ]

abbrev pub eq_bytes : Bytes → Bytes → Bool
eq_bytes a b = elim (cmp_bytes a b) [ Ordering.eq ↦ true | _ ↦ false ]

pub cmp_bytes_refl : (a : Bytes) → cmp_bytes a a ≡ Ordering.eq
unfolding cmp_bytes
cmp_bytes_refl [] = refl
cmp_bytes_refl (x ∷ xs) = ground (arith, cmp_bytes_refl xs)

pub eq_of_cmp_bytes : (a b : Bytes) → cmp_bytes a b ≡ Ordering.eq → a ≡ b
unfolding cmp_bytes
eq_of_cmp_bytes [] [] h = refl
eq_of_cmp_bytes [] (y ∷ ys) h = cc
eq_of_cmp_bytes (x ∷ xs) [] h = cc
eq_of_cmp_bytes (x ∷ xs) (y ∷ ys) h = ground (arith, eq_of_cmp_bytes xs ys)

pub cmp_bytes_swap_lt : (a b : Bytes) → cmp_bytes a b ≡ Ordering.lt → cmp_bytes b a ≡ Ordering.gt
unfolding cmp_bytes
cmp_bytes_swap_lt [] [] h = cc
cmp_bytes_swap_lt [] (y ∷ ys) h = refl
cmp_bytes_swap_lt (x ∷ xs) [] h = cc
cmp_bytes_swap_lt (x ∷ xs) (y ∷ ys) h = ground (arith, cmp_bytes_swap_lt xs ys)

pub cmp_bytes_swap_gt : (a b : Bytes) → cmp_bytes a b ≡ Ordering.gt → cmp_bytes b a ≡ Ordering.lt
unfolding cmp_bytes
cmp_bytes_swap_gt [] [] h = cc
cmp_bytes_swap_gt [] (y ∷ ys) h = cc
cmp_bytes_swap_gt (x ∷ xs) [] h = refl
cmp_bytes_swap_gt (x ∷ xs) (y ∷ ys) h = ground (arith, cmp_bytes_swap_gt xs ys)

pub cmp_bytes_trans :
    (a b c : Bytes)
    → cmp_bytes a b ≡ Ordering.lt
    → cmp_bytes b c ≡ Ordering.lt
    → cmp_bytes a c ≡ Ordering.lt
unfolding cmp_bytes
cmp_bytes_trans [] [] c h k = cc
cmp_bytes_trans [] (y ∷ ys) [] h k = cc
cmp_bytes_trans [] (y ∷ ys) (z ∷ zs) h k = refl
cmp_bytes_trans (x ∷ xs) [] c h k = cc
cmp_bytes_trans (x ∷ xs) (y ∷ ys) [] h k = cc
cmp_bytes_trans (x ∷ xs) (y ∷ ys) (z ∷ zs) h k = ground (arith, cmp_bytes_trans xs ys zs)

pub eq_bytes_refl : (a : Bytes) → eq_bytes a a ≡ true
eq_bytes_refl a = ground (arith, cmp_bytes_refl a)

pub eq_bytes→eq : (a b : Bytes) → eq_bytes a b ≡ true → a ≡ b
eq_bytes→eq a b h = ground (arith, eq_of_cmp_bytes a b)

pub ne→eq_bytes_false : (a b : Bytes) → a ≢ b → eq_bytes a b ≡ false
ne→eq_bytes_false a b h = ground (arith, eq_of_cmp_bytes a b)

-- `bytes[bytes.len() - 1]` of the nonempty `b ∷ bs`
abbrev pub last : ℕ → Bytes → ℕ
last b [] = b
last b (c ∷ cs) = last c cs

-- What stands before the last byte of `b ∷ bs`.
abbrev pub front : ℕ → Bytes → Bytes
front b [] = []
front b (c ∷ cs) = b ∷ front c cs

pub last-append : (b : ℕ) (bs f : Bytes) (x : ℕ) → b ∷ bs ≡ f ++ (x ∷ []) → last b bs ≡ x
last-append b [] [] x e = cc
last-append b [] (y ∷ []) x e = cc
last-append b [] (y ∷ z ∷ f) x e = cc
last-append b (c ∷ cs) [] x e = cc
last-append b (c ∷ cs) (y ∷ f) x e = last-append c cs f x (cc)

front-append-last : (b : ℕ) (bs : Bytes) → b ∷ bs ≡ front b bs ++ (last b bs ∷ [])
front-append-last b [] = refl
front-append-last b (c ∷ cs) = ap (λ t. b ∷ t) (front-append-last c cs)

pub append-of_last : (b : ℕ) (bs : Bytes) (x : ℕ) → last b bs ≡ x → b ∷ bs ≡ front b bs ++ (x ∷ [])
append-of_last b bs x e = front-append-last b bs ∙ ap (λ (t : ℕ). front b bs ++ (t ∷ [])) e

pub All-last : (P : ℕ → Type 0) (b : ℕ) (bs : Bytes) → All P (b ∷ bs) → P (last b bs)
All-last P b [] h = h.0
All-last P b (c ∷ cs) h = All-last P c cs h.1
