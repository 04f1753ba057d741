-- ===== src/Ident/Application/Grammar.antt =====
-- The texts that `ApplicationId::new` of crates/fido-key-wrap/src/id.rs accepts, as a grammar.
use fido_key_wrap.Common.{
  ℕ, ◌+◌, ◌*◌, ◌≤◌, ◌<◌, ◌≡◌, ◌≢◌, ◌↔◌, ◌⊎◌, inl, inr, refl, ap, ◌∙◌, sym, Bool, true, false, List,
  [], ◌∷◌, ◌++◌, ltb, ◌==◌, arith, Bytes, length, length-append, all, All, last, front, last-append,
  append-of_last, All-last, drop, Bool-cases, append_assoc, append-nil,
}
use fido_key_wrap.Error.{Result-cases, ok}
use fido_key_wrap.Ident.Application.{
  max_application_id_bytes, split, label_byte, dns_label, check_labels, new,
}

-- One dns label: 1 to 63 lowercase letters, digits and hyphens, with no hyphen at either end.
abbrev IsLabelByte : ℕ → Type 0
IsLabelByte b = (b ≡ 0x2d) ⊎ ((0x30 ≤ b) × (b ≤ 0x39)) ⊎ ((0x61 ≤ b) × (b ≤ 0x7a))

pub record IsDnsLabel (l : Bytes) : Type 0 where
  pub nonempty : 1 ≤ length l
  pub bounded : length l ≤ 63
  pub text : All IsLabelByte l
  pub no_leading_hyphen : (rest : Bytes) → l ≢ 0x2d ∷ rest
  pub no_trailing_hyphen : (f : Bytes) → l ≢ f ++ (0x2d ∷ [])

abbrev join_rest : List Bytes → Bytes
join_rest [] = []
join_rest (l ∷ ls) = 0x2e ∷ (l ++ join_rest ls)

-- The labels with a dot between neighbours.
abbrev pub join : List Bytes → Bytes
join ls = drop 1 (join_rest ls)

-- A text of two or more dns labels between dots, of at most 253 bytes.
pub record IsApplicationId (s : Bytes) : Type 0 where
  pub labels : List Bytes
  pub joined : s ≡ join labels
  pub each : All IsDnsLabel labels
  pub two : 2 ≤ length labels
  pub bounded : length s ≤ max_application_id_bytes

join_rest-split : (p s : Bytes) → join_rest (split p s) ≡ 0x2e ∷ (p ++ s)
unfolding split
join_rest-split p [] = refl
join_rest-split p (b ∷ bs) = elim (Bool-cases (b == 0x2e)) [
  | inl dot ↦ ground (arith, join_rest-split [] bs)
  | inr plain ↦
      rw (plain, split)
        (join_rest-split (p ++ (b ∷ [])) bs ∙ ap (λ t. 0x2e ∷ t) (append_assoc p (b ∷ []) bs))
]

label_byte-ne_dot : (b : ℕ) → IsLabelByte b → (b == 0x2e) ≡ false
label_byte-ne_dot b h = ground arith

split-join :
    (ls : List Bytes) (l p : Bytes)
    → All IsLabelByte l
    → All (All IsLabelByte) ls
    → split p (l ++ join_rest ls) ≡ (p ++ l) ∷ ls
unfolding split
split-join [] [] p h k = rw append-nil
split-join (m ∷ ms) [] p h k = rw (split-join ms m [] k.0 k.1, append-nil)
split-join ls (b ∷ bs) p h k =
    rw (label_byte-ne_dot b h.0, split)
      (split-join ls bs (p ++ (b ∷ [])) h.1 k ∙ ap (λ t. t ∷ ls) (append_assoc p (b ∷ []) bs))

all-label_byte : (l : Bytes) → all label_byte l ≡ true → All IsLabelByte l
all-label_byte [] h = tt
all-label_byte (b ∷ bs) h = (ground arith, all-label_byte bs (ground arith))

label_byte-all : (l : Bytes) → All IsLabelByte l → all label_byte l ≡ true
label_byte-all [] h = refl
label_byte-all (b ∷ bs) (h, hs) = ground (arith, label_byte-all bs hs)

IsDnsLabel-of_test : (l : Bytes) → dns_label l ≡ true → IsDnsLabel l
unfolding dns_label
IsDnsLabel-of_test [] h = cc
IsDnsLabel-of_test (b ∷ bs) h = record {
  nonempty = omega arith;
  bounded = ground arith;
  text = all-label_byte (b ∷ bs) (ground arith);
  no_leading_hyphen = λ rest e. ground arith;
  no_trailing_hyphen = λ f e. ends (last-append b bs f 0x2d e);
}
  where
    ends : last b bs ≢ 0x2d
    ends = ground arith

test-of_IsDnsLabel : (l : Bytes) → IsDnsLabel l → dns_label l ≡ true
unfolding dns_label
test-of_IsDnsLabel [] h = absurd (omega (arith, h.nonempty))
test-of_IsDnsLabel (b ∷ bs) h =
    ground (arith, label_byte-all (b ∷ bs) h.text, All-last IsLabelByte b bs h.text, starts, ends)
  where
    starts : b ≢ 0x2d
    starts e = h.no_leading_hyphen bs (ap (λ (t : ℕ). t ∷ bs) e)

    ends : last b bs ≢ 0x2d
    ends e = h.no_trailing_hyphen (front b bs) (append-of_last b bs 0x2d e)

check_labels_sound :
    (ls : List Bytes) (n m : ℕ) → check_labels n ls ≡ ok m → All IsDnsLabel ls × (m ≡ n + length ls)
unfolding check_labels
check_labels_sound [] n m h = (tt, ground arith)
check_labels_sound (l ∷ ls) n m h = elim (Bool-cases (dns_label l)) [
  | inl e ↦
      let (hs, k) = check_labels_sound ls (n + 1) m (ground arith) in
      ((IsDnsLabel-of_test l e, hs), omega arith)
  | inr e ↦ absurd (ground arith)
]

check_labels_complete :
    (ls : List Bytes) (n : ℕ) → All IsDnsLabel ls → check_labels n ls ≡ ok (n + length ls)
unfolding check_labels
check_labels_complete [] n h = ap ok (omega arith)
check_labels_complete (l ∷ ls) n (h, hs) =
    rw (test-of_IsDnsLabel l h) (check_labels_complete ls (n + 1) hs ∙ ap ok (omega arith))

abbrev ascii : ℕ → Bool
ascii b = ltb b 128

ascii-append : (l m : Bytes) → All IsLabelByte l → all ascii m ≡ true → all ascii (l ++ m) ≡ true
ascii-append [] m h k = k
ascii-append (b ∷ bs) m (h, hs) k = ground (arith, ascii-append bs m hs k)

ascii-join_rest : (ls : List Bytes) → All IsDnsLabel ls → all ascii (join_rest ls) ≡ true
ascii-join_rest [] h = refl
ascii-join_rest (l ∷ ls) (h, hs) = ascii-append l (join_rest ls) h.text (ascii-join_rest ls hs)

length-join_rest : (ls : List Bytes) → All IsDnsLabel ls → 2 * length ls ≤ length (join_rest ls)
length-join_rest [] h = omega arith
length-join_rest (l ∷ ls) (h, hs) =
    omega (arith, length-join_rest ls hs, length-append l (join_rest ls), h.nonempty)

texts : (ls : List Bytes) → All IsDnsLabel ls → All (All IsLabelByte) ls
texts [] h = tt
texts (l ∷ ls) (h, hs) = (h.text, texts ls hs)

split-of_join : (ls : List Bytes) → All IsDnsLabel ls → 2 ≤ length ls → split [] (join ls) ≡ ls
split-of_join [] h k = absurd (omega arith)
split-of_join (l ∷ ls) (h, hs) k = split-join ls l [] h.text (texts ls hs)

length-join : (ls : List Bytes) → All IsDnsLabel ls → 2 ≤ length ls → 3 ≤ length (join ls)
length-join [] h k = absurd (omega arith)
length-join (l ∷ ls) h k = omega (arith, length-join_rest (l ∷ ls) h)

ascii-join : (ls : List Bytes) → All IsDnsLabel ls → 2 ≤ length ls → all ascii (join ls) ≡ true
ascii-join [] h k = absurd (omega arith)
ascii-join (l ∷ ls) h k = ground (arith, ascii-join_rest (l ∷ ls) h)

accepted :
    (s : Bytes) (ls : List Bytes)
    → all ascii s ≡ true
    → split [] s ≡ ls
    → check_labels 0 ls ≡ ok (0 + length ls)
    → 2 ≤ length ls
    → 3 ≤ length s
    → length s ≤ max_application_id_bytes
    → new s ≡ ok s
unfolding new
accepted s ls a e c two lo hi = ground arith

pub new-of_IsApplicationId : (s : Bytes) → IsApplicationId s → new s ≡ ok s
new-of_IsApplicationId s h =
    accepted s h.labels (rw h.joined (ascii-join h.labels h.each h.two))
      (rw h.joined (split-of_join h.labels h.each h.two)) (check_labels_complete h.labels 0 h.each)
      h.two (rw h.joined (length-join h.labels h.each h.two)) h.bounded

pub IsApplicationId-of_new : (s t : Bytes) → new s ≡ ok t → IsApplicationId s × (t ≡ s)
unfolding new
IsApplicationId-of_new s t h = elim (Result-cases (check_labels 0 (split [] s))) [
  | inl (n, e) ↦
      let (each, count) = check_labels_sound (split [] s) 0 n e in
      (
        record {
          labels = split [] s;
          joined = sym (ap (drop 1) (join_rest-split [] s));
          each = each;
          two = ground arith;
          bounded = ground arith;
        },
        ground arith,
      )
  | inr (x, e) ↦ absurd (ground arith)
]

-- `ApplicationId::new` accepts exactly the texts of at most 253 bytes that are two or more dns
-- labels between dots, a label being 1 to 63 lowercase letters, digits and hyphens with no hyphen
-- at either end; and it keeps the text as it is.
pub new_application_exact :
    (s : Bytes) → ((new s ≡ ok s) ↔ IsApplicationId s) × ((t : Bytes) → new s ≡ ok t → t ≡ s)
new_application_exact s = (
  (λ h. (IsApplicationId-of_new s s h).0, new-of_IsApplicationId s),
  λ t h. (IsApplicationId-of_new s t h).1,
)

ascii-All : (s : Bytes) → all ascii s ≡ true → All (λ b. b < 128) s
ascii-All [] h = tt
ascii-All (b ∷ bs) h = (ground arith, ascii-All bs (ground arith))

pub ascii-of_IsApplicationId : (s : Bytes) → IsApplicationId s → All (λ b. b < 128) s
ascii-of_IsApplicationId s h = ascii-All s (rw h.joined (ascii-join h.labels h.each h.two))
