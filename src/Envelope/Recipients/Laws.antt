-- ===== src/Envelope/Recipients/Laws.antt =====
-- What `validate_recipient_set` of crates/fido-key-wrap/src/envelope.rs establishes, stated on all
-- pairs of recipients.
use fido_key_wrap.Common.{
  ◌≡◌, ◌≢◌, ◌↔◌, refl, Ordering, Option, none, some, List, [], ◌∷◌, Bytes, All, cmp_bytes,
  eq_bytes_refl, ne→eq_bytes_false, cmp_bytes_trans, false, arith,
}
use fido_key_wrap.Error.{ok}
use fido_key_wrap.Envelope.{RecipientRecord, id, credential_id, passphrase_salt}
use fido_key_wrap.Envelope.Recipients.{
  same_some, check_order, check_others, check_unique, validate_recipient_set,
}

-- The relation holds between each element and each one behind it.
abbrev pub AllPairs {ℓ} : {A : Type ℓ} → (A → A → Type 0) → List A → Type 0
AllPairs R [] = Unit
AllPairs R (x ∷ xs) = All (R x) xs × AllPairs R xs

-- The identities increase.
abbrev pub Before : RecipientRecord → RecipientRecord → Type 0
Before r s = cmp_bytes (id r) (id s) ≡ Ordering.lt

abbrev pub Apart : Option Bytes → Option Bytes → Type 0
Apart a b = (v : Bytes) → a ≡ some v → b ≢ some v

-- Two recipients share neither a credential nor a passphrase salt.
pub record IsDistinct (r s : RecipientRecord) : Type 0 where
  pub credential : Apart (credential_id r) (credential_id s)
  pub salt : Apart (passphrase_salt r) (passphrase_salt s)

pub record IsRecipientSet (rs : List RecipientRecord) : Type 0 where
  pub ordered : AllPairs Before rs
  pub distinct : AllPairs IsDistinct rs

same_some-Apart : (a b : Option Bytes) → same_some a b ≡ false → Apart a b
same_some-Apart none b h = λ v e k. cc
same_some-Apart (some x) none h = λ v e k. cc
same_some-Apart (some x) (some y) h = λ v e k. ground (arith, eq_bytes_refl v)

Apart-same_some : (a b : Option Bytes) → Apart a b → same_some a b ≡ false
Apart-same_some none b h = refl
Apart-same_some (some x) none h = refl
Apart-same_some (some x) (some y) h = ne→eq_bytes_false x y (λ e. h x refl (cc))

Before-trans :
    (r : RecipientRecord) (s : RecipientRecord) (rest : List RecipientRecord)
    → Before r s
    → All (Before s) rest
    → All (Before r) rest
Before-trans r s [] h k = tt
Before-trans r s (t ∷ rest) h (k, ks) =
    (cmp_bytes_trans (id r) (id s) (id t) h k, Before-trans r s rest h ks)

check_order_sound : (rs : List RecipientRecord) → check_order rs ≡ ok tt → AllPairs Before rs
unfolding check_order
check_order_sound [] h = tt
check_order_sound (r ∷ []) h = (tt, tt)
check_order_sound (r ∷ s ∷ rest) h =
    let lt : Before r s = ground arith in
    let ih = check_order_sound (s ∷ rest) (ground arith) in
    ((lt, Before-trans r s rest lt ih.0), ih)

check_order_complete : (rs : List RecipientRecord) → AllPairs Before rs → check_order rs ≡ ok tt
unfolding check_order
check_order_complete [] h = refl
check_order_complete (r ∷ []) h = refl
check_order_complete (r ∷ s ∷ rest) h = ground (arith, h.0.0, check_order_complete (s ∷ rest) h.1)

check_others_sound :
    (r : RecipientRecord) (os : List RecipientRecord)
    → check_others r os ≡ ok tt
    → All (IsDistinct r) os
unfolding check_others
check_others_sound r [] h = tt
check_others_sound r (o ∷ os) h = (
  record {
    credential = same_some-Apart (credential_id r) (credential_id o) (ground arith);
    salt = same_some-Apart (passphrase_salt r) (passphrase_salt o) (ground arith);
  },
  check_others_sound r os (ground arith),
)

check_others_complete :
    (r : RecipientRecord) (os : List RecipientRecord)
    → All (IsDistinct r) os
    → check_others r os ≡ ok tt
unfolding check_others
check_others_complete r [] h = refl
check_others_complete r (o ∷ os) (h, hs) =
    rw
      (
        Apart-same_some (credential_id r) (credential_id o) h.credential,
        Apart-same_some (passphrase_salt r) (passphrase_salt o) h.salt,
      )
      (check_others_complete r os hs)

check_unique_sound : (rs : List RecipientRecord) → check_unique rs ≡ ok tt → AllPairs IsDistinct rs
unfolding check_unique
check_unique_sound [] h = tt
check_unique_sound (r ∷ rs) h =
    (check_others_sound r rs (ground arith), check_unique_sound rs (ground arith))

check_unique_complete :
    (rs : List RecipientRecord) → AllPairs IsDistinct rs → check_unique rs ≡ ok tt
unfolding check_unique
check_unique_complete [] h = refl
check_unique_complete (r ∷ rs) h =
    rw (check_others_complete r rs h.0) (check_unique_complete rs h.1)

pub IsRecipientSet-of_validate :
    (rs : List RecipientRecord) → validate_recipient_set rs ≡ ok tt → IsRecipientSet rs
unfolding validate_recipient_set
IsRecipientSet-of_validate rs h = record {
  ordered = check_order_sound rs (ground arith);
  distinct = check_unique_sound rs (ground arith);
}

pub validate-of_IsRecipientSet :
    (rs : List RecipientRecord) → IsRecipientSet rs → validate_recipient_set rs ≡ ok tt
unfolding validate_recipient_set
validate-of_IsRecipientSet rs h =
    rw (check_order_complete rs h.ordered) (check_unique_complete rs h.distinct)

-- The recipient list is accepted exactly when the identities of all pairs increase and no two
-- recipients share a credential or a passphrase salt.
pub validate_recipient_set_iff :
    (rs : List RecipientRecord) → (validate_recipient_set rs ≡ ok tt) ↔ IsRecipientSet rs
validate_recipient_set_iff rs = (IsRecipientSet-of_validate rs, validate-of_IsRecipientSet rs)
