-- ===== src/Native/Inventory/Laws.antt =====
-- What the search of the enumerated credentials finds, against a description of the entries.
use fido_key_wrap.Common.{
  ℕ, ◌≤◌, ◌≡◌, refl, ◌≢◌, ◌⊎◌, inl, inr, Bool, true, false, Option, none, some, Bytes, take,
  eq_bytes, eq_bytes→eq, eq_bytes_refl, arith, ◌∙◌, ap,
}
use fido_key_wrap.Native.Errors.{ℤ, eq_int→eq, done, done_or, >>=-eq-done}
use fido_key_wrap.Native.Status.{cose_es256}
use fido_key_wrap.Native.Library.{Library, Handle}
use fido_key_wrap.Native.Request.{
  max_credential_id_bytes, max_user_id_bytes, es256_public_key_bytes,
}
use fido_key_wrap.Native.Inventory.{
  InventoryExpectation, credential_id, user_id, es256_public_key, protection, admits_protection,
  copy_native_bytes, managed_identity_matches, include_managed_match, include_credential, visit,
}

-- A pointer to a value of 1 to `max_len` bytes.
abbrev pub Reads : Option Bytes → ℕ → ℕ → Bytes → Type 0
Reads pointer len max_len value =
    (bytes : Bytes) × (pointer ≡ some bytes)
    × (1 ≤ len)
    × (len ≤ max_len)
    × (take len bytes ≡ value)

Reads-of :
    (p : Option Bytes) (len max_len : ℕ) (x : Bytes)
    → copy_native_bytes p len max_len ≡ done x
    → Reads p len max_len x
unfolding copy_native_bytes
Reads-of none len m x h = cc
Reads-of (some bytes) len m x h = (bytes, refl, ground arith, ground arith, ground arith)

pub copies :
    (p : Option Bytes) (len max_len : ℕ) (x : Bytes)
    → Reads p len max_len x
    → copy_native_bytes p len max_len ≡ done x
unfolding copy_native_bytes
copies p len m x (bytes, e, lo, hi, t) = rw e (ground arith)

Reads-as :
    {p : Option Bytes} {len max_len : ℕ} {x y : Bytes}
    → x ≡ y
    → Reads p len max_len x
    → Reads p len max_len y
Reads-as e (bytes, ep, lo, hi, t) = (bytes, ep, lo, hi, t ∙ e)

identities :
    (id user : Bytes) (expected : InventoryExpectation)
    → managed_identity_matches id user expected ≡ done true
    → (id ≡ credential_id expected) × (user ≡ user_id expected)
unfolding managed_identity_matches
identities id user expected h = (
  eq_bytes→eq id (credential_id expected) (ground arith),
  eq_bytes→eq user (user_id expected) (ground arith),
)

eq_of_not : (a b : Bytes) → eq_bytes a b ≡ false → a ≢ b
eq_of_not a b h e = cc (eq_bytes_refl b, ap (λ t. eq_bytes t b) e, h)

others :
    (id user : Bytes) (expected : InventoryExpectation)
    → managed_identity_matches id user expected ≡ done false
    → (id ≢ credential_id expected) × (user ≢ user_id expected)
unfolding managed_identity_matches
others id user expected h = (
  eq_of_not id (credential_id expected) (ground arith),
  eq_of_not user (user_id expected) (ground arith),
)

included :
    (found after : Bool) (type' prot : ℤ) (key : Bytes) (expected : InventoryExpectation)
    → include_managed_match found type' prot key expected ≡ done after
    → (found ≡ false)
      × (after ≡ true)
      × (type' ≡ cose_es256)
      × (admits_protection (protection expected) prot ≡ true)
      × (key ≡ es256_public_key expected)
unfolding include_managed_match
included found after type' prot key expected h = (
  ground arith,
  ground arith,
  eq_int→eq type' cose_es256 (ground arith),
  ground arith,
  eq_bytes→eq key (es256_public_key expected) (ground arith),
)

module _ {W : Type 0} (lib : Library W) (w : W) (expected : InventoryExpectation) where
  open lib use {
    fido_cred_id_ptr, fido_cred_id_len, fido_cred_user_id_ptr, fido_cred_user_id_len,
    fido_cred_pubkey_ptr, fido_cred_pubkey_len, fido_cred_type, fido_cred_prot, fido_credman_rk,
    fido_credman_rk_count,
  }

  -- The entry at `index` can be read, with these two identities.
  abbrev pub Names : Handle → ℕ → Handle → Bytes → Bytes → Type 0
  Names credentials index h id user =
      (fido_credman_rk credentials index w ≡ some h)
      × Reads (fido_cred_id_ptr h w) (fido_cred_id_len h w) max_credential_id_bytes id
      × Reads (fido_cred_user_id_ptr h w) (fido_cred_user_id_len h w) max_user_id_bytes user

  -- The entry is the expected credential, in its key, algorithm and protection too.
  abbrev pub IsExact : Handle → ℕ → Type 0
  IsExact credentials index =
      (h : Handle) × Names credentials index h (credential_id expected) (user_id expected)
      × Reads (fido_cred_pubkey_ptr h w) (fido_cred_pubkey_len h w) es256_public_key_bytes
          (es256_public_key expected)
      × (fido_cred_type h w ≡ cose_es256)
      × (admits_protection (protection expected) (fido_cred_prot h w) ≡ true)

  -- The entry is a credential of another identity and another user.
  abbrev pub IsOther : Handle → ℕ → Type 0
  IsOther credentials index =
      (h : Handle) × (id : Bytes) × (user : Bytes) × Names credentials index h id user
      × (id ≢ credential_id expected)
      × (user ≢ user_id expected)

  visited :
      (c : Handle) (i : ℕ) (found after : Bool)
      → visit lib w expected c i found ≡ done after
      → (h : Handle) × (id : Bytes) × (user : Bytes) × Names c i h id user
        × (matches : Bool) × (managed_identity_matches id user expected ≡ done matches)
        × (include_credential lib w expected found h matches ≡ done after)
  unfolding visit
  visited c i found after e =
      let (h, eh, e1) = >>=-eq-done (done_or _ (fido_credman_rk c i w)) _ e in
      let (id, ei, e2) =
        >>=-eq-done
          (copy_native_bytes (fido_cred_id_ptr h w) (fido_cred_id_len h w) max_credential_id_bytes)
          _ e1 in
      let (user, eu, e3) =
        >>=-eq-done
          (copy_native_bytes (fido_cred_user_id_ptr h w) (fido_cred_user_id_len h w)
            max_user_id_bytes)
          _ e2 in
      let (m, em, e4) = >>=-eq-done (managed_identity_matches id user expected) _ e3 in
      (h, id, user, (ground arith, Reads-of _ _ _ _ ei, Reads-of _ _ _ _ eu), m, em, e4)

  sorted :
      (c : Handle) (i : ℕ) (found after : Bool) (h : Handle) (id user : Bytes)
      → Names c i h id user
      → (matches : Bool) → managed_identity_matches id user expected ≡ done matches
      → include_credential lib w expected found h matches ≡ done after
      → (IsExact c i × (found ≡ false) × (after ≡ true)) ⊎ (IsOther c i × (after ≡ found))
  unfolding include_credential
  sorted c i found after h id user names false em k =
      let (ni, nu) = others id user expected em in inr ((h, id, user, names, ni, nu), cc)
  sorted c i found after h id user (eh, ri, ru) true em k =
      let (ei, eu) = identities id user expected em in
      let (key, ek, inc) =
        >>=-eq-done
          (copy_native_bytes (fido_cred_pubkey_ptr h w) (fido_cred_pubkey_len h w)
            es256_public_key_bytes)
          _ k in
      let (unseen, seen, et, ep, ey) =
        included found after (fido_cred_type h w) (fido_cred_prot h w) key expected inc in
      inl (
        (h, (eh, Reads-as ei ri, Reads-as eu ru), Reads-as ey (Reads-of _ _ _ _ ek), et, ep),
        unseen,
        seen,
      )

  pub classified :
      (c : Handle) (i : ℕ) (found after : Bool)
      → visit lib w expected c i found ≡ done after
      → (IsExact c i × (found ≡ false) × (after ≡ true)) ⊎ (IsOther c i × (after ≡ found))
  classified c i found after e =
      let (h, id, user, names, m, em, k) = visited c i found after e in
      sorted c i found after h id user names m em k
