-- ===== src/Native/Inventory/Found.antt =====
-- The loop over the enumerated credentials: when it reports the expected one present, and absent.
use fido_key_wrap.Common.{
  ℕ, zero, suc, ◌+◌, ◌≤◌, ◌<◌, ◌≡◌, refl, ◌≢◌, ◌↔◌, ◌⊎◌, inl, inr, Bool, true, false, ltb, arith,
  sym, le→ltb_false, ltb_false→le, eq_bytes_refl, ne→eq_bytes_false,
}
use mathlib.Core.Path.{subst}
use native.Mathlib.Decide.{ℕ_discrete}
use fido_key_wrap.Native.Errors.{done, fault_if, protocol, >>=-eq-done}
use fido_key_wrap.Native.Library.{Library, Handle}
use fido_key_wrap.Native.Request.{
  max_credential_id_bytes, max_user_id_bytes, es256_public_key_bytes,
}
use fido_key_wrap.Native.Inventory.{
  ManagedPresence, present, absent, InventoryExpectation, credential_id, user_id, es256_public_key,
  max_managed_credentials_per_rp, managed_identity_matches, include_managed_match,
  include_credential, visit, visit_all, presence, find,
}
use fido_key_wrap.Native.Inventory.Laws.{copies, IsExact, IsOther, classified}

module _ {W : Type 0} (lib : Library W) (w : W) (expected : InventoryExpectation) where
  visit_of_IsOther :
      (c : Handle) (i : ℕ) (found : Bool)
      → IsOther lib w expected c i
      → visit lib w expected c i found ≡ done found
  unfolding visit managed_identity_matches include_credential
  visit_of_IsOther c i found (h, id, user, (eh, ri, ru), ni, nu) = rw (
    eh,
    copies _ _ max_credential_id_bytes id ri,
    copies _ _ max_user_id_bytes user ru,
    ne→eq_bytes_false id (credential_id expected) ni,
    ne→eq_bytes_false user (user_id expected) nu,
  )

  visit_of_IsExact :
      (c : Handle) (i : ℕ) → IsExact lib w expected c i → visit lib w expected c i false ≡ done true
  unfolding visit managed_identity_matches include_credential include_managed_match
  visit_of_IsExact c i (h, (eh, ri, ru), rk, et, ep) = rw (
    eh,
    copies _ _ max_credential_id_bytes (credential_id expected) ri,
    copies _ _ max_user_id_bytes (user_id expected) ru,
    eq_bytes_refl (credential_id expected),
    eq_bytes_refl (user_id expected),
    copies _ _ es256_public_key_bytes (es256_public_key expected) rk,
    et,
    ep,
    eq_bytes_refl (es256_public_key expected),
  )

  -- The `n` entries from `i` on are all of other identities.
  abbrev pub AllOther : Handle → ℕ → ℕ → Type 0
  AllOther c i n = (j : ℕ) → i ≤ j → j < i + n → IsOther lib w expected c j

  -- One of them is the expected credential, and the rest are of other identities.
  abbrev pub OneExact : Handle → ℕ → ℕ → Type 0
  OneExact c i n =
      (k : ℕ) × (i ≤ k)
      × (k < i + n)
      × IsExact lib w expected c k
      × ((j : ℕ) → i ≤ j → j < i + n → j ≢ k → IsOther lib w expected c j)

  AllOther-cons :
      (c : Handle) (i n : ℕ)
      → IsOther lib w expected c i
      → AllOther c (i + 1) n
      → AllOther c i (suc n)
  AllOther-cons c i n h rest j lo hi = elim (ℕ_discrete i j) [
    | yes e ↦ subst (λ t. IsOther lib w expected c t) e h
    | no ne ↦ rest j (omega arith) (omega arith)
  ]

  OneExact-here :
      (c : Handle) (i n : ℕ)
      → IsExact lib w expected c i
      → AllOther c (i + 1) n
      → OneExact c i (suc n)
  OneExact-here c i n h rest =
      (i, omega arith, omega arith, h, λ j lo hi ne. rest j (omega arith) (omega arith))

  OneExact-there :
      (c : Handle) (i n : ℕ)
      → IsOther lib w expected c i
      → OneExact c (i + 1) n
      → OneExact c i (suc n)
  OneExact-there c i n h (k, lo, hi, x, rest) = (
    k,
    omega arith,
    omega arith,
    x,
    λ j jlo jhi ne. elim (ℕ_discrete i j) [
      | yes e ↦ subst (λ t. IsOther lib w expected c t) e h
      | no ni ↦ rest j (omega arith) (omega arith) ne
    ],
  )

  scanned_seen :
      (c : Handle) (i n : ℕ) (r : Bool)
      → visit_all lib w expected c i n true ≡ done r
      → (r ≡ true) × AllOther c i n
  unfolding visit_all
  scanned_seen c i zero r h = (ground arith, λ j lo hi. absurd (omega arith))
  scanned_seen c i (suc n) r h =
      let (after, e, k) = >>=-eq-done (visit lib w expected c i true) _ h in
      elim (classified lib w expected c i true after e) [
        | inl x ↦ absurd (cc (x.1))
        | inr x ↦
            let (t, rest) = scanned_seen c (i + 1) n r (rw (← x.1) k) in
            (t, AllOther-cons c i n x.0 rest)
      ]

  scanned :
      (c : Handle) (i n : ℕ) (r : Bool)
      → visit_all lib w expected c i n false ≡ done r
      → ((r ≡ true) × OneExact c i n) ⊎ ((r ≡ false) × AllOther c i n)
  unfolding visit_all
  scanned c i zero r h = inr (ground arith, λ j lo hi. absurd (omega arith))
  scanned c i (suc n) r h =
      let (after, e, k) = >>=-eq-done (visit lib w expected c i false) _ h in
      elim (classified lib w expected c i false after e) [
        | inl x ↦
            let (t, rest) = scanned_seen c (i + 1) n r (rw (← x.2) k) in
            inl (t, OneExact-here c i n x.0 rest)
        | inr x ↦ elim (scanned c (i + 1) n r (rw (← x.1) k)) [
          | inl y ↦ inl (y.0, OneExact-there c i n x.0 y.1)
          | inr y ↦ inr (y.0, AllOther-cons c i n x.0 y.1)
        ]
      ]

  scan_others :
      (c : Handle) (i n : ℕ) (found : Bool)
      → AllOther c i n
      → visit_all lib w expected c i n found ≡ done found
  unfolding visit_all
  scan_others c i zero found h = refl
  scan_others c i (suc n) found h =
      rw (visit_of_IsOther c i found (h i (omega arith) (omega arith)))
        (scan_others c (i + 1) n found (λ j lo hi. h j (omega arith) (omega arith)))

  scan_exact :
      (c : Handle) (i n : ℕ) → OneExact c i n → visit_all lib w expected c i n false ≡ done true
  unfolding visit_all
  scan_exact c i zero (k, lo, hi, x, rest) = absurd (omega arith)
  scan_exact c i (suc n) (k, lo, hi, x, rest) = elim (ℕ_discrete i k) [
    | yes e ↦ rw (visit_of_IsExact c i (subst (λ t. IsExact lib w expected c t) (sym e) x)) (
        scan_others c (i + 1) n true
          (λ j jlo jhi. rest j (omega arith) (omega arith) (omega arith)))
    | no ne ↦ rw (visit_of_IsOther c i false (rest i (omega arith) (omega arith) ne)) (
        scan_exact c (i + 1) n
          (k, omega arith, omega arith, x, λ j jlo jhi nj. rest j (omega arith) (omega arith) nj))
  ]

  open lib use {fido_credman_rk_count}

  counted :
      (c : Handle) {p : ManagedPresence}
      → find lib w expected c ≡ done p
      → (fido_credman_rk_count c w ≤ max_managed_credentials_per_rp)
        × (r : Bool) × (visit_all lib w expected c 0 (fido_credman_rk_count c w) false ≡ done r)
        × (p ≡ presence r)
  unfolding find
  counted c {p} h =
      let (_, small, rest) =
        >>=-eq-done
          (fault_if (ltb max_managed_credentials_per_rp (fido_credman_rk_count c w)) protocol) _
          h in
      let (r, e, k) =
        >>=-eq-done (visit_all lib w expected c 0 (fido_credman_rk_count c w) false) _ rest in
      (ltb_false→le _ _ (ground arith), r, e, ground arith)

  finds :
      (c : Handle) (r : Bool)
      → fido_credman_rk_count c w ≤ max_managed_credentials_per_rp
      → visit_all lib w expected c 0 (fido_credman_rk_count c w) false ≡ done r
      → find lib w expected c ≡ done (presence r)
  unfolding find
  finds c r small e =
      rw (le→ltb_false max_managed_credentials_per_rp (fido_credman_rk_count c w) small, e)

  -- The search of the enumeration reports the credential present exactly when there are at most 1,024
  -- entries, one of them is the expected credential, in identity, user, key, algorithm and protection,
  -- and all others have both another identity and another user; it reports it absent exactly when
  -- there are at most 1,024 entries and all have another identity and another user.
  pub find_iff :
      (c : Handle)
      → let n = fido_credman_rk_count c w in
        ((find lib w expected c ≡ done present)
          ↔ ((n ≤ max_managed_credentials_per_rp) × OneExact c 0 n))
        × ((find lib w expected c ≡ done absent)
            ↔ ((n ≤ max_managed_credentials_per_rp) × AllOther c 0 n))
  find_iff c = (
    (
      λ h.
          let (small, r, e, p) = counted c h in
          elim (scanned c 0 _ r e) [ inl x ↦ (small, x.1) | inr x ↦ absurd (cc (p, x.0)) ],
      λ h. finds c true h.0 (scan_exact c 0 _ h.1),
    ),
    (
      λ h.
          let (small, r, e, p) = counted c h in
          elim (scanned c 0 _ r e) [ inl x ↦ absurd (cc (p, x.0)) | inr x ↦ (small, x.1) ],
      λ h. finds c false h.0 (scan_others c 0 _ false h.1),
    ),
  )
