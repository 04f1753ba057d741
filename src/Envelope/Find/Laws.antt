-- ===== src/Envelope/Find/Laws.antt =====
-- The binary search of crates/fido-key-wrap/src/envelope.rs against a search from the front.
use fido_key_wrap.Common.{
  ℕ, zero, suc, ◌+◌, ◌-◌, ◌/◌, ◌≤◌, ◌<◌, ◌≡◌, ◌≢◌, refl, ap, Ordering, Option, none, some, List, [],
  ◌∷◌, Bytes, All, length, get_elem?, cmp_bytes_refl, cmp_bytes_swap_lt, eq_of_cmp_bytes, ltb,
  if◌then◌else◌, eq_bytes, arith, inl, inr, ◌⊎◌, Option-cases, Bool-cases, ltb→lt, eq_bytes→eq,
  eq_bytes_refl,
}
use mathlib.Core.Path.{subst}
use mathlib.Core.Option.{some-injective}
use fido_key_wrap.Error.{ok_or, recipient_not_found}
use fido_key_wrap.Envelope.{RecipientRecord, id, KeyEnvelope}
use fido_key_wrap.Envelope.Recipients.Laws.{AllPairs, Before}
use fido_key_wrap.Envelope.Find.{probe, narrow, binary_search, find}

-- The first recipient with the identity.
abbrev pub lookup : Bytes → List RecipientRecord → Option RecipientRecord
lookup key [] = none
lookup key (r ∷ rs) = if eq_bytes (id r) key then some r else lookup key rs

-- In a list with increasing identities, an index before the recipient probes less and one behind
-- it probes greater.
ahead :
    (rs : List RecipientRecord) (r : RecipientRecord) (j : ℕ) (s : RecipientRecord)
    → All (Before r) rs
    → get_elem? rs j ≡ some s
    → Before r s
ahead [] r j s h e = cc
ahead (x ∷ xs) r zero s h e = ground (arith, h.0)
ahead (x ∷ xs) r (suc j) s h e = ahead xs r j s h.1 e

increasing :
    (rs : List RecipientRecord) (i j : ℕ) (r s : RecipientRecord)
    → AllPairs Before rs
    → get_elem? rs i ≡ some r
    → get_elem? rs j ≡ some s
    → i < j
    → Before r s
increasing [] i j r s h ei ej lt = cc
increasing (x ∷ xs) zero zero r s h ei ej lt = absurd (omega arith)
increasing (x ∷ xs) zero (suc j) r s h ei ej lt =
    subst (λ t. Before t s) (some-injective _ _ ei) (ahead xs x j s h.0 ej)
increasing (x ∷ xs) (suc i) zero r s h ei ej lt = absurd (omega arith)
increasing (x ∷ xs) (suc i) (suc j) r s h ei ej lt = increasing xs i j r s h.1 ei ej (omega arith)

in_range :
    (rs : List RecipientRecord) (i : ℕ)
    → i < length rs
    → (r : RecipientRecord) × (get_elem? rs i ≡ some r)
in_range [] i h = absurd (omega arith)
in_range (x ∷ xs) zero h = (x, refl)
in_range (x ∷ xs) (suc i) h = in_range xs i (omega arith)

compare_cases : (i k : ℕ) → (i < k) ⊎ (i ≡ k) ⊎ (k < i)
compare_cases i k = ground arith

-- The base of the next round.
abbrev pick : ℕ → ℕ → Ordering → ℕ
pick base mid o = elim o [ Ordering.gt ↦ base | _ ↦ mid ]

pick_cases :
    (base mid : ℕ) (o : Ordering)
    → ((o ≡ Ordering.gt) × (pick base mid o ≡ base)) ⊎ ((o ≢ Ordering.gt) × (pick base mid o ≡ mid))
pick_cases base mid Ordering.gt = inl (refl, refl)
pick_cases base mid Ordering.lt = inr (λ e. cc, refl)
pick_cases base mid Ordering.eq = inr (λ e. cc, refl)

module _ (rs : List RecipientRecord) (key : Bytes) (k : ℕ) (r : RecipientRecord)
    (sorted : AllPairs Before rs) (at_k : get_elem? rs k ≡ some r) (is_key : id r ≡ key) where
  probe_at : probe rs key k ≡ Ordering.eq
  unfolding probe
  probe_at = rw (at_k, probe, is_key) (cmp_bytes_refl key)

  probe_below : (i : ℕ) → i < length rs → i < k → probe rs key i ≡ Ordering.lt
  unfolding probe
  probe_below i h lt =
      let (s, e) = in_range rs i h in
      rw (e, probe, ← is_key) (increasing rs i k s r sorted e at_k lt)

  probe_above : (i : ℕ) → i < length rs → k < i → probe rs key i ≡ Ordering.gt
  unfolding probe
  probe_above i h lt =
      let (s, e) = in_range rs i h in
      rw (e, probe, ← is_key)
        (cmp_bytes_swap_lt (id r) (id s) (increasing rs k i r s sorted at_k e lt))

  probe_gt : (i : ℕ) → i < length rs → probe rs key i ≡ Ordering.gt → k < i
  probe_gt i h e = elim (compare_cases i k) [
    | inl lt ↦ absurd (ground (arith, probe_below i h lt, e))
    | inr (inl same) ↦ absurd (ground (arith, probe_at, ap (probe rs key) same, e))
    | inr (inr lt) ↦ lt
  ]

  probe_le : (i : ℕ) → i < length rs → probe rs key i ≢ Ordering.gt → i ≤ k
  probe_le i h e = elim (compare_cases i k) [
    | inl lt ↦ omega arith
    | inr (inl same) ↦ omega arith
    | inr (inr lt) ↦ absurd (e (probe_above i h lt))
  ]

  narrow_finds :
      (fuel size base : ℕ)
      → size ≤ suc fuel
      → base ≤ k
      → k < base + size
      → base + size ≤ length rs
      → narrow rs key fuel size base ≡ k
  unfolding narrow
  narrow_finds zero size base f lo hi fits = omega arith
  narrow_finds (suc fuel) size base f lo hi fits = elim (Bool-cases (ltb 1 size)) [
    | inr small ↦ ground arith
    | inl big ↦
        let mid : ℕ = base + size / 2 in
        let two : 1 < size = ltb→lt 1 size big in
        rw (big, narrow)
          (elim (pick_cases base mid (probe rs key mid)) [
            | inl (gt, at_base) ↦
                let below : k < mid = probe_gt mid (omega arith) gt in
                rw at_base (
                  narrow_finds fuel (size - size / 2) base (omega arith) lo (omega arith)
                    (omega arith))
            | inr (not_gt, at_mid) ↦
                let above : mid ≤ k = probe_le mid (omega arith) not_gt in
                rw at_mid (
                  narrow_finds fuel (size - size / 2) mid (omega arith) above (omega arith)
                    (omega arith))
          ])
  ]

pub lookup-some :
    (key : Bytes) (rs : List RecipientRecord) (r : RecipientRecord)
    → lookup key rs ≡ some r
    → (k : ℕ) × (get_elem? rs k ≡ some r) × (id r ≡ key) × (k < length rs)
lookup-some key [] r h = cc
lookup-some key (x ∷ xs) r h = elim (Bool-cases (eq_bytes (id x) key)) [
  | inl same ↦
      let is_x : x ≡ r = some-injective _ _ (rw same at h) in
      (0, ap some is_x, subst (λ t. id t ≡ key) is_x (eq_bytes→eq (id x) key same), omega arith)
  | inr other ↦
      let (k, at_k, is_key, lt) = lookup-some key xs r (rw other at h) in
      (suc k, at_k, is_key, omega arith)
]

lookup-none :
    (key : Bytes) (rs : List RecipientRecord)
    → lookup key rs ≡ none
    → (i : ℕ) (s : RecipientRecord) → get_elem? rs i ≡ some s
    → id s ≢ key
lookup-none key [] h i s e = cc
lookup-none key (x ∷ xs) h zero s e =
    λ p. ground (arith, eq_bytes_refl key, ap id (some-injective _ _ e))
lookup-none key (x ∷ xs) h (suc i) s e = lookup-none key xs (ground arith) i s e

pub search_hits :
    (rs : List RecipientRecord) (key : Bytes) (r : RecipientRecord)
    → AllPairs Before rs
    → lookup key rs ≡ some r
    → (k : ℕ) × (binary_search rs key ≡ some k) × (get_elem? rs k ≡ some r)
unfolding binary_search
search_hits rs key r sorted h =
    let (k, at_k, is_key, lt) = lookup-some key rs r h in
    let found =
      narrow_finds rs key k r sorted at_k is_key (length rs) (length rs) 0 (omega arith)
        (omega arith) (omega arith) (omega arith) in
    (k, ground (arith, found, probe_at rs key k r sorted at_k is_key), at_k)

probe_eq :
    (rs : List RecipientRecord) (key : Bytes) (i : ℕ)
    → probe rs key i ≡ Ordering.eq
    → (s : RecipientRecord) × (get_elem? rs i ≡ some s) × (id s ≡ key)
unfolding probe
probe_eq rs key i h = elim (Option-cases (get_elem? rs i)) [
  | inl e ↦ absurd (ground (arith, e))
  | inr (s, e) ↦ (s, e, eq_of_cmp_bytes (id s) key (ground (arith, e)))
]

search_probes :
    (rs : List RecipientRecord) (key : Bytes) (i : ℕ)
    → binary_search rs key ≡ some i
    → probe rs key i ≡ Ordering.eq
unfolding binary_search
search_probes rs key i e = ground arith

search_misses :
    (rs : List RecipientRecord) (key : Bytes) → lookup key rs ≡ none → binary_search rs key ≡ none
search_misses rs key h = elim (Option-cases (binary_search rs key)) [
  | inl e ↦ e
  | inr (i, e) ↦
      let (s, at_i, is_key) = probe_eq rs key i (search_probes rs key i e) in
      absurd (lookup-none key rs h i s at_i is_key)
]

-- On a list with increasing identities the binary search returns what a search from the front
-- returns: the recipient with the identity, or the error that there is none.
pub find-eq-lookup :
    (e : KeyEnvelope) (key : Bytes)
    → AllPairs Before e.recipients
    → find e key ≡ ok_or recipient_not_found (lookup key e.recipients)
unfolding find
find-eq-lookup e key sorted = elim (Option-cases (lookup key e.recipients)) [
  | inl miss ↦ rw (miss, search_misses e.recipients key miss)
  | inr (r, hit) ↦
      let (k, found, at_k) = search_hits e.recipients key r sorted hit in rw (hit, found, at_k)
]
