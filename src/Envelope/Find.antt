-- ===== src/Envelope/Find.antt =====
-- crates/fido-key-wrap/src/envelope.rs: `KeyEnvelope::find`, with the binary search of a slice.
pub mod Laws
use fido_key_wrap.Common.{
  ℕ, zero, suc, ◌+◌, ◌-◌, ◌/◌, ◌≡◌, Ordering, Option, none, some, List, Bytes, length, get_elem?,
  cmp_bytes, ltb, if◌then◌else◌,
}
use fido_key_wrap.Error.{Result, ok, err, ok_or, ◌>>=◌, recipient_not_found}
use fido_key_wrap.Envelope.{RecipientRecord, id, KeyEnvelope}

-- The order of the key at an index and the key that is looked for.
unfoldable pub probe : List RecipientRecord → Bytes → ℕ → Ordering
probe rs key i = elim (get_elem? rs i) [ none ↦ Ordering.gt | some r ↦ cmp_bytes (id r) key ]

-- `while size > 1 { half = size / 2; mid = base + half; ... size -= half }`. The size falls in each
-- round, so as many rounds as there are recipients are enough.
unfoldable pub narrow : List RecipientRecord → Bytes → ℕ → ℕ → ℕ → ℕ
narrow rs key zero size base = base
narrow rs key (suc fuel) size base =
    let half = size / 2 in
    let mid = base + half in
    let next =
      narrow rs key fuel (size - half) (elim (probe rs key mid) [ Ordering.gt ↦ base | _ ↦ mid ]) in
    if ltb 1 size then next else base

-- `slice::binary_search_by_key` up to the index of an insertion, which the program drops.
unfoldable pub binary_search : List RecipientRecord → Bytes → Option ℕ
binary_search rs key =
    let base = narrow rs key (length rs) (length rs) 0 in
    if ltb 0 (length rs)
    then elim (probe rs key base) [ Ordering.eq ↦ some base | _ ↦ none ]
    else none

-- `&self.recipients[index]`; the search returns an index in range.
unfoldable pub find : KeyEnvelope → Bytes → Result RecipientRecord
find e key = do
  index ← ok_or recipient_not_found (binary_search e.recipients key)
  ok_or recipient_not_found (get_elem? e.recipients index)
