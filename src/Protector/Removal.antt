-- ===== src/Protector/Removal.antt =====
-- `remove_recipient` of crates/fido-key-wrap/src/protector.rs removes the recipient that it is given.
use fido_key_wrap.Common.{
  ℕ, zero, suc, ◌+◌, ◌≤◌, ◌≡◌, ◌≢◌, refl, sym, ap, true, false, some, List, [], ◌∷◌, Bytes, All,
  length, get_elem?, cmp_bytes_refl, eq_bytes, eq_bytes_refl, ne→eq_bytes_false, if◌then◌else◌,
  arith, ◌==◌, IsArray,
}
use mathlib.Core.Path.{subst}
use fido_key_wrap.Envelope.{RecipientRecord, KeyEnvelope, id}
use fido_key_wrap.Error.{ok}
use fido_key_wrap.Envelope.Wire.{Wire, WireLaws}
use fido_key_wrap.Envelope.WellFormed.{IsWellFormed, IsRecipient}
use fido_key_wrap.Envelope.Find.{binary_search}
use fido_key_wrap.Envelope.Find.Laws.{lookup, lookup-some, search_hits}
use fido_key_wrap.Envelope.Encode.{canonical_body, encode_body, encode_body_fields}
use fido_key_wrap.Envelope.RoundTrip.{decode-encode}
use fido_key_wrap.Crypto.Suite.{Suite, SuiteLaws}
use fido_key_wrap.Crypto.Mac.{compute_envelope_mac, envelope_mac_matches, verify_envelope_mac}
use fido_key_wrap.Crypto.Mac.Total.{compute_envelope_mac-total}
use fido_key_wrap.Effect.{pure, lift, current, store, ◌>>=◌}
use fido_key_wrap.Protector.{KeyProtector}
use fido_key_wrap.Protector.Guards.{admits}
use fido_key_wrap.Protector.Stage.{canonicalize}
use fido_key_wrap.Protector.Changes.{IsSealed}
use fido_key_wrap.Envelope.Recipients.Laws.{AllPairs, Before, IsDistinct}
use fido_key_wrap.Protector.Recipients.{remove, without_recipient, remove_recipient}

-- The recipients with another identity.
abbrev pub others : Bytes → List RecipientRecord → List RecipientRecord
others key [] = []
others key (r ∷ rs) = if eq_bytes (id r) key then others key rs else r ∷ others key rs

module _ {A : Type 0} where
  All-remove : (P : A → Type 0) (xs : List A) (k : ℕ) → All P xs → All P (remove xs k)
  All-remove P [] zero h = tt
  All-remove P [] (suc k) h = tt
  All-remove P (x ∷ xs) zero h = h.1
  All-remove P (x ∷ xs) (suc k) h = (h.0, All-remove P xs k h.1)

  AllPairs-remove :
      (R : A → A → Type 0) (xs : List A) (k : ℕ) → AllPairs R xs → AllPairs R (remove xs k)
  AllPairs-remove R [] zero h = tt
  AllPairs-remove R [] (suc k) h = tt
  AllPairs-remove R (x ∷ xs) zero h = h.1
  AllPairs-remove R (x ∷ xs) (suc k) h = (All-remove (R x) xs k h.0, AllPairs-remove R xs k h.1)

  length-remove :
      (xs : List A) (k : ℕ) (x : A) → get_elem? xs k ≡ some x → length (remove xs k) + 1 ≡ length xs
  length-remove [] k x h = cc
  length-remove (y ∷ ys) zero x h = omega arith
  length-remove (y ∷ ys) (suc k) x h = omega (arith, length-remove ys k x h)

All-get :
    (P : RecipientRecord → Type 0) (rs : List RecipientRecord) (k : ℕ) (r : RecipientRecord)
    → All P rs
    → get_elem? rs k ≡ some r
    → P r
All-get P [] k r h e = cc
All-get P (x ∷ xs) zero r h e = subst P (cc) h.0
All-get P (x ∷ xs) (suc k) r h e = All-get P xs k r h.1 e

others-later :
    (key : Bytes) (x : RecipientRecord) (rs : List RecipientRecord)
    → id x ≡ key
    → All (Before x) rs
    → others key rs ≡ rs
others-later key x [] e h = refl
others-later key x (r ∷ rs) e h =
    let apart : id r ≢ key = λ same. cc (same, e, h.0, cmp_bytes_refl key) in
    rw (ne→eq_bytes_false (id r) key apart) (ap (λ t. r ∷ t) (others-later key x rs e h.1))

remove-eq-others :
    (key : Bytes) (rs : List RecipientRecord) (k : ℕ) (r : RecipientRecord)
    → AllPairs Before rs
    → get_elem? rs k ≡ some r
    → id r ≡ key
    → remove rs k ≡ others key rs
remove-eq-others key [] k r h e i = cc
remove-eq-others key (x ∷ xs) zero r h e i =
    let here : id x ≡ key = cc in
    rw (here, eq_bytes_refl key) (sym (others-later key x xs here h.0))
remove-eq-others key (x ∷ xs) (suc k) r h e i =
    let before : Before x r = All-get (Before x) xs k r h.0 e in
    let apart : id x ≢ key = λ same. cc (same, i, before, cmp_bytes_refl key) in
    rw (ne→eq_bytes_false (id x) key apart) (ap (λ t. x ∷ t) (remove-eq-others key xs k r h.1 e i))

module _ (w : Wire) (laws : WireLaws w) where
  -- One recipient less keeps an envelope of two or more well formed, under any mac.
  remove-IsWellFormed :
      (e : KeyEnvelope) (k : ℕ) (r : RecipientRecord) (mac : Bytes)
      → IsWellFormed w e
      → get_elem? e.recipients k ≡ some r
      → 2 ≤ length e.recipients
      → IsArray 32 mac
      → IsWellFormed w (record e { recipients = remove e.recipients k; mac = mac })
  remove-IsWellFormed e k r mac h at_k two array = record {
    application_id = h.application_id;
    envelope_id = h.envelope_id;
    nonempty = omega (arith, length-remove e.recipients k r at_k);
    bounded = omega (arith, length-remove e.recipients k r at_k, h.bounded);
    each = All-remove (IsRecipient w) e.recipients k h.each;
    set = record {
      ordered = AllPairs-remove Before e.recipients k h.set.ordered;
      distinct = AllPairs-remove IsDistinct e.recipients k h.set.distinct;
    };
    mac = array;
  }

module _ (w : Wire) (laws : WireLaws w) (s : Suite) (suite_laws : SuiteLaws s) where
  -- A mac does not depend on the mac that the envelope carries.
  carries :
      (e : KeyEnvelope) (root mac : Bytes)
      → compute_envelope_mac w s e root ≡ ok mac
      → envelope_mac_matches w s (record e { mac = mac }) root ≡ ok true
  unfolding compute_envelope_mac envelope_mac_matches canonical_body encode_body encode_body_fields
  carries e root mac h = rw h (ap ok (eq_bytes_refl mac))

  removed :
      (p : KeyProtector) (root recipient : Bytes) (e : KeyEnvelope) (k : ℕ) (r : RecipientRecord)
      → IsSealed w s root e
      → e.application_id ≡ p.application_id
      → binary_search e.recipients recipient ≡ some k
      → get_elem? e.recipients k ≡ some r
      → 2 ≤ length e.recipients
      → (mac : Bytes) × (without_recipient w s p e root recipient
          ≡ ok (record e { recipients = remove e.recipients k; mac = mac }))
        × IsSealed w s root (record e { recipients = remove e.recipients k; mac = mac })
  unfolding without_recipient verify_envelope_mac canonicalize
  removed p root recipient e k r h app found at_k two =
      let wf = remove-IsWellFormed w laws e k r e.mac h.well_formed at_k two h.well_formed.mac in
      let (mac, computed, array) =
        compute_envelope_mac-total w laws s suite_laws
          (record e { recipients = remove e.recipients k }) root wf in
      let wf' = remove-IsWellFormed w laws e k r mac h.well_formed at_k two array in
      let matched = carries (record e { recipients = remove e.recipients k }) root mac computed in
      let more : (length e.recipients == 1) ≡ false = ground arith in
      (
        mac,
        rw (admits p e app, found, more, h.authentic, computed, decode-encode w laws _ wf', matched)
            refl,
        record { well_formed = wf'; authentic = matched },
      )

  -- From a well-formed envelope of the protector's application, which the root authenticates and
  -- which has two or more recipients, `remove_recipient` succeeds for a recipient that is there: what
  -- is left has the same application and envelope identity and, in their order, the recipients of
  -- another identity; it is well formed, the root authenticates it, and the world is as it was.
  pub remove_recipient-removes :
      (p : KeyProtector) (root recipient : Bytes) (e : KeyEnvelope) (r : RecipientRecord)
      {World : Type 0} (world : World)
      → IsSealed w s root e
      → e.application_id ≡ p.application_id
      → lookup recipient e.recipients ≡ some r
      → 2 ≤ length e.recipients
      → (mac : Bytes) × (remove_recipient w s p root recipient (e, world)
          ≡ (ok tt, (record e { recipients = others recipient e.recipients; mac = mac }, world)))
        × IsSealed w s root (record e { recipients = others recipient e.recipients; mac = mac })
  unfolding remove_recipient ◌>>=◌ lift current store pure
  remove_recipient-removes p root recipient e r world h app there two =
      let (k, found, at_k) = search_hits e.recipients recipient r h.well_formed.set.ordered there in
      let (_, _, is_key, _) = lookup-some recipient e.recipients r there in
      let same =
        remove-eq-others recipient e.recipients k r h.well_formed.set.ordered at_k is_key in
      let (mac, gives, is_sealed) = removed p root recipient e k r h app found at_k two in
      (mac, rw (gives, same) refl, rw (← same) is_sealed)
