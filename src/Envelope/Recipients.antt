-- ===== src/Envelope/Recipients.antt =====
-- crates/fido-key-wrap/src/envelope.rs: `validate_recipient_set`.
pub mod Laws
use fido_key_wrap.Common.{
  ℕ, ◌≡◌, refl, Bool, true, false, not, ◌&&◌, ◌||◌, Option, none, some, List, [], ◌∷◌, Bytes,
  lt_bytes, eq_bytes,
}
use fido_key_wrap.Error.{Result, ok, reject_if, ◌>>=◌, ◌>>◌, invalid_envelope}
use fido_key_wrap.Envelope.{RecipientRecord, id, credential_id, passphrase_salt}

-- `a.is_some() && a == b`
abbrev pub same_some : Option Bytes → Option Bytes → Bool
same_some (some a) (some b) = eq_bytes a b
same_some _ _ = false

-- The loop over `windows(2)`: `pair[0].id() >= pair[1].id()` is an error.
unfoldable pub check_order : List RecipientRecord → Result (Unit {0})
check_order [] = ok tt
check_order (r ∷ []) = ok tt
check_order (r ∷ s ∷ rest) = do
  reject_if (not (lt_bytes (id r) (id s))) invalid_envelope
  check_order (s ∷ rest)

-- The inner loop: one recipient against those behind it.
unfoldable pub check_others : RecipientRecord → List RecipientRecord → Result (Unit {0})
check_others r [] = ok tt
check_others r (o ∷ os) = do
  reject_if (same_some (credential_id r) (credential_id o)) invalid_envelope
  reject_if (same_some (passphrase_salt r) (passphrase_salt o)) invalid_envelope
  check_others r os

unfoldable pub check_unique : List RecipientRecord → Result (Unit {0})
check_unique [] = ok tt
check_unique (r ∷ rs) = do check_others r rs; check_unique rs

unfoldable pub validate_recipient_set : List RecipientRecord → Result (Unit {0})
validate_recipient_set rs = do check_order rs; check_unique rs
