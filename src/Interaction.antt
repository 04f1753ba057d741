-- ===== src/Interaction.antt =====
-- crates/fido-key-wrap/src/interaction.rs: the inputs that an application supplies.
use fido_key_wrap.Common.{
  ℕ, ◌-◌, ◌≡◌, ◌↔◌, Bool, true, ◌&&◌, ◌||◌, ◌++◌, ltb, ◌==◌, arith, Bytes, length, replicate, any,
  eq_bytes, eq_bytes→eq, eq_bytes_refl, append-eq_length, ==_refl,
}
use mathlib.Core.Path.{subst}
use fido_key_wrap.Error.{Result, ok, reject_if, ◌>>◌, invalid_pin, invalid_passphrase}

pub data Operation : Type 0 where
  create_root protect_root unlock add_recipient rewrap_passphrase : Operation
  verify_managed_recipient retire_managed_recipient : Operation

pub data PassphrasePurpose : Type 0 where
  unlock new confirm : PassphrasePurpose

abbrev pub max_pin_bytes : ℕ
max_pin_bytes = 63

abbrev pub max_passphrase_bytes : ℕ
max_passphrase_bytes = 1_024

-- `Pin::new`
unfoldable pub new_pin : Bytes → Result Bytes
new_pin value = do
  reject_if ((length value == 0) || ltb max_pin_bytes (length value) || any (λ b. b == 0) value)
      invalid_pin
  ok value

-- `Passphrase::new`
unfoldable pub new_passphrase : Bytes → Result Bytes
new_passphrase bytes = do
  reject_if ((length bytes == 0) || ltb max_passphrase_bytes (length bytes)) invalid_passphrase
  ok bytes

-- A buffer of `MAX_BYTES` zeros with the passphrase copied to its front.
pad : Bytes → Bytes
pad p = p ++ replicate (max_passphrase_bytes - length p) 0

-- `Passphrase::confirmation_matches`: both comparisons are made, whatever the first one gives.
unfoldable pub confirmation_matches : Bytes → Bytes → Bool
unfolding pad
confirmation_matches p q = eq_bytes (pad p) (pad q) && (length p == length q)

confirmed : (p q : Bytes) → confirmation_matches p q ≡ true → p ≡ q
unfolding confirmation_matches
confirmed p q h =
    (append-eq_length p q (replicate (max_passphrase_bytes - length p) 0)
      (replicate (max_passphrase_bytes - length q) 0) (ground arith)
      (eq_bytes→eq (pad p) (pad q) (ground arith))).0

confirms : (p : Bytes) → confirmation_matches p p ≡ true
unfolding confirmation_matches
confirms p = rw (eq_bytes_refl, ==_refl)

-- The comparison of two entries on padded buffers holds exactly when the entries are the same bytes.
confirmation_matches_iff : (p q : Bytes) → (confirmation_matches p q ≡ true) ↔ (p ≡ q)
confirmation_matches_iff p q =
    (confirmed p q, λ e. subst (λ t. confirmation_matches p t ≡ true) e (confirms p))
