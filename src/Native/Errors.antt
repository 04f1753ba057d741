-- ===== src/Native/Errors.antt =====
-- crates/fido-key-wrap-libfido2/src/error.rs, and results with any error type.
use Prim.Native.String.{String}
use fido_key_wrap.Common.{
  ℕ, ◌≡◌, refl, Option, none, some, Bool, true, false, ◌==◌, ==_refl, arith, ◌⊎◌, inl, inr,
}

-- A C `int`.
pub data ℤ : Type 0 where
  pos : ℕ → ℤ
  negsuc : ℕ → ℤ

abbrev pub eq_int : ℤ → ℤ → Bool
eq_int (pos a) (pos b) = a == b
eq_int (negsuc a) (negsuc b) = a == b
eq_int (pos a) (negsuc b) = false
eq_int (negsuc a) (pos b) = false

pub eq_int→eq : (a b : ℤ) → eq_int a b ≡ true → a ≡ b
eq_int→eq (pos a) (pos b) h = ground arith
eq_int→eq (negsuc a) (negsuc b) h = ground arith
eq_int→eq (pos a) (negsuc b) h = cc
eq_int→eq (negsuc a) (pos b) h = cc

pub eq_int_refl : (a : ℤ) → eq_int a a ≡ true
eq_int_refl (pos a) = ==_refl a
eq_int_refl (negsuc a) = ==_refl a

pub data Error : Type 0 where
  library_unavailable library_incompatible : Error
  invalid_input : String → Error
  allocation_failed random_unavailable no_authenticators no_compatible_authenticators : Error
  selection_timed_out timed_out busy transport : Error
  pin_invalid : Option ℕ → Error
  pin_blocked pin_auth_blocked pin_required user_action unsupported : Error
  credential_management_unsupported credential_store_full credential_may_remain : Error
  credential_not_found credential_mismatch retirement_uncertain verification_failed protocol : Error
  native : String → ℤ → Error

-- `core::result::Result`
pub data Outcome (E T : Type 0) : Type 0 where
  fault : E → Outcome E T
  done : T → Outcome E T

module _ {E : Type 0} where
  -- `if test { return Err(e) }`
  abbrev pub fault_if : Bool → E → Outcome E (Unit {0})
  fault_if false e = done tt
  fault_if true e = fault e

module _ {E T : Type 0} where
  -- `ok_or`
  abbrev pub done_or : E → Option T → Outcome E T
  done_or e none = fault e
  done_or e (some t) = done t

  pub Outcome-cases : (r : Outcome E T) → ((t : T) × (r ≡ done t)) ⊎ ((e : E) × (r ≡ fault e))
  Outcome-cases (fault e) = inr (e, refl)
  Outcome-cases (done t) = inl (t, refl)

module _ {E T U : Type 0} where
  -- The `?` operator, with what follows it.
  infixl 5 ◌>>=◌
  abbrev pub ◌>>=◌ : Outcome E T → (T → Outcome E U) → Outcome E U
  fault e >>= next = fault e
  done t >>= next = next t

  -- `map`
  abbrev pub map_done : (T → U) → Outcome E T → Outcome E U
  map_done f (fault e) = fault e
  map_done f (done t) = done (f t)

module _ {E U : Type 0} where
  infixl 5 ◌>>◌
  abbrev pub ◌>>◌ : Outcome E (Unit {0}) → Outcome E U → Outcome E U
  check >> rest = check >>= λ _. rest

module _ {E T U : Type 0} where
  pub >>=-eq-done :
      (first : Outcome E T) (next : T → Outcome E U) {u : U}
      → (first >>= next) ≡ done u
      → (t : T) × (first ≡ done t) × (next t ≡ done u)
  >>=-eq-done (fault e) next ends = cc
  >>=-eq-done (done t) next ends = (t, refl, ends)

module _ {E A : Type 0} where
  pub same_done : {a b : A} → ◌≡◌ {A = Outcome E A} (done a) (done b) → a ≡ b
  same_done h = cc

  pub same_fault : {x y : E} → ◌≡◌ {A = Outcome E A} (fault x) (fault y) → x ≡ y
  same_fault h = cc
