-- ===== src/Error.antt =====
-- The public error type of crates/fido-key-wrap/src/error.rs, and its `Result`.
use fido_key_wrap.Common.{ℕ, ◌≡◌, refl, Bool, true, false, Option, none, some, ◌⊎◌, inl, inr}

-- Failures that a security-key operation reports.
pub data AuthenticatorFailure : Type 0 where
  pin_invalid : Option ℕ → AuthenticatorFailure
  pin_blocked pin_temporarily_blocked timed_out busy credential_unavailable : AuthenticatorFailure
  credential_store_full credential_may_remain retirement_uncertain : AuthenticatorFailure
  transport operation_failed : AuthenticatorFailure

-- The variants of `InteractionError` in crates/fido-key-wrap/src/interaction.rs.
pub data InteractionError : Type 0 where
  cancelled unsupported failed : InteractionError

pub data Error : Type 0 where
  invalid_application_id invalid_recipient_id invalid_label invalid_passphrase invalid_pin : Error
  invalid_passphrase_parameters invalid_passphrase_limits invalid_fido_config : Error
  invalid_envelope application_mismatch recipient_not_found would_remove_last_recipient : Error
  too_many_recipients recipient_does_not_use_passphrase recipient_is_not_managed : Error
  passphrase_confirmation_mismatch passphrase_limit_exceeded kdf_resource_unavailable : Error
  fido_support_unavailable no_compatible_authenticator : Error
  authenticator : AuthenticatorFailure → Error
  authenticator_response_invalid : Error
  interaction : InteractionError → Error
  random_unavailable envelope_authentication_failed unlock_failed : Error

-- What the library's functions return; the error comes first, as the early returns do.
pub data Result {ℓ} (T : Type ℓ) : Type ℓ where
  err : Error → Result T
  ok : T → Result T

-- `if test { return Err(e) }`
abbrev pub reject_if : Bool → Error → Result (Unit {0})
reject_if false reason = ok tt
reject_if true reason = err reason

module _ {ℓ} {T : Type ℓ} where
  -- `ok_or(e)`
  abbrev pub ok_or : Error → Option T → Result T
  ok_or reason (some t) = ok t
  ok_or reason none = err reason

  -- `map_err(|_| e)`
  abbrev pub map_err : Error → Result T → Result T
  map_err reason (err _) = err reason
  map_err reason (ok t) = ok t

  -- A result is one of the two.
  pub Result-cases :
      (outcome : Result T)
      → ((t : T) × (outcome ≡ ok t)) ⊎ ((reason : Error) × (outcome ≡ err reason))
  Result-cases (err reason) = inr (reason, refl)
  Result-cases (ok t) = inl (t, refl)

module _ {ℓ κ} {T : Type ℓ} {U : Type κ} where
  -- The `?` operator, with what follows it.
  infixl 5 ◌>>=◌
  abbrev pub ◌>>=◌ : Result T → (T → Result U) → Result U
  err reason >>= next = err reason
  ok t >>= next = next t

  -- A sequence that ends well had a first part that ends well.
  pub >>=-eq-ok :
      (first : Result T) (next : T → Result U) {u : U}
      → (first >>= next) ≡ ok u
      → (t : T) × (first ≡ ok t) × (next t ≡ ok u)
  >>=-eq-ok (err reason) next ends = cc
  >>=-eq-ok (ok t) next ends = (t, refl, ends)

module _ {ℓ} {T : Type ℓ} where
  -- What follows a check.
  infixl 5 ◌>>◌
  abbrev pub ◌>>◌ : Result (Unit {0}) → Result T → Result T
  check >> rest = check >>= λ _. rest
