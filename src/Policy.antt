-- ===== src/Policy.antt =====
-- crates/fido-key-wrap/src/policy.rs: ceremonies, factor policies and credential storage.
-- The children model the rest of that file: passphrase work and its ceilings (Parameters), labels
-- (Label) and enrolment requests (Enrollment).
pub mod Parameters
pub mod Label
pub mod Enrollment
use fido_key_wrap.Common.{ℕ, ◌≡◌, refl, Bool, true, false, ◌==◌, if◌then◌else◌, ◌↔◌, arith}
use fido_key_wrap.Error.{Result, ok, err, invalid_envelope}

pub data FidoPolicy : Type 0 where
  presence user_verification : FidoPolicy

pub data RecipientPolicy : Type 0 where
  passphrase recovery_secret : RecipientPolicy
  fido managed_fido fido_and_passphrase : FidoPolicy → RecipientPolicy
  fido_presence_and_local_secret : RecipientPolicy

pub data FidoStorage : Type 0 where
  non_discoverable managed : FidoStorage

-- `FidoPolicy::code`
unfoldable pub code : FidoPolicy → ℕ
code presence = 1
code user_verification = 2

-- `FidoPolicy::from_code`
unfoldable pub from_code : ℕ → Result FidoPolicy
from_code c =
    if c == 1 then ok presence else if c == 2 then ok user_verification else err invalid_envelope

unfoldable pub uses_passphrase : RecipientPolicy → Bool
uses_passphrase passphrase = true
uses_passphrase (fido_and_passphrase _) = true
uses_passphrase _ = false

-- A code is read back as the policy that it was written for, and no other byte is accepted.
from_code_iff : (c : ℕ) (p : FidoPolicy) → (from_code c ≡ ok p) ↔ (c ≡ code p)
unfolding from_code code
from_code_iff c presence = ground arith
from_code_iff c user_verification = ground arith
