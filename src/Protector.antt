-- ===== src/Protector.antt =====
-- crates/fido-key-wrap/src/protector.rs. The children model what it takes from its surroundings
-- (Env), its checks (Guards), fresh values (Fresh), enrolment (Enroll), staging (Stage), unlocking
-- (Unlock), the changes of an envelope (Create, Recipients, Rewrap) and managed credentials (Managed);
-- the others are about staged envelopes (Staging), fresh identities (Freshness), added recipients
-- (Adding), failures (Atomic), all changes together (Changes), the life of an envelope (Reached),
-- removal (Removal), refusals before any interaction (Guarded) and returned roots (Unlocking).
pub mod Env
pub mod Guards
pub mod Fresh
pub mod Enroll
pub mod Stage
pub mod Unlock
pub mod Create
pub mod Recipients
pub mod Rewrap
pub mod Managed
pub mod Staging
pub mod Atomic
pub mod Adding
pub mod Unlocking
pub mod Freshness
pub mod Changes
pub mod Reached
pub mod Removal
pub mod Guarded
pub mod Admission
use fido_key_wrap.Common.{Bytes}
use fido_key_wrap.Policy.Parameters.{PassphraseLimits, desktop_limits}

-- `KeyProtector`, without its backend, which is part of the surroundings.
pub record KeyProtector : Type 0 where
  pub application_id : Bytes
  pub passphrase_limits : PassphraseLimits

-- `KeyProtector::new`
abbrev pub new : Bytes → KeyProtector
new application_id = record { application_id = application_id; passphrase_limits = desktop_limits }

-- `KeyProtector::with_passphrase_limits`
abbrev pub with_passphrase_limits : KeyProtector → PassphraseLimits → KeyProtector
with_passphrase_limits p limits = record p { passphrase_limits = limits }
