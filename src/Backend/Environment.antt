-- ===== src/Backend/Environment.antt =====
-- The native backend in the place that crates/fido-key-wrap/src/protector.rs has for a backend
-- (`AuthenticatorBackend::Native`), beside the random source and the passphrase prompt.
use fido_key_wrap.Common.{ℕ, Bytes}
use fido_key_wrap.Interaction.{Operation, PassphrasePurpose}
use fido_key_wrap.Effect.{Effect}
use fido_key_wrap.Protector.Env.{Env, Answer}
use fido_key_wrap.Backend
use fido_key_wrap.Backend.{NativeBackend, ManagedSession}
use fido_key_wrap.Backend.Managed

-- A session of the native backend can only be of the native variant, so that the branch of
-- `evaluate_managed_enrollment` and `cleanup_managed_enrollment` for other variants is not reached.
unfoldable pub environment :
    {W : Type 0}
    → (ℕ → Effect W Bytes)
    → (Operation → Bytes → PassphrasePurpose → W → Answer × W)
    → NativeBackend W
    → Env W ManagedSession
environment random_array ask_passphrase b = record {
  random_array = random_array;
  ask_passphrase = ask_passphrase;
  enroll = Backend.enroll b;
  enroll_managed = Managed.enroll_managed b;
  evaluate = Backend.evaluate b;
  evaluate_managed_enrollment = Managed.evaluate_native_managed b;
  cleanup_managed_enrollment = Managed.cleanup_native_managed_enrollment b;
  verify_managed = Managed.verify_managed b;
  retire_managed = Managed.retire_managed b;
}
