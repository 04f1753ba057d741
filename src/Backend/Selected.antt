-- ===== src/Backend/Selected.antt =====
-- The authenticator that the native backend of crates/fido-key-wrap/src/backend.rs works with.
use fido_key_wrap.Common.{◌≡◌, true, Bytes}
use fido_key_wrap.Error.{ok}
use fido_key_wrap.Policy.{FidoPolicy}
use fido_key_wrap.Interaction.{Operation}
use fido_key_wrap.Effect.Runs.{Ends, Ends-bind}
use fido_key_wrap.Native.Request.{ManagedCapability, supports_managed}
use fido_key_wrap.Native.Selection.{Authenticator, prepare_managed_selection}
use fido_key_wrap.Native.Selection.Supported.{prepare-All, select-Offers}
use fido_key_wrap.Backend.{NativeBackend, select_managed}
use fido_key_wrap.Backend.Cleanup.{Ends-from_native}

-- An authenticator that is selected for a managed credential, alone or by a touch among several,
-- supports what was asked for.
pub select_managed-supports :
    {W : Type 0} (b : NativeBackend W) (operation : Operation) (label : Bytes) (policy : FidoPolicy)
    (capability : ManagedCapability) {w w' : W} {a : Authenticator}
    → Ends (select_managed b operation label policy capability) w (ok a) w'
    → supports_managed a.capabilities capability ≡ true
unfolding select_managed prepare_managed_selection
select_managed-supports b operation label policy capability {a = a} h =
    let (devices, _, hd, h1) = Ends-bind _ _ h in
    let (_, _, _, h2) = Ends-bind _ _ h1 in
    let (_, good) =
      prepare-All b.library (λ c. supports_managed c capability) b.config devices
        (Ends-from_native _ hd) in
    select-Offers b.library (λ c. supports_managed c capability ≡ true) b.config devices a good
      (Ends-from_native _ h2)
