-- ===== src/Backend/Settings.antt =====
-- The settings of the native backend (`NativeBackend::new` of crates/fido-key-wrap/src/backend.rs):
-- none of the conversions that the source takes to succeed can fail.
use fido_key_wrap.Common.{ℕ, ◌*◌, ◌/◌, ◌≤◌, ◌≡◌, ap, sym, ◌∙◌, arith}
use Prim.Native.String.{String}
use mathlib.Core.Path.{subst}
use fido_key_wrap.Error.{ok}
use fido_key_wrap.Config
use fido_key_wrap.Config.{FidoConfig, IsTimeout, nanos_per_millisecond, i32_max, new_config_exact}
use fido_key_wrap.Native.Errors.{Error, Outcome, done}
use fido_key_wrap.Native.Request.{
  Config, validate_milliseconds, new_config, operation_milliseconds, hard_max_devices,
}
use fido_key_wrap.Native.Library.{Library}
use fido_key_wrap.Native.Selection.Touch.{poll_milliseconds}

-- The settings that `NativeBackend::new` makes, under `expect`.
unfoldable pub native_config : FidoConfig → Outcome Error Config
native_config c = new_config c.operation_timeout c.selection_timeout c.max_devices

-- The settings of a configuration that is accepted.
abbrev pub settings : FidoConfig → Config
settings c = record {
  operation_timeout = c.operation_timeout;
  selection_timeout = c.selection_timeout;
  touch_poll_interval = 100 * nanos_per_millisecond;
  max_devices = c.max_devices;
}

milliseconds :
    (t : ℕ) → IsTimeout t → (1 ≤ t / nanos_per_millisecond) × (t / nanos_per_millisecond ≤ i32_max)
milliseconds t (ms, e, lo, hi) = (omega arith, omega arith)

validated : (t : ℕ) (message : String) → IsTimeout t → validate_milliseconds t message ≡ done tt
unfolding validate_milliseconds
validated t message h = let (lo, hi) = milliseconds t h in ground arith

fits :
    (o s d : ℕ)
    → IsTimeout o
    → IsTimeout s
    → 1 ≤ d
    → d ≤ hard_max_devices
    → native_config (record { operation_timeout = o; selection_timeout = s; max_devices = d })
      ≡ done (settings (record { operation_timeout = o; selection_timeout = s; max_devices = d }))
unfolding native_config new_config
fits o s d ho hs lo hi =
    rw
      (
        validated o "operation timeout is out of range" ho,
        validated s "selection timeout is out of range" hs,
      )
      (ground arith)

module _ {W : Type 0} (lib : Library W) where
  -- A configuration that `FidoConfig::new` accepts is accepted by the native backend; the timeout of an
  -- operation is then 1 to `i32::MAX` milliseconds, and each wait for a touch 1 to 100.
  pub native_config-total :
      (o s d : ℕ) (c : FidoConfig)
      → Config.new o s d ≡ ok c
      → (native_config c ≡ done (settings c))
        × (1 ≤ operation_milliseconds (settings c))
        × (operation_milliseconds (settings c) ≤ i32_max)
        × ((left : ℕ)
            → (1 ≤ poll_milliseconds lib (settings c) left)
              × (poll_milliseconds lib (settings c) left ≤ 100))
  native_config-total o s d c h =
      let (ho, hs, lo, hi) = (new_config_exact o s d).0.0 (h ∙ ap ok same) in
      let (low, high) = milliseconds o ho in
      subst Fits (sym same) (fits o s d ho hs lo hi, low, high, λ left. waits left)
    where
      Fits : FidoConfig → Type 0
      Fits c =
          (native_config c ≡ done (settings c))
          × (1 ≤ operation_milliseconds (settings c))
          × (operation_milliseconds (settings c) ≤ i32_max)
          × ((left : ℕ)
              → (1 ≤ poll_milliseconds lib (settings c) left)
                × (poll_milliseconds lib (settings c) left ≤ 100))

      same : c ≡ record { operation_timeout = o; selection_timeout = s; max_devices = d }
      same = (new_config_exact o s d).1 c h

      waits :
          (left : ℕ)
          → (1 ≤ poll_milliseconds lib (settings c) left)
            × (poll_milliseconds lib (settings c) left ≤ 100)
      waits left = (ground arith, ground arith)
