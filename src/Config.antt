-- ===== src/Config.antt =====
-- crates/fido-key-wrap/src/config.rs: `FidoConfig`. A `Duration` is its number of nanoseconds.
use fido_key_wrap.Common.{
  ℕ, ◌-◌, ◌*◌, ◌/◌, ◌%◌, ◌^◌, ◌≤◌, ◌≡◌, ◌↔◌, not, ◌&&◌, ◌||◌, leb, ltb, ◌==◌, arith,
}
use fido_key_wrap.Error.{Result, ok, reject_if, ◌>>◌, invalid_fido_config}

abbrev pub nanos_per_second : ℕ
nanos_per_second = 1_000_000_000

abbrev pub default_operation_timeout : ℕ
default_operation_timeout = 30 * nanos_per_second

abbrev pub default_selection_timeout : ℕ
default_selection_timeout = 20 * nanos_per_second

abbrev pub default_max_devices : ℕ
default_max_devices = 16

abbrev pub hard_max_devices : ℕ
hard_max_devices = 32

abbrev pub nanos_per_millisecond : ℕ
nanos_per_millisecond = 1_000_000

abbrev pub i32_max : ℕ
i32_max = 2 ^ 31 - 1

pub record FidoConfig : Type 0 where
  pub operation_timeout : ℕ
  pub selection_timeout : ℕ
  pub max_devices : ℕ

-- `as_millis` drops the fraction.
unfoldable pub validate_timeout : ℕ → Result (Unit {0})
validate_timeout nanoseconds =
    reject_if
      (ltb nanoseconds nanos_per_millisecond
        || not (nanoseconds % nanos_per_millisecond == 0)
        || ltb i32_max (nanoseconds / nanos_per_millisecond))
      invalid_fido_config

-- `FidoConfig::new`
unfoldable pub new : ℕ → ℕ → ℕ → Result FidoConfig
new operation selection devices = do
  validate_timeout operation
  validate_timeout selection
  reject_if (not (leb 1 devices && leb devices hard_max_devices)) invalid_fido_config
  ok (record {
    operation_timeout = operation;
    selection_timeout = selection;
    max_devices = devices;
  })

-- `Default::default`
abbrev pub default : FidoConfig
default = record {
  operation_timeout = default_operation_timeout;
  selection_timeout = default_selection_timeout;
  max_devices = default_max_devices;
}

-- A timeout that libfido2 can hold: a positive number of milliseconds in an `i32`.
abbrev pub IsTimeout : ℕ → Type 0
IsTimeout t = (ms : ℕ) × (t ≡ ms * nanos_per_millisecond) × (1 ≤ ms) × (ms ≤ i32_max)

validate_timeout-of : (t : ℕ) → IsTimeout t → validate_timeout t ≡ ok tt
unfolding validate_timeout
validate_timeout-of t (ms, e, lo, hi) = ground arith

IsTimeout-of : (t : ℕ) → validate_timeout t ≡ ok tt → IsTimeout t
unfolding validate_timeout
IsTimeout-of t h = (t / nanos_per_millisecond, ground arith, ground arith, ground arith)

new-of :
    (o s d : ℕ)
    → validate_timeout o ≡ ok tt
    → validate_timeout s ≡ ok tt
    → 1 ≤ d
    → d ≤ hard_max_devices
    → new o s d ≡ ok (record { operation_timeout = o; selection_timeout = s; max_devices = d })
unfolding new
new-of o s d ho hs lo hi = rw (ho, hs) (ground arith)

timeouts-of :
    (o s d : ℕ) {e : FidoConfig}
    → new o s d ≡ ok e
    → (validate_timeout o ≡ ok tt) × (validate_timeout s ≡ ok tt)
unfolding new
timeouts-of o s d h = (ground arith, ground arith)

accepted :
    (o s d : ℕ) {e : FidoConfig}
    → new o s d ≡ ok e
    → IsTimeout o × IsTimeout s × (1 ≤ d) × (d ≤ hard_max_devices)
unfolding new
accepted o s d h =
    let (ho, hs) = timeouts-of o s d h in
    (IsTimeout-of o ho, IsTimeout-of s hs, ground arith, ground arith)

kept :
    (o s d : ℕ) (e : FidoConfig)
    → new o s d ≡ ok e
    → e ≡ record { operation_timeout = o; selection_timeout = s; max_devices = d }
unfolding new
kept o s d e h = ground arith

-- `FidoConfig::new` accepts exactly the timeouts that are whole milliseconds, positive and at most
-- `i32::MAX` of them, with 1 to 32 devices, and what it returns has the values that it was given.
pub new_config_exact :
    (o s d : ℕ)
    → ((new o s d ≡ ok (record { operation_timeout = o; selection_timeout = s; max_devices = d }))
        ↔ (IsTimeout o × IsTimeout s × (1 ≤ d) × (d ≤ hard_max_devices)))
      × ((e : FidoConfig)
          → new o s d ≡ ok e
          → e ≡ record { operation_timeout = o; selection_timeout = s; max_devices = d })
new_config_exact o s d = (
  (
    accepted o s d,
    λ h. new-of o s d (validate_timeout-of o h.0) (validate_timeout-of s h.1) h.2 h.3,
  ),
  λ e h. kept o s d e h,
)
