-- ===== src/Native/Selection.antt =====
-- crates/fido-key-wrap-libfido2/src/native.rs: which authenticators can serve a request, and the
-- choice of one of them by a touch. Times are nanoseconds.
pub mod Touch
pub mod Supported
pub mod Polling
pub mod Timed
pub mod Waiting
pub mod Lasting
pub mod Deciding
use fido_key_wrap.Common.{
  ℕ, zero, suc, ◌+◌, ◌-◌, ◌*◌, ◌/◌, Bool, true, false, not, ◌&&◌, ◌||◌, ltb, leb, ◌==◌, Option,
  none, some, List, [], ◌∷◌, Bytes, length, if◌then◌else◌,
}
use fido_key_wrap.Config.{nanos_per_millisecond, i32_max}
use fido_key_wrap.Native.Errors.{
  ℤ, pos, eq_int, Error, no_authenticators, no_compatible_authenticators, selection_timed_out,
  protocol, Outcome, fault, done, fault_if, done_or,
}
use fido_key_wrap.Native.Action.{
  Action, pure, raise, raise_from, lift, reads, call, attempt, ◌>>=◌, ◌>>◌,
}
use fido_key_wrap.Native.Status.{fido_ok, fido_disable_u2f_fallback, translate_status}
use fido_key_wrap.Native.Library.{Library, Handle}
use fido_key_wrap.Native.Request.{
  Config, operation_milliseconds, Capabilities, ExactPolicy, ManagedCapability, supports_policy,
  supports_managed,
}
use fido_key_wrap.Native.Device.{manifest, open_device, capabilities, set}
use Prim.Native.String.{String}

abbrev pub Offer : Type 0
Offer = Handle × Capabilities

-- The local variables of the loop in `prepare_selection_matching`.
pub record Search : Type 0 where
  pub devices : List Offer
  pub first_unavailable : Option Error
  pub found_incompatible : Bool

-- `get_or_insert`
abbrev pub get_or_insert : Option Error → Error → Option Error
get_or_insert none e = some e
get_or_insert (some first) e = some first

-- `push`
abbrev pub push : List Offer → Offer → List Offer
push [] d = d ∷ []
push (x ∷ xs) d = x ∷ push xs d

unfoldable pub unavailable : Search → Error → Search
unavailable s e = record s { first_unavailable = get_or_insert s.first_unavailable e }

unfoldable pub no_candidate_error : Option Error → Error
no_candidate_error (some first) = first
no_candidate_error none = no_compatible_authenticators

-- The devices that `PreparedSelection` holds; their settings are an argument of `select`.
unfoldable pub prepared : Option Error → List Offer → Outcome Error (List Offer)
prepared first_unavailable [] = fault (no_candidate_error first_unavailable)
prepared first_unavailable (d ∷ ds) = done (d ∷ ds)

unfoldable pub finish_search : Search → Outcome Error (List Offer)
finish_search s = prepared s.first_unavailable s.devices

pub record Authenticator : Type 0 where
  pub device : Handle
  pub capabilities : Capabilities
  pub affinity : ℕ

module _ {W : Type 0} (lib : Library W) where
  open lib use {
    ensure_loaded, fido_init, now, rc_new, fido_dev_cancel, fido_dev_set_timeout,
    fido_dev_get_touch_begin, fido_dev_get_touch_status,
  }

  unfoldable pub initialize_thread : Action W Error (Unit {0})
  initialize_thread = do ensure_loaded; call (fido_init fido_disable_u2f_fallback)

  module _ (supports : Capabilities → Bool) (config : Config) where
    unfoldable pub examined : Search → Handle → Outcome Error Capabilities → Search
    examined s device (fault e) = unavailable s e
    examined s device (done c) =
        if supports c
        then record s { devices = push s.devices (device, c) }
        else record s { found_incompatible = true }

    unfoldable pub opened : Search → Outcome Error Handle → Action W Error Search
    opened s (fault e) = pure (unavailable s e)
    opened s (done device) = do c ← attempt (capabilities lib device); pure (examined s device c)

    -- The loop over the candidates.
    unfoldable pub search_candidates : List Bytes → Search → Action W Error Search
    search_candidates [] s = pure s
    search_candidates (path ∷ paths) s = do
      device ← attempt (open_device lib path config)
      s' ← opened s device
      search_candidates paths s'

    abbrev pub nothing_yet : Search
    nothing_yet = record { devices = []; first_unavailable = none; found_incompatible = false }

    abbrev pub is_empty : List Bytes → Bool
    is_empty [] = true
    is_empty (_ ∷ _) = false

    unfoldable pub prepare_selection_matching : Action W Error (List Offer)
    prepare_selection_matching = do
      initialize_thread
      candidates ← manifest lib config.max_devices
      lift (fault_if (is_empty candidates) no_authenticators)
      s ← search_candidates candidates nothing_yet
      lift (finish_search s)

  unfoldable pub prepare_selection : Config → ExactPolicy → Action W Error (List Offer)
  prepare_selection config policy =
      prepare_selection_matching (λ c. supports_policy c policy) config

  unfoldable pub prepare_managed_selection :
      Config → ManagedCapability → Action W Error (List Offer)
  prepare_managed_selection config capability =
      prepare_selection_matching (λ c. supports_managed c capability) config
