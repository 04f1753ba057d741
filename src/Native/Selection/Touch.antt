-- ===== src/Native/Selection/Touch.antt =====
-- crates/fido-key-wrap-libfido2/src/native.rs: the choice between several authenticators by a touch.
-- Times are nanoseconds.
use fido_key_wrap.Common.{
  ℕ, zero, suc, ◌+◌, ◌-◌, ◌/◌, Bool, true, false, ltb, leb, ◌==◌, Option, none, some, List, [], ◌∷◌,
  if◌then◌else◌,
}
use fido_key_wrap.Config.{nanos_per_millisecond, i32_max}
use fido_key_wrap.Native.Errors.{
  ℤ, pos, eq_int, Error, selection_timed_out, protocol, fault_if, done_or,
}
use fido_key_wrap.Native.Action.{Action, pure, raise, lift, call, ◌>>=◌, ◌>>◌}
use fido_key_wrap.Native.Status.{fido_ok, translate_status}
use fido_key_wrap.Native.Library.{Library, Handle}
use fido_key_wrap.Native.Request.{Config, operation_milliseconds}
use fido_key_wrap.Native.Device.{set}
use Prim.Native.String.{String}
use fido_key_wrap.Native.Selection.{Authenticator, Offer}

module _ {W : Type 0} (lib : Library W) where
  open lib use {
    now, rc_new, fido_dev_cancel, fido_dev_set_timeout, fido_dev_get_touch_begin,
    fido_dev_get_touch_status,
  }

  -- `cancel_all`; the statuses are not looked at.
  unfoldable pub cancel_all : List Offer → W → Unit {0} × W
  cancel_all [] w = (tt, w)
  cancel_all (d ∷ ds) w = let (_, w') = fido_dev_cancel d.0 w in cancel_all ds w'

  -- `cancel_all(&mut devices); return Err(e)`
  unfoldable pub give_up : {A : Type 0} → List Offer → Error → Action W Error A
  give_up devices e = do call (cancel_all devices); raise e

  unfoldable pub or_give_up_by : List Offer → Error → Bool → Action W Error (Unit {0})
  or_give_up_by all e true = pure tt
  or_give_up_by all e false = give_up all e

  -- `if status != FIDO_OK { cancel_all(&mut devices); return Err(…) }`
  abbrev pub or_give_up : List Offer → ℤ → String → Action W Error (Unit {0})
  or_give_up all status operation =
      or_give_up_by all (translate_status status operation) (eq_int status fido_ok)

  -- `i32::try_from(remaining.as_millis().max(1))`
  abbrev pub at_least_one : ℕ → ℕ
  at_least_one n = if n == 0 then 1 else n

  unfoldable pub selection_milliseconds : ℕ → Action W Error ℕ
  selection_milliseconds deadline = do
    t ← call now
    let milliseconds = at_least_one ((deadline - t) / nanos_per_millisecond)
    lift (fault_if (ltb deadline t) selection_timed_out)
    lift (fault_if (ltb i32_max milliseconds) protocol)
    pure milliseconds

  -- The first loop of `select_by_touch`: `all` are the devices that an error cancels.
  unfoldable pub begin_touch : ℕ → List Offer → List Offer → Action W Error (Unit {0})
  begin_touch deadline all [] = pure tt
  begin_touch deadline all (d ∷ ds) = do
    milliseconds ← selection_milliseconds deadline
    status ← call (fido_dev_set_timeout d.0 milliseconds)
    or_give_up all status "set selection timeout"
    status' ← call (fido_dev_get_touch_begin d.0)
    or_give_up all status' "begin touch selection"
    begin_touch deadline all ds

  abbrev pub min : ℕ → ℕ → ℕ
  min a b = if leb a b then a else b

  abbrev pub poll_milliseconds : Config → ℕ → ℕ
  poll_milliseconds config left =
      at_least_one (min config.touch_poll_interval left / nanos_per_millisecond)

  module _ (config : Config) (deadline : ℕ) (all : List Offer) where
    -- What follows the call of `fido_dev_get_touch_status`, by whether the status is `FIDO_OK` and the
    -- touch 1 or 0: whether the device was touched.
    unfoldable pub touched_by : ℤ → Bool → Bool → Bool → Action W Error Bool
    touched_by status false one zero' = give_up all (translate_status status "poll touch selection")
    touched_by status true true zero' = pure true
    touched_by status true false false = give_up all protocol
    touched_by status true false true = pure false

    abbrev pub touched : ℤ × ℤ → Action W Error Bool
    touched answer =
        touched_by answer.0 (eq_int answer.0 fido_ok) (eq_int answer.1 (pos 1))
          (eq_int answer.1 (pos 0))

    -- The test of the deadline, and the poll of a device before it.
    unfoldable pub poll_before : Handle → ℕ → Bool → Action W Error Bool
    poll_before device t true = give_up all selection_timed_out
    poll_before device t false = do
      answer ← call (fido_dev_get_touch_status device (poll_milliseconds config (deadline - t)))
      touched answer

    -- One turn of the inner loop.
    unfoldable pub poll_device : Handle → Action W Error Bool
    poll_device device = do t ← call now; poll_before device t (leb deadline t)

    -- The inner loop, from `index` on: the index of the device that was touched, if any was.
    unfoldable pub poll_next :
        ℕ → Offer → Action W Error (Option (ℕ × Offer)) → Bool → Action W Error (Option (ℕ × Offer))
    poll_next index d rest true = pure (some (index, d))
    poll_next index d rest false = rest

    unfoldable pub poll_all : ℕ → List Offer → Action W Error (Option (ℕ × Offer))
    poll_all index [] = pure none
    poll_all index (d ∷ ds) =
        let rest = poll_all (index + 1) ds in poll_device d.0 >>= poll_next index d rest

    -- The outer loop, on fuel: `none` is that it goes on.
    unfoldable pub again :
        Action W Error (Option (ℕ × Offer))
        → Option (ℕ × Offer)
        → Action W Error (Option (ℕ × Offer))
    again rest none = rest
    again rest (some c) = pure (some c)

    unfoldable pub poll : ℕ → Action W Error (Option (ℕ × Offer))
    poll zero = pure none
    poll (suc fuel) = let rest = poll fuel in poll_all 0 all >>= again rest

  -- `swap_remove`: the last device takes the place of the one that is taken out.
  abbrev pub last_offer : Offer → List Offer → Offer
  last_offer d [] = d
  last_offer d (x ∷ xs) = last_offer x xs

  abbrev pub but_last : Offer → List Offer → List Offer
  but_last d [] = []
  but_last d (x ∷ xs) = d ∷ but_last x xs

  unfoldable pub swap_remove : List Offer → ℕ → List Offer
  swap_remove [] index = []
  swap_remove (d ∷ ds) zero = elim ds [ [] ↦ [] | x ∷ xs ↦ last_offer x xs ∷ but_last x xs ]
  swap_remove (d ∷ ds) (suc index) = d ∷ swap_remove ds index

  -- `Authenticator::new`
  unfoldable pub new_authenticator : Offer → Action W Error Authenticator
  new_authenticator (device, c) = do
    affinity ← call rc_new
    pure (record { device = device; capabilities = c; affinity = affinity })

  module _ (config : Config) where
    -- The touched device, after the loop.
    unfoldable pub chosen : List Offer → Option (ℕ × Offer) → Action W Error (Option Authenticator)
    chosen devices none = pure none
    chosen devices (some (index, d)) = do
      call (cancel_all (swap_remove devices index))
      set "restore operation timeout" (fido_dev_set_timeout d.0 (operation_milliseconds config))
      a ← new_authenticator d
      pure (some a)

    unfoldable pub select_by_touch : ℕ → List Offer → Action W Error (Option Authenticator)
    select_by_touch fuel devices = do
      t ← call now
      let deadline = t + config.selection_timeout
      begin_touch deadline devices devices
      choice ← poll config deadline devices fuel
      chosen devices choice

    -- `PreparedSelection::select`. The fuel is more than the nanoseconds to the deadline, so that it
    -- is not spent while the clock runs (Polling); a selection without an end has no result here.
    unfoldable pub select : List Offer → Action W Error Authenticator
    select (d ∷ []) = new_authenticator d
    select devices = do
      choice ← select_by_touch (config.selection_timeout + 1) devices
      lift (done_or selection_timed_out choice)
