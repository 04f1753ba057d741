-- ===== src/Native/Selection/Supported.antt =====
-- A selected authenticator supports what was asked for.
use fido_key_wrap.Common.{
  ℕ, zero, suc, ◌+◌, ◌≡◌, inl, inr, Bool, true, false, Bool-cases, List, [], ◌∷◌, Option, none,
  some, All, Bytes, length, ◌≤◌, arith,
}
use mathlib.Core.Path.{subst}
use fido_key_wrap.Native.Errors.{
  Error, Outcome, fault, done, same_done, done_or, selection_timed_out,
}
use fido_key_wrap.Native.Action.{Action, lift, ◌>>=◌}
use fido_key_wrap.Native.Action.Runs.{Ends, Ends-bind, Ends-lift, Ends-pure}
use fido_key_wrap.Native.Library.{Library, Handle}
use fido_key_wrap.Native.Request.{Config, Capabilities}
use fido_key_wrap.Native.Selection.{
  Offer, Search, push, unavailable, prepared, finish_search, Authenticator, examined, opened,
  search_candidates, prepare_selection_matching,
}
use fido_key_wrap.Native.Selection.Touch.{
  poll_next, poll_all, again, poll, new_authenticator, chosen, select_by_touch, select,
}

All-push : (P : Offer → Type 0) (ds : List Offer) (d : Offer) → All P ds → P d → All P (push ds d)
All-push P [] d h p = (p, tt)
All-push P (x ∷ xs) d h p = (h.0, All-push P xs d h.1 p)

module _ {W : Type 0} (lib : Library W) where
  module _ (supports : Capabilities → Bool) (config : Config) where
    abbrev pub IsSupported : Offer → Type 0
    IsSupported d = supports d.1 ≡ true

    examined-All :
        (s : Search) (device : Handle) (r : Outcome Error Capabilities)
        → All IsSupported s.devices
        → All IsSupported (examined lib supports config s device r).devices
    unfolding examined unavailable
    examined-All s device (fault e) h = h
    examined-All s device (done c) h = elim (Bool-cases (supports c)) [
      | inl y ↦ rw y (All-push IsSupported s.devices (device, c) h y)
      | inr n ↦ rw n h
    ]

    opened-All :
        (s s' : Search) (r : Outcome Error Handle) {w w' : W}
        → All IsSupported s.devices
        → Ends (opened lib supports config s r) w (done s') w'
        → All IsSupported s'.devices
    unfolding opened unavailable
    opened-All s s' (fault e) h k =
        subst (λ (t : Search). All IsSupported t.devices) (same_done (Ends-pure _ k).0) h
    opened-All s s' (done device) h k =
        let (c, _, _, l) = Ends-bind _ _ k in
        subst (λ (t : Search). All IsSupported t.devices) (same_done (Ends-pure _ l).0)
          (examined-All s device c h)

    search-All :
        (paths : List Bytes) (s s' : Search) {w w' : W}
        → All IsSupported s.devices
        → Ends (search_candidates lib supports config paths s) w (done s') w'
        → All IsSupported s'.devices
    unfolding search_candidates
    search-All [] s s' h k =
        subst (λ (t : Search). All IsSupported t.devices) (same_done (Ends-pure _ k).0) h
    search-All (path ∷ paths) s s' h k =
        let (device, _, _, k1) = Ends-bind _ _ k in
        let (t, _, ho, k2) = Ends-bind _ _ k1 in
        search-All paths t s' (opened-All s t device h ho) k2

    prepared-same :
        (first : Option Error) (ds devices : List Offer)
        → prepared first ds ≡ done devices
        → (ds ≡ devices) × (1 ≤ length devices)
    unfolding prepared
    prepared-same first [] devices h = cc
    prepared-same first (d ∷ ds) devices h =
        (same_done h, subst (λ t. 1 ≤ length t) (same_done h) (omega arith))

    -- What is prepared for a selection is not empty, and each device of it supports the request.
    pub prepare-All :
        (devices : List Offer) {w w' : W}
        → Ends (prepare_selection_matching lib supports config) w (done devices) w'
        → (1 ≤ length devices) × All IsSupported devices
    unfolding prepare_selection_matching finish_search
    prepare-All devices h =
        let (_, _, _, h1) = Ends-bind _ _ h in
        let (paths, _, _, h2) = Ends-bind _ _ h1 in
        let (_, _, _, h3) = Ends-bind _ _ h2 in
        let (s, _, hs, h4) = Ends-bind _ _ h3 in
        let (same, some') =
          prepared-same s.first_unavailable s.devices devices (Ends-lift _ h4).0 in
        (some', subst (All IsSupported) same (search-All paths _ s tt hs))

  -- The selection takes one of the devices.
  module _ (P : Offer → Type 0) (config : Config) where
    abbrev Chosen : Option (ℕ × Offer) → Type 0
    Chosen none = Unit
    Chosen (some c) = P c.1

    module _ (deadline : ℕ) (all : List Offer) where
      poll_next-Chosen :
          (i : ℕ) (d : Offer) (rest : Action W Error (Option (ℕ × Offer))) (touched : Bool)
          (o : Option (ℕ × Offer)) {w w' : W}
          → P d
          → ((v v' : W) → Ends rest v (done o) v' → Chosen o)
          → Ends (poll_next lib config deadline all i d rest touched) w (done o) w'
          → Chosen o
      unfolding poll_next
      poll_next-Chosen i d rest true o p h k = subst Chosen (same_done (Ends-pure _ k).0) p
      poll_next-Chosen i d rest false o p h k = h _ _ k

      poll_all-Chosen :
          (i : ℕ) (ds : List Offer) (o : Option (ℕ × Offer)) {w w' : W}
          → All P ds
          → Ends (poll_all lib config deadline all i ds) w (done o) w'
          → Chosen o
      unfolding poll_all
      poll_all-Chosen i [] o h k = subst Chosen (same_done (Ends-pure _ k).0) tt
      poll_all-Chosen i (d ∷ ds) o h k =
          let (touched, _, _, l) = Ends-bind _ _ k in
          poll_next-Chosen i d _ touched o h.0 (λ v v' r. poll_all-Chosen (i + 1) ds o h.1 r) l

      again-Chosen :
          (rest : Action W Error (Option (ℕ × Offer))) (c o : Option (ℕ × Offer)) {w w' : W}
          → Chosen c
          → ((v v' : W) → Ends rest v (done o) v' → Chosen o)
          → Ends (again lib config deadline all rest c) w (done o) w'
          → Chosen o
      unfolding again
      again-Chosen rest none o p h k = h _ _ k
      again-Chosen rest (some c) o p h k = subst Chosen (same_done (Ends-pure _ k).0) p

      poll-Chosen :
          (fuel : ℕ) (o : Option (ℕ × Offer)) {w w' : W}
          → All P all
          → Ends (poll lib config deadline all fuel) w (done o) w'
          → Chosen o
      unfolding poll
      poll-Chosen zero o h k = subst Chosen (same_done (Ends-pure _ k).0) tt
      poll-Chosen (suc fuel) o h k =
          let (c, _, hc, l) = Ends-bind _ _ k in
          again-Chosen _ c o (poll_all-Chosen 0 all c h hc) (λ v v' r. poll-Chosen fuel o h r) l

  module _ (Q : Capabilities → Type 0) (config : Config) where
    abbrev Offers : Offer → Type 0
    Offers d = Q d.1

    new_authenticator-Offers :
        (d : Offer) (a : Authenticator) {w w' : W}
        → Q d.1
        → Ends (new_authenticator lib d) w (done a) w'
        → Q a.capabilities
    unfolding new_authenticator
    new_authenticator-Offers d a q h =
        let (_, _, _, k) = Ends-bind _ _ h in
        subst (λ (t : Authenticator). Q t.capabilities) (same_done (Ends-pure _ k).0) q

    abbrev Gives : Option Authenticator → Type 0
    Gives none = Unit
    Gives (some a) = Q a.capabilities

    chosen-Gives :
        (devices : List Offer) (c : Option (ℕ × Offer)) (o : Option Authenticator) {w w' : W}
        → Chosen Offers config c
        → Ends (chosen lib config devices c) w (done o) w'
        → Gives o
    unfolding chosen
    chosen-Gives devices none o p h = subst Gives (same_done (Ends-pure _ h).0) tt
    chosen-Gives devices (some (i, d)) o p h =
        let (_, _, _, h1) = Ends-bind _ _ h in
        let (_, _, _, h2) = Ends-bind _ _ h1 in
        let (a, _, ha, h3) = Ends-bind _ _ h2 in
        subst Gives (same_done (Ends-pure _ h3).0) (new_authenticator-Offers d a p ha)

    select_by_touch-Gives :
        (fuel : ℕ) (devices : List Offer) (o : Option Authenticator) {w w' : W}
        → All Offers devices
        → Ends (select_by_touch lib config fuel devices) w (done o) w'
        → Gives o
    unfolding select_by_touch
    select_by_touch-Gives fuel devices o h k =
        let (t, _, _, k1) = Ends-bind _ _ k in
        let (_, _, _, k2) = Ends-bind _ _ k1 in
        let (c, _, hc, k3) = Ends-bind _ _ k2 in
        chosen-Gives devices c o (poll-Chosen Offers config _ devices fuel c h hc) k3

    given :
        (o : Option Authenticator) (a : Authenticator)
        → Gives o
        → done_or selection_timed_out o ≡ done a
        → Q a.capabilities
    given none a g h = cc
    given (some b) a g h = subst (λ (t : Authenticator). Q t.capabilities) (same_done h) g

    touch-Offers :
        (fuel : ℕ) (devices : List Offer) (a : Authenticator) {w w' : W}
        → All Offers devices
        → Ends
            (select_by_touch lib config fuel devices >>= λ o. lift (done_or selection_timed_out o))
            w
            (done a)
            w'
        → Q a.capabilities
    touch-Offers fuel devices a h k =
        let (o, _, ho, l) = Ends-bind _ _ k in
        given o a (select_by_touch-Gives fuel devices o h ho) (Ends-lift _ l).0

    -- The selected authenticator has what all the devices have.
    pub select-Offers :
        (devices : List Offer) (a : Authenticator) {w w' : W}
        → All Offers devices
        → Ends (select lib config devices) w (done a) w'
        → Q a.capabilities
    unfolding select
    select-Offers [] a h k = touch-Offers _ [] a h k
    select-Offers (d ∷ []) a h k = new_authenticator-Offers d a h.0 k
    select-Offers (d ∷ e ∷ ds) a h k = touch-Offers _ (d ∷ e ∷ ds) a h k
