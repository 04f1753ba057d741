-- ===== src/Effect/Stops.antt =====
-- Operations that end in an error before they change anything.
use fido_key_wrap.Common.{◌≡◌, refl}
use fido_key_wrap.Error.{Error, Result, ok, err}
use fido_key_wrap.Effect.{Effect, lift, ◌>>=◌, current}
use fido_key_wrap.Effect.Frame.{discard}

module _ {S A : Type 0} where
  abbrev pub Stops : Effect S A → S → Type 0
  Stops m s = (x : Error) × (m s ≡ (err x, s))

module _ {S A B : Type 0} where
  pub Stops-check :
      (r : Result A) (f : A → Effect S B) (s : S)
      → ((a : A) → r ≡ ok a → Stops (f a) s)
      → Stops (lift r >>= f) s
  unfolding ◌>>=◌ lift
  Stops-check (ok a) f s h = h a refl
  Stops-check (err x) f s h = (x, refl)

module _ {T W A : Type 0} where
  pub Stops-current :
      (f : T → Effect (T × W) A) (t : T) (w : W) → Stops (f t) (t, w) → Stops (current >>= f) (t, w)
  unfolding ◌>>=◌ current
  Stops-current f t w h = h

  pub Stops-discard : (m : Effect (T × W) A) (s : T × W) → Stops m s → Stops (discard m) s
  unfolding discard
  Stops-discard m s (x, h) = (x, rw h refl)
