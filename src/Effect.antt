-- ===== src/Effect.antt =====
-- Operations that may fail and that change a state: what was done before an error stays done, so
-- the state comes back beside the error too.
pub mod Frame
pub mod Post
pub mod Stops
pub mod Runs
use fido_key_wrap.Error.{Error, Result, ok, err}

abbrev pub Effect : Type 0 → Type 0 → Type 0
Effect S A = S → Result A × S

module _ {S A : Type 0} where
  unfoldable pub pure : A → Effect S A
  pure a s = (ok a, s)

  unfoldable pub raise : Error → Effect S A
  raise e s = (err e, s)

  unfoldable pub lift : Result A → Effect S A
  lift r s = (r, s)

  -- `match` on the outcome.
  unfoldable pub attempt : Effect S A → Effect S (Result A)
  attempt m s = let (r, s') = m s in (ok r, s')

module _ {S A B : Type 0} where
  abbrev pub continue : Result A → (A → Effect S B) → Effect S B
  continue (ok a) f s = f a s
  continue (err e) f s = (err e, s)

  infixl 5 ◌>>=◌
  unfoldable pub ◌>>=◌ : Effect S A → (A → Effect S B) → Effect S B
  ◌>>=◌ m f s = let (r, s') = m s in continue r f s'

module _ {S B : Type 0} where
  infixl 5 ◌>>◌
  abbrev pub ◌>>◌ : Effect S (Unit {0}) → Effect S B → Effect S B
  m >> n = m >>= λ _. n

-- A state of two parts, `&mut` first: `T` is an object that the caller lends.
module _ {T W A : Type 0} where
  unfoldable pub on_world : Effect W A → Effect (T × W) A
  on_world m (t, w) = let (r, w') = m w in (r, (t, w'))

module _ {T W : Type 0} where
  unfoldable pub current : Effect (T × W) T
  current (t, w) = (ok t, (t, w))

  unfoldable pub store : T → Effect (T × W) (Unit {0})
  store t' (t, w) = (ok tt, (t', w))
