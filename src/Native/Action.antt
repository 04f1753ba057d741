-- ===== src/Native/Action.antt =====
-- Calls that change the world and may fail, with any type of errors.
pub mod Runs
use fido_key_wrap.Native.Errors.{Outcome, fault, done}

abbrev pub Action : Type 0 → Type 0 → Type 0 → Type 0
Action W E A = W → Outcome E A × W

module _ {W E A : Type 0} where
  unfoldable pub pure : A → Action W E A
  pure a w = (done a, w)

  unfoldable pub raise : E → Action W E A
  raise e w = (fault e, w)

  unfoldable pub lift : Outcome E A → Action W E A
  lift r w = (r, w)

  -- What a call reads, without a change.
  unfoldable pub reads : (W → Outcome E A) → Action W E A
  reads f w = (f w, w)

  -- A call that cannot fail.
  unfoldable pub call : (W → A × W) → Action W E A
  call f w = let (a, w') = f w in (done a, w')

  -- `return Err(…)` with an error that a call gives.
  unfoldable pub raise_from : (W → E × W) → Action W E A
  raise_from f w = let (e, w') = f w in (fault e, w')

module _ {W E F A : Type 0} where
  -- `match` on the outcome.
  unfoldable pub attempt : Action W E A → Action W F (Outcome E A)
  attempt m w = let (r, w') = m w in (done r, w')

module _ {E F A : Type 0} where
  -- `From` for the error.
  abbrev pub from_fault : (E → F) → Outcome E A → Outcome F A
  from_fault f (fault e) = fault (f e)
  from_fault f (done a) = done a

module _ {W E F A : Type 0} where
  unfoldable pub map_fault : (E → F) → Action W E A → Action W F A
  map_fault f m w = let (r, w') = m w in (from_fault f r, w')

module _ {W E A B : Type 0} where
  abbrev pub continue : Outcome E A → (A → Action W E B) → Action W E B
  continue (done a) f w = f a w
  continue (fault e) f w = (fault e, w)

  infixl 5 ◌>>=◌
  unfoldable pub ◌>>=◌ : Action W E A → (A → Action W E B) → Action W E B
  ◌>>=◌ m f w = let (r, w') = m w in continue r f w'

module _ {W E B : Type 0} where
  infixl 5 ◌>>◌
  abbrev pub ◌>>◌ : Action W E (Unit {0}) → Action W E B → Action W E B
  m >> n = m >>= λ _. n
