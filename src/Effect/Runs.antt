-- ===== src/Effect/Runs.antt =====
-- How a sequence of operations ended, and what its parts did.
use fido_key_wrap.Common.{◌≡◌, refl, ap, ◌⊎◌, inl, inr}
use fido_key_wrap.Error.{Error, Result, ok, err}
use fido_key_wrap.Effect.{Effect, pure, raise, lift, attempt, continue, ◌>>=◌}

-- From `w` the operation ends in `w'` with that result.
pub record Ends {W A : Type 0} (m : Effect W A) (w : W) (r : Result A) (w' : W) : Type 0 where
  pub ends : m w ≡ (r, w')

module _ {W A B : Type 0} where
  continued :
      (r : Result A) (f : A → Effect W B) (v : W) {b : B} {w' : W}
      → continue r f v ≡ (ok b, w')
      → (a : A) × (r ≡ ok a) × (f a v ≡ (ok b, w'))
  continued (ok a) f v h = (a, refl, h)
  continued (err e) f v h = cc

  -- A sequence that ends well has two parts that do.
  pub Ends-bind :
      (m : Effect W A) (f : A → Effect W B) {w w' : W} {b : B}
      → Ends (m >>= f) w (ok b) w'
      → (a : A) × (v : W) × Ends m w (ok a) v × Ends (f a) v (ok b) w'
  unfolding ◌>>=◌
  Ends-bind m f {w} h =
      let (a, e, k) = continued (m w).0 f (m w).1 h.ends in
      (a, (m w).1, record { ends = ap (λ r. (r, (m w).1)) e }, record { ends = k })

  broken :
      (r : Result A) (f : A → Effect W B) (v : W) {e : Error} {w' : W}
      → continue r f v ≡ (err e, w')
      → ((r ≡ err e) × (v ≡ w')) ⊎ ((a : A) × (r ≡ ok a) × (f a v ≡ (err e, w')))
  broken (ok a) f v h = inr (a, refl, h)
  broken (err x) f v h = inl (cc, cc)

  -- In a sequence that fails, the first part fails, or the second does after the first.
  pub Ends-bind_err :
      (m : Effect W A) (f : A → Effect W B) {w w' : W} {e : Error}
      → Ends (m >>= f) w (err e) w'
      → Ends m w (err e) w' ⊎ ((a : A) × (v : W) × Ends m w (ok a) v × Ends (f a) v (err e) w')
  unfolding ◌>>=◌
  Ends-bind_err m f {w} h = elim (broken (m w).0 f (m w).1 h.ends) [
    | inl x ↦ inl (record { ends = cc (x.0, x.1) })
    | inr x ↦
        inr (x.0, (m w).1, record { ends = ap (λ r. (r, (m w).1)) x.1 }, record { ends = x.2 })
  ]

module _ {W A : Type 0} where
  pub Ends-lift :
      (r : Result A) {w w' : W} {o : Result A} → Ends (lift r) w o w' → (r ≡ o) × (w ≡ w')
  unfolding lift
  Ends-lift r h = (cc h.ends, cc h.ends)

  pub Ends-pure : (a : A) {w w' : W} {o : Result A} → Ends (pure a) w o w' → (ok a ≡ o) × (w ≡ w')
  unfolding pure
  Ends-pure a h = (cc h.ends, cc h.ends)

  pub Ends-raise :
      (e : Error) {w w' : W} {o : Result A} → Ends (raise e) w o w' → (err e ≡ o) × (w ≡ w')
  unfolding raise
  Ends-raise e h = (cc h.ends, cc h.ends)

  pub Ends-attempt :
      (m : Effect W A) {w w' : W} {r : Result A} → Ends (attempt m) w (ok r) w' → Ends m w r w'
  unfolding attempt
  Ends-attempt m h = record { ends = cc h.ends }

  -- The operation has a result in every world.
  abbrev pub NeverFails : Effect W A → Type 0
  NeverFails m = (w w' : W) (e : Error) → Ends m w (err e) w' → ⊥

  pub NeverFails-pure : (a : A) → NeverFails (pure a)
  NeverFails-pure a w w' e h = absurd (cc (Ends-pure a h).0)

  pub NeverFails-attempt :
      (m : Effect W A) (w w' : W) (e : Error) → Ends (attempt m) w (err e) w' → ⊥
  unfolding attempt
  NeverFails-attempt m w w' e h = absurd (cc h.ends)

module _ {W A B : Type 0} where
  pub NeverFails-bind :
      (m : Effect W A) (f : A → Effect W B)
      → NeverFails m
      → ((a : A) → NeverFails (f a))
      → NeverFails (m >>= f)
  NeverFails-bind m f hm hf w w' e h = elim (Ends-bind_err m f h) [
    | inl k ↦ hm w w' e k
    | inr k ↦ hf k.0 k.1 w' e k.3
  ]
