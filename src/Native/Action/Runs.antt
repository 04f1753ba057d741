-- ===== src/Native/Action/Runs.antt =====
-- How a sequence of calls ended, and what its parts did.
use fido_key_wrap.Common.{◌≡◌, refl, ap, ◌⊎◌, inl, inr}
use fido_key_wrap.Native.Errors.{Outcome, fault, done}
use fido_key_wrap.Native.Action.{
  Action, pure, raise, lift, reads, call, raise_from, attempt, from_fault, map_fault, continue,
  ◌>>=◌,
}

-- From `w` the calls end in `w'` with that outcome.
pub record Ends {W E A : Type 0} (m : Action W E A) (w : W) (r : Outcome E A) (w' : W)
    : Type 0 where
  pub ends : m w ≡ (r, w')

module _ {W E A B : Type 0} where
  continued :
      (r : Outcome E A) (f : A → Action W E B) (v : W) {b : B} {w' : W}
      → continue r f v ≡ (done b, w')
      → (a : A) × (r ≡ done a) × (f a v ≡ (done b, w'))
  continued (done a) f v h = (a, refl, h)
  continued (fault e) f v h = cc

  -- A sequence that ends well has two parts that do.
  pub Ends-bind :
      (m : Action W E A) (f : A → Action W E B) {w w' : W} {b : B}
      → Ends (m >>= f) w (done b) w'
      → (a : A) × (v : W) × Ends m w (done a) v × Ends (f a) v (done b) w'
  unfolding ◌>>=◌
  Ends-bind m f {w} h =
      let (a, e, k) = continued (m w).0 f (m w).1 h.ends in
      (a, (m w).1, record { ends = ap (λ r. (r, (m w).1)) e }, record { ends = k })

  broken :
      (r : Outcome E A) (f : A → Action W E B) (v : W) {e : E} {w' : W}
      → continue r f v ≡ (fault e, w')
      → ((r ≡ fault e) × (v ≡ w')) ⊎ ((a : A) × (r ≡ done a) × (f a v ≡ (fault e, w')))
  broken (done a) f v h = inr (a, refl, h)
  broken (fault x) f v h = inl (cc, cc)

  -- In a sequence that fails, the first part fails, or the second does after the first.
  pub Ends-bind_fault :
      (m : Action W E A) (f : A → Action W E B) {w w' : W} {e : E}
      → Ends (m >>= f) w (fault e) w'
      → Ends m w (fault e) w'
        ⊎ ((a : A) × (v : W) × Ends m w (done a) v × Ends (f a) v (fault e) w')
  unfolding ◌>>=◌
  Ends-bind_fault m f {w} h = elim (broken (m w).0 f (m w).1 h.ends) [
    | inl x ↦ inl (record { ends = cc (x.0, x.1) })
    | inr x ↦
        inr (x.0, (m w).1, record { ends = ap (λ r. (r, (m w).1)) x.1 }, record { ends = x.2 })
  ]

module _ {W E A : Type 0} where
  pub Ends-lift :
      (r : Outcome E A) {w w' : W} {o : Outcome E A} → Ends (lift r) w o w' → (r ≡ o) × (w ≡ w')
  unfolding lift
  Ends-lift r h = (cc h.ends, cc h.ends)

  pub Ends-pure :
      (a : A) {w w' : W} {o : Outcome E A} → Ends (pure a) w o w' → (done a ≡ o) × (w ≡ w')
  unfolding pure
  Ends-pure a h = (cc h.ends, cc h.ends)

  pub Ends-raise :
      (e : E) {w w' : W} {o : Outcome E A} → Ends (raise e) w o w' → (fault e ≡ o) × (w ≡ w')
  unfolding raise
  Ends-raise e h = (cc h.ends, cc h.ends)

  pub Ends-call :
      (f : W → A × W) {w w' : W} {a : A} → Ends {E = E} (call f) w (done a) w' → f w ≡ (a, w')
  unfolding call
  Ends-call f {w} h = called (f w) h.ends
    where
      called :
          {w' : W} {a : A} (p : A × W)
          → ◌≡◌ {A = Outcome E A × W} (done p.0, p.1) (done a, w')
          → p ≡ (a, w')
      called p k = cc

  -- A call does not fail.
  pub Ends-call_fault : (f : W → A × W) {w w' : W} {e : E} → Ends (call f) w (fault e) w' → ⊥
  unfolding call
  Ends-call_fault f h = absurd (cc h.ends)

  pub Ends-raise_from : (f : W → E × W) {w w' : W} {a : A} → Ends (raise_from f) w (done a) w' → ⊥
  unfolding raise_from
  Ends-raise_from f h = absurd (cc h.ends)

  pub Ends-reads :
      (f : W → Outcome E A) {w w' : W} {o : Outcome E A}
      → Ends (reads f) w o w'
      → (f w ≡ o) × (w ≡ w')
  unfolding reads
  Ends-reads f h = (cc h.ends, cc h.ends)

module _ {W E F A : Type 0} where
  pub Ends-attempt :
      (m : Action W E A) {w w' : W} {r : Outcome E A}
      → Ends (attempt {F = F} m) w (done r) w'
      → Ends m w r w'
  unfolding attempt
  Ends-attempt m h = record { ends = cc h.ends }

  -- An error of calls with converted errors.
  pub Ends-map_fault :
      (f : E → F) (m : Action W E A) {w w' : W} {e : F}
      → Ends (map_fault f m) w (fault e) w'
      → (x : E) × (f x ≡ e) × Ends m w (fault x) w'
  unfolding map_fault
  Ends-map_fault f m {w} h =
      let (x, e, k) = converted (m w).0 (cc h.ends) in (x, e, record { ends = cc (h.ends, k) })
    where
      converted :
          {e : F} (r : Outcome E A) → from_fault f r ≡ fault e → (x : E) × (f x ≡ e) × (r ≡ fault x)
      converted (fault x) k = (x, cc, refl)
      converted (done a) k = cc

  pub Ends-map_fault_done :
      (f : E → F) (m : Action W E A) {w w' : W} {a : A}
      → Ends (map_fault f m) w (done a) w'
      → Ends m w (done a) w'
  unfolding map_fault
  Ends-map_fault_done f m {w} {a} h = record {
    ends = cc (h.ends, kept {a = a} (m w).0 (cc h.ends));
  }
    where
      kept : {a : A} (r : Outcome E A) → from_fault f r ≡ done a → r ≡ done a
      kept (fault x) k = cc
      kept (done a) k = cc
