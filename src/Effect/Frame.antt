-- ===== src/Effect/Frame.antt =====
-- What an operation does to the object that it borrows.
use fido_key_wrap.Common.{◌≡◌, refl, ◌∙◌}
use fido_key_wrap.Error.{Error, Result, ok, err}
use fido_key_wrap.Effect.{Effect, pure, lift, continue, ◌>>=◌, on_world, current, store}

-- The operation leaves the object alone, whatever comes of it.
pub record Frames {T W A : Type 0} (m : Effect (T × W) A) : Type 0 where
  pub same : (t : T) (w : W) → (m (t, w)).1.0 ≡ t

-- The object is left alone whenever the operation fails.
pub record IsAtomic {T W A : Type 0} (m : Effect (T × W) A) : Type 0 where
  pub on_error : (t : T) (w : W) (e : Error) → (m (t, w)).0 ≡ err e → (m (t, w)).1.0 ≡ t

module _ {T W A : Type 0} where
  pub Frames-pure : (a : A) → Frames {T = T} {W = W} (pure a)
  unfolding pure
  Frames-pure a = record { same = λ t w. refl }

  pub Frames-lift : (r : Result A) → Frames {T = T} {W = W} (lift r)
  unfolding lift
  Frames-lift r = record { same = λ t w. refl }

  pub Frames-on_world : (m : Effect W A) → Frames {T = T} (on_world m)
  unfolding on_world
  Frames-on_world m = record { same = λ t w. refl }

  pub Frames-IsAtomic : (m : Effect (T × W) A) → Frames m → IsAtomic m
  Frames-IsAtomic m h = record { on_error = λ t w e _. h.same t w }

module _ {T W : Type 0} where
  pub Frames-current : Frames {T = T} {W = W} current
  unfolding current
  Frames-current = record { same = λ t w. refl }

module _ {T W A B : Type 0} where
  continue-IsAtomic :
      (r : Result A) (f : A → Effect (T × W) B) (s : T × W) (e : Error)
      → ((a : A) → IsAtomic (f a))
      → (continue r f s).0 ≡ err e
      → (continue r f s).1.0 ≡ s.0
  continue-IsAtomic (ok a) f (t, w) e hf h = (hf a).on_error t w e h
  continue-IsAtomic (err x) f s e hf h = refl

  pub IsAtomic-bind :
      (m : Effect (T × W) A) (f : A → Effect (T × W) B)
      → Frames m
      → ((a : A) → IsAtomic (f a))
      → IsAtomic (m >>= f)
  unfolding ◌>>=◌
  IsAtomic-bind m f hm hf = record {
    on_error = λ t w e h. continue-IsAtomic (m (t, w)).0 f (m (t, w)).1 e hf h ∙ hm.same t w;
  }

  continue-Frames :
      (r : Result A) (f : A → Effect (T × W) B) (s : T × W)
      → ((a : A) → Frames (f a))
      → (continue r f s).1.0 ≡ s.0
  continue-Frames (ok a) f (t, w) hf = (hf a).same t w
  continue-Frames (err x) f s hf = refl

  pub Frames-bind :
      (m : Effect (T × W) A) (f : A → Effect (T × W) B)
      → Frames m
      → ((a : A) → Frames (f a))
      → Frames (m >>= f)
  unfolding ◌>>=◌
  Frames-bind m f hm hf = record {
    same = λ t w. continue-Frames (m (t, w)).0 f (m (t, w)).1 hf ∙ hm.same t w;
  }

module _ {T W A : Type 0} where
  -- The last step, which cannot fail.
  pub IsAtomic-store : (t : T) (a : A) → IsAtomic {T = T} {W = W} (store t >>= λ _. pure a)
  unfolding store pure ◌>>=◌
  IsAtomic-store t a = record { on_error = λ t' w e h. cc }

module _ {A : Type 0} where
  abbrev pub forget : Result A → Result (Unit {0})
  forget (ok a) = ok tt
  forget (err e) = err e

  forget-err : (r : Result A) (e : Error) → forget r ≡ err e → r ≡ err e
  forget-err (ok a) e h = cc
  forget-err (err x) e h = cc

module _ {T W A : Type 0} where
  -- The operation without its result.
  unfoldable pub discard : Effect (T × W) A → Effect (T × W) (Unit {0})
  discard m s = let (r, s') = m s in (forget r, s')

  pub IsAtomic-discard : (m : Effect (T × W) A) → IsAtomic m → IsAtomic (discard m)
  unfolding discard
  IsAtomic-discard m h = record {
    on_error = λ t w e k. h.on_error t w e (forget-err (m (t, w)).0 e k);
  }
