-- ===== src/Effect/Post.antt =====
-- What holds when an operation succeeds.
use fido_key_wrap.Common.{◌≡◌, refl}
use mathlib.Core.Path.{subst}
use fido_key_wrap.Error.{Error, Result, ok, err}
use fido_key_wrap.Effect.{
  Effect, pure, raise, lift, attempt, continue, ◌>>=◌, on_world, current, store,
}
use fido_key_wrap.Effect.Frame.{Frames, forget, discard}

-- Every result satisfies `P`.
pub record Gives {S A : Type 0} (P : A → Type 0) (m : Effect S A) : Type 0 where
  pub result : (s : S) (a : A) → (m s).0 ≡ ok a → P a

-- The result, with the borrowed object before and after, satisfies `P`.
pub record Ensures {T W A : Type 0} (P : T → A → T → Type 0) (m : Effect (T × W) A) : Type 0 where
  pub on_success : (t : T) (w : W) (a : A) → (m (t, w)).0 ≡ ok a → P t a (m (t, w)).1.0

module _ {S A : Type 0} {P : A → Type 0} where
  pub Gives-pure : (a : A) → P a → Gives {S = S} P (pure a)
  unfolding pure
  Gives-pure a h = record { result = λ s b e. subst P (cc) h }

  pub Gives-raise : (x : Error) → Gives {S = S} P (raise x)
  unfolding raise
  Gives-raise x = record { result = λ s b e. cc }

  pub Gives-lift : (r : Result A) → ((a : A) → r ≡ ok a → P a) → Gives {S = S} P (lift r)
  unfolding lift
  Gives-lift r h = record { result = λ s b e. h b e }

  pub Gives-attempt :
      {m : Effect S A} → Gives P m → Gives (λ (r : Result A). (a : A) → r ≡ ok a → P a) (attempt m)
  unfolding attempt
  Gives-attempt {m} h = record { result = λ s r e a f. h.result s a (cc) }

module _ {S A B : Type 0} {Q : B → Type 0} where
  continue-Gives :
      (r : Result A) (f : A → Effect S B) (s : S) (b : B)
      → ((a : A) → r ≡ ok a → Gives Q (f a))
      → (continue r f s).0 ≡ ok b
      → Q b
  continue-Gives (ok a) f s b hf h = (hf a refl).result s b h
  continue-Gives (err x) f s b hf h = cc

module _ {S A B : Type 0} {P : A → Type 0} {Q : B → Type 0} where
  pub Gives-bind :
      (m : Effect S A) (f : A → Effect S B)
      → Gives P m
      → ((a : A) → P a → Gives Q (f a))
      → Gives Q (m >>= f)
  unfolding ◌>>=◌
  Gives-bind m f hm hf = record {
    result = λ s b h. continue-Gives (m s).0 f (m s).1 b (λ a e. hf a (hm.result s a e)) h;
  }

module _ {S A B : Type 0} {Q : B → Type 0} where
  pub Gives-skip :
      (m : Effect S A) (f : A → Effect S B) → ((a : A) → Gives Q (f a)) → Gives Q (m >>= f)
  Gives-skip m f hf = Gives-bind {P = λ _. Unit} m f (record { result = λ s a e. tt }) (λ a _. hf a)

  pub Gives-check :
      (r : Result A) (f : A → Effect S B)
      → ((a : A) → r ≡ ok a → Gives Q (f a))
      → Gives Q (lift r >>= f)
  Gives-check r f hf = Gives-bind (lift r) f (Gives-lift r (λ a e. e)) hf

module _ {T W A B : Type 0} {Q : T → B → T → Type 0} where
  continue-Ensures :
      (t : T) (r : Result A) (f : A → Effect (T × W) B) (s : T × W) (b : B)
      → s.0 ≡ t
      → ((a : A) → r ≡ ok a → Ensures (λ t'. Q t') (f a))
      → (continue r f s).0 ≡ ok b
      → Q t b (continue r f s).1.0
  continue-Ensures t (ok a) f (t', w) b same hf h =
      subst (λ x. Q x b (f a (t', w)).1.0) same ((hf a refl).on_success t' w b h)
  continue-Ensures t (err x) f s b same hf h = cc

  -- A step that leaves the object alone.
  pub Ensures-skip :
      (m : Effect (T × W) A) (f : A → Effect (T × W) B)
      → Frames m
      → ((a : A) → Ensures Q (f a))
      → Ensures Q (m >>= f)
  unfolding ◌>>=◌
  Ensures-skip m f hm hf = record {
    on_success =
        λ t w b h. continue-Ensures t (m (t, w)).0 f (m (t, w)).1 b (hm.same t w) (λ a _. hf a) h;
  }

  pub Ensures-check :
      (r : Result A) (f : A → Effect (T × W) B)
      → ((a : A) → r ≡ ok a → Ensures Q (f a))
      → Ensures Q (lift r >>= f)
  unfolding ◌>>=◌ lift
  Ensures-check r f hf = record {
    on_success = λ t w b h. continue-Ensures t r f (t, w) b refl hf h;
  }

  pub Ensures-on_world :
      {P : A → Type 0} (m : Effect W A) (f : A → Effect (T × W) B)
      → Gives P m
      → ((a : A) → P a → Ensures Q (f a))
      → Ensures Q (on_world m >>= f)
  unfolding ◌>>=◌ on_world
  Ensures-on_world m f hm hf = record {
    on_success = λ t w b h.
        continue-Ensures t (m w).0 f (t, (m w).1) b refl (λ a e. hf a (hm.result w a e)) h;
  }

module _ {T W B : Type 0} {Q : T → B → T → Type 0} where
  -- The object is read at the start.
  pub Ensures-current :
      (f : T → Effect (T × W) B)
      → ((t : T) → Ensures (λ t' b u. t' ≡ t → Q t b u) (f t))
      → Ensures Q (current >>= f)
  unfolding ◌>>=◌ current
  Ensures-current f hf = record { on_success = λ t w b h. (hf t).on_success t w b h refl }

  pub Ensures-store :
      (u : T) (b : B) → ((t : T) → Q t b u) → Ensures {W = W} Q (store u >>= λ _. pure b)
  unfolding ◌>>=◌ store pure
  Ensures-store u b h = record { on_success = λ t w a e. subst (λ x. Q t x u) (cc) (h t) }

module _ {A : Type 0} where
  forget-ok : (r : Result A) → forget r ≡ ok tt → (a : A) × (r ≡ ok a)
  forget-ok (ok a) h = (a, refl)
  forget-ok (err x) h = cc

module _ {T W A : Type 0} {P : T → Type 0} where
  pub Ensures-discard :
      {Q : T → A → T → Type 0} (m : Effect (T × W) A)
      → Ensures Q m
      → ((t : T) (a : A) (u : T) → Q t a u → P u)
      → Ensures (λ _ _ u. P u) (discard m)
  unfolding discard
  Ensures-discard m h imp = record {
    on_success = λ t w a k.
        let (b, e) = forget-ok (m (t, w)).0 k in imp t b (m (t, w)).1.0 (h.on_success t w b e);
  }
