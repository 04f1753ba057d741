-- ===== src/Envelope/Sound/Rules.antt =====
-- Postconditions of decoders, with a rule for each way to build one.
use fido_key_wrap.Common.{◌≡◌, refl, Bytes, Option, some, none, Bool, true, false, if◌then◌else◌}
use mathlib.Core.Path.{subst}
use fido_key_wrap.Error
use fido_key_wrap.Error.{Result, ok, err, ok_or, >>=-eq-ok, invalid_envelope}
use fido_key_wrap.Envelope.Decode.{Decoder, ◌>>=◌, pure, lift, read}

-- Whatever the decoder returns satisfies `P`.
pub record Yields {A : Type 0} (P : A → Type 0) (p : Decoder A) : Type 0 where
  pub at : (ts : Bytes) (a : A) (rest : Bytes) → p ts ≡ ok (a, rest) → P a

module _ {A : Type 0} {P : A → Type 0} where
  pub Yields-pure : (a : A) → P a → Yields P (pure a)
  Yields-pure a h = record { at = λ ts b rest e. subst P (cc) h }

  pub Yields-lift : (r : Result A) → ((a : A) → r ≡ ok a → P a) → Yields P (lift r)
  Yields-lift (ok a) h = record { at = λ ts b rest e. h b (cc) }
  Yields-lift (err x) h = record { at = λ ts b rest e. cc }

  pub Yields-read :
      (p : Bytes → Option (A × Bytes))
      → ((ts : Bytes) (a : A) (rest : Bytes) → p ts ≡ some (a, rest) → P a)
      → Yields P (read p)
  Yields-read p h = record { at = λ ts a rest e. h ts a rest (ok_or-eq-ok (p ts) e) }
    where
      ok_or-eq-ok :
          {B : Type 0} {b : B} (o : Option B) → ok_or invalid_envelope o ≡ ok b → o ≡ some b
      ok_or-eq-ok none e = cc
      ok_or-eq-ok (some b) e = cc

module _ {A B : Type 0} {P : A → Type 0} {Q : B → Type 0} where
  pub Yields-bind :
      (p : Decoder A) (f : A → Decoder B)
      → Yields P p
      → ((a : A) → P a → Yields Q (f a))
      → Yields Q (p >>= f)
  Yields-bind p f hp hf = record {
    at = λ ts b rest e.
        let ((a, mid), ep, ef) = >>=-eq-ok (p ts) (λ (a, r). f a r) e in
        (hf a (hp.at ts a mid ep)).at mid b rest ef;
  }

module _ {A B : Type 0} {Q : B → Type 0} where
  -- A step whose value carries no fact.
  pub Yields-skip :
      (p : Decoder A) (f : A → Decoder B) → ((a : A) → Yields Q (f a)) → Yields Q (p >>= f)
  Yields-skip p f hf = record {
    at = λ ts b rest e.
        let ((a, mid), ep, ef) = >>=-eq-ok (p ts) (λ (a, r). f a r) e in (hf a).at mid b rest ef;
  }

  -- A check, whose success may be used after it.
  pub Yields-check :
      (r : Result A) (f : A → Decoder B)
      → ((a : A) → r ≡ ok a → Yields Q (f a))
      → Yields Q (lift r >>= f)
  Yields-check (ok a) f h = record { at = λ ts b rest e. (h a refl).at ts b rest e }
  Yields-check (err x) f h = record { at = λ ts b rest e. cc }

module _ {A : Type 0} {P : A → Type 0} where
  pub Yields-if :
      (b : Bool) {p q : Decoder A} → Yields P p → Yields P q → Yields P (if b then p else q)
  Yields-if true hp hq = hp
  Yields-if false hp hq = hq

  pub Yields-fail : (e : Error.Error) → Yields P (lift (err e))
  Yields-fail e = record { at = λ ts b rest h. cc }
