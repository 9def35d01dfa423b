-- ===== src/Common/Effect.antt =====
-- Methods that mutate an object and may return an error. What was written before the error stays
-- written, so the state comes back beside it. `◌>>=◌` and the basic actions are shut; to run a
-- method, open `◌>>=◌`. `Keeps` says that a method keeps a property of the object, whatever it
-- returns.
use talkintent.Common.Tests.{if◌then◌else◌}
use mathlib.Core.Bool.{Bool, true, false}
use mathlib.Core.Option.{Option, none, some}
use mathlib.Core.Path.{◌≡◌, refl}

pub data Result {ℓ κ} (E : Type ℓ) (A : Type κ) : Type (ℓ ⊔ κ) where
  ok : A → Result E A
  err : E → Result E A

abbrev pub Exec {ℓ} : Type ℓ → Type ℓ → Type ℓ → Type ℓ
Exec E S A = S → Result E A × S

module _ {ℓ} {E S A : Type ℓ} where
  unfoldable pub pure : A → Exec E S A
  pure a s = (ok a, s)

  unfoldable pub raise : E → Exec E S A
  raise e s = (err e, s)

  unfoldable pub gets : (S → A) → Exec E S A
  gets f s = (ok (f s), s)

  -- `v, ok := m[k]; if !ok { return err }`
  unfoldable pub or_raise : Option A → E → Exec E S A
  or_raise none e s = (err e, s)
  or_raise (some a) e s = (ok a, s)

module _ {ℓ} {E S A B : Type ℓ} where
  abbrev pub continue : Result E A → (A → Exec E S B) → Exec E S B
  continue (ok a) f s = f a s
  continue (err e) f s = (err e, s)

  infixl 5 ◌>>=◌ ◌>>◌
  unfoldable pub ◌>>=◌ : Exec E S A → (A → Exec E S B) → Exec E S B
  unfolding pure raise gets or_raise
  ◌>>=◌ m f s = let (r, s') = m s in continue r f s'

  abbrev pub ◌>>◌ : Exec E S A → Exec E S B → Exec E S B
  m >> k = m >>= λ _. k

module _ {ℓ} {E S A B : Type ℓ} where
  -- A first part that succeeds is followed by the rest, in the state that it left.
  pub bind_ok :
      (m : Exec E S A) (f : A → Exec E S B) (s : S) (a : A)
      → (m s).0 ≡ ok a
      → (m >>= f) s ≡ f a (m s).1
  unfolding ◌>>=◌
  bind_ok m f s a e = rw e

  state_of_continue : (r : Result E A) (g : A → B) (s : S) → (continue r (λ a. pure (g a)) s).1 ≡ s
  unfolding pure
  state_of_continue (ok a) g s = refl
  state_of_continue (err e) g s = refl

  -- Only the result of the first part is changed.
  pub state-bind-pure :
      (m : Exec E S A) (g : A → B) (s : S) → ((m >>= λ a. pure (g a)) s).1 ≡ (m s).1
  unfolding ◌>>=◌
  state-bind-pure m g s = state_of_continue (m s).0 g (m s).1

pub record Keeps {ℓ} {E S A : Type ℓ} (P : S → Type ℓ) (m : Exec E S A) : Type ℓ where
  pub at : (s : S) → P s → P (m s).1

module _ {ℓ} {E S A : Type ℓ} {P : S → Type ℓ} where
  pub Keeps-pure : (a : A) → Keeps {E = E} P (pure a)
  unfolding pure
  Keeps-pure a = record { at = λ s h. h }

  pub Keeps-raise : (e : E) → Keeps {A = A} P (raise e)
  unfolding raise
  Keeps-raise e = record { at = λ s h. h }

  pub Keeps-gets : (f : S → A) → Keeps {E = E} P (gets f)
  unfolding gets
  Keeps-gets f = record { at = λ s h. h }

  pub Keeps-or_raise : (o : Option A) (e : E) → Keeps P (or_raise o e)
  unfolding or_raise
  Keeps-or_raise none e = record { at = λ s h. h }
  Keeps-or_raise (some a) e = record { at = λ s h. h }

  pub Keeps-if :
      (b : Bool) (m n : Exec E S A) → Keeps P m → Keeps P n → Keeps P (if b then m else n)
  Keeps-if true m n k l = k
  Keeps-if false m n k l = l

module _ {ℓ} {E S A B : Type ℓ} {P : S → Type ℓ} where
  Keeps-continue :
      (r : Result E A) (f : A → Exec E S B) → ((a : A) → Keeps P (f a)) → Keeps P (continue r f)
  Keeps-continue (ok a) f k = k a
  Keeps-continue (err e) f k = record { at = λ s h. h }

  pub Keeps-bind :
      (m : Exec E S A) (f : A → Exec E S B)
      → Keeps P m
      → ((a : A) → Keeps P (f a))
      → Keeps P (m >>= f)
  unfolding ◌>>=◌
  Keeps-bind m f k l = record { at = λ s h. (Keeps-continue (m s).0 f l).at (m s).1 (k.at s h) }

  -- The rest of the method may use that the value was there.
  pub Keeps-or_raise_bind :
      (o : Option A) (e : E) (f : A → Exec E S B)
      → ((a : A) → o ≡ some a → Keeps P (f a))
      → Keeps P (or_raise o e >>= f)
  unfolding ◌>>=◌
  Keeps-or_raise_bind none e f k = record { at = λ s h. h }
  Keeps-or_raise_bind (some a) e f k = record { at = λ s h. (k a refl).at s h }

-- Run in `s`, the method ends where the property holds.
pub record Ends {ℓ} {E S A : Type ℓ} (P : S → Type ℓ) (m : Exec E S A) (s : S) : Type ℓ where
  pub at : P (m s).1

module _ {ℓ} {E S A : Type ℓ} {P : S → Type ℓ} where
  pub Ends-pure : (a : A) (s : S) → P s → Ends {E = E} P (pure a) s
  unfolding pure
  Ends-pure a s h = record { at = h }

  pub Ends-if :
      (b : Bool) (m n : Exec E S A) (s : S)
      → Ends P m s
      → Ends P n s
      → Ends P (if b then m else n) s
  Ends-if true m n s h k = h
  Ends-if false m n s h k = k

module _ {ℓ} {E S A B : Type ℓ} {P : S → Type ℓ} where
  pub Ends-bind :
      (m : Exec E S A) (f : A → Exec E S B) (s : S)
      → Ends P m s
      → ((a : A) → Keeps P (f a))
      → Ends P (m >>= f) s
  unfolding ◌>>=◌
  Ends-bind m f s h l = record { at = (Keeps-continue (m s).0 f l).at (m s).1 h.at }

  pub Ends-gets_bind :
      (g : S → A) (f : A → Exec E S B) (s : S) → Ends P (f (g s)) s → Ends P (gets g >>= f) s
  unfolding ◌>>=◌
  Ends-gets_bind g f s h = record { at = h.at }

  pub Ends-or_raise_bind :
      (o : Option A) (e : E) (f : A → Exec E S B) (s : S)
      → P s
      → ((a : A) → o ≡ some a → Ends P (f a) s)
      → Ends P (or_raise o e >>= f) s
  unfolding ◌>>=◌
  Ends-or_raise_bind none e f s h k = record { at = h }
  Ends-or_raise_bind (some a) e f s h k = record { at = (k a refl).at }

pub ruleset keeps_rules =
    (Keeps-pure, Keeps-raise, Keeps-gets, Keeps-or_raise, Keeps-if, Keeps-bind)
