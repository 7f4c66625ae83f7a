-- ===== src/Prelude/Ensures.antt =====
-- What an action that returned has done: one rule for each way to build an action from readings and
-- one write behind them.
use mathlib.Core.Path.{◌≡◌, refl}
use mathlib.Core.Option.{Option, none, some}
use mathlib.Core.Bool.{Bool, true, false}
use native.Mathlib.Omega.{arith}
use seleksi2_labpro.Prelude.Moves.{Moves, IsPreorder}
use seleksi2_labpro.Prelude.Actions.{
  Result, ok, err, Exec, pure, throw, gets, or_throw, throw_if, after, ◌>>=◌,
}

pub record Ensures {ℓ κ μ ν} {S : Type ℓ} {E : Type κ} {A : Type μ} (P : S → S → Type ν)
    (m : Exec S E A) : Type (ℓ ⊔ κ ⊔ μ ⊔ ν) where
  pub at : (s : S) (a : A) → (m s).0 ≡ ok a → P s (m s).1

module _ {ℓ κ μ ν} {S : Type ℓ} {E : Type κ} {A : Type μ} {P : S → S → Type ν} where
  pub Ensures-throw_if :
      (b : Bool) (e : E) (f : Unit {0} → Exec S E A)
      → Ensures P (f tt)
      → Ensures P (throw_if b e >>= f)
  unfolding ◌>>=◌
  Ensures-throw_if true e f h = record { at = λ s a x. ground arith }
  Ensures-throw_if false e f h = record { at = λ s a x. h.at s a x }

then_at {ℓ κ μ ξ ν} :
    {S : Type ℓ} {E : Type κ} {A : Type μ} {B : Type ξ} (P : S → Type ν) (r : Result E A)
    (g : A → B) (t : S) (b : B)
    → ((a : A) → r ≡ ok a → P t)
    → (after r (λ a. pure (g a)) t).0 ≡ ok b
    → P (after r (λ a. pure (g a)) t).1
unfolding pure
then_at P (ok a) g t b h x = h a refl
then_at P (err e) g t b h x = ground arith

module _ {ℓ κ μ ξ ν} {S : Type ℓ} {E : Type κ} {A : Type μ} {B : Type ξ} {P : S → S → Type ν} where
  pub Ensures-or_throw :
      (o : Option A) (e : E) (f : A → Exec S E B)
      → ((a : A) → o ≡ some a → Ensures P (f a))
      → Ensures P (or_throw o e >>= f)
  unfolding ◌>>=◌
  Ensures-or_throw none e f h = record { at = λ s b x. ground arith }
  Ensures-or_throw (some a) e f h = h a refl

  pub Ensures-gets :
      (g : S → A) (f : A → Exec S E B) → ((a : A) → Ensures P (f a)) → Ensures P (gets g >>= f)
  unfolding ◌>>=◌
  Ensures-gets g f h = record { at = λ s b x. (h (g s)).at s b x }

  pub Ensures-pure : (m : Exec S E A) (g : A → B) → Ensures P m → Ensures P (m >>= λ a. pure (g a))
  unfolding ◌>>=◌
  Ensures-pure m g h = record { at = λ s b x. then_at (P s) (m s).0 g (m s).1 b (h.at s) x }

  pub Ensures-then_throw : (m : Exec S E A) (e : E) → Ensures P (m >>= λ a. throw {A = B} e)
  unfolding ◌>>=◌
  Ensures-then_throw m e = record { at = λ s b x. never (m s).0 (m s).1 b x }
    where
      never :
          (r : Result E A) (t : S) (b : B) {Q : Type ν}
          → (after r (λ a. throw {A = B} e) t).0 ≡ ok b
          → Q
      never (ok a) t b x = ground arith
      never (err d) t b x = ground arith

-- Where what is ensured is a property of the state after the action alone, any action may stand
-- before it, and behind it any that keeps the property.
module _ {ℓ κ μ ξ ν} {S : Type ℓ} {E : Type κ} {A : Type μ} {B : Type ξ} (Q : S → Type ν) where
  behind_at :
      (r : Result E A) (f : A → Exec S E B) (t : S) (b : B)
      → ((a : A) → Ensures (λ s s'. Q s') (f a))
      → (after r f t).0 ≡ ok b
      → Q (after r f t).1
  behind_at (ok a) f t b h x = (h a).at t b x
  behind_at (err e) f t b h x = ground arith

  pub Ensures-behind :
      (m : Exec S E A) (f : A → Exec S E B)
      → ((a : A) → Ensures (λ s s'. Q s') (f a))
      → Ensures (λ s s'. Q s') (m >>= f)
  unfolding ◌>>=◌
  Ensures-behind m f h = record { at = λ s b x. behind_at (m s).0 f (m s).1 b h x }

  keeps_at :
      (r : Result E A) (f : A → Exec S E B) (t : S) (b : B)
      → ((a : A) → r ≡ ok a → Q t)
      → ((a : A) → Moves (λ s s'. Q s → Q s') (f a))
      → (after r f t).0 ≡ ok b
      → Q (after r f t).1
  keeps_at (ok a) f t b h k x = (k a).at t (h a refl)
  keeps_at (err e) f t b h k x = ground arith

  pub Ensures-keeps :
      (m : Exec S E A) (f : A → Exec S E B)
      → Ensures (λ s s'. Q s') m
      → ((a : A) → Moves (λ s s'. Q s → Q s') (f a))
      → Ensures (λ s s'. Q s') (m >>= f)
  unfolding ◌>>=◌
  Ensures-keeps m f h k = record { at = λ s b x. keeps_at (m s).0 f (m s).1 b (h.at s) k x }

module _ {ℓ κ μ ν} {S : Type ℓ} {E : Type κ} {A : Type μ} {Q : S → Type ν} where
  pub Ensures-always : (m : Exec S E A) → ((s : S) → Q (m s).1) → Ensures (λ s s'. Q s') m
  Ensures-always m h = record { at = λ s a x. h s }

module _ {ℓ ν} {S : Type ℓ} (Q : S → Type ν) where
  pub Keeps-preorder : IsPreorder (λ (s s' : S). Q s → Q s')
  Keeps-preorder = record { stays = λ s h. h; joins = λ s t u h k x. k (h x) }
