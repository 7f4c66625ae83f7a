-- ===== src/Prelude/Atomic.antt =====
-- Actions that throw without a trace, and actions that only read: one rule for each way to build one.
use mathlib.Core.Path.{◌≡◌, refl, ◌∙◌}
use mathlib.Core.Bool.{Bool, true, false}
use mathlib.Core.Option.{Option, none, some}
use native.Mathlib.Omega.{arith}
use seleksi2_labpro.Prelude.Tests.{if◌then◌else◌}
use seleksi2_labpro.Prelude.Actions.{
  Result, ok, err, Exec, pure, throw, gets, or_throw, throw_if, after, ◌>>=◌,
}

-- Whoever gets an error finds the state as it was.
pub record Atomic {ℓ κ μ} {S : Type ℓ} {E : Type κ} {A : Type μ} (m : Exec S E A)
    : Type (ℓ ⊔ κ ⊔ μ) where
  pub at : (s : S) (e : E) → (m s).0 ≡ err e → (m s).1 ≡ s

pub record Reads {ℓ κ μ} {S : Type ℓ} {E : Type κ} {A : Type μ} (m : Exec S E A)
    : Type (ℓ ⊔ κ ⊔ μ) where
  pub at : (s : S) → (m s).1 ≡ s

module _ {ℓ κ μ} {S : Type ℓ} {E : Type κ} {A : Type μ} where
  pub Reads-throw : (e : E) → Reads {S = S} (throw {A = A} e)
  unfolding throw
  Reads-throw e = record { at = λ s. refl }

  pub Reads-pure : (a : A) → Reads {S = S} {E = E} (pure a)
  unfolding pure
  Reads-pure a = record { at = λ s. refl }

  pub Reads-gets : (f : S → A) → Reads {E = E} (gets f)
  unfolding gets
  Reads-gets f = record { at = λ s. refl }

  pub Reads-or_throw : (a : Option A) (e : E) → Reads {S = S} (or_throw a e)
  unfolding or_throw
  Reads-or_throw none e = record { at = λ s. refl }
  Reads-or_throw (some a) e = record { at = λ s. refl }

  pub Atomic-Reads : (m : Exec S E A) → Reads m → Atomic m
  Atomic-Reads m h = record { at = λ s e f. h.at s }

  pub Atomic-if : (b : Bool) (m n : Exec S E A) → Atomic m → Atomic n → Atomic (if b then m else n)
  Atomic-if true m n hm hn = hm
  Atomic-if false m n hm hn = hn

module _ {ℓ κ} {S : Type ℓ} {E : Type κ} where
  pub Reads-throw_if : (b : Bool) (e : E) → Reads {S = S} (throw_if b e)
  unfolding throw_if
  Reads-throw_if b e = record { at = λ s. refl }

module _ {ℓ κ μ ν} {S : Type ℓ} {E : Type κ} {A : Type μ} {B : Type ν} where
  read_then :
      (r : Result E A) (f : A → Exec S E B) (s t : S) (e : E)
      → t ≡ s
      → ((a : A) → Atomic (f a))
      → (after r f t).0 ≡ err e
      → (after r f t).1 ≡ s
  read_then (ok a) f s t e same h x = (h a).at t e x ∙ same
  read_then (err d) f s t e same h x = same

  -- Readings first, an atomic action behind them.
  pub Atomic-bind :
      (m : Exec S E A) (f : A → Exec S E B) → Reads m → ((a : A) → Atomic (f a)) → Atomic (m >>= f)
  unfolding ◌>>=◌
  Atomic-bind m f hm hf = record { at = λ s e x. read_then (m s).0 f s (m s).1 e (hm.at s) hf x }

  then_pure :
      (r : Result E A) (g : A → B) (s t : S) (e : E)
      → ((d : E) → r ≡ err d → t ≡ s)
      → (after r (λ a. pure (g a)) t).0 ≡ err e
      → (after r (λ a. pure (g a)) t).1 ≡ s
  unfolding pure
  then_pure (ok a) g s t e h x = ground arith
  then_pure (err d) g s t e h x = h d refl

  -- An atomic action first, and only a value behind it.
  pub Atomic-pure : (m : Exec S E A) (g : A → B) → Atomic m → Atomic (m >>= λ a. pure (g a))
  unfolding ◌>>=◌
  Atomic-pure m g hm = record { at = λ s e x. then_pure (m s).0 g s (m s).1 e (hm.at s) x }

pub ruleset atomic_rules = (
  Reads-throw, Reads-pure, Reads-gets, Reads-or_throw, Reads-throw_if, Atomic-Reads, Atomic-if,
  Atomic-bind, Atomic-pure,
)
