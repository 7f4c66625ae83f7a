-- ===== src/Prelude/Moves.antt =====
-- Relations between the state before an action and the state after it, whether it returns or
-- throws: one rule for each way to build an action.
use mathlib.Core.Bool.{Bool, true, false}
use mathlib.Core.Option.{Option, none, some}
use seleksi2_labpro.Prelude.Tests.{if◌then◌else◌}
use seleksi2_labpro.Prelude.Actions.{
  Result, ok, err, Exec, pure, throw, gets, or_throw, modify, throw_if, after, ◌>>=◌,
}

pub record Moves {ℓ κ μ ν} {S : Type ℓ} {E : Type κ} {A : Type μ} (R : S → S → Type ν)
    (m : Exec S E A) : Type (ℓ ⊔ ν) where
  pub at : (s : S) → R s (m s).1

pub record IsPreorder {ℓ ν} {S : Type ℓ} (R : S → S → Type ν) : Type (ℓ ⊔ ν) where
  pub stays : (s : S) → R s s
  pub joins : (s t u : S) → R s t → R t u → R s u

module _ {ℓ κ μ ν} {S : Type ℓ} {E : Type κ} {A : Type μ} {R : S → S → Type ν}
    (o : IsPreorder R) where
  pub Moves-pure : (a : A) → Moves {E = E} R (pure a)
  unfolding pure
  Moves-pure a = record { at = o.stays }

  pub Moves-throw : (e : E) → Moves R (throw {A = A} e)
  unfolding throw
  Moves-throw e = record { at = o.stays }

  pub Moves-gets : (f : S → A) → Moves {E = E} R (gets f)
  unfolding gets
  Moves-gets f = record { at = o.stays }

  pub Moves-or_throw : (a : Option A) (e : E) → Moves R (or_throw a e)
  unfolding or_throw
  Moves-or_throw none e = record { at = o.stays }
  Moves-or_throw (some a) e = record { at = o.stays }

module _ {ℓ κ ν} {S : Type ℓ} {E : Type κ} {R : S → S → Type ν} (o : IsPreorder R) where
  pub Moves-throw_if : (b : Bool) (e : E) → Moves R (throw_if b e)
  unfolding throw_if
  Moves-throw_if b e = record { at = o.stays }

  pub Moves-modify : (f : S → S) → ((s : S) → R s (f s)) → Moves {E = E} R (modify f)
  unfolding modify
  Moves-modify f h = record { at = h }

module _ {ℓ κ μ ν} {S : Type ℓ} {E : Type κ} {A : Type μ} {R : S → S → Type ν} where
  pub Moves-if :
      (b : Bool) (m n : Exec S E A) → Moves R m → Moves R n → Moves R (if b then m else n)
  Moves-if true m n hm hn = hm
  Moves-if false m n hm hn = hn

module _ {ℓ κ μ ξ ν} {S : Type ℓ} {E : Type κ} {A : Type μ} {B : Type ξ} {R : S → S → Type ν}
    (o : IsPreorder R) where
  Moves-after :
      (r : Result E A) (f : A → Exec S E B) (s t : S)
      → R s t
      → ((a : A) → Moves R (f a))
      → R s (after r f t).1
  Moves-after (ok a) f s t h k = o.joins s t (f a t).1 h ((k a).at t)
  Moves-after (err e) f s t h k = h

  pub Moves-bind :
      (m : Exec S E A) (f : A → Exec S E B)
      → Moves R m
      → ((a : A) → Moves R (f a))
      → Moves R (m >>= f)
  unfolding ◌>>=◌
  Moves-bind m f hm hf = record { at = λ s. Moves-after (m s).0 f s (m s).1 (hm.at s) hf }

  -- From where the first action ends.
  pub Moves-rest :
      (m : Exec S E A) (f : A → Exec S E B) (s : S)
      → ((a : A) → Moves R (f a))
      → R (m s).1 ((m >>= f) s).1
  unfolding ◌>>=◌
  Moves-rest m f s h = Moves-after (m s).0 f (m s).1 (m s).1 (o.stays (m s).1) h

pub ruleset moves_rules = (
  Moves-pure, Moves-throw, Moves-gets, Moves-or_throw, Moves-throw_if, Moves-modify, Moves-if,
  Moves-bind,
)
