-- ===== src/Database/Transactions.antt =====
-- What a transaction adds to an action: it throws without a trace, and what an action that returned
-- has done, or what it never undoes, is so in a transaction too.
use seleksi2_labpro.Prelude.{◌≡◌, refl, sym, subst, Exec, Result, ok, err, arith}
use seleksi2_labpro.Prelude.Atomic.{Atomic}
use seleksi2_labpro.Prelude.Ensures.{Ensures}
use seleksi2_labpro.Prelude.Moves.{Moves, IsPreorder}
use seleksi2_labpro.Database.Client.{transaction}
use seleksi2_labpro.Database.Reference.{reference, rollback}

rolled_back :
    {S E A : Type 0} (r : Result E A × S) (s : S) (e : E)
    → (rollback s r).0 ≡ err e
    → (rollback s r).1 ≡ s
rolled_back (ok a, t) s e x = ground arith
rolled_back (err d, t) s e x = refl

pub Atomic-transaction : {S E A : Type 0} (m : Exec S E A) → Atomic (transaction ⦃db = reference⦄ m)
Atomic-transaction m = record { at = λ s e x. rolled_back (m s) s e x }

pub ok_rollback :
    {S E A : Type 0} (r : Result E A × S) (s : S) (a : A)
    → (rollback s r).0 ≡ ok a
    → (r.0 ≡ ok a) × ((rollback s r).1 ≡ r.1)
ok_rollback (ok b, t) s a x = (x, refl)
ok_rollback (err e, t) s a x = ground arith

pub Ensures-transaction :
    {S E A : Type 0} (P : S → S → Type 0) (m : Exec S E A)
    → Ensures P m
    → Ensures P (transaction ⦃db = reference⦄ m)
Ensures-transaction P m h = record {
  at = λ s a x.
      (let (done, same) = ok_rollback (m s) s a x in subst (P s) (sym same) (h.at s a done));
}

pub Moves-transaction :
    {S E A : Type 0} {R : S → S → Type 0} (o : IsPreorder R) (m : Exec S E A)
    → Moves R m
    → Moves R (transaction ⦃db = reference⦄ m)
Moves-transaction {S} {E} {A} {R} o m h = record { at = λ s. rolled s (m s) (h.at s) }
  where
    rolled : (s : S) (r : Result E A × S) → R s r.1 → R s (rollback s r).1
    rolled s (ok a, t) k = k
    rolled s (err e, t) k = o.stays s

-- What holds before a transaction and behind its callback holds behind it.
pub either_way {ν} :
    {S E A : Type 0} (Q : S → Type ν) (m : Exec S E A) (s : S)
    → Q s
    → Q (m s).1
    → Q (transaction ⦃db = reference⦄ m s).1
either_way {S} {E} {A} Q m s before behind = rolled (m s) behind
  where
    rolled : (r : Result E A × S) → Q r.1 → Q (rollback s r).1
    rolled (ok a, t) k = k
    rolled (err e, t) k = before
