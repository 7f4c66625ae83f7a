-- ===== src/Database/Reference.antt =====
-- What Prisma's documentation says of the calls, as functions on lists, and that a client which
-- does what is documented is this one. Proofs are made at `reference` and carried over by
-- `documented`.
use seleksi2_labpro.Prelude.{
  ◌≡◌, refl, Bool, not, map, none, some, List, [], ◌∷◌, ◌++◌, Result, ok, err, Exec, if◌then◌else◌,
  filter, count, find_by, any, update_where,
}
use seleksi2_labpro.Database.Client.{Prisma}

-- A transaction whose callback throws leaves the tables as they were.
abbrev pub rollback : {S E A : Type 0} → S → Result E A × S → Result E A × S
rollback s (ok a, s') = (ok a, s')
rollback s (err e, s') = (err e, s)

abbrev pub reference : Prisma
reference = record {
  find_one = λ R p t. find_by p t;
  find_many = λ R p t. filter p t;
  update_many = λ R p f t. (update_where p f t, count p t);
  update_and_return = λ R p f t. (update_where p f t, map f (filter p t));
  upsert = λ R p r f t. if any p t then update_where p f t else t ++ r ∷ [];
  create = λ R clash r t. if any clash t then none else some (t ++ r ∷ []);
  add = λ R r t. t ++ r ∷ [];
  delete_many = λ R p t. (filter (λ r. not (p r)) t, count p t);
  transaction = λ S E A m s. rollback s (m s);
}

-- The documented behaviour of each call.
pub record IsDocumented (db : Prisma) : Type 1 where
  pub find_one_lem : (R : Type 0) (p : R → Bool) (t : List R) → db.find_one R p t ≡ find_by p t
  pub find_many_lem : (R : Type 0) (p : R → Bool) (t : List R) → db.find_many R p t ≡ filter p t
  pub update_many_lem :
      (R : Type 0) (p : R → Bool) (f : R → R) (t : List R)
      → db.update_many R p f t ≡ (update_where p f t, count p t)
  pub update_and_return_lem :
      (R : Type 0) (p : R → Bool) (f : R → R) (t : List R)
      → db.update_and_return R p f t ≡ (update_where p f t, map f (filter p t))
  pub upsert_lem :
      (R : Type 0) (p : R → Bool) (r : R) (f : R → R) (t : List R)
      → db.upsert R p r f t ≡ (if any p t then update_where p f t else t ++ r ∷ [])
  pub create_lem :
      (R : Type 0) (clash : R → Bool) (r : R) (t : List R)
      → db.create R clash r t ≡ (if any clash t then none else some (t ++ r ∷ []))
  pub add_lem : (R : Type 0) (r : R) (t : List R) → db.add R r t ≡ t ++ r ∷ []
  pub delete_many_lem :
      (R : Type 0) (p : R → Bool) (t : List R)
      → db.delete_many R p t ≡ (filter (λ r. not (p r)) t, count p t)
  pub transaction_lem :
      (S E A : Type 0) (m : Exec S E A) (s : S) → db.transaction S E A m s ≡ rollback s (m s)

pub documented : {db : Prisma} → IsDocumented db → db ≡ reference
documented d = λ i. record {
  find_one = λ R p t. d.find_one_lem R p t i;
  find_many = λ R p t. d.find_many_lem R p t i;
  update_many = λ R p f t. d.update_many_lem R p f t i;
  update_and_return = λ R p f t. d.update_and_return_lem R p f t i;
  upsert = λ R p r f t. d.upsert_lem R p r f t i;
  create = λ R clash r t. d.create_lem R clash r t i;
  add = λ R r t. d.add_lem R r t i;
  delete_many = λ R p t. d.delete_many_lem R p t i;
  transaction = λ S E A m s. d.transaction_lem S E A m s i;
}

pub reference-IsDocumented : IsDocumented reference
reference-IsDocumented = record {
  find_one_lem = λ R p t. refl;
  find_many_lem = λ R p t. refl;
  update_many_lem = λ R p f t. refl;
  update_and_return_lem = λ R p f t. refl;
  upsert_lem = λ R p r f t. refl;
  create_lem = λ R clash r t. refl;
  add_lem = λ R r t. refl;
  delete_many_lem = λ R p t. refl;
  transaction_lem = λ S E A m s. refl;
}
