-- ===== src/Database/Client.antt =====
-- The calls of the Prisma client that the services make. A table is the list of its rows.
--   find_one     findUnique and findFirst
--   find_many    findMany
--   update_many  updateMany and update: the table after the call, and the `count` of rows written
--   update_and_return  updateManyAndReturn: the table after the call, and the rows written
--   upsert       upsert: the row that has the key is written, or else the new row is added
--   create       create: `none` is the unique constraint error P2002
--   add          create, on a table with no unique key but the generated identifier
--   delete_many  deleteMany and delete, with the `count` of rows deleted
--   transaction  $transaction with a callback
-- A call is one atomic step.
use seleksi2_labpro.Prelude.{ℕ, Bool, Option, List, Exec}

pub record Prisma : Type 1 where
  pub find_one : (R : Type 0) → (R → Bool) → List R → Option R
  pub find_many : (R : Type 0) → (R → Bool) → List R → List R
  pub update_many : (R : Type 0) → (R → Bool) → (R → R) → List R → List R × ℕ
  pub update_and_return : (R : Type 0) → (R → Bool) → (R → R) → List R → List R × List R
  pub upsert : (R : Type 0) → (R → Bool) → R → (R → R) → List R → List R
  pub create : (R : Type 0) → (R → Bool) → R → List R → Option (List R)
  pub add : (R : Type 0) → R → List R → List R
  pub delete_many : (R : Type 0) → (R → Bool) → List R → List R × ℕ
  pub transaction : (S E A : Type 0) → Exec S E A → Exec S E A

module _ ⦃db : Prisma⦄ {R : Type 0} where
  abbrev pub find_one : (R → Bool) → List R → Option R
  find_one = db.find_one R

  abbrev pub find_many : (R → Bool) → List R → List R
  find_many = db.find_many R

  abbrev pub update_many : (R → Bool) → (R → R) → List R → List R × ℕ
  update_many = db.update_many R

  abbrev pub update_and_return : (R → Bool) → (R → R) → List R → List R × List R
  update_and_return = db.update_and_return R

  abbrev pub upsert : (R → Bool) → R → (R → R) → List R → List R
  upsert = db.upsert R

  abbrev pub create : (R → Bool) → R → List R → Option (List R)
  create = db.create R

  abbrev pub add : R → List R → List R
  add = db.add R

  abbrev pub delete_many : (R → Bool) → List R → List R × ℕ
  delete_many = db.delete_many R

module _ ⦃db : Prisma⦄ {S E A : Type 0} where
  abbrev pub transaction : Exec S E A → Exec S E A
  transaction = db.transaction S E A
