-- ===== src/Database/Rows.antt =====
-- Laws of the documented calls on the rows of a table.
use mathlib.Core.Option
use seleksi2_labpro.Prelude.{
  ℕ, ◌≤◌, ◌≡◌, refl, subst, Bool, true, false, Option, none, some, List, [], ◌∷◌, arith,
  if◌then◌else◌, Bool-cases, inl, inr, count, find_by, any, update_where, All, ◌++◌,
}

-- A row after `updateMany`.
abbrev pub updated {ℓ} : {R : Type ℓ} → (R → Bool) → (R → R) → R → R
updated p f r = if p r then f r else r

-- How many rows of a key are written, given the row that has the key.
abbrev pub hits {ℓ} : {R : Type ℓ} → (R → Bool) → Option R → ℕ
hits p none = 0
hits p (some r) = if p r then 1 else 0

module _ {ℓ} {R : Type ℓ} where
  -- A write that leaves the key alone writes the row that the key finds.
  pub find_by-update_where :
      (q p : R → Bool) (f : R → R) (t : List R)
      → ((r : R) → q (f r) ≡ q r)
      → find_by q (update_where p f t) ≡ Option.map (updated p f) (find_by q t)
  unfolding find_by update_where
  find_by-update_where q p f [] h = refl
  find_by-update_where q p f (r ∷ t) h = ground (arith, h r, find_by-update_where q p f t h)

  pub count-update_where :
      (q p : R → Bool) (f : R → R) (t : List R)
      → ((r : R) → q (f r) ≡ q r)
      → count q (update_where p f t) ≡ count q t
  unfolding count update_where
  count-update_where q p f [] h = refl
  count-update_where q p f (r ∷ t) h = ground (arith, h r, count-update_where q p f t h)

  count_none :
      (p q : R → Bool) (t : List R)
      → ((r : R) → p r ≡ true → q r ≡ true)
      → count q t ≡ 0
      → count p t ≡ 0
  unfolding count
  count_none p q [] h e = refl
  count_none p q (r ∷ t) h e = ground (arith, h r, count_none p q t h)

  count_of_find_by-none : (q : R → Bool) (t : List R) → find_by q t ≡ none → count q t ≡ 0
  unfolding count find_by
  count_of_find_by-none q [] e = refl
  count_of_find_by-none q (r ∷ t) e = ground (arith, count_of_find_by-none q t)

  -- Where a key is unique, the count of a write on the key tells whether its row passed the test.
  pub count-hits :
      (p q : R → Bool) (t : List R)
      → ((r : R) → p r ≡ true → q r ≡ true)
      → count q t ≤ 1
      → count p t ≡ hits p (find_by q t)
  unfolding count find_by
  count-hits p q [] h u = refl
  count-hits p q (r ∷ t) h u = elim (Bool-cases (q r)) [
    | inl here ↦ ground (arith, count_none p q t h)
    | inr later ↦ ground (arith, h r, count-hits p q t h)
  ]

  -- A property that each write keeps holds of every row after it.
  pub All-update_where {κ} :
      (P : R → Type κ) (p : R → Bool) (f : R → R) (t : List R)
      → ((r : R) → p r ≡ true → P r → P (f r))
      → All P t
      → All P (update_where p f t)
  unfolding update_where
  All-update_where P p f [] h a = tt
  All-update_where P p f (r ∷ t) h (here, later) =
      (written (p r) (h r), All-update_where P p f t h later)
    where
      written : (b : Bool) → (b ≡ true → P r → P (f r)) → P (if b then f r else r)
      written true k = k refl here
      written false k = here

  pub find_by_sound : (q : R → Bool) (t : List R) (r : R) → find_by q t ≡ some r → q r ≡ true
  unfolding find_by
  find_by_sound q [] r e = ground arith
  find_by_sound q (x ∷ t) r e = elim (Bool-cases (q x)) [
    | inl here ↦ let same : x ≡ r = ground arith in subst (λ y. q y ≡ true) same here
    | inr later ↦ find_by_sound q t r (ground arith)
  ]

  pub find_by-All {κ} :
      (P : R → Type κ) (q : R → Bool) (t : List R) (r : R) → All P t → find_by q t ≡ some r → P r
  unfolding find_by
  find_by-All P q [] r a e = ground arith
  find_by-All P q (x ∷ t) r (here, later) e = elim (Bool-cases (q x)) [
    | inl hit ↦ let same : x ≡ r = ground arith in subst P same here
    | inr miss ↦ find_by-All P q t r later (ground arith)
  ]

-- What a conditional write on a unique key did to the one row that passed its condition.
pub record WritesOne {ℓ} {R : Type ℓ} (q p : R → Bool) (f : R → R) (t : List R) (r : R)
    : Type ℓ where
  pub counted : count p t ≡ 1
  pub found : find_by q (update_where p f t) ≡ some (f r)
  pub unique : count q (update_where p f t) ≤ 1

module _ {ℓ} {R : Type ℓ} where
  pub writes_one :
      (q p : R → Bool) (f : R → R) (t : List R) (r : R)
      → ((x : R) → p x ≡ true → q x ≡ true)
      → ((x : R) → q (f x) ≡ q x)
      → count q t ≤ 1
      → find_by q t ≡ some r
      → p r ≡ true
      → WritesOne q p f t r
  writes_one q p f t r sub keep once here pass = record {
    counted = ground (arith, count-hits p q t sub);
    found = ground (arith, find_by-update_where q p f t keep);
    unique = omega (arith, count-update_where q p f t keep);
  }

  -- And where the row does not pass it, nothing is written.
  pub writes_none :
      (q p : R → Bool) (t : List R) (r : R)
      → ((x : R) → p x ≡ true → q x ≡ true)
      → count q t ≤ 1
      → find_by q t ≡ some r
      → p r ≡ false
      → count p t ≡ 0
  writes_none q p t r sub once here miss = ground (arith, count-hits p q t sub)

module _ {ℓ} {R : Type ℓ} where
  -- A write that no row passes changes nothing.
  pub update_where-none :
      (p : R → Bool) (f : R → R) (t : List R) → count p t ≡ 0 → update_where p f t ≡ t
  unfolding count update_where
  update_where-none p f [] h = refl
  update_where-none p f (r ∷ t) h = ground (arith, update_where-none p f t)

-- A row that was added behind rows that lack its key.
module _ {ℓ} {R : Type ℓ} (q : R → Bool) where
  pub any-find_by : (t : List R) (r : R) → find_by q t ≡ some r → any q t ≡ true
  unfolding any find_by
  any-find_by [] r h = ground arith
  any-find_by (x ∷ t) r h = ground (arith, any-find_by t r)

  pub find_by-any : (t : List R) → any q t ≡ true → (r : R) × (find_by q t ≡ some r)
  unfolding any find_by
  find_by-any [] h = ground arith
  find_by-any (x ∷ t) h = elim (Bool-cases (q x)) [
    | inl here ↦ (x, rw here refl)
    | inr later ↦ rw later (find_by-any t (ground arith))
  ]

  pub find_by-added :
      (t : List R) (r : R) → any q t ≡ false → q r ≡ true → find_by q (t ++ r ∷ []) ≡ some r
  unfolding any find_by
  find_by-added [] r h k = rw k refl
  find_by-added (x ∷ t) r h k = elim (Bool-cases (q x)) [
    | inl here ↦ ground arith
    | inr later ↦ rw later (find_by-added t r (ground arith) k)
  ]

  -- And the rows that were there before it are found as before.
  pub find_by-kept :
      (t : List R) (r y : R) → find_by q t ≡ some y → find_by q (t ++ r ∷ []) ≡ some y
  unfolding find_by
  find_by-kept [] r y h = ground arith
  find_by-kept (x ∷ t) r y h = ground (arith, find_by-kept t r y)
