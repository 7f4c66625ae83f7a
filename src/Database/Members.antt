-- ===== src/Database/Members.antt =====
-- The rows of a table after the documented calls, one by one.
use mathlib.Core.List.{Memᴰ}
use mathlib.Core.List.Memᴰ.{head, tail}
use seleksi2_labpro.Prelude.{
  suc, ◌≤◌, ◌≡◌, ◌≢◌, refl, ap, sym, subst, ◌∙◌, any, Bool, true, false, some, List, [], ◌∷◌, arith,
  Bool-cases, inl, inr, filter, find_by, count, update_where, All, length,
}
use seleksi2_labpro.Database.Rows.{updated, find_by-any}

module _ {ℓ} {R : Type ℓ} where
  pub Memᴰ-filter :
      (p : R → Bool) (r : R) (t : List R) → p r ≡ true → Memᴰ r t → Memᴰ r (filter p t)
  unfolding filter
  Memᴰ-filter p r [] h m = m
  Memᴰ-filter p r (x ∷ t) h (head e) = rw (subst (λ y. p y ≡ true) e h) (head e)
  Memᴰ-filter p r (x ∷ t) h (tail m) = elim (Bool-cases (p x)) [
    | inl pass ↦ rw pass (tail (Memᴰ-filter p r t h m))
    | inr miss ↦ rw miss (Memᴰ-filter p r t h m)
  ]

  pub filter-Memᴰ :
      (p : R → Bool) (r : R) (t : List R) → Memᴰ r (filter p t) → Memᴰ r t × (p r ≡ true)
  unfolding filter
  filter-Memᴰ p r [] m = elim m [ ]
  filter-Memᴰ p r (x ∷ t) m = elim (Bool-cases (p x)) [
    | inl pass ↦ first (filter-Memᴰ p r t) pass (rw pass at m)
    | inr miss ↦ let (k, h) = filter-Memᴰ p r t (rw miss at m) in (tail k, h)
  ]
    where
      first :
          (Memᴰ r (filter p t) → Memᴰ r t × (p r ≡ true))
          → p x ≡ true
          → Memᴰ r (x ∷ filter p t)
          → Memᴰ r (x ∷ t) × (p r ≡ true)
      first rest pass (head e) = (head e, subst (λ y. p y ≡ true) (sym e) pass)
      first rest pass (tail k) = let (k', h) = rest k in (tail k', h)

  pub Memᴰ-update_where :
      (p : R → Bool) (f : R → R) (r : R) (t : List R)
      → Memᴰ r t
      → Memᴰ (updated p f r) (update_where p f t)
  unfolding update_where
  Memᴰ-update_where p f r [] m = elim m [ ]
  Memᴰ-update_where p f r (x ∷ t) (head e) = head (ap (updated p f) e)
  Memᴰ-update_where p f r (x ∷ t) (tail m) = tail (Memᴰ-update_where p f r t m)

  pub find_by-Memᴰ : (q : R → Bool) (t : List R) (r : R) → find_by q t ≡ some r → Memᴰ r t
  unfolding find_by
  find_by-Memᴰ q [] r e = ground arith
  find_by-Memᴰ q (x ∷ t) r e = elim (Bool-cases (q x)) [
    | inl hit ↦ head (ground arith)
    | inr miss ↦ tail (find_by-Memᴰ q t r (ground arith))
  ]

  -- A write that clears every row that it is meant for.
  pub All-cleared :
      (p q : R → Bool) (f : R → R) (t : List R)
      → ((r : R) → p r ≡ true → q r ≡ true)
      → ((r : R) → p (f r) ≡ false)
      → All (λ r. p r ≡ false) (update_where q f t)
  unfolding update_where
  All-cleared p q f [] sub clear = tt
  All-cleared p q f (r ∷ t) sub clear = (row, All-cleared p q f t sub clear)
    where
      row : p (updated q f r) ≡ false
      row = elim (Bool-cases (q r)) [
        | inl hit ↦ rw hit (clear r)
        | inr miss ↦ rw miss (ground (arith, sub r))
      ]

  pub All-Memᴰ {κ} : (P : R → Type κ) (r : R) (t : List R) → All P t → Memᴰ r t → P r
  All-Memᴰ P r [] h m = elim m [ ]
  All-Memᴰ P r (x ∷ t) (here, later) (head e) = subst P (sym e) here
  All-Memᴰ P r (x ∷ t) (here, later) (tail m) = All-Memᴰ P r t later m

  pub any-Memᴰ : (p : R → Bool) (t : List R) → any p t ≡ true → (r : R) × Memᴰ r t × (p r ≡ true)
  unfolding any
  any-Memᴰ p [] h = ground arith
  any-Memᴰ p (x ∷ t) h = elim (Bool-cases (p x)) [
    | inl hit ↦ (x, head refl, hit)
    | inr miss ↦ let (r, m, k) = any-Memᴰ p t (ground arith) in (r, tail m, k)
  ]

  pub Memᴰ-any : (p : R → Bool) (r : R) (t : List R) → Memᴰ r t → p r ≡ true → any p t ≡ true
  unfolding any
  Memᴰ-any p r [] m h = elim m [ ]
  Memᴰ-any p r (x ∷ t) (head e) h = rw (subst (λ y. p y ≡ true) e h) refl
  Memᴰ-any p r (x ∷ t) (tail m) h = ground (arith, Memᴰ-any p r t m h)

  pub length-filter : (p : R → Bool) (t : List R) → length (filter p t) ≡ count p t
  unfolding filter count
  length-filter p [] = refl
  length-filter p (x ∷ t) = elim (Bool-cases (p x)) [
    | inl hit ↦ rw hit (ap suc (length-filter p t))
    | inr miss ↦ rw miss (length-filter p t)
  ]

  pub count-le :
      (p q : R → Bool) (t : List R) → ((r : R) → p r ≡ true → q r ≡ true) → count p t ≤ count q t
  unfolding count
  count-le p q [] h = omega arith
  count-le p q (x ∷ t) h = ground (arith, h x, count-le p q t h)

  pub Memᴰ-count : (p : R → Bool) (r : R) (t : List R) → Memᴰ r t → p r ≡ true → 1 ≤ count p t
  unfolding count
  Memᴰ-count p r [] m h = elim m [ ]
  Memᴰ-count p r (x ∷ t) (head e) h = rw (subst (λ y. p y ≡ true) e h) (omega arith)
  Memᴰ-count p r (x ∷ t) (tail m) h = ground (arith, Memᴰ-count p r t m h)

  -- Where a key is unique, a row that has it is the one that is found.
  pub found_is_only :
      (q : R → Bool) (a b : R) (t : List R)
      → count q t ≤ 1
      → find_by q t ≡ some a
      → Memᴰ b t
      → q b ≡ true
      → a ≡ b
  unfolding count find_by
  found_is_only q a b [] once found m h = elim m [ ]
  found_is_only q a b (x ∷ t) once found (head e) h =
      let hit : q x ≡ true = subst (λ y. q y ≡ true) e h in
      let same : x ≡ a = ground arith in sym same ∙ sym e
  found_is_only q a b (x ∷ t) once found (tail m) h = elim (Bool-cases (q x)) [
    | inl hit ↦ ground (arith, Memᴰ-count q b t m h)
    | inr miss ↦ found_is_only q a b t (ground arith) (ground arith) m h
  ]

  pub not_empty : (p : R → Bool) (t : List R) → (count p t ≢ 0) → any p t ≡ true
  unfolding any count
  not_empty p [] h = absurd (h refl)
  not_empty p (x ∷ t) h = ground (arith, not_empty p t)

  pub only_row :
      (q : R → Bool) (a b : R) (t : List R)
      → count q t ≤ 1
      → Memᴰ a t
      → q a ≡ true
      → Memᴰ b t
      → q b ≡ true
      → a ≡ b
  only_row q a b t once ma ha mb hb =
      let (r, found) = find_by-any q t (Memᴰ-any q a t ma ha) in
      sym (found_is_only q r a t once found ma ha) ∙ found_is_only q r b t once found mb hb
