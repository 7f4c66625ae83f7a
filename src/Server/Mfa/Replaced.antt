-- ===== src/Server/Mfa/Replaced.antt =====
-- The recovery codes of a user after the old ones were replaced (mfa-enrollment.service.ts and
-- mfa-management.service.ts): the new ones, and no other.
use seleksi2_labpro.Prelude.{
  suc, ◌≡◌, refl, ap, sym, ◌∙◌, String, Bool, not, ◌&&◌, Option, none, some, List, [], ◌∷◌, ◌++◌,
  arith, Bool-cases, inl, inr, filter, any, same_text, is_none, length, ok, or_throw, modify, ◌>>=◌,
  ◌===◌,
}
use seleksi2_labpro.Prelude.Ensures.{Ensures}
use seleksi2_labpro.Database.{reference}
use seleksi2_labpro.Schema.Sessions.{MfaRecoveryCode}
use seleksi2_labpro.Server.Store.{ServerStore, Handler, unique_constraint}
use seleksi2_labpro.Server.Runtime.{Runtime}
use seleksi2_labpro.Server.Mfa.Enrollment.{is_unused_of}
use seleksi2_labpro.Server.Mfa.Recovery.{
  DrawnCode, new_code, code_rows, create_rows, replace_codes, without_codes,
}

-- A user's codes.
abbrev pub is_code_of : String → MfaRecoveryCode → Bool
is_code_of user_id r = r.user_id === user_id

-- The user's codes are these.
abbrev pub HasCodes : String → List MfaRecoveryCode → ServerStore → Type 0
HasCodes user_id rows s = filter (is_code_of user_id) s.recovery_codes ≡ rows

module _ {R : Type 0} where
  filter-append : (p : R → Bool) (t u : List R) → filter p (t ++ u) ≡ filter p t ++ filter p u
  unfolding filter
  filter-append p [] u = refl
  filter-append p (r ∷ t) u = elim (Bool-cases (p r)) [
    | inl hit ↦ rw hit (ap (λ x. r ∷ x) (filter-append p t u))
    | inr miss ↦ rw miss (filter-append p t u)
  ]

  filter-deleted : (p : R → Bool) (t : List R) → filter p (filter (λ r. not (p r)) t) ≡ []
  unfolding filter
  filter-deleted p [] = refl
  filter-deleted p (r ∷ t) = elim (Bool-cases (p r)) [
    | inl hit ↦ rw hit (filter-deleted p t)
    | inr miss ↦ rw (miss, miss) (filter-deleted p t)
  ]

  append_assoc : (t u v : List R) → (t ++ u) ++ v ≡ t ++ (u ++ v)
  append_assoc [] u v = refl
  append_assoc (r ∷ t) u v = ap (λ x. r ∷ x) (append_assoc t u v)

  append_nil : (t : List R) → t ++ [] ≡ t
  append_nil [] = refl
  append_nil (r ∷ t) = ap (λ x. r ∷ x) (append_nil t)

  none_is_not_some : {t : R} → ¬ (none ≡ some t)
  none_is_not_some e = ground arith

  filter-and : (p q : R → Bool) (t : List R) → filter (λ r. p r && q r) t ≡ filter q (filter p t)
  unfolding filter
  filter-and p q [] = refl
  filter-and p q (r ∷ t) = elim (Bool-cases (p r)) [
    | inl hit ↦ elim (Bool-cases (q r)) [
      | inl keep ↦ rw (hit, keep) (ap (λ x. r ∷ x) (filter-and p q t))
      | inr drop ↦ rw (hit, drop) (filter-and p q t)
    ]
    | inr miss ↦ rw miss (filter-and p q t)
  ]

create_rows-append :
    (rows t t' : List MfaRecoveryCode)
    → create_rows ⦃db = reference⦄ rows t ≡ some t'
    → t' ≡ t ++ rows
unfolding create_rows
create_rows-append [] t t' e = let same : t ≡ t' = ground arith in sym same ∙ sym (append_nil t)
create_rows-append (r ∷ rows) t t' e =
    elim (Bool-cases (any (λ (x : MfaRecoveryCode). x.code_hash === r.code_hash) t)) [
      | inl taken ↦ absurd (none_is_not_some (rw (taken, create_rows) at e))
      | inr free ↦
          create_rows-append rows (t ++ r ∷ []) t' (rw (free, create_rows) at e)
          ∙ append_assoc t (r ∷ []) rows
    ]

abbrev put_codes : List MfaRecoveryCode → Handler (Unit {0})
put_codes t = modify (λ s. record s { recovery_codes = t })

module _ (rt : Runtime) (user_id : String) where
  filter-code_rows :
      (drawn : List DrawnCode)
      → filter (is_code_of user_id) (code_rows rt user_id drawn) ≡ code_rows rt user_id drawn
  unfolding filter
  filter-code_rows [] = refl
  filter-code_rows (d ∷ drawn) =
      rw (same_text user_id) (ap (λ x. new_code rt user_id d ∷ x) (filter-code_rows drawn))

  unused-code_rows :
      (drawn : List DrawnCode)
      → length (filter (λ (r : MfaRecoveryCode). is_none r.used_at) (code_rows rt user_id drawn))
        ≡ length drawn
  unfolding filter
  unused-code_rows [] = refl
  unused-code_rows (d ∷ drawn) = ap suc (unused-code_rows drawn)

  pub HasCodes-length :
      (drawn : List DrawnCode) (s : ServerStore)
      → HasCodes user_id (code_rows rt user_id drawn) s
      → length (filter (is_unused_of user_id) s.recovery_codes) ≡ length drawn
  HasCodes-length drawn s h =
      ap length (filter-and (is_code_of user_id) (λ r. is_none r.used_at) s.recovery_codes)
      ∙ ap (λ t. length (filter (λ (r : MfaRecoveryCode). is_none r.used_at) t)) h
      ∙ unused-code_rows drawn

  pub replace_codes-HasCodes :
      (drawn : List DrawnCode)
      → Ensures
          (λ s s'. HasCodes user_id (code_rows rt user_id drawn) s')
          (replace_codes ⦃db = reference⦄ user_id (code_rows rt user_id drawn))
  unfolding replace_codes ◌>>=◌
  replace_codes-HasCodes drawn = record { at = λ s a x. added s _ refl a x }
    where
      kept : ServerStore → List MfaRecoveryCode
      kept s = filter (λ r. not (is_code_of user_id r)) s.recovery_codes

      added :
          (s : ServerStore) (o : Option (List MfaRecoveryCode))
          → create_rows ⦃db = reference⦄ (code_rows rt user_id drawn) (kept s) ≡ o
          → (a : Unit {0})
          → ((or_throw o unique_constraint >>= λ t. put_codes t)
              (without_codes ⦃db = reference⦄ user_id s)).0
            ≡ ok a
          → HasCodes user_id
              (code_rows rt user_id drawn)
              ((or_throw o unique_constraint >>= λ t. put_codes t)
                (without_codes ⦃db = reference⦄ user_id s)).1
      added s none e a x = ground arith
      added s (some t) e a x =
          ap (filter (is_code_of user_id)) (create_rows-append _ _ t e)
          ∙ filter-append (is_code_of user_id) (kept s) (code_rows rt user_id drawn)
          ∙ ap (λ u. u ++ filter (is_code_of user_id) (code_rows rt user_id drawn))
              (filter-deleted (is_code_of user_id) s.recovery_codes)
          ∙ filter-code_rows drawn
