-- ===== src/Server/Mfa/Disabled.antt =====
-- What `disable` leaves of a second factor (mfa-management.service.ts).
use seleksi2_labpro.Prelude.{
  ◌&&◌, is_none, ◌≡◌, refl, String, Bool, true, false, not, Option, none, some, List, [], ◌∷◌,
  arith, Bool-cases, inl, inr, filter, find_by, some_and, All, ok, err, Result, after, ◌>>=◌, ◌==◌,
  count, if◌then◌else◌, ◌===◌, throw, pure,
}
use seleksi2_labpro.Prelude.Ensures.{Ensures, Ensures-behind}
use seleksi2_labpro.Database.{Prisma, reference, IsDocumented, documented}
use seleksi2_labpro.Database.Transactions.{Ensures-transaction}
use seleksi2_labpro.Database.Rows.{find_by-All, find_by_sound}
use seleksi2_labpro.Database.Members.{All-cleared}
use seleksi2_labpro.Schema.Sessions.{UserMfaTotp, MfaRecoveryCode, MfaLoginChallenge}
use seleksi2_labpro.Server.Store.{ServerStore, ServerError, Handler, mfa_race, update_challenges}
use seleksi2_labpro.Server.Runtime.{Runtime, Call}
use seleksi2_labpro.Server.Mfa.{Factor, close_challenge}
use seleksi2_labpro.Server.Mfa.Enrollment.{get_status, is_factor_of, is_enabled_factor}
use seleksi2_labpro.Server.Mfa.Management.{
  disable, remove_factor, clear_factor, delete_factor, is_removable, is_open_of, catch_race,
  or_fail,
}

-- No factor of the user that is enabled, no recovery code and no open challenge.
pub record IsBare (user_id : String) (s : ServerStore) : Type 0 where
  pub factors : All (λ (r : UserMfaTotp). is_removable user_id r ≡ false) s.mfa_totps
  pub codes : All (λ (r : MfaRecoveryCode). (r.user_id === user_id) ≡ false) s.recovery_codes
  pub challenges : All (λ (r : MfaLoginChallenge). is_open_of user_id r ≡ false) s.mfa_challenges

All-deleted :
    {R : Type 0} (p : R → Bool) (t : List R) → All (λ r. p r ≡ false) (filter (λ r. not (p r)) t)
unfolding filter
All-deleted p [] = tt
All-deleted p (r ∷ t) = elim (Bool-cases (p r)) [
  | inl hit ↦ rw hit (All-deleted p t)
  | inr miss ↦ rw miss (miss, All-deleted p t)
]

passed :
    (P : ServerStore → Type 0) (b : Bool) (m : Handler (Unit {0})) (t : ServerStore) (a : Unit {0})
    → P (m t).1
    → (after (if b then err mfa_race else ok tt) (λ (u : Unit {0}). m) t).0 ≡ ok a
    → P (after (if b then err mfa_race else ok tt) (λ (u : Unit {0}). m) t).1
passed P true m t a h x = ground arith
passed P false m t a h x = h

-- What an action that returns has done, it has done where its races are caught.
pub Ensures-catch_race :
    {A : Type 0} (P : ServerStore → ServerStore → Type 0) (m : Handler A)
    → Ensures P m
    → Ensures P (catch_race m)
unfolding catch_race pure throw
Ensures-catch_race {A} P m h = record { at = λ s a x. caught s (m s).0 (m s).1 a (h.at s) x }
  where
    caught :
        (s : ServerStore) (r : Result ServerError A) (t : ServerStore) (a : A)
        → ((b : A) → r ≡ ok b → P s t)
        → (or_fail r t).0 ≡ ok a
        → P s (or_fail r t).1
    caught s (ok b) t a k x = k b refl
    caught s (err e) t a k x = ground arith

module _ (rt : Runtime) (c : Call) (user_id : String) where
  clear_factor-IsBare :
      Ensures (λ s s'. IsBare user_id s') (clear_factor ⦃db = reference⦄ rt c user_id)
  unfolding clear_factor delete_factor ◌>>=◌ update_challenges
  clear_factor-IsBare = record {
    at = λ s a x.
        passed (IsBare user_id) (not (count (is_removable user_id) s.mfa_totps == 1)) _ _ a
          (record {
            factors = All-deleted (is_removable user_id) s.mfa_totps;
            codes = All-deleted (λ (r : MfaRecoveryCode). r.user_id === user_id) s.recovery_codes;
            challenges =
                All-cleared (is_open_of user_id) (is_open_of user_id) (close_challenge c.now)
                  s.mfa_challenges (λ r h. h) (λ r. ground arith);
          })
          x;
  }

  remove_factor-IsBare :
      (f : Factor)
      → Ensures (λ s s'. IsBare user_id s') (remove_factor ⦃db = reference⦄ rt c user_id f)
  unfolding remove_factor
  remove_factor-IsBare f = Ensures-behind (IsBare user_id) _ _ λ used. clear_factor-IsBare

  disable-IsBare :
      (password code : String)
      → Ensures (λ s s'. IsBare user_id s') (disable ⦃db = reference⦄ rt c user_id password code)
  unfolding disable
  disable-IsBare password code =
      Ensures-behind (IsBare user_id) _ _
        λ f. Ensures-catch_race _ _ (Ensures-transaction _ _ (remove_factor-IsBare f))

bare_status :
    (user_id : String) (s : ServerStore)
    → IsBare user_id s
    → (get_status ⦃db = reference⦄ user_id s).enabled ≡ false
unfolding get_status
bare_status user_id s h = off _ refl
  where
    off :
        (o : Option UserMfaTotp)
        → find_by (is_factor_of user_id) s.mfa_totps ≡ o
        → some_and is_enabled_factor o ≡ false
    off none e = refl
    off (some r) e = ground (
      arith,
      find_by-All _ (is_factor_of user_id) s.mfa_totps r h.factors e,
      find_by_sound (is_factor_of user_id) s.mfa_totps r e,
    )

module _ ⦃db : Prisma⦄ (l : IsDocumented db) where
  -- Once a user's second factor was disabled, the user's status is that it is off, no recovery code of
  -- the user is left in its table, used or not, and every challenge of the user is closed.
  pub disable_ends_factor :
      (rt : Runtime) (c : Call) (user_id password code : String) (s : ServerStore) (a : Unit {0})
      → (disable rt c user_id password code s).0 ≡ ok a
      → ((get_status user_id (disable rt c user_id password code s).1).enabled ≡ false)
        × All
            (λ (r : MfaRecoveryCode). (r.user_id === user_id) ≡ false)
            (disable rt c user_id password code s).1.recovery_codes
        × All
            (λ (r : MfaLoginChallenge). (r.user_id === user_id && is_none r.used_at) ≡ false)
            (disable rt c user_id password code s).1.mfa_challenges
  disable_ends_factor rt c user_id password code s a done =
      let h = (disable-IsBare rt c user_id password code).at s a (rw (documented l) at done) in
      rw (documented l) (bare_status user_id _ h, h.codes, h.challenges)
