-- ===== src/Server/Mfa/Enrolled.antt =====
-- What enrolment does to a second factor (mfa-enrollment.service.ts).
use seleksi2_labpro.Prelude.{
  ℕ, ◌≡◌, refl, String, true, false, Option, none, some, List, arith, Bool-cases, inl, inr, find_by,
  some_and, is_some, length, ok, ◌>>=◌, is_none,
}
use seleksi2_labpro.Prelude.Moves.{Moves, Moves-rest, moves_rules}
use seleksi2_labpro.Prelude.Ensures.{
  Ensures, Ensures-behind, Ensures-keeps, Ensures-pure, Ensures-then_throw, Ensures-gets,
  Ensures-or_throw, Ensures-throw_if, Keeps-preorder,
}
use seleksi2_labpro.Database.{Prisma, reference, IsDocumented, documented}
use seleksi2_labpro.Database.Transactions.{Ensures-transaction}
use seleksi2_labpro.Database.Rows.{find_by-update_where, find_by_sound}
use seleksi2_labpro.Schema.Sessions.{UserMfaTotp}
use seleksi2_labpro.Server.Store.{ServerStore, update_totps}
use seleksi2_labpro.Server.Runtime.{Runtime, Call}
use seleksi2_labpro.Server.Mfa.{Factor}
use seleksi2_labpro.Server.Mfa.Recovery.{DrawnCode, code_rows, replace_codes}
use seleksi2_labpro.Server.Mfa.Replaced.{HasCodes, HasCodes-length, replace_codes-HasCodes}
use seleksi2_labpro.Server.Mfa.Management.{regenerate_recovery_codes, exchange_codes}
use seleksi2_labpro.Server.Mfa.Disabled.{Ensures-catch_race}
use seleksi2_labpro.Server.Mfa.Enrollment.{
  get_status, confirm, confirm_with, activate, is_factor_of, is_enabled_factor, is_pending_of,
  activated,
}

module _ (rt : Runtime) (c : Call) (user_id : String) (drawn : List DrawnCode) where
  abbrev Q : ServerStore → Type 0
  Q = HasCodes user_id (code_rows rt user_id drawn)

  exchange_codes-HasCodes :
      Ensures (λ s s'. Q s') (replace_codes ⦃db = reference⦄ user_id (code_rows rt user_id drawn))
  exchange_codes-HasCodes = replace_codes-HasCodes rt user_id drawn

  activate-HasCodes :
      (step : ℕ) → Ensures (λ s s'. Q s') (activate ⦃db = reference⦄ rt c user_id step drawn)
  unfolding activate
  activate-HasCodes step = Ensures-behind Q _ _ λ n. Ensures-behind Q _ _ λ u.
      Ensures-keeps Q _ _ exchange_codes-HasCodes
        λ v. search (Keeps-preorder Q, moves_rules) depth 6

  swap-HasCodes :
      (f : Factor) → Ensures (λ s s'. Q s') (exchange_codes ⦃db = reference⦄ rt c user_id f drawn)
  unfolding exchange_codes
  swap-HasCodes f = Ensures-behind Q _ _ λ u.
      Ensures-keeps Q _ _ exchange_codes-HasCodes
        λ v. search (Keeps-preorder Q, moves_rules) depth 6

  regenerate-HasCodes :
      (password code : String)
      → Ensures
          (λ s s'. Q s')
          (regenerate_recovery_codes ⦃db = reference⦄ rt c user_id password code drawn)
  unfolding regenerate_recovery_codes
  regenerate-HasCodes password code =
      Ensures-behind Q _ _
        λ f. Ensures-pure _ _ (Ensures-catch_race _ _ (Ensures-transaction _ _ (swap-HasCodes f)))

  confirm_with-HasCodes :
      (o : Option ℕ) → Ensures (λ s s'. Q s') (confirm_with ⦃db = reference⦄ rt c user_id drawn o)
  unfolding confirm_with
  confirm_with-HasCodes none = Ensures-then_throw _ _
  confirm_with-HasCodes (some step) =
      Ensures-pure _ _ (Ensures-transaction _ _ (activate-HasCodes step))

  confirm-HasCodes :
      (code : String) → Ensures (λ s s'. Q s') (confirm ⦃db = reference⦄ rt c user_id code drawn)
  unfolding confirm
  confirm-HasCodes code =
      Ensures-gets _ _
        λ found. Ensures-or_throw _ _ _ λ r e. Ensures-throw_if _ _ _ (confirm_with-HasCodes _)

  -- The user's factor is on, or is there and off.
  abbrev IsOn : ServerStore → Type 0
  IsOn s = some_and is_enabled_factor (find_by (is_factor_of user_id) s.mfa_totps) ≡ true

  abbrev IsPending : ServerStore → Type 0
  IsPending s =
      (r : UserMfaTotp) × (find_by (is_factor_of user_id) s.mfa_totps ≡ some r)
      × (is_some r.enabled_at ≡ false)

  replace_codes-IsOn :
      Moves
        (λ s s'. IsOn s → IsOn s')
        (replace_codes ⦃db = reference⦄ user_id (code_rows rt user_id drawn))
  unfolding replace_codes
  replace_codes-IsOn = search (Keeps-preorder IsOn, moves_rules) depth 8

  written-IsOn :
      (step : ℕ) (s : ServerStore)
      → IsPending s
      → IsOn (update_totps ⦃db = reference⦄ (is_pending_of user_id) (activated c.now step) s).1
  unfolding update_totps
  written-IsOn step s (r, found, off) = ground (
    arith,
    find_by_sound (is_factor_of user_id) s.mfa_totps r found,
    find_by-update_where (is_factor_of user_id) (is_pending_of user_id) (activated c.now step)
        s.mfa_totps (λ x. refl),
  )

  activate-IsOn :
      (step : ℕ)
      → Ensures (λ s s'. IsPending s → IsOn s') (activate ⦃db = reference⦄ rt c user_id step drawn)
  unfolding activate
  activate-IsOn step = record {
    at = λ s a x pending.
        Moves-rest (Keeps-preorder IsOn)
          (update_totps ⦃db = reference⦄ (is_pending_of user_id) (activated c.now step)) _ s
          (λ n. search (Keeps-preorder IsOn, moves_rules, replace_codes-IsOn) depth 8)
          (written-IsOn step s pending);
  }

  confirm_with-IsOn :
      (o : Option ℕ)
      → Ensures (λ s s'. IsPending s → IsOn s') (confirm_with ⦃db = reference⦄ rt c user_id drawn o)
  unfolding confirm_with
  confirm_with-IsOn none = Ensures-then_throw _ _
  confirm_with-IsOn (some step) = Ensures-pure _ _ (Ensures-transaction _ _ (activate-IsOn step))

  confirm-IsOn :
      (code : String) (s : ServerStore) (v : List String)
      → (confirm ⦃db = reference⦄ rt c user_id code drawn s).0 ≡ ok v
      → IsOn (confirm ⦃db = reference⦄ rt c user_id code drawn s).1
  unfolding confirm ◌>>=◌
  confirm-IsOn code s v = for_found (find_by (is_factor_of user_id) s.mfa_totps) refl
    where
      for_found :
          (o : Option UserMfaTotp)
          → find_by (is_factor_of user_id) s.mfa_totps ≡ o
          → (confirm ⦃db = reference⦄ rt c user_id code drawn s).0 ≡ ok v
          → IsOn (confirm ⦃db = reference⦄ rt c user_id code drawn s).1
      for_found none e x = ground (arith, rw e at x)
      for_found (some r) e x = elim (Bool-cases (is_some r.enabled_at)) [
        | inl on ↦ ground (arith, rw (e, on) at x)
        | inr off ↦ rw (e, off) ((confirm_with-IsOn _).at s v (rw (e, off) at x) (r, e, off))
      ]

  on_status :
      (s : ServerStore)
      → IsOn s
      → Q s
      → get_status ⦃db = reference⦄ user_id s ≡ record {
        enabled = true;
        enrollment_pending = false;
        recovery_codes_remaining = length drawn;
      }
  unfolding get_status
  on_status s on has = rw (on, not_pending _ on, HasCodes-length rt user_id drawn s has) refl
    where
      not_pending :
          (o : Option UserMfaTotp)
          → some_and is_enabled_factor o ≡ true
          → some_and (λ (r : UserMfaTotp). is_none r.enabled_at) o ≡ false
      not_pending none h = ground arith
      not_pending (some r) h = ground arith

module _ ⦃db : Prisma⦄ (l : IsDocumented db) where
  -- Once an enrolment was confirmed, the user's status is that the factor is on and no enrolment
  -- pending, with as many recovery codes as were drawn.
  pub confirm_enrolls :
      (rt : Runtime) (c : Call) (user_id code : String) (drawn : List DrawnCode) (s : ServerStore)
      (v : List String)
      → (confirm rt c user_id code drawn s).0 ≡ ok v
      → get_status user_id (confirm rt c user_id code drawn s).1 ≡ record {
        enabled = true;
        enrollment_pending = false;
        recovery_codes_remaining = length drawn;
      }
  confirm_enrolls rt c user_id code drawn s v done =
      let here : (confirm ⦃db = reference⦄ rt c user_id code drawn s).0 ≡ ok v =
        rw (documented l) at done in
      rw (documented l) (
        on_status rt c user_id drawn _ (confirm-IsOn rt c user_id drawn code s v here)
          ((confirm-HasCodes rt c user_id drawn code).at s v here))

  -- Once recovery codes were regenerated, the user's codes are the new ones, all of them unused, and no
  -- other.
  pub regenerate_replaces :
      (rt : Runtime) (c : Call) (user_id password code : String) (drawn : List DrawnCode)
      (s : ServerStore) (v : List String)
      → (regenerate_recovery_codes rt c user_id password code drawn s).0 ≡ ok v
      → HasCodes user_id
          (code_rows rt user_id drawn)
          (regenerate_recovery_codes rt c user_id password code drawn s).1
  regenerate_replaces rt c user_id password code drawn s v done =
      rw (documented l)
        ((regenerate-HasCodes rt c user_id drawn password code).at s v (rw (documented l) at done))
