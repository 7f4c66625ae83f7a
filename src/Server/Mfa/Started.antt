-- ===== src/Server/Mfa/Started.antt =====
-- What `start` does and does not do to a second factor (mfa-enrollment.service.ts).
use seleksi2_labpro.Prelude.{
  ◌≡◌, refl, sym, ◌∙◌, subst, String, true, false, Option, none, some, ok, Result, err, pure, after,
  [], ◌∷◌, arith, Bool-cases, inl, inr, find_by, any, some_and, is_some, is_none, ℕ, eq_iff,
  same_text, ◌>>=◌, update_where, if◌then◌else◌, ◌===◌, ◌++◌,
}
use seleksi2_labpro.Prelude.Moves.{Moves-rest, moves_rules}
use seleksi2_labpro.Prelude.Ensures.{Keeps-preorder}
use seleksi2_labpro.Database.{Prisma, reference, IsDocumented, documented, transaction, rollback}
use seleksi2_labpro.Database.Transactions.{either_way}
use seleksi2_labpro.Database.Rows.{
  find_by-update_where, find_by_sound, find_by-kept, find_by-any, any-find_by, find_by-added,
}
use seleksi2_labpro.Schema.Sessions.{UserMfaTotp}
use seleksi2_labpro.Server.Store.{ServerStore, ServerError}
use seleksi2_labpro.Server.Mfa.Enrollment.{
  NewSecret, StartedMfaEnrollment, get_status, start, keep_secret, is_factor_of, is_enabled_factor,
  new_factor, with_secret,
}

module _ (user_id encrypted : String) (other : String) (r : UserMfaTotp) (s : ServerStore)
    (found : find_by (is_factor_of other) s.mfa_totps ≡ some r)
    (on : is_some r.enabled_at ≡ true) where
  abbrev Found : ServerStore → Type 0
  Found t = find_by (is_factor_of other) t.mfa_totps ≡ some r

  is_theirs : r.user_id ≡ other
  is_theirs = (eq_iff r.user_id other).0 (find_by_sound (is_factor_of other) s.mfa_totps r found)

  not_mine :
      some_and is_enabled_factor (find_by (is_factor_of user_id) s.mfa_totps) ≡ false
      → (r.user_id === user_id) ≡ false
  not_mine off = elim (Bool-cases (r.user_id === user_id)) [
    | inl same ↦
        let mine : other ≡ user_id = sym is_theirs ∙ (eq_iff r.user_id user_id).0 same in
        let here : find_by (is_factor_of user_id) s.mfa_totps ≡ some r =
          subst (λ x. find_by (is_factor_of x) s.mfa_totps ≡ some r) mine found in
        ground (arith, rw here at off)
    | inr different ↦ different
  ]

  upserted :
      some_and is_enabled_factor (find_by (is_factor_of user_id) s.mfa_totps) ≡ false
      → find_by (is_factor_of other) (
          if any (is_factor_of user_id) s.mfa_totps
          then update_where (is_factor_of user_id) (with_secret encrypted) s.mfa_totps
          else s.mfa_totps ++ new_factor user_id encrypted ∷ [])
        ≡ some r
  upserted off = elim (Bool-cases (any (is_factor_of user_id) s.mfa_totps)) [
    | inl there ↦ rw there (
        ground (
          arith,
          not_mine off,
          find_by-update_where (is_factor_of other) (is_factor_of user_id) (with_secret encrypted)
              s.mfa_totps (λ x. refl),
        ))
    | inr lacking ↦ rw lacking (find_by-kept (is_factor_of other) s.mfa_totps _ r found)
  ]

  keep_secret-Found : Found (keep_secret ⦃db = reference⦄ user_id encrypted s).1
  unfolding keep_secret ◌>>=◌
  keep_secret-Found =
      elim (Bool-cases (some_and is_enabled_factor (find_by (is_factor_of user_id) s.mfa_totps))) [
        | inl enabled ↦ rw enabled found
        | inr off ↦ rw off (upserted off)
      ]

-- What the user is shown.
abbrev pub shown : NewSecret → String → StartedMfaEnrollment
shown new email = record {
  manual_key = new.secret;
  provisioning_uri = new.provisioning_uri email new.secret;
  qr_code_data_url = new.to_data_url (new.provisioning_uri email new.secret);
}

module _ (user_id encrypted : String) (s : ServerStore)
    (off : some_and is_enabled_factor (find_by (is_factor_of user_id) s.mfa_totps) ≡ false) where
  -- The user's factor is there, and is not enabled.
  abbrev Pends : ServerStore → Type 0
  Pends t =
      (r : UserMfaTotp) × (find_by (is_factor_of user_id) t.mfa_totps ≡ some r)
      × (is_some r.enabled_at ≡ false)

  pends :
      (o : Option UserMfaTotp)
      → find_by (is_factor_of user_id) s.mfa_totps ≡ o
      → (r : UserMfaTotp) × (find_by (is_factor_of user_id) (
            if any (is_factor_of user_id) s.mfa_totps
            then update_where (is_factor_of user_id) (with_secret encrypted) s.mfa_totps
            else s.mfa_totps ++ new_factor user_id encrypted ∷ [])
          ≡ some r)
        × (is_some r.enabled_at ≡ false)
  pends none e = (
    new_factor user_id encrypted,
    (elim (Bool-cases (any (is_factor_of user_id) s.mfa_totps)) [
      | inl there ↦
          let (r, found) = find_by-any (is_factor_of user_id) s.mfa_totps there in
          ground (arith, e, found)
      | inr lacking ↦ rw lacking (
          find_by-added (is_factor_of user_id) s.mfa_totps (new_factor user_id encrypted) lacking
            (same_text user_id))
    ]),
    refl,
  )
  pends (some r) e = (
    with_secret encrypted r,
    rw (any-find_by (is_factor_of user_id) s.mfa_totps r e) (
        ground (
          arith,
          e,
          find_by_sound (is_factor_of user_id) s.mfa_totps r e,
          find_by-update_where (is_factor_of user_id) (is_factor_of user_id) (with_secret encrypted)
              s.mfa_totps (λ x. refl),
        )),
    ground (arith, rw e at off),
  )

  keep_secret-Pends :
      ((keep_secret ⦃db = reference⦄ user_id encrypted s).0 ≡ ok tt)
      × Pends (keep_secret ⦃db = reference⦄ user_id encrypted s).1
  unfolding keep_secret ◌>>=◌
  keep_secret-Pends = rw off (refl, pends _ refl)

  pending_status :
      (t : ServerStore)
      → Pends t
      → get_status ⦃db = reference⦄ user_id t
        ≡ record { enabled = false; enrollment_pending = true; recovery_codes_remaining = 0 }
  unfolding get_status
  pending_status t (r, found, unset) = rw (found, unset, unset_none r.enabled_at unset) refl
    where
      unset_none : (o : Option ℕ) → is_some o ≡ false → is_none o ≡ true
      unset_none none e = refl
      unset_none (some n) e = ground arith

  start-Pends :
      (new : NewSecret) (email : String)
      → new.encrypted ≡ encrypted
      → ((start ⦃db = reference⦄ new user_id email s).0 ≡ ok (shown new email))
        × Pends (start ⦃db = reference⦄ new user_id email s).1
  unfolding start ◌>>=◌ pure
  start-Pends new email e =
      rw e (rolled (keep_secret ⦃db = reference⦄ user_id encrypted s) keep_secret-Pends)
    where
      rolled :
          (r : Result ServerError (Unit {0}) × ServerStore)
          → (r.0 ≡ ok tt) × Pends r.1
          → ((after (rollback s r).0 (λ u. pure (shown new email)) (rollback s r).1).0
              ≡ ok (shown new email))
            × Pends (after (rollback s r).0 (λ u. pure (shown new email)) (rollback s r).1).1
      rolled (ok u, t) (h, p) = (refl, p)
      rolled (err d, t) (h, p) = ground arith

module _ ⦃db : Prisma⦄ (l : IsDocumented db) where
  -- Starting an enrolment, for whatever user, never touches a factor that is enabled: the row is
  -- found as it was, with its secret and its last time step.
  pub start_keeps_enabled :
      (new : NewSecret) (user_id email other : String) (r : UserMfaTotp) (s : ServerStore)
      → find_by (is_factor_of other) s.mfa_totps ≡ some r
      → is_some r.enabled_at ≡ true
      → find_by (is_factor_of other) (start new user_id email s).1.mfa_totps ≡ some r
  unfolding start
  start_keeps_enabled new user_id email other r s found on = rw (documented l) (
      Moves-rest (Keeps-preorder (Found user_id new.encrypted other r s found on))
        (transaction ⦃db = reference⦄ (keep_secret ⦃db = reference⦄ user_id new.encrypted)) _ s
        (λ u. search (Keeps-preorder, moves_rules))
        (either_way (Found user_id new.encrypted other r s found on)
          (keep_secret ⦃db = reference⦄ user_id new.encrypted) s found
          (keep_secret-Found user_id new.encrypted other r s found on)))

  -- A user whose factor is off can start an enrolment: it succeeds, and the status is then that one
  -- is pending.
  pub start_pends :
      (new : NewSecret) (user_id email : String) (s : ServerStore)
      → (get_status user_id s).enabled ≡ false
      → ((start new user_id email s).0 ≡ ok (shown new email))
        × (get_status user_id (start new user_id email s).1
            ≡ record { enabled = false; enrollment_pending = true; recovery_codes_remaining = 0 })
  unfolding get_status
  start_pends new user_id email s off =
      let (done, p) =
        start-Pends user_id new.encrypted s (rw (documented l) at off) new email refl in
      rw (documented l) (
        done,
        pending_status user_id new.encrypted s (rw (documented l) at off)
            (start ⦃db = reference⦄ new user_id email s).1 p,
      )
