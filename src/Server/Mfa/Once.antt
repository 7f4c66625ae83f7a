-- ===== src/Server/Mfa/Once.antt =====
-- A challenge is completed at most once (mfa-challenge.service.ts).

use seleksi2_labpro.Prelude.{
  ap, ◌≢◌, same_text, ℕ, ◌≡◌, refl, sym, subst, ◌∙◌, String, Bool, true, false, not, ◌&&◌, Option,
  none, some, List, ok, err, Result, arith, Bool-cases, inl, inr, is_some, find_by, update_where,
  after, ◌>>=◌, modify, if◌then◌else◌, ◌===◌,
}
use seleksi2_labpro.Prelude.Moves.{Moves, IsPreorder, Moves-modify, moves_rules}
use seleksi2_labpro.Prelude.Ensures.{Ensures, Ensures-then_throw}
use seleksi2_labpro.Database.{Prisma, reference, IsDocumented, documented, transaction, rollback}
use seleksi2_labpro.Database.Rows.{find_by-update_where}
use seleksi2_labpro.Schema.Accounts.{User}
use seleksi2_labpro.Schema.Sessions.{
  MfaLoginChallenge, MfaLoginIntent, UserMfaTotp, MfaRecoveryCode, SsoSession, AuditLog,
}
use seleksi2_labpro.Server.Store.{
  ServerStore, ServerError, update_totps, update_recovery_codes, create_session, audited,
  unauthorized, mfa_race, bad_request, token_request, user_info, authorization_request,
  unique_constraint, not_found, conflict, record_not_found, Handler,
}
use seleksi2_labpro.Server.Runtime.{Runtime, Settings, Call, hash_secret}
use seleksi2_labpro.Server.Access.{SessionUser, issue, can_access}
use seleksi2_labpro.Server.Mfa.{
  CompletedMfaChallenge, Factor, complete, finish, seal, claim_factor, time_step, recovery, reject,
  is_token_hash, is_pending, close_challenge, is_acceptable, proved_factor, active_user,
  same_intent, catch_race, or_reject, complete_with, complete_for, complete_found, session_user,
}

abbrev pub IsUsed : String → List MfaLoginChallenge → Type 0
IsUsed h t =
    (r : MfaLoginChallenge) × (find_by (is_token_hash h) t ≡ some r) × (is_some r.used_at ≡ true)

-- The table of challenges is left alone.
abbrev pub Spares : ServerStore → ServerStore → Type 0
Spares s s' = s'.mfa_challenges ≡ s.mfa_challenges

Spares-preorder : IsPreorder Spares
Spares-preorder = record { stays = λ s. refl; joins = λ s t u h k. k ∙ h }

Spares-totps :
    (p : UserMfaTotp → Bool) (f : UserMfaTotp → UserMfaTotp)
    → Moves Spares (update_totps ⦃db = reference⦄ p f)
unfolding update_totps
Spares-totps p f = record { at = λ s. refl }

Spares-recovery_codes :
    (p : MfaRecoveryCode → Bool) (f : MfaRecoveryCode → MfaRecoveryCode)
    → Moves Spares (update_recovery_codes ⦃db = reference⦄ p f)
unfolding update_recovery_codes
Spares-recovery_codes p f = record { at = λ s. refl }

Spares-sessions :
    (t : List SsoSession)
    → Moves Spares (modify {E = ServerError} (λ s. record s { sso_sessions = t }))
Spares-sessions t = Moves-modify Spares-preorder _ (λ s. refl)

Spares-audited :
    (a : AuditLog) → Moves Spares (modify {E = ServerError} (audited ⦃db = reference⦄ a))
Spares-audited a = Moves-modify Spares-preorder _ (λ s. refl)

ruleset spares_rules = (
  Spares-preorder, moves_rules, Spares-totps, Spares-recovery_codes, Spares-sessions,
  Spares-audited,
)

module _ (rt : Runtime) (cfg : Settings) (c : Call) where
  claim_factor-Spares :
      (user_id : String) (f : Factor)
      → Moves Spares (claim_factor ⦃db = reference⦄ rt cfg c user_id f)
  unfolding claim_factor
  claim_factor-Spares user_id (time_step n) = search spares_rules
  claim_factor-Spares user_id (recovery id) = search spares_rules

  create_session-Spares :
      (p : SsoSession → Bool) (r : SsoSession) → Moves Spares (create_session ⦃db = reference⦄ p r)
  unfolding create_session
  create_session-Spares p r = search spares_rules

  issue-Spares :
      (user : SessionUser) (m : String) → Moves Spares (issue ⦃db = reference⦄ rt cfg c user m)
  unfolding issue
  issue-Spares user m = search (spares_rules, create_session-Spares)

  pub seal-Spares :
      (ch : MfaLoginChallenge) (user : SessionUser) (f : Factor) (n : ℕ)
      → Moves Spares (seal ⦃db = reference⦄ rt cfg c ch user f n)
  unfolding seal
  seal-Spares ch user f n = search (spares_rules, claim_factor-Spares, issue-Spares) depth 12

-- What a completed challenge is: it was unused, and is used.
abbrev pub Consumes : Runtime → String → ServerStore → ServerStore → Type 0
Consumes rt token s s' =
    (¬ IsUsed (hash_secret rt token) s.mfa_challenges)
    × IsUsed (hash_secret rt token) s'.mfa_challenges

reject-Consumes :
    (rt : Runtime) (cfg : Settings) (c : Call) (token : String) (o : Option MfaLoginChallenge)
    → Ensures (Consumes rt token) (reject ⦃db = reference⦄ rt cfg c {A = CompletedMfaChallenge} o)
unfolding reject ◌>>=◌
reject-Consumes rt cfg c token none = record { at = λ s v x. ground arith }
reject-Consumes rt cfg c token (some ch) = Ensures-then_throw _ _

module _ (rt : Runtime) (cfg : Settings) (c : Call) (token : String) (s : ServerStore)
    (ch : MfaLoginChallenge) (user : User) (mfa : UserMfaTotp) (intents : List MfaLoginIntent)
    (may_administrate : Bool)
    (found : find_by (is_token_hash (hash_secret rt token)) s.mfa_challenges ≡ some ch)
    (owner : find_by (λ (u : User). u.id === ch.user_id) s.users ≡ some user)
    (fits : is_acceptable ⦃db = reference⦄ rt cfg c ch user mfa intents may_administrate
      ≡ true) where
  unused : ¬ IsUsed (hash_secret rt token) s.mfa_challenges
  unfolding is_acceptable
  unused (r, here, used) = ground arith

  is_claimed :
      is_pending ch c.now cfg.mfa_challenge_max_attempts
        (active_user ⦃db = reference⦄ rt cfg c s)
        ch
      ≡ true
  unfolding is_acceptable
  is_claimed = ground (arith, same_text ch.id)

  claimed_row :
      find_by (is_token_hash (hash_secret rt token)) (
        update_where
          (is_pending ch c.now cfg.mfa_challenge_max_attempts
            (active_user ⦃db = reference⦄ rt cfg c s))
          (close_challenge c.now)
          s.mfa_challenges)
      ≡ some (close_challenge c.now ch)
  claimed_row = ground (
    arith,
    is_claimed,
    find_by-update_where (is_token_hash (hash_secret rt token))
        (is_pending ch c.now cfg.mfa_challenge_max_attempts
          (active_user ⦃db = reference⦄ rt cfg c s))
        (close_challenge c.now) s.mfa_challenges (λ x. refl),
  )

  finish-Consumes :
      (su : SessionUser) (f : Factor) (v : CompletedMfaChallenge)
      → (finish ⦃db = reference⦄ rt cfg c ch su f s).0 ≡ ok v
      → Consumes rt token s (finish ⦃db = reference⦄ rt cfg c ch su f s).1
  unfolding finish ◌>>=◌
  finish-Consumes su f v =
      passed
        (same_intent ch.intent MfaLoginIntent.admin
          && not (can_access ⦃db = reference⦄ ch.user_id s))
        _
        (
          unused,
          (
            close_challenge c.now ch,
            ap (find_by (is_token_hash (hash_secret rt token)))
                  ((seal-Spares rt cfg c ch su f _).at _)
                ∙ claimed_row,
            refl,
          ),
        )
    where
      passed :
          (b : Bool) (m : Handler CompletedMfaChallenge)
          → Consumes rt token s (m s).1
          → (after (if b then err mfa_race else ok tt) (λ (u : Unit {0}). m) s).0 ≡ ok v
          → Consumes rt token s
              (after (if b then err mfa_race else ok tt) (λ (u : Unit {0}). m) s).1
      passed true m h x = ground arith
      passed false m h x = h

  transaction-Consumes :
      (su : SessionUser) (f : Factor) (v : CompletedMfaChallenge)
      → (catch_race ⦃db = reference⦄ rt cfg c ch
          (transaction ⦃db = reference⦄ (finish ⦃db = reference⦄ rt cfg c ch su f))
          s).0
        ≡ ok v
      → Consumes rt token s
          (catch_race ⦃db = reference⦄ rt cfg c ch
            (transaction ⦃db = reference⦄ (finish ⦃db = reference⦄ rt cfg c ch su f))
            s).1
  unfolding ◌>>=◌
  transaction-Consumes su f v =
      caught (finish ⦃db = reference⦄ rt cfg c ch su f s) (finish-Consumes su f)
    where
      caught :
          (r : Result ServerError CompletedMfaChallenge × ServerStore)
          → ((w : CompletedMfaChallenge) → r.0 ≡ ok w → Consumes rt token s r.1)
          → (or_reject ⦃db = reference⦄ rt cfg c ch (rollback s r).0 (rollback s r).1).0 ≡ ok v
          → Consumes rt token s
              (or_reject ⦃db = reference⦄ rt cfg c ch (rollback s r).0 (rollback s r).1).1
      caught (ok w, t) h x = h w refl
      caught (err mfa_race, t) h x = (reject-Consumes rt cfg c token (some ch)).at s v x
      caught (err (unauthorized m), t) h x = ground arith
      caught (err (bad_request m), t) h x = ground arith
      caught (err (token_request m), t) h x = ground arith
      caught (err user_info, t) h x = ground arith
      caught (err (authorization_request m o p), t) h x = ground arith
      caught (err (not_found m), t) h x = ground arith
      caught (err (conflict m), t) h x = ground arith
      caught (err record_not_found, t) h x = ground arith
      caught (err unique_constraint, t) h x = ground arith

  with_factor :
      (admin : Bool) (o : Option Factor) (v : CompletedMfaChallenge)
      → (complete_with ⦃db = reference⦄ rt cfg c ch user admin o s).0 ≡ ok v
      → Consumes rt token s (complete_with ⦃db = reference⦄ rt cfg c ch user admin o s).1
  with_factor admin none v x = (reject-Consumes rt cfg c token (some ch)).at s v x
  with_factor admin (some f) v x =
      transaction-Consumes (session_user ⦃db = reference⦄ rt cfg c user admin) f v x

module _ (rt : Runtime) (cfg : Settings) (c : Call) (token code : String)
    (intents : List MfaLoginIntent) (s : ServerStore) where
  for_owner :
      (ch : MfaLoginChallenge) (owner : Option User) (factor : Option UserMfaTotp)
      → find_by (is_token_hash (hash_secret rt token)) s.mfa_challenges ≡ some ch
      → find_by (λ (u : User). u.id === ch.user_id) s.users ≡ owner
      → (v : CompletedMfaChallenge)
      → (complete_for ⦃db = reference⦄ rt cfg c ch code intents s owner factor s).0 ≡ ok v
      → Consumes rt token s
          (complete_for ⦃db = reference⦄ rt cfg c ch code intents s owner factor s).1
  for_owner ch (some user) (some mfa) found owner v =
      elim (Bool-cases (
        is_acceptable ⦃db = reference⦄ rt cfg c ch user mfa intents
          (can_access ⦃db = reference⦄ ch.user_id s))) [
            | inl fits ↦ rw fits (
                with_factor rt cfg c token s ch user mfa intents _ found owner fits _
                  (proved_factor ⦃db = reference⦄ rt cfg c ch mfa code s) v)
            | inr unfit ↦ rw unfit (λ x. (reject-Consumes rt cfg c token (some ch)).at s v x)
          ]
  for_owner ch none factor found owner v = λ x. (reject-Consumes rt cfg c token (some ch)).at s v x
  for_owner ch (some user) none found owner v =
      λ x. (reject-Consumes rt cfg c token (some ch)).at s v x

  complete-Consumes :
      (v : CompletedMfaChallenge)
      → (complete ⦃db = reference⦄ rt cfg c token code intents s).0 ≡ ok v
      → Consumes rt token s (complete ⦃db = reference⦄ rt cfg c token code intents s).1
  unfolding complete
  complete-Consumes v =
      for_found (find_by (is_token_hash (hash_secret rt token)) s.mfa_challenges) refl
    where
      for_found :
          (o : Option MfaLoginChallenge)
          → find_by (is_token_hash (hash_secret rt token)) s.mfa_challenges ≡ o
          → (complete_found ⦃db = reference⦄ rt cfg c code intents s o s).0 ≡ ok v
          → Consumes rt token s (complete_found ⦃db = reference⦄ rt cfg c code intents s o s).1
      for_found none e x = (reject-Consumes rt cfg c token none).at s v x
      for_found (some ch) e x = for_owner ch _ _ e refl v x

module _ ⦃db : Prisma⦄ (l : IsDocumented db) where
  -- A challenge that was completed once is never completed again, with whatever code, as long as
  -- the table of challenges is the one that the completion left.
  pub complete_once :
      (rt : Runtime) (cfg : Settings) (c c' : Call) (token code code' : String)
      (intents intents' : List MfaLoginIntent) (s s' : ServerStore) (v v' : CompletedMfaChallenge)
      → (complete rt cfg c token code intents s).0 ≡ ok v
      → s'.mfa_challenges ≡ (complete rt cfg c token code intents s).1.mfa_challenges
      → (complete rt cfg c' token code' intents' s').0 ≢ ok v'
  complete_once rt cfg c c' token code code' intents intents' s s' v v' first kept second =
      (complete-Consumes rt cfg c' token code' intents' s' v' (rw (documented l) at second)).0 (
        subst (IsUsed (hash_secret rt token)) (sym (rw (documented l) at kept))
          (complete-Consumes rt cfg c token code intents s v (rw (documented l) at first)).1)
