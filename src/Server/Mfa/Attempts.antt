-- ===== src/Server/Mfa/Attempts.antt =====
-- How often a challenge may be tried (mfa-challenge.service.ts).
use seleksi2_labpro.Prelude.{
  ℕ, ◌≤◌, ◌≡◌, sym, subst, String, Bool, true, Option, none, some, List, Result, ok, err, arith,
  modify, All, find_by,
}
use seleksi2_labpro.Prelude.Moves.{Moves, IsPreorder, Moves-modify, Moves-if, moves_rules}
use seleksi2_labpro.Database.{Prisma, reference, IsDocumented, documented, transaction}
use seleksi2_labpro.Database.Transactions.{Moves-transaction}
use seleksi2_labpro.Database.Rows.{All-update_where}
use seleksi2_labpro.Schema.Accounts.{User}
use seleksi2_labpro.Schema.Sessions.{MfaLoginChallenge, MfaLoginIntent, UserMfaTotp, AuditLog}
use seleksi2_labpro.Server.Store.{
  ServerStore, ServerError, Handler, update_challenges, audited, mfa_race, unauthorized,
  bad_request, token_request, user_info, authorization_request, unique_constraint, not_found,
  conflict, record_not_found,
}
use seleksi2_labpro.Server.Runtime.{Runtime, Settings, Call, hash_secret}
use seleksi2_labpro.Server.Access.{SessionUser, can_access}
use seleksi2_labpro.Server.Mfa.{
  CompletedMfaChallenge, Factor, complete, finish, seal, reject, note_failure, is_token_hash,
  is_attemptable, close_challenge, count_attempt, is_acceptable, or_reject, complete_with,
  complete_for, complete_found, session_user,
}
use seleksi2_labpro.Server.Mfa.Once.{seal-Spares}

-- No challenge has been tried more than `n` times.
abbrev pub IsCapped : ℕ → ServerStore → Type 0
IsCapped n s = All (λ (r : MfaLoginChallenge). r.attempt_count ≤ n) s.mfa_challenges

abbrev KeepsCap : ℕ → ServerStore → ServerStore → Type 0
KeepsCap n s s' = IsCapped n s → IsCapped n s'

KeepsCap-preorder : (n : ℕ) → IsPreorder (KeepsCap n)
KeepsCap-preorder n = record { stays = λ s h. h; joins = λ s t u h k x. k (h x) }

module _ (n : ℕ) where
  Cap-update :
      (p : MfaLoginChallenge → Bool) (f : MfaLoginChallenge → MfaLoginChallenge)
      → ((r : MfaLoginChallenge) → p r ≡ true → r.attempt_count ≤ n → (f r).attempt_count ≤ n)
      → Moves (KeepsCap n) (update_challenges ⦃db = reference⦄ p f)
  unfolding update_challenges
  Cap-update p f h = record {
    at = λ s a.
        All-update_where (λ (r : MfaLoginChallenge). r.attempt_count ≤ n) p f s.mfa_challenges h a;
  }

  Cap-count :
      (ch : MfaLoginChallenge)
      → Moves (KeepsCap n) (update_challenges ⦃db = reference⦄ (is_attemptable ch n) count_attempt)
  Cap-count ch = Cap-update _ _ (λ r pass k. ground arith)

  Cap-close :
      (p : MfaLoginChallenge → Bool) (now : ℕ)
      → Moves (KeepsCap n) (update_challenges ⦃db = reference⦄ p (close_challenge now))
  Cap-close p now = Cap-update p _ (λ r pass k. k)

  Cap-audited :
      (a : AuditLog) → Moves (KeepsCap n) (modify {E = ServerError} (audited ⦃db = reference⦄ a))
  Cap-audited a = Moves-modify (KeepsCap-preorder n) _ (λ s h. h)

ruleset cap_rules =
    (KeepsCap-preorder, moves_rules, Moves-transaction, Cap-count, Cap-close, Cap-audited)

module _ (rt : Runtime) (cfg : Settings) (c : Call) where
  abbrev Cap : ServerStore → ServerStore → Type 0
  Cap = KeepsCap cfg.mfa_challenge_max_attempts

  note_failure-Cap :
      (ch : MfaLoginChallenge) → Moves Cap (note_failure ⦃db = reference⦄ rt cfg c ch)
  unfolding note_failure
  note_failure-Cap ch = search cap_rules

  reject-Cap :
      (o : Option MfaLoginChallenge)
      → Moves Cap (reject ⦃db = reference⦄ rt cfg c {A = CompletedMfaChallenge} o)
  unfolding reject
  reject-Cap none = search cap_rules
  reject-Cap (some ch) = search (cap_rules, note_failure-Cap)

  seal-Cap :
      (ch : MfaLoginChallenge) (user : SessionUser) (f : Factor) (n : ℕ)
      → Moves Cap (seal ⦃db = reference⦄ rt cfg c ch user f n)
  seal-Cap ch user f n = record {
    at = λ s h.
        subst (All (λ (r : MfaLoginChallenge). r.attempt_count ≤ cfg.mfa_challenge_max_attempts))
          (sym ((seal-Spares rt cfg c ch user f n).at s)) h;
  }

  finish-Cap :
      (ch : MfaLoginChallenge) (user : SessionUser) (f : Factor)
      → Moves Cap (finish ⦃db = reference⦄ rt cfg c ch user f)
  unfolding finish
  finish-Cap ch user f = search (cap_rules, seal-Cap) depth 8

  or_reject-Cap :
      (ch : MfaLoginChallenge) (r : Result ServerError CompletedMfaChallenge)
      → Moves Cap (or_reject ⦃db = reference⦄ rt cfg c ch r)
  or_reject-Cap ch (ok v) = search cap_rules
  or_reject-Cap ch (err mfa_race) = reject-Cap (some ch)
  or_reject-Cap ch (err (unauthorized m)) = search cap_rules
  or_reject-Cap ch (err (bad_request m)) = search cap_rules
  or_reject-Cap ch (err (token_request m)) = search cap_rules
  or_reject-Cap ch (err user_info) = search cap_rules
  or_reject-Cap ch (err (authorization_request m u v)) = search cap_rules
  or_reject-Cap ch (err (not_found m)) = search cap_rules
  or_reject-Cap ch (err (conflict m)) = search cap_rules
  or_reject-Cap ch (err record_not_found) = search cap_rules
  or_reject-Cap ch (err unique_constraint) = search cap_rules

  complete_with-Cap :
      (ch : MfaLoginChallenge) (user : User) (may_administrate : Bool) (o : Option Factor)
      → Moves Cap (complete_with ⦃db = reference⦄ rt cfg c ch user may_administrate o)
  complete_with-Cap ch user may_administrate none = reject-Cap (some ch)
  complete_with-Cap ch user may_administrate (some f) = record {
    at = λ s h.
        let m : Handler CompletedMfaChallenge = transaction ⦃db = reference⦄ (
          finish ⦃db = reference⦄ rt cfg c ch
            (session_user ⦃db = reference⦄ rt cfg c user may_administrate) f) in
        (or_reject-Cap ch (m s).0).at (m s).1 (
          (Moves-transaction (KeepsCap-preorder cfg.mfa_challenge_max_attempts) _
              (finish-Cap ch _ f)).at
            s h);
  }

  complete_for-Cap :
      (ch : MfaLoginChallenge) (code : String) (intents : List MfaLoginIntent) (s : ServerStore)
      (owner : Option User) (factor : Option UserMfaTotp)
      → Moves Cap (complete_for ⦃db = reference⦄ rt cfg c ch code intents s owner factor)
  complete_for-Cap ch code intents s (some user) (some mfa) =
      Moves-if
        (is_acceptable ⦃db = reference⦄ rt cfg c ch user mfa intents
          (can_access ⦃db = reference⦄ ch.user_id s))
        _ _ (complete_with-Cap ch user _ _) (reject-Cap (some ch))
  complete_for-Cap ch code intents s none factor = reject-Cap (some ch)
  complete_for-Cap ch code intents s (some user) none = reject-Cap (some ch)

  complete_found-Cap :
      (code : String) (intents : List MfaLoginIntent) (s : ServerStore)
      (o : Option MfaLoginChallenge)
      → Moves Cap (complete_found ⦃db = reference⦄ rt cfg c code intents s o)
  complete_found-Cap code intents s none = reject-Cap none
  complete_found-Cap code intents s (some ch) = complete_for-Cap ch code intents s _ _

module _ ⦃db : Prisma⦄ (l : IsDocumented db) where
  -- Completing a challenge, rightly or wrongly, never takes any challenge beyond the configured
  -- number of attempts.
  pub complete-IsCapped :
      (rt : Runtime) (cfg : Settings) (c : Call) (token code : String)
      (intents : List MfaLoginIntent) (s : ServerStore)
      → IsCapped cfg.mfa_challenge_max_attempts s
      → IsCapped cfg.mfa_challenge_max_attempts (complete rt cfg c token code intents s).1
  unfolding complete
  complete-IsCapped rt cfg c token code intents s h = rw (documented l) (
      (complete_found-Cap rt cfg c code intents s
          (find_by (is_token_hash (hash_secret rt token)) s.mfa_challenges)).at
        s h)
