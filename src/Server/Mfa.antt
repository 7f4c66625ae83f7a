-- ===== src/Server/Mfa.antt =====
-- `MfaChallengeService` of auth-provider/server/src/mfa/mfa-challenge.service.ts, with the parts of
-- mfa-recovery-code.service.ts and totp.service.ts that it calls.
pub mod Codes
pub mod Once
pub mod Attempts
pub mod Recovery
pub mod Enrollment
pub mod Management
pub mod Disabled
pub mod Replaced
pub mod Enrolled
pub mod Started
pub mod Accepted
mod Tests
use Prim.Native.String
use Prim.Native.Char.{code}
use seleksi2_labpro.Prelude.{
  ℕ, ◌+◌, ◌-◌, ◌*◌, ◌/◌, String, Bool, true, false, ◌&&◌, ◌||◌, not, List, [], ◌∷◌, Option, none,
  some, leb, ltb, ◌==◌, ◌===◌, if◌then◌else◌, length, is_none, is_some, some_and, none_or, any,
  Result, ok, err, Exec, pure, throw, gets, or_throw, throw_if, modify, ◌>>=◌, ◌>>◌,
}
use seleksi2_labpro.Database.{Prisma, find_one, transaction}
use seleksi2_labpro.Schema.Accounts.{User, is_enabled}
use seleksi2_labpro.Schema.Sessions.{
  UserMfaTotp, MfaLoginIntent, MfaLoginChallenge, MfaRecoveryCode, AuditLog,
}
use seleksi2_labpro.Shared.Pattern.{codes}
use seleksi2_labpro.Server.Store.{
  ServerStore, ServerError, unauthorized, mfa_race, Handler, update_challenges,
  update_recovery_codes, update_totps, create_challenge, audited,
}
use seleksi2_labpro.Server.Runtime.{Runtime, Settings, Call, Delta, hash_secret, every, is_figure}
use seleksi2_labpro.Server.Mfa.Codes.{is_totp_code, validate_token, hash_recovery_code}
use seleksi2_labpro.Server.Access.{SessionUser, AuthenticatedLoginResult, can_access, issue}

pub record StartedMfaChallenge : Type 0 where
  pub challenge_token : String
  pub expires_at : ℕ

pub record CompletedMfaChallenge : Type 0 where
  pub login : AuthenticatedLoginResult
  pub intent : MfaLoginIntent
  pub return_to : Option String

-- `===` on intents.
abbrev pub same_intent : MfaLoginIntent → MfaLoginIntent → Bool
same_intent MfaLoginIntent.api MfaLoginIntent.api = true
same_intent MfaLoginIntent.oauth MfaLoginIntent.oauth = true
same_intent MfaLoginIntent.admin MfaLoginIntent.admin = true
same_intent _ _ = false

-- The factor that a code proves: a time step or a recovery code's identifier.
pub data Factor : Type 0 where
  time_step : ℕ → Factor
  recovery : String → Factor

abbrev pub expires_at_of : ℕ → ℕ → ℕ
expires_at_of now ttl_seconds = now + ttl_seconds * 1000

abbrev mfa_failed : Call → String → AuditLog
mfa_failed c user_id = record {
  event_type = "mfa_failed";
  actor_id = none;
  user_id = some user_id;
  application_id = none;
  session_id = none;
  result = "FAILED";
  detail = some "verification_rejected";
  ip_address = c.ip_address;
}

abbrev mfa_success : Call → String → String → AuditLog
mfa_success c user_id factor = record {
  event_type = "mfa_success";
  actor_id = some user_id;
  user_id = some user_id;
  application_id = none;
  session_id = some c.fresh_id;
  result = "SUCCESS";
  detail = some factor;
  ip_address = c.ip_address;
}

abbrev pub method_of : Factor → String
method_of (time_step n) = "password_totp"
method_of (recovery id) = "password_recovery_code"

abbrev pub factor_name : Factor → String
factor_name (time_step n) = "totp"
factor_name (recovery id) = "recovery_code"

-- The conditions of the writes that use a challenge and a factor up.
abbrev pub is_pending : MfaLoginChallenge → ℕ → ℕ → (String → Bool) → MfaLoginChallenge → Bool
is_pending ch now max_attempts user_active r =
    r.id === ch.id
    && is_none r.used_at
    && ltb now r.expires_at
    && ltb r.attempt_count max_attempts
    && user_active r.user_id

abbrev pub is_attemptable : MfaLoginChallenge → ℕ → MfaLoginChallenge → Bool
is_attemptable ch max_attempts r =
    r.id === ch.id && is_none r.used_at && ltb r.attempt_count max_attempts

abbrev pub is_step_open : String → ℕ → UserMfaTotp → Bool
is_step_open user_id step r =
    r.user_id === user_id
    && is_some r.enabled_at
    && none_or (λ last. ltb last step) r.last_used_time_step

abbrev pub is_code_open : String → String → MfaRecoveryCode → Bool
is_code_open id user_id r = r.id === id && r.user_id === user_id && is_none r.used_at

abbrev pub close_challenge : ℕ → MfaLoginChallenge → MfaLoginChallenge
close_challenge now r = record r { used_at = some now }

abbrev pub count_attempt : MfaLoginChallenge → MfaLoginChallenge
count_attempt r = record r { attempt_count = r.attempt_count + 1 }

abbrev pub is_token_hash : String → MfaLoginChallenge → Bool
is_token_hash h r = r.token_hash === h

abbrev new_challenge :
    Runtime → Settings → Call → String → MfaLoginIntent → Option String → MfaLoginChallenge
new_challenge rt cfg c user_id intent return_to = record {
  id = c.fresh_id;
  token_hash = hash_secret rt c.fresh_token;
  user_id = user_id;
  intent = intent;
  return_to = return_to;
  attempt_count = 0;
  expires_at = expires_at_of c.now cfg.mfa_challenge_ttl_seconds;
  used_at = none;
}

module _ ⦃db : Prisma⦄ (rt : Runtime) (cfg : Settings) (c : Call) where
  -- The callback of `start`'s transaction.
  pub open_challenge : String → MfaLoginIntent → Option String → Handler (Unit {0})
  unfolding update_challenges create_challenge
  open_challenge user_id intent return_to = do
    closed ←
        update_challenges (λ r. r.user_id === user_id && is_none r.used_at) (close_challenge c.now)
    create_challenge (λ r. r.token_hash === hash_secret rt c.fresh_token)
        (new_challenge rt cfg c user_id intent return_to)

  -- `start`
  unfoldable pub start : String → MfaLoginIntent → Option String → Handler StartedMfaChallenge
  unfolding open_challenge
  start user_id intent return_to = do
    transaction (open_challenge user_id intent return_to)
    pure (record {
      challenge_token = c.fresh_token;
      expires_at = expires_at_of c.now cfg.mfa_challenge_ttl_seconds;
    })

  -- The callback of `recordFailure`'s transaction.
  unfoldable pub note_failure : MfaLoginChallenge → Handler (Unit {0})
  unfolding update_challenges
  note_failure ch = do
    counted ←
        (if is_none ch.used_at && ltb c.now ch.expires_at
          then update_challenges (is_attemptable ch cfg.mfa_challenge_max_attempts) count_attempt
          else pure 0)
    modify (audited (mfa_failed c ch.user_id))

  -- `recordFailure` and the exception behind it.
  unfoldable pub reject : {A : Type 0} → Option MfaLoginChallenge → Handler A
  unfolding note_failure
  reject none = throw (unauthorized "MFA_VERIFICATION_FAILED")
  reject (some ch) =
      transaction (note_failure ch) >>= λ _. throw (unauthorized "MFA_VERIFICATION_FAILED")

  abbrev pub active_user : ServerStore → String → Bool
  active_user s id =
      some_and (λ (u : User). is_enabled u.status) (find_one (λ (u : User). u.id === id) s.users)

  -- The write that uses the factor up.
  unfoldable pub claim_factor : String → Factor → Handler ℕ
  unfolding update_recovery_codes update_totps
  claim_factor user_id (recovery id) =
      update_recovery_codes (is_code_open id user_id) (λ r. record r { used_at = some c.now })
  claim_factor user_id (time_step step) =
      update_totps (is_step_open user_id step) (λ r. record r { last_used_time_step = some step })

  -- The callback of `complete`'s transaction, behind the claim of the challenge.
  unfoldable pub seal : MfaLoginChallenge → SessionUser → Factor → ℕ → Handler CompletedMfaChallenge
  unfolding claim_factor issue
  seal ch user factor claimed = do
    factors ← claim_factor ch.user_id factor
    throw_if (not (claimed == 1) || not (factors == 1)) mfa_race
    login ← issue rt cfg c user (method_of factor)
    modify (audited (mfa_success c user.id (factor_name factor)))
    pure (record { login = login; intent = ch.intent; return_to = ch.return_to })

  unfoldable pub finish : MfaLoginChallenge → SessionUser → Factor → Handler CompletedMfaChallenge
  unfolding update_challenges seal can_access
  finish ch user factor = do
    authorized ← gets (can_access ch.user_id)
    throw_if (same_intent ch.intent MfaLoginIntent.admin && not authorized) mfa_race
    users ← gets active_user
    claimed ←
        update_challenges (is_pending ch c.now cfg.mfa_challenge_max_attempts users)
          (close_challenge c.now)
    seal ch user factor claimed

  -- The `catch` around the transaction: a lost race counts as a failure.
  abbrev pub or_reject :
      MfaLoginChallenge → Result ServerError CompletedMfaChallenge → Handler CompletedMfaChallenge
  or_reject ch (ok r) = pure r
  or_reject ch (err mfa_race) = reject (some ch)
  or_reject ch (err e) = throw e

  abbrev pub catch_race :
      MfaLoginChallenge → Handler CompletedMfaChallenge → Handler CompletedMfaChallenge
  catch_race ch m s = let (r, s') = m s in or_reject ch r s'

  abbrev step_of : Option String → String → Option ℕ
  step_of none code = none
  step_of (some secret) code = validate_token rt secret code c.now

  abbrev recovery_of : String → Option String → ServerStore → Option String
  recovery_of user_id none s = none
  recovery_of user_id (some h) s =
      elim (find_one
        (λ (r : MfaRecoveryCode). r.user_id === user_id && r.code_hash === h && is_none r.used_at)
        s.recovery_codes) [ none ↦ none | some r ↦ some r.id ]

  abbrev step_factor : Option ℕ → Option Factor
  step_factor none = none
  step_factor (some n) = some (time_step n)

  abbrev recovery_factor : Option String → Option Factor
  recovery_factor none = none
  recovery_factor (some id) = some (recovery id)

  -- What the code proves; a time step that was used before proves nothing.
  abbrev is_fresh : UserMfaTotp → Factor → Bool
  is_fresh mfa (time_step n) = none_or (λ last. ltb last n) mfa.last_used_time_step
  is_fresh mfa (recovery id) = true

  abbrev fresh_factor : UserMfaTotp → Option Factor → Option Factor
  fresh_factor mfa none = none
  fresh_factor mfa (some f) = if is_fresh mfa f then some f else none

  unfoldable pub proved_factor :
      MfaLoginChallenge → UserMfaTotp → String → ServerStore → Option Factor
  unfolding is_totp_code validate_token hash_recovery_code
  proved_factor ch mfa code s = fresh_factor mfa (
      if is_totp_code code
      then step_factor (step_of (rt.decrypt mfa.secret ch.user_id) code)
      else recovery_factor (recovery_of ch.user_id (hash_recovery_code rt ch.user_id code) s))

  -- The checks before the code is looked at.
  unfoldable pub is_acceptable :
      MfaLoginChallenge → User → UserMfaTotp → List MfaLoginIntent → Bool → Bool
  is_acceptable ch user mfa allowed_intents can_access_control_panel =
      is_none ch.used_at
      && ltb c.now ch.expires_at
      && ltb ch.attempt_count cfg.mfa_challenge_max_attempts
      && any (λ i. same_intent i ch.intent) allowed_intents
      && is_enabled user.status
      && (not (same_intent ch.intent MfaLoginIntent.admin) || can_access_control_panel)
      && is_some mfa.enabled_at

  abbrev pub session_user : User → Bool → SessionUser
  session_user u admin = record {
    id = u.id;
    name = u.name;
    email = u.email;
    can_access_control_panel = admin;
  }

  abbrev pub complete_with :
      MfaLoginChallenge → User → Bool → Option Factor → Handler CompletedMfaChallenge
  complete_with ch user admin none = reject (some ch)
  complete_with ch user admin (some f) =
      catch_race ch (transaction (finish ch (session_user user admin) f))

  -- A user without a second factor, or a row that the foreign key excludes, is turned away too.
  abbrev pub complete_for :
      MfaLoginChallenge
      → String
      → List MfaLoginIntent
      → ServerStore
      → Option User
      → Option UserMfaTotp
      → Handler CompletedMfaChallenge
  complete_for ch code allowed_intents s (some user) (some mfa) =
      if is_acceptable ch user mfa allowed_intents (can_access ch.user_id s)
      then complete_with ch user (can_access ch.user_id s) (proved_factor ch mfa code s)
      else reject (some ch)
  complete_for ch code allowed_intents s _ _ = reject (some ch)

  abbrev pub complete_found :
      String
      → List MfaLoginIntent
      → ServerStore
      → Option MfaLoginChallenge
      → Handler CompletedMfaChallenge
  complete_found code allowed_intents s none = reject none
  complete_found code allowed_intents s (some ch) =
      complete_for ch code allowed_intents s (find_one (λ (u : User). u.id === ch.user_id) s.users)
        (find_one (λ (m : UserMfaTotp). m.user_id === ch.user_id) s.mfa_totps)

  -- `complete`. Its readings are one.
  unfoldable pub complete : String → String → List MfaLoginIntent → Handler CompletedMfaChallenge
  unfolding reject finish proved_factor is_acceptable can_access
  complete challenge_token code allowed_intents s =
      complete_found code allowed_intents s
        (find_one (is_token_hash (hash_secret rt challenge_token)) s.mfa_challenges) s
