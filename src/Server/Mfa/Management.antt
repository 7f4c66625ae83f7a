-- ===== src/Server/Mfa/Management.antt =====
-- `MfaManagementService` of auth-provider/server/src/mfa/mfa-management.service.ts.
use seleksi2_labpro.Prelude.{
  ℕ, String, Bool, not, ◌&&◌, ◌||◌, List, Option, none, some, ◌==◌, ◌===◌, if◌then◌else◌, ltb,
  is_none, is_some, none_or, pure, throw, gets, or_throw, throw_if, modify, Result, ok, err, ◌>>=◌,
  ◌>>◌,
}
use seleksi2_labpro.Database.{Prisma, find_one, delete_many, transaction}
use seleksi2_labpro.Schema.Accounts.{User, is_enabled}
use seleksi2_labpro.Schema.Sessions.{UserMfaTotp, MfaRecoveryCode, MfaLoginChallenge, AuditLog}
use seleksi2_labpro.Server.Store.{
  ServerStore, ServerError, unauthorized, conflict, mfa_race, Handler, update_totps,
  update_recovery_codes, update_challenges, audited,
}
use seleksi2_labpro.Server.Runtime.{Runtime, Call}
use seleksi2_labpro.Server.Mfa.{
  Factor, time_step, recovery, is_code_open, is_step_open, close_challenge, factor_name,
}
use seleksi2_labpro.Server.Mfa.Codes.{is_totp_code, hash_recovery_code}
use seleksi2_labpro.Server.Mfa.Recovery.{
  DrawnCode, raw_codes, code_rows, replace_codes, without_codes,
}
use seleksi2_labpro.Server.Mfa.Enrollment.{factor_of, is_enabled_factor, accepted_step}

abbrev recovery_regenerated : Call → String → Factor → AuditLog
recovery_regenerated c user_id f = record {
  event_type = "mfa_recovery_regenerated";
  actor_id = some user_id;
  user_id = some user_id;
  application_id = none;
  session_id = none;
  result = "SUCCESS";
  detail = some (factor_name f);
  ip_address = c.ip_address;
}

abbrev disabled : Call → String → AuditLog
disabled c user_id = record {
  event_type = "mfa_disabled";
  actor_id = some user_id;
  user_id = some user_id;
  application_id = none;
  session_id = none;
  result = "SUCCESS";
  detail = some "self_service";
  ip_address = c.ip_address;
}

abbrev pub invalid_reauthentication : ServerError
invalid_reauthentication = unauthorized "MFA_REAUTHENTICATION_FAILED"

abbrev pub not_enabled : ServerError
not_enabled = conflict "MFA_NOT_ENABLED"

-- The factor that may be removed, and the challenges that are closed with it.
abbrev pub is_removable : String → UserMfaTotp → Bool
is_removable user_id r = r.user_id === user_id && is_some r.enabled_at

abbrev pub is_open_of : String → MfaLoginChallenge → Bool
is_open_of user_id r = r.user_id === user_id && is_none r.used_at

-- A race that was lost is a reauthentication that failed.
abbrev pub no_race : ServerError → ServerError
no_race mfa_race = invalid_reauthentication
no_race e = e

abbrev pub or_fail : {A : Type 0} → Result ServerError A → Handler A
or_fail (ok a) = pure a
or_fail (err e) = throw (no_race e)

-- The `try` around a transaction.
unfoldable pub catch_race : {A : Type 0} → Handler A → Handler A
catch_race m s = let (r, s') = m s in or_fail r s'

module _ ⦃db : Prisma⦄ (rt : Runtime) (c : Call) where
  -- The identifier of the unused code that has the hash.
  abbrev find_recovery_code : String → Option String → ServerStore → Option String
  find_recovery_code user_id none s = none
  find_recovery_code user_id (some h) s =
      elim (find_one
        (λ (r : MfaRecoveryCode). r.user_id === user_id && r.code_hash === h && is_none r.used_at)
        s.recovery_codes) [ none ↦ none | some r ↦ some r.id ]

  abbrev fresh_step : UserMfaTotp → Option ℕ → Option Factor
  fresh_step mfa none = none
  fresh_step mfa (some n) =
      if none_or (λ last. ltb last n) mfa.last_used_time_step then some (time_step n) else none

  abbrev recovery_factor : Option String → Option Factor
  recovery_factor none = none
  recovery_factor (some id) = some (recovery id)

  unfoldable pub proved : String → String → UserMfaTotp → ServerStore → Option Factor
  unfolding is_totp_code hash_recovery_code
  proved user_id code mfa s =
      if is_totp_code code
      then fresh_step mfa (accepted_step rt c (rt.decrypt mfa.secret user_id) code)
      else recovery_factor (find_recovery_code user_id (hash_recovery_code rt user_id code) s)

  -- `verifyReauthentication`. Its readings of the user and of the factor are one.
  unfoldable pub verify_reauthentication : String → String → String → Handler Factor
  unfolding proved
  verify_reauthentication user_id password code = do
    found ← gets (λ s. find_one (λ (u : User). u.id === user_id) s.users)
    user ← or_throw found not_enabled
    enrolled ← gets (factor_of user_id)
    mfa ← or_throw enrolled not_enabled
    throw_if (not (is_enabled user.status) || not (is_enabled_factor mfa)) not_enabled
    throw_if (not (rt.verify_password user.password_hash password)) invalid_reauthentication
    factor ← gets (proved user_id code mfa)
    or_throw factor invalid_reauthentication

  abbrev write_factor : String → Factor → Handler ℕ
  write_factor user_id (recovery id) =
      update_recovery_codes (is_code_open id user_id) (λ r. record r { used_at = some c.now })
  write_factor user_id (time_step step) =
      update_totps (is_step_open user_id step) (λ r. record r { last_used_time_step = some step })

  -- `claimFactor`
  unfoldable pub use_factor : String → Factor → Handler (Unit {0})
  unfolding update_recovery_codes update_totps
  use_factor user_id factor = do
    claimed ← write_factor user_id factor
    throw_if (not (claimed == 1)) mfa_race

  -- The callback of `regenerateRecoveryCodes`'s transaction.
  unfoldable pub exchange_codes : String → Factor → List DrawnCode → Handler (Unit {0})
  unfolding use_factor replace_codes
  exchange_codes user_id factor drawn = do
    use_factor user_id factor
    replace_codes user_id (code_rows rt user_id drawn)
    modify (audited (recovery_regenerated c user_id factor))

  -- `regenerateRecoveryCodes`
  unfoldable pub regenerate_recovery_codes :
      String → String → String → List DrawnCode → Handler (List String)
  unfolding verify_reauthentication exchange_codes catch_race
  regenerate_recovery_codes user_id password code drawn = do
    factor ← verify_reauthentication user_id password code
    catch_race (transaction (exchange_codes user_id factor drawn))
    pure (raw_codes drawn)

  -- `userMfaTotp.deleteMany`
  unfoldable pub delete_factor : String → Handler ℕ
  delete_factor user_id s =
      let (t, n) = delete_many (is_removable user_id) s.mfa_totps in
      (ok n, record s { mfa_totps = t })

  -- The callback of `disable`'s transaction, behind `claimFactor`.
  unfoldable pub clear_factor : String → Handler (Unit {0})
  unfolding delete_factor update_challenges
  clear_factor user_id = do
    modify (without_codes user_id)
    removed ← delete_factor user_id
    throw_if (not (removed == 1)) mfa_race
    closed ← update_challenges (is_open_of user_id) (close_challenge c.now)
    modify (audited (disabled c user_id))

  -- That callback.
  unfoldable pub remove_factor : String → Factor → Handler (Unit {0})
  unfolding use_factor clear_factor
  remove_factor user_id factor = do use_factor user_id factor; clear_factor user_id

  -- `disable`
  unfoldable pub disable : String → String → String → Handler (Unit {0})
  unfolding verify_reauthentication remove_factor catch_race
  disable user_id password code = do
    factor ← verify_reauthentication user_id password code
    catch_race (transaction (remove_factor user_id factor))
