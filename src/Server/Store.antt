-- ===== src/Server/Store.antt =====
-- The tables that the server's services work on, and the errors that they throw. A row that another
-- row refers to is there, by the foreign keys of schema.prisma.
use seleksi2_labpro.Prelude.{ℕ, String, Bool, List, Option, Exec, ok, gets, modify, or_throw, ◌>>=◌}
use seleksi2_labpro.Database.{Prisma, update_many, create, add}
use seleksi2_labpro.Schema.Accounts.{
  User, Group, UserGroup, Application, ApplicationRedirectUri, ApplicationGroupPolicy,
}
use seleksi2_labpro.Schema.Sessions.{
  SsoSession, AuthorizationCode, AccessToken, UserMfaTotp, MfaLoginChallenge, MfaRecoveryCode,
  AuditLog,
}
use seleksi2_labpro.Schema.Events.{OutboxEvent}

pub record ServerStore : Type 0 where
  pub users : List User
  pub groups : List Group
  pub user_groups : List UserGroup
  pub applications : List Application
  pub redirect_uris : List ApplicationRedirectUri
  pub policies : List ApplicationGroupPolicy
  pub sso_sessions : List SsoSession
  pub authorization_codes : List AuthorizationCode
  pub access_tokens : List AccessToken
  pub mfa_totps : List UserMfaTotp
  pub mfa_challenges : List MfaLoginChallenge
  pub recovery_codes : List MfaRecoveryCode
  pub audit_logs : List AuditLog
  pub outbox_events : List OutboxEvent

-- `unauthorized`: UnauthorizedException, with the error's code. `token_request`: TokenRequestError,
-- with its code. `authorization_request`: AuthorizationRequestError, with its code and, where the
-- user may be sent back, the redirect URI and the state. `not_found` and `conflict`:
-- NotFoundException and ConflictException, with the error's code. `unique_constraint` and
-- `record_not_found`: Prisma's P2002 and P2025.
pub data ServerError : Type 0 where
  unauthorized : String → ServerError
  bad_request : String → ServerError
  token_request : String → ServerError
  user_info : ServerError
  authorization_request : String → Option String → Option String → ServerError
  mfa_race : ServerError
  not_found : String → ServerError
  conflict : String → ServerError
  record_not_found : ServerError
  unique_constraint : ServerError

abbrev pub Handler : Type 0 → Type 0
Handler A = Exec ServerStore ServerError A

module _ ⦃db : Prisma⦄ where
  -- `ssoSession.updateMany`, and so on for the other tables.
  unfoldable pub update_sessions : (SsoSession → Bool) → (SsoSession → SsoSession) → Handler ℕ
  update_sessions p f s =
      let (t, n) = update_many p f s.sso_sessions in (ok n, record s { sso_sessions = t })

  unfoldable pub update_codes :
      (AuthorizationCode → Bool) → (AuthorizationCode → AuthorizationCode) → Handler ℕ
  update_codes p f s =
      let (t, n) = update_many p f s.authorization_codes in
      (ok n, record s { authorization_codes = t })

  unfoldable pub update_tokens : (AccessToken → Bool) → (AccessToken → AccessToken) → Handler ℕ
  update_tokens p f s =
      let (t, n) = update_many p f s.access_tokens in (ok n, record s { access_tokens = t })

  unfoldable pub update_challenges :
      (MfaLoginChallenge → Bool) → (MfaLoginChallenge → MfaLoginChallenge) → Handler ℕ
  update_challenges p f s =
      let (t, n) = update_many p f s.mfa_challenges in (ok n, record s { mfa_challenges = t })

  unfoldable pub update_recovery_codes :
      (MfaRecoveryCode → Bool) → (MfaRecoveryCode → MfaRecoveryCode) → Handler ℕ
  update_recovery_codes p f s =
      let (t, n) = update_many p f s.recovery_codes in (ok n, record s { recovery_codes = t })

  unfoldable pub update_totps : (UserMfaTotp → Bool) → (UserMfaTotp → UserMfaTotp) → Handler ℕ
  update_totps p f s =
      let (t, n) = update_many p f s.mfa_totps in (ok n, record s { mfa_totps = t })

  -- `create` on a table with a unique column.
  unfoldable pub create_session : (SsoSession → Bool) → SsoSession → Handler (Unit {0})
  create_session clash r = do
    made ← gets (λ s. create clash r s.sso_sessions)
    t ← or_throw made unique_constraint
    modify (λ s. record s { sso_sessions = t })

  unfoldable pub create_code : (AuthorizationCode → Bool) → AuthorizationCode → Handler (Unit {0})
  create_code clash r = do
    made ← gets (λ s. create clash r s.authorization_codes)
    t ← or_throw made unique_constraint
    modify (λ s. record s { authorization_codes = t })

  unfoldable pub create_token : (AccessToken → Bool) → AccessToken → Handler (Unit {0})
  create_token clash r = do
    made ← gets (λ s. create clash r s.access_tokens)
    t ← or_throw made unique_constraint
    modify (λ s. record s { access_tokens = t })

  unfoldable pub create_challenge :
      (MfaLoginChallenge → Bool) → MfaLoginChallenge → Handler (Unit {0})
  create_challenge clash r = do
    made ← gets (λ s. create clash r s.mfa_challenges)
    t ← or_throw made unique_constraint
    modify (λ s. record s { mfa_challenges = t })

  -- `auditLog.create` and `outboxEvent.createMany`, whose keys are new.
  abbrev pub audited : AuditLog → ServerStore → ServerStore
  audited a s = record s { audit_logs = add a s.audit_logs }

  abbrev pub enqueued : OutboxEvent → ServerStore → ServerStore
  enqueued e s = record s { outbox_events = add e s.outbox_events }
