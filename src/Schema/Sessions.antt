-- ===== src/Schema/Sessions.antt =====
-- Central sessions, authorization codes, access tokens, second factors and the audit log.
use seleksi2_labpro.Prelude.{ℕ, String, Bool, true, false, List, Option}

-- `SessionStatus` and `AccessTokenStatus`.
pub data SessionStatus : Type 0 where
  active expired revoked : SessionStatus

abbrev pub is_active : SessionStatus → Bool
is_active active = true
is_active _ = false

pub record SsoSession : Type 0 where
  pub id : String
  pub user_id : String
  pub session_token_hash : String
  pub status : SessionStatus
  pub created_at : ℕ
  pub expires_at : ℕ
  pub last_activity_at : Option ℕ
  pub revoked_at : Option ℕ
  pub revoke_reason : Option String
  pub ip_address : Option String
  pub user_agent : Option String

-- `code_challenge_method` has the one value S256.
pub record AuthorizationCode : Type 0 where
  pub id : String
  pub code_hash : String
  pub user_id : String
  pub application_id : String
  pub sso_session_id : String
  pub redirect_uri : String
  pub code_challenge : String
  pub expires_at : ℕ
  pub used_at : Option ℕ

-- `scopes` is a JSON column: `none` where it is not an array of texts.
pub record AccessToken : Type 0 where
  pub id : String
  pub token_hash : String
  pub user_id : String
  pub application_id : String
  pub sso_session_id : String
  pub scopes : Option (List String)
  pub status : SessionStatus
  pub expires_at : ℕ
  pub revoked_at : Option ℕ

-- The encrypted secret is one text.
pub record UserMfaTotp : Type 0 where
  pub user_id : String
  pub secret : String
  pub enabled_at : Option ℕ
  pub last_used_time_step : Option ℕ

pub data MfaLoginIntent : Type 0 where
  api oauth admin : MfaLoginIntent

pub record MfaLoginChallenge : Type 0 where
  pub id : String
  pub token_hash : String
  pub user_id : String
  pub intent : MfaLoginIntent
  pub return_to : Option String
  pub attempt_count : ℕ
  pub expires_at : ℕ
  pub used_at : Option ℕ

pub record MfaRecoveryCode : Type 0 where
  pub id : String
  pub user_id : String
  pub code_hash : String
  pub used_at : Option ℕ

-- `metadata` is left out, but for its `reason`, `authenticationMethod` or `factor`, as `detail`.
pub record AuditLog : Type 0 where
  pub event_type : String
  pub actor_id : Option String
  pub user_id : Option String
  pub application_id : Option String
  pub session_id : Option String
  pub result : String
  pub detail : Option String
  pub ip_address : Option String
