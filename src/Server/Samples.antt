-- ===== src/Server/Samples.antt =====
-- A small organisation for the tests: one user, one application, one session.
use seleksi2_labpro.Prelude.{ℕ, String, [], ◌∷◌, none, some, ◌===◌}
use seleksi2_labpro.Schema.Accounts.{active}
use seleksi2_labpro.Schema.Sessions.{
  SsoSession, AuthorizationCode, AccessToken, MfaLoginChallenge, MfaLoginIntent, SessionStatus,
}
use seleksi2_labpro.Shared.Pattern.{codes}
use seleksi2_labpro.Server.Store.{ServerStore}
use seleksi2_labpro.Server.Runtime.{Runtime, Settings, Call, Delta}

-- Digests and decodings that leave their text as it is.
abbrev pub plain : Runtime
plain = record {
  sha256_hex = λ s. s;
  sha256_base64url = λ s. s;
  bytes_of_hex = codes;
  bytes_of_ascii = codes;
  text_of_base64 = λ s. "app:secret";
  verify_password = λ h p. h === p;
  decrypt = λ s u. some s;
  totp_validate = λ secret token at. some Delta.same;
  parse_url = λ s. none;
  with_code = λ uri code state. uri;
  trim = λ s. s;
  normalize = λ s. s;
  normalize_upper = λ s. s;
  to_iso = λ n. "2026-08-17T09:00:00.000Z";
}

abbrev pub settings : Settings
settings = record {
  access_token_ttl_seconds = 300;
  sso_session_ttl_seconds = 3600;
  authorization_code_ttl_seconds = 60;
  mfa_challenge_ttl_seconds = 300;
  mfa_challenge_max_attempts = 5;
}

abbrev pub call : ℕ → String → Call
call now token = record {
  now = now;
  fresh_token = token;
  fresh_id = token;
  ip_address = none;
  user_agent = none;
}

abbrev pub opaque : String
opaque = "ABCDEFGHIJKLMNOPQRSTUVWXYZabcdefghijklmnopq"

abbrev pub session : SsoSession
session = record {
  id = "session";
  user_id = "user";
  session_token_hash = "cookie";
  status = SessionStatus.active;
  created_at = 0;
  expires_at = 100000;
  last_activity_at = none;
  revoked_at = none;
  revoke_reason = none;
  ip_address = none;
  user_agent = none;
}

abbrev pub code : AuthorizationCode
code = record {
  id = "code";
  code_hash = "the-code";
  user_id = "user";
  application_id = "app";
  sso_session_id = "session";
  redirect_uri = "https://app/callback";
  code_challenge = opaque;
  expires_at = 60000;
  used_at = none;
}

abbrev pub token : AccessToken
token = record {
  id = "token";
  token_hash = opaque;
  user_id = "user";
  application_id = "app";
  sso_session_id = "session";
  scopes = some ("profile" ∷ []);
  status = SessionStatus.active;
  expires_at = 50000;
  revoked_at = none;
}

abbrev pub challenge : MfaLoginChallenge
challenge = record {
  id = "challenge";
  token_hash = "challenge-token";
  user_id = "user";
  intent = MfaLoginIntent.api;
  return_to = none;
  attempt_count = 0;
  expires_at = 60000;
  used_at = none;
}

abbrev pub organisation : ServerStore
organisation = record {
  users =
      record { id = "user"; name = "U"; email = "u@x"; password_hash = "pw"; status = active } ∷ [];
  groups = record { id = "group"; name = "staff"; description = none } ∷ [];
  user_groups = record { id = "m"; user_id = "user"; group_id = "group" } ∷ [];
  applications =
      record {
        id = "app";
        name = "App";
        client_id = "app";
        client_secret_hash = some "secret";
        status = active;
        launch_url = none;
        logout_notification_url = "https://app/logout";
      }
      ∷ [];
  redirect_uris =
      record { id = "r"; application_id = "app"; redirect_uri = "https://app/callback" } ∷ [];
  policies = record { id = "p"; application_id = "app"; group_id = "group" } ∷ [];
  sso_sessions = session ∷ [];
  authorization_codes = code ∷ [];
  access_tokens = token ∷ [];
  mfa_totps =
      record { user_id = "user"; secret = "s"; enabled_at = some 1; last_used_time_step = none }
      ∷ [];
  mfa_challenges = challenge ∷ [];
  recovery_codes = [];
  audit_logs = [];
  outbox_events = [];
}
