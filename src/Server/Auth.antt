-- ===== src/Server/Auth.antt =====
-- `AuthService` of auth-provider/server/src/auth/auth.service.ts.
pub mod Logout
use seleksi2_labpro.Prelude.{
  ℕ, String, Bool, true, false, ◌&&◌, ◌||◌, not, List, [], ◌∷◌, Option, none, some, leb, ltb, ◌==◌,
  ◌===◌, if◌then◌else◌, is_none, is_some, some_and, Exec, pure, throw, gets, or_throw, throw_if,
  modify, ◌>>=◌, ◌>>◌,
}
use seleksi2_labpro.Database.{Prisma, find_one, transaction}
use seleksi2_labpro.Schema.Accounts.{User, is_enabled}
use seleksi2_labpro.Schema.Sessions.{
  SsoSession, AccessToken, UserMfaTotp, MfaLoginIntent, AuditLog, SessionStatus, is_active,
}
use seleksi2_labpro.Shared.Json.{string, field, end}
use seleksi2_labpro.Shared.Event.{session_revoked}
use seleksi2_labpro.Server.Store.{
  ServerStore, ServerError, unauthorized, Handler, update_sessions, update_tokens, audited,
}
use seleksi2_labpro.Server.Runtime.{Runtime, Settings, Call, hash_secret}
use seleksi2_labpro.Server.Outbox.{NewRevocationEvent, enqueue}
use seleksi2_labpro.Server.Access.{
  SessionUser, SessionDetails, AuthenticatedLoginResult, can_access, issue,
}
use seleksi2_labpro.Server.Mfa.{StartedMfaChallenge, start}

-- `DUMMY_PASSWORD_HASH`
abbrev dummy_password_hash : String
dummy_password_hash =
    "$argon2id$v=19$m=19456,p=1,t=2$XDyNdawOPXncbz5b8iOaqg$OyX7SkbwX0qefYtwDIdiOtu9qTpwjpZp9ggu78Jn6ZY"

-- `LoginIntent`
pub data LoginIntent : Type 0 where
  api : LoginIntent
  oauth : String → LoginIntent
  admin : LoginIntent

pub record LoginRequirements : Type 0 where
  pub require_control_panel_access : Bool
  pub intent : Option LoginIntent

pub data LoginResult : Type 0 where
  authenticated : AuthenticatedLoginResult → LoginResult
  mfa_required : StartedMfaChallenge → LoginResult

pub record CurrentSession : Type 0 where
  pub user : SessionUser
  pub session : SessionDetails
  pub last_activity_at : ℕ

abbrev intent_type : Option LoginIntent → MfaLoginIntent
intent_type none = MfaLoginIntent.api
intent_type (some api) = MfaLoginIntent.api
intent_type (some (oauth r)) = MfaLoginIntent.oauth
intent_type (some admin) = MfaLoginIntent.admin

abbrev return_to : Option LoginIntent → Option String
return_to (some (oauth r)) = some r
return_to _ = none

abbrev user_id_of : Option User → Option String
user_id_of none = none
user_id_of (some u) = some u.id

abbrev login_failed : Call → Option User → AuditLog
login_failed c u = record {
  event_type = "LoginFailed";
  actor_id = none;
  user_id = user_id_of u;
  application_id = none;
  session_id = none;
  result = "FAILED";
  detail = some "invalid_credentials";
  ip_address = c.ip_address;
}

abbrev pub session_user : User → Bool → SessionUser
session_user u may_administrate = record {
  id = u.id;
  name = u.name;
  email = u.email;
  can_access_control_panel = may_administrate;
}

-- The session, as far as the check of a cookie looks at it.
abbrev pub is_live : ℕ → SsoSession → Bool
is_live now r = is_active r.status && is_none r.revoked_at && ltb now r.expires_at

abbrev pub is_elapsed : ℕ → SsoSession → Bool
is_elapsed now r = is_active r.status && is_none r.revoked_at && leb r.expires_at now

abbrev pub is_session_hash : String → SsoSession → Bool
is_session_hash h r = r.session_token_hash === h

abbrev pub expire : SsoSession → SsoSession
expire r = record r { status = SessionStatus.expired }

abbrev pub touch : ℕ → SsoSession → SsoSession
touch now r = record r { last_activity_at = some now }

abbrev pub revoke : ℕ → SsoSession → SsoSession
revoke now r = record r {
  status = SessionStatus.revoked;
  revoked_at = some now;
  revoke_reason = some "sso_logout";
}

abbrev pub revoke_token : ℕ → AccessToken → AccessToken
revoke_token now r = record r { status = SessionStatus.revoked; revoked_at = some now }

abbrev pub is_unrevoked : String → SsoSession → Bool
is_unrevoked id r = r.id === id && is_active r.status && is_none r.revoked_at

abbrev pub is_token_of : String → AccessToken → Bool
is_token_of id r = r.sso_session_id === id && is_active r.status && is_none r.revoked_at

-- `invalidSessionException`
abbrev pub invalid_session : ServerError
invalid_session = unauthorized "INVALID_SESSION"

abbrev logged_out : Call → SsoSession → AuditLog
logged_out c session = record {
  event_type = "Logout";
  actor_id = some session.user_id;
  user_id = some session.user_id;
  application_id = none;
  session_id = some session.id;
  result = "SUCCESS";
  detail = some "sso_logout";
  ip_address = c.ip_address;
}

-- The event that tells the applications of a logout.
abbrev pub logout_event : Call → SsoSession → NewRevocationEvent
logout_event c session = record {
  event_type = session_revoked;
  user_id = session.user_id;
  central_session_id = some session.id;
  application_id = none;
  reason = "sso_logout";
  occurred_at = c.now;
  metadata = some (field "source" (string "auth_logout") end);
}

module _ ⦃db : Prisma⦄ (rt : Runtime) (cfg : Settings) (c : Call) where
  abbrev password_hash_of : Option User → String
  password_hash_of none = dummy_password_hash
  password_hash_of (some u) = u.password_hash

  -- Whether the user has an enabled second factor.
  abbrev has_mfa : User → ServerStore → Bool
  has_mfa u s =
      some_and (λ (m : UserMfaTotp). is_some m.enabled_at)
        (find_one (λ (m : UserMfaTotp). m.user_id === u.id) s.mfa_totps)

  -- The user whom the credentials and the requirements let in.
  abbrev admitted : String → LoginRequirements → Option User → ServerStore → Option User
  admitted password req none s = none
  admitted password req (some u) s =
      if rt.verify_password (password_hash_of (some u)) password
        && is_enabled u.status
        && (not req.require_control_panel_access || can_access u.id s)
      then some u
      else none

  abbrev refuse_login : Option User → Handler LoginResult
  refuse_login found =
      modify (audited (login_failed c found)) >> throw (unauthorized "INVALID_CREDENTIALS")

  -- The rest of `login`, for a user who is let in or not.
  unfoldable pub log_in : Option User → LoginRequirements → Option User → Handler LoginResult
  unfolding start issue can_access
  log_in found req none = refuse_login found
  log_in found req (some u) = do
    needs_mfa ← gets (has_mfa u)
    if needs_mfa
        then (start rt cfg c u.id (intent_type req.intent) (return_to req.intent) >>= λ challenge.
            pure (mfa_required challenge))
        else (do
          may_administrate ← gets (can_access u.id)
          login ← transaction (issue rt cfg c (session_user u may_administrate) "password")
          pure (authenticated login))

  -- `login`
  unfoldable pub login : String → String → LoginRequirements → Handler LoginResult
  unfolding log_in can_access
  login email password req = do
    found ← gets (λ s. find_one (λ (u : User). u.email === rt.normalize email) s.users)
    allowed ← gets (admitted password req found)
    log_in found req allowed

  -- The session is refused; one whose time has run out is marked.
  unfoldable pub refuse_session : Option SsoSession → Handler CurrentSession
  unfolding update_sessions
  refuse_session none = throw invalid_session
  refuse_session (some r) = do
    n ←
        (if is_elapsed c.now r
          then update_sessions (λ x. x.id === r.id && is_elapsed c.now x) expire
          else pure 0)
    throw invalid_session

  abbrev current : SsoSession → User → Bool → CurrentSession
  current r u may_administrate = record {
    user = session_user u may_administrate;
    session = record {
      id = r.id;
      status = r.status;
      created_at = r.created_at;
      expires_at = r.expires_at;
    };
    last_activity_at = c.now;
  }

  -- The session is accepted, if it still is one when it is touched.
  unfoldable pub accept_session : SsoSession → User → Handler CurrentSession
  unfolding update_sessions can_access
  accept_session r u = do
    touched ← update_sessions (λ x. x.id === r.id && is_live c.now x) (touch c.now)
    throw_if (not (touched == 1)) invalid_session
    may_administrate ← gets (can_access u.id)
    pure (current r u may_administrate)

  abbrev pub admit_session : SsoSession → Option User → Handler CurrentSession
  admit_session r none = refuse_session (some r)
  admit_session r (some u) =
      if is_live c.now r && is_enabled u.status then accept_session r u else refuse_session (some r)

  abbrev check_session : Option SsoSession → ServerStore → Handler CurrentSession
  check_session none s = refuse_session none
  check_session (some r) s = admit_session r (find_one (λ (u : User). u.id === r.user_id) s.users)

  -- `getCurrentSession`
  unfoldable pub get_current_session : String → Handler CurrentSession
  unfolding refuse_session accept_session
  get_current_session session_token s =
      check_session (find_one (is_session_hash (hash_secret rt session_token)) s.sso_sessions) s s

  -- What the callback of `logout`'s transaction does once it has revoked the session.
  abbrev revoke_rest : SsoSession → Handler (Unit {0})
  revoke_rest session = do
    tokens ← update_tokens (is_token_of session.id) (revoke_token c.now)
    events ← enqueue rt c.fresh_id (logout_event c session)
    modify (audited (logged_out c session))

  unfoldable pub revoke_session : SsoSession → Handler (Unit {0})
  unfolding update_sessions update_tokens enqueue
  revoke_session session = do
    revoked ← update_sessions (is_unrevoked session.id) (revoke c.now)
    if revoked == 1 then revoke_rest session else pure tt

  abbrev log_out_of : Option SsoSession → Handler (Unit {0})
  log_out_of none = pure tt
  log_out_of (some session) = transaction (revoke_session session)

  -- `logout`
  unfoldable pub logout : String → Handler (Unit {0})
  unfolding revoke_session
  logout session_token = do
    found ← gets (λ s. find_one (is_session_hash (hash_secret rt session_token)) s.sso_sessions)
    log_out_of found
