-- ===== src/Server/Token.antt =====
-- `TokenService` of auth-provider/server/src/authorization/token.service.ts.
pub mod Rollback
pub mod Once
mod Tests
use Prim.Native.String
use Prim.Native.Char.{code}
use seleksi2_labpro.Prelude.{
  ℕ, ◌+◌, ◌*◌, String, Bool, true, false, ◌&&◌, ◌||◌, not, List, [], ◌∷◌, Option, none, some, leb,
  ltb, ◌==◌, ◌===◌, if◌then◌else◌, length, is_none, is_some, some_and, Exec, pure, throw, gets,
  or_throw, throw_if, modify, ◌>>=◌, ◌>>◌,
}
use seleksi2_labpro.Database.{Prisma, find_one, transaction}
use seleksi2_labpro.Schema.Accounts.{
  User, Application, ActivityStatus, active, inactive, is_enabled,
}
use seleksi2_labpro.Schema.Sessions.{
  SsoSession, AuthorizationCode, AccessToken, AuditLog, is_active, SessionStatus,
}
use seleksi2_labpro.Shared.Json.{Json}
use seleksi2_labpro.Shared.Pattern.{codes, at_most}
use seleksi2_labpro.Shared.Canonical.{units}
use seleksi2_labpro.Server.Store.{
  ServerStore, ServerError, token_request, Handler, update_sessions, update_codes, create_token,
  audited,
}
use seleksi2_labpro.Server.Runtime.{
  Runtime, Settings, Call, hash_secret, verify_secret, same_bytes, read_bounded_string, is_text,
  is_unreserved, is_base64_char, every, strip_prefix,
}

pub record TokenRequestInput : Type 0 where
  pub grant_type : Option Json
  pub code : Option Json
  pub redirect_uri : Option Json
  pub code_verifier : Option Json

pub record TokenResult : Type 0 where
  pub access_token : String
  pub expires_in : ℕ
  pub scope : String

pub record Credentials : Type 0 where
  pub client_id : String
  pub client_secret : String

-- `PKCE_VERIFIER_PATTERN`
pub is_verifier : String → Bool
unfolding every is_unreserved
is_verifier s =
    let cs = codes s in every is_unreserved cs && leb 43 (length cs) && leb (length cs) 128

-- `[A-Za-z0-9+/]+={0,2}`, after the characters that have been read.
pub is_base64 : Bool → List ℕ → Bool
unfolding is_base64_char at_most
is_base64 started [] = started
is_base64 started (c ∷ cs) =
    let rest = is_base64 true cs in
    if is_base64_char c then rest else started && at_most 2 (λ d. d == b'=') (c ∷ cs)

-- The text before the first colon and the text after it.
pub split_at_colon : String → Option (String × String)
split_at_colon String.[] = none
split_at_colon (String.◌∷◌ c s) = before_colon (code c == b':') (split_at_colon s)
  where
    before_colon : Bool → Option (String × String) → Option (String × String)
    before_colon true rest = some ("", s)
    before_colon false none = none
    before_colon false (some (a, b)) = some (String.◌∷◌ c a, b)

abbrev credentials_of : Option (String × String) → Option Credentials
credentials_of none = none
credentials_of (some (id, secret)) =
    if id === "" || secret === ""
    then none
    else some (record { client_id = id; client_secret = secret })

abbrev basic_credentials : Runtime → Option String → Option Credentials
basic_credentials rt none = none
basic_credentials rt (some b) =
    if is_base64 false (codes b)
    then credentials_of (split_at_colon (rt.text_of_base64 b))
    else none

abbrev or_empty : Option String → String
or_empty none = ""
or_empty (some s) = s

-- `parseBasicCredentials`
pub parse_basic_credentials : Runtime → Option String → Option Credentials
unfolding is_base64 split_at_colon strip_prefix
parse_basic_credentials rt header = basic_credentials rt (strip_prefix "Basic " (or_empty header))

-- `verifyPkce`
pub verify_pkce : Runtime → String → String → Bool
unfolding same_bytes
verify_pkce rt code_verifier expected_challenge =
    same_bytes (rt.bytes_of_ascii (rt.sha256_base64url code_verifier))
      (rt.bytes_of_ascii expected_challenge)

-- `DUMMY_CLIENT_SECRET_HASH`
abbrev dummy_client_secret_hash : String
dummy_client_secret_hash = "0000000000000000000000000000000000000000000000000000000000000000"

abbrev secret_hash_of : Option Application → String
secret_hash_of none = dummy_client_secret_hash
secret_hash_of (some a) = elim a.client_secret_hash [ none ↦ dummy_client_secret_hash | some h ↦ h ]

abbrev has_text : Option String → Bool
has_text none = false
has_text (some s) = not (s === "")

-- The application that the credentials authenticate.
pub authenticated : Runtime → Credentials → Option Application → Option Application
unfolding verify_secret
authenticated rt cred none = none
authenticated rt cred (some a) =
    let secret_matches = verify_secret rt cred.client_secret (secret_hash_of (some a)) in
    if is_enabled a.status && has_text a.client_secret_hash && secret_matches then some a else none

-- `{ status: 'ACTIVE', revokedAt: null, expiresAt: { gt: now } }`
abbrev pub is_live_session : ℕ → SsoSession → Bool
is_live_session now r = is_active r.status && is_none r.revoked_at && ltb now r.expires_at

abbrev pub touch : ℕ → SsoSession → SsoSession
touch now r = record r { last_activity_at = some now }

abbrev pub is_code_hash : String → AuthorizationCode → Bool
is_code_hash h r = r.code_hash === h

-- The code, as far as its own columns and the request tell.
pub is_usable : Runtime → ℕ → Application → String → String → AuthorizationCode → Bool
unfolding verify_pkce
is_usable rt now a redirect_uri code_verifier r =
    r.application_id === a.id
    && r.redirect_uri === redirect_uri
    && is_none r.used_at
    && ltb now r.expires_at
    && verify_pkce rt code_verifier r.code_challenge

-- The condition of the write that uses the code up.
abbrev pub is_unused : AuthorizationCode → Application → ℕ → AuthorizationCode → Bool
is_unused code a now r =
    r.id === code.id && r.application_id === a.id && is_none r.used_at && ltb now r.expires_at

abbrev pub use_up : ℕ → AuthorizationCode → AuthorizationCode
use_up now r = record r { used_at = some now }

abbrev invalid_grant : ServerError
invalid_grant = token_request "invalid_grant"

abbrev invalid_client : ServerError
invalid_client = token_request "invalid_client"

abbrev pub new_token : Runtime → Settings → Call → Application → AuthorizationCode → AccessToken
new_token rt cfg c a code = record {
  id = c.fresh_id;
  token_hash = hash_secret rt c.fresh_token;
  user_id = code.user_id;
  application_id = a.id;
  sso_session_id = code.sso_session_id;
  scopes = some ("profile" ∷ []);
  status = SessionStatus.active;
  expires_at = c.now + cfg.access_token_ttl_seconds * 1000;
  revoked_at = none;
}

abbrev token_issued : Call → Application → AuthorizationCode → AuditLog
token_issued c a code = record {
  event_type = "AccessTokenIssued";
  actor_id = some code.user_id;
  user_id = some code.user_id;
  application_id = some a.id;
  session_id = some code.sso_session_id;
  result = "SUCCESS";
  detail = none;
  ip_address = c.ip_address;
}

module _ ⦃db : Prisma⦄ (rt : Runtime) (cfg : Settings) (c : Call) where
  abbrev owner_is_active : AuthorizationCode → ServerStore → Bool
  owner_is_active code s =
      some_and (λ (u : User). is_enabled u.status)
        (find_one (λ (u : User). u.id === code.user_id) s.users)

  abbrev application_is_active : AuthorizationCode → ServerStore → Bool
  application_is_active code s =
      some_and (λ (b : Application). is_enabled b.status)
        (find_one (λ (b : Application). b.id === code.application_id) s.applications)

  abbrev session_is_live : AuthorizationCode → ServerStore → Bool
  session_is_live code s =
      some_and (is_live_session c.now)
        (find_one (λ (r : SsoSession). r.id === code.sso_session_id) s.sso_sessions)

  -- The callback of the transaction.
  pub redeem : Application → String → String → String → Handler (Unit {0})
  unfolding is_usable update_sessions update_codes create_token
  redeem a code redirect_uri code_verifier = do
    found ← gets (λ s. find_one (is_code_hash (hash_secret rt code)) s.authorization_codes)
    r ← or_throw found invalid_grant
    allowed ← gets (λ s.
        is_usable rt c.now a redirect_uri code_verifier r
        && owner_is_active r s
        && application_is_active r s
        && session_is_live r s)
    throw_if (not allowed) invalid_grant
    sessions ←
        update_sessions (λ x. x.id === r.sso_session_id && is_live_session c.now x) (touch c.now)
    throw_if (not (sessions == 1)) invalid_grant
    claimed ← update_codes (is_unused r a c.now) (use_up c.now)
    throw_if (not (claimed == 1)) invalid_grant
    create_token (λ x. x.token_hash === hash_secret rt c.fresh_token) (new_token rt cfg c a r)
    modify (audited (token_issued c a r))

  abbrev valid_verifier : Option String → Option String
  valid_verifier none = none
  valid_verifier (some v) = if is_verifier v then some v else none

  -- `exchange`
  pub exchange : TokenRequestInput → Option String → Handler TokenResult
  unfolding read_bounded_string is_verifier parse_basic_credentials authenticated redeem
  exchange input header = do
    throw_if (not (is_text "authorization_code" input.grant_type))
        (token_request "unsupported_grant_type")
    code ← or_throw (read_bounded_string input.code 512) (token_request "invalid_request")
    redirect_uri ←
        or_throw (read_bounded_string input.redirect_uri 2048) (token_request "invalid_request")
    code_verifier ←
        or_throw (valid_verifier (read_bounded_string input.code_verifier 128))
          (token_request "invalid_request")
    cred ← or_throw (parse_basic_credentials rt header) invalid_client
    found ←
        gets (λ s. find_one (λ (a : Application). a.client_id === cred.client_id) s.applications)
    a ← or_throw (authenticated rt cred found) invalid_client
    transaction (redeem a code redirect_uri code_verifier)
    pure (record {
      access_token = c.fresh_token;
      expires_in = cfg.access_token_ttl_seconds;
      scope = "profile";
    })
