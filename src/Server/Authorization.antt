-- ===== src/Server/Authorization.antt =====
-- `AuthorizationService` of auth-provider/server/src/authorization/authorization.service.ts.
pub mod Granted
use Prim.Native.String
use seleksi2_labpro.Prelude.{
  ℕ, ◌+◌, ◌*◌, String, Bool, true, false, ◌&&◌, ◌||◌, not, List, [], ◌∷◌, Option, none, some, leb,
  ltb, ◌==◌, ◌===◌, if◌then◌else◌, length, is_none, is_some, some_and, any, Result, ok, err, Exec,
  pure, throw, gets, or_throw, throw_if, modify, ◌>>=◌, ◌>>◌,
}
use seleksi2_labpro.Database.{Prisma, find_one, transaction}
use seleksi2_labpro.Schema.Accounts.{Application, ApplicationRedirectUri, is_enabled}
use seleksi2_labpro.Schema.Sessions.{AuthorizationCode, AuditLog}
use seleksi2_labpro.Shared.Json.{Json, string}
use seleksi2_labpro.Shared.Pattern.{codes}
use seleksi2_labpro.Shared.Canonical.{units}
use seleksi2_labpro.Server.Store.{
  ServerStore, ServerError, unauthorized, authorization_request, Handler, create_code, audited,
}
use seleksi2_labpro.Server.Runtime.{
  Runtime, Url, Settings, Call, hash_secret, read_bounded_string, is_text, is_url_safe, every,
}
use seleksi2_labpro.Server.Auth.{CurrentSession, get_current_session}
use seleksi2_labpro.Server.UserInfo.{is_allowed}

pub record AuthorizationRequestInput : Type 0 where
  pub client_id : Option Json
  pub redirect_uri : Option Json
  pub response_type : Option Json
  pub state : Option Json
  pub code_challenge : Option Json
  pub code_challenge_method : Option Json

abbrev pub supported_url : Option Url → Bool
supported_url none = false
supported_url (some u) =
    (u.protocol === "http:" || u.protocol === "https:")
    && u.username === ""
    && u.password === ""
    && u.hash === ""

-- `isSupportedRedirectUri`
unfoldable pub is_supported_redirect_uri : Runtime → String → Bool
is_supported_redirect_uri rt value = supported_url (rt.parse_url value)

-- `PKCE_S256_CHALLENGE_PATTERN`, on a field of the request.
unfoldable pub read_challenge : Option Json → Option String
unfolding is_url_safe every
read_challenge (some (string s)) =
    let cs = codes s in if every is_url_safe cs && length cs == 43 then some s else none
read_challenge _ = none

-- `untrustedRequestError`: the user is not sent back anywhere.
abbrev pub untrusted : ServerError
untrusted = authorization_request "invalid_request" none none

-- A redirect URI that the application has registered.
abbrev pub is_registered : Application → String → ApplicationRedirectUri → Bool
is_registered a redirect_uri r = r.application_id === a.id && r.redirect_uri === redirect_uri

abbrev pub trusted_uri : Runtime → Option String → Option String
trusted_uri rt none = none
trusted_uri rt (some uri) = if is_supported_redirect_uri rt uri then some uri else none

abbrev with_length : Option String → Option String
with_length none = none
with_length (some s) = if leb 16 (length (units s)) then some s else none

-- An empty token is none.
abbrev given_token : Option String → Option String
given_token none = none
given_token (some t) = if t === "" then none else some t

abbrev challenge_if : Bool → Option String → Option String
challenge_if true o = o
challenge_if false o = none

abbrev pub new_code :
    Runtime → Settings → Call → Application → CurrentSession → String → String → AuthorizationCode
new_code rt cfg c a session redirect_uri code_challenge = record {
  id = c.fresh_id;
  code_hash = hash_secret rt c.fresh_token;
  user_id = session.user.id;
  application_id = a.id;
  sso_session_id = session.session.id;
  redirect_uri = redirect_uri;
  code_challenge = code_challenge;
  expires_at = c.now + cfg.authorization_code_ttl_seconds * 1000;
  used_at = none;
}

abbrev authorization_audit :
    Call → Application → CurrentSession → String → String → Option String → AuditLog
authorization_audit c a session event_type outcome reason = record {
  event_type = event_type;
  actor_id = some session.user.id;
  user_id = some session.user.id;
  application_id = some a.id;
  session_id = some session.session.id;
  result = outcome;
  detail = reason;
  ip_address = c.ip_address;
}

module _ ⦃db : Prisma⦄ (rt : Runtime) (cfg : Settings) (c : Call) where
  -- The `catch` around `getCurrentSession`.
  abbrev or_login :
      String → Option String → Result ServerError CurrentSession → Handler CurrentSession
  or_login uri state (ok r) = pure r
  or_login uri state (err (unauthorized code)) =
      throw (authorization_request "login_required" (some uri) state)
  or_login uri state (err e) = throw e

  unfoldable pub require_session : String → Option String → String → Handler CurrentSession
  unfolding get_current_session
  require_session uri state token s =
      let (r, s') = get_current_session rt cfg c token s in or_login uri state r s'

  -- The code and its audit entry, in one transaction.
  unfoldable pub grant : Application → CurrentSession → String → String → Handler (Unit {0})
  unfolding create_code
  grant a session redirect_uri code_challenge = do
    create_code (λ x. x.code_hash === hash_secret rt c.fresh_token)
        (new_code rt cfg c a session redirect_uri code_challenge)
    modify (audited (authorization_audit c a session "AuthorizationCodeIssued" "SUCCESS" none))

  -- From the policies on.
  unfoldable pub decide : Application → CurrentSession → String → String → String → Handler String
  unfolding grant is_allowed
  decide a session uri state code_challenge = do
    allowed ← gets (is_allowed a.id session.user.id)
    if allowed
        then (transaction (grant a session uri code_challenge) >>= λ _.
            pure (rt.with_code uri c.fresh_token state))
        else (modify (
              audited (
                authorization_audit c a session "PolicyDenied" "DENIED"
                  (some "missing_group_policy")))
            >> throw (authorization_request "access_denied" (some uri) (some state)))

  abbrev pub registered_uri : Application → String → ServerStore → Bool
  registered_uri a uri s = is_some (find_one (is_registered a uri) s.redirect_uris)

  -- `authorize`
  unfoldable pub authorize : AuthorizationRequestInput → Option String → Handler String
  unfolding read_bounded_string is_supported_redirect_uri read_challenge require_session decide
  authorize input session_token = do
    client_id ← or_throw (read_bounded_string input.client_id 255) untrusted
    uri ← or_throw (trusted_uri rt (read_bounded_string input.redirect_uri 2048)) untrusted
    found ← gets (λ s. find_one (λ (a : Application). a.client_id === client_id) s.applications)
    a ← or_throw found untrusted
    registered ← gets (registered_uri a uri)
    throw_if (not registered) untrusted
    let given = read_bounded_string input.state 512
    throw_if (not (is_enabled a.status))
        (authorization_request "unauthorized_client" (some uri) given)
    throw_if (not (is_text "code" input.response_type))
        (authorization_request "unsupported_response_type" (some uri) given)
    state ← or_throw (with_length given) (authorization_request "invalid_request" (some uri) none)
    code_challenge ←
        or_throw
          (challenge_if (is_text "S256" input.code_challenge_method)
            (read_challenge input.code_challenge))
          (authorization_request "invalid_request" (some uri) given)
    token ←
        or_throw (given_token session_token)
          (authorization_request "login_required" (some uri) given)
    session ← require_session uri given token
    decide a session uri state code_challenge
