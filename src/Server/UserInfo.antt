-- ===== src/Server/UserInfo.antt =====
-- `UserInfoService` of auth-provider/server/src/authorization/userinfo.service.ts.
pub mod Access
pub mod Entitled
use Prim.Native.String
use Prim.Native.Char.{code}
use seleksi2_labpro.Prelude.{
  ℕ, ◌+◌, String, Bool, true, false, ◌&&◌, ◌||◌, not, List, [], ◌∷◌, map, Option, none, some, leb,
  ltb, ◌==◌, ◌===◌, if◌then◌else◌, length, is_none, is_some, some_and, any, Exec, pure, throw, gets,
  or_throw, throw_if, modify, ◌>>=◌, ◌>>◌,
}
use seleksi2_labpro.Database.{Prisma, find_one, find_many, transaction}
use seleksi2_labpro.Schema.Accounts.{
  User, Application, Group, UserGroup, ApplicationGroupPolicy, is_enabled,
}
use seleksi2_labpro.Schema.Sessions.{SsoSession, AccessToken, SessionStatus, is_active}
use seleksi2_labpro.Shared.Pattern.{codes}
use seleksi2_labpro.Server.Store.{
  ServerStore, ServerError, user_info, Handler, update_sessions, update_tokens,
}
use seleksi2_labpro.Server.Runtime.{Runtime, Call, hash_secret, is_url_safe, every}

pub record UserInfoResult : Type 0 where
  pub sub : String
  pub name : String
  pub email : String
  pub groups : List String
  pub aud : String
  pub client_id : String
  pub central_session_id : String
  pub scope : String

-- `[A-Za-z0-9_-]{43}`
abbrev is_opaque : String → Bool
is_opaque s = let cs = codes s in every is_url_safe cs && length cs == 43

abbrev opaque : Option String → Option String
opaque none = none
opaque (some t) = if is_opaque t then some t else none

-- A letter in lower case.
abbrev lower_code : ℕ → ℕ
lower_code n = if leb b'A' n && leb n b'Z' then n + 32 else n

-- What follows a prefix, whatever the case of its letters.
unfoldable pub strip_prefix_nocase : String → String → Option String
strip_prefix_nocase String.[] s = some s
strip_prefix_nocase (String.◌∷◌ c p) String.[] = none
strip_prefix_nocase (String.◌∷◌ c p) (String.◌∷◌ d s) =
    let rest = strip_prefix_nocase p s in if code c == lower_code (code d) then rest else none

abbrev or_empty : Option String → String
or_empty none = ""
or_empty (some s) = s

-- `parseBearerToken`
unfoldable pub parse_bearer_token : Option String → Option String
unfolding is_url_safe every strip_prefix_nocase
parse_bearer_token header = opaque (strip_prefix_nocase "bearer " (or_empty header))

abbrev pub is_token_hash : String → AccessToken → Bool
is_token_hash h r = r.token_hash === h

abbrev pub is_live_session : ℕ → SsoSession → Bool
is_live_session now r = is_active r.status && is_none r.revoked_at && ltb now r.expires_at

abbrev pub is_live_token : ℕ → AccessToken → Bool
is_live_token now r = is_active r.status && is_none r.revoked_at && ltb now r.expires_at

abbrev pub is_elapsed_token : ℕ → AccessToken → Bool
is_elapsed_token now r = is_active r.status && is_none r.revoked_at && leb r.expires_at now

abbrev pub scopes_of : Option (List String) → List String
scopes_of none = []
scopes_of (some l) = l

abbrev pub touch : ℕ → SsoSession → SsoSession
touch now r = record r { last_activity_at = some now }

abbrev pub expire_token : AccessToken → AccessToken
expire_token r = record r { status = SessionStatus.expired }

abbrev text_append : String → String → String
text_append = String.◌++◌

abbrev join_spaced : List String → String
join_spaced [] = ""
join_spaced (s ∷ []) = s
join_spaced (s ∷ t ∷ rest) = text_append s (text_append " " (join_spaced (t ∷ rest)))

-- The user is in a group.
abbrev is_in_group : ServerStore → String → String → Bool
is_in_group s user_id group_id =
    any (λ (m : UserGroup). m.user_id === user_id && m.group_id === group_id) s.user_groups

module _ ⦃db : Prisma⦄ where
  -- A policy of the application for a group that the user is in.
  unfoldable pub is_allowed : String → String → ServerStore → Bool
  is_allowed application_id user_id s = is_some (
      find_one
        (λ (p : ApplicationGroupPolicy).
          p.application_id === application_id && is_in_group s user_id p.group_id)
        s.policies)

module _ ⦃db : Prisma⦄ (rt : Runtime) (c : Call) where
  abbrev user_of : AccessToken → ServerStore → Option User
  user_of t s = find_one (λ (u : User). u.id === t.user_id) s.users

  abbrev application_of : AccessToken → ServerStore → Option Application
  application_of t s = find_one (λ (a : Application). a.id === t.application_id) s.applications

  -- The conditions on a token that do not concern the policies.
  abbrev pub is_valid : AccessToken → ServerStore → Bool
  is_valid t s =
      is_live_token c.now t
      && some_and (λ (u : User). is_enabled u.status) (user_of t s)
      && some_and (λ (a : Application). is_enabled a.status) (application_of t s)
      && some_and (is_live_session c.now)
          (find_one (λ (r : SsoSession). r.id === t.sso_session_id) s.sso_sessions)
      && any (λ x. x === "profile") (scopes_of t.scopes)

  abbrev profile_of : AccessToken → User → Application → ServerStore → UserInfoResult
  profile_of t u a s = record {
    sub = u.id;
    name = u.name;
    email = u.email;
    groups =
        map (λ (g : Group). g.name) (find_many (λ (g : Group). is_in_group s u.id g.id) s.groups);
    aud = a.client_id;
    client_id = a.client_id;
    central_session_id = t.sso_session_id;
    scope = join_spaced (scopes_of t.scopes);
  }

  -- The callback of the transaction, for a token that is not valid.
  unfoldable pub refuse_token : AccessToken → Handler (Option UserInfoResult)
  unfolding update_tokens
  refuse_token t =
      if is_elapsed_token c.now t
      then (update_tokens (λ x. x.id === t.id && is_elapsed_token c.now x) expire_token >>= λ _.
          pure none)
      else throw user_info

  -- And for one that is.
  unfoldable pub accept_token : AccessToken → Handler (Option UserInfoResult)
  unfolding is_allowed update_sessions update_tokens
  accept_token t = do
    allowed ← gets (is_allowed t.application_id t.user_id)
    throw_if (not allowed) user_info
    sessions ←
        update_sessions (λ x. x.id === t.sso_session_id && is_live_session c.now x) (touch c.now)
    throw_if (not (sessions == 1)) user_info
    tokens ←
        update_tokens
          (λ x.
            x.id === t.id
            && x.application_id === t.application_id
            && x.sso_session_id === t.sso_session_id
            && is_live_token c.now x)
          (λ x. record x { status = SessionStatus.active })
    throw_if (not (tokens == 1)) user_info
    owner ← gets (user_of t)
    u ← or_throw owner user_info
    found ← gets (application_of t)
    a ← or_throw found user_info
    profile ← gets (profile_of t u a)
    pure (some profile)

  -- The callback of the transaction.
  unfoldable pub read_profile : String → Handler (Option UserInfoResult)
  unfolding refuse_token accept_token
  read_profile access_token = do
    found ← gets (λ s. find_one (is_token_hash (hash_secret rt access_token)) s.access_tokens)
    t ← or_throw found user_info
    valid ← gets (is_valid t)
    if valid then accept_token t else refuse_token t

  -- `getProfile`
  unfoldable pub get_profile : Option String → Handler UserInfoResult
  unfolding parse_bearer_token read_profile
  get_profile header = do
    access_token ← or_throw (parse_bearer_token header) user_info
    profile ← transaction (read_profile access_token)
    or_throw profile user_info
