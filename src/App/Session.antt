-- ===== src/App/Session.antt =====
-- The application's sessions: local-session.ts, local-session-state.ts and session-token.ts of
-- applications/app-a/src/lib/auth.
pub mod Issue
pub mod Over
pub mod Lasting
use seleksi2_labpro.Prelude.{
  ℕ, ◌+◌, ◌*◌, String, Bool, true, false, ◌&&◌, ◌||◌, not, List, [], ◌∷◌, Option, none, some, ltb,
  leb, ◌==◌, ◌===◌, if◌then◌else◌, length, is_none, is_some, Result, ok, err, Exec, pure, throw,
  gets, or_throw, throw_if, modify, ◌>>=◌, ◌>>◌,
}
use seleksi2_labpro.Database.{Prisma, find_one, transaction}
use seleksi2_labpro.Shared.Json.{Json, string, array, Items, nil, cons, field, end}
use seleksi2_labpro.Shared.Pattern.{codes}
use seleksi2_labpro.Server.Runtime.{is_url_safe, every}
use seleksi2_labpro.App.Store.{
  AppStore, AppAction, LocalSession, LocalSessionStatus, ProfileCache, ActivityLog, update_sessions,
  create_session, upsert_profile, logged,
}

-- `OAuthUserInfo`
pub record OAuthUserInfo : Type 0 where
  pub external_user_id : String
  pub name : String
  pub email : String
  pub groups : List String
  pub central_session_id : String

pub record IssuedLocalSession : Type 0 where
  pub token : String
  pub id : String
  pub expires_at : ℕ

pub record ActiveProfile : Type 0 where
  pub external_user_id : String
  pub name : String
  pub email : String
  pub groups : List String
  pub synced_at : ℕ

pub record ActiveSession : Type 0 where
  pub id : String
  pub central_session_id : String
  pub created_at : ℕ
  pub expires_at : ℕ
  pub last_activity_at : ℕ

-- `LocalSessionResolution`
pub data Resolution : Type 0 where
  active : ActiveProfile → ActiveSession → Resolution
  expired revoked invalid : Resolution

-- `LocalSessionRevocationResult`
pub data RevocationResult : Type 0 where
  revoked no_change : RevocationResult

abbrev is_active : LocalSessionStatus → Bool
is_active LocalSessionStatus.active = true
is_active _ = false

abbrev is_expired : LocalSessionStatus → Bool
is_expired LocalSessionStatus.expired = true
is_expired _ = false

abbrev is_revoked : LocalSessionStatus → Bool
is_revoked LocalSessionStatus.revoked = true
is_revoked _ = false

-- `classifyLocalSession`
unfoldable pub classify : LocalSession → ℕ → LocalSessionStatus
classify r now =
    if is_revoked r.status || is_some r.revoked_at
    then LocalSessionStatus.revoked
    else if is_expired r.status || leb r.expires_at now
    then LocalSessionStatus.expired
    else LocalSessionStatus.active

-- `canRevokeLocalSession`
unfoldable pub can_revoke : LocalSession → ℕ → Bool
unfolding classify
can_revoke r now = is_active (classify r now)

-- `isLocalSessionToken`
unfoldable pub is_local_session_token : String → Bool
unfolding is_url_safe every
is_local_session_token t = let cs = codes t in every is_url_safe cs && length cs == 43

abbrev texts : Items → Option (List String)
texts nil = some []
texts (cons (string s) xs) = elim (texts xs) [ none ↦ none | some l ↦ some (s ∷ l) ]
texts (cons _ xs) = none

abbrev or_nothing : Option (List String) → List String
or_nothing none = []
or_nothing (some l) = l

-- `readCachedGroups`
unfoldable pub read_cached_groups : Option Json → List String
read_cached_groups (some (array xs)) = or_nothing (texts xs)
read_cached_groups _ = []

abbrev pub is_session_token : String → LocalSession → Bool
is_session_token h r = r.session_token_hash === h

-- `{ id, status: 'ACTIVE', revokedAt: null, expiresAt: { gt: now } }`
abbrev pub is_live : String → ℕ → LocalSession → Bool
is_live id now r = r.id === id && is_active r.status && is_none r.revoked_at && ltb now r.expires_at

-- The same with `expiresAt: { lte: now }`.
abbrev pub is_elapsed : String → ℕ → LocalSession → Bool
is_elapsed id now r =
    r.id === id && is_active r.status && is_none r.revoked_at && leb r.expires_at now

abbrev pub expire : LocalSession → LocalSession
expire r = record r { status = LocalSessionStatus.expired }

abbrev pub touch : ℕ → LocalSession → LocalSession
touch now r = record r { last_activity_at = some now }

abbrev pub revoke : ℕ → String → LocalSession → LocalSession
revoke now reason r = record r {
  status = LocalSessionStatus.revoked;
  revoked_at = some now;
  revoke_reason = some reason;
}

abbrev activity : String → String → LocalSession → Option String → ActivityLog
activity event_type message r request_id = record {
  event_type = event_type;
  result = "SUCCESS";
  message = message;
  external_user_id = some r.external_user_id;
  local_session_id = some r.id;
  request_id = request_id;
  metadata = none;
}

abbrev expired_log : LocalSession → ActivityLog
expired_log r =
    activity "LocalSessionExpired" "Local session ditandai kedaluwarsa saat diperiksa" r none

abbrev logout_log : LocalSession → String → ActivityLog
logout_log r request_id =
    activity "LocalLogout" "Local session dicabut melalui logout aplikasi" r (some request_id)

abbrev active_profile : ProfileCache → ActiveProfile
active_profile p = record {
  external_user_id = p.external_user_id;
  name = p.name;
  email = p.email;
  groups = read_cached_groups p.groups;
  synced_at = p.synced_at;
}

abbrev active_session : LocalSession → ℕ → ActiveSession
active_session r now = record {
  id = r.id;
  central_session_id = r.central_session_id;
  created_at = r.created_at;
  expires_at = r.expires_at;
  last_activity_at = now;
}

-- The answer for a session that the write did not find active.
abbrev ended_state : LocalSessionStatus → Resolution
ended_state LocalSessionStatus.active = invalid
ended_state LocalSessionStatus.expired = expired
ended_state LocalSessionStatus.revoked = Resolution.revoked

abbrev current_state : ℕ → Option LocalSession → Resolution
current_state now none = invalid
current_state now (some r) = ended_state (classify r now)

module _ ⦃db : Prisma⦄ where
  -- The three branches of `resolveLocalSession`.
  unfoldable pub mark_expired : LocalSession → ℕ → AppAction Resolution
  unfolding update_sessions
  mark_expired r now = do
    n ← update_sessions (is_elapsed r.id now) expire
    (if n == 1 then modify (logged (expired_log r)) else pure tt)
    pure expired

  unfoldable pub keep_alive : LocalSession → ProfileCache → ℕ → AppAction Resolution
  unfolding update_sessions classify read_cached_groups
  keep_alive r p now = do
    n ← update_sessions (is_live r.id now) (touch now)
    current ← gets (λ s. find_one (λ (x : LocalSession). x.id === r.id) s.local_sessions)
    pure (
        if n == 1
        then active (active_profile p) (active_session r now)
        else current_state now current)

  unfoldable pub resolve_by :
      LocalSessionStatus → LocalSession → ProfileCache → ℕ → AppAction Resolution
  unfolding mark_expired keep_alive
  resolve_by LocalSessionStatus.expired r p now = mark_expired r now
  resolve_by LocalSessionStatus.revoked r p now = pure Resolution.revoked
  resolve_by LocalSessionStatus.active r p now = keep_alive r p now

  -- A session's profile is there, by the foreign key: without one it would not be found.
  unfoldable pub resolve_found :
      Option LocalSession → Option ProfileCache → ℕ → AppAction Resolution
  unfolding resolve_by classify
  resolve_found (some r) (some p) now = resolve_by (classify r now) r p now
  resolve_found _ _ now = pure invalid

  abbrev pub profile_of : Option LocalSession → AppStore → Option ProfileCache
  profile_of none s = none
  profile_of (some r) s =
      find_one (λ (p : ProfileCache). p.external_user_id === r.external_user_id) s.profiles

  -- The callback of the transaction of `resolveLocalSession`.
  unfoldable pub resolve_hash : String → ℕ → AppAction Resolution
  unfolding resolve_found
  resolve_hash h now = do
    r ← gets (λ s. find_one (is_session_token h) s.local_sessions)
    p ← gets (profile_of r)
    resolve_found r p now

  -- `resolveLocalSession`
  unfoldable pub resolve : (String → String) → String → ℕ → AppAction Resolution
  unfolding resolve_hash is_local_session_token
  resolve hash token now =
      if is_local_session_token token
      then transaction (resolve_hash (hash token) now)
      else pure invalid

  unfoldable pub revoke_found : Option LocalSession → String → ℕ → AppAction RevocationResult
  unfolding update_sessions can_revoke
  revoke_found none request_id now = pure no_change
  revoke_found (some r) request_id now =
      if can_revoke r now
      then (do
        n ← update_sessions (is_live r.id now) (revoke now "local_logout")
        (if n == 1 then modify (logged (logout_log r request_id)) else pure tt)
        pure (if n == 1 then revoked else no_change))
      else pure no_change

  -- `revokeLocalSession`
  unfoldable pub revoke_local_session :
      (String → String) → String → String → ℕ → AppAction RevocationResult
  unfolding revoke_found is_local_session_token
  revoke_local_session hash token request_id now =
      if is_local_session_token token
      then transaction (do
        r ← gets (λ s. find_one (is_session_token (hash token)) s.local_sessions)
        revoke_found r request_id now)
      else pure no_change
