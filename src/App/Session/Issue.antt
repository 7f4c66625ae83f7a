-- ===== src/App/Session/Issue.antt =====
-- `issueLocalSession` and `recordCallbackFailure` of applications/app-a/src/lib/auth/local-session.ts.
use seleksi2_labpro.Prelude.{
  ℕ, ◌+◌, ◌*◌, String, List, [], ◌∷◌, none, some, ◌===◌, pure, modify, ◌>>◌,
}
use seleksi2_labpro.Database.{Prisma, transaction}
use seleksi2_labpro.Shared.Json.{string, array, Items, nil, cons, field, end}
use seleksi2_labpro.App.Store.{
  AppStore, AppAction, LocalSession, LocalSessionStatus, ProfileCache, ActivityLog, create_session,
  upsert_profile, logged,
}
use seleksi2_labpro.App.Session.{OAuthUserInfo, IssuedLocalSession, is_session_token}

abbrev items : List String → Items
items [] = nil
items (g ∷ gs) = cons (string g) (items gs)

abbrev new_profile : OAuthUserInfo → ℕ → ProfileCache
new_profile u now = record {
  external_user_id = u.external_user_id;
  name = u.name;
  email = u.email;
  groups = some (array (items u.groups));
  synced_at = now;
}

abbrev refresh : OAuthUserInfo → ℕ → ProfileCache → ProfileCache
refresh u now p = record p {
  name = u.name;
  email = u.email;
  groups = some (array (items u.groups));
  synced_at = now;
}

abbrev pub new_session : OAuthUserInfo → String → String → ℕ → ℕ → LocalSession
new_session u id hash now expires_at = record {
  id = id;
  session_token_hash = hash;
  external_user_id = u.external_user_id;
  central_session_id = u.central_session_id;
  status = LocalSessionStatus.active;
  created_at = now;
  expires_at = expires_at;
  last_activity_at = some now;
  revoked_at = none;
  revoke_reason = none;
}

abbrev success : OAuthUserInfo → String → String → String × String → ActivityLog
success u id request_id (event_type, message) = record {
  event_type = event_type;
  result = "SUCCESS";
  message = message;
  external_user_id = some u.external_user_id;
  local_session_id = some id;
  request_id = some request_id;
  metadata = none;
}

abbrev callback_failure : String → String → ActivityLog
callback_failure request_id reason = record {
  event_type = "OAuthCallbackFailed";
  result = "FAILURE";
  message = "Callback login tidak dapat diselesaikan";
  external_user_id = none;
  local_session_id = none;
  request_id = some request_id;
  metadata = some (field "reason" (string reason) end);
}

abbrev expires_at_of : ℕ → ℕ → ℕ
expires_at_of now ttl_seconds = now + ttl_seconds * 1000

module _ ⦃db : Prisma⦄ where
  abbrev pub logged_all : OAuthUserInfo → String → String → AppStore → AppStore
  logged_all u id request_id s =
      logged
        (success u id request_id ("LocalSessionCreated", "Local session aktif berhasil dibuat"))
        (logged
          (success u id request_id
            ("UserInfoFetched", "Profil user berhasil diperoleh dari Auth Provider"))
          (logged
            (success u id request_id (
              "AuthorizationCodeReceived",
              "Authorization code diterima dan divalidasi oleh callback",
            ))
            s))

  -- The callback of the transaction; `token` and `id` are the random ones.
  unfoldable pub open_session :
      OAuthUserInfo → String → String → String → ℕ → ℕ → AppAction (Unit {0})
  unfolding upsert_profile create_session
  open_session u hash id request_id now expires_at = do
    upsert_profile (λ p. p.external_user_id === u.external_user_id) (new_profile u now)
        (refresh u now)
    create_session (new_session u id hash now expires_at) (is_session_token hash)
    modify (logged_all u id request_id)

  -- `issueLocalSession`
  unfoldable pub issue :
      (String → String)
      → String
      → String
      → OAuthUserInfo
      → ℕ
      → String
      → ℕ
      → AppAction IssuedLocalSession
  unfolding open_session
  issue hash token id u ttl_seconds request_id now = do
    transaction (open_session u (hash token) id request_id now (expires_at_of now ttl_seconds))
    pure (record { token = token; id = id; expires_at = expires_at_of now ttl_seconds })

  -- `recordCallbackFailure`, whose own failure is ignored.
  unfoldable pub record_callback_failure : String → String → AppAction (Unit {0})
  record_callback_failure request_id reason = modify (logged (callback_failure request_id reason))
