-- ===== src/Server/Admin/Applications.antt =====
-- `AdminApplicationsService` of auth-provider/server/src/admin/admin-applications.service.ts. A row
-- that is locked with FOR UPDATE is a row that is found. The order of what `listApplications` returns
-- is the table's.
pub mod RedirectUris
use seleksi2_labpro.Prelude.{
  ℕ, String, Bool, true, false, ◌&&◌, ◌||◌, not, List, [], ◌∷◌, map, Option, none, some, is_none,
  is_some, some_and, length, leb, find_by, ◌==◌, ◌===◌, if◌then◌else◌, Exec, pure, throw, gets,
  or_throw, throw_if, modify, ◌>>=◌, ◌>>◌,
}
use seleksi2_labpro.Database.{
  Prisma, find_one, find_many, transaction, update_many, delete_many, create,
}
use seleksi2_labpro.Schema.Accounts.{
  Application, ApplicationRedirectUri, ApplicationGroupPolicy, Group, UserGroup, ActivityStatus,
  active, inactive, is_enabled,
}
use seleksi2_labpro.Schema.Sessions.{AccessToken, AuthorizationCode, is_active}
use seleksi2_labpro.Server.Store.{
  ServerStore, ServerError, bad_request, not_found, conflict, unique_constraint, record_not_found,
  Handler, update_tokens, update_codes, audited,
}
use seleksi2_labpro.Server.Runtime.{Runtime, hash_secret}
use seleksi2_labpro.Server.Authorization.{is_supported_redirect_uri}
use seleksi2_labpro.Server.Admin.{AdminCall, admin_audit, numbered}
use seleksi2_labpro.Server.Admin.Rows.{
  has_id, is_uri, create_application_row, update_application_row, create_uri, create_uris,
  delete_uri,
}
use seleksi2_labpro.Server.Admin.Revocation.{revoke_users_who_lost_access, revoke_token}

pub record CreateApplication : Type 0 where
  pub name : String
  pub client_id : String
  pub client_secret : Option String
  pub launch_url : Option String
  pub logout_notification_url : String
  pub redirect_uris : List String

-- A launch URL that is `undefined` is `none`, one that is `null` is `some none`.
pub record UpdateApplication : Type 0 where
  pub name : Option String
  pub status : Option ActivityStatus
  pub launch_url : Option (Option String)
  pub logout_notification_url : Option String

abbrev pub application_not_found : ServerError
application_not_found = not_found "APPLICATION_NOT_FOUND"

abbrev invalid_request : ServerError
invalid_request = bad_request "INVALID_ADMIN_REQUEST"

abbrev trimmed : Runtime → Option String → Option String
trimmed rt none = none
trimmed rt (some s) = some (rt.trim s)

abbrev or_old {ℓ} : {A : Type ℓ} → Option A → A → A
or_old none old = old
or_old (some a) old = a

abbrev pub is_uri_of : String → ApplicationRedirectUri → Bool
is_uri_of application_id r = r.application_id === application_id

-- The unused codes that were issued for the redirect URI.
abbrev pub is_unused_code : String → String → AuthorizationCode → Bool
is_unused_code application_id uri r =
    r.application_id === application_id && r.redirect_uri === uri && is_none r.used_at

abbrev pub use_up : ℕ → AuthorizationCode → AuthorizationCode
use_up now r = record r { used_at = some now }

abbrev is_token_for : String → AccessToken → Bool
is_token_for application_id r =
    r.application_id === application_id && is_active r.status && is_none r.revoked_at

abbrev goes_inactive : ActivityStatus → Option ActivityStatus → Bool
goes_inactive active (some inactive) = true
goes_inactive _ _ = false

abbrev changed : Option String → UpdateApplication → Application → Application
changed name input a = record a {
  name = or_old name a.name;
  status = or_old input.status a.status;
  launch_url = or_old input.launch_url a.launch_url;
  logout_notification_url = or_old input.logout_notification_url a.logout_notification_url;
}

module _ ⦃db : Prisma⦄ where
  abbrev pub find_application : String → ServerStore → Option Application
  find_application id s = find_one (has_id id) s.applications

  abbrev pub uris_of : String → ServerStore → List ApplicationRedirectUri
  uris_of application_id s = find_many (is_uri_of application_id) s.redirect_uris

  -- `listApplications`
  unfoldable pub list_applications : Handler (List Application)
  list_applications = gets (λ s. find_many (λ a. true) s.applications)

  -- `getApplication`
  unfoldable pub get_application : String → Handler Application
  get_application id = do found ← gets (find_application id); or_throw found application_not_found

module _ ⦃db : Prisma⦄ (rt : Runtime) (c : AdminCall) where
  abbrev pub new_application : CreateApplication → String → String → String → Application
  new_application input name client_id secret = record {
    id = c.fresh_id;
    name = name;
    client_id = client_id;
    client_secret_hash = some (hash_secret rt secret);
    status = active;
    launch_url = input.launch_url;
    logout_notification_url = input.logout_notification_url;
  }

  abbrev pub changes : String → Handler (Unit {0})
  changes application_id =
      modify (audited (admin_audit c "ApplicationChanged" none (some application_id)))

  -- `createApplication`; `fresh_secret` is what `generateOpaqueToken` draws.
  unfoldable pub create_application : String → CreateApplication → Handler (Application × String)
  unfolding create_application_row create_uris numbered
  create_application fresh_secret input = do
    let name = rt.trim input.name
    let client_id = rt.trim input.client_id
    let client_secret = or_old input.client_secret fresh_secret
    throw_if (name === "") invalid_request
    existing ← gets (λ s. find_one (λ (a : Application). a.client_id === client_id) s.applications)
    throw_if (is_some existing) (conflict "CLIENT_ID_ALREADY_EXISTS")
    let application = new_application input name client_id client_secret
    transaction (do
      create_application_row (λ a. a.client_id === client_id) application
      create_uris application.id (numbered c.event_id 0 input.redirect_uris)
      changes application.id
      pure (application, client_secret))

  abbrev revoke_tokens : String → Handler (Unit {0})
  revoke_tokens application_id =
      update_tokens (is_token_for application_id) (revoke_token c.now) >>= λ n. pure tt

  -- `updateApplication`
  unfoldable pub update_application : String → UpdateApplication → Handler Application
  unfolding update_application_row update_tokens
  update_application application_id input = do
    found ← gets (find_application application_id)
    application ← or_throw found application_not_found
    let name = trimmed rt input.name
    throw_if (some_and (λ n. n === "") name) invalid_request
    throw_if
        (is_none name
          && is_none input.status
          && is_none input.launch_url
          && is_none input.logout_notification_url)
        invalid_request
    transaction (do
      row ← update_application_row application_id (changed name input)
      (if goes_inactive application.status input.status
          then revoke_tokens application_id
          else pure tt)
      changes application_id
      pure row)

  -- `rotateClientSecret`
  unfoldable pub rotate_client_secret : String → String → Handler (String × String)
  unfolding update_application_row
  rotate_client_secret client_secret application_id = transaction (do
    found ← gets (find_application application_id)
    application ← or_throw found application_not_found
    row ←
        update_application_row application_id
          (λ a. record a { client_secret_hash = some (hash_secret rt client_secret) })
    changes application_id
    pure (application.client_id, client_secret))

  -- The callback of the transaction of `addRedirectUri`.
  unfoldable pub register_uri : String → String → Handler ApplicationRedirectUri
  unfolding create_uri
  register_uri application_id uri = do
    found ← gets (find_application application_id)
    application ← or_throw found application_not_found
    existing ← gets (λ s. find_one (is_uri application_id uri) s.redirect_uris)
    uris ← gets (uris_of application_id)
    throw_if (is_some existing) (conflict "REDIRECT_URI_ALREADY_EXISTS")
    throw_if (leb 20 (length uris)) (bad_request "REDIRECT_URI_LIMIT_REACHED")
    let row : ApplicationRedirectUri = record {
      id = c.fresh_id;
      application_id = application_id;
      redirect_uri = uri;
    }
    create_uri row
    changes application_id
    pure row

  -- `addRedirectUri`
  unfoldable pub add_redirect_uri : String → String → Handler ApplicationRedirectUri
  unfolding register_uri is_supported_redirect_uri
  add_redirect_uri application_id uri = do
    throw_if (not (is_supported_redirect_uri rt uri)) invalid_request
    transaction (register_uri application_id uri)

  -- The callback of the transaction of `removeRedirectUri`.
  unfoldable pub unregister_uri : String → String → Handler (Unit {0})
  unfolding delete_uri update_codes
  unregister_uri application_id redirect_uri_id = do
    found ← gets (find_application application_id)
    application ← or_throw found application_not_found
    uris ← gets (uris_of application_id)
    uri ←
        or_throw (find_by (λ (r : ApplicationRedirectUri). r.id === redirect_uri_id) uris)
          (not_found "REDIRECT_URI_NOT_FOUND")
    throw_if (length uris == 1) (bad_request "REDIRECT_URI_MINIMUM_REQUIRED")
    delete_uri redirect_uri_id
    codes ← update_codes (is_unused_code application_id uri.redirect_uri) (use_up c.now)
    changes application_id

  -- `removeRedirectUri`
  unfoldable pub remove_redirect_uri : String → String → Handler (Unit {0})
  unfolding unregister_uri
  remove_redirect_uri application_id redirect_uri_id =
      transaction (unregister_uri application_id redirect_uri_id)
