-- ===== src/Server/Admin/Tests.antt =====
-- Administration of a small organisation.
use mathlib.Core.List.Memᴰ.{head}
use seleksi2_labpro.Prelude.{
  ◌≡◌, ◌≢◌, refl, String, [], ◌∷◌, Option, none, some, ok, err, Result, arith, ◌>>=◌, find_by,
  count, any, filter, update_where,
}
use seleksi2_labpro.Database.{reference, reference-IsDocumented}
use seleksi2_labpro.Schema.Accounts.{
  User, Group, UserGroup, active, inactive, ApplicationRedirectUri,
}
use seleksi2_labpro.Schema.Sessions.{SessionStatus}
use seleksi2_labpro.Shared.Json.{string}
use seleksi2_labpro.Shared.Canonical.{units}
use seleksi2_labpro.Server.Store.{
  ServerStore, ServerError, user_info, bad_request, update_tokens, update_challenges, update_codes,
}
use seleksi2_labpro.Server.Runtime.{read_bounded_string, is_letter, is_figure, is_url_safe, every}
use seleksi2_labpro.Server.Outbox.{enqueue_many, enqueue_all}
use seleksi2_labpro.Server.Access.{
  can_access, is_administrator, assert_another_active_administrator_exists,
  control_panel_admin_group_name,
}
use seleksi2_labpro.Server.Samples.{
  plain, settings, call, opaque, organisation, session, token, code,
}
use seleksi2_labpro.Server.Auth.{get_current_session, invalid_session}
use seleksi2_labpro.Server.UserInfo.{get_profile, parse_bearer_token, strip_prefix_nocase}
use seleksi2_labpro.Server.Token.{TokenRequestInput, exchange}
use seleksi2_labpro.Server.Admin.{AdminCall, unique, numbered}
use seleksi2_labpro.Server.Admin.Rows.{update_user_row, delete_uri, update_and_return_sessions}
use seleksi2_labpro.Server.Admin.Revocation.{
  revoke_all, revoke_security_state, revoke_users_for_password_change,
  revoke_users_for_deactivation, is_one_of,
}
use seleksi2_labpro.Server.Admin.Revocation.Complete.{IsSignedOut}
use seleksi2_labpro.Server.Admin.Users.{
  update_password, set_password, update_status, change_status, set_status, remove_group_membership,
}
use seleksi2_labpro.Server.Admin.Users.SignedOut.{
  update_password_refuses_session, update_password_refuses_profile, deactivation-IsSignedOut,
}
use seleksi2_labpro.Server.Admin.Administrators.{IsAdministered, IsKeyed}
use seleksi2_labpro.Server.Admin.Administrators.Status.{update_status_keeps_administrator}
use seleksi2_labpro.Server.Admin.Administrators.Membership.{
  remove_group_membership_keeps_administrator,
}
use seleksi2_labpro.Server.Admin.Applications.{
  add_redirect_uri, remove_redirect_uri, unregister_uri,
}
use seleksi2_labpro.Server.Admin.Applications.RedirectUris.{
  IsWithinLimit, add_redirect_uri_bounds, removed_uri_exchanges_nothing,
}

abbrev admin_call : AdminCall
admin_call = record {
  actor = record { user_id = "admin"; session_id = "s"; ip_address = none };
  now = 1000;
  fresh_id = "new";
  event_id = λ n. "event";
  hash_password = λ p. p;
}

changed : Result ServerError (Unit {0}) × ServerStore
unfolding update_password set_password update_user_row revoke_users_for_password_change
    revoke_security_state revoke_all unique numbered is_one_of update_and_return_sessions
    update_tokens update_challenges enqueue_many enqueue_all find_by count any filter update_where
    ◌>>=◌
changed = update_password ⦃db = reference⦄ plain admin_call "user" "pw2" organisation

after_change : ServerStore
unfolding changed
after_change = changed.1

changes : changed.0 ≡ ok tt
unfolding changed
changes = refl

abbrev bearer : Option String
bearer = some "Bearer ABCDEFGHIJKLMNOPQRSTUVWXYZabcdefghijklmnopq"

bearer_parses : parse_bearer_token bearer ≡ some opaque
unfolding parse_bearer_token is_url_safe every strip_prefix_nocase is_letter is_figure
bearer_parses = refl

update_password_refuses_session_example :
    (get_current_session ⦃db = reference⦄ plain settings (call 2000 "x") "cookie" after_change).0
    ≡ err invalid_session
unfolding after_change changed find_by
update_password_refuses_session_example =
    update_password_refuses_session ⦃db = reference⦄ reference-IsDocumented plain settings
      admin_call (call 2000 "x") "user" "pw2" organisation after_change "cookie"
      (record session {
        status = SessionStatus.revoked;
        revoked_at = some 1000;
        revoke_reason = some "password_changed";
      })
      changes refl refl refl

update_password_refuses_profile_example :
    (get_profile ⦃db = reference⦄ plain (call 2000 "x") bearer after_change).0 ≡ err user_info
unfolding after_change changed find_by
update_password_refuses_profile_example =
    update_password_refuses_profile ⦃db = reference⦄ reference-IsDocumented plain settings
      admin_call (call 2000 "x") "user" "pw2" organisation after_change opaque bearer
      (record token { status = SessionStatus.revoked; revoked_at = some 1000 }) changes refl
      bearer_parses refl refl

abbrev the_user : User
the_user = record { id = "user"; name = "U"; email = "u@x"; password_hash = "pw"; status = active }

deactivates :
    (update_status ⦃db = reference⦄ plain admin_call "user" inactive organisation).0
    ≡ ok (record the_user { status = inactive })
unfolding update_status change_status set_status update_user_row revoke_users_for_deactivation
    revoke_security_state revoke_all unique numbered is_one_of update_and_return_sessions
    update_tokens update_challenges enqueue_many enqueue_all can_access is_administrator find_by
    count any filter update_where ◌>>=◌
deactivates = refl

deactivation-IsSignedOut_example :
    IsSignedOut "user"
      (update_status ⦃db = reference⦄ plain admin_call "user" inactive organisation).1
unfolding find_by
deactivation-IsSignedOut_example =
    deactivation-IsSignedOut ⦃db = reference⦄ reference-IsDocumented plain admin_call "user"
      organisation the_user (record the_user { status = inactive }) refl refl deactivates

abbrev administrators : Group
administrators = record { id = "admins"; name = control_panel_admin_group_name; description = none }

abbrev membership : UserGroup
membership = record { id = "m"; user_id = "user"; group_id = "admins" }

abbrev administered : ServerStore
administered = record organisation { groups = administrators ∷ []; user_groups = membership ∷ [] }

administered-IsKeyed : IsKeyed administered
unfolding count
administered-IsKeyed = record {
  users = λ id. ground arith;
  groups = λ id. ground arith;
  members = λ id. ground arith;
}

administered-IsAdministered : IsAdministered administered
administered-IsAdministered = record {
  user = the_user;
  member = membership;
  group = administrators;
  has_user = head refl;
  has_member = head refl;
  has_group = head refl;
  enabled = refl;
  of_user = refl;
  of_group = refl;
  name = refl;
}

-- The last administrator is neither deactivated nor taken out of the group.
keeps_status :
    (update_status ⦃db = reference⦄ plain admin_call "user" inactive administered).0
    ≡ err (bad_request "LAST_CONTROL_PANEL_ADMIN")
unfolding update_status change_status can_access is_administrator
    assert_another_active_administrator_exists find_by any filter ◌>>=◌
keeps_status = refl

update_status_keeps_administrator_example :
    IsAdministered (update_status ⦃db = reference⦄ plain admin_call "user" inactive administered).1
update_status_keeps_administrator_example =
    update_status_keeps_administrator ⦃db = reference⦄ reference-IsDocumented plain admin_call
      "user" inactive administered administered-IsKeyed administered-IsAdministered

remove_group_membership_keeps_administrator_example :
    IsAdministered
      (remove_group_membership ⦃db = reference⦄ plain admin_call "user" "admins" administered).1
remove_group_membership_keeps_administrator_example =
    remove_group_membership_keeps_administrator ⦃db = reference⦄ reference-IsDocumented plain
      admin_call "user" "admins" administered administered-IsKeyed administered-IsAdministered

add_redirect_uri_bounds_example :
    IsWithinLimit "app"
      (add_redirect_uri ⦃db = reference⦄ plain admin_call "app" "https://b/callback" organisation).1
unfolding count
add_redirect_uri_bounds_example =
    add_redirect_uri_bounds ⦃db = reference⦄ reference-IsDocumented plain admin_call "app"
      "https://b/callback" "app" organisation (omega arith)

abbrev uri : ApplicationRedirectUri
uri = record { id = "r"; application_id = "app"; redirect_uri = "https://app/callback" }

abbrev two_uris : ServerStore
two_uris = record organisation {
  redirect_uris =
      uri ∷ record { id = "q"; application_id = "app"; redirect_uri = "https://b/callback" } ∷ [];
}

removal : Result ServerError (Unit {0}) × ServerStore
unfolding remove_redirect_uri unregister_uri delete_uri update_codes find_by count filter
    update_where ◌>>=◌
removal = remove_redirect_uri ⦃db = reference⦄ plain admin_call "app" "r" two_uris

after_removal : ServerStore
unfolding removal
after_removal = removal.1

removes : removal.0 ≡ ok tt
unfolding removal
removes = refl

abbrev input : TokenRequestInput
input = record {
  grant_type = some (string "authorization_code");
  code = some (string "the-code");
  redirect_uri = some (string "https://app/callback");
  code_verifier = some (string opaque);
}

removed_uri_exchanges_nothing_example :
    (exchange ⦃db = reference⦄ plain settings
      (call 2000 "x")
      input
      (some "Basic YXBwOnNlY3JldA==")
      after_removal).0
    ≢ ok (record { access_token = "x"; expires_in = 300; scope = "profile" })
unfolding removal after_removal find_by filter read_bounded_string units
removed_uri_exchanges_nothing_example =
    removed_uri_exchanges_nothing ⦃db = reference⦄ reference-IsDocumented plain settings admin_call
      (call 2000 "x") "app" "r" "the-code" two_uris after_removal uri
      (record code { used_at = some 1000 }) input (some "Basic YXBwOnNlY3JldA==")
      (record { access_token = "x"; expires_in = 300; scope = "profile" }) refl removes refl refl
      refl refl refl
