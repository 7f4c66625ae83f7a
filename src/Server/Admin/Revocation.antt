-- ===== src/Server/Admin/Revocation.antt =====
-- `AdminRevocationService` of auth-provider/server/src/admin/admin-revocation.service.ts.
pub mod Complete
use seleksi2_labpro.Prelude.{
  ℕ, String, Bool, true, false, ◌&&◌, List, [], ◌∷◌, ◌++◌, map, Option, none, some, any, is_none,
  ◌===◌, if◌then◌else◌, Exec, pure, gets, ◌>>=◌, ◌>>◌,
}
use seleksi2_labpro.Database.{Prisma, find_one}
use seleksi2_labpro.Schema.Accounts.{UserGroup, ApplicationGroupPolicy}
use seleksi2_labpro.Schema.Sessions.{
  SsoSession, AccessToken, MfaLoginChallenge, SessionStatus, is_active,
}
use seleksi2_labpro.Shared.Json.{string, field, end}
use seleksi2_labpro.Shared.Event.{session_revoked, password_changed, access_policy_changed}
use seleksi2_labpro.Server.Store.{ServerStore, Handler, update_tokens, update_challenges}
use seleksi2_labpro.Server.Runtime.{Runtime}
use seleksi2_labpro.Server.Outbox.{NewRevocationEvent, enqueue_many}
use seleksi2_labpro.Server.Admin.{AdminCall, unique, numbered}
use seleksi2_labpro.Server.Admin.Rows.{update_and_return_sessions}

-- `{ in: ids }`
unfoldable pub is_one_of : List String → String → Bool
is_one_of ids id = any (λ x. x === id) ids

abbrev pub is_session_of : List String → SsoSession → Bool
is_session_of ids r = is_one_of ids r.user_id && is_active r.status && is_none r.revoked_at

abbrev pub is_token_of : List String → AccessToken → Bool
is_token_of ids r = is_one_of ids r.user_id && is_active r.status && is_none r.revoked_at

abbrev pub is_challenge_of : List String → MfaLoginChallenge → Bool
is_challenge_of ids r = is_one_of ids r.user_id && is_none r.used_at

abbrev pub revoke_session : ℕ → String → SsoSession → SsoSession
revoke_session now reason r = record r {
  status = SessionStatus.revoked;
  revoked_at = some now;
  revoke_reason = some reason;
}

abbrev pub revoke_token : ℕ → AccessToken → AccessToken
revoke_token now r = record r { status = SessionStatus.revoked; revoked_at = some now }

abbrev pub close_challenge : ℕ → MfaLoginChallenge → MfaLoginChallenge
close_challenge now r = record r { used_at = some now }

abbrev deactivation_event : ℕ → SsoSession → NewRevocationEvent
deactivation_event now r = record {
  event_type = session_revoked;
  user_id = r.user_id;
  central_session_id = some r.id;
  application_id = none;
  reason = "user_deactivated";
  occurred_at = now;
  metadata = some (field "source" (string "admin_user_deactivation") end);
}

abbrev pub password_event : ℕ → String → NewRevocationEvent
password_event now user_id = record {
  event_type = password_changed;
  user_id = user_id;
  central_session_id = none;
  application_id = none;
  reason = "password_changed";
  occurred_at = now;
  metadata = some (field "source" (string "admin_password_change") end);
}

abbrev pub access_event : ℕ → String × String → NewRevocationEvent
access_event now (user_id, application_id) = record {
  event_type = access_policy_changed;
  user_id = user_id;
  central_session_id = none;
  application_id = some application_id;
  reason = "access_policy_changed";
  occurred_at = now;
  metadata = some (field "source" (string "admin_access_change") end);
}

-- A policy of the application for a group that the user is in; `effect` is always ALLOW.
unfoldable pub allows : ServerStore → String → String → ApplicationGroupPolicy → Bool
allows s user_id application_id p =
    p.application_id === application_id
    && any (λ (m : UserGroup). m.user_id === user_id && m.group_id === p.group_id) s.user_groups

module _ ⦃db : Prisma⦄ where
  unfoldable pub has_access : ServerStore → String → String → Bool
  unfolding allows
  has_access s user_id application_id =
      elim (find_one (allows s user_id application_id) s.policies) [ none ↦ false | some p ↦ true ]

  -- The two loops of `revokeUsersWhoLostAccess`.
  unfoldable pub lost_of_user : ServerStore → String → List String → List (String × String)
  unfolding has_access
  lost_of_user s user_id [] = []
  lost_of_user s user_id (a ∷ applications) =
      let rest = lost_of_user s user_id applications in
      if has_access s user_id a then rest else (user_id, a) ∷ rest

  unfoldable pub lost_access : ServerStore → List String → List String → List (String × String)
  unfolding lost_of_user
  lost_access s [] applications = []
  lost_access s (u ∷ users) applications =
      lost_of_user s u applications ++ lost_access s users applications

module _ ⦃db : Prisma⦄ (rt : Runtime) (c : AdminCall) where
  unfoldable pub revoke_all : List String → String → Handler (List SsoSession)
  unfolding update_and_return_sessions update_tokens update_challenges is_one_of
  revoke_all ids reason = do
    revoked ← update_and_return_sessions (is_session_of ids) (revoke_session c.now reason)
    tokens ← update_tokens (is_token_of ids) (revoke_token c.now)
    challenges ← update_challenges (is_challenge_of ids) (close_challenge c.now)
    pure revoked

  abbrev pub revoke_unless_empty : List String → String → Handler (List SsoSession)
  revoke_unless_empty [] reason = pure []
  revoke_unless_empty (id ∷ ids) reason = revoke_all (id ∷ ids) reason

  -- `revokeSecurityState`
  unfoldable pub revoke_security_state : List String → String → Handler (List SsoSession)
  unfolding revoke_all unique
  revoke_security_state user_ids reason = revoke_unless_empty (unique user_ids) reason

  -- `revokeUsersForDeactivation`
  unfoldable pub revoke_users_for_deactivation : List String → Handler (Unit {0})
  unfolding revoke_security_state enqueue_many numbered
  revoke_users_for_deactivation user_ids = do
    revoked ← revoke_security_state user_ids "user_deactivated"
    events ← enqueue_many rt (numbered c.event_id 0 (map (deactivation_event c.now) revoked))
    pure tt

  abbrev pub revoke_for_password : List String → Handler (Unit {0})
  revoke_for_password [] = pure tt
  revoke_for_password (id ∷ ids) = do
    revoked ← revoke_security_state (id ∷ ids) "password_changed"
    events ← enqueue_many rt (numbered c.event_id 0 (map (password_event c.now) (id ∷ ids)))
    pure tt

  -- `revokeUsersForPasswordChange`
  unfoldable pub revoke_users_for_password_change : List String → Handler (Unit {0})
  unfolding revoke_security_state enqueue_many numbered
  revoke_users_for_password_change user_ids = revoke_for_password (unique user_ids)

  -- `revokeUsersWhoLostAccess`
  unfoldable pub revoke_users_who_lost_access : List String → List String → Handler (List String)
  unfolding revoke_security_state enqueue_many numbered lost_access
  revoke_users_who_lost_access candidate_user_ids application_ids = do
    lost ← gets (λ s. lost_access s (unique candidate_user_ids) (unique application_ids))
    let revoked_user_ids = unique (map (λ x. x.0) lost)
    revoked ← revoke_security_state revoked_user_ids "access_policy_changed"
    events ← enqueue_many rt (numbered c.event_id 0 (map (access_event c.now) lost))
    pure revoked_user_ids
