-- ===== src/Server/Access.antt =====
-- `ControlPanelAccessService` of auth-provider/server/src/auth/control-panel-access.service.ts, and
-- `CentralSessionService` of central-session.service.ts.
use seleksi2_labpro.Prelude.{
  ℕ, ◌+◌, ◌*◌, String, Bool, ◌&&◌, not, none, some, ◌==◌, ◌===◌, length, any, pure, gets, throw_if,
  modify, ◌>>=◌, ◌>>◌,
}
use seleksi2_labpro.Database.{Prisma, find_many}
use seleksi2_labpro.Schema.Accounts.{User, Group, UserGroup, is_enabled}
use seleksi2_labpro.Schema.Sessions.{SsoSession, AuditLog, SessionStatus}
use seleksi2_labpro.Server.Store.{ServerStore, bad_request, Handler, create_session, audited}
use seleksi2_labpro.Server.Runtime.{Runtime, Settings, Call, hash_secret}

pub record SessionUser : Type 0 where
  pub id : String
  pub name : String
  pub email : String
  pub can_access_control_panel : Bool

pub record SessionDetails : Type 0 where
  pub id : String
  pub status : SessionStatus
  pub created_at : ℕ
  pub expires_at : ℕ

pub record AuthenticatedLoginResult : Type 0 where
  pub session_token : String
  pub user : SessionUser
  pub session : SessionDetails

-- `CONTROL_PANEL_ADMIN_GROUP_NAME`
abbrev pub control_panel_admin_group_name : String
control_panel_admin_group_name = "control-panel-admins"

-- A member of the group, by the join tables.
unfoldable pub is_administrator : ServerStore → String → Bool
is_administrator s user_id =
    any
      (λ (m : UserGroup).
        m.user_id === user_id
        && any (λ (g : Group). g.id === m.group_id && g.name === control_panel_admin_group_name)
            s.groups)
      s.user_groups

abbrev pub new_session : Runtime → Settings → Call → String → SsoSession
new_session rt cfg c user_id = record {
  id = c.fresh_id;
  user_id = user_id;
  session_token_hash = hash_secret rt c.fresh_token;
  status = SessionStatus.active;
  created_at = c.now;
  expires_at = c.now + cfg.sso_session_ttl_seconds * 1000;
  last_activity_at = some c.now;
  revoked_at = none;
  revoke_reason = none;
  ip_address = c.ip_address;
  user_agent = c.user_agent;
}

abbrev login_succeeded : Call → String → String → AuditLog
login_succeeded c user_id authentication_method = record {
  event_type = "LoginSucceeded";
  actor_id = some user_id;
  user_id = some user_id;
  application_id = none;
  session_id = some c.fresh_id;
  result = "SUCCESS";
  detail = some authentication_method;
  ip_address = c.ip_address;
}

module _ ⦃db : Prisma⦄ where
  -- `canAccess`; `user.count` is the length of what `findMany` returns.
  unfoldable pub can_access : String → ServerStore → Bool
  unfolding is_administrator
  can_access user_id s =
      length (
        find_many (λ (u : User). u.id === user_id && is_enabled u.status && is_administrator s u.id)
          s.users)
      == 1

  -- `assertAnotherActiveAdministratorExists`
  unfoldable pub assert_another_active_administrator_exists : String → Handler (Unit {0})
  unfolding is_administrator
  assert_another_active_administrator_exists user_id = do
    others ← gets (λ s.
        find_many
          (λ (u : User). not (u.id === user_id) && is_enabled u.status && is_administrator s u.id)
          s.users)
    throw_if (length others == 0) (bad_request "LAST_CONTROL_PANEL_ADMIN")

module _ ⦃db : Prisma⦄ (rt : Runtime) (cfg : Settings) (c : Call) where
  -- `CentralSessionService.issue`
  unfoldable pub issue : SessionUser → String → Handler AuthenticatedLoginResult
  unfolding create_session
  issue user authentication_method = do
    create_session (λ r. r.session_token_hash === hash_secret rt c.fresh_token)
        (new_session rt cfg c user.id)
    modify (audited (login_succeeded c user.id authentication_method))
    pure (record {
      session_token = c.fresh_token;
      user = user;
      session = record {
        id = c.fresh_id;
        status = SessionStatus.active;
        created_at = c.now;
        expires_at = c.now + cfg.sso_session_ttl_seconds * 1000;
      };
    })
