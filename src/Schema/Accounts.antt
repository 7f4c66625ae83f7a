-- ===== src/Schema/Accounts.antt =====
-- Users, groups, applications and policies.
use seleksi2_labpro.Prelude.{String, Bool, true, false, Option}

-- `UserStatus` and `ApplicationStatus`.
pub data ActivityStatus : Type 0 where
  active inactive : ActivityStatus

-- `=== 'ACTIVE'`
abbrev pub is_enabled : ActivityStatus → Bool
is_enabled active = true
is_enabled inactive = false

pub record User : Type 0 where
  pub id : String
  pub name : String
  pub email : String
  pub password_hash : String
  pub status : ActivityStatus

pub record Group : Type 0 where
  pub id : String
  pub name : String
  pub description : Option String

pub record UserGroup : Type 0 where
  pub id : String
  pub user_id : String
  pub group_id : String

pub record Application : Type 0 where
  pub id : String
  pub name : String
  pub client_id : String
  pub client_secret_hash : Option String
  pub status : ActivityStatus
  pub launch_url : Option String
  pub logout_notification_url : String

pub record ApplicationRedirectUri : Type 0 where
  pub id : String
  pub application_id : String
  pub redirect_uri : String

-- `effect` has the one value ALLOW.
pub record ApplicationGroupPolicy : Type 0 where
  pub id : String
  pub application_id : String
  pub group_id : String
