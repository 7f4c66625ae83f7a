-- ===== src/Server/Admin.antt =====
-- Administration: auth-provider/server/src/admin. What its services share.
pub mod Rows
pub mod Revocation
pub mod Directory
pub mod Administrators
pub mod Users
pub mod Groups
pub mod Applications
pub mod Policies
mod Tests
use seleksi2_labpro.Prelude.{
  ℕ, ◌+◌, String, Bool, true, false, not, List, [], ◌∷◌, Option, none, some, filter, ◌===◌, Exec,
  pure, throw, gets, or_throw, modify, ◌>>=◌, ◌>>◌, ok, throw_if, is_some, ◌==◌,
}
use seleksi2_labpro.Database.{Prisma, find_one, update_many, update_and_return, create, delete_many}
use seleksi2_labpro.Schema.Accounts.{User, Group, UserGroup, ApplicationGroupPolicy}
use seleksi2_labpro.Schema.Sessions.{SsoSession, AuditLog}
use seleksi2_labpro.Server.Store.{
  ServerStore, Handler, unique_constraint, record_not_found, update_tokens, update_challenges,
}

pub record AdminActor : Type 0 where
  pub user_id : String
  pub session_id : String
  pub ip_address : Option String

-- One call: who makes it and when, the identifier of the row that it creates, those of the events
-- that it enqueues, and the hash that Argon2 makes of a password.
pub record AdminCall : Type 0 where
  pub actor : AdminActor
  pub now : ℕ
  pub fresh_id : String
  pub event_id : ℕ → String
  pub hash_password : String → String

abbrev pub admin_audit : AdminCall → String → Option String → Option String → AuditLog
admin_audit c event_type user_id application_id = record {
  event_type = event_type;
  actor_id = some c.actor.user_id;
  user_id = user_id;
  application_id = application_id;
  session_id = some c.actor.session_id;
  result = "SUCCESS";
  detail = none;
  ip_address = c.actor.ip_address;
}

-- `[...new Set(xs)]`
unfoldable pub unique : List String → List String
unique [] = []
unique (x ∷ xs) = x ∷ filter (λ y. not (y === x)) (unique xs)

-- The rows of a list, numbered by the identifiers that are drawn for them.
unfoldable pub numbered {ℓ} : {A : Type ℓ} → (ℕ → String) → ℕ → List A → List (String × A)
numbered f n [] = []
numbered f n (x ∷ xs) = (f n, x) ∷ numbered f (n + 1) xs
