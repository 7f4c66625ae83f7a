-- ===== src/Server/Admin/Users.antt =====
-- `AdminUsersService` of auth-provider/server/src/admin/admin-users.service.ts. The order of what
-- `listUsers` returns is the table's.
pub mod SignedOut
use seleksi2_labpro.Prelude.{
  ℕ, String, Bool, true, false, ◌&&◌, ◌||◌, not, List, [], ◌∷◌, map, Option, none, some, any,
  filter, is_none, is_some, some_and, ◌===◌, if◌then◌else◌, Exec, pure, throw, gets, or_throw,
  throw_if, modify, ◌>>=◌, ◌>>◌,
}
use seleksi2_labpro.Database.{Prisma, find_one, find_many, transaction}
use seleksi2_labpro.Schema.Accounts.{
  User, Group, UserGroup, ApplicationGroupPolicy, ActivityStatus, active, inactive, is_enabled,
}
use seleksi2_labpro.Server.Store.{
  ServerStore, ServerError, bad_request, not_found, conflict, Handler, audited,
}
use seleksi2_labpro.Server.Runtime.{Runtime}
use seleksi2_labpro.Server.Access.{
  can_access, assert_another_active_administrator_exists, control_panel_admin_group_name,
}
use seleksi2_labpro.Server.Admin.{AdminCall, admin_audit}
use seleksi2_labpro.Server.Admin.Rows.{
  create_user_row, update_user_row, create_membership, delete_membership,
}
use seleksi2_labpro.Server.Admin.Revocation.{
  revoke_users_for_deactivation, revoke_users_for_password_change, revoke_users_who_lost_access,
}

pub record CreateUser : Type 0 where
  pub name : String
  pub email : String
  pub password : String

pub record UpdateUser : Type 0 where
  pub name : Option String
  pub email : Option String

abbrev pub same_status : ActivityStatus → ActivityStatus → Bool
same_status active active = true
same_status inactive inactive = true
same_status _ _ = false

abbrev user_not_found : ServerError
user_not_found = not_found "USER_NOT_FOUND"

abbrev invalid_request : ServerError
invalid_request = bad_request "INVALID_ADMIN_REQUEST"

abbrev has_user_id : String → User → Bool
has_user_id id u = u.id === id

abbrev optional : {A : Type 0} → (A → String) → Option A → Option String
optional f none = none
optional f (some a) = some (f a)

-- An optional text that JavaScript takes for false: a missing one, or an empty one.
abbrev non_empty : Option String → Option String
non_empty none = none
non_empty (some s) = if s === "" then none else some s

abbrev or_old : Option String → String → String
or_old none old = old
or_old (some s) old = s

abbrev new_user : AdminCall → CreateUser → String → String → User
new_user c input name email = record {
  id = c.fresh_id;
  name = name;
  email = email;
  password_hash = c.hash_password input.password;
  status = active;
}

abbrev new_membership : AdminCall → String → String → UserGroup
new_membership c user_id group_id = record {
  id = c.fresh_id;
  user_id = user_id;
  group_id = group_id;
}

abbrev is_taken : Option User → Option String → Bool
is_taken none excluded = false
is_taken (some u) none = true
is_taken (some u) (some id) = not (u.id === id)

abbrev pub group_name_is : String → Option Group → Bool
group_name_is name none = false
group_name_is name (some g) = g.name === name

module _ ⦃db : Prisma⦄ where
  abbrev pub find_user : String → ServerStore → Option User
  find_user id s = find_one (has_user_id id) s.users

  abbrev pub find_group : String → ServerStore → Option Group
  find_group id s = find_one (λ (g : Group). g.id === id) s.groups

  abbrev pub find_membership : String → String → ServerStore → Option UserGroup
  find_membership user_id group_id s =
      find_one (λ (m : UserGroup). m.user_id === user_id && m.group_id === group_id) s.user_groups

  -- The applications that the group's policies name.
  abbrev pub applications_of : String → ServerStore → List String
  applications_of group_id s =
      map (λ (p : ApplicationGroupPolicy). p.application_id)
        (find_many (λ (p : ApplicationGroupPolicy). p.group_id === group_id) s.policies)

  -- `listUsers`
  unfoldable pub list_users : Handler (List User)
  list_users = gets (λ s. find_many (λ u. true) s.users)

  -- `getUser`
  unfoldable pub get_user : String → Handler User
  get_user id = do found ← gets (find_user id); or_throw found user_not_found

  -- `assertEmailAvailable`
  unfoldable pub assert_email_available : String → Option String → Handler (Unit {0})
  assert_email_available email excluded = do
    found ← gets (λ s. find_one (λ (u : User). u.email === email) s.users)
    throw_if (is_taken found excluded) (conflict "EMAIL_ALREADY_EXISTS")

module _ ⦃db : Prisma⦄ (rt : Runtime) (c : AdminCall) where
  -- `createUser`
  unfoldable pub create_user : CreateUser → Handler User
  unfolding create_user_row assert_email_available
  create_user input = do
    let name = rt.trim input.name
    let email = rt.normalize input.email
    throw_if (name === "") invalid_request
    assert_email_available email none
    let user = new_user c input name email
    transaction (do
      create_user_row (λ u. u.email === email) user
      modify (audited (admin_audit c "UserCreated" (some user.id) none))
      pure user)

  -- The test for another user of the address, where the address changes.
  abbrev assert_new_email_available : Option String → User → Handler (Unit {0})
  assert_new_email_available none user = pure tt
  assert_new_email_available (some email) user =
      if email === "" || email === user.email
      then pure tt
      else assert_email_available email (some user.id)

  -- `updateUser`
  unfoldable pub update_user : String → UpdateUser → Handler User
  unfolding update_user_row assert_email_available
  update_user user_id input = do
    found ← gets (find_user user_id)
    user ← or_throw found user_not_found
    let name = optional rt.trim input.name
    let email = optional rt.normalize (non_empty input.email)
    throw_if (some_and (λ n. n === "") name) invalid_request
    throw_if (is_none name && is_none email) invalid_request
    assert_new_email_available email user
    transaction (do
      row ←
          update_user_row (λ u. some_and (λ e. u.email === e) email && not (u.id === user_id))
            user_id (λ u. record u { name = or_old name u.name; email = or_old email u.email })
      modify (audited (admin_audit c "UserChanged" (some user_id) none))
      pure row)

  -- The transaction of `updateStatus`.
  abbrev pub revoke_if_inactive : ActivityStatus → String → Handler (Unit {0})
  revoke_if_inactive active user_id = pure tt
  revoke_if_inactive inactive user_id = revoke_users_for_deactivation rt c (user_id ∷ [])

  unfoldable pub set_status : String → ActivityStatus → Handler User
  unfolding update_user_row revoke_users_for_deactivation
  set_status user_id status = do
    row ← update_user_row (λ u. false) user_id (λ u. record u { status = status })
    revoke_if_inactive status user_id
    modify (audited (admin_audit c "UserChanged" (some user_id) none))
    pure row

  -- What follows the test for a status that stays the same.
  unfoldable pub change_status : String → ActivityStatus → Handler User
  unfolding set_status can_access assert_another_active_administrator_exists
  change_status user_id status = do
    administrates ← gets (can_access user_id)
    (if not (is_enabled status) && administrates
        then assert_another_active_administrator_exists user_id
        else pure tt)
    transaction (set_status user_id status)

  -- `updateStatus`
  unfoldable pub update_status : String → ActivityStatus → Handler User
  unfolding change_status get_user
  update_status user_id status = do
    found ← gets (find_user user_id)
    user ← or_throw found user_not_found
    if same_status user.status status then get_user user_id else change_status user_id status

  unfoldable pub set_password : String → String → Handler (Unit {0})
  unfolding update_user_row revoke_users_for_password_change
  set_password user_id password_hash = do
    row ← update_user_row (λ u. false) user_id (λ u. record u { password_hash = password_hash })
    revoke_users_for_password_change rt c (user_id ∷ [])
    modify (audited (admin_audit c "PasswordChanged" (some user_id) none))

  -- `updatePassword`
  unfoldable pub update_password : String → String → Handler (Unit {0})
  unfolding set_password
  update_password user_id password = do
    found ← gets (find_user user_id)
    user ← or_throw found user_not_found
    transaction (set_password user_id (c.hash_password password))

  -- `addGroupMembership`
  unfoldable pub add_group_membership : String → String → Handler UserGroup
  unfolding create_membership
  add_group_membership user_id group_id = do
    found ← gets (find_user user_id)
    user ← or_throw found user_not_found
    found_group ← gets (find_group group_id)
    group ← or_throw found_group (not_found "GROUP_NOT_FOUND")
    existing ← gets (find_membership user_id group_id)
    throw_if (is_some existing) (conflict "MEMBERSHIP_ALREADY_EXISTS")
    let membership = new_membership c user_id group_id
    transaction (do
      create_membership (λ m. m.user_id === user_id && m.group_id === group_id) membership
      modify (audited (admin_audit c "GroupChanged" (some user_id) none))
      pure membership)

  unfoldable pub drop_membership : UserGroup → String → List String → Handler (Unit {0})
  unfolding delete_membership revoke_users_who_lost_access
  drop_membership membership user_id application_ids = do
    delete_membership membership.id
    revoked ← revoke_users_who_lost_access rt c (user_id ∷ []) application_ids
    modify (audited (admin_audit c "GroupChanged" (some user_id) none))

  -- `removeGroupMembership`
  unfoldable pub remove_group_membership : String → String → Handler (Unit {0})
  unfolding drop_membership assert_another_active_administrator_exists
  remove_group_membership user_id group_id = do
    found ← gets (find_membership user_id group_id)
    membership ← or_throw found (not_found "MEMBERSHIP_NOT_FOUND")
    group ← gets (find_group group_id)
    application_ids ← gets (applications_of group_id)
    (if group_name_is control_panel_admin_group_name group
        then assert_another_active_administrator_exists user_id
        else pure tt)
    transaction (drop_membership membership user_id application_ids)
