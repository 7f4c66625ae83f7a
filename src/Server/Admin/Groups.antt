-- ===== src/Server/Admin/Groups.antt =====
-- `AdminGroupsService` of auth-provider/server/src/admin/admin-groups.service.ts. The order of what
-- `listGroups` returns is the table's.
use seleksi2_labpro.Prelude.{
  String, Bool, true, false, ◌&&◌, ◌||◌, not, List, map, Option, none, some, is_none, some_and,
  ◌===◌, if◌then◌else◌, pure, gets, or_throw, throw_if, modify, ◌>>=◌, ◌>>◌,
}
use seleksi2_labpro.Database.{Prisma, find_one, find_many, transaction}
use seleksi2_labpro.Schema.Accounts.{Group, UserGroup, ApplicationGroupPolicy}
use seleksi2_labpro.Server.Store.{
  ServerStore, ServerError, bad_request, not_found, conflict, Handler, audited,
}
use seleksi2_labpro.Server.Runtime.{Runtime}
use seleksi2_labpro.Server.Access.{control_panel_admin_group_name}
use seleksi2_labpro.Server.Admin.{AdminCall, admin_audit}
use seleksi2_labpro.Server.Admin.Rows.{
  create_group_row, update_group_row, delete_group_row, without_members, without_policies,
}
use seleksi2_labpro.Server.Admin.Revocation.{revoke_users_who_lost_access}

-- A description that is `undefined` is `none`, one that is `null` is `some none`.
pub record GroupInput : Type 0 where
  pub name : Option String
  pub description : Option (Option String)

abbrev group_not_found : ServerError
group_not_found = not_found "GROUP_NOT_FOUND"

abbrev invalid_request : ServerError
invalid_request = bad_request "INVALID_ADMIN_REQUEST"

abbrev system_group_protected : ServerError
system_group_protected = bad_request "SYSTEM_GROUP_PROTECTED"

abbrev trimmed : Runtime → Option String → Option String
trimmed rt none = none
trimmed rt (some s) = some (rt.trim s)

-- `normalizeDescription`
unfoldable pub normalize_description : Runtime → Option String → Option String
normalize_description rt none = none
normalize_description rt (some s) = let d = rt.trim s in if d === "" then none else some d

abbrev described : Runtime → Option (Option String) → Option (Option String)
described rt none = none
described rt (some d) = some (normalize_description rt d)

abbrev or_old {ℓ} : {A : Type ℓ} → Option A → A → A
or_old none old = old
or_old (some a) old = a

abbrev flattened : Option (Option String) → Option String
flattened none = none
flattened (some d) = d

abbrev is_taken : Option Group → Option String → Bool
is_taken none excluded = false
is_taken (some g) none = true
is_taken (some g) (some id) = not (g.id === id)

abbrev new_group : AdminCall → String → Option String → Group
new_group c name description = record { id = c.fresh_id; name = name; description = description }

-- A new name for the group of the administrators.
unfoldable pub renames_system_group : Group → Option String → Bool
renames_system_group g name =
    g.name === control_panel_admin_group_name && some_and (λ n. not (n === g.name)) name

module _ ⦃db : Prisma⦄ where
  abbrev pub find_group : String → ServerStore → Option Group
  find_group id s = find_one (λ (g : Group). g.id === id) s.groups

  abbrev pub members_of : String → ServerStore → List String
  members_of group_id s =
      map (λ (m : UserGroup). m.user_id)
        (find_many (λ (m : UserGroup). m.group_id === group_id) s.user_groups)

  abbrev pub applications_of : String → ServerStore → List String
  applications_of group_id s =
      map (λ (p : ApplicationGroupPolicy). p.application_id)
        (find_many (λ (p : ApplicationGroupPolicy). p.group_id === group_id) s.policies)

  -- `listGroups`
  unfoldable pub list_groups : Handler (List Group)
  list_groups = gets (λ s. find_many (λ g. true) s.groups)

  -- `getGroup`
  unfoldable pub get_group : String → Handler Group
  get_group id = do found ← gets (find_group id); or_throw found group_not_found

  -- `assertNameAvailable`
  unfoldable pub assert_name_available : String → Option String → Handler (Unit {0})
  assert_name_available name excluded = do
    found ← gets (λ s. find_one (λ (g : Group). g.name === name) s.groups)
    throw_if (is_taken found excluded) (conflict "GROUP_NAME_ALREADY_EXISTS")

module _ ⦃db : Prisma⦄ (rt : Runtime) (c : AdminCall) where
  -- `createGroup`, whose input has a name.
  unfoldable pub create_group : String → Option (Option String) → Handler Group
  unfolding create_group_row assert_name_available normalize_description
  create_group input_name description = do
    let name = rt.trim input_name
    let group = new_group c name (normalize_description rt (flattened description))
    throw_if (name === "") invalid_request
    assert_name_available name none
    transaction (do
      create_group_row (λ g. g.name === name) group
      modify (audited (admin_audit c "GroupChanged" none none))
      pure group)

  abbrev assert_new_name_available : Option String → Group → Handler (Unit {0})
  assert_new_name_available none group = pure tt
  assert_new_name_available (some name) group =
      if name === "" || name === group.name
      then pure tt
      else assert_name_available name (some group.id)

  -- `updateGroup`
  unfoldable pub update_group : String → GroupInput → Handler Group
  unfolding update_group_row assert_name_available normalize_description renames_system_group
  update_group group_id input = do
    found ← gets (find_group group_id)
    group ← or_throw found group_not_found
    let name = trimmed rt input.name
    let description = described rt input.description
    throw_if (some_and (λ n. n === "") name) invalid_request
    throw_if (renames_system_group group name) system_group_protected
    throw_if (is_none name && is_none description) invalid_request
    assert_new_name_available name group
    transaction (do
      row ←
          update_group_row (λ g. some_and (λ n. g.name === n) name && not (g.id === group_id))
            group_id
            (λ g. record g {
              name = or_old name g.name;
              description = or_old description g.description;
            })
      modify (audited (admin_audit c "GroupChanged" none none))
      pure row)

  unfoldable pub drop_group : String → List String → List String → Handler (Unit {0})
  unfolding delete_group_row revoke_users_who_lost_access
  drop_group group_id user_ids application_ids = do
    modify (without_members group_id)
    modify (without_policies group_id)
    delete_group_row group_id
    revoked ← revoke_users_who_lost_access rt c user_ids application_ids
    modify (audited (admin_audit c "GroupChanged" none none))

  -- `deleteGroup`
  unfoldable pub delete_group : String → Handler (Unit {0})
  unfolding drop_group
  delete_group group_id = do
    found ← gets (find_group group_id)
    group ← or_throw found group_not_found
    throw_if (group.name === control_panel_admin_group_name) system_group_protected
    user_ids ← gets (members_of group_id)
    application_ids ← gets (applications_of group_id)
    transaction (drop_group group_id user_ids application_ids)
