-- ===== src/Server/Admin/Administrators.antt =====
-- An administrator who can work, and what the checks of control-panel-access.service.ts find.
pub mod Status
pub mod Membership
use mathlib.Core.List.{Memᴰ}
use seleksi2_labpro.Prelude.{
  ℕ, ◌≤◌, ◌≡◌, ◌≢◌, refl, ap, sym, subst, ◌∙◌, String, Bool, true, false, ◌&&◌, not, List, [], ◌∷◌,
  Option, none, some, Exec, ok, err, modify, ◌>>=◌, pure, gets, map, filter, any, count, find_by,
  update_where, arith, inl, inr, Bool-cases, Option-cases, ◌===◌, ◌==◌, eq_iff, same_text, and-true,
  length, ◌⊎◌,
}
use seleksi2_labpro.Prelude.Moves.{Moves, Moves-rest}
use seleksi2_labpro.Database.{Prisma, reference, IsDocumented, documented}
use seleksi2_labpro.Database.Transactions.{either_way}
use seleksi2_labpro.Database.Members.{
  any-Memᴰ, Memᴰ-any, Memᴰ-filter, filter-Memᴰ, length-filter, count-le, Memᴰ-count, found_is_only,
  not_empty, Memᴰ-update_where,
}
use seleksi2_labpro.Database.Rows.{updated, find_by-any}
use seleksi2_labpro.Schema.Accounts.{
  User, Group, UserGroup, ActivityStatus, active, inactive, is_enabled,
}
use seleksi2_labpro.Server.Store.{ServerStore}
use seleksi2_labpro.Server.Runtime.{Runtime}
use seleksi2_labpro.Server.Access.{
  is_administrator, can_access, assert_another_active_administrator_exists,
  control_panel_admin_group_name,
}
use seleksi2_labpro.Server.Admin.{AdminCall}
use seleksi2_labpro.Server.Admin.Rows.{update_user_row, delete_membership}
use seleksi2_labpro.Server.Admin.Users.{
  revoke_if_inactive, set_status, change_status, update_status, drop_membership,
  remove_group_membership, get_user, same_status, find_membership, find_group, applications_of,
  group_name_is,
}
use seleksi2_labpro.Server.Admin.Directory.{
  SameDirectory, SameDirectory-preorder, directory_rules, deactivation-Same, lost_access-Same,
}

-- An active user who is in the group of the administrators.
pub record IsAdministered (s : ServerStore) : Type 0 where
  pub user : User
  pub member : UserGroup
  pub group : Group
  pub has_user : Memᴰ user s.users
  pub has_member : Memᴰ member s.user_groups
  pub has_group : Memᴰ group s.groups
  pub enabled : user.status ≡ active
  pub of_user : member.user_id ≡ user.id
  pub of_group : member.group_id ≡ group.id
  pub name : group.name ≡ control_panel_admin_group_name

-- The primary keys are unique.
pub record IsKeyed (s : ServerStore) : Type 0 where
  pub users : (id : String) → count (λ (u : User). u.id === id) s.users ≤ 1
  pub groups : (id : String) → count (λ (g : Group). g.id === id) s.groups ≤ 1
  pub members : (id : String) → count (λ (m : UserGroup). m.id === id) s.user_groups ≤ 1

abbrev pub is_admin : ServerStore → User → Bool
is_admin s u = is_enabled u.status && is_administrator s u.id

enabled-active : (k : ActivityStatus) → is_enabled k ≡ true → k ≡ active
enabled-active active h = refl
enabled-active inactive h = ground arith

abbrev is_admin_group : UserGroup → Group → Bool
is_admin_group m g = g.id === m.group_id && g.name === control_panel_admin_group_name

abbrev is_admin_member : ServerStore → String → UserGroup → Bool
is_admin_member s id m = m.user_id === id && any (is_admin_group m) s.groups

text_of : (s t : String) → (s === t) ≡ true → s ≡ t
text_of s t = (eq_iff s t).0

module _ (s : ServerStore) where
  -- The test finds such users, and only those.
  pub is_admin-IsAdministered :
      (u : User) → Memᴰ u s.users → is_admin s u ≡ true → (a : IsAdministered s) × (a.user ≡ u)
  unfolding is_administrator
  is_admin-IsAdministered u has h =
      let (on, admin) =
        and-true (is_enabled u.status) (any (is_admin_member s u.id) s.user_groups) h in
      let (m, hm, km) = any-Memᴰ (is_admin_member s u.id) s.user_groups admin in
      let (mine, grouped) = and-true (m.user_id === u.id) (any (is_admin_group m) s.groups) km in
      let (g, hg, kg) = any-Memᴰ (is_admin_group m) s.groups grouped in
      let (same, named) =
        and-true (g.id === m.group_id) (g.name === control_panel_admin_group_name) kg in
      (
        record {
          user = u;
          member = m;
          group = g;
          has_user = has;
          has_member = hm;
          has_group = hg;
          enabled = enabled-active u.status on;
          of_user = text_of m.user_id u.id mine;
          of_group = sym (text_of g.id m.group_id same);
          name = text_of g.name control_panel_admin_group_name named;
        },
        refl,
      )

  pub administered-is_admin : (a : IsAdministered s) → is_admin s a.user ≡ true
  unfolding is_administrator
  administered-is_admin a =
      let grouped : any (is_admin_group a.member) s.groups ≡ true =
        Memᴰ-any (is_admin_group a.member) a.group s.groups a.has_group (
          rw (a.of_group, a.name)
            (ground (arith, same_text a.group.id, same_text control_panel_admin_group_name))) in
      let listed : any (is_admin_member s a.user.id) s.user_groups ≡ true =
        Memᴰ-any (is_admin_member s a.user.id) a.member s.user_groups a.has_member
          (rw (a.of_user, grouped) (ground (arith, same_text a.user.id))) in
      rw (a.enabled, listed) refl

  abbrev pub is_other : String → User → Bool
  is_other id u = not (u.id === id) && is_enabled u.status && is_administrator s u.id

  -- The check for another administrator passes only where there is one.
  pub another :
      (id : String)
      → (assert_another_active_administrator_exists ⦃db = reference⦄ id s).0 ≡ ok tt
      → (a : IsAdministered s) × ((a.user.id === id) ≡ false)
  unfolding assert_another_active_administrator_exists ◌>>=◌
  another id x =
      let some_other : count (is_other id) s.users ≢ 0 =
        λ none_left. ground (arith, rw (length-filter (is_other id) s.users, none_left) at x) in
      let (u, has, h) =
        any-Memᴰ (is_other id) s.users (not_empty (is_other id) s.users some_other) in
      let (first, admin) =
        and-true (not (u.id === id) && is_enabled u.status) (is_administrator s u.id) h in
      let (differs, on) = and-true (not (u.id === id)) (is_enabled u.status) first in
      let (a, same) = is_admin-IsAdministered u has (rw (on, admin) refl) in
      (a, rw same (ground arith))

  abbrev pub is_able : String → User → Bool
  is_able id u = u.id === id && is_enabled u.status && is_administrator s u.id

  -- Who may administrate is whom the test finds.
  pub not_able :
      (id : String) (a : IsAdministered s)
      → IsKeyed s
      → can_access ⦃db = reference⦄ id s ≡ false
      → (a.user.id === id) ≡ false
  unfolding can_access
  not_able id a keyed x = elim (Bool-cases (a.user.id === id)) [
    | inl same ↦
        let (on, admin) =
          and-true (is_enabled a.user.status) (is_administrator s a.user.id)
            (administered-is_admin a) in
        let least = Memᴰ-count (is_able id) a.user s.users a.has_user (rw (same, on, admin) refl) in
        let most = count-le (is_able id) (λ u. u.id === id) s.users (λ u h. ground arith) in
        ground (arith, length-filter (is_able id) s.users, keyed.users id, least, most)
    | inr differs ↦ differs
  ]

-- An administrator whose rows are still there.
module _ (s t : ServerStore) (a : IsAdministered s) where
  pub kept_rows-IsAdministered :
      Memᴰ a.user t.users → Memᴰ a.member t.user_groups → Memᴰ a.group t.groups → IsAdministered t
  kept_rows-IsAdministered user member group = record {
    user = a.user;
    member = a.member;
    group = a.group;
    has_user = user;
    has_member = member;
    has_group = group;
    enabled = a.enabled;
    of_user = a.of_user;
    of_group = a.of_group;
    name = a.name;
  }
