-- ===== src/Server/Admin/Administrators/Membership.antt =====
-- `removeGroupMembership` of admin-users.service.ts leaves an administrator.
use mathlib.Core.List.{Memᴰ}
use seleksi2_labpro.Prelude.{
  ◌≡◌, refl, ap, sym, subst, ◌∙◌, String, Bool, true, false, ◌&&◌, not, List, ◌>>=◌, filter,
  find_by, arith, inl, inr, Bool-cases, Option-cases, ◌===◌, ◌==◌, eq_iff, same_text, and-true,
  length,
}
use seleksi2_labpro.Prelude.Moves.{Moves-rest}
use seleksi2_labpro.Database.{Prisma, reference, IsDocumented, documented}
use seleksi2_labpro.Database.Transactions.{either_way}
use seleksi2_labpro.Database.Members.{Memᴰ-any, Memᴰ-filter, found_is_only, only_row, find_by-Memᴰ}
use seleksi2_labpro.Database.Rows.{find_by-any, find_by_sound}
use seleksi2_labpro.Schema.Accounts.{Group, UserGroup}
use seleksi2_labpro.Server.Store.{ServerStore}
use seleksi2_labpro.Server.Runtime.{Runtime}
use seleksi2_labpro.Server.Access.{
  assert_another_active_administrator_exists, control_panel_admin_group_name,
}
use seleksi2_labpro.Server.Admin.{AdminCall}
use seleksi2_labpro.Server.Admin.Rows.{delete_membership}
use seleksi2_labpro.Server.Admin.Users.{
  drop_membership, remove_group_membership, find_group, applications_of, group_name_is,
}
use seleksi2_labpro.Server.Admin.Directory.{
  SameDirectory, SameDirectory-preorder, directory_rules, lost_access-Same,
}
use seleksi2_labpro.Server.Admin.Administrators.{
  IsAdministered, IsKeyed, is_other, another, kept_rows-IsAdministered,
}

-- Taking a user out of a group.
module _ (rt : Runtime) (c : AdminCall) (id group_id : String) (s : ServerStore) where
  abbrev without : UserGroup → ServerStore
  without m = record s {
    user_groups = filter (λ (x : UserGroup). not (x.id === m.id)) s.user_groups;
  }

  delete_membership-state :
      (m : UserGroup)
      → Memᴰ m s.user_groups
      → (delete_membership ⦃db = reference⦄ m.id s).1 ≡ without m
  unfolding delete_membership ◌>>=◌
  delete_membership-state m has =
      let (r, found) =
        find_by-any (λ (x : UserGroup). x.id === m.id) s.user_groups
          (Memᴰ-any (λ (x : UserGroup). x.id === m.id) m s.user_groups has (same_text m.id)) in
      rw found refl

  drop_membership-directory :
      (m : UserGroup) (applications : List String)
      → Memᴰ m s.user_groups
      → SameDirectory (without m) (drop_membership ⦃db = reference⦄ rt c m id applications s).1
  unfolding drop_membership
  drop_membership-directory m applications has =
      subst (λ t. SameDirectory t (drop_membership ⦃db = reference⦄ rt c m id applications s).1)
        (delete_membership-state m has)
        (Moves-rest SameDirectory-preorder _ _ s
          λ u. search (directory_rules, lost_access-Same rt c) depth 8)

  drop_membership-IsAdministered :
      (m : UserGroup) (applications : List String) (a : IsAdministered s)
      → Memᴰ m s.user_groups
      → (a.member.id === m.id) ≡ false
      → IsAdministered (drop_membership ⦃db = reference⦄ rt c m id applications s).1
  drop_membership-IsAdministered m applications a has differs =
      let same = drop_membership-directory m applications has in
      kept_rows-IsAdministered s _ a (subst (Memᴰ a.user) (sym same.users) a.has_user)
        (subst (Memᴰ a.member) (sym same.user_groups) (
          Memᴰ-filter (λ (x : UserGroup). not (x.id === m.id)) a.member s.user_groups
            (rw differs refl) a.has_member))
        (subst (Memᴰ a.group) (sym same.groups) a.has_group)

  abbrev is_membership : UserGroup → Bool
  is_membership m = m.user_id === id && m.group_id === group_id

  -- Another user's membership is another one.
  other_membership :
      (m : UserGroup) (a : IsAdministered s)
      → IsKeyed s
      → Memᴰ m s.user_groups
      → m.user_id ≡ id
      → (a.user.id === id) ≡ false
      → (a.member.id === m.id) ≡ false
  other_membership m a keyed has mine differs = elim (Bool-cases (a.member.id === m.id)) [
    | inl same ↦
        let one : a.member ≡ m =
          only_row (λ (x : UserGroup). x.id === m.id) a.member m s.user_groups (keyed.members m.id)
            a.has_member same has (same_text m.id) in
        let user : a.user.id ≡ id = sym a.of_user ∙ ap (λ (x : UserGroup). x.user_id) one ∙ mine in
        let there : (a.user.id === id) ≡ true = rw user (same_text id) in
        ground (arith, differs, there)
    | inr other ↦ other
  ]

  -- Nor is an administrator's membership one in a group of another name.
  other_group :
      (m : UserGroup) (a : IsAdministered s)
      → IsKeyed s
      → Memᴰ m s.user_groups
      → m.group_id ≡ group_id
      → group_name_is control_panel_admin_group_name (find_group ⦃db = reference⦄ group_id s)
        ≡ false
      → (a.member.id === m.id) ≡ false
  other_group m a keyed has mine plain = elim (Bool-cases (a.member.id === m.id)) [
    | inl same ↦
        let one : a.member ≡ m =
          only_row (λ (x : UserGroup). x.id === m.id) a.member m s.user_groups (keyed.members m.id)
            a.has_member same has (same_text m.id) in
        let group : a.group.id ≡ group_id =
          sym a.of_group ∙ ap (λ (x : UserGroup). x.group_id) one ∙ mine in
        let fits : (a.group.id === group_id) ≡ true = rw group (same_text group_id) in
        let (g, found) =
          find_by-any (λ (x : Group). x.id === group_id) s.groups
            (Memᴰ-any (λ (x : Group). x.id === group_id) a.group s.groups a.has_group fits) in
        let only : g ≡ a.group =
          found_is_only (λ (x : Group). x.id === group_id) g a.group s.groups
            (keyed.groups group_id) found a.has_group fits in
        let name : g.name ≡ control_panel_admin_group_name =
          ap (λ (x : Group). x.name) only ∙ a.name in
        let wrong : (g.name === control_panel_admin_group_name) ≡ false = rw found at plain in
        let right : (g.name === control_panel_admin_group_name) ≡ true =
          rw name (same_text control_panel_admin_group_name) in
        ground (arith, wrong, right)
    | inr other ↦ other
  ]

  remove_group_membership-IsAdministered :
      IsKeyed s
      → IsAdministered s
      → IsAdministered (remove_group_membership ⦃db = reference⦄ rt c id group_id s).1
  unfolding remove_group_membership assert_another_active_administrator_exists ◌>>=◌
  remove_group_membership-IsAdministered keyed a =
      elim (Option-cases (find_by is_membership s.user_groups)) [
        | inl nothing ↦ rw nothing a
        | inr (m, found) ↦
            let has = find_by-Memᴰ is_membership s.user_groups m found in
            let (user, group) =
              and-true (m.user_id === id) (m.group_id === group_id)
                (find_by_sound is_membership s.user_groups m found) in
            let drop =
              drop_membership ⦃db = reference⦄ rt c m id
                (applications_of ⦃db = reference⦄ group_id s) in
            elim (Bool-cases (
              group_name_is control_panel_admin_group_name
                (find_group ⦃db = reference⦄ group_id s))) [
                  | inl administrative ↦
                      elim (Bool-cases (length (filter (is_other s id) s.users) == 0)) [
                        | inl alone ↦ rw (found, administrative, alone) a
                        | inr others ↦
                            let (b, differs) = another s id (rw others refl) in
                            rw (found, administrative, others)
                              (either_way IsAdministered drop s a (
                                drop_membership-IsAdministered m _ b has (
                                  other_membership m b keyed has ((eq_iff m.user_id id).0 user)
                                    differs)))
                      ]
                  | inr plain ↦
                      rw (found, plain)
                        (either_way IsAdministered drop s a (
                          drop_membership-IsAdministered m _ a has (
                            other_group m a keyed has ((eq_iff m.group_id group_id).0 group)
                              plain)))
                ]
      ]

module _ ⦃db : Prisma⦄ (l : IsDocumented db) where
  -- Taking a user out of a group, whichever group it is and whether it succeeds or fails, leaves an
  -- active user in the group of the administrators if there was one and if identifiers are unique,
  -- with no other change meanwhile.
  pub remove_group_membership_keeps_administrator :
      (rt : Runtime) (c : AdminCall) (id group_id : String) (s : ServerStore)
      → IsKeyed s
      → IsAdministered s
      → IsAdministered (remove_group_membership rt c id group_id s).1
  remove_group_membership_keeps_administrator rt c id group_id s keyed a =
      rw (documented l) (remove_group_membership-IsAdministered rt c id group_id s keyed a)
