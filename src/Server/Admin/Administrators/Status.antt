-- ===== src/Server/Admin/Administrators/Status.antt =====
-- `updateStatus` of admin-users.service.ts leaves an administrator.
use mathlib.Core.List.{Memᴰ}
use seleksi2_labpro.Prelude.{
  ◌≡◌, refl, sym, subst, String, false, List, [], ◌∷◌, none, ◌>>=◌, filter, find_by, update_where,
  inl, inr, Bool-cases, Option-cases, ◌===◌, ◌==◌, length, ◌⊎◌,
}
use seleksi2_labpro.Prelude.Moves.{Moves, Moves-rest}
use seleksi2_labpro.Database.{Prisma, reference, IsDocumented, documented}
use seleksi2_labpro.Database.Transactions.{either_way}
use seleksi2_labpro.Database.Members.{Memᴰ-update_where}
use seleksi2_labpro.Database.Rows.{updated}
use seleksi2_labpro.Schema.Accounts.{User, ActivityStatus, active, inactive}
use seleksi2_labpro.Server.Store.{ServerStore}
use seleksi2_labpro.Server.Runtime.{Runtime}
use seleksi2_labpro.Server.Access.{can_access, assert_another_active_administrator_exists}
use seleksi2_labpro.Server.Admin.{AdminCall}
use seleksi2_labpro.Server.Admin.Rows.{update_user_row}
use seleksi2_labpro.Server.Admin.Users.{
  revoke_if_inactive, set_status, change_status, update_status, get_user, same_status,
}
use seleksi2_labpro.Server.Admin.Directory.{
  SameDirectory, SameDirectory-preorder, directory_rules, deactivation-Same,
}
use seleksi2_labpro.Server.Admin.Administrators.{
  IsAdministered, IsKeyed, is_other, another, not_able,
}

find_by_never {ℓ} : {R : Type ℓ} (t : List R) → find_by (λ (r : R). false) t ≡ none
unfolding find_by
find_by_never [] = refl
find_by_never (r ∷ t) = find_by_never t

module _ (id : String) (f : User → User) (s : ServerStore) where
  abbrev with_user : ServerStore
  with_user = record s { users = update_where (λ (u : User). u.id === id) f s.users }

  update_user_row-state : (update_user_row ⦃db = reference⦄ (λ u. false) id f s).1 ≡ with_user
  unfolding update_user_row ◌>>=◌
  update_user_row-state =
      rw (find_by_never s.users)
        (elim (Option-cases (find_by (λ (u : User). u.id === id) with_user.users)) [
          | inl nothing ↦ rw nothing refl
          | inr (u, found) ↦ rw found refl
        ])

module _ (rt : Runtime) (c : AdminCall) (id : String) (s : ServerStore) where
  abbrev set_to : ActivityStatus → User → User
  set_to k u = record u { status = k }

  revoke_if_inactive-Same :
      (k : ActivityStatus) → Moves SameDirectory (revoke_if_inactive ⦃db = reference⦄ rt c k id)
  revoke_if_inactive-Same active = search directory_rules
  revoke_if_inactive-Same inactive = deactivation-Same rt c (id ∷ [])

  set_status-directory :
      (k : ActivityStatus)
      → SameDirectory (with_user id (set_to k) s) (set_status ⦃db = reference⦄ rt c id k s).1
  unfolding set_status
  set_status-directory k =
      subst (λ t. SameDirectory t (set_status ⦃db = reference⦄ rt c id k s).1)
        (update_user_row-state id (set_to k) s)
        (Moves-rest SameDirectory-preorder _ _ s
          λ row. search (directory_rules, revoke_if_inactive-Same) depth 8)

  -- Whose status changes to active, or who is another, administrates as before.
  set_status-IsAdministered :
      (k : ActivityStatus) (a : IsAdministered s)
      → (k ≡ active) ⊎ ((a.user.id === id) ≡ false)
      → IsAdministered (set_status ⦃db = reference⦄ rt c id k s).1
  set_status-IsAdministered k a why =
      let same = set_status-directory k in
      record {
        user = updated (λ u. u.id === id) (set_to k) a.user;
        member = a.member;
        group = a.group;
        has_user =
            subst (Memᴰ (updated (λ u. u.id === id) (set_to k) a.user)) (sym same.users)
              (Memᴰ-update_where (λ (u : User). u.id === id) (set_to k) a.user s.users a.has_user);
        has_member = subst (Memᴰ a.member) (sym same.user_groups) a.has_member;
        has_group = subst (Memᴰ a.group) (sym same.groups) a.has_group;
        enabled = stays_on why;
        of_user = elim (Bool-cases (a.user.id === id)) [
          | inl hit ↦ rw hit a.of_user
          | inr miss ↦ rw miss a.of_user
        ];
        of_group = a.of_group;
        name = a.name;
      }
    where
      stays_on :
          (k ≡ active) ⊎ ((a.user.id === id) ≡ false)
          → (updated (λ u. u.id === id) (set_to k) a.user).status ≡ active
      stays_on (inl on) = elim (Bool-cases (a.user.id === id)) [
        | inl hit ↦ rw (hit, on) refl
        | inr miss ↦ rw miss a.enabled
      ]
      stays_on (inr differs) = rw differs a.enabled

  change_status-IsAdministered :
      (k : ActivityStatus)
      → IsKeyed s
      → IsAdministered s
      → IsAdministered (change_status ⦃db = reference⦄ rt c id k s).1
  unfolding change_status assert_another_active_administrator_exists ◌>>=◌
  change_status-IsAdministered active keyed a =
      either_way IsAdministered (set_status ⦃db = reference⦄ rt c id active) s a
        (set_status-IsAdministered active a (inl refl))
  change_status-IsAdministered inactive keyed a =
      elim (Bool-cases (can_access ⦃db = reference⦄ id s)) [
        | inl able ↦ elim (Bool-cases (length (filter (is_other s id) s.users) == 0)) [
          | inl alone ↦ rw (able, alone) a
          | inr others ↦
              let (b, differs) = another s id (rw others refl) in
              rw (able, others)
                (either_way IsAdministered (set_status ⦃db = reference⦄ rt c id inactive) s a
                  (set_status-IsAdministered inactive b (inr differs)))
        ]
        | inr unable ↦ rw unable (
            either_way IsAdministered (set_status ⦃db = reference⦄ rt c id inactive) s a
              (set_status-IsAdministered inactive a (inr (not_able s id a keyed unable))))
      ]

  update_status-IsAdministered :
      (k : ActivityStatus)
      → IsKeyed s
      → IsAdministered s
      → IsAdministered (update_status ⦃db = reference⦄ rt c id k s).1
  unfolding update_status get_user ◌>>=◌
  update_status-IsAdministered k keyed a =
      elim (Option-cases (find_by (λ (u : User). u.id === id) s.users)) [
        | inl nothing ↦ rw nothing a
        | inr (u, found) ↦ elim (Bool-cases (same_status u.status k)) [
          | inl same ↦ rw (found, same, found) a
          | inr differs ↦ rw (found, differs) (change_status-IsAdministered k keyed a)
        ]
      ]

module _ ⦃db : Prisma⦄ (l : IsDocumented db) where
  -- Changing a user's status, to active or to inactive and whether it succeeds or fails, leaves an
  -- active user in the group of the administrators if there was one and if identifiers are unique,
  -- with no other change meanwhile.
  pub update_status_keeps_administrator :
      (rt : Runtime) (c : AdminCall) (id : String) (k : ActivityStatus) (s : ServerStore)
      → IsKeyed s
      → IsAdministered s
      → IsAdministered (update_status rt c id k s).1
  update_status_keeps_administrator rt c id k s keyed a =
      rw (documented l) (update_status-IsAdministered rt c id s k keyed a)
