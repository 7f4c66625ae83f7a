-- ===== src/Server/Admin/Policies.antt =====
-- The policies of an application: `addPolicy` and `removePolicy` of
-- auth-provider/server/src/admin/admin-applications.service.ts.
use seleksi2_labpro.Prelude.{
  ℕ, String, ◌&&◌, List, [], ◌∷◌, map, none, some, is_some, length, ◌===◌, pure, gets, or_throw,
  throw_if, modify, ◌>>=◌, ◌>>◌,
}
use seleksi2_labpro.Database.{Prisma, find_one, find_many, transaction}
use seleksi2_labpro.Schema.Accounts.{ApplicationGroupPolicy, Group, UserGroup}
use seleksi2_labpro.Server.Store.{ServerStore, not_found, conflict, Handler, audited}
use seleksi2_labpro.Server.Runtime.{Runtime}
use seleksi2_labpro.Server.Admin.{AdminCall, admin_audit}
use seleksi2_labpro.Server.Admin.Rows.{is_policy_of, create_policy, delete_policy}
use seleksi2_labpro.Server.Admin.Revocation.{revoke_users_who_lost_access}
use seleksi2_labpro.Server.Admin.Applications.{find_application, application_not_found}

module _ ⦃db : Prisma⦄ (rt : Runtime) (c : AdminCall) where
  abbrev policy_changes : String → Handler (Unit {0})
  policy_changes application_id =
      modify (audited (admin_audit c "PolicyChanged" none (some application_id)))

  -- `addPolicy`
  unfoldable pub add_policy : String → String → Handler ApplicationGroupPolicy
  unfolding create_policy
  add_policy application_id group_id = transaction (do
    found ← gets (find_application application_id)
    application ← or_throw found application_not_found
    found_group ← gets (λ s. find_one (λ (g : Group). g.id === group_id) s.groups)
    group ← or_throw found_group (not_found "GROUP_NOT_FOUND")
    existing ← gets (λ s. find_one (is_policy_of application_id group_id) s.policies)
    throw_if (is_some existing) (conflict "POLICY_ALREADY_EXISTS")
    let row : ApplicationGroupPolicy = record {
      id = c.fresh_id;
      application_id = application_id;
      group_id = group_id;
    }
    create_policy row
    policy_changes application_id
    pure row)

  abbrev pub members_of : String → ServerStore → List String
  members_of group_id s =
      map (λ (m : UserGroup). m.user_id)
        (find_many (λ (m : UserGroup). m.group_id === group_id) s.user_groups)

  -- The callback of the transaction of `removePolicy`.
  unfoldable pub drop_policy : String → String → Handler ℕ
  unfolding delete_policy revoke_users_who_lost_access
  drop_policy application_id policy_id = do
    found ← gets (find_application application_id)
    application ← or_throw found application_not_found
    found_policy ← gets (λ s.
        find_one
          (λ (p : ApplicationGroupPolicy).
            p.id === policy_id && p.application_id === application_id)
          s.policies)
    policy ← or_throw found_policy (not_found "POLICY_NOT_FOUND")
    candidates ← gets (members_of policy.group_id)
    delete_policy policy.id
    revoked ← revoke_users_who_lost_access rt c candidates (application_id ∷ [])
    policy_changes application_id
    pure (length revoked)

  -- `removePolicy`
  unfoldable pub remove_policy : String → String → Handler ℕ
  unfolding drop_policy
  remove_policy application_id policy_id = transaction (drop_policy application_id policy_id)
