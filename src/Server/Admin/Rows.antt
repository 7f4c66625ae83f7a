-- ===== src/Server/Admin/Rows.antt =====
-- The calls of Prisma that the services of administration make, table by table.
use seleksi2_labpro.Prelude.{
  String, Bool, ◌&&◌, List, [], ◌∷◌, is_some, ◌===◌, pure, gets, or_throw, throw_if, modify, ◌>>=◌,
  ◌>>◌, ok,
}
use seleksi2_labpro.Database.{Prisma, find_one, update_many, update_and_return, delete_many, create}
use seleksi2_labpro.Schema.Accounts.{
  User, Application, ApplicationRedirectUri, ApplicationGroupPolicy, Group, UserGroup,
}
use seleksi2_labpro.Schema.Sessions.{SsoSession}
use seleksi2_labpro.Server.Store.{ServerStore, unique_constraint, record_not_found, Handler}

abbrev pub has_id : String → Application → Bool
has_id id a = a.id === id

abbrev pub is_uri : String → String → ApplicationRedirectUri → Bool
is_uri application_id uri r = r.application_id === application_id && r.redirect_uri === uri

abbrev pub is_policy_of : String → String → ApplicationGroupPolicy → Bool
is_policy_of application_id group_id p =
    p.application_id === application_id && p.group_id === group_id

module _ ⦃db : Prisma⦄ where
  -- `ssoSession.updateManyAndReturn`
  unfoldable pub update_and_return_sessions :
      (SsoSession → Bool) → (SsoSession → SsoSession) → Handler (List SsoSession)
  update_and_return_sessions p f s =
      let (t, rows) = update_and_return p f s.sso_sessions in
      (ok rows, record s { sso_sessions = t })

  -- `user.create` and `user.update`; `clash` is true of a row that has the unique column's new value.
  unfoldable pub create_user_row : (User → Bool) → User → Handler (Unit {0})
  create_user_row clash r = do
    made ← gets (λ s. create clash r s.users)
    t ← or_throw made unique_constraint
    modify (λ s. record s { users = t })

  unfoldable pub update_user_row : (User → Bool) → String → (User → User) → Handler User
  update_user_row clash id f = do
    other ← gets (λ s. find_one clash s.users)
    throw_if (is_some other) unique_constraint
    modify (λ s. record s { users = (update_many (λ (u : User). u.id === id) f s.users).0 })
    found ← gets (λ s. find_one (λ (u : User). u.id === id) s.users)
    or_throw found record_not_found

  -- `group.create`, `group.update` and `group.delete`
  unfoldable pub create_group_row : (Group → Bool) → Group → Handler (Unit {0})
  create_group_row clash r = do
    made ← gets (λ s. create clash r s.groups)
    t ← or_throw made unique_constraint
    modify (λ s. record s { groups = t })

  unfoldable pub update_group_row : (Group → Bool) → String → (Group → Group) → Handler Group
  update_group_row clash id f = do
    other ← gets (λ s. find_one clash s.groups)
    throw_if (is_some other) unique_constraint
    modify (λ s. record s { groups = (update_many (λ (g : Group). g.id === id) f s.groups).0 })
    found ← gets (λ s. find_one (λ (g : Group). g.id === id) s.groups)
    or_throw found record_not_found

  unfoldable pub delete_group_row : String → Handler (Unit {0})
  delete_group_row id = do
    found ← gets (λ s. find_one (λ (g : Group). g.id === id) s.groups)
    row ← or_throw found record_not_found
    modify (λ s. record s { groups = (delete_many (λ (g : Group). g.id === id) s.groups).0 })

  -- `userGroup.create`, `userGroup.delete` and `userGroup.deleteMany`
  unfoldable pub create_membership : (UserGroup → Bool) → UserGroup → Handler (Unit {0})
  create_membership clash r = do
    made ← gets (λ s. create clash r s.user_groups)
    t ← or_throw made unique_constraint
    modify (λ s. record s { user_groups = t })

  unfoldable pub delete_membership : String → Handler (Unit {0})
  delete_membership id = do
    found ← gets (λ s. find_one (λ (m : UserGroup). m.id === id) s.user_groups)
    row ← or_throw found record_not_found
    modify (λ s. record s {
      user_groups = (delete_many (λ (m : UserGroup). m.id === id) s.user_groups).0;
    })

  abbrev pub without_members : String → ServerStore → ServerStore
  without_members group_id s = record s {
    user_groups = (delete_many (λ (m : UserGroup). m.group_id === group_id) s.user_groups).0;
  }

  abbrev pub without_policies : String → ServerStore → ServerStore
  without_policies group_id s = record s {
    policies = (delete_many (λ (p : ApplicationGroupPolicy). p.group_id === group_id) s.policies).0;
  }

  -- `application.create` and `application.update`
  unfoldable pub create_application_row : (Application → Bool) → Application → Handler (Unit {0})
  create_application_row clash r = do
    made ← gets (λ s. create clash r s.applications)
    t ← or_throw made unique_constraint
    modify (λ s. record s { applications = t })

  unfoldable pub update_application_row : String → (Application → Application) → Handler Application
  update_application_row id f = do
    modify (λ s. record s { applications = (update_many (has_id id) f s.applications).0 })
    found ← gets (λ s. find_one (has_id id) s.applications)
    or_throw found record_not_found

  -- `applicationRedirectUri.create` and `applicationRedirectUri.delete`
  unfoldable pub create_uri : ApplicationRedirectUri → Handler (Unit {0})
  create_uri r = do
    made ← gets (λ s. create (is_uri r.application_id r.redirect_uri) r s.redirect_uris)
    t ← or_throw made unique_constraint
    modify (λ s. record s { redirect_uris = t })

  unfoldable pub delete_uri : String → Handler (Unit {0})
  delete_uri id = do
    found ← gets (λ s. find_one (λ (r : ApplicationRedirectUri). r.id === id) s.redirect_uris)
    row ← or_throw found record_not_found
    modify (λ s. record s {
      redirect_uris = (delete_many (λ (r : ApplicationRedirectUri). r.id === id) s.redirect_uris).0;
    })

  unfoldable pub create_uris : String → List (String × String) → Handler (Unit {0})
  unfolding create_uri
  create_uris application_id [] = pure tt
  create_uris application_id ((id, uri) ∷ rest) = do
    create_uri (record { id = id; application_id = application_id; redirect_uri = uri })
    create_uris application_id rest

  -- `applicationGroupPolicy.create` and `applicationGroupPolicy.delete`
  unfoldable pub create_policy : ApplicationGroupPolicy → Handler (Unit {0})
  create_policy r = do
    made ← gets (λ s. create (is_policy_of r.application_id r.group_id) r s.policies)
    t ← or_throw made unique_constraint
    modify (λ s. record s { policies = t })

  unfoldable pub delete_policy : String → Handler (Unit {0})
  delete_policy id = do
    found ← gets (λ s. find_one (λ (p : ApplicationGroupPolicy). p.id === id) s.policies)
    row ← or_throw found record_not_found
    modify (λ s. record s {
      policies = (delete_many (λ (p : ApplicationGroupPolicy). p.id === id) s.policies).0;
    })
