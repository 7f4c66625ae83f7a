-- ===== src/Server/Admin/Applications/RedirectUris.antt =====
-- The redirect URIs of an application (admin-applications.service.ts): how many there are, and what
-- becomes of the codes that were issued for one that is taken away.
use seleksi2_labpro.Prelude.{
  ◌≤◌, ◌+◌, ◌≡◌, ◌≢◌, refl, sym, subst, ◌∙◌, String, Bool, true, false, List, [], ◌∷◌, ◌++◌, Option,
  some, ok, arith, is_some, length, count, filter, find_by, any, All, ◌===◌, ◌==◌, ◌>>=◌, leb,
  Bool-cases, Option-cases, inl, inr, same_text, eq_iff,
}
use seleksi2_labpro.Database.{Prisma, reference, IsDocumented, documented}
use seleksi2_labpro.Database.Transactions.{ok_rollback, either_way}
use seleksi2_labpro.Database.Members.{All-cleared, length-filter}
use seleksi2_labpro.Database.Rows.{find_by-All}
use seleksi2_labpro.Schema.Accounts.{ApplicationRedirectUri}
use seleksi2_labpro.Schema.Sessions.{AuthorizationCode}
use seleksi2_labpro.Server.Store.{ServerStore, update_codes}
use seleksi2_labpro.Server.Runtime.{Runtime, Settings, Call, hash_secret, read_bounded_string}
use seleksi2_labpro.Server.Authorization.{is_supported_redirect_uri}
use seleksi2_labpro.Server.Token.{TokenRequestInput, TokenResult, exchange, is_code_hash}
use seleksi2_labpro.Server.Token.Once.{exchange-Consumes, IsUsed}
use seleksi2_labpro.Server.Admin.{AdminCall}
use seleksi2_labpro.Server.Admin.Rows.{is_uri, create_uri, delete_uri}
use seleksi2_labpro.Server.Admin.Applications.{
  is_uri_of, uris_of, register_uri, add_redirect_uri, unregister_uri, remove_redirect_uri,
  is_unused_code, find_application, use_up,
}

-- The application has twenty redirect URIs at most.
abbrev pub IsWithinLimit : String → ServerStore → Type 0
IsWithinLimit app s = count (is_uri_of app) s.redirect_uris ≤ 20

count-append {ℓ} :
    {R : Type ℓ} (p : R → Bool) (t u : List R) → count p (t ++ u) ≡ count p t + count p u
unfolding count
count-append p [] u = omega arith
count-append p (r ∷ t) u = ground (arith, count-append p t u)

new_uri-count :
    (id app : String) (t : List ApplicationRedirectUri) (r : ApplicationRedirectUri)
    → r.application_id ≡ id
    → leb 20 (length (filter (is_uri_of id) t)) ≡ false
    → count (is_uri_of app) t ≤ 20
    → count (is_uri_of app) (t ++ r ∷ []) ≤ 20
unfolding count
new_uri-count id app t r mine room limit = elim (Bool-cases (r.application_id === app)) [
  | inl same ↦
      let one : id ≡ app = sym mine ∙ (eq_iff r.application_id app).0 same in
      let few : count (is_uri_of id) t ≤ 19 =
        ground (arith, rw (length-filter (is_uri_of id) t) at room) in
      let room' : count (is_uri_of app) t ≤ 19 = subst (λ x. count (is_uri_of x) t ≤ 19) one few in
      ground (arith, count-append (is_uri_of app) t (r ∷ []))
  | inr other ↦ ground (arith, count-append (is_uri_of app) t (r ∷ []))
]

module _ (rt : Runtime) (c : AdminCall) (id uri app : String) (s : ServerStore) where
  register_uri-IsWithinLimit :
      IsWithinLimit app s → IsWithinLimit app (register_uri ⦃db = reference⦄ rt c id uri s).1
  unfolding register_uri create_uri ◌>>=◌
  register_uri-IsWithinLimit h = elim (Option-cases (find_application ⦃db = reference⦄ id s)) [
    | inl unknown ↦ rw unknown h
    | inr (a, known) ↦ elim (Option-cases (find_by (is_uri id uri) s.redirect_uris)) [
      | inr (r, there) ↦ rw (known, there) h
      | inl missing ↦ elim (Bool-cases (leb 20 (length (filter (is_uri_of id) s.redirect_uris)))) [
        | inl full ↦ rw (known, missing, full) h
        | inr room ↦ elim (Bool-cases (any (is_uri id uri) s.redirect_uris)) [
          | inl clash ↦ rw (known, missing, room, clash) h
          | inr fresh ↦
              rw (known, missing, room, fresh) (new_uri-count id app s.redirect_uris _ refl room h)
        ]
      ]
    ]
  ]

  add_redirect_uri-IsWithinLimit :
      IsWithinLimit app s → IsWithinLimit app (add_redirect_uri ⦃db = reference⦄ rt c id uri s).1
  unfolding add_redirect_uri ◌>>=◌
  add_redirect_uri-IsWithinLimit h = elim (Bool-cases (is_supported_redirect_uri rt uri)) [
    | inl good ↦ rw good (
        either_way (IsWithinLimit app) (register_uri ⦃db = reference⦄ rt c id uri) s h
          (register_uri-IsWithinLimit h))
    | inr bad ↦ rw bad h
  ]

-- No unused code of the application is for the redirect URI.
abbrev pub HasNoCode : String → String → ServerStore → Type 0
HasNoCode app uri s = All (λ r. is_unused_code app uri r ≡ false) s.authorization_codes

module _ (rt : Runtime) (c : AdminCall) (id uri_id : String) where
  unregister_uri-clears :
      (s : ServerStore) (r : ApplicationRedirectUri)
      → find_by (λ (x : ApplicationRedirectUri). x.id === uri_id) (uris_of ⦃db = reference⦄ id s)
        ≡ some r
      → (unregister_uri ⦃db = reference⦄ rt c id uri_id s).0 ≡ ok tt
      → HasNoCode id r.redirect_uri (unregister_uri ⦃db = reference⦄ rt c id uri_id s).1
  unfolding unregister_uri delete_uri update_codes ◌>>=◌
  unregister_uri-clears s r found done =
      elim (Option-cases (find_application ⦃db = reference⦄ id s)) [
        | inl unknown ↦ absurd (ground (arith, rw unknown at done))
        | inr (a, known) ↦ elim (Bool-cases (length (uris_of ⦃db = reference⦄ id s) == 1)) [
          | inl last ↦ absurd (ground (arith, rw (known, found, last) at done))
          | inr others ↦
              elim (Option-cases
                (find_by (λ (x : ApplicationRedirectUri). x.id === uri_id) s.redirect_uris)) [
                  | inl gone ↦ absurd (ground (arith, rw (known, found, others, gone) at done))
                  | inr (x, there) ↦
                      rw (known, found, others, there)
                        (All-cleared (is_unused_code id r.redirect_uri)
                          (is_unused_code id r.redirect_uri) (use_up c.now) s.authorization_codes
                          (λ y h. h) (λ y. ground arith))
                ]
        ]
      ]

  remove_redirect_uri-clears :
      (s : ServerStore) (r : ApplicationRedirectUri)
      → find_by (λ (x : ApplicationRedirectUri). x.id === uri_id) (uris_of ⦃db = reference⦄ id s)
        ≡ some r
      → (remove_redirect_uri ⦃db = reference⦄ rt c id uri_id s).0 ≡ ok tt
      → HasNoCode id r.redirect_uri (remove_redirect_uri ⦃db = reference⦄ rt c id uri_id s).1
  unfolding remove_redirect_uri
  remove_redirect_uri-clears s r found done =
      let (inner, same) =
        ok_rollback (unregister_uri ⦃db = reference⦄ rt c id uri_id s) s tt done in
      subst (HasNoCode id r.redirect_uri) (sym same) (unregister_uri-clears s r found inner)

code_used :
    (app uri : String) (r : AuthorizationCode)
    → is_unused_code app uri r ≡ false
    → r.application_id ≡ app
    → r.redirect_uri ≡ uri
    → is_some r.used_at ≡ true
code_used app uri r h mine same =
    let k = rw (mine, same) at h in ground (arith, k, same_text app, same_text uri)

module _ ⦃db : Prisma⦄ (l : IsDocumented db) where
  -- Registering a redirect URI, whether it succeeds or fails, takes no application beyond twenty of
  -- them.
  pub add_redirect_uri_bounds :
      (rt : Runtime) (c : AdminCall) (id uri app : String) (s : ServerStore)
      → IsWithinLimit app s
      → IsWithinLimit app (add_redirect_uri rt c id uri s).1
  add_redirect_uri_bounds rt c id uri app s h =
      rw (documented l) (add_redirect_uri-IsWithinLimit rt c id uri app s h)

  -- When a redirect URI has been taken from an application, no authorization code that was issued
  -- to the application for it is exchanged, by whatever request and at any later time, as long as
  -- the table of codes is the one that the removal left.
  pub removed_uri_exchanges_nothing :
      (rt : Runtime) (cfg : Settings) (c : AdminCall) (later : Call) (id uri_id code : String)
      (s s' : ServerStore) (uri : ApplicationRedirectUri) (r : AuthorizationCode)
      (input : TokenRequestInput) (header : Option String) (token : TokenResult)
      → find_by (λ (x : ApplicationRedirectUri). x.id === uri_id) (uris_of id s) ≡ some uri
      → (remove_redirect_uri rt c id uri_id s).0 ≡ ok tt
      → s'.authorization_codes ≡ (remove_redirect_uri rt c id uri_id s).1.authorization_codes
      → read_bounded_string input.code 512 ≡ some code
      → find_by (is_code_hash (hash_secret rt code)) s'.authorization_codes ≡ some r
      → r.application_id ≡ id
      → r.redirect_uri ≡ uri.redirect_uri
      → (exchange rt cfg later input header s').0 ≢ ok token
  removed_uri_exchanges_nothing rt cfg c later id uri_id code s s' uri r input header token here
        done kept given there mine same second =
      let clear =
        remove_redirect_uri-clears rt c id uri_id s uri (rw (documented l) at here)
          (rw (documented l) at done) in
      let (code', e', unused, _) =
        (exchange-Consumes rt cfg later input header).at s' token (rw (documented l) at second) in
      let one : code ≡ code' = ground (arith, given, e') in
      let cleared =
        subst (All (λ x. is_unused_code id uri.redirect_uri x ≡ false))
          (sym (rw (documented l) at kept)) clear in
      unused (
        subst (λ k. IsUsed rt k s'.authorization_codes) one
          (
            r,
            there,
            code_used id uri.redirect_uri r
                (find_by-All _ (is_code_hash (hash_secret rt code)) s'.authorization_codes r cleared
                  there)
                mine same,
          ))
