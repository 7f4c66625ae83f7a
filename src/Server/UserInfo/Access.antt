-- ===== src/Server/UserInfo/Access.antt =====
-- Who is refused a profile (userinfo.service.ts).
use mathlib.Core.Option
use seleksi2_labpro.Prelude.{
  ℕ, ◌≡◌, refl, ◌∙◌, String, false, ◌&&◌, Option, none, some, List, err, arith, Bool-cases, inl,
  inr, some_and, find_by, update_where, ◌>>=◌, ◌===◌,
}
use seleksi2_labpro.Database.{Prisma, reference, IsDocumented, documented}
use seleksi2_labpro.Database.Rows.{find_by-update_where, find_by_sound, updated}
use seleksi2_labpro.Schema.Sessions.{AccessToken, SsoSession}
use seleksi2_labpro.Server.Store.{ServerStore, user_info}
use seleksi2_labpro.Server.Runtime.{Runtime, Settings, Call, hash_secret}
use seleksi2_labpro.Server.Auth.{is_unrevoked, is_session_hash, revoke, logout}
use seleksi2_labpro.Server.Auth.Logout.{logout-sessions}
use seleksi2_labpro.Server.UserInfo.{
  get_profile, read_profile, refuse_token, accept_token, is_valid, is_allowed, is_token_hash,
  is_elapsed_token, is_live_session, parse_bearer_token,
}

module _ (rt : Runtime) (c : Call) (s : ServerStore) (t : AccessToken) where
  pub refused :
      (header : Option String) (token : String)
      → parse_bearer_token header ≡ some token
      → find_by (is_token_hash (hash_secret rt token)) s.access_tokens ≡ some t
      → (is_valid ⦃db = reference⦄ rt c t s
          && is_allowed ⦃db = reference⦄ t.application_id t.user_id s)
        ≡ false
      → (get_profile ⦃db = reference⦄ rt c header s).0 ≡ err user_info
  unfolding get_profile read_profile refuse_token accept_token ◌>>=◌
  refused header token parsed found h = elim (Bool-cases (is_valid ⦃db = reference⦄ rt c t s)) [
    | inl valid ↦
        let denied : is_allowed ⦃db = reference⦄ t.application_id t.user_id s ≡ false =
          ground (arith, valid, h) in
        rw (parsed, found, valid, denied) refl
    | inr invalid ↦ elim (Bool-cases (is_elapsed_token c.now t)) [
      | inl elapsed ↦ rw (parsed, found, invalid, elapsed) refl
      | inr lasting ↦ rw (parsed, found, invalid, lasting) refl
    ]
  ]

-- The session of an identifier after a logout of that session.
no_live_session :
    (at now : ℕ) (id : String) (t : List SsoSession)
    → some_and
        (is_live_session now)
        (find_by (λ (r : SsoSession). r.id === id) (update_where (is_unrevoked id) (revoke at) t))
      ≡ false
no_live_session at now id t =
    rw
      (find_by-update_where (λ (r : SsoSession). r.id === id) (is_unrevoked id) (revoke at) t
        (λ r. refl))
      (row (find_by (λ (r : SsoSession). r.id === id) t) refl)
  where
    row :
        (o : Option SsoSession)
        → find_by (λ (r : SsoSession). r.id === id) t ≡ o
        → some_and (is_live_session now) (Option.map (updated (is_unrevoked id) (revoke at)) o)
          ≡ false
    row none e = refl
    row (some r) e = ground (arith, find_by_sound (λ (r : SsoSession). r.id === id) t r e)

invalid_token :
    (rt : Runtime) (c' : Call) (at : ℕ) (s s' : ServerStore) (r : SsoSession) (t : AccessToken)
    → s'.sso_sessions ≡ update_where (is_unrevoked r.id) (revoke at) s.sso_sessions
    → t.sso_session_id ≡ r.id
    → is_valid ⦃db = reference⦄ rt c' t s' ≡ false
invalid_token rt c' at s s' r t kept mine =
    rw (kept, mine) (ground (arith, no_live_session at c'.now r.id s.sso_sessions))

module _ ⦃db : Prisma⦄ (l : IsDocumented db) where
  -- After a logout no access token that was issued in the session gets a profile, at any later time,
  -- as long as the table of sessions is the one that the logout left.
  pub logout_refuses_profile :
      (rt : Runtime) (cfg : Settings) (c c' : Call) (cookie token : String) (header : Option String)
      (s s' : ServerStore) (r : SsoSession) (t : AccessToken)
      → find_by (is_session_hash (hash_secret rt cookie)) s.sso_sessions ≡ some r
      → s'.sso_sessions ≡ (logout rt cfg c cookie s).1.sso_sessions
      → parse_bearer_token header ≡ some token
      → find_by (is_token_hash (hash_secret rt token)) s'.access_tokens ≡ some t
      → t.sso_session_id ≡ r.id
      → (get_profile rt c' header s').0 ≡ err user_info
  logout_refuses_profile rt cfg c c' cookie token header s s' r t here kept parsed found mine =
      rw (documented l) (
        refused rt c' s' t header token parsed found (
          ground (
            arith,
            invalid_token rt c' c.now s s' r t
                ((rw (documented l) at kept) ∙ logout-sessions rt cfg c cookie s r here) mine,
          )))
