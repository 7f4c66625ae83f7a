-- ===== src/Server/Admin/Users/SignedOut.antt =====
-- Who has no session any more after an administrator's change (admin-users.service.ts).
use seleksi2_labpro.Prelude.{
  ℕ, ◌≡◌, String, false, ◌&&◌, Option, some, arith, ok, err, find_by, is_none, subst, sym,
  same_text, All, ◌>>=◌, ◌===◌,
}
use seleksi2_labpro.Prelude.Moves.{moves_rules}
use seleksi2_labpro.Prelude.Ensures.{
  Ensures, Ensures-behind, Ensures-keeps, Ensures-or_throw, Ensures-gets, Keeps-preorder,
}
use seleksi2_labpro.Database.{Prisma, reference, IsDocumented, documented}
use seleksi2_labpro.Database.Transactions.{Ensures-transaction}
use seleksi2_labpro.Schema.Accounts.{User, active, inactive}
use seleksi2_labpro.Schema.Sessions.{SsoSession, AccessToken, is_active}
use seleksi2_labpro.Database.Rows.{find_by-All}
use seleksi2_labpro.Server.Store.{ServerStore, user_info}
use seleksi2_labpro.Server.Runtime.{Runtime, Settings, Call, hash_secret}
use seleksi2_labpro.Server.Auth.{get_current_session, is_session_hash, invalid_session, is_live}
use seleksi2_labpro.Server.Auth.Logout.{ended-refused}
use seleksi2_labpro.Server.UserInfo.{get_profile, is_token_hash, parse_bearer_token, is_live_token}
use seleksi2_labpro.Server.UserInfo.Access.{refused}
use seleksi2_labpro.Server.Admin.{AdminCall}
use seleksi2_labpro.Server.Admin.Revocation.Complete.{
  IsSignedOut, audited-Keeps, deactivation_signs_out, password_change_signs_out,
}
use seleksi2_labpro.Server.Admin.Users.{
  set_status, update_status, change_status, set_password, update_password,
}

module _ (rt : Runtime) (c : AdminCall) (id : String) where
  set_password-IsSignedOut :
      (password_hash : String)
      → Ensures (λ s s'. IsSignedOut id s') (set_password ⦃db = reference⦄ rt c id password_hash)
  unfolding set_password
  set_password-IsSignedOut password_hash = Ensures-behind (IsSignedOut id) _ _ λ row.
      Ensures-keeps (IsSignedOut id) _ _ (password_change_signs_out rt c id)
        λ u. audited-Keeps rt c id _

  update_password-IsSignedOut :
      (password : String)
      → Ensures (λ s s'. IsSignedOut id s') (update_password ⦃db = reference⦄ rt c id password)
  unfolding update_password
  update_password-IsSignedOut password = Ensures-gets _ _ λ found.
      Ensures-or_throw _ _ _
        λ user e. Ensures-transaction _ _ (set_password-IsSignedOut (c.hash_password password))

  set_status-IsSignedOut :
      Ensures (λ s s'. IsSignedOut id s') (set_status ⦃db = reference⦄ rt c id inactive)
  unfolding set_status
  set_status-IsSignedOut = Ensures-behind (IsSignedOut id) _ _ λ row.
      Ensures-keeps (IsSignedOut id) _ _ (deactivation_signs_out rt c id)
        λ u. search (Keeps-preorder (IsSignedOut id), moves_rules, audited-Keeps rt c id) depth 8

  change_status-IsSignedOut :
      Ensures (λ s s'. IsSignedOut id s') (change_status ⦃db = reference⦄ rt c id inactive)
  unfolding change_status
  change_status-IsSignedOut = Ensures-behind (IsSignedOut id) _ _ λ administrates.
      Ensures-behind (IsSignedOut id) _ _ λ u. Ensures-transaction _ _ set_status-IsSignedOut

  update_status-IsSignedOut :
      (s : ServerStore) (u v : User)
      → find_by (λ (x : User). x.id === id) s.users ≡ some u
      → u.status ≡ active
      → (update_status ⦃db = reference⦄ rt c id inactive s).0 ≡ ok v
      → IsSignedOut id (update_status ⦃db = reference⦄ rt c id inactive s).1
  unfolding update_status ◌>>=◌
  update_status-IsSignedOut s u v found on done =
      rw (found, on) (change_status-IsSignedOut.at s v (rw (found, on) at done))

session_not_live :
    (id : String) (r : SsoSession)
    → (r.user_id === id && is_active r.status && is_none r.revoked_at) ≡ false
    → r.user_id ≡ id
    → (now : ℕ) → is_live now r ≡ false
session_not_live id r out mine now =
    let k : (is_active r.status && is_none r.revoked_at) ≡ false =
      ground (arith, same_text id, rw mine at out) in
    ground (arith, k)

token_not_live :
    (id : String) (r : AccessToken)
    → (r.user_id === id && is_active r.status && is_none r.revoked_at) ≡ false
    → r.user_id ≡ id
    → (now : ℕ) → is_live_token now r ≡ false
token_not_live id r out mine now =
    let k : (is_active r.status && is_none r.revoked_at) ≡ false =
      ground (arith, same_text id, rw mine at out) in
    ground (arith, k)

-- A session and a token of a user who is signed out are refused.
module _ (rt : Runtime) (cfg : Settings) (c : Call) (id : String) (s s' : ServerStore) where
  cookie_refused :
      (cookie : String) (r : SsoSession)
      → IsSignedOut id s
      → s'.sso_sessions ≡ s.sso_sessions
      → find_by (is_session_hash (hash_secret rt cookie)) s'.sso_sessions ≡ some r
      → r.user_id ≡ id
      → (get_current_session ⦃db = reference⦄ rt cfg c cookie s').0 ≡ err invalid_session
  cookie_refused cookie r out kept found mine = ended-refused rt cfg c cookie s' λ x here now.
      let same : r ≡ x = ground (arith, found, here) in
      subst (λ y. is_live now y ≡ false) same
        (session_not_live id r
          (find_by-All _ (is_session_hash (hash_secret rt cookie)) s'.sso_sessions r
            (subst (All _) (sym kept) out.sessions) found)
          mine now)

  token_refused :
      (header : Option String) (token : String) (t : AccessToken)
      → IsSignedOut id s
      → s'.access_tokens ≡ s.access_tokens
      → parse_bearer_token header ≡ some token
      → find_by (is_token_hash (hash_secret rt token)) s'.access_tokens ≡ some t
      → t.user_id ≡ id
      → (get_profile ⦃db = reference⦄ rt c header s').0 ≡ err user_info
  token_refused header token t out kept parsed found mine =
      refused rt c s' t header token parsed found (
        ground (
          arith,
          token_not_live id t
              (find_by-All _ (is_token_hash (hash_secret rt token)) s'.access_tokens t
                (subst (All _) (sym kept) out.tokens) found)
              mine c.now,
        ))

module _ ⦃db : Prisma⦄ (l : IsDocumented db) where
  -- When an administrator has changed a user's password, no cookie of a session that the user had is
  -- accepted at any later time, as long as the table of sessions is the one that the change left.
  pub update_password_refuses_session :
      (rt : Runtime) (cfg : Settings) (c : AdminCall) (later : Call) (id password : String)
      (s s' : ServerStore) (cookie : String) (r : SsoSession)
      → (update_password rt c id password s).0 ≡ ok tt
      → s'.sso_sessions ≡ (update_password rt c id password s).1.sso_sessions
      → find_by (is_session_hash (hash_secret rt cookie)) s'.sso_sessions ≡ some r
      → r.user_id ≡ id
      → (get_current_session rt cfg later cookie s').0 ≡ err invalid_session
  update_password_refuses_session rt cfg c later id password s s' cookie r done kept here mine =
      rw (documented l) (
        cookie_refused rt cfg later id (update_password ⦃db = reference⦄ rt c id password s).1 s'
          cookie r
          ((update_password-IsSignedOut rt c id password).at s tt (rw (documented l) at done))
          (rw (documented l) at kept) here mine)

  -- When an administrator has changed a user's password, no access token that the user had gets a
  -- profile at any later time, as long as the table of tokens is the one that the change left.
  pub update_password_refuses_profile :
      (rt : Runtime) (cfg : Settings) (c : AdminCall) (later : Call) (id password : String)
      (s s' : ServerStore) (token : String) (header : Option String) (t : AccessToken)
      → (update_password rt c id password s).0 ≡ ok tt
      → s'.access_tokens ≡ (update_password rt c id password s).1.access_tokens
      → parse_bearer_token header ≡ some token
      → find_by (is_token_hash (hash_secret rt token)) s'.access_tokens ≡ some t
      → t.user_id ≡ id
      → (get_profile rt later header s').0 ≡ err user_info
  update_password_refuses_profile rt cfg c later id password s s' token header t done kept parsed
        there mine =
      rw (documented l) (
        token_refused rt cfg later id (update_password ⦃db = reference⦄ rt c id password s).1 s'
          header token t
          ((update_password-IsSignedOut rt c id password).at s tt (rw (documented l) at done))
          (rw (documented l) at kept) parsed there mine)

  -- When an administrator has deactivated an active user, no session and no access token of the user
  -- is left that has the status ACTIVE and no time of revocation, and no login of the user that waits
  -- for a second factor is open.
  pub deactivation-IsSignedOut :
      (rt : Runtime) (c : AdminCall) (id : String) (s : ServerStore) (u v : User)
      → find_by (λ (x : User). x.id === id) s.users ≡ some u
      → u.status ≡ active
      → (update_status rt c id inactive s).0 ≡ ok v
      → IsSignedOut id (update_status rt c id inactive s).1
  deactivation-IsSignedOut rt c id s u v found on done =
      rw (documented l)
        (update_status-IsSignedOut rt c id s u v found on (rw (documented l) at done))
