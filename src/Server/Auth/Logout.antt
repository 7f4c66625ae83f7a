-- ===== src/Server/Auth/Logout.antt =====
-- What a logout does to the session and its tokens (auth.service.ts).

use seleksi2_labpro.Prelude.{
  same_text, ℕ, ◌≡◌, refl, sym, ap, subst, ◌∙◌, String, false, Option, none, some, List, [], ◌∷◌,
  ◌++◌, ok, err, Result, arith, Bool-cases, Option-cases, inl, inr, find_by, count, update_where,
  ◌>>=◌, ◌==◌, ◌===◌,
}
use seleksi2_labpro.Database.{Prisma, reference, IsDocumented, documented, rollback}
use seleksi2_labpro.Database.Rows.{find_by-update_where, updated}
use seleksi2_labpro.Schema.Accounts.{User}
use seleksi2_labpro.Schema.Sessions.{SsoSession}
use seleksi2_labpro.Server.Store.{ServerStore, ServerError}
use seleksi2_labpro.Server.Outbox.{enqueue, enqueue_many, enqueue_all, outbox_row, event_of}
use seleksi2_labpro.Server.Runtime.{Runtime, Settings, Call, hash_secret}
use seleksi2_labpro.Server.Auth.{
  is_live, is_session_hash, is_unrevoked, revoke, revoke_session, logout, get_current_session,
  refuse_session, admit_session, is_elapsed, invalid_session, logout_event,
}

-- No live session has the token of the cookie.
abbrev pub IsEnded : String → List SsoSession → Type 0
IsEnded h t =
    (r : SsoSession) → find_by (is_session_hash h) t ≡ some r → (now : ℕ) → is_live now r ≡ false

row_ended :
    (at now : ℕ) (r : SsoSession) → is_live now (updated (is_unrevoked r.id) (revoke at) r) ≡ false
row_ended at now r = ground (arith, same_text r.id)

IsEnded-row :
    (c : Call) (r : SsoSession) (h : String) (t : List SsoSession)
    → find_by (is_session_hash h) t ≡ some r
    → IsEnded h (update_where (is_unrevoked r.id) (revoke c.now) t)
IsEnded-row c r h t found x here now =
    let kept =
      find_by-update_where (is_session_hash h) (is_unrevoked r.id) (revoke c.now) t (λ y. refl) in
    let e : updated (is_unrevoked r.id) (revoke c.now) r ≡ x = ground (arith, kept) in
    subst (λ y. is_live now y ≡ false) e (row_ended c.now now r)

kept :
    (r : Result ServerError (Unit {0}) × ServerStore) (s : ServerStore)
    → r.0 ≡ ok tt
    → (rollback s r).1 ≡ r.1
kept (ok u, t) s h = refl
kept (err e, t) s h = ground arith

module _ (rt : Runtime) (cfg : Settings) (c : Call) where
  revoke_session-sessions :
      (r : SsoSession) (s : ServerStore)
      → ((revoke_session ⦃db = reference⦄ rt cfg c r s).0 ≡ ok tt)
        × ((revoke_session ⦃db = reference⦄ rt cfg c r s).1.sso_sessions
            ≡ update_where (is_unrevoked r.id) (revoke c.now) s.sso_sessions)
  unfolding revoke_session ◌>>=◌ enqueue
  revoke_session-sessions r s = elim (Bool-cases (count (is_unrevoked r.id) s.sso_sessions == 1)) [
    | inl one ↦ rw one (refl, refl)
    | inr other ↦ rw other (refl, refl)
  ]

  pub logout-sessions :
      (token : String) (s : ServerStore) (r : SsoSession)
      → find_by (is_session_hash (hash_secret rt token)) s.sso_sessions ≡ some r
      → (logout ⦃db = reference⦄ rt cfg c token s).1.sso_sessions
        ≡ update_where (is_unrevoked r.id) (revoke c.now) s.sso_sessions
  unfolding logout ◌>>=◌
  logout-sessions token s r found =
      let (done, sessions) = revoke_session-sessions r s in
      rw found (
        ap (λ (t : ServerStore). t.sso_sessions)
          (kept (revoke_session ⦃db = reference⦄ rt cfg c r s) s done)
        ∙ sessions)

  -- A session that the token does not find has ended already.
  logout-ends :
      (token : String) (s : ServerStore)
      → IsEnded (hash_secret rt token) (logout ⦃db = reference⦄ rt cfg c token s).1.sso_sessions
  unfolding logout ◌>>=◌
  logout-ends token s =
      elim (Option-cases (find_by (is_session_hash (hash_secret rt token)) s.sso_sessions)) [
        | inl nothing ↦ rw nothing (λ r here now. ground (arith, nothing, here))
        | inr (r, found) ↦
            subst (IsEnded (hash_secret rt token)) (sym (logout-sessions token s r found))
              (IsEnded-row c r (hash_secret rt token) s.sso_sessions found)
      ]

  refused :
      (o : Option SsoSession) (s : ServerStore)
      → (refuse_session ⦃db = reference⦄ rt cfg c o s).0 ≡ err invalid_session
  unfolding refuse_session ◌>>=◌
  refused none s = refl
  refused (some r) s = elim (Bool-cases (is_elapsed c.now r)) [
    | inl elapsed ↦ rw elapsed refl
    | inr lasting ↦ rw lasting refl
  ]

  pub ended-refused :
      (token : String) (s : ServerStore)
      → IsEnded (hash_secret rt token) s.sso_sessions
      → (get_current_session ⦃db = reference⦄ rt cfg c token s).0 ≡ err invalid_session
  unfolding get_current_session
  ended-refused token s ended =
      elim (Option-cases (find_by (is_session_hash (hash_secret rt token)) s.sso_sessions)) [
        | inl nothing ↦ rw nothing (refused none s)
        | inr (r, found) ↦
            rw found (by_owner r (find_by (λ u. u.id === r.user_id) s.users) (ended r found c.now))
      ]
    where
      by_owner :
          (r : SsoSession) (owner : Option User)
          → is_live c.now r ≡ false
          → (admit_session ⦃db = reference⦄ rt cfg c r owner s).0 ≡ err invalid_session
      by_owner r none h = refused (some r) s
      by_owner r (some u) h = rw h (refused (some r) s)

  -- The event that the logout of an unrevoked session leaves in the outbox.
  pub logout-outbox :
      (token : String) (s : ServerStore) (r : SsoSession)
      → find_by (is_session_hash (hash_secret rt token)) s.sso_sessions ≡ some r
      → count (is_unrevoked r.id) s.sso_sessions ≡ 1
      → (logout ⦃db = reference⦄ rt cfg c token s).1.outbox_events
        ≡ s.outbox_events ++ outbox_row (event_of rt (c.fresh_id, logout_event c r)) ∷ []
  unfolding logout revoke_session ◌>>=◌ enqueue enqueue_many enqueue_all
  logout-outbox token s r found one = rw (found, one) refl

module _ ⦃db : Prisma⦄ (l : IsDocumented db) where
  -- After a logout the cookie's token is refused at every later time, as long as the table of
  -- sessions is the one that the logout left.
  pub logout_refuses_token :
      (rt : Runtime) (cfg : Settings) (c c' : Call) (token : String) (s s' : ServerStore)
      → s'.sso_sessions ≡ (logout rt cfg c token s).1.sso_sessions
      → (get_current_session rt cfg c' token s').0 ≡ err invalid_session
  logout_refuses_token rt cfg c c' token s s' kept = rw (documented l) (
      ended-refused rt cfg c' token s' (
        subst (IsEnded (hash_secret rt token)) (sym (rw (documented l) at kept))
          (logout-ends rt cfg c token s)))
