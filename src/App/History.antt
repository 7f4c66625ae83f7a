-- ===== src/App/History.antt =====
-- The application's operations one after another, in any order (local-session.ts and
-- logout-processor.ts of applications/app-a/src/lib): a session that ended is never signed in again.
use seleksi2_labpro.Prelude.{
  ℕ, ◌≢◌, refl, String, Option, none, some, Result, ok, err, inl, inr, Bool-cases, ◌≤◌, arith,
  ◌>>=◌, count, ◌==◌,
}
use seleksi2_labpro.Database.{Prisma, reference, rollback}
use seleksi2_labpro.Shared.Event.{RevocationEvent}
use seleksi2_labpro.App.Store.{AppStore, AppError, LocalSession, LocalSessionStatus, ProfileCache}
use seleksi2_labpro.App.Session.{
  Resolution, active, ActiveProfile, ActiveSession, classify, resolve, resolve_hash, resolve_found,
  resolve_by, mark_expired, is_local_session_token, is_elapsed, revoke_local_session, OAuthUserInfo,
}
use seleksi2_labpro.App.Session.Issue.{issue, record_callback_failure}
use seleksi2_labpro.App.Session.Over.{IsOver, Keeps, resolve-Keeps, revoke_local_session-Keeps}
use seleksi2_labpro.App.Session.Lasting.{issue-Keeps, record_callback_failure-Keeps, process-Keeps}
use seleksi2_labpro.App.Logout.{process, Surroundings}

-- The states that the operations lead to from a state; while an event is processed, others may do
-- whatever the operations do.
pub data History ⦃db : Prisma⦄ (hash sha256 : String → String) (to_text : ℕ → String)
    : AppStore → AppStore → Type 0 where
  start : {s : AppStore} → History hash sha256 to_text s s
  resolving :
      {s t : AppStore} (token : String) (at : ℕ)
      → History hash sha256 to_text s t
      → History hash sha256 to_text s (resolve hash token at t).1
  revoking :
      {s t : AppStore} (token request_id : String) (at : ℕ)
      → History hash sha256 to_text s t
      → History hash sha256 to_text s (revoke_local_session hash token request_id at t).1
  issuing :
      {s t : AppStore} (token id : String) (u : OAuthUserInfo) (ttl : ℕ) (request_id : String)
      (at : ℕ)
      → History hash sha256 to_text s t
      → History hash sha256 to_text s (issue hash token id u ttl request_id at t).1
  failing :
      {s t : AppStore} (request_id reason : String)
      → History hash sha256 to_text s t
      → History hash sha256 to_text s (record_callback_failure request_id reason t).1
  processing :
      {s t : AppStore} (e : RevocationEvent) (at : ℕ) (env : Surroundings)
      → ((x : AppStore) → History hash sha256 to_text x (env.meanwhile x))
      → History hash sha256 to_text s t
      → History hash sha256 to_text s (process sha256 to_text e at env t).1

module _ (h : String) (now : ℕ) (hash sha256 : String → String) (to_text : ℕ → String) where
  pub History-Keeps :
      {s t : AppStore} → History ⦃db = reference⦄ hash sha256 to_text s t → Keeps h now s t
  History-Keeps start k = k
  History-Keeps (resolving token at y) k =
      (resolve-Keeps h now hash token at).at _ (History-Keeps y k)
  History-Keeps (revoking token request_id at y) k =
      (revoke_local_session-Keeps h now hash token request_id at).at _ (History-Keeps y k)
  History-Keeps (issuing token id u ttl request_id at y) k =
      (issue-Keeps h now hash token id u ttl request_id at).at _ (History-Keeps y k)
  History-Keeps (failing request_id reason y) k =
      (record_callback_failure-Keeps h now request_id reason).at _ (History-Keeps y k)
  History-Keeps (processing e at env others y) k =
      (process-Keeps h now sha256 to_text e at env (λ x. History-Keeps (others x))).at _
        (History-Keeps y k)

module _ (at : ℕ) (p : ActiveProfile) (a : ActiveSession) where
  not_active_by :
      (k : LocalSessionStatus) (r : LocalSession) (o : ProfileCache) (s : AppStore)
      → k ≢ LocalSessionStatus.active
      → (resolve_by ⦃db = reference⦄ k r o at s).0 ≢ ok (active p a)
  unfolding resolve_by mark_expired ◌>>=◌
  not_active_by LocalSessionStatus.active r o s never x = never refl
  not_active_by LocalSessionStatus.revoked r o s never x = ground arith
  not_active_by LocalSessionStatus.expired r o s never x =
      elim (Bool-cases (count (is_elapsed r.id at) s.local_sessions == 1)) [
        | inl one ↦ ground arith
        | inr other ↦ ground arith
      ]

  not_active_found :
      (o : Option ProfileCache) (r : LocalSession) (s : AppStore)
      → classify r at ≢ LocalSessionStatus.active
      → (resolve_found ⦃db = reference⦄ (some r) o at s).0 ≢ ok (active p a)
  unfolding resolve_found ◌>>=◌
  not_active_found none r s over x = ground arith
  not_active_found (some o) r s over x = not_active_by (classify r at) r o s over x

  not_active_rollback :
      (s : AppStore) (w : Result AppError Resolution × AppStore)
      → w.0 ≢ ok (active p a)
      → (rollback s w).0 ≢ ok (active p a)
  not_active_rollback s (ok b, t) never x = never x
  not_active_rollback s (err e, t) never x = ground arith

  pub over-not_active :
      (hash : String → String) (token : String) (now : ℕ) (s : AppStore)
      → now ≤ at
      → IsOver (hash token) now s.local_sessions
      → (resolve ⦃db = reference⦄ hash token at s).0 ≢ ok (active p a)
  unfolding resolve resolve_hash ◌>>=◌
  over-not_active hash token now s later (r, found, over) x =
      elim (Bool-cases (is_local_session_token token)) [
        | inl fits ↦
            not_active_rollback s (resolve_hash ⦃db = reference⦄ (hash token) at s)
              (rw found (not_active_found _ r s (over at later))) (rw fits at x)
        | inr unfit ↦ ground arith
      ]
