-- ===== src/App/Logout/Ends.antt =====
-- What an event ends (logout-processor.ts): the sessions of its plan, for good.
use seleksi2_labpro.Prelude.{
  ℕ, ◌≡◌, ◌≢◌, refl, ap, sym, subst, ◌∙◌, String, Bool, true, false, ◌&&◌, List, [], ◌∷◌, none,
  some, ok, inl, inr, Bool-cases, Option-cases, find_by, ◌≤◌, arith, ◌>>=◌, update_where, any,
}
use seleksi2_labpro.Database.{Prisma, reference, IsDocumented, documented}
use seleksi2_labpro.Database.Rows.{find_by-any, updated}
use seleksi2_labpro.Shared.Event.{RevocationEvent}
use seleksi2_labpro.Shared.Canonical.{fingerprint}
use seleksi2_labpro.App.Store.{AppStore, LocalSession, LocalSessionStatus}
use seleksi2_labpro.App.Session.{
  active, ActiveProfile, ActiveSession, classify, resolve, is_session_token, revoke,
}
use seleksi2_labpro.App.Session.Over.{IsOver}
use seleksi2_labpro.App.Logout.{
  InternalLogoutPlan, Surroundings, reading, processed, process, process_by,
  create_internal_logout_plan, is_planned, is_live, is_event,
}
use seleksi2_labpro.App.Logout.Effect.{ended, process_by-new, process_by-clash}
use seleksi2_labpro.App.Logout.Once.{replay-never_processed, replay_known-never_processed}
use seleksi2_labpro.App.History.{History, History-Keeps, over-not_active}

module _ (sha256 : String → String) (to_text : ℕ → String) (e : RevocationEvent) (now : ℕ)
    (env : Surroundings) (s : AppStore) where
  abbrev planned : List LocalSession → List LocalSession
  planned = ended (create_internal_logout_plan e) now

  process_by-processed :
      (process_by ⦃db = reference⦄ to_text e (fingerprint sha256 e) now env none s).0 ≡ ok processed
      → (process_by ⦃db = reference⦄ to_text e
          (fingerprint sha256 e)
          now
          env
          none
          s).1.local_sessions
        ≡ planned (env.meanwhile s).local_sessions
  process_by-processed done =
      elim (Bool-cases (any (is_event e.event_id) (env.meanwhile s).processed_events)) [
        | inl seen ↦
            let (r, found) =
              find_by-any (is_event e.event_id) (env.meanwhile s).processed_events seen in
            elim (process_by-clash to_text e (fingerprint sha256 e) now env s r found) [
              | inl same ↦ absurd (
                  replay-never_processed e (fingerprint sha256 e) r (env.meanwhile s)
                    (subst (λ w. w.0 ≡ ok processed) same done))
              | inr failure ↦ ground (arith, failure)
            ]
        | inr fresh ↦ elim (process_by-new to_text e (fingerprint sha256 e) now env s fresh) [
          | inl (same, applied) ↦ ap (λ w. w.1.local_sessions) same ∙ applied.sessions
          | inr failure ↦ ground (arith, failure)
        ]
      ]

  pub process-processed :
      (process ⦃db = reference⦄ sha256 to_text e now env s).0 ≡ ok processed
      → (process ⦃db = reference⦄ sha256 to_text e now env s).1.local_sessions
        ≡ planned (env.meanwhile s).local_sessions
  unfolding process process_by ◌>>=◌
  process-processed = elim (Bool-cases (env.fails reading)) [
    | inl broken ↦ λ done. ground (arith, rw broken at done)
    | inr works ↦ elim (Option-cases (find_by (is_event e.event_id) s.processed_events)) [
      | inl nothing ↦ rw (works, nothing) process_by-processed
      | inr (r, found) ↦
          rw (works, found)
            (λ done.
              absurd (replay_known-never_processed e (fingerprint sha256 e) env.fails r s done))
    ]
  ]

module _ (p : InternalLogoutPlan) (now : ℕ) where
  not_live-not_active :
      (r : LocalSession) (at : ℕ)
      → is_live now r ≡ false
      → now ≤ at
      → classify r at ≢ LocalSessionStatus.active
  unfolding classify
  not_live-not_active r at dead later x = ground arith

  updated-not_live :
      (x : LocalSession)
      → is_planned p (updated (λ y. is_planned p y && is_live now y) (revoke now p.revoke_reason) x)
        ≡ true
      → is_live now (updated (λ y. is_planned p y && is_live now y) (revoke now p.revoke_reason) x)
        ≡ false
  updated-not_live x mine = elim (Bool-cases (is_planned p x && is_live now x)) [
    | inl hit ↦ rw hit refl
    | inr miss ↦ ground arith
  ]

  -- A planned session that is found after the plan was carried out is not live.
  ended-not_live :
      (q : LocalSession → Bool) (t : List LocalSession) (r : LocalSession)
      → find_by q (ended p now t) ≡ some r
      → is_planned p r ≡ true
      → is_live now r ≡ false
  unfolding find_by update_where
  ended-not_live q [] r found mine = ground arith
  ended-not_live q (x ∷ t) r found mine =
      elim (Bool-cases
        (q (updated (λ y. is_planned p y && is_live now y) (revoke now p.revoke_reason) x))) [
          | inl here ↦
              let row : LocalSession =
                updated (λ y. is_planned p y && is_live now y) (revoke now p.revoke_reason) x in
              let same : row ≡ r = ground (arith, here, found) in
              subst (λ y. is_planned p y ≡ true → is_live now y ≡ false) same (updated-not_live x)
                mine
          | inr there ↦ ended-not_live q t r (rw there at found) mine
        ]

  ended-IsOver :
      (h : String) (t : List LocalSession) (r : LocalSession)
      → find_by (is_session_token h) (ended p now t) ≡ some r
      → is_planned p r ≡ true
      → IsOver h now (ended p now t)
  ended-IsOver h t r found mine = (
    r,
    found,
    λ at later x.
        not_live-not_active r at (ended-not_live (is_session_token h) t r found mine) later x,
  )

module _ ⦃db : Prisma⦄ (l : IsDocumented db) where
  -- An event that was processed ends every session of its plan for good: whatever the application
  -- does next, in any order, the token of a session of the user (and of the central session, where
  -- the event names one) never signs anyone in again.
  pub process_ends :
      (hash sha256 : String → String) (to_text : ℕ → String) (e : RevocationEvent) (now at : ℕ)
      (env : Surroundings) (s s' : AppStore) (token : String) (r : LocalSession) (p : ActiveProfile)
      (a : ActiveSession)
      → (process sha256 to_text e now env s).0 ≡ ok processed
      → find_by
          (is_session_token (hash token))
          (process sha256 to_text e now env s).1.local_sessions
        ≡ some r
      → is_planned (create_internal_logout_plan e) r ≡ true
      → History hash sha256 to_text (process sha256 to_text e now env s).1 s'
      → now ≤ at
      → (resolve hash token at s').0 ≢ ok (active p a)
  process_ends hash sha256 to_text e now at env s s' token r p a done found mine y later =
      rw (documented l) (
        let tables = process-processed sha256 to_text e now env s (rw (documented l) at done) in
        over-not_active at p a hash token now s' later (
          History-Keeps (hash token) now hash sha256 to_text (rw (documented l) at y) (
            subst (IsOver (hash token) now) (sym tables) (
              ended-IsOver (create_internal_logout_plan e) now (hash token)
                (env.meanwhile s).local_sessions r
                (subst (λ t. find_by (is_session_token (hash token)) t ≡ some r) tables
                  (rw (documented l) at found))
                mine))))
