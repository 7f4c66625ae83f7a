-- ===== src/App/Logout/Effect.antt =====
-- What `processInternalLogoutEvent` does to the tables (logout-processor.ts).
use seleksi2_labpro.Prelude.{
  Bool, not, ◌==◌, ◌⊎◌, inl, inr, Bool-cases, ◌∙◌, pure, throw, arith, ℕ, ◌≡◌, refl, ap, String,
  true, false, ◌&&◌, List, [], ◌∷◌, ◌++◌, none, some, Result, ok, err, any, find_by, filter,
  update_where, length, map, ◌>>=◌,
}
use seleksi2_labpro.Database.{reference, rollback}
use seleksi2_labpro.Database.Rows.{any-find_by}
use seleksi2_labpro.Shared.Event.{RevocationEvent}
use seleksi2_labpro.App.Store.{
  AppStore, AppError, LocalSession, ProcessedEvent, unique_constraint, unavailable,
  processed_event_conflict,
}
use seleksi2_labpro.App.Session.{revoke}
use seleksi2_labpro.App.Logout.{
  replayed, caught, Surroundings, DatabaseCall, creating, revoking, logging, recording, committing,
  rereading, InternalLogoutPlan, ProcessingState, processed, is_planned, is_live, is_event,
  new_processed, processing_result, log_all, apply_event, process_by, replay, recheck,
  create_internal_logout_plan,
}

module _ (e : RevocationEvent) (p : InternalLogoutPlan) where
  pub log_all-tables :
      (rs : List LocalSession) (s : AppStore)
      → ((log_all ⦃db = reference⦄ e p rs s).local_sessions ≡ s.local_sessions)
        × ((log_all ⦃db = reference⦄ e p rs s).processed_events ≡ s.processed_events)
  unfolding log_all
  log_all-tables [] s = (refl, refl)
  log_all-tables (r ∷ rs) s = let (a, b) = log_all-tables rs _ in (a, b)

-- The sessions of a plan after it was carried out.
abbrev pub ended : InternalLogoutPlan → ℕ → List LocalSession → List LocalSession
ended p now = update_where (λ r. is_planned p r && is_live now r) (revoke now p.revoke_reason)

abbrev pub with_result : String → ProcessedEvent → ProcessedEvent
with_result text r = record r { result = text }

module _ (to_text : ℕ → String) (e : RevocationEvent) (h : String) (p : InternalLogoutPlan)
    (now : ℕ) (fails : DatabaseCall → Bool) (s : AppStore) where
  abbrev hits : List LocalSession
  hits =
      map (revoke now p.revoke_reason)
        (filter (λ r. is_planned p r && is_live now r) s.local_sessions)

  abbrev text : String
  text = processing_result to_text (length hits)

  abbrev applying : Result AppError ProcessingState × AppStore
  applying = apply_event ⦃db = reference⦄ to_text e h p now fails s

  -- The event is new: the planned sessions end, and the event is on record.
  pub record Applied : Type 0 where
    pub answer : applying.0 ≡ ok processed
    pub sessions : applying.1.local_sessions ≡ ended p now s.local_sessions
    pub events :
        applying.1.processed_events
        ≡ update_where
            (is_event e.event_id)
            (with_result text)
            (s.processed_events ++ new_processed e h now ∷ [])

  -- No call of the transaction fails.
  pub record Works : Type 0 where
    pub creates : fails creating ≡ false
    pub revokes : fails revoking ≡ false
    pub logs : (not (length hits == 0) && fails logging) ≡ false
    pub records : fails recording ≡ false
    pub commits : fails committing ≡ false

  pub apply_event-new : any (is_event e.event_id) s.processed_events ≡ false → Works → Applied
  unfolding apply_event ◌>>=◌
  apply_event-new fresh w = record {
    answer = rw (w.creates, fresh, w.revokes, w.logs, w.records, w.commits) refl;
    sessions =
        rw (w.creates, fresh, w.revokes, w.logs, w.records, w.commits)
          ((log_all-tables e p hits _).0);
    events =
        rw (w.creates, fresh, w.revokes, w.logs, w.records, w.commits)
          (ap (update_where (is_event e.event_id) (with_result text))
            ((log_all-tables e p hits _).1));
  }

  pub apply_event-outcome :
      any (is_event e.event_id) s.processed_events ≡ false → Works ⊎ (applying.0 ≡ err unavailable)
  unfolding apply_event ◌>>=◌
  apply_event-outcome fresh = elim (Bool-cases (fails creating)) [
    | inl a ↦ inr (rw a refl)
    | inr a ↦ elim (Bool-cases (fails revoking)) [
      | inl b ↦ inr (rw (a, fresh, b) refl)
      | inr b ↦ elim (Bool-cases (not (length hits == 0) && fails logging)) [
        | inl k ↦ inr (rw (a, fresh, b, k) refl)
        | inr k ↦ elim (Bool-cases (fails recording)) [
          | inl m ↦ inr (rw (a, fresh, b, k, m) refl)
          | inr m ↦ elim (Bool-cases (fails committing)) [
            | inl n ↦ inr (rw (a, fresh, b, k, m, n) refl)
            | inr n ↦ inl (record { creates = a; revokes = b; logs = k; records = m; commits = n })
          ]
        ]
      ]
    ]
  ]

  pub apply_event-clash :
      any (is_event e.event_id) s.processed_events ≡ true
      → (applying ≡ (err unique_constraint, s)) ⊎ (applying ≡ (err unavailable, s))
  unfolding apply_event ◌>>=◌
  apply_event-clash seen = elim (Bool-cases (fails creating)) [
    | inl a ↦ inr (rw a refl)
    | inr a ↦ inl (rw (a, seen) refl)
  ]

module _ (to_text : ℕ → String) (e : RevocationEvent) (h : String) (now : ℕ) (env : Surroundings)
    (s : AppStore) where
  abbrev run : Result AppError ProcessingState × AppStore
  run = process_by ⦃db = reference⦄ to_text e h now env none s

  abbrev applied : Result AppError ProcessingState × AppStore
  applied =
      apply_event ⦃db = reference⦄ to_text e h (create_internal_logout_plan e) now env.fails
        (env.meanwhile s)

  -- How the transaction's result is handed on.
  abbrev handed :
      Result AppError ProcessingState × AppStore → Result AppError ProcessingState × AppStore
  handed w =
      caught ⦃db = reference⦄ e h env.fails (rollback (env.meanwhile s) w).0
        (rollback (env.meanwhile s) w).1

  run-handed : run ≡ handed applied
  unfolding process_by ◌>>=◌
  run-handed = refl

  handed-unavailable :
      (w : Result AppError ProcessingState × AppStore)
      → w.0 ≡ err unavailable
      → handed w ≡ (err unavailable, env.meanwhile s)
  unfolding throw
  handed-unavailable (ok a, t) x = ground arith
  handed-unavailable (err unavailable, t) x = refl
  handed-unavailable (err unique_constraint, t) x = ground arith
  handed-unavailable (err processed_event_conflict, t) x = ground arith

  handed-processed :
      (w : Result AppError ProcessingState × AppStore)
      → w.0 ≡ ok processed
      → handed w ≡ (ok processed, w.1)
  unfolding pure
  handed-processed (ok processed, t) x = refl
  handed-processed (ok replayed, t) x = ground arith
  handed-processed (err d, t) x = ground arith

  -- Another delivery of the event was first.
  pub process_by-clash :
      (r : ProcessedEvent)
      → find_by (is_event e.event_id) (env.meanwhile s).processed_events ≡ some r
      → (run ≡ replay ⦃db = reference⦄ e h r (env.meanwhile s))
        ⊎ (run ≡ (err unavailable, env.meanwhile s))
  unfolding recheck ◌>>=◌
  process_by-clash r found =
      elim (apply_event-clash to_text e h (create_internal_logout_plan e) now env.fails
        (env.meanwhile s)
        (any-find_by (is_event e.event_id) (env.meanwhile s).processed_events r found)) [
          | inr failure ↦ inr (run-handed ∙ handed-unavailable applied (ap (λ w. w.0) failure))
          | inl clash ↦ elim (Bool-cases (env.fails rereading)) [
            | inl broken ↦ inr (run-handed ∙ ap handed clash ∙ rw broken refl)
            | inr works ↦ inl (run-handed ∙ ap handed clash ∙ rw (works, found) refl)
          ]
        ]

  pub process_by-works :
      any (is_event e.event_id) (env.meanwhile s).processed_events ≡ false
      → Works to_text e h (create_internal_logout_plan e) now env.fails (env.meanwhile s)
      → run ≡ (ok processed, applied.1)
  process_by-works fresh w =
      run-handed
      ∙ handed-processed applied
          (apply_event-new to_text e h (create_internal_logout_plan e) now env.fails
            (env.meanwhile s) fresh w).answer

  pub process_by-new :
      any (is_event e.event_id) (env.meanwhile s).processed_events ≡ false
      → ((run ≡ (ok processed, applied.1))
          × Applied to_text e h (create_internal_logout_plan e) now env.fails (env.meanwhile s))
        ⊎ (run ≡ (err unavailable, env.meanwhile s))
  process_by-new fresh =
      elim (apply_event-outcome to_text e h (create_internal_logout_plan e) now env.fails
        (env.meanwhile s) fresh) [
          | inl w ↦ inl (
            process_by-works fresh w,
            apply_event-new to_text e h (create_internal_logout_plan e) now env.fails
                (env.meanwhile s) fresh w,
          )
          | inr failure ↦ inr (run-handed ∙ handed-unavailable applied failure)
        ]
