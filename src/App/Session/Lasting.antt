-- ===== src/App/Session/Lasting.antt =====
-- Issuing sessions and processing events bring no session back (local-session.ts and
-- logout-processor.ts).
use seleksi2_labpro.Prelude.{
  ℕ, ◌≡◌, refl, String, Bool, true, false, List, Option, none, some, Result, ok, err, any, modify,
  ◌>>=◌,
}
use seleksi2_labpro.Prelude.Moves.{Moves}
use seleksi2_labpro.Database.{reference}
use seleksi2_labpro.Shared.Event.{RevocationEvent}
use seleksi2_labpro.App.Store.{
  AppStore, AppError, processed_event_conflict, unique_constraint, unavailable, LocalSession,
  ProfileCache, ProcessedEvent, create_processed, update_processed, upsert_profile,
}
use seleksi2_labpro.App.Session.{OAuthUserInfo}
use seleksi2_labpro.App.Session.Issue.{issue, open_session, logged_all, record_callback_failure}
use seleksi2_labpro.App.Session.Over.{IsOver, Keeps, Over-modify, over_rules}
use seleksi2_labpro.App.Logout.{
  InternalLogoutPlan, ProcessingState, Surroundings, DatabaseCall, process, process_by, apply_event,
  log_all, replay, recheck, replay_known, caught, catch_duplicate,
}
use seleksi2_labpro.App.Logout.Effect.{log_all-tables}

module _ (h : String) (now : ℕ) where
  upsert_profile-Keeps :
      (p : ProfileCache → Bool) (r : ProfileCache) (f : ProfileCache → ProfileCache)
      → Moves (Keeps h now) (upsert_profile ⦃db = reference⦄ p r f)
  unfolding upsert_profile
  upsert_profile-Keeps p r f = Over-modify h now _ (λ s. refl)

  logged_all-Keeps :
      (u : OAuthUserInfo) (id request_id : String)
      → Moves (Keeps h now) (modify {E = AppError} (logged_all ⦃db = reference⦄ u id request_id))
  logged_all-Keeps u id request_id = Over-modify h now _ (λ s. refl)

  create_processed-Keeps :
      (r : ProcessedEvent) (clash : ProcessedEvent → Bool)
      → Moves (Keeps h now) (create_processed ⦃db = reference⦄ r clash)
  unfolding create_processed ◌>>=◌
  create_processed-Keeps r clash = record {
    at = λ s k. made s k (any clash s.processed_events) refl;
  }
    where
      made :
          (s : AppStore)
          → IsOver h now s.local_sessions
          → (b : Bool) → any clash s.processed_events ≡ b
          → IsOver h now (create_processed ⦃db = reference⦄ r clash s).1.local_sessions
      made s k true e = rw e k
      made s k false e = rw e k

  update_processed-Keeps :
      (p : ProcessedEvent → Bool) (f : ProcessedEvent → ProcessedEvent)
      → Moves (Keeps h now) (update_processed ⦃db = reference⦄ p f)
  unfolding update_processed
  update_processed-Keeps p f = record { at = λ s k. k }

  log_all-Keeps :
      (e : RevocationEvent) (p : InternalLogoutPlan) (rs : List LocalSession)
      → Moves (Keeps h now) (modify {E = AppError} (log_all ⦃db = reference⦄ e p rs))
  log_all-Keeps e p rs = Over-modify h now _ (λ s. (log_all-tables e p rs s).0)

  open_session-Keeps :
      (u : OAuthUserInfo) (token_hash id request_id : String) (at until : ℕ)
      → Moves (Keeps h now) (open_session ⦃db = reference⦄ u token_hash id request_id at until)
  unfolding open_session
  open_session-Keeps u token_hash id request_id at until =
      search (over_rules, upsert_profile-Keeps, logged_all-Keeps) depth 8

  pub issue-Keeps :
      (hash : String → String) (token id : String) (u : OAuthUserInfo) (ttl : ℕ)
      (request_id : String) (at : ℕ)
      → Moves (Keeps h now) (issue ⦃db = reference⦄ hash token id u ttl request_id at)
  unfolding issue
  issue-Keeps hash token id u ttl request_id at = search (over_rules, open_session-Keeps) depth 8

  pub record_callback_failure-Keeps :
      (request_id reason : String)
      → Moves (Keeps h now) (record_callback_failure ⦃db = reference⦄ request_id reason)
  unfolding record_callback_failure
  record_callback_failure-Keeps request_id reason = search over_rules

  apply_event-Keeps :
      (to_text : ℕ → String) (e : RevocationEvent) (mark : String) (p : InternalLogoutPlan) (at : ℕ)
      (fails : DatabaseCall → Bool)
      → Moves (Keeps h now) (apply_event ⦃db = reference⦄ to_text e mark p at fails)
  unfolding apply_event
  apply_event-Keeps to_text e mark p at fails =
      search (over_rules, create_processed-Keeps, update_processed-Keeps, log_all-Keeps) depth 16

  replay-Keeps :
      (e : RevocationEvent) (mark : String) (r : ProcessedEvent)
      → Moves (Keeps h now) (replay ⦃db = reference⦄ e mark r)
  unfolding replay
  replay-Keeps e mark r = search over_rules

  recheck-Keeps :
      (e : RevocationEvent) (mark : String) (o : Option ProcessedEvent)
      → Moves (Keeps h now) (recheck ⦃db = reference⦄ e mark o)
  unfolding recheck
  recheck-Keeps e mark none = search over_rules
  recheck-Keeps e mark (some r) = replay-Keeps e mark r

  caught-Keeps :
      (e : RevocationEvent) (mark : String) (fails : DatabaseCall → Bool)
      (r : Result AppError ProcessingState)
      → Moves (Keeps h now) (caught ⦃db = reference⦄ e mark fails r)
  caught-Keeps e mark fails (ok a) = search over_rules
  caught-Keeps e mark fails (err unique_constraint) = search (over_rules, recheck-Keeps) depth 8
  caught-Keeps e mark fails (err processed_event_conflict) = search over_rules
  caught-Keeps e mark fails (err unavailable) = search over_rules

  catch_duplicate-Keeps :
      (e : RevocationEvent) (mark : String) (fails : DatabaseCall → Bool)
      (m : AppStore → Result AppError ProcessingState × AppStore)
      → Moves (Keeps h now) m
      → Moves (Keeps h now) (catch_duplicate ⦃db = reference⦄ e mark fails m)
  catch_duplicate-Keeps e mark fails m k = record {
    at = λ s over. (caught-Keeps e mark fails (m s).0).at (m s).1 (k.at s over);
  }

  replay_known-Keeps :
      (e : RevocationEvent) (mark : String) (fails : DatabaseCall → Bool) (r : ProcessedEvent)
      → Moves (Keeps h now) (replay_known ⦃db = reference⦄ e mark fails r)
  unfolding replay_known
  replay_known-Keeps e mark fails r = search (over_rules, replay-Keeps) depth 8

  process_by-Keeps :
      (to_text : ℕ → String) (e : RevocationEvent) (mark : String) (at : ℕ) (env : Surroundings)
      (o : Option ProcessedEvent)
      → ((s : AppStore) → Keeps h now s (env.meanwhile s))
      → Moves (Keeps h now) (process_by ⦃db = reference⦄ to_text e mark at env o)
  unfolding process_by
  process_by-Keeps to_text e mark at env none k =
      search (over_rules, catch_duplicate-Keeps, apply_event-Keeps, k) depth 8
  process_by-Keeps to_text e mark at env (some r) k = replay_known-Keeps e mark env.fails r

  pub process-Keeps :
      (sha256 : String → String) (to_text : ℕ → String) (e : RevocationEvent) (at : ℕ)
      (env : Surroundings)
      → ((s : AppStore) → Keeps h now s (env.meanwhile s))
      → Moves (Keeps h now) (process ⦃db = reference⦄ sha256 to_text e at env)
  unfolding process
  process-Keeps sha256 to_text e at env k = search (over_rules, process_by-Keeps, k) depth 8
