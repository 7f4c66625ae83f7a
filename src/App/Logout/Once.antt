-- ===== src/App/Logout/Once.antt =====
-- An event that was processed once is only answered again (logout-processor.ts): the notification is
-- safe to repeat, as the sync worker does.
use seleksi2_labpro.Prelude.{
  Bool, ◌||◌, ◌≢◌, ◌===◌, eq_iff, ℕ, ◌≡◌, refl, ◌∙◌, sym, subst, String, true, false, List, [], ◌∷◌,
  ◌++◌, none, some, Result, ok, err, arith, inl, inr, Bool-cases, Option-cases, any, find_by,
  same_text, if◌then◌else◌, ◌>>=◌, update_where,
}
use seleksi2_labpro.Database.{Prisma, reference, IsDocumented, documented}
use seleksi2_labpro.Database.Rows.{find_by-update_where, find_by-added, find_by-any}
use seleksi2_labpro.Shared.Event.{RevocationEvent, event_type_name}
use seleksi2_labpro.Shared.Canonical.{fingerprint}
use seleksi2_labpro.App.Store.{
  AppStore, AppError, ProcessedEvent, processed_event_conflict, unavailable,
}
use seleksi2_labpro.App.Logout.{
  ProcessingState, Surroundings, reading, processed, replayed, process, process_by, replay,
  replay_known, DatabaseCall, committing, is_event, is_matching, new_processed,
}
use seleksi2_labpro.App.Logout.Effect.{with_result, process_by-new, process_by-clash}

-- The answer to an event that is on record as the row `r`.
unfoldable pub answer_of :
    RevocationEvent → String → ProcessedEvent → Result AppError ProcessingState
answer_of e h r = if is_matching e h r then ok replayed else err processed_event_conflict

-- The event is on record, with its type and its fingerprint.
abbrev pub IsKnown : RevocationEvent → String → List ProcessedEvent → Type 0
IsKnown e h t =
    (r : ProcessedEvent) × (find_by (is_event e.event_id) t ≡ some r) × (is_matching e h r ≡ true)

-- The event is on record with its fingerprint.
abbrev pub IsRecorded : RevocationEvent → String → List ProcessedEvent → Type 0
IsRecorded e h t =
    (r : ProcessedEvent) × (find_by (is_event e.event_id) t ≡ some r) × (r.payload_hash ≡ some h)

module _ (e : RevocationEvent) (h : String) where
  pub replay_lem :
      (r : ProcessedEvent) (s : AppStore) → replay ⦃db = reference⦄ e h r s ≡ (answer_of e h r, s)
  unfolding replay answer_of ◌>>=◌
  replay_lem r s = elim (Bool-cases (is_matching e h r)) [
    | inl same ↦ rw same refl
    | inr other ↦ rw other refl
  ]

  pub replay_known_lem :
      (fails : DatabaseCall → Bool) (r : ProcessedEvent) (s : AppStore)
      → replay_known ⦃db = reference⦄ e h fails r s ≡ (
        (if is_matching e h r
            then (if fails committing then err unavailable else ok replayed)
            else err processed_event_conflict),
        s,
      )
  unfolding replay_known replay ◌>>=◌
  replay_known_lem fails r s = elim (Bool-cases (is_matching e h r)) [
    | inl same ↦ elim (Bool-cases (fails committing)) [
      | inl broken ↦ rw (same, broken) refl
      | inr works ↦ rw (same, works) refl
    ]
    | inr other ↦ rw other refl
  ]

  replay-IsKnown :
      (r : ProcessedEvent) (s : AppStore) (a : ProcessingState)
      → find_by (is_event e.event_id) s.processed_events ≡ some r
      → (replay ⦃db = reference⦄ e h r s).0 ≡ ok a
      → IsKnown e h (replay ⦃db = reference⦄ e h r s).1.processed_events
  unfolding replay ◌>>=◌
  replay-IsKnown r s a found x = elim (Bool-cases (is_matching e h r)) [
    | inl same ↦ (r, rw same found, same)
    | inr other ↦ ground arith
  ]

  pub replay-never_processed :
      (r : ProcessedEvent) (s : AppStore) → (replay ⦃db = reference⦄ e h r s).0 ≢ ok processed
  unfolding answer_of
  replay-never_processed r s x = ground (arith, replay_lem r s)

  replay_known-IsKnown :
      (fails : DatabaseCall → Bool) (r : ProcessedEvent) (s : AppStore) (a : ProcessingState)
      → find_by (is_event e.event_id) s.processed_events ≡ some r
      → (replay_known ⦃db = reference⦄ e h fails r s).0 ≡ ok a
      → IsKnown e h (replay_known ⦃db = reference⦄ e h fails r s).1.processed_events
  replay_known-IsKnown fails r s a found x = elim (Bool-cases (is_matching e h r)) [
    | inl same ↦ (r, rw (replay_known_lem fails r s) found, same)
    | inr other ↦ ground (arith, replay_known_lem fails r s)
  ]

  pub replay_known-never_processed :
      (fails : DatabaseCall → Bool) (r : ProcessedEvent) (s : AppStore)
      → (replay_known ⦃db = reference⦄ e h fails r s).0 ≢ ok processed
  replay_known-never_processed fails r s x = ground (arith, replay_known_lem fails r s)

  new_processed-is_matching :
      (now : ℕ) (text : String) → is_matching e h (with_result text (new_processed e h now)) ≡ true
  unfolding is_matching
  new_processed-is_matching now text =
      ground (arith, same_text (event_type_name e.event_type), same_text h)

  added_row :
      (now : ℕ) (text : String) (t : List ProcessedEvent)
      → any (is_event e.event_id) t ≡ false
      → find_by
          (is_event e.event_id)
          (update_where (is_event e.event_id) (with_result text) (t ++ new_processed e h now ∷ []))
        ≡ some (with_result text (new_processed e h now))
  added_row now text t fresh = ground (
    arith,
    find_by-update_where (is_event e.event_id) (is_event e.event_id) (with_result text)
        (t ++ new_processed e h now ∷ []) (λ r. refl),
    find_by-added (is_event e.event_id) t (new_processed e h now) fresh (same_text e.event_id),
    same_text e.event_id,
  )

  IsKnown-added :
      (now : ℕ) (text : String) (t : List ProcessedEvent)
      → any (is_event e.event_id) t ≡ false
      → IsKnown e h
          (update_where (is_event e.event_id) (with_result text) (t ++ new_processed e h now ∷ []))
  IsKnown-added now text t fresh = (
    with_result text (new_processed e h now),
    added_row now text t fresh,
    new_processed-is_matching now text,
  )

module _ (sha256 : String → String) (to_text : ℕ → String) (e : RevocationEvent) (now : ℕ) where
  abbrev mark : String
  mark = fingerprint sha256 e

  new-IsKnown :
      (s : AppStore) (a : ProcessingState) (env : Surroundings)
      → (process_by ⦃db = reference⦄ to_text e mark now env none s).0 ≡ ok a
      → IsKnown e mark
          (process_by ⦃db = reference⦄ to_text e mark now env none s).1.processed_events
  new-IsKnown s a env x =
      elim (Bool-cases (any (is_event e.event_id) (env.meanwhile s).processed_events)) [
        | inl seen ↦
            let (r, found) =
              find_by-any (is_event e.event_id) (env.meanwhile s).processed_events seen in
            elim (process_by-clash to_text e mark now env s r found) [
              | inl same ↦
                  subst (λ w. IsKnown e mark w.1.processed_events) (sym same)
                    (replay-IsKnown e mark r (env.meanwhile s) a found
                      (subst (λ w. w.0 ≡ ok a) same x))
              | inr failure ↦ ground (arith, failure)
            ]
        | inr fresh ↦ elim (process_by-new to_text e mark now env s fresh) [
          | inl (same, applied) ↦
              subst (λ w. IsKnown e mark w.1.processed_events) (sym same)
                (subst (IsKnown e mark) (sym applied.events) (IsKnown-added e mark now _ _ fresh))
          | inr failure ↦ ground (arith, failure)
        ]
      ]

  process-IsKnown :
      (env : Surroundings) (s : AppStore) (a : ProcessingState)
      → (process ⦃db = reference⦄ sha256 to_text e now env s).0 ≡ ok a
      → IsKnown e mark (process ⦃db = reference⦄ sha256 to_text e now env s).1.processed_events
  unfolding process process_by ◌>>=◌
  process-IsKnown env s a = elim (Bool-cases (env.fails reading)) [
    | inl broken ↦ λ x. ground (arith, rw broken at x)
    | inr works ↦ elim (Option-cases (find_by (is_event e.event_id) s.processed_events)) [
      | inl nothing ↦ rw (works, nothing) (new-IsKnown s a env)
      | inr (r, found) ↦ rw (works, found) (replay_known-IsKnown e mark env.fails r s a found)
    ]
  ]

  process-known :
      (env : Surroundings) (s : AppStore) (r : ProcessedEvent)
      → env.fails reading ≡ false
      → find_by (is_event e.event_id) s.processed_events ≡ some r
      → process ⦃db = reference⦄ sha256 to_text e now env s
        ≡ replay_known ⦃db = reference⦄ e mark env.fails r s
  unfolding process process_by ◌>>=◌
  process-known env s r works found = rw (works, found) refl

  process-repeated :
      (env : Surroundings) (s : AppStore)
      → IsKnown e mark s.processed_events
      → process ⦃db = reference⦄ sha256 to_text e now env s
        ≡ ((if env.fails reading || env.fails committing then err unavailable else ok replayed), s)
  unfolding process process_by ◌>>=◌
  process-repeated env s (r, found, same) = elim (Bool-cases (env.fails reading)) [
    | inl broken ↦ rw broken refl
    | inr works ↦ rw (works, found) (replay_known_lem e mark env.fails r s ∙ rw same refl)
  ]

  -- An event that was processed, and not replayed, is on record with its fingerprint.
  new-IsRecorded :
      (s : AppStore) (env : Surroundings)
      → (process_by ⦃db = reference⦄ to_text e mark now env none s).0 ≡ ok processed
      → IsRecorded e mark
          (process_by ⦃db = reference⦄ to_text e mark now env none s).1.processed_events
  new-IsRecorded s env x =
      elim (Bool-cases (any (is_event e.event_id) (env.meanwhile s).processed_events)) [
        | inl seen ↦
            let (r, found) =
              find_by-any (is_event e.event_id) (env.meanwhile s).processed_events seen in
            elim (process_by-clash to_text e mark now env s r found) [
              | inl same ↦ absurd (
                  replay-never_processed e mark r (env.meanwhile s)
                    (subst (λ w. w.0 ≡ ok processed) same x))
              | inr failure ↦ ground (arith, failure)
            ]
        | inr fresh ↦ elim (process_by-new to_text e mark now env s fresh) [
          | inl (same, applied) ↦
              subst (λ w. IsRecorded e mark w.1.processed_events) (sym same)
                (subst (IsRecorded e mark) (sym applied.events)
                  (_, added_row e mark now _ _ fresh, refl))
          | inr failure ↦ ground (arith, failure)
        ]
      ]

  process-IsRecorded :
      (env : Surroundings) (s : AppStore)
      → (process ⦃db = reference⦄ sha256 to_text e now env s).0 ≡ ok processed
      → IsRecorded e mark (process ⦃db = reference⦄ sha256 to_text e now env s).1.processed_events
  unfolding process process_by ◌>>=◌
  process-IsRecorded env s = elim (Bool-cases (env.fails reading)) [
    | inl broken ↦ λ x. ground (arith, rw broken at x)
    | inr works ↦ elim (Option-cases (find_by (is_event e.event_id) s.processed_events)) [
      | inl nothing ↦ rw (works, nothing) (new-IsRecorded s env)
      | inr (r, found) ↦
          rw (works, found) (λ x. absurd (replay_known-never_processed e mark env.fails r s x))
    ]
  ]

-- Another fingerprint does not agree with the one on record.
not_matching :
    (e : RevocationEvent) (h h' : String) (r : ProcessedEvent)
    → r.payload_hash ≡ some h
    → h' ≢ h
    → is_matching e h' r ≡ false
unfolding is_matching
not_matching e h h' r recorded other = elim (Bool-cases (h === h')) [
  | inl same ↦ absurd (other (sym ((eq_iff h h').0 same)))
  | inr different ↦ ground (arith, recorded, different)
]

module _ ⦃db : Prisma⦄ (l : IsDocumented db) where
  -- Once an event was processed, another event that comes with its identifier but has another
  -- fingerprint is answered with the conflict error and changes nothing, where the database answers
  -- the first reading, and as long as the table of processed events is the one that the first left.
  pub process_conflict :
      (sha256 : String → String) (to_text : ℕ → String) (e e' : RevocationEvent) (now later : ℕ)
      (env others : Surroundings) (s s' : AppStore)
      → (process sha256 to_text e now env s).0 ≡ ok processed
      → s'.processed_events ≡ (process sha256 to_text e now env s).1.processed_events
      → e'.event_id ≡ e.event_id
      → fingerprint sha256 e' ≢ fingerprint sha256 e
      → others.fails reading ≡ false
      → process sha256 to_text e' later others s' ≡ (err processed_event_conflict, s')
  process_conflict sha256 to_text e e' now later env others s s' done kept same other works =
      rw (documented l) (
        let (r, found, recorded) =
          subst (IsRecorded e (fingerprint sha256 e)) (sym (rw (documented l) at kept))
            (process-IsRecorded sha256 to_text e now env s (rw (documented l) at done)) in
        process-known sha256 to_text e' later others s' r works
          (subst (λ x. find_by (is_event x) s'.processed_events ≡ some r) (sym same) found)
        ∙ replay_known_lem e' (fingerprint sha256 e') others.fails r s'
        ∙ rw (not_matching e' (fingerprint sha256 e) (fingerprint sha256 e') r recorded other) refl)

  -- An event that was answered well, as processed or as replayed and whatever others did meanwhile,
  -- is answered as replayed whenever it comes again, or with the error that the database is not
  -- available if its first reading or its end fails, and changes nothing in either case, as long as the table of
  -- processed events is the one that the first answer left.
  pub process_once :
      (sha256 : String → String) (to_text : ℕ → String) (e : RevocationEvent) (now later : ℕ)
      (env others : Surroundings) (s s' : AppStore) (a : ProcessingState)
      → (process sha256 to_text e now env s).0 ≡ ok a
      → s'.processed_events ≡ (process sha256 to_text e now env s).1.processed_events
      → process sha256 to_text e later others s' ≡ (
        (if others.fails reading || others.fails committing then err unavailable else ok replayed),
        s',
      )
  process_once sha256 to_text e now later env others s s' a done kept = rw (documented l) (
      process-repeated sha256 to_text e later others s' (
        subst (IsKnown e (fingerprint sha256 e)) (sym (rw (documented l) at kept))
          (process-IsKnown sha256 to_text e now env s a (rw (documented l) at done))))
