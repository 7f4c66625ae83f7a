-- ===== src/Worker/Delivery/Evolution.antt =====
-- What `deliver`, `moveToDeadLetter` and `recoverOrphanedDeliveries` of revocation-delivery.service.ts
-- do to the rows of `event_deliveries`, in terms of the steps of `Machine`.
use seleksi2_labpro.Prelude.{
  ◌⊎◌, ◌===◌, find_by, ℕ, String, ◌≡◌, refl, sym, subst, Bool, true, ◌||◌, Option, none, some,
  arith, Bool-cases, inl, inr, ◌==◌, modify,
}
use seleksi2_labpro.Prelude.Moves.{
  Moves, IsPreorder, Moves-bind, Moves-modify, Moves-if, moves_rules,
}
use seleksi2_labpro.Database.{Prisma, reference, IsDocumented, documented}
use seleksi2_labpro.Schema.Events.{EventDelivery, pending, retrying, succeeded, failed, same_status}
use seleksi2_labpro.Shared.Event.{RevocationEvent}
use seleksi2_labpro.Worker.Store.{WorkerStore, WorkerError, DeliveryOutcome, update_deliveries}
use seleksi2_labpro.Worker.Delivery.{
  RetryPolicy, Candidate, Surroundings, is_claimable, is_claimed, is_expired, is_exhausted, claim,
  schedule, succeed, recover, reserve, fail, send, post_dead_letter, record_terminal_failure,
  record_delivery, record_failure, record_success, attempt, deliver, recover_orphaned_deliveries,
  settle_request, settle_dead_letter, move_to_dead_letter,
}
use seleksi2_labpro.Worker.Delivery.Machine.{
  Step, claims, schedules, succeeds, recovers, reserves, fails, Evolves, Evolves-refl,
  Evolves-trans, Evolves-update_where, Evolves-terminal,
}

-- The table of deliveries went through steps.
abbrev pub Progress : WorkerStore → WorkerStore → Type 0
Progress s s' = Evolves s.event_deliveries s'.event_deliveries

pub Progress-preorder : IsPreorder Progress
Progress-preorder = record {
  stays = λ s. Evolves-refl s.event_deliveries;
  joins = λ s t u. Evolves-trans;
}

Moves-update :
    (p : EventDelivery → Bool) (f : EventDelivery → EventDelivery)
    → ((r : EventDelivery) → p r ≡ true → Step r (f r))
    → Moves Progress (update_deliveries ⦃db = reference⦄ p f)
unfolding update_deliveries
Moves-update p f h = record { at = λ s. Evolves-update_where p f s.event_deliveries h }

claim-Step :
    (d : Candidate) (at : ℕ) (r : EventDelivery)
    → (same_status d.status pending || same_status d.status retrying) ≡ true
    → is_claimable d at r ≡ true
    → Step r (claim at r)
claim-Step d at r open_status h = claims at (ground arith) refl

schedule-Step :
    (d : Candidate) (n at : ℕ) (m : String) (r : EventDelivery)
    → is_claimed d n r ≡ true
    → Step r (schedule at m r)
schedule-Step d n at m r h = schedules at m (ground arith) refl

succeed-Step :
    (d : Candidate) (n at : ℕ) (r : EventDelivery) → is_claimed d n r ≡ true → Step r (succeed at r)
succeed-Step d n at r h = succeeds at (ground arith) refl

recover-Step :
    (d : Candidate) (n at : ℕ) (r : EventDelivery) → is_claimed d n r ≡ true → Step r (recover at r)
recover-Step d n at r h = recovers at (ground arith) refl

fail-Step : (d : Candidate) (n : ℕ) (r : EventDelivery) → is_claimed d n r ≡ true → Step r (fail r)
fail-Step d n r h = fails (ground arith) refl

reserve-Step :
    (d : Candidate) (now : ℕ) (r : EventDelivery)
    → is_exhausted d now r ≡ true
    → Step r (reserve now r)
reserve-Step d now r h = reserves now (ground arith) refl

orphan-Step : (now : ℕ) (r : EventDelivery) → is_expired now r ≡ true → Step r (recover now r)
orphan-Step now r h = recovers now (ground arith) refl

-- A write to other columns of the store.
Moves-aside :
    (f : WorkerStore → WorkerStore)
    → ((s : WorkerStore) → (f s).event_deliveries ≡ s.event_deliveries)
    → Moves Progress (modify {E = WorkerError} f)
Moves-aside f h =
    Moves-modify Progress-preorder f
      λ s. subst (Evolves s.event_deliveries) (sym (h s)) (Evolves-refl s.event_deliveries)

Moves-record : (o : DeliveryOutcome) → Moves Progress (modify {E = WorkerError} (record_delivery o))
Moves-record o = Moves-aside (record_delivery o) (λ s. refl)

ruleset progress_rules = (
  Progress-preorder, moves_rules, Moves-record, Moves-update, schedule-Step, succeed-Step,
  recover-Step, fail-Step, reserve-Step, orphan-Step,
)

module _ (c : RetryPolicy) (d : Candidate) (env : Surroundings) where
  record_failure-Moves : (m : String) → Moves Progress (record_failure ⦃db = reference⦄ c d env m)
  unfolding record_failure
  record_failure-Moves m = search progress_rules

  record_success-Moves : Moves Progress (record_success ⦃db = reference⦄ c d env)
  unfolding record_success
  record_success-Moves = search progress_rules

  Moves-settle_request :
      (o : Option String) → Moves Progress (settle_request ⦃db = reference⦄ c d env o)
  Moves-settle_request none = record_success-Moves
  Moves-settle_request (some m) = record_failure-Moves m

  Moves-send : Moves Progress (modify {E = WorkerError} (send d))
  Moves-send = Moves-aside _ (λ s. refl)

Moves-post :
    (d : Candidate) (event : RevocationEvent) (now : ℕ)
    → Moves Progress (modify {E = WorkerError} (post_dead_letter d event now))
Moves-post d event now = Moves-aside _ (λ s. refl)

Moves-count : Moves Progress (modify {E = WorkerError} record_terminal_failure)
Moves-count = Moves-aside _ (λ s. refl)

module _ (c : RetryPolicy) (d : Candidate) (env : Surroundings)
    (calm : (s : WorkerStore) → Progress s (env.meanwhile s)) where
  Moves-meanwhile : Moves Progress (modify {E = WorkerError} env.meanwhile)
  Moves-meanwhile = Moves-modify Progress-preorder env.meanwhile calm

  attempt-Moves : Moves Progress (attempt ⦃db = reference⦄ c d env)
  unfolding attempt
  attempt-Moves = search (progress_rules, Moves-meanwhile, Moves-send, Moves-settle_request)

  deliver-Moves : Moves Progress (deliver ⦃db = reference⦄ c d env)
  unfolding deliver
  deliver-Moves =
      elim (Bool-cases (same_status d.status pending || same_status d.status retrying)) [
        | inl open_status ↦ rw open_status (
            search (
              progress_rules,
              attempt-Moves,
              λ (r : EventDelivery). claim-Step d env.attempted_at r open_status,
            ))
        | inr closed ↦ rw closed (search progress_rules)
      ]

  Moves-settle_dead_letter :
      (event : RevocationEvent) (now : ℕ) (o : Option String)
      → Moves Progress (settle_dead_letter ⦃db = reference⦄ c d event now env.meanwhile o)
  Moves-settle_dead_letter event now none =
      Moves-bind Progress-preorder _ _ (Moves-post d event now) λ _.
        Moves-bind Progress-preorder _ _ Moves-meanwhile λ _.
          Moves-bind Progress-preorder _ _ (Moves-update _ _ (fail-Step d d.attempt_count))
            λ n. Moves-if (n == 1) _ _ Moves-count (search progress_rules)
  Moves-settle_dead_letter event now (some m) = search (progress_rules, Moves-meanwhile)

  move_to_dead_letter-Moves :
      (event : RevocationEvent) (now : ℕ)
      → Moves Progress (move_to_dead_letter ⦃db = reference⦄ c d event now env)
  unfolding move_to_dead_letter
  move_to_dead_letter-Moves event now = search (progress_rules, Moves-settle_dead_letter)

recover-Moves :
    (c : RetryPolicy) (now : ℕ)
    → Moves Progress (recover_orphaned_deliveries ⦃db = reference⦄ c now)
unfolding recover_orphaned_deliveries
recover-Moves c now = search progress_rules

module _ ⦃db : Prisma⦄ (l : IsDocumented db) (c : RetryPolicy) (d : Candidate) (env : Surroundings)
    (calm : (s : WorkerStore) → Progress s (env.meanwhile s)) where
  -- `deliver`, `moveToDeadLetter` and `recoverOrphanedDeliveries` change no row of the table but by
  -- the steps of `Machine`, whether they return or throw, if what others do while they wait does no
  -- more.
  pub methods-Progress :
      (event : RevocationEvent) (now : ℕ) (s : WorkerStore)
      → Progress s (deliver c d env s).1
        × Progress s (move_to_dead_letter c d event now env s).1
        × Progress s (recover_orphaned_deliveries c now s).1
  methods-Progress event now s = rw (documented l) (
    (deliver-Moves c d env calm).at s,
    (move_to_dead_letter-Moves c d env calm event now).at s,
    (recover-Moves c now).at s,
  )

  -- A delivery that succeeded or failed is found as it was after `deliver`, `moveToDeadLetter` and
  -- `recoverOrphanedDeliveries`, of whatever candidate, if what others do while they wait changes rows
  -- by the steps of `Machine` only.
  pub terminal_stays :
      (event : RevocationEvent) (now : ℕ) (s : WorkerStore) (id : String) (r : EventDelivery)
      → (r.status ≡ succeeded) ⊎ (r.status ≡ failed)
      → find_by (λ (x : EventDelivery). x.id === id) s.event_deliveries ≡ some r
      → (find_by (λ (x : EventDelivery). x.id === id) (deliver c d env s).1.event_deliveries
          ≡ some r)
        × (find_by
              (λ (x : EventDelivery). x.id === id)
              (move_to_dead_letter c d event now env s).1.event_deliveries
            ≡ some r)
        × (find_by
              (λ (x : EventDelivery). x.id === id)
              (recover_orphaned_deliveries c now s).1.event_deliveries
            ≡ some r)
  terminal_stays event now s id r over found =
      let (a, b, k) = methods-Progress event now s in
      (
        Evolves-terminal id r over a found,
        Evolves-terminal id r over b found,
        Evolves-terminal id r over k found,
      )
