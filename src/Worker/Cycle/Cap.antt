-- ===== src/Worker/Cycle/Cap.antt =====
-- How often a delivery is attempted in a retry cycle (revocation-delivery.service.ts).
use seleksi2_labpro.Prelude.{
  ℕ, ◌≤◌, ◌<◌, ◌≡◌, refl, sym, subst, Bool, true, not, Option, none, some, List, [], ◌∷◌, map,
  arith, Bool-cases, inl, inr, leb, ◌===◌, modify, All, String,
}
use seleksi2_labpro.Prelude.Moves.{
  Moves, IsPreorder, Moves-modify, Moves-if, Moves-throw, moves_rules,
}
use seleksi2_labpro.Database.{Prisma, reference, IsDocumented, documented}
use seleksi2_labpro.Database.Rows.{All-update_where}
use seleksi2_labpro.Schema.Events.{EventDelivery}
use seleksi2_labpro.Shared.Event.{RevocationEvent}
use seleksi2_labpro.Worker.Store.{WorkerStore, WorkerError, DeliveryOutcome, update_deliveries}
use seleksi2_labpro.Worker.Delivery.{
  RetryPolicy, Candidate, Surroundings, is_claimable, claim, schedule, succeed, recover, reserve,
  fail, send, post_dead_letter, record_terminal_failure, record_delivery, record_failure,
  record_success, attempt, deliver, recover_orphaned_deliveries, settle_request, settle_dead_letter,
  move_to_dead_letter,
}
use seleksi2_labpro.Worker.Cycle.{
  Outside, candidate, retry_event, retry_one, process_due_retries, all_settled, rethrow,
}

-- No row has been attempted more than `n` times.
abbrev pub IsCapped : ℕ → WorkerStore → Type 0
IsCapped n s = All (λ (r : EventDelivery). r.attempt_count ≤ n) s.event_deliveries

abbrev KeepsCap : ℕ → WorkerStore → WorkerStore → Type 0
KeepsCap n s s' = IsCapped n s → IsCapped n s'

KeepsCap-preorder : (n : ℕ) → IsPreorder (KeepsCap n)
KeepsCap-preorder n = record { stays = λ s h. h; joins = λ s t u h k x. k (h x) }

module _ (n : ℕ) where
  Cap-update :
      (p : EventDelivery → Bool) (f : EventDelivery → EventDelivery)
      → ((r : EventDelivery) → p r ≡ true → r.attempt_count ≤ n → (f r).attempt_count ≤ n)
      → Moves (KeepsCap n) (update_deliveries ⦃db = reference⦄ p f)
  unfolding update_deliveries
  Cap-update p f h = record {
    at = λ s a.
        All-update_where (λ (r : EventDelivery). r.attempt_count ≤ n) p f s.event_deliveries h a;
  }

  -- A write that leaves the count alone.
  Cap-same :
      (p : EventDelivery → Bool) (f : EventDelivery → EventDelivery)
      → ((r : EventDelivery) → (f r).attempt_count ≡ r.attempt_count)
      → Moves (KeepsCap n) (update_deliveries ⦃db = reference⦄ p f)
  Cap-same p f h = Cap-update p f (λ r pass k. omega (arith, h r))

  Cap-aside :
      (f : WorkerStore → WorkerStore)
      → ((s : WorkerStore) → (f s).event_deliveries ≡ s.event_deliveries)
      → Moves (KeepsCap n) (modify {E = WorkerError} f)
  Cap-aside f h =
      Moves-modify (KeepsCap-preorder n) f
        λ s k. subst (All (λ (r : EventDelivery). r.attempt_count ≤ n)) (sym (h s)) k

  Cap-record :
      (o : DeliveryOutcome) → Moves (KeepsCap n) (modify {E = WorkerError} (record_delivery o))
  Cap-record o = Cap-aside (record_delivery o) (λ s. refl)

  Cap-schedule :
      (p : EventDelivery → Bool) (at : ℕ) (m : String)
      → Moves (KeepsCap n) (update_deliveries ⦃db = reference⦄ p (schedule at m))
  Cap-schedule p at m = Cap-same p _ (λ r. refl)

  Cap-succeed :
      (p : EventDelivery → Bool) (at : ℕ)
      → Moves (KeepsCap n) (update_deliveries ⦃db = reference⦄ p (succeed at))
  Cap-succeed p at = Cap-same p _ (λ r. refl)

  Cap-recover :
      (p : EventDelivery → Bool) (at : ℕ)
      → Moves (KeepsCap n) (update_deliveries ⦃db = reference⦄ p (recover at))
  Cap-recover p at = Cap-same p _ (λ r. refl)

  Cap-reserve :
      (p : EventDelivery → Bool) (at : ℕ)
      → Moves (KeepsCap n) (update_deliveries ⦃db = reference⦄ p (reserve at))
  Cap-reserve p at = Cap-same p _ (λ r. refl)

  Cap-fail :
      (p : EventDelivery → Bool) → Moves (KeepsCap n) (update_deliveries ⦃db = reference⦄ p fail)
  Cap-fail p = Cap-same p _ (λ r. refl)

  Cap-claim :
      (d : Candidate) (at : ℕ)
      → d.attempt_count < n
      → Moves (KeepsCap n) (update_deliveries ⦃db = reference⦄ (is_claimable d at) (claim at))
  Cap-claim d at below = Cap-update _ _ (λ r fits k. ground arith)

  Cap-send : (d : Candidate) → Moves (KeepsCap n) (modify {E = WorkerError} (send d))
  Cap-send d = Cap-aside _ (λ s. refl)

  Cap-post :
      (d : Candidate) (event : RevocationEvent) (now : ℕ)
      → Moves (KeepsCap n) (modify {E = WorkerError} (post_dead_letter d event now))
  Cap-post d event now = Cap-aside _ (λ s. refl)

  Cap-count : Moves (KeepsCap n) (modify {E = WorkerError} record_terminal_failure)
  Cap-count = Cap-aside _ (λ s. refl)

ruleset cap_rules = (
  KeepsCap-preorder, moves_rules, Cap-record, Cap-schedule, Cap-succeed, Cap-recover, Cap-reserve,
  Cap-fail, Cap-claim, Cap-send, Cap-post, Cap-count,
)

module _ (n : ℕ) (c : RetryPolicy) (d : Candidate) (env : Surroundings)
    (calm : (s : WorkerStore) → KeepsCap n s (env.meanwhile s)) where
  Cap-meanwhile : Moves (KeepsCap n) (modify {E = WorkerError} env.meanwhile)
  Cap-meanwhile = Moves-modify (KeepsCap-preorder n) env.meanwhile calm

  Cap-record_success : Moves (KeepsCap n) (record_success ⦃db = reference⦄ c d env)
  unfolding record_success
  Cap-record_success = search cap_rules

  Cap-record_failure : (m : String) → Moves (KeepsCap n) (record_failure ⦃db = reference⦄ c d env m)
  unfolding record_failure
  Cap-record_failure m = search cap_rules

  Cap-settle_request :
      (o : Option String) → Moves (KeepsCap n) (settle_request ⦃db = reference⦄ c d env o)
  Cap-settle_request none = Cap-record_success
  Cap-settle_request (some m) = Cap-record_failure m

  Cap-attempt : Moves (KeepsCap n) (attempt ⦃db = reference⦄ c d env)
  unfolding attempt
  Cap-attempt = search (cap_rules, Cap-meanwhile, Cap-settle_request)

  Cap-deliver : d.attempt_count < n → Moves (KeepsCap n) (deliver ⦃db = reference⦄ c d env)
  unfolding deliver
  Cap-deliver below = search (cap_rules, Cap-attempt)

  Cap-settle_dead_letter :
      (event : RevocationEvent) (now : ℕ) (o : Option String)
      → Moves (KeepsCap n) (settle_dead_letter ⦃db = reference⦄ c d event now env.meanwhile o)
  Cap-settle_dead_letter event now none = search (cap_rules, Cap-meanwhile) depth 8
  Cap-settle_dead_letter event now (some m) = search (cap_rules, Cap-meanwhile)

  Cap-move_to_dead_letter :
      (event : RevocationEvent) (now : ℕ)
      → Moves (KeepsCap n) (move_to_dead_letter ⦃db = reference⦄ c d event now env)
  unfolding move_to_dead_letter
  Cap-move_to_dead_letter event now = search (cap_rules, Cap-settle_dead_letter)

module _ (n : ℕ) (c : RetryPolicy) (o : Outside)
    (calm : (id : String) (s : WorkerStore) → KeepsCap n s ((o.around id).meanwhile s))
    (policy : c.max_attempts ≡ n) where
  Cap-retry_event :
      (r : EventDelivery) (now : ℕ) (event : Option RevocationEvent)
      → Moves (KeepsCap n) (retry_event ⦃db = reference⦄ c o r now event)
  unfolding retry_event
  Cap-retry_event r now none = search cap_rules
  Cap-retry_event r now (some event) = elim (Bool-cases (leb c.max_attempts r.attempt_count)) [
    | inl exhausted ↦ rw exhausted (
        Moves-if (not (event.event_id === r.event_id)) _ _ (Moves-throw (KeepsCap-preorder n) _)
          (Cap-move_to_dead_letter n c (candidate r) (o.around r.id) (calm r.id) event now))
    | inr allowed ↦ rw allowed (
        Moves-if (not (event.event_id === r.event_id)) _ _ (Moves-throw (KeepsCap-preorder n) _) (
          Cap-deliver n c (candidate r) (o.around r.id) (calm r.id)
            (ground (arith, allowed, policy))))
  ]

  Cap-retry_one :
      (now : ℕ) (r : EventDelivery) → Moves (KeepsCap n) (retry_one ⦃db = reference⦄ c o now r)
  unfolding retry_one
  Cap-retry_one now r = search (cap_rules, Cap-retry_event)

  Cap-rethrow : (first : Option WorkerError) → Moves (KeepsCap n) (rethrow first)
  Cap-rethrow none = search cap_rules
  Cap-rethrow (some e) = search cap_rules

  Cap-all_settled :
      (now : ℕ) (rows : List EventDelivery) (first : Option WorkerError)
      → Moves (KeepsCap n) (all_settled (map (retry_one ⦃db = reference⦄ c o now) rows) first)
  unfolding all_settled
  Cap-all_settled now [] first = record { at = (Cap-rethrow first).at }
  Cap-all_settled now (r ∷ rows) first = record {
    at = λ s h. (Cap-all_settled now rows _).at _ ((Cap-retry_one now r).at s h);
  }

  Cap-recover_orphaned :
      (now : ℕ) → Moves (KeepsCap n) (recover_orphaned_deliveries ⦃db = reference⦄ c now)
  unfolding recover_orphaned_deliveries
  Cap-recover_orphaned now = search cap_rules

  Cap-process_due_retries :
      (now : ℕ) → Moves (KeepsCap n) (process_due_retries ⦃db = reference⦄ c o now)
  unfolding process_due_retries
  Cap-process_due_retries now = search (cap_rules, Cap-recover_orphaned, Cap-all_settled)

module _ ⦃db : Prisma⦄ (l : IsDocumented db) where
  -- A retry cycle never takes a delivery beyond the configured number of attempts, whichever rows it
  -- finds due and however the requests end, if what others do meanwhile does not either.
  pub process_due_retries-IsCapped :
      (c : RetryPolicy) (o : Outside) (now : ℕ) (s : WorkerStore)
      → ((id : String) (u : WorkerStore)
          → IsCapped c.max_attempts u
          → IsCapped c.max_attempts ((o.around id).meanwhile u))
      → IsCapped c.max_attempts s
      → IsCapped c.max_attempts (process_due_retries c o now s).1
  process_due_retries-IsCapped c o now s calm capped =
      rw (documented l) ((Cap-process_due_retries c.max_attempts c o calm refl now).at s capped)
