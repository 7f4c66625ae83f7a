-- ===== src/Worker/Delivery/Outcome.antt =====
-- What becomes of one delivery in `deliver` of revocation-delivery.service.ts, when nobody else writes
-- its row meanwhile.
use seleksi2_labpro.Prelude.{
  ◌-◌, ◌*◌, ◌^◌, min, leb, if◌then◌else◌, subst, ℕ, ◌+◌, ◌≤◌, String, ◌≡◌, refl, Bool, true, ◌||◌,
  Option, none, some, List, arith, ok, ◌>>=◌, count, find_by, update_where, ◌===◌,
}
use seleksi2_labpro.Database.{Prisma, reference, IsDocumented, documented}
use seleksi2_labpro.Database.Rows.{WritesOne, writes_one}
use seleksi2_labpro.Schema.Events.{EventDelivery, pending, retrying, succeeded, same_status}
use seleksi2_labpro.Worker.Store.{WorkerStore}
use seleksi2_labpro.Worker.Delivery.{
  RetryPolicy, Candidate, Surroundings, is_claimable, is_claimed, claim, schedule, succeed,
  record_failure, record_success, deliver, next_attempt_at, retry_delay_ms, settle_request, send,
}

abbrev pub has_id : String → EventDelivery → Bool
has_id id r = r.id === id

abbrev pub is_open : Candidate → Bool
is_open d = same_status d.status pending || same_status d.status retrying

-- When the next attempt is due, after a failure of the attempt behind `n` others.
abbrev pub due_at : RetryPolicy → ℕ → ℕ → ℕ
due_at c failed_at n =
    if leb c.max_attempts (n + 1)
    then failed_at
    else failed_at + min (c.retry_base_ms * 2 ^ min n 30) c.retry_max_ms

-- The row after an attempt.
abbrev pub settled : RetryPolicy → Surroundings → EventDelivery → EventDelivery
settled c env r = elim env.answer [
  | none ↦ record r {
    status = succeeded;
    attempt_count = r.attempt_count + 1;
    last_attempt_at = some env.attempted_at;
    processed_at = some env.finished_at;
    next_retry_at = none;
    last_error = none;
  }
  | some m ↦ record r {
    status = retrying;
    attempt_count = r.attempt_count + 1;
    last_attempt_at = some env.attempted_at;
    next_retry_at = some (due_at c env.finished_at r.attempt_count);
    last_error = some m;
  }
]

-- The same by the code's writes.
abbrev written : RetryPolicy → Surroundings → EventDelivery → EventDelivery
written c env r = elim env.answer [
  | none ↦ succeed env.finished_at (claim env.attempted_at r)
  | some m ↦
      schedule (next_attempt_at c env.finished_at (r.attempt_count + 1)) m
        (claim env.attempted_at r)
]

next_attempt_at-due_at : (c : RetryPolicy) (at n : ℕ) → next_attempt_at c at (n + 1) ≡ due_at c at n
unfolding next_attempt_at retry_delay_ms
next_attempt_at-due_at c at n = let same : n + 1 - 1 ≡ n = omega arith in rw same refl

written-settled :
    (c : RetryPolicy) (env : Surroundings) (r : EventDelivery) → written c env r ≡ settled c env r
written-settled c env r = by_answer env.answer
  where
    by_answer :
        (o : Option String)
        → written c (record env { answer = o }) r ≡ settled c (record env { answer = o }) r
    by_answer none = refl
    by_answer (some m) = rw (next_attempt_at-due_at c env.finished_at r.attempt_count) refl

-- Nobody else writes the table while a request is under way.
abbrev pub IsAlone : Surroundings → Type 0
IsAlone env = (u : WorkerStore) → (env.meanwhile u).event_deliveries ≡ u.event_deliveries

-- `s` has one row for the candidate, and it is `r`.
pub record Holds (d : Candidate) (r : EventDelivery) (t : List EventDelivery) : Type 0 where
  pub once : count (has_id d.id) t ≤ 1
  pub at : find_by (has_id d.id) t ≡ some r

pub claimable-id :
    (d : Candidate) (at : ℕ) (x : EventDelivery) → is_claimable d at x ≡ true → has_id d.id x ≡ true
claimable-id d at x h = ground arith

claimed-id :
    (d : Candidate) (n : ℕ) (x : EventDelivery) → is_claimed d n x ≡ true → has_id d.id x ≡ true
claimed-id d n x h = ground arith

claimed-claim :
    (d : Candidate) (at : ℕ) (r : EventDelivery)
    → is_claimable d at r ≡ true
    → is_claimed d (d.attempt_count + 1) (claim at r) ≡ true
claimed-claim d at r h = ground arith

-- The claim writes the row.
pub claim_writes :
    (d : Candidate) (at : ℕ) (t : List EventDelivery) (r : EventDelivery)
    → Holds d r t
    → is_claimable d at r ≡ true
    → WritesOne (has_id d.id) (is_claimable d at) (claim at) t r
claim_writes d at t r holds fits =
    writes_one _ _ _ t r (claimable-id d at) (λ x. refl) holds.once holds.at fits

abbrev pub claimed_table : Candidate → ℕ → List EventDelivery → List EventDelivery
claimed_table d at t = update_where (is_claimable d at) (claim at) t

module _ (c : RetryPolicy) (d : Candidate) (env : Surroundings) (alone : IsAlone env)
    (s : WorkerStore) (r : EventDelivery) (holds : Holds d r s.event_deliveries)
    (fits : is_claimable d env.attempted_at r ≡ true) (open_status : is_open d ≡ true) where
  first_write :
      WritesOne
        (has_id d.id)
        (is_claimable d env.attempted_at)
        (claim env.attempted_at)
        s.event_deliveries
        r
  first_write = claim_writes d env.attempted_at s.event_deliveries r holds fits

  second_write :
      (f : EventDelivery → EventDelivery)
      → ((x : EventDelivery) → has_id d.id (f x) ≡ has_id d.id x)
      → WritesOne
          (has_id d.id)
          (is_claimed d (d.attempt_count + 1))
          f
          (claimed_table d env.attempted_at s.event_deliveries)
          (claim env.attempted_at r)
  second_write f keep =
      writes_one _ _ f _ _ (claimed-id d _) keep first_write.unique first_write.found
        (claimed-claim d env.attempted_at r fits)

  -- The store that the answer finds.
  abbrev waiting : WorkerStore
  waiting =
      env.meanwhile (
        send d
          (record s { event_deliveries = claimed_table d env.attempted_at s.event_deliveries }))

  answer-Settles :
      (o : Option String)
      → env.answer ≡ o
      → ((settle_request ⦃db = reference⦄ c d env o waiting).0 ≡ ok tt)
        × (find_by
              (has_id d.id)
              (settle_request ⦃db = reference⦄ c d env o waiting).1.event_deliveries
            ≡ some (written c env r))
  unfolding record_success record_failure ◌>>=◌
  answer-Settles none e = ground (
    arith,
    alone (
        send d
          (record s { event_deliveries = claimed_table d env.attempted_at s.event_deliveries })),
    second_write (succeed env.finished_at) (λ x. refl),
  )
  answer-Settles (some m) e = ground (
    arith,
    alone (
        send d
          (record s { event_deliveries = claimed_table d env.attempted_at s.event_deliveries })),
    second_write (schedule (next_attempt_at c env.finished_at (d.attempt_count + 1)) m) (λ x. refl),
  )

  deliver_settles :
      ((deliver ⦃db = reference⦄ c d env s).0 ≡ ok tt)
      × (find_by (has_id d.id) (deliver ⦃db = reference⦄ c d env s).1.event_deliveries
          ≡ some (written c env r))
  unfolding deliver ◌>>=◌
  deliver_settles = ground (arith, first_write, answer-Settles env.answer refl)

module _ ⦃db : Prisma⦄ (l : IsDocumented db) where
  -- A delivery that can be claimed, with nobody else writing its row, is SUCCEEDED and processed after
  -- `deliver` if the request is answered well. Otherwise it is RETRYING, with the request's error, and
  -- due again at once where the attempts are exhausted, or else after the base delay, doubled for each
  -- earlier attempt up to the maximum. Either way the attempt is counted, and `deliver` returns.
  pub deliver_settles_row :
      (c : RetryPolicy) (d : Candidate) (env : Surroundings) (s : WorkerStore) (r : EventDelivery)
      → IsAlone env
      → Holds d r s.event_deliveries
      → is_claimable d env.attempted_at r ≡ true
      → is_open d ≡ true
      → ((deliver c d env s).0 ≡ ok tt)
        × (find_by (has_id d.id) (deliver c d env s).1.event_deliveries ≡ some (settled c env r))
  deliver_settles_row c d env s r alone holds fits open_status = rw (documented l) (
      subst
        (λ x.
          ((deliver ⦃db = reference⦄ c d env s).0 ≡ ok tt)
          × (find_by (has_id d.id) (deliver ⦃db = reference⦄ c d env s).1.event_deliveries
              ≡ some x))
        (written-settled c env r) (deliver_settles c d env alone s r holds fits open_status))
