-- ===== src/Worker/Delivery.antt =====
-- `RevocationDeliveryService` of auth-provider/sync-worker/src/event-processing/
-- revocation-delivery.service.ts.
pub mod Delay
pub mod Machine
pub mod Evolution
pub mod Outcome
pub mod Once
use seleksi2_labpro.Prelude.{
  ℕ, suc, ◌+◌, ◌-◌, ◌*◌, ◌^◌, min, String, Bool, true, false, ◌&&◌, ◌||◌, not, List, [], ◌∷◌, map,
  Option, none, some, leb, ◌==◌, ◌===◌, if◌then◌else◌, none_or, some_and, Result, ok, err, Exec,
  pure, throw, gets, modify, ◌>>=◌, ◌>>◌,
}
use seleksi2_labpro.Database.{Prisma, update_many}
use seleksi2_labpro.Schema.Events.{
  EventDelivery, EventDeliveryStatus, pending, processing, succeeded, retrying, failed, same_status,
}
use seleksi2_labpro.Shared.Event.{RevocationEvent}
use seleksi2_labpro.Worker.Store.{
  WorkerStore, WorkerError, non_retryable, infrastructure, Job, RevocationDeadLetter,
  DeliveryOutcome, success, retry, error, update_deliveries,
}

-- The service's configuration.
pub record RetryPolicy : Type 0 where
  pub max_attempts : ℕ
  pub retry_base_ms : ℕ
  pub retry_max_ms : ℕ

-- `retryDelayMs`. The subtraction stops at 0, as `Math.max` makes it.
unfoldable pub retry_delay_ms : RetryPolicy → ℕ → ℕ
retry_delay_ms c attempt_number =
    min (c.retry_base_ms * 2 ^ min (attempt_number - 1) 30) c.retry_max_ms

-- `WORKER_RUNTIME.processingLeaseMs`
abbrev pub processing_lease_ms : ℕ
processing_lease_ms = 30000

-- What `deliver` is given of a row.
pub record Candidate : Type 0 where
  pub id : String
  pub event_id : String
  pub application_id : String
  pub status : EventDeliveryStatus
  pub attempt_count : ℕ
  pub last_error : Option String

-- What the outside does in the course of one delivery: the two readings of the clock, the answer to
-- the request (an error message, or none), whether the dead-letter queue confirms, and what other
-- processes do to the store while a request is under way.
pub record Surroundings : Type 0 where
  pub attempted_at : ℕ
  pub finished_at : ℕ
  pub answer : Option String
  pub confirm : Option String
  pub meanwhile : WorkerStore → WorkerStore

abbrev pub record_delivery : DeliveryOutcome → WorkerStore → WorkerStore
record_delivery o s = record s { outcomes = o ∷ s.outcomes }

-- `{ OR: [{ nextRetryAt: null }, { nextRetryAt: { lte: now } }] }`
abbrev pub is_due : ℕ → EventDelivery → Bool
is_due now r = none_or (λ at. leb at now) r.next_retry_at

-- The conditions of the conditional writes.
abbrev pub is_claimable : Candidate → ℕ → EventDelivery → Bool
is_claimable d now r =
    r.id === d.id
    && same_status r.status d.status
    && r.attempt_count == d.attempt_count
    && (if same_status d.status retrying then is_due now r else true)

abbrev pub is_claimed : Candidate → ℕ → EventDelivery → Bool
is_claimed d attempts r =
    r.id === d.id && same_status r.status processing && r.attempt_count == attempts

abbrev pub is_expired : ℕ → EventDelivery → Bool
is_expired now r =
    same_status r.status processing
    && some_and (λ at. leb (at + processing_lease_ms) now) r.last_attempt_at

abbrev pub is_exhausted : Candidate → ℕ → EventDelivery → Bool
is_exhausted d now r =
    r.id === d.id
    && same_status r.status retrying
    && r.attempt_count == d.attempt_count
    && is_due now r

-- The columns that the conditional writes set.
abbrev pub claim : ℕ → EventDelivery → EventDelivery
claim at r = record r {
  status = processing;
  attempt_count = r.attempt_count + 1;
  last_attempt_at = some at;
  next_retry_at = none;
  last_error = none;
}

abbrev pub schedule : ℕ → String → EventDelivery → EventDelivery
schedule at message r = record r {
  status = retrying;
  next_retry_at = some at;
  last_error = some message;
}

abbrev pub succeed : ℕ → EventDelivery → EventDelivery
succeed at r = record r {
  status = succeeded;
  processed_at = some at;
  next_retry_at = none;
  last_error = none;
}

abbrev pub recover : ℕ → EventDelivery → EventDelivery
recover now r = record r { status = retrying; next_retry_at = some now }

abbrev pub reserve : ℕ → EventDelivery → EventDelivery
reserve now r = record r { status = processing; last_attempt_at = some now; next_retry_at = none }

abbrev pub fail : EventDelivery → EventDelivery
fail r = record r { status = failed; next_retry_at = none }

-- When a delivery whose attempt failed is tried again: an exhausted one at once, for the dead-letter
-- queue.
unfoldable pub next_attempt_at : RetryPolicy → ℕ → ℕ → ℕ
next_attempt_at c failed_at attempt_number =
    if leb c.max_attempts attempt_number
    then failed_at
    else failed_at + retry_delay_ms c attempt_number

-- A request is sent.
abbrev pub send : Candidate → WorkerStore → WorkerStore
send d s = record s { requests = d.id ∷ s.requests }

abbrev failure_message : Option String → String
failure_message none = "Delivery attempts exhausted"
failure_message (some e) = e

abbrev pub dead_letter : Candidate → RevocationEvent → ℕ → RevocationDeadLetter
dead_letter d event now = record {
  event = event;
  delivery_id = d.id;
  target_application_id = d.application_id;
  attempt_count = d.attempt_count;
  last_error = failure_message d.last_error;
  failed_at = now;
}

-- The dead-letter queue confirms a message.
abbrev pub post_dead_letter : Candidate → RevocationEvent → ℕ → WorkerStore → WorkerStore
post_dead_letter d event now s = record s {
  dead_letters = dead_letter d event now ∷ s.dead_letters;
}

abbrev pub record_terminal_failure : WorkerStore → WorkerStore
record_terminal_failure s = record s { terminal_failures = s.terminal_failures + 1 }

module _ ⦃db : Prisma⦄ (c : RetryPolicy) where
  -- The `catch` around the request.
  unfoldable pub record_failure : Candidate → Surroundings → String → Job (Unit {0})
  unfolding update_deliveries
  record_failure d env message = do
    let attempt_number = d.attempt_count + 1
    let at = next_attempt_at c env.finished_at attempt_number
    count ← update_deliveries (is_claimed d attempt_number) (schedule at message)
    if count == 1
        then modify (record_delivery retry)
        else (modify (record_delivery error)
            >> throw (infrastructure "Failed request outcome could not be persisted"))

  unfoldable pub record_success : Candidate → Surroundings → Job (Unit {0})
  unfolding update_deliveries
  record_success d env = do
    count ← update_deliveries (is_claimed d (d.attempt_count + 1)) (succeed env.finished_at)
    if count == 1
        then modify (record_delivery success)
        else (modify (record_delivery error)
            >> throw (infrastructure "Claimed event delivery could not be marked succeeded"))

  abbrev pub settle_request : Candidate → Surroundings → Option String → Job (Unit {0})
  settle_request d env none = record_success d env
  settle_request d env (some message) = record_failure d env message

  -- The part of `deliver` behind the claim.
  unfoldable pub attempt : Candidate → Surroundings → Job (Unit {0})
  unfolding record_failure record_success
  attempt d env = do modify (send d); modify env.meanwhile; settle_request d env env.answer

  -- `deliver`
  unfoldable pub deliver : Candidate → Surroundings → Job (Unit {0})
  unfolding attempt update_deliveries
  deliver d env =
      if same_status d.status pending || same_status d.status retrying
      then (do
        count ← update_deliveries (is_claimable d env.attempted_at) (claim env.attempted_at)
        if count == 1 then attempt d env else pure tt)
      else pure tt

  -- `recoverOrphanedDeliveries`. `lastAttemptAt <= now - lease`, with the lease on the left.
  unfoldable pub recover_orphaned_deliveries : ℕ → Job (Unit {0})
  unfolding update_deliveries
  recover_orphaned_deliveries now = do update_deliveries (is_expired now) (recover now); pure tt

  -- The end of `moveToDeadLetter`: the queue refused the message, or confirmed it.
  abbrev pub settle_dead_letter :
      Candidate → RevocationEvent → ℕ → (WorkerStore → WorkerStore) → Option String → Job (Unit {0})
  settle_dead_letter d event now meanwhile (some message) = do
    modify meanwhile
    count ← update_deliveries (is_claimed d d.attempt_count) (recover (now + c.retry_base_ms))
    if count == 1
        then pure tt
        else throw (infrastructure "Dead-letter publish failure could not be persisted")
  settle_dead_letter d event now meanwhile none = do
    modify (post_dead_letter d event now)
    modify meanwhile
    count ← update_deliveries (is_claimed d d.attempt_count) fail
    if count == 1
        then modify record_terminal_failure
        else throw (infrastructure "Dead-lettered delivery could not be marked failed")

  -- `moveToDeadLetter`
  unfoldable pub move_to_dead_letter :
      Candidate → RevocationEvent → ℕ → Surroundings → Job (Unit {0})
  unfolding update_deliveries
  move_to_dead_letter d event now env = do
    count ← update_deliveries (is_exhausted d now) (reserve now)
    if count == 1 then settle_dead_letter d event now env.meanwhile env.confirm else pure tt
