-- ===== src/Worker/Cycle.antt =====
-- `process` and `processDueRetries` of revocation-delivery.service.ts. `Promise.allSettled` is a run
-- of the deliveries one after the other; what overlaps with one of them is its `meanwhile`.
pub mod Cap
use seleksi2_labpro.Prelude.{
  ℕ, String, Bool, false, ◌&&◌, not, List, [], ◌∷◌, map, Option, none, some, leb, ◌==◌, ◌===◌,
  if◌then◌else◌, is_some, none_or, length, any, Result, ok, err, pure, throw, gets, or_throw,
  throw_if, modify, ◌>>=◌, ◌>>◌,
}
use seleksi2_labpro.Database.{Prisma, find_one, find_many, create}
use seleksi2_labpro.Schema.Accounts.{Application}
use seleksi2_labpro.Schema.Events.{EventDelivery, pending, retrying, same_status, OutboxEvent}
use seleksi2_labpro.Shared.Event.{RevocationEvent, parse_revocation_event}
use seleksi2_labpro.Shared.Canonical.{fingerprint}
use seleksi2_labpro.Worker.Store.{WorkerError, non_retryable, infrastructure, Job}
use seleksi2_labpro.Worker.Delivery.{
  RetryPolicy, Candidate, Surroundings, is_due, deliver, recover_orphaned_deliveries,
  move_to_dead_letter,
}

-- What a run is given from outside: the engine's dates, SHA-256, the identifiers that the database
-- makes up for new deliveries, the surroundings of each delivery, and the order and number of rows
-- that `orderBy` and `take` select.
pub record Outside : Type 0 where
  pub to_iso : String → Option String
  pub sha256 : String → String
  pub new_id : String → String → String
  pub around : String → Surroundings
  pub batch : List EventDelivery → List EventDelivery

abbrev pub candidate : EventDelivery → Candidate
candidate r = record {
  id = r.id;
  event_id = r.event_id;
  application_id = r.application_id;
  status = r.status;
  attempt_count = r.attempt_count;
  last_error = r.last_error;
}

-- The first rejection of `Promise.allSettled` is thrown when all have settled.
abbrev pub earlier : Option WorkerError → Result WorkerError (Unit {0}) → Option WorkerError
earlier (some e) r = some e
earlier none (ok u) = none
earlier none (err e) = some e

abbrev pub rethrow : Option WorkerError → Job (Unit {0})
rethrow none = pure tt
rethrow (some e) = throw e

pub all_settled : List (Job (Unit {0})) → Option WorkerError → Job (Unit {0})
all_settled [] first s = rethrow first s
all_settled (job ∷ jobs) first s = let (r, s') = job s in all_settled jobs (earlier first r) s'

-- The two fingerprints are compared, and an error in the stored payload counts as a difference.
abbrev pub same_event : Outside → RevocationEvent → Option RevocationEvent → Bool
same_event o event none = false
same_event o event (some stored) = fingerprint o.sha256 stored === fingerprint o.sha256 event

abbrev pub new_delivery : Outside → RevocationEvent → Application → EventDelivery
new_delivery o event target = record {
  id = o.new_id event.event_id target.id;
  event_id = event.event_id;
  application_id = target.id;
  status = pending;
  attempt_count = 0;
  last_attempt_at = none;
  next_retry_at = none;
  processed_at = none;
  last_error = none;
}

-- The unique key of a delivery.
abbrev pub is_delivery_of : RevocationEvent → Application → EventDelivery → Bool
is_delivery_of event target r = r.event_id === event.event_id && r.application_id === target.id

-- `application.findMany({ where: event.applicationId ? { id: event.applicationId } : undefined })`
abbrev pub is_target : RevocationEvent → Application → Bool
is_target event a = none_or (λ id. a.id === id) event.application_id

-- The rows due for another attempt.
abbrev pub is_retry_due : ℕ → EventDelivery → Bool
is_retry_due now r = same_status r.status retrying && is_due now r

module _ ⦃db : Prisma⦄ (c : RetryPolicy) (o : Outside) where
  -- `assertStoredEvent`
  pub assert_stored_event : RevocationEvent → Job (Unit {0})
  assert_stored_event event = do
    found ← gets (λ s. find_one (λ (r : OutboxEvent). r.id === event.event_id) s.outbox_events)
    stored ← or_throw found (non_retryable "Outbox event does not exist")
    throw_if (not (same_event o event (parse_revocation_event o.to_iso stored.payload)))
        (non_retryable "Queued event does not match its outbox record")

  -- `resolveTargets`
  pub resolve_targets : RevocationEvent → Job (List Application)
  resolve_targets event = do
    targets ← gets (λ s. find_many (is_target event) s.applications)
    throw_if (is_some event.application_id && not (length targets == 1))
        (non_retryable "Target application for revocation event does not exist")
    pure targets

  -- `createMany` with `skipDuplicates`.
  abbrev or_same : List EventDelivery → Option (List EventDelivery) → List EventDelivery
  or_same t none = t
  or_same t (some u) = u

  pub create_deliveries :
      RevocationEvent → List Application → List EventDelivery → List EventDelivery
  create_deliveries event [] t = t
  create_deliveries event (a ∷ targets) t =
      create_deliveries event targets
        (or_same t (create (is_delivery_of event a) (new_delivery o event a) t))

  -- The body of `process` behind the two checks.
  pub deliver_all : RevocationEvent → List Application → Job (Unit {0})
  unfolding all_settled create_deliveries
  deliver_all event targets = do
    modify (λ s. record s { event_deliveries = create_deliveries event targets s.event_deliveries })
    deliveries ←
        gets (λ s. find_many (λ r. any (λ a. is_delivery_of event a r) targets) s.event_deliveries)
    all_settled (map (λ r. deliver c (candidate r) (o.around r.id)) deliveries) none

  -- `process`
  pub process : RevocationEvent → Job (Unit {0})
  unfolding assert_stored_event resolve_targets deliver_all
  process event = do
    assert_stored_event event
    targets ← resolve_targets event
    if length targets == 0 then pure tt else deliver_all event targets

  -- What `processDueRetries` does with a row and the payload of its event.
  pub retry_event : EventDelivery → ℕ → Option RevocationEvent → Job (Unit {0})
  retry_event r now none = throw (infrastructure "Invalid revocation event")
  retry_event r now (some event) =
      if not (event.event_id === r.event_id)
      then throw (infrastructure "Delivery event does not match its outbox record")
      else if leb c.max_attempts r.attempt_count
      then move_to_dead_letter c (candidate r) event now (o.around r.id)
      else deliver c (candidate r) (o.around r.id)

  pub retry_one : ℕ → EventDelivery → Job (Unit {0})
  unfolding retry_event
  retry_one now r = do
    found ← gets (λ s. find_one (λ (e : OutboxEvent). e.id === r.event_id) s.outbox_events)
    stored ← or_throw found (infrastructure "Delivery without an outbox record")
    retry_event r now (parse_revocation_event o.to_iso stored.payload)

  -- `processDueRetries`
  pub process_due_retries : ℕ → Job (Unit {0})
  unfolding retry_one all_settled
  process_due_retries now = do
    recover_orphaned_deliveries c now
    candidates ← gets (λ s. o.batch (find_many (is_retry_due now) s.event_deliveries))
    all_settled (map (retry_one now) candidates) none
