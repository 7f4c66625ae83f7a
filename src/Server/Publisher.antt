-- ===== src/Server/Publisher.antt =====
-- `OutboxPublisherService` of auth-provider/server/src/event-processing/outbox-publisher.service.ts.
pub mod Outcome
use seleksi2_labpro.Prelude.{
  ℕ, ◌+◌, ◌-◌, ◌*◌, ◌^◌, min, String, Bool, true, false, ◌&&◌, not, List, [], ◌∷◌, Option, none,
  some, leb, ◌==◌, ◌===◌, if◌then◌else◌, none_or, Exec, Result, ok, err, pure, gets, modify, ◌>>=◌,
  ◌>>◌,
}
use seleksi2_labpro.Database.{Prisma, find_many, update_many}
use seleksi2_labpro.Schema.Events.{OutboxEvent, OutboxEventStatus}
use seleksi2_labpro.Shared.Json.{Json, string, array, object, get}
use seleksi2_labpro.Server.Runtime.{is_text}

-- What the publisher works on. `sent`: the payloads that the broker confirmed.
pub record PublisherStore : Type 0 where
  pub outbox_events : List OutboxEvent
  pub sent : List Json

-- The service's configuration.
pub record PublishPolicy : Type 0 where
  pub lease_ms : ℕ
  pub retry_base_ms : ℕ
  pub retry_max_ms : ℕ

-- `publish` of rabbitmq-publisher.service.ts confirms, or throws RabbitMqPublishError or another
-- error, with a message.
pub data Answer : Type 0 where
  confirmed : Answer
  broker_error : String → Answer
  other_error : String → Answer

-- What happens in the course of one publication: the clock's readings, the broker's answer, and what
-- others do to the store meanwhile.
pub record Surroundings : Type 0 where
  pub started_at : ℕ
  pub finished_at : ℕ
  pub answer : Answer
  pub meanwhile : PublisherStore → PublisherStore

abbrev pub Job : Type 0 → Type 0
Job A = Exec PublisherStore String A

-- `===` on statuses.
abbrev pub is_pending : OutboxEventStatus → Bool
is_pending OutboxEventStatus.pending = true
is_pending OutboxEventStatus.published = false

-- `retryDelayMs`
unfoldable pub retry_delay_ms : PublishPolicy → ℕ → ℕ
retry_delay_ms c attempt_number =
    min (c.retry_base_ms * 2 ^ min (attempt_number - 1) 30) c.retry_max_ms

abbrev pub is_due : ℕ → OutboxEvent → Bool
is_due now r = none_or (λ at. leb at now) r.next_publish_attempt_at

-- The rows that a batch is taken from.
abbrev pub is_eligible : ℕ → OutboxEvent → Bool
is_eligible now r = is_pending r.status && is_due now r

-- The conditions of the conditional writes, and the columns that they set.
abbrev pub is_claimable : OutboxEvent → ℕ → OutboxEvent → Bool
is_claimable d now r =
    r.id === d.id
    && is_pending r.status
    && r.publish_attempt_count == d.publish_attempt_count
    && is_due now r

abbrev pub is_claimed : OutboxEvent → OutboxEvent → Bool
is_claimed d r =
    r.id === d.id && is_pending r.status && r.publish_attempt_count == d.publish_attempt_count + 1

abbrev pub claim : PublishPolicy → ℕ → OutboxEvent → OutboxEvent
claim c now r = record r {
  publish_attempt_count = r.publish_attempt_count + 1;
  last_publish_attempt_at = some now;
  next_publish_attempt_at = some (now + c.lease_ms);
  last_error = none;
}

abbrev pub mark_published : ℕ → OutboxEvent → OutboxEvent
mark_published now r = record r {
  status = OutboxEventStatus.published;
  published_at = some now;
  next_publish_attempt_at = none;
  last_error = none;
}

abbrev pub reschedule : ℕ → String → OutboxEvent → OutboxEvent
reschedule at message r = record r { next_publish_attempt_at = some at; last_error = some message }

-- `event.eventId === candidate.id`, on a payload that is an object.
abbrev pub is_payload_of : OutboxEvent → Json → Bool
is_payload_of d (object fs) = is_text d.id (get "eventId" fs)
is_payload_of d _ = false

abbrev pub send : Json → PublisherStore → PublisherStore
send payload s = record s { sent = payload ∷ s.sent }

-- A payload that is not the row's is not sent.
abbrev pub outcome : OutboxEvent → Answer → Answer
outcome d answer =
    if is_payload_of d d.payload
    then answer
    else other_error "Outbox row id does not match payload eventId"

module _ ⦃db : Prisma⦄ (c : PublishPolicy) where
  -- `outboxEvent.updateMany`
  unfoldable pub update_events : (OutboxEvent → Bool) → (OutboxEvent → OutboxEvent) → Job ℕ
  update_events p f s =
      let (t, n) = update_many p f s.outbox_events in (ok n, record s { outbox_events = t })

  -- The `catch`: when the event is tried again.
  unfoldable pub record_failure : OutboxEvent → Surroundings → String → Job ℕ
  unfolding update_events
  record_failure d env message =
      update_events (is_claimed d)
        (reschedule (env.finished_at + retry_delay_ms c (d.publish_attempt_count + 1)) message)

  -- Behind the claim: the number of events published, and whether the batch goes on.
  abbrev pub settle : OutboxEvent → Surroundings → Answer → Job (ℕ × Bool)
  settle d env confirmed = do
    modify (send d.payload)
    modify env.meanwhile
    n ← update_events (is_claimed d) (mark_published env.finished_at)
    pure (n, true)
  settle d env (broker_error message) = do
    modify env.meanwhile
    n ← record_failure d env message
    pure (0, false)
  settle d env (other_error message) = do
    modify env.meanwhile
    n ← record_failure d env message
    pure (0, true)

  -- One turn of the loop.
  unfoldable pub publish_one : OutboxEvent → Surroundings → Job (ℕ × Bool)
  unfolding update_events record_failure
  publish_one d env = do
    claimed ← update_events (is_claimable d env.started_at) (claim c env.started_at)
    if claimed == 1 then settle d env (outcome d env.answer) else pure (0, true)

  abbrev continue_if : ℕ × Bool → ℕ → Job ℕ → Job ℕ
  continue_if (n, true) m rest = rest
  continue_if (n, false) m rest = pure m

  -- The loop, with the events published so far.
  unfoldable pub publish_all : (String → Surroundings) → List OutboxEvent → ℕ → Job ℕ
  unfolding publish_one
  publish_all around [] published_count = pure published_count
  publish_all around (d ∷ ds) published_count = publish_one d (around d.id) >>= λ r.
      continue_if r (published_count + r.0) (publish_all around ds (published_count + r.0))

  -- `publishPendingBatch`; `batch` is what `orderBy` and `take` select.
  unfoldable pub publish_pending_batch :
      (List OutboxEvent → List OutboxEvent) → (String → Surroundings) → ℕ → Job ℕ
  unfolding publish_all
  publish_pending_batch batch around now = do
    candidates ← gets (λ s. batch (find_many (is_eligible now) s.outbox_events))
    publish_all around candidates 0
