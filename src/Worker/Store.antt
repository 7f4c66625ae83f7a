-- ===== src/Worker/Store.antt =====
-- What the sync worker's services work on: the tables that they read and write, and what they send
-- out. Every call of the database or of the network is one atomic step.
use seleksi2_labpro.Prelude.{ℕ, String, Bool, List, ok, Exec}
use seleksi2_labpro.Database.{Prisma, update_many}
use seleksi2_labpro.Schema.Accounts.{Application}
use seleksi2_labpro.Schema.Events.{OutboxEvent, EventDelivery}
use seleksi2_labpro.Shared.Event.{RevocationEvent}

-- `RevocationDeadLetter` of dead-letter-publisher.service.ts.
pub record RevocationDeadLetter : Type 0 where
  pub event : RevocationEvent
  pub delivery_id : String
  pub target_application_id : String
  pub attempt_count : ℕ
  pub last_error : String
  pub failed_at : ℕ

-- `DeliveryOutcome` of worker-metrics.service.ts.
pub data DeliveryOutcome : Type 0 where
  success retry error failed : DeliveryOutcome

-- `requests`: the logout notifications sent, by delivery. `dead_letters`: the messages that the
-- dead-letter queue confirmed. `outcomes` and `terminal_failures` are the metrics.
pub record WorkerStore : Type 0 where
  pub outbox_events : List OutboxEvent
  pub applications : List Application
  pub event_deliveries : List EventDelivery
  pub requests : List String
  pub dead_letters : List RevocationDeadLetter
  pub outcomes : List DeliveryOutcome
  pub terminal_failures : ℕ

-- `NonRetryableEventError` and every other error.
pub data WorkerError : Type 0 where
  non_retryable : String → WorkerError
  infrastructure : String → WorkerError

abbrev pub Job : Type 0 → Type 0
Job A = Exec WorkerStore WorkerError A

module _ ⦃db : Prisma⦄ where
  -- `eventDelivery.updateMany`
  unfoldable pub update_deliveries :
      (EventDelivery → Bool) → (EventDelivery → EventDelivery) → Job ℕ
  update_deliveries p f s =
      let (t, n) = update_many p f s.event_deliveries in (ok n, record s { event_deliveries = t })
