-- ===== src/Schema/Events.antt =====
-- The outbox of events and their deliveries to the applications.
use seleksi2_labpro.Prelude.{ℕ, String, Bool, true, false, Option}
use seleksi2_labpro.Shared.Json.{Json}

pub data OutboxEventStatus : Type 0 where
  pending published : OutboxEventStatus

pub record OutboxEvent : Type 0 where
  pub id : String
  pub event_type : String
  pub user_id : String
  pub central_session_id : Option String
  pub application_id : Option String
  pub payload : Json
  pub status : OutboxEventStatus
  pub publish_attempt_count : ℕ
  pub last_publish_attempt_at : Option ℕ
  pub next_publish_attempt_at : Option ℕ
  pub last_error : Option String
  pub published_at : Option ℕ

pub data EventDeliveryStatus : Type 0 where
  pending processing succeeded retrying failed : EventDeliveryStatus

-- `a === b` on the statuses.
abbrev pub same_status : EventDeliveryStatus → EventDeliveryStatus → Bool
same_status pending pending = true
same_status processing processing = true
same_status succeeded succeeded = true
same_status retrying retrying = true
same_status failed failed = true
same_status _ _ = false

pub record EventDelivery : Type 0 where
  pub id : String
  pub event_id : String
  pub application_id : String
  pub status : EventDeliveryStatus
  pub attempt_count : ℕ
  pub last_attempt_at : Option ℕ
  pub next_retry_at : Option ℕ
  pub processed_at : Option ℕ
  pub last_error : Option String
