-- ===== src/Server/Outbox.antt =====
-- `OutboxEventService` of auth-provider/server/src/event-processing/outbox-event.service.ts: the
-- events that a transaction leaves for the publisher.
pub mod Appended
use seleksi2_labpro.Prelude.{ℕ, String, List, [], ◌∷◌, map, Option, none, some, pure, modify, ◌>>◌}
use seleksi2_labpro.Database.{Prisma}
use seleksi2_labpro.Schema.Events.{OutboxEvent, OutboxEventStatus}
use seleksi2_labpro.Shared.Json.{Fields, end}
use seleksi2_labpro.Shared.Event.{RevocationEvent, EventType, event_type_name, to_json}
use seleksi2_labpro.Server.Store.{ServerStore, Handler, enqueued}
use seleksi2_labpro.Server.Runtime.{Runtime}

pub record NewRevocationEvent : Type 0 where
  pub event_type : EventType
  pub user_id : String
  pub central_session_id : Option String
  pub application_id : Option String
  pub reason : String
  pub occurred_at : ℕ
  pub metadata : Option Fields

abbrev or_none : Option Fields → Fields
or_none none = end
or_none (some fs) = fs

-- The event of an input, with the identifier that `randomUUID` draws for it.
abbrev pub event_of : Runtime → String × NewRevocationEvent → RevocationEvent
event_of rt (id, input) = record {
  event_id = id;
  event_type = input.event_type;
  user_id = input.user_id;
  central_session_id = input.central_session_id;
  application_id = input.application_id;
  reason = input.reason;
  occurred_at = rt.to_iso input.occurred_at;
  metadata = or_none input.metadata;
}

abbrev pub outbox_row : RevocationEvent → OutboxEvent
outbox_row event = record {
  id = event.event_id;
  event_type = event_type_name event.event_type;
  user_id = event.user_id;
  central_session_id = event.central_session_id;
  application_id = event.application_id;
  payload = to_json event;
  status = OutboxEventStatus.pending;
  publish_attempt_count = 0;
  last_publish_attempt_at = none;
  next_publish_attempt_at = none;
  last_error = none;
  published_at = none;
}

module _ ⦃db : Prisma⦄ (rt : Runtime) where
  -- `createMany`, row by row.
  unfoldable pub enqueue_all : List RevocationEvent → ServerStore → ServerStore
  enqueue_all [] s = s
  enqueue_all (e ∷ events) s = enqueue_all events (enqueued (outbox_row e) s)

  -- `enqueueMany`
  unfoldable pub enqueue_many : List (String × NewRevocationEvent) → Handler (List RevocationEvent)
  unfolding enqueue_all
  enqueue_many inputs = do
    let events = map (event_of rt) inputs
    modify (enqueue_all events)
    pure events

  -- `enqueue`
  unfoldable pub enqueue : String → NewRevocationEvent → Handler (List RevocationEvent)
  unfolding enqueue_many
  enqueue id input = enqueue_many ((id, input) ∷ [])
