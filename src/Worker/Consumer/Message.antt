-- ===== src/Worker/Consumer/Message.antt =====
-- `parseRevocationMessage` of revocation-message.ts, and what `processMessage` of
-- rabbitmq-consumer.service.ts does with a message.
use seleksi2_labpro.Prelude.{
  ℕ, String, Bool, ◌&&◌, not, List, Option, ltb, ◌==◌, ◌===◌, length, some_and, pure, or_throw,
  throw_if, ◌>>=◌, ◌>>◌,
}
use seleksi2_labpro.Database.{Prisma}
use seleksi2_labpro.Shared.Json.{Json}
use seleksi2_labpro.Shared.Event.{RevocationEvent, parse_revocation_event, event_type_name}
use seleksi2_labpro.Worker.Store.{non_retryable, Job}
use seleksi2_labpro.Worker.Delivery.{RetryPolicy}
use seleksi2_labpro.Worker.Cycle.{Outside, process}

-- An amqplib message, as far as it is looked at. `content` is a list of bytes.
pub record Message : Type 0 where
  pub content_type : Option String
  pub message_id : Option String
  pub kind : Option String
  pub content : List ℕ

-- `MAX_REVOCATION_MESSAGE_BYTES`
abbrev pub max_revocation_message_bytes : ℕ
max_revocation_message_bytes = 16384

abbrev pub has_envelope : Message → Bool
has_envelope m =
    some_and (λ t. t === "application/json") m.content_type
    && not (length m.content == 0)
    && not (ltb max_revocation_message_bytes (length m.content))

abbrev pub matches_event : Message → RevocationEvent → Bool
matches_event m event =
    some_and (λ id. id === event.event_id) m.message_id
    && some_and (λ k. k === event_type_name event.event_type) m.kind

-- `parseRevocationMessage`. `decode` is `JSON.parse` behind a fatal UTF-8 decoder.
pub parse_revocation_message :
    (List ℕ → Option Json) → (String → Option String) → Message → Job RevocationEvent
parse_revocation_message decode to_iso m = do
  throw_if (not (has_envelope m)) (non_retryable "Invalid revocation message envelope")
  raw ← or_throw (decode m.content) (non_retryable "Invalid revocation message JSON")
  event ←
      or_throw (parse_revocation_event to_iso raw)
        (non_retryable "Invalid revocation event payload")
  throw_if (not (matches_event m event))
      (non_retryable "RabbitMQ properties do not match the revocation event")
  pure event

module _ ⦃db : Prisma⦄ (c : RetryPolicy) (o : Outside) where
  -- The `try` block of `processMessage`, up to the settlement.
  pub handle : (List ℕ → Option Json) → Message → Job (Unit {0})
  unfolding parse_revocation_message
  handle decode m = do event ← parse_revocation_message decode o.to_iso m; process c o event
