-- ===== src/Worker/Consumer.antt =====
-- `RabbitMqConsumerService` of auth-provider/sync-worker/src/event-processing/
-- rabbitmq-consumer.service.ts: the messages that are being processed, how each is settled, and the
-- shutdown; and `parseRevocationMessage` of revocation-message.ts.
pub mod Message
pub mod Connection
pub mod Settling
pub mod Polling
use seleksi2_labpro.Prelude.{
  ℕ, suc, ◌+◌, String, Bool, true, false, ◌&&◌, not, List, [], ◌∷◌, Option, none, some, ◌==◌,
  if◌then◌else◌, Result, ok, err, any, filter,
}
use seleksi2_labpro.Worker.Store.{WorkerError, non_retryable, infrastructure}

-- What the channel is told about a message: `ack`, `nack` with `requeue`, and `nack` without.
pub data Settlement : Type 0 where
  ack requeue dead_letter : Settlement

-- `ActiveDelivery`; the tag stands for the object's identity.
pub record ActiveDelivery : Type 0 where
  pub tag : ℕ
  pub settled : Bool

-- `settlements`: what the broker was told, the latest first.
pub record ConsumerState : Type 0 where
  pub active_deliveries : List ActiveDelivery
  pub next_tag : ℕ
  pub settlements : List (ℕ × Settlement)

abbrev pub initial : ConsumerState
initial = record { active_deliveries = []; next_tag = 0; settlements = [] }

-- `inFlightCount` counts these.
abbrev pub is_unsettled : ℕ → ActiveDelivery → Bool
is_unsettled tag d = d.tag == tag && not d.settled

-- `delivery.settled = true`
pub mark : ℕ → List ActiveDelivery → List ActiveDelivery
mark tag [] = []
mark tag (d ∷ ds) = (if d.tag == tag then record d { settled = true } else d) ∷ mark tag ds

-- The channel's answer to a call: a closed channel throws.
abbrev pub tell : Bool → ℕ → Settlement → List (ℕ × Settlement) → List (ℕ × Settlement)
tell true tag k told = (tag, k) ∷ told
tell false tag k told = told

-- `settle`: whether the operation was called, and whether it threw, is told by the two Booleans.
pub settle : Bool → ℕ → Settlement → ConsumerState → ConsumerState
unfolding mark
settle works tag k s =
    if any (is_unsettled tag) s.active_deliveries
    then record s {
      active_deliveries = mark tag s.active_deliveries;
      settlements = tell works tag k s.settlements;
    }
    else s

-- The `catch` of `processMessage`.
abbrev pub settlement_of : WorkerError → Settlement
settlement_of (non_retryable m) = dead_letter
settlement_of (infrastructure m) = requeue

-- The end of `processMessage`, when the event has been processed or the processing has thrown. An
-- `ack` that throws is caught, and `settle` is called once more.
pub conclude : Bool → ℕ → Result WorkerError (Unit {0}) → ConsumerState → ConsumerState
unfolding settle
conclude works tag (ok u) s =
    let s' = settle works tag ack s in if works then s' else settle works tag requeue s'
conclude works tag (err e) s = settle works tag (settlement_of e) s

-- The callback of `consume`.
pub receive : ConsumerState → ConsumerState
receive s = record s {
  active_deliveries = record { tag = s.next_tag; settled = false } ∷ s.active_deliveries;
  next_tag = suc s.next_tag;
}

-- `activeDeliveries.delete(delivery)`, behind the end of `processMessage`.
pub forget : ℕ → ConsumerState → ConsumerState
forget tag s = record s {
  active_deliveries = filter (λ d. not (d.tag == tag && d.settled)) s.active_deliveries;
}

abbrev requeue_one : Bool → ActiveDelivery → ConsumerState → ConsumerState
requeue_one works d s = if d.settled then s else settle works d.tag requeue s

-- The loop of `performShutdown` over what the deadline found unsettled; `works` tells for each
-- delivery whether the channel took the call.
pub requeue_all : (ℕ → Bool) → List ActiveDelivery → ConsumerState → ConsumerState
unfolding settle
requeue_all works [] s = s
requeue_all works (d ∷ ds) s = requeue_all works ds (requeue_one (works d.tag) d s)

-- `performShutdown`, behind the wait: whether the deliveries drained in time.
pub shut_down : Bool → (ℕ → Bool) → ConsumerState → ConsumerState
unfolding requeue_all
shut_down drained works s = if drained then s else requeue_all works s.active_deliveries s

-- What happens to the consumer, one thing after the other.
pub data Event : Type 0 where
  received : Event
  concluded : Bool → ℕ → Result WorkerError (Unit {0}) → Event
  forgotten : ℕ → Event
  shut : Bool → (ℕ → Bool) → Event

pub step : Event → ConsumerState → ConsumerState
unfolding conclude receive forget shut_down
step received s = receive s
step (concluded works tag r) s = conclude works tag r s
step (forgotten tag) s = forget tag s
step (shut drained works) s = shut_down drained works s

pub run : List Event → ConsumerState → ConsumerState
unfolding step
run [] s = s
run (e ∷ events) s = run events (step e s)
