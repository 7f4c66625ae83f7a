-- ===== src/Worker/Tests.antt =====
-- One delivery of the sync worker, and one message of its consumer.
use seleksi2_labpro.Prelude.{
  ◌===◌, length, ◌+◌, ◌*◌, ◌≤◌, ◌≡◌, refl, min, true, false, none, some, List, [], ◌∷◌, ok, inl,
  arith, find_by, count, update_where,
}
use seleksi2_labpro.Database.{reference, reference-IsDocumented}
use seleksi2_labpro.Schema.Events.{EventDelivery, pending, succeeded}
use seleksi2_labpro.Shared.Json.{end}
use seleksi2_labpro.Shared.Event.{RevocationEvent, session_revoked}
use seleksi2_labpro.Worker.Store.{WorkerStore, update_deliveries}
use seleksi2_labpro.Worker.Delivery.{
  RetryPolicy, Candidate, Surroundings, deliver, move_to_dead_letter, recover_orphaned_deliveries,
  claim, retry_delay_ms,
}
use seleksi2_labpro.Worker.Delivery.Delay.{retry_delay_bounds, retry_delay_doubles}
use seleksi2_labpro.Worker.Delivery.Evolution.{
  Progress, Progress-preorder, methods-Progress, terminal_stays,
}
use seleksi2_labpro.Worker.Delivery.Outcome.{has_id, settled, Holds, deliver_settles_row}
use seleksi2_labpro.Worker.Delivery.Once.{deliver_once}
use seleksi2_labpro.Worker.Cycle.{Outside, process_due_retries}
use seleksi2_labpro.Worker.Cycle.Cap.{IsCapped, process_due_retries-IsCapped}
use seleksi2_labpro.Worker.Consumer.{Event, received, concluded, forgotten, shut, run, initial}
use seleksi2_labpro.Worker.Consumer.Connection.{ConnectionState}
use seleksi2_labpro.Worker.Consumer.Polling.{
  PollingEvent, booted, ticked, ended, stopped, poll_all, idle, one_cycle_runs, ConnectionEvent,
  triggered, due, opened, change_all, IsGone, change_all-IsGone,
}
use seleksi2_labpro.Worker.Consumer.Settling.{times_settled, settled_once}

abbrev policy : RetryPolicy
policy = record { max_attempts = 3; retry_base_ms = 1000; retry_max_ms = 60000 }

retry_delay_bounds_example :
    (retry_delay_ms policy 9 ≤ policy.retry_max_ms)
    × (retry_delay_ms policy 2 ≤ retry_delay_ms policy 9)
    × (min policy.retry_base_ms policy.retry_max_ms ≤ retry_delay_ms policy 2)
retry_delay_bounds_example = retry_delay_bounds policy 2 9 (omega arith)

retry_delay_doubles_example :
    (retry_delay_ms policy 1 ≡ min policy.retry_base_ms policy.retry_max_ms)
    × (retry_delay_ms policy (2 + 2) ≡ min (2 * retry_delay_ms policy (2 + 1)) policy.retry_max_ms)
retry_delay_doubles_example = retry_delay_doubles policy 2 (omega arith)

abbrev delivery : EventDelivery
delivery = record {
  id = "delivery";
  event_id = "event";
  application_id = "app";
  status = pending;
  attempt_count = 0;
  last_attempt_at = none;
  next_retry_at = none;
  processed_at = none;
  last_error = none;
}

abbrev done : EventDelivery
done = record delivery { status = succeeded; attempt_count = 1 }

abbrev chosen : Candidate
chosen = record {
  id = "delivery";
  event_id = "event";
  application_id = "app";
  status = pending;
  attempt_count = 0;
  last_error = none;
}

abbrev network : Surroundings
network = record {
  attempted_at = 1000;
  finished_at = 1010;
  answer = some "HTTP 503";
  confirm = none;
  meanwhile = λ s. s;
}

abbrev store : WorkerStore
store = record {
  outbox_events = [];
  applications = [];
  event_deliveries = delivery ∷ [];
  requests = [];
  dead_letters = [];
  outcomes = [];
  terminal_failures = 0;
}

abbrev event : RevocationEvent
event = record {
  event_id = "event";
  event_type = session_revoked;
  user_id = "user";
  central_session_id = some "session";
  application_id = none;
  reason = "sso_logout";
  occurred_at = "2026-08-17T09:00:00.000Z";
  metadata = end;
}

abbrev done_store : WorkerStore
done_store = record store { event_deliveries = done ∷ [] }

terminal_stays_example :
    (find_by
        (λ (x : EventDelivery). x.id === done.id)
        (deliver ⦃db = reference⦄ policy chosen network done_store).1.event_deliveries
      ≡ some done)
    × (find_by
          (λ (x : EventDelivery). x.id === done.id)
          (move_to_dead_letter ⦃db = reference⦄ policy chosen event 2000 network
            done_store).1.event_deliveries
        ≡ some done)
    × (find_by
          (λ (x : EventDelivery). x.id === done.id)
          (recover_orphaned_deliveries ⦃db = reference⦄ policy 2000 done_store).1.event_deliveries
        ≡ some done)
unfolding find_by
terminal_stays_example =
    terminal_stays ⦃db = reference⦄ reference-IsDocumented policy chosen network
      Progress-preorder.stays event 2000 done_store done.id done (inl refl) refl

methods-Progress_example :
    Progress store (deliver ⦃db = reference⦄ policy chosen network store).1
    × Progress store (move_to_dead_letter ⦃db = reference⦄ policy chosen event 2000 network store).1
    × Progress store (recover_orphaned_deliveries ⦃db = reference⦄ policy 2000 store).1
methods-Progress_example =
    methods-Progress ⦃db = reference⦄ reference-IsDocumented policy chosen network
      Progress-preorder.stays event 2000 store

Holds-delivery : Holds chosen delivery store.event_deliveries
unfolding find_by count
Holds-delivery = record { once = omega arith; at = refl }

deliver_settles_row_example :
    ((deliver ⦃db = reference⦄ policy chosen network store).0 ≡ ok tt)
    × (find_by
          (has_id chosen.id)
          (deliver ⦃db = reference⦄ policy chosen network store).1.event_deliveries
        ≡ some (settled policy network delivery))
deliver_settles_row_example =
    deliver_settles_row ⦃db = reference⦄ reference-IsDocumented policy chosen network store delivery
      (λ u. refl) Holds-delivery refl refl

abbrev claimed : WorkerStore
claimed = record store { event_deliveries = claim 1000 delivery ∷ [] }

one_row : count (has_id chosen.id) claimed.event_deliveries ≤ 1
unfolding count
one_row = omega arith

deliver_once_example : deliver ⦃db = reference⦄ policy chosen network claimed ≡ (ok tt, claimed)
unfolding update_deliveries update_where count
deliver_once_example =
    deliver_once ⦃db = reference⦄ reference-IsDocumented policy chosen 1000 network store claimed
      delivery Holds-delivery refl one_row (Progress-preorder.stays claimed)

abbrev history : List Event
history = received ∷ shut false (λ t. true) ∷ concluded true 0 (ok tt) ∷ forgotten 0 ∷ []

settled_once_example : times_settled 0 (run history initial) ≤ 1
settled_once_example = settled_once history 0

abbrev world : Outside
world = record {
  to_iso = λ s. some s;
  sha256 = λ s. s;
  new_id = λ e a. e;
  around = λ id. network;
  batch = λ rows. rows;
}

process_due_retries-IsCapped_example :
    IsCapped 3 (process_due_retries ⦃db = reference⦄ policy world 2000 store).1
process_due_retries-IsCapped_example =
    process_due_retries-IsCapped ⦃db = reference⦄ reference-IsDocumented policy world 2000 store
      (λ id u h. h) (omega arith, tt)

abbrev polling : List PollingEvent
polling = booted true ∷ ticked ∷ ended 0 ∷ ticked ∷ stopped ∷ []

one_cycle_runs_example : length (poll_all polling idle).running ≤ 1
one_cycle_runs_example = one_cycle_runs polling

abbrev gone : ConnectionState
gone = record {
  connected = false;
  connecting = true;
  reconnect_timer = false;
  consuming = false;
  destroyed = true;
  attempts = 1;
}

abbrev afterwards : List ConnectionEvent
afterwards = opened ∷ triggered ∷ due ∷ []

change_all-IsGone_example :
    IsGone (change_all afterwards gone) × ((change_all afterwards gone).attempts ≡ gone.attempts)
change_all-IsGone_example =
    change_all-IsGone afterwards gone
      (record { destroyed = refl; disconnected = refl; silent = refl; timeless = refl })
