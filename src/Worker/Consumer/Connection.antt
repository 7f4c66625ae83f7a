-- ===== src/Worker/Consumer/Connection.antt =====
-- The connection of `RabbitMqConsumerService` (rabbitmq-consumer.service.ts), and the polling of
-- `RevocationRetryService` (revocation-retry.service.ts).
use seleksi2_labpro.Prelude.{
  ℕ, suc, Bool, true, false, ◌||◌, not, List, ◌∷◌, Option, none, some, ◌==◌, if◌then◌else◌, is_some,
  filter,
}

-- `connected`: `connection` is set. `opened`: connections that were opened and not closed.
pub record ConnectionState : Type 0 where
  pub connected : Bool
  pub connecting : Bool
  pub reconnect_timer : Bool
  pub consuming : Bool
  pub destroyed : Bool
  pub attempts : ℕ

-- `triggerConnection`
unfoldable pub trigger_connection : ConnectionState → ConnectionState
trigger_connection s =
    if s.destroyed || s.connected || s.connecting
    then s
    else record s { connecting = true; attempts = suc s.attempts }

-- `scheduleReconnect`
unfoldable pub schedule_reconnect : ConnectionState → ConnectionState
schedule_reconnect s =
    if s.destroyed || s.reconnect_timer then s else record s { reconnect_timer = true }

-- The timer's callback.
unfoldable pub reconnect_due : ConnectionState → ConnectionState
unfolding trigger_connection
reconnect_due s =
    if s.reconnect_timer then trigger_connection (record s { reconnect_timer = false }) else s

-- The end of `connect`: it failed, or it succeeded; after a shutdown the new connection is closed.
unfoldable pub connect_failed : ConnectionState → ConnectionState
unfolding schedule_reconnect
connect_failed s = if s.connecting then record (schedule_reconnect s) { connecting = false } else s

unfoldable pub connect_succeeded : ConnectionState → ConnectionState
connect_succeeded s =
    if s.connecting
    then (if s.destroyed
        then record s { connecting = false }
        else record s { connecting = false; connected = true; consuming = true })
    else s

-- The connection's `close` listener.
unfoldable pub connection_closed : ConnectionState → ConnectionState
unfolding schedule_reconnect
connection_closed s =
    if s.connected
    then schedule_reconnect (record s { connected = false; consuming = false })
    else s

-- The two halves of `performShutdown`: what it does at once, and `closeConnection`.
unfoldable pub begin_shutdown : ConnectionState → ConnectionState
begin_shutdown s = record s { destroyed = true; reconnect_timer = false; consuming = false }

unfoldable pub close_connection : ConnectionState → ConnectionState
close_connection s = record s { connected = false; consuming = false }

-- `RevocationRetryService`: `running` are the cycles whose promise is unsettled.
pub record PollingState : Type 0 where
  pub timer : Bool
  pub active_cycle : Option ℕ
  pub running : List ℕ
  pub next_cycle : ℕ

-- `triggerCycle`
unfoldable pub trigger_cycle : PollingState → PollingState
trigger_cycle s = if is_some s.active_cycle then s else record s {
  active_cycle = some s.next_cycle;
  running = s.next_cycle ∷ s.running;
  next_cycle = suc s.next_cycle;
}

abbrev without : ℕ → Option ℕ → Option ℕ
without n none = none
without n (some m) = if m == n then none else some m

-- The `finally` of a cycle.
unfoldable pub cycle_ended : ℕ → PollingState → PollingState
cycle_ended n s = record s {
  active_cycle = without n s.active_cycle;
  running = filter (λ m. not (m == n)) s.running;
}

-- `onApplicationBootstrap`
unfoldable pub start_polling : Bool → PollingState → PollingState
unfolding trigger_cycle
start_polling enabled s = if enabled then trigger_cycle (record s { timer = true }) else s

-- A tick of the timer, and `stopPolling`.
unfoldable pub tick : PollingState → PollingState
unfolding trigger_cycle
tick s = if s.timer then trigger_cycle s else s

unfoldable pub stop_polling : PollingState → PollingState
stop_polling s = record s { timer = false }
