-- ===== src/Worker/Consumer/Polling.antt =====
-- The retry cycles never overlap (revocation-retry.service.ts), and a consumer that is shut down never
-- connects again (rabbitmq-consumer.service.ts).
use seleksi2_labpro.Prelude.{
  ℕ, ◌≤◌, ◌≡◌, refl, Bool, true, false, none, some, List, [], ◌∷◌, ◌==◌, if◌then◌else◌, arith,
  length, filter, ◌∙◌,
}
use seleksi2_labpro.Worker.Consumer.Connection.{
  ConnectionState, trigger_connection, schedule_reconnect, reconnect_due, connect_failed,
  connect_succeeded, connection_closed, begin_shutdown, close_connection, PollingState,
  trigger_cycle, cycle_ended, start_polling, tick, stop_polling,
}

-- What happens to the retry service.
pub data PollingEvent : Type 0 where
  booted : Bool → PollingEvent
  ticked : PollingEvent
  ended : ℕ → PollingEvent
  stopped : PollingEvent

pub poll : PollingEvent → PollingState → PollingState
unfolding start_polling tick cycle_ended stop_polling
poll (booted enabled) s = start_polling enabled s
poll ticked s = tick s
poll (ended n) s = cycle_ended n s
poll stopped s = stop_polling s

pub poll_all : List PollingEvent → PollingState → PollingState
unfolding poll
poll_all [] s = s
poll_all (e ∷ events) s = poll_all events (poll e s)

abbrev pub idle : PollingState
idle = record { timer = false; active_cycle = none; running = []; next_cycle = 0 }

-- The cycle that is remembered is the one that runs.
pub data IsSingle (s : PollingState) : Type 0 where
  resting : s.active_cycle ≡ none → s.running ≡ [] → IsSingle s
  busy : (n : ℕ) → s.active_cycle ≡ some n → s.running ≡ n ∷ [] → IsSingle s

IsSingle-timer : (on : Bool) (s : PollingState) → IsSingle s → IsSingle (record s { timer = on })
IsSingle-timer on s (resting a r) = resting a r
IsSingle-timer on s (busy n a r) = busy n a r

trigger_cycle-IsSingle : (s : PollingState) → IsSingle s → IsSingle (trigger_cycle s)
unfolding trigger_cycle
trigger_cycle-IsSingle s (resting a r) = rw (a, r) (busy s.next_cycle refl refl)
trigger_cycle-IsSingle s (busy n a r) = rw a (busy n refl r)

cycle_ended-IsSingle : (n : ℕ) (s : PollingState) → IsSingle s → IsSingle (cycle_ended n s)
unfolding cycle_ended filter
cycle_ended-IsSingle n s (resting a r) = resting (rw a refl) (rw r refl)
cycle_ended-IsSingle n s (busy m a r) = by_match (m == n) refl
  where
    by_match : (b : Bool) → (m == n) ≡ b → IsSingle (cycle_ended n s)
    by_match true e = resting (rw (a, e) refl) (rw (r, e) refl)
    by_match false e = busy m (rw (a, e) refl) (rw (r, e) refl)

poll-IsSingle : (e : PollingEvent) (s : PollingState) → IsSingle s → IsSingle (poll e s)
unfolding poll start_polling tick stop_polling
poll-IsSingle (booted true) s h = trigger_cycle-IsSingle _ (IsSingle-timer true s h)
poll-IsSingle (booted false) s h = h
poll-IsSingle ticked s h = by_timer s.timer
  where
    by_timer : (b : Bool) → IsSingle (if b then trigger_cycle s else s)
    by_timer true = trigger_cycle-IsSingle s h
    by_timer false = h
poll-IsSingle (ended n) s h = cycle_ended-IsSingle n s h
poll-IsSingle stopped s h = IsSingle-timer false s h

poll_all-IsSingle :
    (events : List PollingEvent) (s : PollingState) → IsSingle s → IsSingle (poll_all events s)
unfolding poll_all
poll_all-IsSingle [] s h = h
poll_all-IsSingle (e ∷ events) s h = poll_all-IsSingle events _ (poll-IsSingle e s h)

at_most_one : (s : PollingState) → IsSingle s → length s.running ≤ 1
at_most_one s (resting a r) = rw r (omega arith)
at_most_one s (busy n a r) = rw r (omega arith)

-- In every history of the retry service, from its start, at most one retry cycle is running.
pub one_cycle_runs : (events : List PollingEvent) → length (poll_all events idle).running ≤ 1
one_cycle_runs events = at_most_one _ (poll_all-IsSingle events idle (resting refl refl))

-- What happens to the connection of a consumer.
pub data ConnectionEvent : Type 0 where
  triggered due failed opened lost shutting shut_down : ConnectionEvent

pub change : ConnectionEvent → ConnectionState → ConnectionState
unfolding trigger_connection schedule_reconnect reconnect_due connect_failed connect_succeeded
    connection_closed begin_shutdown close_connection
change triggered s = trigger_connection s
change due s = reconnect_due s
change failed s = connect_failed s
change opened s = connect_succeeded s
change lost s = connection_closed s
change shutting s = begin_shutdown s
change shut_down s = close_connection s

pub change_all : List ConnectionEvent → ConnectionState → ConnectionState
unfolding change
change_all [] s = s
change_all (e ∷ events) s = change_all events (change e s)

-- A consumer that has been destroyed and disconnected.
pub record IsGone (s : ConnectionState) : Type 0 where
  pub destroyed : s.destroyed ≡ true
  pub disconnected : s.connected ≡ false
  pub silent : s.consuming ≡ false
  pub timeless : s.reconnect_timer ≡ false

change-IsGone :
    (e : ConnectionEvent) (s : ConnectionState)
    → IsGone s
    → IsGone (change e s) × ((change e s).attempts ≡ s.attempts)
unfolding change
change-IsGone triggered s h = ground (arith, h)
change-IsGone due s h = ground (arith, h)
change-IsGone failed s h = ground (arith, h)
change-IsGone opened s h = ground (arith, h)
change-IsGone lost s h = ground (arith, h)
change-IsGone shutting s h = ground (arith, h)
change-IsGone shut_down s h = ground (arith, h)

-- A consumer that was shut down and disconnected stays so in every later history: it does not try to
-- connect, and an attempt that was under way is given up when it succeeds.
pub change_all-IsGone :
    (events : List ConnectionEvent) (s : ConnectionState)
    → IsGone s
    → IsGone (change_all events s) × ((change_all events s).attempts ≡ s.attempts)
unfolding change_all
change_all-IsGone [] s h = (h, refl)
change_all-IsGone (e ∷ events) s h =
    let (now, same) = change-IsGone e s h in
    let (later, same') = change_all-IsGone events _ now in (later, same' ∙ same)
