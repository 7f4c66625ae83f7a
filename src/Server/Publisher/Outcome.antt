-- ===== src/Server/Publisher/Outcome.antt =====
-- What becomes of one outbox event in a turn of the publisher (outbox-publisher.service.ts), when
-- nobody else writes its row meanwhile.
use seleksi2_labpro.Prelude.{
  ◌-◌, ◌*◌, ◌^◌, min, if◌then◌else◌, none, sym, subst, ◌∷◌, Result, ℕ, ◌+◌, ◌≤◌, ◌≡◌, refl, String,
  Bool, true, false, some, List, arith, ok, ◌>>=◌, count, find_by, update_where, ◌===◌,
}
use seleksi2_labpro.Database.{Prisma, reference, IsDocumented, documented}
use seleksi2_labpro.Database.Rows.{WritesOne, writes_one}
use seleksi2_labpro.Schema.Events.{OutboxEvent, OutboxEventStatus}
use seleksi2_labpro.Shared.Json.{Json, Fields, object, string, get}
use seleksi2_labpro.Server.Publisher.{
  PublisherStore, PublishPolicy, Answer, confirmed, broker_error, other_error, Surroundings,
  is_claimable, is_claimed, claim, mark_published, reschedule, send, outcome, record_failure,
  settle, publish_one, retry_delay_ms,
}

abbrev pub has_id : String → OutboxEvent → Bool
has_id id r = r.id === id

-- When the next attempt is due, after a failure of the attempt behind `n` others.
abbrev pub due_at : PublishPolicy → ℕ → ℕ → ℕ
due_at c failed_at n = failed_at + min (c.retry_base_ms * 2 ^ min n 30) c.retry_max_ms

-- The row whose publication failed with a message.
abbrev pub delayed : PublishPolicy → Surroundings → OutboxEvent → String → OutboxEvent
delayed c env r m = record r {
  publish_attempt_count = r.publish_attempt_count + 1;
  last_publish_attempt_at = some env.started_at;
  next_publish_attempt_at = some (due_at c env.finished_at r.publish_attempt_count);
  last_error = some m;
}

-- The row after a turn, by the outcome of the publication.
abbrev pub settled : PublishPolicy → Surroundings → OutboxEvent → Answer → OutboxEvent
settled c env r confirmed = record r {
  status = OutboxEventStatus.published;
  publish_attempt_count = r.publish_attempt_count + 1;
  last_publish_attempt_at = some env.started_at;
  next_publish_attempt_at = none;
  last_error = none;
  published_at = some env.finished_at;
}
settled c env r (broker_error m) = delayed c env r m
settled c env r (other_error m) = delayed c env r m

-- The same by the code's writes.
abbrev written : PublishPolicy → Surroundings → OutboxEvent → Answer → OutboxEvent
written c env r confirmed = mark_published env.finished_at (claim c env.started_at r)
written c env r (broker_error m) =
    reschedule (env.finished_at + retry_delay_ms c (r.publish_attempt_count + 1)) m
      (claim c env.started_at r)
written c env r (other_error m) =
    reschedule (env.finished_at + retry_delay_ms c (r.publish_attempt_count + 1)) m
      (claim c env.started_at r)

retry_delay-due_at : (c : PublishPolicy) (at n : ℕ) → at + retry_delay_ms c (n + 1) ≡ due_at c at n
unfolding retry_delay_ms
retry_delay-due_at c at n = let same : n + 1 - 1 ≡ n = omega arith in rw same refl

written-settled :
    (c : PublishPolicy) (env : Surroundings) (r : OutboxEvent) (a : Answer)
    → written c env r a ≡ settled c env r a
written-settled c env r confirmed = refl
written-settled c env r (broker_error m) =
    rw (retry_delay-due_at c env.finished_at r.publish_attempt_count) refl
written-settled c env r (other_error m) =
    rw (retry_delay-due_at c env.finished_at r.publish_attempt_count) refl

-- What the broker has after a turn.
abbrev pub broadcast : Answer → Json → List Json → List Json
broadcast confirmed payload sent = payload ∷ sent
broadcast (broker_error m) payload sent = sent
broadcast (other_error m) payload sent = sent

-- The broker's answer counts for an event whose payload has the row's identifier; a payload with
-- another one is not offered to the broker.
abbrev pub reported : String → OutboxEvent → Answer → Answer
reported event_id d a =
    if event_id === d.id then a else other_error "Outbox row id does not match payload eventId"

outcome-reported :
    (d : OutboxEvent) (a : Answer) (fs : Fields) (event_id : String)
    → d.payload ≡ object fs
    → get "eventId" fs ≡ some (string event_id)
    → outcome d a ≡ reported event_id d a
outcome-reported d a fs event_id payload named = rw (payload, named) refl

-- How the turn ends: the events published, and whether the batch goes on.
abbrev pub result : Answer → ℕ × Bool
result confirmed = (1, true)
result (broker_error m) = (0, false)
result (other_error m) = (0, true)

abbrev pub IsAlone : Surroundings → Type 0
IsAlone env =
    (u : PublisherStore)
    → ((env.meanwhile u).outbox_events ≡ u.outbox_events) × ((env.meanwhile u).sent ≡ u.sent)

pub record Holds (d r : OutboxEvent) (t : List OutboxEvent) : Type 0 where
  pub once : count (has_id d.id) t ≤ 1
  pub at : find_by (has_id d.id) t ≡ some r

claimable-id :
    (d : OutboxEvent) (at : ℕ) (x : OutboxEvent) → is_claimable d at x ≡ true → has_id d.id x ≡ true
claimable-id d at x h = ground arith

claimed-id : (d x : OutboxEvent) → is_claimed d x ≡ true → has_id d.id x ≡ true
claimed-id d x h = ground arith

claimed-claim :
    (c : PublishPolicy) (d : OutboxEvent) (at : ℕ) (r : OutboxEvent)
    → is_claimable d at r ≡ true
    → is_claimed d (claim c at r) ≡ true
claimed-claim c d at r h = ground arith

module _ (c : PublishPolicy) (d : OutboxEvent) (env : Surroundings) (alone : IsAlone env)
    (s : PublisherStore) (r : OutboxEvent) (holds : Holds d r s.outbox_events)
    (fits : is_claimable d env.started_at r ≡ true) where
  abbrev claimed_table : List OutboxEvent
  claimed_table =
      update_where (is_claimable d env.started_at) (claim c env.started_at) s.outbox_events

  first_write :
      WritesOne
        (has_id d.id)
        (is_claimable d env.started_at)
        (claim c env.started_at)
        s.outbox_events
        r
  first_write =
      writes_one _ _ _ s.outbox_events r (claimable-id d env.started_at) (λ x. refl) holds.once
        holds.at fits

  second_write :
      (f : OutboxEvent → OutboxEvent)
      → ((x : OutboxEvent) → has_id d.id (f x) ≡ has_id d.id x)
      → WritesOne (has_id d.id) (is_claimed d) f claimed_table (claim c env.started_at r)
  second_write f keep =
      writes_one _ _ f _ _ (claimed-id d) keep first_write.unique first_write.found
        (claimed-claim c d env.started_at r fits)

  abbrev claimed_store : PublisherStore
  claimed_store = record s { outbox_events = claimed_table }

  abbrev late : ℕ
  late = env.finished_at + retry_delay_ms c (d.publish_attempt_count + 1)

  -- What a turn leaves, by the outcome of the publication.
  abbrev Settles : Answer → Result String (ℕ × Bool) × PublisherStore → Type 0
  Settles o w =
      (w.0 ≡ ok (result o))
      × (find_by (has_id d.id) w.1.outbox_events ≡ some (written c env r o))
      × (w.1.sent ≡ broadcast o d.payload s.sent)

  answer-Settles : (o : Answer) → Settles o (settle ⦃db = reference⦄ c d env o claimed_store)
  unfolding record_failure ◌>>=◌
  answer-Settles confirmed =
      let (rows, sent) = alone (send d.payload claimed_store) in
      (
        ground (arith, rows, second_write (mark_published env.finished_at) (λ x. refl)),
        ground (arith, rows, second_write (mark_published env.finished_at) (λ x. refl)),
        sent,
      )
  answer-Settles (broker_error m) =
      let (rows, sent) = alone claimed_store in
      (refl, ground (arith, rows, second_write (reschedule late m) (λ x. refl)), sent)
  answer-Settles (other_error m) =
      let (rows, sent) = alone claimed_store in
      (refl, ground (arith, rows, second_write (reschedule late m) (λ x. refl)), sent)

  publish-Settles : Settles (outcome d env.answer) (publish_one ⦃db = reference⦄ c d env s)
  unfolding publish_one ◌>>=◌
  publish-Settles = rw first_write.counted (answer-Settles (outcome d env.answer))

module _ ⦃db : Prisma⦄ (l : IsDocumented db) where
  -- An event that can be claimed, whose payload is an object with a text as `eventId`, with nobody
  -- else writing its row or sending: if that text is the row's identifier and the broker confirms,
  -- the row is PUBLISHED, the payload is sent, and one publication is counted. Otherwise nothing is
  -- sent, and the row, unchanged in its status, is due again after the base delay, doubled for each
  -- earlier attempt up to the maximum; only an error of the broker ends the batch.
  pub publish_one_settles :
      (c : PublishPolicy) (d : OutboxEvent) (env : Surroundings) (s : PublisherStore)
      (r : OutboxEvent) (fs : Fields) (event_id : String)
      → IsAlone env
      → Holds d r s.outbox_events
      → is_claimable d env.started_at r ≡ true
      → d.payload ≡ object fs
      → get "eventId" fs ≡ some (string event_id)
      → ((publish_one c d env s).0 ≡ ok (result (reported event_id d env.answer)))
        × (find_by (has_id d.id) (publish_one c d env s).1.outbox_events
            ≡ some (settled c env r (reported event_id d env.answer)))
        × ((publish_one c d env s).1.sent
            ≡ broadcast (reported event_id d env.answer) d.payload s.sent)
  publish_one_settles c d env s r fs event_id alone holds fits payload named =
      let same = outcome-reported d env.answer fs event_id payload named in
      rw (documented l, sym (written-settled c env r (reported event_id d env.answer)))
        (subst
          (λ o. Settles c d env alone s r holds fits o (publish_one ⦃db = reference⦄ c d env s))
          same (publish-Settles c d env alone s r holds fits))
