-- ===== src/Worker/Consumer/Settling.antt =====
-- Each message is settled at most once, however its processing and the shutdown interleave
-- (rabbitmq-consumer.service.ts).
use seleksi2_labpro.Prelude.{
  ℕ, ◌+◌, ◌≤◌, ◌≡◌, refl, Bool, true, false, not, ◌&&◌, List, [], ◌∷◌, ◌==◌, if◌then◌else◌, arith,
  Result, ok, err, any, count, filter, Bool-cases, inl, inr,
}
use seleksi2_labpro.Worker.Store.{WorkerError}
use seleksi2_labpro.Worker.Consumer.{
  Settlement, ack, requeue, settlement_of, ActiveDelivery, ConsumerState, initial, is_unsettled,
  mark, tell, settle, conclude, receive, forget, requeue_all, shut_down, Event, received, concluded,
  forgotten, shut, step, run,
}

-- How often the broker was told of a message.
abbrev pub times_settled : ℕ → ConsumerState → ℕ
times_settled tag s = count (λ (p : ℕ × Settlement). p.0 == tag) s.settlements

abbrev open_count : ℕ → List ActiveDelivery → ℕ
open_count tag ds = count (is_unsettled tag) ds

-- How often the broker was or may still be told of it.
abbrev weight : ℕ → ConsumerState → ℕ
weight tag s = times_settled tag s + open_count tag s.active_deliveries

record Shrinks (s s' : ConsumerState) : Type 0 where
  next : s'.next_tag ≡ s.next_tag
  less : (t : ℕ) → weight t s' ≤ weight t s

open_mark_same : (tag : ℕ) (ds : List ActiveDelivery) → open_count tag (mark tag ds) ≡ 0
unfolding mark count
open_mark_same tag [] = refl
open_mark_same tag (d ∷ ds) = ground (arith, open_mark_same tag ds)

open_mark_le : (t tag : ℕ) (ds : List ActiveDelivery) → open_count t (mark tag ds) ≤ open_count t ds
unfolding mark count
open_mark_le t tag [] = omega arith
open_mark_le t tag (d ∷ ds) = ground (arith, open_mark_le t tag ds)

open_any :
    (tag : ℕ) (ds : List ActiveDelivery) → any (is_unsettled tag) ds ≡ true → 1 ≤ open_count tag ds
unfolding any count
open_any tag [] h = ground arith
open_any tag (d ∷ ds) h = ground (arith, open_any tag ds)

open_filter :
    (t tag : ℕ) (ds : List ActiveDelivery)
    → open_count t (filter (λ d. not (d.tag == tag && d.settled)) ds) ≤ open_count t ds
unfolding filter count
open_filter t tag [] = omega arith
open_filter t tag (d ∷ ds) = ground (arith, open_filter t tag ds)

told_le :
    (works : Bool) (t tag : ℕ) (k : Settlement) (told : List (ℕ × Settlement))
    (ds : List ActiveDelivery)
    → 1 ≤ open_count tag ds
    → count (λ (p : ℕ × Settlement). p.0 == t) (tell works tag k told) + open_count t (mark tag ds)
      ≤ count (λ (p : ℕ × Settlement). p.0 == t) told + open_count t ds
unfolding count
told_le true t tag k told ds h = ground (arith, open_mark_same tag ds, open_mark_le t tag ds)
told_le false t tag k told ds h = omega (arith, open_mark_le t tag ds)

Shrinks-refl : (s : ConsumerState) → Shrinks s s
Shrinks-refl s = record { next = refl; less = λ t. omega arith }

Shrinks-trans : (s u v : ConsumerState) → Shrinks s u → Shrinks u v → Shrinks s v
Shrinks-trans s u v h k = record {
  next = ground (arith, h.next, k.next);
  less = λ t. omega (arith, h.less t, k.less t);
}

settle-Shrinks :
    (works : Bool) (tag : ℕ) (k : Settlement) (s : ConsumerState) → Shrinks s (settle works tag k s)
unfolding settle
settle-Shrinks works tag k s = elim (Bool-cases (any (is_unsettled tag) s.active_deliveries)) [
  | inl found ↦ rw found (record {
    next = refl;
    less = λ t.
        told_le works t tag k s.settlements s.active_deliveries
          (open_any tag s.active_deliveries found);
  })
  | inr missing ↦ rw missing (Shrinks-refl s)
]

conclude-Shrinks :
    (works : Bool) (tag : ℕ) (r : Result WorkerError (Unit {0})) (s : ConsumerState)
    → Shrinks s (conclude works tag r s)
unfolding conclude
conclude-Shrinks true tag (ok u) s = settle-Shrinks true tag ack s
conclude-Shrinks false tag (ok u) s =
    Shrinks-trans s _ _ (settle-Shrinks false tag ack s) (settle-Shrinks false tag requeue _)
conclude-Shrinks works tag (err e) s = settle-Shrinks works tag (settlement_of e) s

forget-Shrinks : (tag : ℕ) (s : ConsumerState) → Shrinks s (forget tag s)
unfolding forget
forget-Shrinks tag s = record {
  next = refl;
  less = λ t. omega (arith, open_filter t tag s.active_deliveries);
}

requeue_all-Shrinks :
    (works : ℕ → Bool) (ds : List ActiveDelivery) (s : ConsumerState)
    → Shrinks s (requeue_all works ds s)
unfolding requeue_all
requeue_all-Shrinks works [] s = Shrinks-refl s
requeue_all-Shrinks works (d ∷ ds) s =
    Shrinks-trans s _ _ (one d.settled) (requeue_all-Shrinks works ds _)
  where
    one : (b : Bool) → Shrinks s (if b then s else settle (works d.tag) d.tag requeue s)
    one true = Shrinks-refl s
    one false = settle-Shrinks (works d.tag) d.tag requeue s

shut_down-Shrinks :
    (drained : Bool) (works : ℕ → Bool) (s : ConsumerState) → Shrinks s (shut_down drained works s)
unfolding shut_down
shut_down-Shrinks true works s = Shrinks-refl s
shut_down-Shrinks false works s = requeue_all-Shrinks works s.active_deliveries s

-- Every message has been or may be settled once, and those that have not come yet not at all.
pub record IsConsistent (s : ConsumerState) : Type 0 where
  pub once : (t : ℕ) → weight t s ≤ 1
  pub fresh : (t : ℕ) → s.next_tag ≤ t → weight t s ≡ 0

Shrinks-IsConsistent : (s u : ConsumerState) → Shrinks s u → IsConsistent s → IsConsistent u
Shrinks-IsConsistent s u h k = record {
  once = λ t. omega (arith, h.less t, k.once t);
  fresh = λ t below. omega (arith, h.less t, h.next, k.fresh t);
}

receive-IsConsistent : (s : ConsumerState) → IsConsistent s → IsConsistent (receive s)
unfolding receive count
receive-IsConsistent s k = record {
  once = λ t. ground (arith, k.once t, k.fresh t);
  fresh = λ t below. ground (arith, k.fresh t);
}

-- Receiving, concluding and forgetting a message and shutting down keep the invariant.
pub step-IsConsistent : (e : Event) (s : ConsumerState) → IsConsistent s → IsConsistent (step e s)
unfolding step
step-IsConsistent received s k = receive-IsConsistent s k
step-IsConsistent (concluded works tag r) s k =
    Shrinks-IsConsistent s _ (conclude-Shrinks works tag r s) k
step-IsConsistent (forgotten tag) s k = Shrinks-IsConsistent s _ (forget-Shrinks tag s) k
step-IsConsistent (shut drained works) s k =
    Shrinks-IsConsistent s _ (shut_down-Shrinks drained works s) k

run-IsConsistent :
    (events : List Event) (s : ConsumerState) → IsConsistent s → IsConsistent (run events s)
unfolding run
run-IsConsistent [] s k = k
run-IsConsistent (e ∷ events) s k = run-IsConsistent events _ (step-IsConsistent e s k)

initial-IsConsistent : IsConsistent initial
unfolding count
initial-IsConsistent = record { once = λ t. omega arith; fresh = λ t h. refl }

-- In every history of the consumer, from its start, the broker is told of each message at most
-- once: the message is acknowledged, requeued or dead-lettered, and nothing more.
pub settled_once : (events : List Event) (tag : ℕ) → times_settled tag (run events initial) ≤ 1
settled_once events tag =
    omega (arith, (run-IsConsistent events initial initial-IsConsistent).once tag)
