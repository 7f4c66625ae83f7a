-- ===== src/Worker/Delivery/Machine.antt =====
-- The life of one delivery in revocation-delivery.service.ts: what the conditional writes may do to a
-- row of `event_deliveries`, and to the whole table.
use seleksi2_labpro.Prelude.{
  find_by, ◌===◌, some, inl, inr, Bool-cases, ℕ, ◌≤◌, String, ◌≡◌, refl, sym, ◌∙◌, subst, ◌⊎◌, List,
  [], ◌∷◌, arith, Bool, true, false, if◌then◌else◌, update_where,
}
use seleksi2_labpro.Schema.Events.{EventDelivery, pending, processing, succeeded, retrying, failed}
use seleksi2_labpro.Worker.Delivery.{claim, schedule, succeed, recover, reserve, fail}

-- One write, from the states in which the code allows it.
pub data Step (r r' : EventDelivery) : Type 0 where
  keep : r' ≡ r → Step r r'
  claims : (at : ℕ) → (r.status ≡ pending) ⊎ (r.status ≡ retrying) → r' ≡ claim at r → Step r r'
  schedules : (at : ℕ) (m : String) → r.status ≡ processing → r' ≡ schedule at m r → Step r r'
  succeeds : (at : ℕ) → r.status ≡ processing → r' ≡ succeed at r → Step r r'
  recovers : (at : ℕ) → r.status ≡ processing → r' ≡ recover at r → Step r r'
  reserves : (at : ℕ) → r.status ≡ retrying → r' ≡ reserve at r → Step r r'
  fails : r.status ≡ processing → r' ≡ fail r → Step r r'

pub data Steps (r : EventDelivery) : EventDelivery → Type 0 where
  here : Steps r r
  next : {s t : EventDelivery} → Steps r s → Step s t → Steps r t

pub Steps-trans : {r s t : EventDelivery} → Steps r s → Steps s t → Steps r t
Steps-trans p here = p
Steps-trans p (next q st) = next (Steps-trans p q) st

-- A table in which each row went through steps; rows may have been added behind or before.
pub data Evolves : List EventDelivery → List EventDelivery → Type 0 where
  done : {u : List EventDelivery} → Evolves [] u
  row :
      {r r' : EventDelivery} {t t' : List EventDelivery}
      → Steps r r'
      → Evolves t t'
      → Evolves (r ∷ t) (r' ∷ t')

-- What no step changes or takes back.
pub record Keeps (r r' : EventDelivery) : Type 0 where
  pub id : r'.id ≡ r.id
  pub event_id : r'.event_id ≡ r.event_id
  pub application_id : r'.application_id ≡ r.application_id
  pub attempts : r.attempt_count ≤ r'.attempt_count

abbrev pub IsTerminal : EventDelivery → Type 0
IsTerminal r = (r.status ≡ succeeded) ⊎ (r.status ≡ failed)

Step-Keeps : {r r' : EventDelivery} → Step r r' → Keeps r r'
Step-Keeps (keep e) = ground arith
Step-Keeps (claims at from e) = ground arith
Step-Keeps (schedules at m from e) = ground arith
Step-Keeps (succeeds at from e) = ground arith
Step-Keeps (recovers at from e) = ground arith
Step-Keeps (reserves at from e) = ground arith
Step-Keeps (fails from e) = ground arith

Step-terminal : {r r' : EventDelivery} → Step r r' → IsTerminal r → r' ≡ r
Step-terminal (keep e) h = e
Step-terminal (claims at from e) h = ground arith
Step-terminal (schedules at m from e) h = ground arith
Step-terminal (succeeds at from e) h = ground arith
Step-terminal (recovers at from e) h = ground arith
Step-terminal (reserves at from e) h = ground arith
Step-terminal (fails from e) h = ground arith

pub Steps-Keeps : {r r' : EventDelivery} → Steps r r' → Keeps r r'
Steps-Keeps here = ground arith
Steps-Keeps (next p st) = ground (arith, Steps-Keeps p, Step-Keeps st)

-- A delivery that succeeded or failed never changes again.
pub Steps-terminal : {r r' : EventDelivery} → Steps r r' → IsTerminal r → r' ≡ r
Steps-terminal here h = refl
Steps-terminal {r} (next {s} {t} p st) h =
    let same = Steps-terminal p h in Step-terminal st (subst IsTerminal (sym same) h) ∙ same

pub Evolves-refl : (t : List EventDelivery) → Evolves t t
Evolves-refl [] = done
Evolves-refl (r ∷ t) = row here (Evolves-refl t)

pub Evolves-trans : {t u v : List EventDelivery} → Evolves t u → Evolves u v → Evolves t v
Evolves-trans done q = done
Evolves-trans (row p ps) (row q qs) = row (Steps-trans p q) (Evolves-trans ps qs)

Step-if :
    (b : Bool) (r : EventDelivery) (r' : EventDelivery)
    → (b ≡ true → Step r r')
    → Step r (if b then r' else r)
Step-if true r r' h = h refl
Step-if false r r' h = keep refl

-- A conditional write whose condition implies that the step is allowed.
pub Evolves-update_where :
    (p : EventDelivery → Bool) (f : EventDelivery → EventDelivery) (t : List EventDelivery)
    → ((r : EventDelivery) → p r ≡ true → Step r (f r))
    → Evolves t (update_where p f t)
unfolding update_where
Evolves-update_where p f [] h = done
Evolves-update_where p f (r ∷ t) h =
    row (next here (Step-if (p r) r (f r) (h r))) (Evolves-update_where p f t h)

-- The row of an identifier, after steps, is the one before or came from it by steps.
Evolves-find :
    (id : String) (r : EventDelivery) {t u : List EventDelivery}
    → Evolves t u
    → find_by (λ (x : EventDelivery). x.id === id) t ≡ some r
    → (r' : EventDelivery) × (find_by (λ (x : EventDelivery). x.id === id) u ≡ some r') × Steps r r'
unfolding find_by
Evolves-find id r done found = ground arith
Evolves-find id r (row {r = x} {r' = x'} p ps) found = elim (Bool-cases (x.id === id)) [
  | inl hit ↦
      let here : x ≡ r = ground arith in
      (x', rw ((Steps-Keeps p).id, hit) refl, subst (λ y. Steps y x') here p)
  | inr miss ↦
      let (r', there, q) = Evolves-find id r ps (rw miss at found) in
      (r', rw ((Steps-Keeps p).id, miss) there, q)
]

pub Evolves-terminal :
    (id : String) (r : EventDelivery) {t u : List EventDelivery}
    → IsTerminal r
    → Evolves t u
    → find_by (λ (x : EventDelivery). x.id === id) t ≡ some r
    → find_by (λ (x : EventDelivery). x.id === id) u ≡ some r
Evolves-terminal id r {t} {u} over y found =
    let (r', there, p) = Evolves-find id r y found in
    subst (λ x. find_by (λ (z : EventDelivery). z.id === id) u ≡ some x) (Steps-terminal p over)
      there
