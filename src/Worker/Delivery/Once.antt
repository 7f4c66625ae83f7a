-- ===== src/Worker/Delivery/Once.antt =====
-- One claim of a delivery excludes every other on the same reading of it (revocation-delivery.service.ts).
use seleksi2_labpro.Prelude.{
  ℕ, ◌≤◌, String, ◌≡◌, subst, true, false, some, List, [], ◌∷◌, arith, Bool-cases, inl, inr, ok,
  ◌>>=◌, count, find_by, ◌===◌,
}
use seleksi2_labpro.Database.{Prisma, reference, IsDocumented, documented}
use seleksi2_labpro.Database.Rows.{writes_none, update_where-none}
use seleksi2_labpro.Schema.Events.{EventDelivery}
use seleksi2_labpro.Worker.Store.{WorkerStore, update_deliveries}
use seleksi2_labpro.Worker.Delivery.{
  RetryPolicy, Candidate, Surroundings, is_claimable, claim, deliver,
}
use seleksi2_labpro.Worker.Delivery.Machine.{Steps, Evolves, row, Keeps, Steps-Keeps}
use seleksi2_labpro.Worker.Delivery.Evolution.{Progress}
use seleksi2_labpro.Worker.Delivery.Outcome.{
  has_id, Holds, claimed_table, claim_writes, claimable-id,
}

-- The row of an identifier is the same row later on.
find_by-Evolves :
    (id : String) (t u : List EventDelivery) (r : EventDelivery)
    → Evolves t u
    → find_by (has_id id) t ≡ some r
    → (r' : EventDelivery) × (find_by (has_id id) u ≡ some r') × Steps r r'
unfolding find_by
find_by-Evolves id [] u r p e = cc
find_by-Evolves id (x ∷ t) [] r p e = elim p [ ]
find_by-Evolves id (x ∷ t) (x' ∷ u) r (row st rest) e = elim (Bool-cases (x.id === id)) [
  | inl hit ↦
      let same : x ≡ r = ground arith in
      (x', ground (arith, Steps-Keeps st), subst (λ y. Steps y x') same st)
  | inr miss ↦
      let (r', found, steps) = find_by-Evolves id t u r rest (ground arith) in
      (r', ground (arith, Steps-Keeps st), steps)
]

later_not_claimable :
    (d : Candidate) (at later : ℕ) (r r' : EventDelivery)
    → is_claimable d at r ≡ true
    → Keeps (claim at r) r'
    → is_claimable d later r' ≡ false
later_not_claimable d at later r r' fits k = ground (arith, k)

module _ (c : RetryPolicy) (d : Candidate) (at : ℕ) (env : Surroundings) (s s' : WorkerStore)
    (r : EventDelivery) (holds : Holds d r s.event_deliveries) (fits : is_claimable d at r ≡ true)
    (once : count (has_id d.id) s'.event_deliveries ≤ 1)
    (later : Evolves (claimed_table d at s.event_deliveries) s'.event_deliveries) where
  nothing_claimed : count (is_claimable d env.attempted_at) s'.event_deliveries ≡ 0
  nothing_claimed =
      let w = claim_writes d at s.event_deliveries r holds fits in
      let (r', found, steps) = find_by-Evolves d.id _ _ _ later w.found in
      writes_none _ _ _ r' (claimable-id d env.attempted_at) once found
        (later_not_claimable d at env.attempted_at r r' fits (Steps-Keeps steps))

  deliver_idle : deliver ⦃db = reference⦄ c d env s' ≡ (ok tt, s')
  unfolding deliver ◌>>=◌
  deliver_idle = ground (
    arith,
    nothing_claimed,
    update_where-none (is_claimable d env.attempted_at) (claim env.attempted_at)
        s'.event_deliveries,
  )

module _ ⦃db : Prisma⦄ (l : IsDocumented db) where
  -- Once one worker has claimed a delivery, a worker that read the same state of it sends nothing
  -- and changes nothing, at any later time.
  pub deliver_once :
      (c : RetryPolicy) (d : Candidate) (at : ℕ) (env : Surroundings) (s s' : WorkerStore)
      (r : EventDelivery)
      → Holds d r s.event_deliveries
      → is_claimable d at r ≡ true
      → count (has_id d.id) s'.event_deliveries ≤ 1
      → Progress (update_deliveries (is_claimable d at) (claim at) s).1 s'
      → deliver c d env s' ≡ (ok tt, s')
  unfolding update_deliveries
  deliver_once c d at env s s' r holds fits once later =
      rw (documented l)
        (deliver_idle c d at env s s' r holds fits once (rw (documented l) at later))
