-- ===== src/Server/Outbox/Appended.antt =====
-- What `enqueueMany` of outbox-event.service.ts does to the tables: one row for each event, in order.
use seleksi2_labpro.Prelude.{◌≡◌, refl, ap, ◌∙◌, sym, List, [], ◌∷◌, ◌++◌, map}
use seleksi2_labpro.Database.{reference}
use seleksi2_labpro.Schema.Events.{OutboxEvent}
use seleksi2_labpro.Shared.Event.{RevocationEvent}
use seleksi2_labpro.Server.Store.{ServerStore}
use seleksi2_labpro.Server.Runtime.{Runtime}
use seleksi2_labpro.Server.Outbox.{enqueue_all, outbox_row}

append_step {ℓ} :
    {A : Type ℓ} (xs : List A) (y : A) (ys : List A) → (xs ++ y ∷ []) ++ ys ≡ xs ++ y ∷ ys
append_step [] y ys = refl
append_step (x ∷ xs) y ys = ap (λ zs. x ∷ zs) (append_step xs y ys)

append_none {ℓ} : {A : Type ℓ} (xs : List A) → xs ++ [] ≡ xs
append_none [] = refl
append_none (x ∷ xs) = ap (λ zs. x ∷ zs) (append_none xs)

pub enqueue_all_lem :
    (rt : Runtime) (events : List RevocationEvent) (s : ServerStore)
    → enqueue_all ⦃db = reference⦄ rt events s
      ≡ record s { outbox_events = s.outbox_events ++ map outbox_row events }
unfolding enqueue_all
enqueue_all_lem rt [] s =
    ap (λ (t : List OutboxEvent). record s { outbox_events = t })
      (sym (append_none s.outbox_events))
enqueue_all_lem rt (e ∷ events) s =
    enqueue_all_lem rt events _
    ∙ ap (λ (t : List OutboxEvent). record s { outbox_events = t })
        (append_step s.outbox_events (outbox_row e) (map outbox_row events))
