-- ===== src/App/Internal/Answers.antt =====
-- How the endpoint answers (route.ts): refused requests leave no trace, and bodies are bounded.
use seleksi2_labpro.Prelude.{
  ℕ, ◌≡◌, ◌≢◌, ◌≤◌, ◌+◌, ◌*◌, ◌⊎◌, inl, inr, refl, ap, ◌∙◌, String, List, [], ◌∷◌, Option, none,
  some, Result, ok, err, Bool-cases, Option-cases, find_by, arith, ◌>>=◌, any, ltb, length,
}
use seleksi2_labpro.Database.{Prisma, reference, IsDocumented, documented}
use seleksi2_labpro.Database.Rows.{find_by-any}
use seleksi2_labpro.Shared.Json.{Json}
use seleksi2_labpro.Shared.Event.{RevocationEvent}
use seleksi2_labpro.App.Store.{AppStore, AppError, ProcessedEvent}
use seleksi2_labpro.App.Logout.{
  ProcessingState, Surroundings, reading, process, process_by, is_event, replay,
}
use seleksi2_labpro.App.Logout.Effect.{process_by-new, process_by-clash}
use seleksi2_labpro.App.Logout.Once.{replay_lem, replay_known_lem}
use seleksi2_labpro.App.Internal.{
  AppRuntime, InternalRequest, PayloadError, max_payload_bytes, read_chunks, read_json_payload,
  answer, post, post_event, post_payload, is_internal_service_authorized, with_text, parsed,
  is_json, is_declared_too_large,
}

-- What a handler of the endpoint has written, in a store that others may have written in.
abbrev pub IsUntouched : Surroundings → AppStore → AppStore → Type 0
IsUntouched env s s' = (s' ≡ s) ⊎ (s' ≡ env.meanwhile s)

module _ (rt : AppRuntime) (now : ℕ) (env : Surroundings) where
  replay-untouched :
      (e : RevocationEvent) (h : String) (r : ProcessedEvent) (s : AppStore)
      → (replay ⦃db = reference⦄ e h r s).1 ≡ s
  replay-untouched e h r s = ap (λ w. w.1) (replay_lem e h r s)

  process_by-err :
      (e : RevocationEvent) (h : String) (s : AppStore) (x : AppError)
      → (process_by ⦃db = reference⦄ rt.to_text e h now env none s).0 ≡ err x
      → (process_by ⦃db = reference⦄ rt.to_text e h now env none s).1 ≡ env.meanwhile s
  process_by-err e h s x failed =
      elim (Bool-cases (any (is_event e.event_id) (env.meanwhile s).processed_events)) [
        | inl seen ↦
            let (r, found) =
              find_by-any (is_event e.event_id) (env.meanwhile s).processed_events seen in
            elim (process_by-clash rt.to_text e h now env s r found) [
              | inl same ↦ ap (λ w. w.1) same ∙ replay-untouched e h r (env.meanwhile s)
              | inr failure ↦ ap (λ w. w.1) failure
            ]
        | inr fresh ↦ elim (process_by-new rt.to_text e h now env s fresh) [
          | inl (same, applied) ↦ ground (arith, same)
          | inr failure ↦ ap (λ w. w.1) failure
        ]
      ]

  -- Behind the first reading.
  read-err :
      (e : RevocationEvent) (h : String) (s : AppStore) (x : AppError)
      → (o : Option ProcessedEvent)
      → (process_by ⦃db = reference⦄ rt.to_text e h now env o s).0 ≡ err x
      → IsUntouched env s (process_by ⦃db = reference⦄ rt.to_text e h now env o s).1
  unfolding process_by
  read-err e h s x none failed = inr (process_by-err e h s x failed)
  read-err e h s x (some r) failed = inl (ap (λ w. w.1) (replay_known_lem e h env.fails r s))

  process-err :
      (e : RevocationEvent) (s : AppStore) (x : AppError)
      → (process ⦃db = reference⦄ rt.sha256_hex rt.to_text e now env s).0 ≡ err x
      → IsUntouched env s (process ⦃db = reference⦄ rt.sha256_hex rt.to_text e now env s).1
  unfolding process ◌>>=◌
  process-err e s x = elim (Bool-cases (env.fails reading)) [
    | inl broken ↦ λ failed. inl (rw broken refl)
    | inr works ↦ rw works (read-err e _ s x (find_by (is_event e.event_id) s.processed_events))
  ]

  answered :
      (e : RevocationEvent) (w : Result AppError ProcessingState × AppStore) (s : AppStore)
      → ((x : AppError) → w.0 ≡ err x → IsUntouched env s w.1)
      → (answer e w.0).status ≢ 200
      → IsUntouched env s w.1
  unfolding answer
  answered e (ok a, t) s k other = absurd (other refl)
  answered e (err x, t) s k other = k x refl

  post_event-refused :
      (o : Option RevocationEvent) (s : AppStore)
      → (post_event ⦃db = reference⦄ rt now env o s).0.status ≢ 200
      → IsUntouched env s (post_event ⦃db = reference⦄ rt now env o s).1
  unfolding post_event
  post_event-refused none s other = inl refl
  post_event-refused (some e) s other = answered e _ s (process-err e s) other

  post_payload-refused :
      (v : Result PayloadError Json) (s : AppStore)
      → (post_payload ⦃db = reference⦄ rt now env v s).0.status ≢ 200
      → IsUntouched env s (post_payload ⦃db = reference⦄ rt now env v s).1
  unfolding post_payload
  post_payload-refused (err e) s other = inl refl
  post_payload-refused (ok v) s other = post_event-refused _ s other

  post-refused :
      (secret : String) (request : InternalRequest) (s : AppStore)
      → (post ⦃db = reference⦄ rt now env secret request s).0.status ≢ 200
      → IsUntouched env s (post ⦃db = reference⦄ rt now env secret request s).1
  unfolding post
  post-refused secret request s other =
      elim (Bool-cases (is_internal_service_authorized rt request.authorization secret)) [
        | inl known ↦
            rw known (post_payload-refused (read_json_payload rt request) s (rw known at other))
        | inr unknown ↦ rw unknown (inl refl)
      ]

-- All the bytes that the reads give.
unfoldable pub body_bytes : List (Option (List ℕ)) → ℕ
body_bytes [] = 0
body_bytes (none ∷ rest) = body_bytes rest
body_bytes (some chunk ∷ rest) = length chunk + body_bytes rest

with_text-ok :
    (t u : String) (r : Result PayloadError String)
    → with_text t r ≡ ok u
    → (v : String) × (r ≡ ok v)
with_text-ok t u (ok v) x = (v, refl)
with_text-ok t u (err e) x = ground arith

module _ (rt : AppRuntime) where
  read_chunks-bounded :
      (received : ℕ) (held : List ℕ) (body : List (Option (List ℕ))) (t : String)
      → received ≤ max_payload_bytes
      → read_chunks rt received held body ≡ ok t
      → received + body_bytes body ≤ max_payload_bytes
  unfolding read_chunks body_bytes
  read_chunks-bounded received held [] t h x = omega arith
  read_chunks-bounded received held (none ∷ rest) t h x = ground arith
  read_chunks-bounded received held (some chunk ∷ rest) t h x =
      elim (Bool-cases (ltb max_payload_bytes (received + length chunk))) [
        | inl large ↦ ground arith
        | inr small ↦ elim (Option-cases (rt.decode held chunk)) [
          | inl garbled ↦ ground arith
          | inr ((u, held'), decoded) ↦
              let (v, more) =
                with_text-ok u t (read_chunks rt (received + length chunk) held' rest)
                  (rw (small, decoded) at x) in
              let k : received + length chunk ≤ max_payload_bytes = ground arith in
              omega (arith, read_chunks-bounded (received + length chunk) held' rest v k more)
        ]
      ]

  accepted_body :
      (v : Result PayloadError String) (x : Json) → parsed rt v ≡ ok x → (t : String) × (v ≡ ok t)
  accepted_body (ok t) x h = (t, refl)
  accepted_body (err e) x h = ground arith

  -- A body that `readJsonPayload` accepts, whatever length was declared for it, is 16 KiB long at
  -- most, all chunks that were sent counted.
  pub read_json_payload_bounds :
      (request : InternalRequest) (v : Json)
      → read_json_payload rt request ≡ ok v
      → body_bytes request.body ≤ 16 * 1024
  unfolding read_json_payload
  read_json_payload_bounds request v x = elim (Bool-cases (is_json rt request.content_type)) [
    | inl json ↦ elim (Bool-cases (is_declared_too_large request.content_length)) [
      | inl large ↦ ground arith
      | inr small ↦
          let (t, read) =
            accepted_body (read_chunks rt 0 [] request.body) v (rw (json, small) at x) in
          omega (arith, read_chunks-bounded 0 [] request.body t (omega arith) read)
    ]
    | inr other ↦ ground arith
  ]

module _ ⦃db : Prisma⦄ (l : IsDocumented db) where
  -- A request that is not answered with the status 200, whatever is wrong with it (its credentials,
  -- its media type, its size, its event, a conflict or an error of the database), has written
  -- nothing: the store is as the request found it, or as others left it meanwhile.
  pub post_refused :
      (rt : AppRuntime) (now : ℕ) (env : Surroundings) (secret : String) (request : InternalRequest)
      (s : AppStore)
      → (post rt now env secret request s).0.status ≢ 200
      → IsUntouched env s (post rt now env secret request s).1
  post_refused rt now env secret request s other =
      rw (documented l) (post-refused rt now env secret request s (rw (documented l) at other))
