-- ===== src/SingleLogout.antt =====
-- From a logout at the auth provider to the end of the application's session: auth.service.ts and
-- outbox-event.service.ts of auth-provider/server/src, packages/shared/src/index.ts, and route.ts and
-- logout-processor.ts of applications/app-a/src.
mod Tests
use seleksi2_labpro.Prelude.{
  ℕ, ◌≡◌, ◌≢◌, ◌≤◌, refl, ap, sym, subst, ◌∙◌, String, Bool, true, false, ◌&&◌, List, [], ◌∷◌, ◌++◌,
  Option, none, some, Result, ok, find_by, any, count, same_text, arith, ◌>>=◌,
}
use seleksi2_labpro.Database.{Prisma, reference, reference-IsDocumented, IsDocumented, documented}
use seleksi2_labpro.Schema.Events.{OutboxEvent, OutboxEventStatus}
use seleksi2_labpro.Schema.Sessions.{SsoSession}
use seleksi2_labpro.Shared.Json.{Json, null, object, is_json_value}
use seleksi2_labpro.Shared.Pattern.{is_reason, is_trimmed}
use seleksi2_labpro.Shared.Event.{RevocationEvent, parse_revocation_event, to_json}
use seleksi2_labpro.Shared.Event.WellFormed.{IsId, IsWellFormed}
use seleksi2_labpro.Shared.Event.RoundTrip.{IsCanonicalDate, parse_revocation_event-to_json}
use seleksi2_labpro.Server.Store.{ServerStore}
use seleksi2_labpro.Server.Runtime.{Runtime, Settings, Call, hash_secret}
use seleksi2_labpro.Server.Outbox.{event_of, outbox_row}
use seleksi2_labpro.Server.Auth.{logout, logout_event, is_session_hash, is_unrevoked}
use seleksi2_labpro.Server.Auth.Logout.{logout-outbox}
use seleksi2_labpro.App.Store.{AppStore, LocalSession}
use seleksi2_labpro.App.Session.{active, ActiveProfile, ActiveSession, resolve, is_session_token}
use seleksi2_labpro.App.Logout.{
  Surroundings, DatabaseCall, reading, creating, revoking, logging, recording, committing,
  processed, process, process_by, create_internal_logout_plan, is_event, is_planned, plan_of_type,
}
use seleksi2_labpro.App.Logout.Effect.{process_by-works}
use seleksi2_labpro.App.Logout.Ends.{process_ends}
use seleksi2_labpro.Shared.Canonical.{fingerprint}
use seleksi2_labpro.App.Internal.{
  AppRuntime, InternalRequest, post, post_payload, post_event, answer, read_json_payload,
  is_internal_service_authorized,
}
use seleksi2_labpro.App.History.{History}

logout_event-IsWellFormed :
    (rt : Runtime) (c : Call) (r : SsoSession)
    → IsId c.fresh_id
    → IsId r.user_id
    → IsId r.id
    → IsWellFormed (event_of rt (c.fresh_id, logout_event c r))
unfolding is_trimmed is_reason is_json_value
logout_event-IsWellFormed rt c r id user session = record {
  event_id = id;
  user_id = user;
  central_session_id = session;
  application_id = tt;
  trimmed = refl;
  reason = refl;
  metadata = refl;
  scope = refl;
}

-- The payload that was added last.
abbrev pub newest : List OutboxEvent → Json
newest [] = null
newest (r ∷ []) = r.payload
newest (r ∷ q ∷ rs) = newest (q ∷ rs)

newest-snoc : (rs : List OutboxEvent) (r : OutboxEvent) → newest (rs ++ r ∷ []) ≡ r.payload
newest-snoc [] r = refl
newest-snoc (q ∷ []) r = refl
newest-snoc (q ∷ p ∷ rs) r = newest-snoc (p ∷ rs) r

module _ (rt : AppRuntime) (now : ℕ) (env : Surroundings) (e : RevocationEvent) (s : AppStore) where
  -- A new event is processed, if the database answers.
  process-new :
      find_by (is_event e.event_id) s.processed_events ≡ none
      → any (is_event e.event_id) (env.meanwhile s).processed_events ≡ false
      → ((k : DatabaseCall) → env.fails k ≡ false)
      → (process ⦃db = reference⦄ rt.sha256_hex rt.to_text e now env s).0 ≡ ok processed
  unfolding process ◌>>=◌
  process-new unseen fresh calm =
      rw
        (
          calm reading,
          unseen,
          process_by-works rt.to_text e (fingerprint rt.sha256_hex e) now env s fresh (record {
            creates = calm creating;
            revokes = calm revoking;
            logs = ground (arith, calm logging);
            records = calm recording;
            commits = calm committing;
          }),
        )
        refl

  post-process :
      (secret : String) (request : InternalRequest)
      → is_internal_service_authorized rt request.authorization secret ≡ true
      → read_json_payload rt request ≡ ok (to_json e)
      → IsWellFormed e
      → IsCanonicalDate rt.to_iso e.occurred_at
      → post ⦃db = reference⦄ rt now env secret request s
        ≡ post_event ⦃db = reference⦄ rt now env (some e) s
  unfolding post post_payload
  post-process secret request known body w date =
      rw (known, body, parse_revocation_event-to_json rt.to_iso e w date) refl

planned :
    (rt : Runtime) (c : Call) (r : SsoSession) (x : LocalSession)
    → x.external_user_id ≡ r.user_id
    → x.central_session_id ≡ r.id
    → is_planned (create_internal_logout_plan (event_of rt (c.fresh_id, logout_event c r))) x ≡ true
unfolding is_planned create_internal_logout_plan plan_of_type
planned rt c r x user session =
    rw (user, session) (ground (arith, same_text r.user_id, same_text r.id))

-- The local session of an application that a central session's user was signed in to.
pub record IsSignedIn (r : SsoSession) (x : LocalSession) : Type 0 where
  pub user : x.external_user_id ≡ r.user_id
  pub session : x.central_session_id ≡ r.id

-- The application has not seen the event, nor do others process it meanwhile, and its database
-- answers.
pub record IsNew (id : String) (env : Surroundings) (s : AppStore) : Type 0 where
  pub unseen : find_by (is_event id) s.processed_events ≡ none
  pub fresh : any (is_event id) (env.meanwhile s).processed_events ≡ false
  pub calm : (k : DatabaseCall) → env.fails k ≡ false

-- A logout of the session `r` with the identifiers that the databases and the engine write.
pub record IsRegular (rt : Runtime) (art : AppRuntime) (c : Call) (r : SsoSession) : Type 0 where
  pub event_id : IsId c.fresh_id
  pub user_id : IsId r.user_id
  pub session_id : IsId r.id
  pub date : IsCanonicalDate art.to_iso (rt.to_iso c.now)

-- The endpoint takes the credentials and reads the payload from the body.
pub record Delivers (art : AppRuntime) (secret : String) (request : InternalRequest)
    (payload : Json) : Type 0 where
  pub known : is_internal_service_authorized art request.authorization secret ≡ true
  pub body : read_json_payload art request ≡ ok payload

-- The row tells of the session's end.
pub record Announces (r : SsoSession) (row : OutboxEvent) : Type 0 where
  pub event_type : row.event_type ≡ "SessionRevoked"
  pub user : row.user_id ≡ r.user_id
  pub session : row.central_session_id ≡ some r.id
  pub status : row.status ≡ OutboxEventStatus.pending

module _ (rt : Runtime) (cfg : Settings) (c : Call) (r : SsoSession) (art : AppRuntime) where
  abbrev event : RevocationEvent
  event = event_of rt (c.fresh_id, logout_event c r)

  module _ (now : ℕ) (env : Surroundings) (secret : String) (request : InternalRequest)
      (s : AppStore) where
    post-processed :
        IsRegular rt art c r
        → Delivers art secret request (to_json event)
        → IsNew c.fresh_id env s
        → ((post ⦃db = reference⦄ art now env secret request s).0.status ≡ 200)
          × ((post ⦃db = reference⦄ art now env secret request s).1
              ≡ (process ⦃db = reference⦄ art.sha256_hex art.to_text event now env s).1)
    unfolding post_event answer
    post-processed regular delivers new =
        let w =
          logout_event-IsWellFormed rt c r regular.event_id regular.user_id regular.session_id in
        let posted =
          post-process art now env event s secret request delivers.known delivers.body w
            regular.date in
        let done = process-new art now env event s new.unseen new.fresh new.calm in
        (ap (λ v. v.0.status) posted ∙ rw done refl, ap (λ v. v.1) posted)

module _ ⦃db : Prisma⦄ (l : IsDocumented db) where
  -- A logout at the auth provider of a session that was not revoked adds one event to the outbox,
  -- which names the user and the session and waits to be published. When the payload that is then the
  -- newest of the outbox reaches an application for the first time, with the service's credentials
  -- and the application's database answering, it is answered with the status 200; and the local
  -- session that the user had from the central session never signs anyone in again, whatever the
  -- application does next, in any order.
  pub logout_reaches_application :
      (rt : Runtime) (cfg : Settings) (c : Call) (cookie : String) (server : ServerStore)
      (r : SsoSession) (art : AppRuntime) (now at : ℕ) (env : Surroundings) (secret : String)
      (request : InternalRequest) (s s' : AppStore) (token : String) (x : LocalSession)
      (p : ActiveProfile) (a : ActiveSession)
      → find_by (is_session_hash (hash_secret rt cookie)) server.sso_sessions ≡ some r
      → count (is_unrevoked r.id) server.sso_sessions ≡ 1
      → IsRegular rt art c r
      → Delivers art secret request (newest (logout rt cfg c cookie server).1.outbox_events)
      → IsNew c.fresh_id env s
      → find_by
          (is_session_token (art.sha256_hex token))
          (post art now env secret request s).1.local_sessions
        ≡ some x
      → IsSignedIn r x
      → History art.sha256_hex art.sha256_hex art.to_text (post art now env secret request s).1 s'
      → now ≤ at
      → ((row : OutboxEvent) × ((logout rt cfg c cookie server).1.outbox_events
            ≡ server.outbox_events ++ row ∷ [])
          × Announces r row)
        × ((post art now env secret request s).0.status ≡ 200)
        × ((resolve art.sha256_hex token at s').0 ≢ ok (active p a))
  logout_reaches_application rt cfg c cookie server r art now at env secret request s s' token x p a
        found one regular delivers new here mine y later =
      rw (documented l) (
        let e = event rt cfg c r art in
        let left = logout-outbox rt cfg c cookie server r found one in
        let sent =
          subst (Delivers art secret request)
            (ap newest left ∙ newest-snoc server.outbox_events (outbox_row e))
            (rw (documented l) at delivers) in
        let (answered, same) =
          post-processed rt cfg c r art now env secret request s regular sent new in
        (
          (
            outbox_row e,
            left,
            record { event_type = refl; user = refl; session = refl; status = refl },
          ),
          answered,
          process_ends ⦃db = reference⦄ reference-IsDocumented art.sha256_hex art.sha256_hex
              art.to_text e now at env s s' token x p a
              (process-new art now env e s new.unseen new.fresh new.calm)
              (subst
                (λ (t : AppStore).
                  find_by (is_session_token (art.sha256_hex token)) t.local_sessions ≡ some x)
                same (rw (documented l) at here))
              (planned rt c r x mine.user mine.session)
              (subst (λ t. History ⦃db = reference⦄ art.sha256_hex art.sha256_hex art.to_text t s')
                same (rw (documented l) at y))
              later,
        ))
