-- ===== src/SingleLogout/Tests.antt =====
-- A logout that reaches an application, on small stores.
use seleksi2_labpro.Prelude.{
  subst, sym, ◌≡◌, ◌≢◌, ◌===◌, refl, [], ◌∷◌, some, ok, ◌>>=◌, find_by, count, any, all, filter,
  update_where, arith,
}
use seleksi2_labpro.Database.{reference, reference-IsDocumented}
use seleksi2_labpro.Schema.Sessions.{SsoSession}
use seleksi2_labpro.Shared.Json.{is_json_value}
use seleksi2_labpro.Shared.Pattern.{is_uuid, is_timestamp, is_reason, is_trimmed, to_lower}
use seleksi2_labpro.Shared.Event.{
  parse_revocation_event, read_event_type, read_reason, read_metadata, read_uuid,
  read_nullable_uuid, read_occurred_at, read_event, has_event_fields, to_json,
}
use seleksi2_labpro.Server.Store.{ServerStore, update_sessions, update_tokens}
use seleksi2_labpro.Server.Runtime.{Call, is_figure, every, same_bytes}
use seleksi2_labpro.Server.Outbox.{enqueue, enqueue_many, enqueue_all}
use seleksi2_labpro.Server.Samples.{settings, call, organisation, session as central}
use seleksi2_labpro.Server.Samples as Server
use seleksi2_labpro.Server.UserInfo.{strip_prefix_nocase}
use seleksi2_labpro.Server.Auth.{logout, revoke_session}
use seleksi2_labpro.App.Store.{
  AppStore, LocalSession, LocalSessionStatus, create_processed, update_processed,
  update_and_return_sessions,
}
use seleksi2_labpro.App.Session.{active, ActiveProfile, ActiveSession, resolve}
use seleksi2_labpro.App.Logout.{
  process, process_by, apply_event, log_all, processing_result, create_internal_logout_plan,
  plan_of_type, is_planned,
}
use seleksi2_labpro.App.History.{start}
use seleksi2_labpro.App.Internal.{
  post, post_payload, post_event, read_json_payload, read_chunks, before_semicolon,
  is_declared_too_large, figures_value, is_internal_service_authorized,
}
use seleksi2_labpro.App.Samples.{plain, event, token, session, store, nobody, request}
use seleksi2_labpro.Schema.Events.{OutboxEvent}
use seleksi2_labpro.SingleLogout.{
  newest, Announces, IsRegular, Delivers, logout_reaches_application,
}

abbrev signed_in : SsoSession
signed_in = record central {
  id = "6f9619ff-8b86-d011-b42d-00c04fc964fd";
  user_id = "6f9619ff-8b86-d011-b42d-00c04fc964fe";
}

abbrev provider : ServerStore
provider = record organisation { sso_sessions = signed_in ∷ [] }

abbrev leaving : Call
leaving = call 1000 "6f9619ff-8b86-d011-b42d-00c04fc964ff"

leaves :
    newest (logout ⦃db = reference⦄ Server.plain settings leaving "cookie" provider).1.outbox_events
    ≡ to_json event
unfolding logout revoke_session enqueue enqueue_many enqueue_all update_sessions update_tokens ◌>>=◌
    find_by count update_where
leaves = refl

regular : IsRegular Server.plain plain leaving signed_in
unfolding is_uuid to_lower is_timestamp
regular = record {
  event_id = (refl, refl);
  user_id = (refl, refl);
  session_id = (refl, refl);
  date = (refl, refl);
}

read : Delivers plain "secret" request (to_json event)
unfolding is_internal_service_authorized strip_prefix_nocase every same_bytes read_json_payload
    read_chunks before_semicolon is_declared_too_large figures_value is_figure
read = record { known = refl; body = refl }

delivers : Delivers plain "secret" request (
    newest
      (logout ⦃db = reference⦄ Server.plain settings leaving "cookie" provider).1.outbox_events)
delivers = subst (Delivers plain "secret" request) (sym leaves) read

abbrev ended : LocalSession
ended = record session {
  status = LocalSessionStatus.revoked;
  revoked_at = some 1000;
  revoke_reason = some "sso_logout";
}

posted : AppStore
unfolding post post_payload post_event process process_by apply_event log_all processing_result
    create_internal_logout_plan plan_of_type is_planned create_processed update_processed
    update_and_return_sessions parse_revocation_event read_event_type read_reason read_metadata
    read_uuid read_nullable_uuid read_occurred_at read_event has_event_fields is_json_value is_uuid
    is_timestamp is_reason is_trimmed to_lower to_json is_internal_service_authorized
    strip_prefix_nocase every same_bytes read_json_payload read_chunks before_semicolon
    is_declared_too_large figures_value is_figure find_by any all filter update_where ◌>>=◌
posted = (post ⦃db = reference⦄ plain 1000 nobody "secret" request store).1

ends :
    find_by (λ (r : LocalSession). r.session_token_hash === token) posted.local_sessions
    ≡ some ended
unfolding posted find_by
ends = refl

abbrev profile : ActiveProfile
profile = record {
  external_user_id = "6f9619ff-8b86-d011-b42d-00c04fc964fe";
  name = "U";
  email = "u@x";
  groups = [];
  synced_at = 1;
}

abbrev current : ActiveSession
current = record {
  id = "local";
  central_session_id = "6f9619ff-8b86-d011-b42d-00c04fc964fd";
  created_at = 1;
  expires_at = 100000;
  last_activity_at = 2000;
}

logout_reaches_application_example :
    ((row : OutboxEvent) × ((logout ⦃db = reference⦄ Server.plain settings leaving "cookie"
          provider).1.outbox_events
        ≡ row ∷ [])
      × Announces signed_in row)
    × ((post ⦃db = reference⦄ plain 1000 nobody "secret" request store).0.status ≡ 200)
    × ((resolve ⦃db = reference⦄ plain.sha256_hex token 2000 posted).0
        ≢ ok (active profile current))
unfolding posted find_by count any
logout_reaches_application_example =
    logout_reaches_application ⦃db = reference⦄ reference-IsDocumented Server.plain settings leaving
      "cookie" provider signed_in plain 1000 2000 nobody "secret" request store posted token ended
      profile current refl refl regular delivers
      (record { unseen = refl; fresh = refl; calm = λ k. refl }) ends
      (record { user = refl; session = refl }) start (omega arith)
