-- ===== src/App/Tests.antt =====
-- The application's sessions on a small store.
use seleksi2_labpro.Prelude.{
  ◌≡◌, ◌≢◌, ◌≤◌, refl, [], ◌∷◌, some, ok, Result, ◌>>=◌, find_by, count, any, filter, update_where,
  arith, ◌*◌,
}
use seleksi2_labpro.Database.{reference, reference-IsDocumented}
use seleksi2_labpro.Shared.Event.{to_json}
use seleksi2_labpro.Shared.Canonical.{
  fingerprint, canonical_json, canonical_items, canonical_entries, entry_texts, join, sort_entries,
  insert_entry, precedes, units, quote, escape_all, escape,
}
use seleksi2_labpro.Server.Runtime.{is_figure, is_letter, is_url_safe, every, same_bytes}
use seleksi2_labpro.Server.UserInfo.{strip_prefix_nocase}
use seleksi2_labpro.App.Store.{
  AppStore, AppError, LocalSessionStatus, create_processed, update_processed, update_sessions,
  update_and_return_sessions,
}
use seleksi2_labpro.App.Session.{
  active, ActiveProfile, ActiveSession, resolve, resolve_hash, resolve_found, resolve_by,
  keep_alive, classify, is_local_session_token, read_cached_groups,
}
use seleksi2_labpro.App.Logout.{
  ProcessingState, processed, replayed, process, process_by, apply_event, log_all,
  processing_result, create_internal_logout_plan, plan_of_type, is_planned,
}
use seleksi2_labpro.App.Logout.Once.{process_once, process_conflict}
use seleksi2_labpro.App.Logout.Ends.{process_ends}
use seleksi2_labpro.App.History.{resolving, start}
use seleksi2_labpro.App.Internal.{
  post, read_json_payload, read_chunks, before_semicolon, is_declared_too_large, figures_value,
  is_internal_service_authorized,
}
use seleksi2_labpro.App.Internal.Answers.{
  IsUntouched, post_refused, body_bytes, read_json_payload_bounds,
}
use seleksi2_labpro.App.Internal.{post_payload}
use seleksi2_labpro.App.Internal.{post_event}
use seleksi2_labpro.Shared.Event.{parse_revocation_event}
use seleksi2_labpro.Shared.Event.{read_event_type}
use seleksi2_labpro.Shared.Event.{read_reason}
use seleksi2_labpro.Shared.Event.{read_metadata}
use seleksi2_labpro.Shared.Event.{read_uuid}
use seleksi2_labpro.Shared.Event.{read_nullable_uuid}
use seleksi2_labpro.Shared.Event.{read_occurred_at}
use seleksi2_labpro.Shared.Event.{read_event}
use seleksi2_labpro.Shared.Event.{has_event_fields}
use seleksi2_labpro.Shared.Json.{is_json_value}
use seleksi2_labpro.Shared.Pattern.{is_uuid}
use seleksi2_labpro.Shared.Pattern.{is_timestamp}
use seleksi2_labpro.Shared.Pattern.{is_reason}
use seleksi2_labpro.Shared.Pattern.{is_trimmed}
use seleksi2_labpro.Shared.Pattern.{to_lower}
use seleksi2_labpro.Prelude.{all}
use seleksi2_labpro.Prelude.{◌===◌}
use seleksi2_labpro.Prelude.{eq_iff}
use seleksi2_labpro.Prelude.{String}
use seleksi2_labpro.Prelude.{err}
use seleksi2_labpro.Prelude.{false}
use seleksi2_labpro.App.Internal.{answer}
use seleksi2_labpro.App.Samples.{lost}
use seleksi2_labpro.Shared.Event.{RevocationEvent}
use seleksi2_labpro.App.Store.{processed_event_conflict}
use seleksi2_labpro.App.Samples.{plain, event, token, session, store, nobody, request}

abbrev signed_in : ActiveProfile
signed_in = record {
  external_user_id = "6f9619ff-8b86-d011-b42d-00c04fc964fe";
  name = "U";
  email = "u@x";
  groups = "staff" ∷ [];
  synced_at = 1;
}

abbrev current : ActiveSession
current = record {
  id = "local";
  central_session_id = "6f9619ff-8b86-d011-b42d-00c04fc964fd";
  created_at = 1;
  expires_at = 100000;
  last_activity_at = 500;
}

signs_in :
    (resolve ⦃db = reference⦄ plain.sha256_hex token 500 store).0 ≡ ok (active signed_in current)
unfolding resolve resolve_hash resolve_found resolve_by keep_alive classify is_local_session_token
    read_cached_groups update_sessions is_letter is_figure is_url_safe every find_by count
    update_where ◌>>=◌
signs_in = refl

run : Result AppError ProcessingState × AppStore
unfolding process process_by apply_event log_all processing_result create_internal_logout_plan
    plan_of_type is_planned create_processed update_processed update_and_return_sessions find_by any
    filter update_where ◌>>=◌
run = process ⦃db = reference⦄ plain.sha256_hex plain.to_text event 1000 nobody store

after : AppStore
unfolding run
after = run.1

processes : run.0 ≡ ok processed
unfolding run
processes = refl

process_once_example :
    process ⦃db = reference⦄ plain.sha256_hex plain.to_text event 2000 nobody after
    ≡ (ok replayed, after)
unfolding run after
process_once_example =
    process_once ⦃db = reference⦄ reference-IsDocumented plain.sha256_hex plain.to_text event 1000
      2000 nobody nobody store after processed processes refl

process_ends_example :
    (resolve ⦃db = reference⦄ plain.sha256_hex token 2000
      (resolve ⦃db = reference⦄ plain.sha256_hex token 1500 after).1).0
    ≢ ok (active signed_in current)
unfolding run after find_by update_where is_planned create_internal_logout_plan plan_of_type
process_ends_example =
    process_ends ⦃db = reference⦄ reference-IsDocumented plain.sha256_hex plain.sha256_hex
      plain.to_text event 1000 2000 nobody store
      (resolve ⦃db = reference⦄ plain.sha256_hex token 1500 after).1 token
      (record session {
        status = LocalSessionStatus.revoked;
        revoked_at = some 1000;
        revoke_reason = some "sso_logout";
      })
      signed_in current processes refl refl (resolving token 1500 start) (omega arith)

-- Another event with the same identifier.
abbrev forged : RevocationEvent
forged = record event { reason = "other" }

differs : (fingerprint plain.sha256_hex forged === fingerprint plain.sha256_hex event) ≡ false
unfolding fingerprint canonical_json canonical_items canonical_entries to_json entry_texts join
    sort_entries insert_entry precedes units quote escape_all escape
differs = refl

distinct : (a b : String) → (a === b) ≡ false → a ≢ b
distinct a b h e = ground (arith, (eq_iff a b).1 e)

process_conflict_example :
    process ⦃db = reference⦄ plain.sha256_hex plain.to_text forged 2000 nobody after
    ≡ (err processed_event_conflict, after)
unfolding after
process_conflict_example =
    process_conflict ⦃db = reference⦄ reference-IsDocumented plain.sha256_hex plain.to_text event
      forged 1000 2000 nobody nobody store after processes refl refl (distinct _ _ differs) refl

failed : (post ⦃db = reference⦄ plain 1000 lost "secret" request store).0.status ≡ 503
unfolding post post_payload post_event process process_by apply_event log_all processing_result
    create_internal_logout_plan plan_of_type is_planned create_processed update_processed
    update_and_return_sessions parse_revocation_event read_event_type read_reason read_metadata
    read_uuid read_nullable_uuid read_occurred_at read_event has_event_fields is_json_value is_uuid
    is_timestamp is_reason is_trimmed to_lower to_json is_internal_service_authorized
    strip_prefix_nocase every same_bytes read_json_payload read_chunks before_semicolon
    is_declared_too_large figures_value is_figure find_by any all filter update_where ◌>>=◌ answer
failed = refl

refused : (post ⦃db = reference⦄ plain 1000 lost "secret" request store).0.status ≢ 200
refused e = omega (arith, failed, e)

post_refused_example :
    IsUntouched lost store (post ⦃db = reference⦄ plain 1000 lost "secret" request store).1
post_refused_example =
    post_refused ⦃db = reference⦄ reference-IsDocumented plain 1000 lost "secret" request store
      refused

read_json_payload_bounds_example : body_bytes request.body ≤ 16 * 1024
unfolding read_json_payload read_chunks before_semicolon is_declared_too_large figures_value every
    is_figure
read_json_payload_bounds_example = read_json_payload_bounds plain request (to_json event) refl
