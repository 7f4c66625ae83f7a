-- ===== src/App/Logout.antt =====
-- `processInternalLogoutEvent` of applications/app-a/src/lib/internal/logout-processor.ts, with
-- logout-plan.ts beside it.
pub mod Effect
pub mod Once
pub mod Ends
use Prim.Native.String
use seleksi2_labpro.Prelude.{
  ℕ, String, Bool, true, false, ◌&&◌, ◌||◌, not, List, [], ◌∷◌, Option, none, some, ltb, ◌==◌,
  ◌===◌, if◌then◌else◌, length, is_none, none_or, Result, ok, err, Exec, pure, throw, gets,
  throw_if, modify, ◌>>=◌, ◌>>◌,
}
use seleksi2_labpro.Database.{Prisma, find_one, transaction}
use seleksi2_labpro.Shared.Json.{string, field, end}
use seleksi2_labpro.Shared.Event.{
  RevocationEvent, EventType, session_revoked, password_changed, access_policy_changed,
  event_type_name,
}
use seleksi2_labpro.Shared.Canonical.{fingerprint}
use seleksi2_labpro.App.Store.{
  AppStore, AppError, processed_event_conflict, unique_constraint, unavailable, AppAction,
  LocalSession, LocalSessionStatus, ProcessedEvent, ActivityLog, update_and_return_sessions,
  create_processed, update_processed, logged,
}
use seleksi2_labpro.App.Session.{revoke}

pub data ProcessingState : Type 0 where
  processed replayed : ProcessingState

-- The calls of the database that may fail, with any error but P2002: those of the transaction, its
-- end, and the reading behind it.
pub data DatabaseCall : Type 0 where
  reading creating revoking logging recording committing rereading : DatabaseCall

-- What the outside does while an event is processed: what others commit between the transaction's
-- first reading, which locks nothing, and its first write; and which calls fail.
pub record Surroundings : Type 0 where
  pub meanwhile : AppStore → AppStore
  pub fails : DatabaseCall → Bool

pub record InternalLogoutPlan : Type 0 where
  pub external_user_id : String
  pub central_session_id : Option String
  pub revoke_reason : String
  pub activity_message : String

-- `createInternalLogoutPlan`
unfoldable pub plan_of_type : EventType → RevocationEvent → InternalLogoutPlan
plan_of_type session_revoked e = record {
  external_user_id = e.user_id;
  central_session_id = e.central_session_id;
  revoke_reason = e.reason;
  activity_message = "Local session dicabut setelah central session direvoke";
}
plan_of_type password_changed e = record {
  external_user_id = e.user_id;
  central_session_id = none;
  revoke_reason = "password_changed";
  activity_message = "Local session dicabut setelah password user berubah";
}
plan_of_type access_policy_changed e = record {
  external_user_id = e.user_id;
  central_session_id = none;
  revoke_reason = "access_policy_changed";
  activity_message = "Local session dicabut setelah akses aplikasi berubah";
}

unfoldable pub create_internal_logout_plan : RevocationEvent → InternalLogoutPlan
unfolding plan_of_type
create_internal_logout_plan e = plan_of_type e.event_type e

-- The session belongs to the plan: an empty identifier of a central session selects nothing, so that
-- all of the user's sessions do.
unfoldable pub is_planned : InternalLogoutPlan → LocalSession → Bool
is_planned p r =
    r.external_user_id === p.external_user_id
    && none_or (λ id. id === "" || r.central_session_id === id) p.central_session_id

abbrev pub is_live : ℕ → LocalSession → Bool
is_live now r =
    (elim r.status [ LocalSessionStatus.active ↦ true | _ ↦ false ])
    && is_none r.revoked_at
    && ltb now r.expires_at

abbrev pub is_event : String → ProcessedEvent → Bool
is_event id r = r.event_id === id

-- The test of `assertMatchingEvent`.
unfoldable pub is_matching : RevocationEvent → String → ProcessedEvent → Bool
is_matching e payload_hash r =
    r.event_type === event_type_name e.event_type
    && none_or (λ h. h === payload_hash) r.payload_hash

abbrev pub new_processed : RevocationEvent → String → ℕ → ProcessedEvent
new_processed e payload_hash now = record {
  event_id = e.event_id;
  event_type = event_type_name e.event_type;
  payload_hash = some payload_hash;
  processed_at = now;
  result = "processing";
}

abbrev revoked_log : RevocationEvent → InternalLogoutPlan → LocalSession → ActivityLog
revoked_log e p r = record {
  event_type = event_type_name e.event_type;
  result = "SUCCESS";
  message = p.activity_message;
  external_user_id = some r.external_user_id;
  local_session_id = some r.id;
  request_id = some e.event_id;
  metadata = some (
      field "source" (string "back_channel")
        (field "reason" (string p.revoke_reason) (field "occurredAt" (string e.occurred_at) end)));
}

-- `processingResult`; the parameter writes a number in decimal figures.
unfoldable pub processing_result : (ℕ → String) → ℕ → String
processing_result to_text n =
    if n == 0
    then "Tidak ada local session aktif yang perlu dicabut"
    else String.◌++◌ (to_text n) " local session dicabut"

module _ ⦃db : Prisma⦄ where
  unfoldable pub log_all :
      RevocationEvent → InternalLogoutPlan → List LocalSession → AppStore → AppStore
  log_all e p [] s = s
  log_all e p (r ∷ rs) s = log_all e p rs (logged (revoked_log e p r) s)

  -- The writes of the transaction.
  unfoldable pub apply_event :
      (ℕ → String)
      → RevocationEvent
      → String
      → InternalLogoutPlan
      → ℕ
      → (DatabaseCall → Bool)
      → AppAction ProcessingState
  unfolding create_processed update_and_return_sessions log_all update_processed is_planned
      processing_result
  apply_event to_text e payload_hash p now fails = do
    throw_if (fails creating) unavailable
    create_processed (new_processed e payload_hash now) (is_event e.event_id)
    throw_if (fails revoking) unavailable
    revoked ←
        update_and_return_sessions (λ r. is_planned p r && is_live now r)
          (revoke now p.revoke_reason)
    throw_if (not (length revoked == 0) && fails logging) unavailable
    modify (log_all e p revoked)
    throw_if (fails recording) unavailable
    n ←
        update_processed (is_event e.event_id)
          (λ r. record r { result = processing_result to_text (length revoked) })
    throw_if (fails committing) unavailable
    pure processed

  -- `assertMatchingEvent` and the answer behind it.
  unfoldable pub replay : RevocationEvent → String → ProcessedEvent → AppAction ProcessingState
  unfolding is_matching
  replay e payload_hash r = do
    throw_if (not (is_matching e payload_hash r)) processed_event_conflict
    pure replayed

  -- The transaction for an event that is on record.
  unfoldable pub replay_known :
      RevocationEvent → String → (DatabaseCall → Bool) → ProcessedEvent → AppAction ProcessingState
  unfolding replay
  replay_known e payload_hash fails r = do
    state ← replay e payload_hash r
    throw_if (fails committing) unavailable
    pure state

  abbrev pub find_event : RevocationEvent → AppStore → Option ProcessedEvent
  find_event e s = find_one (is_event e.event_id) s.processed_events

  -- The `catch`: the unique constraint was violated because the event was processed meanwhile.
  unfoldable pub recheck :
      RevocationEvent → String → Option ProcessedEvent → AppAction ProcessingState
  unfolding replay
  recheck e payload_hash none = throw unique_constraint
  recheck e payload_hash (some r) = replay e payload_hash r

  abbrev pub caught :
      RevocationEvent
      → String
      → (DatabaseCall → Bool)
      → Result AppError ProcessingState
      → AppAction ProcessingState
  caught e payload_hash fails (ok a) = pure a
  caught e payload_hash fails (err unique_constraint) =
      throw_if (fails rereading) unavailable >> (gets (find_event e) >>= recheck e payload_hash)
  caught e payload_hash fails (err x) = throw x

  abbrev pub catch_duplicate :
      RevocationEvent
      → String
      → (DatabaseCall → Bool)
      → AppAction ProcessingState
      → AppAction ProcessingState
  catch_duplicate e payload_hash fails m s = let (r, s') = m s in caught e payload_hash fails r s'

  -- What the transaction does, by what its first reading found.
  unfoldable pub process_by :
      (ℕ → String)
      → RevocationEvent
      → String
      → ℕ
      → Surroundings
      → Option ProcessedEvent
      → AppAction ProcessingState
  unfolding apply_event replay_known create_internal_logout_plan recheck
  process_by to_text e payload_hash now env (some r) = replay_known e payload_hash env.fails r
  process_by to_text e payload_hash now env none = do
    modify env.meanwhile
    catch_duplicate e payload_hash env.fails (
        transaction
          (apply_event to_text e payload_hash (create_internal_logout_plan e) now env.fails))

  -- `processInternalLogoutEvent`
  unfoldable pub process :
      (String → String)
      → (ℕ → String)
      → RevocationEvent
      → ℕ
      → Surroundings
      → AppAction ProcessingState
  unfolding process_by
  process sha256 to_text e now env = do
    throw_if (env.fails reading) unavailable
    existing ← gets (find_event e)
    process_by to_text e (fingerprint sha256 e) now env existing
