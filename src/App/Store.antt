-- ===== src/App/Store.antt =====
-- The tables of applications/app-a/prisma/schema.prisma, the errors that the application throws, and
-- what it uses of Node.js. Application B has the same.
use seleksi2_labpro.Prelude.{ℕ, String, Bool, List, Option, Exec, ok, gets, modify, or_throw, ◌>>=◌}
use seleksi2_labpro.Database.{Prisma, update_many, update_and_return, create, add, upsert}
use seleksi2_labpro.Shared.Json.{Json, Fields}

pub data LocalSessionStatus : Type 0 where
  active expired revoked : LocalSessionStatus

-- `groups` is a nullable JSON column.
pub record ProfileCache : Type 0 where
  pub external_user_id : String
  pub name : String
  pub email : String
  pub groups : Option Json
  pub synced_at : ℕ

pub record LocalSession : Type 0 where
  pub id : String
  pub session_token_hash : String
  pub external_user_id : String
  pub central_session_id : String
  pub status : LocalSessionStatus
  pub created_at : ℕ
  pub expires_at : ℕ
  pub last_activity_at : Option ℕ
  pub revoked_at : Option ℕ
  pub revoke_reason : Option String

pub record ActivityLog : Type 0 where
  pub event_type : String
  pub result : String
  pub message : String
  pub external_user_id : Option String
  pub local_session_id : Option String
  pub request_id : Option String
  pub metadata : Option Fields

pub record ProcessedEvent : Type 0 where
  pub event_id : String
  pub event_type : String
  pub payload_hash : Option String
  pub processed_at : ℕ
  pub result : String

pub record AppStore : Type 0 where
  pub profiles : List ProfileCache
  pub local_sessions : List LocalSession
  pub activity_logs : List ActivityLog
  pub processed_events : List ProcessedEvent

-- `processed_event_conflict`: ProcessedEventConflictError. `unique_constraint`: Prisma's P2002.
-- `unavailable`: any other error of the database.
pub data AppError : Type 0 where
  processed_event_conflict unique_constraint unavailable : AppError

abbrev pub AppAction : Type 0 → Type 0
AppAction A = Exec AppStore AppError A

module _ ⦃db : Prisma⦄ where
  -- `localSession.updateMany`
  unfoldable pub update_sessions :
      (LocalSession → Bool) → (LocalSession → LocalSession) → AppAction ℕ
  update_sessions p f s =
      let (t, n) = update_many p f s.local_sessions in (ok n, record s { local_sessions = t })

  -- `localSession.updateManyAndReturn`
  unfoldable pub update_and_return_sessions :
      (LocalSession → Bool) → (LocalSession → LocalSession) → AppAction (List LocalSession)
  update_and_return_sessions p f s =
      let (t, rows) = update_and_return p f s.local_sessions in
      (ok rows, record s { local_sessions = t })

  -- `localSession.create`
  unfoldable pub create_session : LocalSession → (LocalSession → Bool) → AppAction (Unit {0})
  create_session r clash = do
    made ← gets (λ s. create clash r s.local_sessions)
    t ← or_throw made unique_constraint
    modify (λ s. record s { local_sessions = t })

  -- `processedEvent.create` and `processedEvent.update`
  unfoldable pub create_processed : ProcessedEvent → (ProcessedEvent → Bool) → AppAction (Unit {0})
  create_processed r clash = do
    made ← gets (λ s. create clash r s.processed_events)
    t ← or_throw made unique_constraint
    modify (λ s. record s { processed_events = t })

  unfoldable pub update_processed :
      (ProcessedEvent → Bool) → (ProcessedEvent → ProcessedEvent) → AppAction ℕ
  update_processed p f s =
      let (t, n) = update_many p f s.processed_events in (ok n, record s { processed_events = t })

  -- `profileCache.upsert`
  unfoldable pub upsert_profile :
      (ProfileCache → Bool) → ProfileCache → (ProfileCache → ProfileCache) → AppAction (Unit {0})
  upsert_profile p r f = modify (λ s. record s { profiles = upsert p r f s.profiles })

  -- `activityLog.create`
  abbrev pub logged : ActivityLog → AppStore → AppStore
  logged a s = record s { activity_logs = add a s.activity_logs }
