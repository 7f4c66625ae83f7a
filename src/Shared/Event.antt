-- ===== src/Shared/Event.antt =====
-- `RevocationEvent` and `parseRevocationEvent` of packages/shared/src/index.ts. A thrown
-- `RevocationEventValidationError` is `none`. The engine's `new Date(value).toISOString()` is the
-- parameter `to_iso`, `none` where the date is not a number.
pub mod WellFormed
pub mod RoundTrip
pub mod Accepted
mod Tests
use seleksi2_labpro.Prelude.{
  ℕ, String, Bool, true, false, ◌&&◌, ◌||◌, not, List, [], ◌∷◌, Option, none, some, ◌==◌, ◌===◌,
  if◌then◌else◌, is_none, is_some, any, all, length,
}
use seleksi2_labpro.Shared.Json.{
  Json, Fields, null, string, object, end, field, keys, get, is_json_value,
}
use seleksi2_labpro.Shared.Pattern.{is_uuid, is_reason, is_timestamp, is_trimmed, to_lower}

pub data EventType : Type 0 where
  session_revoked password_changed access_policy_changed : EventType

pub record RevocationEvent : Type 0 where
  pub event_id : String
  pub event_type : EventType
  pub user_id : String
  pub central_session_id : Option String
  pub application_id : Option String
  pub reason : String
  pub occurred_at : String
  pub metadata : Fields

abbrev pub event_type_name : EventType → String
event_type_name session_revoked = "SessionRevoked"
event_type_name password_changed = "PasswordChanged"
event_type_name access_policy_changed = "AccessPolicyChanged"

-- `REVOCATION_EVENT_TYPES.includes(value.eventType)`
unfoldable pub read_event_type : Option Json → Option EventType
read_event_type (some (string s)) =
    if s === "SessionRevoked"
    then some session_revoked
    else if s === "PasswordChanged"
    then some password_changed
    else if s === "AccessPolicyChanged"
    then some access_policy_changed
    else none
read_event_type _ = none

-- `REVOCATION_EVENT_FIELDS`
abbrev pub event_fields : List String
event_fields =
    "eventId" ∷ "eventType" ∷ "userId" ∷ "centralSessionId" ∷ "applicationId" ∷ "reason"
    ∷ "occurredAt" ∷ "metadata" ∷ []

-- The test on the keys of the value.
unfoldable pub has_event_fields : Fields → Bool
unfolding any all
has_event_fields fs =
    length (keys fs) == 8 && all (λ key. any (λ f. f === key) event_fields) (keys fs)

unfoldable pub read_reason : Option Json → Option String
read_reason (some (string s)) = if is_trimmed s && is_reason s then some s else none
read_reason _ = none

unfoldable pub read_metadata : Option Json → Option Fields
read_metadata (some (object fs)) = if is_json_value (object fs) 0 then some fs else none
read_metadata _ = none

unfoldable pub read_uuid : Option Json → Option String
read_uuid (some (string s)) = if is_uuid s then some (to_lower s) else none
read_uuid _ = none

-- `readUuid(value, true)`: the outer option is the error, the inner one the nullable result.
unfoldable pub read_nullable_uuid : Option Json → Option (Option String)
unfolding read_uuid
read_nullable_uuid (some null) = some none
read_nullable_uuid (some (string s)) = if is_uuid s then some (some (to_lower s)) else none
read_nullable_uuid _ = none

-- Which of the two targets an event of each type must name.
abbrev pub has_scope : EventType → Option String → Option String → Bool
has_scope session_revoked session application = is_some session && is_none application
has_scope password_changed session application = is_none session && is_none application
has_scope access_policy_changed session application = is_none session && is_some application

infixl 5 ◌>>=◌
abbrev pub ◌>>=◌ {ℓ κ} : {A : Type ℓ} {B : Type κ} → Option A → (A → Option B) → Option B
none >>= k = none
some a >>= k = k a

abbrev pub require {ℓ} : {A : Type ℓ} → Bool → A → Option A
require true a = some a
require false a = none

module _ (to_iso : String → Option String) where
  unfoldable pub read_occurred_at : Option Json → Option String
  read_occurred_at (some (string s)) = if is_timestamp s then to_iso s else none
  read_occurred_at _ = none

  -- The event that the fields stand for, before the test of its scope.
  unfoldable pub read_event : Fields → Option RevocationEvent
  read_event fs = do
    event_type ← read_event_type (get "eventType" fs)
    reason ← read_reason (get "reason" fs)
    metadata ← read_metadata (get "metadata" fs)
    event_id ← read_uuid (get "eventId" fs)
    user_id ← read_uuid (get "userId" fs)
    central_session_id ← read_nullable_uuid (get "centralSessionId" fs)
    application_id ← read_nullable_uuid (get "applicationId" fs)
    occurred_at ← read_occurred_at (get "occurredAt" fs)
    some (record {
      event_id = event_id;
      event_type = event_type;
      user_id = user_id;
      central_session_id = central_session_id;
      application_id = application_id;
      reason = reason;
      occurred_at = occurred_at;
      metadata = metadata;
    })

  unfoldable pub parse_revocation_event : Json → Option RevocationEvent
  unfolding read_event has_event_fields
  parse_revocation_event (object fs) =
      if has_event_fields fs
      then (do
        event ← read_event fs
        require (has_scope event.event_type event.central_session_id event.application_id) event)
      else none
  parse_revocation_event _ = none

abbrev pub nullable : Option String → Json
nullable none = null
nullable (some s) = string s

-- The value that `JSON.stringify` writes for an event, and that is stored as its payload.
unfoldable pub to_json : RevocationEvent → Json
to_json e = object (
    field "eventId" (string e.event_id) (
      field "eventType" (string (event_type_name e.event_type)) (
        field "userId" (string e.user_id) (
          field "centralSessionId" (nullable e.central_session_id) (
            field "applicationId" (nullable e.application_id) (
              field "reason" (string e.reason) (
                field "occurredAt" (string e.occurred_at)
                  (field "metadata" (object e.metadata) end))))))))
