-- ===== src/Shared/Event/RoundTrip.antt =====
-- `parseRevocationEvent` of packages/shared/src/index.ts on the value of an event.
use seleksi2_labpro.Prelude.{String, ◌≡◌, refl, true, Option, none, some}
use seleksi2_labpro.Shared.Pattern.{is_timestamp}
use seleksi2_labpro.Shared.Event.{
  EventType, session_revoked, password_changed, access_policy_changed, RevocationEvent,
  event_type_name, read_event_type, read_reason, read_metadata, read_uuid, read_nullable_uuid,
  read_occurred_at, parse_revocation_event, nullable, to_json,
}
use seleksi2_labpro.Shared.Event.WellFormed.{IsId, IsOptionalId, IsWellFormed}
use seleksi2_labpro.Shared.Json.{string}

read_event_type-name :
    (t : EventType) → read_event_type (some (string (event_type_name t))) ≡ some t
unfolding read_event_type
read_event_type-name session_revoked = refl
read_event_type-name password_changed = refl
read_event_type-name access_policy_changed = refl

read_uuid-string : (s : String) → IsId s → read_uuid (some (string s)) ≡ some s
unfolding read_uuid
read_uuid-string s (uuid, lower) = rw (uuid, lower)

read_nullable_uuid-nullable :
    (o : Option String) → IsOptionalId o → read_nullable_uuid (some (nullable o)) ≡ some o
unfolding read_nullable_uuid
read_nullable_uuid-nullable none h = refl
read_nullable_uuid-nullable (some s) (uuid, lower) = rw (uuid, lower)

-- A date as `toISOString` writes it: of the required form, and the engine's reading of itself.
abbrev pub IsCanonicalDate : (String → Option String) → String → Type 0
IsCanonicalDate to_iso s = (is_timestamp s ≡ true) × (to_iso s ≡ some s)

module _ (to_iso : String → Option String) where
  -- A well-formed event whose date is canonical is parsed from its value unchanged.
  pub parse_revocation_event-to_json :
      (e : RevocationEvent)
      → IsWellFormed e
      → IsCanonicalDate to_iso e.occurred_at
      → parse_revocation_event to_iso (to_json e) ≡ some e
  unfolding parse_revocation_event to_json read_reason read_metadata read_occurred_at
  parse_revocation_event-to_json e w (form, date) = rw (
    read_event_type-name,
    w.trimmed,
    w.reason,
    w.metadata,
    read_uuid-string e.event_id w.event_id,
    read_uuid-string e.user_id w.user_id,
    read_nullable_uuid-nullable e.central_session_id w.central_session_id,
    read_nullable_uuid-nullable e.application_id w.application_id,
    form,
    date,
    w.scope,
  )
