-- ===== src/Shared/Event/WellFormed.antt =====
-- What `parseRevocationEvent` of packages/shared/src/index.ts lets through.
use seleksi2_labpro.Prelude.{
  String, ◌≡◌, refl, true, Option, none, some, arith, inl, inr, Bool-cases, subst,
}
use seleksi2_labpro.Shared.Json.{Json, null, string, object, Fields, get, is_json_value}
use seleksi2_labpro.Shared.Pattern.{is_uuid, is_reason, is_timestamp, is_trimmed, to_lower}
use seleksi2_labpro.Shared.Pattern.Lower.{to_lower_idem, is_uuid-to_lower}
use seleksi2_labpro.Shared.Event.{
  RevocationEvent, read_event_type, read_reason, read_metadata, read_uuid, read_nullable_uuid,
  has_scope, read_occurred_at, read_event, parse_revocation_event,
}

-- A UUID in small letters.
abbrev pub IsId : String → Type 0
IsId s = (is_uuid s ≡ true) × (to_lower s ≡ s)

abbrev pub IsOptionalId : Option String → Type 0
IsOptionalId none = Unit
IsOptionalId (some s) = IsId s

pub record IsWellFormed (e : RevocationEvent) : Type 0 where
  pub event_id : IsId e.event_id
  pub user_id : IsId e.user_id
  pub central_session_id : IsOptionalId e.central_session_id
  pub application_id : IsOptionalId e.application_id
  pub trimmed : is_trimmed e.reason ≡ true
  pub reason : is_reason e.reason ≡ true
  pub metadata : is_json_value (object e.metadata) 0 ≡ true
  pub scope : has_scope e.event_type e.central_session_id e.application_id ≡ true

-- The stored date is the engine's reading of a time in the required form.
abbrev pub HasDate : (String → Option String) → RevocationEvent → Type 0
HasDate to_iso e = (s : String) × (is_timestamp s ≡ true) × (to_iso s ≡ some e.occurred_at)

lower-IsId : (s : String) → is_uuid s ≡ true → IsId (to_lower s)
lower-IsId s h = (is_uuid-to_lower s h, to_lower_idem s)

read_uuid-IsId : (v : Option Json) (t : String) → read_uuid v ≡ some t → IsId t
unfolding read_uuid
read_uuid-IsId (some (string s)) t h = elim (Bool-cases (is_uuid s)) [
  | inl good ↦ subst IsId (ground arith) (lower-IsId s good)
  | inr bad ↦ ground arith
]
read_uuid-IsId _ t h = ground arith

read_nullable_uuid-IsOptionalId :
    (v : Option Json) (t : Option String) → read_nullable_uuid v ≡ some t → IsOptionalId t
unfolding read_nullable_uuid
read_nullable_uuid-IsOptionalId (some null) t h = subst IsOptionalId {x = none} (ground arith) tt
read_nullable_uuid-IsOptionalId (some (string s)) t h = elim (Bool-cases (is_uuid s)) [
  | inl good ↦ subst IsOptionalId {x = some (to_lower s)} (ground arith) (lower-IsId s good)
  | inr bad ↦ ground arith
]
read_nullable_uuid-IsOptionalId _ t h = cc

read_reason_sound :
    (v : Option Json) (s : String)
    → read_reason v ≡ some s
    → (is_trimmed s ≡ true) × (is_reason s ≡ true)
unfolding read_reason
read_reason_sound (some (string s)) t h = ground arith
read_reason_sound _ t h = ground arith

read_metadata_sound :
    (v : Option Json) (fs : Fields) → read_metadata v ≡ some fs → is_json_value (object fs) 0 ≡ true
unfolding read_metadata
read_metadata_sound (some (object fs)) gs h = elim (Bool-cases (is_json_value (object fs) 0)) [
  | inl good ↦
      let e : fs ≡ gs = ground arith in subst (λ k. is_json_value (object k) 0 ≡ true) e good
  | inr bad ↦ ground arith
]
read_metadata_sound _ fs h = cc

module _ (to_iso : String → Option String) where
  read_occurred_at_sound :
      (v : Option Json) (t : String)
      → read_occurred_at to_iso v ≡ some t
      → (s : String) × (is_timestamp s ≡ true) × (to_iso s ≡ some t)
  unfolding read_occurred_at
  read_occurred_at_sound (some (string s)) t h = (s, ground arith, ground arith)
  read_occurred_at_sound _ t h = cc

  -- What each reader made of its field.
  pub record IsRead (fs : Fields) (e : RevocationEvent) : Type 0 where
    pub event_id : read_uuid (get "eventId" fs) ≡ some e.event_id
    event_type : read_event_type (get "eventType" fs) ≡ some e.event_type
    pub user_id : read_uuid (get "userId" fs) ≡ some e.user_id
    central_session_id : read_nullable_uuid (get "centralSessionId" fs) ≡ some e.central_session_id
    application_id : read_nullable_uuid (get "applicationId" fs) ≡ some e.application_id
    reason : read_reason (get "reason" fs) ≡ some e.reason
    occurred_at : read_occurred_at to_iso (get "occurredAt" fs) ≡ some e.occurred_at
    metadata : read_metadata (get "metadata" fs) ≡ some e.metadata

  pub read_event-IsRead :
      (fs : Fields) (e : RevocationEvent) → read_event to_iso fs ≡ some e → IsRead fs e
  unfolding read_event
  read_event-IsRead fs e h = ground arith

  pub parse_inv :
      (v : Json) (e : RevocationEvent)
      → parse_revocation_event to_iso v ≡ some e
      → (fs : Fields) × (v ≡ object fs)
        × (read_event to_iso fs ≡ some e)
        × (has_scope e.event_type e.central_session_id e.application_id ≡ true)
  unfolding parse_revocation_event
  parse_inv (object fs) e h = (fs, refl, ground arith, ground arith)
  parse_inv _ e h = cc

  parsed-IsWellFormed :
      (fs : Fields) (e : RevocationEvent)
      → IsRead fs e
      → has_scope e.event_type e.central_session_id e.application_id ≡ true
      → IsWellFormed e
  parsed-IsWellFormed fs e r scope =
      let (trimmed, reason) = read_reason_sound (get "reason" fs) e.reason r.reason in
      record {
        event_id = read_uuid-IsId _ _ r.event_id;
        user_id = read_uuid-IsId _ _ r.user_id;
        central_session_id = read_nullable_uuid-IsOptionalId _ _ r.central_session_id;
        application_id = read_nullable_uuid-IsOptionalId _ _ r.application_id;
        trimmed = trimmed;
        reason = reason;
        metadata = read_metadata_sound _ _ r.metadata;
        scope = scope;
      }

  -- A date that the engine read from a time of the required form, beside the fields of the event.
  pub parse_revocation_event-IsWellFormed :
      (v : Json) (e : RevocationEvent)
      → parse_revocation_event to_iso v ≡ some e
      → IsWellFormed e × HasDate to_iso e
  parse_revocation_event-IsWellFormed v e h =
      let (fs, same, read, scope) = parse_inv v e h in
      let r = read_event-IsRead fs e read in
      (parsed-IsWellFormed fs e r scope, read_occurred_at_sound _ _ r.occurred_at)
