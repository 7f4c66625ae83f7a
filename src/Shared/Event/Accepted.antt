-- ===== src/Shared/Event/Accepted.antt =====
-- The events that `parseRevocationEvent` of packages/shared/src/index.ts accepts.
use seleksi2_labpro.Prelude.{
  ◌≡◌, refl, subst, String, true, Option, none, some, arith, inl, inr, Bool-cases, is_none, is_some,
  length,
}
use seleksi2_labpro.Shared.Json.{Json, string, object, Fields, keys, get}
use seleksi2_labpro.Shared.Pattern.{codes, is_uuid, to_lower}
use seleksi2_labpro.Shared.Pattern.Lower.{is_uuid-length}
use seleksi2_labpro.Shared.Event.{
  EventType, session_revoked, password_changed, access_policy_changed, RevocationEvent, read_uuid,
  has_scope, has_event_fields, parse_revocation_event,
}
use seleksi2_labpro.Shared.Event.WellFormed.{
  IsWellFormed, HasDate, read_event-IsRead, parse_inv, parse_revocation_event-IsWellFormed,
}

-- The targets that an event names, by its type.
abbrev pub HasTargets : EventType → Option String → Option String → Type 0
HasTargets session_revoked session application =
    ((id : String) × (session ≡ some id)) × (application ≡ none)
HasTargets password_changed session application = (session ≡ none) × (application ≡ none)
HasTargets access_policy_changed session application =
    (session ≡ none) × ((id : String) × (application ≡ some id))

-- The field of the value is a text of 36 characters, which the event has in small letters.
abbrev pub Carries : Fields → String → String → Type 0
Carries fs key id =
    (s : String) × (get key fs ≡ some (string s)) × (to_lower s ≡ id) × (length (codes s) ≡ 36)

-- What the value and the event have in common.
pub record IsReadFrom (v : Json) (e : RevocationEvent) : Type 0 where
  pub fields : Fields
  pub object_of : v ≡ object fields
  pub eight : length (keys fields) ≡ 8
  pub event_id : Carries fields "eventId" e.event_id
  pub user_id : Carries fields "userId" e.user_id

none_lem : {A : Type 0} (o : Option A) → is_none o ≡ true → o ≡ none
none_lem none h = refl
none_lem (some a) h = ground arith

some_lem : {A : Type 0} (o : Option A) → is_some o ≡ true → (a : A) × (o ≡ some a)
some_lem none h = ground arith
some_lem (some a) h = (a, refl)

scope_sound :
    (t : EventType) (session application : Option String)
    → has_scope t session application ≡ true
    → HasTargets t session application
scope_sound session_revoked session application h =
    (some_lem session (ground (arith, h)), none_lem application (ground (arith, h)))
scope_sound password_changed session application h =
    (none_lem session (ground (arith, h)), none_lem application (ground (arith, h)))
scope_sound access_policy_changed session application h =
    (none_lem session (ground (arith, h)), some_lem application (ground (arith, h)))

uuid_sound :
    (o : Option Json) (id : String)
    → read_uuid o ≡ some id
    → (s : String) × (o ≡ some (string s)) × (to_lower s ≡ id) × (length (codes s) ≡ 36)
unfolding read_uuid
uuid_sound (some (string s)) id h = elim (Bool-cases (is_uuid s)) [
  | inl good ↦ (s, refl, ground (arith, h, good), is_uuid-length s good)
  | inr bad ↦ ground (arith, h, bad)
]
uuid_sound _ id h = cc

module _ (to_iso : String → Option String) where
  eight_fields :
      (fs : Fields) (e : RevocationEvent)
      → parse_revocation_event to_iso (object fs) ≡ some e
      → length (keys fs) ≡ 8
  unfolding parse_revocation_event has_event_fields
  eight_fields fs e h = ground (arith, h)

  -- What `parseRevocationEvent` returns has just the targets of its type: a session and no
  -- application, neither, or an application and no session. It was read from an object with eight
  -- fields, whose `eventId` and `userId` are texts of 36 characters that the event has in small
  -- letters. Its identifiers are UUIDs in small letters, its reason has the required form and no outer
  -- white space, its metadata is a JSON value nested ten levels deep at most, and its date is the
  -- engine's reading of a time in the required form.
  pub parse_revocation_event-accepted :
      (v : Json) (e : RevocationEvent)
      → parse_revocation_event to_iso v ≡ some e
      → HasTargets e.event_type e.central_session_id e.application_id
        × IsReadFrom v e
        × IsWellFormed e
        × HasDate to_iso e
  parse_revocation_event-accepted v e h =
      let (fs, same, read, scope) = parse_inv to_iso v e h in
      let r = read_event-IsRead to_iso fs e read in
      let (w, date) = parse_revocation_event-IsWellFormed to_iso v e h in
      (
        scope_sound e.event_type e.central_session_id e.application_id scope,
        record {
          fields = fs;
          object_of = same;
          eight = eight_fields fs e (subst (λ x. parse_revocation_event to_iso x ≡ some e) same h);
          event_id = uuid_sound (get "eventId" fs) e.event_id r.event_id;
          user_id = uuid_sound (get "userId" fs) e.user_id r.user_id;
        },
        w,
        date,
      )
