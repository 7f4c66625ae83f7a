-- ===== src/Shared/Event/Tests.antt =====
-- Events of packages/shared/src/index.ts, good and bad.
use seleksi2_labpro.Prelude.{String, ◌≡◌, refl, Option, none, some}
use seleksi2_labpro.Shared.Json.{
  Json, null, number, string, object, array, cons, nil, end, field, is_json_value,
}
use seleksi2_labpro.Shared.Canonical.{canonical_json}
use seleksi2_labpro.Shared.Pattern.{is_uuid, is_reason, is_timestamp, is_trimmed, to_lower}
use seleksi2_labpro.Shared.Event.{
  RevocationEvent, session_revoked, parse_revocation_event, to_json, read_event_type, read_reason,
  read_metadata, read_uuid, read_nullable_uuid, read_occurred_at,
}
use seleksi2_labpro.Shared.Event.WellFormed.{
  IsWellFormed, HasDate, parse_revocation_event-IsWellFormed,
}
use seleksi2_labpro.Shared.Event.Accepted.{HasTargets, IsReadFrom, parse_revocation_event-accepted}
use seleksi2_labpro.Shared.Event.RoundTrip.{parse_revocation_event-to_json}

-- An engine that leaves its dates as they are.
abbrev same_date : String → Option String
same_date s = some s

abbrev source : String → Json → Json
source reason session = object (
    field "eventId" (string "6F9619FF-8B86-D011-B42D-00C04FC964FF") (
      field "eventType" (string "SessionRevoked") (
        field "userId" (string "6f9619ff-8b86-d011-b42d-00c04fc964fe") (
          field "centralSessionId" session (
            field "applicationId" null (
              field "reason" (string reason) (
                field "occurredAt" (string "2026-08-17T09:00:00.000Z")
                  (field "metadata" (object (field "n" (number "1") end)) end))))))))

abbrev logout_event : RevocationEvent
logout_event = record {
  event_id = "6f9619ff-8b86-d011-b42d-00c04fc964ff";
  event_type = session_revoked;
  user_id = "6f9619ff-8b86-d011-b42d-00c04fc964fe";
  central_session_id = some "6f9619ff-8b86-d011-b42d-00c04fc964fd";
  application_id = none;
  reason = "sso_logout";
  occurred_at = "2026-08-17T09:00:00.000Z";
  metadata = field "n" (number "1") end;
}

parse : Json → Option RevocationEvent
unfolding parse_revocation_event read_event_type read_reason read_metadata is_json_value read_uuid
    read_nullable_uuid read_occurred_at is_uuid is_reason is_timestamp is_trimmed to_lower
parse = parse_revocation_event same_date

parses :
    parse (source "sso_logout" (string "6f9619ff-8b86-d011-b42d-00c04fc964fd")) ≡ some logout_event
unfolding parse
parses = refl

needs_session : parse (source "sso_logout" null) ≡ none
unfolding parse
needs_session = refl

bad_reason : parse (source "SSO" (string "6f9619ff-8b86-d011-b42d-00c04fc964fd")) ≡ none
unfolding parse
bad_reason = refl

parse_revocation_event-accepted_example :
    HasTargets session_revoked (some "6f9619ff-8b86-d011-b42d-00c04fc964fd") none
    × IsReadFrom (source "sso_logout" (string "6f9619ff-8b86-d011-b42d-00c04fc964fd")) logout_event
    × IsWellFormed logout_event
    × HasDate same_date logout_event
unfolding parse
parse_revocation_event-accepted_example =
    parse_revocation_event-accepted same_date
      (source "sso_logout" (string "6f9619ff-8b86-d011-b42d-00c04fc964fd")) logout_event parses

logout_event-IsWellFormed : IsWellFormed logout_event
unfolding parse
logout_event-IsWellFormed =
    (parse_revocation_event-IsWellFormed same_date
      (source "sso_logout" (string "6f9619ff-8b86-d011-b42d-00c04fc964fd")) logout_event parses).0

parse_revocation_event-to_json_example :
    parse_revocation_event same_date (to_json logout_event) ≡ some logout_event
unfolding is_timestamp
parse_revocation_event-to_json_example =
    parse_revocation_event-to_json same_date logout_event logout_event-IsWellFormed (refl, refl)

sample_text :
    canonical_json
      (object (field "b" (number "1") (field "a" (array (cons null (cons (string "x") nil))) end)))
    ≡ "{\"a\":[null,\"x\"],\"b\":1}"
unfolding canonical_json
sample_text = refl
