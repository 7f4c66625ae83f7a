-- ===== src/App/Samples.antt =====
-- A store with one signed-in user, and an event that ends the session, for the tests.
use seleksi2_labpro.Prelude.{true, false, String, [], ◌∷◌, none, some}
use seleksi2_labpro.Shared.Json.{string, array, cons, nil, field, end}
use seleksi2_labpro.Shared.Pattern.{codes}
use seleksi2_labpro.Shared.Event.{RevocationEvent, session_revoked, to_json}
use seleksi2_labpro.App.Store.{AppStore, LocalSession, LocalSessionStatus, ProfileCache}
use seleksi2_labpro.App.Logout.{Surroundings, committing}
use seleksi2_labpro.App.Internal.{AppRuntime, InternalRequest}

abbrev pub event : RevocationEvent
event = record {
  event_id = "6f9619ff-8b86-d011-b42d-00c04fc964ff";
  event_type = session_revoked;
  user_id = "6f9619ff-8b86-d011-b42d-00c04fc964fe";
  central_session_id = some "6f9619ff-8b86-d011-b42d-00c04fc964fd";
  application_id = none;
  reason = "sso_logout";
  occurred_at = "2026-08-17T09:00:00.000Z";
  metadata = field "source" (string "auth_logout") end;
}

-- Digests that leave their text as it is, and a parser that knows one text.
abbrev pub plain : AppRuntime
plain = record {
  sha256_hex = λ s. s;
  sha256_bytes = codes;
  to_iso = λ s. some s;
  to_text = λ n. "1";
  normalize = λ s. s;
  parse_json = λ s. some (to_json event);
  decode = λ held chunk. some ("{}", []);
  flush = λ held. some "";
}

abbrev pub token : String
token = "ABCDEFGHIJKLMNOPQRSTUVWXYZabcdefghijklmnopq"

abbrev pub profile : ProfileCache
profile = record {
  external_user_id = "6f9619ff-8b86-d011-b42d-00c04fc964fe";
  name = "U";
  email = "u@x";
  groups = some (array (cons (string "staff") nil));
  synced_at = 1;
}

abbrev pub session : LocalSession
session = record {
  id = "local";
  session_token_hash = token;
  external_user_id = "6f9619ff-8b86-d011-b42d-00c04fc964fe";
  central_session_id = "6f9619ff-8b86-d011-b42d-00c04fc964fd";
  status = LocalSessionStatus.active;
  created_at = 1;
  expires_at = 100000;
  last_activity_at = none;
  revoked_at = none;
  revoke_reason = none;
}

abbrev pub store : AppStore
store = record {
  profiles = profile ∷ [];
  local_sessions = session ∷ [];
  activity_logs = [];
  processed_events = [];
}

-- Nobody else writes, and the database answers.
abbrev pub nobody : Surroundings
nobody = record { meanwhile = λ s. s; fails = λ k. false }

-- The database is lost at the end of the transaction.
abbrev pub lost : Surroundings
lost = record { meanwhile = λ s. s; fails = λ k. elim k [ committing ↦ true | _ ↦ false ] }

-- A notification with the service's secret.
abbrev pub request : InternalRequest
request = record {
  authorization = some "Bearer secret";
  content_type = some "application/json";
  content_length = some "12";
  body = some (123 ∷ 125 ∷ []) ∷ [];
}
