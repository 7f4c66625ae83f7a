-- ===== src/Server/Tests.antt =====
-- Sessions, second factors, profiles and the outbox of a small organisation.
use seleksi2_labpro.Prelude.{
  filter, any, true, ◌≡◌, ◌≢◌, refl, String, false, Option, none, some, [], ◌∷◌, ok, err, Result,
  ◌⊎◌, ◌>>=◌, find_by, count, any, filter, update_where, arith,
}
use seleksi2_labpro.Database.{reference, reference-IsDocumented}
use seleksi2_labpro.Schema.Sessions.{MfaLoginIntent, SessionStatus}
use seleksi2_labpro.Schema.Events.{OutboxEvent, OutboxEventStatus}
use seleksi2_labpro.Shared.Json.{string, object, field, end}
use seleksi2_labpro.Server.Store.{
  ServerStore, ServerError, user_info, update_sessions, update_tokens, update_challenges,
  update_totps, update_recovery_codes, create_session,
}
use seleksi2_labpro.Server.Runtime.{is_letter, is_figure, is_url_safe, every}
use seleksi2_labpro.Server.Outbox.{enqueue, enqueue_many, enqueue_all}
use seleksi2_labpro.Server.Access.{is_administrator, can_access, issue}
use seleksi2_labpro.Server.Samples.{plain, settings, call, opaque, organisation, session, token}
use seleksi2_labpro.Server.Mfa.{
  CompletedMfaChallenge, complete, finish, seal, claim_factor, reject, note_failure, proved_factor,
  is_acceptable,
}
use seleksi2_labpro.Server.Mfa.Attempts.{IsCapped, complete-IsCapped}
use seleksi2_labpro.Server.Mfa.Codes.{
  is_totp_code, validate_token, hash_recovery_code, normalize_recovery_code, without_dashes,
}
use seleksi2_labpro.Server.Mfa.Once.{complete_once}
use seleksi2_labpro.Server.Auth.{get_current_session, logout, revoke_session, invalid_session}
use seleksi2_labpro.Server.Auth.Logout.{logout_refuses_token}
use seleksi2_labpro.Server.UserInfo.Entitled.{IsGranted, get_profile-IsGranted}
use seleksi2_labpro.Server.UserInfo.{
  UserInfoResult, read_profile, accept_token, is_allowed, get_profile, parse_bearer_token,
  strip_prefix_nocase,
}
use seleksi2_labpro.Server.UserInfo.Access.{logout_refuses_profile}
use seleksi2_labpro.Server.Authorization.{AuthorizationRequestInput, authorize, untrusted}
use seleksi2_labpro.Server.Authorization.Granted.{IsTrusted, authorize-IsTrusted}
use seleksi2_labpro.Server.Publisher.{
  PublisherStore, PublishPolicy, confirmed, Surroundings, publish_one,
}
use seleksi2_labpro.Server.Publisher.Outcome.{Holds, settled, has_id, publish_one_settles}

after_logout : ServerStore
unfolding logout revoke_session enqueue enqueue_many enqueue_all update_sessions update_tokens ◌>>=◌
after_logout = (logout ⦃db = reference⦄ plain settings (call 1000 "event") "cookie" organisation).1

logout_refuses_token_example :
    (get_current_session ⦃db = reference⦄ plain settings (call 2000 "x") "cookie" after_logout).0
    ≡ err invalid_session
unfolding after_logout
logout_refuses_token_example =
    logout_refuses_token ⦃db = reference⦄ reference-IsDocumented plain settings (call 1000 "event")
      (call 2000 "x") "cookie" organisation after_logout refl

abbrev bearer : Option String
bearer = some "Bearer ABCDEFGHIJKLMNOPQRSTUVWXYZabcdefghijklmnopq"

bearer_parses : parse_bearer_token bearer ≡ some opaque
unfolding parse_bearer_token is_url_safe every strip_prefix_nocase is_letter is_figure
bearer_parses = refl

abbrev the_profile : UserInfoResult
the_profile = record {
  sub = "user";
  name = "U";
  email = "u@x";
  groups = "staff" ∷ [];
  aud = "app";
  client_id = "app";
  central_session_id = "session";
  scope = "profile";
}

gets_profile :
    (get_profile ⦃db = reference⦄ plain (call 1000 "x") bearer organisation).0 ≡ ok the_profile
unfolding get_profile read_profile accept_token is_allowed parse_bearer_token is_url_safe every
    strip_prefix_nocase is_letter is_figure update_sessions update_tokens find_by count filter any
    update_where ◌>>=◌
gets_profile = refl

get_profile-IsGranted_example : IsGranted plain (call 1000 "x") bearer organisation
get_profile-IsGranted_example =
    get_profile-IsGranted ⦃db = reference⦄ reference-IsDocumented plain (call 1000 "x") organisation
      bearer the_profile gets_profile

logout_refuses_profile_example :
    (get_profile ⦃db = reference⦄ plain (call 2000 "x") bearer after_logout).0 ≡ err user_info
unfolding after_logout find_by count update_where
logout_refuses_profile_example =
    logout_refuses_profile ⦃db = reference⦄ reference-IsDocumented plain settings
      (call 1000 "event") (call 2000 "x") "cookie" opaque bearer organisation after_logout session
      (record token { status = SessionStatus.revoked; revoked_at = some 1000 }) refl refl
      bearer_parses refl refl

-- The user's code is accepted once.
completed : Result ServerError CompletedMfaChallenge × ServerStore
unfolding complete finish seal claim_factor reject note_failure proved_factor is_acceptable
    is_totp_code validate_token hash_recovery_code normalize_recovery_code without_dashes every
    is_figure can_access is_administrator issue create_session update_challenges update_totps
    update_recovery_codes ◌>>=◌ find_by count any filter update_where
completed =
    complete ⦃db = reference⦄ plain settings (call 1000 "new") "challenge-token" "123456"
      (MfaLoginIntent.api ∷ []) organisation

abbrev completion : CompletedMfaChallenge
completion = record {
  login = record {
    session_token = "new";
    user = record { id = "user"; name = "U"; email = "u@x"; can_access_control_panel = false };
    session = record {
      id = "new";
      status = SessionStatus.active;
      created_at = 1000;
      expires_at = 3601000;
    };
  };
  intent = MfaLoginIntent.api;
  return_to = none;
}

completes : completed.0 ≡ ok completion
unfolding completed
completes = refl

after_completion : ServerStore
unfolding completed
after_completion = completed.1

complete_once_example :
    (complete ⦃db = reference⦄ plain settings
      (call 2000 "newer")
      "challenge-token"
      "123456"
      (MfaLoginIntent.api ∷ [])
      after_completion).0
    ≢ ok completion
unfolding completed after_completion
complete_once_example =
    complete_once ⦃db = reference⦄ reference-IsDocumented plain settings (call 1000 "new")
      (call 2000 "newer") "challenge-token" "123456" "123456" (MfaLoginIntent.api ∷ [])
      (MfaLoginIntent.api ∷ []) organisation after_completion completion completion completes refl

abbrev authorization : AuthorizationRequestInput
authorization = record {
  client_id = some (string "app");
  redirect_uri = some (string "https://elsewhere");
  response_type = some (string "code");
  state = none;
  code_challenge = none;
  code_challenge_method = none;
}

authorize-IsTrusted_example :
    IsTrusted plain authorization organisation
    ⊎ (authorize ⦃db = reference⦄ plain settings (call 1000 "x") authorization none organisation
        ≡ (err untrusted, organisation))
authorize-IsTrusted_example =
    authorize-IsTrusted ⦃db = reference⦄ reference-IsDocumented plain settings (call 1000 "x")
      authorization none organisation

abbrev event : OutboxEvent
event = record {
  id = "event";
  event_type = "SessionRevoked";
  user_id = "user";
  central_session_id = some "session";
  application_id = none;
  payload = object (field "eventId" (string "event") end);
  status = OutboxEventStatus.pending;
  publish_attempt_count = 0;
  last_publish_attempt_at = none;
  next_publish_attempt_at = none;
  last_error = none;
  published_at = none;
}

abbrev outbox : PublisherStore
outbox = record { outbox_events = event ∷ []; sent = [] }

abbrev broker : Surroundings
broker = record { started_at = 1000; finished_at = 1010; answer = confirmed; meanwhile = λ s. s }

abbrev publishing : PublishPolicy
publishing = record { lease_ms = 30000; retry_base_ms = 1000; retry_max_ms = 60000 }

Holds-event : Holds event event outbox.outbox_events
unfolding find_by count
Holds-event = record { once = omega arith; at = refl }

publish_one_settles_example :
    ((publish_one ⦃db = reference⦄ publishing event broker outbox).0 ≡ ok (1, true))
    × (find_by
          (has_id event.id)
          (publish_one ⦃db = reference⦄ publishing event broker outbox).1.outbox_events
        ≡ some (settled publishing broker event confirmed))
    × ((publish_one ⦃db = reference⦄ publishing event broker outbox).1.sent ≡ event.payload ∷ [])
publish_one_settles_example =
    publish_one_settles ⦃db = reference⦄ reference-IsDocumented publishing event broker outbox event
      (field "eventId" (string "event") end) "event" (λ s. (refl, refl)) Holds-event refl refl refl

organisation-IsCapped : IsCapped 5 organisation
organisation-IsCapped = (omega arith, tt)

complete-IsCapped_example :
    IsCapped 5
      (complete ⦃db = reference⦄ plain settings
        (call 1000 "new")
        "challenge-token"
        "000000"
        []
        organisation).1
complete-IsCapped_example =
    complete-IsCapped ⦃db = reference⦄ reference-IsDocumented plain settings (call 1000 "new")
      "challenge-token" "000000" [] organisation organisation-IsCapped
