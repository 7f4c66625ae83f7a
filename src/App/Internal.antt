-- ===== src/App/Internal.antt =====
-- The endpoint that the sync worker calls: applications/app-a/src/app/internal/logout/route.ts, with
-- lib/internal/service-auth.ts.
pub mod Answers
use Prim.Native.String
use Prim.Native.Char.{code}
use seleksi2_labpro.Prelude.{
  ℕ, ◌+◌, ◌*◌, ◌-◌, String, Bool, true, false, ◌&&◌, not, List, [], ◌∷◌, Option, none, some, ltb,
  leb, ◌==◌, ◌===◌, if◌then◌else◌, length, Result, ok, err,
}
use seleksi2_labpro.Database.{Prisma}
use seleksi2_labpro.Shared.Json.{Json}
use seleksi2_labpro.Shared.Pattern.{codes}
use seleksi2_labpro.Shared.Event.{RevocationEvent, parse_revocation_event}
use seleksi2_labpro.Server.Runtime.{is_figure, every, same_bytes}
use seleksi2_labpro.Server.UserInfo.{strip_prefix_nocase}
use seleksi2_labpro.App.Store.{
  AppStore, AppError, processed_event_conflict, unique_constraint, unavailable,
}
use seleksi2_labpro.App.Logout.{ProcessingState, Surroundings, process}

-- sha256_hex, sha256_bytes: createHash('sha256');  to_iso: new Date(…).toISOString(), `none` where
-- the date is not a number;  to_text: a number in decimal figures;  normalize: trim and toLowerCase;
-- parse_json: JSON.parse, `none` where it throws;  decode, flush: a fatal TextDecoder's decode with
-- `stream` and the last one, from the bytes that it holds back to the text and the bytes that it then
-- holds back, `none` where it throws.
pub record AppRuntime : Type 0 where
  pub sha256_hex : String → String
  pub sha256_bytes : String → List ℕ
  pub to_iso : String → Option String
  pub to_text : ℕ → String
  pub normalize : String → String
  pub parse_json : String → Option Json
  pub decode : List ℕ → List ℕ → Option (String × List ℕ)
  pub flush : List ℕ → Option String

-- A request: three of its headers, and what each call of the body's reader gives, `none` where it
-- fails.
pub record InternalRequest : Type 0 where
  pub authorization : Option String
  pub content_type : Option String
  pub content_length : Option String
  pub body : List (Option (List ℕ))

-- The HTTP status, the error's code or "processed", and the event's identifier.
pub record Response : Type 0 where
  pub status : ℕ
  pub code : String
  pub event_id : Option String

-- `[\x21-\x7e]+`
abbrev is_visible : String → Bool
is_visible s = let cs = codes s in ltb 0 (length cs) && every (λ c. leb 0x21 c && leb c 0x7e) cs

abbrev service_secret : Option String → Option String
service_secret none = none
service_secret (some s) = if is_visible s then some s else none

abbrev bearer : Option String → Option String
bearer none = none
bearer (some header) = service_secret (strip_prefix_nocase "bearer " header)

abbrev same_secret : AppRuntime → String → Option String → Bool
same_secret rt expected none = false
same_secret rt expected (some s) = same_bytes (rt.sha256_bytes s) (rt.sha256_bytes expected)

-- `isInternalServiceAuthorized`
unfoldable pub is_internal_service_authorized : AppRuntime → Option String → String → Bool
unfolding every strip_prefix_nocase same_bytes
is_internal_service_authorized rt header expected_secret =
    same_secret rt expected_secret (bearer header)

-- `MAX_PAYLOAD_BYTES`
abbrev pub max_payload_bytes : ℕ
max_payload_bytes = 16 * 1024

pub data PayloadError : Type 0 where
  unsupported_media_type payload_too_large invalid_event : PayloadError

-- The text before the first semicolon.
unfoldable pub before_semicolon : String → String
before_semicolon String.[] = ""
before_semicolon (String.◌∷◌ c s) =
    let rest = before_semicolon s in if code c == b';' then "" else String.◌∷◌ c rest

abbrev pub is_json : AppRuntime → Option String → Bool
is_json rt none = false
is_json rt (some t) = rt.normalize (before_semicolon t) === "application/json"

-- `Number` of a text of figures.
unfoldable pub figures_value : ℕ → List ℕ → ℕ
figures_value n [] = n
figures_value n (c ∷ cs) = figures_value (n * 10 + (c - 48)) cs

unfoldable pub is_declared_too_large : Option String → Bool
unfolding every is_figure figures_value
is_declared_too_large none = false
is_declared_too_large (some l) =
    let cs = codes l in
    ltb 0 (length cs) && every is_figure cs && ltb max_payload_bytes (figures_value 0 cs)

abbrev pub with_text : String → Result PayloadError String → Result PayloadError String
with_text t (ok rest) = ok (String.◌++◌ t rest)
with_text t (err e) = err e

abbrev flushed : Option String → Result PayloadError String
flushed none = err invalid_event
flushed (some t) = ok t

-- The loop over the body: the bytes that were received, and those that the decoder holds back.
unfoldable pub read_chunks :
    AppRuntime → ℕ → List ℕ → List (Option (List ℕ)) → Result PayloadError String
read_chunks rt received held [] = flushed (rt.flush held)
read_chunks rt received held (none ∷ rest) = err invalid_event
read_chunks rt received held (some chunk ∷ rest) =
    if ltb max_payload_bytes (received + length chunk)
    then err payload_too_large
    else elim (rt.decode held chunk) [
      | none ↦ err invalid_event
      | some (t, held') ↦ with_text t (read_chunks rt (received + length chunk) held' rest)
    ]

abbrev pub parsed : AppRuntime → Result PayloadError String → Result PayloadError Json
parsed rt (err e) = err e
parsed rt (ok t) = elim (rt.parse_json t) [ none ↦ err invalid_event | some v ↦ ok v ]

-- `readJsonPayload`
unfoldable pub read_json_payload : AppRuntime → InternalRequest → Result PayloadError Json
unfolding before_semicolon is_declared_too_large read_chunks
read_json_payload rt request =
    if not (is_json rt request.content_type)
    then err unsupported_media_type
    else if is_declared_too_large request.content_length
    then err payload_too_large
    else parsed rt (read_chunks rt 0 [] request.body)

-- `errorResponse`
abbrev pub error_response : ℕ → String → Response
error_response status code = record { status = status; code = code; event_id = none }

unfoldable pub refusal : PayloadError → Response
refusal unsupported_media_type = error_response 415 "UNSUPPORTED_MEDIA_TYPE"
refusal payload_too_large = error_response 413 "PAYLOAD_TOO_LARGE"
refusal invalid_event = error_response 400 "INVALID_EVENT"

-- The answer by how the event was processed.
unfoldable pub answer : RevocationEvent → Result AppError ProcessingState → Response
answer e (ok a) = record { status = 200; code = "processed"; event_id = some e.event_id }
answer e (err processed_event_conflict) = error_response 409 "EVENT_ID_CONFLICT"
answer e (err _) = error_response 503 "INTERNAL_LOGOUT_UNAVAILABLE"

module _ ⦃db : Prisma⦄ (rt : AppRuntime) (now : ℕ) (env : Surroundings) where
  unfoldable pub post_event : Option RevocationEvent → AppStore → Response × AppStore
  unfolding process answer
  post_event none s = (error_response 400 "INVALID_EVENT", s)
  post_event (some e) s =
      let (r, s') = process rt.sha256_hex rt.to_text e now env s in (answer e r, s')

  unfoldable pub post_payload : Result PayloadError Json → AppStore → Response × AppStore
  unfolding post_event refusal parse_revocation_event
  post_payload (err e) s = (refusal e, s)
  post_payload (ok v) s = post_event (parse_revocation_event rt.to_iso v) s

  -- `POST`
  unfoldable pub post : String → InternalRequest → AppStore → Response × AppStore
  unfolding post_payload is_internal_service_authorized read_json_payload
  post internal_service_secret request s =
      if is_internal_service_authorized rt request.authorization internal_service_secret
      then post_payload (read_json_payload rt request) s
      else (error_response 401 "INVALID_INTERNAL_CREDENTIAL", s)
