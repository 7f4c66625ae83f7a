-- ===== src/Server/Runtime.antt =====
-- What the server uses of Node.js and of packages outside the repository, as a parameter; the
-- settings; and the readers of common/security and of request fields that several services share.
use Prim.Native.Char.{code}
use seleksi2_labpro.Prelude.{
  ℕ, String, Bool, true, false, ◌&&◌, ◌||◌, List, [], ◌∷◌, Option, none, some, leb, ltb, ◌==◌,
  ◌===◌, if◌then◌else◌, length,
}
use seleksi2_labpro.Shared.Json.{Json, string}
use seleksi2_labpro.Shared.Canonical.{units}

-- `TOTP.validate`'s answer for a window of one step: -1, 0 or 1.
pub data Delta : Type 0 where
  before same after : Delta

-- `new URL(value)`, as far as it is looked at.
pub record Url : Type 0 where
  pub protocol : String
  pub username : String
  pub password : String
  pub hash : String

-- sha256_hex: createHash('sha256')…digest('hex');  sha256_base64url: the same in base64url;
-- bytes_of_hex, bytes_of_ascii: Buffer.from;  text_of_base64: Buffer.from(…, 'base64').toString;
-- verify_password: argon2's verify;  decrypt: MfaSecretCryptoService.decrypt, `none` where it throws;
-- totp_validate: TOTP.validate;  parse_url: new URL, `none` where it throws;
-- with_code: the URL with `code` and `state` set;  trim, and normalize: trim and toLowerCase;
-- normalize_upper: trim and toUpperCase;  to_iso: toISOString.
pub record Runtime : Type 0 where
  pub sha256_hex : String → String
  pub sha256_base64url : String → String
  pub bytes_of_hex : String → List ℕ
  pub bytes_of_ascii : String → List ℕ
  pub text_of_base64 : String → String
  pub verify_password : String → String → Bool
  pub decrypt : String → String → Option String
  pub totp_validate : String → String → ℕ → Option Delta
  pub parse_url : String → Option Url
  pub with_code : String → String → String → String
  pub trim : String → String
  pub normalize : String → String
  pub normalize_upper : String → String
  pub to_iso : ℕ → String

-- The environment's settings.
pub record Settings : Type 0 where
  pub access_token_ttl_seconds : ℕ
  pub sso_session_ttl_seconds : ℕ
  pub authorization_code_ttl_seconds : ℕ
  pub mfa_challenge_ttl_seconds : ℕ
  pub mfa_challenge_max_attempts : ℕ

-- One call: the clock, the random token and identifiers that it draws, and where it comes from.
pub record Call : Type 0 where
  pub now : ℕ
  pub fresh_token : String
  pub fresh_id : String
  pub ip_address : Option String
  pub user_agent : Option String

-- `Buffer` equality, which `timingSafeEqual` decides.
unfoldable pub same_bytes : List ℕ → List ℕ → Bool
same_bytes [] [] = true
same_bytes [] (_ ∷ _) = false
same_bytes (_ ∷ _) [] = false
same_bytes (a ∷ x) (b ∷ y) = a == b && same_bytes x y

-- `hashSecret`, which `hashOpaqueToken` is.
abbrev pub hash_secret : Runtime → String → String
hash_secret rt = rt.sha256_hex

-- `verifySecret`
unfoldable pub verify_secret : Runtime → String → String → Bool
unfolding same_bytes
verify_secret rt secret expected_hash =
    same_bytes (rt.bytes_of_hex expected_hash) (rt.bytes_of_hex (hash_secret rt secret))

-- `readBoundedString`
unfoldable pub read_bounded_string : Option Json → ℕ → Option String
read_bounded_string (some (string s)) n =
    let l = length (units s) in if ltb 0 l && leb l n then some s else none
read_bounded_string _ n = none

-- A field that is the text `s`.
abbrev pub is_text : String → Option Json → Bool
is_text s (some (string t)) = t === s
is_text s _ = false

-- The classes of the patterns.
unfoldable pub is_letter : ℕ → Bool
is_letter c = (leb b'A' c && leb c b'Z') || (leb b'a' c && leb c b'z')

unfoldable pub is_figure : ℕ → Bool
is_figure c = leb b'0' c && leb c b'9'

-- `[A-Za-z0-9_-]`
unfoldable pub is_url_safe : ℕ → Bool
unfolding is_letter is_figure
is_url_safe c = is_letter c || is_figure c || c == b'_' || c == b'-'

-- `[A-Za-z0-9._~-]`
unfoldable pub is_unreserved : ℕ → Bool
unfolding is_url_safe
is_unreserved c = is_url_safe c || c == b'.' || c == b'~'

-- `[A-Za-z0-9+/]`
unfoldable pub is_base64_char : ℕ → Bool
unfolding is_letter is_figure
is_base64_char c = is_letter c || is_figure c || c == b'+' || c == b'/'

unfoldable pub every : (ℕ → Bool) → List ℕ → Bool
every p [] = true
every p (c ∷ cs) = p c && every p cs

-- What follows a prefix.
unfoldable pub strip_prefix : String → String → Option String
strip_prefix String.[] s = some s
strip_prefix (String.◌∷◌ c p) String.[] = none
strip_prefix (String.◌∷◌ c p) (String.◌∷◌ d s) = if code c == code d then strip_prefix p s else none
