-- ===== src/Server/Mfa/Codes.antt =====
-- The codes that prove a second factor: `validateToken` of auth-provider/server/src/mfa/
-- totp.service.ts and `normalize` and `hash` of mfa-recovery-code.service.ts.
use Prim.Native.String
use Prim.Native.Char.{code}
use seleksi2_labpro.Prelude.{
  ℕ, ◌+◌, ◌-◌, ◌/◌, String, Bool, ◌&&◌, ◌||◌, Option, none, some, leb, ◌==◌, if◌then◌else◌, length,
}
use seleksi2_labpro.Shared.Pattern.{codes}
use seleksi2_labpro.Server.Runtime.{Runtime, Delta, hash_secret, every, is_figure}

-- `/^\d{6}$/`
unfoldable pub is_totp_code : String → Bool
unfolding every is_figure
is_totp_code s = let cs = codes s in every is_figure cs && length cs == 6

abbrev shifted : ℕ → Option Delta → Option ℕ
shifted n none = none
shifted n (some Delta.before) = some (n - 1)
shifted n (some Delta.same) = some n
shifted n (some Delta.after) = some (n + 1)

-- `TotpService.validateToken`; a period is 30 seconds.
unfoldable pub validate_token : Runtime → String → String → ℕ → Option ℕ
unfolding is_totp_code
validate_token rt secret token timestamp =
    if is_totp_code token
    then shifted (timestamp / 30000) (rt.totp_validate secret token timestamp)
    else none

-- `replaceAll('-', '')`
unfoldable pub without_dashes : String → String
without_dashes String.[] = ""
without_dashes (String.◌∷◌ c s) =
    let rest = without_dashes s in if code c == b'-' then rest else String.◌∷◌ c rest

-- `[A-HJ-NP-Z2-9]`
abbrev pub is_recovery_char : ℕ → Bool
is_recovery_char c =
    (leb b'A' c && leb c b'H')
    || (leb b'J' c && leb c b'N')
    || (leb b'P' c && leb c b'Z')
    || (leb b'2' c && leb c b'9')

-- `MfaRecoveryCodeService.normalize`
unfoldable pub normalize_recovery_code : Runtime → String → Option String
unfolding without_dashes every
normalize_recovery_code rt input =
    let normalized = without_dashes (rt.normalize_upper input) in
    let cs = codes normalized in
    if every is_recovery_char cs && length cs == 12 then some normalized else none

abbrev text_append : String → String → String
text_append = String.◌++◌

abbrev hash_of : Runtime → String → Option String → Option String
hash_of rt user_id none = none
hash_of rt user_id (some normalized) = some (
    hash_secret rt (text_append "mfa-recovery:" (text_append user_id (text_append ":" normalized))))

-- `MfaRecoveryCodeService.hash`
unfoldable pub hash_recovery_code : Runtime → String → String → Option String
unfolding normalize_recovery_code
hash_recovery_code rt user_id input = hash_of rt user_id (normalize_recovery_code rt input)
