-- ===== src/Shared/Pattern.antt =====
-- The regular expressions of packages/shared/src/index.ts, as tests on the code points of a text,
-- and `toLowerCase` on the ASCII texts that they let through.
pub mod Lower
use Prim.Native.Char.{Char, code, nul}
use Prim.Native.String.{String}
use seleksi2_labpro.Prelude.{
  ℕ, zero, suc, ◌-◌, Bool, true, false, not, ◌&&◌, ◌||◌, List, [], ◌∷◌, ◌++◌, leb, ◌==◌,
  if◌then◌else◌,
}

abbrev pub codes : String → List ℕ
codes String.[] = []
codes (String.◌∷◌ c s) = code c ∷ codes s

pub is_digit : ℕ → Bool
is_digit c = leb b'0' c && leb c b'9'

pub is_lower : ℕ → Bool
is_lower c = leb b'a' c && leb c b'z'

-- `[0-9a-f]` under the flag `i`.
pub is_hex : ℕ → Bool
unfolding is_digit
is_hex c = is_digit c || (leb b'a' c && leb c b'f') || (leb b'A' c && leb c b'F')

abbrev is_dash : ℕ → Bool
is_dash c = c == b'-'

-- A pattern of fixed length: one class for each character.
pub matches : List (ℕ → Bool) → List ℕ → Bool
matches [] [] = true
matches [] (_ ∷ _) = false
matches (p ∷ ps) (c ∷ cs) = p c && matches ps cs
matches (_ ∷ _) [] = false

abbrev times : ℕ → (ℕ → Bool) → List (ℕ → Bool)
times zero p = []
times (suc n) p = p ∷ times n p

abbrev dash_hex : ℕ → List (ℕ → Bool) → List (ℕ → Bool)
dash_hex n ps = is_dash ∷ (times n is_hex ++ ps)

-- `UUID_PATTERN`
abbrev uuid_pattern : List (ℕ → Bool)
uuid_pattern = times 8 is_hex ++ dash_hex 4 (dash_hex 4 (dash_hex 4 (dash_hex 12 [])))

unfoldable pub is_uuid : String → Bool
unfolding matches is_hex
is_uuid s = matches uuid_pattern (codes s)

abbrev is_reason_char : ℕ → Bool
is_reason_char c = (leb b'a' c && leb c b'z') || (leb b'0' c && leb c b'9') || c == b'_'

-- At most `n` characters, each of the class.
unfoldable pub at_most : ℕ → (ℕ → Bool) → List ℕ → Bool
at_most n p [] = true
at_most zero p (c ∷ cs) = false
at_most (suc n) p (c ∷ cs) = p c && at_most n p cs

abbrev reason_codes : List ℕ → Bool
reason_codes [] = false
reason_codes (c ∷ cs) = is_lower c && at_most 99 is_reason_char cs

-- `REASON_PATTERN`
unfoldable pub is_reason : String → Bool
unfolding is_lower at_most
is_reason s = reason_codes (codes s)

-- `\d{4}-\d{2}-\d{2}T\d{2}:\d{2}:\d{2}`
abbrev date_time : List (ℕ → Bool)
date_time =
    times 4 is_digit
    ++ (is_dash
        ∷ (times 2 is_digit
            ++ (is_dash
                ∷ (times 2 is_digit
                    ++ ((λ c. c == b'T')
                        ∷ (times 2 is_digit
                            ++ ((λ c. c == b':')
                                ∷ (times 2 is_digit ++ ((λ c. c == b':') ∷ times 2 is_digit)))))))))

abbrev zulu : List (ℕ → Bool)
zulu = (λ c. c == b'Z') ∷ []

abbrev fraction : ℕ → List (ℕ → Bool)
fraction n = (λ c. c == b'.') ∷ (times n is_digit ++ zulu)

-- The pattern in `readOccurredAt`: with no fraction, or with one of one to three digits.
unfoldable pub is_timestamp : String → Bool
unfolding matches is_digit
is_timestamp s =
    matches (date_time ++ zulu) (codes s)
    || matches (date_time ++ fraction 1) (codes s)
    || matches (date_time ++ fraction 2) (codes s)
    || matches (date_time ++ fraction 3) (codes s)

-- The `n`-th character of a text.
abbrev pub char_or : String → ℕ → Char
char_or String.[] n = nul
char_or (String.◌∷◌ d s) zero = d
char_or (String.◌∷◌ d s) (suc n) = char_or s n

abbrev alphabet : String
alphabet = "abcdefghijklmnopqrstuvwxyz"

abbrev is_upper : ℕ → Bool
is_upper c = leb b'A' c && leb c b'Z'

pub lower_char : Char → Char
lower_char c = if is_upper (code c) then char_or alphabet (code c - b'A') else c

unfoldable pub to_lower : String → String
unfolding lower_char
to_lower String.[] = String.[]
to_lower (String.◌∷◌ c s) = String.◌∷◌ (lower_char c) (to_lower s)

-- The white space that `trim` removes.
is_space : ℕ → Bool
is_space c =
    (leb 9 c && leb c 13)
    || c == 32
    || c == 0xa0
    || c == 0x1680
    || (leb 0x2000 c && leb c 0x200a)
    || c == 0x2028
    || c == 0x2029
    || c == 0x202f
    || c == 0x205f
    || c == 0x3000
    || c == 0xfeff

abbrev last_is_space : List ℕ → Bool
last_is_space [] = false
last_is_space (c ∷ []) = is_space c
last_is_space (c ∷ d ∷ cs) = last_is_space (d ∷ cs)

abbrev trimmed : List ℕ → Bool
trimmed [] = true
trimmed (c ∷ cs) = not (is_space c) && not (last_is_space (c ∷ cs))

-- `value === value.trim()`
unfoldable pub is_trimmed : String → Bool
unfolding is_space
is_trimmed s = trimmed (codes s)
