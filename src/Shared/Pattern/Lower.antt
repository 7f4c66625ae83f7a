-- ===== src/Shared/Pattern/Lower.antt =====
-- `toLowerCase` on a UUID: it is again one, and a second call changes nothing.
use Prim.Native.Char.{Char, code}
use text.Mathlib.TextLemmas.{cons-eq-cons}
use seleksi2_labpro.Prelude.{
  length, ap, ℕ, zero, suc, ◌+◌, ◌-◌, ◌<◌, ◌≡◌, refl, String, Bool, true, false, List, [], ◌∷◌,
  ◌++◌, map, arith, ◌==◌, if◌then◌else◌, Bool-cases, inl, inr, All, All-append, and-true,
}
use seleksi2_labpro.Shared.Pattern.{
  codes, is_hex, is_dash, matches, times, dash_hex, uuid_pattern, is_uuid, char_or, alphabet,
  is_upper, lower_char, to_lower,
}

matches-length : (ps : List (ℕ → Bool)) (cs : List ℕ) → matches ps cs ≡ true → length cs ≡ length ps
unfolding matches
matches-length [] [] h = refl
matches-length [] (c ∷ cs) h = ground arith
matches-length (p ∷ ps) [] h = ground arith
matches-length (p ∷ ps) (c ∷ cs) h = ap suc (matches-length ps cs (ground (arith, h)))

-- A UUID has 36 characters.
pub is_uuid-length : (s : String) → is_uuid s ≡ true → length (codes s) ≡ 36
unfolding is_uuid
is_uuid-length s h = matches-length uuid_pattern (codes s) h

-- A test on the first numbers, decided by running it.
every_below : (ℕ → Bool) → ℕ → Bool
every_below test zero = true
every_below test (suc last) = if test last then every_below test last else false

every_below-passes :
    (test : ℕ → Bool) (bound k : ℕ) → k < bound → every_below test bound ≡ true → test k ≡ true
unfolding every_below
every_below-passes test zero k small passed = ground arith
every_below-passes test (suc last) k small passed = elim (Bool-cases (test last)) [
  | inl pass ↦ ground (arith, pass, every_below-passes test last k)
  | inr miss ↦ ground (arith, miss)
]

abbrev is_shifted : ℕ → Bool
is_shifted n = code (char_or alphabet n) == n + 97

alphabet_shifted : every_below is_shifted 26 ≡ true
unfolding every_below
alphabet_shifted = refl

code-char_or : (n : ℕ) → n < 26 → code (char_or alphabet n) ≡ n + 97
code-char_or n h = ground (arith, every_below-passes is_shifted 26 n h alphabet_shifted)

abbrev lower_code : ℕ → ℕ
lower_code c = if is_upper c then c + 32 else c

code-lower_char : (c : Char) → code (lower_char c) ≡ lower_code (code c)
unfolding lower_char
code-lower_char c = elim (Bool-cases (is_upper (code c))) [
  | inl up ↦ rw (up, code-char_or (code c - 65) (ground arith)) (ground arith)
  | inr other ↦ rw other
]

codes-to_lower : (s : String) → codes (to_lower s) ≡ map lower_code (codes s)
unfolding to_lower
codes-to_lower String.[] = refl
codes-to_lower (String.◌∷◌ c s) = rw (code-lower_char c, codes-to_lower s)

lower_char_fixed : (c : Char) → is_upper (code c) ≡ false → lower_char c ≡ c
unfolding lower_char
lower_char_fixed c h = rw h

not_upper-lower_char : (c : Char) → is_upper (code (lower_char c)) ≡ false
not_upper-lower_char c = rw code-lower_char (ground arith)

-- A second `toLowerCase` changes nothing.
pub to_lower_idem : (s : String) → to_lower (to_lower s) ≡ to_lower s
unfolding to_lower
to_lower_idem String.[] = refl
to_lower_idem (String.◌∷◌ c s) =
    cons-eq-cons.1 (lower_char_fixed (lower_char c) (not_upper-lower_char c), to_lower_idem s)

-- A class of characters that contains the small letter of each of its capitals.
abbrev IsCaseClosed : (ℕ → Bool) → Type 0
IsCaseClosed p = (c : ℕ) → p c ≡ true → p (lower_code c) ≡ true

is_hex-IsCaseClosed : IsCaseClosed is_hex
unfolding is_hex
is_hex-IsCaseClosed c h = ground arith

is_dash-IsCaseClosed : IsCaseClosed is_dash
is_dash-IsCaseClosed c h = ground arith

times-IsCaseClosed : (n : ℕ) (p : ℕ → Bool) → IsCaseClosed p → All IsCaseClosed (times n p)
times-IsCaseClosed zero p h = tt
times-IsCaseClosed (suc n) p h = (h, times-IsCaseClosed n p h)

matches-map :
    (ps : List (ℕ → Bool)) (cs : List ℕ)
    → All IsCaseClosed ps
    → matches ps cs ≡ true
    → matches ps (map lower_code cs) ≡ true
unfolding matches
matches-map [] [] closed h = refl
matches-map [] (_ ∷ _) closed h = cc
matches-map (p ∷ ps) (c ∷ cs) (here, later) h =
    let (hit, rest) = and-true (p c) (matches ps cs) h in
    rw (here c hit) (matches-map ps cs later rest)
matches-map (_ ∷ _) [] closed h = cc

hex_run :
    (n : ℕ) (ps : List (ℕ → Bool)) → All IsCaseClosed ps → All IsCaseClosed (times n is_hex ++ ps)
hex_run n ps h =
    All-append IsCaseClosed (times n is_hex) ps (times-IsCaseClosed n is_hex is_hex-IsCaseClosed) h

dash_hex-IsCaseClosed :
    (n : ℕ) (ps : List (ℕ → Bool)) → All IsCaseClosed ps → All IsCaseClosed (dash_hex n ps)
dash_hex-IsCaseClosed n ps h = (is_dash-IsCaseClosed, hex_run n ps h)

uuid_pattern-IsCaseClosed : All IsCaseClosed uuid_pattern
uuid_pattern-IsCaseClosed = hex_run 8 (dash_hex 4 (dash_hex 4 (dash_hex 4 (dash_hex 12 [])))) (
    dash_hex-IsCaseClosed 4 (dash_hex 4 (dash_hex 4 (dash_hex 12 []))) (
      dash_hex-IsCaseClosed 4 (dash_hex 4 (dash_hex 12 []))
        (dash_hex-IsCaseClosed 4 (dash_hex 12 []) (dash_hex-IsCaseClosed 12 [] tt))))

-- `toLowerCase` takes a UUID to a UUID.
pub is_uuid-to_lower : (s : String) → is_uuid s ≡ true → is_uuid (to_lower s) ≡ true
unfolding is_uuid
is_uuid-to_lower s h =
    rw codes-to_lower (matches-map uuid_pattern (codes s) uuid_pattern-IsCaseClosed h)
