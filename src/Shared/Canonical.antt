-- ===== src/Shared/Canonical.antt =====
-- `canonicalJson` and `fingerprintRevocationEvent` of packages/shared/src/index.ts. SHA-256 is the
-- parameter `sha256`.
use Prim.Native.Char.{Char, char, code}
use Prim.Native.String
use seleksi2_labpro.Prelude.{
  ℕ, ◌+◌, ◌-◌, ◌/◌, ◌%◌, String, Bool, true, false, List, [], ◌∷◌, ltb, ◌==◌, if◌then◌else◌,
}
use seleksi2_labpro.Shared.Json.{
  Json, null, boolean, number, non_finite, string, array, object, Items, nil, cons, Fields, end,
  field,
}
use seleksi2_labpro.Shared.Pattern.{char_or}
use seleksi2_labpro.Shared.Event.{RevocationEvent, to_json}

abbrev join_text : String → String → String
join_text s t = String.◌++◌ s t

abbrev hex_digit : ℕ → String
hex_digit n = String.◌∷◌ (char_or "0123456789abcdef" n) ""

abbrev escaped : Char → String
escaped c = String.◌∷◌ (char 92 tt) (String.◌∷◌ c "")

-- How `JSON.stringify` writes one character of a text.
unfoldable pub escape : Char → String
escape c =
    if code c == 34
    then escaped (char 34 tt)
    else if code c == 92
    then escaped (char 92 tt)
    else if code c == 8
    then escaped (char b'b' tt)
    else if code c == 9
    then escaped (char b't' tt)
    else if code c == 10
    then escaped (char b'n' tt)
    else if code c == 12
    then escaped (char b'f' tt)
    else if code c == 13
    then escaped (char b'r' tt)
    else if ltb (code c) 32
    then join_text (escaped (char b'u' tt))
        (join_text "00" (join_text (hex_digit (code c / 16)) (hex_digit (code c % 16))))
    else String.◌∷◌ c ""

unfoldable pub escape_all : String → String
escape_all String.[] = ""
escape_all (String.◌∷◌ c s) = join_text (escape c) (escape_all s)

abbrev quote_mark : String
quote_mark = String.◌∷◌ (char 34 tt) ""

-- `JSON.stringify` on a text.
unfoldable pub quote : String → String
unfolding escape_all escape
quote s = join_text quote_mark (join_text (escape_all s) quote_mark)

-- The UTF-16 code units of a text, by which `sort` compares.
unfoldable pub units : String → List ℕ
units String.[] = []
units (String.◌∷◌ c s) =
    let n = code c in
    let rest = units s in
    if ltb n 0x10000
    then n ∷ rest
    else (0xd800 + (n - 0x10000) / 0x400) ∷ (0xdc00 + (n - 0x10000) % 0x400) ∷ rest

unfoldable pub precedes : List ℕ → List ℕ → Bool
precedes [] ys = true
precedes (x ∷ xs) [] = false
precedes (x ∷ xs) (y ∷ ys) = if ltb x y then true else if x == y then precedes xs ys else false

-- The entries of an object, each with its canonical text, in the order of `Object.keys().sort()`.
unfoldable pub insert_entry : String × String → List (String × String) → List (String × String)
unfolding precedes units
insert_entry e [] = e ∷ []
insert_entry (k, v) ((j, w) ∷ es) =
    if precedes (units k) (units j) then (k, v) ∷ (j, w) ∷ es else (j, w) ∷ insert_entry (k, v) es

unfoldable pub sort_entries : List (String × String) → List (String × String)
unfolding insert_entry
sort_entries [] = []
sort_entries (e ∷ es) = insert_entry e (sort_entries es)

unfoldable pub join : List String → String
join [] = ""
join (s ∷ []) = s
join (s ∷ t ∷ ts) = join_text s (join_text "," (join (t ∷ ts)))

unfoldable pub entry_texts : List (String × String) → List String
unfolding quote
entry_texts [] = []
entry_texts ((k, v) ∷ es) = join_text (quote k) (join_text ":" v) ∷ entry_texts es

unfoldable mutual
  unfolding quote join entry_texts sort_entries

  pub canonical_json : Json → String
  canonical_json null = "null"
  canonical_json (boolean true) = "true"
  canonical_json (boolean false) = "false"
  canonical_json (number n) = n
  canonical_json non_finite = "null"
  canonical_json (string s) = quote s
  canonical_json (array xs) = join_text "[" (join_text (join (canonical_items xs)) "]")
  canonical_json (object fs) =
      join_text "{" (join_text (join (entry_texts (sort_entries (canonical_entries fs)))) "}")

  pub canonical_items : Items → List String
  canonical_items nil = []
  canonical_items (cons x xs) = canonical_json x ∷ canonical_items xs

  pub canonical_entries : Fields → List (String × String)
  canonical_entries end = []
  canonical_entries (field k v fs) = (k, canonical_json v) ∷ canonical_entries fs

unfoldable pub fingerprint : (String → String) → RevocationEvent → String
fingerprint sha256 e = sha256 (canonical_json (to_json e))
