-- ===== src/Shared/Json.antt =====
-- JavaScript values that come from `JSON.parse`, and `isJsonValue` of packages/shared/src/index.ts.
use seleksi2_labpro.Prelude.{
  ℕ, ◌+◌, String, Bool, true, false, ◌&&◌, List, [], ◌∷◌, Option, none, some, ltb, ◌===◌,
  if◌then◌else◌,
}

-- A finite number is kept as its JSON text; `JSON.parse` reads 1e999 as an infinite one. An
-- object's keys are distinct, as they are in JavaScript.
mutual
  pub data Json : Type 0 where
    null : Json
    boolean : Bool → Json
    number : String → Json
    non_finite : Json
    string : String → Json
    array : Items → Json
    object : Fields → Json

  pub data Items : Type 0 where
    nil : Items
    cons : Json → Items → Items

  pub data Fields : Type 0 where
    end : Fields
    field : String → Json → Fields → Fields

abbrev pub keys : Fields → List String
keys end = []
keys (field k v fs) = k ∷ keys fs

-- `value.key`; `none` is `undefined`.
abbrev pub get : String → Fields → Option Json
get k end = none
get k (field j v fs) = if j === k then some v else get k fs

unfoldable mutual
  pub is_json_value : Json → ℕ → Bool
  is_json_value null depth = if ltb 10 depth then false else true
  is_json_value (boolean b) depth = if ltb 10 depth then false else true
  is_json_value (number n) depth = if ltb 10 depth then false else true
  is_json_value non_finite depth = false
  is_json_value (string s) depth = if ltb 10 depth then false else true
  is_json_value (array xs) depth = if ltb 10 depth then false else every_item xs (depth + 1)
  is_json_value (object fs) depth = if ltb 10 depth then false else every_value fs (depth + 1)

  pub every_item : Items → ℕ → Bool
  every_item nil depth = true
  every_item (cons x xs) depth = is_json_value x depth && every_item xs depth

  pub every_value : Fields → ℕ → Bool
  every_value end depth = true
  every_value (field k v fs) depth = is_json_value v depth && every_value fs depth
