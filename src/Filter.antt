-- ===== src/Filter.antt =====
-- The filters of a search: `_json_lookup` and `matches` of app/services/messages.py.
pub mod Laws
mod Tests
use kafkascope.Prelude.{ℕ, ℤ, String, Bool, true, false, ◌&&◌, ◌||◌, not, Option, none, some}
use kafkascope.Prelude.{List, [], ◌∷◌, any, ◌==◌, string_eq, if◌then◌else◌}
use kafkascope.Prelude.Text.{truthy, has_infix, split_on}
use kafkascope.Failure.{Result, ok, err, value_error, reported, ◌>>=◌}
use kafkascope.Json
use kafkascope.Json.{Json, Items, null, str, arr, obj, get, items}

-- Python's tables of Unicode and its `json`.
pub record Texts : Type 0 where
  pub lower : String → String
  pub is_digit : String → Bool
  -- `int(s)`; `none` is the `ValueError`
  pub int_of : String → Option ℕ
  pub loads : String → Option Json
  pub dumps : Json → String

pub record Message : Type 0 where
  pub partition : ℤ
  pub offset : ℤ
  pub timestamp_ms : ℤ
  pub key : Option String
  pub value : Option String
  pub headers : List (String × String)
  pub size : ℕ
  pub binary : Bool
  pub encoding : String
  pub schema_id : Option ℕ

pub data StartMode : Type 0 where
  latest earliest timestamp : StartMode

pub record ScanSpec : Type 0 where
  pub topic : String
  pub partition : Option ℤ
  pub start : StartMode
  pub lookback : ℤ
  pub timestamp_ms : Option ℤ
  pub limit : ℤ
  pub key_contains : String
  pub value_contains : String
  pub header_key : String
  pub header_value : String
  pub json_path : String
  pub json_value : String
  pub max_scan : ℤ

unfoldable pub has_filters : ScanSpec → Bool
has_filters s =
    truthy s.key_contains
    || (truthy s.value_contains || (truthy s.header_key || truthy s.json_path))

-- `v or ""`
abbrev pub text_or_empty : Option String → String
text_or_empty none = ""
text_or_empty (some s) = s

abbrev nth : ℕ → Items → Option Json
nth i Json.nil = none
nth ℕ.zero (Json.cons v vs) = some v
nth (ℕ.suc i) (Json.cons v vs) = nth i vs

-- JSON's `null` is Python's `None`.
abbrev not_null : Option Json → Option Json
not_null (some null) = none
not_null o = o

module _ (T : Texts) where
  open T use {lower, is_digit, int_of, loads, dumps}

  abbrev index : Items → Option ℕ → Result (Option Json)
  index vs none = err (value_error (reported "int"))
  index vs (some i) = ok (nth i vs)

  -- One round of the loop, before the test on `None`.
  unfoldable pub child : String → Json → Result (Option Json)
  unfolding get
  child segment (obj ms) = ok (get segment ms)
  child segment (arr vs) = if is_digit segment then index vs (int_of segment) else ok none
  child segment v = ok none

  unfoldable pub walk : List String → Json → Result (Option Json)
  unfolding child
  walk [] v = ok (some v)
  walk (segment ∷ path) v = do
    found ← child segment v
    elim (not_null found) [ none ↦ ok none | some w ↦ walk path w ]

  abbrev walk_from : List String → Option Json → Result (Option Json)
  walk_from path none = ok none
  walk_from path (some v) = walk path v

  unfoldable pub json_lookup : String → String → Result (Option Json)
  unfolding walk
  json_lookup payload path = walk_from (split_on b'.' path) (loads payload)

  -- `a.lower() in b.lower()`
  abbrev pub within : String → String → Bool
  within a b = has_infix (lower a) (lower b)

  abbrev pub key_matches : Message → ScanSpec → Bool
  key_matches m s = not (truthy s.key_contains) || within s.key_contains (text_or_empty m.key)

  abbrev pub value_matches : Message → ScanSpec → Bool
  value_matches m s =
      not (truthy s.value_contains) || within s.value_contains (text_or_empty m.value)

  -- `found = [v for k, v in msg.headers if k == spec.header_key]`
  abbrev pub values_of : String → List (String × String) → List String
  values_of key [] = []
  values_of key ((k, v) ∷ hs) = if k == key then v ∷ values_of key hs else values_of key hs

  abbrev pub some_value : String → List String → Bool
  some_value wanted [] = false
  some_value wanted (v ∷ vs) = not (truthy wanted) || any (within wanted) (v ∷ vs)

  abbrev pub header_matches : Message → ScanSpec → Bool
  header_matches m s =
      not (truthy s.header_key) || some_value s.header_value (values_of s.header_key m.headers)

  abbrev pub rendered : Json → String
  rendered (str t) = t
  rendered v = dumps v

  abbrev pub node_matches : String → Option Json → Bool
  node_matches wanted none = false
  node_matches wanted (some v) = not (truthy wanted) || within wanted (rendered v)

  abbrev pub json_found : ScanSpec → Option String → Result Bool
  json_found s none = ok false
  json_found s (some payload) = do
    node ← json_lookup payload s.json_path
    ok (node_matches s.json_value node)

  abbrev pub json_matches : Message → ScanSpec → Result Bool
  json_matches m s = if truthy s.json_path then json_found s m.value else ok true

  unfoldable pub matches : Message → ScanSpec → Result Bool
  unfolding json_lookup
  matches m s =
      if not (key_matches m s)
      then ok false
      else if not (value_matches m s)
      then ok false
      else if not (header_matches m s)
      then ok false
      else json_matches m s
