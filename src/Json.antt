-- ===== src/Json.antt =====
-- The Python objects that `json` and `fastavro` hand to the source.
use kafkascope.Prelude.{ℕ, ℤ, pos, String, Bool, true, false, List, [], ◌∷◌, ◌&&◌}
use kafkascope.Prelude.{Option, none, some, ◌==◌, string_eq, eqb_ℤ, not, if◌then◌else◌}
use kafkascope.Prelude.Text.{truthy}

-- `real` is a float by its text. `raw` (bytes) and `scalar` (Decimal, datetime, UUID and the like,
-- by its `str`) come from Avro alone.
mutual
  pub data Json : Type 0 where
    null : Json
    boolean : Bool → Json
    number : ℤ → Json
    real : String → Json
    str : String → Json
    arr : Items → Json
    obj : Members → Json
    raw : List ℕ → Json
    scalar : String → Json

  pub data Items : Type 0 where
    nil : Items
    cons : Json → Items → Items

  pub data Members : Type 0 where
    end : Members
    member : String → Json → Members → Members

-- `d.get(k)` of a dict that `json` built: of a repeated key the last value counts.
unfoldable pub get : String → Members → Option Json
get k end = none
get k (member j v ms) = elim (get k ms) [ some w ↦ some w | none ↦ if j == k then some v else none ]

unfoldable pub items : Items → List Json
items nil = []
items (cons v vs) = v ∷ items vs

abbrev no_items : Items → Bool
no_items nil = true
no_items (cons v vs) = false

abbrev no_members : Members → Bool
no_members end = true
no_members (member k v ms) = false

abbrev no_bytes : List ℕ → Bool
no_bytes [] = true
no_bytes (b ∷ bs) = false

-- `bool(v)`. Of floats only 0.0 and -0.0 are false; of `scalar` no value that Avro reads is.
unfoldable pub json_truthy : Json → Bool
json_truthy null = false
json_truthy (boolean b) = b
json_truthy (number n) = not (eqb_ℤ n (pos 0))
json_truthy (real s) = not (s == "0.0") && not (s == "-0.0")
json_truthy (str s) = truthy s
json_truthy (arr vs) = not (no_items vs)
json_truthy (obj ms) = not (no_members ms)
json_truthy (raw bs) = not (no_bytes bs)
json_truthy (scalar s) = true
