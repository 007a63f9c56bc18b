-- ===== src/Decode/Rendered.antt =====
-- The values that app/services/decode.py hands to `json.dumps`.
use Prim.Native.String.{◌++◌ as text_append}
use kafkascope.Prelude.{ℕ, pos, String}
use kafkascope.Prelude.{List, nat_eq, string_eq}
use kafkascope.Json
use kafkascope.Json.{Json, Items, Members}
use kafkascope.Wire.Proto as Proto
use kafkascope.Wire.Proto.{Fields, Value, Values, decode_protobuf}

-- A dict keyed by `field_<n>`, as `json.dumps` is given it.
module _ (decimal : ℕ → String) where
  unfoldable mutual
    pub value_json : Value → Json
    value_json (Proto.int n) = Json.number (pos n)
    value_json (Proto.text t) = Json.str t
    value_json (Proto.message fs) = Json.obj (fields_json fs)
    value_json (Proto.b64 t) = Json.obj (Json.member "__bytes_b64__" (Json.str t) Json.end)
    value_json (Proto.repeated vs) = Json.arr (values_json vs)

    pub values_json : Values → Items
    values_json Proto.nil = Json.nil
    values_json (Proto.cons v vs) = Json.cons (value_json v) (values_json vs)

    pub fields_json : Fields → Members
    fields_json Proto.end = Json.end
    fields_json (Proto.field n v fs) =
        Json.member (text_append "field_" (decimal n)) (value_json v) (fields_json fs)

-- `_json_default`, applied wherever `json.dumps` meets a value that is not JSON.
module _ (b64 : List ℕ → String) where
  unfoldable mutual
    pub jsonable : Json → Json
    jsonable (Json.arr vs) = Json.arr (jsonable_items vs)
    jsonable (Json.obj ms) = Json.obj (jsonable_members ms)
    jsonable (Json.raw bs) = Json.str (b64 bs)
    jsonable (Json.scalar s) = Json.str s
    jsonable Json.null = Json.null
    jsonable (Json.boolean b) = Json.boolean b
    jsonable (Json.number n) = Json.number n
    jsonable (Json.real s) = Json.real s
    jsonable (Json.str s) = Json.str s

    pub jsonable_items : Items → Items
    jsonable_items Json.nil = Json.nil
    jsonable_items (Json.cons v vs) = Json.cons (jsonable v) (jsonable_items vs)

    pub jsonable_members : Members → Members
    jsonable_members Json.end = Json.end
    jsonable_members (Json.member k v ms) = Json.member k (jsonable v) (jsonable_members ms)
