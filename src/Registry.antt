-- ===== src/Registry.antt =====
-- app/services/schema_registry.py: the client and its caches.
pub mod Laws
pub mod Subjects
mod Tests
use Prim.Native.Char.{code}
use kafkascope.Prelude.Tests.{nat_eqb}
use kafkascope.Prelude.{ℕ, ℤ, pos, String, Bool, true, false, Option, none, some, List, [], ◌∷◌}
use kafkascope.Prelude.{◌++◌, ◌==◌, nat_eq, string_eq, ◌&&◌, if◌then◌else◌, Eq, ◌↔◌, ◌≡◌}
use kafkascope.Prelude.Dict
use kafkascope.Prelude.Dict.{Dict, lookup, insert}
use kafkascope.Prelude.Text.{truthy, is_empty}
use kafkascope.Failure.{Result, ok, err, Failure, attribute_error, unexpected_json, ◌>>=◌}
use kafkascope.Json.{Json, str, obj, get, json_truthy}

-- `schema_str` is whatever JSON the registry sent under "schema".
pub record RegisteredSchema : Type 0 where
  pub schema_id : Json
  pub schema_type : String
  pub schema_str : Json

-- What `_get` comes to: the parsed body, one of the exceptions that `schema_by_id` catches
-- (`URLError`, `ValueError`, `OSError`), or any other.
pub data Answer : Type 0 where
  body : Json → Answer
  unreachable : Answer
  raised : Failure → Answer

-- The network, and the `upper` of Python's `str`.
pub record Network : Type 1 where
  pub World : Type 0
  -- `_get(f"/schemas/ids/{schema_id}")` of the client for a URL and an authorisation
  pub get_schema : String → String → ℕ → World → Answer × World
  pub upper : String → String

pub record SchemaRegistry : Type 0 where
  pub url : String
  pub auth : String
  pub cache : Dict ℕ (Option RegisteredSchema)

-- `url.rstrip("/")`
unfoldable pub rstrip_slash : String → String
rstrip_slash String.[] = ""
rstrip_slash (String.◌∷◌ c s) =
    let rest = rstrip_slash s in
    if is_empty rest && nat_eqb (code c) b'/' then "" else String.◌∷◌ c rest

-- `SchemaRegistry(url, auth)`
unfoldable pub new_registry : String → String → SchemaRegistry
unfolding rstrip_slash
new_registry url auth = record { url = rstrip_slash url; auth = auth; cache = [] }

module _ (upper : String → String) where
  -- `(data.get("schemaType") or "AVRO").upper()`
  abbrev schema_type_of : Option Json → Result String
  schema_type_of none = ok (upper "AVRO")
  schema_type_of (some (str s)) = ok (upper (if truthy s then s else "AVRO"))
  schema_type_of (some v) =
      if json_truthy v then err (attribute_error unexpected_json) else ok (upper "AVRO")

  abbrev or_empty : Option Json → Json
  or_empty none = str ""
  or_empty (some v) = v

  -- `RegisteredSchema(…)` from the answer's body
  unfoldable pub schema_from : Json → Json → Result RegisteredSchema
  schema_from schema_id (obj ms) = do
    t ← schema_type_of (get "schemaType" ms)
    ok (record { schema_id = schema_id; schema_type = t; schema_str = or_empty (get "schema" ms) })
  schema_from schema_id v = err (attribute_error unexpected_json)

-- What is cached and returned for an answer: an exception of the three kinds is a schema that the
-- registry does not have, any other goes through.
abbrev pub fetched : (String → String) → ℕ → Answer → Result (Option RegisteredSchema)
fetched upper id (body v) = do s ← schema_from upper (Json.number (pos id)) v; ok (some s)
fetched upper id unreachable = ok none
fetched upper id (raised e) = err e

module _ (N : Network) where
  open N use {World, get_schema, upper}

  -- The client, the network, and the ids that were asked of it, last first.
  pub record Session : Type 0 where
    pub client : SchemaRegistry
    pub world : World
    pub asked : List ℕ

  abbrev pub new_session : String → String → World → Session
  new_session url auth w = record { client = new_registry url auth; world = w; asked = [] }

  -- The end of `schema_by_id`: the cache is written only when no exception goes through.
  abbrev pub stored :
      ℕ → Session → Result (Option RegisteredSchema) → Result (Option RegisteredSchema) × Session
  stored id s (ok found) =
      (ok found, record s { client = record s.client { cache = insert id found s.client.cache } })
  stored id s (err e) = (err e, s)

  abbrev pub after_request : ℕ → Session → Session
  after_request id s = record s {
    world = (get_schema s.client.url s.client.auth id s.world).1;
    asked = id ∷ s.asked;
  }

  abbrev pub fetch : ℕ → Session → Result (Option RegisteredSchema) × Session
  fetch id s =
      stored id (after_request id s)
        (fetched upper id (get_schema s.client.url s.client.auth id s.world).0)

  abbrev pub cached_or_fetch :
      ℕ → Session → Option (Option RegisteredSchema) → Result (Option RegisteredSchema) × Session
  cached_or_fetch id s (some found) = (ok found, s)
  cached_or_fetch id s none = fetch id s

  unfoldable pub schema_by_id : ℕ → Session → Result (Option RegisteredSchema) × Session
  schema_by_id id s = cached_or_fetch id s (lookup id s.client.cache)
