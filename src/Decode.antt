-- ===== src/Decode.antt =====
-- The registry half of app/services/decode.py, and `registry_for_cluster` of
-- app/services/schema_registry.py: how a payload becomes the text that is shown.
pub mod Laws
pub mod Rendered
mod Tests
use Prim.Native.String.{◌++◌ as text_append}
use kafkascope.Prelude.{ℕ, ℤ, pos, ◌+◌, ◌*◌, String, Bool, true, false, Option, none, some}
use kafkascope.Prelude.{List, [], ◌∷◌, take, drop, length, leb, ◌&&◌, ◌==◌, nat_eq, string_eq}
use kafkascope.Prelude.{if◌then◌else◌, Eq, ◌≡◌, ◌↔◌, refl, ap, arith, eq_iff}
use kafkascope.Prelude.Dict.{Dict, lookup, insert}
use kafkascope.Prelude.Text.{truthy, is_empty}
use kafkascope.Failure.{Failure, Result, ok, err, value_error, other_error, invalid_json, reported}
use kafkascope.Failure.{or_raise, schema_mismatch, ◌>>=◌}
use kafkascope.Json
use kafkascope.Json.{Json, Items, Members}
use kafkascope.Wire.Varint as Varint
use kafkascope.Wire.Varint.{Read, strip_protobuf_index}
use kafkascope.Wire.Proto as Proto
use kafkascope.Wire.Proto.{Fields, Value, Values, decode_protobuf}
use kafkascope.Decode.Rendered.{fields_json, jsonable}
use kafkascope.Encode.{Library}
use kafkascope.Registry.{Network, SchemaRegistry, RegisteredSchema, Session, new_registry}
use kafkascope.Registry.{schema_by_id}

pub record Decoded : Type 0 where
  pub text : Option String
  pub binary : Bool
  pub encoding : String
  pub schema_id : Option ℕ

abbrev pub pair_eqb : String × String → String × String → Bool
pair_eqb (a, b) (c, d) = a == c && b == d

pub pair_eqb_iff : (p q : String × String) → (pair_eqb p q ≡ true) ↔ (p ≡ q)
pair_eqb_iff (a, b) (c, d) = ground (arith, eq_iff a c, eq_iff b d)

instance abbrev pub pair_eq : Eq (String × String)
pair_eq = record { eqb = pair_eqb; eqb_iff = pair_eqb_iff }

-- The registry settings that a request sees: the current cluster's, and the instance's.
pub record Endpoint : Type 0 where
  pub cluster_url : String
  pub cluster_auth : String
  pub default_url : String
  pub default_auth : String

-- `a or b` on texts
abbrev pub or_text : String → String → String
or_text a b = if truthy a then a else b

abbrev pub Clients : Type 0
Clients = Dict (String × String) SchemaRegistry

abbrev pub client_at : String × String → Option SchemaRegistry → Clients → SchemaRegistry × Clients
client_at key (some client) clients = (client, clients)
client_at (url, auth) none clients =
    let client = new_registry url auth in (client, insert (url, auth) client clients)

abbrev pub registry_key : Endpoint → String × String
registry_key e = (or_text e.cluster_url e.default_url, or_text e.cluster_auth e.default_auth)

-- `registry_for_cluster()`: the client, with the process's clients after the call.
unfoldable pub registry_for_cluster : Endpoint → Clients → Option SchemaRegistry × Clients
registry_for_cluster e clients =
    if is_empty (registry_key e).0
    then (none, clients)
    else (let r = client_at (registry_key e) (lookup (registry_key e) clients) clients in
        (some r.0, r.1))

-- A walk of the wire format as a Python result. Its loops never get stuck.
abbrev pub raising {ℓ} : {A : Type ℓ} → Read A → Result A
raising (Varint.ok a) = ok a
raising (Varint.err e) = err (value_error (reported "protobuf"))
raising Varint.stuck = err (other_error (reported "out of fuel"))

-- `int.from_bytes(raw[1:5], "big")`
unfoldable pub big_endian : List ℕ → ℕ → ℕ
big_endian [] acc = acc
big_endian (b ∷ bs) acc = big_endian bs (acc * 256 + b)

module _ (L : Library) (N : Network) (lower : String → String) (explain : Failure → String) where
  -- The module's globals, and the network.
  pub record Process : Type 0 where
    pub avro_cache : Dict ℕ L.AvroSchema
    pub clients : Clients
    pub world : N.World
    pub asked : List ℕ

  abbrev pub read_schema : Json → Result Json
  read_schema (Json.str s) = or_raise (L.loads s) (value_error invalid_json)
  read_schema v = err (other_error (reported "the schema is no text"))

  abbrev pub remember :
      ℕ → Dict ℕ L.AvroSchema → Result L.AvroSchema → Result L.AvroSchema × Dict ℕ L.AvroSchema
  remember id cache (ok parsed) = (ok parsed, insert id parsed cache)
  remember id cache (err e) = (err e, cache)

  abbrev pub parsed_or_parse :
      ℕ
      → Json
      → Option L.AvroSchema
      → Dict ℕ L.AvroSchema
      → Result L.AvroSchema × Dict ℕ L.AvroSchema
  parsed_or_parse id schema_str (some parsed) cache = (ok parsed, cache)
  parsed_or_parse id schema_str none cache =
      remember id cache (read_schema schema_str >>= L.parse_schema)

  unfoldable pub decode_avro :
      ℕ → Json → List ℕ → Dict ℕ L.AvroSchema → Result Json × Dict ℕ L.AvroSchema
  decode_avro id schema_str body cache =
      let r = parsed_or_parse id schema_str (lookup id cache) cache in
      (r.0 >>= λ parsed. or_raise (L.read_avro parsed body) (other_error schema_mismatch), r.1)

  -- The body of the `try`: the object and the name of its encoding, or `none` for a schema type
  -- that is not known.
  abbrev pub decode_body :
      ℕ
      → RegisteredSchema
      → List ℕ
      → Dict ℕ L.AvroSchema
      → Result (Option (Json × String)) × Dict ℕ L.AvroSchema
  decode_body id schema body cache =
      if schema.schema_type == "AVRO"
      then (let r = decode_avro id schema.schema_str body cache in
          (r.0 >>= λ v. ok (some (v, "avro")), r.1))
      else if schema.schema_type == "JSON"
      then (
        or_raise (L.loads_bytes body) (value_error invalid_json) >>= λ v.
            ok (some (v, "json-schema")),
        cache,
      )
      else if schema.schema_type == "PROTOBUF"
      then (
        raising (strip_protobuf_index body) >>= λ rest.
            raising (decode_protobuf L.codecs rest) >>= λ fs.
            ok (some (Json.obj (fields_json L.decimal fs), "protobuf")),
        cache,
      )
      else (ok none, cache)

  abbrev failed_text : String → String → String
  failed_text t why =
      text_append "<" (text_append (lower t) (text_append " decode failed: " (text_append why ">")))

  abbrev pub shown : ℕ → RegisteredSchema → List ℕ → Result (Option (Json × String)) → Decoded
  shown id schema body (ok none) = record {
    text = some (L.codecs.b64 body);
    binary = true;
    encoding = "binary";
    schema_id = some id;
  }
  shown id schema body (ok (some (v, enc))) = record {
    text = some (L.dumps (jsonable L.codecs.b64 v));
    binary = false;
    encoding = enc;
    schema_id = some id;
  }
  shown id schema body (err e) = record {
    text = some (failed_text schema.schema_type (explain e));
    binary = false;
    encoding = "binary";
    schema_id = some id;
  }

  abbrev pub session_of : SchemaRegistry → Process → Session N
  session_of client p = record { client = client; world = p.world; asked = p.asked }

  -- The client is the one that the process holds, so its cache is written there.
  abbrev pub after_lookup : String × String → Session N → Clients → Process → Process
  after_lookup key s clients p = record p {
    clients = insert key s.client clients;
    world = s.world;
    asked = s.asked;
  }

  abbrev pub with_schema :
      ℕ → List ℕ → Result (Option RegisteredSchema) → Process → Result (Option Decoded) × Process
  with_schema id body (err e) p = (err e, p)
  with_schema id body (ok none) p = (ok none, p)
  with_schema id body (ok (some schema)) p =
      let r = decode_body id schema body p.avro_cache in
      (ok (some (shown id schema body r.0)), record p { avro_cache = r.1 })

  abbrev pub with_client :
      Endpoint
      → List ℕ
      → Option SchemaRegistry × Clients
      → Process
      → Result (Option Decoded) × Process
  with_client e raw (none, clients) p = (ok none, p)
  with_client e raw (some client, clients) p =
      let id = big_endian (take 4 (drop 1 raw)) 0 in
      let r = schema_by_id N id (session_of client p) in
      with_schema id (drop 5 raw) r.0 (after_lookup (registry_key e) r.1 clients p)

  unfoldable pub decode_registry : Endpoint → List ℕ → Process → Result (Option Decoded) × Process
  decode_registry e raw p = with_client e raw (registry_for_cluster e p.clients) p

  -- The readings that need no registry.
  abbrev pub decode_plain : List ℕ → Decoded
  decode_plain raw = elim (L.codecs.utf8 raw) [
    | some t ↦ record { text = some t; binary = false; encoding = "string"; schema_id = none }
    | none ↦ record {
      text = some (L.codecs.b64 raw);
      binary = true;
      encoding = "binary";
      schema_id = none;
    }
  ]

  abbrev pub or_plain : List ℕ → Result (Option Decoded) → Result Decoded
  or_plain raw (err e) = err e
  or_plain raw (ok none) = ok (decode_plain raw)
  or_plain raw (ok (some d)) = ok d

  -- `len(raw) >= 5 and raw[0] == _MAGIC`
  unfoldable pub has_magic : List ℕ → Bool
  has_magic [] = false
  has_magic (b ∷ bs) = leb 5 (length (b ∷ bs)) && b == 0

  unfoldable pub decode : Endpoint → Option (List ℕ) → Process → Result Decoded × Process
  decode e none p =
      (ok (record { text = none; binary = false; encoding = "null"; schema_id = none }), p)
  decode e (some raw) p =
      if has_magic raw
      then (let r = decode_registry e raw p in (or_plain raw r.0, r.1))
      else (ok (decode_plain raw), p)
