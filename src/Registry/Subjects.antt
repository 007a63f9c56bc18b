-- ===== src/Registry/Subjects.antt =====
-- app/services/schema_registry.py: the latest schema of a subject, the registration of a new one, and
-- which registry a request's cluster has. Neither operation reads the cache.
use Prim.Native.String.{String, ◌++◌ as ◌++ˢ◌}
use kafkascope.Prelude.{ℕ, ℤ, not, Option, none, some, nat_eqb, ◌==◌, string_eq}
use kafkascope.Prelude.{if◌then◌else◌}
use kafkascope.Prelude.Text.{strip, truthy}
use kafkascope.Failure.{Failure, Result, ok, err, attribute_error, key_error, registry_error}
use kafkascope.Failure.{other_error, reported, registry_returned, unexpected_json, or_raise, ◌>>=◌}
use kafkascope.Json.{Json, str, obj, get}
use kafkascope.Kafka.{Kafka, Reply, body, http_status, raised, register_schema}
use kafkascope.Kafka.Program.{Program, ask, lift, post, ◌>>=◌ as ◌>>=ᵏ◌}
use kafkascope.Client.{Context, current_cluster}
use kafkascope.Encode.{Library}
use kafkascope.Registry.{SchemaRegistry, RegisteredSchema, new_registry, schema_from}

-- Python's `str.upper`, and `int` of what the registry calls an id.
pub record Numbers : Type 0 where
  pub upper : String → String
  pub int_of : Json → Result ℤ

abbrev or_else : String → String → String
or_else a b = if truthy a then a else b

abbrev pub registry_at : String → String → Option SchemaRegistry
registry_at url auth = if truthy url then some (new_registry url auth) else none

-- The client for the cluster's URL and authorisation, or the settings'. It is kept for later
-- requests, but only its cache can tell.
unfoldable pub registry_for_cluster : Context → Result (Option SchemaRegistry)
registry_for_cluster x = do
  c ← current_cluster x
  ok (
      registry_at (or_else c.schema_registry_url x.instance.settings.kafkascope_schema_registry_url)
        (or_else c.schema_registry_auth x.instance.settings.kafkascope_schema_registry_auth))

-- `data["id"]`
abbrev pub id_of : Json → Result Json
id_of (obj ms) = or_raise (get "id" ms) (key_error unexpected_json)
id_of v = err (other_error unexpected_json)

unfoldable pub latest_from : Numbers → String → Reply → Result (Option RegisteredSchema)
latest_from N subject (body v) = do
  schema_id ← id_of v
  s ← schema_from N.upper schema_id v
  ok (some s)
latest_from N subject (http_status code detail) =
    if nat_eqb code 404 then ok none else err (registry_error (registry_returned code subject))
latest_from N subject (raised e) = err e

-- The message of a rejection.
abbrev pub said : Library → ℕ → String → Failure
said L code detail =
    registry_error (reported (or_else (strip detail) ("registry returned " ++ˢ L.decimal code)))

abbrev pub rejection_message : Library → ℕ → String → Option Json → Failure
rejection_message L code detail none = said L code detail
rejection_message L code detail (some (str m)) = said L code m
rejection_message L code detail (some v) = attribute_error unexpected_json

abbrev pub rejection : Library → ℕ → String → Option Json → Failure
rejection L code detail none = said L code detail
rejection L code detail (some (obj ms)) = rejection_message L code detail (get "message" ms)
rejection L code detail (some v) = attribute_error unexpected_json

-- The end of `_post`
abbrev pub posted : Library → Reply → Result Json
posted L (body v) = ok v
posted L (http_status code detail) = err (rejection L code detail (L.loads detail))
posted L (raised e) = err e

module _ (K : Kafka) (L : Library) (N : Numbers) where
  unfoldable pub latest_by_subject : SchemaRegistry → String → Program K (Option RegisteredSchema)
  latest_by_subject r subject = ask λ w.
      let reply = K.get_latest r.url r.auth subject w in (latest_from N subject reply.0, reply.1)

  abbrev pub type_field : String → Option String
  type_field schema_type =
      if not (N.upper schema_type == "AVRO") then some (N.upper schema_type) else none

  unfoldable pub register : SchemaRegistry → String → String → String → Program K ℤ
  register r subject schema_str schema_type =
      post (register_schema r.url r.auth subject schema_str (type_field schema_type)) >>=ᵏ λ reply.
      lift (posted L reply >>= λ v. id_of v >>= λ i. N.int_of i)
