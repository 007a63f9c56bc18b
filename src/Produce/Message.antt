-- ===== src/Produce/Message.antt =====
-- `_encode_field` and `send_message` of app/services/produce.py: the choice of a schema for the key
-- and the value of a message.
pub mod Laws
mod Tests
use Prim.Native.String.{String, ◌++◌ as ◌++ˢ◌}
use kafkascope.Prelude.{ℕ, ℤ, pos, Bool, true, false, ◌&&◌, ◌||◌, not, Option, none, some, List, []}
use kafkascope.Prelude.{◌==◌, string_eq, if◌then◌else◌}
use kafkascope.Prelude.Text.{strip, truthy}
use kafkascope.Failure.{Result, ok, err, value_error, attribute_error, other_error, no_registry}
use kafkascope.Failure.{schema_required, no_schema_for, unexpected_json, ◌>>=◌}
use kafkascope.Json.{Json, str, number, boolean}
use kafkascope.Kafka.{Kafka}
use kafkascope.Kafka.Program.{Program, pure, raise, lift, refuse_if, ◌>>=◌ as ◌>>=ᵏ◌, ◌>>◌ as ◌>>ᵏ◌}
use kafkascope.Client.{Context, require_writable}
use kafkascope.Encode.{Library, encode_avro, encode_json_schema, loaded}
use kafkascope.Registry.{SchemaRegistry, RegisteredSchema}
use kafkascope.Registry.Subjects.{Numbers, registry_for_cluster, latest_by_subject, register}
use kafkascope.Produce.{Delivery, Sending, send}

-- One half of a form: the text, how it is to be encoded, the schema and whether to register it, and
-- whether the half is absent.
pub record Half : Type 0 where
  pub text : String
  pub format : String
  pub schema : String
  pub register : Bool
  pub absent : Bool

pub record Message : Type 0 where
  pub topic : String
  pub key : Half
  pub value : Half
  pub headers : List (String × String)
  pub partition : Option ℤ

-- A half as `send` takes it.
pub record Field : Type 0 where
  pub text : Option String
  pub bytes : Option (List ℕ)
  pub schema_id : Option Json
  pub encoding : String

abbrev pub is_formatted : Half → Bool
is_formatted h = not h.absent && (h.format == "avro" || h.format == "json")

module _ (L : Library) where
  -- `schema_id.to_bytes` comes last, so that any other error of the encoding is met first.
  abbrev pub with_id : (ℤ → Result (List ℕ)) → Json → Result (List ℕ)
  with_id encode (number n) = encode n
  with_id encode (boolean true) = encode (pos 1)
  with_id encode (boolean false) = encode (pos 0)
  with_id encode v = encode (pos 0) >>= λ _. err (attribute_error unexpected_json)

  -- `encode_avro` of a schema that need not be a text
  abbrev pub avro_bytes : Json → Json → String → Result (List ℕ)
  avro_bytes (str schema) schema_id text = with_id (λ n. encode_avro L schema n text) schema_id
  avro_bytes schema schema_id text = loaded L text >>= λ _. err (other_error unexpected_json)

  unfoldable pub encoded : String → Json → Json → String → Result (List ℕ × Json × String)
  encoded schema_type schema schema_id text =
      if schema_type == "AVRO"
      then (avro_bytes schema schema_id text >>= λ bytes. ok (bytes, schema_id, "avro"))
      else (with_id (λ n. encode_json_schema L n text) schema_id >>= λ bytes.
          ok (bytes, schema_id, "json-schema"))

module _ (K : Kafka) (L : Library) (N : Numbers) where
  abbrev pub type_of : String → String
  type_of format = if format == "avro" then "AVRO" else "JSON"

  abbrev pub encode_registered : SchemaRegistry → String → Half → Program K (List ℕ × Json × String)
  encode_registered r subject h =
      refuse_if (not (truthy (strip h.schema))) (value_error schema_required)
      >>ᵏ (register K L N r subject h.schema (type_of h.format) >>=ᵏ λ n.
          lift (encoded L (type_of h.format) (str h.schema) (number n) h.text))

  abbrev pub encode_found :
      String → Half → Option RegisteredSchema → Program K (List ℕ × Json × String)
  encode_found subject h none = raise (value_error (no_schema_for subject))
  encode_found subject h (some s) = lift (encoded L s.schema_type s.schema_str s.schema_id h.text)

  abbrev pub encode_with :
      String → Half → Option SchemaRegistry → Program K (List ℕ × Json × String)
  encode_with subject h none = raise (value_error no_registry)
  encode_with subject h (some r) =
      if h.register
      then encode_registered r subject h
      else (latest_by_subject K L N r subject >>=ᵏ λ latest. encode_found subject h latest)

  -- `_encode_field`
  unfoldable pub encode_field : Context → String → Half → Program K (List ℕ × Json × String)
  encode_field x subject h =
      lift (registry_for_cluster x) >>=ᵏ λ registry. encode_with subject h registry

  -- One half of `send_message`.
  unfoldable pub field_of : Context → String → Half → Program K Field
  field_of x subject h =
      if is_formatted h
      then (encode_field x subject h >>=ᵏ λ e.
          pure (record { text = none; bytes = some e.0; schema_id = some e.1; encoding = e.2 }))
      else pure (record {
        text = if h.absent then none else some h.text;
        bytes = none;
        schema_id = none;
        encoding = "raw";
      })

  abbrev pub sending : Message → Field → Field → Sending
  sending m key value = record {
    topic = m.topic;
    key = key.text;
    value = value.text;
    headers = m.headers;
    partition = m.partition;
    value_bytes = value.bytes;
    encoding = value.encoding;
    schema_id = value.schema_id;
    key_bytes = key.bytes;
    key_encoding = key.encoding;
    key_schema_id = key.schema_id;
  }

  module _ (encode : String → Result (List ℕ)) where
    unfoldable pub send_message : Context → Message → Program K Delivery
    send_message x m =
        require_writable x
        >>ᵏ (field_of x (m.topic ++ˢ "-key") m.key >>=ᵏ λ key.
            field_of x (m.topic ++ˢ "-value") m.value >>=ᵏ λ value.
            send K encode x (sending m key value))
