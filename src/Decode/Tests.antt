-- ===== src/Decode/Tests.antt =====
-- The decoder over a small sample of the libraries, and its theorems there.
use kafkascope.Prelude.{pos, String, false, some, [], ◌∷◌}
use kafkascope.Prelude.{◌≡◌, refl, string_eq, nat_eq}
use kafkascope.Prelude.Dict.{lookup, insert}
use kafkascope.Failure.{Failure, ok}
use kafkascope.Json.{str}
use kafkascope.Encode.{encode_json_schema}
use kafkascope.Registry.{Network, SchemaRegistry, RegisteredSchema, schema_by_id, unreachable}
use kafkascope.Decode.{Process, Endpoint, registry_for_cluster, decode}
use kafkascope.Decode.{decode_avro, session_of}
use kafkascope.Decode.Rendered.{jsonable}
use kafkascope.Samples.{sample}
use kafkascope.Decode.Laws.{decode-encode_json_schema, decode_avro-first_schema}
use kafkascope.Decode.Laws.{IsReadBy, after_messages}

abbrev silent : Network
silent = record { World = Unit {0}; get_schema = λ url auth id w. (unreachable, w); upper = λ t. t }

abbrev lower : String → String
lower t = t

abbrev explain : Failure → String
explain e = "error"

abbrev json_schema : RegisteredSchema
json_schema = record { schema_id = str "7"; schema_type = "JSON"; schema_str = str "{}" }

abbrev client : SchemaRegistry
client = record { url = "http://r"; auth = ""; cache = (7, some json_schema) ∷ [] }

abbrev here : Endpoint
here = record { cluster_url = "http://r"; cluster_auth = ""; default_url = ""; default_auth = "" }

abbrev nowhere : Endpoint
nowhere = record { cluster_url = ""; cluster_auth = ""; default_url = ""; default_auth = "" }

abbrev process : Process sample silent lower explain
process = record {
  avro_cache = [];
  clients = (("http://r", ""), client) ∷ [];
  world = tt;
  asked = [];
}

wire_written : encode_json_schema sample (pos 7) "h" ≡ ok (0 ∷ 0 ∷ 0 ∷ 0 ∷ 7 ∷ 104 ∷ [])
unfolding encode_json_schema
wire_written = refl

client_found : registry_for_cluster here process.clients ≡ (some client, process.clients)
unfolding registry_for_cluster lookup
client_found = refl

schema_found :
    (schema_by_id silent 7 (session_of sample silent lower explain client process)).0
    ≡ ok (some json_schema)
unfolding schema_by_id lookup
schema_found = refl

decode-encode_json_schema_example :
    (decode sample silent lower explain here (some (0 ∷ 0 ∷ 0 ∷ 0 ∷ 7 ∷ 104 ∷ [])) process).0
    ≡ ok (record {
      text = some (sample.dumps (jsonable sample.codecs.b64 (str "h")));
      binary = false;
      encoding = "json-schema";
      schema_id = some 7;
    })
decode-encode_json_schema_example =
    decode-encode_json_schema sample silent lower explain here process client process.clients 7 "h"
      (0 ∷ 0 ∷ 0 ∷ 0 ∷ 7 ∷ 104 ∷ []) (str "h") json_schema refl wire_written client_found
      schema_found refl refl

-- Two registries give the id 7 to different schemas. The second message is read with the first.
first_decoded :
    (decode_avro sample silent lower explain 7 (str "\"long\"") [] []).0 ≡ ok (str "\"long\"")
unfolding decode_avro lookup insert
first_decoded = refl

decode_avro-first_schema_example :
    (parsed : sample.AvroSchema) × IsReadBy sample silent lower explain parsed []
      (ok (str "\"long\""))
    × IsReadBy sample silent lower explain parsed
        (1 ∷ [])
        (decode_avro sample silent lower explain 7 (str "\"string\"") (1 ∷ []) (
          after_messages sample silent lower explain
            ((9, str "\"int\"", []) ∷ [])
            (decode_avro sample silent lower explain 7 (str "\"long\"") [] []).1)).0
decode_avro-first_schema_example =
    decode_avro-first_schema sample silent lower explain 7 (str "\"long\"") (str "\"string\"") []
      (1 ∷ []) ((9, str "\"int\"", []) ∷ []) [] (str "\"long\"") first_decoded
