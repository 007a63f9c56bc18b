-- ===== src/Encode.antt =====
-- app/services/encode.py: the Confluent wire format, written.
pub mod Laws
use kafkascope.Prelude.{ℕ, ℤ, pos, negsuc, ◌+◌, ◌*◌, ◌/◌, ◌%◌, ◌^◌, String, Option, none, some}
use kafkascope.Prelude.{List, [], ◌∷◌, ◌++◌, ltb, if◌then◌else◌}
use kafkascope.Failure.{Result, ok, err, value_error, overflow_error, id_out_of_range}
use kafkascope.Failure.{or_raise, invalid_json, schema_mismatch, ◌>>=◌}
use kafkascope.Json.{Json}
use kafkascope.Wire.Proto.{Codecs}

-- What Python's `json` and the `fastavro` package do. `none` is an exception that they raise.
pub record Library : Type 1 where
  pub codecs : Codecs
  -- `json.loads` of a text and of bytes, `json.dumps(v, ensure_ascii=False)`
  pub loads : String → Option Json
  pub loads_bytes : List ℕ → Option Json
  pub dumps : Json → String
  -- `str.encode("utf-8")`
  pub utf8_bytes : String → List ℕ
  -- `str` of a number
  pub decimal : ℕ → String
  -- `fastavro.parse_schema`, `schemaless_writer` and `schemaless_reader`
  pub AvroSchema : Type 0
  pub parse_schema : Json → Result AvroSchema
  pub write_avro : AvroSchema → Json → Option (List ℕ)
  pub read_avro : AvroSchema → List ℕ → Option Json

-- `schema_id.to_bytes(4, "big")`
unfoldable pub big_endian_4 : ℕ → List ℕ
big_endian_4 n = (n / 256 ^ 3 % 256) ∷ (n / 256 ^ 2 % 256) ∷ (n / 256 % 256) ∷ (n % 256) ∷ []

unfoldable pub header : ℤ → Result (List ℕ)
unfolding big_endian_4
header (pos n) =
    if ltb n (256 ^ 4)
    then ok (0 ∷ big_endian_4 n)
    else err (overflow_error (id_out_of_range (pos n)))
header (negsuc n) = err (overflow_error (id_out_of_range (negsuc n)))

module _ (L : Library) where
  open L use {loads, dumps, utf8_bytes, parse_schema, write_avro}

  -- `json.loads(json_text)`, its `ValueError` re-raised as one
  abbrev pub loaded : String → Result Json
  loaded text = or_raise (loads text) (value_error invalid_json)

  abbrev pub written : L.AvroSchema → Json → Result (List ℕ)
  written parsed v = or_raise (write_avro parsed v) (value_error schema_mismatch)

  unfoldable pub encode_avro : String → ℤ → String → Result (List ℕ)
  unfolding header
  encode_avro schema_str schema_id json_text = do
    v ← loaded json_text
    schema ← loaded schema_str
    parsed ← parse_schema schema
    body ← written parsed v
    head ← header schema_id
    ok (head ++ body)

  unfoldable pub encode_json_schema : ℤ → String → Result (List ℕ)
  unfolding header
  encode_json_schema schema_id json_text = do
    v ← loaded json_text
    head ← header schema_id
    ok (head ++ utf8_bytes (dumps v))
