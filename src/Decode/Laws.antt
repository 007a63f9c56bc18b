-- ===== src/Decode/Laws.antt =====
-- When the registry is left alone, what a schema message decodes to, and what the cache of parsed
-- Avro schemas does.
use kafkascope.Prelude.{ℕ, pos, ◌^◌, ◌<◌, String, true, false, Option}
use kafkascope.Prelude.{none, some, List, [], ◌∷◌, ◌++◌, ◌≡◌, refl, ap, sym, ◌∙◌}
use kafkascope.Prelude.{nat_eq, arith, ◌⊎◌, string_eq}
use kafkascope.Prelude.Dict.{Dict, lookup, lookup-insert_self, lookup-insert_ne}
use kafkascope.Prelude.Text.{is_empty}
use kafkascope.Failure.{
  or_raise, other_error, schema_mismatch, Failure, Result, ok, err, ◌>>=◌, >>=-eq-ok,
}
use kafkascope.Json.{Json}
use kafkascope.Encode.{Library, big_endian_4, encode_json_schema}
use kafkascope.Encode.Laws.{encode_json_schema_shape}
use kafkascope.Registry.{Network, RegisteredSchema, SchemaRegistry, schema_by_id}
use kafkascope.Decode.{Process, Endpoint, Clients, registry_key, registry_for_cluster}
use kafkascope.Decode.{
  decode_avro, read_schema, remember, parsed_or_parse, big_endian, has_magic, decode_plain, decode,
}
use kafkascope.Decode.{
  decode_registry, or_plain, session_of, jsonable, with_client, shown, decode_body,
}

big_endian-big_endian_4 : (n : ℕ) → n < 256 ^ 4 → big_endian (big_endian_4 n) 0 ≡ n
unfolding big_endian big_endian_4
big_endian-big_endian_4 n h = omega arith

module _ (L : Library) (N : Network) (lower : String → String) (explain : Failure → String) where
  abbrev pub State : Type 0
  State = Process L N lower explain

  -- A payload that does not begin with the magic byte, or is shorter than five bytes, and any
  -- payload where no registry is configured, is shown as text or base64; no request is made and
  -- nothing of the process changes.
  pub decode-eq-plain :
      (e : Endpoint) (raw : List ℕ) (p : State)
      → (has_magic L N lower explain raw ≡ false) ⊎ (is_empty (registry_key e).0 ≡ true)
      → decode L N lower explain e (some raw) p ≡ (ok (decode_plain L N lower explain raw), p)
  unfolding decode decode_registry registry_for_cluster
  decode-eq-plain e raw p h = ground arith

  abbrev framed : ℕ → List ℕ → List ℕ
  framed n body = 0 ∷ (big_endian_4 n ++ body)

  has_magic-framed : (n : ℕ) (body : List ℕ) → has_magic L N lower explain (framed n body) ≡ true
  unfolding has_magic big_endian_4
  has_magic-framed n body = ground arith

  decode_registry_known :
      (e : Endpoint) (p : State) (client : SchemaRegistry) (clients : Clients) (n : ℕ)
      (body : List ℕ) (schema : RegisteredSchema)
      → n < 256 ^ 4
      → registry_for_cluster e p.clients ≡ (some client, clients)
      → (schema_by_id N n (session_of L N lower explain client p)).0 ≡ ok (some schema)
      → (decode_registry L N lower explain e (framed n body) p).0
        ≡ ok (
            some (
              shown L N lower explain n schema body
                (decode_body L N lower explain n schema body p.avro_cache).0))
  unfolding decode_registry
  decode_registry_known e p client clients n body schema lt r s =
      ap (λ t. (with_client L N lower explain e (framed n body) t p).0) r
      ∙ unfold big_endian_4 in rw (big_endian-big_endian_4 n lt) (rw s)

  -- What a schema message decodes to, where the cluster's client knows its schema.
  decode_known :
      (e : Endpoint) (p : State) (client : SchemaRegistry) (clients : Clients) (n : ℕ)
      (body : List ℕ) (schema : RegisteredSchema)
      → n < 256 ^ 4
      → registry_for_cluster e p.clients ≡ (some client, clients)
      → (schema_by_id N n (session_of L N lower explain client p)).0 ≡ ok (some schema)
      → (decode L N lower explain e (some (framed n body)) p).0
        ≡ ok (
            shown L N lower explain n schema body
              (decode_body L N lower explain n schema body p.avro_cache).0)
  unfolding decode
  decode_known e p client clients n body schema lt r s = rw (has_magic-framed n body) (
      ap (or_plain L N lower explain (framed n body))
        (decode_registry_known e p client clients n body schema lt r s))

  -- A JSON Schema payload that the encoder wrote for the text of a value decodes to that value,
  -- rendered again, under its schema id, if the reading cluster has a registry that knows the id as
  -- a JSON schema, and `json` reads back the bytes of what it rendered.
  pub decode-encode_json_schema :
      (e : Endpoint) (p : State) (client : SchemaRegistry) (clients : Clients) (n : ℕ)
      (text : String) (wire : List ℕ) (v : Json) (schema : RegisteredSchema)
      → L.loads text ≡ some v
      → encode_json_schema L (pos n) text ≡ ok wire
      → registry_for_cluster e p.clients ≡ (some client, clients)
      → (schema_by_id N n (session_of L N lower explain client p)).0 ≡ ok (some schema)
      → schema.schema_type ≡ "JSON"
      → L.loads_bytes (L.utf8_bytes (L.dumps v)) ≡ some v
      → (decode L N lower explain e (some wire) p).0
        ≡ ok (record {
          text = some (L.dumps (jsonable L.codecs.b64 v));
          binary = false;
          encoding = "json-schema";
          schema_id = some n;
        })
  decode-encode_json_schema e p client clients n text wire v schema l w r s t back =
      let (lt, shape) = encode_json_schema_shape L n text v wire l w in
      rw shape (
        decode_known e p client clients n (L.utf8_bytes (L.dumps v)) schema lt r s ∙ rw t (rw back))

  -- The avro cache answers by the id alone.
  decode_avro-cached :
      (id : ℕ) (schema_str : Json) (body : List ℕ) (cache : Dict ℕ L.AvroSchema)
      (parsed : L.AvroSchema)
      → lookup id cache ≡ some parsed
      → decode_avro L N lower explain id schema_str body cache
        ≡ (or_raise (L.read_avro parsed body) (other_error schema_mismatch), cache)
  unfolding decode_avro
  decode_avro-cached id schema_str body cache parsed h = rw (h, decode_avro)

  remember-lookup :
      (id : ℕ) (cache : Dict ℕ L.AvroSchema) (r : Result L.AvroSchema) (parsed : L.AvroSchema)
      → (remember L N lower explain id cache r).0 ≡ ok parsed
      → lookup id (remember L N lower explain id cache r).1 ≡ some parsed
  remember-lookup id cache (ok q) parsed h = lookup-insert_self id q cache ∙ ground arith
  remember-lookup id cache (err e) parsed h = cc

  parsed_or_parse-lookup :
      (id : ℕ) (s : Json) (o : Option L.AvroSchema) (cache : Dict ℕ L.AvroSchema)
      (parsed : L.AvroSchema)
      → lookup id cache ≡ o
      → (parsed_or_parse L N lower explain id s o cache).0 ≡ ok parsed
      → lookup id (parsed_or_parse L N lower explain id s o cache).1 ≡ some parsed
  parsed_or_parse-lookup id s (some q) cache parsed e h = e ∙ ground arith
  parsed_or_parse-lookup id s none cache parsed e h = remember-lookup id cache _ parsed h

  remember-keeps :
      (id j : ℕ) (cache : Dict ℕ L.AvroSchema) (r : Result L.AvroSchema) (parsed : L.AvroSchema)
      → lookup id cache ≡ some parsed
      → lookup j cache ≡ none
      → lookup id (remember L N lower explain j cache r).1 ≡ some parsed
  remember-keeps id j cache (err e) parsed h g = h
  remember-keeps id j cache (ok q) parsed h g =
      lookup-insert_ne id j q cache (λ same. differ (ap (λ i. lookup i cache) same)) ∙ h
    where
      differ : lookup id cache ≡ lookup j cache → ⊥
      differ e = cc

  parsed_or_parse-keeps :
      (id j : ℕ) (s : Json) (o : Option L.AvroSchema) (cache : Dict ℕ L.AvroSchema)
      (parsed : L.AvroSchema)
      → lookup id cache ≡ some parsed
      → lookup j cache ≡ o
      → lookup id (parsed_or_parse L N lower explain j s o cache).1 ≡ some parsed
  parsed_or_parse-keeps id j s (some q) cache parsed h g = h
  parsed_or_parse-keeps id j s none cache parsed h g =
      remember-keeps id j cache (read_schema L N lower explain s >>= L.parse_schema) parsed h g

  -- The cache after more messages, each with its id, its schema and its body.
  abbrev pub after_messages : List (ℕ × Json × List ℕ) → Dict ℕ L.AvroSchema → Dict ℕ L.AvroSchema
  after_messages [] cache = cache
  after_messages ((j, s, body) ∷ calls) cache =
      after_messages calls (decode_avro L N lower explain j s body cache).1

  -- No message evicts the schema of an id.
  after_messages-keeps :
      (id : ℕ) (calls : List (ℕ × Json × List ℕ)) (cache : Dict ℕ L.AvroSchema)
      (parsed : L.AvroSchema)
      → lookup id cache ≡ some parsed
      → lookup id (after_messages calls cache) ≡ some parsed
  unfolding decode_avro
  after_messages-keeps id [] cache parsed h = h
  after_messages-keeps id ((j, s, body) ∷ calls) cache parsed h =
      after_messages-keeps id calls _ parsed
        (parsed_or_parse-keeps id j s (lookup j cache) cache parsed h refl)

  -- The message was read with the parsed schema.
  abbrev pub IsReadBy : L.AvroSchema → List ℕ → Result Json → Type 0
  IsReadBy parsed body r = r ≡ or_raise (L.read_avro parsed body) (other_error schema_mismatch)

  -- Once a message was decoded with the Avro schema of an id, that parsed schema reads every later
  -- message with that id, after any messages with any ids in between, and whatever schema its own
  -- registry gives for the id. The cache of parsed schemas is one for all clusters.
  pub decode_avro-first_schema :
      (id : ℕ) (first second : Json) (body later : List ℕ) (between : List (ℕ × Json × List ℕ))
      (cache : Dict ℕ L.AvroSchema) (v : Json)
      → (decode_avro L N lower explain id first body cache).0 ≡ ok v
      → (parsed : L.AvroSchema) × IsReadBy parsed body (ok v)
        × IsReadBy parsed later
            (decode_avro L N lower explain id second later
              (after_messages between (decode_avro L N lower explain id first body cache).1)).0
  decode_avro-first_schema id first second body later between cache v h =
      let (parsed, read, found) = cached_schema h in
      (
        parsed,
        sym read,
        ap (λ r. r.0)
            (decode_avro-cached id second later _ parsed
              (after_messages-keeps id between _ parsed found)),
      )
    where
      cached_schema :
          (decode_avro L N lower explain id first body cache).0 ≡ ok v
          → (parsed : L.AvroSchema) × (or_raise
                (L.read_avro parsed body)
                (other_error schema_mismatch)
              ≡ ok v)
            × (lookup id (decode_avro L N lower explain id first body cache).1 ≡ some parsed)
      cached_schema =
          unfold decode_avro in
          λ k.
            let (parsed, e, read) =
              >>=-eq-ok (parsed_or_parse L N lower explain id first (lookup id cache) cache).0 _
                k in
            (parsed, read, parsed_or_parse-lookup id first (lookup id cache) cache parsed refl e)
