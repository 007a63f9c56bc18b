-- ===== src/Registry/Tests.antt =====
-- The cache at a network that knows one schema.
use kafkascope.Prelude.{ℤ, ℕ, zero, suc, none, some, [], ◌∷◌, ◌≡◌, refl}
use kafkascope.Failure.{ok}
use kafkascope.Json.{Json, str, obj, member, end, get}
use kafkascope.Prelude.Dict.{lookup}
use kafkascope.Registry.{Network, Session, body, unreachable, RegisteredSchema}
use kafkascope.Registry.{schema_by_id, new_registry, new_session, schema_from}
use kafkascope.Registry.Laws.{look_up_all, schema_by_id-settled, look_up_all-asks_once, NoRepeat}
use kafkascope.Registry.Laws.{NeverRaises}

abbrev avro_answer : Json
avro_answer = obj (member "schema" (str "\"long\"") end)

-- The network counts the requests, and answers only the first.
abbrev once_only : Network
once_only = record {
  World = ℕ;
  get_schema = λ url auth id n. (elim n [ zero ↦ body avro_answer | suc k ↦ unreachable ], suc n);
  upper = λ s. s;
}

abbrev start : Session once_only
start = new_session once_only "http://r/" "" 0

abbrev long_schema : RegisteredSchema
long_schema = record {
  schema_id = Json.number (ℤ.pos 7);
  schema_type = "AVRO";
  schema_str = str "\"long\"";
}

first_lookup : (schema_by_id once_only 7 start).0 ≡ ok (some long_schema)
unfolding schema_by_id new_registry lookup schema_from get
first_lookup = refl

schema_by_id-settled_example :
    schema_by_id once_only 7 (look_up_all once_only (8 ∷ 7 ∷ []) (schema_by_id once_only 7 start).1)
    ≡ (ok (some long_schema), look_up_all once_only (8 ∷ 7 ∷ []) (schema_by_id once_only 7 start).1)
schema_by_id-settled_example =
    schema_by_id-settled once_only 7 start (some long_schema) (8 ∷ 7 ∷ []) first_lookup

never_raises : NeverRaises once_only
unfolding schema_from get
never_raises url auth id zero = (some _, refl)
never_raises url auth id (suc n) = (none, refl)

look_up_all-asks_once_example :
    NoRepeat once_only (look_up_all once_only (7 ∷ 8 ∷ 7 ∷ []) start).asked
look_up_all-asks_once_example =
    look_up_all-asks_once once_only never_raises (7 ∷ 8 ∷ 7 ∷ []) "http://r/" "" 0
