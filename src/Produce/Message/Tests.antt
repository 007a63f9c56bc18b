-- ===== src/Produce/Message/Tests.antt =====
-- A message whose key is plain and whose value is JSON, with its schema registered first.
use kafkascope.Prelude.{ℤ, true, false, none, some, List, [], ◌∷◌, ◌≡◌, refl}
use kafkascope.Prelude.Text.{strip, strip_left, strip_right, is_space}
use kafkascope.Prelude.Dict.{values}
use kafkascope.Failure.{ok}
use kafkascope.Json.{get}
use kafkascope.Kafka.{Request, produce, register_schema}
use kafkascope.Kafka.Program.{Program, pure, raise, lift, ask, request, post, ◌>>=◌}
use kafkascope.Settings.{default_cluster}
use kafkascope.Client.{is_readonly, require_writable, current_cluster}
use kafkascope.Encode.{encode_json_schema, header, big_endian_4}
use kafkascope.Registry.{new_registry, rstrip_slash}
use kafkascope.Registry.Subjects.{Numbers, registry_for_cluster, register}
use kafkascope.Produce.{send}
use kafkascope.Produce.Message.{Half, Message, encoded, encode_field, field_of, send_message}
use kafkascope.Samples.{dev_broker, registry_context, sample, fresh}

abbrev numbers : Numbers
numbers = record { upper = λ t. t; int_of = λ v. ok (ℤ.pos 7) }

abbrev key : Half
key = record { text = "k"; format = "raw"; schema = ""; register = false; absent = false }

abbrev value : Half
value = record { text = "h"; format = "json"; schema = "{}"; register = true; absent = false }

abbrev registered : Message
registered = record { topic = "orders"; key = key; value = value; headers = []; partition = none }

abbrev sent_by : {A : Type 0} → Program dev_broker A → List Request
sent_by m = (m fresh).1.sent

-- The schema is registered before the message is sent, and its id is the one in the bytes.
schema_first :
    sent_by
      (send_message dev_broker sample numbers (λ t. ok (107 ∷ [])) registry_context registered)
    ≡ register_schema "http://registry" "" "orders-value" "{}" (some "JSON")
      ∷ produce "orders" (some (107 ∷ [])) (some (0 ∷ 0 ∷ 0 ∷ 0 ∷ 7 ∷ 104 ∷ [])) [] none
      ∷ []
unfolding send_message field_of encode_field encoded encode_json_schema header big_endian_4 register
    registry_for_cluster new_registry rstrip_slash send is_readonly require_writable current_cluster
    default_cluster values strip strip_left strip_right is_space pure raise lift ask request post
    ◌>>=◌ get
schema_first = refl
