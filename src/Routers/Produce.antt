-- ===== src/Routers/Produce.antt =====
-- `send` of app/routers/produce.py: the route that produces one message.
use kafkascope.Prelude.{ℕ, ℤ, String, Bool, true, false, Option, none, some, List, [], ◌∷◌}
use kafkascope.Prelude.Text.{truthy}
use kafkascope.Failure.{Failure, Result, ok, err, value_error, runtime_error, timeout_error}
use kafkascope.Failure.{permission_error}
use kafkascope.Json.{Json, str, number, boolean, null}
use kafkascope.Kafka.{Kafka}
use kafkascope.Kafka.Program.{Session, Program, lift, ◌>>=◌}
use kafkascope.Encode.{Library}
use kafkascope.Registry.Subjects.{Numbers}
use kafkascope.Produce.{Delivery, parse_headers}
use kafkascope.Produce.Message.{Message, send_message}
use kafkascope.Audit.{Caller}
use kafkascope.Routers.{Texts, Answer, audited, error, delivered, or_else}
use kafkascope.Routers.Groups.{optional_int}

pub record ProduceForm : Type 0 where
  pub key : String
  pub value : String
  pub headers : String
  pub partition : String
  pub null_key : String
  pub tombstone : String
  pub key_format : String
  pub key_schema_text : String
  pub key_register : String
  pub value_format : String
  pub value_schema_text : String
  pub value_register : String

abbrev pub message : String → ProduceForm → List (String × String) → Option ℤ → Message
message name f headers partition = record {
  topic = name;
  key = record {
    text = f.key;
    format = f.key_format;
    schema = f.key_schema_text;
    register = truthy f.key_register;
    absent = truthy f.null_key;
  };
  value = record {
    text = f.value;
    format = f.value_format;
    schema = f.value_schema_text;
    register = truthy f.value_register;
    absent = truthy f.tombstone;
  };
  headers = headers;
  partition = partition;
}

-- `except (ValueError, RuntimeError, TimeoutError, PermissionError)`
abbrev pub is_told : Failure → Bool
is_told (value_error r) = true
is_told (runtime_error r) = true
is_told (timeout_error r) = true
is_told (permission_error r) = true
is_told e = false

abbrev pub or_null : Option Json → Json
or_null none = null
or_null (some v) = v

abbrev pub delivery_detail : ProduceForm → Delivery → List (String × Json)
delivery_detail f d =
    ("partition", number d.partition)
    ∷ ("offset", number d.offset)
    ∷ ("tombstone", boolean (truthy f.tombstone))
    ∷ ("encoding", str d.encoding)
    ∷ ("schema_id", or_null d.schema_id)
    ∷ ("key_encoding", str d.key_encoding)
    ∷ ("key_schema_id", or_null d.key_schema_id)
    ∷ []

module _ (K : Kafka) (L : Library) (N : Numbers) (encode : String → Result (List ℕ))
    (T : Texts) where
  unfoldable pub send_run : Caller → String → ProduceForm → Option ℤ → Program K Delivery
  send_run c name f partition = lift (parse_headers f.headers) >>= λ headers.
      send_message K L N encode c.context (message name f headers partition)

  abbrev pub failed : Caller → String → ProduceForm → Failure → Bool → Session K → Answer K
  failed c name f e true s =
      audited c "produce" name "error"
        (("error", str (T.str_of e)) ∷ ("encoding", str f.value_format) ∷ []) (error (T.str_of e)) s
  failed c name f e false s =
      let shown = or_else (T.str_of e) (T.class_name e) in
      audited c "produce" name "error" (("error", str shown) ∷ []) (error shown) s

  abbrev pub sent_answer : Caller → String → ProduceForm → Result Delivery × Session K → Answer K
  sent_answer c name f (ok d, s) =
      audited c "produce" name "ok" (delivery_detail f d) (delivered d) s
  sent_answer c name f (err e, s) = failed c name f e (is_told e) s

  abbrev pub send_to : Caller → String → ProduceForm → Result (Option ℤ) → Session K → Answer K
  send_to c name f (err e) s = record { shown = err e; log = []; session = s }
  send_to c name f (ok partition) s = sent_answer c name f (send_run c name f partition s)

  -- The partition is read before anything is caught.
  unfoldable pub send : Caller → String → ProduceForm → Session K → Answer K
  send c name f s = send_to c name f (optional_int T (truthy f.partition) f.partition) s
