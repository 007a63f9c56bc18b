-- ===== src/Routers/Schemas.antt =====
-- `schema_panel` of app/routers/produce.py: what the form shows of a subject's schema.
use Prim.Native.String.{String, ◌++◌ as ◌++ˢ◌}
use kafkascope.Prelude.{◌||◌, Option, none, some, ◌==◌, string_eq, ◌≡◌, refl}
use kafkascope.Prelude.{if◌then◌else◌}
use kafkascope.Failure.{Result, ok, err}
use kafkascope.Kafka.{Kafka}
use kafkascope.Kafka.Program.{Program, pure, lift, ◌>>=◌}
use kafkascope.Kafka.Program.Rules.{Silent, Silent-pure, Silent-lift, Silent-ask, Silent-bind}
use kafkascope.Kafka.Program.Rules.{Silent-if}
use kafkascope.Client.{Context}
use kafkascope.Encode.{Library}
use kafkascope.Registry.{SchemaRegistry, RegisteredSchema}
use kafkascope.Registry.Subjects.{Numbers, registry_for_cluster, latest_by_subject}
use kafkascope.Routers.{Texts, or_else}

-- What `_produce_schema.html` is rendered from.
record SchemaPanel : Type 0 where
  pub field : String
  pub fmt : String
  pub subject : String
  pub registered : Option RegisteredSchema
  pub error : Option String

module _ (K : Kafka) (L : Library) (N : Numbers) (T : Texts) where
  -- `except Exception`
  attempt : {A : Type 0} → Program K A → Program K (Result A)
  attempt m s = let r = m s in (ok r.0, r.1)

  abbrev panel : String → String → String → Option RegisteredSchema → Option String → SchemaPanel
  panel field fmt subject registered error = record {
    field = field;
    fmt = fmt;
    subject = subject;
    registered = registered;
    error = error;
  }

  abbrev answered : String → String → String → Result (Option RegisteredSchema) → SchemaPanel
  answered field fmt subject (ok registered) = panel field fmt subject registered none
  answered field fmt subject (err e) =
      panel field fmt subject none (some (or_else (T.str_of e) (T.class_name e)))

  abbrev asked : String → String → String → Option SchemaRegistry → Program K SchemaPanel
  asked field fmt subject none =
      pure
        (panel field fmt subject none (some "No schema registry is configured for this cluster."))
  asked field fmt subject (some r) = attempt (latest_by_subject K L N r subject) >>= λ found.
      pure (answered field fmt subject found)

  abbrev panel_for : Context → String → String → String → Program K SchemaPanel
  panel_for x field fmt subject =
      if fmt == "avro" || fmt == "json"
      then (lift (registry_for_cluster x) >>= λ registry. asked field fmt subject registry)
      else pure (panel field fmt subject none none)

  -- `field` is "value" unless it says "key".
  abbrev side : String → String
  side field = if field == "key" then "key" else "value"

  schema_panel : Context → String → String → String → String → Program K SchemaPanel
  schema_panel x name field value_format key_format =
      panel_for x (side field) (if side field == "key" then key_format else value_format)
        (name ++ˢ "-" ++ˢ side field)

  Silent-attempt :
      {A : Type 0} {Q : A → Type 0} (m : Program K A)
      → Silent m Q
      → Silent (attempt m) (λ _. Unit {0})
  unfolding attempt
  Silent-attempt m k = record { sent = k.sent; returns = λ s a e. tt }

  Silent-asked :
      (field fmt subject : String) (o : Option SchemaRegistry)
      → Silent (asked field fmt subject o) (λ p. p.subject ≡ subject)
  unfolding latest_by_subject
  Silent-asked field fmt subject none = Silent-pure _ refl
  Silent-asked field fmt subject (some r) =
      Silent-bind (Silent-attempt _ (Silent-ask {Q = λ _. Unit {0}} _ (λ w o e. tt)))
        λ found u. Silent-pure (answered field fmt subject found) (subject_of found)
    where
      subject_of :
          (found : Result (Option RegisteredSchema))
          → (answered field fmt subject found).subject ≡ subject
      subject_of (ok o) = refl
      subject_of (err e) = refl

  -- The panel asks for no change, and is about the subject of the field's side.
  schema_panel-Silent :
      (x : Context) (name field value_format key_format : String)
      → Silent
          (schema_panel x name field value_format key_format)
          (λ p. p.subject ≡ name ++ˢ "-" ++ˢ side field)
  unfolding schema_panel
  schema_panel-Silent x name field value_format key_format =
      Silent-if (fmt == "avro" || fmt == "json")
        (λ formatted.
          Silent-bind (Silent-lift {Q = λ _. Unit {0}} (registry_for_cluster x) (λ o e. tt))
            λ o u. Silent-asked (side field) fmt (name ++ˢ "-" ++ˢ side field) o)
        (λ plain. Silent-pure _ refl)
    where
      fmt : String
      fmt = if side field == "key" then key_format else value_format
