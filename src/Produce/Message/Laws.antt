-- ===== src/Produce/Message/Laws.antt =====
-- What producing one message asks of the schema registry and of the broker.
use Prim.Native.String.{String, ◌++◌ as ◌++ˢ◌}
use kafkascope.Prelude.{ℕ, true, false, not, Option, none, some, List}
use kafkascope.Prelude.{◌≡◌, refl, ◌⊎◌, inl, inr, if◌then◌else◌}
use kafkascope.Prelude.Text.{strip, truthy}
use kafkascope.Failure.{Result, ok}
use kafkascope.Json.{Json, str, number}
use kafkascope.Kafka.{Kafka, Request, register_schema}
use kafkascope.Kafka.Program.Rules.{Silent-pure, Silent-raise, Silent-lift, Silent-ask}
use kafkascope.Kafka.Program.Rules.{Silent-refuse_if, Sends-weaken}
use kafkascope.Kafka.Program.Asks.{Asks, Asks-Silent, Asks-post, Asks-bind, Asks-if}
use kafkascope.Kafka.Program.Asks.{Concludes, Concludes-Sends, Concludes-bind}
use kafkascope.Client.{Context, is_readonly}
use kafkascope.Client.Laws.{Silent-require_writable}
use kafkascope.Groups.Empty.{not-false}
use kafkascope.Encode.{Library}
use kafkascope.Registry.{SchemaRegistry, RegisteredSchema}
use kafkascope.Registry.Subjects.{Numbers, latest_by_subject, register}
use kafkascope.Registry.Subjects.{registry_for_cluster}
use kafkascope.Produce.Laws.{IsSend, send-Sends}
use kafkascope.Produce.Message.{Half, Message, Field, is_formatted, encoded, encode_registered}
use kafkascope.Produce.Message.{encode_found, encode_with, encode_field, field_of, sending}
use kafkascope.Produce.Message.{send_message, type_of}

-- The registration of the schema that a half of the form has, which it asked for.
abbrev pub IsRegistration : String → Half → Request → Type 0
IsRegistration subject h (register_schema url auth subject' schema schema_type) =
    (h.register ≡ true)
    × (is_formatted h ≡ true)
    × (subject' ≡ subject)
    × (schema ≡ h.schema)
    × (truthy (strip h.schema) ≡ true)
IsRegistration subject h q = ⊥

-- A registration for the key or the value, on a cluster that may be written.
abbrev pub IsForMessage : Context → Message → Request → Type 0
IsForMessage x m q =
    (is_readonly x ≡ ok false)
    × (IsRegistration (m.topic ++ˢ "-key") m.key q
        ⊎ IsRegistration (m.topic ++ˢ "-value") m.value q)

module _ (L : Library) where
  -- The text as it was encoded by some schema.
  abbrev pub IsEncoding : Half → List ℕ × Json × String → Type 0
  IsEncoding h e =
      (schema_type : String) × (schema : Json) × (id : Json) × (encoded L schema_type schema id
          h.text
        ≡ ok e)

  -- A half: its text in the format that was asked for, its text as it is, or nothing.
  abbrev pub IsField : Half → Field → Type 0
  IsField h f =
      ((is_formatted h ≡ true)
        × (f.text ≡ none)
        × (bytes : List ℕ) × (f.bytes ≡ some bytes)
        × (id : Json) × (f.schema_id ≡ some id)
        × IsEncoding h (bytes, id, f.encoding))
      ⊎ ((is_formatted h ≡ false)
          × (f.text ≡ (if h.absent then none else some h.text))
          × (f.bytes ≡ none)
          × (f.schema_id ≡ none))

module _ (K : Kafka) (L : Library) (N : Numbers) where
  module _ {P : Request → Type 0} (subject : String) (h : Half)
      (allowed : (q : Request) → IsRegistration subject h q → P q) where
    Asks-registered :
        (r : SchemaRegistry)
        → h.register ≡ true
        → is_formatted h ≡ true
        → Asks (encode_registered K L N r subject h) P (IsEncoding L h)
    unfolding register
    Asks-registered r wanted formatted =
        Asks-bind (Asks-Silent (Silent-refuse_if (not (truthy (strip h.schema))) _)) λ u given.
          Asks-bind
            (Asks-bind
              (Asks-post _ (allowed _ (wanted, formatted, refl, refl, not-false K _ given)))
              λ reply v. Asks-Silent (Silent-lift {Q = λ _. Unit {0}} _ (λ n e. tt)))
            λ n v.
              Asks-Silent
                (Silent-lift _ (λ e made. (type_of K L N h.format, str h.schema, number n, made)))

    Asks-found :
        (o : Option RegisteredSchema) → Asks (encode_found K L N subject h o) P (IsEncoding L h)
    Asks-found none = Asks-Silent (Silent-raise _)
    Asks-found (some s) =
        Asks-Silent (Silent-lift _ (λ e made. (s.schema_type, s.schema_str, s.schema_id, made)))

    Asks-latest : (r : SchemaRegistry) → Asks (latest_by_subject K L N r subject) P (λ _. Unit {0})
    unfolding latest_by_subject
    Asks-latest r = Asks-Silent (Silent-ask _ (λ w o e. tt))

    Asks-encode_with :
        (o : Option SchemaRegistry)
        → is_formatted h ≡ true
        → Asks (encode_with K L N subject h o) P (IsEncoding L h)
    Asks-encode_with none formatted = Asks-Silent (Silent-raise _)
    Asks-encode_with (some r) formatted =
        Asks-if h.register (λ wanted. Asks-registered r wanted formatted)
          λ plain. Asks-bind (Asks-latest r) λ o u. Asks-found o

    Asks-field_of : (x : Context) → Asks (field_of K L N x subject h) P (IsField L h)
    unfolding field_of encode_field
    Asks-field_of x =
        Asks-if (is_formatted h)
          (λ formatted.
            Asks-bind
              (Asks-bind
                (Asks-Silent (Silent-lift {Q = λ _. Unit {0}} (registry_for_cluster x) (λ o e. tt)))
                λ o u. Asks-encode_with o formatted)
              λ e made.
                Asks-Silent (Silent-pure _ (inl (formatted, refl, e.0, refl, e.1, refl, made))))
          (λ plain. Asks-Silent (Silent-pure _ (inr (plain, refl, refl, refl))))

  module _ (encode : String → Result (List ℕ)) where
    -- The message with its two halves as they were encoded.
    abbrev pub IsSending : Context → Message → Request → Type 0
    IsSending x m q =
        (key : Field) × IsField L m.key key
        × (value : Field) × IsField L m.value value
        × IsSend K encode x (sending K L N m key value) q

    pub send_message-Concludes :
        (x : Context) (m : Message)
        → Concludes (send_message K L N encode x m) (IsForMessage x m) (IsSending x m)
    unfolding send_message
    send_message-Concludes x m = Concludes-bind (Asks-Silent (Silent-require_writable x)) λ u open_.
        Concludes-bind (Asks-field_of _ m.key (λ q r. (open_, inl r)) x) λ key k.
          Concludes-bind (Asks-field_of _ m.value (λ q r. (open_, inr r)) x) λ value v.
            Concludes-Sends (
              Sends-weaken (send-Sends K encode x (sending K L N m key value))
                λ q p. (key, k, value, v, p))
