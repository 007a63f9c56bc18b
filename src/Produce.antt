-- ===== src/Produce.antt =====
-- app/services/produce.py: the headers of a form, and sending one message.
pub mod Laws
pub mod Message
mod Tests
use Prim.Native.Char.{code}
use Prim.Native.String.{[] as nil, ◌∷◌ as ◌∷ˢ◌}
use kafkascope.Prelude.{
  ℕ, ℤ, suc, ◌+◌, String, Bool, true, false, ◌&&◌, ◌||◌, not, Option, none, some,
}
use kafkascope.Prelude.{List, [], ◌∷◌, leb, nat_eqb, if◌then◌else◌}
use kafkascope.Prelude.Text.{strip, truthy, partition, Partition}
use kafkascope.Failure.{Result, ok, err, value_error, header_without_name, not_acknowledged}
use kafkascope.Failure.{runtime_error, timeout_error, partition_failed, ◌>>=◌, ◌>>◌, require}
use kafkascope.Json.{Json}
use kafkascope.Kafka.{Kafka, Altered, TopicPartition, produce}
use kafkascope.Kafka.Program.{Program, pure, raise, lift, request, ◌>>=◌ as ◌>>=ᵏ◌, ◌>>◌ as ◌>>ᵏ◌}
use kafkascope.Client.{Context, require_writable}

-- The characters at which `str.splitlines` ends a line.
abbrev pub is_line_break : ℕ → Bool
is_line_break c =
    leb 10 c && leb c 13
    || leb 28 c && leb c 30
    || nat_eqb c 0x85
    || nat_eqb c 0x2028
    || nat_eqb c 0x2029

abbrev starts_line_feed : String → Bool
starts_line_feed nil = false
starts_line_feed (c ∷ˢ s) = nat_eqb (code c) 10

abbrev add_char : Prim.Native.Char.Char → List String → List String
add_char c [] = (c ∷ˢ nil) ∷ []
add_char c (l ∷ ls) = (c ∷ˢ l) ∷ ls

-- `s.splitlines()`; a carriage return and the line feed behind it are one break.
unfoldable pub split_lines : String → List String
split_lines nil = []
split_lines (c ∷ˢ s) =
    let rest = split_lines s in
    if is_line_break (code c)
    then (if nat_eqb (code c) 13 && starts_line_feed s then rest else nil ∷ rest)
    else add_char c rest

abbrev pub value_of : Partition → String
value_of p = if p.found then strip p.after else ""

-- One line that is not blank.
abbrev pub header_of : ℕ → String → Result (String × String)
header_of lineno line = do
  require (truthy (strip (partition b':' line).before)) (value_error (header_without_name lineno))
  ok (strip (partition b':' line).before, value_of (partition b':' line))

-- The loop of `parse_headers`, from a line number on.
unfoldable pub headers_from : ℕ → List String → Result (List (String × String))
headers_from lineno [] = ok []
headers_from lineno (line ∷ lines) =
    if truthy (strip line)
    then (header_of lineno (strip line) >>= λ h.
        headers_from (suc lineno) lines >>= λ hs. ok (h ∷ hs))
    else headers_from (suc lineno) lines

unfoldable pub parse_headers : String → Result (List (String × String))
parse_headers raw = headers_from 1 (split_lines raw)

pub record Delivery : Type 0 where
  pub topic : String
  pub partition : ℤ
  pub offset : ℤ
  pub encoding : String
  pub schema_id : Option Json
  pub key_encoding : String
  pub key_schema_id : Option Json

-- The arguments of `send`.
pub record Sending : Type 0 where
  pub topic : String
  pub key : Option String
  pub value : Option String
  pub headers : List (String × String)
  pub partition : Option ℤ
  pub value_bytes : Option (List ℕ)
  pub encoding : String
  pub schema_id : Option Json
  pub key_bytes : Option (List ℕ)
  pub key_encoding : String
  pub key_schema_id : Option Json

-- The bytes as they are, else the text in UTF-8, else nothing.
abbrev pub raw_of :
    (String → Result (List ℕ)) → Option (List ℕ) → Option String → Result (Option (List ℕ))
raw_of encode (some bs) t = ok (some bs)
raw_of encode none none = ok none
raw_of encode none (some t) = encode t >>= λ bs. ok (some bs)

module _ (K : Kafka) (encode : String → Result (List ℕ)) where
  abbrev pub delivered_or_failed : Sending → Altered → Option String → Program K Delivery
  delivered_or_failed m a (some e) = raise (runtime_error (partition_failed a.at.partition e))
  delivered_or_failed m a none = pure (record {
    topic = a.at.topic;
    partition = a.at.partition;
    offset = a.at.offset;
    encoding = m.encoding;
    schema_id = m.schema_id;
    key_encoding = m.key_encoding;
    key_schema_id = m.key_schema_id;
  })

  -- The answer to the request is empty where the flush ran out of time; else it is the report.
  abbrev pub delivered : Sending → List Altered → Program K Delivery
  delivered m [] = raise (timeout_error not_acknowledged)
  delivered m (a ∷ as_) = delivered_or_failed m a a.error

  unfoldable pub send : Context → Sending → Program K Delivery
  send x m =
      require_writable x
      >>ᵏ (lift (raw_of encode m.value_bytes m.value) >>=ᵏ λ value.
          lift (raw_of encode m.key_bytes m.key) >>=ᵏ λ key.
          request (produce m.topic key value m.headers m.partition) >>=ᵏ λ report.
          delivered m report)
