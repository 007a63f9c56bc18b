-- ===== src/Wire/Proto.antt =====
-- `decode_protobuf` and `_decode_length_delimited` of app/services/decode.py.
pub mod Total
pub mod Collect
pub mod Fuel
pub mod RoundTrip
mod Tests
use kafkascope.Prelude.{ℕ, zero, suc, ◌+◌, ◌*◌, ◌/◌, ◌%◌, String, Bool, ◌||◌}
use kafkascope.Prelude.{Option, none, some, List, [], ◌∷◌, take, drop, length, ◌==◌, nat_eq}
use kafkascope.Prelude.{if◌then◌else◌}
use kafkascope.Prelude.Text.{has_infix}
use kafkascope.Wire.Varint.{Read, ok, err, stuck, ◌>>=◌, unsupported_wire_type, read_varint}

-- What Python's own library does with bytes and texts.
pub record Codecs : Type 0 where
  pub utf8 : List ℕ → Option String
  pub is_printable : String → Bool
  pub b64 : List ℕ → String

-- The values that the walk builds. A dict keyed by `field_<n>` is a list of fields in insertion
-- order, with the number for the key; `repeated` is the list that a repeated field collects into,
-- and `b64` the dict with the one key `__bytes_b64__`.
mutual
  pub data Value : Type 0 where
    int : ℕ → Value
    text : String → Value
    message : Fields → Value
    b64 : String → Value
    repeated : Values → Value

  pub data Values : Type 0 where
    nil : Values
    cons : Value → Values → Values

  pub data Fields : Type 0 where
    end : Fields
    field : ℕ → Value → Fields → Fields

abbrev pub append_value : Values → Value → Values
append_value nil v = cons v nil
append_value (cons w ws) v = cons w (append_value ws v)

-- `if not isinstance(result[key], list): result[key] = [result[key]]`, then `append(val)`
abbrev pub collect : Value → Value → Value
collect (repeated ws) v = repeated (append_value ws v)
collect w v = repeated (cons w (cons v nil))

unfoldable pub add_field : ℕ → Value → Fields → Fields
add_field n v end = field n v end
add_field n v (field m w fs) =
    if m == n then field m (collect w v) fs else field m w (add_field n v fs)

-- `int.from_bytes(chunk, "little")`
unfoldable pub little_endian : List ℕ → ℕ
little_endian [] = 0
little_endian (b ∷ bs) = b + 256 * little_endian bs

abbrev pub is_end : Fields → Bool
is_end end = Bool.true
is_end (field n v fs) = Bool.false

-- Wire type 0.
unfoldable pub read_int : List ℕ → Read (Value × List ℕ)
unfolding read_varint
read_int src = do (n, rest) ← read_varint src; ok (int n, rest)

module _ (c : Codecs) where
  -- Whether the text reading of a chunk is preferred.
  abbrev pub reads_as_text : String → Bool
  reads_as_text t = c.is_printable t || (has_infix "\n" t || (has_infix "\t" t || has_infix " " t))

  -- The fall-back after the text reading: a nested message, which is the argument, or raw bytes.
  -- An exception of the nested walk is swallowed.
  abbrev pub nested_or_bytes : List ℕ → Read Fields → Read Value
  nested_or_bytes chunk (ok fs) = if is_end fs then ok (b64 (c.b64 chunk)) else ok (message fs)
  nested_or_bytes chunk (err e) = ok (b64 (c.b64 chunk))
  nested_or_bytes chunk stuck = stuck

  abbrev pub text_or : Option String → Read Value → Read Value
  text_or none other = other
  text_or (some t) other = if reads_as_text t then ok (text t) else other

  -- `_decode_length_delimited`; `nested` is `decode_protobuf(chunk)`.
  unfoldable pub decode_length_delimited : List ℕ → Read Fields → Read Value
  decode_length_delimited [] nested = ok (text "")
  decode_length_delimited (b ∷ bs) nested =
      text_or (c.utf8 (b ∷ bs)) (nested_or_bytes (b ∷ bs) nested)

  -- Wire type 2: a length, and a chunk of as many bytes. `walk` decodes a nested message.
  unfoldable pub chunk_at : (List ℕ → Read Fields) → ℕ → List ℕ → Read (Value × List ℕ)
  unfolding decode_length_delimited
  chunk_at walk size rest = do
    v ← decode_length_delimited (take size rest) (walk (take size rest))
    ok (v, drop size rest)

  unfoldable pub read_chunk : (List ℕ → Read Fields) → List ℕ → Read (Value × List ℕ)
  unfolding read_varint chunk_at
  read_chunk walk src = do (size, rest) ← read_varint src; chunk_at walk size rest

  -- The branches on the wire type: the value, and the bytes behind it. A slice past the end is the bytes that are there.
  unfoldable pub read_value : (List ℕ → Read Fields) → ℕ → List ℕ → Read (Value × List ℕ)
  unfolding read_int little_endian read_chunk
  read_value walk wire src =
      if wire == 0
      then read_int src
      else if wire == 1
      then ok (int (little_endian (take 8 src)), drop 8 src)
      else if wire == 2
      then read_chunk walk src
      else if wire == 5
      then ok (int (little_endian (take 4 src)), drop 4 src)
      else err (unsupported_wire_type wire)

  -- The `while pos < n` loop. Each round takes a byte at least, and a nested chunk is shorter than
  -- what is left, so one measure bounds the rounds and the depth.
  unfoldable pub walk_fields : ℕ → List ℕ → Fields → Read Fields
  unfolding read_value add_field
  walk_fields fuel [] result = ok result
  walk_fields zero (b ∷ bs) result = stuck
  walk_fields (suc fuel) (b ∷ bs) result = do
    (tag, rest) ← read_varint (b ∷ bs)
    (v, behind) ← read_value (λ chunk. walk_fields fuel chunk end) (tag % 8) rest
    walk_fields fuel behind (add_field (tag / 8) v result)

  unfoldable pub decode_protobuf : List ℕ → Read Fields
  unfolding walk_fields
  decode_protobuf src = walk_fields (length src) src end
