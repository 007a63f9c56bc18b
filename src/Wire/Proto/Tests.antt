-- ===== src/Wire/Proto/Tests.antt =====
-- Runs of the protobuf walk over a sample of Python's codecs, and its theorems there.
use kafkascope.Prelude.{◌≡◌, ◌≢◌, refl, arith, true, none, some}
use kafkascope.Prelude.{List, [], ◌∷◌, ltb, if◌then◌else◌, all, All}
use kafkascope.Wire.Varint.{ok, stuck}
use kafkascope.Wire.Proto.{Codecs, int, text, message, repeated, cons, nil, field, end}
use kafkascope.Wire.Proto.{decode_protobuf, decode_length_delimited, add_field}
use kafkascope.Prelude.{ℕ}
use kafkascope.Wire.Proto.{Fields}
use kafkascope.Wire.Proto.Collect.{field_at, gathered, values_at, add_all}
use kafkascope.Wire.Proto.Total.{decode_protobuf-ne-stuck}
use kafkascope.Wire.Proto.RoundTrip.{Item, varint_item, fixed32, chunk, encode, pairs}
use kafkascope.Wire.Proto.RoundTrip.{IsItem, decode_protobuf-encode}

-- Only the byte 104 reads as a text here.
abbrev sample : Codecs
sample = record {
  utf8 = λ bs. if all (λ b. ltb 103 b) bs then some "h" else none;
  is_printable = λ t. true;
  b64 = λ bs. "?";
}

abbrev body : List Item
body =
    varint_item 1 150
    ∷ (chunk 2 (104 ∷ []) (text "h"))
    ∷ (varint_item 1 7)
    ∷ (fixed32 3 258)
    ∷ chunk 4 (8 ∷ 5 ∷ []) (message (field 1 (int 5) end))
    ∷ []

text_reads :
    decode_length_delimited sample (104 ∷ []) (decode_protobuf sample (104 ∷ [])) ≡ ok (text "h")
unfolding decode_length_delimited
text_reads = refl

message_reads :
    decode_length_delimited sample (8 ∷ 5 ∷ []) (decode_protobuf sample (8 ∷ 5 ∷ []))
    ≡ ok (message (field 1 (int 5) end))
unfolding decode_length_delimited decode_protobuf
message_reads = refl

body-IsItem : All (IsItem sample) body
body-IsItem = (
  (omega arith, omega arith),
  (
    (omega arith, omega arith, text_reads),
    (
      (omega arith, omega arith),
      ((omega arith, omega arith), ((omega arith, omega arith, message_reads), tt)),
    ),
  ),
)

decode_protobuf-encode_example :
    (fs : Fields) × (decode_protobuf sample (encode body) ≡ ok fs)
    × ((n : ℕ) → field_at n fs ≡ gathered (values_at n (pairs body)))
decode_protobuf-encode_example = decode_protobuf-encode sample body body-IsItem

-- The repeated number 1 is collected into a list at its first place.
add_all-body :
    add_all (pairs body) end
    ≡ field 1
        (repeated (cons (int 150) (cons (int 7) nil)))
        (field 2 (text "h") (field 3 (int 258) (field 4 (message (field 1 (int 5) end)) end)))
unfolding add_field
add_all-body = refl

decode_protobuf-ne-stuck_example : decode_protobuf sample (8 ∷ 150 ∷ []) ≢ stuck
decode_protobuf-ne-stuck_example = decode_protobuf-ne-stuck sample (8 ∷ 150 ∷ [])
