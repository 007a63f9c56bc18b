-- ===== src/Wire/Varint/Tests.antt =====
-- Runs of the varint reader, and its theorems at concrete inputs.
use kafkascope.Prelude.{◌≡◌, refl, arith, [], ◌∷◌, ◌++◌}
use kafkascope.Wire.Varint.{ok, err, truncated_varint, read_varint, strip_protobuf_index}
use kafkascope.Wire.Varint.Encode.{varint, varints}
use kafkascope.Wire.Varint.RoundTrip.{read_varint-varint}
use kafkascope.Wire.Varint.RoundTrip.{strip_protobuf_index-varints}

read_300 : read_varint (0xac ∷ 0x02 ∷ 7 ∷ []) ≡ ok (300, 7 ∷ [])
unfolding read_varint
read_300 = refl

read_cut : read_varint (0xac ∷ []) ≡ err truncated_varint
unfolding read_varint
read_cut = refl

read_varint-varint_example : read_varint (varint 300 ++ 7 ∷ []) ≡ ok (300, 7 ∷ [])
read_varint-varint_example = read_varint-varint 300 (7 ∷ []) (omega arith)

strip_protobuf_index-varints_example :
    strip_protobuf_index (varint 2 ++ varints (1 ∷ 300 ∷ []) (9 ∷ [])) ≡ ok (9 ∷ [])
strip_protobuf_index-varints_example =
    strip_protobuf_index-varints (1 ∷ 300 ∷ []) (9 ∷ []) (omega arith) (omega arith)
