-- ===== src/Wire/Proto/Total.antt =====
-- The walk of a protobuf body ends on every input.
use kafkascope.Prelude.{ℕ, zero, suc, ◌/◌, ◌%◌, ◌≤◌, ◌<◌, ◌≡◌, ◌≢◌, refl, arith}
use kafkascope.Prelude.{List, [], ◌∷◌, length, take, length-take, length-drop}
use kafkascope.Prelude.{nat_eq}
use kafkascope.Wire.Varint.{Read, ok, err, stuck, read_varint, >>=-eq-ok, >>=-ne-stuck}
use kafkascope.Wire.Varint.RoundTrip.{read_varint_takes, read_varint-ne-stuck}
use kafkascope.Wire.Proto.{Codecs, Value, Fields, end, add_field, nested_or_bytes}
use kafkascope.Wire.Proto.{
  read_int, decode_length_delimited, chunk_at, read_chunk, read_value, walk_fields, decode_protobuf,
}

read_int-ne-stuck : (src : List ℕ) → read_int src ≢ stuck
unfolding read_int
read_int-ne-stuck src = >>=-ne-stuck (read_varint src) _ (read_varint-ne-stuck src) λ a e p. cc

read_int_shorter :
    (src : List ℕ) (v : Value) (behind : List ℕ)
    → read_int src ≡ ok (v, behind)
    → length behind ≤ length src
unfolding read_int
read_int_shorter src v behind h =
    let ((n, rest), e, k) = >>=-eq-ok (read_varint src) _ h in
    ground (arith, read_varint_takes src n rest e)

module _ (c : Codecs) where
  nested_or_bytes-ne-stuck :
      (chunk : List ℕ) (r : Read Fields) → r ≢ stuck → nested_or_bytes c chunk r ≢ stuck
  nested_or_bytes-ne-stuck chunk (ok fs) h = ground arith
  nested_or_bytes-ne-stuck chunk (err e) h = λ p. cc
  nested_or_bytes-ne-stuck chunk stuck h = absurd (h refl)

  decode_length_delimited-ne-stuck :
      (chunk : List ℕ) (r : Read Fields) → r ≢ stuck → decode_length_delimited c chunk r ≢ stuck
  unfolding decode_length_delimited
  decode_length_delimited-ne-stuck [] r h = λ p. cc
  decode_length_delimited-ne-stuck (b ∷ bs) r h =
      ground (arith, nested_or_bytes-ne-stuck (b ∷ bs) r h)

  module _ (walk : List ℕ → Read Fields) where
    chunk_at-ne-stuck :
        (size : ℕ) (rest : List ℕ)
        → walk (take size rest) ≢ stuck
        → chunk_at c walk size rest ≢ stuck
    unfolding chunk_at
    chunk_at-ne-stuck size rest h =
        ground (arith, decode_length_delimited-ne-stuck (take size rest) (walk (take size rest)))

    chunk_at_shorter :
        (size : ℕ) (rest : List ℕ) (v : Value) (behind : List ℕ)
        → chunk_at c walk size rest ≡ ok (v, behind)
        → length behind ≤ length rest
    unfolding chunk_at
    chunk_at_shorter size rest v behind h = ground (arith, length-drop size rest)

    read_chunk-ne-stuck :
        (src : List ℕ)
        → ((chunk : List ℕ) → length chunk < length src → walk chunk ≢ stuck)
        → read_chunk c walk src ≢ stuck
    unfolding read_chunk
    read_chunk-ne-stuck src h =
        >>=-ne-stuck (read_varint src) _ (read_varint-ne-stuck src) λ (size, rest) e.
          chunk_at-ne-stuck size rest
            (h _ (omega (arith, length-take size rest, read_varint_takes src size rest e)))

    read_chunk_shorter :
        (src : List ℕ) (v : Value) (behind : List ℕ)
        → read_chunk c walk src ≡ ok (v, behind)
        → length behind ≤ length src
    unfolding read_chunk
    read_chunk_shorter src v behind h =
        let ((size, rest), e, k) = >>=-eq-ok (read_varint src) _ h in
        omega (arith, read_varint_takes src size rest e, chunk_at_shorter size rest v behind k)

    read_value-ne-stuck :
        (wire : ℕ) (src : List ℕ)
        → ((chunk : List ℕ) → length chunk < length src → walk chunk ≢ stuck)
        → read_value c walk wire src ≢ stuck
    unfolding read_value
    read_value-ne-stuck wire src h =
        ground (arith, read_int-ne-stuck src, read_chunk-ne-stuck src h)

    pub read_value_shorter :
        (wire : ℕ) (src : List ℕ) (v : Value) (behind : List ℕ)
        → read_value c walk wire src ≡ ok (v, behind)
        → length behind ≤ length src
    unfolding read_value
    read_value_shorter wire src v behind h = ground (
      arith,
      read_chunk_shorter src v behind,
      length-drop 8 src,
      length-drop 4 src,
      read_int_shorter src v behind,
    )

  walk_fields-ne-stuck :
      (fuel : ℕ) (src : List ℕ) (result : Fields)
      → length src ≤ fuel
      → walk_fields c fuel src result ≢ stuck
  unfolding walk_fields
  walk_fields-ne-stuck fuel [] result h = λ p. cc
  walk_fields-ne-stuck zero (b ∷ bs) result h = absurd (omega arith)
  walk_fields-ne-stuck (suc fuel) (b ∷ bs) result h =
      >>=-ne-stuck (read_varint (b ∷ bs)) _ (read_varint-ne-stuck (b ∷ bs)) λ (tag, rest) e.
        let shorter = (read_varint_takes (b ∷ bs) tag rest e).0 in
        >>=-ne-stuck (read_value c (λ chunk. walk_fields c fuel chunk end) (tag % 8) rest) _
          (read_value-ne-stuck (λ chunk. walk_fields c fuel chunk end) (tag % 8) rest
            λ chunk k. walk_fields-ne-stuck fuel chunk end (omega arith))
          λ (v, behind) e'. walk_fields-ne-stuck fuel behind (add_field (tag / 8) v result) (
            omega (
              arith,
              read_value_shorter (λ chunk. walk_fields c fuel chunk end) (tag % 8) rest v behind e',
            ))

  -- On every input `decode_protobuf` returns a dict or raises one of its `ValueError`s: the walk,
  -- nested messages included, never runs out of its fuel, the number of input bytes.
  pub decode_protobuf-ne-stuck : (src : List ℕ) → decode_protobuf c src ≢ stuck
  unfolding decode_protobuf
  decode_protobuf-ne-stuck src = walk_fields-ne-stuck (length src) src end (omega arith)
