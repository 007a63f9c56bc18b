-- ===== src/Wire/Proto/RoundTrip.antt =====
-- The walk of a protobuf body inverts the wire encoding of a list of fields.
use native.Mathlib.Nat.{le_refl}
use kafkascope.Prelude.{
  ℕ, zero, suc, ◌+◌, ◌*◌, ◌/◌, ◌%◌, ◌^◌, ◌≤◌, ◌<◌, ◌≡◌, refl, ◌∙◌, ap, subst, arith,
}
use kafkascope.Prelude.{List, [], ◌∷◌, ◌++◌, length, take, drop, take_all, drop_all}
use kafkascope.Prelude.{length-append, All}
use kafkascope.Wire.Varint.{ok, read_varint}
use kafkascope.Wire.Varint.Encode.{varint, Fits, length-varint_bytes}
use kafkascope.Wire.Varint.RoundTrip.{read_varint-varint}
use kafkascope.Wire.Proto.Fuel.{walk_fields_fuel}
use kafkascope.Wire.Proto.{Codecs, Value, int, Fields, end, add_field, little_endian, read_int}
use kafkascope.Wire.Proto.{decode_length_delimited, chunk_at, read_chunk, read_value, walk_fields}
use kafkascope.Wire.Proto.{decode_protobuf}
use kafkascope.Wire.Proto.Collect.{field_at, gathered, values_at, add_all, IsSingle}
use kafkascope.Wire.Proto.Collect.{field_at-add_all, chunk-IsSingle}

-- A field as it is written: its number, and a value of one of the four wire types.
pub data Item : Type 0 where
  varint_item fixed64 fixed32 : ℕ → ℕ → Item
  chunk : ℕ → List ℕ → Value → Item

-- The lowest byte first.
unfoldable pub le_bytes : ℕ → ℕ → List ℕ
le_bytes zero v = []
le_bytes (suc k) v = (v % 256) ∷ le_bytes k (v / 256)

abbrev pub number : Item → ℕ
number (varint_item n v) = n
number (fixed64 n v) = n
number (fixed32 n v) = n
number (chunk n bs v) = n

abbrev pub wire : Item → ℕ
wire (varint_item n v) = 0
wire (fixed64 n v) = 1
wire (chunk n bs v) = 2
wire (fixed32 n v) = 5

abbrev pub value : Item → Value
value (varint_item n v) = int v
value (fixed64 n v) = int v
value (fixed32 n v) = int v
value (chunk n bs v) = v

abbrev pub payload : Item → List ℕ → List ℕ
payload (varint_item n v) rest = varint v ++ rest
payload (fixed64 n v) rest = le_bytes 8 v ++ rest
payload (fixed32 n v) rest = le_bytes 4 v ++ rest
payload (chunk n bs v) rest = varint (length bs) ++ (bs ++ rest)

-- The wire encoding of a list of fields.
abbrev pub encode : List Item → List ℕ
encode [] = []
encode (i ∷ is) = varint (number i * 8 + wire i) ++ payload i (encode is)

-- What is written, in order.
abbrev pub pairs : List Item → List (ℕ × Value)
pairs [] = []
pairs (i ∷ is) = (number i, value i) ∷ pairs is

length-le_bytes : (k v : ℕ) → length (le_bytes k v) ≡ k
unfolding le_bytes
length-le_bytes zero v = refl
length-le_bytes (suc k) v = ap suc (length-le_bytes k (v / 256))

little_endian-le_bytes : (k v : ℕ) → v < 256 ^ k → little_endian (le_bytes k v) ≡ v
unfolding little_endian le_bytes
little_endian-le_bytes zero v h = omega arith
little_endian-le_bytes (suc k) v h =
    omega (arith, little_endian-le_bytes k (v / 256) (quotient_below k v h))
  where
    quotient_below : (k v : ℕ) → v < 256 ^ suc k → v / 256 < 256 ^ k
    quotient_below k v h = omega arith

take_bytes : (k v : ℕ) (rest : List ℕ) → take k (le_bytes k v ++ rest) ≡ le_bytes k v
take_bytes k v rest =
    subst (λ n. take n (le_bytes k v ++ rest) ≡ le_bytes k v) (length-le_bytes k v)
      (take_all (le_bytes k v) rest)

drop_bytes : (k v : ℕ) (rest : List ℕ) → drop k (le_bytes k v ++ rest) ≡ rest
drop_bytes k v rest =
    subst (λ n. drop n (le_bytes k v ++ rest) ≡ rest) (length-le_bytes k v)
      (drop_all (le_bytes k v) rest)

payload_longer : (i : Item) (rest : List ℕ) → length rest ≤ length (payload i rest)
payload_longer (varint_item n v) rest = rw length-append (omega arith)
payload_longer (fixed64 n v) rest = rw length-append (omega arith)
payload_longer (fixed32 n v) rest = rw length-append (omega arith)
payload_longer (chunk n bs v) rest = rw (length-append, length-append) (omega arith)

encode_longer :
    (i : Item) (is : List Item) → length (payload i (encode is)) < length (encode (i ∷ is))
encode_longer i is = rw length-append (omega (arith, length-varint_bytes 9 (number i * 8 + wire i)))

wire_of : (i : Item) → (number i * 8 + wire i) % 8 ≡ wire i
wire_of (varint_item n v) = omega arith
wire_of (fixed64 n v) = omega arith
wire_of (fixed32 n v) = omega arith
wire_of (chunk n bs v) = omega arith

number_of : (i : Item) → (number i * 8 + wire i) / 8 ≡ number i
number_of (varint_item n v) = omega arith
number_of (fixed64 n v) = omega arith
number_of (fixed32 n v) = omega arith
number_of (chunk n bs v) = omega arith

module _ (c : Codecs) where
  -- What an item holds fits its wire type, and a chunk reads as the value that is stated.
  abbrev pub IsItem : Item → Type 0
  IsItem (varint_item n v) = Fits (n * 8) × Fits v
  IsItem (fixed64 n v) = Fits (n * 8 + 1) × (v < 256 ^ 8)
  IsItem (fixed32 n v) = Fits (n * 8 + 5) × (v < 256 ^ 4)
  IsItem (chunk n bs v) =
      Fits (n * 8 + 2)
      × Fits (length bs)
      × (decode_length_delimited c bs (decode_protobuf c bs) ≡ ok v)

  read_item :
      (fuel : ℕ) (i : Item) (rest : List ℕ)
      → IsItem i
      → length (payload i rest) ≤ fuel
      → read_value c (λ bs. walk_fields c fuel bs end) (wire i) (payload i rest)
        ≡ ok (value i, rest)
  unfolding read_value
  read_item fuel (varint_item n v) rest (_, h) k =
      unfold read_int in rw (read_varint-varint v rest h)
  read_item fuel (fixed64 n v) rest (_, h) k =
      rw (take_bytes 8 v rest, drop_bytes 8 v rest, little_endian-le_bytes 8 v h)
  read_item fuel (fixed32 n v) rest (_, h) k =
      rw (take_bytes 4 v rest, drop_bytes 4 v rest, little_endian-le_bytes 4 v h)
  read_item fuel (chunk n bs v) rest (_, h, d) k =
      unfold read_chunk chunk_at in
      rw (read_varint-varint (length bs) (bs ++ rest) h, take_all bs rest, drop_all bs rest)
        (rw (walk_fields_fuel c fuel (length bs) bs end (chunk_fits k) (le_refl _)) (rw read_as))
    where
      read_as : decode_length_delimited c bs (walk_fields c (length bs) bs end) ≡ ok v
      read_as = unfold decode_protobuf in d

      chunk_fits : length (varint (length bs) ++ (bs ++ rest)) ≤ fuel → length bs ≤ fuel
      chunk_fits = rw (length-append, length-append) λ q. omega arith

  tag-Fits : (i : Item) → IsItem i → Fits (number i * 8 + wire i)
  tag-Fits (varint_item n v) h = omega arith
  tag-Fits (fixed64 n v) h = h.0
  tag-Fits (fixed32 n v) h = h.0
  tag-Fits (chunk n bs v) h = h.0

  walk_step :
      (fuel : ℕ) (src rest behind : List ℕ) (tag : ℕ) (v : Value) (r : Fields)
      → read_varint src ≡ ok (tag, rest)
      → read_value c (λ bs. walk_fields c fuel bs end) (tag % 8) rest ≡ ok (v, behind)
      → walk_fields c (suc fuel) src r ≡ walk_fields c fuel behind (add_field (tag / 8) v r)
  unfolding walk_fields
  walk_step fuel [] rest behind tag v r e k = unfold read_varint in cc
  walk_step fuel (b ∷ bs) rest behind tag v r e k = rw (e, k)

  walk_fields-encode :
      (is : List Item) (fuel : ℕ) (r : Fields)
      → All IsItem is
      → length (encode is) ≤ fuel
      → walk_fields c fuel (encode is) r ≡ ok (add_all (pairs is) r)
  walk_fields-encode [] fuel r h k = unfold walk_fields in refl
  walk_fields-encode (i ∷ is) zero r h k = absurd (omega (arith, encode_longer i is))
  walk_fields-encode (i ∷ is) (suc fuel) r (h, hs) k =
      let longer = encode_longer i is in
      let rest_longer = payload_longer i (encode is) in
      walk_step fuel _ (payload i (encode is)) (encode is) (number i * 8 + wire i) (value i) r
        (read_varint-varint (number i * 8 + wire i) (payload i (encode is)) (tag-Fits i h))
        (rw (wire_of i) (read_item fuel i (encode is) h (omega arith)))
      ∙ rw (number_of i)
          (walk_fields-encode is fuel (add_field (number i) (value i) r) hs (omega arith))

  item-IsSingle : (i : Item) → IsItem i → IsSingle (value i)
  item-IsSingle (varint_item n v) h = tt
  item-IsSingle (fixed64 n v) h = tt
  item-IsSingle (fixed32 n v) h = tt
  item-IsSingle (chunk n bs v) (f, l, d) = chunk-IsSingle c bs _ v d

  pairs-IsSingle : (is : List Item) → All IsItem is → All (λ p. IsSingle p.1) (pairs is)
  pairs-IsSingle [] h = tt
  pairs-IsSingle (i ∷ is) (h, hs) = (item-IsSingle i h, pairs-IsSingle is hs)

  -- A body that is the wire encoding of any list of fields, of all four wire types and nested
  -- messages included, decodes to a dict that has under each number nothing if no field has it, the
  -- value if one has, and the list of the values in order if several have.
  pub decode_protobuf-encode :
      (is : List Item)
      → All IsItem is
      → (fs : Fields) × (decode_protobuf c (encode is) ≡ ok fs)
        × ((n : ℕ) → field_at n fs ≡ gathered (values_at n (pairs is)))
  unfolding decode_protobuf
  decode_protobuf-encode is h = (
    add_all (pairs is) end,
    walk_fields-encode is _ end h (le_refl _),
    λ n. field_at-add_all n (pairs is) (pairs-IsSingle is h),
  )
