-- ===== src/Wire/Varint/RoundTrip.antt =====
-- What the varint reader accepts, and that it inverts the standard encoding.
use kafkascope.Prelude.{ℕ, zero, suc, ◌+◌, ◌*◌, ◌/◌, ◌%◌, ◌^◌, ◌≤◌, ◌<◌}
use kafkascope.Prelude.{◌≡◌, ◌≢◌, refl, ap, arith, List, [], ◌∷◌, ◌++◌, length, All}
use kafkascope.Prelude.Bits.{low_bits, top_bit, bit_or-shifted}
use kafkascope.Wire.Varint.{ok, stuck, or_group}
use kafkascope.Wire.Varint.{varint_loop, read_varint, skip_varints, strip_protobuf_index}
use kafkascope.Wire.Varint.Encode.{varint_bytes, varint, Fits, varints}
use native.Mathlib.Nat.{div-add-mod}
use native.Mathlib.Numerals.{towards_suc}

pow_seven_more : (s : ℕ) → 2 ^ (s + 7) ≡ 128 * 2 ^ s
pow_seven_more s = simp towards_suc (omega arith)

or_group_sum :
    (b result shift : ℕ)
    → b < 256
    → result < 2 ^ shift
    → or_group result b shift ≡ result + b % 128 * 2 ^ shift
or_group_sum b result shift hb hr = rw (low_bits b hb) (bit_or-shifted shift (b % 128) result hr)

group_below : (g s : ℕ) → g < 128 → g * 2 ^ s + 2 ^ s ≤ 2 ^ (s + 7)
group_below g s h = rw pow_seven_more (grind arith)

-- A result of the loop takes at least one byte, and at most those that the shift leaves room for.
varint_loop_takes :
    (src : List ℕ) (result shift j v : ℕ) (rest : List ℕ)
    → shift ≡ 7 * j
    → j ≤ 9
    → varint_loop src result shift ≡ ok (v, rest)
    → (length rest < length src) × (length src + j ≤ length rest + 10)
unfolding varint_loop
varint_loop_takes [] result shift j v rest hs hj e = cc
varint_loop_takes (b ∷ bs) result shift j v rest hs hj e =
    ground (arith, varint_loop_takes bs (or_group result b shift) (shift + 7) (j + 1) v rest)

-- A successful read takes 1 to 10 bytes.
pub read_varint_takes :
    (src : List ℕ) (v : ℕ) (rest : List ℕ)
    → read_varint src ≡ ok (v, rest)
    → (length rest < length src) × (length src ≤ length rest + 10)
unfolding read_varint
read_varint_takes src v rest e = ground (arith, varint_loop_takes src 0 0 0 v rest)

varint_loop-ne-stuck : (src : List ℕ) (result shift : ℕ) → varint_loop src result shift ≢ stuck
unfolding varint_loop
varint_loop-ne-stuck [] result shift e = cc
varint_loop-ne-stuck (b ∷ bs) result shift e =
    ground (arith, varint_loop-ne-stuck bs (or_group result b shift) (shift + 7))

pub read_varint-ne-stuck : (src : List ℕ) → read_varint src ≢ stuck
unfolding read_varint
read_varint-ne-stuck src = varint_loop-ne-stuck src 0 0

last_byte :
    (w result shift : ℕ) (rest : List ℕ)
    → w < 128
    → result < 2 ^ shift
    → varint_loop (w ∷ rest) result shift ≡ ok (result + w * 2 ^ shift, rest)
unfolding varint_loop
last_byte w result shift rest hw hr = ground (arith, top_bit w, or_group_sum w result shift)

inner_byte :
    (g result shift : ℕ) (rest : List ℕ)
    → g < 128
    → result < 2 ^ shift
    → shift + 7 ≤ 63
    → varint_loop ((g + 128) ∷ rest) result shift
      ≡ varint_loop rest (result + g * 2 ^ shift) (shift + 7)
unfolding varint_loop
inner_byte g result shift rest hg hr hs =
    ground (arith, top_bit (g + 128), or_group_sum (g + 128) result shift)

split_group : (v shift : ℕ) → v * 2 ^ shift ≡ v % 128 * 2 ^ shift + v / 128 * 2 ^ (shift + 7)
split_group v shift =
    let parts = ap (λ (n : ℕ). n * 2 ^ shift) (div-add-mod v 128) in
    let higher = ap (λ (n : ℕ). v / 128 * n) (pow_seven_more shift) in omega (arith, parts, higher)

-- `w` is what is still to be read, from bit `shift` on.
varint_loop-varint_bytes :
    (k w result shift : ℕ) (rest : List ℕ)
    → w < 128 ^ suc k
    → result < 2 ^ shift
    → shift + 7 * k ≤ 63
    → varint_loop (varint_bytes k w ++ rest) result shift ≡ ok (result + w * 2 ^ shift, rest)
unfolding varint_bytes
varint_loop-varint_bytes zero w result shift rest hw hr hs =
    last_byte w result shift rest (omega arith) hr
varint_loop-varint_bytes (suc k) w result shift rest hw hr hs = ground (
  arith,
  last_byte w result shift rest,
  split_group w shift,
  inner_byte (w % 128) result shift (varint_bytes k (w / 128) ++ rest),
  group_below (w % 128) shift,
  varint_loop-varint_bytes k (w / 128) (result + w % 128 * 2 ^ shift) (shift + 7) rest
      (omega arith),
)

-- Of a number of at most 70 bits in the standard encoding, followed by any bytes, the reader
-- returns the number and the bytes that follow.
pub read_varint-varint :
    (v : ℕ) (rest : List ℕ) → Fits v → read_varint (varint v ++ rest) ≡ ok (v, rest)
unfolding read_varint
read_varint-varint v rest h =
    ground (arith, varint_loop-varint_bytes 9 v 0 0 rest (omega arith) (omega arith) (omega arith))

pub skip_varints-varints :
    (vs : List ℕ) (rest : List ℕ)
    → All Fits vs
    → skip_varints (length vs) (varints vs rest) ≡ ok rest
unfolding skip_varints
skip_varints-varints [] rest h = refl
skip_varints-varints (v ∷ vs) rest (h, hs) =
    rw (read_varint-varint v (varints vs rest) h) (skip_varints-varints vs rest hs)

-- The message index in front of a protobuf body, a count and as many varints, is dropped whole,
-- and the lone zero byte is too.
pub strip_protobuf_index-varints :
    (vs : List ℕ) (body : List ℕ)
    → Fits (length vs)
    → All Fits vs
    → strip_protobuf_index (varint (length vs) ++ varints vs body) ≡ ok body
unfolding strip_protobuf_index
strip_protobuf_index-varints [] body h hs = rw (read_varint-varint 0 body (omega arith))
strip_protobuf_index-varints (v ∷ vs) body h hs =
    rw (read_varint-varint (length (v ∷ vs)) (varints (v ∷ vs) body) h)
      (ground (arith, skip_varints-varints (v ∷ vs) body hs))
