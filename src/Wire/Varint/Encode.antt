-- ===== src/Wire/Varint/Encode.antt =====
-- The standard variable-length encoding, as the specification that the reader is held to.
use kafkascope.Prelude.{ℕ, zero, suc, ◌+◌, ◌/◌, ◌%◌, ◌^◌, ◌≤◌, ◌<◌, arith}
use kafkascope.Prelude.{List, [], ◌∷◌, ◌++◌, ltb, length, if◌then◌else◌}

-- The groups of seven bits, lowest first, of a number below 128 ^ (k + 1).
unfoldable pub varint_bytes : ℕ → ℕ → List ℕ
varint_bytes zero v = v ∷ []
varint_bytes (suc k) v =
    let rest = varint_bytes k (v / 128) in if ltb v 128 then v ∷ [] else (v % 128 + 128) ∷ rest

-- Ten bytes hold 70 bits.
abbrev pub varint : ℕ → List ℕ
varint = varint_bytes 9

-- The numbers that a varint of at most ten bytes can hold.
abbrev pub Fits : ℕ → Type 0
Fits v = v < 128 ^ 10

pub length-varint_bytes :
    (k v : ℕ) → (1 ≤ length (varint_bytes k v)) × (length (varint_bytes k v) ≤ k + 1)
unfolding varint_bytes
length-varint_bytes zero v = omega arith
length-varint_bytes (suc k) v = ground (arith, length-varint_bytes k (v / 128))

-- A list of numbers, each as a varint, with more bytes behind.
abbrev pub varints : List ℕ → List ℕ → List ℕ
varints [] rest = rest
varints (v ∷ vs) rest = varint v ++ varints vs rest
