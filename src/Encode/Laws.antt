-- ===== src/Encode/Laws.antt =====
-- What the writer of the wire format returns.
use kafkascope.Prelude.{ℕ, pos, ◌^◌, ◌<◌, ◌≡◌, arith}
use kafkascope.Prelude.{List, ◌∷◌, ◌++◌, String, some}
use kafkascope.Failure.{ok, >>=-eq-ok}
use kafkascope.Json.{Json}
use kafkascope.Encode.{Library, big_endian_4, header, encode_json_schema, loaded}

-- A header that was written holds the id in four bytes, the highest first, behind a zero byte.
pub header_shape :
    (n : ℕ) (bs : List ℕ) → header (pos n) ≡ ok bs → (n < 256 ^ 4) × (bs ≡ 0 ∷ big_endian_4 n)
unfolding header
header_shape n bs h = ground arith

module _ (L : Library) where
  loads_ok : {text : String} {v : Json} → L.loads text ≡ some v → loaded L text ≡ ok v
  loads_ok l = rw l

  pub encode_json_schema_shape :
      (n : ℕ) (text : String) (v : Json) (wire : List ℕ)
      → L.loads text ≡ some v
      → encode_json_schema L (pos n) text ≡ ok wire
      → (n < 256 ^ 4) × (wire ≡ 0 ∷ (big_endian_4 n ++ L.utf8_bytes (L.dumps v)))
  unfolding encode_json_schema
  encode_json_schema_shape n text v wire l h =
      let (head, e, k) = >>=-eq-ok (header (pos n)) _ (rw (loads_ok l) at h) in
      let (lt, shape) = header_shape n head e in (lt, ground arith)
