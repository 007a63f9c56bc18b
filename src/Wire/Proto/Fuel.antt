-- ===== src/Wire/Proto/Fuel.antt =====
-- Enough fuel is as good as any: the walk of a protobuf body does not depend on it.
use kafkascope.Prelude.{ℕ, zero, suc, ◌/◌, ◌%◌, ◌≤◌, ◌<◌, ◌≡◌, refl, arith}
use kafkascope.Prelude.{List, [], ◌∷◌, length, take}
use kafkascope.Prelude.{length-take}
use kafkascope.Wire.Varint.{Read, ok, err, stuck, read_varint, ◌>>=◌}
use kafkascope.Wire.Varint.RoundTrip.{read_varint_takes}
use kafkascope.Wire.Proto.Total.{read_value_shorter}
use kafkascope.Wire.Proto.{Codecs, Value, Fields, end, add_field}
use kafkascope.Wire.Proto.{chunk_at, read_chunk, read_value, walk_fields}

module _ (c : Codecs) where
  -- The walk reads a chunk only through the nested walk at that chunk.
  module _ (w w' : List ℕ → Read Fields) where
    chunk_at-cong :
        (size : ℕ) (rest : List ℕ)
        → w (take size rest) ≡ w' (take size rest)
        → chunk_at c w size rest ≡ chunk_at c w' size rest
    unfolding chunk_at
    chunk_at-cong size rest h = rw h

    chunk-cong :
        (m : Read (ℕ × List ℕ)) (bound : ℕ)
        → ((size : ℕ) (rest : List ℕ) → m ≡ ok (size, rest) → length rest < bound)
        → ((bs : List ℕ) → length bs < bound → w bs ≡ w' bs)
        → (m >>= λ p. chunk_at c w p.0 p.1) ≡ (m >>= λ p. chunk_at c w' p.0 p.1)
    chunk-cong (ok (size, rest)) bound le h =
        chunk_at-cong size rest
          (h (take size rest) (omega (arith, length-take size rest, le size rest refl)))
    chunk-cong (err e) bound le h = refl
    chunk-cong stuck bound le h = refl

    read_chunk-cong :
        (src : List ℕ)
        → ((bs : List ℕ) → length bs < length src → w bs ≡ w' bs)
        → read_chunk c w src ≡ read_chunk c w' src
    unfolding read_chunk
    read_chunk-cong src h =
        chunk-cong (read_varint src) (length src)
          (λ size rest e. (read_varint_takes src size rest e).0) h

    read_value-cong :
        (n : ℕ) (src : List ℕ)
        → ((bs : List ℕ) → length bs < length src → w bs ≡ w' bs)
        → read_value c w n src ≡ read_value c w' n src
    unfolding read_value
    read_value-cong n src h = rw (read_chunk-cong src h)

  after_value :
      (m m' : Read (Value × List ℕ)) (f g : Value → List ℕ → Read Fields)
      → m ≡ m'
      → ((v : Value) (behind : List ℕ) → m' ≡ ok (v, behind) → f v behind ≡ g v behind)
      → (m >>= λ p. f p.0 p.1) ≡ (m' >>= λ p. g p.0 p.1)
  after_value m (ok (v, behind)) f g e h = rw e (h v behind refl)
  after_value m (err x) f g e h = rw e
  after_value m stuck f g e h = rw e

  after_tag :
      (m : Read (ℕ × List ℕ)) (f g : ℕ → List ℕ → Read Fields)
      → ((tag : ℕ) (rest : List ℕ) → m ≡ ok (tag, rest) → f tag rest ≡ g tag rest)
      → (m >>= λ p. f p.0 p.1) ≡ (m >>= λ p. g p.0 p.1)
  after_tag (ok (tag, rest)) f g h = h tag rest refl
  after_tag (err e) f g h = refl
  after_tag stuck f g h = refl

  -- Any fuel that is enough gives one result.
  pub walk_fields_fuel :
      (f g : ℕ) (src : List ℕ) (r : Fields)
      → length src ≤ f
      → length src ≤ g
      → walk_fields c f src r ≡ walk_fields c g src r
  unfolding walk_fields
  walk_fields_fuel f g [] r p q = refl
  walk_fields_fuel zero g (b ∷ bs) r p q = absurd (omega arith)
  walk_fields_fuel (suc f) zero (b ∷ bs) r p q = absurd (omega arith)
  walk_fields_fuel (suc f) (suc g) (b ∷ bs) r p q =
      let w = λ (x : List ℕ). walk_fields c f x end in
      let w' = λ (x : List ℕ). walk_fields c g x end in
      after_tag (read_varint (b ∷ bs)) _ _ λ tag rest e.
        let shorter = (read_varint_takes (b ∷ bs) tag rest e).0 in
        after_value (read_value c w (tag % 8) rest) (read_value c w' (tag % 8) rest) _ _
          (read_value-cong w w' (tag % 8) rest
            λ x lt. walk_fields_fuel f g x end (omega arith) (omega arith))
          λ v behind e'.
            let le = read_value_shorter c w' (tag % 8) rest v behind e' in
            walk_fields_fuel f g behind (add_field (tag / 8) v r) (omega arith) (omega arith)
