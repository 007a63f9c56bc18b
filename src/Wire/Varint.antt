-- ===== src/Wire/Varint.antt =====
-- `_read_varint` and `_strip_protobuf_index` of app/services/decode.py.
pub mod Encode
pub mod RoundTrip
mod Tests
use kafkascope.Prelude.{◌≡◌, ◌≢◌, refl, ℕ, zero, suc, ◌+◌, ◌*◌, ◌^◌, ◌<◌, bit_and, bit_or}
use kafkascope.Prelude.{List, [], ◌∷◌, ltb, ◌==◌, nat_eq, if◌then◌else◌}

-- The `ValueError`s that the walk of a protobuf body raises. `stuck` is no Python value: a loop of
-- the model ran out of fuel.
pub data WireError : Type 0 where
  truncated_varint varint_too_long : WireError
  unsupported_wire_type : ℕ → WireError

pub data Read {ℓ} (A : Type ℓ) : Type ℓ where
  ok : A → Read A
  err : WireError → Read A
  stuck : Read A

infixl 5 ◌>>=◌
abbrev pub ◌>>=◌ {ℓ κ} : {A : Type ℓ} {B : Type κ} → Read A → (A → Read B) → Read B
ok a >>= f = f a
err e >>= f = err e
stuck >>= f = stuck

-- Inversion of a successful bind.
pub >>=-eq-ok {ℓ κ} :
    {A : Type ℓ} {B : Type κ} (step : Read A) (rest : A → Read B) {result : B}
    → (step >>= rest) ≡ ok result
    → (x : A) × (step ≡ ok x) × (rest x ≡ ok result)
>>=-eq-ok (ok x) rest done = (x, refl, done)
>>=-eq-ok (err e) rest done = cc
>>=-eq-ok stuck rest done = cc

-- A bind ends if its parts do.
pub >>=-ne-stuck {ℓ κ} :
    {A : Type ℓ} {B : Type κ} (m : Read A) (f : A → Read B)
    → m ≢ stuck
    → ((a : A) → m ≡ ok a → f a ≢ stuck)
    → (m >>= f) ≢ stuck
>>=-ne-stuck (ok a) f h k = k a refl
>>=-ne-stuck (err e) f h k = λ p. cc
>>=-ne-stuck stuck f h k = absurd (h refl)

abbrev pub IsByte : ℕ → Type 0
IsByte b = b < 256

-- `result |= (b & 0x7F) << shift`
abbrev pub or_group : ℕ → ℕ → ℕ → ℕ
or_group result b shift = bit_or result (bit_and b 0x7f * 2 ^ shift)

-- The `while True` loop, at the suffix that starts at `pos`.
unfoldable pub varint_loop : List ℕ → ℕ → ℕ → Read (ℕ × List ℕ)
varint_loop [] result shift = err truncated_varint
varint_loop (b ∷ rest) result shift =
    let result' = or_group result b shift in
    let more =
      if ltb 63 (shift + 7) then err varint_too_long else varint_loop rest result' (shift + 7) in
    if bit_and b 0x80 == 0 then ok (result', rest) else more

unfoldable pub read_varint : List ℕ → Read (ℕ × List ℕ)
unfolding varint_loop
read_varint data_from = varint_loop data_from 0 0

-- `for _ in range(count): _, pos = _read_varint(body, pos)`
unfoldable pub skip_varints : ℕ → List ℕ → Read (List ℕ)
unfolding read_varint
skip_varints zero body = ok body
skip_varints (suc count) body = do (v, rest) ← read_varint body; skip_varints count rest

unfoldable pub strip_protobuf_index : List ℕ → Read (List ℕ)
unfolding read_varint skip_varints
strip_protobuf_index body = do
  (count, rest) ← read_varint body
  if count == 0 then ok rest else skip_varints count rest
