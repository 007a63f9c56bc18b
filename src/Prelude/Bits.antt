-- ===== src/Prelude/Bits.antt =====
-- Bit operations of a varint: masks of one byte by tables, and `|` of disjoint fields as a sum.
use Prim.Native.Nat.{ℕ, zero, suc, ◌+◌, ◌*◌, ◌/◌, ◌%◌, ◌^◌, ◌≤◌, ◌<◌, max, bit_and, bit_or}
use Prim.Native.Nat.{digits, bit_or-bitwise}
use native.Mathlib.Nat.{pow-suc}
use mathlib.Core.Path.{◌≡◌, refl, ap}
use mathlib.Core.Bool.{Bool, true, ◌&&◌}
use native.Mathlib.Omega.{arith}
use kafkascope.Prelude.Tests.{nat_eqb, nat_eqb_iff}

-- `p` holds of every number below `n`.
below : ℕ → (ℕ → Bool) → Bool
below zero p = true
below (suc n) p = p n && below n p

below_sound : (n : ℕ) (p : ℕ → Bool) (x : ℕ) → below n p ≡ true → x < n → p x ≡ true
unfolding below
below_sound zero p x h lt = absurd (omega arith)
below_sound (suc n) p x h lt = ground (arith, below_sound n p x)

low_bits_table : below 256 (λ b. nat_eqb (bit_and b 0x7f) (b % 128)) ≡ true
unfolding below
low_bits_table = refl

pub low_bits : (b : ℕ) → b < 256 → bit_and b 0x7f ≡ b % 128
low_bits b h = (nat_eqb_iff _ _).0 (below_sound 256 _ b low_bits_table h)

top_bit_table : below 256 (λ b. nat_eqb (bit_and b 0x80) (b / 128 * 128)) ≡ true
unfolding below
top_bit_table = refl

pub top_bit : (b : ℕ) → b < 256 → bit_and b 0x80 ≡ b / 128 * 128
top_bit b h = (nat_eqb_iff _ _).0 (below_sound 256 _ b top_bit_table h)

-- The recursion that the native `|` stands for runs on fuel; any sufficient fuel gives one result.
or_fuel : (n m a b : ℕ) → a ≤ n → a ≤ m → digits (λ y. y) max n a b ≡ digits (λ y. y) max m a b
or_fuel zero zero a b p q = refl
or_fuel zero (suc m) zero b p q = refl
or_fuel zero (suc m) (suc a) b p q = absurd (omega arith)
or_fuel (suc n) zero zero b p q = refl
or_fuel (suc n) zero (suc a) b p q = absurd (omega arith)
or_fuel (suc n) (suc m) zero b p q = refl
or_fuel (suc n) (suc m) (suc a) b p q =
    omega (arith, or_fuel n m (suc a / 2) (b / 2) (omega arith) (omega arith))

zero-bit_or : (b : ℕ) → bit_or 0 b ≡ b
zero-bit_or b = bit_or-bitwise 0 b

or_lowest : (a b : ℕ) → bit_or a b ≡ bit_or (a / 2) (b / 2) * 2 + max (a % 2) (b % 2)
or_lowest zero b = omega (arith, zero-bit_or b, zero-bit_or (b / 2))
or_lowest (suc a) b = omega (
  arith,
  bit_or-bitwise (suc a) b,
  bit_or-bitwise (suc a / 2) (b / 2),
  or_fuel a (suc a / 2) (suc a / 2) (b / 2) (omega arith) (omega arith),
)

double_pow : (g k : ℕ) → g * 2 ^ suc k ≡ 2 * (g * 2 ^ k)
double_pow g k = omega (arith, ap (λ (t : ℕ). g * t) (pow-suc 2 k))

-- `low | (g << k)` is a sum when `low` fits below bit `k`.
pub bit_or-shifted : (k g low : ℕ) → low < 2 ^ k → bit_or low (g * 2 ^ k) ≡ low + g * 2 ^ k
bit_or-shifted zero g low h = let e : low ≡ 0 = omega arith in rw e (rw zero-bit_or (omega arith))
bit_or-shifted (suc k) g low h = ground (
  arith,
  pow-suc 2 k,
  or_lowest low (g * 2 ^ suc k),
  double_pow g k,
  bit_or-shifted k g (low / 2) (omega (arith, pow-suc 2 k)),
)
