-- ===== src/Prelude/Tests.antt =====
-- Python's tests as Booleans: orders and `==` on numbers and texts, and the conditional.
use Prim.Native.Nat.{ℕ, ◌≤◌, ◌<◌, compare, Ordering}
use Prim.Native.String.{String}
use mathlib.Core.Path.{◌≡◌, refl}
use mathlib.Core.Logic.{◌↔◌, ◌⊎◌, inl, inr}
use mathlib.Core.Bool.{Bool, true, false, ◌&&◌, ◌||◌}
use mathlib.Core.Option.{Option, none, some}
use native.Mathlib.Omega.{arith}
use text.Mathlib.Text.{◌==◌ as text_eq}
use text.Mathlib.TextEquality.{eq_iff}

abbrev pub ltb : ℕ → ℕ → Bool
ltb a b = elim (compare a b) [ Ordering.lt ↦ true | _ ↦ false ]

abbrev pub leb : ℕ → ℕ → Bool
leb a b = elim (compare a b) [ Ordering.gt ↦ false | _ ↦ true ]

abbrev pub nat_eqb : ℕ → ℕ → Bool
nat_eqb a b = elim (compare a b) [ Ordering.eq ↦ true | _ ↦ false ]

infix 1 if◌then◌else◌
abbrev pub if◌then◌else◌ {ℓ} : {A : Type ℓ} → Bool → A → A → A
if true then x else y = x
if false then x else y = y

pub nat_eqb_iff : (a b : ℕ) → (nat_eqb a b ≡ true) ↔ (a ≡ b)
nat_eqb_iff a b = ground arith

-- The types whose values Python compares with `==`.
pub record Eq {ℓ} (K : Type ℓ) : Type ℓ where
  pub eqb : K → K → Bool
  pub eqb_iff : (x y : K) → (eqb x y ≡ true) ↔ (x ≡ y)

infix 50 ◌==◌
abbrev pub ◌==◌ {ℓ} : {K : Type ℓ} ⦃eq : Eq K⦄ → K → K → Bool
◌==◌ ⦃eq⦄ = eq.eqb

instance abbrev pub nat_eq : Eq ℕ
nat_eq = record { eqb = nat_eqb; eqb_iff = nat_eqb_iff }

instance abbrev pub string_eq : Eq String
string_eq = record { eqb = text_eq; eqb_iff = eq_iff }

pub ltb→lt : (a b : ℕ) → ltb a b ≡ true → a < b
ltb→lt a b h = ground arith

pub lt→ltb : (a b : ℕ) → a < b → ltb a b ≡ true
lt→ltb a b h = ground arith

pub le→ltb_false : (a b : ℕ) → b ≤ a → ltb a b ≡ false
le→ltb_false a b h = ground arith

pub leb→le : (a b : ℕ) → leb a b ≡ true → a ≤ b
leb→le a b h = ground arith

-- To split on a computed value and keep the equation.
pub Bool-cases : (b : Bool) → (b ≡ true) ⊎ (b ≡ false)
Bool-cases true = inl refl
Bool-cases false = inr refl

pub Option-cases {ℓ} : {A : Type ℓ} (o : Option A) → (o ≡ none) ⊎ ((a : A) × (o ≡ some a))
Option-cases none = inl refl
Option-cases (some a) = inr (a, refl)

pub and_true : (a b : Bool) → (a && b) ≡ true → (a ≡ true) × (b ≡ true)
and_true a b h = ground arith

-- `and`, `or` and `not` of tests, as the statements that the tests decide.
module _ {ℓ κ} {P : Type ℓ} {Q : Type κ} (a b : Bool) where
  pub and_iff : (a ≡ true) ↔ P → (b ≡ true) ↔ Q → ((a && b) ≡ true) ↔ (P × Q)
  and_iff p q = (λ h. let (x, y) = and_true a b h in (p.0 x, q.0 y), λ (x, y). both (p.1 x) (q.1 y))
    where
      both : a ≡ true → b ≡ true → (a && b) ≡ true
      both x y = ground arith

  pub or_iff : (a ≡ true) ↔ P → (b ≡ true) ↔ Q → ((a || b) ≡ true) ↔ (P ⊎ Q)
  or_iff p q =
      (λ h. split (Bool-cases a) h, λ t. elim t [ inl x ↦ left (p.1 x) | inr y ↦ right (q.1 y) ])
    where
      split : (a ≡ true) ⊎ (a ≡ false) → (a || b) ≡ true → P ⊎ Q
      split (inl x) h = inl (p.0 x)
      split (inr n) h = inr (q.0 (ground arith))

      left : a ≡ true → (a || b) ≡ true
      left x = ground arith

      right : b ≡ true → (a || b) ≡ true
      right y = ground arith
