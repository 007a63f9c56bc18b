-- ===== src/Prelude/Lists.antt =====
-- Lists measured by native numbers, under the library's names, with the tests that Python's
-- `any`, `all` and `in` make.
use Prim.Native.Nat.{ℕ, zero, suc, ◌+◌, ◌-◌, min}
use mathlib.Core.Path.{◌≡◌, refl, ap}
use mathlib.Core.Bool.{Bool, true, false, ◌&&◌, ◌||◌}
use mathlib.Core.List.{List, [], ◌∷◌, ◌++◌, map}
use mathlib.Core.Logic.{◌⊎◌, inl, inr}
use mathlib.Core.Option.{Option, none, some}
use native.Mathlib.Omega.{arith}
use kafkascope.Prelude.Tests.{Eq, ◌==◌}

module _ {ℓ} {A : Type ℓ} where
  abbrev pub length : List A → ℕ
  length [] = 0
  length (x ∷ xs) = suc (length xs)

  abbrev pub get_elem? : List A → ℕ → Option A
  get_elem? [] i = none
  get_elem? (x ∷ xs) zero = some x
  get_elem? (x ∷ xs) (suc i) = get_elem? xs i

  abbrev pub take : ℕ → List A → List A
  take zero xs = []
  take (suc n) [] = []
  take (suc n) (x ∷ xs) = x ∷ take n xs

  abbrev pub drop : ℕ → List A → List A
  drop zero xs = xs
  drop (suc n) [] = []
  drop (suc n) (x ∷ xs) = drop n xs

  abbrev pub any : (A → Bool) → List A → Bool
  any p [] = false
  any p (x ∷ xs) = p x || any p xs

  abbrev pub all : (A → Bool) → List A → Bool
  all p [] = true
  all p (x ∷ xs) = p x && all p xs

  pub length-append : (xs ys : List A) → length (xs ++ ys) ≡ length xs + length ys
  length-append [] ys = omega arith
  length-append (x ∷ xs) ys = omega (arith, length-append xs ys)

  pub length-drop : (n : ℕ) (xs : List A) → length (drop n xs) ≡ length xs - n
  length-drop zero xs = omega arith
  length-drop (suc n) [] = omega arith
  length-drop (suc n) (x ∷ xs) = omega (arith, length-drop n xs)

  pub length-take : (n : ℕ) (xs : List A) → length (take n xs) ≡ min n (length xs)
  length-take zero xs = omega arith
  length-take (suc n) [] = omega arith
  length-take (suc n) (x ∷ xs) = omega (arith, length-take n xs)

  pub take_all : (xs ys : List A) → take (length xs) (xs ++ ys) ≡ xs
  take_all [] ys = refl
  take_all (x ∷ xs) ys = ap (λ t. x ∷ t) (take_all xs ys)

  pub drop_all : (xs ys : List A) → drop (length xs) (xs ++ ys) ≡ ys
  drop_all [] ys = refl
  drop_all (x ∷ xs) ys = drop_all xs ys

module _ {ℓ κ} {A : Type ℓ} {B : Type κ} where
  pub length-map : (f : A → B) (xs : List A) → length (map f xs) ≡ length xs
  length-map f [] = refl
  length-map f (x ∷ xs) = ap suc (length-map f xs)

-- Every element has the property. It computes to a tuple, which the tactics read.
module _ {ℓ κ} {A : Type ℓ} (P : A → Type κ) where
  abbrev pub All : List A → Type κ
  All [] = Unit
  All (x ∷ xs) = P x × All xs

  pub All-append : (xs ys : List A) → All xs → All ys → All (xs ++ ys)
  All-append [] ys hx hy = hy
  All-append (x ∷ xs) ys (h, hx) hy = (h, All-append xs ys hx hy)

module _ {ℓ} {A : Type ℓ} ⦃e : Eq A⦄ where
  -- `a in xs`
  abbrev pub contains : List A → A → Bool
  contains [] a = false
  contains (x ∷ xs) a = x == a || contains xs a

pub All-imp {ℓ} :
    {A : Type ℓ} {P Q : A → Type 0} → ((x : A) → P x → Q x) → (xs : List A) → All P xs → All Q xs
All-imp h [] ps = tt
All-imp h (x ∷ xs) (p, ps) = (h x p, All-imp h xs ps)

module _ {A : Type 0} where
  -- The list holds the element.
  abbrev pub IsMember : List A → A → Type 0
  IsMember [] r = ⊥
  IsMember (x ∷ xs) r = (r ≡ x) ⊎ IsMember xs r

  pub All-IsMember : (rs : List A) → All (IsMember rs) rs
  All-IsMember [] = tt
  All-IsMember (r ∷ rs) = (inl refl, All-imp (λ x h. inr h) rs (All-IsMember rs))
