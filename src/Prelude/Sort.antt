-- ===== src/Prelude/Sort.antt =====
-- Python's `sorted` with a key, as a stable insertion sort by a strict test, and the orders of the
-- keys that the source sorts by.
pub mod Laws
use Prim.Native.Char.{code}
use Prim.Native.String.{String, [] as nil, ◌∷◌ as ◌∷ˢ◌}
use mathlib.Core.Bool.{Bool, true, false, ◌&&◌}
use mathlib.Core.List.{List, [], ◌∷◌}
use kafkascope.Prelude.Tests.{ltb, if◌then◌else◌, ◌==◌, string_eq}
use kafkascope.Prelude.Lists.{All, length}
use Prim.Native.Nat.{ℕ, suc, ◌+◌}
use mathlib.Core.Path.{◌≡◌, refl, ◌∙◌}
use native.Mathlib.Omega.{arith}
use kafkascope.Prelude.Int.{ℤ, ltb_ℤ}

-- `<` on texts: by code points.
unfoldable pub ltb_string : String → String → Bool
ltb_string nil nil = false
ltb_string nil (d ∷ˢ t) = true
ltb_string (c ∷ˢ s) nil = false
ltb_string (c ∷ˢ s) (d ∷ˢ t) =
    let rest = ltb_string s t in
    if ltb (code c) (code d) then true else if ltb (code d) (code c) then false else rest

-- `<` on pairs of a text and a number.
abbrev pub ltb_pair : String × ℤ → String × ℤ → Bool
ltb_pair (s, a) (t, b) = if ltb_string s t then true else s == t && ltb_ℤ a b

module _ {ℓ} {A : Type ℓ} where
  abbrev pub insert_by : (A → A → Bool) → A → List A → List A
  insert_by before x [] = x ∷ []
  insert_by before x (y ∷ ys) =
      let rest = insert_by before x ys in if before y x then y ∷ rest else x ∷ y ∷ ys

  unfoldable pub sort_by : (A → A → Bool) → List A → List A
  sort_by before [] = []
  sort_by before (x ∷ xs) = insert_by before x (sort_by before xs)

  All-placed :
      (P : A → Type 0) (b : Bool) (x y : A) (ys rest : List A)
      → P x
      → All P (y ∷ ys)
      → All P rest
      → All P (if b then y ∷ rest else x ∷ y ∷ ys)
  All-placed P true x y ys rest p (q, qs) rs = (q, rs)
  All-placed P false x y ys rest p qs rs = (p, qs)

  pub All-insert_by :
      (P : A → Type 0) (before : A → A → Bool) (x : A) (xs : List A)
      → P x
      → All P xs
      → All P (insert_by before x xs)
  All-insert_by P before x [] p ps = (p, tt)
  All-insert_by P before x (y ∷ ys) p (q, qs) =
      All-placed P (before y x) x y ys (insert_by before x ys) p (q, qs)
        (All-insert_by P before x ys p qs)

  pub All-sort_by :
      (P : A → Type 0) (before : A → A → Bool) (xs : List A) → All P xs → All P (sort_by before xs)
  unfolding sort_by
  All-sort_by P before [] ps = tt
  All-sort_by P before (x ∷ xs) (p, ps) =
      All-insert_by P before x (sort_by before xs) p (All-sort_by P before xs ps)

  length-placed :
      (b : Bool) (x y : A) (ys rest : List A)
      → length rest ≡ length ys + 1
      → length (if b then y ∷ rest else x ∷ y ∷ ys) ≡ length ys + 2
  length-placed true x y ys rest e = omega arith
  length-placed false x y ys rest e = omega arith

  length-insert_by :
      (before : A → A → Bool) (x : A) (xs : List A) → length (insert_by before x xs) ≡ length xs + 1
  length-insert_by before x [] = omega arith
  length-insert_by before x (y ∷ ys) =
      length-placed (before y x) x y ys (insert_by before x ys) (length-insert_by before x ys)
      ∙ step (length ys)
    where
      step : (n : ℕ) → n + 2 ≡ suc n + 1
      step n = omega arith

  pub length-sort_by :
      (before : A → A → Bool) (xs : List A) → length (sort_by before xs) ≡ length xs
  unfolding sort_by
  length-sort_by before [] = refl
  length-sort_by before (x ∷ xs) =
      length-insert_by before x (sort_by before xs)
      ∙ step (length (sort_by before xs)) (length xs) (length-sort_by before xs)
    where
      step : (n m : ℕ) → n ≡ m → n + 1 ≡ suc m
      step n m e = omega arith
