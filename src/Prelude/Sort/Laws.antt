-- ===== src/Prelude/Sort/Laws.antt =====
-- `sort_by` sorts, for a strict test whose denial is transitive, and keeps every element.
use Prim.Native.String.{String, [] as nil, ◌∷◌ as ◌∷ˢ◌}
use mathlib.Core.Path.{◌≡◌, refl}
use mathlib.Core.Bool.{Bool, true, false}
use mathlib.Core.List.{List, [], ◌∷◌, Perm}
use mathlib.Core.List.Perm
use native.Mathlib.Omega.{arith}
use kafkascope.Prelude.Tests.{if◌then◌else◌}
use kafkascope.Prelude.Lists.{All, All-imp}
use kafkascope.Prelude.Sort.{ltb_string, insert_by, sort_by, All-insert_by}

-- A test for `<` on keys: strict, and what is not below is below or equal the other way.
pub record IsOrder {ℓ} {A : Type ℓ} (before : A → A → Bool) : Type ℓ where
  pub asymm : (x y : A) → before x y ≡ true → before y x ≡ false
  pub trans : (x y z : A) → before y x ≡ false → before z y ≡ false → before z x ≡ false

module _ {A : Type 0} where
  -- No element is before an earlier one.
  abbrev pub AreSorted : (A → A → Bool) → List A → Type 0
  AreSorted before [] = Unit
  AreSorted before (x ∷ xs) = All (λ y. before y x ≡ false) xs × AreSorted before xs

  AreSorted-insert_by :
      {before : A → A → Bool}
      → IsOrder before
      → (x : A) (xs : List A) → AreSorted before xs
      → AreSorted before (insert_by before x xs)
  AreSorted-insert_by o x [] s = (tt, tt)
  AreSorted-insert_by {before} o x (y ∷ ys) (below, s) =
      placed (before y x) refl (AreSorted-insert_by o x ys s)
    where
      placed :
          (b : Bool)
          → before y x ≡ b
          → AreSorted before (insert_by before x ys)
          → AreSorted before (if b then y ∷ insert_by before x ys else x ∷ y ∷ ys)
      placed true e s' =
          (All-insert_by (λ z. before z y ≡ false) before x ys (o.asymm y x e) below, s')
      placed false e s' = ((e, All-imp (λ z h. o.trans x y z e h) ys below), (below, s))

  -- The result is sorted.
  pub sort_by-AreSorted :
      {before : A → A → Bool}
      → IsOrder before
      → (xs : List A) → AreSorted before (sort_by before xs)
  unfolding sort_by
  sort_by-AreSorted o [] = tt
  sort_by-AreSorted o (x ∷ xs) = AreSorted-insert_by o x _ (sort_by-AreSorted o xs)

  insert_by-perm :
      (before : A → A → Bool) (x : A) (xs : List A) → Perm (insert_by before x xs) (x ∷ xs)
  insert_by-perm before x [] = Perm.refl (x ∷ [])
  insert_by-perm before x (y ∷ ys) = placed (before y x) (insert_by-perm before x ys)
    where
      placed :
          (b : Bool)
          → Perm (insert_by before x ys) (x ∷ ys)
          → Perm (if b then y ∷ insert_by before x ys else x ∷ y ∷ ys) (x ∷ y ∷ ys)
      placed true p = Perm.trans (Perm.cons y p) (Perm.swap x y ys)
      placed false p = Perm.refl (x ∷ y ∷ ys)

  -- The result has the elements that were given.
  pub sort_by-perm : (before : A → A → Bool) (xs : List A) → Perm (sort_by before xs) xs
  unfolding sort_by
  sort_by-perm before [] = Perm.refl []
  sort_by-perm before (x ∷ xs) =
      Perm.trans (insert_by-perm before x (sort_by before xs))
        (Perm.cons x (sort_by-perm before xs))

ltb_string-asymm : (s t : String) → ltb_string s t ≡ true → ltb_string t s ≡ false
unfolding ltb_string
ltb_string-asymm nil nil h = cc
ltb_string-asymm nil (d ∷ˢ t) h = refl
ltb_string-asymm (c ∷ˢ s) nil h = cc
ltb_string-asymm (c ∷ˢ s) (d ∷ˢ t) h = ground (arith, ltb_string-asymm s t)

ltb_string_trans :
    (r s t : String) → ltb_string s r ≡ false → ltb_string t s ≡ false → ltb_string t r ≡ false
unfolding ltb_string
ltb_string_trans nil s nil h k = refl
ltb_string_trans nil nil (e ∷ˢ t) h k = refl
ltb_string_trans nil (d ∷ˢ s) (e ∷ˢ t) h k = refl
ltb_string_trans (c ∷ˢ r) nil t h k = cc
ltb_string_trans (c ∷ˢ r) (d ∷ˢ s) nil h k = cc
ltb_string_trans (c ∷ˢ r) (d ∷ˢ s) (e ∷ˢ t) h k = ground (arith, ltb_string_trans r s t)

-- Texts are ordered by their code points.
pub IsOrder-ltb_string : IsOrder ltb_string
IsOrder-ltb_string = record { asymm = ltb_string-asymm; trans = ltb_string_trans }
