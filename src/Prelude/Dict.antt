-- ===== src/Prelude/Dict.antt =====
-- Python's `dict` as an association list in insertion order: writing a key that is there keeps
-- its place. Proofs elsewhere go by the laws.
use mathlib.Core.Path.{◌≡◌, refl, sym, subst}
use mathlib.Core.Logic.{◌≢◌, ◌↔◌, inl, inr}
use mathlib.Core.Bool.{Bool, true, false, ◌||◌}
use mathlib.Core.Option.{Option, none, some}
use mathlib.Core.List.{List, [], ◌∷◌, ◌++◌}
use native.Mathlib.Omega.{arith}
use mathlib.Core.Option.{some-injective}
use kafkascope.Prelude.Tests.{Bool-cases, Eq, ◌==◌, if◌then◌else◌}
use kafkascope.Prelude.Lists.{contains}

abbrev pub Dict {ℓ κ} : Type ℓ → Type κ → Type (ℓ ⊔ κ)
Dict K V = List (K × V)

module _ {ℓ κ} {K : Type ℓ} {V : Type κ} where
  unfoldable pub keys : Dict K V → List K
  keys [] = []
  keys ((k, v) ∷ d) = k ∷ keys d

  unfoldable pub values : Dict K V → List V
  values [] = []
  values ((k, v) ∷ d) = v ∷ values d

module _ {ℓ κ} {K : Type ℓ} {V : Type κ} ⦃e : Eq K⦄ where
  -- `d.get(k)`
  unfoldable pub lookup : K → Dict K V → Option V
  lookup k [] = none
  lookup k ((j, v) ∷ d) = if j == k then some v else lookup k d

  -- `d[k] = v`
  unfoldable pub insert : K → V → Dict K V → Dict K V
  insert k v [] = (k, v) ∷ []
  insert k v ((j, w) ∷ d) = if j == k then (j, v) ∷ d else (j, w) ∷ insert k v d

  -- `k in d`
  unfoldable pub has_key : K → Dict K V → Bool
  has_key k [] = false
  has_key k ((j, v) ∷ d) = j == k || has_key k d

  pub lookup-nil : (k : K) → lookup k [] ≡ none
  unfolding lookup
  lookup-nil k = refl

  pub lookup-insert :
      (j k : K) (v : V) (d : Dict K V)
      → lookup j (insert k v d) ≡ (if k == j then some v else lookup j d)
  unfolding lookup insert
  lookup-insert j k v [] = refl
  lookup-insert j k v ((i, w) ∷ d) =
      ground (arith, e.eqb_iff i k, e.eqb_iff i j, e.eqb_iff k j, lookup-insert j k v d)

  pub lookup-insert_ne :
      (j k : K) (v : V) (d : Dict K V) → ¬ (j ≡ k) → lookup j (insert k v d) ≡ lookup j d
  lookup-insert_ne j k v d h = ground (arith, lookup-insert j k v d, e.eqb_iff k j, e.eqb_iff j k)

  pub lookup-insert_self : (k : K) (v : V) (d : Dict K V) → lookup k (insert k v d) ≡ some v
  lookup-insert_self k v d = ground (arith, lookup-insert k k v d, e.eqb_iff k k)

  pub has_key-lookup : (k : K) (d : Dict K V) → (has_key k d ≡ true) ↔ (lookup k d ≢ none)
  unfolding has_key lookup
  has_key-lookup k [] = (λ h. cc, λ h. absurd (h refl))
  has_key-lookup k ((j, v) ∷ d) = ground (arith, has_key-lookup k d)

  pub has_key-insert :
      (j k : K) (v : V) (d : Dict K V) → has_key j (insert k v d) ≡ (k == j || has_key j d)
  unfolding has_key insert
  has_key-insert j k v [] = refl
  has_key-insert j k v ((i, w) ∷ d) =
      ground (arith, e.eqb_iff i k, e.eqb_iff i j, e.eqb_iff k j, has_key-insert j k v d)

  -- A key that is not there is written at the end.
  pub keys-insert_new :
      (k : K) (v : V) (d : Dict K V) → has_key k d ≡ false → keys (insert k v d) ≡ keys d ++ k ∷ []
  unfolding has_key insert keys
  keys-insert_new k v [] h = refl
  keys-insert_new k v ((i, w) ∷ d) h = ground (arith, keys-insert_new k v d)

  pub has_key-keys : (k : K) (d : Dict K V) → has_key k d ≡ contains (keys d) k
  unfolding has_key keys
  has_key-keys k [] = refl
  has_key-keys k ((j, v) ∷ d) = ground (arith, has_key-keys k d)

-- Every value has the property.
module _ {ℓ κ ι} {K : Type ℓ} {V : Type κ} (P : V → Type ι) where
  abbrev pub AllValues : Dict K V → Type ι
  AllValues [] = Unit
  AllValues ((k, v) ∷ d) = P v × AllValues d

module _ {ℓ κ ι} {K : Type ℓ} {V : Type κ} (P : V → Type ι) ⦃e : Eq K⦄ where
  pub AllValues-insert :
      (k : K) (v : V) (d : Dict K V) → P v → AllValues P d → AllValues P (insert k v d)
  unfolding insert
  AllValues-insert k v [] p h = (p, tt)
  AllValues-insert k v ((j, w) ∷ d) p (q, h) = elim (Bool-cases (j == k)) [
    | inl same ↦ rw same (p, h)
    | inr other ↦ rw other (q, AllValues-insert k v d p h)
  ]

  pub AllValues-lookup : (k : K) (v : V) (d : Dict K V) → AllValues P d → lookup k d ≡ some v → P v
  unfolding lookup
  AllValues-lookup k v [] h e = cc
  AllValues-lookup k v ((j, w) ∷ d) (q, h) e = elim (Bool-cases (j == k)) [
    | inl same ↦ subst P (some-injective _ _ (rw same at e)) q
    | inr other ↦ AllValues-lookup k v d h (rw other at e)
  ]

-- Every entry has the property.
module _ {ℓ κ ι} {K : Type ℓ} {V : Type κ} (P : K → V → Type ι) where
  abbrev pub AllEntries : Dict K V → Type ι
  AllEntries [] = Unit
  AllEntries ((k, v) ∷ d) = P k v × AllEntries d

module _ {ℓ κ ι} {K : Type ℓ} {V : Type κ} (P : K → V → Type ι) ⦃e : Eq K⦄ where
  pub AllEntries-insert :
      (k : K) (v : V) (d : Dict K V) → P k v → AllEntries P d → AllEntries P (insert k v d)
  unfolding insert
  AllEntries-insert k v [] p h = (p, tt)
  AllEntries-insert k v ((j, w) ∷ d) p (q, h) = elim (Bool-cases (j == k)) [
    | inl same ↦ rw same (subst (λ i. P i v) (sym ((e.eqb_iff j k).0 same)) p, h)
    | inr other ↦ rw other (q, AllEntries-insert k v d p h)
  ]

  pub AllEntries-lookup :
      (k : K) (v : V) (d : Dict K V) → AllEntries P d → lookup k d ≡ some v → P k v
  unfolding lookup
  AllEntries-lookup k v [] h f = cc
  AllEntries-lookup k v ((j, w) ∷ d) (q, h) f = elim (Bool-cases (j == k)) [
    | inl same ↦
        subst (λ i. P i v) ((e.eqb_iff j k).0 same)
          (subst (P j) (some-injective _ _ (rw same at f)) q)
    | inr other ↦ AllEntries-lookup k v d h (rw other at f)
  ]
