-- ===== src/Filter/Laws.antt =====
-- The filters accept exactly the messages that a search describes.
use Prim.Native.String.{[], ◌∷◌ as ◌∷ˢ◌}
use text.Mathlib.TextLemmas.{cons≢nil}
use kafkascope.Prelude.{String, Bool, true, false, ◌&&◌, ◌||◌, not, Option, none, some, List}
use mathlib.Core.List.{[] as nil}
use kafkascope.Prelude.{◌∷◌, ◌≢◌, ◌≡◌, refl, ap, ◌↔◌, ◌⊎◌, inl, inr, ◌==◌, string_eq, if◌then◌else◌}
use mathlib.Core.Option.{some-injective}
use kafkascope.Prelude.{and_iff, or_iff, arith, eq_iff, Bool-cases}
use kafkascope.Prelude.Text.{truthy}
use kafkascope.Prelude.Text.Infix.{Within, has_infix_iff}
use kafkascope.Failure.{Result, ok, >>=-eq-ok}
use kafkascope.Json.{Json}
use kafkascope.Filter.{Texts, Message, ScanSpec, text_or_empty, json_lookup, within, key_matches}
use kafkascope.Filter.{value_matches, values_of, some_value, header_matches, rendered}
use kafkascope.Filter.{node_matches, json_found, json_matches, matches}

-- Some element has the property.
abbrev pub Some {ℓ} : {A : Type ℓ} → (A → Type 0) → List A → Type 0
Some P nil = ⊥
Some P (x ∷ xs) = P x ⊎ Some P xs

module _ (T : Texts) where
  -- The wanted text is empty, or stands in the other, both in lower case.
  abbrev pub Holds : String → String → Type 0
  Holds wanted s = (wanted ≡ "") ⊎ Within (T.lower wanted) (T.lower s)

  -- The value is there, and the path leads to a node that holds the wanted text.
  abbrev pub NodeHolds : ScanSpec → Option String → Type 0
  NodeHolds s value =
      (payload : String) × (node : Json) × (value ≡ some payload)
      × (json_lookup T payload s.json_path ≡ ok (some node))
      × Holds s.json_value (rendered T node)

  -- What a search describes.
  pub record Accepts (m : Message) (s : ScanSpec) : Type 0 where
    pub key : Holds s.key_contains (text_or_empty m.key)
    pub value : Holds s.value_contains (text_or_empty m.value)
    pub header :
        (s.header_key ≡ "") ⊎ Some (λ h. (h.0 ≡ s.header_key) × Holds s.header_value h.1) m.headers
    pub json : (s.json_path ≡ "") ⊎ NodeHolds s m.value

  or_within :
      (w s : String) → (w ≡ "") ⊎ Within (T.lower w) (T.lower s) → w ≢ "" → within T w s ≡ true
  or_within w s (inl e) n = absurd (n e)
  or_within w s (inr i) n = (has_infix_iff _ _).1 i

  Holds_iff : (w s : String) → ((not (truthy w) || within T w s) ≡ true) ↔ Holds w s
  Holds_iff [] s = (λ h. inl refl, λ h. refl)
  Holds_iff (c ∷ˢ w) s = (λ h. inr ((has_infix_iff _ _).0 h), λ h. or_within (c ∷ˢ w) s h cons≢nil)

  some_value-cons :
      (w v : String) (vs : List String)
      → some_value T w (v ∷ vs) ≡ ((not (truthy w) || within T w v) || some_value T w vs)
  some_value-cons w v nil = ground arith
  some_value-cons w v (u ∷ vs) = ground arith

  first_header :
      (w key k v : String) (hs : List (String × String))
      → some_value T w (values_of T key ((k, v) ∷ hs))
        ≡ ((k == key && (not (truthy w) || within T w v)) || some_value T w (values_of T key hs))
  first_header w key k v hs = elim (Bool-cases (k == key)) [
    | inl same ↦ rw same (some_value-cons w v (values_of T key hs))
    | inr other ↦ rw other
  ]

  any_holds :
      (w key : String) (hs : List (String × String))
      → (some_value T w (values_of T key hs) ≡ true) ↔ Some (λ h. (h.0 ≡ key) × Holds w h.1) hs
  any_holds w key nil = (λ h. cc, λ h. absurd h)
  any_holds w key ((k, v) ∷ hs) =
      rw (first_header w key k v hs)
        (or_iff _ _ (and_iff _ _ (eq_iff k key) (Holds_iff w v)) (any_holds w key hs))

  -- An empty wish is met.
  wish_iff :
      {P : Type 0} (w : String) (b : Bool)
      → (b ≡ true) ↔ P
      → ((not (truthy w) || b) ≡ true) ↔ ((w ≡ "") ⊎ P)
  wish_iff [] b p = (λ h. inl refl, λ h. refl)
  wish_iff {P} (c ∷ˢ w) b p = (λ h. inr (p.0 h), back)
    where
      back : (c ∷ˢ w ≡ "") ⊎ P → b ≡ true
      back (inl e) = absurd (cons≢nil e)
      back (inr x) = p.1 x

  node_iff :
      (w : String) (o : Option Json)
      → (node_matches T w o ≡ true) ↔ ((node : Json) × (o ≡ some node) × Holds w (rendered T node))
  node_iff w none = (λ h. cc, λ (v, e, k). cc)
  node_iff w (some v) = (
    λ h. (v, refl, (Holds_iff w _).0 h),
    λ (u, e, k). (Holds_iff w _).1 (rw (some-injective _ _ e) k),
  )

  json_found_iff : (s : ScanSpec) (o : Option String) → (json_found T s o ≡ ok true) ↔ NodeHolds s o
  json_found_iff s none = (λ h. cc, λ (p, v, e, l, k). cc)
  json_found_iff s (some payload) = (there, back)
    where
      there : json_found T s (some payload) ≡ ok true → NodeHolds s (some payload)
      there h =
          let (node, e, k) = >>=-eq-ok (json_lookup T payload s.json_path) _ h in
          let (v, e', holds) = (node_iff s.json_value node).0 (ground arith) in
          (payload, v, refl, rw e' at e, holds)

      back : NodeHolds s (some payload) → json_found T s (some payload) ≡ ok true
      back (p, v, e, l, holds) =
          let l' : json_lookup T payload s.json_path ≡ ok (some v) = rw (some-injective _ _ e) l in
          rw l' (ap ok ((node_iff s.json_value (some v)).1 (v, refl, holds)))

  wish_result_iff :
      {P : Type 0} (w : String) (r : Result Bool)
      → (r ≡ ok true) ↔ P
      → ((if truthy w then r else ok true) ≡ ok true) ↔ ((w ≡ "") ⊎ P)
  wish_result_iff [] r p = (λ h. inl refl, λ h. refl)
  wish_result_iff {P} (c ∷ˢ w) r p = (λ h. inr (p.0 h), back)
    where
      back : (c ∷ˢ w ≡ "") ⊎ P → r ≡ ok true
      back (inl e) = absurd (cons≢nil e)
      back (inr x) = p.1 x

  ladder :
      (a b c : Bool) (r : Result Bool)
      → ((if not a then ok false else if not b then ok false else if not c then ok false else r)
          ≡ ok true)
        ↔ ((a ≡ true) × (b ≡ true) × (c ≡ true) × (r ≡ ok true))
  ladder a b c r = ground arith

  -- `matches` returns `True` exactly for a message that the search describes: each filter that is
  -- set holds. The key and the value hold their texts, some header of the name holds the wanted
  -- value, and the path leads to a node of the value that holds the wanted text.
  pub matches_iff : (m : Message) (s : ScanSpec) → (matches T m s ≡ ok true) ↔ Accepts m s
  unfolding matches
  matches_iff m s =
      let l =
        ladder (key_matches T m s) (value_matches T m s) (header_matches T m s)
          (json_matches T m s) in
      let key = Holds_iff s.key_contains (text_or_empty m.key) in
      let value = Holds_iff s.value_contains (text_or_empty m.value) in
      let header = wish_iff s.header_key _ (any_holds s.header_value s.header_key m.headers) in
      let json = wish_result_iff s.json_path _ (json_found_iff s m.value) in
      (
        λ h.
            let (k, v, hd, j) = l.0 h in
            record { key = key.0 k; value = value.0 v; header = header.0 hd; json = json.0 j },
        λ a. l.1 (key.1 a.key, value.1 a.value, header.1 a.header, json.1 a.json),
      )
