-- ===== src/Wire/Proto/Collect.antt =====
-- The dict that `add_field` builds, seen by the number of a field.
use kafkascope.Prelude.{
  ℕ, Bool, true, false, List, [], ◌∷◌, Option, none, some, ◌≡◌, refl, ◌∙◌, ap, sym,
}
use kafkascope.Prelude.{◌==◌, nat_eq, if◌then◌else◌, arith, All}
use kafkascope.Wire.Proto.{
  Value, Values, Fields, int, text, message, b64, repeated, nil, cons, end, field,
}
use kafkascope.Prelude.{String, subst}
use kafkascope.Wire.Varint.{Read, ok, err, stuck}
use kafkascope.Wire.Proto.{
  append_value, collect, add_field, Codecs, nested_or_bytes, decode_length_delimited,
}
use kafkascope.Wire.Proto.{text_or, reads_as_text}

-- `d.get(n)`
abbrev pub field_at : ℕ → Fields → Option Value
field_at n end = none
field_at n (field m v fs) = let rest = field_at n fs in if m == n then some v else rest

abbrev pub of_list : List Value → Values
of_list [] = nil
of_list (v ∷ vs) = cons v (of_list vs)

-- What stands under a number whose values are these, in order.
abbrev pub gathered : List Value → Option Value
gathered [] = none
gathered (v ∷ []) = some v
gathered (v ∷ w ∷ vs) = some (repeated (of_list (v ∷ w ∷ vs)))

-- The values of one number among pairs of a number and a value.
abbrev pub values_at : ℕ → List (ℕ × Value) → List Value
values_at n [] = []
values_at n ((m, v) ∷ ps) = let rest = values_at n ps in if m == n then v ∷ rest else rest

abbrev pub add_all : List (ℕ × Value) → Fields → Fields
add_all [] fs = fs
add_all ((n, v) ∷ ps) fs = add_all ps (add_field n v fs)

-- No field reads as a list by itself.
abbrev pub IsSingle : Value → Type 0
IsSingle (repeated vs) = ⊥
IsSingle v = Unit

extend : Option Value → Value → Option Value
extend none v = some v
extend (some w) v = some (collect w v)

gather_from : Option Value → List Value → Option Value
gather_from o [] = o
gather_from o (v ∷ vs) = gather_from (extend o v) vs

field_at-add_field :
    (n m : ℕ) (v : Value) (fs : Fields)
    → field_at n (add_field m v fs) ≡ (if m == n then extend (field_at n fs) v else field_at n fs)
unfolding add_field extend
field_at-add_field n m v end = refl
field_at-add_field n m v (field k w fs) = ground (arith, field_at-add_field n m v fs)

gather_from-values_at :
    (n : ℕ) (ps : List (ℕ × Value)) (fs : Fields)
    → field_at n (add_all ps fs) ≡ gather_from (field_at n fs) (values_at n ps)
unfolding gather_from
gather_from-values_at n [] fs = refl
gather_from-values_at n ((m, v) ∷ ps) fs =
    gather_from-values_at n ps (add_field m v fs)
    ∙ ap (λ o. gather_from o (values_at n ps)) (field_at-add_field n m v fs)
    ∙ by_number (m == n)
  where
    by_number :
        (b : Bool)
        → gather_from (if b then extend (field_at n fs) v else field_at n fs) (values_at n ps)
          ≡ gather_from (field_at n fs) (if b then v ∷ values_at n ps else values_at n ps)
    by_number true = refl
    by_number false = refl

joined : Values → List Value → Values
joined nil vs = of_list vs
joined (cons w ws) vs = cons w (joined ws vs)

joined-append_value :
    (ws : Values) (v : Value) (vs : List Value) → joined (append_value ws v) vs ≡ joined ws (v ∷ vs)
unfolding joined
joined-append_value nil v vs = refl
joined-append_value (cons w ws) v vs = ap (cons w) (joined-append_value ws v vs)

joined-nil : (ws : Values) → joined ws [] ≡ ws
unfolding joined
joined-nil nil = refl
joined-nil (cons w ws) = ap (cons w) (joined-nil ws)

gather_from-repeated :
    (ws : Values) (vs : List Value)
    → gather_from (some (repeated ws)) vs ≡ some (repeated (joined ws vs))
unfolding gather_from extend
gather_from-repeated ws [] = ap (λ us. some (repeated us)) (sym (joined-nil ws))
gather_from-repeated ws (v ∷ vs) =
    gather_from-repeated (append_value ws v) vs
    ∙ ap (λ us. some (repeated us)) (joined-append_value ws v vs)

collect-single : (v w : Value) → IsSingle v → collect v w ≡ repeated (cons v (cons w nil))
collect-single (int n) w h = refl
collect-single (text n) w h = refl
collect-single (message n) w h = refl
collect-single (b64 n) w h = refl
collect-single (repeated n) w h = absurd h

gather_from-gathered : (vs : List Value) → All IsSingle vs → gather_from none vs ≡ gathered vs
unfolding gather_from extend joined
gather_from-gathered [] h = refl
gather_from-gathered (v ∷ []) h = refl
gather_from-gathered (v ∷ w ∷ vs) (h, hs) =
    ap (λ u. gather_from (some u) vs) (collect-single v w h)
    ∙ gather_from-repeated (cons v (cons w nil)) vs

All-values_at :
    (n : ℕ) (ps : List (ℕ × Value)) → All (λ p. IsSingle p.1) ps → All IsSingle (values_at n ps)
All-values_at n [] h = tt
All-values_at n ((m, v) ∷ ps) (h, hs) = by_number (m == n) (All-values_at n ps hs)
  where
    by_number :
        (b : Bool)
        → All IsSingle (values_at n ps)
        → All IsSingle (if b then v ∷ values_at n ps else values_at n ps)
    by_number true r = (h, r)
    by_number false r = r

-- Under each number stands the one value that was added under it, or the list of all, in order.
pub field_at-add_all :
    (n : ℕ) (ps : List (ℕ × Value))
    → All (λ p. IsSingle p.1) ps
    → field_at n (add_all ps end) ≡ gathered (values_at n ps)
field_at-add_all n ps h =
    gather_from-values_at n ps end ∙ gather_from-gathered (values_at n ps) (All-values_at n ps h)

abbrev SingleIfOk : Read Value → Type 0
SingleIfOk (ok v) = IsSingle v
SingleIfOk (err e) = Unit
SingleIfOk stuck = Unit

module _ (c : Codecs) where
  nested-IsSingle :
      (bs : List ℕ) (nested : Read Fields) (v : Value)
      → nested_or_bytes c bs nested ≡ ok v
      → IsSingle v
  nested-IsSingle bs (ok end) v h = subst (λ r. SingleIfOk r) h tt
  nested-IsSingle bs (ok (field n w fs)) v h = subst (λ r. SingleIfOk r) h tt
  nested-IsSingle bs (err e) v h = subst (λ r. SingleIfOk r) h tt
  nested-IsSingle bs stuck v h = cc

  -- A chunk reads as one value.
  pub chunk-IsSingle :
      (bs : List ℕ) (nested : Read Fields) (v : Value)
      → decode_length_delimited c bs nested ≡ ok v
      → IsSingle v
  unfolding decode_length_delimited
  chunk-IsSingle [] nested v h = subst (λ r. SingleIfOk r) h tt
  chunk-IsSingle (b ∷ bs) nested v h = by_text (c.utf8 (b ∷ bs)) h
    where
      by_choice :
          (t : String) (p : Bool)
          → (if p then ok (text t) else nested_or_bytes c (b ∷ bs) nested) ≡ ok v
          → IsSingle v
      by_choice t true h = subst (λ r. SingleIfOk r) h tt
      by_choice t false h = nested-IsSingle (b ∷ bs) nested v h

      by_text :
          (o : Option String) → text_or c o (nested_or_bytes c (b ∷ bs) nested) ≡ ok v → IsSingle v
      by_text none h = nested-IsSingle (b ∷ bs) nested v h
      by_text (some t) h = by_choice t (reads_as_text c t) h
