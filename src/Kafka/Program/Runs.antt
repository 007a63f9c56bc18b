-- ===== src/Kafka/Program/Runs.antt =====
-- What a run of a program that returned says of the runs of its parts.
use kafkascope.Prelude.{Bool, true, false, List, [], ◌∷◌, ◌≡◌, refl}
use kafkascope.Failure.{Failure, Result, ok, err}
use kafkascope.Kafka.{Kafka}
use kafkascope.Kafka.Program.{Session, Program, pure, raise, ◌>>=◌, continue, refuse_if, traverse}
use kafkascope.Kafka.Program.Rules.{Silent, Silent-pure, Silent-bind}

module _ {A B : Type 0} where
  -- A result for each element, in order, each in the relation to its element.
  abbrev pub Each : (A → B → Type 0) → List A → List B → Type 0
  Each R [] [] = Unit
  Each R [] (y ∷ ys) = ⊥
  Each R (x ∷ xs) [] = ⊥
  Each R (x ∷ xs) (y ∷ ys) = R x y × Each R xs ys

module _ {K : Kafka} {A B : Type 0} where
  continue-returned :
      (r : Result A × Session K) (f : A → Program K B) {b : B}
      → (continue r.0 f r.1).0 ≡ ok b
      → (a : A) × (r.0 ≡ ok a) × ((f a r.1).0 ≡ ok b) × (continue r.0 f r.1 ≡ f a r.1)
  continue-returned (ok a, s) f e = (a, refl, e, refl)
  continue-returned (err x, s) f e = cc

  -- A chain that returned: its first part did, and the chain is the rest from where that ended.
  pub bind-returned :
      (m : Program K A) (f : A → Program K B) (s : Session K) {b : B}
      → ((m >>= f) s).0 ≡ ok b
      → (a : A) × ((m s).0 ≡ ok a) × ((f a (m s).1).0 ≡ ok b) × ((m >>= f) s ≡ f a (m s).1)
  unfolding ◌>>=◌
  bind-returned m f s e = continue-returned (m s) f e

  continue-of :
      (r : Result A × Session K) (f : A → Program K B) {a : A}
      → r.0 ≡ ok a
      → continue r.0 f r.1 ≡ f a r.1
  continue-of (ok b, s) f {a} e = ap_value (injective e)
    where
      injective : ok b ≡ ok a → b ≡ a
      injective h = cc

      ap_value : b ≡ a → f b s ≡ f a s
      ap_value h = cc
  continue-of (err x, s) f e = cc

  -- A chain behind a part that returned is the rest.
  pub bind-of :
      (m : Program K A) (f : A → Program K B) (s : Session K) {a : A}
      → (m s).0 ≡ ok a
      → (m >>= f) s ≡ f a (m s).1
  unfolding ◌>>=◌
  bind-of m f s e = continue-of (m s) f e

  pub Silent-traverse-Each :
      {R : A → B → Type 0} {f : A → Program K B}
      → ((a : A) → Silent (f a) (R a))
      → (xs : List A) → Silent (traverse f xs) (Each R xs)
  unfolding traverse
  Silent-traverse-Each h [] = Silent-pure [] tt
  Silent-traverse-Each h (x ∷ xs) =
      Silent-bind (h x)
        λ y r. Silent-bind (Silent-traverse-Each h xs) λ ys rs. Silent-pure (y ∷ ys) (r, rs)

-- A check that let the run through changed nothing.
pub refuse_if-returned :
    {K : Kafka} (bad : Bool) (e : Failure) (s : Session K) {u : Unit {0}}
    → (refuse_if bad e s).0 ≡ ok u
    → refuse_if bad e s ≡ (ok tt, s)
unfolding pure raise
refuse_if-returned true e s h = cc
refuse_if-returned false e s h = refl
