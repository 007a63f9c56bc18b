-- ===== src/Kafka/Program/Rules.antt =====
-- What a program sends, one rule for each way to build a program.
use kafkascope.Prelude.{Bool, true, false, List, [], ◌∷◌, ◌++◌, ◌≡◌, refl, ◌∙◌, ◌⊎◌, inl, inr}
use kafkascope.Prelude.{subst, if◌then◌else◌, All}
use kafkascope.Failure.{Failure, Result, ok, err}
use kafkascope.Kafka.{Kafka, Request}
use kafkascope.Kafka.Program.{Session, Program, pure, raise, lift, ask, request, continue}
use kafkascope.Kafka.Program.{◌>>=◌, traverse, refuse_if}

-- The program raised having sent nothing, or it sent one request, which has the property.
abbrev pub Outcome :
    {K : Kafka} {A : Type 0} → (Request → Type 0) → List Request → Result A × Session K → Type 0
Outcome P before r =
    ((r.1.sent ≡ before) × ((e : Failure) × (r.0 ≡ err e)))
    ⊎ ((q : Request) × (r.1.sent ≡ before ++ q ∷ []) × P q)

module _ {K : Kafka} {A : Type 0} where
  -- The program sends nothing, and what it returns has the property.
  pub record Silent (m : Program K A) (Q : A → Type 0) : Type 0 where
    pub sent : (s : Session K) → (m s).1.sent ≡ s.sent
    pub returns : (s : Session K) (a : A) → (m s).0 ≡ ok a → Q a

  pub record Sends (m : Program K A) (P : Request → Type 0) : Type 0 where
    pub at : (s : Session K) → Outcome P s.sent (m s)

  pub Silent-pure : {Q : A → Type 0} (a : A) → Q a → Silent (pure {K = K} a) Q
  unfolding pure
  Silent-pure {Q} a q = record { sent = λ s. refl; returns = λ s b e. subst Q (ok_inj e) q }
    where
      ok_inj : {a b : A} → ok a ≡ ok b → a ≡ b
      ok_inj e = cc

  pub Silent-raise : {Q : A → Type 0} (e : Failure) → Silent (raise {K = K} e) Q
  unfolding raise
  Silent-raise e = record { sent = λ s. refl; returns = λ s b h. cc }

  pub Silent-lift :
      {Q : A → Type 0} (r : Result A) → ((a : A) → r ≡ ok a → Q a) → Silent (lift {K = K} r) Q
  unfolding lift
  Silent-lift r h = record { sent = λ s. refl; returns = λ s b e. h b e }

  -- The value is one that the broker reports in some world.
  pub Silent-ask :
      {Q : A → Type 0} (q : K.World → Result A × K.World)
      → ((w : K.World) (a : A) → (q w).0 ≡ ok a → Q a)
      → Silent (ask q) Q
  unfolding ask
  Silent-ask q h = record { sent = λ s. refl; returns = λ s b e. h s.world b e }

  pub Silent-weaken :
      {Q R : A → Type 0} {m : Program K A} → Silent m Q → ((a : A) → Q a → R a) → Silent m R
  Silent-weaken k h = record { sent = k.sent; returns = λ s a e. h a (k.returns s a e) }

  pub Silent-both :
      {Q R : A → Type 0} {m : Program K A} → Silent m Q → Silent m R → Silent m (λ a. Q a × R a)
  Silent-both k h = record { sent = k.sent; returns = λ s a e. (k.returns s a e, h.returns s a e) }

  pub Silent-if :
      {Q : A → Type 0} (b : Bool) {m n : Program K A}
      → (b ≡ true → Silent m Q)
      → (b ≡ false → Silent n Q)
      → Silent (if b then m else n) Q
  Silent-if true km kn = km refl
  Silent-if false km kn = kn refl

  pub Sends-raise : {P : Request → Type 0} (e : Failure) → Sends (raise {K = K} e) P
  unfolding raise
  Sends-raise e = record { at = λ s. inl (refl, (e, refl)) }

  pub Sends-weaken :
      {P R : Request → Type 0} {m : Program K A}
      → Sends m P
      → ((q : Request) → P q → R q)
      → Sends m R
  Sends-weaken {P} {R} {m} k h = record { at = λ s. weaker s (k.at s) }
    where
      weaker : (s : Session K) → Outcome P s.sent (m s) → Outcome R s.sent (m s)
      weaker s (inl t) = inl t
      weaker s (inr (q, sent, p)) = inr (q, sent, h q p)

  pub Sends-if :
      {P : Request → Type 0} (b : Bool) {m n : Program K A}
      → (b ≡ true → Sends m P)
      → (b ≡ false → Sends n P)
      → Sends (if b then m else n) P
  Sends-if true km kn = km refl
  Sends-if false km kn = kn refl

pub Silent-refuse_if :
    {K : Kafka} (bad : Bool) (e : Failure) → Silent (refuse_if {K = K} bad e) (λ _. bad ≡ false)
Silent-refuse_if true e = Silent-raise e
Silent-refuse_if false e = Silent-pure tt refl

pub Sends-request :
    {K : Kafka} {P : Request → Type 0} (r : Request) → P r → Sends (request {K = K} r) P
unfolding request
Sends-request r p = record { at = λ s. inr (r, refl, p) }

module _ {K : Kafka} {A B : Type 0} where
  continue-sent :
      {R : B → Type 0} (r : Result A) (f : A → Program K B) (s : Session K)
      → ((a : A) → r ≡ ok a → Silent (f a) R)
      → (continue r f s).1.sent ≡ s.sent
  continue-sent (ok a) f s h = (h a refl).sent s
  continue-sent (err e) f s h = refl

  continue-returns :
      {R : B → Type 0} (r : Result A) (f : A → Program K B) (s : Session K)
      → ((a : A) → r ≡ ok a → Silent (f a) R)
      → (b : B) → (continue r f s).0 ≡ ok b
      → R b
  continue-returns (ok a) f s h b e = (h a refl).returns s b e
  continue-returns (err x) f s h b e = cc

  pub Silent-bind :
      {Q : A → Type 0} {R : B → Type 0} {m : Program K A} {f : A → Program K B}
      → Silent m Q
      → ((a : A) → Q a → Silent (f a) R)
      → Silent (m >>= f) R
  unfolding ◌>>=◌
  Silent-bind {m} {f} km kf = record {
    sent = λ s. continue-sent (m s).0 f (m s).1 (λ a e. kf a (km.returns s a e)) ∙ km.sent s;
    returns = λ s b e. continue-returns (m s).0 f (m s).1 (λ a e'. kf a (km.returns s a e')) b e;
  }

  continue-Sent :
      {P : Request → Type 0} (r : Result A) (f : A → Program K B) (s : Session K)
      → ((a : A) → r ≡ ok a → Sends (f a) P)
      → Outcome P s.sent (continue r f s)
  continue-Sent (ok a) f s h = (h a refl).at s
  continue-Sent (err e) f s h = inl (refl, (e, refl))

  -- A silent part before the rest.
  pub Sends-bind :
      {Q : A → Type 0} {P : Request → Type 0} {m : Program K A} {f : A → Program K B}
      → Silent m Q
      → ((a : A) → Q a → Sends (f a) P)
      → Sends (m >>= f) P
  unfolding ◌>>=◌
  Sends-bind {P} {m} {f} km kf = record {
    at = λ s.
        subst (λ l. Outcome P l (continue (m s).0 f (m s).1)) (km.sent s)
          (continue-Sent (m s).0 f (m s).1 (λ a e. kf a (km.returns s a e)));
  }

  after :
      {P : Request → Type 0} {R : B → Type 0} (before : List Request) (r : Result A)
      (f : A → Program K B) (s : Session K)
      → ((a : A) → Silent (f a) R)
      → Outcome P before (r, s)
      → Outcome P before (continue r f s)
  after before (ok a) f s h (inl (same, (e, q))) = cc
  after before (ok a) f s h (inr (q, sent, p)) = inr (q, (h a).sent s ∙ sent, p)
  after before (err x) f s h (inl (same, q)) = inl (same, (x, refl))
  after before (err x) f s h (inr t) = inr t

  -- A silent part after the request.
  pub Sends-then :
      {P : Request → Type 0} {R : B → Type 0} {m : Program K A} {f : A → Program K B}
      → Sends m P
      → ((a : A) → Silent (f a) R)
      → Sends (m >>= f) P
  unfolding ◌>>=◌
  Sends-then {m} {f} km kf = record { at = λ s. after s.sent (m s).0 f (m s).1 kf (km.at s) }

module _ {K : Kafka} {A B : Type 0} {R : B → Type 0} {f : A → Program K B} where
  pub Silent-traverse : ((a : A) → Silent (f a) R) → (xs : List A) → Silent (traverse f xs) (All R)
  unfolding traverse
  Silent-traverse h [] = Silent-pure [] tt
  Silent-traverse h (x ∷ xs) =
      Silent-bind (h x)
        λ y r. Silent-bind (Silent-traverse h xs) λ ys rs. Silent-pure (y ∷ ys) (r, rs)

  pub Silent-traverse-All :
      {Q : A → Type 0}
      → ((a : A) → Q a → Silent (f a) R)
      → (xs : List A) → All Q xs
      → Silent (traverse f xs) (All R)
  unfolding traverse
  Silent-traverse-All h [] qs = Silent-pure [] tt
  Silent-traverse-All h (x ∷ xs) (q, qs) =
      Silent-bind (h x q)
        λ y r. Silent-bind (Silent-traverse-All h xs qs) λ ys rs. Silent-pure (y ∷ ys) (r, rs)
