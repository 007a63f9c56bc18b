-- ===== src/Kafka/Program/Asks.antt =====
-- Programs that may ask for several changes: what each may be, and what the program returns.
use kafkascope.Prelude.{
  Bool, true, false, List, [], ◌∷◌, ◌++◌, ◌≡◌, refl, sym, ap, ◌∙◌, All, subst, inl, inr,
}
use kafkascope.Prelude.Lists.{All-append, All-imp}
use kafkascope.Prelude.{append-nil, append_assoc, if◌then◌else◌}
use kafkascope.Failure.{Result, ok, err}
use kafkascope.Kafka.{Kafka, Request}
use kafkascope.Kafka.Program.{Session, Program, ◌>>=◌, continue, post}
use kafkascope.Kafka.Program.Rules.{Silent, Sends, Outcome}

module _ (P : Request → Type 0) where
  -- The requests that were sent since, each of which has the property.
  abbrev pub Since : List Request → List Request → Type 0
  Since before sent = (new : List Request) × (sent ≡ before ++ new) × All P new

  Since-refl : (before : List Request) → Since before before
  Since-refl before = ([], sym (append-nil before), tt)

  Since-trans :
      (before : List Request) {sent later : List Request}
      → Since before sent
      → Since sent later
      → Since before later
  Since-trans before (xs, e, ps) (ys, f, qs) =
      (xs ++ ys, f ∙ ap (λ l. l ++ ys) e ∙ append_assoc before xs ys, All-append P xs ys ps qs)

module _ {K : Kafka} {A : Type 0} where
  pub record Asks (m : Program K A) (P : Request → Type 0) (Q : A → Type 0) : Type 0 where
    pub sent : (s : Session K) → Since P s.sent (m s).1.sent
    pub returns : (s : Session K) (a : A) → (m s).0 ≡ ok a → Q a

  pub Asks-Silent :
      {P : Request → Type 0} {Q : A → Type 0} {m : Program K A} → Silent m Q → Asks m P Q
  Asks-Silent k = record {
    sent = λ s. ([], k.sent s ∙ sym (append-nil s.sent), tt);
    returns = k.returns;
  }

  pub Asks-if :
      {P : Request → Type 0} {Q : A → Type 0} (b : Bool) {m n : Program K A}
      → (b ≡ true → Asks m P Q)
      → (b ≡ false → Asks n P Q)
      → Asks (if b then m else n) P Q
  Asks-if true km kn = km refl
  Asks-if false km kn = kn refl

pub Asks-post :
    {K : Kafka} {P : Request → Type 0} (r : Request) → P r → Asks (post {K = K} r) P (λ _. Unit {0})
unfolding post
Asks-post r p = record { sent = λ s. (r ∷ [], refl, (p, tt)); returns = λ s a e. tt }

module _ {K : Kafka} {A B : Type 0} where
  continue-Asked :
      {P : Request → Type 0} {R : B → Type 0} (r : Result A) (f : A → Program K B) (s : Session K)
      → ((a : A) → r ≡ ok a → Asks (f a) P R)
      → Since P s.sent (continue r f s).1.sent
  continue-Asked (ok a) f s h = (h a refl).sent s
  continue-Asked (err e) f s h = Since-refl _ s.sent

  continue-returned :
      {P : Request → Type 0} {R : B → Type 0} (r : Result A) (f : A → Program K B) (s : Session K)
      → ((a : A) → r ≡ ok a → Asks (f a) P R)
      → (b : B) → (continue r f s).0 ≡ ok b
      → R b
  continue-returned (ok a) f s h b e = (h a refl).returns s b e
  continue-returned (err x) f s h b e = cc

  pub Asks-bind :
      {P : Request → Type 0} {Q : A → Type 0} {R : B → Type 0} {m : Program K A}
      {f : A → Program K B}
      → Asks m P Q
      → ((a : A) → Q a → Asks (f a) P R)
      → Asks (m >>= f) P R
  unfolding ◌>>=◌
  Asks-bind {m} {f} km kf = record {
    sent = λ s.
        Since-trans _ s.sent (km.sent s)
          (continue-Asked (m s).0 f (m s).1 (λ a e. kf a (km.returns s a e)));
    returns = λ s b e. continue-returned (m s).0 f (m s).1 (λ a e'. kf a (km.returns s a e')) b e;
  }

module _ {K : Kafka} {A : Type 0} where
  -- Requests of the one kind, then a raise or one request of the other kind.
  pub record Concludes (m : Program K A) (P R : Request → Type 0) : Type 0 where
    pub at : (s : Session K) → (new : List Request) × All P new × Outcome R (s.sent ++ new) (m s)

  pub Concludes-weaken :
      {P P' R R' : Request → Type 0} {m : Program K A}
      → Concludes m P R
      → ((q : Request) → P q → P' q)
      → ((q : Request) → R q → R' q)
      → Concludes m P' R'
  Concludes-weaken {P} {P'} {R} {R'} {m} k g h = record { at = λ s. weaker s (k.at s) }
    where
      out :
          (before : List Request) (r : Result A × Session K)
          → Outcome R before r
          → Outcome R' before r
      out before r (inl t) = inl t
      out before r (inr (q, sent, p)) = inr (q, sent, h q p)

      weaker :
          (s : Session K)
          → ((new : List Request) × All P new × Outcome R (s.sent ++ new) (m s))
          → (new : List Request) × All P' new × Outcome R' (s.sent ++ new) (m s)
      weaker s (new, ps, o) = (new, All-imp g new ps, out (s.sent ++ new) (m s) o)

  pub Concludes-Sends : {P R : Request → Type 0} {m : Program K A} → Sends m R → Concludes m P R
  Concludes-Sends {R} {m} k = record {
    at = λ s. ([], tt, subst (λ l. Outcome R l (m s)) (sym (append-nil s.sent)) (k.at s));
  }

module _ {K : Kafka} {A B : Type 0} {P R : Request → Type 0} where
  continue-concluded :
      (before : List Request) (r : Result A) (f : A → Program K B) (s : Session K)
      → Since P before s.sent
      → ((a : A) → r ≡ ok a → Concludes (f a) P R)
      → (new : List Request) × All P new × Outcome R (before ++ new) (continue r f s)
  continue-concluded before (err e) f s (new, sent, ps) h = (new, ps, inl (sent, (e, refl)))
  continue-concluded before (ok a) f s (new, sent, ps) h =
      let (later, qs, out) = (h a refl).at s in
      (
        new ++ later,
        All-append P new later ps qs,
        subst (λ l. Outcome R l (f a s)) (ap (λ l. l ++ later) sent ∙ append_assoc before new later)
            out,
      )

  pub Concludes-bind :
      {Q : A → Type 0} {m : Program K A} {f : A → Program K B}
      → Asks m P Q
      → ((a : A) → Q a → Concludes (f a) P R)
      → Concludes (m >>= f) P R
  unfolding ◌>>=◌
  Concludes-bind {m} {f} km kf = record {
    at = λ s.
        continue-concluded s.sent (m s).0 f (m s).1 (km.sent s) (λ a e. kf a (km.returns s a e));
  }
