-- ===== src/Kafka/Program.antt =====
-- Programs over a broker: steps that may raise, over the world and the requests sent so far.
pub mod Rules
pub mod Runs
pub mod Asks
use kafkascope.Prelude.{ℤ, String, Bool, List, [], ◌∷◌, ◌++◌, if◌then◌else◌}
use kafkascope.Failure.{Failure, Result, ok, err}
use kafkascope.Kafka.{Kafka, Request, Altered, Reply}

pub record Session (K : Kafka) : Type 0 where
  pub world : K.World
  pub sent : List Request

abbrev pub Program : Kafka → Type 0 → Type 0
Program K A = Session K → Result A × Session K

module _ {K : Kafka} {A : Type 0} where
  unfoldable pub pure : A → Program K A
  pure a s = (ok a, s)

  unfoldable pub raise : Failure → Program K A
  raise e s = (err e, s)

  unfoldable pub lift : Result A → Program K A
  lift r s = (r, s)

  -- A call of the client that asks for no change.
  unfoldable pub ask : (K.World → Result A × K.World) → Program K A
  ask q s = let r = q s.world in (r.0, record s { world = r.1 })

-- A call that asks for one. The request counts as sent whatever comes back.
unfoldable pub request : {K : Kafka} → Request → Program K (List Altered)
request {K} r s =
    let a = K.perform r s.world in (a.0, record { world = a.1; sent = s.sent ++ r ∷ [] })

-- The same of the schema registry, whose reply is read later.
unfoldable pub post : {K : Kafka} → Request → Program K Reply
post {K} r s =
    let a = K.post_schema r s.world in (ok a.0, record { world = a.1; sent = s.sent ++ r ∷ [] })

module _ {K : Kafka} {A B : Type 0} where
  abbrev pub continue : Result A → (A → Program K B) → Program K B
  continue (ok a) f s = f a s
  continue (err e) f s = (err e, s)

  infixl 10 ◌>>=◌ ◌>>◌
  unfoldable pub ◌>>=◌ : Program K A → (A → Program K B) → Program K B
  unfolding pure raise lift
  ◌>>=◌ m f s = let r = m s in continue r.0 f r.1

  abbrev pub ◌>>◌ : Program K A → Program K B → Program K B
  m >> n = m >>= λ _. n

-- `if bad: raise e`
abbrev pub refuse_if : {K : Kafka} → Bool → Failure → Program K (Unit {0})
refuse_if bad e = if bad then raise e else pure tt

-- `[f(x) for x in xs]`, where `f` may raise
unfoldable pub traverse :
    {K : Kafka} {A B : Type 0} → (A → Program K B) → List A → Program K (List B)
unfolding pure ◌>>=◌
traverse f [] = pure []
traverse f (x ∷ xs) = f x >>= λ y. traverse f xs >>= λ ys. pure (y ∷ ys)
