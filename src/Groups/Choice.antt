-- ===== src/Groups/Choice.antt =====
-- The choice of a topic's partitions: it changes nothing, and what it returns.
use kafkascope.Prelude.{ℕ, length}
use kafkascope.Prelude.{ℤ, String, Bool, true, false, ◌||◌, not, Option, none, some, List, []}
use kafkascope.Prelude.{◌∷◌, All, contains, ◌==◌, string_eq, int_eq, ltb_ℤ, ◌≡◌, refl}
use kafkascope.Prelude.{subst, arith, if◌then◌else◌}
use kafkascope.Prelude.Sort.{sort_by, All-sort_by, length-sort_by}
use kafkascope.Prelude.Dict.{Dict, lookup, keys}
use kafkascope.Failure.{ok}
use kafkascope.Kafka.{Kafka, TopicMetadata}
use kafkascope.Kafka.Program.Rules.{Silent, Silent-pure, Silent-raise, Silent-ask}
use kafkascope.Kafka.Program.Rules.{Silent-refuse_if, Silent-bind}
use kafkascope.Groups.{or_not_found, healthy, no_error, topic_metadata, chosen}
use kafkascope.Groups.Empty.{not-false}

module _ (K : Kafka) where
  -- The broker listed the topic, with this metadata.
  abbrev pub Listed : String → TopicMetadata → Type 0
  Listed topic m =
      (w : K.World) × (topics : Dict String TopicMetadata) × ((K.list_topics w).0 ≡ ok topics)
      × (lookup topic topics ≡ some m)

  -- A partition of the topic, and the one that was asked for.
  abbrev pub Chosen : TopicMetadata → Option ℤ → ℤ → Type 0
  Chosen m none p = contains (keys m.partitions) p ≡ true
  Chosen m (some q) p = (contains (keys m.partitions) p ≡ true) × (q ≡ p)

  -- A healthy topic is the one that was found.
  Silent-or_not_found :
      (topic : String) (topics : Dict String TopicMetadata) (w : K.World)
      → (K.list_topics w).0 ≡ ok topics
      → (o : Option TopicMetadata) → lookup topic topics ≡ o
      → Silent (or_not_found K topic (healthy o)) (Listed topic)
  Silent-or_not_found topic topics w e none found = Silent-raise _
  Silent-or_not_found topic topics w e (some m) found = by_error (no_error m.error)
    where
      by_error :
          (b : Bool) → Silent (or_not_found K topic (if b then some m else none)) (Listed topic)
      by_error true = Silent-pure m (w, topics, e, found)
      by_error false = Silent-raise _

  -- The metadata is what the broker listed, and reading it changes nothing.
  pub Silent-topic_metadata : (topic : String) → Silent (topic_metadata K topic) (Listed topic)
  Silent-topic_metadata topic =
      Silent-bind
        (Silent-ask {Q = λ ts. (w : K.World) × ((K.list_topics w).0 ≡ ok ts)} K.list_topics
          (λ w ts e. (w, e)))
        λ topics (w, e). Silent-or_not_found topic topics w e (lookup topic topics) refl

  weaken :
      (p : ℤ) (xs ys : List ℤ)
      → All (λ k. contains ys k ≡ true) xs
      → All (λ k. contains (p ∷ ys) k ≡ true) xs
  weaken p [] ys h = tt
  weaken p (x ∷ xs) ys (h, hs) = (ground arith, weaken p xs ys hs)

  pub self : (xs : List ℤ) → All (λ k. contains xs k ≡ true) xs
  self [] = tt
  self (x ∷ xs) = (ground arith, weaken x xs xs (self xs))

  eqb_ℤ-eq : (a b : ℤ) → (a == b) ≡ true → a ≡ b
  eqb_ℤ-eq a b h = (int_eq.eqb_iff a b).0 h

  All-contains : (P : ℤ → Type 0) (xs : List ℤ) (p : ℤ) → All P xs → contains xs p ≡ true → P p
  All-contains P [] p h e = cc
  All-contains P (x ∷ xs) p (h, hs) e = at_head x xs p h (All-contains P xs p hs) (x == p) refl e
    where
      at_head :
          (x : ℤ) (xs : List ℤ) (p : ℤ)
          → P x
          → (contains xs p ≡ true → P p)
          → (b : Bool) → (x == p) ≡ b
          → (b || contains xs p) ≡ true
          → P p
      at_head x xs p h hs true same e = subst P (eqb_ℤ-eq x p same) h
      at_head x xs p h hs false other e = hs e

  pub Silent-chosen :
      (topic : String) (m : TopicMetadata) (partition : Option ℤ)
      → Silent
          (chosen K topic partition (sort_by ltb_ℤ (keys m.partitions)))
          (All (Chosen m partition))
  Silent-chosen topic m none =
      Silent-pure _ (All-sort_by (λ k. contains (keys m.partitions) k ≡ true) ltb_ℤ _ (self _))
  Silent-chosen topic m (some p) =
      Silent-bind (Silent-refuse_if (not (contains (sort_by ltb_ℤ (keys m.partitions)) p)) _)
        λ u known. Silent-pure (p ∷ []) (
          (
            All-contains (λ k. contains (keys m.partitions) k ≡ true)
                (sort_by ltb_ℤ (keys m.partitions)) p
                (All-sort_by (λ k. contains (keys m.partitions) k ≡ true) ltb_ℤ _ (self _))
                (not-false K _ known),
            refl,
          ),
          tt,
        )

  -- How many partitions are chosen.
  abbrev pub share : TopicMetadata → Option ℤ → ℕ
  share m none = length (keys m.partitions)
  share m (some p) = 1

  pub Silent-chosen-length :
      (topic : String) (m : TopicMetadata) (partition : Option ℤ)
      → Silent
          (chosen K topic partition (sort_by ltb_ℤ (keys m.partitions)))
          (λ ps. length ps ≡ share m partition)
  Silent-chosen-length topic m none = Silent-pure _ (length-sort_by ltb_ℤ (keys m.partitions))
  Silent-chosen-length topic m (some p) =
      Silent-bind (Silent-refuse_if (not (contains (sort_by ltb_ℤ (keys m.partitions)) p)) _)
        λ u known. Silent-pure _ refl
