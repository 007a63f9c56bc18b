-- ===== src/Routers/Pages/Figures.antt =====
-- What the parts of the pages that are not tables show: the brokers, the counts, the names to choose
-- from, apart from how the services compute them.
use kafkascope.Prelude.{ℤ, pos, String, Bool, true, false, not, Option, none, some, ◌≡◌, refl, ap}
use kafkascope.Prelude.{List, [], ◌∷◌, map, ltb_ℤ, leb_ℤ, ◌+ℤ◌, ◌-ℤ◌, ◌↔◌, ◌⊎◌, inl, inr, int_eq}
use kafkascope.Prelude.{arith, string_eq, if◌then◌else◌, ◌∙◌}
use kafkascope.Prelude.Sort.{sort_by}
use kafkascope.Prelude.Sort.Laws.{IsOrder, AreSorted, sort_by-AreSorted, sort_by-perm}
use mathlib.Core.List.{Perm}
use kafkascope.Prelude.Dict.{Dict, lookup, keys, values}
use kafkascope.Failure.{ok}
use kafkascope.Kafka.{Kafka, TopicMetadata, BrokerMetadata}
use kafkascope.Kafka.Program.Rules.{Silent, Silent-pure, Silent-ask, Silent-bind}
use kafkascope.Kafka.Program.Runs.{Each, Silent-traverse-Each}
use kafkascope.Cluster.{Broker, broker_of, broker_before, get_brokers, topic_message_count}
use kafkascope.Cluster.{count_of, sum_marks, TopicSummary}
use kafkascope.Cluster.Laws.{IsAbsent}
use kafkascope.Groups.{GroupDetail, PartitionOffset, healthy, no_error, group_total_lag, total_lag}
use kafkascope.Groups.{lag_of, lag, has_offset, lag_or_zero}
use kafkascope.Groups.Empty.{Marks, Silent-watermarks, Detailed, Silent-get_group}
use kafkascope.Groups.Choice.{Listed}
use kafkascope.Routers.Pages.{ordinary_names}

-- A broker, and whether it is the controller.
abbrev pub IsBroker : ℤ → BrokerMetadata → Broker → Type 0
IsBroker controller b x =
    (x.id ≡ b.id)
    × (x.host ≡ b.host)
    × (x.port ≡ b.port)
    × ((x.is_controller ≡ true) ↔ (b.id ≡ controller))

abbrev pub total : List ℤ → ℤ
total [] = pos 0
total (n ∷ ns) = n +ℤ total ns

-- The messages between the watermarks.
abbrev pub held : ℤ × ℤ → ℤ
held (low, high) = high -ℤ low

-- The messages behind a committed offset; none where nothing is committed.
abbrev pub behind : PartitionOffset → ℤ
behind o = if leb_ℤ (pos 0) o.committed then o.high -ℤ o.committed else pos 0

-- The names of the topics that are not internal, in their order.
abbrev pub AreOrdinary : List TopicSummary → List String → Type 0
AreOrdinary [] names = names ≡ []
AreOrdinary (t ∷ ts) names =
    ((t.internal ≡ true) × AreOrdinary ts names)
    ⊎ ((t.internal ≡ false) × (rest : List String) × (names ≡ t.name ∷ rest) × AreOrdinary ts rest)

pub ordinary_names-AreOrdinary : (ts : List TopicSummary) → AreOrdinary ts (ordinary_names ts)
ordinary_names-AreOrdinary [] = refl
ordinary_names-AreOrdinary (t ∷ ts) = by_kind t ts t.internal refl (ordinary_names-AreOrdinary ts)
  where
    by_kind :
        (t : TopicSummary) (ts : List TopicSummary) (b : Bool)
        → t.internal ≡ b
        → AreOrdinary ts (ordinary_names ts)
        → AreOrdinary (t ∷ ts) (if not b then t.name ∷ ordinary_names ts else ordinary_names ts)
    by_kind t ts true e h = inl (e, h)
    by_kind t ts false e h = inr (e, ordinary_names ts, refl, h)

sum_marks-total : (ms : List (ℤ × ℤ)) → sum_marks ms ≡ total (map held ms)
sum_marks-total [] = refl
sum_marks-total ((low, high) ∷ ms) = ap (λ n. (high -ℤ low) +ℤ n) (sum_marks-total ms)

lag-behind : (o : PartitionOffset) → lag_or_zero (lag o) ≡ behind o
unfolding lag has_offset
lag-behind o = by_sign (leb_ℤ (pos 0) o.committed)
  where
    by_sign :
        (b : Bool)
        → lag_or_zero (if b then some (o.high -ℤ o.committed) else none)
          ≡ (if b then o.high -ℤ o.committed else pos 0)
    by_sign true = refl
    by_sign false = refl

total_lag-total : (os : List PartitionOffset) → total_lag os ≡ total (map behind os)
unfolding total_lag
total_lag-total [] = refl
total_lag-total (o ∷ os) =
    ap (λ n. n +ℤ total_lag os) (lag-behind o) ∙ ap (λ n. behind o +ℤ n) (total_lag-total os)

IsOrder-broker_before : IsOrder broker_before
IsOrder-broker_before = record { asymm = λ a b h. ground arith; trans = λ a b c h k. ground arith }

Each-broker_of :
    (controller : ℤ) (bs : List BrokerMetadata)
    → Each (IsBroker controller) bs (map (broker_of controller) bs)
Each-broker_of controller [] = tt
Each-broker_of controller (b ∷ bs) =
    ((refl, refl, refl, int_eq.eqb_iff b.id controller), Each-broker_of controller bs)

module _ (K : Kafka) where
  -- The brokers that were reported, by their ids, and the controller.
  abbrev pub AreBrokers : List Broker × ℤ → Type 0
  AreBrokers (brokers, controller) =
      (w : K.World) × (md : Dict ℤ BrokerMetadata × ℤ) × ((K.list_brokers w).0 ≡ ok md)
      × (controller ≡ md.1)
      × (bs : List BrokerMetadata) × Perm bs (values md.0)
      × AreSorted (λ a b. ltb_ℤ a.id b.id) bs
      × Each (IsBroker controller) bs brokers

  pub Silent-get_brokers : Silent (get_brokers K) AreBrokers
  unfolding get_brokers
  Silent-get_brokers =
      Silent-bind
        (Silent-ask {Q = λ md. (w : K.World) × ((K.list_brokers w).0 ≡ ok md)} K.list_brokers
          (λ w md e. (w, e)))
        λ md (w, e). Silent-pure _ (
          w,
          md,
          e,
          refl,
          sort_by broker_before (values md.0),
          sort_by-perm broker_before (values md.0),
          sort_by-AreSorted IsOrder-broker_before (values md.0),
          Each-broker_of md.1 (sort_by broker_before (values md.0)),
        )

  -- The messages that the listed topic holds, by the watermarks that were reported for each of its
  -- partitions. Nothing for a topic that is not listed.
  abbrev pub IsCount : String → Option ℤ → Type 0
  IsCount name none = IsAbsent K name
  IsCount name (some n) =
      (m : TopicMetadata) × Listed K name m
      × (marks : List (ℤ × ℤ)) × Each (Marks K name) (keys m.partitions) marks
      × (n ≡ total (map held marks))

  Silent-count_of :
      (name : String) (w : K.World) (md : Dict String TopicMetadata)
      → (K.list_topics w).0 ≡ ok md
      → (o : Option TopicMetadata) → lookup name md ≡ o
      → Silent (count_of K name (healthy o)) (IsCount name)
  Silent-count_of name w md e none h = Silent-pure none (w, md, e, inl h)
  Silent-count_of name w md e (some m) h = by_error (no_error m.error) refl
    where
      by_error :
          (b : Bool)
          → no_error m.error ≡ b
          → Silent (count_of K name (if b then some m else none)) (IsCount name)
      by_error false bad = Silent-pure none (w, md, e, inr (m, h, bad))
      by_error true good =
          Silent-bind (Silent-traverse-Each (λ p. Silent-watermarks K name p) (keys m.partitions))
            λ marks each. Silent-pure _ (m, (w, md, e, h), marks, each, sum_marks-total marks)

  pub Silent-topic_message_count :
      (name : String) → Silent (topic_message_count K name) (IsCount name)
  unfolding topic_message_count
  Silent-topic_message_count name =
      Silent-bind
        (Silent-ask {Q = λ md. (w : K.World) × ((K.list_topics w).0 ≡ ok md)} K.list_topics
          (λ w md e. (w, e)))
        λ md (w, e). Silent-count_of name w md e (lookup name md) refl

  -- The messages behind the group's committed offsets. Nothing for a group that is not there.
  abbrev pub IsLag : String → Option ℤ → Type 0
  IsLag g none = Detailed K g none
  IsLag g (some n) = (d : GroupDetail) × Detailed K g (some d) × (n ≡ total (map behind d.offsets))

  lag_of-IsLag : (g : String) (o : Option GroupDetail) → Detailed K g o → IsLag g (lag_of K o)
  lag_of-IsLag g none h = h
  lag_of-IsLag g (some d) h = (d, h, total_lag-total d.offsets)

  pub Silent-group_total_lag : (g : String) → Silent (group_total_lag K g) (IsLag g)
  unfolding group_total_lag
  Silent-group_total_lag g =
      Silent-bind (Silent-get_group K g) λ d h. Silent-pure _ (lag_of-IsLag g d h)
