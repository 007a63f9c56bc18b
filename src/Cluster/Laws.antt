-- ===== src/Cluster/Laws.antt =====
-- What the overview shows: every topic once, ordinary ones first, and of one topic every partition
-- with the watermarks that the broker reported.
use kafkascope.Prelude.{ℤ, String, Bool, true, false, Option, none, some}
use kafkascope.Prelude.{List, [], ◌∷◌, map, All, ltb_ℤ, ◌≡◌, refl, arith}
use kafkascope.Prelude.{if◌then◌else◌, string_eq}
use kafkascope.Prelude.Sort.Laws.{IsOrder, AreSorted, sort_by-AreSorted, sort_by-perm}
use mathlib.Core.List.{Perm}
use mathlib.Core.List.Perm
use kafkascope.Prelude.Dict.{Dict, lookup}
use kafkascope.Failure.{ok}
use kafkascope.Kafka.{Kafka, TopicMetadata, PartitionMetadata}
use kafkascope.Kafka.Program.Rules.{Silent, Silent-pure, Silent-ask, Silent-bind}
use kafkascope.Kafka.Program.Runs.{Each, Silent-traverse-Each}
use kafkascope.Groups.{healthy, no_error}
use kafkascope.Groups.Empty.{Marks, Silent-watermarks}
use kafkascope.Groups.Choice.{Listed}
use kafkascope.Cluster.Summaries.{IsSummary, Each-summary, AreInOrder, sorted-AreInOrder}
use kafkascope.Cluster.{TopicSummary, TopicDetail, PartitionInfo, summary, listed_before}
use kafkascope.Cluster.{overrides, key_before}
use kafkascope.Kafka.{ConfigEntry}
use kafkascope.Prelude.{◌⊎◌, inl, inr}
use kafkascope.Prelude.Sort.{sort_by}
use kafkascope.Cluster.{id_before, read_partition, partition_info, topic_config, detail_of}
use kafkascope.Cluster.{list_topics, get_topic}

IsOrder-id_before : IsOrder id_before
IsOrder-id_before = record { asymm = λ a b h. ground arith; trans = λ a b c h k. ground arith }

-- `<` on the ids of partitions
abbrev pub info_before : PartitionInfo → PartitionInfo → Bool
info_before a b = ltb_ℤ a.id b.id

module _ (K : Kafka) where
  -- One summary for each topic that the broker listed, in the order of the overview.
  abbrev pub AreListed : List TopicSummary → Type 0
  AreListed ts =
      AreInOrder ts
      × (w : K.World) × (md : Dict String TopicMetadata) × ((K.list_topics w).0 ≡ ok md)
      × (us : List TopicSummary) × Each IsSummary md us
      × Perm ts us

  -- The overview asks the broker for no change. It shows one summary for each topic that the broker
  -- listed: its name, the number of its partitions, the most replicas that one of them has,
  -- under-replicated exactly if one of them has fewer replicas in sync than replicas, and internal
  -- exactly if the name begins with two underscores. Ordinary topics stand before internal ones, and
  -- each kind in the order of the names.
  pub list_topics-AreListed : Silent (list_topics K) AreListed
  unfolding list_topics
  list_topics-AreListed =
      Silent-bind
        (Silent-ask {Q = λ md. (w : K.World) × ((K.list_topics w).0 ≡ ok md)} K.list_topics
          (λ w md e. (w, e)))
        λ md (w, e). Silent-pure _ (
          sorted-AreInOrder (map summary md),
          w,
          md,
          e,
          map summary md,
          Each-summary md,
          sort_by-perm listed_before (map summary md),
        )

  -- A partition's row: its metadata as listed, with watermarks that the broker reported.
  abbrev pub IsRow : String → ℤ × PartitionMetadata → ℤ × PartitionMetadata × ℤ × ℤ → Type 0
  IsRow name (p, m) (q, n, low, high) = (q ≡ p) × (n ≡ m) × Marks K name p (low, high)

  Silent-read_partition :
      (name : String) (e : ℤ × PartitionMetadata) → Silent (read_partition K name e) (IsRow name e)
  Silent-read_partition name (p, m) =
      Silent-bind (Silent-watermarks K name p) λ marks h. Silent-pure _ (refl, refl, h)

  -- The rows before they are sorted are those of the listed partitions.
  abbrev pub AreRows : String → TopicMetadata → List PartitionInfo → Type 0
  AreRows name m infos =
      (rows : List (ℤ × PartitionMetadata × ℤ × ℤ)) × Each (IsRow name) m.partitions rows
      × Perm infos (map partition_info rows)
      × AreSorted info_before infos

  -- The broker did not list the topic, or listed it with an error.
  abbrev pub IsAbsent : String → Type 0
  IsAbsent name =
      (w : K.World) × (md : Dict String TopicMetadata) × ((K.list_topics w).0 ≡ ok md)
      × ((lookup name md ≡ none)
          ⊎ ((m : TopicMetadata) × (lookup name md ≡ some m) × (no_error m.error ≡ false)))

  -- The entries that are no defaults, in their order.
  abbrev pub AreKept : Dict String ConfigEntry → Dict String String → Type 0
  AreKept [] kept = kept ≡ []
  AreKept ((k, v) ∷ es) kept =
      ((v.is_default ≡ true) × AreKept es kept)
      ⊎ ((v.is_default ≡ false)
          × (rest : Dict String String) × (kept ≡ (k, v.value) ∷ rest)
          × AreKept es rest)

  -- The configuration that the broker described, without its defaults.
  abbrev pub IsConfig : String → Dict String String → Type 0
  IsConfig name config =
      (w : K.World) × (es : Dict String ConfigEntry) × ((K.describe_configs name w).0 ≡ ok es)
      × (sorted : Dict String ConfigEntry) × Perm sorted es
      × AreKept sorted config

  abbrev pub IsOfTopic : String → Option TopicDetail → Type 0
  IsOfTopic name none = IsAbsent name
  IsOfTopic name (some d) =
      (d.name ≡ name)
      × (m : TopicMetadata) × Listed K name m
      × AreRows name m d.partitions
      × IsConfig name d.config

  AreSorted-map-partition_info :
      (rows : List (ℤ × PartitionMetadata × ℤ × ℤ))
      → AreSorted id_before rows
      → AreSorted info_before (map partition_info rows)
  AreSorted-map-partition_info [] s = tt
  AreSorted-map-partition_info (r ∷ rs) (below, s) =
      (All-map-partition_info rs below, AreSorted-map-partition_info rs s)
    where
      All-map-partition_info :
          (qs : List (ℤ × PartitionMetadata × ℤ × ℤ))
          → All (λ q. id_before q r ≡ false) qs
          → All (λ i. info_before i (partition_info r) ≡ false) (map partition_info qs)
      All-map-partition_info [] hs = tt
      All-map-partition_info (q ∷ qs) (h, hs) = (h, All-map-partition_info qs hs)

  overrides-AreKept : (es : Dict String ConfigEntry) → AreKept es (overrides es)
  overrides-AreKept [] = refl
  overrides-AreKept ((k, v) ∷ es) = by_default k v es v.is_default refl (overrides-AreKept es)
    where
      by_default :
          (k : String) (v : ConfigEntry) (es : Dict String ConfigEntry) (b : Bool)
          → v.is_default ≡ b
          → AreKept es (overrides es)
          → AreKept ((k, v) ∷ es) (if b then overrides es else (k, v.value) ∷ overrides es)
      by_default k v es true e h = inl (e, h)
      by_default k v es false e h = inr (e, overrides es, refl, h)

  Silent-topic_config : (name : String) → Silent (topic_config K name) (IsConfig name)
  unfolding topic_config
  Silent-topic_config name =
      Silent-bind
        (Silent-ask {Q = λ es. (w : K.World) × ((K.describe_configs name w).0 ≡ ok es)}
          (K.describe_configs name) (λ w es e. (w, e)))
        λ es (w, e). Silent-pure _ (
          w,
          es,
          e,
          sort_by key_before es,
          sort_by-perm key_before es,
          overrides-AreKept (sort_by key_before es),
        )

  detail_of-IsOfTopic :
      (name : String) (w : K.World) (md : Dict String TopicMetadata)
      → (K.list_topics w).0 ≡ ok md
      → (o : Option TopicMetadata) → lookup name md ≡ o
      → Silent (detail_of K name (healthy o)) (IsOfTopic name)
  detail_of-IsOfTopic name w md e none h = Silent-pure none (w, md, e, inl h)
  detail_of-IsOfTopic name w md e (some m) h = by_error (no_error m.error) refl
    where
      by_error :
          (b : Bool)
          → no_error m.error ≡ b
          → Silent (detail_of K name (if b then some m else none)) (IsOfTopic name)
      by_error false bad = Silent-pure none (w, md, e, inr (m, h, bad))
      by_error true good =
          Silent-bind (Silent-traverse-Each (Silent-read_partition name) m.partitions) λ rows each.
            Silent-bind (Silent-topic_config name) λ config described. Silent-pure _ (
              refl,
              m,
              (w, md, e, h),
              (
                rows,
                each,
                Perm.map partition_info (sort_by-perm id_before rows),
                AreSorted-map-partition_info _ (sort_by-AreSorted IsOrder-id_before rows),
              ),
              described,
            )

  -- The page of a topic asks the broker for no change. What it shows is nothing, if the
  -- broker did not list the topic or listed it with an error; or a topic of that name that the broker
  -- listed: a row for each listed partition, with its metadata and with watermarks that the broker
  -- reported for it, in the order of the ids, and the configuration without its defaults.
  pub get_topic-IsOfTopic : (name : String) → Silent (get_topic K name) (IsOfTopic name)
  unfolding get_topic
  get_topic-IsOfTopic name =
      Silent-bind
        (Silent-ask {Q = λ md. (w : K.World) × ((K.list_topics w).0 ≡ ok md)} K.list_topics
          (λ w md e. (w, e)))
        λ md (w, e). detail_of-IsOfTopic name w md e (lookup name md) refl
