-- ===== src/Admin/Safety.antt =====
-- What each operation on topics asks of the broker, and when.
use kafkascope.Prelude.{ℤ, pos, String, Bool, true, false, not, List, [], ◌∷◌, map}
use kafkascope.Prelude.{length, All, contains, int_eq, ltb_ℤ, leb_ℤ, ◌≤ℤ◌, ◌<ℤ◌, ◌≡◌, refl, arith}
use kafkascope.Prelude.{◌≢◌, string_eq}
use kafkascope.Prelude.Text.{strip, truthy, all_chars, has_prefix}
use kafkascope.Prelude.Dict.{Dict, keys, has_key}
use kafkascope.Failure.{ok}
use kafkascope.Config.{name_char}
use kafkascope.Kafka.{Kafka, TopicPartition, TopicMetadata, Request}
use kafkascope.Kafka.{alter_configs, delete_records, create_partitions}
use kafkascope.Kafka.{create_topic as new_topic, delete_topic as remove_topic}
use kafkascope.Kafka.Program.Rules.{
  Silent, Sends, Silent-pure, Silent-ask, Silent-refuse_if, Silent-bind,
}
use kafkascope.Kafka.Program.Rules.{Silent-traverse-All, Sends-request, Sends-bind, Sends-then}
use kafkascope.Client.{Context, is_readonly}
use kafkascope.Client.Laws.{Silent-require_writable}
use kafkascope.Groups.{none_of}
use kafkascope.Groups.Empty.{Marks, Silent-watermarks}
use kafkascope.Groups.Choice.{Listed, Silent-topic_metadata, self}
use kafkascope.Admin.{entry, end_of, topic_exists_in, submit, create_topic, delete_topic}
use kafkascope.Admin.{add_partitions, update_config, purge_topic}

module _ (K : Kafka) where
  -- The broker listed its topics, and the name is (or is not) among them.
  abbrev pub Exists : String → Bool → Type 0
  Exists name b =
      (w : K.World) × (topics : Dict String TopicMetadata) × ((K.list_topics w).0 ≡ ok topics)
      × (has_key name topics ≡ b)

  abbrev pub IsCreate : Context → String → ℤ → ℤ → Dict String String → Request → Type 0
  IsCreate x raw partitions replicas config (new_topic name n r c) =
      (is_readonly x ≡ ok false)
      × (name ≡ strip raw)
      × (truthy name ≡ true)
      × (all_chars name_char name ≡ true)
      × (n ≡ partitions)
      × (pos 1 ≤ℤ n)
      × (r ≡ replicas)
      × (pos 1 ≤ℤ r)
      × (c ≡ config)
      × Exists name false
  IsCreate x raw partitions replicas config r = ⊥

  abbrev pub IsDelete : Context → String → Request → Type 0
  IsDelete x name (remove_topic n) =
      (is_readonly x ≡ ok false) × (n ≡ name) × (has_prefix "__" n ≡ false) × Exists n true
  IsDelete x name r = ⊥

  abbrev pub IsGrowth : Context → String → ℤ → Request → Type 0
  IsGrowth x name total (create_partitions n t) =
      (is_readonly x ≡ ok false)
      × (n ≡ name)
      × (t ≡ total)
      × (m : TopicMetadata) × Listed K n m
      × (pos (length m.partitions) <ℤ t)
  IsGrowth x name total r = ⊥

  abbrev pub IsUpdate : Context → String → Dict String String → Request → Type 0
  IsUpdate x name changes (alter_configs n entries) =
      (is_readonly x ≡ ok false)
      × (n ≡ name)
      × (changes ≢ [])
      × (entries ≡ map entry changes)
      × Exists n true
  IsUpdate x name changes r = ⊥

  -- Up to the end that the broker reported, on a partition of the topic.
  abbrev pub AtEnd : String → TopicMetadata → TopicPartition → Type 0
  AtEnd name m tp =
      (tp.topic ≡ name)
      × (contains (keys m.partitions) tp.partition ≡ true)
      × (low : ℤ) × Marks K name tp.partition (low, tp.offset)

  abbrev pub IsPurge : Context → String → Request → Type 0
  IsPurge x name (delete_records targets) =
      (is_readonly x ≡ ok false)
      × (has_prefix "__" name ≡ false)
      × (m : TopicMetadata) × Listed K name m
      × All (AtEnd name m) targets
  IsPurge x name r = ⊥

  Silent-topic_exists_in : (name : String) → Silent (topic_exists_in K name) (Exists name)
  unfolding topic_exists_in
  Silent-topic_exists_in name =
      Silent-bind
        (Silent-ask {Q = λ ts. (w : K.World) × ((K.list_topics w).0 ≡ ok ts)} K.list_topics
          (λ w ts e. (w, e)))
        λ topics (w, e). Silent-pure _ (w, topics, e, refl)

  Sends-submit : {P : Request → Type 0} (r : Request) → P r → Sends (submit K r) P
  Sends-submit r p = Sends-then (Sends-request r p) λ result. Silent-pure {Q = λ _. Unit {0}} tt tt

  Exists-not : (name : String) (b : Bool) → Exists name b → not b ≡ false → Exists name true
  Exists-not name true e h = e
  Exists-not name false e h = cc

  Exists-absent : (name : String) (b : Bool) → Exists name b → b ≡ false → Exists name false
  Exists-absent name true e h = cc
  Exists-absent name false e h = e

  -- A creation either raises, having asked the broker for nothing, or asks for one topic: the name
  -- is stripped, not empty and of the characters that Kafka takes, the broker did not list it, there
  -- is at least one partition and one replica, and the configuration is the one that was given. The
  -- switch is open then.
  pub create_topic-Sends :
      (x : Context) (raw : String) (n r : ℤ) (config : Dict String String)
      → Sends (create_topic K x raw n r config) (IsCreate x raw n r config)
  unfolding create_topic
  create_topic-Sends x raw n r config = Sends-bind (Silent-require_writable x) λ u open_.
      Sends-bind (Silent-refuse_if (not (truthy (strip raw))) _) λ u named.
        Sends-bind (Silent-refuse_if (not (all_chars name_char (strip raw))) _) λ u legal.
          Sends-bind (Silent-refuse_if (ltb_ℤ n (pos 1)) _) λ u partitions.
            Sends-bind (Silent-refuse_if (ltb_ℤ r (pos 1)) _) λ u replicas.
              Sends-bind (Silent-topic_exists_in (strip raw)) λ b listed.
                Sends-bind (Silent-refuse_if b _) λ u absent. Sends-submit _ (
                  open_,
                  refl,
                  ground arith,
                  ground arith,
                  refl,
                  ground arith,
                  refl,
                  ground arith,
                  refl,
                  Exists-absent (strip raw) b listed absent,
                )

  -- A deletion either raises, having asked the broker for nothing, or asks for the deletion of that
  -- topic, which the broker listed and which is not internal, while the switch is open.
  pub delete_topic-Sends :
      (x : Context) (name : String) → Sends (delete_topic K x name) (IsDelete x name)
  unfolding delete_topic
  delete_topic-Sends x name = Sends-bind (Silent-require_writable x) λ u open_.
      Sends-bind (Silent-refuse_if (has_prefix "__" name) _) λ u ordinary.
        Sends-bind (Silent-topic_exists_in name) λ b listed.
          Sends-bind (Silent-refuse_if (not b) _)
            λ u present. Sends-submit _ (open_, refl, ordinary, Exists-not name b listed present)

  -- A growth either raises, having asked the broker for nothing, or asks for the given number of
  -- partitions, which is more than the broker listed for the topic, while the switch is open.
  pub add_partitions-Sends :
      (x : Context) (name : String) (total : ℤ)
      → Sends (add_partitions K x name total) (IsGrowth x name total)
  unfolding add_partitions
  add_partitions-Sends x name total = Sends-bind (Silent-require_writable x) λ u open_.
      Sends-bind (Silent-topic_metadata K name) λ m listed.
        Sends-bind (Silent-refuse_if (leb_ℤ total (pos (length m.partitions))) _)
          λ u more. Sends-submit _ (open_, refl, refl, m, listed, ground arith)

  some_changes : (changes : Dict String String) → none_of changes ≡ false → changes ≢ []
  some_changes [] h = cc
  some_changes (c ∷ cs) h = λ e. cc

  -- An update either raises, having asked the broker for nothing, or asks for exactly the changes
  -- given, of which there is at least one, on a topic that the broker listed, while the switch is
  -- open; an empty value deletes the override.
  pub update_config-Sends :
      (x : Context) (name : String) (changes : Dict String String)
      → Sends (update_config K x name changes) (IsUpdate x name changes)
  unfolding update_config
  update_config-Sends x name changes = Sends-bind (Silent-require_writable x) λ u open_.
      Sends-bind (Silent-refuse_if (none_of changes) _) λ u some_.
        Sends-bind (Silent-topic_exists_in name) λ b listed.
          Sends-bind (Silent-refuse_if (not b) _) λ u present.
            Sends-submit _
              (open_, refl, some_changes changes some_, refl, Exists-not name b listed present)

  All-ends :
      (name : String) (m : TopicMetadata) (marks : List (ℤ × ℤ × ℤ))
      → All (λ t. AtEnd name m (end_of name t)) marks
      → All (AtEnd name m) (map (end_of name) marks)
  All-ends name m [] h = tt
  All-ends name m (t ∷ ts) (h, hs) = (h, All-ends name m ts hs)

  -- A purge either raises, having asked the broker for nothing, or asks to delete records of that
  -- topic, which is not internal, on partitions that the broker listed, each up to the high
  -- watermark that the broker reported, while the switch is open.
  pub purge_topic-Sends :
      (x : Context) (name : String) → Sends (purge_topic K x name) (IsPurge x name)
  unfolding purge_topic
  purge_topic-Sends x name = Sends-bind (Silent-require_writable x) λ u open_.
      Sends-bind (Silent-refuse_if (has_prefix "__" name) _) λ u ordinary.
        Sends-bind (Silent-topic_metadata K name) λ m listed.
          Sends-bind
            (Silent-traverse-All {R = λ t. AtEnd name m (end_of name t)}
              (λ p known.
                Silent-bind (Silent-watermarks K name p)
                  λ marks k. Silent-pure _ (refl, known, marks.0, k))
              (keys m.partitions) (self K (keys m.partitions)))
            λ marks ends.
              Sends-then (Sends-request _ (open_, ordinary, m, listed, All-ends name m marks ends))
                λ result. Silent-pure {Q = λ _. Unit {0}} _ tt
