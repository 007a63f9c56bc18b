-- ===== src/Cluster.antt =====
-- app/services/cluster.py: the overview of a cluster, and one topic. All of it only reads.
pub mod Summaries
pub mod Laws
pub mod Count
mod Tests
use kafkascope.Prelude.{ℕ, ℤ, pos, String, Bool, true, false, ◌&&◌, ◌||◌, not, Option, none, some}
use kafkascope.Prelude.{List, [], ◌∷◌, map, any, length, max, ltb, ltb_ℤ, ◌+ℤ◌, ◌-ℤ◌, ◌==◌}
use kafkascope.Prelude.{string_eq, int_eq, if◌then◌else◌}
use kafkascope.Prelude.Sort.{sort_by, ltb_string}
use kafkascope.Prelude.Text.{has_prefix}
use kafkascope.Prelude.Dict.{Dict, lookup, keys, values}
use kafkascope.Kafka.{Kafka, BrokerMetadata, PartitionMetadata, TopicMetadata, ConfigEntry}
use kafkascope.Kafka.Program.{Program, pure, ask, traverse, ◌>>=◌}
use kafkascope.Groups.{healthy}
use kafkascope.Groups as Groups

pub record Broker : Type 0 where
  pub id : ℤ
  pub host : String
  pub port : ℤ
  pub is_controller : Bool

pub record PartitionInfo : Type 0 where
  pub id : ℤ
  pub leader : ℤ
  pub replicas : List ℤ
  pub isrs : List ℤ
  pub low : ℤ
  pub high : ℤ

pub record TopicSummary : Type 0 where
  pub name : String
  pub partition_count : ℕ
  pub replication_factor : ℕ
  pub under_replicated : Bool
  pub internal : Bool

pub record TopicDetail : Type 0 where
  pub name : String
  pub partitions : List PartitionInfo
  pub config : Dict String String

-- `PartitionInfo.size` and `PartitionInfo.under_replicated`
unfoldable pub size : PartitionInfo → ℤ
size p = p.high -ℤ p.low

unfoldable pub under_replicated : PartitionInfo → Bool
under_replicated p = ltb (length p.isrs) (length p.replicas)

-- `TopicDetail.size`
unfoldable pub total_size : List PartitionInfo → ℤ
unfolding size
total_size [] = pos 0
total_size (p ∷ ps) = size p +ℤ total_size ps

-- `max(xs) if xs else 0`
abbrev pub largest : List ℕ → ℕ
largest [] = 0
largest (n ∷ ns) = max n (largest ns)

abbrev pub lags_behind : PartitionMetadata → Bool
lags_behind p = ltb (length p.isrs) (length p.replicas)

abbrev pub summary : String × TopicMetadata → TopicSummary
summary (name, t) = record {
  name = name;
  partition_count = length t.partitions;
  replication_factor =
      largest (map (λ (p : PartitionMetadata). length p.replicas) (values t.partitions));
  under_replicated = any lags_behind (values t.partitions);
  internal = has_prefix "__" name;
}

-- `<` on the keys `(t.internal, t.name)`
abbrev pub listed_before : TopicSummary → TopicSummary → Bool
listed_before a b =
    not a.internal && b.internal
    || (not a.internal || b.internal) && (a.internal || not b.internal) && ltb_string a.name b.name

abbrev pub broker_before : BrokerMetadata → BrokerMetadata → Bool
broker_before a b = ltb_ℤ a.id b.id

abbrev pub broker_of : ℤ → BrokerMetadata → Broker
broker_of controller b = record {
  id = b.id;
  host = b.host;
  port = b.port;
  is_controller = b.id == controller;
}

abbrev pub sum_marks : List (ℤ × ℤ) → ℤ
sum_marks [] = pos 0
sum_marks ((low, high) ∷ ms) = (high -ℤ low) +ℤ sum_marks ms

abbrev pub partition_info : ℤ × PartitionMetadata × ℤ × ℤ → PartitionInfo
partition_info (p, m, low, high) = record {
  id = p;
  leader = m.leader;
  replicas = m.replicas;
  isrs = m.isrs;
  low = low;
  high = high;
}

-- `<` on a partition's id, and on a configuration's key
abbrev pub id_before : ℤ × PartitionMetadata × ℤ × ℤ → ℤ × PartitionMetadata × ℤ × ℤ → Bool
id_before a b = ltb_ℤ a.0 b.0

abbrev pub key_before : String × ConfigEntry → String × ConfigEntry → Bool
key_before a b = ltb_string a.0 b.0

-- `{k: v.value … if not v.is_default}`
abbrev pub overrides : Dict String ConfigEntry → Dict String String
overrides [] = []
overrides ((k, v) ∷ es) =
    let rest = overrides es in if v.is_default then rest else (k, v.value) ∷ rest

module _ (K : Kafka) where
  unfoldable pub get_brokers : Program K (List Broker × ℤ)
  unfolding values
  get_brokers = ask K.list_brokers >>= λ md.
      pure (map (broker_of md.1) (sort_by broker_before (values md.0)), md.1)

  unfoldable pub list_topics : Program K (List TopicSummary)
  list_topics = ask K.list_topics >>= λ md. pure (sort_by listed_before (map summary md))

  -- `watermarks(name, partitions)`, whose keys are the partitions
  abbrev pub marks_of : String → List ℤ → Program K (List (ℤ × ℤ))
  marks_of name ps = traverse (λ p. Groups.watermarks K name p) ps

  abbrev pub count_of : String → Option TopicMetadata → Program K (Option ℤ)
  count_of name none = pure none
  count_of name (some t) =
      marks_of name (keys t.partitions) >>= λ marks. pure (some (sum_marks marks))

  unfoldable pub topic_message_count : String → Program K (Option ℤ)
  topic_message_count name = ask K.list_topics >>= λ md. count_of name (healthy (lookup name md))

  -- What the broker says of a partition, with the watermarks that were read for it. The metadata of a
  -- partition carries the id that it stands under.
  abbrev pub read_partition :
      String → ℤ × PartitionMetadata → Program K (ℤ × PartitionMetadata × ℤ × ℤ)
  read_partition name (p, m) = Groups.watermarks K name p >>= λ marks. pure (p, m, marks.0, marks.1)

  -- `_topic_config`
  unfoldable pub topic_config : String → Program K (Dict String String)
  topic_config name =
      ask (K.describe_configs name) >>= λ es. pure (overrides (sort_by key_before es))

  abbrev pub detail_of : String → Option TopicMetadata → Program K (Option TopicDetail)
  detail_of name none = pure none
  detail_of name (some t) = traverse (read_partition name) t.partitions >>= λ ps.
      topic_config name >>= λ config. pure (
        some (record {
          name = name;
          partitions = map partition_info (sort_by id_before ps);
          config = config;
        }))

  unfoldable pub get_topic : String → Program K (Option TopicDetail)
  get_topic name = ask K.list_topics >>= λ md. detail_of name (healthy (lookup name md))
