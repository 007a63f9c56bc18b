-- ===== src/Kafka.antt =====
-- The broker, as the source sees it through `confluent_kafka`: a third-party client, so each of its
-- calls is a parameter. A call may fail, and may find another world than the last call left, since
-- others use the broker too. What the source asks the broker to change is a request, and the
-- session keeps every request that was sent, in order. The schema registry, which messages are
-- produced with, stands behind the same world.
pub mod Program
use kafkascope.Prelude.{ℕ, ℤ, String, Bool, Option, List}
use kafkascope.Prelude.Dict.{Dict}
use kafkascope.Failure.{Failure, Result}
use kafkascope.Json.{Json}

pub record TopicPartition : Type 0 where
  pub topic : String
  pub partition : ℤ
  pub offset : ℤ

-- One topic of `list_topics`: its error, and the sorts of its partitions by id.
pub record PartitionMetadata : Type 0 where
  pub leader : ℤ
  pub replicas : List ℤ
  pub isrs : List ℤ

pub record TopicMetadata : Type 0 where
  pub error : Option String
  pub partitions : Dict ℤ PartitionMetadata

pub record Member : Type 0 where
  pub member_id : String
  pub client_id : String
  pub host : String
  pub assignment : List (String × ℤ)

-- `describe_consumer_groups` of one group; `state` is the name that `_state_name` reads.
pub record Description : Type 0 where
  pub state : String
  pub is_simple : Bool
  pub members : List Member
  pub coordinator : Option (String × ℤ × ℤ)

pub record BrokerMetadata : Type 0 where
  pub id : ℤ
  pub host : String
  pub port : ℤ

pub record ConfigEntry : Type 0 where
  pub value : String
  pub is_default : Bool

-- What a request to the schema registry comes to: the parsed body, an HTTP status with the text that
-- came with it, or an exception.
pub data Reply : Type 0 where
  body : Json → Reply
  http_status : ℕ → String → Reply
  raised : Failure → Reply

-- What the source asks the broker, or the schema registry, to change.
pub data Request : Type 0 where
  alter_offsets : String → List TopicPartition → Request
  delete_group : String → Request
  create_topic : String → ℤ → ℤ → Dict String String → Request
  delete_topic : String → Request
  create_partitions : String → ℤ → Request
  alter_configs : String → List (String × Option String) → Request
  delete_records : List TopicPartition → Request
  produce : String → Option (List ℕ) → Option (List ℕ) → List (String × String) → Option ℤ → Request
  -- at a registry's URL, with its authorisation: a subject, a schema, and its type where it is named
  register_schema : String → String → String → String → Option String → Request

-- A partition of the answer to `alter_consumer_group_offsets`, with its error.
pub record Altered : Type 0 where
  pub at : TopicPartition
  pub error : Option String

pub record Kafka : Type 1 where
  pub World : Type 0
  pub list_topics : World → Result (Dict String TopicMetadata) × World
  pub get_watermark_offsets : String → ℤ → World → Result (ℤ × ℤ) × World
  pub offsets_for_times : List TopicPartition → World → Result (List TopicPartition) × World
  pub describe_group : String → World → Result Description × World
  pub committed_offsets : String → World → Result (List TopicPartition) × World
  -- the request is made, and its future waited for
  pub perform : Request → World → Result (List Altered) × World
  -- the brokers of `list_topics` by id, and the controller's id
  pub list_brokers : World → Result (Dict ℤ BrokerMetadata × ℤ) × World
  pub list_groups : World → Result (List String) × World
  pub describe_configs : String → World → Result (Dict String ConfigEntry) × World
  -- the registry's latest version of a subject, and the post of a new one
  pub get_latest : String → String → String → World → Reply × World
  pub post_schema : Request → World → Reply × World
