-- ===== src/Groups.antt =====
-- app/services/groups.py: what a consumer group looks like, moving its offsets, deleting it.
-- The text that the page shows for the coordinator is not rendered.
pub mod Empty
pub mod Choice
pub mod Targets
pub mod Safety
pub mod Listing
mod Tests
use kafkascope.Prelude.{ℕ, ℤ, pos, negsuc, String, Bool, true, false, ◌&&◌, ◌||◌, not, Option, none}
use kafkascope.Prelude.{some, List, [], ◌∷◌, map, length, contains, ◌==◌, string_eq, int_eq, ltb_ℤ}
use kafkascope.Prelude.{leb_ℤ, ◌+ℤ◌, ◌-ℤ◌, if◌then◌else◌}
use kafkascope.Prelude.Sort.{sort_by, ltb_pair, ltb_string}
use kafkascope.Prelude.Dict.{Dict, lookup, keys}
use kafkascope.Failure.{Failure, Result, ok, err, value_error, lookup_error, runtime_error}
use kafkascope.Failure.{timestamp_required, offset_required, single_partition_only, group_not_found}
use kafkascope.Failure.{offset_out_of_range, group_active, partition_failed, topic_not_found}
use kafkascope.Failure.{partition_not_in_topic}
use kafkascope.Kafka.{Kafka, TopicPartition, TopicMetadata, PartitionMetadata, Description, Member}
use kafkascope.Kafka.{Altered, alter_offsets, delete_group}
use kafkascope.Kafka.Program.{Program, pure, raise, lift, ask, request, ◌>>=◌, ◌>>◌, refuse_if}
use kafkascope.Kafka.Program.{traverse}
use kafkascope.Client.{Context, require_writable}

pub data ResetTarget : Type 0 where
  earliest latest timestamp offset : ResetTarget

pub record PartitionOffset : Type 0 where
  pub topic : String
  pub partition : ℤ
  pub committed : ℤ
  pub low : ℤ
  pub high : ℤ

unfoldable pub has_offset : PartitionOffset → Bool
has_offset o = leb_ℤ (pos 0) o.committed

unfoldable pub lag : PartitionOffset → Option ℤ
lag o = if has_offset o then some (o.high -ℤ o.committed) else none

pub record GroupDetail : Type 0 where
  pub id : String
  pub state : String
  pub is_simple : Bool
  pub coordinator : Option (String × ℤ × ℤ)
  pub members : List Member
  pub offsets : List PartitionOffset

unfoldable pub is_empty : GroupDetail → Bool
is_empty g = g.state == "EMPTY"

abbrev pub lag_or_zero : Option ℤ → ℤ
lag_or_zero none = pos 0
lag_or_zero (some n) = n

-- `sum(o.lag or 0 for o in offsets)`
unfoldable pub total_lag : List PartitionOffset → ℤ
total_lag [] = pos 0
total_lag (o ∷ os) = lag_or_zero (lag o) +ℤ total_lag os

abbrev pub none_of {ℓ} : {A : Type ℓ} → List A → Bool
none_of [] = true
none_of (x ∷ xs) = false

abbrev pub to_option : Result Description → Option Description
to_option (ok d) = some d
to_option (err e) = none

-- `{… for … in …}`: of equal texts one is kept.
abbrev pub distinct : List String → List String
distinct [] = []
distinct (t ∷ ts) = let rest = distinct ts in if contains rest t then rest else t ∷ rest

abbrev pub client_ids : List Member → List String
client_ids ms = sort_by ltb_string (distinct (map (λ (m : Member). m.client_id) ms))

abbrev pub by_place : TopicPartition → TopicPartition → Bool
by_place a b = ltb_pair (a.topic, a.partition) (b.topic, b.partition)

abbrev pub at : String → ℤ → ℤ → TopicPartition
at topic p o = record { topic = topic; partition = p; offset = o }

abbrev pub no_error : Option String → Bool
no_error none = true
no_error (some e) = false

-- `topic_md is None or topic_md.error is not None`
abbrev pub healthy : Option TopicMetadata → Option TopicMetadata
healthy none = none
healthy (some m) = if no_error m.error then some m else none

module _ (K : Kafka) where
  -- The group's description, or `None` where the future fails.
  unfoldable pub describe : String → Program K (Option Description)
  describe g = ask λ w. let r = K.describe_group g w in (ok (to_option r.0), r.1)

  abbrev pub watermarks : String → ℤ → Program K (ℤ × ℤ)
  watermarks topic p = ask (K.get_watermark_offsets topic p)

  abbrev pub partition_offset : TopicPartition → Program K PartitionOffset
  partition_offset tp = watermarks tp.topic tp.partition >>= λ marks. pure (record {
    topic = tp.topic;
    partition = tp.partition;
    committed = tp.offset;
    low = marks.0;
    high = marks.1;
  })

  abbrev pub member_info : Member → Member
  member_info m = record m { assignment = sort_by ltb_pair m.assignment }

  -- The shell that an unknown id gets is `None`.
  abbrev pub detail : String → Description → List PartitionOffset → Option GroupDetail
  detail g d offsets =
      if none_of d.members && (none_of offsets && d.state == "DEAD")
      then none
      else some (record {
        id = g;
        state = d.state;
        is_simple = d.is_simple;
        coordinator = d.coordinator;
        members = map member_info d.members;
        offsets = offsets;
      })

  abbrev pub get_described : String → Option Description → Program K (Option GroupDetail)
  get_described g none = pure none
  get_described g (some d) = ask (K.committed_offsets g) >>= λ committed.
      traverse partition_offset (sort_by by_place committed) >>= λ offsets.
      pure (detail g d offsets)

  unfoldable pub get_group : String → Program K (Option GroupDetail)
  get_group g = describe g >>= λ d. get_described g d

  abbrev pub lag_of : Option GroupDetail → Option ℤ
  lag_of none = none
  lag_of (some g) = some (total_lag g.offsets)

  unfoldable pub group_total_lag : String → Program K (Option ℤ)
  group_total_lag g = get_group g >>= λ d. pure (lag_of d)

  abbrev pub require_empty_detail : String → String → Option GroupDetail → Program K (Unit {0})
  require_empty_detail g action none = raise (lookup_error (group_not_found g))
  require_empty_detail g action (some d) =
      refuse_if (not (is_empty d))
        (value_error (group_active action d.state (length d.members) (client_ids d.members)))

  -- `_require_empty`
  unfoldable pub require_empty : String → String → Program K (Unit {0})
  require_empty g action = get_group g >>= λ d. require_empty_detail g action d

  -- A partition with nothing at or after the time goes to its end.
  abbrev pub park : String → TopicPartition → Program K TopicPartition
  park topic tp =
      if ltb_ℤ tp.offset (pos 0)
      then (watermarks topic tp.partition >>= λ marks. pure (record tp { offset = marks.1 }))
      else pure tp

  abbrev pub timestamp_targets : String → List ℤ → Option ℤ → Program K (List TopicPartition)
  timestamp_targets topic ps none = raise (value_error timestamp_required)
  timestamp_targets topic ps (some t) =
      ask (K.offsets_for_times (map (λ p. at topic p t) ps)) >>= λ resolved.
      traverse (park topic) resolved

  abbrev pub offset_in_range : String → ℤ → ℤ → ℤ × ℤ → Program K (List TopicPartition)
  offset_in_range topic p o marks =
      refuse_if (not (leb_ℤ marks.0 o && leb_ℤ o marks.1))
        (value_error (offset_out_of_range o p marks.0 marks.1))
      >> pure (at topic p o ∷ [])

  abbrev pub offset_targets : String → List ℤ → Option ℤ → Program K (List TopicPartition)
  offset_targets topic ps none = raise (value_error offset_required)
  offset_targets topic (p ∷ []) (some o) =
      watermarks topic p >>= λ marks. offset_in_range topic p o marks
  offset_targets topic [] (some o) = raise (value_error single_partition_only)
  offset_targets topic (p ∷ q ∷ ps) (some o) = raise (value_error single_partition_only)

  -- The partitions are keys, so different, and `marks[p]` is what was read for `p`.
  abbrev pub mark_targets : String → List ℤ → (ℤ × ℤ → ℤ) → Program K (List TopicPartition)
  mark_targets topic ps index =
      traverse (λ p. watermarks topic p >>= λ marks. pure (at topic p (index marks))) ps

  -- `_resolve_targets`
  unfoldable pub resolve_targets :
      String → List ℤ → ResetTarget → Option ℤ → Option ℤ → Program K (List TopicPartition)
  resolve_targets topic ps timestamp t o = timestamp_targets topic ps t
  resolve_targets topic ps offset t o = offset_targets topic ps o
  resolve_targets topic ps earliest t o = mark_targets topic ps (λ m. m.0)
  resolve_targets topic ps latest t o = mark_targets topic ps (λ m. m.1)

  abbrev pub or_not_found : String → Option TopicMetadata → Program K TopicMetadata
  or_not_found topic none = raise (lookup_error (topic_not_found topic))
  or_not_found topic (some m) = pure m

  abbrev pub topic_metadata : String → Program K TopicMetadata
  topic_metadata topic =
      ask K.list_topics >>= λ topics. or_not_found topic (healthy (lookup topic topics))

  abbrev pub chosen : String → Option ℤ → List ℤ → Program K (List ℤ)
  chosen topic none all_partitions = pure all_partitions
  chosen topic (some p) all_partitions =
      refuse_if (not (contains all_partitions p)) (lookup_error (partition_not_in_topic p topic))
      >> pure (p ∷ [])

  abbrev pub applied_or_failed : String → Altered → Option String → Program K PartitionOffset
  applied_or_failed topic a (some e) = raise (runtime_error (partition_failed a.at.partition e))
  applied_or_failed topic a none = watermarks topic a.at.partition >>= λ marks. pure (record {
    topic = a.at.topic;
    partition = a.at.partition;
    committed = a.at.offset;
    low = marks.0;
    high = marks.1;
  })

  abbrev pub applied : String → Altered → Program K PartitionOffset
  applied topic a = applied_or_failed topic a a.error

  abbrev by_partition : PartitionOffset → PartitionOffset → Bool
  by_partition a b = ltb_ℤ a.partition b.partition

  unfoldable pub reset_offsets :
      Context
      → String
      → String
      → Option ℤ
      → ResetTarget
      → Option ℤ
      → Option ℤ
      → Program K (List PartitionOffset)
  reset_offsets x g topic partition target t o =
      require_writable x
      >> (require_empty g "reset offsets"
          >> (topic_metadata topic >>= λ m.
              chosen topic partition (sort_by ltb_ℤ (keys m.partitions)) >>= λ ps.
              resolve_targets topic ps target t o >>= λ targets.
              request (alter_offsets g targets) >>= λ result.
              traverse (applied topic) result >>= λ offsets. pure (sort_by by_partition offsets)))

  unfoldable pub delete : Context → String → Program K (Unit {0})
  delete x g =
      require_writable x
      >> (require_empty g "delete the group" >> (request (delete_group g) >>= λ result. pure tt))
