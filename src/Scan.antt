-- ===== src/Scan.antt =====
-- app/services/messages.py: where a scan and a tail begin (`_plan`, `_tail_assignments`). `Record`
-- has the decoding of a record, `Loop` the two streams.
pub mod Starts
pub mod Laws
pub mod Record
pub mod Loop
pub mod Stream
mod Tests
use kafkascope.Prelude.{
  ℕ, zero, suc, ℤ, pos, negsuc, ◌/◌, String, Bool, true, false, Option, none, some,
}
use kafkascope.Prelude.{List, [], ◌∷◌, map, length, ltb_ℤ, max_ℤ, ◌+ℤ◌, ◌-ℤ◌, int_eq, if◌then◌else◌}
use kafkascope.Prelude.Sort.{sort_by}
use kafkascope.Prelude.Dict.{Dict, lookup, insert, keys}
use kafkascope.Failure.{Failure, Result, ok, err, value_error, key_error, other_error, reported}
use kafkascope.Failure.{timestamp_required, partition_not_in_topic, or_raise}
use kafkascope.Kafka.{Kafka, TopicPartition, TopicMetadata, PartitionMetadata}
use kafkascope.Kafka.Program.{Program, pure, raise, lift, ask, traverse, ◌>>=◌, ◌>>◌}
use kafkascope.Groups.{at, topic_metadata, chosen, watermarks}
use kafkascope.Filter.{ScanSpec, StartMode, latest, earliest, timestamp}

-- `a // n` for a length; a division by zero raises.
abbrev pub floor_div : ℤ → ℕ → Result ℤ
floor_div a zero = err (other_error (reported "ZeroDivisionError"))
floor_div (pos a) (suc n) = ok (pos (a / suc n))
floor_div (negsuc a) (suc n) = ok (negsuc (a / suc n))

abbrev pub Watermarks : Type 0
Watermarks = Dict ℤ (ℤ × ℤ)

abbrev pub mark_at : ℤ → Watermarks → Result (ℤ × ℤ)
mark_at p marks = or_raise (lookup p marks) (key_error (reported "marks"))

-- `{p: marks[p][1] for p in partitions}`
abbrev pub highs : Watermarks → Dict ℤ ℤ
highs [] = []
highs ((p, (low, high)) ∷ ms) = (p, high) ∷ highs ms

abbrev pub low_starts : Watermarks → Dict ℤ ℤ
low_starts [] = []
low_starts ((p, (low, high)) ∷ ms) = (p, low) ∷ low_starts ms

abbrev pub tail_starts : ℤ → Watermarks → Dict ℤ ℤ
tail_starts per [] = []
tail_starts per ((p, (low, high)) ∷ ms) = (p, max_ℤ low (high -ℤ per)) ∷ tail_starts per ms

-- `sum(max(0, ends[p] - starts[p]) for p in partitions)`
abbrev pub window_total : List (ℤ × ℤ) → ℤ
window_total [] = pos 0
window_total ((end, start) ∷ ws) = max_ℤ (pos 0) (end -ℤ start) +ℤ window_total ws

pub record Plan : Type 0 where
  pub assignments : List TopicPartition
  pub ends : Dict ℤ ℤ
  pub total : ℤ

module _ (K : Kafka) where
  -- The partitions that the specification asks for.
  abbrev pub partitions_of : ScanSpec → Program K (List ℤ)
  partitions_of s = topic_metadata K s.topic >>= λ m.
      chosen K s.topic s.partition (sort_by ltb_ℤ (keys m.partitions))

  abbrev pub read_marks : String → List ℤ → Program K Watermarks
  read_marks topic ps = traverse (λ p. watermarks K topic p >>= λ marks. pure (p, marks)) ps

  -- Nothing at or after the time: the end.
  abbrev pub start_at : Watermarks → TopicPartition → Program K ℤ
  start_at marks tp =
      if ltb_ℤ tp.offset (pos 0)
      then (lift (mark_at tp.partition marks) >>= λ mark. pure mark.1)
      else pure tp.offset

  abbrev pub time_starts : Watermarks → List TopicPartition → Dict ℤ ℤ → Program K (Dict ℤ ℤ)
  time_starts marks [] starts = pure starts
  time_starts marks (tp ∷ tps) starts =
      start_at marks tp >>= λ o. time_starts marks tps (insert tp.partition o starts)

  abbrev pub from_time : ScanSpec → List ℤ → Watermarks → Option ℤ → Program K (Dict ℤ ℤ)
  from_time s ps marks none = raise (value_error timestamp_required)
  from_time s ps marks (some t) =
      ask (K.offsets_for_times (map (λ p. at s.topic p t) ps)) >>= λ resolved.
      time_starts marks resolved []

  abbrev pub starts_of : ScanSpec → List ℤ → Watermarks → StartMode → Program K (Dict ℤ ℤ)
  starts_of s ps marks timestamp = from_time s ps marks s.timestamp_ms
  starts_of s ps marks earliest = pure (low_starts marks)
  starts_of s ps marks latest =
      lift (floor_div s.lookback (length ps)) >>= λ n. pure (tail_starts (max_ℤ (pos 1) n) marks)

  abbrev pub start_of : Dict ℤ ℤ → ℤ → Program K ℤ
  start_of starts p = lift (or_raise (lookup p starts) (key_error (reported "starts")))

  abbrev pub widths : Watermarks → Dict ℤ ℤ → List ℤ → Program K (List (ℤ × ℤ))
  widths marks starts ps =
      traverse (λ p. lift (mark_at p marks) >>= λ mark. start_of starts p >>= λ o. pure (mark.1, o))
        ps

  abbrev pub assign : String → Dict ℤ ℤ → List ℤ → Program K (List TopicPartition)
  assign topic starts ps = traverse (λ p. start_of starts p >>= λ o. pure (at topic p o)) ps

  -- `_plan`
  unfoldable pub plan : ScanSpec → Program K Plan
  plan s = partitions_of s >>= λ ps. read_marks s.topic ps >>= λ marks.
      starts_of s ps marks s.start >>= λ starts. widths marks starts ps >>= λ ws.
      assign s.topic starts ps >>= λ tps.
      pure (record { assignments = tps; ends = highs marks; total = window_total ws })

  -- `_tail_assignments`
  unfoldable pub tail_assignments : ScanSpec → Program K (List TopicPartition)
  tail_assignments s = partitions_of s >>= λ ps.
      traverse (λ p. watermarks K s.topic p >>= λ marks. pure (at s.topic p marks.1)) ps
