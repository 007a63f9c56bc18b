-- ===== src/Scan/Laws.antt =====
-- Where a scan and a tail begin.
use kafkascope.Scan.Starts.{IsStart, Silent-partitions_of, Silent-read_marks, Silent-starts_of}
use kafkascope.Scan.Starts.{Silent-start_of}
use kafkascope.Prelude.{ℤ}
use kafkascope.Prelude.{All, int_eq, ◌≡◌, refl}
use kafkascope.Kafka.{Kafka, TopicPartition, TopicMetadata}
use kafkascope.Kafka.Program.Rules.{Silent, Silent-pure, Silent-lift}
use kafkascope.Kafka.Program.Rules.{Silent-bind, Silent-traverse, Silent-traverse-All}
use kafkascope.Groups.{at}
use kafkascope.Groups.Empty.{Marks, Silent-watermarks}
use kafkascope.Groups.Choice.{Listed, Chosen}
use kafkascope.Filter.{ScanSpec}
use kafkascope.Scan.{tail_assignments, plan}

module _ (K : Kafka) where
  -- A partition that was asked for, of a topic that the broker listed, at its reported end.
  abbrev pub AtEnd : ScanSpec → TopicPartition → Type 0
  AtEnd s tp =
      (tp.topic ≡ s.topic)
      × ((m : TopicMetadata) × Listed K s.topic m × Chosen K m s.partition tp.partition)
      × (low : ℤ) × Marks K s.topic tp.partition (low, tp.offset)

  -- Every assignment of a tail is a partition that was asked for, of the listed topic, at the high
  -- watermark that the broker reported, so it replays nothing; to find out changes nothing.
  pub Silent-tail_assignments : (s : ScanSpec) → Silent (tail_assignments K s) (All (AtEnd s))
  unfolding tail_assignments
  Silent-tail_assignments s = Silent-bind (Silent-partitions_of K s) λ ps (m, listed, hs).
      Silent-traverse-All
        (λ p h.
          Silent-bind (Silent-watermarks K s.topic p)
            λ marks k. Silent-pure _ (refl, (m, listed, h), marks.0, k))
        ps hs.0

  -- A partition that was asked for, of a topic that the broker listed, from where a scan begins.
  abbrev pub IsAssignment : ScanSpec → TopicPartition → Type 0
  IsAssignment s tp =
      (tp.topic ≡ s.topic)
      × (m : TopicMetadata) × Listed K s.topic m
      × Chosen K m s.partition tp.partition
      × IsStart K s m s.start tp.partition tp.offset

  -- Every assignment of a scan is a partition that was asked for, of the listed topic. For earliest it
  -- begins at the low watermark that the broker reported. For latest it begins at the low watermark,
  -- or later by a share before the high one: the lookback divided by the number of the chosen
  -- partitions, and at least one record. For a time it begins at the offset that the broker answered
  -- with for that partition, when asked for that time on the chosen ones, or at the high watermark
  -- when that is negative. To find out changes nothing.
  pub Silent-plan : (s : ScanSpec) → Silent (plan K s) (λ r. All (IsAssignment s) r.assignments)
  unfolding plan
  Silent-plan s = Silent-bind (Silent-partitions_of K s) λ ps (m, listed, hs).
      Silent-bind (Silent-read_marks K s.topic ps) λ ms h.
        Silent-bind (Silent-starts_of K s m ps ms s.start hs h) λ starts g.
          Silent-bind
            (Silent-traverse {R = λ _. Unit {0}}
              (λ p.
                Silent-bind (Silent-lift {Q = λ _. Unit {0}} _ (λ m e. tt))
                  λ mark u. Silent-bind (Silent-start_of K s m starts p g) λ o k. Silent-pure _ tt)
              ps)
            λ ws us.
              Silent-bind
                (Silent-traverse-All {R = IsAssignment s}
                  (λ p k.
                    Silent-bind (Silent-start_of K s m starts p g)
                      λ o start. Silent-pure (at s.topic p o) (refl, m, listed, k, start))
                  ps hs.0)
                λ tps assigned. Silent-pure _ assigned
