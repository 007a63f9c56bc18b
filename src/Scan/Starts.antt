-- ===== src/Scan/Starts.antt =====
-- Where a scan begins on each of the partitions that it chose.
use kafkascope.Prelude.{ℤ, pos, String, Bool, true, false, Option, none, some}
use kafkascope.Prelude.{List, [], ◌∷◌, All, int_eq, max_ℤ, ◌+ℤ◌, ◌-ℤ◌, ◌≤ℤ◌, ◌≡◌, refl}
use kafkascope.Prelude.{length, +ℤ_parts, -ℤ_parts, arith, ◌⊎◌, inl, inr}
use kafkascope.Prelude.Dict.{Dict, insert, AllEntries, AllEntries-insert, AllEntries-lookup}
use kafkascope.Failure.{ok, or_raise-eq-ok}
use kafkascope.Kafka.{Kafka, TopicPartition, TopicMetadata}
use kafkascope.Kafka.Program.Rules.{Silent, Silent-pure, Silent-raise, Silent-lift, Silent-ask}
use kafkascope.Kafka.Program.Rules.{
  Silent-bind, Silent-traverse, Silent-weaken, Silent-both, Silent-if,
}
use kafkascope.Groups.{at}
use kafkascope.Groups.Empty.{Marks, Silent-watermarks}
use kafkascope.Groups.Choice.{Listed, Chosen, Silent-topic_metadata, Silent-chosen, share}
use kafkascope.Groups.Choice.{Silent-chosen-length}
use kafkascope.Prelude.Lists.{IsMember, All-IsMember}
use kafkascope.Prelude.{map, ltb_ℤ, ◌<ℤ◌, subst}
use kafkascope.Filter.{ScanSpec, StartMode, latest, earliest, timestamp}
use kafkascope.Scan.{Watermarks, partitions_of, floor_div, mark_at}
use kafkascope.Scan.{
  low_starts, tail_starts, read_marks, start_at, time_starts, from_time, starts_of,
}
use kafkascope.Scan.{start_of}

max_left : (a b : ℤ) → a ≤ℤ max_ℤ a b
max_left a b = ground arith

max_right : (low high per : ℤ) → high ≤ℤ max_ℤ low (high -ℤ per) +ℤ per
max_right low high per = ground (arith, +ℤ_parts (max_ℤ low (high -ℤ per)) per, -ℤ_parts high per)

max_one :
    (low high per : ℤ) → (max_ℤ low (high -ℤ per) ≤ℤ low) ⊎ (max_ℤ low (high -ℤ per) +ℤ per ≤ℤ high)
max_one low high per = by_test (ltb_ℤ low (high -ℤ per)) refl
  where
    by_test :
        (b : Bool)
        → ltb_ℤ low (high -ℤ per) ≡ b
        → (max_ℤ low (high -ℤ per) ≤ℤ low) ⊎ (max_ℤ low (high -ℤ per) +ℤ per ≤ℤ high)
    by_test true e = inr (ground (arith, +ℤ_parts (max_ℤ low (high -ℤ per)) per, -ℤ_parts high per))
    by_test false e = inl (ground arith)

module _ (K : Kafka) where
  -- The partitions of a listed topic that were asked for, as many as there are.
  abbrev pub AreChosen : ScanSpec → TopicMetadata → List ℤ → Type 0
  AreChosen s m ps = All (Chosen K m s.partition) ps × (length ps ≡ share K m s.partition)

  pub Silent-partitions_of :
      (s : ScanSpec)
      → Silent
          (partitions_of K s)
          (λ ps. (m : TopicMetadata) × Listed K s.topic m × AreChosen s m ps)
  Silent-partitions_of s = Silent-bind (Silent-topic_metadata K s.topic) λ m listed.
      Silent-weaken
        (Silent-both (Silent-chosen K s.topic m s.partition)
          (Silent-chosen-length K s.topic m s.partition))
        λ ps hs. (m, listed, hs)

  -- The share of the lookback that each of the chosen partitions gets, at least one record.
  abbrev pub IsShare : ScanSpec → TopicMetadata → ℤ → Type 0
  IsShare s m per =
      (n : ℤ) × (floor_div s.lookback (share K m s.partition) ≡ ok n) × (per ≡ max_ℤ (pos 1) n)

  -- What the broker answered for a time on the chosen partitions, or the end where that is negative.
  abbrev pub IsAtTime : ScanSpec → TopicMetadata → ℤ → ℤ → Type 0
  IsAtTime s m p o =
      (ms : ℤ) × (s.timestamp_ms ≡ some ms)
      × (ps : List ℤ) × AreChosen s m ps
      × (w : K.World) × (resolved : List TopicPartition) × ((K.offsets_for_times
            (map (λ p. at s.topic p ms) ps) w).0
          ≡ ok resolved)
      × (answer : TopicPartition) × IsMember resolved answer
      × (answer.partition ≡ p)
      × (((pos 0 ≤ℤ answer.offset) × (o ≡ answer.offset))
          ⊎ ((answer.offset <ℤ pos 0) × (low : ℤ) × Marks K s.topic p (low, o)))

  -- Where a scan begins on a partition.
  abbrev pub IsStart : ScanSpec → TopicMetadata → StartMode → ℤ → ℤ → Type 0
  IsStart s m earliest p o = (high : ℤ) × Marks K s.topic p (o, high)
  IsStart s m latest p o =
      (marks : ℤ × ℤ) × Marks K s.topic p marks
      × (per : ℤ) × IsShare s m per
      × (marks.0 ≤ℤ o)
      × (marks.1 ≤ℤ o +ℤ per)
      × ((o ≤ℤ marks.0) ⊎ (o +ℤ per ≤ℤ marks.1))
  IsStart s m timestamp p o = IsAtTime s m p o

  pub Silent-read_marks :
      (topic : String) (ps : List ℤ) → Silent (read_marks K topic ps) (AllEntries (Marks K topic))
  Silent-read_marks topic ps =
      Silent-weaken
        (Silent-traverse {R = λ e. Marks K topic e.0 e.1}
          (λ p. Silent-bind (Silent-watermarks K topic p) λ marks k. Silent-pure _ k) ps)
        (entries topic)
    where
      entries :
          (topic : String) (ms : Watermarks)
          → All (λ e. Marks K topic e.0 e.1) ms
          → AllEntries (Marks K topic) ms
      entries topic [] h = tt
      entries topic ((p, m) ∷ ms) (h, hs) = (h, entries topic ms hs)

  module _ (s : ScanSpec) (m : TopicMetadata) where
    low_starts-IsStart :
        (ms : Watermarks)
        → AllEntries (Marks K s.topic) ms
        → AllEntries (IsStart s m earliest) (low_starts ms)
    low_starts-IsStart [] h = tt
    low_starts-IsStart ((p, (low, high)) ∷ ms) (h, hs) = ((high, h), low_starts-IsStart ms hs)

    tail_starts-IsStart :
        (per : ℤ) (ms : Watermarks)
        → IsShare s m per
        → AllEntries (Marks K s.topic) ms
        → AllEntries (IsStart s m latest) (tail_starts per ms)
    tail_starts-IsStart per [] e h = tt
    tail_starts-IsStart per ((p, (low, high)) ∷ ms) e (h, hs) = (
      (
        (low, high),
        h,
        per,
        e,
        max_left low (high -ℤ per),
        max_right low high per,
        max_one low high per,
      ),
      tail_starts-IsStart per ms e hs,
    )

    module _ (ms : Watermarks) (marked : AllEntries (Marks K s.topic) ms) (t : ℤ) (ps : List ℤ)
        (w : K.World) (resolved : List TopicPartition) (at_time : s.timestamp_ms ≡ some t)
        (chosen_ : AreChosen s m ps)
        (e : (K.offsets_for_times (map (λ p. at s.topic p t) ps) w).0 ≡ ok resolved) where
      Silent-start_at :
          (tp : TopicPartition)
          → IsMember resolved tp
          → Silent (start_at K ms tp) (IsStart s m timestamp tp.partition)
      Silent-start_at tp here =
          Silent-if (ltb_ℤ tp.offset (pos 0))
            (λ past.
              Silent-bind
                (Silent-lift {Q = λ mark. Marks K s.topic tp.partition mark}
                  (mark_at tp.partition ms)
                  λ mark found.
                    AllEntries-lookup (Marks K s.topic) tp.partition mark ms marked
                      (or_raise-eq-ok _ _ found))
                λ mark k. Silent-pure _ (
                  t,
                  at_time,
                  ps,
                  chosen_,
                  w,
                  resolved,
                  e,
                  tp,
                  here,
                  refl,
                  inr (ground arith, mark.0, k),
                ))
            (λ within.
              Silent-pure _
                (t, at_time, ps, chosen_, w, resolved, e, tp, here, refl, inl (ground arith, refl)))

      Silent-time_starts :
          (tps : List TopicPartition) (d : Dict ℤ ℤ)
          → All (IsMember resolved) tps
          → AllEntries (IsStart s m timestamp) d
          → Silent (time_starts K ms tps d) (AllEntries (IsStart s m timestamp))
      Silent-time_starts [] d hs g = Silent-pure d g
      Silent-time_starts (tp ∷ tps) d (h, hs) g = Silent-bind (Silent-start_at tp h) λ o k.
          Silent-time_starts tps (insert tp.partition o d) hs
            (AllEntries-insert (IsStart s m timestamp) tp.partition o d k g)

    pub Silent-starts_of :
        (ps : List ℤ) (ms : Watermarks) (mode : StartMode)
        → AreChosen s m ps
        → AllEntries (Marks K s.topic) ms
        → Silent (starts_of K s ps ms mode) (AllEntries (IsStart s m mode))
    Silent-starts_of ps ms earliest c h = Silent-pure _ (low_starts-IsStart ms h)
    Silent-starts_of ps ms latest c h =
        Silent-bind (Silent-lift {Q = λ n. floor_div s.lookback (length ps) ≡ ok n} _ (λ n e. e))
          λ n e. Silent-pure _ (
            tail_starts-IsStart (max_ℤ (pos 1) n) ms
              (n, subst (λ k. floor_div s.lookback k ≡ ok n) c.1 e, refl) h)
    Silent-starts_of ps ms timestamp c h = by_time s.timestamp_ms refl
      where
        by_time :
            (t : Option ℤ)
            → s.timestamp_ms ≡ t
            → Silent (from_time K s ps ms t) (AllEntries (IsStart s m timestamp))
        by_time none at_time = Silent-raise _
        by_time (some t) at_time =
            Silent-bind
              (Silent-ask
                {Q = λ resolved.
                  (w : K.World) × ((K.offsets_for_times (map (λ p. at s.topic p t) ps) w).0
                    ≡ ok resolved)}
                _ (λ w a e. (w, e)))
              λ resolved (w, e).
                Silent-time_starts ms h t ps w resolved at_time c e resolved []
                  (All-IsMember resolved) tt

    pub Silent-start_of :
        (d : Dict ℤ ℤ) (p : ℤ)
        → AllEntries (IsStart s m s.start) d
        → Silent (start_of K d p) (IsStart s m s.start p)
    Silent-start_of d p h =
        Silent-lift _ λ o e. AllEntries-lookup (IsStart s m s.start) p o d h (or_raise-eq-ok _ _ e)
