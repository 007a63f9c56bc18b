-- ===== src/Groups/Targets.antt =====
-- `_resolve_targets`: it changes nothing, and what it returns.
use kafkascope.Groups.Choice.{Chosen}
use kafkascope.Prelude.Lists.{IsMember, All-IsMember}
use kafkascope.Prelude.{map, ◌<ℤ◌}
use kafkascope.Prelude.{ℤ, pos, String, not, Option, none, some, List, []}
use kafkascope.Prelude.{◌∷◌, All, string_eq, int_eq, ltb_ℤ, leb_ℤ, ◌≤ℤ◌, ◌≡◌, refl}
use kafkascope.Prelude.{◌⊎◌, inl, inr, arith, ◌&&◌}
use kafkascope.Failure.{ok}
use kafkascope.Kafka.{Kafka, TopicPartition, TopicMetadata}
use kafkascope.Kafka.Program.Rules.{Silent, Silent-pure, Silent-raise, Silent-ask}
use kafkascope.Kafka.Program.Rules.{Silent-if, Silent-refuse_if, Silent-bind}
use kafkascope.Kafka.Program.Rules.{Silent-traverse-All}
use kafkascope.Groups.{ResetTarget, earliest, latest, timestamp, offset}
use kafkascope.Groups.{park, at}
use kafkascope.Groups.{timestamp_targets, offset_targets, offset_in_range, mark_targets}
use kafkascope.Groups.{resolve_targets}
use kafkascope.Groups.Empty.{Marks, Silent-watermarks}

module _ (K : Kafka) where
  -- Where the broker puts a time on one of the partitions that it was asked about, every one of
  -- which is to be reset: at the offset that it answered with, or, when that is negative, at the
  -- high watermark of the answered partition.
  abbrev pub AtTime : String → TopicMetadata → Option ℤ → Option ℤ → TopicPartition → Type 0
  AtTime topic m partition t tp =
      (ms : ℤ) × (t ≡ some ms)
      × (ps : List ℤ) × All (Chosen K m partition) ps
      × (w : K.World) × (resolved : List TopicPartition) × ((K.offsets_for_times
            (map (λ p. at topic p ms) ps) w).0
          ≡ ok resolved)
      × (answer : TopicPartition) × IsMember resolved answer
      × (((tp ≡ answer) × (pos 0 ≤ℤ tp.offset))
          ⊎ ((answer.offset <ℤ pos 0)
              × (tp.topic ≡ answer.topic)
              × (tp.partition ≡ answer.partition)
              × (low : ℤ) × Marks K topic answer.partition (low, tp.offset)))

  -- Where a target may move a partition.
  abbrev pub Allowed :
      String
      → TopicMetadata
      → Option ℤ
      → ResetTarget
      → Option ℤ
      → Option ℤ
      → TopicPartition
      → Type 0
  Allowed topic m partition earliest t o tp =
      (tp.topic ≡ topic)
      × Chosen K m partition tp.partition
      × (high : ℤ) × Marks K topic tp.partition (tp.offset, high)
  Allowed topic m partition latest t o tp =
      (tp.topic ≡ topic)
      × Chosen K m partition tp.partition
      × (low : ℤ) × Marks K topic tp.partition (low, tp.offset)
  Allowed topic m partition offset t o tp =
      (tp.topic ≡ topic)
      × Chosen K m partition tp.partition
      × (o ≡ some tp.offset)
      × (marks : ℤ × ℤ) × Marks K topic tp.partition marks
      × (marks.0 ≤ℤ tp.offset)
      × (tp.offset ≤ℤ marks.1)
  Allowed topic m partition timestamp t o tp = AtTime topic m partition t tp

  Silent-park :
      (topic : String) (m : TopicMetadata) (partition : Option ℤ) (ms : ℤ) (ps : List ℤ)
      (w : K.World) (resolved : List TopicPartition)
      → All (Chosen K m partition) ps
      → (K.offsets_for_times (map (λ p. at topic p ms) ps) w).0 ≡ ok resolved
      → (tp : TopicPartition) → IsMember resolved tp
      → Silent (park K topic tp) (AtTime topic m partition (some ms))
  Silent-park topic m partition ms ps w resolved hs e tp here =
      Silent-if (ltb_ℤ tp.offset (pos 0))
        (λ past. Silent-bind (Silent-watermarks K topic tp.partition) λ marks h.
          Silent-pure _ (
            ms,
            refl,
            ps,
            hs,
            w,
            resolved,
            e,
            tp,
            here,
            inr (ground arith, refl, refl, marks.0, h),
          ))
        (λ within.
          Silent-pure tp (ms, refl, ps, hs, w, resolved, e, tp, here, inl (refl, ground arith)))

  Silent-mark :
      (topic : String) (m : TopicMetadata) (partition t o : Option ℤ) (target : ResetTarget)
      (index : ℤ × ℤ → ℤ)
      → ((p : ℤ) (marks : ℤ × ℤ)
          → Chosen K m partition p
          → Marks K topic p marks
          → Allowed topic m partition target t o (at topic p (index marks)))
      → (ps : List ℤ) → All (Chosen K m partition) ps
      → Silent (mark_targets K topic ps index) (All (Allowed topic m partition target t o))
  Silent-mark topic m partition t o target index allowed ps hs =
      Silent-traverse-All
        (λ p h.
          Silent-bind (Silent-watermarks K topic p) λ marks k. Silent-pure _ (allowed p marks h k))
        ps hs

  Silent-offset_in_range :
      (topic : String) (m : TopicMetadata) (partition t : Option ℤ) (p o : ℤ) (marks : ℤ × ℤ)
      → Chosen K m partition p
      → Marks K topic p marks
      → Silent
          (offset_in_range K topic p o marks)
          (All (Allowed topic m partition offset t (some o)))
  Silent-offset_in_range topic m partition t p o marks h k =
      Silent-bind (Silent-refuse_if (not (leb_ℤ marks.0 o && leb_ℤ o marks.1)) _)
        λ u inside. Silent-pure _ ((refl, h, refl, marks, k, ground arith, ground arith), tt)

  Silent-offset_targets :
      (topic : String) (m : TopicMetadata) (partition t o : Option ℤ) (ps : List ℤ)
      → All (Chosen K m partition) ps
      → Silent (offset_targets K topic ps o) (All (Allowed topic m partition offset t o))
  Silent-offset_targets topic m partition t none ps h = Silent-raise _
  Silent-offset_targets topic m partition t (some o) [] h = Silent-raise _
  Silent-offset_targets topic m partition t (some o) (p ∷ []) (h, hs) =
      Silent-bind (Silent-watermarks K topic p)
        λ marks k. Silent-offset_in_range topic m partition t p o marks h k
  Silent-offset_targets topic m partition t (some o) (p ∷ q ∷ ps) h = Silent-raise _

  Silent-timestamp_targets :
      (topic : String) (m : TopicMetadata) (partition t : Option ℤ) (ps : List ℤ)
      → All (Chosen K m partition) ps
      → Silent (timestamp_targets K topic ps t) (All (AtTime topic m partition t))
  Silent-timestamp_targets topic m partition none ps hs = Silent-raise _
  Silent-timestamp_targets topic m partition (some t) ps hs =
      Silent-bind
        (Silent-ask
          {Q = λ resolved.
            (w : K.World) × ((K.offsets_for_times (map (λ p. at topic p t) ps) w).0 ≡ ok resolved)}
          _ (λ w a e. (w, e)))
        λ resolved (w, e).
          Silent-traverse-All (Silent-park topic m partition t ps w resolved hs e) resolved
            (All-IsMember resolved)

  pub Silent-resolve_targets :
      (topic : String) (m : TopicMetadata) (partition : Option ℤ) (target : ResetTarget)
      (t o : Option ℤ) (ps : List ℤ)
      → All (Chosen K m partition) ps
      → Silent (resolve_targets K topic ps target t o) (All (Allowed topic m partition target t o))
  unfolding resolve_targets
  Silent-resolve_targets topic m partition earliest t o ps h =
      Silent-mark topic m partition t o earliest (λ m. m.0) (λ p marks c k. (refl, c, marks.1, k))
        ps h
  Silent-resolve_targets topic m partition latest t o ps h =
      Silent-mark topic m partition t o latest (λ m. m.1) (λ p marks c k. (refl, c, marks.0, k)) ps
        h
  Silent-resolve_targets topic m partition timestamp t o ps h =
      Silent-timestamp_targets topic m partition t ps h
  Silent-resolve_targets topic m partition offset t o ps h =
      Silent-offset_targets topic m partition t o ps h
