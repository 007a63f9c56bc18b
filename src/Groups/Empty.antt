-- ===== src/Groups/Empty.antt =====
-- `get_group` and `_require_empty` change nothing, and pass only for an empty group.
use kafkascope.Prelude.{ℤ, String, Bool, true, false, not, Option, none, some}
use kafkascope.Prelude.{string_eq, int_eq, ◌≡◌, refl}
use kafkascope.Prelude.{sym, ◌∙◌, ap, eq_iff, if◌then◌else◌}
use kafkascope.Failure.{Failure, Result, ok, err}
use kafkascope.Kafka.{Kafka, Description, Member, TopicPartition}
use kafkascope.Kafka.Program.Runs.{Each, Silent-traverse-Each}
use kafkascope.Prelude.{List, [], ◌∷◌, map, ◌⊎◌, inl, inr, ◌&&◌, ◌==◌}
use kafkascope.Prelude.Sort.{sort_by, ltb_pair}
use kafkascope.Prelude.Sort.Laws.{sort_by-perm}
use mathlib.Core.List.{Perm}
use kafkascope.Groups.{PartitionOffset, partition_offset, member_info, by_place, none_of}
use kafkascope.Kafka.Program.Rules.{Silent, Silent-pure, Silent-raise, Silent-ask}
use kafkascope.Kafka.Program.Rules.{Silent-refuse_if, Silent-bind}
use kafkascope.Kafka.Program.Rules.{Silent-weaken}
use kafkascope.Groups.{GroupDetail}
use kafkascope.Groups.{is_empty, describe, watermarks, detail, get_described}
use kafkascope.Groups.{get_group, require_empty_detail, require_empty, to_option}

module _ (K : Kafka) where
  -- The broker described the group as empty.
  abbrev pub DescribedEmpty : String → Type 0
  DescribedEmpty g =
      (w : K.World) × (d : Description) × ((K.describe_group g w).0 ≡ ok d) × (d.state ≡ "EMPTY")

  -- The broker reported these watermarks.
  abbrev pub Marks : String → ℤ → ℤ × ℤ → Type 0
  Marks topic p marks = (w : K.World) × ((K.get_watermark_offsets topic p w).0 ≡ ok marks)

  pub Silent-watermarks : (topic : String) (p : ℤ) → Silent (watermarks K topic p) (Marks topic p)
  Silent-watermarks topic p = Silent-ask (K.get_watermark_offsets topic p) (λ w a e. (w, e))

  -- The broker described the group so, or failed to describe it.
  unfoldable pub Described : String → Option Description → Type 0
  Described g none = (w : K.World) × (x : Failure) × ((K.describe_group g w).0 ≡ err x)
  Described g (some d) = (w : K.World) × ((K.describe_group g w).0 ≡ ok d)

  some-eq : (a b : Description) → ok (some a) ≡ ok (some b) → a ≡ b
  some-eq a b e = cc

  described :
      (g : String) (w : K.World) (r : Result Description) (o : Option Description)
      → (K.describe_group g w).0 ≡ r
      → ok (to_option r) ≡ ok o
      → Described g o
  unfolding Described
  described g w (ok d) none e h = cc
  described g w (err x) none e h = (w, x, e)
  described g w (ok d) (some c) e h = (w, e ∙ ap ok (some-eq d c h))
  described g w (err x) (some c) e h = cc

  pub Silent-describe : (g : String) → Silent (describe K g) (Described g)
  unfolding describe
  Silent-describe g = Silent-ask _ λ w o e. described g w (K.describe_group g w).0 o refl e

  -- A row of the page: a committed offset, with the watermarks that the broker reported.
  abbrev pub IsOffset : TopicPartition → PartitionOffset → Type 0
  IsOffset tp o =
      (o.topic ≡ tp.topic)
      × (o.partition ≡ tp.partition)
      × (o.committed ≡ tp.offset)
      × Marks tp.topic tp.partition (o.low, o.high)

  -- A row for each offset that the broker reported as committed.
  abbrev pub AreOffsets : String → List PartitionOffset → Type 0
  AreOffsets g os =
      (w : K.World) × (committed : List TopicPartition) × ((K.committed_offsets g w).0
        ≡ ok committed)
      × (tps : List TopicPartition) × Perm tps committed
      × Each IsOffset tps os

  -- A member, whose partitions may stand in another order.
  abbrev pub IsSameMember : Member → Member → Type 0
  IsSameMember m n =
      (n.member_id ≡ m.member_id)
      × (n.client_id ≡ m.client_id)
      × (n.host ≡ m.host)
      × Perm n.assignment m.assignment

  -- What is shown of the group: what the broker described, with its committed offsets. Nothing, if
  -- the broker failed to describe it, or described it as dead, without members and offsets.
  unfoldable pub Detailed : String → Option GroupDetail → Type 0
  Detailed g none =
      Described g none
      ⊎ ((w : K.World) × (c : Description) × ((K.describe_group g w).0 ≡ ok c)
          × (c.state ≡ "DEAD")
          × (c.members ≡ [])
          × AreOffsets g [])
  Detailed g (some d) =
      (w : K.World) × (c : Description) × ((K.describe_group g w).0 ≡ ok c)
      × (d.state ≡ c.state)
      × (d.id ≡ g)
      × (d.is_simple ≡ c.is_simple)
      × (d.coordinator ≡ c.coordinator)
      × Each IsSameMember c.members d.members
      × AreOffsets g d.offsets

  Each-member_info : (ms : List Member) → Each IsSameMember ms (map (member_info K) ms)
  Each-member_info [] = tt
  Each-member_info (m ∷ ms) =
      ((refl, refl, refl, sort_by-perm ltb_pair m.assignment), Each-member_info ms)

  shell :
      (g : String) (w : K.World) (c : Description) (os : List PartitionOffset)
      → (K.describe_group g w).0 ≡ ok c
      → AreOffsets g os
      → (ms : List Member) → c.members ≡ ms
      → none_of ms && (none_of os && c.state == "DEAD") ≡ true
      → Detailed g none
  unfolding Detailed
  shell g w c [] e k [] h dead = inr (w, c, e, (eq_iff c.state "DEAD").0 dead, h, k)
  shell g w c (o ∷ os) e k [] h dead = cc
  shell g w c os e k (m ∷ ms) h dead = cc

  unless :
      (g : String) (b : Bool) (w : K.World) (c : Description) (os : List PartitionOffset)
      → (K.describe_group g w).0 ≡ ok c
      → AreOffsets g os
      → none_of c.members && (none_of os && c.state == "DEAD") ≡ b
      → Detailed g (
          if b
          then none
          else some (record {
            id = g;
            state = c.state;
            is_simple = c.is_simple;
            coordinator = c.coordinator;
            members = map (member_info K) c.members;
            offsets = os;
          }))
  unfolding Detailed
  unless g true w c os e k dead = shell g w c os e k c.members refl dead
  unless g false w c os e k dead = (w, c, e, refl, refl, refl, refl, Each-member_info c.members, k)

  Silent-partition_offset : (tp : TopicPartition) → Silent (partition_offset K tp) (IsOffset tp)
  Silent-partition_offset tp =
      Silent-bind (Silent-watermarks tp.topic tp.partition)
        λ marks h. Silent-pure _ (refl, refl, refl, h)

  Silent-Described :
      (g : String) (o : Option Description)
      → Described g o
      → Silent (get_described K g o) (Detailed g)
  unfolding Described Detailed
  Silent-Described g none h = Silent-pure none (inl h)
  Silent-Described g (some d) (w, e) =
      Silent-bind
        (Silent-ask {Q = λ committed. (v : K.World) × ((K.committed_offsets g v).0 ≡ ok committed)}
          (K.committed_offsets g) (λ v a h. (v, h)))
        λ committed (v, h).
          Silent-bind (Silent-traverse-Each Silent-partition_offset (sort_by by_place committed))
            λ os rows. Silent-pure (detail K g d os) (
              unless g _ w d os e
                (v, committed, h, sort_by by_place committed, sort_by-perm by_place committed, rows)
                refl)

  pub Silent-get_group : (g : String) → Silent (get_group K g) (Detailed g)
  unfolding get_group
  Silent-get_group g = Silent-bind (Silent-describe g) (Silent-Described g)

  pub not-false : (b : Bool) → not b ≡ false → b ≡ true
  not-false true h = refl
  not-false false h = cc

  Silent-require_empty_detail :
      (g action : String) (o : Option GroupDetail)
      → Detailed g o
      → Silent (require_empty_detail K g action o) (λ _. DescribedEmpty g)
  unfolding Detailed is_empty
  Silent-require_empty_detail g action none h = Silent-raise _
  Silent-require_empty_detail g action (some d) (w, c, e, s, i, simple, at_, ms, os) =
      Silent-weaken (Silent-refuse_if (not (is_empty d)) _)
        λ u empty. (w, c, e, sym s ∙ (eq_iff d.state "EMPTY").0 (not-false _ empty))

  -- The check passes only where the broker describes the group as empty, and it changes nothing.
  pub Silent-require_empty :
      (g action : String) → Silent (require_empty K g action) (λ _. DescribedEmpty g)
  unfolding require_empty
  Silent-require_empty g action =
      Silent-bind (Silent-get_group g) (Silent-require_empty_detail g action)
