-- ===== src/Groups/Safety.antt =====
-- What `reset_offsets` and `delete_group` ask of the broker, and when.
use kafkascope.Prelude.{ℤ, String, false, Option, none, some}
use kafkascope.Prelude.{All, string_eq, int_eq, ◌≡◌, refl}
use kafkascope.Failure.{ok}
use kafkascope.Kafka.{Kafka, TopicMetadata, Request}
use kafkascope.Kafka.{Altered, alter_offsets, delete_group}
use kafkascope.Kafka.Program.Rules.{Silent, Sends, Silent-pure, Silent-raise}
use kafkascope.Kafka.Program.Rules.{Silent-bind, Silent-traverse}
use kafkascope.Kafka.Program.Rules.{Sends-request, Sends-bind, Sends-then}
use kafkascope.Client.{Context, is_readonly}
use kafkascope.Client.Laws.{Silent-require_writable}
use kafkascope.Groups.{ResetTarget}
use kafkascope.Groups.{applied}
use kafkascope.Groups.{reset_offsets, delete, applied_or_failed}
use kafkascope.Groups.Empty.{DescribedEmpty, Silent-require_empty, Silent-watermarks}
use kafkascope.Groups.Choice.{Listed, Silent-topic_metadata, Silent-chosen}
use kafkascope.Groups.Targets.{Allowed, Silent-resolve_targets}

module _ (K : Kafka) where
  abbrev pub IsReset :
      Context → String → String → Option ℤ → ResetTarget → Option ℤ → Option ℤ → Request → Type 0
  IsReset x g topic partition target t o (alter_offsets h targets) =
      (is_readonly x ≡ ok false)
      × (h ≡ g)
      × DescribedEmpty K g
      × (m : TopicMetadata) × Listed K topic m
      × All (Allowed K topic m partition target t o) targets
  IsReset x g topic partition target t o r = ⊥

  abbrev pub IsDelete : Context → String → Request → Type 0
  IsDelete x g (delete_group h) = (is_readonly x ≡ ok false) × (h ≡ g) × DescribedEmpty K g
  IsDelete x g r = ⊥

  Silent-applied : (topic : String) (a : Altered) → Silent (applied K topic a) (λ _. Unit {0})
  Silent-applied topic a = by_error a.error
    where
      by_error : (e : Option String) → Silent (applied_or_failed K topic a e) (λ _. Unit {0})
      by_error none =
          Silent-bind (Silent-watermarks K topic a.at.partition) λ marks k. Silent-pure _ tt
      by_error (some e) = Silent-raise _

  -- A reset either raises, having asked the broker for nothing, or asks for one change. Then the
  -- switch is open, the broker described the group as empty, and every new offset is one that the
  -- target allows. For earliest, latest and an offset it is on a partition of the listed topic that
  -- was asked for: the low watermark that the broker reported, the high one, or that offset, between
  -- the two. For a timestamp it is an answer of the broker to that time on such partitions, as it is
  -- when its offset is not negative, and otherwise at the high watermark that the broker reported for
  -- the answered partition of the topic.
  pub reset_offsets-Sends :
      (x : Context) (g topic : String) (partition : Option ℤ) (target : ResetTarget)
      (t o : Option ℤ)
      → Sends
          (reset_offsets K x g topic partition target t o)
          (IsReset x g topic partition target t o)
  unfolding reset_offsets
  reset_offsets-Sends x g topic partition target t o =
      Sends-bind (Silent-require_writable x) λ u open_.
        Sends-bind (Silent-require_empty K g "reset offsets") λ u empty.
          Sends-bind (Silent-topic_metadata K topic) λ m listed.
            Sends-bind (Silent-chosen K topic m partition) λ ps hs.
              Sends-bind (Silent-resolve_targets K topic m partition target t o ps hs)
                λ targets allowed.
                  Sends-then (Sends-request _ (open_, refl, empty, m, listed, allowed)) λ result.
                    Silent-bind (Silent-traverse (Silent-applied topic) result)
                      λ offsets us. Silent-pure {Q = λ _. Unit {0}} _ tt

  -- A deletion either raises, having asked the broker for nothing, or asks for the deletion of that
  -- group; then the switch is open, and the broker described the group as empty.
  pub delete-Sends : (x : Context) (g : String) → Sends (delete K x g) (IsDelete x g)
  unfolding delete
  delete-Sends x g = Sends-bind (Silent-require_writable x) λ u open_.
      Sends-bind (Silent-require_empty K g "delete the group") λ u empty.
        Sends-then (Sends-request _ (open_, refl, empty))
          λ result. Silent-pure {Q = λ _. Unit {0}} tt tt
