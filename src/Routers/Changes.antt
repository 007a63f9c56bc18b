-- ===== src/Routers/Changes.antt =====
-- The requests to the routes that change something, as one type, with what each may ask for.
use kafkascope.Prelude.{ℤ, String, Option, none, some, ◌⊎◌, false}
use kafkascope.Prelude.{string_eq, ◌≡◌}
use kafkascope.Prelude.Text.{strip, truthy}
use kafkascope.Prelude.Dict.{Dict}
use kafkascope.Failure.{ok}
use kafkascope.Kafka.{Kafka, Request}
use kafkascope.Kafka.Program.{Session}
use kafkascope.Groups.{ResetTarget, timestamp, earliest, latest, offset}
use kafkascope.Groups.Safety.{IsReset, IsDelete as IsGroupDelete}
use kafkascope.Admin.Safety.{IsCreate, IsDelete, IsGrowth, IsUpdate, IsPurge}
use kafkascope.Audit.{Caller}
use kafkascope.Routers.{Texts, Answer}
use kafkascope.Routers.Topics as Topics
use kafkascope.Routers.Topics.{overrides_of, changes_of}
use kafkascope.Routers.Groups as Groups
use kafkascope.Routers.Groups.{
  ResetForm, target_of, reset_run, reset_to, reset_at, apply_reset, optional_int,
}

-- A request to a route that changes something, with its path and its form.
pub data Change : Type 0 where
  create : String → ℤ → ℤ → Dict String String → Change
  edit_config : String → Dict String String → Change
  grow_partitions : String → ℤ → Change
  purge : String → String → Change
  delete_topic : String → String → Change
  reset : String → ResetForm → Change
  delete_group : String → String → Change

-- The names that its record bears.
abbrev pub action_of : Change → String
action_of (create name n r form) = "create_topic"
action_of (edit_config name form) = "update_config"
action_of (grow_partitions name total) = "add_partitions"
action_of (purge name confirm) = "purge_topic"
action_of (delete_topic name confirm) = "delete_topic"
action_of (reset g f) = "reset_offsets"
action_of (delete_group g confirm) = "delete_group"

abbrev pub target_name : Change → String
target_name (create name n r form) = strip name
target_name (edit_config name form) = name
target_name (grow_partitions name total) = name
target_name (purge name confirm) = name
target_name (delete_topic name confirm) = name
target_name (reset g f) = g
target_name (delete_group g confirm) = g

-- What was typed to confirm it, where the route asks for that.
abbrev pub confirmation_of : Change → Option String
confirmation_of (purge name confirm) = some confirm
confirmation_of (delete_topic name confirm) = some confirm
confirmation_of (reset g f) = some f.confirm
confirmation_of (delete_group g confirm) = some confirm
confirmation_of (create name n r form) = none
confirmation_of (edit_config name form) = none
confirmation_of (grow_partitions name total) = none

module _ (K : Kafka) (T : Texts) (c : Caller) where
  -- The route of each request.
  unfoldable pub handle : Change → Session K → Answer K
  handle (create name n r form) s = Topics.create K T c name n r form s
  handle (edit_config name form) s = Topics.edit_config K T c name form s
  handle (grow_partitions name total) s = Topics.grow_partitions K T c name total s
  handle (purge name confirm) s = Topics.purge K T c name confirm s
  handle (delete_topic name confirm) s = Topics.delete K T c name confirm s
  handle (reset g f) s = Groups.reset K T c g f s
  handle (delete_group g confirm) s = Groups.delete K T c g confirm s

  -- The time of a reset: for a timestamp the one in the form.
  abbrev pub IsTime : ResetTarget → ResetForm → Option ℤ → Type 0
  IsTime timestamp f t = (ms : ℤ) × (t ≡ some ms) × (T.milliseconds (strip f.timestamp) ≡ some ms)
  IsTime earliest f t = t ≡ none
  IsTime latest f t = t ≡ none
  IsTime offset f t = t ≡ none

  -- What the broker may be asked for it: what the service allows, and for the dangerous ones only
  -- where the name was typed.
  abbrev pub Allows : Change → Request → Type 0
  Allows (create name n r form) q = IsCreate K c.context name n r (overrides_of form) q
  Allows (edit_config name form) q = IsUpdate K c.context name (changes_of form) q
  Allows (grow_partitions name total) q = IsGrowth K c.context name total q
  Allows (purge name confirm) q = (strip confirm ≡ name) × IsPurge K c.context name q
  Allows (delete_topic name confirm) q = (strip confirm ≡ name) × IsDelete K c.context name q
  Allows (reset g f) q =
      (strip f.confirm ≡ g)
      × (target : ResetTarget) × (target_of f.target ≡ some target)
      × (partition : Option ℤ) × (optional_int T (truthy f.partition) f.partition ≡ ok partition)
      × (o : Option ℤ) × (optional_int T (truthy (strip f.offset)) f.offset ≡ ok o)
      × (t : Option ℤ) × IsTime target f t
      × IsReset K c.context g f.topic partition target t o q
  Allows (delete_group g confirm) q = (strip confirm ≡ g) × IsGroupDelete K c.context g q

  -- The name that had to be typed was not.
  abbrev pub IsMistyped : Change → Type 0
  IsMistyped change =
      (typed : String) × (confirmation_of change ≡ some typed)
      × ¬ (strip typed ≡ target_name change)

  -- A confirmed reset whose form names no target that there is, or a time that is missing or cannot
  -- be read.
  abbrev pub IsUnreadable : Change → Type 0
  IsUnreadable (reset g f) =
      (strip f.confirm ≡ g)
      × ((target_of f.target ≡ none)
          ⊎ ((target_of f.target ≡ some timestamp)
              × ((truthy (strip f.timestamp) ≡ false)
                  ⊎ (T.milliseconds (strip f.timestamp) ≡ none))))
  IsUnreadable (create name n r form) = ⊥
  IsUnreadable (edit_config name form) = ⊥
  IsUnreadable (grow_partitions name total) = ⊥
  IsUnreadable (purge name confirm) = ⊥
  IsUnreadable (delete_topic name confirm) = ⊥
  IsUnreadable (delete_group g confirm) = ⊥
