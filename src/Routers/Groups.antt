-- ===== src/Routers/Groups.antt =====
-- app/routers/groups.py: the routes that reset a group's offsets and delete a group.
use Prim.Native.String.{String, ◌++◌ as ◌++ˢ◌}
use kafkascope.Prelude.{ℤ, Bool, true, false, not, Option, none, some, List, [], ◌∷◌, map, ◌==◌}
use kafkascope.Prelude.{string_eq, if◌then◌else◌}
use kafkascope.Prelude.Text.{strip, truthy}
use kafkascope.Failure.{Result, ok, ◌>>=◌}
use kafkascope.Json.{str, number, arr}
use kafkascope.Kafka.{Kafka}
use kafkascope.Kafka.Program.{Session, Program, lift, ◌>>=◌ as ◌>>=ᵏ◌}
use kafkascope.Groups.{ResetTarget, PartitionOffset, earliest, latest, timestamp, offset}
use kafkascope.Groups.{reset_offsets, delete as delete_group}
use kafkascope.Audit.{Caller, array}
use kafkascope.Routers.{Texts, Answer, finish, refuse, shows, error, applied, deleted}

-- The form of a reset.
pub record ResetForm : Type 0 where
  pub topic : String
  pub partition : String
  pub target : String
  pub timestamp : String
  pub offset : String
  pub confirm : String

-- `target not in ("earliest", "latest", "timestamp", "offset")`
abbrev pub target_of : String → Option ResetTarget
target_of t =
    if t == "earliest"
    then some earliest
    else if t == "latest"
    then some latest
    else if t == "timestamp"
    then some timestamp
    else if t == "offset"
    then some offset
    else none

-- `int(text) if present else None`
abbrev pub optional_int : Texts → Bool → String → Result (Option ℤ)
optional_int T false text = ok none
optional_int T true text = do n ← T.int_of text; ok (some n)

module _ (K : Kafka) (T : Texts) where
  -- The arguments are read first, then the service runs; both may raise.
  unfoldable pub reset_run :
      Caller → String → ResetForm → ResetTarget → Option ℤ → Program K (List PartitionOffset)
  reset_run c group_id f target timestamp_ms =
      lift (optional_int T (truthy f.partition) f.partition) >>=ᵏ λ partition.
      lift (optional_int T (truthy (strip f.offset)) f.offset) >>=ᵏ λ o.
      reset_offsets K c.context group_id f.topic partition target timestamp_ms o

  abbrev pub apply_reset :
      Caller → String → ResetForm → ResetTarget → Option ℤ → Session K → Answer K
  apply_reset c group_id f target timestamp_ms s =
      finish T c "reset_offsets" group_id (("topic", str f.topic) ∷ [])
        (λ offsets.
          ("topic", str f.topic)
          ∷ ("target", str f.target)
          ∷ ("partitions", arr (array (map (λ (o : PartitionOffset). number o.partition) offsets)))
          ∷ [])
        (λ offsets. applied offsets group_id) (reset_run c group_id f target timestamp_ms s)

  abbrev pub reset_at : Caller → String → ResetForm → Option ℤ → Session K → Answer K
  reset_at c group_id f none s =
      shows (error ("Could not read timestamp " ++ˢ T.repr f.timestamp)) s
  reset_at c group_id f (some t) s = apply_reset c group_id f timestamp (some t) s

  abbrev pub reset_to : Caller → String → ResetForm → Option ResetTarget → Session K → Answer K
  reset_to c group_id f none s = shows (error ("Unknown reset target " ++ˢ T.repr f.target)) s
  reset_to c group_id f (some timestamp) s =
      if truthy (strip f.timestamp)
      then reset_at c group_id f (T.milliseconds (strip f.timestamp)) s
      else shows (error "Pick a time to reset to") s
  reset_to c group_id f (some earliest) s = apply_reset c group_id f earliest none s
  reset_to c group_id f (some latest) s = apply_reset c group_id f latest none s
  reset_to c group_id f (some offset) s = apply_reset c group_id f offset none s

  unfoldable pub reset : Caller → String → ResetForm → Session K → Answer K
  reset c group_id f s =
      if not (strip f.confirm == group_id)
      then refuse c "reset_offsets" group_id
          ("Type the group id (" ++ˢ group_id ++ˢ ") to confirm this reset") s
      else reset_to c group_id f (target_of f.target) s

  unfoldable pub delete : Caller → String → String → Session K → Answer K
  delete c group_id confirm s =
      if not (strip confirm == group_id)
      then refuse c "delete_group" group_id
          ("Type the group id (" ++ˢ group_id ++ˢ ") to confirm deletion") s
      else finish T c "delete_group" group_id [] (λ _. []) (λ _. deleted group_id)
          (delete_group K c.context group_id s)
