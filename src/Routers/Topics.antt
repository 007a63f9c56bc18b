-- ===== src/Routers/Topics.antt =====
-- app/routers/admin.py: the routes that create, configure, grow, purge and delete a topic.
use Prim.Native.String.{String, [] as nothing, ◌∷◌ as ◌∷ˢ◌, ◌++◌ as ◌++ˢ◌}
use kafkascope.Prelude.{ℕ, zero, suc, ℤ, not, [], ◌∷◌, map, ◌==◌}
use kafkascope.Prelude.{string_eq, if◌then◌else◌, ◌&&◌}
use kafkascope.Prelude.Text.{strip, truthy, has_prefix}
use kafkascope.Prelude.Sort.{sort_by, ltb_string}
use kafkascope.Prelude.Dict.{Dict, keys}
use kafkascope.Json.{str, number, arr}
use kafkascope.Kafka.{Kafka}
use kafkascope.Kafka.Program.{Session}
use kafkascope.Admin.{create_topic, update_config, add_partitions, purge_topic, delete_topic}
use kafkascope.Audit.{Caller, array}
use kafkascope.Routers.{Texts, Answer, finish, refuse, created, configured, purged, deleted}

-- `s[n:]`
abbrev pub drop_chars : ℕ → String → String
drop_chars zero s = s
drop_chars (suc n) nothing = ""
drop_chars (suc n) (c ∷ˢ s) = drop_chars n s

abbrev pub topic_url : Caller → String → String
topic_url c name = "/c/" ++ˢ c.cluster ++ˢ "/topic/" ++ˢ name

-- The fields named `cfg:…` that are not blank, and all fields of that name. The fields of a form have
-- different names.
unfoldable pub overrides_of : Dict String String → Dict String String
unfolding strip has_prefix
overrides_of [] = []
overrides_of ((k, v) ∷ form) =
    let rest = overrides_of form in
    if has_prefix "cfg:" k && truthy (strip v) then (drop_chars 4 k, strip v) ∷ rest else rest

unfoldable pub changes_of : Dict String String → Dict String String
unfolding strip has_prefix
changes_of [] = []
changes_of ((k, v) ∷ form) =
    let rest = changes_of form in
    if has_prefix "cfg:" k then (drop_chars 4 k, strip v) ∷ rest else rest

module _ (K : Kafka) (T : Texts) where
  unfoldable pub create : Caller → String → ℤ → ℤ → Dict String String → Session K → Answer K
  create c name partitions replication_factor form s =
      finish T c "create_topic" (strip name) []
        (λ _.
          ("partitions", number partitions)
          ∷ ("replication_factor", number replication_factor)
          ∷ [])
        (λ _. created (strip name))
        (create_topic K c.context name partitions replication_factor (overrides_of form) s)

  unfoldable pub edit_config : Caller → String → Dict String String → Session K → Answer K
  edit_config c name form s =
      finish T c "update_config" name []
        (λ _. ("keys", arr (array (map str (sort_by ltb_string (keys (changes_of form)))))) ∷ [])
        (λ _. configured name (topic_url c name))
        (update_config K c.context name (changes_of form) s)

  unfoldable pub grow_partitions : Caller → String → ℤ → Session K → Answer K
  grow_partitions c name total s =
      finish T c "add_partitions" name [] (λ _. ("total", number total) ∷ [])
        (λ _. configured name (topic_url c name)) (add_partitions K c.context name total s)

  unfoldable pub purge : Caller → String → String → Session K → Answer K
  purge c name confirm s =
      if not (strip confirm == name)
      then refuse c "purge_topic" name
          ("Type the topic name (" ++ˢ name ++ˢ ") to confirm the purge") s
      else finish T c "purge_topic" name [] (λ count. ("records", number count) ∷ [])
          (λ count. purged name count (topic_url c name)) (purge_topic K c.context name s)

  unfoldable pub delete : Caller → String → String → Session K → Answer K
  delete c name confirm s =
      if not (strip confirm == name)
      then refuse c "delete_topic" name
          ("Type the topic name (" ++ˢ name ++ˢ ") to confirm deletion") s
      else finish T c "delete_topic" name [] (λ _. []) (λ _. deleted name)
          (delete_topic K c.context name s)
