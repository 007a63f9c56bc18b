-- ===== src/Admin.antt =====
-- app/services/admin.py: creating, deleting, growing, configuring and purging a topic.
pub mod Safety
mod Tests
use kafkascope.Prelude.{ℕ, ℤ, pos, String, Bool, true, false, ◌&&◌, ◌||◌, not, Option, none}
use kafkascope.Prelude.{some, List, [], ◌∷◌, map, length, ltb_ℤ, leb, leb_ℤ, nat_eqb, ◌+ℤ◌, ◌-ℤ◌}
use kafkascope.Prelude.{if◌then◌else◌, string_eq}
use kafkascope.Prelude.Text.{strip, truthy, is_empty, all_chars, has_prefix}
use kafkascope.Prelude.Dict.{Dict, lookup, keys, has_key}
use kafkascope.Failure.{Failure, value_error, lookup_error, name_required, name_characters}
use kafkascope.Failure.{one_partition, one_replica, topic_exists, internal_topic, already_has}
use kafkascope.Failure.{no_changes, topic_not_found}
use kafkascope.Config.{name_char}
use kafkascope.Kafka.{
  Kafka, TopicPartition, TopicMetadata, PartitionMetadata, Request, create_topic as new_topic,
}
use kafkascope.Kafka.{
  delete_topic as remove_topic, create_partitions, alter_configs, delete_records,
}
use kafkascope.Kafka.Program.{Program, pure, ask, request, ◌>>=◌, ◌>>◌, refuse_if, traverse}
use kafkascope.Client.{Context, require_writable}
use kafkascope.Groups.{at, topic_metadata, watermarks, none_of}

-- An empty value deletes the override.
abbrev pub entry : String × String → String × Option String
entry (key, value) = if is_empty value then (key, none) else (key, some value)

abbrev pub sum_widths : List (ℤ × ℤ × ℤ) → ℤ
sum_widths [] = pos 0
sum_widths ((p, low, high) ∷ ms) = (high -ℤ low) +ℤ sum_widths ms

-- `TopicPartition(name, p, high)`
abbrev pub end_of : String → ℤ × ℤ × ℤ → TopicPartition
end_of name (p, low, high) = at name p high

module _ (K : Kafka) where
  -- `_topic_exists`
  unfoldable pub topic_exists_in : String → Program K Bool
  topic_exists_in name = ask K.list_topics >>= λ topics. pure (has_key name topics)

  abbrev pub submit : Request → Program K (Unit {0})
  submit r = request r >>= λ result. pure tt

  unfoldable pub create_topic : Context → String → ℤ → ℤ → Dict String String → Program K (Unit {0})
  create_topic x raw partitions replication_factor config =
      let name = strip raw in
      require_writable x
      >> (refuse_if (not (truthy name)) (value_error name_required)
          >> (refuse_if (not (all_chars name_char name)) (value_error name_characters)
              >> (refuse_if (ltb_ℤ partitions (pos 1)) (value_error one_partition)
                  >> (refuse_if (ltb_ℤ replication_factor (pos 1)) (value_error one_replica)
                      >> (topic_exists_in name >>= λ known.
                          refuse_if known (value_error (topic_exists name))
                          >> submit (new_topic name partitions replication_factor config))))))

  unfoldable pub delete_topic : Context → String → Program K (Unit {0})
  delete_topic x name =
      require_writable x
      >> (refuse_if (has_prefix "__" name) (value_error internal_topic)
          >> (topic_exists_in name >>= λ known.
              refuse_if (not known) (lookup_error (topic_not_found name))
              >> submit (remove_topic name)))

  unfoldable pub add_partitions : Context → String → ℤ → Program K (Unit {0})
  add_partitions x name new_total =
      require_writable x
      >> (topic_metadata K name >>= λ m.
          refuse_if (leb_ℤ new_total (pos (length m.partitions)))
            (value_error (already_has (length m.partitions)))
          >> submit (create_partitions name new_total))

  unfoldable pub update_config : Context → String → Dict String String → Program K (Unit {0})
  update_config x name changes =
      require_writable x
      >> (refuse_if (none_of changes) (value_error no_changes)
          >> (topic_exists_in name >>= λ known.
              refuse_if (not known) (lookup_error (topic_not_found name))
              >> submit (alter_configs name (map entry changes))))

  abbrev pub marks_of : String → ℤ → Program K (ℤ × ℤ × ℤ)
  marks_of name p = watermarks K name p >>= λ marks. pure (p, marks.0, marks.1)

  -- The number of the records that go.
  unfoldable pub purge_topic : Context → String → Program K ℤ
  purge_topic x name =
      require_writable x
      >> (refuse_if (has_prefix "__" name) (value_error internal_topic)
          >> (topic_metadata K name >>= λ m.
              traverse (marks_of name) (keys m.partitions) >>= λ marks.
              request (delete_records (map (end_of name) marks)) >>= λ result.
              pure (sum_widths marks)))
