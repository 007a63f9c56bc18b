-- ===== src/Groups/Tests.antt =====
-- Groups at a broker with one topic and one idle group.
use kafkascope.Prelude.{ℤ, none, [], ◌∷◌, ◌≡◌, refl}
use kafkascope.Prelude.Dict.{lookup, keys, values}
use kafkascope.Prelude.Sort.{sort_by}
use kafkascope.Settings.{default_cluster}
use kafkascope.Client.{is_readonly, require_writable, current_cluster}
use kafkascope.Kafka.{alter_offsets, delete_group}
use kafkascope.Kafka.Program.{pure, raise, lift, ask, request, ◌>>=◌, traverse}
use kafkascope.Kafka.Program.Rules.{Sends}
use kafkascope.Groups.{latest, at, reset_offsets, delete, resolve_targets, require_empty}
use kafkascope.Groups.{get_group, describe, is_empty}
use kafkascope.Groups.Safety.{IsReset, IsDelete, reset_offsets-Sends, delete-Sends}
use kafkascope.Samples.{dev_broker, dev_context, fresh}

-- Both partitions, in order, go to their ends.
reset_to_latest :
    (reset_offsets dev_broker dev_context "g" "orders" none latest none none fresh).1.sent
    ≡ alter_offsets "g" (at "orders" (ℤ.pos 0) (ℤ.pos 20) ∷ at "orders" (ℤ.pos 1) (ℤ.pos 7) ∷ [])
      ∷ []
unfolding reset_offsets resolve_targets require_empty get_group describe is_empty require_writable
    is_readonly current_cluster default_cluster values keys lookup sort_by pure raise lift ask
    request ◌>>=◌ traverse
reset_to_latest = refl

deletion : (delete dev_broker dev_context "g" fresh).1.sent ≡ delete_group "g" ∷ []
unfolding delete require_empty get_group describe is_empty require_writable is_readonly
    current_cluster default_cluster values keys lookup sort_by pure raise lift ask request ◌>>=◌
    traverse
deletion = refl

reset_offsets-Sends_example :
    Sends
      (reset_offsets dev_broker dev_context "g" "orders" none latest none none)
      (IsReset dev_broker dev_context "g" "orders" none latest none none)
reset_offsets-Sends_example =
    reset_offsets-Sends dev_broker dev_context "g" "orders" none latest none none

delete-Sends_example :
    Sends (delete dev_broker dev_context "g") (IsDelete dev_broker dev_context "g")
delete-Sends_example = delete-Sends dev_broker dev_context "g"
