-- ===== src/Admin/Tests.antt =====
-- The operations on topics at a broker with one topic.
use kafkascope.Prelude.{ℤ, [], ◌∷◌, ◌≡◌, refl}
use kafkascope.Prelude.Dict.{lookup, keys, values}
use kafkascope.Prelude.Text.{has_prefix}
use kafkascope.Settings.{default_cluster}
use kafkascope.Client.{is_readonly, require_writable, current_cluster}
use kafkascope.Kafka.{create_partitions, delete_records}
use kafkascope.Kafka.Program.{pure, raise, lift, ask, request, ◌>>=◌, traverse}
use kafkascope.Kafka.Program.Rules.{Sends}
use kafkascope.Groups.{at}
use kafkascope.Admin.{create_topic, delete_topic, add_partitions, purge_topic}
use kafkascope.Admin.Safety.{IsCreate, IsDelete, IsPurge, create_topic-Sends}
use kafkascope.Admin.Safety.{delete_topic-Sends}
use kafkascope.Admin.Safety.{purge_topic-Sends}
use kafkascope.Samples.{dev_broker, dev_context, fresh}

growth :
    (add_partitions dev_broker dev_context "orders" (ℤ.pos 3) fresh).1.sent
    ≡ create_partitions "orders" (ℤ.pos 3) ∷ []
unfolding add_partitions require_writable is_readonly current_cluster default_cluster values keys
    lookup pure raise lift ask request ◌>>=◌ traverse
growth = refl

purge :
    (purge_topic dev_broker dev_context "orders" fresh).1.sent
    ≡ delete_records (at "orders" (ℤ.pos 1) (ℤ.pos 7) ∷ at "orders" (ℤ.pos 0) (ℤ.pos 20) ∷ []) ∷ []
unfolding purge_topic has_prefix require_writable is_readonly current_cluster default_cluster values
    keys lookup pure raise lift ask request ◌>>=◌ traverse
purge = refl

create_topic-Sends_example :
    Sends
      (create_topic dev_broker dev_context "new" (ℤ.pos 1) (ℤ.pos 1) [])
      (IsCreate dev_broker dev_context "new" (ℤ.pos 1) (ℤ.pos 1) [])
create_topic-Sends_example = create_topic-Sends dev_broker dev_context "new" (ℤ.pos 1) (ℤ.pos 1) []

delete_topic-Sends_example :
    Sends (delete_topic dev_broker dev_context "orders") (IsDelete dev_broker dev_context "orders")
delete_topic-Sends_example = delete_topic-Sends dev_broker dev_context "orders"

purge_topic-Sends_example :
    Sends (purge_topic dev_broker dev_context "orders") (IsPurge dev_broker dev_context "orders")
purge_topic-Sends_example = purge_topic-Sends dev_broker dev_context "orders"
