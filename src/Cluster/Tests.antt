-- ===== src/Cluster/Tests.antt =====
-- The overview of a broker with one topic, whose two partitions hold twelve messages.
use kafkascope.Prelude.{ℤ, some, ◌≡◌, refl}
use kafkascope.Prelude.Int.{◌+ℤ◌, ◌-ℤ◌}
use kafkascope.Prelude.Dict.{lookup, keys, values}
use kafkascope.Prelude.Text.{has_prefix}
use kafkascope.Settings.{default_cluster}
use kafkascope.Client.{is_readonly, require_writable, current_cluster}
use kafkascope.Failure.{ok}
use kafkascope.Kafka.Program.{pure, raise, lift, ask, request, ◌>>=◌, traverse}
use kafkascope.Kafka.Program.Rules.{Silent}
use kafkascope.Admin.{purge_topic}
use kafkascope.Cluster.{list_topics, topic_message_count}
use kafkascope.Cluster.Laws.{AreListed, list_topics-AreListed}
use kafkascope.Cluster.Count.{topic_message_count-eq_purge}
use kafkascope.Samples.{dev_broker, dev_context, fresh}

list_topics-AreListed_example : Silent (list_topics dev_broker) (AreListed dev_broker)
list_topics-AreListed_example = list_topics-AreListed dev_broker

twelve_purged : (purge_topic dev_broker dev_context "orders" fresh).0 ≡ ok (ℤ.pos 12)
unfolding purge_topic has_prefix require_writable is_readonly current_cluster default_cluster values
    keys lookup pure raise lift ask request ◌>>=◌ traverse ◌+ℤ◌ ◌-ℤ◌
twelve_purged = refl

topic_message_count-eq_purge_example :
    (topic_message_count dev_broker "orders" fresh).0 ≡ ok (some (ℤ.pos 12))
topic_message_count-eq_purge_example =
    topic_message_count-eq_purge dev_broker dev_context "orders" fresh (ℤ.pos 12) twelve_purged
