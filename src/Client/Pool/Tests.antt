-- ===== src/Client/Pool/Tests.antt =====
-- Two clusters, whose clients are their configurations.
use kafkascope.Prelude.{String, some, [], ◌∷◌, ◌≡◌, refl}
use kafkascope.Prelude.Dict.{Dict, lookup, values}
use kafkascope.Failure.{ok}
use kafkascope.Config.{ClusterConfig}
use kafkascope.Settings.{default_cluster}
use kafkascope.Client.{Context, current_cluster}
use kafkascope.Client.Pool.{Configuration, an_admin, a_producer, called, after_calls}
use kafkascope.Client.Pool.{producer_config}
use kafkascope.Client.Pool.Laws.{called-IsOwn}
use kafkascope.Samples.{dev_cluster, dev_context}

abbrev itself : Configuration → Configuration
itself config = config

abbrev prod_cluster : ClusterConfig
prod_cluster = record dev_cluster { name = "prod"; brokers = "prod:9092" }

abbrev on_prod : Context
on_prod = record dev_context { current = some prod_cluster }

abbrev both : Dict String ClusterConfig
both = ("dev", dev_cluster) ∷ ("prod", prod_cluster) ∷ []

-- A producer for production, after an administrator's client and a producer for development.
called-IsOwn_example :
    (called itself (a_producer on_prod) (
      after_calls itself
        (an_admin dev_context ∷ a_producer dev_context ∷ [])
        (record { admins = []; producers = [] }))).0
    ≡ ok (producer_config prod_cluster)
unfolding lookup current_cluster default_cluster values
called-IsOwn_example =
    called-IsOwn itself both (an_admin dev_context ∷ a_producer dev_context ∷ [])
      (a_producer on_prod) prod_cluster ((dev_cluster, refl, refl), ((dev_cluster, refl, refl), tt))
      refl refl
