-- ===== src/Client.antt =====
-- app/kafka_client.py: the cluster that a request is for, the read-only switch, and what a client is
-- configured with. The clients themselves are those of `confluent_kafka`.
pub mod Laws
pub mod Pool
use kafkascope.Prelude.{String, Bool, true, false, ◌&&◌, ◌||◌, not, Option, none, some, List, []}
use kafkascope.Prelude.{◌∷◌, ◌++◌, if◌then◌else◌}
use kafkascope.Prelude.Text.{truthy}
use kafkascope.Prelude.Dict.{Dict, lookup, insert}
use kafkascope.Failure.{
  Result, ok, err, other_error, permission_error, readonly, reported, or_raise,
}
use kafkascope.Failure.{◌>>=◌}
use kafkascope.Config.{ClusterConfig}
use kafkascope.Settings.{Settings, Instance, default_cluster}
use kafkascope.Kafka.{Kafka}
use kafkascope.Kafka.Program.{Program, lift, refuse_if, ◌>>=◌ as ◌>>=ᵏ◌}

-- The settings, with the value of the ContextVar.
pub record Context : Type 0 where
  pub instance : Instance
  pub current : Option ClusterConfig

abbrev cluster_or_default : Option ClusterConfig → Instance → Result ClusterConfig
cluster_or_default (some c) i = ok c
cluster_or_default none i = or_raise (default_cluster i) (other_error (reported "StopIteration"))

-- `current_cluster`
unfoldable pub current_cluster : Context → Result ClusterConfig
current_cluster x = cluster_or_default x.current x.instance

-- `is_readonly()`
unfoldable pub is_readonly : Context → Result Bool
is_readonly x = do
  cluster ← current_cluster x
  ok (cluster.readonly || x.instance.settings.kafkascope_readonly)

-- `if is_readonly(): raise PermissionError`
unfoldable pub require_writable : {K : Kafka} → Context → Program K (Unit {0})
require_writable x =
    lift (is_readonly x) >>=ᵏ λ blocked. refuse_if blocked (permission_error readonly)

-- `{k: v for k, v in optional.items() if v}`
abbrev pub present : List (String × String) → List (String × String)
present [] = []
present ((k, v) ∷ rest) = if truthy v then (k, v) ∷ present rest else present rest

-- `base_config`, whose keys are all different.
unfoldable pub base_config : ClusterConfig → List (String × String)
base_config c =
    ("bootstrap.servers", c.brokers)
    ∷ ("security.protocol", c.security_protocol)
    ∷ present (
        ("sasl.mechanism", c.sasl_mechanism)
        ∷ ("sasl.username", c.sasl_username)
        ∷ ("sasl.password", c.sasl_password)
        ∷ ("ssl.ca.location", c.ssl_ca_location)
        ∷ ("ssl.certificate.location", c.ssl_certificate_location)
        ∷ ("ssl.key.location", c.ssl_key_location)
        ∷ ("ssl.key.password", c.ssl_key_password)
        ∷ ("ssl.endpoint.identification.algorithm", c.ssl_endpoint_identification_algorithm)
        ∷ [])
