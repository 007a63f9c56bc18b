-- ===== src/Settings.antt =====
-- `Settings` of app/config.py: the validators of the flat variables, in the order in which the
-- class declares them, and the clusters that come out. That pydantic reads the variables from the
-- environment is not modelled.
pub mod Laws
mod Tests
use kafkascope.Prelude.{ℤ, String, Bool, true, false, ◌&&◌, ◌||◌, not, Option, none, some, List, []}
use kafkascope.Prelude.{◌∷◌, contains, ◌==◌, string_eq, ltb, if◌then◌else◌}
use kafkascope.Prelude.Dict.{Dict, values, lookup}
use kafkascope.Prelude.Text.{strip, truthy, has_prefix}
use kafkascope.Failure.{Failure, Result, ok, err, value_error, lookup_error, ◌>>=◌, ◌>>◌, require}
use kafkascope.Failure.{unknown_protocol, unknown_mechanism, mechanism_required, or_raise}
use kafkascope.Failure.{credentials_required, cluster_name, users_required, auth_mode}
use kafkascope.Failure.{clusters_invalid_json, clusters_not_list, reported}
use kafkascope.Json
use kafkascope.Json.{Json, Items, items}
use kafkascope.Config.{ClusterConfig, valid_protocols, valid_sasl, userpass_sasl, valid_auth_modes}
use kafkascope.Config.{is_cluster_name, coherent_security, Python, Clusters, collect_clusters}
use kafkascope.Config.Users.{Users, parse_users}

-- The variables that the modelled code reads, as the environment gives them.
pub record Settings : Type 0 where
  pub kafka_brokerconnect : String
  pub kafkascope_readonly : Bool
  pub kafkascope_cluster_name : String
  pub kafkascope_scan_limit : ℤ
  pub kafka_security_protocol : String
  pub kafka_sasl_mechanism : String
  pub kafka_sasl_username : String
  pub kafka_sasl_password : String
  pub kafka_ssl_ca_location : String
  pub kafka_ssl_certificate_location : String
  pub kafka_ssl_key_location : String
  pub kafka_ssl_key_password : String
  pub kafka_ssl_endpoint_identification_algorithm : String
  pub kafkascope_clusters : String
  pub kafkascope_schema_registry_url : String
  pub kafkascope_schema_registry_auth : String
  pub kafkascope_auth_mode : String
  pub kafkascope_users : String
  pub kafkascope_proxy_user_header : String
  pub kafkascope_proxy_groups_header : String
  pub kafkascope_admin_groups : String

-- The settings that passed, with the clusters.
pub record Instance : Type 0 where
  pub settings : Settings
  pub clusters : Dict String ClusterConfig

abbrev no_users : Users → Bool
no_users [] = true
no_users (u ∷ us) = false

module _ (P : Python) where
  -- `_normalise_protocol`
  unfoldable pub normalise_protocol : String → Result String
  normalise_protocol v = do
    let text = P.upper (strip v)
    require (contains valid_protocols text) (value_error (unknown_protocol text))
    ok text

  -- `_normalise_mechanism`
  unfoldable pub normalise_mechanism : String → Result String
  normalise_mechanism v = do
    let text = P.upper (strip v)
    require (not (truthy text) || contains valid_sasl text) (value_error (unknown_mechanism text))
    ok text

  -- `_normalise_auth_mode`
  unfoldable pub normalise_auth_mode : String → Result String
  normalise_auth_mode v = do
    let text = P.lower (strip v)
    require (contains valid_auth_modes text) (value_error auth_mode)
    ok text

  abbrev pub flat_sasl : Settings → Result (Unit {0})
  flat_sasl s = do
    require (truthy s.kafka_sasl_mechanism) (value_error (mechanism_required ""))
    require
        (not (contains userpass_sasl s.kafka_sasl_mechanism)
          || (truthy s.kafka_sasl_username && truthy s.kafka_sasl_password))
        (value_error (credentials_required ""))

  -- `_check_sasl_coherent`
  unfoldable pub check_sasl_coherent : Settings → Result (Unit {0})
  check_sasl_coherent s =
      if truthy (strip s.kafkascope_clusters)
      then ok tt
      else if has_prefix "SASL_" s.kafka_security_protocol
      then flat_sasl s
      else ok tt

  abbrev has_users : Settings → Result (Unit {0})
  has_users s = do
    users ← parse_users P.lower s.kafkascope_users
    require (not (no_users users)) (value_error users_required)

  -- `_check_auth_coherent`
  unfoldable pub check_auth_coherent : Settings → Result (Unit {0})
  check_auth_coherent s = if s.kafkascope_auth_mode == "basic" then has_users s else ok tt

  -- `a or b` on texts
  abbrev name_or_default : String → String
  name_or_default s = if truthy s then s else "default"

  abbrev pub legacy : Settings → ClusterConfig
  legacy s = record {
    name = name_or_default (strip s.kafkascope_cluster_name);
    brokers = s.kafka_brokerconnect;
    security_protocol = s.kafka_security_protocol;
    sasl_mechanism = s.kafka_sasl_mechanism;
    sasl_username = s.kafka_sasl_username;
    sasl_password = s.kafka_sasl_password;
    ssl_ca_location = s.kafka_ssl_ca_location;
    ssl_certificate_location = s.kafka_ssl_certificate_location;
    ssl_key_location = s.kafka_ssl_key_location;
    ssl_key_password = s.kafka_ssl_key_password;
    ssl_endpoint_identification_algorithm = s.kafka_ssl_endpoint_identification_algorithm;
    schema_registry_url = strip s.kafkascope_schema_registry_url;
    schema_registry_auth = s.kafkascope_schema_registry_auth;
    readonly = false;
  }

  abbrev pub single_cluster : Settings → Result (Dict String ClusterConfig)
  single_cluster s = do
    require (is_cluster_name (legacy s).name) (value_error (cluster_name (legacy s).name))
    ok (((legacy s).name, legacy s) ∷ [])

  -- `not isinstance(entries, list) or not entries`
  abbrev pub entries_of : Json → Result (List Json)
  entries_of (Json.arr (Json.cons v vs)) = ok (v ∷ items vs)
  entries_of v = err (value_error clusters_not_list)

  abbrev pub listed_clusters : String → Result (Dict String ClusterConfig)
  listed_clusters raw = do
    v ← or_raise (P.loads raw) (value_error clusters_invalid_json)
    entries ← entries_of v
    collect_clusters P entries []

  -- `_resolve_clusters`
  unfoldable pub resolve_clusters : Settings → Result (Dict String ClusterConfig)
  resolve_clusters s =
      if truthy (strip s.kafkascope_clusters)
      then listed_clusters (strip s.kafkascope_clusters)
      else single_cluster s

  -- `Settings()`
  unfoldable pub load_settings : Settings → Result Instance
  load_settings s = do
    protocol ← normalise_protocol s.kafka_security_protocol
    mechanism ← normalise_mechanism s.kafka_sasl_mechanism
    mode ← normalise_auth_mode s.kafkascope_auth_mode
    let t = record s {
      kafka_security_protocol = protocol;
      kafka_sasl_mechanism = mechanism;
      kafkascope_auth_mode = mode;
    }
    check_sasl_coherent t
    check_auth_coherent t
    clusters ← resolve_clusters t
    ok (record { settings = t; clusters = clusters })

abbrev pub first_of : List ClusterConfig → Option ClusterConfig
first_of [] = none
first_of (c ∷ cs) = some c

-- `default_cluster`; `none` is the `StopIteration` of an empty dict.
unfoldable pub default_cluster : Instance → Option ClusterConfig
unfolding values
default_cluster i = first_of (values i.clusters)

abbrev pub more_than_one {ℓ} : {A : Type ℓ} → List A → Bool
more_than_one [] = false
more_than_one (x ∷ []) = false
more_than_one (x ∷ y ∷ zs) = true

unfoldable pub multi_cluster : Instance → Bool
multi_cluster i = more_than_one i.clusters
