-- ===== src/Config.antt =====
-- app/config.py: the clusters that an instance fronts, and the checks at startup. `Users` has
-- `parse_users`.
pub mod Users
pub mod Security
mod Tests
use kafkascope.Prelude.{ℕ, String, Bool, true, false, ◌&&◌, ◌||◌, not, Option, none, some, List, []}
use kafkascope.Prelude.{◌∷◌, any, contains, ◌==◌, string_eq, leb, nat_eqb, if◌then◌else◌}
use kafkascope.Prelude.Dict.{Dict, insert, has_key}
use kafkascope.Prelude.Text.{strip, truthy, is_empty, all_chars, has_prefix}
use kafkascope.Failure.{Result, ok, err, value_error, ◌>>=◌, ◌>>◌, require}
use kafkascope.Failure.{unknown_protocol, unknown_mechanism, mechanism_required}
use kafkascope.Failure.{credentials_required, unknown_keys, cluster_name, brokers_required}
use kafkascope.Failure.{clusters_invalid_json, clusters_not_list, entry_not_object}
use kafkascope.Failure.{duplicate_cluster, users_required, auth_mode}
use kafkascope.Json
use kafkascope.Json.{Json, Members, get, items, json_truthy}

pub record ClusterConfig : Type 0 where
  pub name : String
  pub brokers : String
  pub security_protocol : String
  pub sasl_mechanism : String
  pub sasl_username : String
  pub sasl_password : String
  pub ssl_ca_location : String
  pub ssl_certificate_location : String
  pub ssl_key_location : String
  pub ssl_key_password : String
  pub ssl_endpoint_identification_algorithm : String
  pub schema_registry_url : String
  pub schema_registry_auth : String
  pub readonly : Bool

abbrev pub valid_protocols : List String
valid_protocols = "PLAINTEXT" ∷ "SSL" ∷ "SASL_PLAINTEXT" ∷ "SASL_SSL" ∷ []

abbrev pub userpass_sasl : List String
userpass_sasl = "PLAIN" ∷ "SCRAM-SHA-256" ∷ "SCRAM-SHA-512" ∷ []

abbrev pub valid_sasl : List String
valid_sasl = "PLAIN" ∷ "SCRAM-SHA-256" ∷ "SCRAM-SHA-512" ∷ "OAUTHBEARER" ∷ "GSSAPI" ∷ []

abbrev pub valid_auth_modes : List String
valid_auth_modes = "none" ∷ "basic" ∷ "proxy" ∷ []

-- `CLUSTER_NAME_RE`. The names that it is asked of are stripped, so none ends in a newline.
abbrev pub name_char : ℕ → Bool
name_char c =
    leb b'A' c && leb c b'Z'
    || (leb b'a' c && leb c b'z'
        || (leb b'0' c && leb c b'9' || (nat_eqb c b'.' || (nat_eqb c b'_' || nat_eqb c b'-'))))

unfoldable pub is_cluster_name : String → Bool
is_cluster_name s = truthy s && all_chars name_char s

abbrev pub sasl_complete : ClusterConfig → Result (Unit {0})
sasl_complete c = do
  require (truthy c.sasl_mechanism) (value_error (mechanism_required c.name))
  require
      (not (contains userpass_sasl c.sasl_mechanism)
        || (truthy c.sasl_username && truthy c.sasl_password))
      (value_error (credentials_required c.name))

abbrev pub sasl_check : ClusterConfig → Result (Unit {0})
sasl_check c = if has_prefix "SASL_" c.security_protocol then sasl_complete c else ok tt

-- `_coherent_security`
unfoldable pub coherent_security : ClusterConfig → Result (Unit {0})
coherent_security c = do
  require (contains valid_protocols c.security_protocol) (value_error (unknown_protocol c.name))
  require (not (truthy c.sasl_mechanism) || contains valid_sasl c.sasl_mechanism)
      (value_error (unknown_mechanism c.name))
  sasl_check c

-- Python's `str.upper` and `str.lower`, `str` of a JSON value that is no text, and `json.loads`.
pub record Python : Type 0 where
  pub upper : String → String
  pub lower : String → String
  pub str : Json → String
  pub loads : String → Option Json

abbrev pub cluster_fields : List String
cluster_fields =
    "name" ∷ "brokers" ∷ "security_protocol" ∷ "sasl_mechanism" ∷ "sasl_username" ∷ "sasl_password"
    ∷ "ssl_ca_location" ∷ "ssl_certificate_location" ∷ "ssl_key_location" ∷ "ssl_key_password"
    ∷ "ssl_endpoint_identification_algorithm" ∷ "schema_registry_url" ∷ "schema_registry_auth"
    ∷ "readonly" ∷ []

-- `set(data) - _CLUSTER_FIELDS`
abbrev pub unknown_of : Members → List String
unknown_of Json.end = []
unknown_of (Json.member k v ms) =
    if contains cluster_fields k then unknown_of ms else k ∷ unknown_of ms

abbrev pub none_unknown : List String → Bool
none_unknown [] = true
none_unknown (k ∷ ks) = false

abbrev pub flag : Option Json → Bool
flag none = false
flag (some v) = json_truthy v

module _ (P : Python) where
  abbrev pub text_of : Json → String
  text_of (Json.str s) = s
  text_of v = P.str v

  -- `str(data.get(key, default))`
  abbrev pub text_or : String → Option Json → String
  text_or default none = default
  text_or default (some v) = text_of v

  abbrev pub field : Members → String → String → String
  field ms key default = text_or default (get key ms)

  abbrev pub cluster_of : Members → ClusterConfig
  cluster_of ms = record {
    name = strip (field ms "name" "");
    brokers = strip (field ms "brokers" "");
    security_protocol = P.upper (strip (field ms "security_protocol" "PLAINTEXT"));
    sasl_mechanism = P.upper (strip (field ms "sasl_mechanism" ""));
    sasl_username = field ms "sasl_username" "";
    sasl_password = field ms "sasl_password" "";
    ssl_ca_location = field ms "ssl_ca_location" "";
    ssl_certificate_location = field ms "ssl_certificate_location" "";
    ssl_key_location = field ms "ssl_key_location" "";
    ssl_key_password = field ms "ssl_key_password" "";
    ssl_endpoint_identification_algorithm = field ms "ssl_endpoint_identification_algorithm" "";
    schema_registry_url = strip (field ms "schema_registry_url" "");
    schema_registry_auth = field ms "schema_registry_auth" "";
    readonly = flag (get "readonly" ms);
  }

  -- `_cluster_from_dict`
  unfoldable pub cluster_from_dict : Members → Result ClusterConfig
  cluster_from_dict ms = do
    require (none_unknown (unknown_of ms)) (value_error (unknown_keys (unknown_of ms)))
    let name = strip (field ms "name" "")
    require (is_cluster_name name) (value_error (cluster_name name))
    require (truthy (strip (field ms "brokers" ""))) (value_error (brokers_required name))
    coherent_security (cluster_of ms)
    ok (cluster_of ms)

  abbrev pub Clusters : Type 0
  Clusters = Dict String ClusterConfig

  abbrev pub entry_cluster : Json → Result ClusterConfig
  entry_cluster (Json.obj ms) = cluster_from_dict ms
  entry_cluster v = err (value_error entry_not_object)

  -- The loop over the entries of KAFKASCOPE_CLUSTERS.
  unfoldable pub collect_clusters : List Json → Clusters → Result Clusters
  collect_clusters [] clusters = ok clusters
  collect_clusters (entry ∷ entries) clusters = do
    cluster ← entry_cluster entry
    require (not (has_key cluster.name clusters)) (value_error (duplicate_cluster cluster.name))
    collect_clusters entries (insert cluster.name cluster clusters)
