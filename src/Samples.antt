-- ===== src/Samples.antt =====
-- Concrete inputs that the tests share: an instance with one cluster, and a broker with one topic of
-- two partitions and one group.
use kafkascope.Registry.Subjects.{Numbers}
use kafkascope.Json
use kafkascope.Json.{Json, str}
use kafkascope.Encode.{Library}
use kafkascope.Kafka.{Reply}
use kafkascope.Prelude.{ℤ, false, true, some, none, [], ◌∷◌, if◌then◌else◌, ◌==◌, int_eq}
use kafkascope.Failure.{ok}
use kafkascope.Config.{ClusterConfig, Python}
use kafkascope.Settings.{Settings, Instance}
use kafkascope.Client.{Context}
use kafkascope.Routers.{Texts}
use kafkascope.Kafka.{Kafka, PartitionMetadata, TopicMetadata, Description}
use kafkascope.Kafka.Program.{Session}

-- A Python for texts in which case does not matter.
abbrev pub caseless : Python
caseless = record { upper = λ s. s; lower = λ s. s; str = λ v. ""; loads = λ s. none }

-- Every text is read and written as the one byte 104; an Avro schema is the text that it came as.
abbrev pub sample : Library
sample = record {
  codecs = record { utf8 = λ bs. some "h"; is_printable = λ t. true; b64 = λ bs. "?" };
  loads = λ t. some (str t);
  loads_bytes = λ bs. some (str "h");
  dumps = λ v. "\"h\"";
  utf8_bytes = λ t. 104 ∷ [];
  decimal = λ n. "1";
  AvroSchema = Json;
  parse_schema = λ v. ok v;
  write_avro = λ s v. some (104 ∷ []);
  read_avro = λ s bs. some s;
}

abbrev pub dev_settings : Settings
dev_settings = record {
  kafka_brokerconnect = "localhost:9092";
  kafkascope_readonly = false;
  kafkascope_cluster_name = "dev";
  kafkascope_scan_limit = ℤ.pos 50000;
  kafka_security_protocol = "SASL_SSL";
  kafka_sasl_mechanism = "PLAIN";
  kafka_sasl_username = "ann";
  kafka_sasl_password = "secret";
  kafka_ssl_ca_location = "";
  kafka_ssl_certificate_location = "";
  kafka_ssl_key_location = "";
  kafka_ssl_key_password = "";
  kafka_ssl_endpoint_identification_algorithm = "";
  kafkascope_clusters = "";
  kafkascope_schema_registry_url = "";
  kafkascope_schema_registry_auth = "";
  kafkascope_auth_mode = "none";
  kafkascope_users = "";
  kafkascope_proxy_user_header = "X-User";
  kafkascope_proxy_groups_header = "X-Groups";
  kafkascope_admin_groups = "ops";
}

abbrev pub dev_cluster : ClusterConfig
dev_cluster = record {
  name = "dev";
  brokers = "localhost:9092";
  security_protocol = "SASL_SSL";
  sasl_mechanism = "PLAIN";
  sasl_username = "ann";
  sasl_password = "secret";
  ssl_ca_location = "";
  ssl_certificate_location = "";
  ssl_key_location = "";
  ssl_key_password = "";
  ssl_endpoint_identification_algorithm = "";
  schema_registry_url = "";
  schema_registry_auth = "";
  readonly = false;
}

abbrev pub dev_instance : Instance
dev_instance = record { settings = dev_settings; clusters = ("dev", dev_cluster) ∷ [] }

abbrev pub dev_context : Context
dev_context = record { instance = dev_instance; current = none }

abbrev pub one_leader : PartitionMetadata
one_leader = record { leader = ℤ.pos 1; replicas = ℤ.pos 1 ∷ []; isrs = ℤ.pos 1 ∷ [] }

abbrev pub orders : TopicMetadata
orders = record { error = none; partitions = (ℤ.pos 1, one_leader) ∷ (ℤ.pos 0, one_leader) ∷ [] }

abbrev pub idle : Description
idle = record { state = "EMPTY"; is_simple = false; members = []; coordinator = none }

-- Partition 0 holds the offsets 10 to 19, any other 5 to 6.
abbrev pub dev_broker : Kafka
dev_broker = record {
  World = Unit;
  list_topics = λ w. (ok (("orders", orders) ∷ []), w);
  get_watermark_offsets =
      λ topic p w. (ok (if p == ℤ.pos 0 then (ℤ.pos 10, ℤ.pos 20) else (ℤ.pos 5, ℤ.pos 7)), w);
  offsets_for_times = λ tps w. (ok tps, w);
  describe_group = λ g w. (ok idle, w);
  committed_offsets = λ g w. (ok [], w);
  perform = λ r w. (ok [], w);
  list_brokers = λ w.
      (ok ((ℤ.pos 1, record { id = ℤ.pos 1; host = "kafka"; port = ℤ.pos 9092 }) ∷ [], ℤ.pos 1), w);
  list_groups = λ w. (ok ("g" ∷ []), w);
  describe_configs = λ name w. (ok [], w);
  get_latest = λ url auth subject w. (Reply.http_status 404 "", w);
  post_schema =
      λ r w. (Reply.body (Json.obj (Json.member "id" (Json.number (ℤ.pos 7)) Json.end)), w);
}

-- Python's texts, where every number is ten and no time can be read.
abbrev pub plain_texts : Texts
plain_texts = record {
  str_of = λ e. "failed";
  class_name = λ e. "Exception";
  repr = λ t. t;
  int_of = λ t. ok (ℤ.pos 10);
  milliseconds = λ t. none;
}

-- A cluster with a schema registry, and Python on it.
abbrev pub registry_context : Context
registry_context = record {
  instance = dev_instance;
  current = some (record dev_cluster { schema_registry_url = "http://registry/" });
}

abbrev pub fresh : Session dev_broker
fresh = record { world = tt; sent = [] }

abbrev pub numbers : Numbers
numbers = record { upper = λ t. t; int_of = λ v. ok (ℤ.pos 7) }
