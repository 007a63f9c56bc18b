-- ===== src/Lib.antt =====
-- kafkascope, a web interface to Kafka: the parts of it that decide something.
--
-- The program is a FastAPI application in app/. A request passes the CSRF check (app/csrf.py) and
-- authentication (app/auth.py, app/main.py), is pinned to one of the configured clusters (app/config.py,
-- app/kafka_client.py), and ends in a service of app/services/, which talks to the broker through
-- confluent_kafka and to the schema registry over HTTP.
--
-- Which file models which part:
--
-- - Config, Config/Users, Settings: app/config.py. `ClusterConfig`, `_coherent_security`,
--   `_cluster_from_dict`, `parse_users`, and the validators of `Settings` in their order.
-- - Client, Client/Pool: app/kafka_client.py. `Context` is the settings with the ContextVar, and the
--   process's clients are a dict by the cluster's name.
-- - Kafka, Kafka/Program: the broker as a parameter, and the steps of a service over it. A session holds
--   the world behind the client and every change that was asked of the broker, in order. An exception is
--   an `err`. Closing a consumer is no step.
-- - Groups, Admin: app/services/groups.py and app/services/admin.py as such programs.
-- - Cluster: app/services/cluster.py, the overview and one topic, as programs that only read.
-- - Produce: `parse_headers` and `send` of app/services/produce.py. Produce/Message: `_encode_field` and
--   `send_message`.
-- - Csrf, Auth: app/csrf.py, app/auth.py and `select_cluster` of app/main.py.
-- - Gate: what a write passes before its service, in the order of the middlewares and dependencies of
--   app/main.py.
-- - Serve: the gate, then the route, for the routes of topics, of groups and of produced messages.
-- - Audit, Routers: `audit` of app/auth.py, and the routes. Routers/Topics is app/routers/admin.py,
--   Routers/Groups is app/routers/groups.py, Routers/Produce is app/routers/produce.py,
--   Routers/Messages is app/routers/messages.py, and Routers/Pages and Routers/Schemas are the pages
--   that only show. A route maps a session to a fragment or an exception, the records that were logged,
--   and the session that it leaves.
-- - Registry: `SchemaRegistry.schema_by_id` of app/services/schema_registry.py, with the cache as state
--   and the network as a parameter whose answers may change. Registry/Subjects: `latest_by_subject`,
--   `register` and `registry_for_cluster`, over the same world as the broker.
-- - Wire/Varint, Wire/Proto: the protobuf reader of app/services/decode.py, on lists of bytes.
-- - Decode, Encode: the rest of app/services/decode.py, and app/services/encode.py.
-- - Filter: `_json_lookup` and `matches` of app/services/messages.py.
-- - Scan: `_plan` and `_tail_assignments` of app/services/messages.py. Scan/Record: `_build` and
--   `fetch_one`. Scan/Loop: `scan` and `tail`, as the list of the events that they yield, over a consumer
--   and a decoder that are parameters; Scan/Stream gives them the decoder of Scan/Record.
-- - Failure: Python's exceptions as values. Json: what `json.loads` returns. Prelude: numbers, lists,
--   texts and dicts. Samples: inputs of the tests.
--
-- Integers that may be negative are `ℤ`; bytes, lengths and schema ids are natural numbers. Texts are
-- lists of code points. What belongs to Python or to a third party (case conversion, `json`, UTF-8,
-- base64, SHA-256, HMAC, fastavro, confluent_kafka, HTTP) is an argument.
--
-- The walk over protobuf fields runs on fuel, the number of the input's bytes; each field takes at least
-- one byte, so that is enough, for nested messages too. The loops of a scan and of a tail run on fuel, one
-- unit for each poll: `max_scan + 1` units are enough for a scan, and a tail runs until its browser leaves,
-- so that what is said of it holds for any number of polls. All other loops are structural recursion.
--
-- Not modelled: rendering, the form that a message is typed into, the form of a new topic, what the
-- logger does with an audit record, the security headers, and reading the environment.
pub mod Prelude
pub mod Failure
pub mod Json
pub mod Wire
pub mod Encode
pub mod Registry
pub mod Decode
pub mod Filter
pub mod Kafka
pub mod Config
pub mod Settings
pub mod Client
pub mod Groups
pub mod Admin
pub mod Produce
pub mod Gate
pub mod Scan
pub mod Cluster
pub mod Samples
pub mod Csrf
pub mod Auth
pub mod Audit
pub mod Routers
pub mod Serve
