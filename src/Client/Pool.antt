-- ===== src/Client/Pool.antt =====
-- The long-lived clients of app/kafka_client.py, one for each cluster's name, and what each is
-- configured with. A client itself is an object of `confluent_kafka`.
pub mod Laws
mod Tests
use kafkascope.Prelude.{
  String, true, false, Option, none, some, List, [], ◌∷◌, ◌++◌, map, string_eq,
}
use kafkascope.Prelude.Dict.{Dict, lookup, insert}
use kafkascope.Failure.{Result, ok, err}
use kafkascope.Json.{Json, str, boolean}
use kafkascope.Config.{ClusterConfig}
use kafkascope.Client.{Context, base_config, current_cluster}

abbrev pub Configuration : Type 0
Configuration = List (String × Json)

-- `base_config`'s entries, as values of a configuration
abbrev pub shared : ClusterConfig → Configuration
shared c = map (λ (e : String × String). (e.0, str e.1)) (base_config c)

unfoldable pub producer_config : ClusterConfig → Configuration
producer_config c =
    shared c
    ++ ("client.id", str "kafkascope")
      ∷ ("acks", str "all")
      ∷ ("enable.idempotence", boolean true)
      ∷ []

-- `consumer(group_id)`
unfoldable pub consumer_config : String → ClusterConfig → Configuration
consumer_config group_id c =
    shared c
    ++ ("group.id", str group_id)
      ∷ ("enable.auto.commit", boolean false)
      ∷ ("auto.offset.reset", str "earliest")
      ∷ []

module _ {Client : Type 0} (open_client : Configuration → Client) where
  abbrev pub kept_or_opened :
      ClusterConfig
      → Configuration
      → Dict String Client
      → Option Client
      → Client × Dict String Client
  kept_or_opened c config pool (some client) = (client, pool)
  kept_or_opened c config pool none = (open_client config, insert c.name (open_client config) pool)

  abbrev pub client_of :
      (ClusterConfig → Configuration)
      → Dict String Client
      → Result ClusterConfig
      → Result Client × Dict String Client
  client_of config pool (err e) = (err e, pool)
  client_of config pool (ok c) =
      let r = kept_or_opened c (config c) pool (lookup c.name pool) in (ok r.0, r.1)

  -- `admin()`, with the clients after the call
  unfoldable pub admin : Context → Dict String Client → Result Client × Dict String Client
  admin x pool = client_of shared pool (current_cluster x)

  -- `producer()`
  unfoldable pub producer : Context → Dict String Client → Result Client × Dict String Client
  producer x pool = client_of producer_config pool (current_cluster x)

  -- The administrators' clients and the producers that a process has.
  pub record Clients : Type 0 where
    pub admins : Dict String Client
    pub producers : Dict String Client

  -- A call, for the cluster of its context.
  pub data Call : Type 0 where
    an_admin a_producer : Context → Call

  abbrev pub called : Call → Clients → Result Client × Clients
  called (an_admin x) p = let r = admin x p.admins in (r.0, record p { admins = r.1 })
  called (a_producer x) p = let r = producer x p.producers in (r.0, record p { producers = r.1 })

  -- The clients after a sequence of calls.
  unfoldable pub after_calls : List Call → Clients → Clients
  after_calls [] p = p
  after_calls (call ∷ calls) p = after_calls calls (called call p).1
