-- ===== src/Serve.antt =====
-- The application of app/main.py around a route that writes: the gate, then the route.
pub mod Laws
mod Tests
use kafkascope.Prelude.{ℕ, List, String, Option, none, some, []}
use kafkascope.Failure.{Result, ok, err}
use kafkascope.Config.{ClusterConfig}
use kafkascope.Client.{Context}
use kafkascope.Kafka.{Kafka}
use kafkascope.Kafka.Program.{Session}
use kafkascope.Auth.{Principal, Crypto}
use kafkascope.Gate.{Incoming, admit_write}
use kafkascope.Audit.{Caller}
use kafkascope.Routers.{Texts, Answer}
use kafkascope.Routers.Changes.{Change, handle}
use kafkascope.Routers.Produce.{ProduceForm, send}
use kafkascope.Encode.{Library}
use kafkascope.Registry.Subjects.{Numbers}

-- `request.state.cluster.name`, which `select_cluster` sets
abbrev pub state_cluster : Option ClusterConfig → String
state_cluster none = ""
state_cluster (some c) = c.name

abbrev pub caller : Option String → String → Context → Principal → Caller
caller host now y q = record {
  principal = q;
  context = y;
  cluster = state_cluster y.current;
  host = host;
  now = now;
}

-- A request to a route that writes: a change of topics or of groups, or the form of a message.
pub data Post : Type 0 where
  change : Change → Post
  produce : String → ProduceForm → Post

module _ (K : Kafka) (L : Library) (N : Numbers) (encode : String → Result (List ℕ)) (T : Texts)
    (sign : String → String) (C : Crypto) where
  abbrev pub route : Caller → Post → Session K → Answer K
  route c (change h) s = handle K T c h s
  route c (produce name f) s = send K L N encode T c name f s

  abbrev pub routed :
      Option String → String → Post → Session K → Result (Context × Principal) → Answer K
  routed host now post s (err e) = record { shown = err e; log = []; session = s }
  routed host now post s (ok (y, q)) = route (caller host now y q) post s

  -- A request from a host at a time, with the random text that its token would take.
  unfoldable pub serve :
      String → Context → Incoming → Option String → String → Post → Session K → Answer K
  serve fresh x r host now post s = routed host now post s (admit_write sign C fresh x r)
