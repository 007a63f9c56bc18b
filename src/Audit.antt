-- ===== src/Audit.antt =====
-- `audit` of app/auth.py: the record of one attempt to change something. What the logger does with
-- it is not modelled.
use kafkascope.Prelude.{String, Option, List, [], ◌∷◌}
use kafkascope.Failure.{Result, ok, ◌>>=◌}
use kafkascope.Json.{Json, Items, nil, cons}
use kafkascope.Config.{ClusterConfig}
use kafkascope.Client.{Context, current_cluster}
use kafkascope.Auth.{Principal}

-- What a route knows of its request: who it is from, the settings with the cluster, the cluster of
-- `request.state`, the client's address if there is one, and the time at which `audit` runs.
pub record Caller : Type 0 where
  pub principal : Principal
  pub context : Context
  pub cluster : String
  pub host : Option String
  pub now : String

pub record AuditRecord : Type 0 where
  pub ts : String
  pub user : String
  pub role : String
  pub cluster : String
  pub action : String
  pub target : String
  pub outcome : String
  pub ip : Option String
  pub detail : List (String × Json)

abbrev pub record_of :
    Caller → ClusterConfig → String → String → String → List (String × Json) → AuditRecord
record_of c cluster action target outcome detail = record {
  ts = c.now;
  user = c.principal.name;
  role = c.principal.role;
  cluster = cluster.name;
  action = action;
  target = target;
  outcome = outcome;
  ip = c.host;
  detail = detail;
}

-- The record that is logged. It raises only where no cluster is selected and none is configured.
unfoldable pub audit : Caller → String → String → String → List (String × Json) → Result AuditRecord
audit c action target outcome detail =
    current_cluster c.context >>= λ cluster. ok (record_of c cluster action target outcome detail)

-- A JSON array of the values.
abbrev pub array : List Json → Items
array [] = nil
array (v ∷ vs) = cons v (array vs)
