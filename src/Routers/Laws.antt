-- ===== src/Routers/Laws.antt =====
-- What a route leaves behind: its record in the audit log, against what it sent.
use kafkascope.Prelude.{String, List, [], ◌∷◌, ◌++◌}
use kafkascope.Prelude.{string_eq, ◌≡◌, refl, ◌∙◌, ap, ◌⊎◌, inl, inr}
use kafkascope.Failure.{Result, ok, err, ◌>>=◌}
use kafkascope.Config.{ClusterConfig}
use kafkascope.Json.{Json}
use kafkascope.Kafka.{Kafka, Request}
use kafkascope.Kafka.Program.{Session}
use kafkascope.Kafka.Program.Rules.{Outcome}
use kafkascope.Client.{current_cluster}
use kafkascope.Audit.{Caller, AuditRecord, audit, record_of}
use kafkascope.Routers.{Texts, Answer, Fragment, finish, refuse, audited, logged}

-- The record is of this caller, on this cluster, and of this action.
pub record IsRecord (c : Caller) (cluster : ClusterConfig) (action target outcome : String)
    (r : AuditRecord) : Type 0 where
  pub user : r.user ≡ c.principal.name
  pub role : r.role ≡ c.principal.role
  pub on : r.cluster ≡ cluster.name
  pub did : r.action ≡ action
  pub to : r.target ≡ target
  pub went : r.outcome ≡ outcome

module _ {K : Kafka} where
  -- Exactly one record was logged, with this outcome.
  abbrev pub Logs : Caller → ClusterConfig → String → String → String → Answer K → Type 0
  Logs c cluster action target outcome a =
      (r : AuditRecord) × (a.log ≡ r ∷ []) × IsRecord c cluster action target outcome r

  -- One request more, which is allowed.
  abbrev pub Sent : (Request → Type 0) → List Request → Answer K → Type 0
  Sent P before a = (q : Request) × (a.session.sent ≡ before ++ q ∷ []) × P q

  -- One request that is allowed was sent and logged as done, or the service raised, after such a
  -- request or before, and that is logged, or nothing was sent and the page shows an error: then the
  -- refusal is logged, for the reason `D`, or nothing is, for the reason `U`.
  abbrev pub IsAccounted :
      Caller
      → ClusterConfig
      → String
      → String
      → (Request → Type 0)
      → Type 0
      → Type 0
      → List Request
      → Answer K
      → Type 0
  IsAccounted c cluster action target P D U before a =
      (Logs c cluster action target "ok" a × Sent P before a)
      ⊎ (Logs c cluster action target "error" a × ((a.session.sent ≡ before) ⊎ Sent P before a))
      ⊎ ((a.session.sent ≡ before)
          × ((D × Logs c cluster action target "denied" a) ⊎ (U × (a.log ≡ [])))
          × (m : String) × (a.shown ≡ ok (Fragment.error m)))

  module _ (c : Caller) (cluster : ClusterConfig)
      (here : current_cluster c.context ≡ ok cluster) where
    pub audited-eq :
        (action target outcome : String) (detail : List (String × Json)) (f : Fragment)
        (s : Session K)
        → audited c action target outcome detail f s
          ≡ logged (ok (record_of c cluster action target outcome detail)) f s
    unfolding audited audit
    audited-eq action target outcome detail f s =
        ap (λ o. logged (o >>= λ k. ok (record_of c k action target outcome detail)) f s) here

    pub logs :
        (action target outcome : String) (detail : List (String × Json)) (f : Fragment)
        (s : Session K)
        → Logs c cluster action target outcome (audited c action target outcome detail f s)
    logs action target outcome detail f s = (
      record_of c cluster action target outcome detail,
      ap (λ a. a.log) (audited-eq action target outcome detail f s),
      record { user = refl; role = refl; on = refl; did = refl; to = refl; went = refl },
    )

    pub keeps :
        (action target outcome : String) (detail : List (String × Json)) (f : Fragment)
        (s : Session K)
        → (audited c action target outcome detail f s).session.sent ≡ s.sent
    keeps action target outcome detail f s =
        ap (λ a. a.session.sent) (audited-eq action target outcome detail f s)

    module _ {A D U : Type 0} {P : Request → Type 0} (T : Texts) (action target : String) where
      pub finish-accounts :
          (more : List (String × Json)) (detail : A → List (String × Json)) (f : A → Fragment)
          (before : List Request) (r : Result A × Session K)
          → Outcome P before r
          → IsAccounted c cluster action target P D U before
              (finish T c action target more detail f r)
      unfolding finish
      finish-accounts more detail f before (ok a, s) (inl (same, (e, h))) = cc
      finish-accounts more detail f before (ok a, s) (inr (q, sent, p)) =
          inl (logs _ _ _ _ _ s, (q, keeps _ _ _ _ _ s ∙ sent, p))
      finish-accounts more detail f before (err e, s) (inl (same, h)) =
          inr (inl (logs _ _ _ _ _ s, inl (keeps _ _ _ _ _ s ∙ same)))
      finish-accounts more detail f before (err e, s) (inr (q, sent, p)) =
          inr (inl (logs _ _ _ _ _ s, inr (q, keeps _ _ _ _ _ s ∙ sent, p)))

    pub refuse-accounts :
        {P : Request → Type 0} {D U : Type 0} (action target complaint : String) (s : Session K)
        → D
        → IsAccounted c cluster action target P D U s.sent (refuse c action target complaint s)
    unfolding refuse
    refuse-accounts action target complaint s d = inr (
        inr (
          keeps _ _ _ _ _ s,
          inl (d, logs _ _ _ _ _ s),
          complaint,
          ap (λ a. a.shown) (audited-eq _ _ _ _ _ s),
        ))
