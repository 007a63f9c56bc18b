-- ===== src/Serve/Laws.antt =====
-- What stands behind everything that the routes that write ask for.
use kafkascope.Prelude.{String, true, false, Option, contains, string_eq, ◌≡◌, refl}
use kafkascope.Prelude.{◌⊎◌, inl, inr}
use kafkascope.Failure.{Result, ok, err}
use kafkascope.Client.{Context}
use kafkascope.Kafka.{Kafka}
use kafkascope.Kafka.Program.{Session}
use kafkascope.Csrf.{safe_methods, enforced, is_exempt}
use kafkascope.Auth.{Principal, Crypto}
use kafkascope.Gate.{Incoming, admit_write}
use kafkascope.Gate.Laws.{IsAdmitted, admit_write-IsAdmitted}
use kafkascope.Routers.{Texts, Answer}
use kafkascope.Routers.Laws.{IsAccounted, Logs, Sent}
use kafkascope.Routers.Changes.{Change, action_of, target_name, handle, Allows, IsMistyped}
use kafkascope.Routers.Changes.{IsUnreadable}
use kafkascope.Routers.Accounts.{handle-IsAccounted}
use kafkascope.Serve.{Post, change, produce, caller, route, routed, serve}
use kafkascope.Routers.Produce.{ProduceForm}
use kafkascope.Routers.Deliveries.{IsConcluded, IsDelivered, send-IsDelivered}
use kafkascope.Encode.{Library}
use kafkascope.Registry.Subjects.{Numbers}
use kafkascope.Routers.Produce.{send}
use kafkascope.Audit.{Caller}
use kafkascope.Config.{ClusterConfig}
use kafkascope.Client.{current_cluster}
use kafkascope.Prelude.{ℕ, List, ap}

module _ (K : Kafka) (L : Library) (N : Numbers) (encode : String → Result (List ℕ)) (T : Texts)
    (sign : String → String) (C : Crypto) where
  -- What the broker was asked for, as the route allows it, and the one record that tells of it.
  abbrev pub IsRecorded : Caller → ClusterConfig → Post → Session K → Answer K → Type 0
  IsRecorded c cluster (change h) s a =
      Sent (Allows K T c h) s.sent a
      × (Logs c cluster (action_of h) (target_name h) "ok" a
          ⊎ Logs c cluster (action_of h) (target_name h) "error" a)
  IsRecorded c cluster (produce name f) s a = IsConcluded K L N encode T c cluster name f s a

  -- An admitted admin stands behind it.
  abbrev pub IsTraced :
      Context → Incoming → Option String → String → Post → Session K → Answer K → Type 0
  IsTraced x r host now post s a =
      (y : Context) × (q : Principal) × (admitted : IsAdmitted sign C x r y q) × IsRecorded
        (caller host now y q) admitted.cluster post s a

  changed :
      (c : Caller) (cluster : ClusterConfig) (h : Change) (s : Session K) (a : Answer K)
      → IsAccounted c cluster
          (action_of h)
          (target_name h)
          (Allows K T c h)
          (IsMistyped K T c h)
          (IsUnreadable K T c h)
          s.sent
          a
      → (a.session.sent ≡ s.sent) ⊎ IsRecorded c cluster (change h) s a
  changed c cluster h s a (inl (logged, sent)) = inr (sent, inl logged)
  changed c cluster h s a (inr (inl (logged, inl same))) = inl same
  changed c cluster h s a (inr (inl (logged, inr sent))) = inr (sent, inr logged)
  changed c cluster h s a (inr (inr (same, rest, m, shown))) = inl same

  delivered :
      (c : Caller) (cluster : ClusterConfig) (name : String) (f : ProduceForm) (s : Session K)
      (a : Answer K)
      → IsDelivered K L N encode T c cluster name f s a
      → (a.session.sent ≡ s.sent) ⊎ IsRecorded c cluster (produce name f) s a
  delivered c cluster name f s a (inl concluded) = inr concluded
  delivered c cluster name f s a (inr (same, quiet, e, shown, read)) =
      inl (ap (λ (t : Session K). t.sent) same)

  route-IsRecorded :
      (c : Caller) (cluster : ClusterConfig)
      → current_cluster c.context ≡ ok cluster
      → (post : Post) (s : Session K)
      → ((route K L N encode T sign C c post s).session.sent ≡ s.sent)
        ⊎ IsRecorded c cluster post s (route K L N encode T sign C c post s)
  route-IsRecorded c cluster here (change h) s =
      changed c cluster h s (handle K T c h s) (handle-IsAccounted K T c cluster here h s)
  route-IsRecorded c cluster here (produce name f) s =
      delivered c cluster name f s (send K L N encode T c name f s)
        (send-IsDelivered K L N encode T c cluster here name f s)

  -- With authentication on, a request to a route that writes, on a path that is not exempt, asks the
  -- broker for no change and the registry for no schema to be stored, or it is traced: its cookie was
  -- signed and repeated, its sender authenticated as an admin, its cluster configured and writable. A
  -- change of topics or of groups is then exactly one request, which the route allows, with the typed
  -- name where that is needed. A produced message is asked for at most once, as its form says, after
  -- no registrations but those that the form wants. Either way exactly one audit record names that
  -- sender, that cluster, the action and its target, as done or as an error.
  pub serve-IsTraced :
      (fresh : String) (x : Context) (r : Incoming) (host : Option String) (now : String)
      (post : Post) (s : Session K)
      → enforced x.instance.settings.kafkascope_auth_mode ≡ true
      → contains safe_methods r.method ≡ false
      → is_exempt r.path ≡ false
      → ((serve K L N encode T sign C fresh x r host now post s).session.sent ≡ s.sent)
        ⊎ IsTraced x r host now post s (serve K L N encode T sign C fresh x r host now post s)
  unfolding serve
  serve-IsTraced fresh x r host now post s on unsafe guarded =
      by_gate (admit_write sign C fresh x r) refl
    where
      traced :
          (y : Context) (q : Principal) (admitted : IsAdmitted sign C x r y q) (a : Answer K)
          → ((a.session.sent ≡ s.sent) ⊎ IsRecorded (caller host now y q) admitted.cluster post s a)
          → (a.session.sent ≡ s.sent) ⊎ IsTraced x r host now post s a
      traced y q admitted a (inl same) = inl same
      traced y q admitted a (inr recorded) = inr (y, q, admitted, recorded)

      by_gate :
          (g : Result (Context × Principal))
          → admit_write sign C fresh x r ≡ g
          → ((routed K L N encode T sign C host now post s g).session.sent ≡ s.sent)
            ⊎ IsTraced x r host now post s (routed K L N encode T sign C host now post s g)
      by_gate (err e) passed = inl refl
      by_gate (ok (y, q)) passed =
          let admitted = admit_write-IsAdmitted sign C fresh x y r q on unsafe guarded passed in
          traced y q admitted (route K L N encode T sign C (caller host now y q) post s)
            (route-IsRecorded (caller host now y q) admitted.cluster admitted.selected post s)
