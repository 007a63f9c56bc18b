-- ===== src/Routers/Deliveries.antt =====
-- The route that produces one message: its records in the audit log, against what it sent.
use Prim.Native.String.{String}
use kafkascope.Prelude.{ℕ, ℤ, Bool, true, false, Option, List, [], ◌∷◌, ◌++◌, All}
use kafkascope.Prelude.{◌≡◌, refl, ◌∙◌, ◌⊎◌, inl, inr}
use kafkascope.Prelude.Text.{truthy}
use kafkascope.Failure.{Failure, Result, ok, err}
use kafkascope.Config.{ClusterConfig}
use kafkascope.Kafka.{Kafka, Request}
use kafkascope.Kafka.Program.{Session}
use kafkascope.Kafka.Program.Rules.{Outcome, Silent-lift}
use kafkascope.Kafka.Program.Asks.{Concludes, Concludes-bind, Concludes-weaken, Asks-Silent}
use kafkascope.Client.{current_cluster}
use kafkascope.Encode.{Library}
use kafkascope.Registry.Subjects.{Numbers}
use kafkascope.Produce.{Delivery, parse_headers}
use kafkascope.Produce.Message.Laws.{IsForMessage, IsSending, send_message-Concludes}
use kafkascope.Audit.{Caller}
use kafkascope.Routers.{Texts, Answer}
use kafkascope.Routers.Groups.{optional_int}
use kafkascope.Routers.Produce.{
  ProduceForm, message, is_told, send_run, sent_answer, failed, send_to, send,
}
use kafkascope.Routers.Laws.{Logs, logs, keeps}

module _ (K : Kafka) (L : Library) (N : Numbers) (encode : String → Result (List ℕ))
    (T : Texts) where
  -- The headers of the form, and its partition.
  abbrev pub IsRead : ProduceForm → List (String × String) → Option ℤ → Type 0
  IsRead f headers partition =
      (parse_headers f.headers ≡ ok headers)
      × (optional_int T (truthy f.partition) f.partition ≡ ok partition)

  -- A registration that the form wants.
  abbrev pub IsWanted : Caller → String → ProduceForm → Request → Type 0
  IsWanted c name f q =
      (headers : List (String × String)) × (partition : Option ℤ) × IsRead f headers partition
      × IsForMessage c.context (message name f headers partition) q

  -- The form's message.
  abbrev pub IsGiven : Caller → String → ProduceForm → Request → Type 0
  IsGiven c name f q =
      (headers : List (String × String)) × (partition : Option ℤ) × IsRead f headers partition
      × IsSending K L N encode c.context (message name f headers partition) q

  -- The registrations that the form wants came first; then one message and a record of it as done, or
  -- a record of the error, after the message or without it.
  abbrev pub IsConcluded :
      Caller → ClusterConfig → String → ProduceForm → Session K → Answer K → Type 0
  IsConcluded c cluster name f s a =
      (new : List Request) × All (IsWanted c name f) new
      × ((Logs c cluster "produce" name "ok" a
            × (q : Request) × (a.session.sent ≡ (s.sent ++ new) ++ q ∷ [])
            × IsGiven c name f q)
          ⊎ (Logs c cluster "produce" name "error" a
              × ((a.session.sent ≡ s.sent ++ new)
                  ⊎ ((q : Request) × (a.session.sent ≡ (s.sent ++ new) ++ q ∷ [])
                      × IsGiven c name f q))))

  -- Only a partition that is no number leaves no record, and then nothing was sent.
  abbrev pub IsDelivered :
      Caller → ClusterConfig → String → ProduceForm → Session K → Answer K → Type 0
  IsDelivered c cluster name f s a =
      IsConcluded c cluster name f s a
      ⊎ ((a.session ≡ s)
          × (a.log ≡ [])
          × (e : Failure) × (a.shown ≡ err e)
          × (optional_int T (truthy f.partition) f.partition ≡ err e))

  send_run-Concludes :
      (c : Caller) (name : String) (f : ProduceForm) (partition : Option ℤ)
      → optional_int T (truthy f.partition) f.partition ≡ ok partition
      → Concludes
          (send_run K L N encode T c name f partition)
          (IsWanted c name f)
          (IsGiven c name f)
  unfolding send_run
  send_run-Concludes c name f partition read =
      Concludes-bind
        (Asks-Silent (Silent-lift {Q = λ hs. parse_headers f.headers ≡ ok hs} _ (λ hs e. e)))
        λ headers parsed.
          Concludes-weaken
            (send_message-Concludes K L N encode c.context (message name f headers partition))
            (λ q p. (headers, partition, (parsed, read), p))
            λ q p. (headers, partition, (parsed, read), p)

  module _ (c : Caller) (cluster : ClusterConfig)
      (here : current_cluster c.context ≡ ok cluster) where
    answered :
        (name : String) (f : ProduceForm) (s : Session K) (r : Result Delivery × Session K)
        → ((new : List Request) × All (IsWanted c name f) new
            × Outcome (IsGiven c name f) (s.sent ++ new) r)
        → IsDelivered c cluster name f s (sent_answer K L N encode T c name f r)
    answered name f s (ok d, t) (new, ps, inl (same, (e, h))) = cc
    answered name f s (ok d, t) (new, ps, inr (q, sent, p)) = inl (
      new,
      ps,
      inl (logs c cluster here _ _ _ _ _ t, q, keeps c cluster here _ _ _ _ _ t ∙ sent, p),
    )
    answered name f s (err e, t) (new, ps, o) = inl (new, ps, inr (told (is_told e)))
      where
        before_or_after :
            {later : List Request}
            → later ≡ t.sent
            → Outcome {A = Delivery} (IsGiven c name f) (s.sent ++ new) (err e, t)
            → (later ≡ s.sent ++ new)
              ⊎ ((q : Request) × (later ≡ (s.sent ++ new) ++ q ∷ []) × IsGiven c name f q)
        before_or_after kept (inl (same, h)) = inl (kept ∙ same)
        before_or_after kept (inr (q, sent, p)) = inr (q, kept ∙ sent, p)

        told :
            (b : Bool)
            → Logs c cluster "produce" name "error" (failed K L N encode T c name f e b t)
              × (((failed K L N encode T c name f e b t).session.sent ≡ s.sent ++ new)
                  ⊎ ((q : Request) × ((failed K L N encode T c name f e b t).session.sent
                        ≡ (s.sent ++ new) ++ q ∷ [])
                      × IsGiven c name f q))
        told true =
            (logs c cluster here _ _ _ _ _ t, before_or_after (keeps c cluster here _ _ _ _ _ t) o)
        told false =
            (logs c cluster here _ _ _ _ _ t, before_or_after (keeps c cluster here _ _ _ _ _ t) o)

    pub send-IsDelivered :
        (name : String) (f : ProduceForm) (s : Session K)
        → IsDelivered c cluster name f s (send K L N encode T c name f s)
    unfolding send
    send-IsDelivered name f s = by_partition (optional_int T (truthy f.partition) f.partition) refl
      where
        by_partition :
            (o : Result (Option ℤ))
            → optional_int T (truthy f.partition) f.partition ≡ o
            → IsDelivered c cluster name f s (send_to K L N encode T c name f o s)
        by_partition (ok partition) read =
            answered name f s (send_run K L N encode T c name f partition s)
              ((send_run-Concludes c name f partition read).at s)
        by_partition (err e) read = inr (refl, refl, e, refl, read)
