-- ===== src/Cluster/Count.antt =====
-- The count that the page shows before a purge, and the count that the purge reports.
use kafkascope.Prelude.{ℤ, String, Option, none, some, List, [], ◌∷◌, map}
use kafkascope.Prelude.{◌+ℤ◌, ◌-ℤ◌, ◌≡◌, refl, ap, ◌∙◌, subst, string_eq}
use kafkascope.Prelude.Dict.{lookup, keys}
use kafkascope.Prelude.Text.{has_prefix}
use kafkascope.Failure.{ok, ok-injective}
use kafkascope.Kafka.{Kafka, TopicMetadata, delete_records}
use kafkascope.Kafka.Program.{Session, Program, pure, raise, lift, ask, request, ◌>>=◌}
use kafkascope.Kafka.Program.{traverse, refuse_if}
use kafkascope.Kafka.Program.Runs.{bind-returned, bind-of, refuse_if-returned}
use kafkascope.Client.{Context, is_readonly, require_writable}
use kafkascope.Groups.{topic_metadata, watermarks, or_not_found, healthy}
use kafkascope.Admin.{marks_of as purge_marks, sum_widths, end_of, purge_topic}
use kafkascope.Cluster.{marks_of, sum_marks, count_of, topic_message_count}

module _ (K : Kafka) where
  -- The marks that the purge reads, without their partitions.
  unfoldable bare : List (ℤ × ℤ × ℤ) → List (ℤ × ℤ)
  bare [] = []
  bare ((p, low, high) ∷ ms) = (low, high) ∷ bare ms

  sum_marks-bare : (ms : List (ℤ × ℤ × ℤ)) → sum_marks (bare ms) ≡ sum_widths ms
  unfolding bare
  sum_marks-bare [] = refl
  sum_marks-bare ((p, low, high) ∷ ms) = ap (λ n. (high -ℤ low) +ℤ n) (sum_marks-bare ms)

  moved :
      {A : Type 0} {s t : Session K} {a : A} (m : Program K A)
      → s ≡ t
      → (m s).0 ≡ ok a
      → (m t).0 ≡ ok a
  moved {a} m same e = subst (λ u. (m u).0 ≡ ok a) same e

  -- Both read the same watermarks.
  same_marks :
      (name : String) (ps : List ℤ) (s : Session K) {ms : List (ℤ × ℤ × ℤ)}
      → (traverse (purge_marks K name) ps s).0 ≡ ok ms
      → (marks_of K name ps s).0 ≡ ok (bare ms)
  unfolding bare traverse pure
  same_marks name [] s {ms} e = nothing ms e
    where
      nothing : (ms : List (ℤ × ℤ × ℤ)) → ok [] ≡ ok ms → ok [] ≡ ok (bare ms)
      nothing [] e = refl
      nothing (m ∷ ms) e = cc
  same_marks name (p ∷ ps) s {ms} e =
      let (y, e₁, k₁, _) = bind-returned (purge_marks K name p) _ s e in
      let (m, e₂, k₂, run₂) = bind-returned (watermarks K name p) _ s e₁ in
      let (ys, e₃, k₃, _) = bind-returned (traverse (purge_marks K name) ps) _ _ k₁ in
      let later =
        same_marks name ps (watermarks K name p s).1
          (moved (traverse (purge_marks K name) ps) (ap (λ r. r.1) run₂) e₃) in
      ap (λ r. r.0) (bind-of (watermarks K name p) _ s e₂)
      ∙ ap (λ r. r.0) (bind-of (marks_of K name ps) _ (watermarks K name p s).1 later)
      ∙ ap (λ z. ok (bare (z ∷ ys))) (ok-injective k₂)
      ∙ ap (λ l. ok (bare l)) (ok-injective k₃)

  counted :
      (name : String) (o : Option TopicMetadata) (s : Session K) {m : TopicMetadata}
      → (or_not_found K name o s).0 ≡ ok m
      → (o ≡ some m) × (or_not_found K name o s ≡ (ok m, s))
  unfolding pure raise
  counted name none s e = cc
  counted name (some m) s e = (ap some (ok-injective e), ap (λ r. (r, s)) e)

  -- A purge behind its checks.
  unfoldable tally : String → Program K ℤ
  tally name = topic_metadata K name >>= λ m.
      traverse (purge_marks K name) (keys m.partitions) >>= λ marks.
      request (delete_records (map (end_of name) marks)) >>= λ result. pure (sum_widths marks)

  counting :
      (name : String) (s : Session K) (n : ℤ)
      → (tally name s).0 ≡ ok n
      → (topic_message_count K name s).0 ≡ ok (some n)
  unfolding topic_message_count pure tally
  counting name s n e =
      let (m, e₁, k₁, run₁) = bind-returned (topic_metadata K name) _ s e in
      let (topics, e₂, k₂, run₂) = bind-returned (ask K.list_topics) _ s e₁ in
      let (found, run₃) = counted name (healthy (lookup name topics)) (ask K.list_topics s).1 k₂ in
      let (marks, e₄, k₄, _) =
        bind-returned (traverse (purge_marks K name) (keys m.partitions)) _ _ k₁ in
      let (result, e₅, k₅, _) =
        bind-returned (request (delete_records (map (end_of name) marks))) _ _ k₄ in
      let start = ap (λ r. r.1) run₂ ∙ ap (λ r. r.1) run₃ in
      let read =
        same_marks name (keys m.partitions) (ask K.list_topics s).1
          (moved (traverse (purge_marks K name) (keys m.partitions)) start e₄) in
      ap (λ r. r.0) (bind-of (ask K.list_topics) _ s e₂)
      ∙ ap (λ o. (count_of K name o (ask K.list_topics s).1).0) found
      ∙ ap (λ r. r.0) (bind-of (marks_of K name (keys m.partitions)) _ _ read)
      ∙ ap (λ w. ok (some w)) (sum_marks-bare marks ∙ ok-injective k₅)

  passed :
      (x : Context) (s : Session K) {u : Unit {0}}
      → (require_writable x s).0 ≡ ok u
      → (require_writable x s).1 ≡ s
  unfolding require_writable lift
  passed x s e =
      let (b, e₁, k, run) = bind-returned (lift (is_readonly x)) _ s e in
      ap (λ r. r.1) (run ∙ refuse_if-returned b _ s k)

  -- Where a purge returns, it reports exactly the count that the topic's page would have shown if it
  -- had asked at the same moment.
  pub topic_message_count-eq_purge :
      (x : Context) (name : String) (s : Session K) (n : ℤ)
      → (purge_topic K x name s).0 ≡ ok n
      → (topic_message_count K name s).0 ≡ ok (some n)
  unfolding purge_topic tally
  topic_message_count-eq_purge x name s n e =
      let (u₁, e₁, k₁, _) = bind-returned (require_writable x) _ s e in
      let (u₂, e₂, k₂, run₂) = bind-returned (refuse_if (has_prefix "__" name) _) _ _ k₁ in
      let same = ap (λ r. r.1) (refuse_if-returned (has_prefix "__" name) _ _ e₂) in
      counting name s n (moved (tally name) (same ∙ passed x s e₁) k₂)
