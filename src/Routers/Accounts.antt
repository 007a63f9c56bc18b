-- ===== src/Routers/Accounts.antt =====
-- The routes that change something, together: nothing is asked of the broker without the typed
-- confirmation or without a record of it, and the record says how it went.
use kafkascope.Prelude.{ℤ, String, Bool, true, false, not, Option, none, some}
use kafkascope.Prelude.{◌==◌, string_eq, ◌≡◌, refl, inl, inr, eq_iff}
use kafkascope.Prelude.{if◌then◌else◌}
use kafkascope.Prelude.Text.{strip, truthy}
use kafkascope.Failure.{ok}
use kafkascope.Config.{ClusterConfig}
use kafkascope.Kafka.{Kafka, Request}
use kafkascope.Kafka.Program.{Session}
use kafkascope.Kafka.Program.Rules.{Sends, Sends-bind, Sends-weaken, Silent-lift}
use kafkascope.Client.{current_cluster}
use kafkascope.Groups.{ResetTarget, earliest, latest, timestamp, offset}
use kafkascope.Groups.Safety.{IsReset, reset_offsets-Sends, delete-Sends}
use kafkascope.Admin.Safety.{create_topic-Sends}
use kafkascope.Admin.Safety.{delete_topic-Sends, add_partitions-Sends, update_config-Sends}
use kafkascope.Admin.Safety.{purge_topic-Sends}
use kafkascope.Audit.{Caller}
use kafkascope.Routers.{Texts, Answer, Fragment, refuse, shows}
use kafkascope.Routers.Laws.{IsAccounted, finish-accounts, refuse-accounts}
use kafkascope.Routers.Topics as Topics
use kafkascope.Routers.Topics.{overrides_of, changes_of}
use kafkascope.Routers.Groups as Groups
use kafkascope.Routers.Groups.{
  ResetForm, target_of, reset_run, reset_to, reset_at, apply_reset, optional_int,
}
use kafkascope.Routers.Changes.{Change, create, edit_config, grow_partitions, purge, delete_topic}
use kafkascope.Routers.Changes.{
  reset, delete_group, action_of, target_name, handle, Allows, IsTime, IsMistyped,
}
use kafkascope.Routers.Changes.{IsUnreadable}

module _ (K : Kafka) (T : Texts) (c : Caller) where
  -- A reset, once its target is known.
  IsRead : ResetForm → String → ResetTarget → Option ℤ → Request → Type 0
  IsRead f g target t q =
      (partition : Option ℤ) × (optional_int T (truthy f.partition) f.partition ≡ ok partition)
      × (o : Option ℤ) × (optional_int T (truthy (strip f.offset)) f.offset ≡ ok o)
      × IsReset K c.context g f.topic partition target t o q

  reset_run-Sends :
      (g : String) (f : ResetForm) (target : ResetTarget) (t : Option ℤ)
      → Sends (reset_run K T c g f target t) (IsRead f g target t)
  unfolding reset_run IsRead
  reset_run-Sends g f target t =
      Sends-bind
        (Silent-lift {Q = λ p. optional_int T (truthy f.partition) f.partition ≡ ok p} _ (λ p e. e))
        λ partition read.
          Sends-bind
            (Silent-lift {Q = λ o. optional_int T (truthy (strip f.offset)) f.offset ≡ ok o} _
              (λ o e. e))
            λ o read'.
              Sends-weaken (reset_offsets-Sends K c.context g f.topic partition target t o)
                λ q p. (partition, read, o, read', p)

  module _ (cluster : ClusterConfig) (here : current_cluster c.context ≡ ok cluster) where
    -- A route that asks for the typed name.
    confirmed :
        {P : Request → Type 0} {D U : Type 0} (action name confirm complaint : String)
        (rest : Answer K) (s : Session K)
        → (¬ (strip confirm ≡ name) → D)
        → (strip confirm ≡ name → IsAccounted c cluster action name P D U s.sent rest)
        → IsAccounted c cluster action name P D U s.sent
            (if not (strip confirm == name) then refuse c action name complaint s else rest)
    confirmed {P} {D} {U} action name confirm complaint rest s wrong h =
        by_match (strip confirm == name) refl
      where
        other : (strip confirm == name) ≡ false → ¬ ((strip confirm == name) ≡ true)
        other e h = cc

        by_match :
            (b : Bool)
            → (strip confirm == name) ≡ b
            → IsAccounted c cluster action name P D U s.sent
                (if not b then refuse c action name complaint s else rest)
        by_match true typed = h ((eq_iff (strip confirm) name).0 typed)
        by_match false typed =
            refuse-accounts c cluster here action name complaint s
              (wrong λ same. other typed ((eq_iff (strip confirm) name).1 same))

    quiet :
        {P : Request → Type 0} {D U : Type 0} (action name complaint : String) (s : Session K)
        → U
        → IsAccounted c cluster action name P D U s.sent (shows (Fragment.error complaint) s)
    quiet action name complaint s u = inr (inr (refl, inr (u, refl), complaint, refl))

    -- A route's answer to a request, accounted for.
    abbrev pub Accounts : Change → Session K → Answer K → Type 0
    Accounts change s a =
        IsAccounted c cluster (action_of change) (target_name change) (Allows K T c change)
          (IsMistyped K T c change) (IsUnreadable K T c change) s.sent a

    applied-IsAccounted :
        (g : String) (f : ResetForm) (target : ResetTarget) (t : Option ℤ) (s : Session K)
        → target_of f.target ≡ some target
        → IsTime K T c target f t
        → strip f.confirm ≡ g
        → Accounts (reset g f) s (apply_reset K T c g f target t s)
    unfolding IsRead
    applied-IsAccounted g f target t s known at_time typed =
        finish-accounts c cluster here T _ _ _ _ _ s.sent _ (
          (Sends-weaken (reset_run-Sends g f target t) λ q (n, read, o, read', p).
              (typed, target, known, n, read, o, read', t, at_time, p)).at
            s)

    reset_to-IsAccounted :
        (g : String) (f : ResetForm) (o : Option ResetTarget) (s : Session K)
        → target_of f.target ≡ o
        → strip f.confirm ≡ g
        → Accounts (reset g f) s (reset_to K T c g f o s)
    reset_to-IsAccounted g f none s known typed = quiet _ _ _ s (typed, inl known)
    reset_to-IsAccounted g f (some timestamp) s known typed =
        by_text (truthy (strip f.timestamp)) (T.milliseconds (strip f.timestamp)) refl refl
      where
        by_time :
            (t : Option ℤ)
            → T.milliseconds (strip f.timestamp) ≡ t
            → Accounts (reset g f) s (reset_at K T c g f t s)
        by_time none e = quiet _ _ _ s (typed, inr (known, inr e))
        by_time (some t) e = applied-IsAccounted g f timestamp (some t) s known (t, refl, e) typed

        by_text :
            (b : Bool) (t : Option ℤ)
            → truthy (strip f.timestamp) ≡ b
            → T.milliseconds (strip f.timestamp) ≡ t
            → Accounts (reset g f) s (
                if b
                then reset_at K T c g f t s
                else shows (Fragment.error "Pick a time to reset to") s)
        by_text true t b e = by_time t e
        by_text false t b e = quiet _ _ _ s (typed, inr (known, inl b))
    reset_to-IsAccounted g f (some earliest) s known typed =
        applied-IsAccounted g f earliest none s known refl typed
    reset_to-IsAccounted g f (some latest) s known typed =
        applied-IsAccounted g f latest none s known refl typed
    reset_to-IsAccounted g f (some offset) s known typed =
        applied-IsAccounted g f offset none s known refl typed

    -- Of every request to a route of topics or of groups that changes something, on a cluster: either
    -- the broker was asked for exactly one change, and exactly one record tells of it as done; or the
    -- service raised, before or after such a change was asked for, and exactly one record tells of
    -- the error; or the broker was asked for nothing, and the page shows an error. Then the name that
    -- had to be typed was not, and exactly one record tells of the refusal; or it is a confirmed
    -- reset with an unknown target, or with a time that is missing or cannot be read, the only
    -- request that leaves no record. A change is what the service allows, and a purge, a deletion or
    -- a reset only where the name was typed. The record bears the user, the cluster, the action and
    -- its target.
    pub handle-IsAccounted :
        (change : Change) (s : Session K)
        → IsAccounted c cluster
            (action_of change)
            (target_name change)
            (Allows K T c change)
            (IsMistyped K T c change)
            (IsUnreadable K T c change)
            s.sent
            (handle K T c change s)
    unfolding handle Topics.create Topics.edit_config Topics.grow_partitions Topics.purge
        Topics.delete Groups.reset Groups.delete
    handle-IsAccounted (create name n r form) s =
        finish-accounts c cluster here T _ _ _ _ _ s.sent _
          ((create_topic-Sends K c.context name n r (overrides_of form)).at s)
    handle-IsAccounted (edit_config name form) s =
        finish-accounts c cluster here T _ _ _ _ _ s.sent _
          ((update_config-Sends K c.context name (changes_of form)).at s)
    handle-IsAccounted (grow_partitions name total) s =
        finish-accounts c cluster here T _ _ _ _ _ s.sent _
          ((add_partitions-Sends K c.context name total).at s)
    handle-IsAccounted (purge name confirm) s =
        confirmed "purge_topic" name confirm _ _ s (λ w. (confirm, refl, w))
          λ typed.
            finish-accounts c cluster here T _ _ _ _ _ s.sent _
              ((Sends-weaken (purge_topic-Sends K c.context name) λ q p. (typed, p)).at s)
    handle-IsAccounted (delete_topic name confirm) s =
        confirmed "delete_topic" name confirm _ _ s (λ w. (confirm, refl, w))
          λ typed.
            finish-accounts c cluster here T _ _ _ _ _ s.sent _
              ((Sends-weaken (delete_topic-Sends K c.context name) λ q p. (typed, p)).at s)
    handle-IsAccounted (reset g f) s =
        confirmed "reset_offsets" g f.confirm _ _ s (λ w. (f.confirm, refl, w))
          λ typed. reset_to-IsAccounted g f (target_of f.target) s refl typed
    handle-IsAccounted (delete_group g confirm) s =
        confirmed "delete_group" g confirm _ _ s (λ w. (confirm, refl, w))
          λ typed.
            finish-accounts c cluster here T _ _ _ _ _ s.sent _
              ((Sends-weaken (delete-Sends K c.context g) λ q p. (typed, p)).at s)
