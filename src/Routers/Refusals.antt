-- ===== src/Routers/Refusals.antt =====
-- The routes that ask for a typed name, where it does not match.
use kafkascope.Prelude.{String, Bool, true, false, not, some}
use kafkascope.Prelude.{◌==◌, string_eq, ◌≡◌, ◌≢◌, refl, ap, subst, eq_iff}
use kafkascope.Prelude.{if◌then◌else◌}
use kafkascope.Prelude.Text.{strip}
use kafkascope.Failure.{ok}
use kafkascope.Config.{ClusterConfig}
use kafkascope.Kafka.{Kafka}
use kafkascope.Kafka.Program.{Session}
use kafkascope.Client.{current_cluster}
use kafkascope.Audit.{Caller}
use kafkascope.Routers.{Texts, Answer, Fragment, refuse}
use kafkascope.Routers.Laws.{Logs, logs, audited-eq}
use kafkascope.Routers.Topics as Topics
use kafkascope.Routers.Topics.{overrides_of, changes_of}
use kafkascope.Routers.Groups as Groups
use kafkascope.Routers.Groups.{
  ResetForm, target_of, reset_run, reset_to, reset_at, apply_reset, optional_int,
}
use kafkascope.Routers.Changes.{Change, create, edit_config, grow_partitions, purge, delete_topic}
use kafkascope.Routers.Changes.{
  reset, delete_group, action_of, target_name, confirmation_of, handle,
}

retype :
    {typed confirm name : String}
    → some typed ≡ some confirm
    → strip confirm ≢ name
    → strip typed ≢ name
retype {name} asked wrong = subst (λ t. strip t ≢ name) (same asked) wrong
  where
    same : {t u : String} → some t ≡ some u → u ≡ t
    same h = cc

module _ (K : Kafka) (T : Texts) (c : Caller) where
  module _ (cluster : ClusterConfig) (here : current_cluster c.context ≡ ok cluster) where
    -- A refusal leaves the broker alone, and one record tells of it.
    abbrev pub IsRefused : String → String → Session K → Answer K → Type 0
    IsRefused action target s a =
        (a.session ≡ s)
        × Logs c cluster action target "denied" a
        × (m : String) × (a.shown ≡ ok (Fragment.error m))

    refuse-IsRefused :
        (action name complaint : String) (s : Session K)
        → IsRefused action name s (refuse c action name complaint s)
    unfolding refuse
    refuse-IsRefused action name complaint s = (
      ap (λ a. a.session) (audited-eq c cluster here _ _ _ _ _ s),
      logs c cluster here _ _ _ _ _ s,
      complaint,
      ap (λ a. a.shown) (audited-eq c cluster here _ _ _ _ _ s),
    )

    refused :
        (action name confirm complaint : String) (rest : Answer K) (s : Session K)
        → strip confirm ≢ name
        → IsRefused action name s
            (if not (strip confirm == name) then refuse c action name complaint s else rest)
    refused action name confirm complaint rest s wrong =
        by_match (strip confirm == name) ((eq_iff (strip confirm) name).0)
      where
        by_match :
            (b : Bool)
            → (b ≡ true → strip confirm ≡ name)
            → IsRefused action name s (if not b then refuse c action name complaint s else rest)
        by_match true typed = elim (wrong (typed refl)) [ ]
        by_match false typed = refuse-IsRefused action name complaint s

    -- A purge, a deletion of a topic or a group, or a reset whose typed name is not the target's does
    -- not even read from the broker: the session is as before, the page shows an error, and exactly
    -- one record tells of the denial.
    pub handle-IsRefused :
        (change : Change) (confirm : String) (s : Session K)
        → confirmation_of change ≡ some confirm
        → strip confirm ≢ target_name change
        → IsRefused (action_of change) (target_name change) s (handle K T c change s)
    unfolding handle Topics.purge Topics.delete Groups.reset Groups.delete
    handle-IsRefused (purge name typed) confirm s asked wrong =
        refused "purge_topic" name typed _ _ s (retype asked wrong)
    handle-IsRefused (delete_topic name typed) confirm s asked wrong =
        refused "delete_topic" name typed _ _ s (retype asked wrong)
    handle-IsRefused (reset g f) confirm s asked wrong =
        refused "reset_offsets" g f.confirm _ _ s (retype asked wrong)
    handle-IsRefused (delete_group g typed) confirm s asked wrong =
        refused "delete_group" g typed _ _ s (retype asked wrong)
    handle-IsRefused (create name n r form) confirm s asked wrong = cc
    handle-IsRefused (edit_config name form) confirm s asked wrong = cc
    handle-IsRefused (grow_partitions name total) confirm s asked wrong = cc
