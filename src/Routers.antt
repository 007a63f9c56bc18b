-- ===== src/Routers.antt =====
-- What the routes that change something have in common: the result that a page shows, and the record
-- that the audit log gets. The routes are those of app/routers/admin.py, app/routers/groups.py
-- and app/routers/produce.py; they run behind the gate of a write.
pub mod Topics
pub mod Groups
pub mod Produce
pub mod Laws
pub mod Changes
pub mod Accounts
pub mod Refusals
pub mod Deliveries
pub mod Pages
pub mod Messages
pub mod Schemas
mod Tests
use kafkascope.Prelude.{ℤ, String, Bool, true, false, Option, List, [], ◌∷◌, ◌++◌}
use kafkascope.Prelude.{if◌then◌else◌}
use kafkascope.Prelude.Text.{truthy}
use kafkascope.Failure.{Failure, Result, ok, err, value_error, lookup_error, permission_error}
use kafkascope.Failure.{runtime_error, key_error}
use kafkascope.Json.{Json, str}
use kafkascope.Kafka.{Kafka}
use kafkascope.Kafka.Program.{Session}
use kafkascope.Groups.{PartitionOffset}
use kafkascope.Produce.{Delivery}
use kafkascope.Audit.{Caller, AuditRecord, audit}

-- What the result templates are rendered from, `_admin_result.html`, `_group_result.html`
-- and `_produce_result.html`.
pub data Fragment : Type 0 where
  error : String → Fragment
  created : String → Fragment
  configured : String → String → Fragment
  purged : String → ℤ → String → Fragment
  deleted : String → Fragment
  applied : List PartitionOffset → String → Fragment
  delivered : Delivery → Fragment

-- Python's `str` of an exception, the name of its class, `repr` and `int` of a text, and the milliseconds of
-- `datetime.fromisoformat` in UTC (`none` is its `ValueError`).
pub record Texts : Type 0 where
  pub str_of : Failure → String
  pub class_name : Failure → String
  pub repr : String → String
  pub int_of : String → Result ℤ
  pub milliseconds : String → Option ℤ

-- What a request comes to: the fragment or an exception, the records that were logged, and the
-- session that it leaves.
pub record Answer (K : Kafka) : Type 0 where
  pub shown : Result Fragment
  pub log : List AuditRecord
  pub session : Session K

-- `isinstance(exc, (ValueError, LookupError, PermissionError, RuntimeError))`
abbrev pub is_expected : Failure → Bool
is_expected (value_error r) = true
is_expected (lookup_error r) = true
is_expected (key_error r) = true
is_expected (permission_error r) = true
is_expected (runtime_error r) = true
is_expected e = false

-- `a or b` on texts
abbrev pub or_else : String → String → String
or_else a b = if truthy a then a else b

abbrev pub message_of : Texts → Failure → String
message_of T e = if is_expected e then T.str_of e else or_else (T.str_of e) (T.class_name e)

module _ {K : Kafka} where
  -- `return fragment(…)` without a record
  abbrev pub shows : Fragment → Session K → Answer K
  shows f s = record { shown = ok f; log = []; session = s }

  abbrev pub logged : Result AuditRecord → Fragment → Session K → Answer K
  logged (ok r) f s = record { shown = ok f; log = r ∷ []; session = s }
  logged (err e) f s = record { shown = err e; log = []; session = s }

  -- `audit(…)`, then `return fragment(…)`
  unfoldable pub audited :
      Caller → String → String → String → List (String × Json) → Fragment → Session K → Answer K
  audited c action target outcome detail f s = logged (audit c action target outcome detail) f s

  -- The end of a route: its service has run. `more` is the detail that the record of an error has
  -- before the error.
  unfoldable pub finish {ℓ} :
      {A : Type ℓ}
      → Texts
      → Caller
      → String
      → String
      → List (String × Json)
      → (A → List (String × Json))
      → (A → Fragment)
      → Result A × Session K
      → Answer K
  unfolding audited
  finish T c action target more detail f (ok a, s) = audited c action target "ok" (detail a) (f a) s
  finish T c action target more detail f (err e, s) =
      audited c action target "error" (more ++ ("error", str (T.str_of e)) ∷ [])
        (error (message_of T e)) s

  -- `if confirm.strip() != name: …`
  unfoldable pub refuse : Caller → String → String → String → Session K → Answer K
  unfolding audited
  refuse c action target complaint s =
      audited c action target "denied" (("reason", str "confirmation mismatch") ∷ [])
        (error complaint) s
