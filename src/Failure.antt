-- ===== src/Failure.antt =====
-- Python's exceptions. The constructor is the exception's class, and the reason stands for its
-- message: which raise it is, with what the message shows.
use kafkascope.Prelude.{Option, none, some, arith, ℕ, ℤ, ◌≡◌, refl, String, Bool, true, false, List}

pub data Reason : Type 0 where
  -- the cluster is read-only (every service that writes)
  readonly : Reason
  -- app/services/messages.py, groups.py and admin.py on the topic's metadata
  topic_not_found : String → Reason
  partition_not_in_topic : ℤ → String → Reason
  timestamp_required : Reason
  -- app/services/groups.py
  group_not_found : String → Reason
  group_active : String → String → ℕ → List String → Reason
  offset_required : Reason
  single_partition_only : Reason
  offset_out_of_range : ℤ → ℤ → ℤ → ℤ → Reason
  partition_failed : ℤ → String → Reason
  -- app/services/admin.py
  name_required name_characters one_partition one_replica : Reason
  topic_exists : String → Reason
  internal_topic : Reason
  already_has : ℕ → Reason
  no_changes : Reason
  -- app/services/produce.py
  header_without_name : ℕ → Reason
  not_acknowledged : Reason
  no_registry schema_required : Reason
  no_schema_for : String → Reason
  -- app/services/encode.py
  invalid_json : Reason
  schema_mismatch : Reason
  id_out_of_range : ℤ → Reason
  -- app/services/schema_registry.py
  registry_returned : ℕ → String → Reason
  unexpected_json : Reason
  -- app/config.py
  user_entry : String → Reason
  user_role : String → Reason
  user_digest : String → Reason
  unknown_protocol unknown_mechanism mechanism_required credentials_required : String → Reason
  unknown_keys : List String → Reason
  cluster_name : String → Reason
  brokers_required : String → Reason
  clusters_invalid_json clusters_not_list entry_not_object : Reason
  duplicate_cluster : String → Reason
  users_required auth_mode : Reason
  -- app/auth.py, app/csrf.py and app/main.py
  authentication_required missing_identity csrf_rejected : Reason
  cluster_read_only no_write_access : String → Reason
  unknown_cluster : String → Reason
  -- what a library that is not part of the repository reports
  reported : String → Reason

pub data Failure : Type 0 where
  value_error lookup_error permission_error runtime_error timeout_error : Reason → Failure
  -- with the status code
  http_error : ℕ → Reason → Failure
  overflow_error attribute_error key_error registry_error other_error : Reason → Failure

pub data Result {ℓ} (A : Type ℓ) : Type ℓ where
  ok : A → Result A
  err : Failure → Result A

-- The next statement of a block runs unless this one raised.
infixl 5 ◌>>=◌ ◌>>◌
abbrev pub ◌>>=◌ {ℓ κ} : {V : Type ℓ} {W : Type κ} → Result V → (V → Result W) → Result W
err failure >>= next = err failure
ok value >>= next = next value

abbrev pub ◌>>◌ {ℓ} : {W : Type ℓ} → Result (Unit {0}) → Result W → Result W
check >> next = check >>= λ passed. next

-- `if not b: raise e`
abbrev pub require : Bool → Failure → Result (Unit {0})
require true e = ok tt
require false e = err e

-- An optional value, with the exception that stands for its absence.
abbrev pub or_raise {ℓ} : {A : Type ℓ} → Option A → Failure → Result A
or_raise none e = err e
or_raise (some a) e = ok a

pub or_raise-eq-ok {ℓ} :
    {A : Type ℓ} (o : Option A) (e : Failure) {a : A} → or_raise o e ≡ ok a → o ≡ some a
or_raise-eq-ok none e h = cc
or_raise-eq-ok (some a) e h = ground arith

pub >>=-eq-ok {ℓ κ} :
    {A : Type ℓ} {B : Type κ} (step : Result A) (rest : A → Result B) {result : B}
    → (step >>= rest) ≡ ok result
    → (x : A) × (step ≡ ok x) × (rest x ≡ ok result)
>>=-eq-ok (ok x) rest done = (x, refl, done)
>>=-eq-ok (err e) rest done = cc

-- What passes a check, and the rest of a block behind it.
pub require-eq-ok {ℓ} :
    {B : Type ℓ} (b : Bool) (e : Failure) (k : Result B) {x : B}
    → (require b e >> k) ≡ ok x
    → (b ≡ true) × (k ≡ ok x)
require-eq-ok true e k h = (refl, h)
require-eq-ok false e k h = cc

pub ok-injective {ℓ} : {A : Type ℓ} {a b : A} → ok a ≡ ok b → a ≡ b
ok-injective h = cc
