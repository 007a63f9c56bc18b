-- ===== src/Auth.antt =====
-- app/auth.py: who a request is from, and whether they may write; `select_cluster` and the gate
-- `authenticate` of app/main.py. The audit record is in Audit.
pub mod Laws
mod Tests
use kafkascope.Prelude.{ℕ, String, Bool, true, false, ◌&&◌, ◌||◌, not, Option, none, some, List, []}
use kafkascope.Prelude.{◌∷◌, any, contains, ◌==◌, string_eq, if◌then◌else◌}
use kafkascope.Prelude.Dict.{lookup}
use kafkascope.Prelude.Text.{
  strip, truthy, has_prefix, partition, Partition, split_words, replace_char,
}
use kafkascope.Failure.{Result, ok, err, http_error, authentication_required, missing_identity}
use kafkascope.Failure.{cluster_read_only, no_write_access, unknown_cluster, ◌>>=◌, ◌>>◌, require}
use kafkascope.Failure.{or_raise}
use kafkascope.Config.{ClusterConfig}
use kafkascope.Config.Users.{User, parse_users}
use kafkascope.Settings.{Settings, Instance}
use kafkascope.Client.{Context, is_readonly, current_cluster}
use kafkascope.Csrf.{compare_digest}

pub record Principal : Type 0 where
  pub name : String
  pub role : String
  pub anonymous : Bool

abbrev pub anonymous_admin : Principal
anonymous_admin = record { name = "anonymous"; role = "admin"; anonymous = true }

-- The headers of a request, an absent one being empty, and its path.
pub record Request : Type 0 where
  pub path : String
  pub header : String → String

-- Python's `str.lower`, the text that base64 stands for (`none` is the `ValueError` or
-- `UnicodeDecodeError`), the SHA-256 in hexadecimal, and the digits after a prefix.
pub record Crypto : Type 0 where
  pub lower : String → String
  pub decode : String → Option String
  pub sha256 : String → String
  -- `header[6:]`
  pub after_basic : String → String

abbrev pub nobody_digest : String
nobody_digest = "0000000000000000000000000000000000000000000000000000000000000000"

-- `admin_groups_set`, and the groups of a header: the words, with commas as blanks.
abbrev pub groups_of : String → List String
groups_of raw = split_words (replace_char b',' " " raw)

-- `groups & admin_groups` as a truth value.
abbrev pub meet : List String → List String → Bool
meet groups admins = any (contains admins) groups

abbrev pub none_in : List String → Bool
none_in [] = true
none_in (g ∷ gs) = false

abbrev pub challenge {ℓ} : {A : Type ℓ} → Result A
challenge = err (http_error 401 authentication_required)

module _ (C : Crypto) where
  abbrev pub expected : Option User → String
  expected none = nobody_digest
  expected (some u) = u.digest

  abbrev pub admitted : String → Option User → Result Principal
  admitted name none = challenge
  admitted name (some u) = ok (record { name = name; role = u.role; anonymous = false })

  abbrev pub checked : String → String → Option User → Result Principal
  checked name password user = do
    same ← compare_digest (C.sha256 password) (expected user)
    require same (http_error 401 authentication_required)
    admitted name user

  abbrev pub credentials : Settings → Partition → Result Principal
  credentials s p = do
    users ← parse_users C.lower s.kafkascope_users
    checked p.before p.after (lookup p.before users)

  -- `_resolve_basic`
  unfoldable pub resolve_basic : Settings → Request → Result Principal
  resolve_basic s r = do
    let header = r.header "Authorization"
    require (has_prefix "Basic " header) (http_error 401 authentication_required)
    text ← or_raise (C.decode (C.after_basic header)) (http_error 401 authentication_required)
    credentials s (partition b':' text)

abbrev pub role_by : List String → List String → String
role_by groups admins =
    if none_in admins then "admin" else if meet groups admins then "admin" else "viewer"

-- `_resolve_proxy`
unfoldable pub resolve_proxy : Settings → Request → Result Principal
resolve_proxy s r = do
  let name = strip (r.header s.kafkascope_proxy_user_header)
  require (truthy name) (http_error 401 missing_identity)
  ok (record {
    name = name;
    role =
        role_by (groups_of (r.header s.kafkascope_proxy_groups_header))
          (groups_of s.kafkascope_admin_groups);
    anonymous = false;
  })

-- `resolve_principal`
unfoldable pub resolve_principal : Crypto → Settings → Request → Result Principal
resolve_principal C s r =
    if s.kafkascope_auth_mode == "basic"
    then resolve_basic C s r
    else if s.kafkascope_auth_mode == "proxy"
    then resolve_proxy s r
    else ok anonymous_admin

-- `can_write`
unfoldable pub can_write : Context → Principal → Result Bool
can_write x p = if p.role == "admin" then (is_readonly x >>= λ b. ok (not b)) else ok false

abbrev pub denied : Context → Principal → Bool → Result Principal
denied x p true = current_cluster x >>= λ c. err (http_error 403 (cluster_read_only c.name))
denied x p false = err (http_error 403 (no_write_access p.name))

abbrev pub write_if : Context → Principal → Bool → Result Principal
write_if x p true = ok p
write_if x p false = is_readonly x >>= λ blocked. denied x p blocked

-- `require_write`
unfoldable pub require_write : Context → Principal → Result Principal
require_write x p = can_write x p >>= λ writable. write_if x p writable

-- `select_cluster`: the context of the request.
unfoldable pub select_cluster : String → Context → Result Context
select_cluster name x = do
  cluster ← or_raise (lookup name x.instance.clusters) (http_error 404 (unknown_cluster name))
  ok (record x { current = some cluster })
