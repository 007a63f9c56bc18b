-- ===== src/Gate.antt =====
-- app/main.py: what a write passes before its service runs, in order. The CSRF middleware is the
-- outer one, then `authenticate`, then the dependency on the cluster, then the route's own on write
-- access.
pub mod Laws
pub mod Samples
mod Tests
use kafkascope.Prelude.{String, Bool, Option, none, some, if◌then◌else◌}
use kafkascope.Failure.{Result, ok, ◌>>=◌}
use kafkascope.Settings.{Settings, Instance}
use kafkascope.Client.{Context}
use kafkascope.Csrf
use kafkascope.Csrf.{csrf_middleware, is_exempt}
use kafkascope.Auth
use kafkascope.Auth.{Principal, Crypto, anonymous_admin, resolve_principal, select_cluster}
use kafkascope.Auth.{require_write}

-- A request under /c/<cluster>.
pub record Incoming : Type 0 where
  pub path : String
  pub method : String
  pub cookie : String
  pub header : String → String
  pub cluster : String

abbrev pub csrf_request : Incoming → Csrf.Request
csrf_request r = record {
  path = r.path;
  method = r.method;
  cookie = r.cookie;
  header = r.header "X-CSRF-Token";
}

abbrev pub auth_request : Incoming → Auth.Request
auth_request r = record { path = r.path; header = r.header }

-- `authenticate`: the principal that it leaves on the request, if any. The paths that it lets
-- through are those that the CSRF check lets through.
unfoldable pub authenticate : Crypto → Settings → Incoming → Result (Option Principal)
authenticate C s r =
    if is_exempt r.path
    then ok none
    else (resolve_principal C s (auth_request r) >>= λ p. ok (some p))

-- `principal_of`
abbrev pub principal_of : Option Principal → Principal
principal_of none = anonymous_admin
principal_of (some p) = p

module _ (sign : String → String) (C : Crypto) where
  unfoldable pub admit_write : String → Context → Incoming → Result (Context × Principal)
  admit_write fresh x r = do
    token ← csrf_middleware sign fresh x.instance.settings.kafkascope_auth_mode (csrf_request r)
    p ← authenticate C x.instance.settings r
    y ← select_cluster r.cluster x
    q ← require_write y (principal_of p)
    ok (y, q)
