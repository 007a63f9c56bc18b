-- ===== src/Gate/Laws.antt =====
-- Who gets through to a service that writes.
use kafkascope.Prelude.{String, Bool, true, false, Option, none, some, contains, string_eq, ◌≡◌}
use kafkascope.Prelude.{ap, sym, ◌∙◌, subst, if◌then◌else◌}
use kafkascope.Prelude.Dict.{lookup}
use kafkascope.Failure.{ok, ◌>>=◌, >>=-eq-ok, ok-injective}
use kafkascope.Config.{ClusterConfig}
use kafkascope.Settings.{Settings}
use kafkascope.Client.{Context, is_readonly, current_cluster}
use kafkascope.Csrf.{safe_methods, enforced, is_exempt, csrf_middleware}
use kafkascope.Csrf.Laws.{IsSigned, csrf_middleware-IsSigned}
use kafkascope.Auth.{Principal, Crypto, resolve_principal, select_cluster, require_write}
use kafkascope.Auth.Laws.{require_write_iff, select_cluster-lookup}
use kafkascope.Gate.{Incoming, csrf_request, auth_request, authenticate, principal_of, admit_write}

-- What a write that got through has shown.
pub record IsAdmitted (sign : String → String) (C : Crypto) (x : Context) (r : Incoming)
    (y : Context) (q : Principal) : Type 0 where
  pub signed : IsSigned sign r.cookie
  pub repeated : r.header "X-CSRF-Token" ≡ r.cookie
  pub authenticated : resolve_principal C x.instance.settings (auth_request r) ≡ ok q
  pub admin : q.role ≡ "admin"
  pub cluster : ClusterConfig
  pub configured : lookup r.cluster x.instance.clusters ≡ some cluster
  pub selected : current_cluster y ≡ ok cluster
  pub writable : is_readonly y ≡ ok false

module _ (sign : String → String) (C : Crypto) where
  authenticate-resolved :
      (s : Settings) (r : Incoming) (p : Option Principal)
      → is_exempt r.path ≡ false
      → authenticate C s r ≡ ok p
      → resolve_principal C s (auth_request r) ≡ ok (principal_of p)
  unfolding authenticate
  authenticate-resolved s r p guarded h = by_path (is_exempt r.path) guarded h
    where
      by_path :
          (b : Bool)
          → b ≡ false
          → (if b then ok none else (resolve_principal C s (auth_request r) >>= λ q. ok (some q)))
            ≡ ok p
          → resolve_principal C s (auth_request r) ≡ ok (principal_of p)
      by_path true g h = cc
      by_path false g h =
          let (q, e, k) = >>=-eq-ok (resolve_principal C s (auth_request r)) (λ q. ok (some q)) h in
          e ∙ ap (λ o. ok (principal_of o)) (ok-injective k)

  -- With authentication on, a request that changes state, on a path that is not exempt, gets through
  -- to its service only if its cookie is signed and repeated in the header, its sender is
  -- authenticated as an admin, the cluster in its path is configured and is the one that the service
  -- works on, and neither that cluster nor the instance is read-only.
  pub admit_write-IsAdmitted :
      (fresh : String) (x y : Context) (r : Incoming) (q : Principal)
      → enforced x.instance.settings.kafkascope_auth_mode ≡ true
      → contains safe_methods r.method ≡ false
      → is_exempt r.path ≡ false
      → admit_write sign C fresh x r ≡ ok (y, q)
      → IsAdmitted sign C x r y q
  unfolding admit_write
  admit_write-IsAdmitted fresh x y r q on unsafe guarded h =
      let mode = x.instance.settings.kafkascope_auth_mode in
      let (token, t, k) = >>=-eq-ok (csrf_middleware sign fresh mode (csrf_request r)) _ h in
      let (p, a, k') = >>=-eq-ok (authenticate C x.instance.settings r) _ k in
      let (z, s, k'') = >>=-eq-ok (select_cluster r.cluster x) _ k' in
      let (w, e, k''') = >>=-eq-ok (require_write z (principal_of p)) _ k'' in
      let (signed, repeated) =
        csrf_middleware-IsSigned sign fresh mode (csrf_request r) token on unsafe guarded t in
      let (admin, writable, same) = (require_write_iff z (principal_of p) w).0 e in
      let (c, found, current) = select_cluster-lookup r.cluster x z s in
      subst (λ (o : Context × Principal). IsAdmitted sign C x r o.0 o.1) (ok-injective k''')
        (record {
          signed = signed;
          repeated = repeated;
          authenticated =
              authenticate-resolved x.instance.settings r p guarded a ∙ ap ok (sym same);
          admin = ap (λ (v : Principal). v.role) same ∙ admin;
          cluster = c;
          configured = found;
          selected = current;
          writable = writable;
        })
