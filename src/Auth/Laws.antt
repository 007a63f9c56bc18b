-- ===== src/Auth/Laws.antt =====
-- Who gets which role, and who may write.
use kafkascope.Prelude.{String, Bool, true, false, not, Option, none, some}
use kafkascope.Prelude.{◌==◌, string_eq, if◌then◌else◌, ◌≡◌, refl, sym, ◌∙◌, ap, subst, ◌↔◌}
use kafkascope.Prelude.{eq_iff}
use kafkascope.Prelude.Dict.{lookup, AllValues-lookup}
use kafkascope.Prelude.Text.{strip, truthy, has_prefix, partition}
use kafkascope.Failure.{Result, ok, err, http_error, authentication_required, unknown_cluster}
use kafkascope.Failure.{◌>>=◌, or_raise, or_raise-eq-ok, >>=-eq-ok, require-eq-ok, ok-injective}
use kafkascope.Config.{ClusterConfig}
use kafkascope.Config.Users.{Users, User, IsUser, parse_users, parse_users-IsUser}
use kafkascope.Settings.{Settings}
use kafkascope.Client.{Context, is_readonly, current_cluster}
use kafkascope.Csrf.{compare_digest}
use kafkascope.Csrf.Laws.{compare_digest-eq}
use kafkascope.Auth.{Principal, Request, Crypto, groups_of, expected}
use kafkascope.Auth.{checked, resolve_basic, role_by, resolve_proxy, can_write, denied}
use kafkascope.Auth.{write_if, require_write, select_cluster}

-- The principal is a configured user who gave the password that the user's digest stands for.
pub record IsLogin (C : Crypto) (s : Settings) (r : Request) (p : Principal) : Type 0 where
  pub scheme : has_prefix "Basic " (r.header "Authorization") ≡ true
  pub text : String
  pub decoded : C.decode (C.after_basic (r.header "Authorization")) ≡ some text
  pub users : Users
  pub configured : parse_users C.lower s.kafkascope_users ≡ ok users
  pub user : User
  pub known : lookup (partition b':' text).before users ≡ some user
  pub password : C.sha256 (partition b':' text).after ≡ user.digest
  pub name : p.name ≡ (partition b':' text).before
  pub role : p.role ≡ user.role
  pub is_user : IsUser user

module _ (C : Crypto) where
  admitted-login :
      (name password : String) (user : Option User) (p : Principal)
      → checked C name password user ≡ ok p
      → (u : User) × (user ≡ some u)
        × (C.sha256 password ≡ u.digest)
        × (p.name ≡ name)
        × (p.role ≡ u.role)
  admitted-login name password none p h =
      let (same, e, k) = >>=-eq-ok (compare_digest (C.sha256 password) (expected C none)) _ h in
      let (t, k') = require-eq-ok same _ _ k in cc
  admitted-login name password (some u) p h =
      let (same, e, k) = >>=-eq-ok (compare_digest (C.sha256 password) (expected C (some u))) _ h in
      let (t, k') = require-eq-ok same _ _ k in
      let q = ok-injective k' in
      (
        u,
        refl,
        compare_digest-eq (C.sha256 password) u.digest (e ∙ ap ok t),
        sym (ap (λ (p : Principal). p.name) q),
        sym (ap (λ (p : Principal). p.role) q),
      )

  -- Basic authentication lets a request in only as a configured user, whose digest is the SHA-256 of
  -- the password that the request carries, in that user's role, which is admin or viewer.
  pub resolve_basic-IsLogin :
      (s : Settings) (r : Request) (p : Principal) → resolve_basic C s r ≡ ok p → IsLogin C s r p
  unfolding resolve_basic
  resolve_basic-IsLogin s r p h =
      let (scheme, k) = require-eq-ok (has_prefix "Basic " (r.header "Authorization")) _ _ h in
      let (text, d, k') =
        >>=-eq-ok
          (or_raise (C.decode (C.after_basic (r.header "Authorization")))
            (http_error 401 authentication_required))
          _ k in
      let (users, c, k'') = >>=-eq-ok (parse_users C.lower s.kafkascope_users) _ k' in
      let (u, known, password, name, role) =
        admitted-login (partition b':' text).before (partition b':' text).after
          (lookup (partition b':' text).before users) p k'' in
      record {
        scheme = scheme;
        text = text;
        decoded = or_raise-eq-ok _ _ d;
        users = users;
        configured = c;
        user = u;
        known = known;
        password = password;
        name = name;
        role = role;
        is_user = AllValues-lookup IsUser _ u users (parse_users-IsUser C.lower _ users c) known;
      }

-- Behind a proxy, a request with an identity gets in under that name, as an admin exactly if no
-- admin group is configured or one of the request's groups is an admin group; one without is
-- refused.
pub resolve_proxy_iff :
    (s : Settings) (r : Request) (p : Principal)
    → (resolve_proxy s r ≡ ok p) ↔ (
        (truthy (strip (r.header s.kafkascope_proxy_user_header)) ≡ true)
        × (p ≡ record {
          name = strip (r.header s.kafkascope_proxy_user_header);
          role =
              role_by
                (groups_of (r.header s.kafkascope_proxy_groups_header))
                (groups_of s.kafkascope_admin_groups);
          anonymous = false;
        }))
unfolding resolve_proxy
resolve_proxy_iff s r p = (
  λ h.
      let (t, k) = require-eq-ok (truthy (strip (r.header s.kafkascope_proxy_user_header))) _ _ h in
      (t, sym (ok-injective k)),
  λ (t, e). rw (t, e),
)

denied-refuses : (x : Context) (p q : Principal) (b : Bool) → denied x p b ≡ ok q → ⊥
denied-refuses x p q true h = let (c, e, k) = >>=-eq-ok (current_cluster x) _ h in cc
denied-refuses x p q false h = cc

refused : (x : Context) (p q : Principal) → write_if x p false ≡ ok q → ⊥
refused x p q h =
    let (b, e, k) = >>=-eq-ok (is_readonly x) (λ blocked. denied x p blocked) h in
    denied-refuses x p q b k

write_by :
    (x : Context) (p q : Principal) (admin : Bool) (blocked : Result Bool)
    → ((if admin then (blocked >>= λ b. ok (not b)) else ok false) >>= λ writable.
        write_if x p writable)
      ≡ ok q
    → (admin ≡ true) × (blocked ≡ ok false) × (q ≡ p)
write_by x p q true (ok false) h = (refl, refl, sym (ok-injective h))
write_by x p q true (ok true) h = absurd (refused x p q h)
write_by x p q true (err f) h = cc
write_by x p q false b h = absurd (refused x p q h)

-- A caller passes as themselves, if at all, and exactly as an admin while neither the cluster nor
-- the instance is read-only.
pub require_write_iff :
    (x : Context) (p q : Principal)
    → (require_write x p ≡ ok q) ↔ ((p.role ≡ "admin") × (is_readonly x ≡ ok false) × (q ≡ p))
unfolding require_write can_write
require_write_iff x p q = (
  λ h.
      let (admin, writable, same) = write_by x p q (p.role == "admin") (is_readonly x) h in
      ((eq_iff p.role "admin").0 admin, writable, same),
  λ (admin, writable, same). rw ((eq_iff p.role "admin").1 admin, writable, same),
)

-- A request that gets a cluster gets the one that is configured under the name in its path.
pub select_cluster-lookup :
    (name : String) (x y : Context)
    → select_cluster name x ≡ ok y
    → (c : ClusterConfig) × (lookup name x.instance.clusters ≡ some c) × (current_cluster y ≡ ok c)
unfolding select_cluster current_cluster
select_cluster-lookup name x y h =
    let (c, found, k) =
      >>=-eq-ok (or_raise (lookup name x.instance.clusters) (http_error 404 (unknown_cluster name)))
        _ h in
    (
      c,
      or_raise-eq-ok _ _ found,
      subst (λ (z : Context). current_cluster z ≡ ok c) (ok-injective k) refl,
    )
