-- ===== src/Csrf/Tests.antt =====
-- The check with a signature that is a constant.
use kafkascope.Prelude.{String, true, false, ◌≡◌, refl, string_eq}
use kafkascope.Prelude.Text.{partition, has_prefix}
use kafkascope.Failure.{ok}
use kafkascope.Csrf.{
  Request, tokened, csrf_middleware, is_valid, tokens_match, issue_token, enforced,
}
use kafkascope.Csrf.{is_exempt}
use kafkascope.Csrf.Laws.{IsSigned, csrf_middleware-IsSigned}

abbrev stamp : String → String
stamp msg = "s"

abbrev repeated : Request
repeated = record { path = "/c/dev/produce"; method = "POST"; cookie = "abc.s"; header = "abc.s" }

accepted : csrf_middleware stamp "new" "basic" repeated ≡ ok (tokened "abc.s" false)
unfolding csrf_middleware is_valid tokens_match partition enforced is_exempt has_prefix issue_token
accepted = refl

is_enforced : enforced "basic" ≡ true
unfolding enforced
is_enforced = refl

is_guarded : is_exempt repeated.path ≡ false
unfolding is_exempt has_prefix
is_guarded = refl

csrf_middleware-IsSigned_example :
    IsSigned stamp repeated.cookie × (repeated.header ≡ repeated.cookie)
csrf_middleware-IsSigned_example =
    csrf_middleware-IsSigned stamp "new" "basic" repeated (tokened "abc.s" false) is_enforced refl
      is_guarded accepted
