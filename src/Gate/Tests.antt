-- ===== src/Gate/Tests.antt =====
-- The admin of the samples is let in.
use kafkascope.Prelude.{◌≡◌, refl, string_eq}
use kafkascope.Prelude.Dict.{lookup, insert}
use kafkascope.Prelude.Text.{partition, has_prefix, split_words, words_of, is_space, split_on}
use kafkascope.Prelude.Text.{parts_of, replace_char}
use kafkascope.Failure.{ok}
use kafkascope.Config.Users.{parse_users, collect_users}
use kafkascope.Client.{current_cluster, is_readonly}
use kafkascope.Csrf.{csrf_middleware, is_valid, tokens_match, enforced, is_exempt, issue_token}
use kafkascope.Auth.{resolve_principal, resolve_basic}
use kafkascope.Auth.{select_cluster, require_write, can_write}
use kafkascope.Gate.{authenticate, admit_write}
use kafkascope.Gate.Laws.{IsAdmitted, admit_write-IsAdmitted}
use kafkascope.Gate.Samples.{stamp, zeros, basic, creation, on_dev, ann, is_enforced, is_guarded}

admitted : admit_write stamp zeros "new" basic creation ≡ ok (on_dev, ann)
unfolding admit_write csrf_middleware is_valid tokens_match enforced is_exempt issue_token partition
    has_prefix authenticate resolve_principal resolve_basic parse_users collect_users split_words
    words_of is_space split_on parts_of replace_char insert lookup select_cluster require_write
    can_write is_readonly current_cluster
admitted = refl

admit_write-IsAdmitted_example : IsAdmitted stamp zeros basic creation on_dev ann
admit_write-IsAdmitted_example =
    admit_write-IsAdmitted stamp zeros "new" basic on_dev creation ann is_enforced refl is_guarded
      admitted
