-- ===== src/Auth/Tests.antt =====
-- A viewer who logs in, an operator behind a proxy, and the one cluster.
use kafkascope.Prelude.{some, false, ◌≡◌, ◌↔◌, refl, string_eq}
use kafkascope.Prelude.{◌==◌, if◌then◌else◌}
use kafkascope.Prelude.Dict.{lookup, insert}
use kafkascope.Prelude.Text.{partition, has_prefix, is_space}
use kafkascope.Prelude.Text.{split_words, words_of, split_on, parts_of, replace_char}
use kafkascope.Failure.{ok}
use kafkascope.Config.Users.{parse_users, collect_users}
use kafkascope.Settings.{Settings}
use kafkascope.Client.{is_readonly}
use kafkascope.Auth.{Principal, Request, Crypto, resolve_basic, require_write}
use kafkascope.Auth.{anonymous_admin, select_cluster, nobody_digest}
use kafkascope.Auth.Laws.{IsLogin, resolve_basic-IsLogin, require_write_iff}
use kafkascope.Samples.{dev_settings, dev_context, dev_cluster}

-- Every password has the digest of zeros.
abbrev zeros : Crypto
zeros = record {
  lower = λ s. s;
  decode = λ s. some s;
  sha256 = λ s. nobody_digest;
  after_basic = λ s. "ann:secret";
}

abbrev basic_settings : Settings
basic_settings = record dev_settings {
  kafkascope_users = "ann:0000000000000000000000000000000000000000000000000000000000000000:viewer";
}

abbrev login : Request
login = record {
  path = "/";
  header = λ name. if name == "Authorization" then "Basic YW5u" else "ops,dev";
}

abbrev ann : Principal
ann = record { name = "ann"; role = "viewer"; anonymous = false }

ann_logs_in : resolve_basic zeros basic_settings login ≡ ok ann
unfolding resolve_basic has_prefix partition parse_users collect_users split_words words_of is_space
    split_on parts_of replace_char insert lookup
ann_logs_in = refl

resolve_basic-IsLogin_example : IsLogin zeros basic_settings login ann
resolve_basic-IsLogin_example = resolve_basic-IsLogin zeros basic_settings login ann ann_logs_in

require_write_iff_example : (require_write dev_context anonymous_admin ≡ ok anonymous_admin) ↔ (
    (anonymous_admin.role ≡ "admin")
    × (is_readonly dev_context ≡ ok false)
    × (anonymous_admin ≡ anonymous_admin))
require_write_iff_example = require_write_iff dev_context anonymous_admin anonymous_admin

dev_selected :
    select_cluster "dev" dev_context ≡ ok (record dev_context { current = some dev_cluster })
unfolding select_cluster lookup
dev_selected = refl
