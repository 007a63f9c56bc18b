-- ===== src/Gate/Samples.antt =====
-- An admin who posts a form on the one cluster, with basic authentication.
use kafkascope.Prelude.{String, some, true, false, ◌≡◌, refl, ◌==◌, string_eq, if◌then◌else◌}
use kafkascope.Prelude.Text.{has_prefix}
use kafkascope.Client.{Context}
use kafkascope.Csrf.{enforced, is_exempt}
use kafkascope.Auth.{Principal, Crypto, nobody_digest}
use kafkascope.Gate.{Incoming}
use kafkascope.Samples.{dev_settings, dev_instance, dev_context, dev_cluster}

abbrev pub stamp : String → String
stamp msg = "s"

-- Every password has the digest of zeros.
abbrev pub zeros : Crypto
zeros = record {
  lower = λ s. s;
  decode = λ s. some s;
  sha256 = λ s. nobody_digest;
  after_basic = λ s. "ann:secret";
}

abbrev pub basic : Context
basic = record dev_context {
  instance = record dev_instance {
    settings = record dev_settings {
      kafkascope_auth_mode = "basic";
      kafkascope_users =
          "ann:0000000000000000000000000000000000000000000000000000000000000000:admin";
    };
  };
}

abbrev pub creation : Incoming
creation = record {
  path = "/c/dev/topics";
  method = "POST";
  cookie = "abc.s";
  header = λ name. if name == "Authorization" then "Basic YW5u" else "abc.s";
  cluster = "dev";
}

abbrev pub on_dev : Context
on_dev = record basic { current = some dev_cluster }

abbrev pub ann : Principal
ann = record { name = "ann"; role = "admin"; anonymous = false }

pub is_enforced : enforced "basic" ≡ true
unfolding enforced
is_enforced = refl

pub is_guarded : is_exempt creation.path ≡ false
unfolding is_exempt has_prefix
is_guarded = refl
