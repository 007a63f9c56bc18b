-- ===== src/Config/Tests.antt =====
-- The users and the security settings of a small configuration.
use kafkascope.Prelude.{String, [], ◌∷◌, ◌≡◌, ◌↔◌, refl}
use kafkascope.Prelude.Dict.{AllValues, insert}
use kafkascope.Prelude.Text.{split_words, words_of, split_on, parts_of, replace_char, is_space}
use kafkascope.Failure.{ok}
use kafkascope.Config.{coherent_security}
use kafkascope.Config.Users.{Users, IsUser, parse_users, collect_users, parse_users-IsUser}
use kafkascope.Config.Security.{IsCoherent, coherent_security_iff}
use kafkascope.Samples.{dev_cluster}

abbrev two_entries : String
two_entries =
    "ann:0000000000000000000000000000000000000000000000000000000000000000:viewer, bob:1111111111111111111111111111111111111111111111111111111111111111:admin"

abbrev two_users : Users
two_users =
    (
      "ann",
      record {
        digest = "0000000000000000000000000000000000000000000000000000000000000000";
        role = "viewer";
      },
    )
    ∷ (
      "bob",
      record {
        digest = "1111111111111111111111111111111111111111111111111111111111111111";
        role = "admin";
      },
    )
    ∷ []

two_parse : parse_users (λ s. s) two_entries ≡ ok two_users
unfolding parse_users collect_users split_words words_of split_on parts_of replace_char is_space
    insert
two_parse = refl

parse_users-IsUser_example : AllValues IsUser two_users
parse_users-IsUser_example = parse_users-IsUser (λ s. s) two_entries two_users two_parse

coherent_security_iff_example : (coherent_security dev_cluster ≡ ok tt) ↔ IsCoherent dev_cluster
coherent_security_iff_example = coherent_security_iff dev_cluster
