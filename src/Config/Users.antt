-- ===== src/Config/Users.antt =====
-- `parse_users` of app/config.py.
use kafkascope.Prelude.{subst, ℕ, String, Bool, true, ◌&&◌, ◌||◌, List, [], ◌∷◌, contains, ◌≡◌, ◌⊎◌}
use kafkascope.Prelude.{string_eq, nat_eqb, leb, arith, eq_iff}
use kafkascope.Prelude.Dict.{Dict, insert, AllValues, AllValues-insert}
use kafkascope.Prelude.Text.{split_words, split_on, replace_char, size, all_chars}
use kafkascope.Failure.{Result, ok, err, value_error, user_entry, user_role, user_digest}
use kafkascope.Failure.{◌>>=◌, ◌>>◌, require, >>=-eq-ok, require-eq-ok, ok-injective}

-- The SHA-256 of the password in hexadecimal, and the role.
pub record User : Type 0 where
  pub digest : String
  pub role : String

abbrev pub Users : Type 0
Users = Dict String User

abbrev pub valid_roles : List String
valid_roles = "admin" ∷ "viewer" ∷ []

abbrev pub hex_char : ℕ → Bool
hex_char c = leb b'0' c && leb c b'9' || (leb b'a' c && leb c b'f')

abbrev pub is_digest : String → Bool
is_digest s = nat_eqb (size s) 64 && all_chars hex_char s

module _ (lower : String → String) where
  -- One round of the loop: the name and the user that an entry describes.
  abbrev pub user_of : String → List String → Result (String × User)
  user_of entry (name ∷ digest ∷ role ∷ []) = do
    require (contains valid_roles (lower role)) (value_error (user_role (lower role)))
    require (is_digest (lower digest)) (value_error (user_digest name))
    ok (name, record { digest = lower digest; role = lower role })
  user_of entry parts = err (value_error (user_entry entry))

  unfoldable pub collect_users : List String → Users → Result Users
  collect_users [] users = ok users
  collect_users (entry ∷ entries) users = do
    user ← user_of entry (split_on b':' entry)
    collect_users entries (insert user.0 user.1 users)

  unfoldable pub parse_users : String → Result Users
  unfolding collect_users
  parse_users raw = collect_users (split_words (replace_char b',' " " raw)) []

-- The role is known, and the digest is 64 lower-case hexadecimal digits.
pub record IsUser (u : User) : Type 0 where
  pub role : (u.role ≡ "admin") ⊎ (u.role ≡ "viewer")
  pub length : size u.digest ≡ 64
  pub hex : all_chars hex_char u.digest ≡ true

checked-IsUser :
    (role digest : String)
    → contains valid_roles role ≡ true
    → is_digest digest ≡ true
    → IsUser (record { digest = digest; role = role })
checked-IsUser role digest r d = record {
  role = ground (arith, eq_iff "admin" role, eq_iff "viewer" role);
  length = ground arith;
  hex = ground arith;
}

module _ (lower : String → String) where
  user_of-IsUser :
      (entry : String) (parts : List String) (user : String × User)
      → user_of lower entry parts ≡ ok user
      → IsUser user.1
  user_of-IsUser entry (name ∷ digest ∷ role ∷ []) user h =
      let (r, k) = require-eq-ok _ _ _ h in
      let (d, k') = require-eq-ok _ _ _ k in
      subst (λ (u : String × User). IsUser u.1) (ok-injective k')
        (checked-IsUser (lower role) (lower digest) r d)
  user_of-IsUser entry [] user h = cc
  user_of-IsUser entry (a ∷ []) user h = cc
  user_of-IsUser entry (a ∷ b ∷ []) user h = cc
  user_of-IsUser entry (a ∷ b ∷ c ∷ d ∷ more) user h = cc

  collect_users-IsUser :
      (entries : List String) (users result : Users)
      → AllValues IsUser users
      → collect_users lower entries users ≡ ok result
      → AllValues IsUser result
  unfolding collect_users
  collect_users-IsUser [] users result h e = subst (AllValues IsUser) (ok-injective e) h
  collect_users-IsUser (entry ∷ entries) users result h e =
      let (user, u, rest) = >>=-eq-ok (user_of lower entry (split_on b':' entry)) _ e in
      collect_users-IsUser entries (insert user.0 user.1 users) result
        (AllValues-insert IsUser user.0 user.1 users (user_of-IsUser entry _ user u) h) rest

  -- Every user that KAFKASCOPE_USERS comes to has one of the two roles and a digest of 64
  -- hexadecimal digits, whatever the text says.
  pub parse_users-IsUser :
      (raw : String) (users : Users) → parse_users lower raw ≡ ok users → AllValues IsUser users
  unfolding parse_users
  parse_users-IsUser raw users e = collect_users-IsUser _ [] users tt e
