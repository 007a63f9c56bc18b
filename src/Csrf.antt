-- ===== src/Csrf.antt =====
-- app/csrf.py: the signed token that a request has to send twice. `_sign` is an HMAC under the
-- process's key, and the fresh text of a token is random: both are given.
pub mod Laws
mod Tests
use kafkascope.Prelude.{
  ℕ, String, Bool, true, false, ◌&&◌, ◌||◌, not, List, [], ◌∷◌, contains, ◌==◌,
}
use kafkascope.Prelude.{string_eq, leb, if◌then◌else◌}
use kafkascope.Prelude.Text.{◌+ˢ◌, truthy, all_chars, has_prefix, partition, Partition}
use kafkascope.Failure.{
  Result, ok, err, other_error, http_error, reported, csrf_rejected, ◌>>=◌, ◌>>◌, require,
}

abbrev pub is_ascii : ℕ → Bool
is_ascii c = leb c 127

-- `hmac.compare_digest` on texts, which takes ASCII only.
abbrev pub compare_digest : String → String → Result Bool
compare_digest a b =
    if all_chars is_ascii a && all_chars is_ascii b
    then ok (a == b)
    else err (other_error (reported "TypeError"))

abbrev pub safe_methods : List String
safe_methods = "GET" ∷ "HEAD" ∷ "OPTIONS" ∷ "TRACE" ∷ []

-- The parts of a request that the check reads; an absent cookie or header is empty.
pub record Request : Type 0 where
  pub path : String
  pub method : String
  pub cookie : String
  pub header : String

-- Where a request goes: on without a token, or on with one, which is set as a cookie or is there.
pub data Outcome : Type 0 where
  untouched : Outcome
  tokened : String → Bool → Outcome

-- `path == "/healthz" or path == "/version" or path.startswith("/static")`
unfoldable pub is_exempt : String → Bool
is_exempt path = path == "/healthz" || (path == "/version" || has_prefix "/static" path)

-- `enforced()`, by the mode of authentication.
unfoldable pub enforced : String → Bool
enforced mode = contains ("basic" ∷ "proxy" ∷ []) mode

module _ (sign : String → String) where
  -- `issue_token`, by the fresh text.
  unfoldable pub issue_token : String → String
  issue_token msg = msg +ˢ ("." +ˢ sign msg)

  -- `_is_valid`
  unfoldable pub is_valid : String → Result Bool
  is_valid token =
      let p = partition b'.' token in
      if truthy p.before && truthy p.after then compare_digest p.after (sign p.before) else ok false

  abbrev pub compare_if : Bool → String → String → Result Bool
  compare_if true a b = compare_digest a b
  compare_if false a b = ok false

  abbrev pub valid_if : Bool → String → Result Bool
  valid_if true token = is_valid token
  valid_if false token = ok false

  -- `_tokens_match`: a chain of `and`, each part asked only if those before it hold.
  unfoldable pub tokens_match : Request → Result Bool
  tokens_match r = do
    valid ← valid_if (truthy r.cookie) r.cookie
    compare_if valid r.cookie r.header

  abbrev pub match_if : Bool → Request → Result Bool
  match_if true r = tokens_match r
  match_if false r = ok true

  abbrev pub issue : String → String → Request → Result Outcome
  issue fresh mode r = do
    valid ← is_valid r.cookie
    let token = if valid then r.cookie else issue_token fresh
    matched ← match_if (enforced mode && not (contains safe_methods r.method)) r
    require matched (http_error 403 csrf_rejected)
    ok (tokened token (not (token == r.cookie)))

  -- `csrf_middleware`, up to the handler behind it.
  unfoldable pub csrf_middleware : String → String → Request → Result Outcome
  csrf_middleware fresh mode r = if is_exempt r.path then ok untouched else issue fresh mode r
