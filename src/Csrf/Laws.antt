-- ===== src/Csrf/Laws.antt =====
-- What a request needs to pass the check.
use Prim.Native.String.{[] as nil, ◌∷◌ as ◌∷ˢ◌}
use Prim.Native.Char.{Char, code}
use kafkascope.Prelude.{String, Bool, true, false, ◌&&◌, not, contains, ◌==◌, string_eq, nat_eqb}
use kafkascope.Prelude.{if◌then◌else◌, ◌≡◌, refl, sym, ◌∙◌, ap, eq_iff, arith, eq_refl}
use kafkascope.Prelude.Text.{◌+ˢ◌, truthy, all_chars, partition, Partition}
use kafkascope.Failure.{ok, err, other_error, reported}
use kafkascope.Failure.{>>=-eq-ok, require-eq-ok, ok-injective}
use kafkascope.Csrf.{is_ascii, compare_digest, safe_methods, Request, Outcome, untouched}
use kafkascope.Csrf.{is_exempt, enforced, issue_token, is_valid, compare_if, valid_if, tokens_match}
use kafkascope.Csrf.{match_if, issue, csrf_middleware}

pub compare_digest-eq : (a b : String) → compare_digest a b ≡ ok true → a ≡ b
compare_digest-eq a b h = by_ascii (all_chars is_ascii a && all_chars is_ascii b) h
  where
    same : ok (a == b) ≡ ok true → a ≡ b
    same h = (eq_iff a b).0 (ok-injective h)

    by_ascii :
        (t : Bool)
        → (if t then ok (a == b) else err (other_error (reported "TypeError"))) ≡ ok true
        → a ≡ b
    by_ascii true h = same h
    by_ascii false h = cc

module _ (sign : String → String) where
  -- The text before the first dot is not empty, and the text after it is its signature.
  pub record IsSigned (token : String) : Type 0 where
    pub named : truthy (partition b'.' token).before ≡ true
    pub signature : (partition b'.' token).after ≡ sign (partition b'.' token).before

  is_valid-IsSigned : (token : String) → is_valid sign token ≡ ok true → IsSigned token
  unfolding is_valid
  is_valid-IsSigned token h =
      by_parts (truthy (partition b'.' token).before) (truthy (partition b'.' token).after) refl h
    where
      by_parts :
          (b a : Bool)
          → truthy (partition b'.' token).before ≡ b
          → (if b && a
              then compare_digest (partition b'.' token).after (sign (partition b'.' token).before)
              else ok false)
            ≡ ok true
          → IsSigned token
      by_parts true true e h = record { named = e; signature = compare_digest-eq _ _ h }
      by_parts true false e h = cc
      by_parts false a e h = cc

  tokens_match-IsSigned :
      (r : Request) → tokens_match sign r ≡ ok true → IsSigned r.cookie × (r.header ≡ r.cookie)
  unfolding tokens_match
  tokens_match-IsSigned r h =
      let (valid, e, k) = >>=-eq-ok (valid_if sign (truthy r.cookie) r.cookie) _ h in
      by_valid valid e k
    where
      by_cookie : (b : Bool) → valid_if sign b r.cookie ≡ ok true → IsSigned r.cookie
      by_cookie true e = is_valid-IsSigned r.cookie e
      by_cookie false e = cc

      by_valid :
          (valid : Bool)
          → valid_if sign (truthy r.cookie) r.cookie ≡ ok valid
          → compare_if sign valid r.cookie r.header ≡ ok true
          → IsSigned r.cookie × (r.header ≡ r.cookie)
      by_valid true e k = (by_cookie (truthy r.cookie) e, sym (compare_digest-eq _ _ k))
      by_valid false e k = cc

  checked :
      (guarded : Bool) (r : Request)
      → guarded ≡ true
      → match_if sign guarded r ≡ ok true
      → IsSigned r.cookie × (r.header ≡ r.cookie)
  checked true r g h = tokens_match-IsSigned r h
  checked false r g h = cc

  issue-IsSigned :
      (fresh mode : String) (r : Request) (o : Outcome)
      → (enforced mode && not (contains safe_methods r.method)) ≡ true
      → issue sign fresh mode r ≡ ok o
      → IsSigned r.cookie × (r.header ≡ r.cookie)
  issue-IsSigned fresh mode r o guarded h =
      let (valid, e, k) = >>=-eq-ok (is_valid sign r.cookie) _ h in
      let (matched, e', k') =
        >>=-eq-ok (match_if sign (enforced mode && not (contains safe_methods r.method)) r) _ k in
      let (m, k'') = require-eq-ok matched _ _ k' in
      checked (enforced mode && not (contains safe_methods r.method)) r guarded (e' ∙ ap ok m)

  -- A request that changes state passes, on a path that is not exempt and with authentication on,
  -- only if its cookie carries the signature of its own text and its header repeats the cookie.
  pub csrf_middleware-IsSigned :
      (fresh mode : String) (r : Request) (o : Outcome)
      → enforced mode ≡ true
      → contains safe_methods r.method ≡ false
      → is_exempt r.path ≡ false
      → csrf_middleware sign fresh mode r ≡ ok o
      → IsSigned r.cookie × (r.header ≡ r.cookie)
  unfolding csrf_middleware
  csrf_middleware-IsSigned fresh mode r o on unsafe guarded h =
      issue-IsSigned fresh mode r o (ground arith) (at_path (is_exempt r.path) guarded h)
    where
      at_path :
          (exempt : Bool)
          → exempt ≡ false
          → (if exempt then ok untouched else issue sign fresh mode r) ≡ ok o
          → issue sign fresh mode r ≡ ok o
      at_path true e h = cc
      at_path false e h = h

-- The separator does not occur, so the parts come back.
abbrev pub NoDot : String → Type 0
NoDot s = all_chars (λ c. not (nat_eqb c b'.')) s ≡ true

abbrev split_at : String → String → Partition
split_at msg rest = record { before = msg; found = true; after = rest }

abbrev extend : Char → Partition → Partition
extend c p = record { before = c ∷ˢ p.before; found = p.found; after = p.after }

-- One character more before the separator.
longer :
    (c : Char) (msg rest tail : String) (b : Bool) (p : Partition)
    → p ≡ split_at msg rest
    → b ≡ false
    → ◌≡◌ {A = Partition}
        (if b
          then record { before = ""; found = true; after = tail }
          else record { before = c ∷ˢ p.before; found = p.found; after = p.after })
        (split_at (c ∷ˢ msg) rest)
longer c msg rest tail true p e h = cc
longer c msg rest tail false p e h = ap (λ (q : Partition). extend c q) e

partition_append :
    (msg rest : String) → NoDot msg → partition b'.' (msg +ˢ ("." +ˢ rest)) ≡ split_at msg rest
unfolding partition
partition_append nil rest h = refl
partition_append (c ∷ˢ msg) rest h =
    longer c msg rest (msg +ˢ ("." +ˢ rest)) (nat_eqb (code c) b'.')
      (partition b'.' (msg +ˢ ("." +ˢ rest))) (partition_append msg rest (ground arith))
      (ground arith)

compare_digest_refl : (a : String) → all_chars is_ascii a ≡ true → compare_digest a a ≡ ok true
compare_digest_refl a h = rw (h, eq_refl a)

module _ (sign : String → String) where
  -- A token that was issued is valid, where its text has no dot and is not empty, and signatures
  -- are ASCII and not empty.
  pub is_valid-issue_token :
      (msg : String)
      → NoDot msg
      → truthy msg ≡ true
      → truthy (sign msg) ≡ true
      → all_chars is_ascii (sign msg) ≡ true
      → is_valid sign (issue_token sign msg) ≡ ok true
  unfolding is_valid issue_token
  is_valid-issue_token msg dotless named signed ascii =
      rw (partition_append msg (sign msg) dotless, named, signed)
        (compare_digest_refl (sign msg) ascii)
