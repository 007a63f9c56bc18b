-- ===== src/Prelude/Text.antt =====
-- The methods of Python's `str` that the source calls, on the code points of a text.
pub mod Infix
use Prim.Native.Nat.{ℕ}
use Prim.Native.Char.{Char, code}
use Prim.Native.String.{String, [], ◌∷◌}
use mathlib.Core.Bool.{Bool, true, false, ◌&&◌, ◌||◌, not}
use mathlib.Core.List.{List}
use mathlib.Core.List as L
use kafkascope.Prelude.Tests.{leb, nat_eqb, if◌then◌else◌}

abbrev pub is_empty : String → Bool
is_empty [] = true
is_empty (c ∷ s) = false

-- The truth value of a text: `bool(s)`.
abbrev pub truthy : String → Bool
truthy s = not (is_empty s)

-- `str.isspace` on one code point: the whitespace of Unicode and the separators 28 to 31.
unfoldable pub is_space : ℕ → Bool
is_space c =
    leb 9 c && leb c 13
    || leb 28 c && leb c 32
    || nat_eqb c 0x85
    || nat_eqb c 0xa0
    || nat_eqb c 0x1680
    || leb 0x2000 c && leb c 0x200a
    || nat_eqb c 0x2028
    || nat_eqb c 0x2029
    || nat_eqb c 0x202f
    || nat_eqb c 0x205f
    || nat_eqb c 0x3000

unfoldable pub strip_left : String → String
unfolding is_space
strip_left [] = []
strip_left (c ∷ s) = if is_space (code c) then strip_left s else c ∷ s

unfoldable pub strip_right : String → String
unfolding is_space
strip_right [] = []
strip_right (c ∷ s) =
    let rest = strip_right s in if is_empty rest && is_space (code c) then [] else c ∷ rest

-- `s.strip()`
unfoldable pub strip : String → String
unfolding strip_left strip_right
strip s = strip_right (strip_left s)

abbrev pub keep_word : String → List String → List String
keep_word [] ws = ws
keep_word (c ∷ w) ws = L.◌∷◌ (c ∷ w) ws

-- The word that a text begins with, and the words after it.
unfoldable pub words_of : String → String × List String
unfolding is_space
words_of [] = ([], L.[])
words_of (c ∷ s) =
    let rest = words_of s in
    if is_space (code c) then ([], keep_word rest.0 rest.1) else (c ∷ rest.0, rest.1)

-- `s.split()`
unfoldable pub split_words : String → List String
unfolding words_of
split_words s = let r = words_of s in keep_word r.0 r.1

-- `s.split(sep)` for a separator of one character: the first part and the rest.
unfoldable pub parts_of : ℕ → String → String × List String
parts_of sep [] = ([], L.[])
parts_of sep (c ∷ s) =
    let rest = parts_of sep s in
    if nat_eqb (code c) sep then ([], L.◌∷◌ rest.0 rest.1) else (c ∷ rest.0, rest.1)

unfoldable pub split_on : ℕ → String → List String
unfolding parts_of
split_on sep s = let r = parts_of sep s in L.◌∷◌ r.0 r.1

-- `s.partition(sep)`: what stands before the separator, whether it was found, what follows it.
pub record Partition : Type 0 where
  pub before : String
  pub found : Bool
  pub after : String

unfoldable pub partition : ℕ → String → Partition
partition sep [] = record { before = []; found = false; after = [] }
partition sep (c ∷ s) =
    let rest = partition sep s in
    if nat_eqb (code c) sep
    then record { before = []; found = true; after = s }
    else record { before = c ∷ rest.before; found = rest.found; after = rest.after }

-- `s.replace(a, b)` for single characters is given by the character to write.
unfoldable pub replace_char : ℕ → Char → String → String
replace_char a b [] = []
replace_char a b (c ∷ s) =
    let rest = replace_char a b s in if nat_eqb (code c) a then b ∷ rest else c ∷ rest

-- `s + t`
infixr 65 ◌+ˢ◌
abbrev pub ◌+ˢ◌ : String → String → String
[] +ˢ t = t
(c ∷ s) +ˢ t = c ∷ (s +ˢ t)

-- `s.startswith(p)`
unfoldable pub has_prefix : String → String → Bool
has_prefix [] s = true
has_prefix (p ∷ ps) [] = false
has_prefix (p ∷ ps) (c ∷ s) = nat_eqb (code p) (code c) && has_prefix ps s

-- `p in s` for texts
unfoldable pub has_infix : String → String → Bool
unfolding has_prefix
has_infix p [] = has_prefix p []
has_infix p (c ∷ s) = has_prefix p (c ∷ s) || has_infix p s

-- The test of a predicate at every character.
abbrev pub all_chars : (ℕ → Bool) → String → Bool
all_chars p [] = true
all_chars p (c ∷ s) = p (code c) && all_chars p s

-- `len(s)`, in characters
abbrev pub size : String → ℕ
size [] = 0
size (c ∷ s) = ℕ.suc (size s)

-- `c in chars` for one character
abbrev pub one_of : String → ℕ → Bool
one_of [] c = false
one_of (d ∷ ds) c = nat_eqb (code d) c || one_of ds c
