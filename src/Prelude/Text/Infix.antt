-- ===== src/Prelude/Text/Infix.antt =====
-- `str.startswith` and `in` on texts mean that one text stands at the front of, or within, another.
use Prim.Native.Char.{Char, code}
use Prim.Native.String.{String, [], ◌∷◌, ◌++◌}
use mathlib.Core.Path.{◌≡◌, refl, sym, ◌∙◌, ap, ap₂}
use mathlib.Core.Logic.{◌↔◌, inl, inr}
use mathlib.Core.Bool.{true}
use native.Mathlib.Omega.{arith}
use text.Mathlib.TextEquality.{Char-path}
use text.Mathlib.TextLemmas.{nil-append, cons-append}
use kafkascope.Prelude.Tests.{nat_eqb_iff, and_true, Bool-cases}
use kafkascope.Prelude.Text.{has_prefix, has_infix}

-- `p` stands at the front of `s`.
abbrev pub Starts : String → String → Type 0
Starts p s = (rest : String) × (s ≡ p ++ rest)

-- `p` stands within `s`.
abbrev pub Within : String → String → Type 0
Within p s = (before : String) × (after : String) × (s ≡ before ++ (p ++ after))

Starts-cons : (p c : Char) (ps s : String) → code p ≡ code c → Starts ps s → Starts (p ∷ ps) (c ∷ s)
Starts-cons p c ps s same (rest, e) = (
  rest,
  ap₂ (λ (x : Char) (y : String). x ∷ y) (sym (Char-path p c same)) e ∙ sym (cons-append p ps rest),
)

pub has_prefix-Starts : (p s : String) → has_prefix p s ≡ true → Starts p s
unfolding has_prefix
has_prefix-Starts [] s h = (s, sym (nil-append s))
has_prefix-Starts (p ∷ ps) [] h = cc
has_prefix-Starts (p ∷ ps) (c ∷ s) h =
    let (same, more) = and_true _ _ h in
    Starts-cons p c ps s ((nat_eqb_iff _ _).0 same) (has_prefix-Starts ps s more)

has_prefix-append : (p rest : String) → has_prefix p (p ++ rest) ≡ true
unfolding has_prefix
has_prefix-append [] rest = refl
has_prefix-append (p ∷ ps) rest =
    rw cons-append (ground (arith, has_prefix-append ps rest, nat_eqb_iff (code p) (code p)))

pub has_prefix_iff : (p s : String) → (has_prefix p s ≡ true) ↔ Starts p s
has_prefix_iff p s = (has_prefix-Starts p s, λ (rest, e). rw e (has_prefix-append p rest))

pub has_infix-Within : (p s : String) → has_infix p s ≡ true → Within p s
unfolding has_infix
has_infix-Within p [] h =
    let (rest, e) = has_prefix-Starts p [] h in ([], rest, e ∙ sym (nil-append _))
has_infix-Within p (c ∷ s) h = elim (Bool-cases (has_prefix p (c ∷ s))) [
  | inl front ↦
      let (rest, e) = has_prefix-Starts p (c ∷ s) front in ([], rest, e ∙ sym (nil-append _))
  | inr later ↦
      let (before, after, e) = has_infix-Within p s (rw later at h) in
      (c ∷ before, after, ap (λ (y : String). c ∷ y) e ∙ sym (cons-append c before _))
]

has_infix_of_prefix : (p s : String) → has_prefix p s ≡ true → has_infix p s ≡ true
unfolding has_infix
has_infix_of_prefix p [] h = h
has_infix_of_prefix p (c ∷ s) h = rw h

has_infix-append : (p before after : String) → has_infix p (before ++ (p ++ after)) ≡ true
unfolding has_infix
has_infix-append p [] after =
    rw nil-append (has_infix_of_prefix p (p ++ after) (has_prefix-append p after))
has_infix-append p (c ∷ before) after =
    rw cons-append (ground (arith, has_infix-append p before after))

-- The test of the source, read as the relation.
pub has_infix_iff : (p s : String) → (has_infix p s ≡ true) ↔ Within p s
has_infix_iff p s = (has_infix-Within p s, λ (b, a, e). rw e (has_infix-append p b a))
