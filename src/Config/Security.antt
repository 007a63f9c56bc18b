-- ===== src/Config/Security.antt =====
-- `_coherent_security` accepts exactly the connection settings that make sense together.
use kafkascope.Prelude.{String, Bool, true, false, ◌&&◌, ◌||◌, not, List, [], ◌∷◌, contains, ◌≡◌}
use Prim.Native.String.{[] as nil, ◌∷◌ as ◌∷ˢ◌}
use text.Mathlib.TextLemmas.{cons≢nil}
use kafkascope.Prelude.{
  or_iff, and_iff, eq_iff, refl, ◌≢◌, ◌↔◌, ◌⊎◌, inl, inr, string_eq, if◌then◌else◌,
}
use kafkascope.Prelude.Text.{truthy, has_prefix}
use kafkascope.Prelude.Text.Infix.{Starts, has_prefix_iff}
use kafkascope.Failure.{Failure, ok, ◌>>◌, require}
use kafkascope.Config.{ClusterConfig, valid_protocols, valid_sasl, userpass_sasl}
use kafkascope.Config.{coherent_security}

-- A text of the list.
abbrev pub OneOf : List String → String → Type 0
OneOf [] s = ⊥
OneOf (x ∷ xs) s = (x ≡ s) ⊎ OneOf xs s

-- The protocol is known, a mechanism that is named is known, and a SASL protocol has a mechanism,
-- with a user and a password where that mechanism takes them.
pub record IsCoherent (c : ClusterConfig) : Type 0 where
  pub protocol : OneOf valid_protocols c.security_protocol
  pub mechanism : (c.sasl_mechanism ≡ "") ⊎ OneOf valid_sasl c.sasl_mechanism
  pub sasl :
      Starts "SASL_" c.security_protocol
      → (c.sasl_mechanism ≢ "")
        × (OneOf userpass_sasl c.sasl_mechanism → (c.sasl_username ≢ "") × (c.sasl_password ≢ ""))

contains_iff : (xs : List String) (s : String) → (contains xs s ≡ true) ↔ OneOf xs s
contains_iff [] s = (λ h. cc, λ h. absurd h)
contains_iff (x ∷ xs) s = or_iff _ _ (eq_iff x s) (contains_iff xs s)

truthy_iff : (s : String) → (truthy s ≡ true) ↔ (s ≢ "")
truthy_iff nil = (λ h. cc, λ h. absurd (h refl))
truthy_iff (c ∷ˢ s) = (λ h. cons≢nil, λ h. refl)

-- The chain of checks, on the values of its tests.
chain :
    (p m s t q : Bool) (e₁ e₂ e₃ e₄ : Failure)
    → ((require p e₁ >> (require m e₂ >> (if s then require t e₃ >> require q e₄ else ok tt)))
        ≡ ok tt)
      ↔ ((p ≡ true) × (m ≡ true) × (s ≡ true → (t ≡ true) × (q ≡ true)))
chain true true true true true e₁ e₂ e₃ e₄ = (λ h. (refl, refl, λ k. (refl, refl)), λ h. refl)
chain true true true true false e₁ e₂ e₃ e₄ = (λ h. cc, λ (a, b, k). cc ((k refl).1))
chain true true true false q e₁ e₂ e₃ e₄ = (λ h. cc, λ (a, b, k). cc ((k refl).0))
chain true true false t q e₁ e₂ e₃ e₄ = (λ h. (refl, refl, λ k. cc), λ h. refl)
chain true false s t q e₁ e₂ e₃ e₄ = (λ h. cc, λ (a, b, k). cc)
chain false m s t q e₁ e₂ e₃ e₄ = (λ h. cc, λ (a, b, k). cc)

not_or_iff :
    {P Q : Type 0} (a b : Bool) → (a ≡ true) ↔ P → (b ≡ true) ↔ Q → ((not a || b) ≡ true) ↔ (P → Q)
not_or_iff true b p q = (λ h x. q.0 h, λ f. q.1 (f (p.0 refl)))
not_or_iff false b p q = (λ h x. cc (p.1 x), λ f. refl)

mechanism_iff :
    (s : String)
    → ((not (truthy s) || contains valid_sasl s) ≡ true) ↔ ((s ≡ "") ⊎ OneOf valid_sasl s)
mechanism_iff nil = (λ h. inl refl, λ h. refl)
mechanism_iff (c ∷ˢ s) = (λ h. inr ((contains_iff valid_sasl _).0 h), back)
  where
    back : (c ∷ˢ s ≡ "") ⊎ OneOf valid_sasl (c ∷ˢ s) → contains valid_sasl (c ∷ˢ s) ≡ true
    back (inl e) = absurd (cons≢nil e)
    back (inr o) = (contains_iff valid_sasl _).1 o

-- The checks pass exactly when the settings are coherent.
pub coherent_security_iff : (c : ClusterConfig) → (coherent_security c ≡ ok tt) ↔ IsCoherent c
unfolding coherent_security
coherent_security_iff c =
    let all =
      chain (contains valid_protocols c.security_protocol)
        (not (truthy c.sasl_mechanism) || contains valid_sasl c.sasl_mechanism)
        (has_prefix "SASL_" c.security_protocol) (truthy c.sasl_mechanism)
        (not (contains userpass_sasl c.sasl_mechanism)
          || (truthy c.sasl_username && truthy c.sasl_password))
        _ _ _ _ in
    let protocol = contains_iff valid_protocols c.security_protocol in
    let mechanism = mechanism_iff c.sasl_mechanism in
    let named = truthy_iff c.sasl_mechanism in
    let credentials =
      not_or_iff (contains userpass_sasl c.sasl_mechanism) _
        (contains_iff userpass_sasl c.sasl_mechanism)
        (and_iff _ _ (truthy_iff c.sasl_username) (truthy_iff c.sasl_password)) in
    let prefix = has_prefix_iff "SASL_" c.security_protocol in
    (
      λ h.
          let (p, m, s) = all.0 h in
          record {
            protocol = protocol.0 p;
            mechanism = mechanism.0 m;
            sasl = λ start. let (n, k) = s (prefix.1 start) in (named.0 n, credentials.0 k);
          },
      λ c. all.1 (
        protocol.1 c.protocol,
        mechanism.1 c.mechanism,
        λ start. let (n, k) = c.sasl (prefix.0 start) in (named.1 n, credentials.1 k),
      ),
    )
