-- ===== src/Produce/Laws.antt =====
-- What a form's headers come to, and what sending asks of the broker.
use kafkascope.Prelude.{ℕ, suc, String, Bool, true, false, Option, none, some, List, [], ◌∷◌}
use kafkascope.Prelude.{◌≡◌, refl, subst, if◌then◌else◌}
use kafkascope.Prelude.{sym}
use kafkascope.Prelude.Text.{strip, truthy, partition}
use kafkascope.Failure.{Result, ok, ◌>>=◌}
use kafkascope.Failure.{>>=-eq-ok, require-eq-ok, ok-injective}
use kafkascope.Kafka.{Kafka, Request, Altered, produce}
use kafkascope.Kafka.Program.Rules.{Silent, Sends, Silent-lift, Silent-pure, Silent-raise}
use kafkascope.Kafka.Program.Rules.{Sends-bind, Sends-then, Sends-request}
use kafkascope.Client.{Context, is_readonly}
use kafkascope.Client.Laws.{Silent-require_writable}
use kafkascope.Produce.{split_lines, value_of, header_of, headers_from, parse_headers}
use kafkascope.Produce.{Sending, raw_of, delivered, delivered_or_failed, send}

-- The lines that are not blank, stripped.
abbrev pub filled : List String → List String
filled [] = []
filled (line ∷ lines) =
    let rest = filled lines in if truthy (strip line) then strip line ∷ rest else rest

-- The stripped text before the first colon, which is not empty, and the stripped text behind it.
pub record IsHeader (line : String) (h : String × String) : Type 0 where
  pub name : h.0 ≡ strip (partition b':' line).before
  pub named : truthy h.0 ≡ true
  pub value : h.1 ≡ value_of (partition b':' line)

-- One header for each line, in order.
abbrev pub AreHeaders : List String → List (String × String) → Type 0
AreHeaders [] [] = Unit
AreHeaders [] (h ∷ hs) = ⊥
AreHeaders (line ∷ lines) [] = ⊥
AreHeaders (line ∷ lines) (h ∷ hs) = IsHeader line h × AreHeaders lines hs

header_of-IsHeader :
    (lineno : ℕ) (line : String) (h : String × String)
    → header_of lineno line ≡ ok h
    → IsHeader line h
header_of-IsHeader lineno line h e =
    let (named, k) = require-eq-ok (truthy (strip (partition b':' line).before)) _ _ e in
    subst (IsHeader line) (ok-injective k) (record { name = refl; named = named; value = refl })

headers_from-AreHeaders :
    (lineno : ℕ) (lines : List String) (hs : List (String × String))
    → headers_from lineno lines ≡ ok hs
    → AreHeaders (filled lines) hs
unfolding headers_from
headers_from-AreHeaders lineno [] hs e = subst (AreHeaders []) (ok-injective e) tt
headers_from-AreHeaders lineno (line ∷ lines) hs e =
    by_blank (truthy (strip line)) (headers_from-AreHeaders (suc lineno) lines) e
  where
    by_blank :
        (b : Bool)
        → ((hs : List (String × String))
            → headers_from (suc lineno) lines ≡ ok hs
            → AreHeaders (filled lines) hs)
        → (if b
            then (header_of lineno (strip line) >>= λ h.
                headers_from (suc lineno) lines >>= λ hs. ok (h ∷ hs))
            else headers_from (suc lineno) lines)
          ≡ ok hs
        → AreHeaders (if b then strip line ∷ filled lines else filled lines) hs
    by_blank true later e =
        let (h, made, k) = >>=-eq-ok (header_of lineno (strip line)) _ e in
        let (rest, e', k') = >>=-eq-ok (headers_from (suc lineno) lines) (λ hs. ok (h ∷ hs)) k in
        subst (AreHeaders (strip line ∷ filled lines)) (ok-injective k')
          (header_of-IsHeader lineno (strip line) h made, later rest e')
    by_blank false later e = later hs e

-- The headers that a text parses to are those of its lines that are not blank, one for each, in
-- order: the stripped text before the first colon, never empty, and the stripped text behind it.
pub parse_headers-AreHeaders :
    (raw : String) (hs : List (String × String))
    → parse_headers raw ≡ ok hs
    → AreHeaders (filled (split_lines raw)) hs
unfolding parse_headers
parse_headers-AreHeaders raw hs e = headers_from-AreHeaders 1 (split_lines raw) hs e

module _ (K : Kafka) (encode : String → Result (List ℕ)) where
  -- The bytes where there are bytes, else the text as it is encoded, else nothing.
  abbrev pub IsPayload : Option (List ℕ) → Option String → Option (List ℕ) → Type 0
  IsPayload (some bs) t raw = raw ≡ some bs
  IsPayload none (some t) raw = (bs : List ℕ) × (encode t ≡ ok bs) × (raw ≡ some bs)
  IsPayload none none raw = raw ≡ none

  raw_of-IsPayload :
      (bytes : Option (List ℕ)) (t : Option String) (raw : Option (List ℕ))
      → raw_of encode bytes t ≡ ok raw
      → IsPayload bytes t raw
  raw_of-IsPayload (some bs) t raw e = sym (ok-injective e)
  raw_of-IsPayload none (some t) raw e =
      let (bs, h, k) = >>=-eq-ok (encode t) _ e in (bs, h, sym (ok-injective k))
  raw_of-IsPayload none none raw e = sym (ok-injective e)

  -- The message as it was given, its key and value in bytes.
  abbrev pub IsSend : Context → Sending → Request → Type 0
  IsSend x m (produce topic key value headers partition) =
      (is_readonly x ≡ ok false)
      × (topic ≡ m.topic)
      × IsPayload m.key_bytes m.key key
      × IsPayload m.value_bytes m.value value
      × (headers ≡ m.headers)
      × (partition ≡ m.partition)
  IsSend x m r = ⊥

  Silent-delivered :
      (m : Sending) (report : List Altered) → Silent (delivered K encode m report) (λ _. Unit {0})
  Silent-delivered m [] = Silent-raise _
  Silent-delivered m (a ∷ as_) = by_error a.error
    where
      by_error : (e : Option String) → Silent (delivered_or_failed K encode m a e) (λ _. Unit {0})
      by_error none = Silent-pure _ tt
      by_error (some e) = Silent-raise _

  -- A sending either raises, having asked the broker for nothing, or asks for one message: to that
  -- topic and partition, with those headers, and with the key and the value that were given, as
  -- bytes where there are bytes and else as text in UTF-8. The switch is open then.
  pub send-Sends : (x : Context) (m : Sending) → Sends (send K encode x m) (IsSend x m)
  unfolding send
  send-Sends x m = Sends-bind (Silent-require_writable x) λ u open_.
      Sends-bind
        (Silent-lift {Q = IsPayload m.value_bytes m.value} _
          (raw_of-IsPayload m.value_bytes m.value))
        λ value v.
          Sends-bind
            (Silent-lift {Q = IsPayload m.key_bytes m.key} _ (raw_of-IsPayload m.key_bytes m.key))
            λ key k.
              Sends-then (Sends-request _ (open_, refl, k, v, refl, refl))
                λ report. Silent-delivered m report
