-- ===== src/Scan/Loop/Sound.antt =====
-- Every run of the search is true: its hits match and were polled, and its counts are those.
use kafkascope.Prelude.{ℕ, ◌+◌, ◌≤◌, List, [], ◌∷◌, ◌++◌, All, ◌≡◌, sym, ap, subst, arith}
use kafkascope.Kafka.{Kafka}
use kafkascope.Filter.{ScanSpec}
use kafkascope.Prelude.{Option, ℤ, true}
use kafkascope.Failure.{ok}
use kafkascope.Filter.{Texts, Message, matches}
use kafkascope.Scan.Loop.{Reader, Event, hit, progress, done}
use kafkascope.Scan.Loop.Reads.{IsBuilt, IsPolled, All-IsPolled}
use kafkascope.Scan.Loop.Search.{Counts, counts_of, Phase, idle, reading, Point, Step, poll, pass}
use kafkascope.Scan.Loop.Search.{find, skip, beat, Run, here, next, hit_count, hit_count-append}

-- `B` says where a message comes from.
module _ (T : Texts) (spec : ScanSpec) (B : Message → Type 0) where
  -- From `n` hits on, every hit has its origin and matches, and the counts that are shown are the hits so far.
  abbrev pub AreTruthful : ℕ → List Event → Type 0
  AreTruthful n [] = Unit
  AreTruthful n (hit m ∷ es) = B m × (matches T m spec ≡ ok true) × AreTruthful (n + 1) es
  AreTruthful n (progress s ∷ es) = (s.hits ≡ n) × (s.hits ≤ s.scanned) × AreTruthful n es
  AreTruthful n (done s ∷ es) = (s.hits ≡ n) × (s.hits ≤ s.scanned) × AreTruthful n es

  pub AreTruthful-append :
      (n m : ℕ) (es fs : List Event)
      → AreTruthful n es
      → n + hit_count es ≡ m
      → AreTruthful m fs
      → AreTruthful n (es ++ fs)
  AreTruthful-append n m [] fs h e k =
      let e' : m ≡ n = omega arith in subst (λ j. AreTruthful j fs) e' k
  AreTruthful-append n m (hit x ∷ es) fs (b, h, hs) e k =
      (b, h, AreTruthful-append (n + 1) m es fs hs (omega arith) k)
  AreTruthful-append n m (progress s ∷ es) fs (h, l, hs) e k =
      (h, l, AreTruthful-append n m es fs hs e k)
  AreTruthful-append n m (done s ∷ es) fs (h, l, hs) e k =
      (h, l, AreTruthful-append n m es fs hs e k)

module _ (K : Kafka) (R : Reader K) (spec : ScanSpec) (limit : Option ℤ) where
  -- The records still to read were polled.
  abbrev pub ArePolled : Phase K.World → Type 0
  ArePolled (idle w) = Unit
  ArePolled (reading w rs) = All (IsPolled K R) rs

  abbrev pub IsFair : Point K R spec limit → Type 0
  IsFair p = (p.0.hits ≤ p.0.scanned) × ArePolled p.1

  pub record IsSound (n : ℕ) (es : List Event) (d : Point K R spec limit) : Type 0 where
    pub truthful : AreTruthful R.texts spec (IsBuilt K R) n es
    pub counted : n + hit_count es ≡ d.0.hits
    pub below : d.0.hits ≤ d.0.scanned
    pub polled : ArePolled d.1

  Step-IsSound :
      {p q : Point K R spec limit} {es : List Event}
      → Step K R spec limit p es q
      → IsFair p
      → IsSound p.0.hits es q
  Step-IsSound (poll {c} {w} {rs} n open_ e) (h, hs) = record {
    truthful = tt;
    counted = omega arith;
    below = h;
    polled = All-IsPolled K R n _ rs e;
  }
  Step-IsSound (pass m st sound b e) (h, (k, ks)) = record {
    truthful = tt;
    counted = omega arith;
    below = omega arith;
    polled = ks;
  }
  Step-IsSound (find {c} {w} {r} m st sound b e) (h, (k, ks)) = record {
    truthful = ((r, k, sound, st, b), e, tt);
    counted = omega arith;
    below = omega arith;
    polled = ks;
  }
  Step-IsSound (skip e) (h, (k, ks)) = record {
    truthful = tt;
    counted = omega arith;
    below = h;
    polled = ks;
  }
  Step-IsSound (beat {c} s e) (h, hs) = record {
    truthful = (ap (λ (d : Counts). d.hits) e, shown (sym e), tt);
    counted = omega arith;
    below = h;
    polled = tt;
  }
    where
      shown : c ≡ counts_of s → s.hits ≤ s.scanned
      shown e = subst (λ (d : Counts). d.hits ≤ d.scanned) e h

  pub Run-IsSound :
      {p q : Point K R spec limit} {es : List Event}
      → IsFair p
      → Run K R spec limit p es q
      → IsSound p.0.hits es q
  Run-IsSound (h, hs) here = record { truthful = tt; counted = omega arith; below = h; polled = hs }
  Run-IsSound {p} h (next {es} {fs} r s) =
      let a = Run-IsSound h r in
      let b = Step-IsSound s (a.below, a.polled) in
      record {
        truthful =
            AreTruthful-append R.texts spec (IsBuilt K R) p.0.hits _ es fs a.truthful a.counted
              b.truthful;
        counted = omega (arith, a.counted, b.counted, hit_count-append es fs);
        below = b.below;
        polled = b.polled;
      }
