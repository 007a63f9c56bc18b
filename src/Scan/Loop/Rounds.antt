-- ===== src/Scan/Loop/Rounds.antt =====
-- A round of a scan or of a tail, its poll and its end, as parts of a search.
use kafkascope.Prelude.{ℕ, ℤ, Bool, true, false, Option, none, some}
use kafkascope.Prelude.{List, [], ◌∷◌, append_assoc, ◌≡◌, refl, subst}
use kafkascope.Prelude.{if◌then◌else◌}
use kafkascope.Prelude.{int_eq}
use kafkascope.Prelude.Dict.{Dict, lookup}
use kafkascope.Failure.{Result, ok, err, Failure, key_error, reported}
use kafkascope.Kafka.{Kafka, TopicPartition}
use kafkascope.Filter.{ScanSpec}
use kafkascope.Scan.Record.{Raw}
use kafkascope.Scan.Loop.{progress}
use kafkascope.Scan.Loop.{Stream, Reader, because, StopReason, going, over, Part}
use kafkascope.Scan.Loop.{close, round}
use kafkascope.Scan.Loop.{moved}
use kafkascope.Scan.Loop.{remaining_of, remaining_at}
use kafkascope.Scan.Loop.Search.{counts_of, Run-one, poll, idle, Point, Stops}
use kafkascope.Scan.Loop.Search.{Run-append, beat, IsSearch, IsSearch-prefix}
use kafkascope.Scan.Loop.Search.{IsSearch-close}
use kafkascope.Scan.Loop.Parts.{Place, before, IsPart}

module _ (K : Kafka) (R : Reader K) (spec : ScanSpec) where
  -- A place whose end is not known is the only failure.
  pub remaining_of-err :
      (ends : Dict ℤ ℤ) (tps : List TopicPartition) (e : Failure)
      → remaining_of ends tps ≡ err e
      → e ≡ key_error (reported "ends")
  remaining_of-err ends [] e h = cc
  remaining_of-err ends (tp ∷ tps) e h =
      step (lookup tp.partition ends) (remaining_of ends tps) (remaining_of-err ends tps) h
    where
      step :
          (o : Option ℤ) (rest : Result (Dict ℤ ℤ))
          → ((e : Failure) → rest ≡ err e → e ≡ key_error (reported "ends"))
          → remaining_at tp o rest ≡ err e
          → e ≡ key_error (reported "ends")
      step none rest ih h = cc
      step (some end) (err x) ih h = ih e h
      step (some end) (ok rest) ih h = cc

  module _ (limit : Option ℤ) where
    -- A place in the loop between two polls.
    abbrev pub between : Place K R spec limit → Point K R spec limit
    between s = (counts_of s.stats, idle s.world)

    pub round-IsSearch :
        (p : Point K R spec limit) (part : Part K R spec) (later : Place K R spec limit → Stream)
        → IsPart K R spec limit p [] part
        → ((t : Place K R spec limit) → IsSearch K R spec limit (between t) (later t))
        → IsSearch K R spec limit p (round K R spec part later)
    round-IsSearch p (es, over end) later h k = h
    round-IsSearch p (es, going t) later h k =
        subst (λ l. IsSearch K R spec limit p (l, (later t).1))
          (append_assoc es (progress t.stats ∷ []) (later t).0)
          (IsSearch-prefix K R spec limit (later t)
            (Run-append K R spec limit h (Run-one K R spec limit (beat t.stats refl))) (k t))

    -- The poll of a round, and what follows it.
    pub polled-IsSearch :
        (s : Place K R spec limit) (n : ℕ) (rs : List Raw) (stream : Stream)
        → (R.is_cancelled s.world).0 ≡ false
        → (R.consume n (R.is_cancelled s.world).1).0 ≡ ok rs
        → IsSearch K R spec limit
            (before K R spec limit (moved K R spec s (R.consume n (R.is_cancelled s.world).1).1) rs)
            stream
        → IsSearch K R spec limit (between s) stream
    polled-IsSearch s n rs stream open_ e h =
        IsSearch-prefix K R spec limit stream (Run-one K R spec limit (poll n open_ e)) h

    -- A test in front of a stream that is a search either way.
    pub either :
        (p : Point K R spec limit) (b : Bool) (u v : Stream)
        → (b ≡ true → IsSearch K R spec limit p u)
        → (b ≡ false → IsSearch K R spec limit p v)
        → IsSearch K R spec limit p (if b then u else v)
    either p true u v h k = h refl
    either p false u v h k = k refl

    pub close-IsSearch :
        (s : Place K R spec limit) (w : K.World) (why : StopReason)
        → Stops K R spec limit (between s) why
        → IsSearch K R spec limit (between s) (close K R spec why (moved K R spec s w))
    close-IsSearch s w why h = IsSearch-close K R spec limit (because why s.stats) (idle s.world) h
