-- ===== src/Scan/Loop/Truth.antt =====
-- What the events of `scan` and `tail` say is true.
use kafkascope.Prelude.{
  Option, none, some, ℤ, List, [], ◌++◌, append-nil, ◌≡◌, refl, sym, ap, subst,
}
use kafkascope.Prelude.{ℕ, ◌≤◌, arith, int_eq, inl, inr}
use kafkascope.Failure.{Failure, Result, ok, err}
use kafkascope.Kafka.{Kafka, TopicPartition}
use kafkascope.Kafka.Program.{Session}
use kafkascope.Filter.{ScanSpec}
use kafkascope.Scan.{Plan, plan, tail_assignments}
use kafkascope.Scan.Loop.{ScanStats, Event, Ending, finished, failed, out_of_fuel}
use kafkascope.Scan.Loop.{Stream, Reader, scan, tail}
use kafkascope.Scan.Loop.Reads.{IsBuilt}
use kafkascope.Scan.Loop.Search.{Counts, counts_of, start, idle, IsSearch, Closing}
use kafkascope.Scan.Loop.Sound.{AreTruthful-append, AreTruthful, Run-IsSound, IsSound}
use kafkascope.Scan.Loop.Refines.{scan-IsSearch, tail-IsSearch, IsScan, IsTail, Assigned}

module _ (K : Kafka) (R : Reader K) (spec : ScanSpec) where
  abbrev IsTrue : Stream → Type 0
  IsTrue stream = AreTruthful R.texts spec (IsBuilt K R) 0 stream.0

  IsSearch-AreTruthful :
      (limit : Option ℤ) (w : K.World) (stream : Stream)
      → IsSearch K R spec limit (start, idle w) stream
      → AreTruthful R.texts spec (IsBuilt K R) 0 stream.0
  IsSearch-AreTruthful limit w (es, end) h =
      subst (AreTruthful R.texts spec (IsBuilt K R) 0) (sym h.events)
        (closed end h.rest (Run-IsSound K R spec limit (le_zero, tt) h.run) h.closing)
    where
      le_zero : 0 ≤ 0
      le_zero = omega arith

      shown :
          (s : ScanStats)
          → h.final.0.hits ≤ h.final.0.scanned
          → h.final.0 ≡ counts_of s
          → s.hits ≤ s.scanned
      shown s b e = subst (λ (d : Counts). d.hits ≤ d.scanned) e b

      closed :
          (end : Ending) (rest : List Event)
          → IsSound K R spec limit 0 h.body h.final
          → Closing K R spec limit end h.final rest
          → AreTruthful R.texts spec (IsBuilt K R) 0 (h.body ++ rest)
      closed finished rest a (s, e, k, why) =
          AreTruthful-append R.texts spec (IsBuilt K R) 0 h.final.0.hits h.body rest a.truthful
            a.counted
            (subst (AreTruthful R.texts spec (IsBuilt K R) h.final.0.hits) (sym e)
              (ap (λ (c : Counts). c.hits) k, shown s a.below (sym k), tt))
      closed (failed x) rest a (e, why) =
          subst (λ l. AreTruthful R.texts spec (IsBuilt K R) 0 (h.body ++ l)) (sym e)
            (subst (AreTruthful R.texts spec (IsBuilt K R) 0) (sym (append-nil h.body)) a.truthful)
      closed out_of_fuel rest a e =
          subst (λ l. AreTruthful R.texts spec (IsBuilt K R) 0 (h.body ++ l)) (sym e)
            (subst (AreTruthful R.texts spec (IsBuilt K R) 0) (sym (append-nil h.body)) a.truthful)

  at_once : {e : Failure} (stream : Stream) → stream ≡ ([], failed e) → IsTrue stream
  at_once stream h = subst IsTrue (sym h) tt

  assigned :
      (limit : Option ℤ) (r : Result (Unit {0}) × K.World) (stream : Stream)
      → Assigned K R spec limit r stream
      → IsTrue stream
  assigned limit (err e, w) stream h = at_once stream h
  assigned limit (ok u, w) stream h = IsSearch-AreTruthful limit w stream h

  planned :
      (r : Result Plan × Session K) (stream : Stream) → IsScan K R spec r stream → IsTrue stream
  planned (err e, s) stream h = at_once stream h
  planned (ok p, s) stream (inl (z, h)) = subst IsTrue (sym h) (refl, nothing_read, tt)
    where
      nothing_read : 0 ≤ 0
      nothing_read = omega arith
  planned (ok p, s) stream (inr h) =
      assigned (some spec.limit) (R.assign p.assignments s.world) stream h

  tailed :
      (r : Result (List TopicPartition) × Session K) (stream : Stream)
      → IsTail K R spec r stream
      → IsTrue stream
  tailed (err e, s) stream h = at_once stream h
  tailed (ok tps, s) stream h = assigned none (R.assign tps s.world) stream h

  -- Every message that a scan shows is built from a record that a poll handed out, and matches the
  -- search; and whenever it shows its counts, the hits are the messages shown so far, and no more
  -- than the records read.
  pub scan-AreTruthful :
      (fuel : ℕ) (st : R.State) (s : Session K)
      → AreTruthful R.texts spec (IsBuilt K R) 0 (scan K R spec fuel st s).0
  scan-AreTruthful fuel st s =
      planned (plan K spec s) (scan K R spec fuel st s) (scan-IsSearch K R spec fuel st s)

  -- So does a tail.
  pub tail-AreTruthful :
      (fuel : ℕ) (st : R.State) (s : Session K)
      → AreTruthful R.texts spec (IsBuilt K R) 0 (tail K R spec fuel st s).0
  tail-AreTruthful fuel st s =
      tailed (tail_assignments K spec s) (tail K R spec fuel st s)
        (tail-IsSearch K R spec fuel st s)
