-- ===== src/Scan/Loop/Ends.antt =====
-- A scan stays within its budget and its limit, and ends.
use kafkascope.Prelude.{ℕ, zero, suc, ◌+◌, ◌≤◌, ◌<◌, ℤ, pos, pos_part}
use kafkascope.Prelude.{Bool, true, false, not, some, List, [], ◌∷◌, length}
use kafkascope.Prelude.{leb_ℤ, min_ℤ, eqb_ℤ, int_eq, ◌≡◌, ◌≢◌, refl}
use kafkascope.Prelude.{if◌then◌else◌, arith}
use kafkascope.Prelude.Dict.{Dict}
use kafkascope.Failure.{Result, ok, err}
use kafkascope.Kafka.{Kafka}
use kafkascope.Kafka.Program.{Session}
use kafkascope.Filter.{ScanSpec}
use kafkascope.Scan.{Plan, plan}
use kafkascope.Scan.Record.{Raw}
use kafkascope.Scan.Loop.{out_of_fuel}
use kafkascope.Scan.Loop.{Stream, Reader, StopReason, going, over, Part}
use kafkascope.Scan.Loop.{read_batch, close, round}
use kafkascope.Scan.Loop.{moved, scan_batch, scan_round, scan_loop, scan_from, scan_assigned}
use kafkascope.Scan.Loop.{scan_planned, scan, some_left, remaining_of, batch_size}
use kafkascope.Scan.Loop.{end_of_window, cancelled, budget_reason, no_stats}
use kafkascope.Scan.Loop.Bounds.{AreWithin, AreWithin-append, AreWithin-mono, NoEof, IsConsumer}
use kafkascope.Scan.Loop.Bounds.{limit_of, Place, hit_limit, IsWithin, read_batch-IsWithin}

module _ (K : Kafka) (R : Reader K) (spec : ScanSpec) where
  -- A stream within the bounds, which has fuel enough if `F`.
  abbrev IsGood : ℕ → ℕ → Type 0 → Stream → Type 0
  IsGood b h F stream = AreWithin b (hit_limit K R spec) h stream.0 × (F → stream.1 ≢ out_of_fuel)

  close-IsGood :
      (b : ℕ) (F : Type 0) (why : StopReason) (s : Place K R spec)
      → s.stats.scanned ≤ b
      → IsGood b s.stats.hits F (close K R spec why s)
  close-IsGood b F why s le = ((le, tt), λ f e. cc)

  either :
      (b h : ℕ) (F : Type 0) (t : Bool) (p q : Stream)
      → IsGood b h F p
      → (t ≡ false → IsGood b h F q)
      → IsGood b h F (if t then p else q)
  either b h F true p q x y = x
  either b h F false p q x y = y refl

  round-IsGood :
      (b h n : ℕ) (Q F : Type 0) (p : Part K R spec) (later : Place K R spec → Stream)
      → n ≤ b
      → IsWithin K R spec b h n Q p
      → ((t : Place K R spec)
          → t.stats.hits < (hit_limit K R spec)
          → t.stats.scanned ≤ n
          → (Q → n ≤ t.stats.scanned)
          → IsGood b t.stats.hits F (later t))
      → IsGood b h F (round K R spec p later)
  round-IsGood b h n Q F (es, over end) later le (w, ne) k = (w, λ f. ne)
  round-IsGood b h n Q F (es, going t) later le (w, e, lt, up, down) k =
      let (v, fin) = k t lt up down in
      (AreWithin-append b (hit_limit K R spec) h t.stats.hits es _ w e (omega arith, v), fin)

  module _ (C : IsConsumer K R) (ends : Dict ℤ ℤ) (budget total : ℤ) where
    Later : (Place K R spec → Stream) → ℕ → Type 0
    Later later fuel =
        (t : Place K R spec)
        → t.stats.hits < (hit_limit K R spec)
        → t.stats.scanned ≤ pos_part budget
        → IsGood (pos_part budget) t.stats.hits (pos_part budget < t.stats.scanned + fuel) (later t)

    scan_batch-IsGood :
        (fuel : ℕ) (s : Place K R spec) (r : Result (List Raw)) (later : Place K R spec → Stream)
        → s.stats.hits < (hit_limit K R spec)
        → leb_ℤ budget (pos s.stats.scanned) ≡ false
        → ((rs : List Raw) → r ≡ ok rs → (length rs ≤ batch_size budget s.stats.scanned) × NoEof rs)
        → Later later fuel
        → IsGood
            (pos_part budget)
            s.stats.hits
            (pos_part budget < s.stats.scanned + suc fuel)
            (scan_batch K R spec ends s r later)
    unfolding Later
    scan_batch-IsGood fuel s (err e) later lt under c k = (tt, λ f x. cc)
    scan_batch-IsGood fuel s (ok []) later lt under c k =
        close-IsGood (pos_part budget) _ end_of_window s (ground arith)
    scan_batch-IsGood fuel s (ok (r ∷ rs)) later lt under c k =
        let fits = (c (r ∷ rs) refl).0 in
        let noeof = (c (r ∷ rs) refl).1 in
        round-IsGood (pos_part budget) s.stats.hits (s.stats.scanned + length (r ∷ rs)) (Unit {0}) _
          (read_batch K R spec (some ends) (some spec.limit) (r ∷ rs) s) later (ground arith)
          (read_batch-IsWithin K R spec (pos_part budget) ends (r ∷ rs) s _ lt (omega arith)
            (ground arith) (Unit {0}) (λ u. (noeof, omega arith)))
          λ t lt' up down.
            let (within, ends_) = k t lt' (ground (arith, fits)) in
            (within, λ f. ends_ (omega (arith, down tt)))

    scan_round-IsGood :
        (fuel : ℕ) (s : Place K R spec) (later : Place K R spec → Stream)
        → s.stats.hits < (hit_limit K R spec)
        → s.stats.scanned ≤ pos_part budget
        → Later later fuel
        → IsGood
            (pos_part budget)
            s.stats.hits
            (pos_part budget < s.stats.scanned + suc fuel)
            (scan_round K R spec ends budget total s later)
    scan_round-IsGood fuel s later lt le k =
        either _ _ _ (leb_ℤ budget (pos s.stats.scanned)) _ _
          (close-IsGood _ _ (budget_reason K R spec budget total) s le)
          λ under.
            either _ _ _ (not (some_left s.remaining)) _ _ (close-IsGood _ _ end_of_window s le)
              λ left.
                scan_batch-IsGood fuel
                  (moved K R spec s (R.consume (batch_size budget s.stats.scanned) s.world).1)
                  (R.consume (batch_size budget s.stats.scanned) s.world).0 later lt under
                  (λ rs e. (C.at_most _ _ rs e, C.no_eof _ _ rs e)) k

    scan_loop-IsGood :
        (fuel : ℕ) (s : Place K R spec)
        → s.stats.hits < (hit_limit K R spec)
        → s.stats.scanned ≤ pos_part budget
        → IsGood
            (pos_part budget)
            s.stats.hits
            (pos_part budget < s.stats.scanned + fuel)
            (scan_loop K R spec fuel ends budget total s)
    unfolding scan_loop Later
    scan_loop-IsGood zero s lt le = (tt, λ f. absurd (omega arith))
    scan_loop-IsGood (suc fuel) s lt le =
        either _ _ _ (R.is_cancelled s.world).0 _ _
          (close-IsGood _ _ cancelled (moved K R spec s (R.is_cancelled s.world).1) le)
          λ on.
            scan_round-IsGood fuel (moved K R spec s (R.is_cancelled s.world).1) _ lt le
              λ t lt' le'. scan_loop-IsGood fuel t lt' le'

  -- A scan within `b` records.
  IsBounded : Type 0 → Stream → Type 0
  IsBounded F stream = IsGood (pos_part spec.max_scan) 0 F stream

  scan-IsBounded :
      (fuel : ℕ) (st : R.State) (s : Session K)
      → IsConsumer K R
      → IsBounded (pos_part spec.max_scan < fuel) (scan K R spec fuel st s)
  unfolding scan IsBounded
  scan-IsBounded fuel st s C = planned (plan K spec s)
    where
      F : Type 0
      F = pos_part spec.max_scan < fuel

      below : (a : ℤ) → pos_part (min_ℤ a spec.max_scan) ≤ pos_part spec.max_scan
      below a = ground arith

      loop :
          (p : Plan) (left : Dict ℤ ℤ) (w : K.World)
          → IsGood (pos_part spec.max_scan) 0 F (
              scan_loop K R spec fuel p.ends
                (min_ℤ p.total spec.max_scan)
                p.total
                (record { stats = no_stats K R spec; remaining = left; world = w; state = st }))
      loop p left w =
          let (within, ends_) =
            scan_loop-IsGood C p.ends (min_ℤ p.total spec.max_scan) p.total fuel
              (record { stats = no_stats K R spec; remaining = left; world = w; state = st })
              (omega arith) (omega arith) in
          (
            AreWithin-mono _ _ (hit_limit K R spec) 0 _ (below p.total) within,
            λ f. ends_ (omega (arith, below p.total)),
          )

      from :
          (p : Plan) (r : Result (Dict ℤ ℤ)) (w : K.World)
          → IsGood
              (pos_part spec.max_scan)
              0
              F
              (scan_from K R spec fuel p (min_ℤ p.total spec.max_scan) st r w)
      from p (err e) w = (tt, λ f x. cc)
      from p (ok left) w = loop p left w

      assigned :
          (p : Plan) (r : Result (Unit {0}) × K.World)
          → IsGood
              (pos_part spec.max_scan)
              0
              F
              (scan_assigned K R spec fuel p (min_ℤ p.total spec.max_scan) st r)
      assigned p (err e, w) = (tt, λ f x. cc)
      assigned p (ok u, w) = from p (remaining_of p.ends p.assignments) w

      planned :
          (r : Result Plan × Session K)
          → IsGood (pos_part spec.max_scan) 0 F (scan_planned K R spec fuel st r)
      planned (err e, t) = (tt, λ f x. cc)
      planned (ok p, t) =
          either _ _ _ (eqb_ℤ (min_ℤ p.total spec.max_scan) (pos 0)) _ _
            ((omega arith, tt), λ f x. cc) λ some_. assigned p (R.assign p.assignments t.world)

  -- A scan never shows more messages than its limit, or one where the limit is below one, and never
  -- reads more records than `max_scan`, if a poll returns no more than it is asked for and no marker
  -- of a partition's end.
  pub scan-AreWithin :
      (fuel : ℕ) (st : R.State) (s : Session K)
      → IsConsumer K R
      → AreWithin (pos_part spec.max_scan) (limit_of spec.limit) 0 (scan K R spec fuel st s).0
  unfolding IsBounded
  scan-AreWithin fuel st s C = (scan-IsBounded fuel st s C).0

  -- A scan ends, after at most `max_scan + 1` polls, whatever the broker holds, under the same
  -- assumptions.
  pub scan-ne-out_of_fuel :
      (fuel : ℕ) (st : R.State) (s : Session K)
      → IsConsumer K R
      → pos_part spec.max_scan < fuel
      → (scan K R spec fuel st s).1 ≢ out_of_fuel
  unfolding IsBounded
  scan-ne-out_of_fuel fuel st s C = (scan-IsBounded fuel st s C).1
