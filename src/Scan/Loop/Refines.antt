-- ===== src/Scan/Loop/Refines.antt =====
-- `scan` and `tail` are searches: every stream that they yield, on every branch, is a run of the step
-- relation with its end.
use kafkascope.Prelude.{ℕ, zero, suc, ℤ, pos, Bool, true, false, not, Option, none, some}
use kafkascope.Prelude.{List, [], ◌∷◌, ◌≡◌, refl, ◌⊎◌, inl, inr}
use kafkascope.Prelude.{leb_ℤ, min_ℤ, eqb_ℤ, if◌then◌else◌, ltb_ℤ}
use kafkascope.Prelude.{int_eq}
use kafkascope.Prelude.Dict.{Dict}
use kafkascope.Failure.{Result, ok, err, Failure, key_error, reported}
use kafkascope.Kafka.{Kafka, TopicPartition}
use kafkascope.Kafka.Program.{Session}
use kafkascope.Filter.{ScanSpec}
use kafkascope.Scan.{Plan, plan, tail_assignments}
use kafkascope.Scan.Record.{Raw}
use kafkascope.Scan.Loop.{done, finished, failed}
use kafkascope.Scan.Loop.{Stream, Reader, because}
use kafkascope.Scan.Loop.{moved, scan_batch, scan_round, scan_loop, scan_from, scan_assigned}
use kafkascope.Scan.Loop.{scan_planned, scan, tail_batch, tail_loop, tail_assigned, tail_planned}
use kafkascope.Scan.Loop.{tail, some_left, remaining_of, batch_size, end_of_window}
use kafkascope.Scan.Loop.{cancelled, stopped, nothing, budget_reached, budget_reason, no_stats}
use kafkascope.Scan.Loop.Search.{start, idle, reading, Stops}
use kafkascope.Scan.Loop.Search.{IsSearch}
use kafkascope.Scan.Loop.Search.{IsSearch-close, IsSearch-failed, IsSearch-out_of_fuel}
use kafkascope.Scan.Loop.Parts.{Place, read_batch-IsPart}
use kafkascope.Scan.Loop.Rounds.{remaining_of-err, between, round-IsSearch, polled-IsSearch, either}
use kafkascope.Scan.Loop.Rounds.{close-IsSearch}

module _ (K : Kafka) (R : Reader K) (spec : ScanSpec) where
  -- The limit of a scan.
  abbrev pub bound : Option ℤ
  bound = some spec.limit

  scan_batch-IsSearch :
      (ends : Dict ℤ ℤ) (s : Place K R spec bound) (n : ℕ) (b : Result (List Raw))
      (later : Place K R spec bound → Stream)
      → (R.is_cancelled s.world).0 ≡ false
      → (R.consume n (R.is_cancelled s.world).1).0 ≡ b
      → ((t : Place K R spec bound) → IsSearch K R spec bound (between K R spec bound t) (later t))
      → IsSearch K R spec bound (between K R spec bound s) (
          scan_batch K R spec ends
            (moved K R spec s (R.consume n (R.is_cancelled s.world).1).1)
            b
            later)
  scan_batch-IsSearch ends s n (err e) later open_ h k =
      IsSearch-failed K R spec bound _ e (inl (n, h))
  scan_batch-IsSearch ends s n (ok []) later open_ h k =
      polled-IsSearch K R spec bound s n [] _ open_ h (
        IsSearch-close K R spec bound (because end_of_window s.stats) (reading _ [])
          (refl, (spec.limit, refl)))
  scan_batch-IsSearch ends s n (ok (r ∷ rs)) later open_ h k =
      polled-IsSearch K R spec bound s n (r ∷ rs) _ open_ h (
        round-IsSearch K R spec bound _ _ later
          (read_batch-IsPart K R spec bound (some ends) (r ∷ rs) _) k)

  spent-Stops :
      (s : Place K R spec bound) (budget : ℤ) (b : Bool)
      → leb_ℤ budget (pos s.stats.scanned) ≡ true
      → Stops K R spec bound
          (between K R spec bound s)
          (if b then budget_reached budget else end_of_window)
  spent-Stops s budget true e = (e, (spec.limit, refl))
  spent-Stops s budget false e = (refl, (spec.limit, refl))

  scan_round-IsSearch :
      (ends : Dict ℤ ℤ) (budget total : ℤ) (s : Place K R spec bound)
      (later : Place K R spec bound → Stream)
      → (R.is_cancelled s.world).0 ≡ false
      → ((t : Place K R spec bound) → IsSearch K R spec bound (between K R spec bound t) (later t))
      → IsSearch K R spec bound (between K R spec bound s) (
          scan_round K R spec ends budget total (moved K R spec s (R.is_cancelled s.world).1) later)
  scan_round-IsSearch ends budget total s later open_ k =
      either K R spec bound _ (leb_ℤ budget (pos s.stats.scanned)) _ _
        (λ e.
          close-IsSearch K R spec bound s (R.is_cancelled s.world).1
            (budget_reason K R spec budget total) (spent-Stops s budget (ltb_ℤ budget total) e))
        λ more.
          either K R spec bound _ (not (some_left s.remaining)) _ _
            (λ e.
              close-IsSearch K R spec bound s (R.is_cancelled s.world).1 end_of_window
                (refl, (spec.limit, refl)))
            λ left.
              scan_batch-IsSearch ends s (batch_size budget s.stats.scanned) _ later open_ refl k

  scan_loop-IsSearch :
      (fuel : ℕ) (ends : Dict ℤ ℤ) (budget total : ℤ) (s : Place K R spec bound)
      → IsSearch K R spec bound
          (between K R spec bound s)
          (scan_loop K R spec fuel ends budget total s)
  unfolding scan_loop
  scan_loop-IsSearch zero ends budget total s = IsSearch-out_of_fuel K R spec bound _
  scan_loop-IsSearch (suc fuel) ends budget total s =
      either K R spec bound _ (R.is_cancelled s.world).0 _ _
        (λ e. close-IsSearch K R spec bound s (R.is_cancelled s.world).1 cancelled e)
        λ open_.
          scan_round-IsSearch ends budget total s _ open_
            (λ t. scan_loop-IsSearch fuel ends budget total t)

  tail_batch-IsSearch :
      (s : Place K R spec none) (n : ℕ) (b : Result (List Raw))
      (later : Place K R spec none → Stream)
      → (R.is_cancelled s.world).0 ≡ false
      → (R.consume n (R.is_cancelled s.world).1).0 ≡ b
      → ((t : Place K R spec none) → IsSearch K R spec none (between K R spec none t) (later t))
      → IsSearch K R spec none (between K R spec none s) (
          tail_batch K R spec (moved K R spec s (R.consume n (R.is_cancelled s.world).1).1) b later)
  tail_batch-IsSearch s n (err e) later open_ h k = IsSearch-failed K R spec none _ e (inl (n, h))
  tail_batch-IsSearch s n (ok rs) later open_ h k =
      polled-IsSearch K R spec none s n rs _ open_ h
        (round-IsSearch K R spec none _ _ later (read_batch-IsPart K R spec none none rs _) k)

  tail_loop-IsSearch :
      (fuel : ℕ) (s : Place K R spec none)
      → IsSearch K R spec none (between K R spec none s) (tail_loop K R spec fuel s)
  unfolding tail_loop
  tail_loop-IsSearch zero s = IsSearch-out_of_fuel K R spec none _
  tail_loop-IsSearch (suc fuel) s =
      either K R spec none _ (R.is_cancelled s.world).0 _ _
        (λ e. close-IsSearch K R spec none s (R.is_cancelled s.world).1 stopped e)
        λ open_. tail_batch-IsSearch s 200 _ _ open_ refl (λ t. tail_loop-IsSearch fuel t)

  -- From the world that the assignment left, a search from zero.
  abbrev pub Assigned : Option ℤ → Result (Unit {0}) × K.World → Stream → Type 0
  Assigned limit (err e, w) stream = stream ≡ ([], failed e)
  Assigned limit (ok u, w) stream = IsSearch K R spec limit (start, idle w) stream

  -- What a scan promises, by how its plan turned out.
  abbrev pub IsScan : Result Plan × Session K → Stream → Type 0
  IsScan (err e, s) stream = stream ≡ ([], failed e)
  IsScan (ok p, s) stream =
      ((min_ℤ p.total spec.max_scan ≡ pos 0)
        × (stream ≡ (done (because nothing (no_stats K R spec)) ∷ [], finished)))
      ⊎ Assigned bound (R.assign p.assignments s.world) stream

  abbrev pub IsTail : Result (List TopicPartition) × Session K → Stream → Type 0
  IsTail (err e, s) stream = stream ≡ ([], failed e)
  IsTail (ok tps, s) stream = Assigned none (R.assign tps s.world) stream

  pub scan-IsSearch :
      (fuel : ℕ) (st : R.State) (s : Session K) → IsScan (plan K spec s) (scan K R spec fuel st s)
  unfolding scan
  scan-IsSearch fuel st s = planned (plan K spec s)
    where
      from :
          (p : Plan) (b : ℤ) (r : Result (Dict ℤ ℤ)) (w : K.World)
          → ((e : Failure) → r ≡ err e → e ≡ key_error (reported "ends"))
          → IsSearch K R spec bound (start, idle w) (scan_from K R spec fuel p b st r w)
      from p b (err e) w h = IsSearch-failed K R spec bound _ e (inr (h e refl))
      from p b (ok left) w h = scan_loop-IsSearch fuel p.ends b p.total _

      assigned :
          (p : Plan) (b : ℤ) (r : Result (Unit {0}) × K.World)
          → Assigned bound r (scan_assigned K R spec fuel p b st r)
      assigned p b (err e, w) = refl
      assigned p b (ok u, w) =
          from p b (remaining_of p.ends p.assignments) w
            (remaining_of-err K R spec p.ends p.assignments)

      by_window :
          (p : Plan) (t : Session K) (b : Bool)
          → eqb_ℤ (min_ℤ p.total spec.max_scan) (pos 0) ≡ b
          → IsScan
              (ok p, t)
              (if b
                then (done (because nothing (no_stats K R spec)) ∷ [], finished)
                else scan_assigned K R spec fuel p
                    (min_ℤ p.total spec.max_scan)
                    st
                    (R.assign p.assignments t.world))
      by_window p t true e = inl ((int_eq.eqb_iff _ _).0 e, refl)
      by_window p t false e =
          inr (assigned p (min_ℤ p.total spec.max_scan) (R.assign p.assignments t.world))

      planned : (r : Result Plan × Session K) → IsScan r (scan_planned K R spec fuel st r)
      planned (err e, t) = refl
      planned (ok p, t) = by_window p t (eqb_ℤ (min_ℤ p.total spec.max_scan) (pos 0)) refl

  -- A tail whose assignments cannot be found or assigned raises at once. Every other is a run of the
  -- abstract search from zero counts, in the world that the assignment left, without a limit: what
  -- each poll hands out is read to the last record, every record but the end of a partition is
  -- counted, and exactly those that match are shown. It returns only when the browser is gone, and
  -- raises only for a failure that the search knows. It may run out of the fuel.
  pub tail-IsSearch :
      (fuel : ℕ) (st : R.State) (s : Session K)
      → IsTail (tail_assignments K spec s) (tail K R spec fuel st s)
  unfolding tail
  tail-IsSearch fuel st s = planned (tail_assignments K spec s)
    where
      assigned :
          (r : Result (Unit {0}) × K.World) → Assigned none r (tail_assigned K R spec fuel st r)
      assigned (err e, w) = refl
      assigned (ok u, w) = tail_loop-IsSearch fuel _

      planned :
          (r : Result (List TopicPartition) × Session K)
          → IsTail r (tail_planned K R spec fuel st r)
      planned (err e, t) = refl
      planned (ok tps, t) = assigned (R.assign tps t.world)
