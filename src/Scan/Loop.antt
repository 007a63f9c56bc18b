-- ===== src/Scan/Loop.antt =====
-- The loops of `scan` and `tail` in app/services/messages.py, as the events that they yield. A
-- consumer, whose answers may depend on all that others do, is a parameter; so is the predicate that
-- a browser's disconnection sets. The loops run on fuel, one unit for each batch.
pub mod Reads
pub mod Search
pub mod Sound
pub mod Parts
pub mod Rounds
pub mod Refines
pub mod Truth
pub mod Bounds
pub mod Ends
pub mod Samples
mod Tests
use kafkascope.Prelude.{
  ℕ, zero, suc, ◌+◌, ◌-◌, ℤ, pos, max, min, String, Bool, true, false, ◌||◌, not,
}
use kafkascope.Prelude.{
  Option, none, some, List, [], ◌∷◌, ◌++◌, pos_part, leb_ℤ, ltb_ℤ, min_ℤ, eqb_ℤ,
}
use kafkascope.Prelude.{◌-ℤ◌, int_eq, if◌then◌else◌}
use kafkascope.Prelude.Dict.{Dict, lookup, insert}
use kafkascope.Failure.{Failure, Result, ok, err, runtime_error, key_error, reported}
use kafkascope.Kafka.{Kafka, TopicPartition}
use kafkascope.Kafka.Program.{Session}
use kafkascope.Filter.{Texts, Message, ScanSpec, matches}
use kafkascope.Scan.{Plan, plan, tail_assignments}
use kafkascope.Scan.Record.{Raw, RawError, partition_eof, broken}

-- Why a stream ended, with what the message shows.
pub data StopReason : Type 0 where
  running nothing cancelled stopped end_of_window : StopReason
  budget_reached : ℤ → StopReason
  limit_reached : ℤ → StopReason

pub record ScanStats : Type 0 where
  pub scanned : ℕ
  pub hits : ℕ
  pub reason : StopReason

pub data Event : Type 0 where
  hit : Message → Event
  progress done : ScanStats → Event

-- How the generator ended: it returned, it raised, or the fuel was used up.
pub data Ending : Type 0 where
  finished : Ending
  failed : Failure → Ending
  out_of_fuel : Ending

abbrev pub Stream : Type 0
Stream = List Event × Ending

-- What a stream works with: the decoding of a record, with the state that it keeps, and the consumer.
pub record Reader (K : Kafka) : Type 1 where
  pub texts : Texts
  pub State : Type 0
  pub build : Raw → State → Result Message × State
  pub assign : List TopicPartition → K.World → Result (Unit {0}) × K.World
  pub consume : ℕ → K.World → Result (List Raw) × K.World
  pub is_cancelled : K.World → Bool × K.World

-- `stats.reason = reason`
abbrev pub because : StopReason → ScanStats → ScanStats
because why s = record s { reason = why }

-- One entry in front of the others, with the offset where the partition ends.
abbrev pub remaining_at : TopicPartition → Option ℤ → Result (Dict ℤ ℤ) → Result (Dict ℤ ℤ)
remaining_at tp none rest = err (key_error (reported "ends"))
remaining_at tp (some end) (err e) = err e
remaining_at tp (some end) (ok rest) = ok ((tp.partition, end -ℤ tp.offset) ∷ rest)

-- `{tp.partition: ends[tp.partition] - tp.offset for tp in assignments}`
abbrev pub remaining_of : Dict ℤ ℤ → List TopicPartition → Result (Dict ℤ ℤ)
remaining_of ends [] = ok []
remaining_of ends (tp ∷ tps) = remaining_at tp (lookup tp.partition ends) (remaining_of ends tps)

-- `any(v > 0 for v in remaining.values())`
abbrev pub some_left : Dict ℤ ℤ → Bool
some_left [] = false
some_left ((p, n) ∷ rest) = ltb_ℤ (pos 0) n || some_left rest

-- `max(1, min(500, budget - stats.scanned))`
abbrev pub batch_size : ℤ → ℕ → ℕ
batch_size budget scanned = max 1 (min 500 (pos_part budget - scanned))

module _ (K : Kafka) (R : Reader K) (spec : ScanSpec) where
  pub record Position : Type 0 where
    pub stats : ScanStats
    pub remaining : Dict ℤ ℤ
    pub world : K.World
    pub state : R.State

  -- How a part of the loop leaves it: it goes on, or the stream ends.
  pub data Flow : Type 0 where
    going : Position → Flow
    over : Ending → Flow

  abbrev pub Part : Type 0
  Part = List Event × Flow

  abbrev pub and_then : Part → (Position → Part) → Part
  and_then (es, over end) f = (es, over end)
  and_then (es, going s) f = let r = f s in (es ++ r.0, r.1)

  abbrev pub count_record : Position → Position
  count_record s = record s { stats = record s.stats { scanned = s.stats.scanned + 1 } }

  abbrev pub count_hit : Position → Position
  count_hit s = record s { stats = record s.stats { hits = s.stats.hits + 1 } }

  abbrev pub leave : Failure → Part
  leave e = ([], over (failed e))

  -- The event of a hit, and for a scan the test of the limit.
  abbrev pub found : Option ℤ → Message → Position → Part
  found none m s = (hit m ∷ [], going s)
  found (some limit) m s =
      if leb_ℤ limit (pos s.stats.hits)
      then (hit m ∷ done (because (limit_reached limit) s.stats) ∷ [], over finished)
      else (hit m ∷ [], going s)

  abbrev pub judged : Option ℤ → Message → Position → Result Bool → Part
  judged limit m s (err e) = leave e
  judged limit m s (ok false) = ([], going s)
  judged limit m s (ok true) = found limit m (count_hit s)

  abbrev pub built : Option ℤ → Position → Result Message × R.State → Part
  built limit s (err e, st) = leave e
  built limit s (ok m, st) = judged limit m (record s { state = st }) (matches R.texts m spec)

  -- `remaining[raw.partition()] = ends[raw.partition()] - raw.offset() - 1`
  abbrev pub advance : Raw → Position → Option ℤ → Result Position
  advance r s none = err (key_error (reported "ends"))
  advance r s (some end) =
      ok (record s { remaining = insert r.partition (end -ℤ r.offset -ℤ pos 1) s.remaining })

  -- A tail keeps no `remaining`.
  abbrev pub placed : Option (Dict ℤ ℤ) → Raw → Position → Result Position
  placed none r s = ok s
  placed (some ends) r s = advance r s (lookup r.partition ends)

  abbrev pub read_placed : Option ℤ → Raw → Result Position → Part
  read_placed limit r (err e) = leave e
  read_placed limit r (ok s) = built limit s (R.build r s.state)

  abbrev pub read_by_error : Option (Dict ℤ ℤ) → Option ℤ → Raw → Position → Option RawError → Part
  read_by_error ends limit r s (some partition_eof) = ([], going s)
  read_by_error ends limit r s (some (broken why)) = leave (runtime_error (reported why))
  read_by_error ends limit r s none = read_placed limit r (placed ends r (count_record s))

  -- One round of the loop over a batch. With no ends and no limit it is that of `tail`.
  unfoldable pub read_record : Option (Dict ℤ ℤ) → Option ℤ → Raw → Position → Part
  read_record ends limit r s = read_by_error ends limit r s r.error

  unfoldable pub read_batch : Option (Dict ℤ ℤ) → Option ℤ → List Raw → Position → Part
  read_batch ends limit [] s = ([], going s)
  read_batch ends limit (r ∷ rs) s =
      and_then (read_record ends limit r s) (λ t. read_batch ends limit rs t)

  abbrev pub close : StopReason → Position → Stream
  close why s = (done (because why s.stats) ∷ [], finished)

  -- The rest of a round, once its batch was read, in front of the later rounds.
  abbrev pub round : Part → (Position → Stream) → Stream
  round (es, over end) later = (es, end)
  round (es, going s) later = let r = later s in (es ++ progress s.stats ∷ r.0, r.1)

  abbrev pub budget_reason : ℤ → ℤ → StopReason
  budget_reason budget total = if ltb_ℤ budget total then budget_reached budget else end_of_window

  abbrev pub moved : Position → K.World → Position
  moved s w = record s { world = w }

  abbrev pub scan_batch : Dict ℤ ℤ → Position → Result (List Raw) → (Position → Stream) → Stream
  scan_batch ends s (err e) later = ([], failed e)
  scan_batch ends s (ok []) later = close end_of_window s
  scan_batch ends s (ok (r ∷ rs)) later =
      round (read_batch (some ends) (some spec.limit) (r ∷ rs) s) later

  abbrev pub scan_round : Dict ℤ ℤ → ℤ → ℤ → Position → (Position → Stream) → Stream
  scan_round ends budget total s later =
      if leb_ℤ budget (pos s.stats.scanned)
      then close (budget_reason budget total) s
      else if not (some_left s.remaining)
      then close end_of_window s
      else (let b = R.consume (batch_size budget s.stats.scanned) s.world in
          scan_batch ends (moved s b.1) b.0 later)

  -- `while True` of `scan`
  unfoldable pub scan_loop : ℕ → Dict ℤ ℤ → ℤ → ℤ → Position → Stream
  scan_loop zero ends budget total s = ([], out_of_fuel)
  scan_loop (suc fuel) ends budget total s =
      let c = R.is_cancelled s.world in
      if c.0
      then close cancelled (moved s c.1)
      else scan_round ends budget total (moved s c.1) (λ t. scan_loop fuel ends budget total t)

  abbrev pub no_stats : ScanStats
  no_stats = record { scanned = 0; hits = 0; reason = running }

  abbrev pub scan_from : ℕ → Plan → ℤ → R.State → Result (Dict ℤ ℤ) → K.World → Stream
  scan_from fuel p budget st (err e) w = ([], failed e)
  scan_from fuel p budget st (ok left) w =
      scan_loop fuel p.ends budget p.total
        (record { stats = no_stats; remaining = left; world = w; state = st })

  abbrev pub scan_assigned : ℕ → Plan → ℤ → R.State → Result (Unit {0}) × K.World → Stream
  scan_assigned fuel p budget st (err e, w) = ([], failed e)
  scan_assigned fuel p budget st (ok u, w) =
      scan_from fuel p budget st (remaining_of p.ends p.assignments) w

  abbrev pub scan_planned : ℕ → R.State → Result Plan × Session K → Stream
  scan_planned fuel st (err e, s) = ([], failed e)
  scan_planned fuel st (ok p, s) =
      let budget = min_ℤ p.total spec.max_scan in
      if eqb_ℤ budget (pos 0)
      then (done (because nothing no_stats) ∷ [], finished)
      else scan_assigned fuel p budget st (R.assign p.assignments s.world)

  -- `scan`
  unfoldable pub scan : ℕ → R.State → Session K → Stream
  scan fuel st s = scan_planned fuel st (plan K spec s)

  abbrev pub tail_batch : Position → Result (List Raw) → (Position → Stream) → Stream
  tail_batch s (err e) later = ([], failed e)
  tail_batch s (ok batch) later = round (read_batch none none batch s) later

  -- `while True` of `tail`
  unfoldable pub tail_loop : ℕ → Position → Stream
  tail_loop zero s = ([], out_of_fuel)
  tail_loop (suc fuel) s =
      let c = R.is_cancelled s.world in
      if c.0
      then close stopped (moved s c.1)
      else (let b = R.consume 200 c.1 in tail_batch (moved s b.1) b.0 (λ t. tail_loop fuel t))

  abbrev pub tail_assigned : ℕ → R.State → Result (Unit {0}) × K.World → Stream
  tail_assigned fuel st (err e, w) = ([], failed e)
  tail_assigned fuel st (ok u, w) =
      tail_loop fuel (record { stats = no_stats; remaining = []; world = w; state = st })

  abbrev pub tail_planned : ℕ → R.State → Result (List TopicPartition) × Session K → Stream
  tail_planned fuel st (err e, s) = ([], failed e)
  tail_planned fuel st (ok tps, s) = tail_assigned fuel st (R.assign tps s.world)

  -- `tail`
  unfoldable pub tail : ℕ → R.State → Session K → Stream
  tail fuel st s = tail_planned fuel st (tail_assignments K spec s)
