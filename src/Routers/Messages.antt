-- ===== src/Routers/Messages.antt =====
-- app/routers/messages.py: the search that a query describes, and the frames that the routes of a scan
-- and of a tail stream. The text of a frame is not rendered.
pub mod Laws
mod Tests
use kafkascope.Prelude.{
  ℕ, ℤ, pos, String, Bool, true, false, Option, none, some, List, [], ◌∷◌, map,
}
use kafkascope.Prelude.{◌++◌, ◌==◌, string_eq, leb_ℤ, if◌then◌else◌}
use kafkascope.Prelude.Text.{strip, truthy, is_empty}
use kafkascope.Prelude.Dict.{Dict, lookup}
use kafkascope.Failure.{Failure, Result, ok, err, value_error, lookup_error, key_error, http_error}
use kafkascope.Failure.{reported, or_raise, ◌>>=◌, ◌>>◌, require}
use kafkascope.Kafka.{Kafka}
use kafkascope.Kafka.Program.{Session}
use kafkascope.Filter.{Message, ScanSpec, StartMode, latest, earliest, timestamp}
use kafkascope.Scan.Loop.{Reader, ScanStats, Event, hit, progress, done, Ending, finished, failed}
use kafkascope.Scan.Loop.{out_of_fuel, Stream, scan, tail}
use kafkascope.Routers.{Texts, or_else}
use kafkascope.Routers.Groups.{optional_int}

-- A query, in which the last of equal keys counts.
abbrev pub Query : Type 0
Query = Dict String String

abbrev pub get_or : String → Option String → String
get_or default none = default
get_or default (some v) = v

-- `q.get(key, default)`
abbrev pub param : Query → String → String → String
param q key default = get_or default (lookup key q)

-- `int(q.get(key) or default)`
abbrev pub int_or : Texts → ℤ → Option String → Result ℤ
int_or T default none = ok default
int_or T default (some v) = if truthy v then T.int_of v else ok default

module _ (T : Texts) where
  abbrev pub read_time : String → Result (Option ℤ)
  read_time raw =
      if is_empty raw
      then ok none
      else (or_raise (T.milliseconds raw) (http_error 400 (reported "timestamp")) >>= λ t.
          ok (some t))

  abbrev pub read_start : String → Result StartMode
  read_start start =
      if start == "latest"
      then ok latest
      else if start == "earliest"
      then ok earliest
      else if start == "timestamp"
      then ok timestamp
      else err (http_error 400 (reported start))

  -- `_spec_from_query`; `max_scan` is the default of `ScanSpec`.
  unfoldable pub spec_from_query : ℤ → String → Query → Result ScanSpec
  spec_from_query max_scan topic q = do
    time ← read_time (strip (param q "timestamp" ""))
    start ← read_start (param q "start" "latest")
    partition ←
        optional_int T (truthy (strip (param q "partition" ""))) (strip (param q "partition" ""))
    lookback ← int_or T (pos 1000) (lookup "lookback" q)
    limit ← int_or T (pos 100) (lookup "limit" q)
    ok (record {
      topic = topic;
      partition = partition;
      start = start;
      lookback = lookback;
      timestamp_ms = time;
      limit = limit;
      key_contains = strip (param q "key_contains" "");
      value_contains = strip (param q "value_contains" "");
      header_key = strip (param q "header_key" "");
      header_value = strip (param q "header_value" "");
      json_path = strip (param q "json_path" "");
      json_value = strip (param q "json_value" "");
      max_scan = max_scan;
    })

-- An event of the stream that a browser gets.
pub data Frame : Type 0 where
  hit_frame : Message → Frame
  stats_frame : String → ScanStats → Frame
  failed_frame : String → Frame

abbrev pub frame_of : Event → Frame
frame_of (hit m) = hit_frame m
frame_of (progress s) = stats_frame "progress" s
frame_of (done s) = stats_frame "done" s

-- `except (LookupError, ValueError)`
abbrev pub is_usual : Failure → Bool
is_usual (lookup_error r) = true
is_usual (key_error r) = true
is_usual (value_error r) = true
is_usual e = false

abbrev pub last_frames : Texts → Ending → List Frame
last_frames T finished = []
last_frames T (failed e) =
    failed_frame (if is_usual e then T.str_of e else or_else (T.str_of e) (T.class_name e)) ∷ []
last_frames T out_of_fuel = []

-- `stream()` of both routes
unfoldable pub frames_of : Texts → Stream → List Frame
frames_of T (events, ending) = map frame_of events ++ last_frames T ending

module _ (K : Kafka) (R : Reader K) (T : Texts) where
  -- The framework refuses a limit above 1000 before the route runs.
  unfoldable pub scan_route : ℕ → ℤ → String → Query → ℤ → R.State → Session K → Result (List Frame)
  scan_route fuel max_scan name q limit st s = do
    require (leb_ℤ limit (pos 1000)) (http_error 422 (reported "limit"))
    spec ← spec_from_query T max_scan name q
    ok (frames_of T (scan K R (record spec { limit = limit }) fuel st s))

  unfoldable pub tail_route : ℕ → ℤ → String → Query → R.State → Session K → Result (List Frame)
  tail_route fuel max_scan name q st s = do
    spec ← spec_from_query T max_scan name q
    ok (frames_of T (tail K R spec fuel st s))
