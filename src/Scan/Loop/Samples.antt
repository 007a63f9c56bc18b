-- ===== src/Scan/Loop/Samples.antt =====
-- A broker that hands out two records with the first poll and one with the second. The keys are the
-- letters of the bytes.
use kafkascope.Prelude.{ℕ, zero, suc, ℤ, pos, String, false, none, some, List, [], ◌∷◌}
use kafkascope.Prelude.{take, length, length-take, ◌≤◌, arith, ◌==◌, int_eq}
use kafkascope.Prelude.{if◌then◌else◌}
use kafkascope.Prelude.{subst}
use kafkascope.Failure.{ok, ok-injective}
use kafkascope.Json
use kafkascope.Json.{Json}
use kafkascope.Kafka.{Reply}
use kafkascope.Kafka.{Kafka}
use kafkascope.Kafka.Program.{Session}
use kafkascope.Filter.{Texts, Message, ScanSpec, latest}
use kafkascope.Scan.Record.{Raw}
use kafkascope.Scan.Loop.{Reader}
use kafkascope.Scan.Loop.Bounds.{IsConsumer, NoEof}
use kafkascope.Samples.{orders}

-- The world is the number of polls.
abbrev pub polled : Kafka
polled = record {
  World = ℕ;
  list_topics = λ w. (ok (("orders", orders) ∷ []), w);
  get_watermark_offsets = λ topic p w. (ok (pos 0, if p == pos 0 then pos 3 else pos 0), w);
  offsets_for_times = λ tps w. (ok tps, w);
  describe_group = λ g w.
      (ok (record { state = "EMPTY"; is_simple = false; members = []; coordinator = none }), w);
  committed_offsets = λ g w. (ok [], w);
  perform = λ r w. (ok [], w);
  list_brokers =
      λ w. (ok ((pos 1, record { id = pos 1; host = "kafka"; port = pos 9092 }) ∷ [], pos 1), w);
  list_groups = λ w. (ok ("g" ∷ []), w);
  describe_configs = λ name w. (ok [], w);
  get_latest = λ url auth subject w. (Reply.http_status 404 "", w);
  post_schema = λ r w. (Reply.body (Json.obj (Json.member "id" (Json.number (pos 7)) Json.end)), w);
}

abbrev pub record_at : ℤ → ℕ → Raw
record_at o k = record {
  error = none;
  partition = pos 0;
  offset = o;
  timestamp_ms = pos 0;
  key = some (k ∷ []);
  value = none;
  headers = [];
}

abbrev pub message_at : ℤ → String → Message
message_at o k = record {
  partition = pos 0;
  offset = o;
  timestamp_ms = pos 0;
  key = some k;
  value = none;
  headers = [];
  size = 1;
  binary = false;
  encoding = "null";
  schema_id = none;
}

-- No JSON, and case does not matter.
abbrev pub plain : Texts
plain = record {
  lower = λ s. s;
  is_digit = λ s. false;
  int_of = λ s. none;
  loads = λ s. none;
  dumps = λ v. "";
}

abbrev pub poll : ℕ → List Raw
poll zero = record_at (pos 0) 97 ∷ record_at (pos 1) 98 ∷ []
poll (suc zero) = record_at (pos 2) 97 ∷ []
poll (suc (suc w)) = []

abbrev pub letters : Reader polled
letters = record {
  texts = plain;
  State = Unit;
  build = λ r st. (ok (message_at r.offset (if r.offset == pos 1 then "b" else "a")), st);
  assign = λ tps w. (ok tt, w);
  consume = λ n w. (ok (take n (poll w)), suc w);
  is_cancelled = λ w. (false, w);
}

abbrev pub two_of_a : ScanSpec
two_of_a = record {
  topic = "orders";
  partition = none;
  start = latest;
  lookback = pos 10;
  timestamp_ms = none;
  limit = pos 2;
  key_contains = "a";
  value_contains = "";
  header_key = "";
  header_value = "";
  json_path = "";
  json_value = "";
  max_scan = pos 100;
}

abbrev pub opened : Session polled
opened = record { world = 0; sent = [] }

NoEof-take : (n : ℕ) (rs : List Raw) → NoEof rs → NoEof (take n rs)
NoEof-take zero rs h = tt
NoEof-take (suc n) [] h = tt
NoEof-take (suc n) (r ∷ rs) (h, hs) = (h, NoEof-take n rs hs)

NoEof-poll : (w : ℕ) → NoEof (poll w)
NoEof-poll zero = (λ e. cc, (λ e. cc, tt))
NoEof-poll (suc zero) = (λ e. cc, tt)
NoEof-poll (suc (suc w)) = tt

pub letters-IsConsumer : IsConsumer polled letters
letters-IsConsumer = record {
  at_most = λ n w rs e.
      subst (λ l. length l ≤ n) (ok-injective e) (omega (arith, length-take n (poll w)));
  no_eof = λ n w rs e. subst NoEof (ok-injective e) (NoEof-take n (poll w) (NoEof-poll w));
}
