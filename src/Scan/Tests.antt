-- ===== src/Scan/Tests.antt =====
-- A scan of the last ten records, and a tail, at a broker with one topic.
use kafkascope.Prelude.Int.{◌-ℤ◌, ◌+ℤ◌}
use kafkascope.Prelude.{ℤ, none, [], ◌∷◌, All, ◌≡◌, refl}
use kafkascope.Prelude.Dict.{lookup, keys, insert}
use kafkascope.Prelude.Sort.{sort_by}
use kafkascope.Failure.{ok}
use kafkascope.Kafka.Program.{pure, raise, lift, ask, ◌>>=◌, traverse}
use kafkascope.Kafka.Program.Rules.{Silent}
use kafkascope.Groups.{at}
use kafkascope.Filter.{ScanSpec, latest}
use kafkascope.Scan.{plan, tail_assignments}
use kafkascope.Scan.Laws.{IsAssignment, AtEnd, Silent-plan, Silent-tail_assignments}
use kafkascope.Samples.{dev_broker, fresh}

abbrev last_ten : ScanSpec
last_ten = record {
  topic = "orders";
  partition = none;
  start = latest;
  lookback = ℤ.pos 10;
  timestamp_ms = none;
  limit = ℤ.pos 100;
  key_contains = "";
  value_contains = "";
  header_key = "";
  header_value = "";
  json_path = "";
  json_value = "";
  max_scan = ℤ.pos 50000;
}

-- Five records of partition 0, and the two that partition 1 has.
window :
    (plan dev_broker last_ten fresh).0
    ≡ ok (record {
      assignments = at "orders" (ℤ.pos 0) (ℤ.pos 15) ∷ at "orders" (ℤ.pos 1) (ℤ.pos 5) ∷ [];
      ends = (ℤ.pos 0, ℤ.pos 20) ∷ (ℤ.pos 1, ℤ.pos 7) ∷ [];
      total = ℤ.pos 7;
    })
unfolding plan lookup keys insert sort_by pure raise lift ask ◌>>=◌ traverse ◌-ℤ◌ ◌+ℤ◌
window = refl

Silent-plan_example :
    Silent (plan dev_broker last_ten) (λ r. All (IsAssignment dev_broker last_ten) r.assignments)
Silent-plan_example = Silent-plan dev_broker last_ten

Silent-tail_assignments_example :
    Silent (tail_assignments dev_broker last_ten) (All (AtEnd dev_broker last_ten))
Silent-tail_assignments_example = Silent-tail_assignments dev_broker last_ten
