-- ===== src/Filter/Tests.antt =====
-- Runs of the filters at one message, and their theorem there.
use kafkascope.Prelude.{pos, String, true, false, none, some, [], ◌∷◌}
use kafkascope.Prelude.{◌≡◌, refl, ◌↔◌, ◌==◌, ◌||◌, string_eq, if◌then◌else◌}
use kafkascope.Prelude.Text.{has_infix, split_on}
use kafkascope.Failure.{ok, err, value_error, reported}
use kafkascope.Json.{str, arr, obj, member, end, cons, nil}
use kafkascope.Filter.{Texts, Message, ScanSpec, latest, matches}
use kafkascope.Filter.Laws.{Accepts, matches_iff}

-- The sample parser knows one text; `²` is a digit that `int` refuses.
abbrev sample : Texts
sample = record {
  lower = λ s. s;
  is_digit = λ s. s == "0" || s == "1" || s == "²";
  int_of = λ s. if s == "0" then some 0 else if s == "1" then some 1 else none;
  loads = λ s. some (obj (member "user" (arr (cons (str "ann") (cons (str "bob") nil))) end));
  dumps = λ v. "?";
}

abbrev order : Message
order = record {
  partition = pos 0;
  offset = pos 4;
  timestamp_ms = pos 1000;
  key = some "k-17";
  value = some "{\"user\":[\"ann\",\"bob\"]}";
  headers = ("source", "web-shop") ∷ ("trace", "9") ∷ [];
  size = 30;
  binary = false;
  encoding = "string";
  schema_id = none;
}

abbrev wanted : String → String → ScanSpec
wanted path value = record {
  topic = "orders";
  partition = none;
  start = latest;
  lookback = pos 1000;
  timestamp_ms = none;
  limit = pos 100;
  key_contains = "17";
  value_contains = "";
  header_key = "source";
  header_value = "shop";
  json_path = path;
  json_value = value;
  max_scan = pos 50000;
}

accepted : matches sample order (wanted "user.1" "bo") ≡ ok true
unfolding matches has_infix split_on
accepted = refl

refused : matches sample order (wanted "user.0" "bo") ≡ ok false
unfolding matches has_infix split_on
refused = refl

-- A segment that is a digit to `isdigit` and no number to `int` raises.
superscript : matches sample order (wanted "user.²" "") ≡ err (value_error (reported "int"))
unfolding matches has_infix split_on
superscript = refl

matches_iff_example :
    (matches sample order (wanted "user.1" "bo") ≡ ok true)
    ↔ Accepts sample order (wanted "user.1" "bo")
matches_iff_example = matches_iff sample order (wanted "user.1" "bo")
