-- ===== src/Produce/Tests.antt =====
-- Two headers of a form, and a text message.
use kafkascope.Prelude.{none, some, [], ◌∷◌, ◌≡◌, refl}
use kafkascope.Prelude.Text.{strip, strip_left, strip_right, is_space, partition}
use kafkascope.Failure.{ok}
use kafkascope.Kafka.Program.Rules.{Sends}
use kafkascope.Produce.{split_lines, headers_from, parse_headers, Sending, send}
use kafkascope.Produce.Laws.{filled, AreHeaders, IsSend, parse_headers-AreHeaders, send-Sends}
use kafkascope.Samples.{dev_broker, dev_context}

two_headers : parse_headers "trace: a:b\r\n\nretry\n" ≡ ok (("trace", "a:b") ∷ ("retry", "") ∷ [])
unfolding parse_headers headers_from split_lines partition strip strip_left strip_right is_space
two_headers = refl

parse_headers-AreHeaders_example :
    AreHeaders
      (filled (split_lines "trace: a:b\r\n\nretry\n"))
      (("trace", "a:b") ∷ ("retry", "") ∷ [])
parse_headers-AreHeaders_example =
    parse_headers-AreHeaders "trace: a:b\r\n\nretry\n" (("trace", "a:b") ∷ ("retry", "") ∷ [])
      two_headers

abbrev hello : Sending
hello = record {
  topic = "orders";
  key = none;
  value = some "hello";
  headers = [];
  partition = none;
  value_bytes = none;
  encoding = "raw";
  schema_id = none;
  key_bytes = none;
  key_encoding = "raw";
  key_schema_id = none;
}

send-Sends_example :
    Sends
      (send dev_broker (λ s. ok (104 ∷ [])) dev_context hello)
      (IsSend dev_broker (λ s. ok (104 ∷ [])) dev_context hello)
send-Sends_example = send-Sends dev_broker (λ s. ok (104 ∷ [])) dev_context hello
