-- ===== src/Scan/Stream.antt =====
-- `scan` and `tail` of app/services/messages.py with `_build`: the loops over the decoder of the
-- repository. Only the consumer, and what belongs to Python, stay parameters.
use kafkascope.Prelude.{ℕ, String, Bool, List}
use kafkascope.Failure.{Failure, Result}
use kafkascope.Kafka.{Kafka, TopicPartition}
use kafkascope.Kafka.Program.{Session}
use kafkascope.Encode.{Library}
use kafkascope.Registry.{Network}
use kafkascope.Decode.{Endpoint}
use kafkascope.Filter.{Texts, ScanSpec}
use kafkascope.Scan.Record.{Raw, Globals, build}
use kafkascope.Scan.Loop.{Reader, Stream, scan, tail}

-- A consumer of `confluent_kafka`, and the browser's `is_disconnected`.
pub record Consumer (K : Kafka) : Type 0 where
  pub assign : List TopicPartition → K.World → Result (Unit {0}) × K.World
  pub consume : ℕ → K.World → Result (List Raw) × K.World
  pub is_cancelled : K.World → Bool × K.World

module _ (K : Kafka) (L : Library) (N : Network) (lower : String → String)
    (explain : Failure → String) (T : Texts) (C : Consumer K) where
  -- The caches of the process are the state that the decoder keeps.
  abbrev pub reader : Endpoint → Reader K
  reader e = record {
    texts = T;
    State = Globals L N lower explain;
    build = λ r p. build L N lower explain e r p;
    assign = C.assign;
    consume = C.consume;
    is_cancelled = C.is_cancelled;
  }

  unfoldable pub scan_topic :
      Endpoint → ScanSpec → ℕ → Globals L N lower explain → Session K → Stream
  scan_topic e spec fuel p s = scan K (reader e) spec fuel p s

  unfoldable pub tail_topic :
      Endpoint → ScanSpec → ℕ → Globals L N lower explain → Session K → Stream
  tail_topic e spec fuel p s = tail K (reader e) spec fuel p s
