-- ===== src/Scan/Record.antt =====
-- The records that a consumer hands out, and `_decode`, `_build` and `fetch_one` of
-- app/services/messages.py.
use kafkascope.Prelude.{
  ℕ, ℤ, ◌+◌, String, Bool, true, false, Option, none, some, List, [], ◌∷◌, map,
}
use kafkascope.Prelude.{length}
use kafkascope.Failure.{Failure, Result, ok, err, runtime_error, reported, ◌>>=◌}
use kafkascope.Encode.{Library}
use kafkascope.Registry.{Network}
use kafkascope.Decode.{Endpoint, Decoded, Process, decode}
use kafkascope.Filter.{Message, text_or_empty}

-- `raw.error()`: the end of a partition, or anything else.
pub data RawError : Type 0 where
  partition_eof : RawError
  broken : String → RawError

pub record Raw : Type 0 where
  pub error : Option RawError
  pub partition : ℤ
  pub offset : ℤ
  pub timestamp_ms : ℤ
  pub key : Option (List ℕ)
  pub value : Option (List ℕ)
  pub headers : List (String × Option (List ℕ))

-- `len(b or b"")`
abbrev pub size_of : Option (List ℕ) → ℕ
size_of none = 0
size_of (some bs) = length bs

module _ (L : Library) where
  abbrev text_of : List ℕ → Option String → String × Bool
  text_of bs (some t) = (t, false)
  text_of bs none = (L.codecs.b64 bs, true)

  -- `_decode`
  unfoldable pub decode_text : Option (List ℕ) → Option String × Bool
  decode_text none = (none, false)
  decode_text (some bs) = let r = text_of bs (L.codecs.utf8 bs) in (some r.0, r.1)

  -- `(k, _decode(v)[0] or "")`
  abbrev pub header_text : String × Option (List ℕ) → String × String
  header_text (k, v) = (k, text_or_empty (decode_text v).0)

  abbrev pub message_of : Raw → Decoded → Decoded → Message
  message_of r key value = record {
    partition = r.partition;
    offset = r.offset;
    timestamp_ms = r.timestamp_ms;
    key = key.text;
    value = value.text;
    headers = map header_text r.headers;
    size = size_of r.value + size_of r.key;
    binary = value.binary;
    encoding = value.encoding;
    schema_id = value.schema_id;
  }

  module _ (N : Network) (lower : String → String) (explain : Failure → String) where
    abbrev pub Globals : Type 0
    Globals = Process L N lower explain

    abbrev pub with_value : Raw → Decoded → Result Decoded × Globals → Result Message × Globals
    with_value r key (value, p) = (value >>= λ v. ok (message_of r key v), p)

    abbrev pub with_key : Endpoint → Raw → Result Decoded × Globals → Result Message × Globals
    with_key e r (err x, p) = (err x, p)
    with_key e r (ok key, p) = with_value r key (decode L N lower explain e r.value p)

    -- `_build`: the key is decoded first, then the value.
    unfoldable pub build : Endpoint → Raw → Globals → Result Message × Globals
    build e r p = with_key e r (decode L N lower explain e r.key p)

    abbrev fetched_record :
        Endpoint → Raw → Option RawError → Globals → Result (Option Message) × Globals
    fetched_record e r (some partition_eof) p = (err (runtime_error (reported "end")), p)
    fetched_record e r (some (broken why)) p = (err (runtime_error (reported why)), p)
    fetched_record e r none p = let b = build e r p in (b.0 >>= λ m. ok (some m), b.1)

    -- `fetch_one`, by what `consume(1)` at the coordinate returns.
    unfoldable pub fetch_one :
        Endpoint → Result (List Raw) → Globals → Result (Option Message) × Globals
    fetch_one e (err x) p = (err x, p)
    fetch_one e (ok []) p = (ok none, p)
    fetch_one e (ok (r ∷ rs)) p = fetched_record e r r.error p
