-- ===== src/Scan/Loop/Reads.antt =====
-- Where a message comes from: a record that a poll handed out, as `build` reads it.
use kafkascope.Prelude.{ℕ, none, List, ◌≡◌, All}
use kafkascope.Prelude.Lists.{All-imp, IsMember, All-IsMember}
use kafkascope.Failure.{ok}
use kafkascope.Kafka.{Kafka}
use kafkascope.Filter.{Message}
use kafkascope.Scan.Record.{Raw}
use kafkascope.Scan.Loop.{Reader}

module _ (K : Kafka) (R : Reader K) where
  -- A poll handed out the record.
  abbrev pub IsPolled : Raw → Type 0
  IsPolled r =
      (n : ℕ) × (w : K.World) × (rs : List Raw) × ((R.consume n w).0 ≡ ok rs) × IsMember rs r

  -- The message is built from such a record, which bears no error.
  abbrev pub IsBuilt : Message → Type 0
  IsBuilt m = (r : Raw) × IsPolled r × (r.error ≡ none) × (st : R.State) × ((R.build r st).0 ≡ ok m)

  pub All-IsPolled :
      (n : ℕ) (w : K.World) (rs : List Raw) → (R.consume n w).0 ≡ ok rs → All IsPolled rs
  All-IsPolled n w rs e = All-imp (λ r h. (n, w, rs, e, h)) rs (All-IsMember rs)
