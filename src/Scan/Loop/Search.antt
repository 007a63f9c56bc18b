-- ===== src/Scan/Loop/Search.antt =====
-- What a search promises, as a step relation on counts and on the records that were polled and not
-- yet read, whatever the broker does.
use kafkascope.Prelude.{ℕ, ◌+◌, true, false, List, [], ◌∷◌, ◌++◌, append-nil}
use kafkascope.Prelude.{append_assoc, ◌≡◌, refl, sym, ◌∙◌, ap, subst, arith, ◌⊎◌, String}
use kafkascope.Prelude.{Option, none, some, ℤ, pos, leb_ℤ}
use kafkascope.Failure.{Failure, ok, err, key_error, runtime_error, reported}
use kafkascope.Kafka.{Kafka}
use kafkascope.Scan.Record.{Raw, partition_eof, broken}
use kafkascope.Scan.Loop.{Reader, StopReason, limit_reached, budget_reached, end_of_window}
use kafkascope.Scan.Loop.{cancelled, stopped}
use kafkascope.Filter.{Message, ScanSpec, matches}
use kafkascope.Scan.Loop.{ScanStats, Event, hit, progress, done, Ending, finished, failed}
use kafkascope.Scan.Loop.{out_of_fuel, Stream}

pub record Counts : Type 0 where
  pub scanned : ℕ
  pub hits : ℕ

abbrev pub counts_of : ScanStats → Counts
counts_of s = record { scanned = s.scanned; hits = s.hits }

abbrev pub start : Counts
start = record { scanned = 0; hits = 0 }

abbrev pub one_more : Counts → Counts
one_more c = record { scanned = c.scanned + 1; hits = c.hits }

abbrev pub one_hit : Counts → Counts
one_hit c = record { scanned = c.scanned + 1; hits = c.hits + 1 }

abbrev pub hit_count : List Event → ℕ
hit_count [] = 0
hit_count (hit m ∷ es) = hit_count es + 1
hit_count (progress s ∷ es) = hit_count es
hit_count (done s ∷ es) = hit_count es

pub hit_count-append : (es fs : List Event) → hit_count (es ++ fs) ≡ hit_count es + hit_count fs
hit_count-append [] fs = omega arith
hit_count-append (hit m ∷ es) fs = omega (arith, hit_count-append es fs)
hit_count-append (progress s ∷ es) fs = hit_count-append es fs
hit_count-append (done s ∷ es) fs = hit_count-append es fs

-- Between two polls, or with the records of a poll that are still to read.
pub data Phase (W : Type 0) : Type 0 where
  idle : W → Phase W
  reading : W → List Raw → Phase W

-- `limit` is that of a scan; a tail has none.
module _ (K : Kafka) (R : Reader K) (spec : ScanSpec) (limit : Option ℤ) where
  abbrev pub Point : Type 0
  Point = Counts × Phase K.World

  -- A poll is taken when the search is not cancelled, and hands out what the consumer returns. Its
  -- records are read one by one, in order: one that matches is counted and shown, one that does not
  -- is counted, and only the end of a partition is passed over. The counts are shown once a poll is
  -- read to its last record, and then alone may the next poll follow.
  pub data Step : Point → List Event → Point → Type 0 where
    poll :
        {c : Counts} {w : K.World} {rs : List Raw} (n : ℕ)
        → (R.is_cancelled w).0 ≡ false
        → (R.consume n (R.is_cancelled w).1).0 ≡ ok rs
        → Step (c, idle w) [] (c, reading (R.consume n (R.is_cancelled w).1).1 rs)
    pass :
        {c : Counts} {w : K.World} {r : Raw} {rs : List Raw} (m : Message) (st : R.State)
        → r.error ≡ none
        → (R.build r st).0 ≡ ok m
        → matches R.texts m spec ≡ ok false
        → Step (c, reading w (r ∷ rs)) [] (one_more c, reading w rs)
    find :
        {c : Counts} {w : K.World} {r : Raw} {rs : List Raw} (m : Message) (st : R.State)
        → r.error ≡ none
        → (R.build r st).0 ≡ ok m
        → matches R.texts m spec ≡ ok true
        → Step (c, reading w (r ∷ rs)) (hit m ∷ []) (one_hit c, reading w rs)
    skip :
        {c : Counts} {w : K.World} {r : Raw} {rs : List Raw}
        → r.error ≡ some partition_eof
        → Step (c, reading w (r ∷ rs)) [] (c, reading w rs)
    beat :
        {c : Counts} {w : K.World} (s : ScanStats)
        → counts_of s ≡ c
        → Step (c, reading w []) (progress s ∷ []) (c, idle w)

  pub data Run (p : Point) : List Event → Point → Type 0 where
    here : Run p [] p
    next : {es fs : List Event} {q r : Point} → Run p es q → Step q fs r → Run p (es ++ fs) r

  pub Run-one : {p q : Point} {es : List Event} → Step p es q → Run p es q
  Run-one s = next here s

  pub Run-append :
      {p q r : Point} {es fs : List Event} → Run p es q → Run q fs r → Run p (es ++ fs) r
  Run-append {p} {q} {es} h here = subst (λ l. Run p l q) (sym (append-nil es)) h
  Run-append {p} {r} {es} h (next k s) =
      subst (λ l. Run p l r) (append_assoc es _ _) (next (Run-append h k) s)

  abbrev pub HasLimit : Type 0
  HasLimit = (l : ℤ) × (limit ≡ some l)

  -- Where a stream may return: with records left to read only at the limit, by a disconnection only
  -- if there was one, and at the end of its window or its budget only if it has a limit.
  abbrev pub Stops : Point → StopReason → Type 0
  Stops (c, p) (limit_reached l) = (limit ≡ some l) × (leb_ℤ l (pos c.hits) ≡ true)
  Stops (c, reading w (r ∷ rs)) why = ⊥
  Stops (c, reading w []) why = (why ≡ end_of_window) × HasLimit
  Stops (c, idle w) cancelled = (R.is_cancelled w).0 ≡ true
  Stops (c, idle w) stopped = (R.is_cancelled w).0 ≡ true
  Stops (c, idle w) (budget_reached b) = (leb_ℤ b (pos c.scanned) ≡ true) × HasLimit
  Stops (c, idle w) why = (why ≡ end_of_window) × HasLimit

  -- Where a stream may raise: the poll failed, or the next record is broken, or could not be built
  -- or tested, or its partition has no known end.
  abbrev pub Fails : Phase K.World → Failure → Type 0
  Fails (idle w) e =
      ((n : ℕ) × ((R.consume n (R.is_cancelled w).1).0 ≡ err e)) ⊎ (e ≡ key_error (reported "ends"))
  Fails (reading w []) e = ⊥
  Fails (reading w (r ∷ rs)) e =
      ((why : String) × (r.error ≡ some (broken why)) × (e ≡ runtime_error (reported why)))
      ⊎ ((st : R.State) × ((R.build r st).0 ≡ err e))
      ⊎ ((st : R.State) × (m : Message) × ((R.build r st).0 ≡ ok m)
          × (matches R.texts m spec ≡ err e))
      ⊎ (e ≡ key_error (reported "ends"))

  -- A stream that returns ends with the final counts, one that raises ends without.
  abbrev pub Closing : Ending → Point → List Event → Type 0
  Closing finished p es =
      (s : ScanStats) × (es ≡ done s ∷ []) × (counts_of s ≡ p.0) × Stops p s.reason
  Closing (failed e) p es = (es ≡ []) × Fails p.1 e
  Closing out_of_fuel p es = es ≡ []

  pub record IsSearch (p : Point) (stream : Stream) : Type 0 where
    pub body : List Event
    pub rest : List Event
    pub final : Point
    pub run : Run p body final
    pub closing : Closing stream.1 final rest
    pub events : stream.0 ≡ body ++ rest

  pub IsSearch-prefix :
      {p q : Point} {es : List Event} (stream : Stream)
      → Run p es q
      → IsSearch q stream
      → IsSearch p (es ++ stream.0, stream.1)
  IsSearch-prefix {es} stream r h = record {
    body = es ++ h.body;
    rest = h.rest;
    final = h.final;
    run = Run-append r h.run;
    closing = h.closing;
    events = ap (λ l. es ++ l) h.events ∙ sym (append_assoc es h.body h.rest);
  }

  pub IsSearch-close :
      (s : ScanStats) (p : Phase K.World)
      → Stops (counts_of s, p) s.reason
      → IsSearch (counts_of s, p) (done s ∷ [], finished)
  IsSearch-close s p h = record {
    body = [];
    rest = done s ∷ [];
    final = (counts_of s, p);
    run = here;
    closing = (s, refl, refl, h);
    events = refl;
  }

  pub IsSearch-failed : (p : Point) (e : Failure) → Fails p.1 e → IsSearch p ([], failed e)
  IsSearch-failed p e h = record {
    body = [];
    rest = [];
    final = p;
    run = here;
    closing = (refl, h);
    events = refl;
  }

  pub IsSearch-out_of_fuel : (p : Point) → IsSearch p ([], out_of_fuel)
  IsSearch-out_of_fuel p = record {
    body = [];
    rest = [];
    final = p;
    run = here;
    closing = refl;
    events = refl;
  }
