-- ===== src/Scan/Loop/Parts.antt =====
-- A batch of a scan or of a tail, read record by record, is a part of a search.
use kafkascope.Prelude.{◌+◌, ℤ, pos, Bool, true, false, Option, none, some, inl, inr}
use kafkascope.Prelude.{List, [], ◌∷◌, ◌++◌, ◌≡◌, refl, ap, subst}
use kafkascope.Prelude.{leb_ℤ, if◌then◌else◌}
use kafkascope.Prelude.{◌-ℤ◌, int_eq}
use kafkascope.Prelude.Dict.{Dict, lookup, insert}
use kafkascope.Failure.{Result, ok, err}
use kafkascope.Kafka.{Kafka}
use kafkascope.Filter.{Message, ScanSpec, matches}
use kafkascope.Scan.Record.{Raw, RawError, partition_eof, broken}
use kafkascope.Scan.Loop.{hit, done, finished}
use kafkascope.Scan.Loop.{Reader, because, Position, going, over, Part}
use kafkascope.Scan.Loop.{and_then, count_record, count_hit, found, judged, built, advance}
use kafkascope.Scan.Loop.{placed, read_placed, read_by_error, read_record, read_batch}
use kafkascope.Scan.Loop.{limit_reached}
use kafkascope.Scan.Loop.Search.{Counts, counts_of, one_more, one_hit, Run, here, Run-one}
use kafkascope.Scan.Loop.Search.{Point, reading}
use kafkascope.Scan.Loop.Search.{Run-append, pass, find, skip, IsSearch, IsSearch-prefix}
use kafkascope.Scan.Loop.Search.{IsSearch-close, IsSearch-failed}

module _ (K : Kafka) (R : Reader K) (spec : ScanSpec) (limit : Option ℤ) where
  abbrev pub Place : Type 0
  Place = Position K R spec

  -- A place in the loop, with the records of the poll that are still to read.
  abbrev pub before : Place → List Raw → Point K R spec limit
  before s rs = (counts_of s.stats, reading s.world rs)

  -- A part of the loop that goes on is a run up to the counts that it leaves; one that ends is a
  -- search.
  abbrev pub IsPart : Point K R spec limit → List Raw → Part K R spec → Type 0
  IsPart p rs (es, going t) = Run K R spec limit p es (before t rs)
  IsPart p rs (es, over end) = IsSearch K R spec limit p (es, end)

  IsPart-and_then :
      (p : Point K R spec limit) (rs : List Raw) (part : Part K R spec) (f : Place → Part K R spec)
      → IsPart p rs part
      → ((t : Place) → IsPart (before t rs) [] (f t))
      → IsPart p [] (and_then K R spec part f)
  IsPart-and_then p rs (es, over end) f h k = h
  IsPart-and_then p rs (es, going t) f h k = after (f t) (k t)
    where
      after : (r : Part K R spec) → IsPart (before t rs) [] r → IsPart p [] (es ++ r.0, r.1)
      after (fs, going u) q = Run-append K R spec limit h q
      after (fs, over end) q = IsSearch-prefix K R spec limit (fs, end) h q

  -- The next record, which bears no error, counted in `s` and built as `m`.
  module _ (c : Counts) (r : Raw) (rs : List Raw) (sound : r.error ≡ none) where
    found-IsPart :
        (m : Message) (st : R.State) (s : Place)
        → (R.build r st).0 ≡ ok m
        → matches R.texts m spec ≡ ok true
        → one_hit c ≡ counts_of s.stats
        → IsPart (c, reading s.world (r ∷ rs)) rs (found K R spec limit m s)
    found-IsPart m st s b h e = by_limit limit refl
      where
        shown : Run K R spec limit (c, reading s.world (r ∷ rs)) (hit m ∷ []) (before s rs)
        shown =
            subst
              (λ d.
                Run K R spec limit (c, reading s.world (r ∷ rs)) (hit m ∷ [])
                  (d, reading s.world rs))
              e (Run-one K R spec limit (find m st sound b h))

        by_test :
            (l : ℤ) (b' : Bool)
            → limit ≡ some l
            → leb_ℤ l (pos s.stats.hits) ≡ b'
            → IsPart
                (c, reading s.world (r ∷ rs))
                rs
                (if b'
                  then (hit m ∷ done (because (limit_reached l) s.stats) ∷ [], over finished)
                  else (hit m ∷ [], going s))
        by_test l true e t =
            IsSearch-prefix K R spec limit (done (because (limit_reached l) s.stats) ∷ [], finished)
              shown
              (IsSearch-close K R spec limit (because (limit_reached l) s.stats)
                (reading s.world rs) (e, t))
        by_test l false e t = shown

        by_limit :
            (o : Option ℤ)
            → limit ≡ o
            → IsPart (c, reading s.world (r ∷ rs)) rs (found K R spec o m s)
        by_limit none e = shown
        by_limit (some l) e = by_test l (leb_ℤ l (pos s.stats.hits)) e refl

    judged-IsPart :
        (m : Message) (st : R.State) (s : Place) (v : Result Bool)
        → (R.build r st).0 ≡ ok m
        → matches R.texts m spec ≡ v
        → one_more c ≡ counts_of s.stats
        → IsPart (c, reading s.world (r ∷ rs)) rs (judged K R spec limit m s v)
    judged-IsPart m st s (err e) b h k =
        IsSearch-failed K R spec limit _ e (inr (inr (inl (st, m, b, h))))
    judged-IsPart m st s (ok false) b h k =
        subst (λ d. Run K R spec limit (c, reading s.world (r ∷ rs)) [] (d, reading s.world rs)) k
          (Run-one K R spec limit (pass m st sound b h))
    judged-IsPart m st s (ok true) b h k =
        found-IsPart m st (count_hit K R spec s) b h
          (ap (λ (d : Counts). record { scanned = d.scanned; hits = d.hits + 1 }) k)

    built-IsPart :
        (s : Place) (st : R.State) (v : Result Message × R.State)
        → (R.build r st).0 ≡ v.0
        → one_more c ≡ counts_of s.stats
        → IsPart (c, reading s.world (r ∷ rs)) rs (built K R spec limit s v)
    built-IsPart s st (err e, st') b k = IsSearch-failed K R spec limit _ e (inr (inl (st, b)))
    built-IsPart s st (ok m, st') b k = judged-IsPart m st _ (matches R.texts m spec) b refl k

    placed-IsPart :
        (ends : Option (Dict ℤ ℤ)) (s : Place)
        → one_more c ≡ counts_of s.stats
        → IsPart
            (c, reading s.world (r ∷ rs))
            rs
            (read_placed K R spec limit r (placed K R spec ends r s))
    placed-IsPart none s k = built-IsPart s s.state (R.build r s.state) refl k
    placed-IsPart (some ends) s k = by_end (lookup r.partition ends)
      where
        by_end :
            (o : Option ℤ)
            → IsPart
                (c, reading s.world (r ∷ rs))
                rs
                (read_placed K R spec limit r (advance K R spec r s o))
        by_end none = IsSearch-failed K R spec limit _ _ (inr (inr (inr refl)))
        by_end (some end) =
            built-IsPart
              (record s { remaining = insert r.partition (end -ℤ r.offset -ℤ pos 1) s.remaining })
              s.state (R.build r s.state) refl k

  read_record-IsPart :
      (ends : Option (Dict ℤ ℤ)) (r : Raw) (rs : List Raw) (s : Place)
      → IsPart (before s (r ∷ rs)) rs (read_record K R spec ends limit r s)
  unfolding read_record
  read_record-IsPart ends r rs s = by_error r.error refl
    where
      by_error :
          (e : Option RawError)
          → r.error ≡ e
          → IsPart (before s (r ∷ rs)) rs (read_by_error K R spec ends limit r s e)
      by_error none sound =
          placed-IsPart (counts_of s.stats) r rs sound ends (count_record K R spec s) refl
      by_error (some partition_eof) end = Run-one K R spec limit (skip end)
      by_error (some (broken why)) e = IsSearch-failed K R spec limit _ _ (inl (why, e, refl))

  -- Every record of a batch is read, unless the stream ends.
  pub read_batch-IsPart :
      (ends : Option (Dict ℤ ℤ)) (rs : List Raw) (s : Place)
      → IsPart (before s rs) [] (read_batch K R spec ends limit rs s)
  unfolding read_batch
  read_batch-IsPart ends [] s = here
  read_batch-IsPart ends (r ∷ rs) s =
      IsPart-and_then (before s (r ∷ rs)) rs (read_record K R spec ends limit r s)
        (λ t. read_batch K R spec ends limit rs t) (read_record-IsPart ends r rs s)
        (λ t. read_batch-IsPart ends rs t)
