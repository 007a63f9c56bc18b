-- ===== src/Scan/Loop/Bounds.antt =====
-- A batch stays within the budget and the limit of a scan.
use kafkascope.Prelude.{ℕ, ◌+◌, ◌≤◌, ◌<◌, ℤ, pos, max, pos_part}
use kafkascope.Prelude.{Bool, true, false, Option, none, some, List, [], ◌∷◌, ◌++◌, length, All}
use kafkascope.Prelude.{leb_ℤ, ◌-ℤ◌, int_eq, ◌≡◌, ◌≢◌, refl, subst}
use kafkascope.Prelude.{if◌then◌else◌, arith}
use kafkascope.Prelude.Dict.{Dict, lookup, insert}
use kafkascope.Failure.{Result, ok, err}
use kafkascope.Kafka.{Kafka}
use kafkascope.Filter.{Message, ScanSpec, matches}
use kafkascope.Scan.Record.{Raw, RawError, partition_eof, broken}
use kafkascope.Scan.Loop.{Event, hit, progress, done, finished, out_of_fuel}
use kafkascope.Scan.Loop.{Reader, because, Position, going, over, Part}
use kafkascope.Scan.Loop.{and_then, count_record, count_hit, found, judged, built, advance}
use kafkascope.Scan.Loop.{read_placed, read_by_error, read_record, read_batch}
use kafkascope.Scan.Loop.{limit_reached}
use kafkascope.Scan.Loop.Search.{hit_count, hit_count-append}

-- After `n` hits, no more than `limit` come in all, and no more than `budget` records are shown as read.
abbrev pub AreWithin : ℕ → ℕ → ℕ → List Event → Type 0
AreWithin budget limit n [] = Unit
AreWithin budget limit n (hit m ∷ es) = (n + 1 ≤ limit) × AreWithin budget limit (n + 1) es
AreWithin budget limit n (progress s ∷ es) = (s.scanned ≤ budget) × AreWithin budget limit n es
AreWithin budget limit n (done s ∷ es) = (s.scanned ≤ budget) × AreWithin budget limit n es

pub AreWithin-append :
    (budget limit n m : ℕ) (es fs : List Event)
    → AreWithin budget limit n es
    → n + hit_count es ≡ m
    → AreWithin budget limit m fs
    → AreWithin budget limit n (es ++ fs)
AreWithin-append b l n m [] fs h e k =
    let e' : m ≡ n = omega arith in subst (λ j. AreWithin b l j fs) e' k
AreWithin-append b l n m (hit x ∷ es) fs (h, hs) e k =
    (h, AreWithin-append b l (n + 1) m es fs hs (omega arith) k)
AreWithin-append b l n m (progress s ∷ es) fs (h, hs) e k =
    (h, AreWithin-append b l n m es fs hs e k)
AreWithin-append b l n m (done s ∷ es) fs (h, hs) e k = (h, AreWithin-append b l n m es fs hs e k)

pub AreWithin-mono :
    (b b' limit n : ℕ) (es : List Event) → b ≤ b' → AreWithin b limit n es → AreWithin b' limit n es
AreWithin-mono b b' l n [] le h = tt
AreWithin-mono b b' l n (hit m ∷ es) le (h, hs) = (h, AreWithin-mono b b' l (n + 1) es le hs)
AreWithin-mono b b' l n (progress s ∷ es) le (h, hs) =
    (omega arith, AreWithin-mono b b' l n es le hs)
AreWithin-mono b b' l n (done s ∷ es) le (h, hs) = (omega arith, AreWithin-mono b b' l n es le hs)

-- No record of the batch stands for the end of a partition.
abbrev pub NoEof : List Raw → Type 0
NoEof = All (λ r. r.error ≢ some partition_eof)

-- A poll returns at most what was asked for, and no marker of the end of a partition, which librdkafka
-- only hands out where `enable.partition.eof` is set.
pub record IsConsumer (K : Kafka) (R : Reader K) : Type 0 where
  pub at_most : (n : ℕ) (w : K.World) (rs : List Raw) → (R.consume n w).0 ≡ ok rs → length rs ≤ n
  pub no_eof : (n : ℕ) (w : K.World) (rs : List Raw) → (R.consume n w).0 ≡ ok rs → NoEof rs

abbrev pub limit_of : ℤ → ℕ
limit_of l = max 1 (pos_part l)

module _ (K : Kafka) (R : Reader K) (spec : ScanSpec) where
  abbrev pub Place : Type 0
  Place = Position K R spec

  abbrev pub hit_limit : ℕ
  hit_limit = limit_of spec.limit

  -- From a place with `h` hits: the events are within the bounds, and if the part goes on, it has
  -- counted at most up to `n` records, and just so many if `Q`. It does not end for want of fuel.
  abbrev pub IsWithin : ℕ → ℕ → ℕ → Type 0 → Part K R spec → Type 0
  IsWithin b h n Q (es, over end) = AreWithin b hit_limit h es × (end ≢ out_of_fuel)
  IsWithin b h n Q (es, going t) =
      AreWithin b hit_limit h es
      × (h + hit_count es ≡ t.stats.hits)
      × (t.stats.hits < hit_limit)
      × (t.stats.scanned ≤ n)
      × (Q → n ≤ t.stats.scanned)

  found-IsWithin :
      (b h n : ℕ) (Q : Type 0) (m : Message) (s : Place)
      → h + 1 ≡ s.stats.hits
      → h < hit_limit
      → s.stats.scanned ≡ n
      → n ≤ b
      → IsWithin b h n Q (found K R spec (some spec.limit) m s)
  found-IsWithin b h n Q m s e lt c le = by_test (leb_ℤ spec.limit (pos s.stats.hits)) refl
    where
      by_test :
          (t : Bool)
          → leb_ℤ spec.limit (pos s.stats.hits) ≡ t
          → IsWithin b h n Q (
              if t
              then (hit m ∷ done (because (limit_reached spec.limit) s.stats) ∷ [], over finished)
              else (hit m ∷ [], going s))
      by_test true k = ((omega arith, (omega arith, tt)), λ e. cc)
      by_test false k =
          ((omega arith, tt), omega arith, ground arith, omega arith, λ q. omega arith)

  judged-IsWithin :
      (b h n : ℕ) (Q : Type 0) (m : Message) (s : Place) (r : Result Bool)
      → h ≡ s.stats.hits
      → h < hit_limit
      → s.stats.scanned ≡ n
      → n ≤ b
      → IsWithin b h n Q (judged K R spec (some spec.limit) m s r)
  judged-IsWithin b h n Q m s (err e) k lt c le = (tt, λ e. cc)
  judged-IsWithin b h n Q m s (ok false) k lt c le =
      (tt, omega arith, omega arith, omega arith, λ q. omega arith)
  judged-IsWithin b h n Q m s (ok true) k lt c le =
      found-IsWithin b h n Q m (count_hit K R spec s) (omega arith) lt c le

  built-IsWithin :
      (b h n : ℕ) (Q : Type 0) (s : Place) (r : Result Message × R.State)
      → h ≡ s.stats.hits
      → h < hit_limit
      → s.stats.scanned ≡ n
      → n ≤ b
      → IsWithin b h n Q (built K R spec (some spec.limit) s r)
  built-IsWithin b h n Q s (err e, st) k lt c le = (tt, λ e. cc)
  built-IsWithin b h n Q s (ok m, st) k lt c le =
      judged-IsWithin b h n Q m _ (matches R.texts m spec) k lt c le

  read_record-IsWithin :
      (b : ℕ) (ends : Dict ℤ ℤ) (r : Raw) (s : Place)
      → s.stats.hits < hit_limit
      → s.stats.scanned + 1 ≤ b
      → IsWithin b s.stats.hits
          (s.stats.scanned + 1)
          (r.error ≢ some partition_eof)
          (read_record K R spec (some ends) (some spec.limit) r s)
  unfolding read_record
  read_record-IsWithin b ends r s lt le = by_error r.error
    where
      by_end :
          (Q : Type 0) (o : Option ℤ)
          → IsWithin b s.stats.hits (s.stats.scanned + 1) Q (
              read_placed K R spec
                (some spec.limit)
                r
                (advance K R spec r (count_record K R spec s) o))
      by_end Q none = (tt, λ e. cc)
      by_end Q (some end) =
          built-IsWithin b s.stats.hits (s.stats.scanned + 1) Q
            (record s {
              stats = record s.stats { scanned = s.stats.scanned + 1 };
              remaining = insert r.partition (end -ℤ r.offset -ℤ pos 1) s.remaining;
            })
            (R.build r s.state) refl lt refl le

      by_error :
          (e : Option RawError)
          → IsWithin b s.stats.hits
              (s.stats.scanned + 1)
              (e ≢ some partition_eof)
              (read_by_error K R spec (some ends) (some spec.limit) r s e)
      by_error none = by_end _ (lookup r.partition ends)
      by_error (some partition_eof) = (tt, omega arith, lt, omega arith, λ q. absurd (q refl))
      by_error (some (broken why)) = (tt, λ e. cc)

  -- The bounds of two parts in a row.
  and_then-IsWithin :
      (b h n n' : ℕ) (Q Q' : Type 0) (p : Part K R spec) (f : Place → Part K R spec)
      → IsWithin b h n Q p
      → ((t : Place)
          → t.stats.hits < hit_limit
          → t.stats.scanned ≤ n
          → (Q → n ≤ t.stats.scanned)
          → IsWithin b t.stats.hits n' Q' (f t))
      → IsWithin b h n' Q' (and_then K R spec p f)
  and_then-IsWithin b h n n' Q Q' (es, over end) f w k = w
  and_then-IsWithin b h n n' Q Q' (es, going t) f (w, e, lt, le, ge) k = after (f t) (k t lt le ge)
    where
      after :
          (r : Part K R spec)
          → IsWithin b t.stats.hits n' Q' r
          → IsWithin b h n' Q' (es ++ r.0, r.1)
      after (fs, over end) (v, ne) = (AreWithin-append b hit_limit h t.stats.hits es fs w e v, ne)
      after (fs, going u) (v, e', lt', le', ge') = (
        AreWithin-append b hit_limit h t.stats.hits es fs w e v,
        omega (arith, hit_count-append es fs),
        lt',
        le',
        ge',
      )

  -- A batch that fits the budget keeps to the bounds.
  pub read_batch-IsWithin :
      (b : ℕ) (ends : Dict ℤ ℤ) (rs : List Raw) (s : Place) (n : ℕ)
      → s.stats.hits < hit_limit
      → s.stats.scanned + length rs ≤ n
      → n ≤ b
      → (Q : Type 0) → (Q → NoEof rs × (n ≤ s.stats.scanned + length rs))
      → IsWithin b s.stats.hits n Q (read_batch K R spec (some ends) (some spec.limit) rs s)
  unfolding read_batch
  read_batch-IsWithin b ends [] s n lt le le' Q q =
      (tt, omega arith, lt, omega arith, λ x. omega (arith, (q x).1))
  read_batch-IsWithin b ends (r ∷ rs) s n lt le le' Q q =
      and_then-IsWithin b s.stats.hits (s.stats.scanned + 1) n (r.error ≢ some partition_eof) Q
        (read_record K R spec (some ends) (some spec.limit) r s)
        (λ t. read_batch K R spec (some ends) (some spec.limit) rs t)
        (read_record-IsWithin b ends r s lt (omega arith))
        λ t lt' up down.
          read_batch-IsWithin b ends rs t n lt' (omega arith) le' Q
            λ x. ((q x).0.1, omega (arith, (q x).1, down (q x).0.0))
