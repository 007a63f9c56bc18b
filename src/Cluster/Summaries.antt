-- ===== src/Cluster/Summaries.antt =====
-- What the overview shows of one topic, and the order of its rows, apart from how app/services/cluster.py
-- computes them.
use kafkascope.Prelude.{ℕ, ◌≤◌, ◌<◌, max, String, Bool, true, false, ◌&&◌, ◌||◌, not}
use kafkascope.Prelude.{List, [], ◌∷◌, map, All, any, length, ltb, ◌≡◌, refl, sym, ap, subst, arith}
use kafkascope.Prelude.{◌⊎◌, inl, inr, ◌↔◌, ◌∙◌, string_eq}
use kafkascope.Prelude.Lists.{IsMember, All-imp}
use kafkascope.Prelude.Sort.{sort_by, ltb_string}
use kafkascope.Prelude.Sort.Laws.{IsOrder, AreSorted, sort_by-AreSorted, IsOrder-ltb_string}
use kafkascope.Prelude.Text.Infix.{Starts, has_prefix_iff}
use kafkascope.Prelude.Dict.{Dict, values}
use kafkascope.Kafka.{TopicMetadata, PartitionMetadata}
use kafkascope.Kafka.Program.Runs.{Each}
use kafkascope.Cluster.{TopicSummary, summary, listed_before, lags_behind, largest}

-- The largest of some numbers, or zero for none.
abbrev pub IsLargest : List ℕ → ℕ → Type 0
IsLargest ns n = All (λ k. k ≤ n) ns × ((n ≡ 0) ⊎ IsMember ns n)

abbrev replica_counts : TopicMetadata → List ℕ
replica_counts t = map (λ (p : PartitionMetadata). length p.replicas) (values t.partitions)

-- Some partition has fewer replicas in sync than replicas.
abbrev pub IsBehind : TopicMetadata → Type 0
IsBehind t =
    (p : PartitionMetadata) × IsMember (values t.partitions) p × (length p.isrs < length p.replicas)

-- What the overview says of a topic that the broker listed.
abbrev pub IsSummary : String × TopicMetadata → TopicSummary → Type 0
IsSummary (name, t) s =
    (s.name ≡ name)
    × (s.partition_count ≡ length t.partitions)
    × IsLargest (replica_counts t) s.replication_factor
    × ((s.under_replicated ≡ true) ↔ IsBehind t)
    × ((s.internal ≡ true) ↔ Starts "__" name)

largest-IsLargest : (ns : List ℕ) → IsLargest ns (largest ns)
largest-IsLargest [] = (tt, inl refl)
largest-IsLargest (n ∷ ns) =
    let (above, from) = largest-IsLargest ns in
    (
      (left n (largest ns), All-imp (λ k h. under k n (largest ns) h) ns above),
      by_test n ns (ltb n (largest ns)) refl from,
    )
  where
    left : (a b : ℕ) → a ≤ max a b
    left a b = omega arith

    under : (k a b : ℕ) → k ≤ b → k ≤ max a b
    under k a b h = omega arith

    second : (a b : ℕ) → ltb a b ≡ true → max a b ≡ b
    second a b h = ground arith

    first : (a b : ℕ) → ltb a b ≡ false → max a b ≡ a
    first a b h = ground arith

    by_test :
        (n : ℕ) (ns : List ℕ) (b : Bool)
        → ltb n (largest ns) ≡ b
        → (largest ns ≡ 0) ⊎ IsMember ns (largest ns)
        → (max n (largest ns) ≡ 0) ⊎ IsMember (n ∷ ns) (max n (largest ns))
    by_test n ns true e (inl h) = inl (second n (largest ns) e ∙ h)
    by_test n ns true e (inr h) =
        inr (inr (subst (λ k. IsMember ns k) (sym (second n (largest ns) e)) h))
    by_test n ns false e h = inr (inl (first n (largest ns) e))

module _ {A : Type 0} (test : A → Bool) where
  any-of : (xs : List A) → any test xs ≡ true → (x : A) × IsMember xs x × (test x ≡ true)
  any-of [] e = cc
  any-of (x ∷ xs) e = by_test x xs (test x) refl (any-of xs) e
    where
      by_test :
          (x : A) (xs : List A) (b : Bool)
          → test x ≡ b
          → (any test xs ≡ true → (y : A) × IsMember xs y × (test y ≡ true))
          → (b || any test xs) ≡ true
          → (y : A) × IsMember (x ∷ xs) y × (test y ≡ true)
      by_test x xs true h more e = (x, inl refl, h)
      by_test x xs false h more e = let (y, here, k) = more e in (y, inr here, k)

  of-any : (xs : List A) (x : A) → IsMember xs x → test x ≡ true → any test xs ≡ true
  of-any [] x h e = absurd h
  of-any (y ∷ ys) x (inl same) e = head (ap test (sym same) ∙ e)
    where
      head : test y ≡ true → (test y || any test ys) ≡ true
      head h = ground arith
  of-any (y ∷ ys) x (inr h) e = more (of-any ys x h e)
    where
      more : any test ys ≡ true → (test y || any test ys) ≡ true
      more h = ground arith

any-IsBehind : (t : TopicMetadata) → (any lags_behind (values t.partitions) ≡ true) ↔ IsBehind t
any-IsBehind t = (
  λ e. let (p, here, h) = any-of lags_behind (values t.partitions) e in (p, here, less p h),
  λ (p, here, h). of-any lags_behind (values t.partitions) p here (lags p h),
)
  where
    less : (p : PartitionMetadata) → lags_behind p ≡ true → length p.isrs < length p.replicas
    less p h = ground arith

    lags : (p : PartitionMetadata) → length p.isrs < length p.replicas → lags_behind p ≡ true
    lags p h = ground arith

pub Each-summary : (md : Dict String TopicMetadata) → Each IsSummary md (map summary md)
Each-summary [] = tt
Each-summary ((name, t) ∷ md) = (
  (refl, refl, largest-IsLargest (replica_counts t), any-IsBehind t, has_prefix_iff "__" name),
  Each-summary md,
)

-- The second may stand after the first: ordinary topics come before internal ones, and each kind
-- goes by name.
abbrev pub Follows : TopicSummary → TopicSummary → Type 0
Follows a b =
    ((a.internal ≡ false) × (b.internal ≡ true))
    ⊎ ((a.internal ≡ b.internal) × (ltb_string b.name a.name ≡ false))

abbrev pub AreInOrder : List TopicSummary → Type 0
AreInOrder [] = Unit
AreInOrder (t ∷ ts) = All (Follows t) ts × AreInOrder ts

unfoldable flagged : Bool → Bool → Bool → Bool
flagged i j below = not i && j || (not i || j) && (i || not j) && below

flagged_asymm :
    (i j : Bool) {s t : Bool}
    → (s ≡ true → t ≡ false)
    → flagged i j s ≡ true
    → flagged j i t ≡ false
unfolding flagged
flagged_asymm true true h e = ground (arith, h)
flagged_asymm true false h e = ground (arith, h)
flagged_asymm false true h e = ground (arith, h)
flagged_asymm false false h e = ground (arith, h)

flagged_trans :
    (i j k : Bool) {s t u : Bool}
    → (s ≡ false → t ≡ false → u ≡ false)
    → flagged j i s ≡ false
    → flagged k j t ≡ false
    → flagged k i u ≡ false
unfolding flagged
flagged_trans true true true h e f = ground (arith, h)
flagged_trans true true false h e f = ground (arith, h)
flagged_trans true false true h e f = ground (arith, h)
flagged_trans true false false h e f = ground (arith, h)
flagged_trans false true true h e f = ground (arith, h)
flagged_trans false true false h e f = ground (arith, h)
flagged_trans false false true h e f = ground (arith, h)
flagged_trans false false false h e f = ground (arith, h)

IsOrder-listed_before : IsOrder listed_before
unfolding flagged
IsOrder-listed_before = record {
  asymm = λ a b h. flagged_asymm a.internal b.internal (IsOrder-ltb_string.asymm a.name b.name) h;
  trans = λ a b c h k.
      flagged_trans a.internal b.internal c.internal (IsOrder-ltb_string.trans a.name b.name c.name)
        h k;
}

Follows-flags :
    (i j : Bool) (s t : String)
    → flagged j i (ltb_string t s) ≡ false
    → ((i ≡ false) × (j ≡ true)) ⊎ ((i ≡ j) × (ltb_string t s ≡ false))
unfolding flagged
Follows-flags true true s t e = inr (refl, e)
Follows-flags true false s t e = cc
Follows-flags false true s t e = inl (refl, refl)
Follows-flags false false s t e = inr (refl, e)

sorted-Follows : (ts : List TopicSummary) → AreSorted listed_before ts → AreInOrder ts
unfolding flagged
sorted-Follows [] h = tt
sorted-Follows (t ∷ ts) (below, h) = (
  All-imp (λ u e. Follows-flags t.internal u.internal t.name u.name e) ts below,
  sorted-Follows ts h,
)

pub sorted-AreInOrder : (ts : List TopicSummary) → AreInOrder (sort_by listed_before ts)
sorted-AreInOrder ts =
    sorted-Follows (sort_by listed_before ts) (sort_by-AreSorted IsOrder-listed_before ts)
