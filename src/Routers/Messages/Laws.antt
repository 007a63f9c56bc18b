-- ===== src/Routers/Messages/Laws.antt =====
-- How much a scan shows a browser.
use kafkascope.Prelude.{ℕ, ◌+◌, ◌≤◌, ℤ, pos, pos_part, String}
use kafkascope.Prelude.{List, [], ◌∷◌, ◌++◌, map, leb_ℤ, ◌≡◌, refl, ap, sym, subst, arith}
use kafkascope.Failure.{ok, >>=-eq-ok, require-eq-ok, ok-injective}
use kafkascope.Prelude.{true}
use kafkascope.Scan.Loop.{Stream}
use kafkascope.Kafka.{Kafka}
use kafkascope.Kafka.Program.{Session}
use kafkascope.Filter.{ScanSpec}
use kafkascope.Scan.Loop.{Reader, Event, hit, progress, done, Ending, finished, failed, out_of_fuel}
use kafkascope.Scan.Loop.{scan}
use kafkascope.Scan.Loop.Bounds.{AreWithin, IsConsumer, limit_of}
use kafkascope.Scan.Loop.Ends.{scan-AreWithin}
use kafkascope.Routers.{Texts}
use kafkascope.Routers.Messages.{Query, Frame, hit_frame, stats_frame, failed_frame, frame_of}
use kafkascope.Routers.Messages.{last_frames, frames_of, spec_from_query, scan_route, read_time}
use kafkascope.Routers.Messages.{read_start, param, int_or}
use kafkascope.Routers.Groups.{optional_int}
use kafkascope.Prelude.Text.{strip, truthy}
use kafkascope.Prelude.{string_eq}
use kafkascope.Prelude.Dict.{lookup}

abbrev pub shown : List Frame → ℕ
shown [] = 0
shown (hit_frame m ∷ fs) = shown fs + 1
shown (stats_frame kind s ∷ fs) = shown fs
shown (failed_frame m ∷ fs) = shown fs

-- The counts that are shown stay within the budget.
abbrev pub AreFrames : ℕ → List Frame → Type 0
AreFrames budget [] = Unit
AreFrames budget (hit_frame m ∷ fs) = AreFrames budget fs
AreFrames budget (stats_frame kind s ∷ fs) = (s.scanned ≤ budget) × AreFrames budget fs
AreFrames budget (failed_frame m ∷ fs) = AreFrames budget fs

at_most_1000 : (limit : ℤ) (n : ℕ) → leb_ℤ limit (pos 1000) ≡ true → n ≤ limit_of limit → n ≤ 1000
at_most_1000 limit n small h = ground arith

module _ (T : Texts) where
  shown-last : (end : Ending) → shown (last_frames T end) ≡ 0
  shown-last finished = refl
  shown-last (failed e) = refl
  shown-last out_of_fuel = refl

  AreFrames-last : (budget : ℕ) (end : Ending) → AreFrames budget (last_frames T end)
  AreFrames-last budget finished = tt
  AreFrames-last budget (failed e) = tt
  AreFrames-last budget out_of_fuel = tt

  shown-le :
      (budget limit n : ℕ) (es : List Event) (end : Ending)
      → n ≤ limit
      → AreWithin budget limit n es
      → n + shown (map frame_of es ++ last_frames T end) ≤ limit
  shown-le b l n [] end le h = omega (arith, shown-last end)
  shown-le b l n (hit m ∷ es) end le (h, hs) = omega (arith, shown-le b l (n + 1) es end h hs)
  shown-le b l n (progress s ∷ es) end le (h, hs) = shown-le b l n es end le hs
  shown-le b l n (done s ∷ es) end le (h, hs) = shown-le b l n es end le hs

  frames-AreFrames :
      (budget limit n : ℕ) (es : List Event) (end : Ending)
      → AreWithin budget limit n es
      → AreFrames budget (map frame_of es ++ last_frames T end)
  frames-AreFrames b l n [] end h = AreFrames-last b end
  frames-AreFrames b l n (hit m ∷ es) end (h, hs) = frames-AreFrames b l (n + 1) es end hs
  frames-AreFrames b l n (progress s ∷ es) end (h, hs) = (h, frames-AreFrames b l n es end hs)
  frames-AreFrames b l n (done s ∷ es) end (h, hs) = (h, frames-AreFrames b l n es end hs)

  frames_of-AtMost :
      (budget limit : ℕ) (stream : Stream)
      → AreWithin budget limit 0 stream.0
      → (shown (frames_of T stream) ≤ limit) × AreFrames budget (frames_of T stream)
  unfolding frames_of
  frames_of-AtMost b l stream h = (
    omega (arith, shown-le b l 0 stream.0 stream.1 (omega arith) h),
    frames-AreFrames b l 0 stream.0 stream.1 h,
  )

module _ (K : Kafka) (R : Reader K) (T : Texts) where
  spec-max_scan :
      (max_scan : ℤ) (topic : String) (q : Query) (spec : ScanSpec)
      → spec_from_query T max_scan topic q ≡ ok spec
      → max_scan ≡ spec.max_scan
  unfolding spec_from_query
  spec-max_scan max_scan topic q spec e =
      let (time, e₁, k₁) = >>=-eq-ok (read_time T (strip (param q "timestamp" ""))) _ e in
      let (start, e₂, k₂) = >>=-eq-ok (read_start T (param q "start" "latest")) _ k₁ in
      let (partition, e₃, k₃) =
        >>=-eq-ok
          (optional_int T (truthy (strip (param q "partition" "")))
            (strip (param q "partition" "")))
          _ k₂ in
      let (lookback, e₄, k₄) = >>=-eq-ok (int_or T (pos 1000) (lookup "lookback" q)) _ k₃ in
      let (limit, e₅, k₅) = >>=-eq-ok (int_or T (pos 100) (lookup "limit" q)) _ k₄ in
      ap (λ (r : ScanSpec). r.max_scan) (ok-injective k₅)

  -- Whatever a query asks for, a scan that streams shows a browser at most 1000 messages, at most the
  -- limit, or one where the limit is below one; and it never shows that it has read more records than
  -- the configured budget. Polls return no more than was asked for, and no marker of an end.
  pub scan_route-AtMost :
      (fuel : ℕ) (max_scan : ℤ) (name : String) (q : Query) (limit : ℤ) (st : R.State)
      (s : Session K) (fs : List Frame)
      → IsConsumer K R
      → scan_route K R T fuel max_scan name q limit st s ≡ ok fs
      → (shown fs ≤ limit_of limit) × (shown fs ≤ 1000) × AreFrames (pos_part max_scan) fs
  unfolding scan_route
  scan_route-AtMost fuel max_scan name q limit st s fs C e =
      let (small, k) = require-eq-ok (leb_ℤ limit (pos 1000)) _ _ e in
      let (spec, read, k') = >>=-eq-ok (spec_from_query T max_scan name q) _ k in
      let stream = scan K R (record spec { limit = limit }) fuel st s in
      let within = scan-AreWithin K R (record spec { limit = limit }) fuel st s C in
      let (all, counts) =
        frames_of-AtMost T (pos_part spec.max_scan) (limit_of limit) stream within in
      subst (λ l. (shown l ≤ limit_of limit) × (shown l ≤ 1000) × AreFrames (pos_part max_scan) l)
        (ok-injective k')
        (
          all,
          at_most_1000 limit _ small all,
          subst (λ m. AreFrames (pos_part m) (frames_of T stream))
              (sym (spec-max_scan max_scan name q spec read)) counts,
        )
