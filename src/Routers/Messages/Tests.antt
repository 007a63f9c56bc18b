-- ===== src/Routers/Messages/Tests.antt =====
-- A scan of a topic for the letter "a".
use kafkascope.Prelude.{◌≤◌, pos, List, [], ◌∷◌, ◌≡◌, refl}
use kafkascope.Prelude.Int.{◌-ℤ◌, ◌+ℤ◌}
use kafkascope.Prelude.Dict.{lookup, keys, insert}
use kafkascope.Prelude.Sort.{sort_by}
use kafkascope.Prelude.Text.{has_infix, has_prefix, strip, strip_left, strip_right, is_space}
use kafkascope.Failure.{ok}
use kafkascope.Kafka.Program.{pure, raise, lift, ask, ◌>>=◌, traverse}
use kafkascope.Filter.{matches}
use kafkascope.Scan.{plan}
use kafkascope.Scan.Loop.{scan, scan_loop, read_batch, read_record, running, limit_reached}
use kafkascope.Scan.Loop.Samples.{polled, letters, opened, message_at, letters-IsConsumer}
use kafkascope.Samples.{plain_texts}
use kafkascope.Routers.Messages.{Query, Frame, hit_frame, stats_frame, frames_of, spec_from_query}
use kafkascope.Routers.Messages.{scan_route}
use kafkascope.Routers.Messages.Laws.{shown, AreFrames, scan_route-AtMost}

abbrev for_a : Query
for_a = ("key_contains", " a ") ∷ ("lookback", "10") ∷ []

abbrev two_frames : List Frame
two_frames =
    hit_frame (message_at (pos 0) "a")
    ∷ stats_frame "progress" (record { scanned = 2; hits = 1; reason = running })
    ∷ hit_frame (message_at (pos 2) "a")
    ∷ stats_frame "done" (record { scanned = 3; hits = 2; reason = limit_reached (pos 2) })
    ∷ []

streamed :
    scan_route polled letters plain_texts 5 (pos 100) "orders" for_a (pos 2) tt opened
    ≡ ok two_frames
unfolding scan_route spec_from_query frames_of strip strip_left strip_right is_space scan scan_loop
    read_batch read_record matches has_infix has_prefix plan lookup keys insert sort_by pure raise
    lift ask ◌>>=◌ traverse ◌-ℤ◌ ◌+ℤ◌
streamed = refl

scan_route-AtMost_example :
    (shown two_frames ≤ 2) × (shown two_frames ≤ 1000) × AreFrames 100 two_frames
scan_route-AtMost_example =
    scan_route-AtMost polled letters plain_texts 5 (pos 100) "orders" for_a (pos 2) tt opened
      two_frames letters-IsConsumer streamed
