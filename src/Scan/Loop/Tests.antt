-- ===== src/Scan/Loop/Tests.antt =====
-- A scan and a tail over the broker of the samples.
use kafkascope.Prelude.{pos, [], ◌∷◌}
use kafkascope.Prelude.{◌≡◌, ◌≢◌, refl, arith, int_eq}
use kafkascope.Prelude.Int.{◌-ℤ◌, ◌+ℤ◌}
use kafkascope.Prelude.Dict.{lookup, keys, insert}
use kafkascope.Prelude.Sort.{sort_by}
use kafkascope.Prelude.Text.{has_infix, has_prefix}
use kafkascope.Kafka.Program.{pure, raise, lift, ask, ◌>>=◌, traverse}
use kafkascope.Filter.{matches}
use kafkascope.Scan.{plan, tail_assignments}
use kafkascope.Scan.Loop.{hit, progress, done, finished, out_of_fuel, scan, tail}
use kafkascope.Scan.Loop.{scan_loop, read_batch, read_record, running}
use kafkascope.Scan.Loop.{limit_reached}
use kafkascope.Scan.Loop.Reads.{IsBuilt}
use kafkascope.Scan.Loop.Refines.{IsTail}
use kafkascope.Scan.Loop.Refines.{tail-IsSearch}
use kafkascope.Scan.Loop.Sound.{AreTruthful}
use kafkascope.Scan.Loop.Truth.{scan-AreTruthful}
use kafkascope.Scan.Loop.Bounds.{AreWithin}
use kafkascope.Scan.Loop.Ends.{scan-AreWithin, scan-ne-out_of_fuel}
use kafkascope.Scan.Loop.Samples.{
  polled, letters, plain, two_of_a, opened, message_at, letters-IsConsumer,
}

two_hits : scan polled letters two_of_a 5 tt opened ≡ (
  hit (message_at (pos 0) "a")
      ∷ progress (record { scanned = 2; hits = 1; reason = running })
      ∷ hit (message_at (pos 2) "a")
      ∷ done (record { scanned = 3; hits = 2; reason = limit_reached (pos 2) })
      ∷ [],
  finished,
)
unfolding scan scan_loop read_batch read_record matches has_infix has_prefix plan lookup keys insert
    sort_by pure raise lift ask ◌>>=◌ traverse ◌-ℤ◌ ◌+ℤ◌
two_hits = refl

tail-IsSearch_example :
    IsTail polled letters two_of_a
      (tail_assignments polled two_of_a opened)
      (tail polled letters two_of_a 3 tt opened)
tail-IsSearch_example = tail-IsSearch polled letters two_of_a 3 tt opened

scan-AreTruthful_example :
    AreTruthful plain two_of_a
      (IsBuilt polled letters)
      0
      (scan polled letters two_of_a 5 tt opened).0
scan-AreTruthful_example = scan-AreTruthful polled letters two_of_a 5 tt opened

scan-AreWithin_example : AreWithin 100 2 0 (scan polled letters two_of_a 5 tt opened).0
scan-AreWithin_example = scan-AreWithin polled letters two_of_a 5 tt opened letters-IsConsumer

scan-ne-out_of_fuel_example : (scan polled letters two_of_a 101 tt opened).1 ≢ out_of_fuel
scan-ne-out_of_fuel_example =
    scan-ne-out_of_fuel polled letters two_of_a 101 tt opened letters-IsConsumer (omega arith)
