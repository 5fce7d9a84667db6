-- ===== src/Kernel/Intervals/Tests.antt =====
-- The two kinds of interval on small bounds.
use orgmetra.Kernel.Intervals.Laws.{
  recorded_overlaps_iff, date_interval_iff, overlaps_iff, recorded_contains_iff, Covers, Knows,
}
use orgmetra.Base.{◌<◌, ◌↔◌, ℕ, ◌≡◌, refl, true, false, none, some, ok, err, arith}
use orgmetra.Kernel.Intervals.{
  DateInterval, RecordedInterval, Datetime, offset, date_interval, overlaps, recorded_contains,
  recorded_overlaps, unordered,
}

abbrev spring : DateInterval
spring = record { start = 10; end = some 20 }

abbrev summer : DateInterval
summer = record { start = 20; end = none }

abbrev at : ℕ → Datetime
at n = record { ticks = n; zone = offset }

abbrev known_from : RecordedInterval
known_from = record { start = at 5; end = none }

abbrev known_between : RecordedInterval
known_between = record { start = at 1; end = some (at 6) }

adjacent : overlaps spring summer ≡ false
unfolding overlaps
adjacent = refl

empty_period : date_interval 20 (some 20) ≡ err unordered
unfolding date_interval
empty_period = refl

overlaps_iff_example :
    (overlaps spring summer ≡ true) ↔ ((day : ℕ) × Covers spring day × Covers summer day)
overlaps_iff_example = overlaps_iff spring summer (omega arith) tt

date_interval_iff_example :
    (date_interval 10 (some 20) ≡ ok spring)
    ↔ ((10 < 20) × (spring.start ≡ 10) × (spring.end ≡ some 20))
date_interval_iff_example = date_interval_iff 10 (some 20) spring

recorded_contains_iff_example :
    (recorded_contains known_between (at 6) ≡ ok true) ↔ Knows known_between (at 6)
recorded_contains_iff_example =
    recorded_contains_iff known_between (at 6) (record { at_start = refl; at_end = refl }) refl

recorded_overlaps_iff_example :
    (recorded_overlaps known_between known_from ≡ ok true)
    ↔ ((t : Datetime) × Knows known_between t × Knows known_from t)
recorded_overlaps_iff_example =
    recorded_overlaps_iff known_between known_from (record { at_start = refl; at_end = refl })
      (record { at_start = refl; at_end = tt }) (omega arith) tt
