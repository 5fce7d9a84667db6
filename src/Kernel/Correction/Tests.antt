-- ===== src/Kernel/Correction/Tests.antt =====
-- Closing an employment version.
use orgmetra.Kernel.Intervals.Laws.{knows}
use orgmetra.Kernel.Correction.Laws.{close-recorded_contains, close_iff, closed_at}
use orgmetra.Kernel.Facts.{EmploymentVersion}
use orgmetra.Base.{ltb, ◌&&◌, ◌<◌, ◌↔◌, ◌≡◌, refl, none, some, ok, err}
use orgmetra.Kernel.Samples.{at, days, employment}
use orgmetra.Kernel.Correction.{employment_closable, close_recorded_interval, closes_early}
use orgmetra.Kernel.Intervals.{recorded_contains, RecordedInterval, recorded_interval, le_datetime}

abbrev fact : EmploymentVersion
fact = employment 3 "active" (days 0 none)

abbrev closed : EmploymentVersion
closed = record fact { recorded = closed_at fact.recorded (at 8) }

close_fact : close_recorded_interval fact (at 8) ≡ ok closed
unfolding close_recorded_interval recorded_interval le_datetime
close_fact = refl

close_at_start : close_recorded_interval fact (at 5) ≡ err closes_early
unfolding close_recorded_interval recorded_interval le_datetime
close_at_start = refl

close_iff_example :
    (close_recorded_interval fact (at 8) ≡ ok closed) ↔ ((5 < 8) × (closed ≡ closed))
close_iff_example = close_iff fact fact.recorded (at 8) closed refl refl refl refl

close-recorded_contains_example :
    (r' : RecordedInterval) × (some closed.recorded ≡ some r')
    × (recorded_contains r' (at 7) ≡ ok (knows fact.recorded (at 7) && ltb 7 8))
close-recorded_contains_example =
    close-recorded_contains fact closed fact.recorded (at 8) (at 7) refl refl refl refl close_fact
