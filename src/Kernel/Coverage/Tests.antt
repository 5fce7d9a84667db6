-- ===== src/Kernel/Coverage/Tests.antt =====
-- The covering loop on adjacent periods.
use mathlib.Core.List.{Memᴰ}
use orgmetra.Kernel.Intervals.Laws.{Covers}
use orgmetra.Kernel.Coverage.Laws.{union_covers_iff, union_covers_terminates}
use orgmetra.Base.{ℕ, ◌↔◌, List, ◌≢◌, ◌≡◌, refl, true, false, none, some, [], ◌∷◌, arith}
use orgmetra.Kernel.Samples.{days}
use orgmetra.Kernel.Coverage.{cover_from, union_covers}
use orgmetra.Kernel.Intervals.{DateInterval, contains}

abbrev periods : List DateInterval
periods = days 15 none ∷ days 0 (some 15) ∷ []

adjacent : union_covers periods (days 10 (some 20)) ≡ true
unfolding union_covers contains
adjacent = refl

gap : union_covers (days 0 (some 9) ∷ days 10 none ∷ []) (days 5 (some 20)) ≡ false
unfolding union_covers contains
gap = refl

union_covers_iff_example : (union_covers periods (days 10 (some 20)) ≡ true) ↔ (
    (day : ℕ) → Covers (days 10 (some 20)) day → (i : DateInterval) × Memᴰ i periods × Covers i day)
union_covers_iff_example = union_covers_iff periods (days 10 (some 20))

union_covers_terminates_example : cover_from 3 periods 10 (some 20) ≢ none
union_covers_terminates_example = union_covers_terminates periods 10 (some 20) 3 (omega arith)
