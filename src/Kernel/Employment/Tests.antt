-- ===== src/Kernel/Employment/Tests.antt =====
-- The exclusivity rule on two jobs of one worker.
use mathlib.Core.List.{Memᴰ}
use orgmetra.Kernel.Employment.Laws.{IsWellFormed, exclusivity_iff, IsExclusivePortfolio}
use orgmetra.Kernel.Facts.{EmploymentVersion}
use orgmetra.Base.{
  All-mem, ◌↔◌, ◌≡◌, refl, none, some, [], ◌∷◌, ok, err, arith, select, keep_if, any_of, for_pairs,
  for_each,
}
use orgmetra.Kernel.Samples.{at, days, employment}
use orgmetra.Kernel.Intervals.{recorded_contains, overlaps}
use orgmetra.Kernel.Employment.{
  validate_person_employment_exclusivity, two_exclusive, check_concurrency, is_visible_exclusive,
  check_exclusive_pair,
}

abbrev job : EmploymentVersion
job = employment 3 "active" (days 0 (some 15))

abbrev later_job : EmploymentVersion
later_job = employment 6 "active" (days 15 none)

abbrev early_job : EmploymentVersion
early_job = employment 6 "active" (days 14 none)

run : Unit {0}
unfolding validate_person_employment_exclusivity check_concurrency is_visible_exclusive
    check_exclusive_pair select keep_if any_of for_pairs for_each recorded_contains overlaps
run = tt

adjacent_jobs : validate_person_employment_exclusivity (job ∷ later_job ∷ []) 1 2 (at 9) ≡ ok tt
unfolding run
adjacent_jobs = refl

shared_day :
    validate_person_employment_exclusivity (job ∷ early_job ∷ []) 1 2 (at 9) ≡ err two_exclusive
unfolding run
shared_day = refl

well_formed : (v : EmploymentVersion) → Memᴰ v (job ∷ later_job ∷ []) → IsWellFormed v
well_formed v m =
    All-mem IsWellFormed (job ∷ later_job ∷ [])
      (
        (omega arith, record { at_start = refl; at_end = tt }),
        ((tt, record { at_start = refl; at_end = tt }), tt),
      )
      m

exclusivity_iff_example :
    (validate_person_employment_exclusivity (job ∷ later_job ∷ []) 1 2 (at 9) ≡ ok tt)
    ↔ IsExclusivePortfolio (job ∷ later_job ∷ []) 1 2 (at 9)
exclusivity_iff_example = exclusivity_iff (job ∷ later_job ∷ []) 1 2 (at 9) refl well_formed
