-- ===== src/Kernel/Assignment/Tests.antt =====
-- The assignment rules on the facts of one worker.
use orgmetra.Kernel.Assignment.Seats.{position_coverage_iff, Seats}
use mathlib.Core.List.{Memᴰ}
use orgmetra.Kernel.Assignment.Portfolio.{
  seat_capacity_iff, portfolio_iff, IsWithinSeat, IsWithinOne,
}
use orgmetra.Kernel.Assignment.Coverage.{
  employment_coverage_sound, Employs, Speaks, employment_coverage_unique,
}
use orgmetra.Kernel.Assignment.Probes.{write-portfolio_every_day, write-seat_every_day}
use orgmetra.Kernel.Facts.{
  PositionVersion, EmploymentVersion, AssignmentFact, assignment_fact, assignment_identity,
}
use orgmetra.Base.{
  All-mem, ℕ, ◌↔◌, ◌≡◌, refl, none, some, [], ◌∷◌, ok, err, arith, select, keep_if, any_of,
  for_pairs, for_each,
}
use orgmetra.Kernel.Samples.{employment, at, days, employed, seat, assigned}
use orgmetra.Kernel.Intervals.{recorded_contains, overlaps, contains}
use orgmetra.Kernel.Coverage.{union_covers}
use orgmetra.Kernel.Resolution.{resolve_bitemporal_facts, is_visible}
use orgmetra.Kernel.Intervals.Laws.{IsAwareInterval, Covers}
use orgmetra.Kernel.Assignment.{
  validate_assignment_write, validate_assignment_employment_coverage,
  validate_assignment_position_coverage, validate_assignment_portfolio,
  validate_position_seat_capacity, check_day, allocation_probe_days, over_employment,
  is_assignment_visible, check_contradiction, is_staffable, check_ratio, ratio_is_valid, sum_from,
  not_employed,
}
use orgmetra.Base.Int.{◌≤ℤ◌, pos, ◌+ℤ◌}

abbrev first : AssignmentFact
first = assigned 7 (pos 6000) (days 10 (some 20))

abbrev second : AssignmentFact
second = assigned 8 (pos 4000) (days 12 (some 30))

abbrev third : AssignmentFact
third = assigned 9 (pos 1) (days 18 none)

run : Unit {0}
unfolding validate_assignment_write validate_assignment_employment_coverage
    validate_assignment_position_coverage check_day validate_assignment_portfolio
    validate_position_seat_capacity select keep_if any_of for_pairs for_each recorded_contains
    overlaps contains union_covers is_assignment_visible check_contradiction is_staffable
    check_ratio ratio_is_valid resolve_bitemporal_facts is_visible assignment_identity
    allocation_probe_days sum_from ◌+ℤ◌
run = tt

accepted : validate_assignment_write first (first ∷ second ∷ []) employed (seat ∷ []) (at 9) ≡ ok tt
unfolding run
accepted = refl

-- The third assignment starts inside the first, and only that probe day shows the excess.
rejected :
    validate_assignment_write first (first ∷ second ∷ third ∷ []) employed (seat ∷ []) (at 9)
    ≡ err over_employment
unfolding run
rejected = refl

-- Nothing was known at instant 4.
unknown :
    validate_assignment_write first (first ∷ []) employed (seat ∷ []) (at 4) ≡ err not_employed
unfolding run
unknown = refl

inside : Covers first.effective 17
inside = omega arith

write-portfolio_every_day_example :
    validate_assignment_portfolio (first ∷ second ∷ []) 1 2 3 17 (at 9) ≡ ok tt
write-portfolio_every_day_example =
    write-portfolio_every_day first (first ∷ second ∷ []) employed (seat ∷ []) (at 9) accepted 17
      inside

positive :
    (fact : AssignmentFact) → Memᴰ fact (first ∷ second ∷ []) → pos 0 ≤ℤ fact.allocation_ratio
positive fact m =
    All-mem (λ (a : AssignmentFact). pos 0 ≤ℤ a.allocation_ratio) (first ∷ second ∷ [])
      (omega arith) m

write-seat_every_day_example :
    validate_position_seat_capacity (first ∷ second ∷ []) 1 4 17 (at 9) ≡ ok tt
write-seat_every_day_example =
    write-seat_every_day first (first ∷ second ∷ []) employed (seat ∷ []) (at 9) accepted 17 inside
      positive

covered : validate_assignment_employment_coverage first employed (at 9) ≡ ok tt
unfolding run
covered = refl

employment_coverage_sound_example :
    (v : EmploymentVersion) × Memᴰ v employed × Employs first (at 9) 17 v
employment_coverage_sound_example =
    employment_coverage_sound first employed (at 9) covered 17 inside

abbrev on_leave : EmploymentVersion
on_leave = employment 3 "leave" (days 15 none)

speaks : Speaks first employed (at 9) 17 on_leave
unfolding recorded_contains
speaks = record { of_tenant = refl; of_employment = refl; known = refl; in_effect = omega arith }

employment_coverage_unique_example : on_leave ≡ on_leave
employment_coverage_unique_example =
    employment_coverage_unique first employed (at 9) covered 17 inside on_leave on_leave
      (Memᴰ.tail (Memᴰ.head refl)) (Memᴰ.tail (Memᴰ.head refl)) speaks speaks

seat_is_aware : (v : PositionVersion) → Memᴰ v (seat ∷ []) → IsAwareInterval v.recorded
seat_is_aware v m =
    All-mem (λ (p : PositionVersion). IsAwareInterval p.recorded) (seat ∷ [])
      (record { at_start = refl; at_end = tt }, tt) m

position_coverage_iff_example :
    (validate_assignment_position_coverage first (seat ∷ []) (at 9) ≡ ok tt) ↔ (
      (day : ℕ)
      → Covers first.effective day
      → (v : PositionVersion) × Memᴰ v (seat ∷ []) × Seats first (at 9) day v)
position_coverage_iff_example =
    position_coverage_iff first (seat ∷ []) (at 9) (omega arith) refl seat_is_aware

portfolio_iff_example :
    (validate_assignment_portfolio (first ∷ second ∷ []) 1 2 3 17 (at 9) ≡ ok tt)
    ↔ IsWithinOne (first ∷ second ∷ []) 1 2 3 17 (at 9)
portfolio_iff_example = portfolio_iff (first ∷ second ∷ []) 1 2 3 17 (at 9)

seat_capacity_iff_example :
    (validate_position_seat_capacity (first ∷ second ∷ []) 1 4 17 (at 9) ≡ ok tt)
    ↔ IsWithinSeat (first ∷ second ∷ []) 1 4 17 (at 9)
seat_capacity_iff_example = seat_capacity_iff (first ∷ second ∷ []) 1 4 17 (at 9)
