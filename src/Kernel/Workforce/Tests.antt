-- ===== src/Kernel/Workforce/Tests.antt =====
-- A snapshot of one worker with one employment and one half-time assignment.
use orgmetra.Base.{◌≡◌, refl, some, [], ◌∷◌, any_of, keep_if, select, for_each, for_pairs, ok}
use orgmetra.Base.Int.{pos, ◌+ℤ◌}
use orgmetra.Kernel.Intervals.{contains, overlaps, lt_datetime, le_datetime, recorded_contains}
use orgmetra.Kernel.Samples.{at, days, employed, assigned}
use orgmetra.Kernel.Facts.{
  AssignmentFact, employment_fact, assignment_fact, employment_identity, assignment_identity,
}
use orgmetra.Kernel.Resolution.{
  resolve_single_valued_fact, resolve_bitemporal_facts, is_visible, at_most_one,
}
use orgmetra.Kernel.Employment.{
  validate_person_employment_exclusivity, check_exclusive_pair, is_visible_exclusive,
  check_concurrency,
}
use orgmetra.Kernel.Organization.{distinct}
use orgmetra.Kernel.Coverage.{union_covers, cover_from, covering_at}
use orgmetra.Kernel.Assignment.{
  validate_assignment_employment_coverage, validate_assignment_portfolio,
  validate_position_seat_capacity, is_assignment_visible, check_contradiction, ratio_is_valid,
  check_ratio, sum_from,
}
use orgmetra.Kernel.Workforce.{
  WorkforceCompositionSnapshot, composition_snapshot, has_duplicate, is_sorted, add_id, sorted_ids,
  visible_employments_of, visible_employments, check_seen, visible_assignments,
  validate_visible_employment_portfolios, count_status, status_counts, portfolio_keys, total_fte,
  build_workforce_composition_snapshot,
}
use orgmetra.Kernel.Workforce.Laws.{IsComposition, build_snapshot-IsComposition}

abbrev half : AssignmentFact
half = assigned 10 (pos 5000) (days 2 (some 20))

abbrev snapshot : WorkforceCompositionSnapshot
snapshot = record {
  tenant_record_id = 1;
  effective_on = 3;
  known_at = at 9;
  person_headcount = 1;
  employment_count = 1;
  staffed_assignment_count = 1;
  staffed_fte = pos 5000;
  unassigned_person_count = 0;
  employment_status_counts = ("active", 1) ∷ [];
}

built : build_workforce_composition_snapshot employed (half ∷ []) 1 3 (at 9) ≡ ok snapshot
unfolding any_of keep_if select for_each for_pairs ◌+ℤ◌ contains overlaps lt_datetime le_datetime
    recorded_contains employment_identity assignment_identity resolve_single_valued_fact
    resolve_bitemporal_facts is_visible at_most_one validate_person_employment_exclusivity
    check_exclusive_pair is_visible_exclusive check_concurrency distinct union_covers cover_from
    covering_at validate_assignment_employment_coverage validate_assignment_portfolio
    validate_position_seat_capacity is_assignment_visible check_contradiction ratio_is_valid
    check_ratio sum_from composition_snapshot has_duplicate is_sorted add_id sorted_ids
    visible_employments_of visible_employments check_seen visible_assignments
    validate_visible_employment_portfolios count_status status_counts portfolio_keys total_fte
    build_workforce_composition_snapshot
built = refl

build_snapshot-IsComposition_example : IsComposition employed (half ∷ []) 1 3 (at 9) snapshot
build_snapshot-IsComposition_example =
    build_snapshot-IsComposition employed (half ∷ []) 1 3 (at 9) built
