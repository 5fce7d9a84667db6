-- ===== src/Kernel/Assignment.antt =====
-- packages/hris-kernel/src/orgmetra_hris_kernel/assignment.py; `_union_covers` is in Coverage.antt.
pub mod Coverage
pub mod Seats
pub mod Portfolio
pub mod ProbeDays
pub mod Probes
mod Tests
use orgmetra.Base.{
  ℕ, String, Bool, true, false, not, ◌&&◌, Option, List, [], ◌∷◌, map, any_of, keep_if, str_eq,
  ◌==◌, ltb, if◌then◌else◌, Result, ok, err, ◌>>=◌, ◌>>◌, guard, select, for_each, for_pairs,
}
use orgmetra.Base.Int.{ℤ, pos, ◌+ℤ◌, ltb_ℤ}
use orgmetra.Kernel.Errors.{
  Error, assignment_portfolio_error, employment_coverage_error, position_coverage_error,
  position_seat_error,
}
use orgmetra.Kernel.Intervals.{DateInterval, Datetime, contains, overlaps, recorded_contains}
use orgmetra.Kernel.Facts.{EmploymentVersion, PositionVersion, AssignmentFact, assignment_fact}
use orgmetra.Kernel.Resolution.{resolve_bitemporal_facts}
use orgmetra.Kernel.Coverage.{union_covers}

-- `Decimal("1.0000")`, in ten-thousandths.
abbrev pub one : ℤ
one = pos 10000

abbrev pub eligible_employment_statuses : List String
eligible_employment_statuses = "active" ∷ "leave" ∷ []

abbrev pub staffable_position_statuses : List String
staffable_position_statuses = "active" ∷ "open" ∷ []

abbrev pub invalid_ratio : Error
invalid_ratio =
    assignment_portfolio_error "allocation_ratio must be greater than 0 and at most 1.0000."

abbrev pub over_employment : Error
over_employment = assignment_portfolio_error "Visible allocations for one employment exceed 1.0000."

abbrev pub other_person : Error
other_person = employment_coverage_error "Assignment person does not match the named employment."

abbrev pub contradictory : Error
contradictory =
    employment_coverage_error
      "Assignment intersects contradictory employment versions in this tenant."

abbrev pub not_employed : Error
not_employed =
    employment_coverage_error
      "Assignment is not covered by an active or leave employment version in this tenant."

abbrev pub not_staffable : Error
not_staffable = position_coverage_error

abbrev pub over_seat : Error
over_seat = position_seat_error

-- `_ratio_is_valid`
unfoldable pub ratio_is_valid : ℤ → Bool
ratio_is_valid allocation_ratio = ltb_ℤ (pos 0) allocation_ratio && not (ltb_ℤ one allocation_ratio)

-- `sum((fact.allocation_ratio for fact in visible), start=_ZERO)`
unfoldable pub sum_from : ℤ → List AssignmentFact → ℤ
sum_from total [] = total
sum_from total (fact ∷ visible) = sum_from (total +ℤ fact.allocation_ratio) visible

unfoldable pub check_ratio : AssignmentFact → Result Error (Unit {0})
check_ratio fact = guard (ratio_is_valid fact.allocation_ratio) invalid_ratio

abbrev pub of_employment : ℕ → ℕ → ℕ → AssignmentFact → Bool
of_employment tenant_record_id person_record_id employment_record_id fact =
    fact.tenant_record_id == tenant_record_id
    && (fact.person_record_id == person_record_id
        && fact.employment_record_id == employment_record_id)

unfoldable pub validate_assignment_portfolio :
    List AssignmentFact → ℕ → ℕ → ℕ → ℕ → Datetime → Result Error (Unit {0})
validate_assignment_portfolio assignments tenant_record_id person_record_id employment_record_id
      effective_on known_at =
    do
      let scoped =
          keep_if (of_employment tenant_record_id person_record_id employment_record_id) assignments
      for_each check_ratio scoped
      visible ←
          resolve_bitemporal_facts scoped tenant_record_id "employment_record_id"
            employment_record_id effective_on known_at
      guard (not (ltb_ℤ one (sum_from (pos 0) visible))) over_employment

abbrev pub of_position : ℕ → ℕ → AssignmentFact → Bool
of_position tenant_record_id position_record_id fact =
    fact.tenant_record_id == tenant_record_id && fact.position_record_id == position_record_id

unfoldable pub validate_position_seat_capacity :
    List AssignmentFact → ℕ → ℕ → ℕ → Datetime → Result Error (Unit {0})
validate_position_seat_capacity assignments tenant_record_id position_record_id effective_on
      known_at =
    do
      let scoped = keep_if (of_position tenant_record_id position_record_id) assignments
      visible ←
          resolve_bitemporal_facts scoped tenant_record_id "position_record_id" position_record_id
            effective_on known_at
      guard (not (ltb_ℤ one (sum_from (pos 0) visible))) over_seat

abbrev pub is_empty {ℓ} : {A : Type ℓ} → List A → Bool
is_empty [] = true
is_empty (x ∷ xs) = false

abbrev pub names_employment : AssignmentFact → EmploymentVersion → Bool
names_employment assignment version =
    version.tenant_record_id == assignment.tenant_record_id
    && version.employment_record_id == assignment.employment_record_id

-- `version.recorded.contains(known_at) and version.effective.overlaps(assignment.effective)`
unfoldable pub is_assignment_visible :
    AssignmentFact → Datetime → EmploymentVersion → Result Error Bool
is_assignment_visible assignment known_at version = do
  known ← recorded_contains version.recorded known_at
  ok (known && overlaps version.effective assignment.effective)

unfoldable pub check_contradiction : EmploymentVersion → EmploymentVersion → Result Error (Unit {0})
check_contradiction left right = guard (not (overlaps left.effective right.effective)) contradictory

abbrev pub is_eligible : EmploymentVersion → Bool
is_eligible version = any_of (str_eq version.employment_status_code) eligible_employment_statuses

unfoldable pub validate_assignment_employment_coverage :
    AssignmentFact → List EmploymentVersion → Datetime → Result Error (Unit {0})
validate_assignment_employment_coverage assignment employment_versions known_at = do
  let named = keep_if (names_employment assignment) employment_versions
  guard
      (not
        (any_of (λ version. not (version.person_record_id == assignment.person_record_id)) named))
      other_person
  assignment_visible ← select (is_assignment_visible assignment known_at) named
  for_pairs check_contradiction assignment_visible
  let visible = keep_if is_eligible assignment_visible
  guard
      (not (is_empty visible)
        && union_covers (map (λ version. version.effective) visible) assignment.effective)
      not_employed

abbrev pub names_position : AssignmentFact → PositionVersion → Bool
names_position assignment version =
    version.tenant_record_id == assignment.tenant_record_id
    && version.position_record_id == assignment.position_record_id

-- `version.recorded.contains(known_at) and version.position_status_code in …`
unfoldable pub is_staffable : Datetime → PositionVersion → Result Error Bool
is_staffable known_at version = do
  known ← recorded_contains version.recorded known_at
  ok (known && any_of (str_eq version.position_status_code) staffable_position_statuses)

unfoldable pub validate_assignment_position_coverage :
    AssignmentFact → List PositionVersion → Datetime → Result Error (Unit {0})
validate_assignment_position_coverage assignment position_versions known_at = do
  let named = keep_if (names_position assignment) position_versions
  visible ← select (is_staffable known_at) named
  guard
      (not (is_empty visible)
        && union_covers (map (λ version. version.effective) visible) assignment.effective)
      not_staffable

-- `probe_days.add(day)` on a set that is kept sorted and without repetition.
unfoldable pub add_day : ℕ → List ℕ → List ℕ
add_day day [] = day ∷ []
add_day day (d ∷ days) =
    if ltb day d then day ∷ d ∷ days else if day == d then d ∷ days else d ∷ add_day day days

-- `_allocation_probe_days`; the set is sorted all along, where the code sorts it at the end.
unfoldable pub probe_days_from : List ℕ → List AssignmentFact → DateInterval → List ℕ
unfolding add_day
probe_days_from probe_days [] target = probe_days
probe_days_from probe_days (fact ∷ assignments) target =
    probe_days_from
      (if overlaps fact.effective target && contains target fact.effective.start
        then add_day fact.effective.start probe_days
        else probe_days)
      assignments target

unfoldable pub allocation_probe_days : List AssignmentFact → DateInterval → List ℕ
unfolding probe_days_from
allocation_probe_days assignments target = probe_days_from (target.start ∷ []) assignments target

-- The body of the loop over the probe days.
unfoldable pub check_day :
    AssignmentFact → List AssignmentFact → Datetime → ℕ → Result Error (Unit {0})
check_day assignment assignments known_at probe_day = do
  validate_assignment_portfolio assignments assignment.tenant_record_id assignment.person_record_id
      assignment.employment_record_id probe_day known_at
  validate_position_seat_capacity assignments assignment.tenant_record_id
      assignment.position_record_id probe_day known_at

unfoldable pub validate_assignment_write :
    AssignmentFact
    → List AssignmentFact
    → List EmploymentVersion
    → List PositionVersion
    → Datetime
    → Result Error (Unit {0})
validate_assignment_write assignment assignments employment_versions position_versions known_at = do
  validate_assignment_employment_coverage assignment employment_versions known_at
  validate_assignment_position_coverage assignment position_versions known_at
  for_each (check_day assignment assignments known_at)
      (allocation_probe_days assignments assignment.effective)
