-- ===== src/Kernel/Workforce.antt =====
-- packages/hris-kernel/src/orgmetra_hris_kernel/workforce.py, up to the snapshot; its JSON text and
-- its digest are not modelled.
--
-- Sets of UUIDs are sorted by their text, which is the order of the numbers, since the text of a
-- UUID is its hexadecimal digits in lower case. The two loops over unsorted sets, whose order Python
-- leaves open, run in the order of the last occurrences.
pub mod Counting
pub mod Sorted
pub mod Visible
pub mod Reported
pub mod Current
pub mod Laws
mod Tests
use orgmetra.Base.{
  ℕ, suc, ◌+◌, String, Bool, true, false, not, ◌&&◌, ◌||◌, Option, none, some, List, [], ◌∷◌, map,
  length, any_of, keep_if, str_eq, ◌==◌, ltb, if◌then◌else◌, Result, ok, err, ◌>>=◌, ◌>>◌, guard,
  select, for_each,
}
use orgmetra.Base.Regex.{codes, codes_lt}
use orgmetra.Base.Int.{ℤ, pos, ◌+ℤ◌}
use orgmetra.Kernel.Errors.{Error, interval_error, single_valued_fact_error}
use orgmetra.Kernel.Intervals.{Datetime, has_offset, contains, recorded_contains}
use orgmetra.Kernel.Facts.{EmploymentVersion, AssignmentFact, employment_fact}
use orgmetra.Kernel.Resolution.{resolve_single_valued_fact}
use orgmetra.Kernel.Employment.{validate_person_employment_exclusivity}
use orgmetra.Kernel.Organization.{distinct}
use orgmetra.Kernel.Assignment.{
  validate_assignment_employment_coverage, validate_assignment_portfolio,
  validate_position_seat_capacity,
}

pub record WorkforceCompositionSnapshot : Type 0 where
  pub tenant_record_id : ℕ
  pub effective_on : ℕ
  pub known_at : Datetime
  pub person_headcount : ℕ
  pub employment_count : ℕ
  pub staffed_assignment_count : ℕ
  pub staffed_fte : ℤ
  pub unassigned_person_count : ℕ
  pub employment_status_counts : List (String × ℕ)

abbrev pub cutoff_not_aware : Error
cutoff_not_aware = interval_error "Workforce snapshot knowledge cutoff must be timezone-aware."

-- `len(codes) != len(set(codes))`
unfoldable pub has_duplicate : List String → Bool
has_duplicate [] = false
has_duplicate (s ∷ rest) = any_of (str_eq s) rest || has_duplicate rest

-- `codes == sorted(codes)`
unfoldable pub is_sorted : List String → Bool
is_sorted [] = true
is_sorted (s ∷ []) = true
is_sorted (s ∷ t ∷ rest) = not (codes_lt (codes t) (codes s)) && is_sorted (t ∷ rest)

-- `__post_init__`, on the snapshot's fields.
unfoldable pub composition_snapshot :
    WorkforceCompositionSnapshot → Result Error WorkforceCompositionSnapshot
unfolding has_duplicate is_sorted
composition_snapshot snapshot = do
  let status_codes = map (λ entry. entry.0) snapshot.employment_status_counts
  guard (has_offset snapshot.known_at) cutoff_not_aware
  guard (not (has_duplicate status_codes))
      (single_valued_fact_error "Workforce snapshot contains a duplicate status code.")
  guard (is_sorted status_codes)
      (single_valued_fact_error "Workforce snapshot status codes must use canonical status order.")
  ok snapshot

abbrev pub workforce_included_statuses : List String
workforce_included_statuses = "active" ∷ "leave" ∷ []

-- `ids.add(id)` on a set that is kept in order.
unfoldable pub add_id : ℕ → List ℕ → List ℕ
add_id x [] = x ∷ []
add_id x (y ∷ ys) = if ltb x y then x ∷ y ∷ ys else if x == y then y ∷ ys else y ∷ add_id x ys

-- `sorted({…}, key=str)`
unfoldable pub sorted_ids : List ℕ → List ℕ
unfolding add_id
sorted_ids [] = []
sorted_ids (x ∷ xs) = add_id x (sorted_ids xs)

-- The loop over the employment identities.
unfoldable pub visible_employments_of :
    List EmploymentVersion → ℕ → ℕ → Datetime → List ℕ → Result Error (List EmploymentVersion)
visible_employments_of employment_versions tenant_record_id effective_on known_at [] = ok []
visible_employments_of employment_versions tenant_record_id effective_on known_at (id ∷ ids) = do
  resolved ←
      resolve_single_valued_fact employment_versions tenant_record_id "employment_record_id" id
        effective_on known_at
  rest ← visible_employments_of employment_versions tenant_record_id effective_on known_at ids
  elim resolved [
    | none ↦ ok rest
    | some version ↦ ok (
        if any_of (str_eq version.employment_status_code) workforce_included_statuses
        then version ∷ rest
        else rest)
  ]

unfoldable pub visible_employments :
    List EmploymentVersion → ℕ → ℕ → Datetime → Result Error (List EmploymentVersion)
unfolding visible_employments_of
visible_employments employment_versions tenant_record_id effective_on known_at =
    visible_employments_of employment_versions tenant_record_id effective_on known_at (
      sorted_ids (
        map (λ version. version.employment_record_id)
          (keep_if (λ version. version.tenant_record_id == tenant_record_id) employment_versions)))

-- The loop over `seen`.
unfoldable pub check_seen : List ℕ → List AssignmentFact → Result Error (Unit {0})
check_seen seen [] = ok tt
check_seen seen (fact ∷ facts) =
    guard (not (any_of (◌==◌ fact.assignment_record_id) seen)) (
      single_valued_fact_error
        "One assignment identity resolved to more than one visible assignment fact.")
    >> check_seen (fact.assignment_record_id ∷ seen) facts

unfoldable pub visible_assignments :
    List AssignmentFact → ℕ → ℕ → Datetime → Result Error (List AssignmentFact)
unfolding check_seen
visible_assignments assignments tenant_record_id effective_on known_at = do
  visible ←
      select
        (λ fact.
          if fact.tenant_record_id == tenant_record_id && contains fact.effective effective_on
          then recorded_contains fact.recorded known_at
          else ok false)
        assignments
  check_seen [] visible
  ok visible

unfoldable pub validate_visible_employment_portfolios :
    List EmploymentVersion → ℕ → ℕ → Datetime → Result Error (Unit {0})
validate_visible_employment_portfolios employment_versions tenant_record_id effective_on known_at =
    do
      coordinate_versions ←
          select
            (λ version.
              if version.tenant_record_id == tenant_record_id
                && contains version.effective effective_on
              then recorded_contains version.recorded known_at
              else ok false)
            employment_versions
      for_each
          (λ person_record_id.
            validate_person_employment_exclusivity coordinate_versions tenant_record_id
              person_record_id known_at)
          (sorted_ids (map (λ version. version.person_record_id) coordinate_versions))

-- `Counter` with its items in text order.
unfoldable pub count_status : String → List (String × ℕ) → List (String × ℕ)
count_status s [] = (s, 1) ∷ []
count_status s ((t, n) ∷ counts) =
    if str_eq s t
    then (t, suc n) ∷ counts
    else if codes_lt (codes s) (codes t)
    then (s, 1) ∷ (t, n) ∷ counts
    else (t, n) ∷ count_status s counts

unfoldable pub status_counts : List EmploymentVersion → List (String × ℕ)
unfolding count_status
status_counts [] = []
status_counts (version ∷ versions) =
    count_status version.employment_status_code (status_counts versions)

-- The distinct pairs of person and employment.
unfoldable pub portfolio_keys : List AssignmentFact → List (ℕ × ℕ)
portfolio_keys [] = []
portfolio_keys (fact ∷ facts) =
    let rest = portfolio_keys facts in
    if any_of (λ key. key.0 == fact.person_record_id && key.1 == fact.employment_record_id) rest
    then rest
    else (fact.person_record_id, fact.employment_record_id) ∷ rest

unfoldable pub total_fte : List AssignmentFact → ℤ
total_fte [] = pos 0
total_fte (fact ∷ facts) = total_fte facts +ℤ fact.allocation_ratio

unfoldable pub build_workforce_composition_snapshot :
    List EmploymentVersion
    → List AssignmentFact
    → ℕ
    → ℕ
    → Datetime
    → Result Error WorkforceCompositionSnapshot
build_workforce_composition_snapshot employment_versions assignments tenant_record_id effective_on
      known_at =
    do
      guard (has_offset known_at) cutoff_not_aware
      validate_visible_employment_portfolios employment_versions tenant_record_id effective_on
          known_at
      employed ← visible_employments employment_versions tenant_record_id effective_on known_at
      staffed ← visible_assignments assignments tenant_record_id effective_on known_at
      for_each
          (λ assignment.
            validate_assignment_employment_coverage assignment employment_versions known_at)
          staffed
      for_each
          (λ key.
            validate_assignment_portfolio staffed tenant_record_id key.0 key.1 effective_on
              known_at)
          (portfolio_keys staffed)
      for_each
          (λ position_record_id.
            validate_position_seat_capacity staffed tenant_record_id position_record_id effective_on
              known_at)
          (distinct (map (λ fact. fact.position_record_id) staffed))
      let workforce_people = distinct (map (λ version. version.person_record_id) employed)
      let staffed_people = map (λ fact. fact.person_record_id) staffed
      composition_snapshot (record {
        tenant_record_id = tenant_record_id;
        effective_on = effective_on;
        known_at = known_at;
        person_headcount = length workforce_people;
        employment_count = length employed;
        staffed_assignment_count = length staffed;
        staffed_fte = total_fte staffed;
        unassigned_person_count =
            length (keep_if (λ p. not (any_of (◌==◌ p) staffed_people)) workforce_people);
        employment_status_counts = status_counts employed;
      })
