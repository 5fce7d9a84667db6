-- ===== src/Kernel/Employment.antt =====
-- packages/hris-kernel/src/orgmetra_hris_kernel/employment.py.
pub mod Laws
mod Tests
use orgmetra.Base.{
  ℕ, String, Bool, true, false, not, ◌&&◌, List, [], ◌∷◌, any_of, keep_if, str_eq, ◌==◌,
  if◌then◌else◌, Result, ok, err, ◌>>=◌, ◌>>◌, guard, select, for_each, for_pairs,
}
use orgmetra.Kernel.Errors.{Error, employment_exclusivity_error}
use orgmetra.Kernel.Intervals.{Datetime, overlaps, recorded_contains}
use orgmetra.Kernel.Facts.{EmploymentVersion}

abbrev pub known_concurrency : List String
known_concurrency = "exclusive" ∷ "concurrent" ∷ []

abbrev pub unknown_concurrency : Error
unknown_concurrency =
    employment_exclusivity_error "employment_concurrency_code must be exclusive or concurrent."

abbrev pub two_exclusive : Error
two_exclusive =
    employment_exclusivity_error "Two exclusive employments overlap for one person in this tenant."

abbrev pub of_person : ℕ → ℕ → EmploymentVersion → Bool
of_person tenant_record_id person_record_id version =
    version.tenant_record_id == tenant_record_id && version.person_record_id == person_record_id

-- `_KNOWN_CONCURRENCY` holds the code, or the first loop raises.
unfoldable pub check_concurrency : EmploymentVersion → Result Error (Unit {0})
check_concurrency version =
    guard (any_of (str_eq version.employment_concurrency_code) known_concurrency)
      unknown_concurrency

unfoldable pub is_visible_exclusive : Datetime → EmploymentVersion → Result Error Bool
is_visible_exclusive known_at version = do
  known ← recorded_contains version.recorded known_at
  ok (known && str_eq version.employment_concurrency_code "exclusive")

-- The body of the nested loops.
unfoldable pub check_exclusive_pair :
    EmploymentVersion → EmploymentVersion → Result Error (Unit {0})
check_exclusive_pair left right =
    if left.employment_record_id == right.employment_record_id
    then ok tt
    else guard (not (overlaps left.effective right.effective)) two_exclusive

unfoldable pub validate_person_employment_exclusivity :
    List EmploymentVersion → ℕ → ℕ → Datetime → Result Error (Unit {0})
validate_person_employment_exclusivity employment_versions tenant_record_id person_record_id
      known_at =
    do
      let scoped = keep_if (of_person tenant_record_id person_record_id) employment_versions
      for_each check_concurrency scoped
      visible_exclusive ← select (is_visible_exclusive known_at) scoped
      for_pairs check_exclusive_pair visible_exclusive
