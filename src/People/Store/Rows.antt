-- ===== src/People/Store/Rows.antt =====
-- The rows of services/people-api/src/orgmetra_people_api/postgres_mutations.py, read as the
-- kernel's facts. Every failed test of a row raises the one error of its kind.
pub mod Laws
use orgmetra.Base.{
  str_eq, ℕ, String, Bool, not, ◌||◌, Option, none, some, List, [], ◌∷◌, ◌==◌, if◌then◌else◌,
  Result, ok, err, ◌>>=◌,
}
use orgmetra.Base.Int.{ℤ}
use orgmetra.Base.Uuid.{max_uuid}
use orgmetra.Kernel.Intervals.{Datetime, has_offset, date_interval, recorded_interval}
use orgmetra.Kernel.Facts.{EmploymentVersion, PositionVersion, AssignmentFact}
use orgmetra.Kernel.Values.{Cell, uuid, text, day, stamp, decimal, nothing}
use orgmetra.People.Errors.{ServiceError, people_mutation_integrity_error}
use orgmetra.People.Store.{Row}
use orgmetra.People.Store.Session.{from_kernel}

-- `_is_operational_uuid`, with the UUID.
unfoldable pub operational_uuid : ServiceError → Cell → Result ServiceError ℕ
operational_uuid error (uuid n) = if n == 0 || n == max_uuid then err error else ok n
operational_uuid error _ = err error

abbrev pub cell_text : ServiceError → Cell → Result ServiceError String
cell_text error (text s) = ok s
cell_text error _ = err error

abbrev pub cell_day : ServiceError → Cell → Result ServiceError ℕ
cell_day error (day d) = ok d
cell_day error _ = err error

abbrev pub cell_optional_day : ServiceError → Cell → Result ServiceError (Option ℕ)
cell_optional_day error nothing = ok none
cell_optional_day error (day d) = ok (some d)
cell_optional_day error _ = err error

-- `_is_aware_datetime`, with the datetime.
unfoldable pub aware_datetime : ServiceError → Cell → Result ServiceError Datetime
aware_datetime error (stamp t) = if has_offset t then ok t else err error
aware_datetime error _ = err error

abbrev pub optional_datetime : ServiceError → Cell → Result ServiceError (Option Datetime)
optional_datetime error nothing = ok none
optional_datetime error cell = do t ← aware_datetime error cell; ok (some t)

abbrev pub cell_decimal : ServiceError → Cell → Result ServiceError ℤ
cell_decimal error (decimal ratio) = ok ratio
cell_decimal error _ = err error

abbrev pub employment_shape : ServiceError
employment_shape = people_mutation_integrity_error "employment version row has an invalid shape"

abbrev pub invalid_employment : ServiceError
invalid_employment = people_mutation_integrity_error "employment version row is invalid"

unfoldable pub employment_version_from_row : ℕ → Row → Result ServiceError EmploymentVersion
employment_version_from_row tenant
      (employment_cell ∷ version_cell ∷ person_cell ∷ status_cell ∷ concurrency_cell ∷ from_cell
        ∷ to_cell ∷ recorded_from ∷ recorded_to ∷ []) =
    do
      employment ← operational_uuid invalid_employment employment_cell
      version ← operational_uuid invalid_employment version_cell
      person ← operational_uuid invalid_employment person_cell
      status ← cell_text invalid_employment status_cell
      concurrency ← cell_text invalid_employment concurrency_cell
      effective_from ← cell_day invalid_employment from_cell
      effective_to ← cell_optional_day invalid_employment to_cell
      start ← aware_datetime invalid_employment recorded_from
      end ← optional_datetime invalid_employment recorded_to
      effective ← from_kernel (date_interval effective_from effective_to)
      recorded ← from_kernel (recorded_interval start end)
      ok (record {
        tenant_record_id = tenant;
        employment_record_id = employment;
        employment_record_version_id = version;
        person_record_id = person;
        employment_status_code = status;
        effective = effective;
        recorded = recorded;
        employment_concurrency_code = concurrency;
      })
employment_version_from_row tenant row = err employment_shape

abbrev pub position_shape : ServiceError
position_shape = people_mutation_integrity_error "position version row has an invalid shape"

abbrev pub invalid_position : ServiceError
invalid_position = people_mutation_integrity_error "position version row is invalid"

unfoldable pub position_version_from_row : ℕ → Row → Result ServiceError PositionVersion
position_version_from_row tenant
      (position_cell ∷ version_cell ∷ status_cell ∷ from_cell ∷ to_cell ∷ recorded_from
        ∷ recorded_to ∷ []) =
    do
      position ← operational_uuid invalid_position position_cell
      version ← operational_uuid invalid_position version_cell
      status ← cell_text invalid_position status_cell
      effective_from ← cell_day invalid_position from_cell
      effective_to ← cell_optional_day invalid_position to_cell
      start ← aware_datetime invalid_position recorded_from
      end ← optional_datetime invalid_position recorded_to
      effective ← from_kernel (date_interval effective_from effective_to)
      recorded ← from_kernel (recorded_interval start end)
      ok (record {
        tenant_record_id = tenant;
        position_record_id = position;
        position_record_version_id = version;
        position_status_code = status;
        effective = effective;
        recorded = recorded;
      })
position_version_from_row tenant row = err position_shape

abbrev pub assignment_shape : ServiceError
assignment_shape = people_mutation_integrity_error "assignment row has an invalid shape"

abbrev pub invalid_assignment : ServiceError
invalid_assignment = people_mutation_integrity_error "assignment row is invalid"

unfoldable pub assignment_from_row : ℕ → Row → Result ServiceError AssignmentFact
assignment_from_row tenant
      (assignment_cell ∷ employment_cell ∷ person_cell ∷ position_cell ∷ ratio_cell ∷ from_cell
        ∷ to_cell ∷ recorded_from ∷ recorded_to ∷ []) =
    do
      assignment ← operational_uuid invalid_assignment assignment_cell
      employment ← operational_uuid invalid_assignment employment_cell
      person ← operational_uuid invalid_assignment person_cell
      position ← operational_uuid invalid_assignment position_cell
      ratio ← cell_decimal invalid_assignment ratio_cell
      effective_from ← cell_day invalid_assignment from_cell
      effective_to ← cell_optional_day invalid_assignment to_cell
      start ← aware_datetime invalid_assignment recorded_from
      end ← optional_datetime invalid_assignment recorded_to
      effective ← from_kernel (date_interval effective_from effective_to)
      recorded ← from_kernel (recorded_interval start end)
      ok (record {
        tenant_record_id = tenant;
        assignment_record_id = assignment;
        employment_record_id = employment;
        person_record_id = person;
        position_record_id = position;
        allocation_ratio = ratio;
        effective = effective;
        recorded = recorded;
      })
assignment_from_row tenant row = err assignment_shape

-- `[… for row in cursor.fetchall()]`
unfoldable pub read_rows {ℓ} :
    {A : Type ℓ} → (Row → Result ServiceError A) → List Row → Result ServiceError (List A)
read_rows read [] = ok []
read_rows read (row ∷ rows) = do fact ← read row; rest ← read_rows read rows; ok (fact ∷ rest)

unfoldable pub require_one_conversion : List Row → Result ServiceError (ℕ × Datetime)
require_one_conversion [] =
    err (people_mutation_integrity_error "person has no governed candidate-worker conversion")
require_one_conversion ((id_cell ∷ at_cell ∷ []) ∷ []) = do
  conversion ←
      operational_uuid
        (people_mutation_integrity_error "conversion identity or transaction time is invalid")
        id_cell
  recorded_at ←
      aware_datetime
        (people_mutation_integrity_error "conversion identity or transaction time is invalid")
        at_cell
  ok (conversion, recorded_at)
require_one_conversion (row ∷ []) =
    err (people_mutation_integrity_error "conversion row has an invalid shape")
require_one_conversion rows =
    err (people_mutation_integrity_error "multiple candidate-worker conversions matched the person")

-- The row of the clock, `_post_lock_recorded_at`.
unfoldable pub clock_instant : List Row → Result ServiceError Datetime
clock_instant ((cell ∷ []) ∷ []) =
    aware_datetime (people_mutation_integrity_error "post-lock database clock row is invalid") cell
clock_instant rows = err (people_mutation_integrity_error "post-lock database clock row is invalid")

-- The rows of the idempotency relation, against the digest of the command.
unfoldable pub replayed_from_rows : String → List Row → Result ServiceError (Option ℕ)
replayed_from_rows digest [] = ok none
replayed_from_rows digest ((created_cell ∷ digest_cell ∷ []) ∷ []) = do
  created ←
      operational_uuid (people_mutation_integrity_error "idempotency row is invalid") created_cell
  stored ← cell_text (people_mutation_integrity_error "idempotency row is invalid") digest_cell
  if str_eq stored digest
      then ok (some created)
      else err (people_mutation_integrity_error "idempotency key is bound to a different command")
replayed_from_rows digest rows = err (people_mutation_integrity_error "idempotency row is invalid")
