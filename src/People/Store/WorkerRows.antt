-- ===== src/People/Store/WorkerRows.antt =====
-- What services/people-api/src/orgmetra_people_api/postgres.py computes outside its cursor: the
-- checks of the target, and the record of a row.
--
-- The unpacking of a row of another length raises Python's ValueError, whose message is not kept.
use orgmetra.Base.{
  Bool, ℕ, not, ◌||◌, Option, none, some, List, [], ◌∷◌, ◌==◌, if◌then◌else◌, Result, ok, err,
  ◌>>=◌,
}
use orgmetra.Keyverse.Validation.{value_error}
use orgmetra.Kernel.Values as Cells
use orgmetra.Kernel.Values.{Cell}
use orgmetra.People.Errors.{ServiceError, checked, invalid, people_record_integrity_error}
use orgmetra.People.Commands.{Argument, uuid, day, text, moment, other, validate_operational_uuid}
use orgmetra.People.Reading.{WorkerPeopleRecord, worker_people_record, validate_effective_on}
use orgmetra.People.Store.{Row}

-- A cell as an argument of a constructor, which tests for identifiers and texts only.
abbrev pub argument_of : Cell → Argument
argument_of (Cells.uuid n) = uuid n
argument_of (Cells.text s) = text s
argument_of (Cells.day d) = day d
argument_of (Cells.stamp t) = moment
argument_of _ = other

-- The three checks before the connection is opened.
unfoldable pub read_target :
    (tenant_record_id person_record_id effective_on : Argument)
    → Result ServiceError (ℕ × ℕ × Argument)
read_target tenant_record_id person_record_id effective_on = do
  tenant ← checked (validate_operational_uuid "tenant_record_id" tenant_record_id)
  person ← checked (validate_operational_uuid "person_record_id" person_record_id)
  on ← checked (validate_effective_on effective_on)
  ok (tenant, person, on)

module _ (is_space : ℕ → Bool) (tenant person : ℕ) where
  unfoldable pub worker_from_row : Row → Result ServiceError WorkerPeopleRecord
  worker_from_row
        (row_tenant ∷ conversion ∷ profile ∷ row_person ∷ employment ∷ name ∷ status ∷ []) =
      do
        worker ← checked (
            worker_people_record is_space (argument_of row_tenant) (argument_of conversion)
              (argument_of profile) (argument_of row_person) (argument_of employment)
              (argument_of name) (argument_of status))
        if not (worker.tenant_record_id == tenant) || not (worker.person_record_id == person)
            then err (people_record_integrity_error "database row escaped requested target")
            else ok worker
  worker_from_row row = err (invalid (value_error "row" "does not have seven columns"))

  unfoldable pub worker_from_rows : List Row → Result ServiceError (Option WorkerPeopleRecord)
  worker_from_rows [] = ok none
  worker_from_rows (row ∷ []) = do worker ← worker_from_row row; ok (some worker)
  worker_from_rows (a ∷ b ∷ rows) =
      err
        (people_record_integrity_error "multiple current worker records match the requested target")
