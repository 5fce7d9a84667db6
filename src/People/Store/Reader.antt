-- ===== src/People/Store/Reader.antt =====
-- `PostgresPeopleReadPort` of services/people-api/src/orgmetra_people_api/postgres.py.
pub mod Laws
mod Tests
use orgmetra.Base.{ℕ, Option, List, Result, ok, err}
use orgmetra.People.Commands.{Argument, uuid}
use orgmetra.People.Errors.{ServiceError, Outcome}
use orgmetra.People.Reading.{WorkerPeopleRecord}
use orgmetra.People.Digest.{Platform}
use orgmetra.People.Store.{Driver, Row, read_only, tenant_context, worker_at}
use orgmetra.People.Store.Session.{Tx, ◌>>=◌, ◌>>◌, return, execute, perform, two, transaction}
use orgmetra.People.Store.WorkerRows.{read_target, worker_from_rows}

module _ (platform : Platform) {S : Type 0} (driver : Driver S) where
  -- The body of the transaction.
  unfoldable pub read_worker_body : (tenant person : ℕ) → Argument → Tx S (List Row)
  read_worker_body tenant person effective_on = do
    perform driver read_only
    perform driver (tenant_context tenant)
    rows ← execute driver (worker_at tenant person effective_on)
    return (two driver rows)

  -- What is done with the rows after the transaction.
  abbrev pub found_worker :
      (tenant person : ℕ) → Outcome S (List Row) → Outcome S (Option WorkerPeopleRecord)
  found_worker tenant person (after, err raised) = (after, err raised)
  found_worker tenant person (after, ok rows) =
      (after, worker_from_rows platform.is_space tenant person rows)

  abbrev pub read_target_of :
      Result ServiceError (ℕ × ℕ × Argument) → S → Outcome S (Option WorkerPeopleRecord)
  read_target_of (err raised) state = (state, err raised)
  read_target_of (ok (tenant, person, on)) state =
      found_worker tenant person (transaction driver (read_worker_body tenant person on) state)

  unfoldable pub store_read_worker :
      (tenant_record_id person_record_id effective_on : Argument)
      → S
      → Outcome S (Option WorkerPeopleRecord)
  store_read_worker tenant_record_id person_record_id effective_on state =
      read_target_of (read_target tenant_record_id person_record_id effective_on) state

  abbrev pub read_port : ℕ → ℕ → Argument → S → Outcome S (Option WorkerPeopleRecord)
  read_port tenant person effective_on state =
      store_read_worker (uuid tenant) (uuid person) effective_on state
