-- ===== src/People/Store.antt =====
-- The connection of postgres.py, postgres_mutations.py and postgres_hire.py in
-- services/people-api/src/orgmetra_people_api: its statements, a cursor and a transaction.
--
-- The database is code that is not here: it is a `Driver` over any state `S`, and what it does with
-- a statement is a parameter. A row is its cells. The session keeps the statements that the cursor
-- executed, the latest first.
pub mod Session
pub mod Rows
pub mod Steps
pub mod Executed
pub mod Guarded
pub mod Writes
pub mod Proposed
pub mod Employment
pub mod Position
pub mod Assignment
pub mod Replay
pub mod Port
pub mod Provenance
pub mod Hire
pub mod WorkerRows
pub mod Reader
pub mod Samples
mod Tests
use orgmetra.Base.{err, ok, ◌≡◌, ℕ, String, List}
use orgmetra.People.Commands.{Argument}
use orgmetra.Base.Int.{ℤ}
use orgmetra.Kernel.Intervals.{Datetime}
use orgmetra.Kernel.Values.{Cell}
use orgmetra.People.Errors.{ServiceError, Outcome}
use orgmetra.People.Digest.{CommandKey}

abbrev pub Row : Type 0
Row = List Cell

-- The SQL texts of the module, each with its parameters in their order.
pub data Statement : Type 0 where
  read_write clock : Statement
  tenant_context : ℕ → Statement
  lock_key read_key : CommandKey → Statement
  insert_key : (tenant idempotency_id : ℕ) → (route key digest : String) → (created : ℕ) → Statement
  find_conversion : (tenant person : ℕ) → Statement
  employment_versions_of : (tenant person : ℕ) → Statement
  insert_employment : (tenant employment person : ℕ) → Datetime → Statement
  insert_employment_version :
      (tenant version employment : ℕ)
      → (status concurrency : String) → (effective_from : ℕ) → Datetime
      → Statement
  position_parents : (job_profile tenant organization_unit : ℕ) → Statement
  insert_position : (tenant position organization_unit job_profile : ℕ) → Datetime → Statement
  insert_position_version :
      (tenant version position : ℕ)
      → (status : String) → (effective_from : ℕ) → Datetime
      → Statement
  named_employment_versions : (tenant employment : ℕ) → Statement
  named_position_versions : (tenant position : ℕ) → Statement
  existing_assignments : (tenant employment position : ℕ) → Statement
  insert_assignment :
      (tenant assignment employment person position : ℕ)
      → ℤ
      → (effective_from : ℕ) → Datetime
      → Statement
  decision_provenance : (tenant selection_decision candidate : ℕ) → Statement
  insert_person : (tenant person : ℕ) → Datetime → Statement
  insert_person_name :
      (tenant person_name person : ℕ)
      → (display_name : String) → (effective_from : ℕ) → Datetime
      → Statement
  insert_hired_version :
      (tenant version employment : ℕ)
      → (status : String) → (effective_from : ℕ) → Datetime
      → Statement
  insert_conversion :
      (tenant conversion candidate person employment selection_decision event : ℕ)
      → (effective_from : ℕ) → Datetime
      → Statement
  read_only : Statement
  worker_at : (tenant person : ℕ) → (effective_on : Argument) → Statement
  record_audit :
      (tenant event delivery : ℕ) → (envelope : List ℕ) → (digest topic : String) → Statement

-- A connection: what a statement does and returns, and what the exit of the context manager does
-- with the state before the transaction and the state that its statements left.
pub record Driver (S : Type 0) : Type 0 where
  pub run : Statement → S → Outcome S (List Row)
  pub commit : S → S → Outcome S (Unit {0})
  pub rollback : S → S → S
