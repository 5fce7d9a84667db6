-- ===== src/People/Store/Assignment.antt =====
-- `PostgresPeopleMutationPort.create_assignment` of
-- services/people-api/src/orgmetra_people_api/postgres_mutations.py.
pub mod Check
pub mod Traces
pub mod Guarded
pub mod Laws
use orgmetra.Base.{ℕ, String, Option, none, some, List, [], ◌∷◌, ◌++◌, Result, ok, err}
use orgmetra.Base.Uuid.{concat, uuid_hex}
use orgmetra.Keyverse.Authorization.{AuthorizationDecision}
use orgmetra.Kernel.Intervals.{Datetime}
use orgmetra.Kernel.Assignment.{validate_assignment_write}
use orgmetra.People.Errors.{ServiceError, Outcome, type_error}
use orgmetra.People.Commands.Assignment.{
  Command, assignment, AssignmentMutationCommand, AssignmentMutationResult,
}
use orgmetra.People.Digest.{Platform}
use orgmetra.People.Store.{
  Driver, find_conversion, named_employment_versions, named_position_versions, existing_assignments,
  insert_assignment,
}
use orgmetra.People.Store.Session.{
  Session, Tx, ◌>>=◌, ◌>>◌, lift, return, caught, execute, perform, two, transaction,
}
use orgmetra.People.Store.Rows.{
  employment_version_from_row, position_version_from_row, assignment_from_row, read_rows,
  require_one_conversion,
}
use orgmetra.People.Store.Proposed.{proposed_assignment}
use orgmetra.People.Store.Writes.{
  authorized_transaction, require_authorization, replayed_record_id, record_idempotency,
  record_audit_event, created_event, post_lock_recorded_at, begin,
}

module _ (platform : Platform) {S : Type 0} (driver : Driver S) where
  -- The rule of the kernel over the stored facts and the proposed one, after the conversion and
  -- the position are locked; the instant at which it held.
  unfoldable pub check_assignment : AssignmentMutationCommand → Tx S Datetime
  check_assignment command = do
    rows ← execute driver (find_conversion command.tenant_record_id command.person_record_id)
    conversion ← lift (require_one_conversion (two driver rows))
    employment_rows ←
        execute driver
          (named_employment_versions command.tenant_record_id command.employment_record_id)
    employment_versions ←
        lift (read_rows (employment_version_from_row command.tenant_record_id) employment_rows)
    position_rows ←
        execute driver (named_position_versions command.tenant_record_id command.position_record_id)
    position_versions ←
        lift (read_rows (position_version_from_row command.tenant_record_id) position_rows)
    recorded_at ← post_lock_recorded_at platform driver
    assignment_rows ← execute driver (
        existing_assignments command.tenant_record_id command.employment_record_id
          command.position_record_id)
    existing ← lift (read_rows (assignment_from_row command.tenant_record_id) assignment_rows)
    proposed ← lift (proposed_assignment command recorded_at)
    lift (
        caught (
          validate_assignment_write proposed (existing ++ (proposed ∷ [])) employment_versions
            position_versions recorded_at))
    return recorded_at

  -- The writes of a command that was checked at an instant.
  unfoldable pub store_assignment :
      AssignmentMutationCommand → AuthorizationDecision → Datetime → Tx S (Unit {0})
  store_assignment command decision recorded_at = do
    perform driver (
        insert_assignment command.tenant_record_id command.assignment_record_id
          command.employment_record_id command.person_record_id command.position_record_id
          command.allocation_ratio command.effective_from recorded_at)
    event ← lift (
        created_event platform driver command.tenant_record_id command.audit_event_record_id
          command.assignment_record_id "assignment" decision command.evidence_version_code
          command.confirmation_reference recorded_at)
    record_audit_event platform driver command.tenant_record_id command.audit_event_record_id
        command.outbox_delivery_record_id event
    record_idempotency platform driver (assignment command) decision command.assignment_record_id

  -- The rest of the body: the record that the key is bound to, or a new one.
  unfoldable pub answer_assignment :
      AssignmentMutationCommand → AuthorizationDecision → Option ℕ → Tx S AssignmentMutationResult
  answer_assignment command decision replayed = elim replayed [
    | some created ↦ return (record { assignment_record_id = created })
    | none ↦ (do
      recorded_at ← check_assignment command
      store_assignment command decision recorded_at
      return (record { assignment_record_id = command.assignment_record_id }))
  ]

  -- The body of the transaction.
  unfoldable pub create_assignment_body :
      AssignmentMutationCommand → AuthorizationDecision → Tx S AssignmentMutationResult
  unfolding answer_assignment
  create_assignment_body command decision = do
    begin platform driver command.tenant_record_id
    replayed ← replayed_record_id platform driver (assignment command) decision
    answer_assignment command decision replayed

  unfoldable pub store_create_assignment :
      Command → Option AuthorizationDecision → S → Outcome S AssignmentMutationResult
  store_create_assignment (assignment command) authorization state =
      authorized_transaction
        (require_authorization authorization command.tenant_record_id
          (concat "assignment_record:" (uuid_hex command.assignment_record_id)) "assignment_record"
          ("assignment_record" ∷ []))
        (λ decision. transaction driver (create_assignment_body command decision) state) state
  store_create_assignment command authorization state =
      (state, err (type_error "command must be an AssignmentMutationCommand"))
