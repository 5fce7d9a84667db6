-- ===== src/People/Commands/Assignment.antt =====
-- The assignment command of services/people-api/src/orgmetra_people_api/mutations.py, the results,
-- and the commands together.
use orgmetra.Base.{ℕ, String, Result, ok, err, ◌>>=◌}
use orgmetra.Base.Int.{ℤ}
use orgmetra.Keyverse.Validation.{Error}
use orgmetra.People.Errors.{ServiceError, type_error}
use orgmetra.People.Commands.{
  Argument, validate_operational_uuid, validate_effective_from, validate_confirmation,
  validate_evidence_version, validate_idempotency_key, EmploymentMutationCommand,
  PositionMutationCommand,
}
use orgmetra.People.Commands.Ratio.{validate_allocation_ratio}

-- The ratio is in ten-thousandths, which an accepted ratio is a whole number of.
pub record AssignmentMutationCommand : Type 0 where
  pub tenant_record_id : ℕ
  pub employment_record_id : ℕ
  pub person_record_id : ℕ
  pub position_record_id : ℕ
  pub assignment_record_id : ℕ
  pub audit_event_record_id : ℕ
  pub outbox_delivery_record_id : ℕ
  pub allocation_ratio : ℤ
  pub effective_from : ℕ
  pub confirmation_reference : String
  pub evidence_version_code : String
  pub idempotency_key : String

unfoldable pub assignment_mutation_command :
    (tenant_record_id employment_record_id person_record_id position_record_id assignment_record_id
      audit_event_record_id outbox_delivery_record_id allocation_ratio effective_from
      confirmation_reference evidence_version_code idempotency_key : Argument)
    → Result Error AssignmentMutationCommand
assignment_mutation_command tenant_record_id employment_record_id person_record_id
      position_record_id assignment_record_id audit_event_record_id outbox_delivery_record_id
      allocation_ratio effective_from confirmation_reference evidence_version_code idempotency_key =
    do
      tenant ← validate_operational_uuid "tenant_record_id" tenant_record_id
      employment_id ← validate_operational_uuid "employment_record_id" employment_record_id
      person ← validate_operational_uuid "person_record_id" person_record_id
      position_id ← validate_operational_uuid "position_record_id" position_record_id
      assignment_id ← validate_operational_uuid "assignment_record_id" assignment_record_id
      event ← validate_operational_uuid "audit_event_record_id" audit_event_record_id
      delivery ← validate_operational_uuid "outbox_delivery_record_id" outbox_delivery_record_id
      start ← validate_effective_from effective_from
      ratio ← validate_allocation_ratio allocation_ratio
      confirmation ← validate_confirmation confirmation_reference
      evidence ← validate_evidence_version evidence_version_code
      key ← validate_idempotency_key idempotency_key
      ok (record {
        tenant_record_id = tenant;
        employment_record_id = employment_id;
        person_record_id = person;
        position_record_id = position_id;
        assignment_record_id = assignment_id;
        audit_event_record_id = event;
        outbox_delivery_record_id = delivery;
        allocation_ratio = ratio;
        effective_from = start;
        confirmation_reference = confirmation;
        evidence_version_code = evidence;
        idempotency_key = key;
      })

-- What an operation may be given as its command.
pub data Command : Type 0 where
  employment : EmploymentMutationCommand → Command
  position : PositionMutationCommand → Command
  assignment : AssignmentMutationCommand → Command
  another : Command

unfoldable pub command_route : Command → Result ServiceError String
command_route (employment c) = ok "employment-records"
command_route (position c) = ok "position-records"
command_route (assignment c) = ok "assignment-records"
command_route another = err (type_error "command must be a governed People mutation command")

pub record EmploymentMutationResult : Type 0 where
  pub employment_record_id : ℕ

pub record PositionMutationResult : Type 0 where
  pub position_record_id : ℕ

pub record AssignmentMutationResult : Type 0 where
  pub assignment_record_id : ℕ

unfoldable pub employment_mutation_result : Argument → Result Error EmploymentMutationResult
employment_mutation_result employment_record_id = do
  id ← validate_operational_uuid "employment_record_id" employment_record_id
  ok (record { employment_record_id = id })

unfoldable pub position_mutation_result : Argument → Result Error PositionMutationResult
position_mutation_result position_record_id = do
  id ← validate_operational_uuid "position_record_id" position_record_id
  ok (record { position_record_id = id })

unfoldable pub assignment_mutation_result : Argument → Result Error AssignmentMutationResult
assignment_mutation_result assignment_record_id = do
  id ← validate_operational_uuid "assignment_record_id" assignment_record_id
  ok (record { assignment_record_id = id })
