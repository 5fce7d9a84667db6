-- ===== src/People/Mutations.antt =====
-- The governed writes of services/people-api/src/orgmetra_people_api/mutations.py.
--
-- The mutation port is code of another layer: its three operations are functions of the section,
-- over any state `S` of the store; none stands for an object that does not implement the port.
use orgmetra.Base.{ℕ, String, Option, none, some, [], ◌∷◌, Result, err}
use orgmetra.Keyverse.Authorization.{PurposeBoundAccessPolicy, AuthorizationDecision}
use orgmetra.People.Errors.{ServiceError, type_error, Outcome, call_authorized}
use orgmetra.Base.Uuid.{concat, uuid_hex}
use orgmetra.People.Auth.{AuthenticatedPrincipal}
use orgmetra.People.Authorization.{authorize_resource_fields}
use orgmetra.People.Commands.{EmploymentMutationCommand, PositionMutationCommand}
use orgmetra.People.Commands.Assignment.{
  AssignmentMutationCommand, Command, employment, position, assignment, EmploymentMutationResult,
  PositionMutationResult, AssignmentMutationResult,
}

pub record PeopleMutationPort (S : Type 0) : Type 0 where
  pub create_employment :
      EmploymentMutationCommand
      → AuthorizationDecision
      → S
      → Outcome S (Option EmploymentMutationResult)
  pub create_position :
      PositionMutationCommand
      → AuthorizationDecision
      → S
      → Outcome S (Option PositionMutationResult)
  pub create_assignment :
      AssignmentMutationCommand
      → AuthorizationDecision
      → S
      → Outcome S (Option AssignmentMutationResult)

-- `authorize_resource_fields(…)` as a write calls it: the tenant of the command is the tenant of
-- the context and of the resource, and the one field is the resource kind.
abbrev pub authorize_write :
    AuthenticatedPrincipal
    → (tenant_record_id record_id : ℕ) → (kind purpose_code : String) → PurposeBoundAccessPolicy
    → Result ServiceError AuthorizationDecision
authorize_write principal tenant_record_id record_id kind purpose_code policy =
    authorize_resource_fields principal tenant_record_id tenant_record_id
      (concat kind (concat ":" (uuid_hex record_id))) purpose_code "create_record" kind (kind ∷ [])
      policy

module _ {S : Type 0} where
  unfoldable pub create_employment_record :
      AuthenticatedPrincipal
      → Command
      → String
      → PurposeBoundAccessPolicy
      → Option (PeopleMutationPort S)
      → S
      → Outcome S EmploymentMutationResult
  create_employment_record principal (employment command) purpose_code policy (some port) state =
      call_authorized "mutation_port must return EmploymentMutationResult"
        (authorize_write principal command.tenant_record_id command.employment_record_id
          "employment_record" purpose_code policy)
        (λ authorization. port.create_employment command authorization state) state
  create_employment_record principal (employment command) purpose_code policy none state =
      (state, err (type_error "mutation_port must implement PeopleMutationPort"))
  create_employment_record principal command purpose_code policy mutation_port state =
      (state, err (type_error "command must be an EmploymentMutationCommand"))

  unfoldable pub create_position_record :
      AuthenticatedPrincipal
      → Command
      → String
      → PurposeBoundAccessPolicy
      → Option (PeopleMutationPort S)
      → S
      → Outcome S PositionMutationResult
  create_position_record principal (position command) purpose_code policy (some port) state =
      call_authorized "mutation_port must return PositionMutationResult"
        (authorize_write principal command.tenant_record_id command.position_record_id
          "position_record" purpose_code policy)
        (λ authorization. port.create_position command authorization state) state
  create_position_record principal (position command) purpose_code policy none state =
      (state, err (type_error "mutation_port must implement PeopleMutationPort"))
  create_position_record principal command purpose_code policy mutation_port state =
      (state, err (type_error "command must be a PositionMutationCommand"))

  unfoldable pub create_assignment_record :
      AuthenticatedPrincipal
      → Command
      → String
      → PurposeBoundAccessPolicy
      → Option (PeopleMutationPort S)
      → S
      → Outcome S AssignmentMutationResult
  create_assignment_record principal (assignment command) purpose_code policy (some port) state =
      call_authorized "mutation_port must return AssignmentMutationResult"
        (authorize_write principal command.tenant_record_id command.assignment_record_id
          "assignment_record" purpose_code policy)
        (λ authorization. port.create_assignment command authorization state) state
  create_assignment_record principal (assignment command) purpose_code policy none state =
      (state, err (type_error "mutation_port must implement PeopleMutationPort"))
  create_assignment_record principal command purpose_code policy mutation_port state =
      (state, err (type_error "command must be an AssignmentMutationCommand"))
