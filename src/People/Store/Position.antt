-- ===== src/People/Store/Position.antt =====
-- `PostgresPeopleMutationPort.create_position` of
-- services/people-api/src/orgmetra_people_api/postgres_mutations.py.
use orgmetra.Base.{
  ℕ, Bool, not, ◌||◌, Option, none, some, List, [], ◌∷◌, ◌==◌, if◌then◌else◌, Result, err, false,
}
use orgmetra.Base.Uuid.{concat, uuid_hex}
use orgmetra.Keyverse.Authorization.{AuthorizationDecision}
use orgmetra.Kernel.Intervals.{Datetime}
use orgmetra.Kernel.Values.{Cell, uuid}
use orgmetra.People.Errors.{
  ServiceError, Outcome, type_error, people_mutation_integrity_error, people_mutation_not_found,
}
use orgmetra.People.Commands.{PositionMutationCommand}
use orgmetra.People.Commands.Assignment.{Command, position, PositionMutationResult}
use orgmetra.People.Digest.{Platform}
use orgmetra.People.Store.{Driver, Row, position_parents, insert_position, insert_position_version}
use orgmetra.People.Store.Session.{
  Tx, ◌>>=◌, ◌>>◌, lift, return, execute, perform, two, transaction,
}
use orgmetra.People.Store.Rows.{aware_datetime}
use orgmetra.People.Store.Writes.{
  authorized_transaction, require_authorization, replayed_record_id, record_idempotency,
  record_audit_event, created_event, begin,
}

abbrev pub invalid_parents : ServiceError
invalid_parents = people_mutation_integrity_error "position parent identity is invalid"

-- `cell == id`
abbrev pub is_uuid : Cell → ℕ → Bool
is_uuid (uuid n) id = n == id
is_uuid _ id = false

-- The parents' row; the instant of the transaction.
unfoldable pub position_parents_from_rows :
    PositionMutationCommand → List Row → Result ServiceError Datetime
position_parents_from_rows command [] =
    err (people_mutation_not_found "organization unit or job profile was not found")
position_parents_from_rows command ((unit_cell ∷ job_cell ∷ at_cell ∷ []) ∷ []) =
    if not (is_uuid unit_cell command.organization_unit_id)
      || not (is_uuid job_cell command.job_profile_id)
    then err invalid_parents
    else aware_datetime invalid_parents at_cell
position_parents_from_rows command rows =
    err (people_mutation_integrity_error "position parent row is invalid")

module _ (platform : Platform) {S : Type 0} (driver : Driver S) where
  -- The writes of a command at an instant.
  unfoldable pub store_position :
      PositionMutationCommand → AuthorizationDecision → Datetime → Tx S (Unit {0})
  store_position command decision recorded_at = do
    perform driver (
        insert_position command.tenant_record_id command.position_record_id
          command.organization_unit_id command.job_profile_id recorded_at)
    perform driver (
        insert_position_version command.tenant_record_id command.position_record_version_id
          command.position_record_id command.position_status_code command.effective_from
          recorded_at)
    event ← lift (
        created_event platform driver command.tenant_record_id command.audit_event_record_id
          command.position_record_id "position" decision command.evidence_version_code
          command.confirmation_reference recorded_at)
    record_audit_event platform driver command.tenant_record_id command.audit_event_record_id
        command.outbox_delivery_record_id event
    record_idempotency platform driver (position command) decision command.position_record_id

  -- The rest of the body: the record that the key is bound to, or a new one.
  unfoldable pub answer_position :
      PositionMutationCommand → AuthorizationDecision → Option ℕ → Tx S PositionMutationResult
  unfolding position_parents_from_rows
  answer_position command decision replayed = elim replayed [
    | some created ↦ return (record { position_record_id = created })
    | none ↦ (do
      rows ← execute driver (
          position_parents command.job_profile_id command.tenant_record_id
            command.organization_unit_id)
      recorded_at ← lift (position_parents_from_rows command (two driver rows))
      store_position command decision recorded_at
      return (record { position_record_id = command.position_record_id }))
  ]

  -- The body of the transaction.
  unfoldable pub create_position_body :
      PositionMutationCommand → AuthorizationDecision → Tx S PositionMutationResult
  unfolding answer_position
  create_position_body command decision = do
    begin platform driver command.tenant_record_id
    replayed ← replayed_record_id platform driver (position command) decision
    answer_position command decision replayed

  unfoldable pub store_create_position :
      Command → Option AuthorizationDecision → S → Outcome S PositionMutationResult
  store_create_position (position command) authorization state =
      authorized_transaction
        (require_authorization authorization command.tenant_record_id
          (concat "position_record:" (uuid_hex command.position_record_id)) "position_record"
          ("position_record" ∷ []))
        (λ decision. transaction driver (create_position_body command decision) state) state
  store_create_position command authorization state =
      (state, err (type_error "command must be a PositionMutationCommand"))
