-- ===== src/People/Store/Hire.antt =====
-- `PostgresHireAcceptancePort` of services/people-api/src/orgmetra_people_api/postgres_hire.py.
pub mod Outcomes
pub mod Traces
pub mod Laws
pub mod Guarded
mod Tests
use orgmetra.Base.{ℕ, String, Option, none, some, List, Result, ok, err}
use orgmetra.Keyverse.Authorization.{AuthorizationDecision}
use orgmetra.Kernel.Audit.{AuditOutboxEvent}
use orgmetra.Kernel.Intervals.{Datetime}
use orgmetra.People.Errors.{Outcome, type_error}
use orgmetra.People.Hire.{HireAcceptanceCommand, HireAcceptanceResult, HireAcceptancePort}
use orgmetra.People.Digest.{Platform, idempotency_record_id}
use orgmetra.People.Store.{
  Driver, lock_key, read_key, insert_key, decision_provenance, insert_person, insert_person_name,
  insert_employment, insert_hired_version, insert_conversion,
}
use orgmetra.People.Store.Session.{
  Tx, ◌>>=◌, ◌>>◌, lift, return, execute, perform, two, transaction,
}
use orgmetra.People.Store.Writes.{authorized_transaction, record_audit_event, begin}
use orgmetra.People.Store.Provenance.{
  validate_hire_authorization, hire_key, hire_command_digest, hire_result, hire_replayed_from_rows,
  Provenance, provenance_from_rows, hire_event,
}
use orgmetra.People.Store.Port.{as_answer}

module _ (platform : Platform) {S : Type 0} (driver : Driver S) where
  -- `_replayed_hire`
  unfoldable pub replayed_hire :
      HireAcceptanceCommand → AuthorizationDecision → Tx S (Option HireAcceptanceResult)
  replayed_hire command authorization = do
    perform driver (lock_key (hire_key command))
    rows ← execute driver (read_key (hire_key command))
    lift (
        hire_replayed_from_rows command (hire_command_digest platform command authorization)
          (two driver rows))

  -- `_record_hire_idempotency`
  unfoldable pub record_hire_idempotency :
      HireAcceptanceCommand → AuthorizationDecision → Tx S (Unit {0})
  record_hire_idempotency command authorization = perform driver (
      insert_key command.tenant_record_id (idempotency_record_id platform (hire_key command))
        "candidate-worker-conversions" command.idempotency_key
        (hire_command_digest platform command authorization)
        command.candidate_worker_conversion_record_id)

  -- The inserts of a confirmed hire, with its audit pair.
  unfoldable pub store_hire :
      HireAcceptanceCommand → AuthorizationDecision → Datetime → AuditOutboxEvent → Tx S (Unit {0})
  store_hire command decision recorded_at event = do
    perform driver (insert_person command.tenant_record_id command.person_record_id recorded_at)
    perform driver (
        insert_person_name command.tenant_record_id command.person_name_record_id
          command.person_record_id command.display_name command.effective_from recorded_at)
    perform driver (
        insert_employment command.tenant_record_id command.employment_record_id
          command.person_record_id recorded_at)
    perform driver (
        insert_hired_version command.tenant_record_id command.employment_record_version_id
          command.employment_record_id command.employment_status_code command.effective_from
          recorded_at)
    record_audit_event platform driver command.tenant_record_id command.audit_event_record_id
        command.outbox_delivery_record_id event
    perform driver (
        insert_conversion command.tenant_record_id command.candidate_worker_conversion_record_id
          command.candidate_profile_id command.person_record_id command.employment_record_id
          command.selection_decision_id command.audit_event_record_id command.effective_from
          recorded_at)
    record_hire_idempotency command decision

  -- The rest of the body: the hire that the key is bound to, or a new one.
  unfoldable pub answer_hire :
      HireAcceptanceCommand
      → AuthorizationDecision
      → Option HireAcceptanceResult
      → Tx S HireAcceptanceResult
  answer_hire command decision replayed = elim replayed [
    | some result ↦ return result
    | none ↦ (do
      rows ← execute driver (
          decision_provenance command.tenant_record_id command.selection_decision_id
            command.candidate_profile_id)
      provenance ← lift (provenance_from_rows platform command decision (two driver rows))
      event ← lift (hire_event platform command decision provenance)
      store_hire command decision provenance.recorded_at event
      return (hire_result command))
  ]

  -- The body of the transaction.
  unfoldable pub accept_hire_body :
      HireAcceptanceCommand → AuthorizationDecision → Tx S HireAcceptanceResult
  unfolding answer_hire
  accept_hire_body command decision = do
    begin platform driver command.tenant_record_id
    replayed ← replayed_hire command decision
    answer_hire command decision replayed

  -- A command of none is an object of another class.
  unfoldable pub store_accept_hire :
      Option HireAcceptanceCommand
      → Option AuthorizationDecision
      → S
      → Outcome S HireAcceptanceResult
  store_accept_hire (some command) authorization state =
      authorized_transaction (validate_hire_authorization command authorization)
        (λ decision. transaction driver (accept_hire_body command decision) state) state
  store_accept_hire none authorization state =
      (state, err (type_error "command must be a HireAcceptanceCommand"))

  abbrev pub hire_port : HireAcceptancePort S
  hire_port command decision state =
      as_answer (store_accept_hire (some command) (some decision) state)
