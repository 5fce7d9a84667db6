-- ===== src/People/Store/Employment.antt =====
-- `PostgresPeopleMutationPort.create_employment` of
-- services/people-api/src/orgmetra_people_api/postgres_mutations.py.
pub mod Check
pub mod Traces
pub mod Laws
use orgmetra.People.Store.Proposed.{proposed_employment}
use orgmetra.Base.{ℕ, String, Option, none, some, List, [], ◌∷◌, ◌++◌, Result, ok, err}
use orgmetra.Base.Uuid.{concat, uuid_hex}
use orgmetra.Keyverse.Authorization.{AuthorizationDecision}
use orgmetra.Kernel.Intervals.{Datetime, DateInterval, date_interval, recorded_interval}
use orgmetra.Kernel.Facts.{EmploymentVersion}
use orgmetra.Kernel.Employment.{validate_person_employment_exclusivity}
use orgmetra.People.Errors.{ServiceError, Outcome, type_error}
use orgmetra.People.Commands.{EmploymentMutationCommand}
use orgmetra.People.Commands.Assignment.{Command, employment, EmploymentMutationResult}
use orgmetra.People.Digest.{Platform}
use orgmetra.People.Store.{
  Driver, find_conversion, employment_versions_of, insert_employment, insert_employment_version,
}
use orgmetra.People.Store.Session.{
  Session, Tx, ◌>>=◌, ◌>>◌, lift, return, from_kernel, caught, execute, perform, two, transaction,
}
use orgmetra.People.Store.Rows.{employment_version_from_row, read_rows, require_one_conversion}
use orgmetra.People.Store.Writes.{
  authorized_transaction, require_authorization, replayed_record_id, record_idempotency,
  record_audit_event, created_event, post_lock_recorded_at, begin,
}

module _ (platform : Platform) {S : Type 0} (driver : Driver S) where
  -- After the conversion is locked: the rule of the kernel over the stored versions and the
  -- proposed one; the instant at which it held.
  unfoldable pub check_employment : EmploymentMutationCommand → Tx S Datetime
  check_employment command = do
    rows ← execute driver (find_conversion command.tenant_record_id command.person_record_id)
    conversion ← lift (require_one_conversion (two driver rows))
    recorded_at ← post_lock_recorded_at platform driver
    version_rows ←
        execute driver (employment_versions_of command.tenant_record_id command.person_record_id)
    existing ← lift (read_rows (employment_version_from_row command.tenant_record_id) version_rows)
    proposed ← lift (proposed_employment command recorded_at)
    lift (
        caught (
          validate_person_employment_exclusivity (existing ++ (proposed ∷ []))
            command.tenant_record_id command.person_record_id recorded_at))
    return recorded_at

  -- The writes of a command that was checked at an instant.
  unfoldable pub store_employment :
      EmploymentMutationCommand → AuthorizationDecision → Datetime → Tx S (Unit {0})
  store_employment command decision recorded_at = do
    perform driver (
        insert_employment command.tenant_record_id command.employment_record_id
          command.person_record_id recorded_at)
    perform driver (
        insert_employment_version command.tenant_record_id command.employment_record_version_id
          command.employment_record_id command.employment_status_code
          command.employment_concurrency_code command.effective_from recorded_at)
    event ← lift (
        created_event platform driver command.tenant_record_id command.audit_event_record_id
          command.employment_record_id "employment" decision command.evidence_version_code
          command.confirmation_reference recorded_at)
    record_audit_event platform driver command.tenant_record_id command.audit_event_record_id
        command.outbox_delivery_record_id event
    record_idempotency platform driver (employment command) decision command.employment_record_id

  -- The rest of the body: the record that the key is bound to, or a new one.
  unfoldable pub answer_employment :
      EmploymentMutationCommand → AuthorizationDecision → Option ℕ → Tx S EmploymentMutationResult
  answer_employment command decision replayed = elim replayed [
    | some created ↦ return (record { employment_record_id = created })
    | none ↦ (do
      recorded_at ← check_employment command
      store_employment command decision recorded_at
      return (record { employment_record_id = command.employment_record_id }))
  ]

  -- The body of the transaction.
  unfoldable pub create_employment_body :
      EmploymentMutationCommand → AuthorizationDecision → Tx S EmploymentMutationResult
  unfolding answer_employment
  create_employment_body command decision = do
    begin platform driver command.tenant_record_id
    replayed ← replayed_record_id platform driver (employment command) decision
    answer_employment command decision replayed

  unfoldable pub store_create_employment :
      Command → Option AuthorizationDecision → S → Outcome S EmploymentMutationResult
  store_create_employment (employment command) authorization state =
      authorized_transaction
        (require_authorization authorization command.tenant_record_id
          (concat "employment_record:" (uuid_hex command.employment_record_id)) "employment_record"
          ("employment_record" ∷ []))
        (λ decision. transaction driver (create_employment_body command decision) state) state
  store_create_employment command authorization state =
      (state, err (type_error "command must be an EmploymentMutationCommand"))
