-- ===== src/People/Store/Hire/Outcomes.antt =====
-- How a hire that returned has ended: what the database answered, and which statements were executed.
use orgmetra.Base.{◌≡◌, Option, List, [], ◌∷◌, ok}
use orgmetra.Keyverse.Authorization.{AuthorizationDecision}
use orgmetra.Kernel.Values.{uuid, text}
use orgmetra.Kernel.Audit.{AuditOutboxEvent}
use orgmetra.People.Hire.{HireAcceptanceCommand, HireAcceptanceResult}
use orgmetra.People.Digest.{Platform, idempotency_record_id}
use orgmetra.People.Store.{
  Driver, Statement, Row, read_key, insert_key, decision_provenance, insert_person,
  insert_person_name, insert_employment, insert_hired_version, insert_conversion,
}
use orgmetra.People.Store.Session.{two}
use orgmetra.People.Store.Writes.Laws.{opening_statements, audit_statement}
use orgmetra.People.Store.Provenance.{
  hire_key, hire_command_digest, hire_replayed_from_rows, Provenance, hire_event,
}
use orgmetra.People.Store.Provenance.Laws.{IsConfirmed}

-- The rows that the database answered for the key of a hire, and what they mean for its digest.
pub record IsHireReplay (platform : Platform) {S : Type 0} (driver : Driver S)
    (command : HireAcceptanceCommand) (decided : AuthorizationDecision)
    (replayed : Option HireAcceptanceResult) : Type 0 where
  pub asked : S
  pub left : S
  pub rows : List Row
  pub answered : driver.run (read_key (hire_key command)) asked ≡ (left, ok rows)
  pub read_as :
      hire_replayed_from_rows command
        (hire_command_digest platform command decided)
        (two driver rows)
      ≡ ok replayed

-- A hire whose key is bound: the row of the key holds its conversion and its digest.
pub record IsBoundHire (platform : Platform) {S : Type 0} (driver : Driver S)
    (command : HireAcceptanceCommand) (decided : AuthorizationDecision) (trace : List Statement)
    : Type 0 where
  pub asked : S
  pub left : S
  pub rows : List Row
  pub answered : driver.run (read_key (hire_key command)) asked ≡ (left, ok rows)
  pub bound :
      two driver rows
      ≡ (uuid command.candidate_worker_conversion_record_id
          ∷ text (hire_command_digest platform command decided)
          ∷ [])
        ∷ []
  pub executed : trace ≡ opening_statements (hire_key command) command.tenant_record_id

-- The inserts of a hire before the earlier statements, the latest first.
abbrev pub hire_statements :
    (platform : Platform) {S : Type 0} (driver : Driver S) (command : HireAcceptanceCommand)
    (decided : AuthorizationDecision) (provenance : Provenance) (event : AuditOutboxEvent)
    (earlier : List Statement)
    → List Statement
hire_statements platform driver command decided provenance event earlier =
    insert_key command.tenant_record_id (idempotency_record_id platform (hire_key command))
      "candidate-worker-conversions" command.idempotency_key
      (hire_command_digest platform command decided) command.candidate_worker_conversion_record_id
    ∷ insert_conversion command.tenant_record_id command.candidate_worker_conversion_record_id
        command.candidate_profile_id command.person_record_id command.employment_record_id
        command.selection_decision_id command.audit_event_record_id command.effective_from
        provenance.recorded_at
    ∷ audit_statement platform driver command.tenant_record_id command.audit_event_record_id
        command.outbox_delivery_record_id event
    ∷ insert_hired_version command.tenant_record_id command.employment_record_version_id
        command.employment_record_id command.employment_status_code command.effective_from
        provenance.recorded_at
    ∷ insert_employment command.tenant_record_id command.employment_record_id
        command.person_record_id provenance.recorded_at
    ∷ insert_person_name command.tenant_record_id command.person_name_record_id
        command.person_record_id command.display_name command.effective_from provenance.recorded_at
    ∷ insert_person command.tenant_record_id command.person_record_id provenance.recorded_at
    ∷ earlier

-- A hire that was stored: the decision confirmed it, and these statements were executed, the latest
-- first.
pub record IsStoredHire (platform : Platform) {S : Type 0} (driver : Driver S)
    (command : HireAcceptanceCommand) (decided : AuthorizationDecision) (trace : List Statement)
    : Type 0 where
  pub provenance : Provenance
  pub event : AuditOutboxEvent
  pub asked : S
  pub left : S
  pub rows : List Row
  pub answered :
      driver.run
        (decision_provenance command.tenant_record_id command.selection_decision_id
          command.candidate_profile_id)
        asked
      ≡ (left, ok rows)
  pub confirmed : IsConfirmed platform command decided (two driver rows) provenance
  pub created : hire_event platform command decided provenance ≡ ok event
  pub executed :
      trace
      ≡ hire_statements platform driver command decided provenance event (
          decision_provenance command.tenant_record_id command.selection_decision_id
            command.candidate_profile_id
          ∷ opening_statements (hire_key command) command.tenant_record_id)
