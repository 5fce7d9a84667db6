-- ===== src/People/Store/Employment/Laws.antt =====
-- What a stored employment promises: the rule of the kernel held of the facts that the database
-- answered, and the statements were these, in this order.
use orgmetra.Base.Uuid.{concat, uuid_hex}
use orgmetra.People.Store.Writes.{authorized_transaction, require_authorization, created_event}
use orgmetra.Kernel.Audit.{AuditOutboxEvent}
use orgmetra.Keyverse.Authorization.{AuthorizationDecision}
use orgmetra.Base.{
  refl, err, Result, inr, inl, ℕ, Option, none, ◌⊎◌, ◌∙◌, some, String, ok_kept, subst, ◌≡◌, sym,
  ap, List, [], ◌∷◌, ◌++◌, ok,
}
use orgmetra.Kernel.Intervals.{Datetime}
use orgmetra.People.Errors.{ServiceError, Outcome}
use orgmetra.People.Commands.{EmploymentMutationCommand}
use orgmetra.People.Commands.Assignment.{EmploymentMutationResult, employment}
use orgmetra.People.Digest.{
  idempotency_record_id, mutation_command_digest, command_key, CommandKey, Platform,
}
use orgmetra.People.Store.{
  insert_employment, insert_employment_version, insert_key, Driver, Statement,
}
use orgmetra.People.Store.Session.{transaction, Session}
use orgmetra.People.Store.Steps.{perform-returned, >>=-returned, lift-returned}
use orgmetra.People.Store.Executed.{IsCommitted, transaction-IsCommitted}
use orgmetra.People.Store.Employment.Traces.{create_employment_body-Traces}
use orgmetra.People.Store.Writes.Laws.{
  opening_statements, replayed_record_id-returned, begin-returned, IsReplay,
  record_idempotency-returned, record_audit_event-returned, audit_statement,
}
use orgmetra.People.Store.Employment.{
  store_create_employment, answer_employment, create_employment_body, store_employment,
}
use orgmetra.People.Store.Employment.Check.{
  IsCheckedEmployment, check_statements, check_employment-returned,
}

-- A creation that was stored: the check held, and these statements were executed, the latest first.
pub record IsStoredEmployment (platform : Platform) {S : Type 0} (driver : Driver S)
    (command : EmploymentMutationCommand) (decision : AuthorizationDecision) (key : CommandKey)
    (trace : List Statement) : Type 0 where
  pub recorded_at : Datetime
  pub checked : IsCheckedEmployment driver command recorded_at
  pub event : AuditOutboxEvent
  pub digest : String
  pub created :
      created_event platform driver command.tenant_record_id command.audit_event_record_id
        command.employment_record_id "employment" decision command.evidence_version_code
        command.confirmation_reference recorded_at
      ≡ ok event
  pub digested : mutation_command_digest platform (employment command) (some decision) ≡ ok digest
  pub executed :
      trace
      ≡ insert_key key.tenant_record_id
          (idempotency_record_id platform key)
          key.command_route
          key.idempotency_key
          digest
          command.employment_record_id
        ∷ audit_statement platform driver command.tenant_record_id command.audit_event_record_id
            command.outbox_delivery_record_id event
        ∷ insert_employment_version command.tenant_record_id command.employment_record_version_id
            command.employment_record_id command.employment_status_code
            command.employment_concurrency_code command.effective_from recorded_at
        ∷ insert_employment command.tenant_record_id command.employment_record_id
            command.person_record_id recorded_at
        ∷ (check_statements platform driver command
            ++ (opening_statements key command.tenant_record_id))

module _ (platform : Platform) {S : Type 0} (driver : Driver S)
    (command : EmploymentMutationCommand) (decision : AuthorizationDecision) where
  stored :
      (recorded_at : Datetime) (before : Session S) {after : Session S} (key : CommandKey)
      → command_key (employment command) ≡ ok key
      → IsCheckedEmployment driver command recorded_at
      → before.trace
        ≡ check_statements platform driver command
          ++ (opening_statements key command.tenant_record_id)
      → store_employment platform driver command decision recorded_at before ≡ (after, ok tt)
      → IsStoredEmployment platform driver command decision key after.trace
  unfolding store_employment
  stored recorded_at before {after} key keyed checked trace h =
      >>=-returned _ before h λ done s1 e1 h1. perform-returned driver _ before e1 λ t1.
        >>=-returned _ s1 h1 λ done2 s2 e2 h2. perform-returned driver _ s1 e2 λ t2.
          >>=-returned _ s2 h2 λ event s3 e3 h3. lift-returned _ s2 e3 λ created same3.
            >>=-returned _ s3 h3 λ done4 s4 e4 h4.
              let t4 = record_audit_event-returned platform driver _ _ _ event s3 e4 in
              let (key', digest, keyed', digested, t5) =
                record_idempotency-returned platform driver (employment command) decision _ s4 h4 in
              let same_key : key' ≡ key = ok_kept (sym keyed ∙ keyed') in
              record {
                recorded_at = recorded_at;
                checked = checked;
                event = event;
                digest = digest;
                created = created;
                digested = digested;
                executed = cc (t1, t2, same3, t4, t5, same_key, trace);
              }

  -- How a body that returned has ended: its key was bound to the record that it returns, or the
  -- command was checked and stored.
  abbrev pub Concluded : EmploymentMutationResult → List Statement → Type 0
  Concluded result trace =
      ((replay : IsReplay platform driver (employment command) decision
          (some result.employment_record_id))
        × (trace ≡ opening_statements replay.key command.tenant_record_id))
      ⊎ ((replay : IsReplay platform driver (employment command) decision none) × IsStoredEmployment
            platform driver command decision replay.key trace
          × (result.employment_record_id ≡ command.employment_record_id))

  -- A body that returned: the key was bound and its record is returned, after these statements
  -- alone; or the command was checked and stored.
  pub create_employment_body-returned :
      (store : S) {after : Session S} {result : EmploymentMutationResult}
      → create_employment_body platform driver command decision
          (record { trace = []; store = store })
        ≡ (after, ok result)
      → Concluded result after.trace
  unfolding create_employment_body answer_employment
  create_employment_body-returned store {after} {result} h = >>=-returned _ _ h λ done s1 e1 h1.
      let t1 = begin-returned platform driver command.tenant_record_id _ e1 in
      >>=-returned _ s1 h1 λ replayed s2 e2 h2.
        let (replay, t2) =
          replayed_record_id-returned platform driver (employment command) decision s1 e2 in
        by_replay s2 replayed replay (cc (t1, t2)) h2
    where
      by_replay :
          (s2 : Session S) (replayed : Option ℕ)
          (replay : IsReplay platform driver (employment command) decision replayed)
          → s2.trace ≡ opening_statements replay.key command.tenant_record_id
          → answer_employment platform driver command decision replayed s2 ≡ (after, ok result)
          → Concluded result after.trace
      by_replay s2 (some created) replay t h' =
          let same : s2 ≡ after =
            ap (λ (r : Outcome (Session S) EmploymentMutationResult). r.0) h' in
          let named : created ≡ result.employment_record_id =
            ap (λ (r : EmploymentMutationResult). r.employment_record_id)
              (sym (ok_kept (ap (λ (r : Outcome (Session S) EmploymentMutationResult). r.1) h'))) in
          inl (
            subst
              (λ n.
                (replay' : IsReplay platform driver (employment command) decision (some n))
                × (after.trace ≡ opening_statements replay'.key command.tenant_record_id))
              named (replay, rw same at t))
      by_replay s2 none replay t h' = >>=-returned _ s2 h' λ recorded_at s3 e3 h3.
          let (checked, t3) = check_employment-returned platform driver command s2 e3 in
          >>=-returned _ s3 h3 λ done s4 e4 h4.
            let is_stored = stored recorded_at s3 replay.key replay.keyed checked (rw t at t3) e4 in
            let same : s4 ≡ after =
              ap (λ (r : Outcome (Session S) EmploymentMutationResult). r.0) h4 in
            let named : command.employment_record_id ≡ result.employment_record_id =
              ap (λ (r : EmploymentMutationResult). r.employment_record_id)
                (sym
                  (ok_kept (ap (λ (r : Outcome (Session S) EmploymentMutationResult). r.1) h4))) in
            inr (
              replay,
              subst
                  (λ (z : Session S).
                    IsStoredEmployment platform driver command decision replay.key z.trace)
                  same is_stored,
              sym named,
            )

-- The creation of an employment that returns was authorized for exactly its record, was committed,
-- and has ended so: the key was bound to the returned record for the same digest, and nothing was
-- inserted; or the rule of the kernel held of what the database answered, the new record is
-- returned, and the inserts are those of the employment, of its audit pair and of its key, in order.
pub store_create_employment-returned :
    (platform : Platform) {S : Type 0} (driver : Driver S) (command : EmploymentMutationCommand)
    (authorization : Option AuthorizationDecision) (before after : S)
    {result : EmploymentMutationResult}
    → store_create_employment platform driver (employment command) authorization before
      ≡ (after, ok result)
    → (decision : AuthorizationDecision) × (session : Session S) × (require_authorization
          authorization command.tenant_record_id
          (concat "employment_record:" (uuid_hex command.employment_record_id))
          "employment_record"
          ("employment_record" ∷ [])
        ≡ ok decision)
      × IsCommitted driver
          (create_employment_body platform driver command decision)
          before
          after
          result
          session
      × Concluded platform driver command decision result session.trace
unfolding store_create_employment
store_create_employment-returned platform {S} driver command authorization before after {result} h =
    by_decision
      (require_authorization authorization command.tenant_record_id
        (concat "employment_record:" (uuid_hex command.employment_record_id)) "employment_record"
        ("employment_record" ∷ []))
      h
  where
    by_decision :
        (required : Result ServiceError AuthorizationDecision)
        → authorized_transaction required
            (λ decision.
              transaction driver (create_employment_body platform driver command decision) before)
            before
          ≡ (after, ok result)
        → (decision : AuthorizationDecision) × (session : Session S) × (required ≡ ok decision)
          × IsCommitted driver
              (create_employment_body platform driver command decision)
              before
              after
              result
              session
          × Concluded platform driver command decision result session.trace
    by_decision (err raised) q = cc
    by_decision (ok decision) q =
        transaction-IsCommitted driver (create_employment_body platform driver command decision)
          before (create_employment_body-Traces platform driver command decision) q
          λ session committed. (
            decision,
            session,
            refl,
            committed,
            create_employment_body-returned platform driver command decision before committed.ended,
          )
