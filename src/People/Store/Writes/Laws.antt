-- ===== src/People/Store/Writes/Laws.antt =====
-- What the shared steps of a write did, when they returned.
use orgmetra.Base.{[], ℕ, String, ◌≡◌, sym, List, ◌∷◌, Option, some, ok}
use orgmetra.Keyverse.Authorization.{AuthorizationDecision}
use orgmetra.Kernel.Intervals.{Datetime}
use orgmetra.Kernel.Audit.{AuditOutboxEvent, canonical_json, content_digest}
use orgmetra.People.Commands.Assignment.{Command}
use orgmetra.People.Digest.{
  Platform, CommandKey, command_key, idempotency_record_id, mutation_command_digest,
}
use orgmetra.People.Store.{
  Driver, Statement, Row, clock, read_write, tenant_context, lock_key, read_key, insert_key,
  record_audit,
}
use orgmetra.People.Store.Session.{Session, execute, two}
use orgmetra.People.Store.Rows.{clock_instant, replayed_from_rows}
use orgmetra.People.Store.Steps.{
  AnswersFirst, >>=-returned, lift-returned, execute-returned, perform-returned,
}
use orgmetra.People.Store.Writes.{
  replayed_record_id, record_idempotency, record_audit_event, post_lock_recorded_at, begin,
}

-- The rows that the database answered for the key of a command, and what they mean for its digest.
pub record IsReplay (platform : Platform) {S : Type 0} (driver : Driver S) (command : Command)
    (decision : AuthorizationDecision) (replayed : Option ℕ) : Type 0 where
  pub key : CommandKey
  pub digest : String
  pub asked : S
  pub left : S
  pub rows : List Row
  pub keyed : command_key command ≡ ok key
  pub digested : mutation_command_digest platform command (some decision) ≡ ok digest
  pub answered : driver.run (read_key key) asked ≡ (left, ok rows)
  pub read_as : replayed_from_rows digest (two driver rows) ≡ ok replayed

-- The statements before the key is known to be bound or free, the latest first.
abbrev pub opening_statements : CommandKey → ℕ → List Statement
opening_statements key tenant =
    read_key key ∷ lock_key key ∷ tenant_context tenant ∷ read_write ∷ []

module _ (platform : Platform) {S : Type 0} (driver : Driver S) where
  pub clock-returned :
      (before : Session S) {after : Session S} {recorded_at : Datetime}
      → post_lock_recorded_at platform driver before ≡ (after, ok recorded_at)
      → AnswersFirst driver clock clock_instant recorded_at × (after.trace ≡ clock ∷ before.trace)
  unfolding post_lock_recorded_at
  clock-returned before h = >>=-returned (execute driver clock) before h λ rows middle e h'.
      execute-returned driver clock before e λ t run.
        lift-returned (clock_instant (two driver rows)) middle h' λ read same. (
          record {
            asked = before.store;
            left = middle.store;
            rows = rows;
            answered = run;
            read_as = read;
          },
          rw (sym same) t,
        )

  pub begin-returned :
      (tenant : ℕ) (before : Session S) {after : Session S}
      → begin platform driver tenant before ≡ (after, ok tt)
      → after.trace ≡ tenant_context tenant ∷ read_write ∷ before.trace
  begin-returned tenant before h = >>=-returned _ before h λ done middle e h'.
      perform-returned driver read_write before e
        λ t. perform-returned driver (tenant_context tenant) middle h' λ t'. cc

  pub replayed_record_id-returned :
      (command : Command) (decision : AuthorizationDecision) (before : Session S)
      {after : Session S} {replayed : Option ℕ}
      → replayed_record_id platform driver command decision before ≡ (after, ok replayed)
      → (replay : IsReplay platform driver command decision replayed) × (after.trace
          ≡ read_key replay.key ∷ lock_key replay.key ∷ before.trace)
  unfolding replayed_record_id
  replayed_record_id-returned command decision before h = >>=-returned _ before h λ key s1 e1 h1.
      lift-returned _ before e1 λ read1 same1. >>=-returned _ s1 h1 λ digest s2 e2 h2.
        lift-returned _ s1 e2 λ read2 same2. >>=-returned _ s2 h2 λ done s3 e3 h3.
          perform-returned driver _ s2 e3 λ t3. >>=-returned _ s3 h3 λ rows s4 e4 h4.
            execute-returned driver _ s3 e4 λ t4 run4. lift-returned _ s4 h4 λ read5 same5. (
              record {
                key = key;
                digest = digest;
                asked = s3.store;
                left = s4.store;
                rows = rows;
                keyed = read1;
                digested = read2;
                answered = run4;
                read_as = read5;
              },
              cc (same1, same2, t3, t4, same5),
            )

  -- The statement that binds the key of a command to the created record.
  pub record_idempotency-returned :
      (command : Command) (decision : AuthorizationDecision) (created : ℕ) (before : Session S)
      {after : Session S}
      → record_idempotency platform driver command decision created before ≡ (after, ok tt)
      → (key : CommandKey) × (digest : String) × (command_key command ≡ ok key)
        × (mutation_command_digest platform command (some decision) ≡ ok digest)
        × (after.trace
            ≡ insert_key key.tenant_record_id
                (idempotency_record_id platform key)
                key.command_route
                key.idempotency_key
                digest
                created
              ∷ before.trace)
  unfolding record_idempotency
  record_idempotency-returned command decision created before h =
      >>=-returned _ before h λ key s1 e1 h1. lift-returned _ before e1 λ read1 same1.
        >>=-returned _ s1 h1 λ digest s2 e2 h2. lift-returned _ s1 e2 λ read2 same2.
          perform-returned driver _ s2 h2 λ t3. (key, digest, read1, read2, cc (same1, same2, t3))

  -- The audit statement of an envelope.
  abbrev pub audit_statement : (tenant event delivery : ℕ) → AuditOutboxEvent → Statement
  audit_statement tenant event delivery envelope =
      record_audit tenant event delivery (canonical_json platform.utc_text envelope)
        (content_digest platform.utc_text platform.sha256 envelope) "orgmetra_domain_events"

  pub record_audit_event-returned :
      (tenant event delivery : ℕ) (envelope : AuditOutboxEvent) (before : Session S)
      {after : Session S}
      → record_audit_event platform driver tenant event delivery envelope before ≡ (after, ok tt)
      → after.trace ≡ audit_statement tenant event delivery envelope ∷ before.trace
  unfolding record_audit_event
  record_audit_event-returned tenant event delivery envelope before h =
      perform-returned driver _ before h λ t. t
