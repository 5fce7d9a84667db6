-- ===== src/People/Store/Replay.antt =====
-- A retried command is answered with the record of its first run.
use orgmetra.People.Store.Writes.Laws.{opening_statements}
use orgmetra.People.Store.Steps.{execute-runs, perform-runs, >>=-runs, transaction-runs}
use orgmetra.Base.{
  ap, ◌∙◌, ℕ, String, ◌≡◌, refl, List, [], ◌∷◌, Option, some, ok, str_eq, eq_iff, true,
}
use orgmetra.Base.Uuid.{concat, uuid_hex}
use orgmetra.Keyverse.Authorization.{AuthorizationDecision}
use orgmetra.Kernel.Values.{uuid, text}
use orgmetra.People.Commands.Assignment.{Command, AssignmentMutationCommand, assignment}
use orgmetra.People.Errors.{people_mutation_integrity_error}
use orgmetra.People.Digest.{Platform, CommandKey, command_key, mutation_command_digest}
use orgmetra.People.Store.{Driver, Row, read_write, tenant_context, lock_key, read_key}
use orgmetra.People.Store.Session.{lift, Session}
use orgmetra.People.Store.Rows.{replayed_from_rows}
use orgmetra.People.Store.Rows.Laws.{IsOperational, operational-read}
use orgmetra.People.Store.Writes.{begin, require_authorization, replayed_record_id}
use orgmetra.People.Store.Assignment.{
  answer_assignment, create_assignment_body, store_create_assignment,
}

-- The database answers the opening statements of a command, finds its key bound to a record with
-- that digest, and commits.
pub record FindsReplay {S : Type 0} (driver : Driver S) (tenant : ℕ) (key : CommandKey)
    (digest : String) (created : ℕ) (before after : S) : Type 0 where
  pub opened : S
  pub scoped : S
  pub locked : S
  pub found : S
  pub opened_rows : List Row
  pub scoped_rows : List Row
  pub locked_rows : List Row
  pub opens : driver.run read_write before ≡ (opened, ok opened_rows)
  pub scopes : driver.run (tenant_context tenant) opened ≡ (scoped, ok scoped_rows)
  pub locks : driver.run (lock_key key) scoped ≡ (locked, ok locked_rows)
  pub finds :
      driver.run (read_key key) locked ≡ (found, ok ((uuid created ∷ text digest ∷ []) ∷ []))
  pub commits : driver.commit before found ≡ (after, ok tt)

same_text : (s : String) → str_eq s s ≡ true
same_text s = (eq_iff s s).1 refl

-- The session after the opening statements.
abbrev end_session :
    {S : Type 0} (driver : Driver S) (tenant : ℕ) (key : CommandKey) (digest : String) (created : ℕ)
    (before after : S)
    → FindsReplay driver tenant key digest created before after
    → Session S
end_session driver tenant key digest created before after finds = record {
  trace = opening_statements key tenant;
  store = finds.found;
}

replay_runs :
    (platform : Platform) {S : Type 0} (driver : Driver S) (command : Command)
    (given : AuthorizationDecision) (key : CommandKey) (digest : String) (created : ℕ)
    (before : Session S) {locked found : S} {locked_rows : List Row}
    → command_key command ≡ ok key
    → mutation_command_digest platform command (some given) ≡ ok digest
    → IsOperational created
    → driver.run (lock_key key) before.store ≡ (locked, ok locked_rows)
    → driver.run (read_key key) locked ≡ (found, ok ((uuid created ∷ text digest ∷ []) ∷ []))
    → replayed_record_id platform driver command given before ≡ (
      record { trace = read_key key ∷ lock_key key ∷ before.trace; store = found },
      ok (some created),
    )
unfolding replayed_record_id replayed_from_rows
replay_runs platform {S} driver command given key digest created before {locked} {found} keyed
      digested operational locks finds =
    let s1 : Session S = record { trace = lock_key key ∷ before.trace; store = locked } in
    let s2 : Session S = record {
      trace = read_key key ∷ lock_key key ∷ before.trace;
      store = found;
    } in
    let meant : replayed_from_rows digest ((uuid created ∷ text digest ∷ []) ∷ [])
        ≡ ok (some created) =
      rw
        (
          replayed_from_rows,
          operational-read (people_mutation_integrity_error "idempotency row is invalid") created
              operational,
          same_text digest,
        )
        refl in
    >>=-runs (lift (command_key command)) _ before {middle = before} {a = key}
      (ap (λ r. (before, r)) keyed)
    ∙ >>=-runs (lift (mutation_command_digest platform command (some given))) _ before
        {middle = before} {a = digest} (ap (λ r. (before, r)) digested)
    ∙ >>=-runs _ _ before (perform-runs driver (lock_key key) before locks)
    ∙ >>=-runs _ _ s1 (execute-runs driver (read_key key) s1 finds)
    ∙ ap (λ r. (s2, r)) meant

body_runs :
    (platform : Platform) {S : Type 0} (driver : Driver S) (command : AssignmentMutationCommand)
    (given : AuthorizationDecision) (key : CommandKey) (digest : String) (created : ℕ)
    (before after : S)
    → command_key (assignment command) ≡ ok key
    → mutation_command_digest platform (assignment command) (some given) ≡ ok digest
    → IsOperational created
    → (finds : FindsReplay driver command.tenant_record_id key digest created before after)
    → create_assignment_body platform driver command given (record { trace = []; store = before })
      ≡ (
        end_session driver command.tenant_record_id key digest created before after finds,
        ok (record { assignment_record_id = created }),
      )
unfolding create_assignment_body answer_assignment
body_runs platform {S} driver command given key digest created before after keyed digested
      operational finds =
    let tenant = command.tenant_record_id in
    let s1 : Session S = record { trace = read_write ∷ []; store = finds.opened } in
    let s2 : Session S = record {
      trace = tenant_context tenant ∷ read_write ∷ [];
      store = finds.scoped;
    } in
    let begun : begin platform driver tenant (record { trace = []; store = before }) ≡ (s2, ok tt) =
      >>=-runs _ _ _ (perform-runs driver read_write _ finds.opens)
      ∙ perform-runs driver (tenant_context tenant) s1 finds.scopes in
    >>=-runs _ _ _ begun
    ∙ >>=-runs _ _ s2 (
        replay_runs platform driver (assignment command) given key digest created s2 keyed digested
          operational finds.locks finds.finds)

-- A command whose key is bound to a record under the digest of the command is answered with that
-- record, whatever identifiers the retry proposes: the answer comes, and it is this one.
pub replay-answered :
    (platform : Platform) {S : Type 0} (driver : Driver S) (command : AssignmentMutationCommand)
    (authorization : Option AuthorizationDecision) (given : AuthorizationDecision)
    (key : CommandKey) (digest : String) (created : ℕ) (before after : S)
    → require_authorization authorization command.tenant_record_id
        (concat "assignment_record:" (uuid_hex command.assignment_record_id))
        "assignment_record"
        ("assignment_record" ∷ [])
      ≡ ok given
    → command_key (assignment command) ≡ ok key
    → mutation_command_digest platform (assignment command) (some given) ≡ ok digest
    → IsOperational created
    → FindsReplay driver command.tenant_record_id key digest created before after
    → store_create_assignment platform driver (assignment command) authorization before
      ≡ (after, ok (record { assignment_record_id = created }))
unfolding store_create_assignment
replay-answered platform driver command authorization given key digest created before after
      authorized keyed digested operational finds =
    rw authorized (
      transaction-runs driver (create_assignment_body platform driver command given) before after
        (body_runs platform driver command given key digest created before after keyed digested
          operational finds)
        finds.commits)
