-- ===== src/People/Store/Writes.antt =====
-- What the three writes of services/people-api/src/orgmetra_people_api/postgres_mutations.py
-- share: the authorization of the exact record, the replay of a key, and the audit pair.
pub mod Laws
pub mod Traces
pub mod Guarded
use orgmetra.Base.{
  ℕ, String, Bool, true, ◌&&◌, Option, none, some, List, ◌==◌, str_eq, if◌then◌else◌, Result, ok,
  err,
}
use orgmetra.Base.Uuid.{concat, uuid_text}
use orgmetra.Keyverse.Authorization.{AuthorizationDecision, is_subset}
use orgmetra.Kernel.Intervals.{Datetime}
use orgmetra.Kernel.Values.{uuid, text, stamp, flag}
use orgmetra.Kernel.Audit.{AuditOutboxEvent, audit_outbox_event, canonical_json, content_digest}
use orgmetra.People.Errors.{ServiceError, Outcome, people_mutation_integrity_error}
use orgmetra.People.Commands.Assignment.{Command}
use orgmetra.People.Digest.{Platform, command_key, idempotency_record_id, mutation_command_digest}
use orgmetra.People.Store.{
  Driver, lock_key, read_key, insert_key, read_write, tenant_context, record_audit, clock,
}
use orgmetra.People.Store.Session.{Tx, ◌>>=◌, ◌>>◌, lift, from_kernel, execute, perform, two}
use orgmetra.People.Store.Rows.{replayed_from_rows, clock_instant}

-- Two sets of texts, as lists.
abbrev pub same_set : List String → List String → Bool
same_set xs ys = is_subset xs ys && is_subset ys xs

abbrev pub matches_target :
    AuthorizationDecision → ℕ → (reference kind : String) → List String → Bool
matches_target authorization tenant reference kind fields =
    authorization.allowed
    && (authorization.tenant_record_id == tenant)
    && str_eq authorization.resource_reference reference
    && str_eq authorization.resource_kind kind
    && str_eq authorization.operation_code "create_record"
    && same_set authorization.requested_fields fields
    && same_set authorization.authorized_fields fields

-- An authorization of none is an object of another class.
unfoldable pub require_authorization :
    Option AuthorizationDecision
    → (tenant : ℕ) → (reference kind : String) → List String
    → Result ServiceError AuthorizationDecision
require_authorization none tenant reference kind fields =
    err (people_mutation_integrity_error "people mutation requires a typed authorization decision")
require_authorization (some authorization) tenant reference kind fields =
    if matches_target authorization tenant reference kind fields
    then ok authorization
    else err (
        people_mutation_integrity_error
          "people mutation authorization does not match the exact record")

-- An exception before the connection is opened leaves the store.
abbrev pub authorized_transaction :
    {S A : Type 0}
    → Result ServiceError AuthorizationDecision
    → (AuthorizationDecision → Outcome S A)
    → S
    → Outcome S A
authorized_transaction (err raised) run state = (state, err raised)
authorized_transaction (ok decision) run state = run decision

module _ (platform : Platform) {S : Type 0} (driver : Driver S) where
  unfoldable pub replayed_record_id : Command → AuthorizationDecision → Tx S (Option ℕ)
  replayed_record_id command authorization = do
    key ← lift (command_key command)
    digest ← lift (mutation_command_digest platform command (some authorization))
    perform driver (lock_key key)
    rows ← execute driver (read_key key)
    lift (replayed_from_rows digest (two driver rows))

  unfoldable pub record_idempotency : Command → AuthorizationDecision → ℕ → Tx S (Unit {0})
  record_idempotency command authorization created = do
    key ← lift (command_key command)
    digest ← lift (mutation_command_digest platform command (some authorization))
    perform driver (
        insert_key key.tenant_record_id (idempotency_record_id platform key) key.command_route
          key.idempotency_key digest created)

  -- `_record_audit`
  unfoldable pub record_audit_event :
      (tenant event delivery : ℕ) → AuditOutboxEvent → Tx S (Unit {0})
  record_audit_event tenant event delivery envelope = perform driver (
      record_audit tenant event delivery (canonical_json platform.utc_text envelope)
        (content_digest platform.utc_text platform.sha256 envelope) "orgmetra_domain_events")

  -- The envelope of a created record: `kind` is employment, position or assignment.
  unfoldable pub created_event :
      (tenant event record_id : ℕ)
      → (kind : String) → AuthorizationDecision
      → (evidence confirmation : String) → Datetime
      → Result ServiceError AuditOutboxEvent
  created_event tenant event record_id kind authorization evidence confirmation recorded_at =
      from_kernel (
        audit_outbox_event platform.is_space (uuid event) (uuid tenant) (text "people_api")
          (text (concat "orgmetra.people." (concat kind "_created")))
          (text (concat kind (concat "_record:" (uuid_text record_id))))
          (text authorization.actor_reference) (text authorization.purpose_code)
          (text (concat kind "_record_created")) (text evidence) (text (concat kind "_created"))
          (stamp recorded_at) (flag true) (text confirmation))

  unfoldable pub post_lock_recorded_at : Tx S Datetime
  post_lock_recorded_at = do rows ← execute driver clock; lift (clock_instant (two driver rows))

  -- The opening statements of a write.
  abbrev pub begin : ℕ → Tx S (Unit {0})
  begin tenant = perform driver read_write >> perform driver (tenant_context tenant)
