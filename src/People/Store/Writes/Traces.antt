-- ===== src/People/Store/Writes/Traces.antt =====
-- The statements of the steps that the writes share, `_replayed_record_id`, `_record_idempotency`,
-- `_record_audit` and `_post_lock_recorded_at` of postgres_mutations.py: what each adds to the
-- trace, it ran.
use orgmetra.Base.{ℕ}
use orgmetra.Keyverse.Authorization.{AuthorizationDecision}
use orgmetra.Kernel.Audit.{AuditOutboxEvent}
use orgmetra.People.Commands.Assignment.{Command}
use orgmetra.People.Digest.{Platform}
use orgmetra.People.Store.{Driver}
use orgmetra.People.Store.Executed.{Traces, Traces-lift, Traces-execute, Traces-perform, Traces->>=}
use orgmetra.People.Store.Writes.{
  replayed_record_id, record_idempotency, record_audit_event, post_lock_recorded_at, begin,
}

module _ (platform : Platform) {S : Type 0} (driver : Driver S) where
  pub begin-Traces : (tenant : ℕ) → Traces driver (begin platform driver tenant)
  begin-Traces tenant =
      Traces->>= driver _ _ (Traces-perform driver _) (λ done. Traces-perform driver _)

  pub replayed_record_id-Traces :
      (command : Command) (decision : AuthorizationDecision)
      → Traces driver (replayed_record_id platform driver command decision)
  unfolding replayed_record_id
  replayed_record_id-Traces command decision = Traces->>= driver _ _ (Traces-lift driver _) λ key.
      Traces->>= driver _ _ (Traces-lift driver _) λ digest.
        Traces->>= driver _ _ (Traces-perform driver _)
          λ done. Traces->>= driver _ _ (Traces-execute driver _) λ rows. Traces-lift driver _

  pub record_idempotency-Traces :
      (command : Command) (decision : AuthorizationDecision) (created : ℕ)
      → Traces driver (record_idempotency platform driver command decision created)
  unfolding record_idempotency
  record_idempotency-Traces command decision created =
      Traces->>= driver _ _ (Traces-lift driver _)
        λ key. Traces->>= driver _ _ (Traces-lift driver _) λ digest. Traces-perform driver _

  pub record_audit_event-Traces :
      (tenant event delivery : ℕ) (envelope : AuditOutboxEvent)
      → Traces driver (record_audit_event platform driver tenant event delivery envelope)
  unfolding record_audit_event
  record_audit_event-Traces tenant event delivery envelope = Traces-perform driver _

  pub clock-Traces : Traces driver (post_lock_recorded_at platform driver)
  unfolding post_lock_recorded_at
  clock-Traces = Traces->>= driver _ _ (Traces-execute driver _) λ rows. Traces-lift driver _
