-- ===== src/People/Store/Hire/Traces.antt =====
-- The statements of `accept_hire` of postgres_hire.py: what its body adds to the trace, it ran.
use orgmetra.Base.{Option, none, some}
use orgmetra.Keyverse.Authorization.{AuthorizationDecision}
use orgmetra.Kernel.Intervals.{Datetime}
use orgmetra.Kernel.Audit.{AuditOutboxEvent}
use orgmetra.People.Digest.{Platform}
use orgmetra.People.Hire.{HireAcceptanceCommand, HireAcceptanceResult}
use orgmetra.People.Store.{Driver}
use orgmetra.People.Store.Executed.{
  Traces, Traces-lift, Traces-return, Traces-execute, Traces-perform, Traces->>=,
}
use orgmetra.People.Store.Writes.Traces.{begin-Traces, record_audit_event-Traces}
use orgmetra.People.Store.Hire.{
  replayed_hire, record_hire_idempotency, store_hire, answer_hire, accept_hire_body,
}

module _ (platform : Platform) {S : Type 0} (driver : Driver S) (command : HireAcceptanceCommand)
    (decision : AuthorizationDecision) where
  replayed_hire-Traces : Traces driver (replayed_hire platform driver command decision)
  unfolding replayed_hire
  replayed_hire-Traces =
      Traces->>= driver _ _ (Traces-perform driver _)
        λ done. Traces->>= driver _ _ (Traces-execute driver _) λ rows. Traces-lift driver _

  store_hire-Traces :
      (recorded_at : Datetime) (event : AuditOutboxEvent)
      → Traces driver (store_hire platform driver command decision recorded_at event)
  unfolding store_hire record_hire_idempotency
  store_hire-Traces recorded_at event = Traces->>= driver _ _ (Traces-perform driver _) λ d1.
      Traces->>= driver _ _ (Traces-perform driver _) λ d2.
        Traces->>= driver _ _ (Traces-perform driver _) λ d3.
          Traces->>= driver _ _ (Traces-perform driver _) λ d4.
            Traces->>= driver _ _ (record_audit_event-Traces platform driver _ _ _ event)
              λ d5. Traces->>= driver _ _ (Traces-perform driver _) λ d6. Traces-perform driver _

  answer_hire-Traces :
      (replayed : Option HireAcceptanceResult)
      → Traces driver (answer_hire platform driver command decision replayed)
  unfolding answer_hire
  answer_hire-Traces (some result) = Traces-return driver _
  answer_hire-Traces none = Traces->>= driver _ _ (Traces-execute driver _) λ rows.
      Traces->>= driver _ _ (Traces-lift driver _) λ provenance.
        Traces->>= driver _ _ (Traces-lift driver _)
          λ event. Traces->>= driver _ _ (store_hire-Traces _ event) λ done. Traces-return driver _

  pub accept_hire_body-Traces : Traces driver (accept_hire_body platform driver command decision)
  unfolding accept_hire_body
  accept_hire_body-Traces =
      Traces->>= driver _ _ (begin-Traces platform driver _)
        λ done. Traces->>= driver _ _ replayed_hire-Traces λ replayed. answer_hire-Traces replayed
