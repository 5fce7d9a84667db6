-- ===== src/People/Store/Employment/Traces.antt =====
-- The statements of `create_employment` of postgres_mutations.py: what its body adds to the trace, it ran.
use orgmetra.Base.{ℕ, Option, none, some}
use orgmetra.Keyverse.Authorization.{AuthorizationDecision}
use orgmetra.Kernel.Intervals.{Datetime}
use orgmetra.People.Commands.{EmploymentMutationCommand}
use orgmetra.People.Digest.{Platform}
use orgmetra.People.Store.{Driver}
use orgmetra.People.Store.Executed.{
  Traces, Traces-lift, Traces-return, Traces-execute, Traces-perform, Traces->>=,
}
use orgmetra.People.Store.Writes.Traces.{
  begin-Traces, replayed_record_id-Traces, record_idempotency-Traces, record_audit_event-Traces,
  clock-Traces,
}
use orgmetra.People.Store.Employment.{
  check_employment, store_employment, answer_employment, create_employment_body,
}

module _ (platform : Platform) {S : Type 0} (driver : Driver S)
    (command : EmploymentMutationCommand) where
  check_employment-Traces : Traces driver (check_employment platform driver command)
  unfolding check_employment
  check_employment-Traces = Traces->>= driver _ _ (Traces-execute driver _) λ rows.
      Traces->>= driver _ _ (Traces-lift driver _) λ conversion.
        Traces->>= driver _ _ (clock-Traces platform driver) λ at.
          Traces->>= driver _ _ (Traces-execute driver _) λ rows2.
            Traces->>= driver _ _ (Traces-lift driver _) λ existing.
              Traces->>= driver _ _ (Traces-lift driver _) λ proposed.
                Traces->>= driver _ _ (Traces-lift driver _) λ done. Traces-return driver _

  store_employment-Traces :
      (decision : AuthorizationDecision) (recorded_at : Datetime)
      → Traces driver (store_employment platform driver command decision recorded_at)
  unfolding store_employment
  store_employment-Traces decision recorded_at =
      Traces->>= driver _ _ (Traces-perform driver _) λ done.
        Traces->>= driver _ _ (Traces-perform driver _) λ done2.
          Traces->>= driver _ _ (Traces-lift driver _) λ event.
            Traces->>= driver _ _ (record_audit_event-Traces platform driver _ _ _ event)
              λ done3. record_idempotency-Traces platform driver _ decision _

  answer_employment-Traces :
      (decision : AuthorizationDecision) (replayed : Option ℕ)
      → Traces driver (answer_employment platform driver command decision replayed)
  unfolding answer_employment
  answer_employment-Traces decision (some created) = Traces-return driver _
  answer_employment-Traces decision none =
      Traces->>= driver _ _ check_employment-Traces λ recorded_at.
        Traces->>= driver _ _ (store_employment-Traces decision recorded_at)
          λ done. Traces-return driver _

  pub create_employment_body-Traces :
      (decision : AuthorizationDecision)
      → Traces driver (create_employment_body platform driver command decision)
  unfolding create_employment_body
  create_employment_body-Traces decision =
      Traces->>= driver _ _ (begin-Traces platform driver _) λ done.
        Traces->>= driver _ _ (replayed_record_id-Traces platform driver _ decision)
          λ replayed. answer_employment-Traces decision replayed
