-- ===== src/People/Store/Assignment/Traces.antt =====
-- The statements of `create_assignment` of postgres_mutations.py: what its body adds to the trace, it ran.
use orgmetra.Base.{ℕ, Option, none, some}
use orgmetra.Keyverse.Authorization.{AuthorizationDecision}
use orgmetra.Kernel.Intervals.{Datetime}
use orgmetra.People.Commands.Assignment.{AssignmentMutationCommand}
use orgmetra.People.Digest.{Platform}
use orgmetra.People.Store.{Driver}
use orgmetra.People.Store.Executed.{
  Traces, Traces-lift, Traces-return, Traces-execute, Traces-perform, Traces->>=,
}
use orgmetra.People.Store.Writes.Traces.{
  begin-Traces, replayed_record_id-Traces, record_idempotency-Traces, record_audit_event-Traces,
  clock-Traces,
}
use orgmetra.People.Store.Assignment.{
  check_assignment, store_assignment, answer_assignment, create_assignment_body,
}

module _ (platform : Platform) {S : Type 0} (driver : Driver S)
    (command : AssignmentMutationCommand) where
  check_assignment-Traces : Traces driver (check_assignment platform driver command)
  unfolding check_assignment
  check_assignment-Traces = Traces->>= driver _ _ (Traces-execute driver _) λ rows.
      Traces->>= driver _ _ (Traces-lift driver _) λ conversion.
        Traces->>= driver _ _ (Traces-execute driver _) λ rows2.
          Traces->>= driver _ _ (Traces-lift driver _) λ versions.
            Traces->>= driver _ _ (Traces-execute driver _) λ rows3.
              Traces->>= driver _ _ (Traces-lift driver _) λ positions.
                Traces->>= driver _ _ (clock-Traces platform driver) λ at.
                  Traces->>= driver _ _ (Traces-execute driver _) λ rows4.
                    Traces->>= driver _ _ (Traces-lift driver _) λ existing.
                      Traces->>= driver _ _ (Traces-lift driver _) λ proposed.
                        Traces->>= driver _ _ (Traces-lift driver _) λ done. Traces-return driver _

  store_assignment-Traces :
      (decision : AuthorizationDecision) (recorded_at : Datetime)
      → Traces driver (store_assignment platform driver command decision recorded_at)
  unfolding store_assignment
  store_assignment-Traces decision recorded_at =
      Traces->>= driver _ _ (Traces-perform driver _) λ done.
        Traces->>= driver _ _ (Traces-lift driver _) λ event.
          Traces->>= driver _ _ (record_audit_event-Traces platform driver _ _ _ event)
            λ done2. record_idempotency-Traces platform driver _ decision _

  answer_assignment-Traces :
      (decision : AuthorizationDecision) (replayed : Option ℕ)
      → Traces driver (answer_assignment platform driver command decision replayed)
  unfolding answer_assignment
  answer_assignment-Traces decision (some created) = Traces-return driver _
  answer_assignment-Traces decision none =
      Traces->>= driver _ _ check_assignment-Traces λ recorded_at.
        Traces->>= driver _ _ (store_assignment-Traces decision recorded_at)
          λ done. Traces-return driver _

  pub create_assignment_body-Traces :
      (decision : AuthorizationDecision)
      → Traces driver (create_assignment_body platform driver command decision)
  unfolding create_assignment_body
  create_assignment_body-Traces decision =
      Traces->>= driver _ _ (begin-Traces platform driver _) λ done.
        Traces->>= driver _ _ (replayed_record_id-Traces platform driver _ decision)
          λ replayed. answer_assignment-Traces decision replayed
