-- ===== src/People/Store/Port/Laws.antt =====
-- The application layer and the adapter together.
use orgmetra.Base.{ℕ, String, ◌≡◌, subst, ◌∙◌, true, List, some, ok, err, arith}
use orgmetra.Keyverse.Authorization.{
  PurposeBoundAccessPolicy, AuthorizationDecision, decision, access_permitted,
}
use orgmetra.Keyverse.Authorization.Laws.{Permits}
use orgmetra.People.Errors.{Outcome}
use orgmetra.People.Auth.{AuthenticatedPrincipal}
use orgmetra.People.Commands.{EmploymentMutationCommand}
use orgmetra.People.Commands.Assignment.{
  AssignmentMutationCommand, AssignmentMutationResult, EmploymentMutationResult, employment,
  assignment,
}
use orgmetra.People.Digest.{Platform}
use orgmetra.People.Authorization.Laws.{authorize_resource_fields-Permits}
use orgmetra.People.Mutations.{create_employment_record, create_assignment_record}
use orgmetra.People.Governance.{write_request, call_authorized-returned}
use orgmetra.People.Store.{Driver}
use orgmetra.People.Store.Session.{Session}
use orgmetra.People.Store.Executed.{IsCommitted}
use orgmetra.People.Store.Writes.{require_authorization}
use orgmetra.People.Store.Port.{as_answer, store_port}
use orgmetra.People.Store.Assignment.{create_assignment_body}
use orgmetra.People.Store.Assignment.Laws as Assignments
use orgmetra.People.Store.Employment.{create_employment_body}
use orgmetra.People.Store.Employment.Laws as Employments

pub answered :
    {S A : Type 0} (outcome : Outcome S A) {after : S} {a : A}
    → as_answer outcome ≡ (after, ok (some a))
    → outcome ≡ (after, ok a)
answered (s, ok b) h = cc
answered (s, err e) h = cc

required_is :
    (given : AuthorizationDecision) (tenant : ℕ) (reference kind : String) (fields : List String)
    {decided : AuthorizationDecision}
    → require_authorization (some given) tenant reference kind fields ≡ ok decided
    → decided ≡ given
unfolding require_authorization
required_is given tenant reference kind fields h = ground arith

module _ {S : Type 0} (platform : Platform) (driver : Driver S) (principal : AuthenticatedPrincipal)
    (purpose : String) (policy : PurposeBoundAccessPolicy) (before after : S) where
  -- The creation of an assignment through the application layer and the adapter, when it returns:
  -- the policy permits the principal to create exactly that record. The body of the transaction,
  -- under the allowing decision, ended in a session whose statements were run one after the other
  -- from the store before, and what they left was committed. Those statements are the opening ones
  -- alone, and the result is the record that the key was bound to; or they are the opening ones,
  -- the reads of the check, in which the rule of the kernel accepts the proposed assignment among
  -- the facts that the database answered, at the instant of its clock, and the inserts of the
  -- record, of the audit pair and of the key, in order, and the result is the new record.
  pub create_assignment_record-stored :
      (command : AssignmentMutationCommand) {result : AssignmentMutationResult}
      → create_assignment_record principal
          (assignment command)
          purpose
          policy
          (some (store_port platform driver))
          before
        ≡ (after, ok result)
      → Permits
          (write_request principal command.tenant_record_id command.assignment_record_id
            "assignment_record" purpose)
          policy
        × (session : Session S) × IsCommitted driver
            (create_assignment_body platform driver command (
              decision
                (write_request principal command.tenant_record_id command.assignment_record_id
                  "assignment_record" purpose)
                policy
                true
                access_permitted))
            before
            after
            result
            session
        × Assignments.Concluded platform driver command
            (decision
              (write_request principal command.tenant_record_id command.assignment_record_id
                "assignment_record" purpose)
              policy
              true
              access_permitted)
            result
            session.trace
  unfolding create_assignment_record
  create_assignment_record-stored command {result} h =
      let (decided, e, e') = call_authorized-returned _ _ _ before after h in
      let (permits, same) = authorize_resource_fields-Permits principal _ _ _ _ _ _ _ policy e in
      let (required, session, r, committed, concluded) =
        Assignments.store_create_assignment-returned platform driver command (some decided) before
          after (answered _ e') in
      (
        permits,
        session,
        subst
            (λ d.
              IsCommitted driver (create_assignment_body platform driver command d) before after
                result session)
            (required_is decided _ _ _ _ r ∙ same) committed,
        subst (λ d. Assignments.Concluded platform driver command d result session.trace)
            (required_is decided _ _ _ _ r ∙ same) concluded,
      )

  -- The creation of an employment through the application layer and the adapter, when it returns:
  -- the policy permits the principal to create exactly that record. The body of the transaction,
  -- under the allowing decision, ended in a session whose statements were run one after the other
  -- from the store before, and what they left was committed. Those statements are the opening ones
  -- alone, and the result is the record that the key was bound to; or they are the opening ones,
  -- the reads of the check, in which the rule of the kernel accepts the proposed employment among
  -- the facts that the database answered, at the instant of its clock, and the inserts of the
  -- record, of the audit pair and of the key, in order, and the result is the new record.
  pub create_employment_record-stored :
      (command : EmploymentMutationCommand) {result : EmploymentMutationResult}
      → create_employment_record principal
          (employment command)
          purpose
          policy
          (some (store_port platform driver))
          before
        ≡ (after, ok result)
      → Permits
          (write_request principal command.tenant_record_id command.employment_record_id
            "employment_record" purpose)
          policy
        × (session : Session S) × IsCommitted driver
            (create_employment_body platform driver command (
              decision
                (write_request principal command.tenant_record_id command.employment_record_id
                  "employment_record" purpose)
                policy
                true
                access_permitted))
            before
            after
            result
            session
        × Employments.Concluded platform driver command
            (decision
              (write_request principal command.tenant_record_id command.employment_record_id
                "employment_record" purpose)
              policy
              true
              access_permitted)
            result
            session.trace
  unfolding create_employment_record
  create_employment_record-stored command {result} h =
      let (decided, e, e') = call_authorized-returned _ _ _ before after h in
      let (permits, same) = authorize_resource_fields-Permits principal _ _ _ _ _ _ _ policy e in
      let (required, session, r, committed, concluded) =
        Employments.store_create_employment-returned platform driver command (some decided) before
          after (answered _ e') in
      (
        permits,
        session,
        subst
            (λ d.
              IsCommitted driver (create_employment_body platform driver command d) before after
                result session)
            (required_is decided _ _ _ _ r ∙ same) committed,
        subst (λ d. Employments.Concluded platform driver command d result session.trace)
            (required_is decided _ _ _ _ r ∙ same) concluded,
      )
