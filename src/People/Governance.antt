-- ===== src/People/Governance.antt =====
-- A governed call changes the store, or returns, only for a principal whom the policy allows.
use orgmetra.Base.{
  false, ◌⊎◌, inl, inr, ℕ, String, ◌≡◌, ◌≢◌, refl, subst, true, Option, none, some, [], ◌∷◌, Result,
  ok, err,
}
use orgmetra.Keyverse.Authorization.{
  PurposeBoundAccessPolicy, PurposeBoundAccessRequest, AuthorizationDecision, decision,
  access_permitted,
}
use orgmetra.Keyverse.Authorization.Laws.{Permits}
use orgmetra.People.Errors.{ServiceError, Outcome, call_authorized}
use orgmetra.Base.Uuid.{concat, uuid_hex}
use orgmetra.People.Auth.{AuthenticatedPrincipal}
use orgmetra.People.Authorization.Laws.{request_of, authorize_resource_fields-Permits}
use orgmetra.People.Commands.{EmploymentMutationCommand, PositionMutationCommand}
use orgmetra.People.Commands.Assignment.{
  AssignmentMutationCommand, another, Command, employment, position, assignment,
}
use orgmetra.People.Mutations.{
  PeopleMutationPort, create_employment_record, create_position_record, create_assignment_record,
}
use orgmetra.People.Hire.{
  HireAcceptanceCommand, HireAcceptancePort, HireAcceptanceResult, accept_confirmed_hire,
}

module _ {S A : Type 0} where
  pub call_authorized-changed :
      (message : String) (authorized : Result ServiceError AuthorizationDecision)
      (port : AuthorizationDecision → Outcome S (Option A)) (state : S)
      → (call_authorized message authorized port state).0 ≢ state
      → (decided : AuthorizationDecision) × (authorized ≡ ok decided)
  call_authorized-changed message (err e) port state changed = elim (changed refl) [ ]
  call_authorized-changed message (ok decided) port state changed = (decided, refl)

  pub call_authorized-returned :
      (message : String) (authorized : Result ServiceError AuthorizationDecision)
      (port : AuthorizationDecision → Outcome S (Option A)) (state after : S) {a : A}
      → call_authorized message authorized port state ≡ (after, ok a)
      → (decided : AuthorizationDecision) × (authorized ≡ ok decided)
        × (port decided ≡ (after, ok (some a)))
  call_authorized-returned message (err e) port state after returned = cc
  call_authorized-returned message (ok decided) port state after {a} returned =
      (decided, refl, typed_returned (port decided) returned)
    where
      typed_returned :
          (answer : Outcome S (Option A))
          → call_authorized message (ok decided) (λ d. answer) state ≡ (after, ok a)
          → answer ≡ (after, ok (some a))
      typed_returned (s, err e) h = cc
      typed_returned (s, ok none) h = cc
      typed_returned (s, ok (some b)) h = cc

-- The request of a write: the resource is the record, the one field is its kind.
abbrev pub write_request :
    AuthenticatedPrincipal
    → (tenant_record_id record_id : ℕ) → (kind purpose_code : String) → PurposeBoundAccessRequest
write_request principal tenant record_id kind purpose =
    request_of principal tenant tenant (concat kind (concat ":" (uuid_hex record_id))) purpose
      "create_record" kind (kind ∷ [])

-- The request of a hire, on the selection decision.
abbrev pub hire_request :
    AuthenticatedPrincipal → HireAcceptanceCommand → String → PurposeBoundAccessRequest
hire_request principal command purpose =
    request_of principal command.tenant_record_id command.tenant_record_id
      (concat "selection_decision:" (uuid_hex command.selection_decision_id)) purpose
      "materialize_worker" "selection_decision" ("candidate_worker_conversion" ∷ [])

module _ {S : Type 0} (principal : AuthenticatedPrincipal) (purpose : String)
    (policy : PurposeBoundAccessPolicy) (state : S) where
  -- Whatever the port does, the creation of an employment changes the store only if the policy
  -- permits the principal to create exactly that employment record of the command's tenant.
  pub create_employment_record-governed :
      (port : Option (PeopleMutationPort S)) (command : EmploymentMutationCommand)
      → (create_employment_record principal (employment command) purpose policy port state).0
        ≢ state
      → Permits
          (write_request principal command.tenant_record_id command.employment_record_id
            "employment_record" purpose)
          policy
  unfolding create_employment_record
  create_employment_record-governed none command changed = elim (changed refl) [ ]
  create_employment_record-governed (some port) command changed =
      let (decided, e) = call_authorized-changed _ _ _ state changed in
      (authorize_resource_fields-Permits principal _ _ _ _ _ _ _ policy e).0

  -- Whatever the port does, the creation of a position changes the store only if the policy
  -- permits the principal to create exactly that position record of the command's tenant.
  pub create_position_record-governed :
      (port : Option (PeopleMutationPort S)) (command : PositionMutationCommand)
      → (create_position_record principal (position command) purpose policy port state).0 ≢ state
      → Permits
          (write_request principal command.tenant_record_id command.position_record_id
            "position_record" purpose)
          policy
  unfolding create_position_record
  create_position_record-governed none command changed = elim (changed refl) [ ]
  create_position_record-governed (some port) command changed =
      let (decided, e) = call_authorized-changed _ _ _ state changed in
      (authorize_resource_fields-Permits principal _ _ _ _ _ _ _ policy e).0

  -- Whatever the port does, the creation of an assignment changes the store only if the policy
  -- permits the principal to create exactly that assignment record of the command's tenant.
  pub create_assignment_record-governed :
      (port : Option (PeopleMutationPort S)) (command : AssignmentMutationCommand)
      → (create_assignment_record principal (assignment command) purpose policy port state).0
        ≢ state
      → Permits
          (write_request principal command.tenant_record_id command.assignment_record_id
            "assignment_record" purpose)
          policy
  unfolding create_assignment_record
  create_assignment_record-governed none command changed = elim (changed refl) [ ]
  create_assignment_record-governed (some port) command changed =
      let (decided, e) = call_authorized-changed _ _ _ state changed in
      (authorize_resource_fields-Permits principal _ _ _ _ _ _ _ policy e).0

  -- Whatever the port does, a hire changes the store only if the policy permits the principal to
  -- materialize a worker from exactly that selection decision of the command's tenant.
  pub accept_confirmed_hire-governed :
      (port : Option (HireAcceptancePort S)) (command : HireAcceptanceCommand)
      → (accept_confirmed_hire principal (some command) purpose policy port state).0 ≢ state
      → Permits (hire_request principal command purpose) policy
  unfolding accept_confirmed_hire
  accept_confirmed_hire-governed none command changed = elim (changed refl) [ ]
  accept_confirmed_hire-governed (some port) command changed =
      let (decided, e) = call_authorized-changed _ _ _ state changed in
      (authorize_resource_fields-Permits principal _ _ _ _ _ _ _ policy e).0

  -- A hire that returns was permitted, and its result and the new state of the store are what the
  -- port gave for the command and the allowing decision.
  pub accept_confirmed_hire-performed :
      (port : HireAcceptancePort S) (command : HireAcceptanceCommand) (after : S)
      {result : HireAcceptanceResult}
      → accept_confirmed_hire principal (some command) purpose policy (some port) state
        ≡ (after, ok result)
      → Permits (hire_request principal command purpose) policy
        × (port command
              (decision (hire_request principal command purpose) policy true access_permitted)
              state
            ≡ (after, ok (some result)))
  unfolding accept_confirmed_hire
  accept_confirmed_hire-performed port command after {result} returned =
      let (decided, e, e') = call_authorized-returned _ _ _ state after returned in
      let (permits, same) = authorize_resource_fields-Permits principal _ _ _ _ _ _ _ policy e in
      (permits, subst (λ d. port command d state ≡ (after, ok (some result))) same e')

-- The policy permits the principal to create exactly the record of the command, in its tenant.
abbrev pub PermitsWrite :
    AuthenticatedPrincipal → String → PurposeBoundAccessPolicy → Command → Type 0
PermitsWrite principal purpose policy (employment c) =
    Permits
      (write_request principal c.tenant_record_id c.employment_record_id "employment_record"
        purpose)
      policy
PermitsWrite principal purpose policy (position c) =
    Permits
      (write_request principal c.tenant_record_id c.position_record_id "position_record" purpose)
      policy
PermitsWrite principal purpose policy (assignment c) =
    Permits
      (write_request principal c.tenant_record_id c.assignment_record_id "assignment_record"
        purpose)
      policy
PermitsWrite principal purpose policy another = true ≡ false

-- Whatever the port does and whatever command they are given, each of the three governed writes
-- changes the store only if the policy permits the principal to create exactly the command's record
-- in the command's tenant.
pub write-governed :
    {S : Type 0} (principal : AuthenticatedPrincipal) (purpose : String)
    (policy : PurposeBoundAccessPolicy) (state : S) (port : Option (PeopleMutationPort S))
    (command : Command)
    → ((create_employment_record principal command purpose policy port state).0 ≢ state)
      ⊎ ((create_position_record principal command purpose policy port state).0 ≢ state)
      ⊎ ((create_assignment_record principal command purpose policy port state).0 ≢ state)
    → PermitsWrite principal purpose policy command
unfolding create_employment_record create_position_record create_assignment_record
write-governed principal purpose policy state port (employment c) (inl h) =
    create_employment_record-governed principal purpose policy state port c h
write-governed principal purpose policy state port (position c) (inr (inl h)) =
    create_position_record-governed principal purpose policy state port c h
write-governed principal purpose policy state port (assignment c) (inr (inr h)) =
    create_assignment_record-governed principal purpose policy state port c h
write-governed principal purpose policy state port (employment c) (inr (inl h)) = elim (h refl) [ ]
write-governed principal purpose policy state port (employment c) (inr (inr h)) = elim (h refl) [ ]
write-governed principal purpose policy state port (position c) (inl h) = elim (h refl) [ ]
write-governed principal purpose policy state port (position c) (inr (inr h)) = elim (h refl) [ ]
write-governed principal purpose policy state port (assignment c) (inl h) = elim (h refl) [ ]
write-governed principal purpose policy state port (assignment c) (inr (inl h)) = elim (h refl) [ ]
write-governed principal purpose policy state port another (inl h) = elim (h refl) [ ]
write-governed principal purpose policy state port another (inr (inl h)) = elim (h refl) [ ]
write-governed principal purpose policy state port another (inr (inr h)) = elim (h refl) [ ]
