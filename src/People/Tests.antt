-- ===== src/People/Tests.antt =====
-- A principal of tenant 1, one policy for each resource, ports that count their calls.
use orgmetra.Base.{
  inl, ℕ, suc, String, ◌≡◌, ◌≢◌, refl, true, false, some, [], ◌∷◌, any_of, ok, arith,
}
use orgmetra.Base.Int.{pos, negsuc}
use orgmetra.Base.Regex.{full_match, match_codes, derivative, nullable}
use orgmetra.Kernel.Assignment.{ratio_is_valid}
use orgmetra.Keyverse.Validation.{
  validate_uuid, validate_code, validate_resource_kind, validate_reference, validate_field_set,
  validate_scope_set, matching_texts, before_colon,
}
use orgmetra.Keyverse.Authorization.{
  PurposeBoundAccessPolicy, access_request, is_subset, evaluate_purpose_bound_access,
  require_purpose_bound_access,
}
use orgmetra.Keyverse.Authorization.Laws.{Permits}
use orgmetra.Base.Uuid.{concat, prepend_at, hex_before, uuid_hex, uuid_text}
use orgmetra.People.Texts.{add_text, sorted_texts}
use orgmetra.Keyverse.Validation.{codes_eq}
use orgmetra.Base.Regex.{codes}
use orgmetra.Base.{List, ◌≤◌, ◌++◌, false, length, map, not}
use orgmetra.People.Auth.Laws.{extract_bearer_token-ok}
use orgmetra.People.Auth.{
  casefold, visible_ascii, split_space, extract_bearer_token, AuthenticatedPrincipal,
}
use orgmetra.People.Authorization.{authorize_resource_fields}
use orgmetra.People.Commands.{
  uuid, day, text, decimal, EmploymentMutationCommand, PositionMutationCommand,
  validate_operational_uuid, validate_effective_from, validate_confirmation,
  validate_evidence_version, validate_idempotency_key,
}
use orgmetra.People.Commands.Ratio.{validate_allocation_ratio}
use orgmetra.People.Commands.Assignment.{
  AssignmentMutationCommand, assignment_mutation_command, employment,
}
use orgmetra.People.Commands.Laws.{command-ratio_is_valid}
use orgmetra.People.Mutations.{
  PeopleMutationPort, create_employment_record, create_position_record, create_assignment_record,
}
use orgmetra.People.Hire.{HireAcceptanceCommand, HireAcceptancePort, accept_confirmed_hire}
use orgmetra.People.Governance.{
  write-governed, accept_confirmed_hire-governed, write_request, hire_request,
}
use orgmetra.People.Reading.{
  authorized_field_value, field_values_of, worker_view, validate_effective_on, authorize_read,
  read_worker_people_record,
}

abbrev principal : AuthenticatedPrincipal
principal = record {
  tenant_record_id = 1;
  actor_reference = "actor:a1";
  granted_scope_codes = "orgmetra.people.write" ∷ [];
}

abbrev policy_for : String → String → String → PurposeBoundAccessPolicy
policy_for kind operation field = record {
  tenant_record_id = 1;
  policy_version_code = "v1";
  resource_kind = kind;
  purpose_code = "staffing";
  operation_code = operation;
  required_scope_code = "orgmetra.people.write";
  permitted_fields = field ∷ [];
}

abbrev port : PeopleMutationPort ℕ
port = record {
  create_employment = λ command decided calls.
      (suc calls, ok (some (record { employment_record_id = command.employment_record_id })));
  create_position = λ command decided calls.
      (suc calls, ok (some (record { position_record_id = command.position_record_id })));
  create_assignment = λ command decided calls.
      (suc calls, ok (some (record { assignment_record_id = command.assignment_record_id })));
}

abbrev key : String
key = "0123456789abcdef"

abbrev new_employment : EmploymentMutationCommand
new_employment = record {
  tenant_record_id = 1;
  person_record_id = 2;
  employment_record_id = 3;
  employment_record_version_id = 4;
  audit_event_record_id = 5;
  outbox_delivery_record_id = 6;
  employment_status_code = "active";
  employment_concurrency_code = "exclusive";
  effective_from = 10;
  confirmation_reference = "approval:a1";
  evidence_version_code = "v1";
  idempotency_key = key;
}

abbrev new_position : PositionMutationCommand
new_position = record {
  tenant_record_id = 1;
  organization_unit_id = 7;
  job_profile_id = 8;
  position_record_id = 9;
  position_record_version_id = 4;
  audit_event_record_id = 5;
  outbox_delivery_record_id = 6;
  position_status_code = "open";
  effective_from = 10;
  confirmation_reference = "approval:a1";
  evidence_version_code = "v1";
  idempotency_key = key;
}

abbrev new_assignment : AssignmentMutationCommand
new_assignment = record {
  tenant_record_id = 1;
  employment_record_id = 3;
  person_record_id = 2;
  position_record_id = 9;
  assignment_record_id = 11;
  audit_event_record_id = 5;
  outbox_delivery_record_id = 6;
  allocation_ratio = pos 5000;
  effective_from = 10;
  confirmation_reference = "approval:a1";
  evidence_version_code = "v1";
  idempotency_key = key;
}

run : Unit {0}
unfolding full_match match_codes derivative nullable any_of validate_uuid validate_code
    validate_resource_kind validate_reference validate_field_set validate_scope_set matching_texts
    before_colon access_request is_subset evaluate_purpose_bound_access require_purpose_bound_access
    concat prepend_at hex_before uuid_hex uuid_text add_text sorted_texts authorize_resource_fields
    validate_operational_uuid validate_effective_from validate_confirmation
    validate_evidence_version validate_idempotency_key validate_allocation_ratio
    assignment_mutation_command create_employment_record create_position_record
    create_assignment_record accept_confirmed_hire authorized_field_value field_values_of
    worker_view validate_effective_on authorize_read read_worker_people_record ratio_is_valid
run = tt

accepted_assignment :
    assignment_mutation_command
      (uuid 1)
      (uuid 3)
      (uuid 2)
      (uuid 9)
      (uuid 11)
      (uuid 5)
      (uuid 6)
      (decimal false 5 (negsuc 0))
      (day 10)
      (text "approval:a1")
      (text "v1")
      (text key)
    ≡ ok new_assignment
unfolding run
accepted_assignment = refl

command-ratio_is_valid_example : ratio_is_valid (pos 5000) ≡ true
command-ratio_is_valid_example =
    command-ratio_is_valid (uuid 1) (uuid 3) (uuid 2) (uuid 9) (uuid 11) (uuid 5) (uuid 6)
      (decimal false 5 (negsuc 0)) (day 10) (text "approval:a1") (text "v1") (text key)
      accepted_assignment

one_not_zero : ◌≢◌ {A = ℕ} 1 0
one_not_zero = λ e. omega (arith, e)

employment_changed :
    (create_employment_record principal
      (employment new_employment)
      "staffing"
      (policy_for "employment_record" "create_record" "employment_record")
      (some port)
      0).0
    ≢ 0
unfolding run
employment_changed = one_not_zero

write-governed_example :
    Permits
      (write_request principal 1 3 "employment_record" "staffing")
      (policy_for "employment_record" "create_record" "employment_record")
write-governed_example =
    write-governed principal "staffing"
      (policy_for "employment_record" "create_record" "employment_record") 0 (some port)
      (employment new_employment) (inl employment_changed)

abbrev hire : HireAcceptanceCommand
hire = record {
  tenant_record_id = 1;
  candidate_profile_id = 21;
  selection_decision_id = 22;
  person_record_id = 2;
  person_name_record_id = 23;
  employment_record_id = 3;
  employment_record_version_id = 4;
  candidate_worker_conversion_record_id = 24;
  audit_event_record_id = 5;
  outbox_delivery_record_id = 6;
  effective_from = 10;
  display_name = "Ada";
  idempotency_key = key;
  employment_status_code = "active";
}

abbrev accept_hire : HireAcceptancePort ℕ
accept_hire command decided calls = (
  suc calls,
  ok (
      some (record {
        person_record_id = command.person_record_id;
        employment_record_id = command.employment_record_id;
        candidate_worker_conversion_record_id = command.candidate_worker_conversion_record_id;
      })),
)

abbrev hire_policy : PurposeBoundAccessPolicy
hire_policy = policy_for "selection_decision" "materialize_worker" "candidate_worker_conversion"

hire_changed :
    (accept_confirmed_hire principal (some hire) "staffing" hire_policy (some accept_hire) 0).0 ≢ 0
unfolding run
hire_changed = one_not_zero

accept_confirmed_hire-governed_example :
    Permits (hire_request principal hire "staffing") hire_policy
accept_confirmed_hire-governed_example =
    accept_confirmed_hire-governed principal "staffing" hire_policy 0 (some accept_hire) hire
      hire_changed

extracted : extract_bearer_token (some (codes "BEARER a1")) ≡ ok (codes "a1")
unfolding any_of split_space extract_bearer_token
extracted = refl

extract_bearer_token-ok_example :
    (scheme : List ℕ) × (codes "BEARER a1" ≡ scheme ++ (b' ' ∷ codes "a1"))
    × (codes_eq (map casefold scheme) (codes "bearer") ≡ true)
    × (1 ≤ length (codes "a1"))
    × (length (codes "a1") ≤ 8192)
    × (any_of (λ c. not (visible_ascii c)) (codes "a1") ≡ false)
extract_bearer_token-ok_example = extract_bearer_token-ok (codes "BEARER a1") (codes "a1") extracted
