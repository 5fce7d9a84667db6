-- ===== src/People/Hire.antt =====
-- services/people-api/src/orgmetra_people_api/hire.py: materializing a confirmed hire.
--
-- `is_space` is Python's table of white space, a parameter. The port is a function over any state
-- `S` of the store; none stands for an object that does not implement it.
use orgmetra.Base.{
  ℕ, String, Bool, not, ◌||◌, Option, none, some, [], ◌∷◌, length, any_of, ltb, Result, ok, err,
  ◌>>=◌, ◌>>◌, guard,
}
use orgmetra.Base.Regex.{is_blank, codes, in_range, full_match, code_pattern}
use orgmetra.Keyverse.Validation.{Error, value_error}
use orgmetra.Keyverse.Authorization.{PurposeBoundAccessPolicy, AuthorizationDecision}
use orgmetra.People.Errors.{type_error, Outcome, call_authorized}
use orgmetra.Base.Uuid.{concat, uuid_hex}
use orgmetra.People.Auth.{AuthenticatedPrincipal}
use orgmetra.People.Authorization.{authorize_resource_fields}
use orgmetra.People.Commands.{
  Argument, text, validate_operational_uuid, validate_effective_from, validate_idempotency_key,
  accept_text,
}

pub record HireAcceptanceCommand : Type 0 where
  pub tenant_record_id : ℕ
  pub candidate_profile_id : ℕ
  pub selection_decision_id : ℕ
  pub person_record_id : ℕ
  pub person_name_record_id : ℕ
  pub employment_record_id : ℕ
  pub employment_record_version_id : ℕ
  pub candidate_worker_conversion_record_id : ℕ
  pub audit_event_record_id : ℕ
  pub outbox_delivery_record_id : ℕ
  pub effective_from : ℕ
  pub display_name : String
  pub idempotency_key : String
  pub employment_status_code : String

-- A code point that UTF-8 cannot encode.
abbrev pub is_surrogate : ℕ → Bool
is_surrogate c = in_range 55296 57343 c

unfoldable pub validate_status_code : Argument → Result Error String
validate_status_code =
    accept_text (full_match code_pattern)
      (value_error "employment_status_code" "must be a lower snake_case code.")

module _ (is_space : ℕ → Bool) where
  unfoldable pub validate_display_name : Argument → Result Error String
  validate_display_name (text name) = do
    guard (not (any_of is_surrogate (codes name)))
        (value_error "display_name" "must contain valid Unicode scalar values.")
    guard (not (is_blank is_space (codes name) || ltb 512 (length (codes name))))
        (value_error "display_name" "must contain 1-512 usable characters.")
    guard (not (any_of (λ c. ltb c 32) (codes name)))
        (value_error "display_name" "must not contain control characters.")
    ok name
  validate_display_name _ = err (value_error "display_name" "must be a string.")

  unfoldable pub hire_acceptance_command :
      (tenant_record_id candidate_profile_id selection_decision_id person_record_id
        person_name_record_id employment_record_id employment_record_version_id
        candidate_worker_conversion_record_id audit_event_record_id outbox_delivery_record_id
        effective_from display_name idempotency_key employment_status_code : Argument)
      → Result Error HireAcceptanceCommand
  hire_acceptance_command tenant_record_id candidate_profile_id selection_decision_id
        person_record_id person_name_record_id employment_record_id employment_record_version_id
        candidate_worker_conversion_record_id audit_event_record_id outbox_delivery_record_id
        effective_from display_name idempotency_key employment_status_code =
      do
        tenant ← validate_operational_uuid "tenant_record_id" tenant_record_id
        profile ← validate_operational_uuid "candidate_profile_id" candidate_profile_id
        selection ← validate_operational_uuid "selection_decision_id" selection_decision_id
        person ← validate_operational_uuid "person_record_id" person_record_id
        person_name ← validate_operational_uuid "person_name_record_id" person_name_record_id
        employment ← validate_operational_uuid "employment_record_id" employment_record_id
        version ←
            validate_operational_uuid "employment_record_version_id" employment_record_version_id
        conversion ←
            validate_operational_uuid "candidate_worker_conversion_record_id"
              candidate_worker_conversion_record_id
        event ← validate_operational_uuid "audit_event_record_id" audit_event_record_id
        delivery ← validate_operational_uuid "outbox_delivery_record_id" outbox_delivery_record_id
        start ← validate_effective_from effective_from
        name ← validate_display_name display_name
        key ← validate_idempotency_key idempotency_key
        status ← validate_status_code employment_status_code
        ok (record {
          tenant_record_id = tenant;
          candidate_profile_id = profile;
          selection_decision_id = selection;
          person_record_id = person;
          person_name_record_id = person_name;
          employment_record_id = employment;
          employment_record_version_id = version;
          candidate_worker_conversion_record_id = conversion;
          audit_event_record_id = event;
          outbox_delivery_record_id = delivery;
          effective_from = start;
          display_name = name;
          idempotency_key = key;
          employment_status_code = status;
        })

pub record HireAcceptanceResult : Type 0 where
  pub person_record_id : ℕ
  pub employment_record_id : ℕ
  pub candidate_worker_conversion_record_id : ℕ

unfoldable pub hire_acceptance_result :
    Argument → Argument → Argument → Result Error HireAcceptanceResult
hire_acceptance_result person_record_id employment_record_id candidate_worker_conversion_record_id =
    do
      person ← validate_operational_uuid "person_record_id" person_record_id
      employment ← validate_operational_uuid "employment_record_id" employment_record_id
      conversion ←
          validate_operational_uuid "candidate_worker_conversion_record_id"
            candidate_worker_conversion_record_id
      ok (record {
        person_record_id = person;
        employment_record_id = employment;
        candidate_worker_conversion_record_id = conversion;
      })

-- The port's `accept_hire`.
abbrev pub HireAcceptancePort : Type 0 → Type 0
HireAcceptancePort S =
    HireAcceptanceCommand → AuthorizationDecision → S → Outcome S (Option HireAcceptanceResult)

module _ {S : Type 0} where
  -- A command of none is an object of another class.
  unfoldable pub accept_confirmed_hire :
      AuthenticatedPrincipal
      → Option HireAcceptanceCommand
      → String
      → PurposeBoundAccessPolicy
      → Option (HireAcceptancePort S)
      → S
      → Outcome S HireAcceptanceResult
  accept_confirmed_hire principal none purpose_code policy mutation_port state =
      (state, err (type_error "command must be a HireAcceptanceCommand"))
  accept_confirmed_hire principal (some command) purpose_code policy none state =
      (state, err (type_error "mutation_port must implement HireAcceptancePort"))
  accept_confirmed_hire principal (some command) purpose_code policy (some accept_hire) state =
      call_authorized "mutation_port must return HireAcceptanceResult"
        (authorize_resource_fields principal command.tenant_record_id command.tenant_record_id
          (concat "selection_decision:" (uuid_hex command.selection_decision_id)) purpose_code
          "materialize_worker" "selection_decision" ("candidate_worker_conversion" ∷ []) policy)
        (λ authorization. accept_hire command authorization state) state
