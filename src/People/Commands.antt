-- ===== src/People/Commands.antt =====
-- The commands and results of services/people-api/src/orgmetra_people_api/mutations.py, with the
-- validation of their constructors.
--
-- A constructor argument is a dynamic value: `decimal` is a finite Decimal, by its sign, digits and
-- exponent, `not_finite` another Decimal; `moment` is a datetime. A date is its ordinal.
pub mod Ratio
pub mod Assignment
pub mod Laws
use orgmetra.Base.{
  ℕ, ◌+◌, ◌-◌, ◌*◌, ◌^◌, String, Bool, true, false, not, ◌&&◌, ◌||◌, Option, none, some, List, [],
  ◌∷◌, length, any_of, leb, ltb, ◌==◌, str_eq, if◌then◌else◌, Result, ok, err, ◌>>=◌, ◌>>◌, guard,
}
use orgmetra.Base.Int.{ℤ, pos, negsuc}
use orgmetra.Base.Regex.{
  Regex, codes, full_match, in_range, one_code, seq, alt, cls, literal, reference_pattern,
  version_pattern,
}
use orgmetra.Keyverse.Validation.{Error, value_error}
use orgmetra.Base.Uuid.{max_uuid}

pub data Argument : Type 0 where
  uuid : ℕ → Argument
  day : ℕ → Argument
  text : String → Argument
  decimal : Bool → ℕ → ℤ → Argument
  not_finite moment other : Argument

abbrev pub invalid_key : Error
invalid_key = value_error "idempotency_key" "must be 16 to 200 visible ASCII characters."

unfoldable pub validate_operational_uuid : String → Argument → Result Error ℕ
validate_operational_uuid field_name (uuid n) =
    if n == 0 || n == max_uuid
    then err (value_error field_name "must be an operational UUID.")
    else ok n
validate_operational_uuid field_name _ = err (value_error field_name "must be an operational UUID.")

unfoldable pub validate_effective_from : Argument → Result Error ℕ
validate_effective_from (day d) = ok d
validate_effective_from _ = err (value_error "effective_from" "must be a business date.")

-- A text for which the test says true.
abbrev pub accept_text : (String → Bool) → Error → Argument → Result Error String
accept_text test error (text s) = if test s then ok s else err error
accept_text test error _ = err error

unfoldable pub validate_confirmation : Argument → Result Error String
validate_confirmation =
    accept_text (full_match reference_pattern)
      (value_error "confirmation_reference" "must be a namespaced opaque reference.")

unfoldable pub validate_evidence_version : Argument → Result Error String
validate_evidence_version =
    accept_text (full_match version_pattern)
      (value_error "evidence_version_code" "must be a whitespace-free version token.")

abbrev pub is_key : String → Bool
is_key key =
    leb 16 (length (codes key))
    && leb (length (codes key)) 200
    && not (any_of (λ c. ltb c b'!' || ltb b'~' c) (codes key))

unfoldable pub validate_idempotency_key : Argument → Result Error String
validate_idempotency_key = accept_text is_key invalid_key

abbrev pub employment_statuses : List String
employment_statuses = "active" ∷ "leave" ∷ "terminated" ∷ []

abbrev pub concurrency_codes : List String
concurrency_codes = "exclusive" ∷ "concurrent" ∷ []

abbrev pub position_statuses : List String
position_statuses = "active" ∷ "open" ∷ "closed" ∷ "frozen" ∷ "abolished" ∷ []

-- `isinstance(value, str) and value in codes`
abbrev pub validate_member : List String → Error → Argument → Result Error String
validate_member members = accept_text (λ s. any_of (str_eq s) members)

pub record EmploymentMutationCommand : Type 0 where
  pub tenant_record_id : ℕ
  pub person_record_id : ℕ
  pub employment_record_id : ℕ
  pub employment_record_version_id : ℕ
  pub audit_event_record_id : ℕ
  pub outbox_delivery_record_id : ℕ
  pub employment_status_code : String
  pub employment_concurrency_code : String
  pub effective_from : ℕ
  pub confirmation_reference : String
  pub evidence_version_code : String
  pub idempotency_key : String

unfoldable pub employment_mutation_command :
    (tenant_record_id person_record_id employment_record_id employment_record_version_id
      audit_event_record_id outbox_delivery_record_id employment_status_code
      employment_concurrency_code effective_from confirmation_reference evidence_version_code
      idempotency_key : Argument)
    → Result Error EmploymentMutationCommand
employment_mutation_command tenant_record_id person_record_id employment_record_id
      employment_record_version_id audit_event_record_id outbox_delivery_record_id
      employment_status_code employment_concurrency_code effective_from confirmation_reference
      evidence_version_code idempotency_key =
    do
      tenant ← validate_operational_uuid "tenant_record_id" tenant_record_id
      person ← validate_operational_uuid "person_record_id" person_record_id
      employment ← validate_operational_uuid "employment_record_id" employment_record_id
      version ←
          validate_operational_uuid "employment_record_version_id" employment_record_version_id
      event ← validate_operational_uuid "audit_event_record_id" audit_event_record_id
      delivery ← validate_operational_uuid "outbox_delivery_record_id" outbox_delivery_record_id
      start ← validate_effective_from effective_from
      status ←
          validate_member employment_statuses
            (value_error "employment_status_code" "must be active, leave, or terminated.")
            employment_status_code
      concurrency ←
          validate_member concurrency_codes
            (value_error "employment_concurrency_code" "must be exclusive or concurrent.")
            employment_concurrency_code
      confirmation ← validate_confirmation confirmation_reference
      evidence ← validate_evidence_version evidence_version_code
      key ← validate_idempotency_key idempotency_key
      ok (record {
        tenant_record_id = tenant;
        person_record_id = person;
        employment_record_id = employment;
        employment_record_version_id = version;
        audit_event_record_id = event;
        outbox_delivery_record_id = delivery;
        employment_status_code = status;
        employment_concurrency_code = concurrency;
        effective_from = start;
        confirmation_reference = confirmation;
        evidence_version_code = evidence;
        idempotency_key = key;
      })

pub record PositionMutationCommand : Type 0 where
  pub tenant_record_id : ℕ
  pub organization_unit_id : ℕ
  pub job_profile_id : ℕ
  pub position_record_id : ℕ
  pub position_record_version_id : ℕ
  pub audit_event_record_id : ℕ
  pub outbox_delivery_record_id : ℕ
  pub position_status_code : String
  pub effective_from : ℕ
  pub confirmation_reference : String
  pub evidence_version_code : String
  pub idempotency_key : String

unfoldable pub position_mutation_command :
    (tenant_record_id organization_unit_id job_profile_id position_record_id
      position_record_version_id audit_event_record_id outbox_delivery_record_id
      position_status_code effective_from confirmation_reference evidence_version_code
      idempotency_key : Argument)
    → Result Error PositionMutationCommand
position_mutation_command tenant_record_id organization_unit_id job_profile_id position_record_id
      position_record_version_id audit_event_record_id outbox_delivery_record_id
      position_status_code effective_from confirmation_reference evidence_version_code
      idempotency_key =
    do
      tenant ← validate_operational_uuid "tenant_record_id" tenant_record_id
      unit ← validate_operational_uuid "organization_unit_id" organization_unit_id
      profile ← validate_operational_uuid "job_profile_id" job_profile_id
      position ← validate_operational_uuid "position_record_id" position_record_id
      version ← validate_operational_uuid "position_record_version_id" position_record_version_id
      event ← validate_operational_uuid "audit_event_record_id" audit_event_record_id
      delivery ← validate_operational_uuid "outbox_delivery_record_id" outbox_delivery_record_id
      start ← validate_effective_from effective_from
      status ←
          validate_member position_statuses
            (value_error "position_status_code" "must be a staffable or closed seat status.")
            position_status_code
      confirmation ← validate_confirmation confirmation_reference
      evidence ← validate_evidence_version evidence_version_code
      key ← validate_idempotency_key idempotency_key
      ok (record {
        tenant_record_id = tenant;
        organization_unit_id = unit;
        job_profile_id = profile;
        position_record_id = position;
        position_record_version_id = version;
        audit_event_record_id = event;
        outbox_delivery_record_id = delivery;
        position_status_code = status;
        effective_from = start;
        confirmation_reference = confirmation;
        evidence_version_code = evidence;
        idempotency_key = key;
      })
