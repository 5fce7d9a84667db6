-- ===== src/People/Reading.antt =====
-- services/people-api/src/orgmetra_people_api/people.py: the governed read of a worker.
--
-- The read port is a function over any state `S`, so that a call of it can be seen. The arguments
-- tenant_record_id, person_record_id and effective_on are dynamic values. `is_space` is Python's
-- table of white space.
pub mod Laws
use orgmetra.Base.{
  ℕ, String, Bool, not, ◌||◌, Option, none, some, List, [], ◌∷◌, ◌==◌, str_eq, if◌then◌else◌,
  Result, ok, err, ◌>>=◌,
}
use orgmetra.Base.Regex.{codes, is_blank}
use orgmetra.Keyverse.Validation.{Error, value_error}
use orgmetra.Keyverse.Authorization.{PurposeBoundAccessPolicy, AuthorizationDecision}
use orgmetra.People.Errors.{
  ServiceError, Outcome, checked, people_record_not_found, people_record_integrity_error,
}
use orgmetra.Base.Uuid.{concat, uuid_hex, uuid_text}
use orgmetra.People.Texts.{sorted_texts}
use orgmetra.People.Auth.{AuthenticatedPrincipal}
use orgmetra.People.Authorization.{authorize_resource_fields}
use orgmetra.People.Commands.{Argument, text, day, moment, validate_operational_uuid}
use orgmetra.People.Hire.{validate_status_code}

pub record WorkerPeopleRecord : Type 0 where
  pub tenant_record_id : ℕ
  pub candidate_worker_conversion_record_id : ℕ
  pub candidate_profile_id : ℕ
  pub person_record_id : ℕ
  pub employment_record_id : ℕ
  pub display_name : String
  pub employment_status_code : String

module _ (is_space : ℕ → Bool) where
  unfoldable pub validate_worker_name : Argument → Result Error String
  validate_worker_name (text name) =
      if is_blank is_space (codes name)
      then err (value_error "display_name" "must contain a usable worker name.")
      else ok name
  validate_worker_name _ = err (value_error "display_name" "must contain a usable worker name.")

  unfoldable pub worker_people_record :
      (tenant_record_id candidate_worker_conversion_record_id candidate_profile_id person_record_id
        employment_record_id display_name employment_status_code : Argument)
      → Result Error WorkerPeopleRecord
  worker_people_record tenant_record_id candidate_worker_conversion_record_id candidate_profile_id
        person_record_id employment_record_id display_name employment_status_code =
      do
        tenant ← validate_operational_uuid "tenant_record_id" tenant_record_id
        conversion ←
            validate_operational_uuid "candidate_worker_conversion_record_id"
              candidate_worker_conversion_record_id
        profile ← validate_operational_uuid "candidate_profile_id" candidate_profile_id
        person ← validate_operational_uuid "person_record_id" person_record_id
        employment ← validate_operational_uuid "employment_record_id" employment_record_id
        name ← validate_worker_name display_name
        status ← validate_status_code employment_status_code
        ok (record {
          tenant_record_id = tenant;
          candidate_worker_conversion_record_id = conversion;
          candidate_profile_id = profile;
          person_record_id = person;
          employment_record_id = employment;
          display_name = name;
          employment_status_code = status;
        })

pub record AuthorizedWorkerPeopleView : Type 0 where
  pub resource_reference : String
  pub field_values : List (String × String)

unfoldable pub authorized_field_value : WorkerPeopleRecord → String → Result ServiceError String
authorized_field_value worker field_name =
    if str_eq field_name "candidate_worker_conversion_record_id"
    then ok (uuid_text worker.candidate_worker_conversion_record_id)
    else if str_eq field_name "candidate_profile_id"
    then ok (uuid_text worker.candidate_profile_id)
    else if str_eq field_name "display_name"
    then ok worker.display_name
    else if str_eq field_name "employment_record_id"
    then ok (uuid_text worker.employment_record_id)
    else if str_eq field_name "employment_status_code"
    then ok worker.employment_status_code
    else err (people_record_integrity_error "authorization returned an unsupported worker field")

-- `tuple((name, _authorized_field_value(record, name)) for name in names)`
unfoldable pub field_values_of :
    WorkerPeopleRecord → List String → Result ServiceError (List (String × String))
field_values_of worker [] = ok []
field_values_of worker (name ∷ names) = do
  value ← authorized_field_value worker name
  rest ← field_values_of worker names
  ok ((name, value) ∷ rest)

-- What is done with the answer of the port.
unfoldable pub worker_view :
    (tenant_record_id person_record_id : ℕ)
    → AuthorizationDecision
    → Option WorkerPeopleRecord
    → Result ServiceError AuthorizedWorkerPeopleView
unfolding field_values_of
worker_view tenant_record_id person_record_id decided none = err people_record_not_found
worker_view tenant_record_id person_record_id decided (some worker) =
    if not (worker.tenant_record_id == tenant_record_id)
      || not (worker.person_record_id == person_record_id)
    then err (people_record_integrity_error "resolved worker does not match authorized target")
    else (do
      values ← field_values_of worker (sorted_texts decided.authorized_fields)
      ok (record { resource_reference = decided.resource_reference; field_values = values }))

-- `isinstance(effective_on, date)`, which a datetime is too; the port is given either.
unfoldable pub validate_effective_on : Argument → Result Error Argument
validate_effective_on (day d) = ok (day d)
validate_effective_on moment = ok moment
validate_effective_on _ = err (value_error "effective_on" "must be a business date.")

-- The arguments that were accepted, and the decision.
unfoldable pub authorize_read :
    AuthenticatedPrincipal
    → (tenant_record_id person_record_id effective_on : Argument) → String
    → List String
    → PurposeBoundAccessPolicy
    → Result ServiceError (ℕ × ℕ × AuthorizationDecision)
authorize_read principal tenant_record_id person_record_id effective_on purpose_code
      requested_fields policy =
    do
      tenant ← checked (validate_operational_uuid "tenant_record_id" tenant_record_id)
      person ← checked (validate_operational_uuid "person_record_id" person_record_id)
      on ← checked (validate_effective_on effective_on)
      decided ←
          authorize_resource_fields principal tenant tenant
            (concat "person_record:" (uuid_hex person)) purpose_code "read_record" "person_record"
            requested_fields policy
      ok (tenant, person, decided)

module _ {S : Type 0} where
  -- The view of the port's answer.
  abbrev pub view_answer :
      (tenant_record_id person_record_id : ℕ)
      → AuthorizationDecision
      → Outcome S (Option WorkerPeopleRecord)
      → Outcome S AuthorizedWorkerPeopleView
  view_answer tenant_record_id person_record_id decided (after, err e) = (after, err e)
  view_answer tenant_record_id person_record_id decided (after, ok answer) =
      (after, worker_view tenant_record_id person_record_id decided answer)

  unfoldable pub read_worker_people_record :
      AuthenticatedPrincipal
      → (tenant_record_id person_record_id effective_on : Argument) → String
      → List String
      → PurposeBoundAccessPolicy
      → (ℕ → ℕ → Argument → S → Outcome S (Option WorkerPeopleRecord))
      → S
      → Outcome S AuthorizedWorkerPeopleView
  read_worker_people_record principal tenant_record_id person_record_id effective_on purpose_code
        requested_fields policy read_worker state =
      elim (authorize_read principal tenant_record_id person_record_id effective_on purpose_code
        requested_fields policy) [
          | err e ↦ (state, err e)
          | ok (tenant, person, decided) ↦
              view_answer tenant person decided (read_worker tenant person effective_on state)
        ]
