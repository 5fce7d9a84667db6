-- ===== src/People/Store/Reader/Tests.antt =====
-- A read against a database with fixed rows.
use orgmetra.People.Store.WorkerRows.{worker_from_rows, worker_from_row, read_target}
use orgmetra.People.Hire.{validate_status_code}
use orgmetra.People.Authorization.{authorize_resource_fields}
use orgmetra.Base.Uuid.{uuid_text, uuid_hex, hex_before, prepend_at, concat}
use orgmetra.Keyverse.Validation.{
  before_colon, matching_texts, validate_scope_set, validate_field_set, validate_reference,
  validate_resource_kind, validate_code, validate_uuid,
}
use orgmetra.People.Reading.{
  worker_view, field_values_of, authorized_field_value, worker_people_record, validate_worker_name,
  read_worker_people_record, authorize_read, validate_effective_on, AuthorizedWorkerPeopleView,
}
use orgmetra.People.Store.Reader.{store_read_worker, read_worker_body, read_port}
use orgmetra.Base.Regex.{nullable, derivative, match_codes, full_match}
use orgmetra.Keyverse.Authorization.{
  decision, require_purpose_bound_access, evaluate_purpose_bound_access, is_subset, access_request,
  PurposeBoundAccessPolicy,
}
use orgmetra.Base.{refl, ◌≡◌, ℕ, [], ◌∷◌, ok, any_of}
use orgmetra.People.Texts.{sorted_texts}
use orgmetra.People.Store.Samples.{platform, database, principal}
use orgmetra.People.Store.Reader.Laws.{read_worker-stored, IsFetchedWorker}
use orgmetra.People.Reading.Laws.{IsGovernedView}
use orgmetra.People.Commands.{validate_operational_uuid, uuid, day}
use orgmetra.People.Store.Session.{transaction, execute, ◌>>=◌}

abbrev read_policy : PurposeBoundAccessPolicy
read_policy = record {
  tenant_record_id = 1;
  policy_version_code = "v1";
  resource_kind = "person_record";
  purpose_code = "staffing";
  operation_code = "read_record";
  required_scope_code = "orgmetra.people.write";
  permitted_fields = "display_name" ∷ [];
}

abbrev ada_view : AuthorizedWorkerPeopleView
ada_view = record {
  resource_reference = "person_record:00000000000000000000000000000002";
  field_values = ("display_name", "Ada") ∷ [];
}

read_returned :
    read_worker_people_record principal
      (uuid 1)
      (uuid 2)
      (day 10)
      "staffing"
      ("display_name" ∷ [])
      read_policy
      (read_port platform (database []))
      0
    ≡ (3, ok ada_view)
unfolding full_match match_codes derivative nullable any_of validate_uuid validate_code
    validate_resource_kind validate_reference validate_field_set validate_scope_set matching_texts
    before_colon access_request is_subset evaluate_purpose_bound_access require_purpose_bound_access
    concat prepend_at hex_before uuid_hex uuid_text authorize_resource_fields
    validate_operational_uuid validate_effective_on authorize_read read_worker_people_record
    validate_worker_name worker_people_record validate_status_code authorized_field_value
    field_values_of worker_view decision read_target worker_from_row worker_from_rows
    read_worker_body store_read_worker ◌>>=◌ execute transaction sorted_texts
read_returned = refl

read_worker-stored_example :
    (tenant person : ℕ) × (uuid 1 ≡ uuid tenant)
    × (uuid 2 ≡ uuid person)
    × (governed : IsGovernedView principal tenant person
        (day 10)
        "staffing"
        ("display_name" ∷ [])
        read_policy
        (read_port platform (database []))
        0
        3
        ada_view)
    × IsFetchedWorker platform (database []) tenant person (day 10) 0 3 governed.worker
read_worker-stored_example =
    read_worker-stored platform (database []) principal "staffing" ("display_name" ∷ []) read_policy
      0 3 (uuid 1) (uuid 2) (day 10) read_returned
