-- ===== src/People/Store/Hire/Tests.antt =====
-- A hire against a database with fixed rows.
use mathlib.Core.List.{Memᴰ}
use orgmetra.People.Store.{Statement, insert_person}
use orgmetra.People.Errors.{ServiceError}
use orgmetra.Kernel.Samples.{at}
use orgmetra.People.Store.Executed.{IsCommitted}
use orgmetra.People.Store.Hire.Guarded.{IsStorableHire, accept_hire_body-guarded}
use orgmetra.People.Store.Hire.{
  hire_port, store_accept_hire, accept_hire_body, answer_hire, store_hire, record_hire_idempotency,
  replayed_hire,
}
use orgmetra.People.Store.Writes.{record_audit_event}
use orgmetra.People.Digest.{idempotency_record_id}
use orgmetra.Base.Json.{
  sort_members, sort_keys, members_text, json_text, escape_code, escape, dumps,
}
use orgmetra.Kernel.Audit.{
  content_digest, canonical_json, to_cloudevent, audit_outbox_event, check_confirmation,
  check_event,
}
use orgmetra.People.Store.Rows.{aware_datetime, operational_uuid}
use orgmetra.Kernel.Intervals.{lt_datetime}
use orgmetra.People.Authorization.{authorize_resource_fields}
use orgmetra.Base.Uuid.{uuid_text, uuid_hex, hex_before, prepend_at, concat}
use orgmetra.Keyverse.Validation.{
  before_colon, matching_texts, validate_scope_set, validate_field_set, validate_reference,
  validate_resource_kind, validate_code, validate_uuid,
}
use orgmetra.People.Store.Provenance.{
  hire_event, provenance_from_rows, hire_replayed_from_rows, hire_command_digest,
  hire_semantic_command, validate_hire_authorization, hire_result,
}
use orgmetra.Base.{refl, some, true, any_of, Result, ok, ◌≡◌, ℕ, [], ◌∷◌}
use orgmetra.Base.Regex.{nullable, derivative, match_codes, full_match}
use orgmetra.People.Hire.{accept_confirmed_hire, HireAcceptanceCommand, HireAcceptanceResult}
use orgmetra.Keyverse.Authorization.Laws.{Permits}
use orgmetra.Keyverse.Authorization.{
  require_purpose_bound_access, evaluate_purpose_bound_access, is_subset, access_request,
  access_permitted, decision, PurposeBoundAccessPolicy, AuthorizationDecision,
}
use orgmetra.People.Store.Samples.{platform, database, principal}
use orgmetra.People.Store.Hire.Laws.{accept_confirmed_hire-stored, Hired}
use orgmetra.People.Governance.{hire_request}
use orgmetra.People.Store.Session.{transaction, execute, Session, ◌>>=◌}

abbrev hire_policy : PurposeBoundAccessPolicy
hire_policy = record {
  tenant_record_id = 1;
  policy_version_code = "v1";
  resource_kind = "selection_decision";
  purpose_code = "staffing";
  operation_code = "materialize_worker";
  required_scope_code = "orgmetra.people.write";
  permitted_fields = "candidate_worker_conversion" ∷ [];
}

abbrev hire : HireAcceptanceCommand
hire = record {
  tenant_record_id = 1;
  candidate_profile_id = 21;
  selection_decision_id = 22;
  person_record_id = 2;
  person_name_record_id = 23;
  employment_record_id = 3;
  employment_record_version_id = 4;
  candidate_worker_conversion_record_id = 24;
  audit_event_record_id = 5;
  outbox_delivery_record_id = 6;
  effective_from = 10;
  display_name = "Ada";
  idempotency_key = "0123456789abcdef";
  employment_status_code = "active";
}

hire_run : Unit {0}
unfolding full_match match_codes derivative nullable any_of validate_uuid validate_code
    validate_resource_kind validate_reference validate_field_set validate_scope_set matching_texts
    before_colon access_request is_subset evaluate_purpose_bound_access require_purpose_bound_access
    concat prepend_at hex_before uuid_hex uuid_text authorize_resource_fields accept_confirmed_hire
    lt_datetime operational_uuid aware_datetime check_event check_confirmation audit_outbox_event
    to_cloudevent canonical_json content_digest dumps escape escape_code json_text members_text
    sort_keys sort_members idempotency_record_id ◌>>=◌ execute transaction record_audit_event
    decision validate_hire_authorization hire_semantic_command hire_command_digest
    hire_replayed_from_rows provenance_from_rows hire_event replayed_hire record_hire_idempotency
    store_hire answer_hire accept_hire_body store_accept_hire
hire_run = tt

hire_stored :
    accept_confirmed_hire principal
      (some hire)
      "staffing"
      hire_policy
      (some (hire_port platform (database [])))
      0
    ≡ (12, ok (hire_result hire))
unfolding hire_run
hire_stored = refl

accept_confirmed_hire-stored_example :
    Permits (hire_request principal hire "staffing") hire_policy
    × (session : Session ℕ) × IsCommitted
        (database [])
        (accept_hire_body platform
          (database [])
          hire
          (decision (hire_request principal hire "staffing") hire_policy true access_permitted))
        0
        12
        (hire_result hire)
        session
    × (hire_result hire ≡ hire_result hire)
    × Hired platform
        (database [])
        hire
        (decision (hire_request principal hire "staffing") hire_policy true access_permitted)
        session.trace
accept_confirmed_hire-stored_example =
    accept_confirmed_hire-stored platform (database []) principal "staffing" hire_policy 0 12 hire
      hire_stored

abbrev allowed : AuthorizationDecision
allowed = decision (hire_request principal hire "staffing") hire_policy true access_permitted

abbrev hired : Session ℕ
hired = (accept_hire_body platform (database []) hire allowed (record { trace = []; store = 0 })).0

abbrev answer : Result ServiceError HireAcceptanceResult
answer = (accept_hire_body platform (database []) hire allowed (record { trace = []; store = 0 })).1

abbrev first_insert : Statement
first_insert = insert_person 1 2 (at 9)

first_insert-mem : Memᴰ first_insert hired.trace
unfolding hire_run
first_insert-mem =
    Memᴰ.tail (Memᴰ.tail (Memᴰ.tail (Memᴰ.tail (Memᴰ.tail (Memᴰ.tail (Memᴰ.head refl))))))

accept_hire_body-guarded_example : IsStorableHire platform (database []) hire allowed
accept_hire_body-guarded_example =
    accept_hire_body-guarded platform (database []) hire allowed 0 hired answer refl first_insert
      first_insert-mem refl
