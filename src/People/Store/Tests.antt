-- ===== src/People/Store/Tests.antt =====
-- A database that answers with fixed rows and counts its inserts.
use orgmetra.People.Digest.Laws.{digest-retry, with_identifiers}
use orgmetra.People.Store.Port.Laws.{
  create_employment_record-stored, create_assignment_record-stored,
}
use orgmetra.Kernel.Employment.{
  validate_person_employment_exclusivity, check_exclusive_pair, is_visible_exclusive,
  check_concurrency,
}
use orgmetra.Keyverse.Authorization.Laws.{Permits}
use mathlib.Core.List.{Memᴰ}
use orgmetra.People.Store.Assignment.Guarded.{Insertable, create_assignment_body-guarded}
use orgmetra.People.Store.Executed.{IsCommitted}
use orgmetra.People.Store.Replay.{FindsReplay, replay-answered}
use orgmetra.People.Commands.{EmploymentMutationCommand}
use orgmetra.People.Store.Assignment.{
  store_create_assignment, create_assignment_body, answer_assignment, store_assignment,
  check_assignment,
}
use orgmetra.People.Store.Writes.{
  post_lock_recorded_at, created_event, record_audit_event, record_idempotency, replayed_record_id,
  require_authorization,
}
use orgmetra.People.Store.Session.{Session, ◌>>=◌, transaction, execute}
use orgmetra.Base.Json.{
  sort_members, sort_keys, members_text, json_text, escape_code, escape, dumps,
}
use orgmetra.Kernel.Audit.{
  content_digest, canonical_json, to_cloudevent, audit_outbox_event, check_confirmation,
  check_event,
}
use orgmetra.Kernel.Assignment.{
  is_staffable, sum_from, check_ratio, ratio_is_valid, check_contradiction, is_assignment_visible,
  add_day, probe_days_from, allocation_probe_days, check_day, validate_assignment_write,
  validate_position_seat_capacity, validate_assignment_portfolio,
  validate_assignment_position_coverage, validate_assignment_employment_coverage,
}
use orgmetra.Kernel.Coverage.{covering_at, cover_from, union_covers}
use orgmetra.Kernel.Resolution.{
  at_most_one, is_visible, resolve_bitemporal_facts, resolve_single_valued_fact,
}
use orgmetra.People.Store.Port.{store_port}
use orgmetra.People.Authorization.{authorize_resource_fields}
use orgmetra.People.Governance.{write_request}
use orgmetra.People.Mutations.{create_assignment_record, create_employment_record, authorize_write}
use orgmetra.Keyverse.Validation.{
  before_colon, matching_texts, validate_scope_set, validate_field_set, validate_reference,
  validate_resource_kind, validate_code, validate_uuid,
}
use orgmetra.Keyverse.Authorization.{
  AuthorizationDecision, require_purpose_bound_access, evaluate_purpose_bound_access, is_subset,
  access_request, access_permitted, decision, PurposeBoundAccessPolicy,
}
use orgmetra.People.Commands.Assignment.{
  command_route, employment, assignment, AssignmentMutationResult, AssignmentMutationCommand,
}
use orgmetra.People.Store.Rows.{
  replayed_from_rows, clock_instant, require_one_conversion, read_rows, aware_datetime,
  operational_uuid, assignment_from_row, position_version_from_row, employment_version_from_row,
}
use orgmetra.Kernel.Intervals.{
  require_ordered, recorded_contains, le_datetime, lt_datetime, overlaps, contains, has_offset,
  recorded_interval, date_interval,
}
use orgmetra.Base.{
  for_pairs, for_each, select, keep_if, subst, ℕ, String, ◌≡◌, refl, true, none, some, List, [],
  ◌∷◌, Result, ok, err, arith, any_of, suc,
}
use orgmetra.People.Store.Employment.{
  check_employment, store_employment, answer_employment, create_employment_body,
  store_create_employment,
}
use orgmetra.People.Store.Assignment.Laws as Assignments
use orgmetra.People.Store.Employment.Laws as Employments
use orgmetra.People.Store.Samples.{platform, employed, seat, database, rows_of, principal}
use orgmetra.Base.Int.{pos, ◌+ℤ◌}
use orgmetra.Base.Regex.{full_match, match_codes, derivative, nullable}
use orgmetra.Base.Uuid.{concat, prepend_at, hex_before, uuid_hex, uuid_text}
use orgmetra.Kernel.Samples.{at, days, since}
use orgmetra.Kernel.Values.{uuid, text}
use orgmetra.Kernel.Facts.{
  position_identity, assignment_identity, employment_identity, AssignmentFact,
}
use orgmetra.People.Errors.{people_mutation_integrity_error, ServiceError, Outcome}
use orgmetra.People.Digest.{
  CommandKey, mutation_command_digest, digest_payload, semantic_command, idempotency_record_id,
  command_key, canonical_allocation_ratio,
}
use orgmetra.People.Store.{Row, Driver, Statement, record_audit, insert_assignment}
use orgmetra.People.Store.Proposed.{proposed_employment, proposed_assignment}
use orgmetra.People.Store.Rows.Laws.{
  employment_row, position_row, assignment_row, IsStorable, IsStorableEmployment,
  IsStorablePosition, IsStorableAssignment, facts-read_back,
}

abbrev assigned : AssignmentFact
assigned = record {
  tenant_record_id = 1;
  assignment_record_id = 12;
  employment_record_id = 3;
  person_record_id = 2;
  position_record_id = 9;
  allocation_ratio = pos 5000;
  effective = days 2 (some 5);
  recorded = record { start = at 5; end = some (at 7) };
}

open_days-IsStorable : IsStorable (days 0 none) (since 5)
unfolding date_interval recorded_interval
open_days-IsStorable = record {
  days = refl;
  instants = refl;
  aware_start = refl;
  aware_end = λ t e. cc;
}

closed_days-IsStorable : IsStorable (days 2 (some 5)) (record { start = at 5; end = some (at 7) })
unfolding date_interval recorded_interval
closed_days-IsStorable = record {
  days = refl;
  instants = refl;
  aware_start = refl;
  aware_end = λ t e. let q : at 7 ≡ t = cc in subst (λ z. has_offset z ≡ true) q refl;
}

employed-IsStorableEmployment : IsStorableEmployment employed
employed-IsStorableEmployment = record {
  employment = record { not_nil = λ e. omega (arith, e); not_max = λ e. omega (arith, e) };
  version = record { not_nil = λ e. omega (arith, e); not_max = λ e. omega (arith, e) };
  person = record { not_nil = λ e. omega (arith, e); not_max = λ e. omega (arith, e) };
  intervals = open_days-IsStorable;
}

seat-IsStorablePosition : IsStorablePosition seat
seat-IsStorablePosition = record {
  position = record { not_nil = λ e. omega (arith, e); not_max = λ e. omega (arith, e) };
  version = record { not_nil = λ e. omega (arith, e); not_max = λ e. omega (arith, e) };
  intervals = open_days-IsStorable;
}

assigned-IsStorableAssignment : IsStorableAssignment assigned
assigned-IsStorableAssignment = record {
  assignment = record { not_nil = λ e. omega (arith, e); not_max = λ e. omega (arith, e) };
  employment = record { not_nil = λ e. omega (arith, e); not_max = λ e. omega (arith, e) };
  person = record { not_nil = λ e. omega (arith, e); not_max = λ e. omega (arith, e) };
  position = record { not_nil = λ e. omega (arith, e); not_max = λ e. omega (arith, e) };
  intervals = closed_days-IsStorable;
}

facts-read_back_example :
    (employment_version_from_row 1 (employment_row employed) ≡ ok employed)
    × (position_version_from_row 1 (position_row seat) ≡ ok seat)
    × (assignment_from_row 1 (assignment_row assigned) ≡ ok assigned)
facts-read_back_example =
    facts-read_back employed seat assigned employed-IsStorableEmployment seat-IsStorablePosition
      assigned-IsStorableAssignment

abbrev policy_for : String → PurposeBoundAccessPolicy
policy_for kind = record {
  tenant_record_id = 1;
  policy_version_code = "v1";
  resource_kind = kind;
  purpose_code = "staffing";
  operation_code = "create_record";
  required_scope_code = "orgmetra.people.write";
  permitted_fields = kind ∷ [];
}

abbrev new_assignment : AssignmentMutationCommand
new_assignment = record {
  tenant_record_id = 1;
  employment_record_id = 3;
  person_record_id = 2;
  position_record_id = 9;
  assignment_record_id = 11;
  audit_event_record_id = 5;
  outbox_delivery_record_id = 6;
  allocation_ratio = pos 5000;
  effective_from = 10;
  confirmation_reference = "approval:a1";
  evidence_version_code = "v1";
  idempotency_key = "0123456789abcdef";
}

run : Unit {0}
unfolding full_match match_codes derivative nullable any_of validate_uuid validate_code
    validate_resource_kind validate_reference validate_field_set validate_scope_set matching_texts
    before_colon access_request is_subset evaluate_purpose_bound_access require_purpose_bound_access
    concat prepend_at hex_before uuid_hex uuid_text authorize_resource_fields
    create_employment_record create_assignment_record
run = tt

store_run : Unit {0}
unfolding run any_of keep_if select for_each for_pairs ◌+ℤ◌ contains overlaps lt_datetime
    le_datetime recorded_contains date_interval recorded_interval require_ordered
    employment_identity assignment_identity position_identity resolve_single_valued_fact
    resolve_bitemporal_facts is_visible at_most_one union_covers cover_from covering_at
    validate_assignment_employment_coverage validate_assignment_position_coverage
    validate_assignment_portfolio validate_position_seat_capacity validate_assignment_write
    check_day allocation_probe_days probe_days_from add_day is_assignment_visible
    check_contradiction ratio_is_valid check_ratio sum_from operational_uuid aware_datetime
    employment_version_from_row position_version_from_row assignment_from_row read_rows
    require_one_conversion clock_instant replayed_from_rows proposed_assignment check_event
    check_confirmation audit_outbox_event to_cloudevent canonical_json content_digest dumps escape
    escape_code json_text members_text sort_keys sort_members canonical_allocation_ratio
    command_route command_key idempotency_record_id semantic_command digest_payload
    mutation_command_digest ◌>>=◌ execute transaction require_authorization replayed_record_id
    record_idempotency record_audit_event created_event post_lock_recorded_at check_assignment
    store_assignment answer_assignment create_assignment_body store_create_assignment decision
store_run = tt

authorized :
    authorize_write principal 1 11 "assignment_record" "staffing" (policy_for "assignment_record")
    ≡ ok (
        decision
          (write_request principal 1 11 "assignment_record" "staffing")
          (policy_for "assignment_record")
          true
          access_permitted)
unfolding run decision
authorized = refl

abbrev answer : Outcome ℕ AssignmentMutationResult
answer =
    create_assignment_record principal (assignment new_assignment) "staffing"
      (policy_for "assignment_record") (some (store_port platform (database []))) 0

stored : answer ≡ (12, ok (record { assignment_record_id = 11 }))
unfolding store_run is_staffable
stored = refl

create_assignment_record-stored_example :
    Permits
      (write_request principal 1 11 "assignment_record" "staffing")
      (policy_for "assignment_record")
    × (session : Session ℕ) × IsCommitted
        (database [])
        (create_assignment_body platform (database []) new_assignment (
          decision
            (write_request principal 1 11 "assignment_record" "staffing")
            (policy_for "assignment_record")
            true
            access_permitted))
        0
        12
        (record { assignment_record_id = 11 })
        session
    × Assignments.Concluded platform
        (database [])
        new_assignment
        (decision
          (write_request principal 1 11 "assignment_record" "staffing")
          (policy_for "assignment_record")
          true
          access_permitted)
        (record { assignment_record_id = 11 })
        session.trace
create_assignment_record-stored_example =
    create_assignment_record-stored platform (database []) principal "staffing"
      (policy_for "assignment_record") 0 12 new_assignment stored

abbrev new_employment : EmploymentMutationCommand
new_employment = record {
  tenant_record_id = 1;
  person_record_id = 2;
  employment_record_id = 21;
  employment_record_version_id = 22;
  audit_event_record_id = 5;
  outbox_delivery_record_id = 6;
  employment_status_code = "active";
  employment_concurrency_code = "exclusive";
  effective_from = 10;
  confirmation_reference = "approval:a1";
  evidence_version_code = "v1";
  idempotency_key = "0123456789abcdef";
}

employment_stored :
    create_employment_record principal
      (employment new_employment)
      "staffing"
      (policy_for "employment_record")
      (some (store_port platform (database [])))
      0
    ≡ (11, ok (record { employment_record_id = 21 }))
unfolding store_run check_employment store_employment answer_employment create_employment_body
    store_create_employment proposed_employment check_concurrency is_visible_exclusive
    check_exclusive_pair validate_person_employment_exclusivity
employment_stored = refl

create_employment_record-stored_example :
    Permits
      (write_request principal 1 21 "employment_record" "staffing")
      (policy_for "employment_record")
    × (session : Session ℕ) × IsCommitted
        (database [])
        (create_employment_body platform (database []) new_employment (
          decision
            (write_request principal 1 21 "employment_record" "staffing")
            (policy_for "employment_record")
            true
            access_permitted))
        0
        11
        (record { employment_record_id = 21 })
        session
    × Employments.Concluded platform
        (database [])
        new_employment
        (decision
          (write_request principal 1 21 "employment_record" "staffing")
          (policy_for "employment_record")
          true
          access_permitted)
        (record { employment_record_id = 21 })
        session.trace
create_employment_record-stored_example =
    create_employment_record-stored platform (database []) principal "staffing"
      (policy_for "employment_record") 0 11 new_employment employment_stored

abbrev allowed : AuthorizationDecision
allowed =
    decision (write_request principal 1 11 "assignment_record" "staffing")
      (policy_for "assignment_record") true access_permitted

-- The key is bound under another digest, which the fourth statement finds.
abbrev bound_elsewhere : Row
bound_elsewhere = uuid 11 ∷ text "other" ∷ []

conflicting :
    store_create_assignment platform
      (database (bound_elsewhere ∷ []))
      (assignment new_assignment)
      (some allowed)
      0
    ≡ (0, err (people_mutation_integrity_error "idempotency key is bound to a different command"))
unfolding store_run
conflicting = refl

abbrev refuse : Statement → Result ServiceError (List Row)
refuse (record_audit tenant event delivery envelope digest topic) =
    err (people_mutation_integrity_error "refused")
refuse statement = ok (rows_of [] statement)

-- A database that refuses the audit pair, after the assignment was inserted.
abbrev refusing : Driver ℕ
refusing = record {
  run = λ statement count. (suc count, refuse statement);
  commit = λ before after. (after, ok tt);
  rollback = λ before after. before;
}

abbrev refused : Session ℕ
refused =
    (create_assignment_body platform refusing new_assignment allowed
      (record { trace = []; store = 0 })).0

abbrev refusal : Result ServiceError AssignmentMutationResult
refusal =
    (create_assignment_body platform refusing new_assignment allowed
      (record { trace = []; store = 0 })).1

abbrev inserted : Statement
inserted = insert_assignment 1 11 3 2 9 (pos 5000) 10 (at 9)

refused_raises : refusal ≡ err (people_mutation_integrity_error "refused")
unfolding store_run is_staffable
refused_raises = refl

inserted-mem : Memᴰ inserted refused.trace
unfolding store_run is_staffable
inserted-mem = Memᴰ.tail (Memᴰ.head refl)

create_assignment_body-guarded_example : Insertable platform refusing new_assignment allowed
create_assignment_body-guarded_example =
    create_assignment_body-guarded platform refusing new_assignment allowed 0 refused refusal refl
      inserted inserted-mem refl

abbrev bound : Row
bound = uuid 13 ∷ text "digest" ∷ []

required :
    require_authorization
      (some allowed)
      1
      (concat "assignment_record:" (uuid_hex 11))
      "assignment_record"
      ("assignment_record" ∷ [])
    ≡ ok allowed
unfolding store_run
required = refl

abbrev retry_key : CommandKey
retry_key = record {
  tenant_record_id = 1;
  command_route = "assignment-records";
  idempotency_key = "0123456789abcdef";
}

keyed : command_key (assignment new_assignment) ≡ ok retry_key
unfolding store_run
keyed = refl

digested : mutation_command_digest platform (assignment new_assignment) (some allowed) ≡ ok "digest"
unfolding store_run
digested = refl

finds : FindsReplay (database (bound ∷ [])) 1 retry_key "digest" 13 0 4
finds = record {
  opened = 1;
  scoped = 2;
  locked = 3;
  found = 4;
  opened_rows = [];
  scoped_rows = [];
  locked_rows = [];
  opens = refl;
  scopes = refl;
  locks = refl;
  finds = refl;
  commits = refl;
}

replay-answered_example :
    store_create_assignment platform
      (database (bound ∷ []))
      (assignment new_assignment)
      (some allowed)
      0
    ≡ (4, ok (record { assignment_record_id = 13 }))
replay-answered_example =
    replay-answered platform (database (bound ∷ [])) new_assignment (some allowed) allowed retry_key
      "digest" 13 0 4 required keyed digested
      (record { not_nil = λ e. omega (arith, e); not_max = λ e. omega (arith, e) }) finds

-- The decision of the retry names another record.
abbrev allowed_again : AuthorizationDecision
allowed_again =
    decision (write_request principal 1 99 "assignment_record" "staffing")
      (policy_for "assignment_record") true access_permitted

same_actor : allowed_again.actor_reference ≡ allowed.actor_reference
unfolding decision
same_actor = refl

same_purpose : allowed_again.purpose_code ≡ allowed.purpose_code
unfolding decision
same_purpose = refl

digest-retry_example :
    (command_key (with_identifiers 99 98 97 96 (assignment new_assignment))
      ≡ command_key (assignment new_assignment))
    × (mutation_command_digest platform
          (with_identifiers 99 98 97 96 (assignment new_assignment))
          (some allowed_again)
        ≡ mutation_command_digest platform (assignment new_assignment) (some allowed))
digest-retry_example =
    digest-retry platform (assignment new_assignment) 99 98 97 96 allowed allowed_again same_actor
      same_purpose
