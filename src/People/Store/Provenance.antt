-- ===== src/People/Store/Provenance.antt =====
-- What services/people-api/src/orgmetra_people_api/postgres_hire.py computes outside its cursor: the
-- authorization of the exact decision, the digest of a hire, and its rows.
pub mod Laws
use orgmetra.Base.{
  ℕ, String, Bool, true, false, not, ◌&&◌, ◌||◌, Option, none, some, List, [], ◌∷◌, ltb, ◌==◌,
  str_eq, if◌then◌else◌, Result, ok, err, ◌>>=◌, ◌>>◌, guard,
}
use orgmetra.Base.Regex.{codes, full_match, reference_pattern}
use orgmetra.Base.Json.{Json, object, no_members, member, dumps}
use orgmetra.Base.Uuid.{concat, uuid_text, uuid_hex}
use orgmetra.Keyverse.Authorization.{AuthorizationDecision}
use orgmetra.Kernel.Intervals.{Datetime, lt_datetime}
use orgmetra.Kernel.Values.{Cell, uuid, text, stamp, flag}
use orgmetra.Kernel.Audit.{AuditOutboxEvent, audit_outbox_event, entry}
use orgmetra.People.Errors.{ServiceError, hire_decision_not_found, hire_decision_integrity_error}
use orgmetra.People.Hire.{HireAcceptanceCommand, HireAcceptanceResult}
use orgmetra.People.Digest.{Platform, CommandKey}
use orgmetra.People.Store.{Row}
use orgmetra.People.Store.Session.{from_kernel}
use orgmetra.People.Store.Rows.{operational_uuid, aware_datetime, cell_text}
use orgmetra.People.Store.Writes.{same_set}

abbrev pub hire_reference : HireAcceptanceCommand → String
hire_reference command = concat "selection_decision:" (uuid_hex command.selection_decision_id)

abbrev pub matches_hire : HireAcceptanceCommand → AuthorizationDecision → Bool
matches_hire command authorization =
    authorization.allowed
    && (authorization.tenant_record_id == command.tenant_record_id)
    && str_eq authorization.resource_reference (hire_reference command)
    && str_eq authorization.resource_kind "selection_decision"
    && str_eq authorization.operation_code "materialize_worker"
    && same_set authorization.requested_fields ("candidate_worker_conversion" ∷ [])
    && same_set authorization.authorized_fields ("candidate_worker_conversion" ∷ [])

abbrev pub unmatched : ServiceError
unmatched =
    hire_decision_integrity_error "hire mutation authorization does not match the exact decision"

-- `_validate_authorization`: an authorization of none is an object of another class.
unfoldable pub validate_hire_authorization :
    HireAcceptanceCommand → Option AuthorizationDecision → Result ServiceError AuthorizationDecision
validate_hire_authorization command none =
    err (hire_decision_integrity_error "hire mutation requires a typed authorization decision")
validate_hire_authorization command (some authorization) =
    if matches_hire command authorization then ok authorization else err unmatched

-- The key under the route of hires.
abbrev pub hire_key : HireAcceptanceCommand → CommandKey
hire_key command = record {
  tenant_record_id = command.tenant_record_id;
  command_route = "candidate-worker-conversions";
  idempotency_key = command.idempotency_key;
}

module _ (platform : Platform) where
  unfoldable pub hire_semantic_command : HireAcceptanceCommand → Json
  hire_semantic_command c = object (
      entry "audit_event_record_id" (codes (uuid_text c.audit_event_record_id)) (
        entry "candidate_profile_id" (codes (uuid_text c.candidate_profile_id)) (
          entry "candidate_worker_conversion_record_id"
            (codes (uuid_text c.candidate_worker_conversion_record_id))
            (entry "display_name" (codes c.display_name) (
              entry "effective_from" (codes (platform.day_text c.effective_from)) (
                entry "employment_record_id" (codes (uuid_text c.employment_record_id)) (
                  entry "employment_record_version_id"
                    (codes (uuid_text c.employment_record_version_id))
                    (entry "employment_status_code" (codes c.employment_status_code) (
                      entry "outbox_delivery_record_id"
                        (codes (uuid_text c.outbox_delivery_record_id))
                        (entry "person_name_record_id" (codes (uuid_text c.person_name_record_id)) (
                          entry "person_record_id" (codes (uuid_text c.person_record_id)) (
                            entry "selection_decision_id"
                              (codes (uuid_text c.selection_decision_id)) no_members))))))))))))

  unfoldable pub hire_command_digest : HireAcceptanceCommand → AuthorizationDecision → String
  unfolding hire_semantic_command
  hire_command_digest command authorization = platform.sha256 (
      dumps true (
        object (
          entry "actor_reference" (codes authorization.actor_reference) (
            entry "command_route" (codes "candidate-worker-conversions") (
              entry "method" (codes "POST") (
                entry "purpose_code" (codes authorization.purpose_code) (
                  member (codes "semantic_command") (hire_semantic_command command) (
                    entry "tenant_record_id" (codes (uuid_text command.tenant_record_id))
                      no_members))))))))

abbrev pub invalid_hire_row : ServiceError
invalid_hire_row = hire_decision_integrity_error "hire idempotency row is invalid"

abbrev pub other_hire : ServiceError
other_hire = hire_decision_integrity_error "hire idempotency key is bound to a different command"

abbrev pub other_conversion : ServiceError
other_conversion =
    hire_decision_integrity_error "hire idempotency result does not match the confirmed conversion"

-- The result of a hire that is stored or replayed.
abbrev pub hire_result : HireAcceptanceCommand → HireAcceptanceResult
hire_result command = record {
  person_record_id = command.person_record_id;
  employment_record_id = command.employment_record_id;
  candidate_worker_conversion_record_id = command.candidate_worker_conversion_record_id;
}

-- The rows of `_replayed_hire`, for the digest of the command.
unfoldable pub hire_replayed_from_rows :
    HireAcceptanceCommand → String → List Row → Result ServiceError (Option HireAcceptanceResult)
hire_replayed_from_rows command digest [] = ok none
hire_replayed_from_rows command digest ((created_cell ∷ digest_cell ∷ []) ∷ []) = do
  created ← operational_uuid invalid_hire_row created_cell
  stored ← cell_text invalid_hire_row digest_cell
  guard (str_eq stored digest) other_hire
  guard (created == command.candidate_worker_conversion_record_id) other_conversion
  ok (
      some (record {
        person_record_id = command.person_record_id;
        employment_record_id = command.employment_record_id;
        candidate_worker_conversion_record_id = created;
      }))
hire_replayed_from_rows command digest rows = err invalid_hire_row

-- What a hire uses of the decision that confirmed it.
pub record Provenance : Type 0 where
  pub confirmation_reference : String
  pub decided_at : Datetime
  pub evidence_set_id : ℕ
  pub recorded_at : Datetime

-- `cell == expected`, for a text.
abbrev pub is_text : Cell → String → Bool
is_text (text s) expected = str_eq s expected
is_text _ expected = false

-- The errors of the checks of a decision.
abbrev pub not_a_hire : ServiceError
not_a_hire = hire_decision_integrity_error "selection decision is not an explicit hire"

abbrev pub other_actor : ServiceError
other_actor =
    hire_decision_integrity_error "selection decision actor does not match authorized actor"

abbrev pub other_purpose : ServiceError
other_purpose =
    hire_decision_integrity_error "selection decision purpose does not match authorized purpose"

abbrev pub unconfirmed : ServiceError
unconfirmed = hire_decision_integrity_error "selection decision lacks valid human confirmation"

abbrev pub invalid_evidence : ServiceError
invalid_evidence =
    hire_decision_integrity_error "selection decision evidence set identity is invalid"

abbrev pub too_early : ServiceError
too_early =
    hire_decision_integrity_error "transaction time cannot precede the confirmed hire decision"

abbrev pub effective_too_early : ServiceError
effective_too_early =
    hire_decision_integrity_error "hire effective date cannot precede the confirmed decision"

abbrev pub invalid_timestamps : ServiceError
invalid_timestamps = hire_decision_integrity_error "selection decision timestamps are invalid"

abbrev pub confirmation_of : Cell → Result ServiceError String
confirmation_of (text s) = if full_match reference_pattern s then ok s else err unconfirmed
confirmation_of _ = err unconfirmed

module _ (platform : Platform) where
  -- The checks of the row of the sealed decision.
  unfoldable pub provenance_from_rows :
      HireAcceptanceCommand → AuthorizationDecision → List Row → Result ServiceError Provenance
  provenance_from_rows command decision [] =
      err (hire_decision_not_found "confirmed hire decision with sealed evidence was not found")
  provenance_from_rows command decision
        ((actor ∷ purpose ∷ code ∷ confirmation_cell ∷ decided_cell ∷ evidence_cell ∷ at_cell ∷ [])
          ∷ []) =
      do
        guard (is_text code "hire") not_a_hire
        guard (is_text actor decision.actor_reference) other_actor
        guard (is_text purpose decision.purpose_code) other_purpose
        confirmation ← confirmation_of confirmation_cell
        evidence ← operational_uuid invalid_evidence evidence_cell
        decided_at ← aware_datetime invalid_timestamps decided_cell
        recorded_at ← aware_datetime invalid_timestamps at_cell
        early ← from_kernel (lt_datetime recorded_at decided_at)
        guard (not early) too_early
        guard (not (ltb command.effective_from (platform.date_of decided_at))) effective_too_early
        ok (record {
          confirmation_reference = confirmation;
          decided_at = decided_at;
          evidence_set_id = evidence;
          recorded_at = recorded_at;
        })
  provenance_from_rows command decision (row ∷ []) =
      err (hire_decision_integrity_error "decision provenance row has an invalid shape")
  provenance_from_rows command decision (a ∷ b ∷ rows) =
      err (hire_decision_integrity_error "multiple decision provenance rows matched the hire")

  -- The envelope of a hire. The actor and the purpose of the decision are those of the
  -- authorization.
  unfoldable pub hire_event :
      HireAcceptanceCommand
      → AuthorizationDecision
      → Provenance
      → Result ServiceError AuditOutboxEvent
  hire_event command decision provenance = from_kernel (
      audit_outbox_event platform.is_space (uuid command.audit_event_record_id)
        (uuid command.tenant_record_id) (text "people_api")
        (text "orgmetra.candidate.worker_converted")
        (text (
          concat "candidate_worker_conversion_record:"
            (uuid_text command.candidate_worker_conversion_record_id)))
        (text decision.actor_reference) (text decision.purpose_code)
        (text "candidate_hire_confirmed")
        (text (concat "decision_evidence_set:" (uuid_text provenance.evidence_set_id)))
        (text "worker_created") (stamp provenance.recorded_at) (flag true)
        (text provenance.confirmation_reference))
