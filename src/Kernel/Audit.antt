-- ===== src/Kernel/Audit.antt =====
-- packages/hris-kernel/src/orgmetra_hris_kernel/audit.py: the audit and outbox envelope.
--
-- `is_space` is Python's table of white space, `utc_text` the text of an aware instant in UTC, and
-- `sha256` the hexadecimal digest of a text's UTF-8 bytes.
use orgmetra.Base.{
  ℕ, String, Bool, false, not, Option, none, some, List, ◌==◌, Result, ok, err, ◌>>=◌, ◌>>◌, guard,
  ◌++◌,
}
use orgmetra.Base.Regex.{
  Regex, codes, full_match, is_blank, code_pattern, two_word_pattern, scope_pattern,
  reference_pattern, version_pattern,
}
use orgmetra.Base.Json.{Json, Members, object, no_members, member, dumps}
use orgmetra.Base.Uuid.{uuid_text}
use orgmetra.Base.Uuid.{max_uuid}
use orgmetra.Kernel.Errors.{Error, value_error}
use orgmetra.Kernel.Intervals.{Datetime, is_naive, has_offset}
use orgmetra.Kernel.Values.{Cell, uuid, text, stamp, flag, nothing}

pub record AuditOutboxEvent : Type 0 where
  pub event_id : ℕ
  pub tenant_record_id : ℕ
  pub source_service : String
  pub event_type : String
  pub resource_reference : String
  pub actor_reference : String
  pub purpose_code : String
  pub reason_code : String
  pub evidence_version_code : String
  pub result_code : String
  pub occurred_at : Datetime
  pub high_impact : Bool
  pub confirmation_reference : Option String

-- The `isinstance` tests, each with what it lets through.
abbrev pub require_uuid : String → Cell → Result Error ℕ
require_uuid message (uuid n) = ok n
require_uuid message _ = err (value_error message)

abbrev pub require_text : String → Cell → Result Error String
require_text message (text s) = ok s
require_text message _ = err (value_error message)

abbrev pub require_optional_text : String → Cell → Result Error (Option String)
require_optional_text message nothing = ok none
require_optional_text message (text s) = ok (some s)
require_optional_text message _ = err (value_error message)

abbrev pub require_stamp : String → Cell → Result Error Datetime
require_stamp message (stamp d) = ok d
require_stamp message _ = err (value_error message)

abbrev pub require_flag : String → Cell → Result Error Bool
require_flag message (flag b) = ok b
require_flag message _ = err (value_error message)

-- `if pattern.fullmatch(value) is None: raise ValueError(message)`
abbrev pub require_pattern : Regex → String → String → Result Error (Unit {0})
require_pattern pattern message value = guard (full_match pattern value) (value_error message)

module _ (is_space : ℕ → Bool) where
  abbrev pub require_not_blank : String → String → Result Error (Unit {0})
  require_not_blank message value =
      guard (not (is_blank is_space (codes value))) (value_error message)

  -- The checks of an optional confirmation.
  unfoldable pub check_confirmation : Bool → Option String → Result Error (Unit {0})
  check_confirmation high_impact none =
      guard (not high_impact) (value_error "high-impact events require confirmation_reference.")
  check_confirmation high_impact (some confirmation) = do
    require_not_blank "confirmation_reference must not be blank when supplied." confirmation
    require_pattern reference_pattern
        "confirmation_reference must be a namespaced opaque reference." confirmation

  -- The checks of `__post_init__` that follow those of the classes.
  unfoldable pub check_event : AuditOutboxEvent → Result Error (Unit {0})
  unfolding check_confirmation
  check_event event = do
    guard (not (is_naive event.occurred_at)) (value_error "occurred_at must be timezone-aware.")
    guard (has_offset event.occurred_at) (value_error "occurred_at must resolve to a UTC offset.")
    require_pattern two_word_pattern
        "source_service must contain two or more lower snake_case words." event.source_service
    require_pattern scope_pattern
        "event_type must use a canonical lower-case orgmetra.<context>.<event> namespace."
        event.event_type
    require_not_blank "resource_reference must not be blank." event.resource_reference
    require_not_blank "actor_reference must not be blank." event.actor_reference
    require_not_blank "purpose_code must not be blank." event.purpose_code
    require_not_blank "reason_code must not be blank." event.reason_code
    require_not_blank "evidence_version_code must not be blank." event.evidence_version_code
    require_not_blank "result_code must not be blank." event.result_code
    require_pattern reference_pattern "resource_reference must be a namespaced opaque reference."
        event.resource_reference
    require_pattern reference_pattern "actor_reference must be a namespaced opaque reference."
        event.actor_reference
    require_pattern code_pattern "purpose_code must be lower snake_case code data."
        event.purpose_code
    require_pattern code_pattern "reason_code must be lower snake_case code data." event.reason_code
    require_pattern code_pattern "result_code must be lower snake_case code data." event.result_code
    require_pattern version_pattern "evidence_version_code must be a whitespace-free version token."
        event.evidence_version_code
    check_confirmation event.high_impact event.confirmation_reference

  -- The constructor of an envelope with its `__post_init__`.
  unfoldable pub audit_outbox_event :
      (event_id tenant_record_id source_service event_type resource_reference actor_reference
        purpose_code reason_code evidence_version_code result_code occurred_at high_impact
        confirmation_reference : Cell)
      → Result Error AuditOutboxEvent
  unfolding check_event
  audit_outbox_event event_id tenant_record_id source_service event_type resource_reference
        actor_reference purpose_code reason_code evidence_version_code result_code occurred_at
        high_impact confirmation_reference =
      do
        id ← require_uuid "event_id must be a UUID." event_id
        tenant ← require_uuid "tenant_record_id must be a UUID." tenant_record_id
        guard (not (id == 0)) (value_error "event_id must not be the reserved nil UUID.")
        guard (not (tenant == 0))
            (value_error "tenant_record_id must not be the reserved nil UUID.")
        guard (not (id == max_uuid)) (value_error "event_id must not be the reserved max UUID.")
        guard (not (tenant == max_uuid))
            (value_error "tenant_record_id must not be the reserved max UUID.")
        at ← require_stamp "occurred_at must be a datetime." occurred_at
        impact ← require_flag "high_impact must be a boolean." high_impact
        source ← require_text "source_service must be a string." source_service
        kind ← require_text "event_type must be a string." event_type
        resource ← require_text "resource_reference must be a string." resource_reference
        actor ← require_text "actor_reference must be a string." actor_reference
        purpose ← require_text "purpose_code must be a string." purpose_code
        reason ← require_text "reason_code must be a string." reason_code
        evidence ← require_text "evidence_version_code must be a string." evidence_version_code
        outcome ← require_text "result_code must be a string." result_code
        confirmation ←
            require_optional_text "confirmation_reference must be a string when supplied."
              confirmation_reference
        let event : AuditOutboxEvent = record {
          event_id = id;
          tenant_record_id = tenant;
          source_service = source;
          event_type = kind;
          resource_reference = resource;
          actor_reference = actor;
          purpose_code = purpose;
          reason_code = reason;
          evidence_version_code = evidence;
          result_code = outcome;
          occurred_at = at;
          high_impact = impact;
          confirmation_reference = confirmation;
        }
        check_event event
        ok event

-- An entry with a text.
abbrev pub entry : String → List ℕ → Members → Members
entry key value rest = member (codes key) (Json.text value) rest

abbrev pub confirmation_entry : Option String → Members
confirmation_entry none = no_members
confirmation_entry (some reference) = entry "orgmetraconfirmation" (codes reference) no_members

module _ (utc_text : Datetime → String) where
  -- The confirmation comes last in the mapping, where there is one.
  unfoldable pub to_cloudevent : AuditOutboxEvent → Json
  to_cloudevent event = object (
      entry "specversion" (codes "1.0") (
        entry "id" (codes (uuid_text event.event_id)) (
          entry "source" (codes "urn:orgmetra:" ++ codes event.source_service) (
            entry "type" (codes event.event_type) (
              entry "subject" (codes event.resource_reference) (
                entry "time" (codes (utc_text event.occurred_at)) (
                  entry "datacontenttype" (codes "application/json") (
                    entry "orgmetratenant" (codes (uuid_text event.tenant_record_id)) (
                      entry "orgmetraactor" (codes event.actor_reference) (
                        entry "orgmetrapurpose" (codes event.purpose_code) (
                          entry "orgmetrareason" (codes event.reason_code) (
                            entry "orgmetraevidence" (codes event.evidence_version_code) (
                              member (codes "data")
                                (object (
                                  entry "result_code" (codes event.result_code) (
                                    member (codes "high_impact") (Json.flag event.high_impact)
                                      no_members)))
                                (confirmation_entry event.confirmation_reference))))))))))))))

  unfoldable pub canonical_json : AuditOutboxEvent → List ℕ
  unfolding to_cloudevent
  canonical_json event = dumps false (to_cloudevent event)

  unfoldable pub content_digest : (List ℕ → String) → AuditOutboxEvent → String
  unfolding canonical_json
  content_digest sha256 event = sha256 (canonical_json event)
