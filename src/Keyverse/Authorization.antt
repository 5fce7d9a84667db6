-- ===== src/Keyverse/Authorization.antt =====
-- packages/keyverse-adapter/src/orgmetra_keyverse_adapter/authorization.py: policies, requests,
-- decisions and their evaluation. A frozenset is a list that is read as a set; a decision's
-- `next_action` is a function of its allowance and reason.
pub mod Laws
mod Tests
use orgmetra.Base.{
  ℕ, String, Bool, true, false, not, ◌&&◌, ◌||◌, none, some, List, [], ◌∷◌, any_of, str_eq, ◌==◌,
  if◌then◌else◌, Result, ok, err, ◌>>=◌,
}
use orgmetra.Keyverse.Validation.{
  Value, Error, validate_uuid, validate_code, validate_resource_kind, validate_scope,
  validate_reference, validate_version, validate_field_set, validate_scope_set,
}

pub record PurposeBoundAccessPolicy : Type 0 where
  pub tenant_record_id : ℕ
  pub policy_version_code : String
  pub resource_kind : String
  pub purpose_code : String
  pub operation_code : String
  pub required_scope_code : String
  pub permitted_fields : List String

-- The constructor of a policy with its `__post_init__`.
unfoldable pub access_policy :
    (tenant_record_id policy_version_code resource_kind purpose_code operation_code
      required_scope_code permitted_fields : Value)
    → Result Error PurposeBoundAccessPolicy
access_policy tenant_record_id policy_version_code resource_kind purpose_code operation_code
      required_scope_code permitted_fields =
    do
      tenant ← validate_uuid "tenant_record_id" tenant_record_id
      version ← validate_version policy_version_code
      kind ← validate_resource_kind resource_kind
      purpose ← validate_code "purpose_code" purpose_code
      operation ← validate_code "operation_code" operation_code
      scope ← validate_scope "required_scope_code" required_scope_code
      fields ← validate_field_set "permitted_fields" permitted_fields
      ok (record {
        tenant_record_id = tenant;
        policy_version_code = version;
        resource_kind = kind;
        purpose_code = purpose;
        operation_code = operation;
        required_scope_code = scope;
        permitted_fields = fields;
      })

pub record PurposeBoundAccessRequest : Type 0 where
  pub tenant_record_id : ℕ
  pub actor_tenant_record_id : ℕ
  pub resource_tenant_record_id : ℕ
  pub actor_reference : String
  pub resource_reference : String
  pub purpose_code : String
  pub operation_code : String
  pub resource_kind : String
  pub requested_fields : List String
  pub granted_scope_codes : List String

-- The constructor of a request with its `__post_init__`.
unfoldable pub access_request :
    (tenant_record_id actor_tenant_record_id resource_tenant_record_id actor_reference
      resource_reference purpose_code operation_code resource_kind requested_fields
      granted_scope_codes : Value)
    → Result Error PurposeBoundAccessRequest
access_request tenant_record_id actor_tenant_record_id resource_tenant_record_id actor_reference
      resource_reference purpose_code operation_code resource_kind requested_fields
      granted_scope_codes =
    do
      tenant ← validate_uuid "tenant_record_id" tenant_record_id
      actor_tenant ← validate_uuid "actor_tenant_record_id" actor_tenant_record_id
      resource_tenant ← validate_uuid "resource_tenant_record_id" resource_tenant_record_id
      actor ← validate_reference "actor_reference" none actor_reference
      kind ← validate_resource_kind resource_kind
      resource ← validate_reference "resource_reference" (some kind) resource_reference
      purpose ← validate_code "purpose_code" purpose_code
      operation ← validate_code "operation_code" operation_code
      fields ← validate_field_set "requested_fields" requested_fields
      scopes ← validate_scope_set granted_scope_codes
      ok (record {
        tenant_record_id = tenant;
        actor_tenant_record_id = actor_tenant;
        resource_tenant_record_id = resource_tenant;
        actor_reference = actor;
        resource_reference = resource;
        purpose_code = purpose;
        operation_code = operation;
        resource_kind = kind;
        requested_fields = fields;
        granted_scope_codes = scopes;
      })

-- The reason codes, in the order of the checks.
pub data Reason : Type 0 where
  tenant_scope_mismatch resource_not_allowed purpose_not_allowed operation_not_allowed : Reason
  required_scope_missing field_not_allowed access_permitted : Reason

pub record AuthorizationDecision : Type 0 where
  pub allowed : Bool
  pub tenant_record_id : ℕ
  pub actor_reference : String
  pub resource_reference : String
  pub policy_version_code : String
  pub purpose_code : String
  pub operation_code : String
  pub resource_kind : String
  pub requested_fields : List String
  pub authorized_fields : List String
  pub reason_code : Reason

-- `_decision`
unfoldable pub decision :
    PurposeBoundAccessRequest → PurposeBoundAccessPolicy → Bool → Reason → AuthorizationDecision
decision request policy allowed reason_code = record {
  allowed = allowed;
  tenant_record_id = request.tenant_record_id;
  actor_reference = request.actor_reference;
  resource_reference = request.resource_reference;
  policy_version_code = policy.policy_version_code;
  purpose_code = request.purpose_code;
  operation_code = request.operation_code;
  resource_kind = request.resource_kind;
  requested_fields = request.requested_fields;
  authorized_fields = if allowed then request.requested_fields else [];
  reason_code = reason_code;
}

-- `requested.issubset(permitted)`
unfoldable pub is_subset : List String → List String → Bool
is_subset [] permitted = true
is_subset (f ∷ requested) permitted = any_of (str_eq f) permitted && is_subset requested permitted

unfoldable pub evaluate_purpose_bound_access :
    PurposeBoundAccessRequest → PurposeBoundAccessPolicy → AuthorizationDecision
unfolding decision
evaluate_purpose_bound_access request policy =
    if not (request.tenant_record_id == policy.tenant_record_id)
      || (not (request.actor_tenant_record_id == policy.tenant_record_id)
          || not (request.resource_tenant_record_id == policy.tenant_record_id))
    then decision request policy false tenant_scope_mismatch
    else if not (str_eq request.resource_kind policy.resource_kind)
    then decision request policy false resource_not_allowed
    else if not (str_eq request.purpose_code policy.purpose_code)
    then decision request policy false purpose_not_allowed
    else if not (str_eq request.operation_code policy.operation_code)
    then decision request policy false operation_not_allowed
    else if not (any_of (str_eq policy.required_scope_code) request.granted_scope_codes)
    then decision request policy false required_scope_missing
    else if not (is_subset request.requested_fields policy.permitted_fields)
    then decision request policy false field_not_allowed
    else decision request policy true access_permitted

-- `require_purpose_bound_access`: the error is AuthorizationDeniedError, which holds the decision.
unfoldable pub require_purpose_bound_access :
    PurposeBoundAccessRequest
    → PurposeBoundAccessPolicy
    → Result AuthorizationDecision AuthorizationDecision
require_purpose_bound_access request policy =
    let decided = evaluate_purpose_bound_access request policy in
    if decided.allowed then ok decided else err decided
