-- ===== src/People/Authorization.antt =====
-- services/people-api/src/orgmetra_people_api/authorization.py.
pub mod Laws
use orgmetra.Base.{ℕ, String, List, map, Result, ok, err, ◌>>=◌}
use orgmetra.Keyverse.Validation.{Value, atom, text, uuid, frozenset}
use orgmetra.Keyverse.Authorization.{
  PurposeBoundAccessPolicy, PurposeBoundAccessRequest, AuthorizationDecision, access_request,
  require_purpose_bound_access,
}
use orgmetra.People.Errors.{ServiceError, checked, denied}
use orgmetra.People.Auth.{AuthenticatedPrincipal}

-- AuthorizationDeniedError, as it leaves the adapter.
abbrev pub or_denied :
    Result AuthorizationDecision AuthorizationDecision → Result ServiceError AuthorizationDecision
or_denied (ok decided) = ok decided
or_denied (err decided) = err (denied decided)

abbrev pub texts : List String → Value
texts names = frozenset (map (λ s. text s) names)

unfoldable pub authorize_resource_fields :
    AuthenticatedPrincipal
    → (tenant_record_id resource_tenant_record_id : ℕ)
    → (resource_reference purpose_code operation_code resource_kind : String) → List String
    → PurposeBoundAccessPolicy
    → Result ServiceError AuthorizationDecision
authorize_resource_fields principal tenant_record_id resource_tenant_record_id resource_reference
      purpose_code operation_code resource_kind requested_fields policy =
    do
      request ← checked (
          access_request (atom (uuid tenant_record_id)) (atom (uuid principal.tenant_record_id))
            (atom (uuid resource_tenant_record_id)) (atom (text principal.actor_reference))
            (atom (text resource_reference)) (atom (text purpose_code)) (atom (text operation_code))
            (atom (text resource_kind)) (texts requested_fields)
            (texts principal.granted_scope_codes))
      or_denied (require_purpose_bound_access request policy)
