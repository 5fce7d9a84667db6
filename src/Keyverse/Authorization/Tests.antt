-- ===== src/Keyverse/Authorization/Tests.antt =====
-- A read of one field under a policy, and a request from another tenant.
use orgmetra.Keyverse.Authorization.Laws.{
  require_access_iff, require_access-denied, Permits, authorized_fields-permitted,
}
use mathlib.Core.List.{Memᴰ}
use orgmetra.Base.{◌≢◌, ◌↔◌, ◌≡◌, refl, true, false, [], ◌∷◌, ok, err, any_of}
use orgmetra.Keyverse.Authorization.{
  PurposeBoundAccessPolicy, PurposeBoundAccessRequest, decision, is_subset,
  evaluate_purpose_bound_access, require_purpose_bound_access, access_permitted,
  tenant_scope_mismatch,
}

abbrev policy : PurposeBoundAccessPolicy
policy = record {
  tenant_record_id = 1;
  policy_version_code = "v1";
  resource_kind = "person_record";
  purpose_code = "payroll";
  operation_code = "read_record";
  required_scope_code = "orgmetra.people.read";
  permitted_fields = "display_name" ∷ "employment_record_id" ∷ [];
}

abbrev request : PurposeBoundAccessRequest
request = record {
  tenant_record_id = 1;
  actor_tenant_record_id = 1;
  resource_tenant_record_id = 1;
  actor_reference = "actor:a1";
  resource_reference = "person_record:2";
  purpose_code = "payroll";
  operation_code = "read_record";
  resource_kind = "person_record";
  requested_fields = "display_name" ∷ [];
  granted_scope_codes = "orgmetra.people.read" ∷ [];
}

abbrev foreign : PurposeBoundAccessRequest
foreign = record request { actor_tenant_record_id = 9; purpose_code = "audit" }

run : Unit {0}
unfolding evaluate_purpose_bound_access require_purpose_bound_access is_subset any_of
run = tt

granted :
    require_purpose_bound_access request policy ≡ ok (decision request policy true access_permitted)
unfolding run decision
granted = refl

refused :
    require_purpose_bound_access foreign policy
    ≡ err (decision foreign policy false tenant_scope_mismatch)
unfolding run decision
refused = refl

require_access_iff_example :
    (require_purpose_bound_access request policy
      ≡ ok (decision request policy true access_permitted))
    ↔ (Permits request policy
        × (decision request policy true access_permitted
            ≡ decision request policy true access_permitted)
        × ((decision request policy true access_permitted).authorized_fields
            ≡ request.requested_fields))
require_access_iff_example =
    require_access_iff request policy (decision request policy true access_permitted)

authorized : (evaluate_purpose_bound_access request policy).authorized_fields ≡ "display_name" ∷ []
unfolding run decision
authorized = refl

has_name : Memᴰ "display_name" (evaluate_purpose_bound_access request policy).authorized_fields
has_name = rw authorized (Memᴰ.head refl)

authorized_fields-permitted_example :
    Memᴰ "display_name" request.requested_fields × Memᴰ "display_name" policy.permitted_fields
authorized_fields-permitted_example =
    authorized_fields-permitted request policy "display_name" has_name

require_access-denied_example :
    ((decision foreign policy false tenant_scope_mismatch).allowed ≡ false)
    × ((decision foreign policy false tenant_scope_mismatch).authorized_fields ≡ [])
    × ((decision foreign policy false tenant_scope_mismatch).reason_code ≢ access_permitted)
    × ¬ Permits foreign policy
require_access-denied_example =
    require_access-denied foreign policy (decision foreign policy false tenant_scope_mismatch)
      refused
