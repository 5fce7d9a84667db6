-- ===== src/Keyverse/Authorization/Laws.antt =====
-- A decision allows access exactly when every attribute of the request meets the policy.
use mathlib.Core.List.{Memᴰ}
use orgmetra.Base.{
  ap, ◌≢◌, Bool-cases, any_of-mem, mem_of_any_of, and_true, str_eq, any_of, if◌then◌else◌, subst,
  List, String, ◌↔◌, ◌≡◌, refl, true, false, inl, inr, arith, ok, err, [], ◌∷◌, eq_iff, sym,
}
use orgmetra.Keyverse.Authorization.{
  PurposeBoundAccessPolicy, PurposeBoundAccessRequest, AuthorizationDecision, decision, is_subset,
  evaluate_purpose_bound_access, require_purpose_bound_access, access_permitted,
}

-- Every attribute of the request meets the policy.
pub record Permits (request : PurposeBoundAccessRequest) (policy : PurposeBoundAccessPolicy)
    : Type 0 where
  pub context_tenant : request.tenant_record_id ≡ policy.tenant_record_id
  pub actor_tenant : request.actor_tenant_record_id ≡ policy.tenant_record_id
  pub resource_tenant : request.resource_tenant_record_id ≡ policy.tenant_record_id
  pub kind : request.resource_kind ≡ policy.resource_kind
  pub purpose : request.purpose_code ≡ policy.purpose_code
  pub operation : request.operation_code ≡ policy.operation_code
  pub scope : Memᴰ policy.required_scope_code request.granted_scope_codes
  pub fields : (f : String) → Memᴰ f request.requested_fields → Memᴰ f policy.permitted_fields

pub str_mem : (s : String) (xs : List String) → any_of (str_eq s) xs ≡ true → Memᴰ s xs
str_mem s xs h =
    let (t, m, e) = mem_of_any_of (str_eq s) xs h in
    subst (λ z. Memᴰ z xs) (sym ((eq_iff s t).0 e)) m

pub mem-str : (s : String) (xs : List String) → Memᴰ s xs → any_of (str_eq s) xs ≡ true
mem-str s xs m = any_of-mem (str_eq s) xs m ((eq_iff s s).1 refl)

pub is_subset-mem :
    (xs ys : List String) → is_subset xs ys ≡ true → (f : String) → Memᴰ f xs → Memᴰ f ys
unfolding is_subset
is_subset-mem [] ys h f m = elim m [ ]
is_subset-mem (x ∷ xs) ys h f (Memᴰ.head e) =
    subst (λ z. Memᴰ z ys) (sym e) (str_mem x ys (and_true _ _ h).0)
is_subset-mem (x ∷ xs) ys h f (Memᴰ.tail m) = is_subset-mem xs ys (and_true _ _ h).1 f m

mem-is_subset :
    (xs ys : List String) → ((f : String) → Memᴰ f xs → Memᴰ f ys) → is_subset xs ys ≡ true
unfolding is_subset
mem-is_subset [] ys h = refl
mem-is_subset (x ∷ xs) ys h =
    rw (mem-str x ys (h x (Memᴰ.head refl))) (mem-is_subset xs ys (λ f m. h f (Memᴰ.tail m)))

module _ (request : PurposeBoundAccessRequest) (policy : PurposeBoundAccessPolicy) where
  Permits-of_allowed :
      (evaluate_purpose_bound_access request policy).allowed ≡ true → Permits request policy
  unfolding evaluate_purpose_bound_access
  Permits-of_allowed h = record {
    context_tenant = ground arith;
    actor_tenant = ground arith;
    resource_tenant = ground arith;
    kind = ground (arith, eq_iff request.resource_kind policy.resource_kind);
    purpose = ground (arith, eq_iff request.purpose_code policy.purpose_code);
    operation = ground (arith, eq_iff request.operation_code policy.operation_code);
    scope = str_mem policy.required_scope_code request.granted_scope_codes (ground arith);
    fields = is_subset-mem request.requested_fields policy.permitted_fields (ground arith);
  }

  allowed_of_Permits :
      Permits request policy
      → evaluate_purpose_bound_access request policy ≡ decision request policy true access_permitted
  unfolding evaluate_purpose_bound_access
  allowed_of_Permits p = ground (
    arith,
    p.context_tenant,
    p.actor_tenant,
    p.resource_tenant,
    (eq_iff request.resource_kind policy.resource_kind).1 p.kind,
    (eq_iff request.purpose_code policy.purpose_code).1 p.purpose,
    (eq_iff request.operation_code policy.operation_code).1 p.operation,
    mem-str policy.required_scope_code request.granted_scope_codes p.scope,
    mem-is_subset request.requested_fields policy.permitted_fields p.fields,
  )

  -- Access is required successfully exactly when every attribute meets the policy; the decision
  -- then is the allowing one, and its authorized fields are all the requested ones.
  pub require_access_iff :
      (decided : AuthorizationDecision)
      → (require_purpose_bound_access request policy ≡ ok decided) ↔ (
          Permits request policy
          × (decided ≡ decision request policy true access_permitted)
          × (decided.authorized_fields ≡ request.requested_fields))
  unfolding require_purpose_bound_access decision
  require_access_iff decided = (
    λ h.
        let p = Permits-of_allowed (granted (evaluate_purpose_bound_access request policy) h) in
        (p, ground (arith, allowed_of_Permits p), ground (arith, allowed_of_Permits p)),
    λ (p, same, all). rw (allowed_of_Permits p) (ground arith),
  )
    where
      granted :
          (d : AuthorizationDecision)
          → (if d.allowed then ok d else err d) ≡ ok decided
          → d.allowed ≡ true
      granted d h = ground arith

  denied_fields :
      (evaluate_purpose_bound_access request policy).allowed ≡ false
      → (evaluate_purpose_bound_access request policy).authorized_fields ≡ []
  unfolding evaluate_purpose_bound_access
  denied_fields h = ground arith

  -- Whatever the decision, it hands out only fields that were requested and that the policy permits.
  pub authorized_fields-permitted :
      (f : String)
      → Memᴰ f (evaluate_purpose_bound_access request policy).authorized_fields
      → Memᴰ f request.requested_fields × Memᴰ f policy.permitted_fields
  unfolding decision
  authorized_fields-permitted f m =
      elim (Bool-cases ((evaluate_purpose_bound_access request policy).allowed)) [
        | inl e ↦
            let p = Permits-of_allowed e in
            let n =
              subst (λ (d : AuthorizationDecision). Memᴰ f d.authorized_fields)
                (allowed_of_Permits p) m in
            (n, p.fields f n)
        | inr e ↦ elim (subst (Memᴰ f) (denied_fields e) m) [ ]
      ]

  -- A denial hands out no field, and some attribute of the request does not meet the policy.
  pub require_access-denied :
      (decided : AuthorizationDecision)
      → require_purpose_bound_access request policy ≡ err decided
      → (decided.allowed ≡ false)
        × (decided.authorized_fields ≡ [])
        × (decided.reason_code ≢ access_permitted)
        × ¬ Permits request policy
  unfolding require_purpose_bound_access evaluate_purpose_bound_access
  require_access-denied decided h = (
    ground arith,
    ground arith,
    ground arith,
    λ p. ground (arith, ap (λ (d : AuthorizationDecision). d.allowed) (allowed_of_Permits p)),
  )
