-- ===== src/People/Authorization/Laws.antt =====
-- An authorized call: the request that was evaluated holds the caller's own arguments.
use orgmetra.Base.{
  ok_kept, >>=-ok_elim, ℕ, String, ◌≡◌, subst, true, Option, none, some, List, [], ◌∷◌, map, Result,
  ok, err, >>=-eq-ok, arith,
}
use orgmetra.Base.Regex.{Regex}
use orgmetra.Keyverse.Validation.{
  Error, atom, uuid, text, validate_uuid, validate_code, validate_resource_kind, validate_reference,
  validate_field_set, validate_scope_set, require_match, matching_texts,
}
use orgmetra.Keyverse.Authorization.{
  PurposeBoundAccessPolicy, PurposeBoundAccessRequest, AuthorizationDecision, access_request,
  decision, access_permitted,
}
use orgmetra.Keyverse.Authorization.Laws.{Permits, require_access_iff}
use orgmetra.People.Errors.{checked}
use orgmetra.People.Auth.{AuthenticatedPrincipal}
use orgmetra.People.Authorization.{authorize_resource_fields, or_denied, texts}

pub checked-ok {ℓ} : {A : Type ℓ} (m : Result Error A) {a : A} → checked m ≡ ok a → m ≡ ok a
checked-ok (ok b) h = ground arith
checked-ok (err e) h = cc

or_denied-ok :
    (m : Result AuthorizationDecision AuthorizationDecision) {d : AuthorizationDecision}
    → or_denied m ≡ ok d
    → m ≡ ok d
or_denied-ok (ok b) h = ground arith
or_denied-ok (err e) h = cc

module _ where
  uuid_kept : (f : String) (n : ℕ) {x : ℕ} → validate_uuid f (atom (uuid n)) ≡ ok x → x ≡ n
  unfolding validate_uuid
  uuid_kept f n h = ground arith

  match_kept :
      (p : Regex) (e : Error) (s : String) {x : String}
      → require_match p e (atom (text s)) ≡ ok x
      → x ≡ s
  match_kept p e s h = ground arith

  code_kept : (f s : String) {x : String} → validate_code f (atom (text s)) ≡ ok x → x ≡ s
  unfolding validate_code
  code_kept f s h = match_kept _ _ s h

  kind_kept : (s : String) {x : String} → validate_resource_kind (atom (text s)) ≡ ok x → x ≡ s
  unfolding validate_resource_kind
  kind_kept s h = match_kept _ _ s h

  reference_kept :
      (f : String) (o : Option String) (s : String) {x : String}
      → validate_reference f o (atom (text s)) ≡ ok x
      → x ≡ s
  unfolding validate_reference
  reference_kept f none s h = ground arith
  reference_kept f (some o) s h = ground arith

  texts_kept :
      (p : Regex) (e : Error) (xs : List String) {ys : List String}
      → matching_texts p e (map (λ s. text s) xs) ≡ ok ys
      → ys ≡ xs
  unfolding matching_texts
  texts_kept p e [] h = cc
  texts_kept p e (x ∷ xs) {ys} h =
      let (y, q, h') = >>=-eq-ok (require_match p e (atom (text x))) _ h in
      let (rest, q', h'') = >>=-eq-ok (matching_texts p e (map (λ s. text s) xs)) _ h' in
      cc (match_kept p e x q, texts_kept p e xs q')

  fields_kept :
      (f : String) (xs : List String) {ys : List String}
      → validate_field_set f (texts xs) ≡ ok ys
      → ys ≡ xs
  unfolding validate_field_set
  fields_kept f [] h = cc
  fields_kept f (x ∷ xs) h = texts_kept _ _ (x ∷ xs) h

  scopes_kept :
      (xs : List String) {ys : List String} → validate_scope_set (texts xs) ≡ ok ys → ys ≡ xs
  unfolding validate_scope_set
  scopes_kept [] h = cc
  scopes_kept (x ∷ xs) h = texts_kept _ _ (x ∷ xs) h

-- The request that a caller's arguments make.
abbrev pub request_of :
    AuthenticatedPrincipal
    → (tenant_record_id resource_tenant_record_id : ℕ)
    → (resource_reference purpose_code operation_code resource_kind : String) → List String
    → PurposeBoundAccessRequest
request_of principal tenant resource_tenant reference purpose operation kind fields = record {
  tenant_record_id = tenant;
  actor_tenant_record_id = principal.tenant_record_id;
  resource_tenant_record_id = resource_tenant;
  actor_reference = principal.actor_reference;
  resource_reference = reference;
  purpose_code = purpose;
  operation_code = operation;
  resource_kind = kind;
  requested_fields = fields;
  granted_scope_codes = principal.granted_scope_codes;
}

module _ (principal : AuthenticatedPrincipal) (tenant resource_tenant : ℕ)
    (reference purpose operation kind : String) (fields : List String) where
  request_kept :
      {request : PurposeBoundAccessRequest}
      → access_request
          (atom (uuid tenant))
          (atom (uuid principal.tenant_record_id))
          (atom (uuid resource_tenant))
          (atom (text principal.actor_reference))
          (atom (text reference))
          (atom (text purpose))
          (atom (text operation))
          (atom (text kind))
          (texts fields)
          (texts principal.granted_scope_codes)
        ≡ ok request
      → request
        ≡ request_of principal tenant resource_tenant reference purpose operation kind fields
  unfolding access_request
  request_kept {request} h =
      >>=-ok_elim (validate_uuid "tenant_record_id" (atom (uuid tenant))) h λ x1 e1 h1.
        >>=-ok_elim
          (validate_uuid "actor_tenant_record_id" (atom (uuid principal.tenant_record_id))) h1
          λ x2 e2 h2.
            >>=-ok_elim (validate_uuid "resource_tenant_record_id" (atom (uuid resource_tenant))) h2
              λ x3 e3 h3.
                >>=-ok_elim
                  (validate_reference "actor_reference" none
                    (atom (text principal.actor_reference)))
                  h3
                  λ x4 e4 h4. >>=-ok_elim (validate_resource_kind (atom (text kind))) h4 λ x5 e5 h5.
                    >>=-ok_elim
                      (validate_reference "resource_reference" (some x5) (atom (text reference))) h5
                      λ x6 e6 h6.
                        >>=-ok_elim (validate_code "purpose_code" (atom (text purpose))) h6
                          λ x7 e7 h7.
                            >>=-ok_elim (validate_code "operation_code" (atom (text operation))) h7
                              λ x8 e8 h8.
                                >>=-ok_elim (validate_field_set "requested_fields" (texts fields))
                                  h8
                                  λ x9 e9 h9.
                                    >>=-ok_elim
                                      (validate_scope_set (texts principal.granted_scope_codes)) h9
                                      λ x10 e10 h10. rw (
                                        ok_kept h10,
                                        uuid_kept _ _ e1,
                                        uuid_kept _ _ e2,
                                        uuid_kept _ _ e3,
                                        reference_kept _ _ _ e4,
                                        kind_kept _ e5,
                                        reference_kept _ _ _ e6,
                                        code_kept _ _ e7,
                                        code_kept _ _ e8,
                                        fields_kept _ _ e9,
                                        scopes_kept _ e10,
                                      )

  -- A decision that is returned is the allowing one for the caller's own arguments, and each of
  -- them meets the policy.
  pub authorize_resource_fields-Permits :
      (policy : PurposeBoundAccessPolicy) {decided : AuthorizationDecision}
      → authorize_resource_fields principal tenant resource_tenant reference purpose operation kind
          fields policy
        ≡ ok decided
      → Permits
          (request_of principal tenant resource_tenant reference purpose operation kind fields)
          policy
        × (decided
            ≡ decision
                (request_of principal tenant resource_tenant reference purpose operation kind
                  fields)
                policy
                true
                access_permitted)
  unfolding authorize_resource_fields
  authorize_resource_fields-Permits policy {decided} h =
      let (request, e, h') =
        >>=-eq-ok
          (checked (
            access_request (atom (uuid tenant)) (atom (uuid principal.tenant_record_id))
              (atom (uuid resource_tenant)) (atom (text principal.actor_reference))
              (atom (text reference)) (atom (text purpose)) (atom (text operation))
              (atom (text kind)) (texts fields) (texts principal.granted_scope_codes)))
          _ h in
      let same = request_kept (checked-ok _ e) in
      subst (λ r. Permits r policy × (decided ≡ decision r policy true access_permitted)) same
        (let (permits, same, fields) =
            (require_access_iff request policy decided).0 (or_denied-ok _ h') in
          (permits, same))
