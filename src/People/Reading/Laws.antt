-- ===== src/People/Reading/Laws.antt =====
-- What a governed read hands out.
use mathlib.Core.List.{Memᴰ}
use orgmetra.Base.Regex.{codes, codes_lt}
use orgmetra.Base.{
  Result-cases, ◌∙◌, ok_kept, Bool-cases, ℕ, String, ◌≡◌, sym, ap, subst, Option, none, some, List,
  [], ◌∷◌, ok, err, >>=-ok_elim, mem-cons_cases, arith, inl, inr, str_eq,
}
use orgmetra.Keyverse.Authorization.{
  PurposeBoundAccessPolicy, PurposeBoundAccessRequest, AuthorizationDecision, decision,
}
use orgmetra.Keyverse.Authorization.Laws.{Permits}
use orgmetra.People.Errors.{Outcome, checked}
use orgmetra.Base.Uuid.{concat, uuid_hex}
use orgmetra.People.Texts.{add_text, sorted_texts}
use orgmetra.People.Auth.{AuthenticatedPrincipal}
use orgmetra.People.Authorization.{authorize_resource_fields}
use orgmetra.People.Authorization.Laws.{request_of, authorize_resource_fields-Permits, checked-ok}
use orgmetra.People.Commands.{
  Argument, uuid, day, text, decimal, not_finite, moment, other, validate_operational_uuid,
}
use orgmetra.People.Reading.{
  WorkerPeopleRecord, AuthorizedWorkerPeopleView, authorized_field_value, field_values_of,
  worker_view, validate_effective_on, authorize_read, view_answer, read_worker_people_record,
}

mem_of-add_text :
    (t : String) (xs : List String) {n : String} → Memᴰ n (add_text t xs) → Memᴰ n (t ∷ xs)
unfolding add_text
mem_of-add_text t [] m = m
mem_of-add_text t (x ∷ xs) {n} m = elim (Bool-cases (str_eq t x)) [
  | inl e ↦ Memᴰ.tail (rw e at m)
  | inr e ↦ elim (Bool-cases (codes_lt (codes t) (codes x))) [
    | inl e' ↦ (rw (e, e') at m)
    | inr e' ↦ elim (mem-cons_cases (rw (e, e') at m)) [
      | inl here ↦ Memᴰ.tail (Memᴰ.head here)
      | inr k ↦ elim (mem-cons_cases (mem_of-add_text t xs k)) [
        | inl here ↦ Memᴰ.head here
        | inr k' ↦ Memᴰ.tail (Memᴰ.tail k')
      ]
    ]
  ]
]

mem_of-sorted_texts : (xs : List String) {n : String} → Memᴰ n (sorted_texts xs) → Memᴰ n xs
unfolding sorted_texts
mem_of-sorted_texts [] m = m
mem_of-sorted_texts (x ∷ xs) m = elim (mem-cons_cases (mem_of-add_text x (sorted_texts xs) m)) [
  | inl here ↦ Memᴰ.head here
  | inr n ↦ Memᴰ.tail (mem_of-sorted_texts xs n)
]

field_values_of-mem :
    (worker : WorkerPeopleRecord) (names : List String) (values : List (String × String))
    {name value : String}
    → field_values_of worker names ≡ ok values
    → Memᴰ (name, value) values
    → Memᴰ name names × (authorized_field_value worker name ≡ ok value)
unfolding field_values_of
field_values_of-mem worker [] values {name} {value} h m =
    elim (subst (λ (vs : List (String × String)). Memᴰ (name, value) vs) (ok_kept h) m) [ ]
field_values_of-mem worker (n ∷ names) values {name} {value} h m =
    >>=-ok_elim (authorized_field_value worker n) h λ v e h'.
      >>=-ok_elim (field_values_of worker names) h' λ rest e' h''.
        elim (mem-cons_cases
          (subst (λ (vs : List (String × String)). Memᴰ (name, value) vs) (ok_kept h'') m)) [
            | inl here ↦ (
              Memᴰ.head (ap (λ (q : String × String). q.0) here),
              rw (ap (λ (q : String × String). q.0) here, ap (λ (q : String × String). q.1) here) e,
            )
            | inr k ↦ let r = field_values_of-mem worker names rest e' k in (Memᴰ.tail r.0, r.1)
          ]

pub uuid_of :
    (f : String) (a : Argument) {n : ℕ} → validate_operational_uuid f a ≡ ok n → a ≡ uuid n
unfolding validate_operational_uuid
uuid_of f (uuid k) h = ground arith
uuid_of f (day k) h = cc
uuid_of f (text k) h = cc
uuid_of f (decimal negative digits exponent) h = cc
uuid_of f not_finite h = cc
uuid_of f moment h = cc
uuid_of f other h = cc

-- The request of a read of a person.
abbrev pub read_request :
    AuthenticatedPrincipal → (tenant person : ℕ) → String → List String → PurposeBoundAccessRequest
read_request principal tenant person purpose fields =
    request_of principal tenant tenant (concat "person_record:" (uuid_hex person)) purpose
      "read_record" "person_record" fields

-- What stands behind a view that was returned.
pub record IsGovernedView {S : Type 0} (principal : AuthenticatedPrincipal) (tenant person : ℕ)
    (effective_on : Argument) (purpose : String) (fields : List String)
    (policy : PurposeBoundAccessPolicy)
    (read_worker : ℕ → ℕ → Argument → S → Outcome S (Option WorkerPeopleRecord)) (state after : S)
    (view : AuthorizedWorkerPeopleView) : Type 0 where
  pub permits : Permits (read_request principal tenant person purpose fields) policy
  pub worker : WorkerPeopleRecord
  pub answered : read_worker tenant person effective_on state ≡ (after, ok (some worker))
  pub own_tenant : worker.tenant_record_id ≡ tenant
  pub own_person : worker.person_record_id ≡ person
  pub only_requested :
      (name value : String)
      → Memᴰ (name, value) view.field_values
      → Memᴰ name fields × (authorized_field_value worker name ≡ ok value)

worker_view-some :
    (tenant person : ℕ) (decided : AuthorizationDecision) (worker : WorkerPeopleRecord)
    {view : AuthorizedWorkerPeopleView}
    → worker_view tenant person decided (some worker) ≡ ok view
    → (worker.tenant_record_id ≡ tenant)
      × (worker.person_record_id ≡ person)
      × (field_values_of worker (sorted_texts decided.authorized_fields) ≡ ok view.field_values)
unfolding worker_view
worker_view-some tenant person decided worker h = (ground arith, ground arith, ground arith)

authorize_read-ok :
    (principal : AuthenticatedPrincipal) (tenant_record_id person_record_id effective_on : Argument)
    (purpose : String) (fields : List String) (policy : PurposeBoundAccessPolicy)
    {tenant person : ℕ} {decided : AuthorizationDecision}
    → authorize_read principal tenant_record_id person_record_id effective_on purpose fields policy
      ≡ ok (tenant, person, decided)
    → (tenant_record_id ≡ uuid tenant)
      × (person_record_id ≡ uuid person)
      × (authorize_resource_fields principal tenant tenant
            (concat "person_record:" (uuid_hex person))
            purpose
            "read_record"
            "person_record"
            fields
            policy
          ≡ ok decided)
unfolding authorize_read
authorize_read-ok principal tenant_record_id person_record_id effective_on purpose fields policy
      {tenant} {person} {decided} h =
    >>=-ok_elim (checked (validate_operational_uuid "tenant_record_id" tenant_record_id)) h
      λ t e h1.
        >>=-ok_elim (checked (validate_operational_uuid "person_record_id" person_record_id)) h1
          λ p e' h2. >>=-ok_elim (checked (validate_effective_on effective_on)) h2 λ on e'' h3.
            >>=-ok_elim
              (authorize_resource_fields principal t t (concat "person_record:" (uuid_hex p))
                purpose "read_record" "person_record" fields policy)
              h3
              λ d e3 h4.
                let q = ok_kept h4 in
                let same_tenant : t ≡ tenant =
                  sym (ap (λ (x : ℕ × ℕ × AuthorizationDecision). x.0) q) in
                let same_person : p ≡ person =
                  sym (ap (λ (x : ℕ × ℕ × AuthorizationDecision). x.1) q) in
                let same : d ≡ decided = sym (ap (λ (x : ℕ × ℕ × AuthorizationDecision). x.2) q) in
                (
                  uuid_of _ _ (checked-ok _ e) ∙ ap uuid same_tenant,
                  uuid_of _ _ (checked-ok _ e') ∙ ap uuid same_person,
                  rw (same_tenant, same_person, same) at e3,
                )

module _ {S : Type 0} (principal : AuthenticatedPrincipal) (purpose : String) (fields : List String)
    (policy : PurposeBoundAccessPolicy)
    (read_worker : ℕ → ℕ → Argument → S → Outcome S (Option WorkerPeopleRecord)) (state : S) where
  answered_view :
      (tenant person : ℕ) (effective_on : Argument) (decided : AuthorizationDecision)
      (answer : Outcome S (Option WorkerPeopleRecord)) (after : S)
      {view : AuthorizedWorkerPeopleView}
      → view_answer tenant person decided answer ≡ (after, ok view)
      → (worker : WorkerPeopleRecord) × (answer ≡ (after, ok (some worker)))
        × (worker_view tenant person decided (some worker) ≡ ok view)
  unfolding worker_view
  answered_view tenant person effective_on decided (s, err e) after h = cc
  answered_view tenant person effective_on decided (s, ok none) after h = cc
  answered_view tenant person effective_on decided (s, ok (some worker)) after h = (worker, cc, cc)

  -- A read that returns a view was permitted, for a tenant and a person that the arguments name.
  -- The view holds only requested fields, with the values of a record of that tenant and person
  -- which the port answered.
  pub read_worker-governed :
      (tenant_record_id person_record_id effective_on : Argument) (after : S)
      {view : AuthorizedWorkerPeopleView}
      → read_worker_people_record principal tenant_record_id person_record_id effective_on purpose
          fields policy read_worker state
        ≡ (after, ok view)
      → (tenant person : ℕ) × (tenant_record_id ≡ uuid tenant)
        × (person_record_id ≡ uuid person)
        × IsGovernedView principal tenant person effective_on purpose fields policy read_worker
            state after view
  unfolding read_worker_people_record decision
  read_worker-governed tenant_record_id person_record_id effective_on after {view} returned =
      elim (Result-cases (
        authorize_read principal tenant_record_id person_record_id effective_on purpose fields
          policy)) [
            | inr (e, refused) ↦ cc (rw (read_worker_people_record, refused) at returned)
            | inl ((tenant, person, decided), granted) ↦
                let (named, named', authorized) = authorize_read-ok _ _ _ _ _ _ _ granted in
                let (permits, same) =
                  authorize_resource_fields-Permits principal _ _ _ _ _ _ _ policy authorized in
                let (worker, answered, viewed) =
                  answered_view tenant person effective_on decided _ after
                    (rw (read_worker_people_record, granted) at returned) in
                let (own_tenant, own_person, values) =
                  worker_view-some tenant person decided worker viewed in
                (
                  tenant,
                  person,
                  named,
                  named',
                  record {
                    permits = permits;
                    worker = worker;
                    answered = answered;
                    own_tenant = own_tenant;
                    own_person = own_person;
                    only_requested = λ name value m.
                        let (n, v) = field_values_of-mem worker _ _ values m in
                        (
                          mem_of-sorted_texts fields (
                              subst
                                (λ (d : AuthorizationDecision).
                                  Memᴰ name (sorted_texts d.authorized_fields))
                                same n),
                          v,
                        );
                  },
                )
          ]
