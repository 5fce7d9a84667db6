-- ===== src/Kernel/Facts.antt =====
-- packages/hris-kernel/src/orgmetra_hris_kernel/facts.py: the kernel's immutable facts.
--
-- A UUID is its integer, `uuid.int`. A Decimal ratio is a whole number of ten-thousandths, the
-- scale of the kernel's constants and of the column numeric(5,4) that stores it.
use orgmetra.Base.{ℕ, String, Option, none, some, List, [], ◌∷◌, str_eq, if◌then◌else◌}
use orgmetra.Base.Int.{ℤ}
use orgmetra.Kernel.Intervals.{DateInterval, RecordedInterval}

abbrev pub identity_fields : List String
identity_fields =
    "tenant_record_id" ∷ "employment_record_id" ∷ "person_record_id" ∷ "organization_unit_id"
    ∷ "position_record_id" ∷ "assignment_record_id" ∷ "employment_record_version_id"
    ∷ "organization_unit_version_id" ∷ "position_record_version_id" ∷ []

pub record EmploymentVersion : Type 0 where
  pub tenant_record_id : ℕ
  pub employment_record_id : ℕ
  pub employment_record_version_id : ℕ
  pub person_record_id : ℕ
  pub employment_status_code : String
  pub effective : DateInterval
  pub recorded : RecordedInterval
  pub employment_concurrency_code : String

pub record OrganizationUnitVersion : Type 0 where
  pub tenant_record_id : ℕ
  pub organization_unit_id : ℕ
  pub organization_unit_version_id : ℕ
  pub parent_organization_unit_id : Option ℕ
  pub effective : DateInterval
  pub recorded : RecordedInterval

pub record PositionVersion : Type 0 where
  pub tenant_record_id : ℕ
  pub position_record_id : ℕ
  pub position_record_version_id : ℕ
  pub position_status_code : String
  pub effective : DateInterval
  pub recorded : RecordedInterval

pub record AssignmentFact : Type 0 where
  pub tenant_record_id : ℕ
  pub assignment_record_id : ℕ
  pub employment_record_id : ℕ
  pub person_record_id : ℕ
  pub position_record_id : ℕ
  pub allocation_ratio : ℤ
  pub effective : DateInterval
  pub recorded : RecordedInterval

-- What the generic functions reach by `getattr`: the tenant, a UUID field by its name (none where
-- the class has no such field), and the two intervals.
pub record Fact {ℓ} (A : Type ℓ) : Type ℓ where
  pub tenant_of : A → ℕ
  pub identity_of : String → A → Option ℕ
  pub effective_of : A → DateInterval
  pub recorded_of : A → RecordedInterval

unfoldable pub employment_identity : String → EmploymentVersion → Option ℕ
employment_identity name v =
    if str_eq name "tenant_record_id"
    then some v.tenant_record_id
    else if str_eq name "employment_record_id"
    then some v.employment_record_id
    else if str_eq name "employment_record_version_id"
    then some v.employment_record_version_id
    else if str_eq name "person_record_id"
    then some v.person_record_id
    else none

unfoldable pub organization_identity : String → OrganizationUnitVersion → Option ℕ
organization_identity name v =
    if str_eq name "tenant_record_id"
    then some v.tenant_record_id
    else if str_eq name "organization_unit_id"
    then some v.organization_unit_id
    else if str_eq name "organization_unit_version_id"
    then some v.organization_unit_version_id
    else none

unfoldable pub assignment_identity : String → AssignmentFact → Option ℕ
assignment_identity name v =
    if str_eq name "tenant_record_id"
    then some v.tenant_record_id
    else if str_eq name "assignment_record_id"
    then some v.assignment_record_id
    else if str_eq name "employment_record_id"
    then some v.employment_record_id
    else if str_eq name "person_record_id"
    then some v.person_record_id
    else if str_eq name "position_record_id"
    then some v.position_record_id
    else none

unfoldable pub position_identity : String → PositionVersion → Option ℕ
position_identity name v =
    if str_eq name "tenant_record_id"
    then some v.tenant_record_id
    else if str_eq name "position_record_id"
    then some v.position_record_id
    else if str_eq name "position_record_version_id"
    then some v.position_record_version_id
    else none

instance abbrev pub employment_fact : Fact EmploymentVersion
employment_fact = record {
  tenant_of = λ v. v.tenant_record_id;
  identity_of = employment_identity;
  effective_of = λ v. v.effective;
  recorded_of = λ v. v.recorded;
}

instance abbrev pub organization_fact : Fact OrganizationUnitVersion
organization_fact = record {
  tenant_of = λ v. v.tenant_record_id;
  identity_of = organization_identity;
  effective_of = λ v. v.effective;
  recorded_of = λ v. v.recorded;
}

instance abbrev pub position_fact : Fact PositionVersion
position_fact = record {
  tenant_of = λ v. v.tenant_record_id;
  identity_of = position_identity;
  effective_of = λ v. v.effective;
  recorded_of = λ v. v.recorded;
}

instance abbrev pub assignment_fact : Fact AssignmentFact
assignment_fact = record {
  tenant_of = λ v. v.tenant_record_id;
  identity_of = assignment_identity;
  effective_of = λ v. v.effective;
  recorded_of = λ v. v.recorded;
}
