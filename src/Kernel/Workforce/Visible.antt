-- ===== src/Kernel/Workforce/Visible.antt =====
-- What `_visible_employments` and `_visible_assignments` of
-- packages/hris-kernel/src/orgmetra_hris_kernel/workforce.py keep.
use orgmetra.Base.{
  ◌⊎◌, ℕ, ◌≡◌, refl, Bool, true, Bool-cases, Option, none, some, List, ◌∷◌, any_of, inl, inr, arith,
  str_eq, eq_iff, if◌then◌else◌, ok, >>=-eq-ok, ok_kept, Result,
}
use orgmetra.Kernel.Errors.{Error}
use orgmetra.Kernel.Intervals.{Datetime, recorded_contains}
use orgmetra.Kernel.Intervals.Laws.{Covers}
use orgmetra.Kernel.Facts.{EmploymentVersion, AssignmentFact, employment_fact, employment_identity}
use orgmetra.Kernel.Resolution.{resolve_single_valued_fact}
use orgmetra.Kernel.Resolution.Laws.{IsVisible}
use orgmetra.Kernel.Workforce.{visible_employments_of, workforce_included_statuses}

-- A version that a report counts: of the tenant, in effect on the day, known, and active or on leave.
pub record IsReportable (tenant day : ℕ) (known_at : Datetime) (v : EmploymentVersion)
    : Type 0 where
  pub of_tenant : v.tenant_record_id ≡ tenant
  pub in_effect : Covers v.effective day
  pub known : recorded_contains v.recorded known_at ≡ ok true
  pub status : (v.employment_status_code ≡ "active") ⊎ (v.employment_status_code ≡ "leave")

-- An assignment that a report counts.
pub record IsCurrent (tenant day : ℕ) (known_at : Datetime) (a : AssignmentFact) : Type 0 where
  pub of_tenant : a.tenant_record_id ≡ tenant
  pub in_effect : Covers a.effective day
  pub known : recorded_contains a.recorded known_at ≡ ok true

abbrev pub included : EmploymentVersion → Bool
included v = any_of (str_eq v.employment_status_code) workforce_included_statuses

pub status_of_included :
    (v : EmploymentVersion)
    → included v ≡ true
    → (v.employment_status_code ≡ "active") ⊎ (v.employment_status_code ≡ "leave")
unfolding any_of
status_of_included v h = elim (Bool-cases (str_eq v.employment_status_code "active")) [
  | inl e ↦ inl ((eq_iff v.employment_status_code "active").0 e)
  | inr e ↦ inr ((eq_iff v.employment_status_code "leave").0 (ground arith))
]

pub included_of_status :
    (v : EmploymentVersion)
    → (v.employment_status_code ≡ "active") ⊎ (v.employment_status_code ≡ "leave")
    → included v ≡ true
unfolding any_of
included_of_status v (inl e) = rw ((eq_iff v.employment_status_code "active").1 e) refl
included_of_status v (inr e) = let q = (eq_iff v.employment_status_code "leave").1 e in ground arith

module _ (versions : List EmploymentVersion) (tenant day : ℕ) (known_at : Datetime) where
  abbrev pub VisibleAs : ℕ → EmploymentVersion → Type 0
  VisibleAs id v = IsVisible tenant "employment_record_id" id day known_at v

  pub VisibleAs-id : (id : ℕ) (v : EmploymentVersion) → VisibleAs id v → v.employment_record_id ≡ id
  unfolding employment_identity
  VisibleAs-id id v seen = ground (arith, seen.of_identity)

  pub VisibleAs-of :
      (v : EmploymentVersion)
      → IsReportable tenant day known_at v
      → VisibleAs v.employment_record_id v
  unfolding employment_identity
  VisibleAs-of v r = record {
    of_tenant = r.of_tenant;
    of_identity = refl;
    in_effect = r.in_effect;
    known = r.known;
  }

  -- One round of the loop.
  pub round :
      (id : ℕ) (ids : List ℕ) (out : List EmploymentVersion)
      → visible_employments_of versions tenant day known_at (id ∷ ids) ≡ ok out
      → (resolved : Option EmploymentVersion) × (rest : List EmploymentVersion)
        × (resolve_single_valued_fact versions tenant "employment_record_id" id day known_at
            ≡ ok resolved)
        × (visible_employments_of versions tenant day known_at ids ≡ ok rest)
        × (out ≡ (elim resolved as (λ x. List EmploymentVersion) [
          | none ↦ rest
          | some version ↦ if included version then version ∷ rest else rest
        ]))
  unfolding visible_employments_of
  round id ids out h =
      let (resolved, e, h1) =
        >>=-eq-ok
          (resolve_single_valued_fact versions tenant "employment_record_id" id day known_at) _ h in
      let (rest, e', h2) =
        >>=-eq-ok (visible_employments_of versions tenant day known_at ids) _ h1 in
      (resolved, rest, e, e', by_resolved resolved rest h2)
    where
      by_resolved :
          (resolved : Option EmploymentVersion) (rest : List EmploymentVersion)
          → (elim resolved as (λ x. Result Error (List EmploymentVersion)) [
            | none ↦ ok rest
            | some version ↦ ok (if included version then version ∷ rest else rest)
          ])
            ≡ ok out
          → out ≡ (elim resolved as (λ x. List EmploymentVersion) [
            | none ↦ rest
            | some version ↦ if included version then version ∷ rest else rest
          ])
      by_resolved none rest q = ok_kept q
      by_resolved (some version) rest q = ok_kept q
