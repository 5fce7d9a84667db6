-- ===== src/Kernel/Organization/Tests.antt =====
-- The hierarchy rule on a chart of three units.
use orgmetra.Kernel.Organization.Walk.{check_start_lem, up}
use orgmetra.Kernel.Organization.Laws.{hierarchy_iff, Above}
use orgmetra.Base.{
  suc, map, ◌⊎◌, ◌==◌, ℕ, List, ◌↔◌, ◌≡◌, refl, none, some, [], ◌∷◌, ok, err, select, keep_if,
  any_of, for_each,
}
use orgmetra.Kernel.Facts.{OrganizationUnitVersion, organization_fact, organization_identity}
use orgmetra.Kernel.Errors.{organization_hierarchy_error}
use orgmetra.Kernel.Samples.{at, unit}
use orgmetra.Kernel.Intervals.{recorded_contains, contains}
use orgmetra.Kernel.Resolution.{
  resolve_bitemporal_facts, resolve_single_valued_fact, is_visible, at_most_one,
}
use orgmetra.Kernel.Organization.{
  Parents, validate_organization_hierarchy, resolve_parents, distinct, check_start, parent_of,
}

abbrev chart : List OrganizationUnitVersion
chart = unit 1 none ∷ unit 2 (some 1) ∷ unit 3 (some 2) ∷ []

abbrev parents : Parents
parents = (1, none) ∷ (2, some 1) ∷ (3, some 2) ∷ []

run : Unit {0}
unfolding validate_organization_hierarchy resolve_parents distinct check_start parent_of select
    keep_if any_of for_each recorded_contains contains resolve_bitemporal_facts
    resolve_single_valued_fact is_visible at_most_one organization_identity
run = tt

tree : validate_organization_hierarchy chart 1 9 (at 9) ≡ ok tt
unfolding run
tree = refl

cycle :
    validate_organization_hierarchy
      (unit 1 (some 3) ∷ unit 2 (some 1) ∷ unit 3 (some 2) ∷ [])
      1
      9
      (at 9)
    ≡ err organization_hierarchy_error
unfolding run
cycle = refl

resolved :
    resolve_parents
      (keep_if (λ (v : OrganizationUnitVersion). v.tenant_record_id == 1) chart)
      1
      9
      (at 9)
      (distinct (
        map
          (λ (v : OrganizationUnitVersion). v.organization_unit_id)
          (keep_if (λ (v : OrganizationUnitVersion). v.tenant_record_id == 1) chart)))
    ≡ ok parents
unfolding run
resolved = refl

hierarchy_iff_example :
    (validate_organization_hierarchy chart 1 9 (at 9) ≡ ok tt)
    ↔ ((u : ℕ) → ¬ Above chart 1 9 (at 9) u u)
hierarchy_iff_example = hierarchy_iff chart 1 9 (at 9) parents resolved

check_start_lem_example :
    ((check_start parents 3 ≡ ok tt) × ((n : ℕ) × (up parents n (some 3) ≡ none)))
    ⊎ ((check_start parents 3 ≡ err organization_hierarchy_error)
        × ((u : ℕ) × (n : ℕ) × (up parents (suc n) (some u) ≡ some u)))
check_start_lem_example = check_start_lem parents 3
