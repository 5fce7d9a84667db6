-- ===== src/Kernel/Organization.antt =====
-- packages/hris-kernel/src/orgmetra_hris_kernel/organization.py.
--
-- The sets and the dict of the code are lists here. The code leaves the order of a set open, and
-- so the order in which its units are resolved.
pub mod Walk
pub mod Cycles
pub mod Chart
pub mod Laws
mod Tests
use orgmetra.Base.{
  ℕ, zero, suc, ◌+◌, Bool, true, false, Option, none, some, List, [], ◌∷◌, map, length, any_of,
  keep_if, ◌==◌, if◌then◌else◌, Result, ok, err, ◌>>=◌, for_each,
}
use orgmetra.Kernel.Errors.{Error, organization_hierarchy_error}
use orgmetra.Kernel.Intervals.{Datetime}
use orgmetra.Kernel.Facts.{OrganizationUnitVersion, organization_fact}
use orgmetra.Kernel.Resolution.{resolve_single_valued_fact}

-- A set of identifiers, without repetition.
unfoldable pub distinct : List ℕ → List ℕ
distinct [] = []
distinct (x ∷ xs) = let rest = distinct xs in if any_of (◌==◌ x) xs then rest else x ∷ rest

-- `parents`, with an entry for each unit that has a visible version.
abbrev pub Parents : Type 0
Parents = List (ℕ × Option ℕ)

-- `parents.get(unit)`: None for a root, and for a unit with no visible version.
unfoldable pub parent_of : Parents → ℕ → Option ℕ
parent_of [] unit = none
parent_of ((u, parent) ∷ parents) unit = if u == unit then parent else parent_of parents unit

abbrev pub add_parent : ℕ → Option OrganizationUnitVersion → Parents → Parents
add_parent unit_id none parents = parents
add_parent unit_id (some v) parents = (unit_id, v.parent_organization_unit_id) ∷ parents

-- The first loop: one entry for each unit of the set.
unfoldable pub resolve_parents :
    List OrganizationUnitVersion → ℕ → ℕ → Datetime → List ℕ → Result Error Parents
resolve_parents scoped tenant_record_id effective_on known_at [] = ok []
resolve_parents scoped tenant_record_id effective_on known_at (unit_id ∷ unit_ids) = do
  visible ←
      resolve_single_valued_fact scoped tenant_record_id "organization_unit_id" unit_id effective_on
        known_at
  parents ← resolve_parents scoped tenant_record_id effective_on known_at unit_ids
  ok (add_parent unit_id visible parents)

-- The inner `while` loop over `current` and `seen`, on fuel; `none` means that the fuel ran out.
unfoldable pub walk : ℕ → Parents → List ℕ → Option ℕ → Option (Result Error (Unit {0}))
walk zero parents seen current = none
walk (suc fuel) parents seen none = some (ok tt)
walk (suc fuel) parents seen (some current) = elim (any_of (◌==◌ current) seen) [
  | true ↦ some (err organization_hierarchy_error)
  | false ↦ walk fuel parents (current ∷ seen) (parent_of parents current)
]

-- The walk from one start. Two rounds more than the entries are enough for it.
unfoldable pub check_start : Parents → ℕ → Result Error (Unit {0})
unfolding walk
check_start parents start = elim (walk (length parents + 2) parents [] (some start)) [
  | some result ↦ result
  | none ↦ ok tt
]

unfoldable pub validate_organization_hierarchy :
    List OrganizationUnitVersion → ℕ → ℕ → Datetime → Result Error (Unit {0})
validate_organization_hierarchy organization_versions tenant_record_id effective_on known_at = do
  let scoped =
      keep_if (λ version. version.tenant_record_id == tenant_record_id) organization_versions
  parents ←
      resolve_parents scoped tenant_record_id effective_on known_at
        (distinct (map (λ version. version.organization_unit_id) scoped))
  for_each (check_start parents) (map (λ entry. entry.0) parents)
