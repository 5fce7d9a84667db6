-- ===== src/Kernel/Coverage.antt =====
-- `_union_covers` of packages/hris-kernel/src/orgmetra_hris_kernel/assignment.py.
--
-- The `while` loop takes fuel, one more than the intervals: each round moves the cursor to the end
-- of an interval that held it, and so leaves that interval behind. `none` means no fuel.
pub mod Laws
mod Tests
use orgmetra.Base.{
  ℕ, zero, suc, Bool, true, false, not, Option, none, some, List, [], ◌∷◌, length, if◌then◌else◌,
}
use orgmetra.Kernel.Intervals.{DateInterval, contains, before_end}

-- `next((interval for interval in intervals if interval.contains(cursor)), None)`
unfoldable pub covering_at : List DateInterval → ℕ → Option DateInterval
covering_at [] cursor = none
covering_at (i ∷ intervals) cursor =
    if contains i cursor then some i else covering_at intervals cursor

unfoldable pub cover_from : ℕ → List DateInterval → ℕ → Option ℕ → Option Bool
cover_from zero intervals cursor end = none
cover_from (suc fuel) intervals cursor end = elim (before_end cursor end) [
  | false ↦ some true
  | true ↦ elim (covering_at intervals cursor) [
    | none ↦ some false
    | some covering ↦ elim (covering.end) [
      | none ↦ some true
      | some next ↦ cover_from fuel intervals next end
    ]
  ]
]

unfoldable pub union_covers : List DateInterval → DateInterval → Bool
unfolding cover_from covering_at
union_covers intervals target =
    elim (cover_from (suc (length intervals)) intervals target.start target.end) [
      | some covered ↦ covered
      | none ↦ false
    ]
