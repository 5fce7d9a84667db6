-- ===== src/Kernel/Assignment/Coverage.antt =====
-- Employment and position coverage: every day of an accepted assignment is covered.
use orgmetra.Kernel.Coverage.Laws.{union_covers_iff}
use orgmetra.Kernel.Intervals.Laws.{overlaps_of_common, Covers}
use orgmetra.Base.{
  mem-map_cases, mem-keep_if, mem-select, for_pairs-mem, inl, inr, mem_of_mem-select,
  mem_of_mem-keep_if, any_of-mem, arith, inr, and_true, ==_iff, guard-eq-ok, inl, Bool-cases, guard,
  for_pairs, ◌==◌, >>=-eq-ok, any_of, select, not, true, ok, map, ◌≡◌,
}
use mathlib.Core.List.{Memᴰ}
use orgmetra.Kernel.Assignment.{
  not_employed, other_person, union_covers, recorded_contains, ℕ, keep_if, Bool, EmploymentVersion,
  Datetime, AssignmentFact, List, names_employment, is_assignment_visible, check_contradiction,
  is_eligible, validate_assignment_employment_coverage,
}

-- The version covers the day: it is the assignment's employment, held by its person, eligible,
-- and known at the cutoff.
pub record Employs (assignment : AssignmentFact) (known_at : Datetime) (day : ℕ)
    (v : EmploymentVersion) : Type 0 where
  pub of_tenant : v.tenant_record_id ≡ assignment.tenant_record_id
  pub of_employment : v.employment_record_id ≡ assignment.employment_record_id
  pub of_person : v.person_record_id ≡ assignment.person_record_id
  pub eligible : is_eligible v ≡ true
  pub known : recorded_contains v.recorded known_at ≡ ok true
  pub in_effect : Covers v.effective day

module _ (assignment : AssignmentFact) (versions : List EmploymentVersion)
    (known_at : Datetime) where
  abbrev named : List EmploymentVersion
  named = keep_if (names_employment assignment) versions

  abbrev one_person : Bool
  one_person = not (
      any_of (λ (v : EmploymentVersion). not (v.person_record_id == assignment.person_record_id))
        named)

  record Steps : Type 0 where
    same_person : one_person ≡ true
    visible : List EmploymentVersion
    selected : select (is_assignment_visible assignment known_at) named ≡ ok visible
    apart : for_pairs check_contradiction visible ≡ ok tt
    covered :
        union_covers (map (λ v. v.effective) (keep_if is_eligible visible)) assignment.effective
        ≡ true

  steps : validate_assignment_employment_coverage assignment versions known_at ≡ ok tt → Steps
  unfolding validate_assignment_employment_coverage
  steps h =
      let (u, e, h1) = >>=-eq-ok (guard one_person other_person) _ h in
      let (visible, e2, h2) =
        >>=-eq-ok (select (is_assignment_visible assignment known_at) named) _ h1 in
      let (u', e3, h3) = >>=-eq-ok (for_pairs check_contradiction visible) _ h2 in
      record {
        same_person = guard-eq-ok one_person other_person e;
        visible = visible;
        selected = e2;
        apart = e3;
        covered = (and_true _ _ (guard-eq-ok _ not_employed h3)).1;
      }

  -- An accepted assignment has, on each of its days, an active or leave version of its own
  -- employment and person that was known at the cutoff.
  pub employment_coverage_sound :
      validate_assignment_employment_coverage assignment versions known_at ≡ ok tt
      → (day : ℕ) → Covers assignment.effective day
      → (v : EmploymentVersion) × Memᴰ v versions × Employs assignment known_at day v
  employment_coverage_sound h day c =
      let s = steps h in
      let (i, m, inside) = (union_covers_iff _ assignment.effective).0 s.covered day c in
      let (v, m', e) = mem-map_cases (λ v. v.effective) (keep_if is_eligible s.visible) m in
      let (n, eligible) = mem_of_mem-keep_if is_eligible s.visible m' in
      let (n', seen) =
        mem_of_mem-select (is_assignment_visible assignment known_at) named s.visible s.selected
          n in
      let (n'', names) = mem_of_mem-keep_if (names_employment assignment) versions n' in
      (
        v,
        n'',
        record {
          of_tenant = ground arith;
          of_employment = ground arith;
          of_person = holder v n' s.same_person;
          eligible = eligible;
          known = known_of v seen;
          in_effect = rw e at inside;
        },
      )
    where
      holder :
          (v : EmploymentVersion)
          → Memᴰ v named
          → one_person ≡ true
          → v.person_record_id ≡ assignment.person_record_id
      holder v m h = elim (Bool-cases (v.person_record_id == assignment.person_record_id)) [
        | inl e ↦ (==_iff _ _).0 e
        | inr e ↦ ground (
          arith,
          any_of-mem
              (λ (v : EmploymentVersion). not (v.person_record_id == assignment.person_record_id))
              named m,
        )
      ]

      known_of :
          (v : EmploymentVersion)
          → is_assignment_visible assignment known_at v ≡ ok true
          → recorded_contains v.recorded known_at ≡ ok true
      known_of v h = unfold is_assignment_visible in ground arith

  -- The version speaks of the assignment's employment on the day, and was known at the cutoff.
  pub record Speaks (day : ℕ) (v : EmploymentVersion) : Type 0 where
    pub of_tenant : v.tenant_record_id ≡ assignment.tenant_record_id
    pub of_employment : v.employment_record_id ≡ assignment.employment_record_id
    pub known : recorded_contains v.recorded known_at ≡ ok true
    pub in_effect : Covers v.effective day

  visible_of_Speaks :
      (visible : List EmploymentVersion)
      → select (is_assignment_visible assignment known_at) named ≡ ok visible
      → (day : ℕ) → Covers assignment.effective day
      → (v : EmploymentVersion) → Memᴰ v versions
      → Speaks day v
      → Memᴰ v visible
  unfolding is_assignment_visible
  visible_of_Speaks visible selected day c v m s =
      mem-select (is_assignment_visible assignment known_at) named visible selected
        (mem-keep_if (names_employment assignment) versions m
          (ground (arith, s.of_tenant, s.of_employment)))
        (ground
          (arith, s.known, overlaps_of_common v.effective assignment.effective day s.in_effect c))

  -- On no day of an accepted assignment do two different known versions of its employment hold.
  pub employment_coverage_unique :
      validate_assignment_employment_coverage assignment versions known_at ≡ ok tt
      → (day : ℕ) → Covers assignment.effective day
      → (v w : EmploymentVersion) → Memᴰ v versions
      → Memᴰ w versions
      → Speaks day v
      → Speaks day w
      → v ≡ w
  unfolding check_contradiction
  employment_coverage_unique h day c v w mv mw sv sw =
      let s = steps h in
      elim (for_pairs-mem check_contradiction s.visible s.apart
        (visible_of_Speaks s.visible s.selected day c v mv sv)
        (visible_of_Speaks s.visible s.selected day c w mw sw)) [
          | inl same ↦ same
          | inr (inl e) ↦ absurd (
              ground
                (arith, overlaps_of_common v.effective w.effective day sv.in_effect sw.in_effect))
          | inr (inr e) ↦ absurd (
              ground
                (arith, overlaps_of_common w.effective v.effective day sw.in_effect sv.in_effect))
        ]
