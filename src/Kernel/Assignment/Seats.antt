-- ===== src/Kernel/Assignment/Seats.antt =====
-- Position coverage: an assignment needs a staffable seat on each of its days.
use orgmetra.Kernel.Coverage.Laws.{union_covers_iff}
use orgmetra.Kernel.Intervals.Laws.{
  recorded_contains-eq-knows, knows, IsAwareInterval, IsAware, IsOrdered, Covers,
}
use orgmetra.Base.{
  mem-map_cases, map-mem, ◌&&◌, select_total, false, ◌↔◌, mem-keep_if, str_eq, mem-select, refl,
  mem_of_mem-select, mem_of_mem-keep_if, arith, and_true, guard-eq-ok, >>=-eq-ok, any_of, select,
  [], not, true, ◌∷◌, ok, map, ◌≡◌,
}
use mathlib.Core.List.{Memᴰ}
use orgmetra.Kernel.Assignment.{
  staffable_position_statuses, not_staffable, PositionVersion, union_covers, recorded_contains, ℕ,
  keep_if, Datetime, AssignmentFact, List, names_position, is_staffable,
  validate_assignment_position_coverage, is_empty,
}

-- The position version covers the day: the assignment's seat, staffable, and known at the cutoff.
pub record Seats (assignment : AssignmentFact) (known_at : Datetime) (day : ℕ) (v : PositionVersion)
    : Type 0 where
  pub of_tenant : v.tenant_record_id ≡ assignment.tenant_record_id
  pub of_position : v.position_record_id ≡ assignment.position_record_id
  pub staffable : any_of (str_eq v.position_status_code) staffable_position_statuses ≡ true
  pub known : recorded_contains v.recorded known_at ≡ ok true
  pub in_effect : Covers v.effective day

module _ (assignment : AssignmentFact) (versions : List PositionVersion) (known_at : Datetime) where
  abbrev named_seats : List PositionVersion
  named_seats = keep_if (names_position assignment) versions

  seat_sound :
      validate_assignment_position_coverage assignment versions known_at ≡ ok tt
      → (day : ℕ) → Covers assignment.effective day
      → (v : PositionVersion) × Memᴰ v versions × Seats assignment known_at day v
  unfolding validate_assignment_position_coverage is_staffable
  seat_sound h day c =
      let (visible, selected, h') = >>=-eq-ok (select (is_staffable known_at) named_seats) _ h in
      let covered =
        (and_true (not (is_empty visible))
          (union_covers (map (λ v. v.effective) visible) assignment.effective)
          (guard-eq-ok
            (not (is_empty visible)
              && union_covers (map (λ v. v.effective) visible) assignment.effective)
            not_staffable h')).1 in
      let (i, m, inside) = (union_covers_iff _ assignment.effective).0 covered day c in
      let (v, m', e) = mem-map_cases (λ v. v.effective) visible m in
      let (n, seen) = mem_of_mem-select (is_staffable known_at) named_seats visible selected m' in
      let (n', names) = mem_of_mem-keep_if (names_position assignment) versions n in
      (
        v,
        n',
        record {
          of_tenant = ground arith;
          of_position = ground arith;
          staffable = ground arith;
          known = ground arith;
          in_effect = rw e at inside;
        },
      )

  seat_complete :
      IsOrdered assignment.effective
      → IsAware known_at
      → ((v : PositionVersion) → Memᴰ v versions → IsAwareInterval v.recorded)
      → ((day : ℕ)
          → Covers assignment.effective day
          → (v : PositionVersion) × Memᴰ v versions × Seats assignment known_at day v)
      → validate_assignment_position_coverage assignment versions known_at ≡ ok tt
  unfolding validate_assignment_position_coverage is_staffable
  seat_complete ordered aware wf h =
      let (visible, e) = select_total (is_staffable known_at) named_seats (λ v m. (
        knows v.recorded known_at
            && any_of (str_eq v.position_status_code) staffable_position_statuses,
        ground (
          arith,
          recorded_contains-eq-knows v.recorded known_at
              (wf v (mem_of_mem-keep_if (names_position assignment) versions m).0) aware,
        ),
      )) in
      let seen : (v : PositionVersion) (day : ℕ)
          → Memᴰ v versions
          → Seats assignment known_at day v
          → Memᴰ v visible =
        λ v day m s.
          mem-select (is_staffable known_at) named_seats visible e
            (mem-keep_if (names_position assignment) versions m
              (ground (arith, s.of_tenant, s.of_position)))
            (ground (arith, s.known, s.staffable)) in
      let covered : union_covers (map (λ v. v.effective) visible) assignment.effective ≡ true =
        (union_covers_iff _ assignment.effective).1 (λ day c.
          let (v, m, s) = h day c in
          (v.effective, map-mem (λ v. v.effective) visible (seen v day m s), s.in_effect)) in
      let (v0, m0, s0) = h assignment.effective.start (omega arith, ordered) in
      rw e (rw covered (rw (nonempty visible (seen v0 assignment.effective.start m0 s0))))
    where
      nonempty : (l : List PositionVersion) {v : PositionVersion} → Memᴰ v l → is_empty l ≡ false
      nonempty [] m = elim m [ ]
      nonempty (x ∷ l) m = refl

  -- A position is accepted for an assignment exactly when a staffable version of the seat, known at
  -- the cutoff, is in effect on each of its days.
  pub position_coverage_iff :
      IsOrdered assignment.effective
      → IsAware known_at
      → ((v : PositionVersion) → Memᴰ v versions → IsAwareInterval v.recorded)
      → (validate_assignment_position_coverage assignment versions known_at ≡ ok tt) ↔ (
          (day : ℕ)
          → Covers assignment.effective day
          → (v : PositionVersion) × Memᴰ v versions × Seats assignment known_at day v)
  position_coverage_iff ordered aware wf = (seat_sound, seat_complete ordered aware wf)
