-- ===== src/Kernel/Workforce/Laws.antt =====
-- What the counts of a snapshot are.
use mathlib.Core.List.{Memᴰ}
use orgmetra.Base.{
  ℕ, ◌+◌, ◌≡◌, ◌↔◌, refl, String, List, map, length, keep_if, str_eq, ok, arith, guard, >>=-ok_elim,
  for_each, not, any_of, ◌==◌,
}
use orgmetra.Base.Int.{pos_part, neg_part}
use orgmetra.Kernel.Organization.{distinct}
use orgmetra.Kernel.Facts.{EmploymentVersion, AssignmentFact}
use orgmetra.Kernel.Intervals.{Datetime, has_offset}
use orgmetra.Kernel.Assignment.{
  validate_assignment_employment_coverage, validate_assignment_portfolio,
  validate_position_seat_capacity,
}
use orgmetra.Kernel.Workforce.{
  cutoff_not_aware, portfolio_keys, total_fte, status_counts, WorkforceCompositionSnapshot,
  composition_snapshot, validate_visible_employment_portfolios, visible_employments,
  visible_assignments, build_workforce_composition_snapshot,
}
use orgmetra.Kernel.Organization.Walk.{IsDistinct}
use orgmetra.Kernel.Workforce.Counting.{
  Counts, distinct-Counts, difference-Counts, count_of, count_of-status_counts, sum, total_fte-sum,
}
use orgmetra.Kernel.Workforce.Visible.{IsReportable, IsCurrent}
use orgmetra.Kernel.Workforce.Reported.{visible_employments_iff}
use orgmetra.Kernel.Workforce.Current.{visible_assignments_iff}

module _ (employment_versions : List EmploymentVersion) (assignments : List AssignmentFact)
    (tenant day : ℕ) (known_at : Datetime) where
  kept :
      (s : WorkforceCompositionSnapshot) {t : WorkforceCompositionSnapshot}
      → composition_snapshot s ≡ ok t
      → t ≡ s
  unfolding composition_snapshot
  kept s h = ground arith

  -- A snapshot of these facts: the employments that it counts are the reportable versions, one for
  -- each identity, the assignments that it counts are the current ones, one for each identity, and
  -- its figures are counted over these.
  pub record IsComposition (s : WorkforceCompositionSnapshot) : Type 0 where
    pub employed : List EmploymentVersion
    pub staffed : List AssignmentFact
    pub employed_are :
        (v : EmploymentVersion)
        → Memᴰ v employed ↔ (Memᴰ v employment_versions × IsReportable tenant day known_at v)
    pub one_version : IsDistinct (map (λ v. v.employment_record_id) employed)
    pub staffed_are :
        (a : AssignmentFact)
        → Memᴰ a staffed ↔ (Memᴰ a assignments × IsCurrent tenant day known_at a)
    pub one_fact : IsDistinct (map (λ a. a.assignment_record_id) staffed)
    pub of_tenant : s.tenant_record_id ≡ tenant
    pub on_day : s.effective_on ≡ day
    pub at_cutoff : s.known_at ≡ known_at
    pub employments : s.employment_count ≡ length employed
    pub assigned : s.staffed_assignment_count ≡ length staffed
    pub fte :
        pos_part s.staffed_fte + sum (map (λ a. neg_part a.allocation_ratio) staffed)
        ≡ neg_part s.staffed_fte + sum (map (λ a. pos_part a.allocation_ratio) staffed)
    pub people : Counts (λ p. Memᴰ p (map (λ v. v.person_record_id) employed)) s.person_headcount
    pub unassigned :
        Counts
          (λ p.
            Memᴰ p (map (λ v. v.person_record_id) employed)
            × ¬ Memᴰ p (map (λ a. a.person_record_id) staffed))
          s.unassigned_person_count
    pub statuses :
        (c : String)
        → count_of c s.employment_status_counts
          ≡ length (keep_if (λ v. str_eq c v.employment_status_code) employed)

  -- The figures over the employments and the assignments of a report.
  abbrev figures : List EmploymentVersion → List AssignmentFact → WorkforceCompositionSnapshot
  figures employed staffed =
      let people = distinct (map (λ v. v.person_record_id) employed) in
      record {
        tenant_record_id = tenant;
        effective_on = day;
        known_at = known_at;
        person_headcount = length people;
        employment_count = length employed;
        staffed_assignment_count = length staffed;
        staffed_fte = total_fte staffed;
        unassigned_person_count =
            length
              (keep_if (λ p. not (any_of (◌==◌ p) (map (λ a. a.person_record_id) staffed))) people);
        employment_status_counts = status_counts employed;
      }

  figures-IsComposition :
      (employed : List EmploymentVersion) (staffed : List AssignmentFact)
      → visible_employments employment_versions tenant day known_at ≡ ok employed
      → visible_assignments assignments tenant day known_at ≡ ok staffed
      → IsComposition (figures employed staffed)
  figures-IsComposition employed staffed e e' =
      let (employed_are, one_version) =
        visible_employments_iff employment_versions tenant day known_at employed e in
      let (staffed_are, one_fact) =
        visible_assignments_iff assignments tenant day known_at staffed e' in
      record {
        employed = employed;
        staffed = staffed;
        employed_are = employed_are;
        one_version = one_version;
        staffed_are = staffed_are;
        one_fact = one_fact;
        of_tenant = refl;
        on_day = refl;
        at_cutoff = refl;
        employments = refl;
        assigned = refl;
        fte = total_fte-sum staffed;
        people = distinct-Counts _;
        unassigned = difference-Counts _ _;
        statuses = λ c. count_of-status_counts c employed;
      }

  -- A snapshot that is built has the coordinates of its arguments and counts exactly the tenant's
  -- employment versions that are in effect on the day, known at the cutoff and active or on leave,
  -- of which each identity has one, and exactly its assignments that are in effect and known, again
  -- one for each identity. The headcount is the number of different people with such an employment,
  -- the unassigned people are those of them with no such assignment, each counted once, the full-time
  -- equivalent is the sum of the ratios, and the counts of each status are those of its employments.
  pub build_snapshot-IsComposition :
      {s : WorkforceCompositionSnapshot}
      → build_workforce_composition_snapshot employment_versions assignments tenant day known_at
        ≡ ok s
      → IsComposition s
  unfolding build_workforce_composition_snapshot
  build_snapshot-IsComposition {s} h =
      >>=-ok_elim (guard (has_offset known_at) cutoff_not_aware) h λ u1 e1 h1.
        >>=-ok_elim (validate_visible_employment_portfolios employment_versions tenant day known_at)
          h1
          λ u2 e2 h2.
            >>=-ok_elim (visible_employments employment_versions tenant day known_at) h2
              λ employed e3 h3.
                >>=-ok_elim (visible_assignments assignments tenant day known_at) h3
                  λ staffed e4 h4.
                    >>=-ok_elim
                      (for_each
                        (λ assignment.
                          validate_assignment_employment_coverage assignment employment_versions
                            known_at)
                        staffed)
                      h4
                      λ u5 e5 h5.
                        >>=-ok_elim
                          (for_each
                            (λ key.
                              validate_assignment_portfolio staffed tenant key.0 key.1 day known_at)
                            (portfolio_keys staffed))
                          h5
                          λ u6 e6 h6.
                            >>=-ok_elim
                              (for_each
                                (λ position.
                                  validate_position_seat_capacity staffed tenant position day
                                    known_at)
                                (distinct (map (λ fact. fact.position_record_id) staffed)))
                              h6
                              λ u7 e7 h7.
                                let same = kept _ h7 in
                                rw same (figures-IsComposition employed staffed e3 e4)
