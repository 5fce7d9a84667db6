-- ===== src/Kernel/Workforce/Current.antt =====
-- Which assignments a report of
-- packages/hris-kernel/src/orgmetra_hris_kernel/workforce.py counts: each of them, and once.
use mathlib.Core.List.{Memᴰ}
use orgmetra.Base.{
  ℕ, ◌≡◌, ◌↔◌, ◌==◌, ◌&&◌, ==_iff, refl, sym, subst, Bool, true, false, not, List, [], ◌∷◌, map,
  any_of, any_of-mem, mem-cons_cases, inl, inr, arith, if◌then◌else◌, ok, >>=-eq-ok, select,
  mem-select, mem_of_mem-select, guard, guard-eq-ok, not-true, ok_kept, Result,
}
use orgmetra.Kernel.Errors.{Error, single_valued_fact_error}
use orgmetra.Kernel.Intervals.{Datetime, contains, recorded_contains}
use orgmetra.Kernel.Intervals.Laws.{contains_iff}
use orgmetra.Kernel.Facts.{AssignmentFact, employment_fact}
use orgmetra.Kernel.Organization.Walk.{IsDistinct}
use orgmetra.Kernel.Workforce.{check_seen, visible_assignments}
use orgmetra.Kernel.Workforce.Visible.{IsCurrent}

check_seen-IsDistinct :
    (seen : List ℕ) (facts : List AssignmentFact)
    → check_seen seen facts ≡ ok tt
    → IsDistinct (map (λ a. a.assignment_record_id) facts)
      × ((x : ℕ) → Memᴰ x seen → ¬ Memᴰ x (map (λ a. a.assignment_record_id) facts))
unfolding check_seen
check_seen-IsDistinct seen [] h = (tt, λ x m n. elim n [ ])
check_seen-IsDistinct seen (fact ∷ facts) h =
    let (u, e, h') =
      >>=-eq-ok
        (guard (not (any_of (◌==◌ fact.assignment_record_id) seen)) (
          single_valued_fact_error
            "One assignment identity resolved to more than one visible assignment fact."))
        _ h in
    let fresh = not-true _ (guard-eq-ok _ _ e) in
    let (rest, apart) = check_seen-IsDistinct (fact.assignment_record_id ∷ seen) facts h' in
    (
      (apart fact.assignment_record_id (Memᴰ.head refl), rest),
      λ x m n. elim (mem-cons_cases n) [
        | inl here ↦ cc (
          fresh,
          any_of-mem (◌==◌ fact.assignment_record_id) seen m
              ((==_iff fact.assignment_record_id x).1 (sym here)),
        )
        | inr there ↦ apart x (Memᴰ.tail m) there
      ],
    )

-- The assignments of a report: every current one, and one for each identity.
pub visible_assignments_iff :
    (assignments : List AssignmentFact) (tenant day : ℕ) (known_at : Datetime)
    (out : List AssignmentFact)
    → visible_assignments assignments tenant day known_at ≡ ok out
    → ((a : AssignmentFact) → Memᴰ a out ↔ (Memᴰ a assignments × IsCurrent tenant day known_at a))
      × IsDistinct (map (λ a. a.assignment_record_id) out)
unfolding visible_assignments
visible_assignments_iff assignments tenant day known_at out h =
    let (visible, e, h1) = >>=-eq-ok (select current assignments) _ h in
    let (u, e', h2) = >>=-eq-ok (check_seen [] visible) _ h1 in
    let same : visible ≡ out = sym (ok_kept h2) in
    (
      λ a. (
        λ m.
            let (n, t) = mem_of_mem-select current assignments visible e (rw same m) in
            (n, current-IsCurrent a t),
        λ (m, c).
            subst (Memᴰ a) same
              (mem-select current assignments visible e m (IsCurrent-current a c)),
      ),
      subst (λ z. IsDistinct (map (λ (a : AssignmentFact). a.assignment_record_id) z)) same
          (check_seen-IsDistinct [] visible e').0,
    )
  where
    current : AssignmentFact → Result Error Bool
    current fact =
        if fact.tenant_record_id == tenant && contains fact.effective day
        then recorded_contains fact.recorded known_at
        else ok false

    current-IsCurrent : (a : AssignmentFact) → current a ≡ ok true → IsCurrent tenant day known_at a
    current-IsCurrent a t = record {
      of_tenant = ground arith;
      in_effect = ground (arith, (contains_iff a.effective day).0);
      known = ground arith;
    }

    IsCurrent-current : (a : AssignmentFact) → IsCurrent tenant day known_at a → current a ≡ ok true
    IsCurrent-current a c =
        ground (arith, c.of_tenant, c.known, (contains_iff a.effective day).1 c.in_effect)
