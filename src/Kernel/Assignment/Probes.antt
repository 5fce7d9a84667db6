-- ===== src/Kernel/Assignment/Probes.antt =====
-- The probe days are enough: what holds on them holds on every day of the assignment.
use orgmetra.Kernel.Assignment.ProbeDays.{probe-Covers, probe-mem, probe}
use orgmetra.Kernel.Intervals.Laws.{contains_iff, Covers}
use orgmetra.Kernel.Resolution.{is_visible}
use orgmetra.Base.Int.{+ℤ_parts, ◌≤ℤ◌}
use mathlib.Core.List.{Memᴰ}
use orgmetra.Base.{
  str_eq, any_of, mem_of_mem-keep_if, keep_if, for_each, for_each-mem, >>=-eq-ok, Option-cases,
  ◌==◌, Bool-cases, String, ℕ, select-cons-ok, if◌then◌else◌, select, ◌⊎◌, ok, ◌≡◌, List, Bool,
  Result, refl, true, false, inl, inr, [], ◌∷◌, arith,
}
use orgmetra.Kernel.Facts.{identity_fields, assignment_identity, assignment_fact}
use orgmetra.Kernel.Assignment.Portfolio.{portfolio_iff, seat_capacity_iff, total_ratio}
use orgmetra.Kernel.Resolution.{resolve_bitemporal_facts}
use orgmetra.Kernel.Assignment.{
  DateInterval, validate_assignment_position_coverage, validate_assignment_employment_coverage,
  PositionVersion, EmploymentVersion, contains, Datetime, pos, Error, AssignmentFact, of_employment,
  of_position, validate_assignment_portfolio, validate_position_seat_capacity,
  allocation_probe_days, check_day, validate_assignment_write,
}

-- On fewer facts of non-negative ratio the visible total is no larger, and the query still returns.
select-le :
    (p q : AssignmentFact → Result Error Bool) (xs ys : List AssignmentFact)
    → ((a : AssignmentFact) → Memᴰ a xs → (q a ≡ ok false) ⊎ (q a ≡ p a))
    → ((a : AssignmentFact) → Memᴰ a xs → pos 0 ≤ℤ a.allocation_ratio)
    → select p xs ≡ ok ys
    → (zs : List AssignmentFact) × (select q xs ≡ ok zs) × (total_ratio zs ≤ℤ total_ratio ys)
unfolding total_ratio select
select-le p q [] [] h r e = ([], refl, omega arith)
select-le p q [] (y ∷ ys) h r e = cc
select-le p q (x ∷ xs) ys h r e =
    let (keep, rest, e', e'', eq) = select-cons-ok p x xs ys e in
    let (zs, run, le) =
      select-le p q xs rest (λ a m. h a (Memᴰ.tail m)) (λ a m. r a (Memᴰ.tail m)) e'' in
    let positive = r x (Memᴰ.head refl) in
    elim (h x (Memᴰ.head refl)) [
      | inl none_kept ↦ (zs, rw none_kept (rw run), drop_le keep zs rest positive le eq)
      | inr same ↦
          ((if keep then x ∷ zs else zs), rw (same, e') (rw run), keep_le keep zs rest le eq)
    ]
  where
    drop_le :
        (keep : Bool) (zs rest : List AssignmentFact)
        → pos 0 ≤ℤ x.allocation_ratio
        → total_ratio zs ≤ℤ total_ratio rest
        → ys ≡ (if keep then x ∷ rest else rest)
        → total_ratio zs ≤ℤ total_ratio ys
    drop_le true zs rest positive le eq =
        rw eq (omega (arith, +ℤ_parts x.allocation_ratio (total_ratio rest)))
    drop_le false zs rest positive le eq = rw eq le

    keep_le :
        (keep : Bool) (zs rest : List AssignmentFact)
        → total_ratio zs ≤ℤ total_ratio rest
        → ys ≡ (if keep then x ∷ rest else rest)
        → total_ratio (if keep then x ∷ zs else zs) ≤ℤ total_ratio ys
    keep_le true zs rest le eq = rw eq (
        omega (
          arith,
          +ℤ_parts x.allocation_ratio (total_ratio rest),
          +ℤ_parts x.allocation_ratio (total_ratio zs),
        ))
    keep_le false zs rest le eq = rw eq le

-- On the day the query reaches the recorded interval of no fact that it does not reach on `probe`.
visible_or_not :
    (tenant : ℕ) (name : String) (value day probe : ℕ) (known_at : Datetime) (fact : AssignmentFact)
    → (Covers fact.effective day → Covers fact.effective probe)
    → (is_visible tenant name value day known_at fact ≡ ok false)
      ⊎ (is_visible tenant name value day known_at fact
          ≡ is_visible tenant name value probe known_at fact)
unfolding is_visible
visible_or_not tenant name value day probe known_at fact h =
    elim (Bool-cases (contains fact.effective day)) [
      | inl e ↦
          let e' : contains fact.effective probe ≡ true =
            (contains_iff fact.effective probe).1 (h ((contains_iff fact.effective day).0 e)) in
          inr (rw (e, e'))
      | inr e ↦ elim (Bool-cases (fact.tenant_record_id == tenant)) [
        | inr foreign ↦ inl (rw foreign)
        | inl own ↦ elim (Option-cases (assignment_identity name fact)) [
          | inl missing ↦ inr (rw (own, missing))
          | inr (v, found) ↦ inl (elim (Bool-cases (v == value)) [
            | inl same ↦ rw (own, found, same, e)
            | inr other ↦ rw (own, found, other)
          ])
        ]
      ]
    ]

-- On a day of the target the query returns if it does on the probe day, with no larger total.
resolve-le_probe :
    (assignments : List AssignmentFact) (target : DateInterval) (day : ℕ)
    (inside : Covers target day) (test : AssignmentFact → Bool) (tenant : ℕ) (name : String)
    (value : ℕ) (known_at : Datetime) (ys : List AssignmentFact)
    → ((a : AssignmentFact) → Memᴰ a (keep_if test assignments) → pos 0 ≤ℤ a.allocation_ratio)
    → resolve_bitemporal_facts
        (keep_if test assignments)
        tenant
        name
        value
        (probe assignments target day inside)
        known_at
      ≡ ok ys
    → (zs : List AssignmentFact) × (resolve_bitemporal_facts
          (keep_if test assignments)
          tenant
          name
          value
          day
          known_at
        ≡ ok zs)
      × (total_ratio zs ≤ℤ total_ratio ys)
unfolding resolve_bitemporal_facts
resolve-le_probe assignments target day inside test tenant name value known_at ys positive h =
    elim (Bool-cases (any_of (str_eq name) identity_fields)) [
      | inr e ↦ absurd (ground (arith, h))
      | inl e ↦
          let (zs, run, le) =
            select-le (is_visible tenant name value (probe assignments target day inside) known_at)
              (is_visible tenant name value day known_at) (keep_if test assignments) ys
              (λ a m.
                visible_or_not tenant name value day (probe assignments target day inside) known_at
                  a
                  (probe-Covers assignments target day inside a
                    (mem_of_mem-keep_if test assignments m).0))
              positive (rw e at h) in
          (zs, rw e run, le)
    ]

-- The three parts of an accepted write.
pub record WriteSteps (assignment : AssignmentFact) (assignments : List AssignmentFact)
    (employment_versions : List EmploymentVersion) (position_versions : List PositionVersion)
    (known_at : Datetime) : Type 0 where
  pub employed :
      validate_assignment_employment_coverage assignment employment_versions known_at ≡ ok tt
  pub seated : validate_assignment_position_coverage assignment position_versions known_at ≡ ok tt
  pub probed :
      for_each
        (check_day assignment assignments known_at)
        (allocation_probe_days assignments assignment.effective)
      ≡ ok tt

module _ (assignment : AssignmentFact) (assignments : List AssignmentFact)
    (employment_versions : List EmploymentVersion) (position_versions : List PositionVersion)
    (known_at : Datetime) where
  pub write_steps :
      validate_assignment_write assignment assignments employment_versions position_versions
          known_at
        ≡ ok tt
      → WriteSteps assignment assignments employment_versions position_versions known_at
  unfolding validate_assignment_write
  write_steps h =
      let (_, e, h1) =
        >>=-eq-ok (validate_assignment_employment_coverage assignment employment_versions known_at)
          _ h in
      let (_, e', h2) =
        >>=-eq-ok (validate_assignment_position_coverage assignment position_versions known_at) _
          h1 in
      record { employed = e; seated = e'; probed = h2 }

  module _
      (accepted : validate_assignment_write assignment assignments employment_versions
          position_versions known_at
        ≡ ok tt)
      (day : ℕ) (inside : Covers assignment.effective day) where
    abbrev probe_day : ℕ
    probe_day = probe assignments assignment.effective day inside

    probed_day : check_day assignment assignments known_at probe_day ≡ ok tt
    probed_day =
        for_each-mem (check_day assignment assignments known_at) _ (write_steps accepted).probed
          (probe-mem assignments assignment.effective day inside)

    -- An accepted write satisfies the portfolio rule on every day of the assignment, though the
    -- code tries the rule on the probe days only.
    pub write-portfolio_every_day :
        validate_assignment_portfolio assignments assignment.tenant_record_id
          assignment.person_record_id assignment.employment_record_id day known_at
        ≡ ok tt
    unfolding check_day
    write-portfolio_every_day =
        let (_, e, _) =
          >>=-eq-ok
            (validate_assignment_portfolio assignments assignment.tenant_record_id
              assignment.person_record_id assignment.employment_record_id probe_day known_at)
            _ probed_day in
        let w =
          (portfolio_iff assignments assignment.tenant_record_id assignment.person_record_id
              assignment.employment_record_id probe_day known_at).0
            e in
        let (zs, run, le) =
          resolve-le_probe assignments assignment.effective day inside
            (of_employment assignment.tenant_record_id assignment.person_record_id
              assignment.employment_record_id)
            assignment.tenant_record_id "employment_record_id" assignment.employment_record_id
            known_at w.visible (λ a m. omega (arith, w.ratios a m)) w.resolved in
        (portfolio_iff assignments assignment.tenant_record_id assignment.person_record_id
            assignment.employment_record_id day known_at).1
          (record {
            ratios = w.ratios;
            visible = zs;
            resolved = run;
            bounded = omega (arith, w.bounded);
          })

    -- An accepted write satisfies the seat rule on every day of the assignment, where no given ratio
    -- is negative: the seat rule itself does not look at the single ratios.
    pub write-seat_every_day :
        ((fact : AssignmentFact) → Memᴰ fact assignments → pos 0 ≤ℤ fact.allocation_ratio)
        → validate_position_seat_capacity assignments assignment.tenant_record_id
            assignment.position_record_id day known_at
          ≡ ok tt
    unfolding check_day
    write-seat_every_day positive =
        let (_, e, h) =
          >>=-eq-ok
            (validate_assignment_portfolio assignments assignment.tenant_record_id
              assignment.person_record_id assignment.employment_record_id probe_day known_at)
            _ probed_day in
        let w =
          (seat_capacity_iff assignments assignment.tenant_record_id assignment.position_record_id
              probe_day known_at).0
            h in
        let (zs, run, le) =
          resolve-le_probe assignments assignment.effective day inside
            (of_position assignment.tenant_record_id assignment.position_record_id)
            assignment.tenant_record_id "position_record_id" assignment.position_record_id known_at
            w.visible
            (λ a m.
              positive a
                (mem_of_mem-keep_if
                  (of_position assignment.tenant_record_id assignment.position_record_id)
                  assignments m).0)
            w.resolved in
        (seat_capacity_iff assignments assignment.tenant_record_id assignment.position_record_id day
            known_at).1
          (record { visible = zs; resolved = run; bounded = omega (arith, w.bounded) })
