-- ===== src/Kernel/Employment/Laws.antt =====
-- What the exclusivity rule accepts: exactly the portfolios with no day in two exclusive jobs.
use orgmetra.Kernel.Intervals.Laws.{
  overlaps_iff, recorded_contains-eq-knows, knows, IsAwareInterval, IsOrdered, IsAware,
  overlaps_of_common, Covers,
}
use mathlib.Core.List.{Memᴰ}
use native.Mathlib.Decide.{ℕ_discrete}
use orgmetra.Base.{
  Bool-cases, for_pairs_of_mem, for_each_of_mem, ◌&&◌, select_total, for_each-mem, guard-eq-ok,
  any_of, mem-keep_if, mem-select, arith, inr, mem_of_mem-keep_if, ap, inl, mem_of_mem-select,
  >>=-eq-ok, for_pairs, for_pairs-mem, ◌↔◌, true, for_each, str_eq, ok, ◌≡◌, ◌≢◌,
}
use orgmetra.Kernel.Employment.{
  overlaps, recorded_contains, keep_if, select, Datetime, ℕ, EmploymentVersion, List,
  known_concurrency, unknown_concurrency, of_person, check_concurrency, is_visible_exclusive,
  check_exclusive_pair, validate_person_employment_exclusivity,
}

-- The version is an exclusive job of the person, and was known.
pub record IsExclusive (tenant person : ℕ) (known_at : Datetime) (v : EmploymentVersion)
    : Type 0 where
  pub of_tenant : v.tenant_record_id ≡ tenant
  pub of_holder : v.person_record_id ≡ person
  pub exclusive : str_eq v.employment_concurrency_code "exclusive" ≡ true
  pub known : recorded_contains v.recorded known_at ≡ ok true

abbrev pub Conflict : EmploymentVersion → EmploymentVersion → Type 0
Conflict v w =
    (v.employment_record_id ≢ w.employment_record_id)
    × ((day : ℕ) × Covers v.effective day × Covers w.effective day)

module _ (versions : List EmploymentVersion) (tenant person : ℕ) (known_at : Datetime) where
  -- The three steps of a validation that returns.
  validate_steps :
      validate_person_employment_exclusivity versions tenant person known_at ≡ ok tt
      → (for_each check_concurrency (keep_if (of_person tenant person) versions) ≡ ok tt)
        × ((visible : List EmploymentVersion) × (select
                (is_visible_exclusive known_at)
                (keep_if (of_person tenant person) versions)
              ≡ ok visible)
            × (for_pairs check_exclusive_pair visible ≡ ok tt))
  unfolding validate_person_employment_exclusivity
  validate_steps h =
      let (u, e, h') =
        >>=-eq-ok (for_each check_concurrency (keep_if (of_person tenant person) versions)) _ h in
      (
        e,
        >>=-eq-ok
            (select (is_visible_exclusive known_at) (keep_if (of_person tenant person) versions)) _
            h',
      )

  IsExclusive-member :
      (visible : List EmploymentVersion)
      → select (is_visible_exclusive known_at) (keep_if (of_person tenant person) versions)
        ≡ ok visible
      → (v : EmploymentVersion)
      → Memᴰ v visible ↔ (Memᴰ v versions × IsExclusive tenant person known_at v)
  unfolding is_visible_exclusive
  IsExclusive-member visible e v = (
    λ m.
        let (n, t) = mem_of_mem-select (is_visible_exclusive known_at) _ visible e m in
        let (n', s) = mem_of_mem-keep_if (of_person tenant person) versions n in
        (
          n',
          record {
            of_tenant = ground arith;
            of_holder = ground arith;
            exclusive = ground arith;
            known = ground arith;
          },
        ),
    λ (m, x).
        mem-select (is_visible_exclusive known_at) _ visible e
          (mem-keep_if (of_person tenant person) versions m
            (ground (arith, x.of_tenant, x.of_holder)))
          (ground (arith, x.exclusive, x.known)),
  )

  -- After validation no two different exclusive employments of the person, known at the cutoff,
  -- share a day.
  pub exclusivity_sound :
      validate_person_employment_exclusivity versions tenant person known_at ≡ ok tt
      → (v w : EmploymentVersion) → Memᴰ v versions
      → Memᴰ w versions
      → IsExclusive tenant person known_at v
      → IsExclusive tenant person known_at w
      → ¬ Conflict v w
  unfolding check_exclusive_pair
  exclusivity_sound h v w mv mw xv xw (other, (day, cv, cw)) =
      let (codes, (visible, e, pairs)) = validate_steps h in
      elim (for_pairs-mem check_exclusive_pair visible pairs
        ((IsExclusive-member visible e v).1 (mv, xv))
        ((IsExclusive-member visible e w).1 (mw, xw))) [
          | inl same ↦ other (ap (λ (z : EmploymentVersion). z.employment_record_id) same)
          | inr (inl p) ↦ ground (arith, overlaps_of_common v.effective w.effective day cv cw)
          | inr (inr p) ↦ ground (arith, overlaps_of_common w.effective v.effective day cw cv)
        ]

-- Facts as their constructors leave them: a period with a day, and recorded bounds with offsets.
abbrev pub IsWellFormed : EmploymentVersion → Type 0
IsWellFormed v = IsOrdered v.effective × IsAwareInterval v.recorded

abbrev pub HasKnownCode : EmploymentVersion → Type 0
HasKnownCode v = any_of (str_eq v.employment_concurrency_code) known_concurrency ≡ true

-- What the rule demands of the versions that it is given.
pub record IsExclusivePortfolio (versions : List EmploymentVersion) (tenant person : ℕ)
    (known_at : Datetime) : Type 0 where
  pub codes :
      (v : EmploymentVersion)
      → Memᴰ v versions
      → v.tenant_record_id ≡ tenant
      → v.person_record_id ≡ person
      → HasKnownCode v
  pub apart :
      (v w : EmploymentVersion)
      → Memᴰ v versions
      → Memᴰ w versions
      → IsExclusive tenant person known_at v
      → IsExclusive tenant person known_at w
      → ¬ Conflict v w

check_pair_ok :
    (v w : EmploymentVersion)
    → IsOrdered v.effective
    → IsOrdered w.effective
    → ¬ Conflict v w
    → check_exclusive_pair v w ≡ ok tt
unfolding check_exclusive_pair
check_pair_ok v w ov ow h = elim (ℕ_discrete v.employment_record_id w.employment_record_id) [
  | yes same ↦ ground arith
  | no other ↦ elim (Bool-cases (overlaps v.effective w.effective)) [
    | inl e ↦ absurd (h (other, (overlaps_iff v.effective w.effective ov ow).0 e))
    | inr e ↦ ground arith
  ]
]

-- On well-formed facts the rule accepts exactly the exclusive portfolios.
pub exclusivity_iff :
    (versions : List EmploymentVersion) (tenant person : ℕ) (known_at : Datetime)
    → IsAware known_at
    → ((v : EmploymentVersion) → Memᴰ v versions → IsWellFormed v)
    → (validate_person_employment_exclusivity versions tenant person known_at ≡ ok tt)
      ↔ IsExclusivePortfolio versions tenant person known_at
unfolding validate_person_employment_exclusivity check_concurrency is_visible_exclusive
exclusivity_iff versions tenant person known_at aware wf = (
  λ h. record {
    codes = λ v m t p. guard-eq-ok _ unknown_concurrency (
        for_each-mem check_concurrency _ (validate_steps versions tenant person known_at h).0
          (mem-keep_if (of_person tenant person) versions m (ground arith)));
    apart = exclusivity_sound versions tenant person known_at h;
  },
  λ x.
      let scoped : List EmploymentVersion = keep_if (of_person tenant person) versions in
      let (visible, e) = select_total (is_visible_exclusive known_at) scoped (λ v m.
        let n = (mem_of_mem-keep_if (of_person tenant person) versions m).0 in
        (
          knows v.recorded known_at && str_eq v.employment_concurrency_code "exclusive",
          ground (arith, recorded_contains-eq-knows v.recorded known_at (wf v n).1 aware),
        )) in
      let member = IsExclusive-member versions tenant person known_at visible e in
      rw
        (for_each_of_mem check_concurrency scoped (λ v m.
          let (n, s) = mem_of_mem-keep_if (of_person tenant person) versions m in
          ground (arith, x.codes v n)))
        (rw e (
          for_pairs_of_mem check_exclusive_pair visible (λ v w m n.
            let (mv, xv) = (member v).0 m in
            let (mw, xw) = (member w).0 n in
            check_pair_ok v w (wf v mv).0 (wf w mw).0 (x.apart v w mv mw xv xw)))),
)
