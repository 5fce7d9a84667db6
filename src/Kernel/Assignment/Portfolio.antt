-- ===== src/Kernel/Assignment/Portfolio.antt =====
-- The two allocation checks at one day: what they accept, and that they bound the visible sum.
use orgmetra.Kernel.Facts.{assignment_fact}
use mathlib.Core.List.{Memᴰ}
use orgmetra.Base.Int.{+ℤ_parts, ◌+ℤ◌, neg_part, ◌≤ℤ◌, ◌<ℤ◌, pos_part}
use orgmetra.Base.{
  [], for_each_of_mem, not, for_each-mem, guard-eq-ok, ◌≤◌, not-true, for_each, >>=-eq-ok, ltb,
  keep_if, arith, ok, ◌+◌, ◌↔◌, false, ℕ, true, ◌∷◌, ◌≡◌,
}
use orgmetra.Kernel.Assignment.{
  resolve_bitemporal_facts, Datetime, ltb_ℤ, pos, AssignmentFact, List, ℤ, one, ratio_is_valid,
  sum_from, check_ratio, of_employment, of_position, validate_assignment_portfolio,
  validate_position_seat_capacity, over_employment, over_seat, invalid_ratio,
}

-- The plain sum of the ratios of some facts, which the loop of the code adds up from the left.
unfoldable pub total_ratio : List AssignmentFact → ℤ
total_ratio [] = pos 0
total_ratio (fact ∷ facts) = fact.allocation_ratio +ℤ total_ratio facts

sum_from-parts :
    (acc : ℤ) (facts : List AssignmentFact)
    → pos_part (sum_from acc facts) + neg_part acc + neg_part (total_ratio facts)
      ≡ neg_part (sum_from acc facts) + pos_part acc + pos_part (total_ratio facts)
unfolding sum_from total_ratio
sum_from-parts acc [] = omega arith
sum_from-parts acc (fact ∷ facts) = omega (
  arith,
  sum_from-parts (acc +ℤ fact.allocation_ratio) facts,
  +ℤ_parts acc fact.allocation_ratio,
  +ℤ_parts fact.allocation_ratio (total_ratio facts),
)

pub sum_from-le_iff :
    (facts : List AssignmentFact)
    → (ltb_ℤ one (sum_from (pos 0) facts) ≡ false) ↔ (total_ratio facts ≤ℤ one)
sum_from-le_iff facts = (
  λ h. omega (arith, sum_from-parts (pos 0) facts, not_ltb _ _ h),
  λ h. le_not_ltb _ _ (omega (arith, sum_from-parts (pos 0) facts)),
)
  where
    not_ltb : (a b : ℕ) → ltb a b ≡ false → b ≤ a
    not_ltb a b h = ground arith

    le_not_ltb : (a b : ℕ) → b ≤ a → ltb a b ≡ false
    le_not_ltb a b h = ground arith

-- The ratio is positive and at most 1.0000.
abbrev pub IsValidRatio : ℤ → Type 0
IsValidRatio r = (pos 0 <ℤ r) × (r ≤ℤ one)

pub ratio_is_valid_iff : (r : ℤ) → (ratio_is_valid r ≡ true) ↔ IsValidRatio r
unfolding ratio_is_valid
ratio_is_valid_iff r = ground arith

module _ (assignments : List AssignmentFact) (tenant person employment day : ℕ)
    (known_at : Datetime) where
  abbrev employment_scope : List AssignmentFact
  employment_scope = keep_if (of_employment tenant person employment) assignments

  -- The portfolio of an employment on a day: valid ratios, and a visible total of at most 1.0000.
  pub record IsWithinOne : Type 0 where
    pub ratios :
        (fact : AssignmentFact) → Memᴰ fact employment_scope → IsValidRatio fact.allocation_ratio
    pub visible : List AssignmentFact
    pub resolved :
        resolve_bitemporal_facts employment_scope tenant "employment_record_id" employment day
          known_at
        ≡ ok visible
    pub bounded : total_ratio visible ≤ℤ one

  -- The portfolio rule accepts exactly the days on which every ratio of the employment is valid
  -- and the visible ratios add up to at most 1.0000.
  pub portfolio_iff :
      (validate_assignment_portfolio assignments tenant person employment day known_at ≡ ok tt)
      ↔ IsWithinOne
  unfolding validate_assignment_portfolio check_ratio
  portfolio_iff = (
    λ h.
        let (u, e, h1) = >>=-eq-ok (for_each check_ratio employment_scope) _ h in
        let (visible, e', h2) =
          >>=-eq-ok
            (resolve_bitemporal_facts employment_scope tenant "employment_record_id" employment day
              known_at)
            _ h1 in
        record {
          ratios = λ fact m. (ratio_is_valid_iff fact.allocation_ratio).0 (
              guard-eq-ok (ratio_is_valid fact.allocation_ratio) invalid_ratio
                (for_each-mem check_ratio employment_scope e m));
          visible = visible;
          resolved = e';
          bounded = (sum_from-le_iff visible).0 (
              not-true (ltb_ℤ one (sum_from (pos 0) visible))
                (guard-eq-ok (not (ltb_ℤ one (sum_from (pos 0) visible))) over_employment h2));
        },
    λ w.
        rw
          (for_each_of_mem check_ratio employment_scope
            (λ fact m. rw ((ratio_is_valid_iff fact.allocation_ratio).1 (w.ratios fact m))))
          (rw (w.resolved) (rw ((sum_from-le_iff w.visible).1 w.bounded))),
  )

module _ (assignments : List AssignmentFact) (tenant position day : ℕ) (known_at : Datetime) where
  abbrev seat_scope : List AssignmentFact
  seat_scope = keep_if (of_position tenant position) assignments

  pub record IsWithinSeat : Type 0 where
    pub visible : List AssignmentFact
    pub resolved :
        resolve_bitemporal_facts seat_scope tenant "position_record_id" position day known_at
        ≡ ok visible
    pub bounded : total_ratio visible ≤ℤ one

  -- The seat rule accepts exactly the days on which the seat's visible ratios add up to at most 1.0000.
  pub seat_capacity_iff :
      (validate_position_seat_capacity assignments tenant position day known_at ≡ ok tt)
      ↔ IsWithinSeat
  unfolding validate_position_seat_capacity
  seat_capacity_iff = (
    λ h.
        let (visible, e', h2) =
          >>=-eq-ok
            (resolve_bitemporal_facts seat_scope tenant "position_record_id" position day known_at)
            _ h in
        record {
          visible = visible;
          resolved = e';
          bounded = (sum_from-le_iff visible).0 (
              not-true (ltb_ℤ one (sum_from (pos 0) visible))
                (guard-eq-ok (not (ltb_ℤ one (sum_from (pos 0) visible))) over_seat h2));
        },
    λ w. rw (w.resolved) (rw ((sum_from-le_iff w.visible).1 w.bounded)),
  )
