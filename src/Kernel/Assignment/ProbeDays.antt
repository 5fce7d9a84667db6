-- ===== src/Kernel/Assignment/ProbeDays.antt =====
-- The probe days of `_allocation_probe_days`: each day of the target has one that stands for it.
use orgmetra.Kernel.Intervals.Laws.{contains_iff, overlaps_of_common, Covers}
use mathlib.Core.List.{Memᴰ}
use orgmetra.Base.{
  ==_iff, ◌==◌, ltb, ◌&&◌, Bool, ◌⊎◌, mem-cons_cases, Bool-cases, leb, ◌≡◌, ◌≤◌, if◌then◌else◌, ℕ,
  List, refl, true, false, inl, inr, [], ◌∷◌, ap, arith,
}
use native.Mathlib.Decide.{dec_le}
use orgmetra.Kernel.Facts.{assignment_fact}
use orgmetra.Kernel.Assignment.{
  contains, overlaps, AssignmentFact, DateInterval, add_day, probe_days_from, allocation_probe_days,
}

mem-add_day_self : (day : ℕ) (days : List ℕ) → Memᴰ day (add_day day days)
unfolding add_day
mem-add_day_self day [] = Memᴰ.head refl
mem-add_day_self day (d ∷ days) = elim (Bool-cases (ltb day d)) [
  | inl e ↦ rw (e, add_day) (Memᴰ.head refl)
  | inr e ↦ elim (Bool-cases (day == d)) [
    | inl e' ↦ rw (e, e', add_day) (Memᴰ.head ((==_iff day d).0 e'))
    | inr e' ↦ rw (e, e', add_day) (Memᴰ.tail (mem-add_day_self day days))
  ]
]

mem-add_day : (day : ℕ) (days : List ℕ) {a : ℕ} → Memᴰ a days → Memᴰ a (add_day day days)
unfolding add_day
mem-add_day day [] m = elim m [ ]
mem-add_day day (d ∷ days) {a} m = elim (Bool-cases (ltb day d)) [
  | inl e ↦ rw (e, add_day) (Memᴰ.tail m)
  | inr e ↦ elim (Bool-cases (day == d)) [
    | inl e' ↦ rw (e, e', add_day) m
    | inr e' ↦
        rw (e, e', add_day)
          (elim (mem-cons_cases m) [
            | inl here ↦ Memᴰ.head here
            | inr n ↦ Memᴰ.tail (mem-add_day day days n)
          ])
  ]
]

module _ (target : DateInterval) where
  -- What is a probe day stays one.
  mem-probe_days_from :
      (days : List ℕ) (facts : List AssignmentFact) {a : ℕ}
      → Memᴰ a days
      → Memᴰ a (probe_days_from days facts target)
  unfolding probe_days_from
  mem-probe_days_from days [] m = m
  mem-probe_days_from days (fact ∷ facts) m =
      mem-probe_days_from
        (if overlaps fact.effective target && contains target fact.effective.start
          then add_day fact.effective.start days
          else days)
        facts
        (kept (overlaps fact.effective target && contains target fact.effective.start)
          fact.effective.start m)
    where
      kept : (b : Bool) (d : ℕ) {a : ℕ} → Memᴰ a days → Memᴰ a (if b then add_day d days else days)
      kept true d m = mem-add_day d days m
      kept false d m = m

  -- The start of a fact that begins inside the target is a probe day.
  start-mem-probe_days_from :
      (days : List ℕ) (facts : List AssignmentFact) {fact : AssignmentFact}
      → Memᴰ fact facts
      → overlaps fact.effective target ≡ true
      → contains target fact.effective.start ≡ true
      → Memᴰ fact.effective.start (probe_days_from days facts target)
  unfolding probe_days_from
  start-mem-probe_days_from days [] m o c = elim m [ ]
  start-mem-probe_days_from days (f ∷ facts) {fact} m o c = elim (mem-cons_cases m) [
    | inl here ↦ rw here (
        mem-probe_days_from _ facts (
          added (overlaps f.effective target && contains target f.effective.start) (
            ground (
              arith,
              ap (λ (z : AssignmentFact). overlaps z.effective target) here,
              ap (λ (z : AssignmentFact). contains target z.effective.start) here,
            ))))
    | inr n ↦
        start-mem-probe_days_from
          (if overlaps f.effective target && contains target f.effective.start
            then add_day f.effective.start days
            else days)
          facts n o c
  ]
    where
      added : (b : Bool) {d : ℕ} → b ≡ true → Memᴰ d (if b then add_day d days else days)
      added true e = mem-add_day_self _ days
      added false e = cc

-- The latest of some days that is not after a given day.
pub latest : ℕ → ℕ → List ℕ → ℕ
latest day best [] = best
latest day best (d ∷ days) = latest day (if leb d day && leb best d then d else best) days

latest-le : (day best : ℕ) (days : List ℕ) → best ≤ day → latest day best days ≤ day
unfolding latest
latest-le day best [] h = h
latest-le day best (d ∷ days) h =
    latest-le day (if leb d day && leb best d then d else best) days (ground arith)

best-le-latest : (day best : ℕ) (days : List ℕ) → best ≤ latest day best days
unfolding latest
best-le-latest day best [] = omega arith
best-le-latest day best (d ∷ days) =
    ground (arith, best-le-latest day (if leb d day && leb best d then d else best) days)

le-latest :
    (day best : ℕ) (days : List ℕ) {d : ℕ} → Memᴰ d days → d ≤ day → d ≤ latest day best days
unfolding latest
le-latest day best [] m h = elim m [ ]
le-latest day best (x ∷ days) {d} m h = elim (mem-cons_cases m) [
  | inl here ↦ ground (arith, best-le-latest day (if leb x day && leb best x then x else best) days)
  | inr n ↦ le-latest day (if leb x day && leb best x then x else best) days n h
]

latest-mem :
    (day best : ℕ) (days : List ℕ)
    → (latest day best days ≡ best) ⊎ Memᴰ (latest day best days) days
unfolding latest
latest-mem day best [] = inl refl
latest-mem day best (d ∷ days) =
    elim (latest-mem day (if leb d day && leb best d then d else best) days) [
      | inr m ↦ inr (Memᴰ.tail m)
      | inl e ↦ elim (Bool-cases (leb d day && leb best d)) [
        | inl b ↦ inr (Memᴰ.head (ground (arith, e)))
        | inr b ↦ inl (ground (arith, e))
      ]
    ]

module _ (assignments : List AssignmentFact) (target : DateInterval) (day : ℕ)
    (inside : Covers target day) where
  -- The probe day that stands for `day`.
  abbrev pub probe : ℕ
  probe = latest day target.start (allocation_probe_days assignments target)

  pub probe-mem : Memᴰ probe (allocation_probe_days assignments target)
  unfolding allocation_probe_days
  probe-mem = elim (latest-mem day target.start (allocation_probe_days assignments target)) [
    | inr m ↦ m
    | inl e ↦ rw e (mem-probe_days_from target (target.start ∷ []) assignments (Memᴰ.head refl))
  ]

  -- A fact in effect on the day is in effect on its probe day.
  pub probe-Covers :
      (fact : AssignmentFact)
      → Memᴰ fact assignments
      → Covers fact.effective day
      → Covers fact.effective probe
  unfolding allocation_probe_days
  probe-Covers fact m c = elim (dec_le fact.effective.start probe) [
    | yes started ↦
        ground
          (arith, latest-le day target.start (allocation_probe_days assignments target) inside.0)
    | no late ↦ absurd (
        omega (
          arith,
          le-latest day target.start (allocation_probe_days assignments target)
              (start-mem-probe_days_from target (target.start ∷ []) assignments m
                (overlaps_of_common fact.effective target day c inside)
                ((contains_iff target fact.effective.start).1 (
                  ground (
                    arith,
                    best-le-latest day target.start (allocation_probe_days assignments target),
                  ))))
              c.0,
        ))
  ]
