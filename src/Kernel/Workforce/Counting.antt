-- ===== src/Kernel/Workforce/Counting.antt =====
-- Counting without repetition, for packages/hris-kernel/src/orgmetra_hris_kernel/workforce.py: its
-- sets, its sorted identifiers and its `Counter`.
use mathlib.Core.List.{Memᴰ}
use orgmetra.Base.{
  ◌⊎◌, ℕ, ◌≡◌, ◌+◌, ◌↔◌, ◌==◌, ==_iff, refl, String, Bool, true, false, not, not-true, Bool-cases,
  List, [], ◌∷◌, map, length, keep_if, mem-keep_if, mem_of_mem-keep_if, any_of, any_of-mem,
  mem-cons_cases, inl, inr, arith, str_eq, eq_iff, if◌then◌else◌,
}
use orgmetra.Base.Int.{pos_part, neg_part, +ℤ_parts}
use orgmetra.Kernel.Organization.{distinct}
use orgmetra.Kernel.Organization.Walk.{IsDistinct, any_of-eq}
use orgmetra.Kernel.Organization.Chart.{distinct-mem}
use orgmetra.Kernel.Facts.{EmploymentVersion, AssignmentFact}
use orgmetra.Kernel.Workforce.{total_fte, count_status, status_counts}

-- There are exactly n numbers with the property.
pub record Counts (P : ℕ → Type 0) (n : ℕ) : Type 0 where
  pub members : List ℕ
  pub once : IsDistinct members
  pub counted : length members ≡ n
  pub are : (x : ℕ) → Memᴰ x members ↔ P x

pub mem-distinct : (xs : List ℕ) {a : ℕ} → Memᴰ a (distinct xs) → Memᴰ a xs
unfolding distinct
mem-distinct [] m = elim m [ ]
mem-distinct (x ∷ xs) {a} m = elim (Bool-cases (any_of (◌==◌ x) xs)) [
  | inl e ↦ Memᴰ.tail (mem-distinct xs (rw (e, distinct) at m))
  | inr e ↦ elim (mem-cons_cases (rw (e, distinct) at m)) [
    | inl here ↦ Memᴰ.head here
    | inr n ↦ Memᴰ.tail (mem-distinct xs n)
  ]
]

pub distinct-IsDistinct : (xs : List ℕ) → IsDistinct (distinct xs)
unfolding distinct
distinct-IsDistinct [] = tt
distinct-IsDistinct (x ∷ xs) = elim (Bool-cases (any_of (◌==◌ x) xs)) [
  | inl e ↦ rw (e, distinct) (distinct-IsDistinct xs)
  | inr e ↦
      rw (e, distinct)
        (
          λ m. cc (e, any_of-mem (◌==◌ x) xs (mem-distinct xs m) ((==_iff x x).1 refl)),
          distinct-IsDistinct xs,
        )
]

pub keep_if-IsDistinct : (p : ℕ → Bool) (xs : List ℕ) → IsDistinct xs → IsDistinct (keep_if p xs)
unfolding keep_if
keep_if-IsDistinct p [] d = tt
keep_if-IsDistinct p (x ∷ xs) d = elim (Bool-cases (p x)) [
  | inl e ↦ rw e (λ m. d.0 (mem_of_mem-keep_if p xs m).0, keep_if-IsDistinct p xs d.1)
  | inr e ↦ rw e (keep_if-IsDistinct p xs d.1)
]

-- The number of distinct elements.
pub distinct-Counts : (xs : List ℕ) → Counts (λ x. Memᴰ x xs) (length (distinct xs))
distinct-Counts xs = record {
  members = distinct xs;
  once = distinct-IsDistinct xs;
  counted = refl;
  are = λ x. (mem-distinct xs, distinct-mem xs);
}

-- `len(set(xs) - set(ys))`
pub difference-Counts :
    (xs ys : List ℕ)
    → Counts
        (λ x. Memᴰ x xs × ¬ Memᴰ x ys)
        (length (keep_if (λ x. not (any_of (◌==◌ x) ys)) (distinct xs)))
difference-Counts xs ys = record {
  members = keep_if (λ x. not (any_of (◌==◌ x) ys)) (distinct xs);
  once = keep_if-IsDistinct _ (distinct xs) (distinct-IsDistinct xs);
  counted = refl;
  are = λ x. (
    λ m.
        let (n, e) = mem_of_mem-keep_if (λ x. not (any_of (◌==◌ x) ys)) (distinct xs) m in
        (
          mem-distinct xs n,
          λ k. let out = not-true _ e in cc (out, any_of-mem (◌==◌ x) ys k ((==_iff x x).1 refl)),
        ),
    λ (m, out).
        mem-keep_if (λ x. not (any_of (◌==◌ x) ys)) (distinct xs) (distinct-mem xs m)
          (absent x out (Bool-cases (any_of (◌==◌ x) ys))),
  );
}
  where
    absent :
        (x : ℕ)
        → (¬ Memᴰ x ys)
        → (any_of (◌==◌ x) ys ≡ true) ⊎ (any_of (◌==◌ x) ys ≡ false)
        → not (any_of (◌==◌ x) ys) ≡ true
    absent x out (inl e) = absurd (out (any_of-eq x ys e))
    absent x out (inr e) = rw e

-- What the entries of a status add up to.
abbrev pub count_of : String → List (String × ℕ) → ℕ
count_of c [] = 0
count_of c ((t, n) ∷ counts) = (if str_eq c t then n else 0) + count_of c counts

count_of-count_status :
    (c s : String) (counts : List (String × ℕ))
    → count_of c (count_status s counts) ≡ (if str_eq c s then 1 else 0) + count_of c counts
unfolding count_status
count_of-count_status c s [] = omega arith
count_of-count_status c s ((t, n) ∷ counts) =
    ground (arith, count_of-count_status c s counts, eq_iff s t)

-- The counts of a status are those of the versions with it.
pub count_of-status_counts :
    (c : String) (versions : List EmploymentVersion)
    → count_of c (status_counts versions)
      ≡ length (keep_if (λ v. str_eq c v.employment_status_code) versions)
unfolding status_counts keep_if
count_of-status_counts c [] = refl
count_of-status_counts c (v ∷ versions) = ground (
  arith,
  count_of-status_counts c versions,
  count_of-count_status c v.employment_status_code (status_counts versions),
)

-- A sum of natural numbers.
abbrev pub sum : List ℕ → ℕ
sum [] = 0
sum (n ∷ ns) = n + sum ns

-- The total is what the positive parts of the ratios exceed their negative parts by.
pub total_fte-sum :
    (staffed : List AssignmentFact)
    → pos_part (total_fte staffed) + sum (map (λ a. neg_part a.allocation_ratio) staffed)
      ≡ neg_part (total_fte staffed) + sum (map (λ a. pos_part a.allocation_ratio) staffed)
unfolding total_fte
total_fte-sum [] = refl
total_fte-sum (a ∷ staffed) =
    omega (arith, total_fte-sum staffed, +ℤ_parts (total_fte staffed) a.allocation_ratio)
