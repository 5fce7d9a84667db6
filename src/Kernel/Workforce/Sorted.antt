-- ===== src/Kernel/Workforce/Sorted.antt =====
-- `sorted({…}, key=str)` of packages/hris-kernel/src/orgmetra_hris_kernel/workforce.py: the order and
-- the members of a set of identifiers that is kept in order.
use mathlib.Core.List.{Memᴰ}
use orgmetra.Base.{
  ◌⊎◌, ℕ, ◌<◌, ◌≡◌, ◌==◌, ltb, ==_iff, ◌∙◌, Bool-cases, List, [], ◌∷◌, mem-cons_cases, All, All-mem,
  inl, inr, arith,
}
use orgmetra.Kernel.Organization.Walk.{IsDistinct}
use orgmetra.Kernel.Workforce.{add_id, sorted_ids}

-- In ascending order, without repetition.
abbrev pub IsAscending : List ℕ → Type 0
IsAscending [] = Unit {0}
IsAscending (x ∷ xs) = All (λ y. x < y) xs × IsAscending xs

add_id-All : (z x : ℕ) (ys : List ℕ) → z < x → All (λ y. z < y) ys → All (λ y. z < y) (add_id x ys)
unfolding add_id
add_id-All z x [] h a = (h, tt)
add_id-All z x (y ∷ ys) h a = elim (Bool-cases (ltb x y)) [
  | inl e ↦ rw e (h, a)
  | inr e ↦ elim (Bool-cases (x == y)) [
    | inl e' ↦ rw (e, e') a
    | inr e' ↦ rw (e, e') (a.0, add_id-All z x ys h a.1)
  ]
]

All-lt_trans : (x y : ℕ) (ys : List ℕ) → x < y → All (λ z. y < z) ys → All (λ z. x < z) ys
All-lt_trans x y [] h a = tt
All-lt_trans x y (z ∷ ys) h a = (omega (arith, h, a.0), All-lt_trans x y ys h a.1)

add_id-IsAscending : (x : ℕ) (ys : List ℕ) → IsAscending ys → IsAscending (add_id x ys)
unfolding add_id
add_id-IsAscending x [] a = (tt, tt)
add_id-IsAscending x (y ∷ ys) a = elim (Bool-cases (ltb x y)) [
  | inl e ↦ let h : x < y = ground arith in rw e ((h, All-lt_trans x y ys h a.0), a)
  | inr e ↦ elim (Bool-cases (x == y)) [
    | inl e' ↦ rw (e, e') a
    | inr e' ↦ rw (e, e') (add_id-All y x ys (ground arith) a.0, add_id-IsAscending x ys a.1)
  ]
]

pub sorted_ids-IsAscending : (xs : List ℕ) → IsAscending (sorted_ids xs)
unfolding sorted_ids
sorted_ids-IsAscending [] = tt
sorted_ids-IsAscending (x ∷ xs) = add_id-IsAscending x (sorted_ids xs) (sorted_ids-IsAscending xs)

pub IsAscending-IsDistinct : (xs : List ℕ) → IsAscending xs → IsDistinct xs
IsAscending-IsDistinct [] a = tt
IsAscending-IsDistinct (x ∷ xs) a =
    (λ m. absurd (omega (arith, All-mem (λ y. x < y) xs a.0 m)), IsAscending-IsDistinct xs a.1)

add_id-mem : (x : ℕ) (ys : List ℕ) {a : ℕ} → (a ≡ x) ⊎ Memᴰ a ys → Memᴰ a (add_id x ys)
unfolding add_id
add_id-mem x [] (inl e) = Memᴰ.head e
add_id-mem x [] (inr m) = elim m [ ]
add_id-mem x (y ∷ ys) {a} h = elim (Bool-cases (ltb x y)) [
  | inl e ↦ rw e (elim h [ inl here ↦ Memᴰ.head here | inr m ↦ Memᴰ.tail m ])
  | inr e ↦ elim (Bool-cases (x == y)) [
    | inl e' ↦ rw (e, e') (elim h [ inl here ↦ Memᴰ.head (here ∙ (==_iff x y).0 e') | inr m ↦ m ])
    | inr e' ↦
        rw (e, e')
          (elim h [
            | inl here ↦ Memᴰ.tail (add_id-mem x ys (inl here))
            | inr m ↦ elim (mem-cons_cases m) [
              | inl there ↦ Memᴰ.head there
              | inr n ↦ Memᴰ.tail (add_id-mem x ys (inr n))
            ]
          ])
  ]
]

pub sorted_ids-mem : (xs : List ℕ) {a : ℕ} → Memᴰ a xs → Memᴰ a (sorted_ids xs)
unfolding sorted_ids
sorted_ids-mem [] m = elim m [ ]
sorted_ids-mem (x ∷ xs) m =
    add_id-mem x (sorted_ids xs)
      (elim (mem-cons_cases m) [ inl here ↦ inl here | inr n ↦ inr (sorted_ids-mem xs n) ])
