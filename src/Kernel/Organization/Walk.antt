-- ===== src/Kernel/Organization/Walk.antt =====
-- The walk up the parent links ends, and raises exactly when it comes back to a unit.
use orgmetra.Kernel.Errors.{organization_hierarchy_error, Error}
use mathlib.Core.List.{Memᴰ}
use orgmetra.Base.{
  ◌∙◌, ==_self, Option-cases, any_of-mem, mem-cons_cases, ◌⊎◌, mem-keep_if, subst, mem_of_any_of,
  ==_iff, length-map, length-keep_if-le, not, ◌<◌, ◌==◌, ◌+◌, ◌≤◌, Bool-cases, Result, any_of, Bool,
  length, map, Option, List, ℕ, keep_if, ◌≡◌, refl, true, false, inl, inr, none, some, arith, ok,
  err, zero, suc, [], ◌∷◌, ap, sym,
}
use orgmetra.Kernel.Organization.{Parents, parent_of, walk, check_start}

-- Some steps up from a unit.
abbrev pub up : Parents → ℕ → Option ℕ → Option ℕ
up parents zero unit = unit
up parents (suc n) none = none
up parents (suc n) (some unit) = up parents n (parent_of parents unit)

-- No element stands twice.
abbrev pub IsDistinct : List ℕ → Type 0
IsDistinct [] = Unit
IsDistinct (x ∷ xs) = (¬ Memᴰ x xs) × IsDistinct xs

length-keep_if-lt :
    (p : ℕ → Bool) (xs : List ℕ) {a : ℕ}
    → Memᴰ a xs
    → p a ≡ false
    → length (keep_if p xs) < length xs
unfolding keep_if
length-keep_if-lt p [] m h = elim m [ ]
length-keep_if-lt p (x ∷ xs) (Memᴰ.head e) h = ground (arith, length-keep_if-le p xs, ap p e)
length-keep_if-lt p (x ∷ xs) (Memᴰ.tail m) h = ground (arith, length-keep_if-lt p xs m h)

-- A list with no repetition is no longer than one that holds all its elements.
length-le_of_subset :
    (xs ys : List ℕ) → IsDistinct xs → ((a : ℕ) → Memᴰ a xs → Memᴰ a ys) → length xs ≤ length ys
length-le_of_subset [] ys d h = omega arith
length-le_of_subset (x ∷ xs) ys d h =
    let other : ℕ → Bool = λ (y : ℕ). not (y == x) in
    omega (
      arith,
      length-le_of_subset xs (keep_if other ys) d.1
          (λ a m. mem-keep_if other ys (h a (Memᴰ.tail m)) (differs a m)),
      length-keep_if-lt other ys (h x (Memᴰ.head refl)) (ground arith),
    )
  where
    differs : (a : ℕ) → Memᴰ a xs → not (a == x) ≡ true
    differs a m = elim (Bool-cases (a == x)) [
      | inl e ↦ absurd (d.0 (subst (λ z. Memᴰ z xs) ((==_iff a x).0 e) m))
      | inr e ↦ rw e
    ]

abbrev pub units : Parents → List ℕ
units = map (λ (entry : ℕ × Option ℕ). entry.0)

-- A unit with a parent has an entry.
pub parent_of-mem :
    (parents : Parents) (unit p : ℕ) → parent_of parents unit ≡ some p → Memᴰ unit (units parents)
unfolding parent_of
parent_of-mem [] unit p h = cc
parent_of-mem ((u, q) ∷ parents) unit p h = elim (Bool-cases (u == unit)) [
  | inl e ↦ Memᴰ.head (sym ((==_iff u unit).0 e))
  | inr e ↦ Memᴰ.tail (parent_of-mem parents unit p (ground arith))
]

pub any_of-eq : (a : ℕ) (xs : List ℕ) → any_of (◌==◌ a) xs ≡ true → Memᴰ a xs
any_of-eq a xs h =
    let (b, m, e) = mem_of_any_of (◌==◌ a) xs h in subst (λ z. Memᴰ z xs) (sym ((==_iff a b).0 e)) m

module _ (parents : Parents) where
  -- What the walk has behind it: units without repetition, each with an entry, that lead here.
  record Trail (seen : List ℕ) (current : Option ℕ) : Type 0 where
    apart : IsDistinct seen
    entered : (s : ℕ) → Memᴰ s seen → Memᴰ s (units parents)
    leads : (s : ℕ) → Memᴰ s seen → (n : ℕ) × (up parents (suc n) (some s) ≡ current)

  -- The two ways in which a walk ends.
  abbrev Outcome : Option ℕ → Result Error (Unit {0}) → Type 0
  Outcome current (ok _) = (n : ℕ) × (up parents n current ≡ none)
  Outcome current (err e) =
      (e ≡ organization_hierarchy_error)
      × (unit : ℕ) × (n : ℕ) × (up parents (suc n) (some unit) ≡ some unit)

  pub up-none : (n : ℕ) → up parents n none ≡ none
  up-none zero = refl
  up-none (suc n) = refl

  pub up-suc :
      (n : ℕ) (unit : Option ℕ) (v : ℕ)
      → up parents n unit ≡ some v
      → up parents (suc n) unit ≡ parent_of parents v
  up-suc n none v h = cc (up-none n)
  up-suc zero (some u) v h = ground arith
  up-suc (suc n) (some u) v h = up-suc n (parent_of parents u) v h

  walk_root : (fuel : ℕ) (seen : List ℕ) → 0 < fuel → walk fuel parents seen none ≡ some (ok tt)
  unfolding walk
  walk_root zero seen h = absurd (omega arith)
  walk_root (suc fuel) seen h = refl

  not-mem : (c : ℕ) (seen : List ℕ) → any_of (◌==◌ c) seen ≡ false → ¬ Memᴰ c seen
  not-mem c seen h m = ground (arith, any_of-mem (◌==◌ c) seen m (==_self c))

  -- One step up, from a unit that is not behind and has a parent.
  Trail-step :
      (seen : List ℕ) (c p : ℕ)
      → Trail seen (some c)
      → any_of (◌==◌ c) seen ≡ false
      → parent_of parents c ≡ some p
      → Trail (c ∷ seen) (some p)
  Trail-step seen c p t new e = record {
    apart = (not-mem c seen new, t.apart);
    entered = λ s m. elim (mem-cons_cases m) [
      | inl here ↦ rw here (parent_of-mem parents c p e)
      | inr n ↦ t.entered s n
    ];
    leads = λ s m. elim (mem-cons_cases m) [
      | inl here ↦ (0, rw here e)
      | inr n ↦ let (k, path) = t.leads s n in (suc k, up-suc (suc k) (some s) c path ∙ e)
    ];
  }

  seen-le : (seen : List ℕ) (current : Option ℕ) → Trail seen current → length seen ≤ length parents
  seen-le seen current t = omega (
    arith,
    length-le_of_subset seen (units parents) t.apart t.entered,
    length-map (λ (entry : ℕ × Option ℕ). entry.0) parents,
  )

  -- With the fuel of the code a walk ends: at the top, or back at a unit that is above itself.
  walk_lem :
      (fuel : ℕ) (seen : List ℕ) (current : Option ℕ)
      → Trail seen current
      → length parents + 2 ≤ fuel + length seen
      → (r : Result Error (Unit {0})) × (walk fuel parents seen current ≡ some r)
        × Outcome current r
  unfolding walk
  walk_lem zero seen current t h = absurd (omega (arith, seen-le seen current t))
  walk_lem (suc fuel) seen none t h = (ok tt, refl, (0, refl))
  walk_lem (suc fuel) seen (some c) t h = elim (Bool-cases (any_of (◌==◌ c) seen)) [
    | inl back ↦
        let (n, e) = t.leads c (any_of-eq c seen back) in
        (err organization_hierarchy_error, rw (back, walk), (refl, c, n, e))
    | inr new ↦ elim (Option-cases (parent_of parents c)) [
      | inl top ↦ (
        ok tt,
        rw (new, walk)
            (rw top (walk_root fuel (c ∷ seen) (omega (arith, seen-le seen (some c) t)))),
        (1, top),
      )
      | inr (p, e) ↦
          let (r, run, out) =
            walk_lem fuel (c ∷ seen) (some p) (Trail-step seen c p t new e) (omega arith) in
          (r, rw (new, walk) (rw e run), later c p e r out)
    ]
  ]
    where
      later :
          (c p : ℕ)
          → parent_of parents c ≡ some p
          → (r : Result Error (Unit {0})) → Outcome (some p) r
          → Outcome (some c) r
      later c p e (ok _) (n, top) = (suc n, rw e top)
      later c p e (err _) out = out

  -- The walk from a start returns, and tells a chain that ends from one that meets a cycle.
  pub check_start_lem :
      (start : ℕ)
      → ((check_start parents start ≡ ok tt) × ((n : ℕ) × (up parents n (some start) ≡ none)))
        ⊎ ((check_start parents start ≡ err organization_hierarchy_error)
            × ((unit : ℕ) × (n : ℕ) × (up parents (suc n) (some unit) ≡ some unit)))
  unfolding check_start
  check_start_lem start =
      let (r, run, out) =
        walk_lem (length parents + 2) [] (some start)
          (record { apart = tt; entered = λ s m. elim m [ ]; leads = λ s m. elim m [ ] })
          (omega arith) in
      ended r run out
    where
      ended :
          (r : Result Error (Unit {0}))
          → walk (length parents + 2) parents [] (some start) ≡ some r
          → Outcome (some start) r
          → ((check_start parents start ≡ ok tt) × ((n : ℕ) × (up parents n (some start) ≡ none)))
            ⊎ ((check_start parents start ≡ err organization_hierarchy_error)
                × ((unit : ℕ) × (n : ℕ) × (up parents (suc n) (some unit) ≡ some unit)))
      ended (ok tt) run out = inl (ground arith, out)
      ended (err e) run out = inr (ground (arith, out.0), (out.1, out.2, out.3))
