-- ===== src/Kernel/Organization/Cycles.antt =====
-- A unit that is above itself has no top above it.
use native.Mathlib.Nat.{zero-add, suc-add}
use orgmetra.Base.{◌-◌, ◌∙◌, ◌≤◌, ◌+◌, ◌≢◌, ◌≡◌, Option, ℕ, refl, zero, suc, none, some, arith, ap}
use orgmetra.Kernel.Organization.{Parents, parent_of}
use orgmetra.Kernel.Organization.Walk.{up, up-none}

module _ (parents : Parents) where
  up-add : (a b : ℕ) (unit : Option ℕ) → up parents (a + b) unit ≡ up parents b (up parents a unit)
  up-add zero b unit = rw zero-add
  up-add (suc a) b none = cc (up-none parents (suc a + b), up-none parents b)
  up-add (suc a) b (some u) = rw suc-add (up-add a b (parent_of parents u))

  -- A unit that is above itself has no top above it.
  pub up-cycle-ne-none :
      (n u : ℕ) → up parents (suc n) (some u) ≡ some u → (m : ℕ) → up parents m (some u) ≢ none
  up-cycle-ne-none n u h m e = absurd (ground (arith, rounds m, past_top))
    where
      turns : ℕ → ℕ
      turns zero = 0
      turns (suc k) = suc n + turns k

      le-turns : (k : ℕ) → k ≤ turns k
      le-turns zero = omega arith
      le-turns (suc k) = omega (arith, le-turns k)

      rounds : (k : ℕ) → up parents (turns k) (some u) ≡ some u
      rounds zero = refl
      rounds (suc k) = up-add (suc n) (turns k) (some u) ∙ (ap (up parents (turns k)) h ∙ rounds k)

      past_top : up parents (turns m) (some u) ≡ none
      past_top =
          ap (λ (k : ℕ). up parents k (some u))
            (let eq : turns m ≡ m + (turns m - m) = omega (arith, le-turns m) in eq)
          ∙ (up-add m (turns m - m) (some u)
              ∙ (ap (up parents (turns m - m)) e ∙ up-none parents (turns m - m)))
