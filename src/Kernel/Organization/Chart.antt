-- ===== src/Kernel/Organization/Chart.antt =====
-- The parent links that the first loop collects are those of the visible versions.
use orgmetra.Kernel.Organization.Walk.{any_of-eq, units}
use orgmetra.Kernel.Resolution.{resolve_single_valued_fact}
use mathlib.Core.List.{Memᴰ}
use orgmetra.Kernel.Intervals.{Datetime}
use orgmetra.Base.{
  ◌∙◌, >>=-eq-ok, ==_iff, mem-cons_cases, ◌==◌, any_of, Bool-cases, ℕ, List, Option, ◌≡◌, refl,
  false, inl, inr, none, some, arith, ok, [], ◌∷◌, ap,
}
use orgmetra.Kernel.Facts.{OrganizationUnitVersion, organization_fact}
use orgmetra.Kernel.Organization.{Parents, add_parent, distinct, parent_of, resolve_parents}

pub distinct-mem : (xs : List ℕ) {a : ℕ} → Memᴰ a xs → Memᴰ a (distinct xs)
unfolding distinct
distinct-mem [] m = elim m [ ]
distinct-mem (x ∷ xs) {a} m = elim (Bool-cases (any_of (◌==◌ x) xs)) [
  | inl e ↦
      rw (e, distinct)
        (elim (mem-cons_cases m) [
          | inl here ↦ rw here (distinct-mem xs (any_of-eq x xs e))
          | inr n ↦ distinct-mem xs n
        ])
  | inr e ↦
      rw (e, distinct)
        (elim (mem-cons_cases m) [
          | inl here ↦ Memᴰ.head here
          | inr n ↦ Memᴰ.tail (distinct-mem xs n)
        ])
]

-- What `parents` says of a unit, as the resolved version of the unit says it.
abbrev pub parent_in : Option OrganizationUnitVersion → Option ℕ
parent_in none = none
parent_in (some v) = v.parent_organization_unit_id

module _ (scoped : List OrganizationUnitVersion) (tenant day : ℕ) (known_at : Datetime) where
  add_parent-parent_of_self :
      (x : ℕ) (v : OrganizationUnitVersion) (parents : Parents)
      → parent_of (add_parent x (some v) parents) x ≡ v.parent_organization_unit_id
  unfolding parent_of
  add_parent-parent_of_self x v parents = ground arith

  add_parent-parent_of_ne :
      (x unit : ℕ) (visible : Option OrganizationUnitVersion) (parents : Parents)
      → (x == unit) ≡ false
      → parent_of (add_parent x visible parents) unit ≡ parent_of parents unit
  unfolding parent_of
  add_parent-parent_of_ne x unit none parents h = refl
  add_parent-parent_of_ne x unit (some v) parents h = rw h

  -- The parts of a first loop that returns.
  resolve_parents-cons :
      (x : ℕ) (ids : List ℕ) (parents : Parents)
      → resolve_parents scoped tenant day known_at (x ∷ ids) ≡ ok parents
      → (visible : Option OrganizationUnitVersion) × (rest : Parents) × (resolve_single_valued_fact
            scoped tenant "organization_unit_id" x day known_at
          ≡ ok visible)
        × (resolve_parents scoped tenant day known_at ids ≡ ok rest)
        × (parents ≡ add_parent x visible rest)
  unfolding resolve_parents
  resolve_parents-cons x ids parents h =
      let (visible, e, h1) =
        >>=-eq-ok (resolve_single_valued_fact scoped tenant "organization_unit_id" x day known_at) _
          h in
      let (rest, e', h2) = >>=-eq-ok (resolve_parents scoped tenant day known_at ids) _ h1 in
      (visible, rest, e, e', cc)

  -- A unit that resolved to no version has no parent.
  resolve_parents-unknown :
      (ids : List ℕ) (parents : Parents) (unit : ℕ)
      → resolve_parents scoped tenant day known_at ids ≡ ok parents
      → resolve_single_valued_fact scoped tenant "organization_unit_id" unit day known_at ≡ ok none
      → parent_of parents unit ≡ none
  unfolding resolve_parents parent_of
  resolve_parents-unknown [] parents unit h e = ground arith
  resolve_parents-unknown (x ∷ ids) parents unit h e =
      let (visible, rest, e', h', same) = resolve_parents-cons x ids parents h in
      let ih = resolve_parents-unknown ids rest unit h' e in
      rw same (elim (Bool-cases (x == unit)) [
        | inl q ↦ here visible rest ((==_iff x unit).0 q) e' ih
        | inr q ↦ add_parent-parent_of_ne x unit visible rest q ∙ ih
      ])
    where
      here :
          (visible : Option OrganizationUnitVersion) (rest : Parents)
          → x ≡ unit
          → resolve_single_valued_fact scoped tenant "organization_unit_id" x day known_at
            ≡ ok visible
          → parent_of rest unit ≡ none
          → parent_of (add_parent x visible rest) unit ≡ none
      here none rest q e' ih = ih
      here (some v) rest q e' ih = cc (
          ap
            (λ (z : ℕ).
              resolve_single_valued_fact scoped tenant "organization_unit_id" z day known_at)
            q)

  pub resolve_parents-parent_of :
      (ids : List ℕ) (parents : Parents)
      → resolve_parents scoped tenant day known_at ids ≡ ok parents
      → (unit : ℕ) → Memᴰ unit ids
      → (visible : Option OrganizationUnitVersion) × (resolve_single_valued_fact scoped tenant
            "organization_unit_id" unit day known_at
          ≡ ok visible)
        × (parent_of parents unit ≡ parent_in visible)
  unfolding resolve_parents parent_of
  resolve_parents-parent_of [] parents h unit m = elim m [ ]
  resolve_parents-parent_of (x ∷ ids) parents h unit m =
      let (visible, rest, e, h', same) = resolve_parents-cons x ids parents h in
      elim (Bool-cases (x == unit)) [
        | inl q ↦ (
          visible,
          rw (← (==_iff x unit).0 q) e,
          rw (same, ← (==_iff x unit).0 q) (here visible rest e h'),
        )
        | inr q ↦ elim (mem-cons_cases m) [
          | inl first ↦ absurd (ground arith)
          | inr n ↦
              let (visible', e', p) = resolve_parents-parent_of ids rest h' unit n in
              (visible', e', rw same (add_parent-parent_of_ne x unit visible rest q ∙ p))
        ]
      ]
    where
      here :
          (visible : Option OrganizationUnitVersion) (rest : Parents)
          → resolve_single_valued_fact scoped tenant "organization_unit_id" x day known_at
            ≡ ok visible
          → resolve_parents scoped tenant day known_at ids ≡ ok rest
          → parent_of (add_parent x visible rest) x ≡ parent_in visible
      here none rest e h' = resolve_parents-unknown ids rest x h' e
      here (some v) rest e h' = add_parent-parent_of_self x v rest

  -- Each entry is for a unit of the set.
  pub resolve_parents-units :
      (ids : List ℕ) (parents : Parents)
      → resolve_parents scoped tenant day known_at ids ≡ ok parents
      → (unit : ℕ) → Memᴰ unit (units parents)
      → Memᴰ unit ids
  unfolding resolve_parents
  resolve_parents-units [] [] h unit m = elim m [ ]
  resolve_parents-units [] (p ∷ ps) h unit m = cc
  resolve_parents-units (x ∷ ids) parents h unit m =
      let (visible, rest, e, h', same) = resolve_parents-cons x ids parents h in
      entered visible rest (resolve_parents-units ids rest h' unit) (rw same at m)
    where
      entered :
          (visible : Option OrganizationUnitVersion) (rest : Parents)
          → (Memᴰ unit (units rest) → Memᴰ unit ids)
          → Memᴰ unit (units (add_parent x visible rest))
          → Memᴰ unit (x ∷ ids)
      entered none rest ih n = Memᴰ.tail (ih n)
      entered (some v) rest ih n = elim (mem-cons_cases n) [
        | inl first ↦ Memᴰ.head first
        | inr later ↦ Memᴰ.tail (ih later)
      ]
