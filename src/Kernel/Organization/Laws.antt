-- ===== src/Kernel/Organization/Laws.antt =====
-- The hierarchy rule accepts exactly the charts in which no unit is above itself.
use orgmetra.Kernel.Organization.Cycles.{up-cycle-ne-none}
use orgmetra.Kernel.Organization.Walk.{up-suc, check_start_lem, parent_of-mem, up-none, units, up}
use orgmetra.Kernel.Organization.Chart.{
  resolve_parents-units, distinct-mem, resolve_parents-parent_of, parent_in,
}
use orgmetra.Kernel.Resolution.{resolve_single_valued_fact}
use orgmetra.Kernel.Resolution.Laws.{
  resolve_single_valued_fact-some, resolve_single_valued_fact-none, IsVisible,
}
use mathlib.Core.List.{Memᴰ}
use orgmetra.Kernel.Intervals.{Datetime}
use orgmetra.Base.{
  >>=-eq-ok, for_each_of_mem, for_each-mem, Option-cases, mem_of_mem-keep_if, ◌↔◌, ◌∙◌, map-mem,
  ==_iff, mem-keep_if, ◌==◌, map, keep_if, Option, ℕ, List, ◌≡◌, inl, inr, none, some, arith, ok,
  zero, suc, ap, sym,
}
use orgmetra.Kernel.Facts.{organization_identity, OrganizationUnitVersion, organization_fact}
use orgmetra.Kernel.Organization.{
  Parents, distinct, parent_of, resolve_parents, check_start, validate_organization_hierarchy,
}

-- The tenant's visible version of `unit`, at the day and the cutoff, names `parent` as its parent.
pub record Reports (versions : List OrganizationUnitVersion) (tenant day : ℕ) (known_at : Datetime)
    (unit parent : ℕ) : Type 0 where
  pub version : OrganizationUnitVersion
  pub listed : Memᴰ version versions
  pub visible : IsVisible tenant "organization_unit_id" unit day known_at version
  pub names : version.parent_organization_unit_id ≡ some parent

-- `boss` stands above `unit`, by one or more parent links.
pub data Above (versions : List OrganizationUnitVersion) (tenant day : ℕ) (known_at : Datetime)
    (unit : ℕ) : ℕ → Type 0 where
  direct :
      {boss : ℕ}
      → Reports versions tenant day known_at unit boss
      → Above versions tenant day known_at unit boss
  further :
      {mid boss : ℕ}
      → Above versions tenant day known_at unit mid
      → Reports versions tenant day known_at mid boss
      → Above versions tenant day known_at unit boss

unit_named :
    (v : OrganizationUnitVersion) (u : ℕ)
    → organization_identity "organization_unit_id" v ≡ some u
    → v.organization_unit_id ≡ u
unfolding organization_identity
unit_named v u h = ground arith

prepend :
    {versions : List OrganizationUnitVersion} {tenant day : ℕ} {known_at : Datetime}
    {unit mid boss : ℕ}
    → Reports versions tenant day known_at unit mid
    → Above versions tenant day known_at mid boss
    → Above versions tenant day known_at unit boss
prepend r (direct q) = further (direct r) q
prepend r (further a q) = further (prepend r a) q

module _ (versions : List OrganizationUnitVersion) (tenant day : ℕ) (known_at : Datetime) where
  abbrev scoped : List OrganizationUnitVersion
  scoped = keep_if (λ version. version.tenant_record_id == tenant) versions

  abbrev unit_ids : List ℕ
  unit_ids =
      distinct (map (λ (version : OrganizationUnitVersion). version.organization_unit_id) scoped)

  module _ (parents : Parents)
      (resolved : resolve_parents scoped tenant day known_at unit_ids ≡ ok parents) where
    Reports-parent_of :
        (u p : ℕ) → Reports versions tenant day known_at u p → parent_of parents u ≡ some p
    Reports-parent_of u p r =
        let own : Memᴰ r.version scoped =
          mem-keep_if (λ version. version.tenant_record_id == tenant) versions r.listed
            ((==_iff _ _).1 r.visible.of_tenant) in
        let (visible, e, q) =
          resolve_parents-parent_of scoped tenant day known_at unit_ids parents resolved u (
            distinct-mem _ (
              rw (← (unit_named r.version u r.visible.of_identity)) (
                map-mem (λ (version : OrganizationUnitVersion). version.organization_unit_id) scoped
                  own))) in
        q ∙ same visible e own
      where
        same :
            (visible : Option OrganizationUnitVersion)
            → resolve_single_valued_fact scoped tenant "organization_unit_id" u day known_at
              ≡ ok visible
            → Memᴰ r.version scoped
            → parent_in visible ≡ some p
        same none e own = absurd (
            resolve_single_valued_fact-none tenant "organization_unit_id" u day known_at scoped e
              r.version own r.visible)
        same (some v) e own =
            ap (λ (z : OrganizationUnitVersion). z.parent_organization_unit_id)
              (sym (
                (resolve_single_valued_fact-some tenant "organization_unit_id" u day known_at scoped
                    v e).2
                  r.version own r.visible))
            ∙ r.names

    parent_of-Reports :
        (u p : ℕ) → parent_of parents u ≡ some p → Reports versions tenant day known_at u p
    parent_of-Reports u p h =
        let (visible, e, q) =
          resolve_parents-parent_of scoped tenant day known_at unit_ids parents resolved u (
            resolve_parents-units scoped tenant day known_at unit_ids parents resolved u
              (parent_of-mem parents u p h)) in
        reported visible e (sym q ∙ h)
      where
        reported :
            (visible : Option OrganizationUnitVersion)
            → resolve_single_valued_fact scoped tenant "organization_unit_id" u day known_at
              ≡ ok visible
            → parent_in visible ≡ some p
            → Reports versions tenant day known_at u p
        reported none e q = cc
        reported (some v) e q =
            let (m, seen, _) =
              resolve_single_valued_fact-some tenant "organization_unit_id" u day known_at scoped v
                e in
            record {
              version = v;
              listed =
                  (mem_of_mem-keep_if (λ version. version.tenant_record_id == tenant) versions m).0;
              visible = seen;
              names = q;
            }

    Above-up :
        (u : ℕ) {boss : ℕ}
        → Above versions tenant day known_at u boss
        → (n : ℕ) × (up parents (suc n) (some u) ≡ some boss)
    Above-up u (direct {boss = b} r) = (0, Reports-parent_of u b r)
    Above-up u (further {mid = c} {boss = b} a r) =
        let (n, e) = Above-up u a in
        (suc n, up-suc parents (suc n) (some u) c e ∙ Reports-parent_of c b r)

    up-Above :
        (n u boss : ℕ)
        → up parents (suc n) (some u) ≡ some boss
        → Above versions tenant day known_at u boss
    up-Above zero u boss h = direct (parent_of-Reports u boss h)
    up-Above (suc n) u boss h = elim (Option-cases (parent_of parents u)) [
      | inl top ↦ absurd (ground (arith, ap (up parents (suc n)) top, up-none parents (suc n)))
      | inr (p, q) ↦
          prepend (parent_of-Reports u p q)
            (up-Above n p boss (ap (up parents (suc n)) (sym q) ∙ h))
    ]

    -- Once the visible versions are resolved, the rule accepts the chart exactly when no unit is
    -- above itself.
    pub hierarchy_iff :
        (validate_organization_hierarchy versions tenant day known_at ≡ ok tt)
        ↔ ((u : ℕ) → ¬ Above versions tenant day known_at u u)
    unfolding validate_organization_hierarchy
    hierarchy_iff = (
      λ h u above.
          let (n, e) = Above-up u above in
          let started =
            for_each-mem (check_start parents) (units parents) (rw resolved at h) (first n u e) in
          elim (check_start_lem parents u) [
            | inl (_, (m, top)) ↦ up-cycle-ne-none parents n u e m top
            | inr (raised, _) ↦ cc
          ],
      λ h. rw resolved (
          for_each_of_mem (check_start parents) (units parents) (λ u m.
            elim (check_start_lem parents u) [
              | inl (fine, _) ↦ fine
              | inr (_, (unit, n, e)) ↦ absurd (h unit (up-Above n unit unit e))
            ])),
    )
      where
        first : (n u : ℕ) → up parents (suc n) (some u) ≡ some u → Memᴰ u (units parents)
        first n u e = elim (Option-cases (parent_of parents u)) [
          | inl top ↦ absurd (ground (arith, ap (up parents n) top, up-none parents n))
          | inr (p, q) ↦ parent_of-mem parents u p q
        ]

-- In an accepted chart no unit stands above itself through the tenant's visible versions.
pub hierarchy-acyclic :
    (versions : List OrganizationUnitVersion) (tenant day : ℕ) (known_at : Datetime)
    → validate_organization_hierarchy versions tenant day known_at ≡ ok tt
    → (u : ℕ) → ¬ Above versions tenant day known_at u u
unfolding validate_organization_hierarchy
hierarchy-acyclic versions tenant day known_at h =
    let (parents, e, _) =
      >>=-eq-ok
        (resolve_parents (scoped versions tenant day known_at) tenant day known_at
          (unit_ids versions tenant day known_at))
        _ h in
    (hierarchy_iff versions tenant day known_at parents e).0 h
