-- ===== src/Kernel/Resolution/Laws.antt =====
-- Resolution keeps exactly the facts of one identity that were in effect and already known.
use mathlib.Core.List.{◌∷◌, Memᴰ}
use orgmetra.Base.{
  select-keep_if, false, ◌==◌, keep_if, [], mem-select, mem_of_mem-select, >>=-eq-ok, select, inr,
  select_total, ◌↔◌, inl, Result-cases, Bool, none, List, ◌≢◌, ℕ, String, ◌≡◌, true, some, arith,
  any_of, str_eq, ok,
}
use orgmetra.Kernel.Intervals.{Datetime, recorded_contains}
use orgmetra.Kernel.Intervals.Laws.{
  recorded_contains-eq-knows, IsAware, IsAwareInterval, Covers, contains_iff,
}
use orgmetra.Kernel.Facts.{Fact, identity_fields}
use orgmetra.Kernel.Resolution.{
  at_most_one, resolve_single_valued_fact, resolve_bitemporal_facts, is_visible,
}

abbrev pub IsIdentityField : String → Type 0
IsIdentityField name = any_of (str_eq name) identity_fields ≡ true

module _ {ℓ} {A : Type ℓ} ⦃f : Fact A⦄ where
  -- The fact belongs to the tenant and the identity, was in effect on the day, and was known.
  pub record IsVisible (tenant : ℕ) (name : String) (value : ℕ) (day : ℕ) (known_at : Datetime)
      (fact : A) : Type 0 where
    pub of_tenant : f.tenant_of fact ≡ tenant
    pub of_identity : f.identity_of name fact ≡ some value
    pub in_effect : Covers (f.effective_of fact) day
    pub known : recorded_contains (f.recorded_of fact) known_at ≡ ok true

module _ {ℓ} {A : Type ℓ} ⦃f : Fact A⦄ (tenant : ℕ) (name : String) (value : ℕ) (day : ℕ)
    (known_at : Datetime) where
  pub IsVisible-of_is_visible :
      (fact : A)
      → is_visible tenant name value day known_at fact ≡ ok true
      → IsVisible tenant name value day known_at fact
  unfolding is_visible
  IsVisible-of_is_visible fact h = record {
    of_tenant = ground arith;
    of_identity = ground arith;
    in_effect = ground (arith, (contains_iff (f.effective_of fact) day).0);
    known = ground arith;
  }

  pub is_visible_of_IsVisible :
      (fact : A)
      → IsVisible tenant name value day known_at fact
      → is_visible tenant name value day known_at fact ≡ ok true
  unfolding is_visible
  is_visible_of_IsVisible fact v =
      ground (arith, (contains_iff (f.effective_of fact) day).1 v.in_effect)

  is_visible_total :
      (fact : A)
      → f.identity_of name fact ≢ none
      → IsAwareInterval (f.recorded_of fact)
      → IsAware known_at
      → (b : Bool) × (is_visible tenant name value day known_at fact ≡ ok b)
  unfolding is_visible
  is_visible_total fact hn hr hk =
      elim (Result-cases (is_visible tenant name value day known_at fact)) [
        | inl h ↦ h
        | inr (e, h) ↦
            absurd (ground (arith, recorded_contains-eq-knows (f.recorded_of fact) known_at))
      ]

  -- Whatever the resolution returns has exactly the visible facts among those given.
  pub resolve_bitemporal_facts_iff :
      (facts visible : List A)
      → resolve_bitemporal_facts facts tenant name value day known_at ≡ ok visible
      → (fact : A)
      → Memᴰ fact visible ↔ (Memᴰ fact facts × IsVisible tenant name value day known_at fact)
  unfolding resolve_bitemporal_facts
  resolve_bitemporal_facts_iff facts visible h fact =
      let e : select (is_visible tenant name value day known_at) facts ≡ ok visible =
        ground arith in
      (
        λ m.
            let r =
              mem_of_mem-select (is_visible tenant name value day known_at) facts visible e m in
            (r.0, IsVisible-of_is_visible fact r.1),
        λ (m, v).
            mem-select (is_visible tenant name value day known_at) facts visible e m
              (is_visible_of_IsVisible fact v),
      )

  -- Only an identity field can be asked for.
  pub resolve_bitemporal_facts-IsIdentityField :
      (facts visible : List A)
      → resolve_bitemporal_facts facts tenant name value day known_at ≡ ok visible
      → IsIdentityField name
  unfolding resolve_bitemporal_facts
  resolve_bitemporal_facts-IsIdentityField facts visible h = ground arith

  -- The resolution returns on facts that have the field, over datetimes with an offset.
  pub resolve_bitemporal_facts_total :
      (facts : List A)
      → IsIdentityField name
      → IsAware known_at
      → ((fact : A)
          → Memᴰ fact facts
          → (f.identity_of name fact ≢ none) × IsAwareInterval (f.recorded_of fact))
      → (visible : List A) × (resolve_bitemporal_facts facts tenant name value day known_at
          ≡ ok visible)
  unfolding resolve_bitemporal_facts
  resolve_bitemporal_facts_total facts hn hk h =
      let (visible, e) =
        select_total (is_visible tenant name value day known_at) facts
          (λ fact m. is_visible_total fact (h fact m).0 (h fact m).1 hk) in
      (visible, ground arith)

  -- A single version that is returned is visible, and every visible fact is that version.
  pub resolve_single_valued_fact-some :
      (facts : List A) (v : A)
      → resolve_single_valued_fact facts tenant name value day known_at ≡ ok (some v)
      → Memᴰ v facts
        × IsVisible tenant name value day known_at v
        × ((w : A) → Memᴰ w facts → IsVisible tenant name value day known_at w → w ≡ v)
  unfolding resolve_single_valued_fact at_most_one
  resolve_single_valued_fact-some facts v h =
      let (visible, e, h') =
        >>=-eq-ok (resolve_bitemporal_facts facts tenant name value day known_at) _ h in
      only visible e h'
    where
      only :
          (visible : List A)
          → resolve_bitemporal_facts facts tenant name value day known_at ≡ ok visible
          → at_most_one visible ≡ ok (some v)
          → Memᴰ v facts
            × IsVisible tenant name value day known_at v
            × ((w : A) → Memᴰ w facts → IsVisible tenant name value day known_at w → w ≡ v)
      only [] e h = cc
      only (x ∷ y ∷ rest) e h = cc
      only (x ∷ []) e h =
          let same : v ≡ x = cc in
          let iff = resolve_bitemporal_facts_iff facts (x ∷ []) e in
          let r = (iff v).0 (Memᴰ.head same) in
          (r.0, r.1, λ w m seen. the_only w ((iff w).1 (m, seen)) same)
        where
          the_only : (w : A) → Memᴰ w (x ∷ []) → v ≡ x → w ≡ v
          the_only w (Memᴰ.head e) q = cc
          the_only w (Memᴰ.tail m) q = elim m [ ]

  -- None is returned only if no fact is visible.
  pub resolve_single_valued_fact-none :
      (facts : List A)
      → resolve_single_valued_fact facts tenant name value day known_at ≡ ok none
      → (w : A) → Memᴰ w facts
      → ¬ (IsVisible tenant name value day known_at w)
  unfolding resolve_single_valued_fact at_most_one
  resolve_single_valued_fact-none facts h w m seen =
      let (visible, e, h') =
        >>=-eq-ok (resolve_bitemporal_facts facts tenant name value day known_at) _ h in
      empty visible h' ((resolve_bitemporal_facts_iff facts visible e w).1 (m, seen))
    where
      empty : (visible : List A) → at_most_one visible ≡ ok none → ¬ Memᴰ w visible
      empty [] h n = elim n [ ]
      empty (x ∷ []) h n = cc
      empty (x ∷ y ∷ rest) h n = cc

  -- Facts of other tenants do not bear on the resolution.
  pub resolve_bitemporal_facts-tenant :
      (facts : List A)
      → resolve_bitemporal_facts
          (keep_if (λ a. f.tenant_of a == tenant) facts)
          tenant
          name
          value
          day
          known_at
        ≡ resolve_bitemporal_facts facts tenant name value day known_at
  unfolding resolve_bitemporal_facts
  resolve_bitemporal_facts-tenant facts = rw (
      select-keep_if (λ a. f.tenant_of a == tenant) (is_visible tenant name value day known_at)
        facts foreign)
    where
      foreign :
          (a : A)
          → (f.tenant_of a == tenant) ≡ false
          → is_visible tenant name value day known_at a ≡ ok false
      foreign a h = unfold is_visible in rw h
