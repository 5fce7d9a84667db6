-- ===== src/Kernel/Resolution/Tests.antt =====
-- Resolution of one employment among versions of two tenants.
use orgmetra.Kernel.Intervals.Laws.{IsAwareInterval}
use mathlib.Core.List.{Memᴰ}
use orgmetra.Kernel.Resolution.Laws.{
  resolve_bitemporal_facts-tenant, resolve_single_valued_fact-some, resolve_bitemporal_facts_iff,
  IsVisible, resolve_bitemporal_facts_total, IsIdentityField,
}
use orgmetra.Base.{
  ◌≢◌, All-mem, ◌↔◌, ◌==◌, List, ◌≡◌, refl, none, some, [], ◌∷◌, ok, select, any_of, keep_if,
}
use orgmetra.Kernel.Facts.{EmploymentVersion, employment_fact, employment_identity}
use orgmetra.Kernel.Samples.{at, days, employment, employed}
use orgmetra.Kernel.Intervals.{recorded_contains, contains}
use orgmetra.Kernel.Resolution.{
  resolve_bitemporal_facts, resolve_single_valued_fact, is_visible, at_most_one,
}

abbrev leave : EmploymentVersion
leave = employment 3 "leave" (days 15 none)

run : Unit {0}
unfolding select any_of recorded_contains contains resolve_bitemporal_facts
    resolve_single_valued_fact is_visible at_most_one employment_identity
run = tt

found : resolve_bitemporal_facts employed 1 "employment_record_id" 3 17 (at 9) ≡ ok (leave ∷ [])
unfolding run
found = refl

found_one :
    resolve_single_valued_fact employed 1 "employment_record_id" 3 17 (at 9) ≡ ok (some leave)
unfolding run
found_one = refl

resolve_bitemporal_facts_iff_example :
    Memᴰ leave (leave ∷ [])
    ↔ (Memᴰ leave employed × IsVisible 1 "employment_record_id" 3 17 (at 9) leave)
resolve_bitemporal_facts_iff_example =
    resolve_bitemporal_facts_iff 1 "employment_record_id" 3 17 (at 9) employed (leave ∷ []) found
      leave

resolve_single_valued_fact-some_example :
    Memᴰ leave employed
    × IsVisible 1 "employment_record_id" 3 17 (at 9) leave
    × ((w : EmploymentVersion)
        → Memᴰ w employed
        → IsVisible 1 "employment_record_id" 3 17 (at 9) w
        → w ≡ leave)
resolve_single_valued_fact-some_example =
    resolve_single_valued_fact-some 1 "employment_record_id" 3 17 (at 9) employed leave found_one

resolve_bitemporal_facts-tenant_example :
    resolve_bitemporal_facts
      (keep_if (λ (a : EmploymentVersion). a.tenant_record_id == 1) employed)
      1
      "employment_record_id"
      3
      17
      (at 9)
    ≡ resolve_bitemporal_facts employed 1 "employment_record_id" 3 17 (at 9)
resolve_bitemporal_facts-tenant_example =
    resolve_bitemporal_facts-tenant 1 "employment_record_id" 3 17 (at 9) employed

abbrev IsUsable : EmploymentVersion → Type 0
IsUsable v = (employment_identity "employment_record_id" v ≢ none) × IsAwareInterval v.recorded

usable : (v : EmploymentVersion) → Memᴰ v employed → IsUsable v
unfolding employment_identity
usable v m =
    All-mem IsUsable employed
      (
        ((λ e. cc), record { at_start = refl; at_end = tt }),
        (((λ e. cc), record { at_start = refl; at_end = tt }), tt),
      )
      m

known_field : IsIdentityField "employment_record_id"
unfolding any_of
known_field = refl

resolve_bitemporal_facts_total_example :
    (visible : List EmploymentVersion) × (resolve_bitemporal_facts employed 1 "employment_record_id"
        3 17
        (at 9)
      ≡ ok visible)
resolve_bitemporal_facts_total_example =
    resolve_bitemporal_facts_total 1 "employment_record_id" 3 17 (at 9) employed known_field refl
      usable
