-- ===== src/Kernel/Resolution.antt =====
-- packages/hris-kernel/src/orgmetra_hris_kernel/resolution.py.
pub mod Laws
mod Tests
use orgmetra.Base.{
  ℕ, String, Bool, true, false, not, Option, none, some, List, [], ◌∷◌, any_of, str_eq, ◌==◌,
  if◌then◌else◌, Result, ok, err, ◌>>=◌, select,
}
use orgmetra.Kernel.Errors.{Error, identity_scope_error, single_valued_fact_error, attribute_error}
use orgmetra.Kernel.Intervals.{Datetime, contains, recorded_contains}
use orgmetra.Kernel.Facts.{Fact, identity_fields}

abbrev pub two_versions : Error
two_versions =
    single_valued_fact_error "One tenant-scoped identity resolved to more than one version."

abbrev pub or_attribute_error {ℓ} : {A : Type ℓ} → Option A → Result Error A
or_attribute_error none = err attribute_error
or_attribute_error (some a) = ok a

-- `visible` is empty, has one version, or more than one.
unfoldable pub at_most_one {ℓ} : {A : Type ℓ} → List A → Result Error (Option A)
at_most_one [] = ok none
at_most_one (v ∷ []) = ok (some v)
at_most_one (v ∷ w ∷ rest) = err two_versions

module _ {ℓ} {A : Type ℓ} ⦃f : Fact A⦄ where
  -- The body of the loop: whether it reaches `visible.append(fact)`.
  unfoldable pub is_visible : ℕ → String → ℕ → ℕ → Datetime → A → Result Error Bool
  is_visible tenant_record_id identity_of identity_value effective_on known_at fact =
      if not (f.tenant_of fact == tenant_record_id) then ok false else (do
        value ← or_attribute_error (f.identity_of identity_of fact)
        if not (value == identity_value)
            then ok false
            else if not (contains (f.effective_of fact) effective_on)
            then ok false
            else recorded_contains (f.recorded_of fact) known_at)

  unfoldable pub resolve_bitemporal_facts :
      List A → ℕ → String → ℕ → ℕ → Datetime → Result Error (List A)
  resolve_bitemporal_facts facts tenant_record_id identity_of identity_value effective_on known_at =
      if not (any_of (str_eq identity_of) identity_fields)
      then err identity_scope_error
      else select (is_visible tenant_record_id identity_of identity_value effective_on known_at)
          facts

  unfoldable pub resolve_single_valued_fact :
      List A → ℕ → String → ℕ → ℕ → Datetime → Result Error (Option A)
  resolve_single_valued_fact facts tenant_record_id identity_of identity_value effective_on
        known_at =
      do
        visible ←
            resolve_bitemporal_facts facts tenant_record_id identity_of identity_value effective_on
              known_at
        at_most_one visible
