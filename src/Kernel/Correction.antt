-- ===== src/Kernel/Correction.antt =====
-- packages/hris-kernel/src/orgmetra_hris_kernel/correction.py.
pub mod Laws
mod Tests
use orgmetra.Base.{
  ℕ, ◌≡◌, refl, true, false, not, Option, none, some, if◌then◌else◌, Result, ok, err, ◌>>=◌, ◌>>◌,
  guard,
}
use orgmetra.Kernel.Errors.{Error, correction_error}
use orgmetra.Kernel.Intervals.{Datetime, RecordedInterval, recorded_interval, le_datetime}
use orgmetra.Kernel.Facts.{
  EmploymentVersion, AssignmentFact, PositionVersion, OrganizationUnitVersion,
}

-- What the function reaches of its argument: `getattr(fact, "recorded", None)` where it is a
-- RecordedInterval, and `dataclasses.replace(fact, recorded=…)`.
pub record Closable {ℓ} (A : Type ℓ) : Type ℓ where
  pub recorded? : A → Option RecordedInterval
  pub with_recorded : A → RecordedInterval → A
  pub recorded-with : (a : A) (r : RecordedInterval) → recorded? (with_recorded a r) ≡ some r

abbrev pub not_a_fact : Error
not_a_fact = correction_error "Only a kernel fact with a recorded interval can be closed."

abbrev pub already_closed : Error
already_closed = correction_error "Recorded interval is already closed."

abbrev pub closes_early : Error
closes_early = correction_error "Recorded end must be strictly later than recorded start."

module _ {ℓ} {A : Type ℓ} ⦃c : Closable A⦄ where
  unfoldable pub close_recorded_interval : A → Datetime → Result Error A
  close_recorded_interval fact recorded_to = elim (c.recorded? fact) [
    | none ↦ err not_a_fact
    | some recorded ↦ elim (recorded.end) [
      | some end ↦ err already_closed
      | none ↦ do
        early ← le_datetime recorded_to recorded.start
        guard (not early) closes_early
        closed ← recorded_interval recorded.start (some recorded_to)
        ok (c.with_recorded fact closed)
    ]
  ]

instance abbrev pub employment_closable : Closable EmploymentVersion
employment_closable = record {
  recorded? = λ v. some v.recorded;
  with_recorded = λ v r. record v { recorded = r };
  recorded-with = λ v r. refl;
}

instance abbrev pub assignment_closable : Closable AssignmentFact
assignment_closable = record {
  recorded? = λ v. some v.recorded;
  with_recorded = λ v r. record v { recorded = r };
  recorded-with = λ v r. refl;
}

instance abbrev pub position_closable : Closable PositionVersion
position_closable = record {
  recorded? = λ v. some v.recorded;
  with_recorded = λ v r. record v { recorded = r };
  recorded-with = λ v r. refl;
}

instance abbrev pub organization_closable : Closable OrganizationUnitVersion
organization_closable = record {
  recorded? = λ v. some v.recorded;
  with_recorded = λ v r. record v { recorded = r };
  recorded-with = λ v r. refl;
}
