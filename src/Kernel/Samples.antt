-- ===== src/Kernel/Samples.antt =====
-- Small facts of one worker, which the tests of the kernel share.
use orgmetra.Base.{ℕ, String, Option, none, some, List, [], ◌∷◌}
use orgmetra.Base.Int.{ℤ}
use orgmetra.Kernel.Intervals.{Datetime, offset, DateInterval, RecordedInterval}
use orgmetra.Kernel.Facts.{
  EmploymentVersion, PositionVersion, AssignmentFact, OrganizationUnitVersion,
}

abbrev pub at : ℕ → Datetime
at n = record { ticks = n; zone = offset }

abbrev pub days : ℕ → Option ℕ → DateInterval
days start end = record { start = start; end = end }

abbrev pub since : ℕ → RecordedInterval
since n = record { start = at n; end = none }

abbrev pub employment : ℕ → String → DateInterval → EmploymentVersion
employment id status effective = record {
  tenant_record_id = 1;
  employment_record_id = id;
  employment_record_version_id = 30;
  person_record_id = 2;
  employment_status_code = status;
  effective = effective;
  recorded = since 5;
  employment_concurrency_code = "exclusive";
}

-- Active until day 15, then on leave.
abbrev pub employed : List EmploymentVersion
employed = employment 3 "active" (days 0 (some 15)) ∷ employment 3 "leave" (days 15 none) ∷ []

abbrev pub seat : PositionVersion
seat = record {
  tenant_record_id = 1;
  position_record_id = 4;
  position_record_version_id = 40;
  position_status_code = "open";
  effective = days 0 none;
  recorded = since 5;
}

abbrev pub assigned : ℕ → ℤ → DateInterval → AssignmentFact
assigned id ratio effective = record {
  tenant_record_id = 1;
  assignment_record_id = id;
  employment_record_id = 3;
  person_record_id = 2;
  position_record_id = 4;
  allocation_ratio = ratio;
  effective = effective;
  recorded = since 5;
}

abbrev pub unit : ℕ → Option ℕ → OrganizationUnitVersion
unit id parent = record {
  tenant_record_id = 1;
  organization_unit_id = id;
  organization_unit_version_id = 50;
  parent_organization_unit_id = parent;
  effective = days 0 none;
  recorded = since 5;
}
