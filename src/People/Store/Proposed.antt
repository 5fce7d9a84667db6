-- ===== src/People/Store/Proposed.antt =====
-- The facts that the commands of services/people-api/src/orgmetra_people_api/postgres_mutations.py
-- propose to the kernel: open from the command's day, and known from the instant of the write.
use orgmetra.Base.{none, Result, ok, ◌>>=◌}
use orgmetra.Kernel.Intervals.{Datetime, date_interval, recorded_interval}
use orgmetra.Kernel.Facts.{EmploymentVersion, AssignmentFact}
use orgmetra.People.Errors.{ServiceError}
use orgmetra.People.Commands.{EmploymentMutationCommand}
use orgmetra.People.Commands.Assignment.{AssignmentMutationCommand}
use orgmetra.People.Store.Session.{from_kernel}

unfoldable pub proposed_employment :
    EmploymentMutationCommand → Datetime → Result ServiceError EmploymentVersion
proposed_employment command recorded_at = do
  effective ← from_kernel (date_interval command.effective_from none)
  recorded ← from_kernel (recorded_interval recorded_at none)
  ok (record {
    tenant_record_id = command.tenant_record_id;
    employment_record_id = command.employment_record_id;
    employment_record_version_id = command.employment_record_version_id;
    person_record_id = command.person_record_id;
    employment_status_code = command.employment_status_code;
    effective = effective;
    recorded = recorded;
    employment_concurrency_code = command.employment_concurrency_code;
  })

unfoldable pub proposed_assignment :
    AssignmentMutationCommand → Datetime → Result ServiceError AssignmentFact
proposed_assignment command recorded_at = do
  effective ← from_kernel (date_interval command.effective_from none)
  recorded ← from_kernel (recorded_interval recorded_at none)
  ok (record {
    tenant_record_id = command.tenant_record_id;
    assignment_record_id = command.assignment_record_id;
    employment_record_id = command.employment_record_id;
    person_record_id = command.person_record_id;
    position_record_id = command.position_record_id;
    allocation_ratio = command.allocation_ratio;
    effective = effective;
    recorded = recorded;
  })
