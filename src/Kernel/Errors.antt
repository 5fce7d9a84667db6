-- ===== src/Kernel/Errors.antt =====
-- packages/hris-kernel/src/orgmetra_hris_kernel/errors.py: the error classes of the kernel, and
-- the errors of Python that its code can raise. The kernel's errors carry their message; the
-- `next_action` text, which no code reads, is left out.
use orgmetra.Base.{String}

pub data Error : Type 0 where
  interval_error : String → Error
  identity_scope_error : Error
  single_valued_fact_error : String → Error
  assignment_portfolio_error : String → Error
  employment_coverage_error : String → Error
  employment_exclusivity_error : String → Error
  organization_hierarchy_error : Error
  position_coverage_error : Error
  position_seat_error : Error
  correction_error : String → Error
  -- Python's: an order between a naive and an aware datetime, an attribute that is not there,
  -- and a rejected constructor argument.
  type_error : Error
  attribute_error : Error
  value_error : String → Error
