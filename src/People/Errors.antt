-- ===== src/People/Errors.antt =====
-- What the application functions of services/people-api raise, and their calls of a port.
--
-- A ValueError is the one of the Keyverse validation; a port that is implemented elsewhere raises
-- the errors of its contract.
use orgmetra.Base.{String, Option, none, some, Result, ok, err}
use orgmetra.Keyverse.Validation.{Error}
use orgmetra.Kernel.Errors.{Error as KernelError}
use orgmetra.Keyverse.Authorization.{AuthorizationDecision}

pub data ServiceError : Type 0 where
  invalid : Error → ServiceError
  type_error : String → ServiceError
  denied : AuthorizationDecision → ServiceError
  authentication_failed : String → ServiceError
  people_record_not_found : ServiceError
  people_record_integrity_error : String → ServiceError
  people_mutation_not_found people_mutation_integrity_error : String → ServiceError
  hire_decision_not_found hire_decision_integrity_error : String → ServiceError
  -- The kernel's error that a write turns into PeopleMutationIntegrityError, and one of Python's
  -- or of a constructor, which passes through.
  rejected_by_kernel : KernelError → ServiceError
  raised_in_kernel : KernelError → ServiceError
  -- The driver's own errors.
  database_error : ServiceError

-- A validation inside an application function.
abbrev pub checked {ℓ} : {A : Type ℓ} → Result Error A → Result ServiceError A
checked (ok a) = ok a
checked (err e) = err (invalid e)

-- A call that may change the state of the service's store and returns a value, or raises.
abbrev pub Outcome : Type 0 → Type 0 → Type 0
Outcome S A = S × Result ServiceError A

module _ {S A : Type 0} where
  -- `authorization = …; result = port.call(…); if not isinstance(result, A): raise TypeError`. The
  -- port returns none for an object of another class.
  abbrev pub call_authorized :
      String
      → Result ServiceError AuthorizationDecision
      → (AuthorizationDecision → Outcome S (Option A))
      → S
      → Outcome S A
  call_authorized message (err e) port state = (state, err e)
  call_authorized message (ok decided) port state = typed (port decided)
    where
      typed : Outcome S (Option A) → Outcome S A
      typed (after, err e) = (after, err e)
      typed (after, ok none) = (after, err (type_error message))
      typed (after, ok (some a)) = (after, ok a)
