-- ===== src/People/Store/Session.antt =====
-- The monad of the code under an open cursor: a state that outlives an exception, and exceptions.
use orgmetra.Base.{String, Bool, List, [], ◌∷◌, if◌then◌else◌, Result, ok, err}
use orgmetra.Kernel.Errors.{Error as KernelError, type_error, attribute_error, value_error}
use orgmetra.People.Errors.{
  ServiceError, Outcome, people_mutation_integrity_error, rejected_by_kernel, raised_in_kernel,
}
use orgmetra.People.Store.{Statement, Row, Driver}

pub record Session (S : Type 0) : Type 0 where
  pub trace : List Statement
  pub store : S

abbrev pub Tx : Type 0 → Type 0 → Type 0
Tx S A = Session S → Outcome (Session S) A

infixl 5 ◌>>=◌ ◌>>◌
-- Shut, so that a proof follows the steps of a chain by the lemmas of Steps.
unfoldable pub ◌>>=◌ : {S A B : Type 0} → Tx S A → (A → Tx S B) → Tx S B
◌>>=◌ step next session =
    let (after, result) = step session in
    elim result [ ok value ↦ next value after | err raised ↦ (after, err raised) ]

abbrev pub ◌>>◌ : {S B : Type 0} → Tx S (Unit {0}) → Tx S B → Tx S B
first >> second = first >>= λ done. second

module _ {S A : Type 0} where
  -- What does not touch the cursor.
  abbrev pub lift : Result ServiceError A → Tx S A
  lift result session = (session, result)

  abbrev pub return : A → Tx S A
  return value session = (session, ok value)

-- `if not test: raise PeopleMutationIntegrityError(message)`
abbrev pub require : {S : Type 0} → Bool → String → Tx S (Unit {0})
require test message session =
    (session, if test then ok tt else err (people_mutation_integrity_error message))

-- A call of the kernel outside a `try`.
abbrev pub from_kernel : {A : Type 0} → Result KernelError A → Result ServiceError A
from_kernel (ok value) = ok value
from_kernel (err raised) = err (raised_in_kernel raised)

-- A call of the kernel under `except KernelError`: Python's own errors are not caught.
abbrev pub caught : {A : Type 0} → Result KernelError A → Result ServiceError A
caught (ok value) = ok value
caught (err type_error) = err (raised_in_kernel type_error)
caught (err attribute_error) = err (raised_in_kernel attribute_error)
caught (err (value_error message)) = err (raised_in_kernel (value_error message))
caught (err raised) = err (rejected_by_kernel raised)

module _ {S : Type 0} (driver : Driver S) where
  -- `cursor.execute(statement)`, with all the rows of its answer.
  unfoldable pub execute : Statement → Tx S (List Row)
  execute statement session =
      let (after, answer) = driver.run statement session.store in
      (record { trace = statement ∷ session.trace; store = after }, answer)

  -- A statement whose rows are not fetched.
  abbrev pub perform : Statement → Tx S (Unit {0})
  perform statement = execute statement >>= λ rows. return tt

  -- `cursor.fetchmany(2)`
  abbrev pub two : List Row → List Row
  two (a ∷ b ∷ rows) = a ∷ b ∷ []
  two rows = rows

  -- `with connection_factory() as connection: …`
  unfoldable pub transaction : {A : Type 0} → Tx S A → S → Outcome S A
  transaction body before =
      let (session, result) = body (record { trace = []; store = before }) in
      elim result [
        | err raised ↦ (driver.rollback before session.store, err raised)
        | ok value ↦
            let (after, exit) = driver.commit before session.store in
            elim exit [ ok done ↦ (after, ok value) | err raised ↦ (after, err raised) ]
      ]
