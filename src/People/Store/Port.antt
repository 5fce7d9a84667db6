-- ===== src/People/Store/Port.antt =====
-- `PostgresPeopleMutationPort` as the port of the governed writes: the application layer of
-- services/people-api/src/orgmetra_people_api/mutations.py over the adapter of
-- postgres_mutations.py.
pub mod Laws
use orgmetra.Base.{Option, some, Result, ok, err}
use orgmetra.People.Errors.{Outcome}
use orgmetra.People.Commands.Assignment.{employment, position, assignment}
use orgmetra.People.Digest.{Platform}
use orgmetra.People.Mutations.{PeopleMutationPort}
use orgmetra.People.Store.{Driver}
use orgmetra.People.Store.Employment.{store_create_employment}
use orgmetra.People.Store.Position.{store_create_position}
use orgmetra.People.Store.Assignment.{store_create_assignment}

-- The adapter returns results of the port's classes.
abbrev pub as_answer : {S A : Type 0} → Outcome S A → Outcome S (Option A)
as_answer (after, ok result) = (after, ok (some result))
as_answer (after, err raised) = (after, err raised)

abbrev pub store_port : {S : Type 0} → Platform → Driver S → PeopleMutationPort S
store_port platform driver = record {
  create_employment = λ command decision state.
      as_answer
        (store_create_employment platform driver (employment command) (some decision) state);
  create_position = λ command decision state.
      as_answer (store_create_position platform driver (position command) (some decision) state);
  create_assignment = λ command decision state.
      as_answer
        (store_create_assignment platform driver (assignment command) (some decision) state);
}
