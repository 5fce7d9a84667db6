-- ===== src/Lib.antt =====
-- Orgmetra: the employment-truth kernel, the Keyverse authorization boundary and the governed People
-- operations of an evidence-centered HRIS.
--
-- The parts and how they interact. The kernel (packages/hris-kernel) holds immutable bitemporal facts
-- and rules over them; it calls nothing else. The Keyverse adapter (packages/keyverse-adapter)
-- validates an access request and evaluates it against a policy. The People API
-- (services/people-api) authorizes each read and write with the adapter before it calls a port, which
-- is where the store is read or changed.
--
--   Base               the shared tests on numbers and texts, lists, results with their monad,
--                      integers, UUID texts, `json.dumps`, and regular expressions with the
--                      patterns of the source
--   Kernel.Errors      packages/hris-kernel/src/orgmetra_hris_kernel/errors.py
--   Kernel.Intervals   intervals.py: DateInterval, RecordedInterval, contains, overlaps
--   Kernel.Facts       facts.py: the four classes of facts, and `getattr` as the interface Fact
--   Kernel.Resolution  resolution.py: resolve_bitemporal_facts, resolve_single_valued_fact
--   Kernel.Employment  employment.py: validate_person_employment_exclusivity
--   Kernel.Coverage    assignment.py: _union_covers
--   Kernel.Assignment  assignment.py: the coverage, portfolio and seat rules, the probe days and
--                      validate_assignment_write
--   Kernel.Correction  correction.py: close_recorded_interval
--   Kernel.Organization  organization.py: validate_organization_hierarchy
--   Kernel.Workforce   workforce.py: build_workforce_composition_snapshot
--   Kernel.Values, Kernel.Audit  audit.py: AuditOutboxEvent, its CloudEvent, JSON text and digest
--   Kernel.JobAnalysis  job_analysis.py: the evidence records and the snapshot, with their checks
--   Keyverse.Validation, Keyverse.Authorization
--                      packages/keyverse-adapter/src/orgmetra_keyverse_adapter/authorization.py
--   People.Auth, People.Authorization
--                      services/people-api/src/orgmetra_people_api/auth.py and authorization.py
--   People.Commands, People.Mutations
--                      services/people-api/src/orgmetra_people_api/mutations.py
--   People.Digest      mutations.py: idempotency_record_id, mutation_command_digest
--   People.Store       postgres_mutations.py: PostgresPeopleMutationPort; its child modules hold
--                      the transaction (Session) and its statements (Executed, Guarded), the
--                      conversions of rows (Rows), what the writes share (Writes), and each
--                      creation (Employment, Position, Assignment);
--                      Provenance and Hire are PostgresHireAcceptancePort of postgres_hire.py,
--                      WorkerRows and Reader PostgresPeopleReadPort of postgres.py
--   People.Hire, People.Reading
--                      hire.py and people.py of the same package
--
-- A module named Laws, or for what it proves, holds proofs; Tests holds runs and concrete instances.
-- A function keeps its name, without a leading underscore. A class is a record, and its constructor
-- with `__post_init__` is a function of the class's name in lower case that returns a result. An
-- exception is an error value: the class with its message. Arguments that the source checks with
-- `isinstance` are dynamic values (Keyverse.Validation.Value, People.Commands.Argument).
--
-- Representation. A date is its ordinal. A datetime is a tick count with its zone, so that naive
-- datetimes and zones without an offset behave as in Python. A UUID is its integer. A kernel ratio
-- is a whole number of ten-thousandths, the scale of the kernel's constants and of the column that
-- stores it, and a sum of ratios is exact, where Python rounds a Decimal sum to the precision of its
-- context; a Decimal of a command has its sign, digits and exponent. Numbers have no bound, as in
-- Python. Sets and dicts are lists; where the source sorts, the list is sorted.
--
-- Fuel. The covering loop gets one round more than there are intervals, and the walk up the
-- hierarchy two rounds more than there are parent entries; both are proved to be enough, since each
-- round leaves an interval behind, and sees a new unit.
--
-- Ports. The People ports are parameters: functions of any state of the store. The properties of
-- the application layer hold whatever they do. Python's table of white space, SHA-256, the UUID of
-- version 5, the texts of dates and the date of an instant are parameters too
-- (People.Digest.Platform), and so is `urlsplit` (Kernel.JobAnalysis.Evidence).
--
-- The database. The adapter's code is a sequence of statements in a session, which keeps the trace of
-- the statements and the state of the store. A statement is a constructor with its parameters. What
-- it answers and does, and what the exit of the connection's context manager does, are a parameter
-- (People.Store.Driver); what a property says of it is what it answered, in the order of the trace
-- (People.Store.Executed).
--
-- Not modelled: the `next_action` texts, logging, the meaning of the SQL texts, and, as yet, the
-- documents of job analysis and its service, the HTTP layers, the review packets and the migration,
-- calendar and identity adapters.
pub mod Base
pub mod Keyverse
pub mod People
pub mod Kernel
