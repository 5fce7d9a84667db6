-- ===== src/People/Store/Assignment/Check.antt =====
-- The check of a proposed assignment under a cursor: what the database answered, and the rule of
-- the kernel over it.
use orgmetra.Base.{ℕ, ok_kept, subst, ◌≡◌, sym, ap, List, [], ◌∷◌, ◌++◌, ok}
use orgmetra.Kernel.Intervals.{Datetime}
use orgmetra.Kernel.Facts.{EmploymentVersion, PositionVersion, AssignmentFact}
use orgmetra.Kernel.Assignment.{validate_assignment_write}
use orgmetra.People.Errors.{Outcome}
use orgmetra.People.Commands.Assignment.{AssignmentMutationCommand}
use orgmetra.People.Digest.{Platform}
use orgmetra.People.Store.{
  Driver, Statement, clock, find_conversion, named_employment_versions, named_position_versions,
  existing_assignments,
}
use orgmetra.People.Store.Session.{Session}
use orgmetra.People.Store.Rows.{
  require_one_conversion, clock_instant, employment_version_from_row, position_version_from_row,
  assignment_from_row,
}
use orgmetra.People.Store.Proposed.{proposed_assignment}
use orgmetra.People.Store.Steps.{
  Answers, AnswersFirst, >>=-returned, lift-returned, execute-returned, caught-ok,
}
use orgmetra.People.Store.Writes.Laws.{clock-returned}
use orgmetra.People.Store.Assignment.{check_assignment}

-- The person has one conversion, the clock told the instant, and the rule of the kernel held at
-- that instant of what the database answered and the proposed fact.
pub record IsCheckedAssignment {S : Type 0} (driver : Driver S)
    (command : AssignmentMutationCommand) (recorded_at : Datetime) : Type 0 where
  pub conversion : ℕ × Datetime
  pub converted :
      AnswersFirst driver
        (find_conversion command.tenant_record_id command.person_record_id)
        require_one_conversion
        conversion
  pub told : AnswersFirst driver clock clock_instant recorded_at
  pub existing : List AssignmentFact
  pub employment_versions : List EmploymentVersion
  pub position_versions : List PositionVersion
  pub proposed : AssignmentFact
  pub proposes : proposed_assignment command recorded_at ≡ ok proposed
  pub accepted :
      validate_assignment_write proposed
        (existing ++ (proposed ∷ []))
        employment_versions
        position_versions
        recorded_at
      ≡ ok tt
  pub stored_assignments :
      Answers driver
        (existing_assignments command.tenant_record_id command.employment_record_id
          command.position_record_id)
        (assignment_from_row command.tenant_record_id)
        existing
  pub stored_employments :
      Answers driver
        (named_employment_versions command.tenant_record_id command.employment_record_id)
        (employment_version_from_row command.tenant_record_id)
        employment_versions
  pub stored_positions :
      Answers driver
        (named_position_versions command.tenant_record_id command.position_record_id)
        (position_version_from_row command.tenant_record_id)
        position_versions

module _ (platform : Platform) {S : Type 0} (driver : Driver S)
    (command : AssignmentMutationCommand) where
  -- The reads of the check, the latest first.
  abbrev pub check_statements : List Statement
  check_statements =
      existing_assignments command.tenant_record_id command.employment_record_id
        command.position_record_id
      ∷ clock
      ∷ named_position_versions command.tenant_record_id command.position_record_id
      ∷ named_employment_versions command.tenant_record_id command.employment_record_id
      ∷ find_conversion command.tenant_record_id command.person_record_id
      ∷ []

  pub check_assignment-returned :
      (before : Session S) {after : Session S} {recorded_at : Datetime}
      → check_assignment platform driver command before ≡ (after, ok recorded_at)
      → IsCheckedAssignment driver command recorded_at
        × (after.trace ≡ check_statements ++ before.trace)
  unfolding check_assignment
  check_assignment-returned before {after} {recorded_at} h =
      >>=-returned _ before h λ rows1 s1 e1 h1. execute-returned driver _ before e1 λ t1 run1.
        >>=-returned _ s1 h1 λ conversion s2 e2 h2. lift-returned _ s1 e2 λ read2 same2.
          >>=-returned _ s2 h2 λ rows3 s3 e3 h3. execute-returned driver _ s2 e3 λ t3 run3.
            >>=-returned _ s3 h3 λ versions s4 e4 h4. lift-returned _ s3 e4 λ read4 same4.
              >>=-returned _ s4 h4 λ rows5 s5 e5 h5. execute-returned driver _ s4 e5 λ t5 run5.
                >>=-returned _ s5 h5 λ positions s6 e6 h6. lift-returned _ s5 e6 λ read6 same6.
                  >>=-returned _ s6 h6 λ at s7 e7 h7. >>=-returned _ s7 h7 λ rows8 s8 e8 h8.
                    execute-returned driver _ s7 e8 λ t8 run8.
                      >>=-returned _ s8 h8 λ existing s9 e9 h9. lift-returned _ s8 e9 λ read9 same9.
                        >>=-returned _ s9 h9 λ proposed s10 e10 h10.
                          lift-returned _ s9 e10 λ read10 same10.
                            >>=-returned _ s10 h10 λ done s11 e11 h11.
                              lift-returned _ s10 e11 λ read11 same11.
                                let (told, t7) = clock-returned platform driver s6 e7 in
                                let same11' : s11 ≡ after =
                                  ap (λ (r : Outcome (Session S) Datetime). r.0) h11 in
                                let same_instant : at ≡ recorded_at =
                                  ok_kept
                                    (sym (ap (λ (r : Outcome (Session S) Datetime). r.1) h11)) in
                                (
                                  subst (IsCheckedAssignment driver command) same_instant (record {
                                    conversion = conversion;
                                    converted = record {
                                      asked = before.store;
                                      left = s1.store;
                                      rows = rows1;
                                      answered = run1;
                                      read_as = read2;
                                    };
                                    told = told;
                                    existing = existing;
                                    employment_versions = versions;
                                    position_versions = positions;
                                    proposed = proposed;
                                    proposes = read10;
                                    accepted = caught-ok _ read11;
                                    stored_assignments = record {
                                      asked = s7.store;
                                      left = s8.store;
                                      rows = rows8;
                                      answered = run8;
                                      read_as = read9;
                                    };
                                    stored_employments = record {
                                      asked = s2.store;
                                      left = s3.store;
                                      rows = rows3;
                                      answered = run3;
                                      read_as = read4;
                                    };
                                    stored_positions = record {
                                      asked = s4.store;
                                      left = s5.store;
                                      rows = rows5;
                                      answered = run5;
                                      read_as = read6;
                                    };
                                  }),
                                  cc (
                                    t1, t3, t5, t7, t8, same2, same4, same6, same9, same10, same11,
                                    same11',
                                  ),
                                )
