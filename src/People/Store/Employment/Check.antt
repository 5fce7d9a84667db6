-- ===== src/People/Store/Employment/Check.antt =====
-- The check of a proposed employment under a cursor: what the database answered, and the rule of
-- the kernel over it.
use orgmetra.Base.{ℕ, ok_kept, subst, ◌≡◌, sym, ap, List, [], ◌∷◌, ◌++◌, ok}
use orgmetra.Kernel.Intervals.{Datetime}
use orgmetra.Kernel.Facts.{EmploymentVersion}
use orgmetra.Kernel.Employment.{validate_person_employment_exclusivity}
use orgmetra.People.Errors.{Outcome}
use orgmetra.People.Commands.{EmploymentMutationCommand}
use orgmetra.People.Digest.{Platform}
use orgmetra.People.Store.{Driver, Statement, clock, find_conversion, employment_versions_of}
use orgmetra.People.Store.Session.{Session}
use orgmetra.People.Store.Rows.{require_one_conversion, clock_instant, employment_version_from_row}
use orgmetra.People.Store.Proposed.{proposed_employment}
use orgmetra.People.Store.Steps.{
  Answers, AnswersFirst, >>=-returned, lift-returned, execute-returned, caught-ok,
}
use orgmetra.People.Store.Writes.Laws.{clock-returned}
use orgmetra.People.Store.Employment.{check_employment}

-- The person has one conversion, the clock told the instant, and the rule of the kernel held at
-- that instant of what the database answered and the proposed fact.
pub record IsCheckedEmployment {S : Type 0} (driver : Driver S)
    (command : EmploymentMutationCommand) (recorded_at : Datetime) : Type 0 where
  pub conversion : ℕ × Datetime
  pub converted :
      AnswersFirst driver
        (find_conversion command.tenant_record_id command.person_record_id)
        require_one_conversion
        conversion
  pub told : AnswersFirst driver clock clock_instant recorded_at
  pub existing : List EmploymentVersion
  pub proposed : EmploymentVersion
  pub proposes : proposed_employment command recorded_at ≡ ok proposed
  pub accepted :
      validate_person_employment_exclusivity
        (existing ++ (proposed ∷ []))
        command.tenant_record_id
        command.person_record_id
        recorded_at
      ≡ ok tt
  pub stored_employments :
      Answers driver
        (employment_versions_of command.tenant_record_id command.person_record_id)
        (employment_version_from_row command.tenant_record_id)
        existing

module _ (platform : Platform) {S : Type 0} (driver : Driver S)
    (command : EmploymentMutationCommand) where
  -- The reads of the check, the latest first.
  abbrev pub check_statements : List Statement
  check_statements =
      employment_versions_of command.tenant_record_id command.person_record_id
      ∷ clock
      ∷ find_conversion command.tenant_record_id command.person_record_id
      ∷ []

  pub check_employment-returned :
      (before : Session S) {after : Session S} {recorded_at : Datetime}
      → check_employment platform driver command before ≡ (after, ok recorded_at)
      → IsCheckedEmployment driver command recorded_at
        × (after.trace ≡ check_statements ++ before.trace)
  unfolding check_employment
  check_employment-returned before {after} {recorded_at} h =
      >>=-returned _ before h λ rows1 s1 e1 h1. execute-returned driver _ before e1 λ t1 run1.
        >>=-returned _ s1 h1 λ conversion s2 e2 h2. lift-returned _ s1 e2 λ read2 same2.
          >>=-returned _ s2 h2 λ at s3 e3 h3. >>=-returned _ s3 h3 λ rows4 s4 e4 h4.
            execute-returned driver _ s3 e4 λ t4 run4. >>=-returned _ s4 h4 λ existing s5 e5 h5.
              lift-returned _ s4 e5 λ read5 same5. >>=-returned _ s5 h5 λ proposed s6 e6 h6.
                lift-returned _ s5 e6 λ read6 same6. >>=-returned _ s6 h6 λ done s7 e7 h7.
                  lift-returned _ s6 e7 λ read7 same7.
                    let (told, t3) = clock-returned platform driver s2 e3 in
                    let same8 : s7 ≡ after = ap (λ (r : Outcome (Session S) Datetime). r.0) h7 in
                    let same_instant : at ≡ recorded_at =
                      ok_kept (sym (ap (λ (r : Outcome (Session S) Datetime). r.1) h7)) in
                    (
                      subst (IsCheckedEmployment driver command) same_instant (record {
                        conversion = conversion;
                        converted = record {
                          asked = before.store;
                          left = s1.store;
                          rows = rows1;
                          answered = run1;
                          read_as = read2;
                        };
                        told = told;
                        existing = existing;
                        proposed = proposed;
                        proposes = read6;
                        accepted = caught-ok _ read7;
                        stored_employments = record {
                          asked = s3.store;
                          left = s4.store;
                          rows = rows4;
                          answered = run4;
                          read_as = read5;
                        };
                      }),
                      cc (t1, t3, t4, same2, same5, same6, same7, same8),
                    )
