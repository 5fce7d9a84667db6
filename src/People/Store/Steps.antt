-- ===== src/People/Store/Steps.antt =====
-- What a step that returned did, for the code under a cursor.
use orgmetra.Base.{◌∙◌, ok_kept, [], sym, ◌≡◌, refl, ap, List, ◌∷◌, ok, err, Result, arith}
use orgmetra.Kernel.Errors.{
  Error as KernelError, type_error, attribute_error, value_error, interval_error,
  identity_scope_error, single_valued_fact_error, assignment_portfolio_error,
  employment_coverage_error, employment_exclusivity_error, organization_hierarchy_error,
  position_coverage_error, position_seat_error, correction_error,
}
use orgmetra.People.Store.Rows.{read_rows}
use orgmetra.People.Errors.{ServiceError, Outcome}
use orgmetra.People.Store.{Statement, Row, Driver}
use orgmetra.People.Store.Session.{
  Session, Tx, ◌>>=◌, lift, caught, execute, perform, two, transaction,
}

module _ {S : Type 0} where
  -- A chain that returned: its first step returned, in a session where the rest returned.
  pub >>=-returned {ℓ} :
      {A B : Type 0} {P : Type ℓ} (step : Tx S A) {next : A → Tx S B} (before : Session S)
      {after : Session S} {b : B}
      → (step >>= next) before ≡ (after, ok b)
      → ((a : A) (middle : Session S)
          → step before ≡ (middle, ok a)
          → next a middle ≡ (after, ok b)
          → P)
      → P
  unfolding ◌>>=◌
  >>=-returned {A = A} {B = B} {P = P} step {next} before {after} {b} returned k =
      by_result (step before) refl returned
    where
      by_result :
          (r : Outcome (Session S) A)
          → step before ≡ r
          → (elim (r.1) as (λ x. Outcome (Session S) B) [
            | ok value ↦ next value r.0
            | err raised ↦ (r.0, err raised)
          ])
            ≡ (after, ok b)
          → P
      by_result (middle, ok a) e h = k a middle e h
      by_result (middle, err raised) e h = cc

  -- What does not touch the cursor leaves the session.
  pub lift-returned {ℓ} :
      {A : Type 0} {P : Type ℓ} (result : Result ServiceError A) (before : Session S)
      {after : Session S} {a : A}
      → lift result before ≡ (after, ok a)
      → (result ≡ ok a → before ≡ after → P)
      → P
  lift-returned result before h k = k (ap (λ r. r.1) h) (ap (λ r. r.0) h)

  -- An executed statement is the latest of the trace, and its rows are the driver's.
  pub execute-returned {ℓ} :
      {P : Type ℓ} (driver : Driver S) (statement : Statement) (before : Session S)
      {after : Session S} {rows : List Row}
      → execute driver statement before ≡ (after, ok rows)
      → (after.trace ≡ statement ∷ before.trace
          → driver.run statement before.store ≡ (after.store, ok rows)
          → P)
      → P
  unfolding execute
  execute-returned driver statement before h k =
      k (sym (ap (λ (r : Outcome (Session S) (List Row)). r.0.trace) h))
        (ap (λ (r : Outcome (Session S) (List Row)). (r.0.store, r.1)) h)

  pub perform-returned {ℓ} :
      {P : Type ℓ} (driver : Driver S) (statement : Statement) (before : Session S)
      {after : Session S}
      → perform driver statement before ≡ (after, ok tt)
      → (after.trace ≡ statement ∷ before.trace → P)
      → P
  perform-returned driver statement before {after} h k =
      >>=-returned (execute driver statement) before h λ rows middle e h'.
        execute-returned driver statement before e
          λ t run. k (rw (sym (ap (λ (r : Outcome (Session S) (Unit {0})). r.0) h')) t)

pub caught-ok : {A : Type 0} (m : Result KernelError A) {a : A} → caught m ≡ ok a → m ≡ ok a
caught-ok (ok b) h = ground arith
caught-ok (err type_error) h = cc
caught-ok (err attribute_error) h = cc
caught-ok (err (value_error message)) h = cc
caught-ok (err (interval_error message)) h = cc
caught-ok (err identity_scope_error) h = cc
caught-ok (err (single_valued_fact_error message)) h = cc
caught-ok (err (assignment_portfolio_error message)) h = cc
caught-ok (err (employment_coverage_error message)) h = cc
caught-ok (err (employment_exclusivity_error message)) h = cc
caught-ok (err organization_hierarchy_error) h = cc
caught-ok (err position_coverage_error) h = cc
caught-ok (err position_seat_error) h = cc
caught-ok (err (correction_error message)) h = cc

-- The driver answered the statement, in some state, with rows that read as these facts.
pub record Answers {S A : Type 0} (driver : Driver S) (statement : Statement)
    (read : Row → Result ServiceError A) (facts : List A) : Type 0 where
  pub asked : S
  pub left : S
  pub rows : List Row
  pub answered : driver.run statement asked ≡ (left, ok rows)
  pub read_as : read_rows read rows ≡ ok facts

-- The driver answered the statement, in some state, and the first two rows read as this value.
pub record AnswersFirst {S A : Type 0} (driver : Driver S) (statement : Statement)
    (read : List Row → Result ServiceError A) (value : A) : Type 0 where
  pub asked : S
  pub left : S
  pub rows : List Row
  pub answered : driver.run statement asked ≡ (left, ok rows)
  pub read_as : read (two driver rows) ≡ ok value

-- A transaction that returned: its body did, and its commit.
pub transaction-returned {ℓ} :
    {S A : Type 0} {P : Type ℓ} (driver : Driver S) (body : Tx S A) (before : S) {after : S} {a : A}
    → transaction driver body before ≡ (after, ok a)
    → ((session : Session S)
        → body (record { trace = []; store = before }) ≡ (session, ok a)
        → driver.commit before session.store ≡ (after, ok tt)
        → P)
    → P
unfolding transaction
transaction-returned {S = S} {A = A} {P = P} driver body before {after} {a} h k =
    by_result (body (record { trace = []; store = before })) refl h
  where
    by_exit :
        (session : Session S) (value : A) (exit : Outcome S (Unit {0}))
        → body (record { trace = []; store = before }) ≡ (session, ok value)
        → driver.commit before session.store ≡ exit
        → (elim exit.1 as (λ x. Outcome S A) [
          | ok done ↦ (exit.0, ok value)
          | err raised ↦ (exit.0, err raised)
        ])
          ≡ (after, ok a)
        → P
    by_exit session value (s, ok done) e c q =
        let v : value ≡ a = ok_kept (sym (ap (λ (r : Outcome S A). r.1) q)) in
        let w : s ≡ after = ap (λ (r : Outcome S A). r.0) q in k session (rw v at e) (rw w at c)
    by_exit session value (s, err raised) e c q = cc

    by_result :
        (r : Outcome (Session S) A)
        → body (record { trace = []; store = before }) ≡ r
        → (elim r.1 as (λ x. Outcome S A) [
          | err raised ↦ (driver.rollback before r.0.store, err raised)
          | ok value ↦ (elim (driver.commit before r.0.store).1 as (λ x. Outcome S A) [
            | ok done ↦ ((driver.commit before r.0.store).0, ok value)
            | err raised ↦ ((driver.commit before r.0.store).0, err raised)
          ])
        ])
          ≡ (after, ok a)
        → P
    by_result (session, err raised) e q = cc
    by_result (session, ok value) e q =
        by_exit session value (driver.commit before session.store) e refl q

-- Steps forward: what a step does, for a run that is known.
module _ {S : Type 0} where
  pub >>=-runs :
      {A B : Type 0} (step : Tx S A) (next : A → Tx S B) (before : Session S) {middle : Session S}
      {a : A}
      → step before ≡ (middle, ok a)
      → (step >>= next) before ≡ next a middle
  unfolding ◌>>=◌
  >>=-runs {A = A} {B = B} step next before h =
      ap
        (λ (r : Outcome (Session S) A). elim r.1 as (λ x. Outcome (Session S) B) [
          | ok value ↦ next value r.0
          | err raised ↦ (r.0, err raised)
        ])
        h

  pub execute-runs :
      (driver : Driver S) (statement : Statement) (before : Session S) {left : S} {rows : List Row}
      → driver.run statement before.store ≡ (left, ok rows)
      → execute driver statement before
        ≡ (record { trace = statement ∷ before.trace; store = left }, ok rows)
  unfolding execute
  execute-runs driver statement before h = rw h refl

  pub perform-runs :
      (driver : Driver S) (statement : Statement) (before : Session S) {left : S} {rows : List Row}
      → driver.run statement before.store ≡ (left, ok rows)
      → perform driver statement before
        ≡ (record { trace = statement ∷ before.trace; store = left }, ok tt)
  perform-runs driver statement before h =
      >>=-runs _ _ before (execute-runs driver statement before h)

  pub transaction-runs :
      {A : Type 0} (driver : Driver S) (body : Tx S A) (before after : S) {session : Session S}
      {a : A}
      → body (record { trace = []; store = before }) ≡ (session, ok a)
      → driver.commit before session.store ≡ (after, ok tt)
      → transaction driver body before ≡ (after, ok a)
  unfolding transaction
  transaction-runs {A = A} driver body before after {session} {a} h c =
      ap
        (λ (r : Outcome (Session S) A). elim r.1 as (λ x. Outcome S A) [
          | err raised ↦ (driver.rollback before r.0.store, err raised)
          | ok value ↦ (elim (driver.commit before r.0.store).1 as (λ x. Outcome S A) [
            | ok done ↦ ((driver.commit before r.0.store).0, ok value)
            | err raised ↦ ((driver.commit before r.0.store).0, err raised)
          ])
        ])
        h
      ∙ ap
          (λ (r : Outcome S (Unit {0})). elim r.1 as (λ x. Outcome S A) [
            | ok done ↦ (r.0, ok a)
            | err raised ↦ (r.0, err raised)
          ])
          c
