-- ===== src/People/Store/Reader/Laws.antt =====
-- A read that returns a view: what the database answered, and which statements were executed.
use orgmetra.People.Authorization.Laws.{checked-ok}
use orgmetra.Base.{
  Bool, ℕ, String, ◌≡◌, refl, sym, ap, ◌∙◌, Option, some, List, [], ◌∷◌, Result, ok, err, ok_kept,
  >>=-ok_elim, arith, subst,
}
use orgmetra.Keyverse.Authorization.{PurposeBoundAccessPolicy}
use orgmetra.People.Commands.{validate_operational_uuid, Argument, uuid}
use orgmetra.People.Errors.{checked, ServiceError, Outcome}
use orgmetra.People.Auth.{AuthenticatedPrincipal}
use orgmetra.People.Reading.{
  validate_effective_on, WorkerPeopleRecord, AuthorizedWorkerPeopleView, read_worker_people_record,
}
use orgmetra.People.Reading.Laws.{uuid_of, IsGovernedView, read_worker-governed}
use orgmetra.People.Digest.{Platform}
use orgmetra.People.Store.{Driver, Row, read_only, tenant_context, worker_at}
use orgmetra.People.Store.Session.{Session, two, transaction}
use orgmetra.People.Store.Steps.{perform-returned, execute-returned, >>=-returned}
use orgmetra.People.Store.Executed.{
  Executed, Traces, Traces-return, Traces-execute, Traces-perform, Traces->>=, IsCommitted,
  transaction-IsCommitted,
}
use orgmetra.People.Store.WorkerRows.{read_target, worker_from_row, worker_from_rows}
use orgmetra.People.Store.Reader.{
  read_worker_body, found_worker, read_target_of, store_read_worker, read_port,
}

-- A worker that was read: the body of the transaction for these arguments ended in a session whose
-- three statements were run from the store before and committed, and the one row that the last of
-- them was answered with, in the store that the others left, is the worker's.
pub record IsFetchedWorker (platform : Platform) {S : Type 0} (driver : Driver S)
    (tenant person : ℕ) (effective_on : Argument) (before after : S) (worker : WorkerPeopleRecord)
    : Type 0 where
  pub session : Session S
  pub asked : S
  pub rows : List Row
  pub row : Row
  pub committed :
      IsCommitted driver
        (read_worker_body platform driver tenant person effective_on)
        before
        after
        (row ∷ [])
        session
  pub executed :
      session.trace ≡ worker_at tenant person effective_on ∷ tenant_context tenant ∷ read_only ∷ []
  pub reached : Executed driver before (tenant_context tenant ∷ read_only ∷ []) asked
  pub answered : driver.run (worker_at tenant person effective_on) asked ≡ (session.store, ok rows)
  pub rows_are : two driver rows ≡ row ∷ []
  pub read_as : worker_from_row platform.is_space tenant person row ≡ ok worker

module _ (is_space : ℕ → Bool) (tenant person : ℕ) where
  worker_from_rows-some :
      (rows : List Row) {worker : WorkerPeopleRecord}
      → worker_from_rows is_space tenant person rows ≡ ok (some worker)
      → (row : Row) × (rows ≡ row ∷ []) × (worker_from_row is_space tenant person row ≡ ok worker)
  unfolding worker_from_rows
  worker_from_rows-some [] h = cc
  worker_from_rows-some (a ∷ b ∷ rows) h = cc
  worker_from_rows-some (row ∷ []) h =
      >>=-ok_elim (worker_from_row is_space tenant person row) h
        λ found e h'. (row, refl, e ∙ ap ok (some_kept (sym (ok_kept h'))))
    where
      some_kept :
          {a b : WorkerPeopleRecord} → ◌≡◌ {A = Option WorkerPeopleRecord} (some a) (some b) → a ≡ b
      some_kept q = ground arith

module _ (platform : Platform) {S : Type 0} (driver : Driver S) (tenant person : ℕ) where
  read_worker_body-Traces :
      (on : Argument) → Traces driver (read_worker_body platform driver tenant person on)
  unfolding read_worker_body
  read_worker_body-Traces on = Traces->>= driver _ _ (Traces-perform driver _) λ d1.
      Traces->>= driver _ _ (Traces-perform driver _)
        λ d2. Traces->>= driver _ _ (Traces-execute driver _) λ rows. Traces-return driver _

  found_worker-some :
      (on : Argument) (before : S) {after : S} {worker : WorkerPeopleRecord}
      → found_worker platform driver tenant person
          (transaction driver (read_worker_body platform driver tenant person on) before)
        ≡ (after, ok (some worker))
      → IsFetchedWorker platform driver tenant person on before after worker
  unfolding read_worker_body
  found_worker-some on before {after} {worker} h =
      by_result (transaction driver (read_worker_body platform driver tenant person on) before) refl
        h
    where
      by_result :
          (r : Outcome S (List Row))
          → transaction driver (read_worker_body platform driver tenant person on) before ≡ r
          → found_worker platform driver tenant person r ≡ (after, ok (some worker))
          → IsFetchedWorker platform driver tenant person on before after worker
      by_result (s, err raised) e q = cc
      by_result (s, ok answer) e q =
          let same : s ≡ after = ap (λ (r : Outcome S (Option WorkerPeopleRecord)). r.0) q in
          let (row, one, read) =
            worker_from_rows-some platform.is_space tenant person answer
              (ap (λ (r : Outcome S (Option WorkerPeopleRecord)). r.1) q) in
          transaction-IsCommitted driver (read_worker_body platform driver tenant person on) before
            (read_worker_body-Traces on) e
            λ session committed. >>=-returned _ _ committed.ended λ d1 s1 e1 h1.
              perform-returned driver _ _ e1 λ t1. >>=-returned _ s1 h1 λ d2 s2 e2 h2.
                perform-returned driver _ s1 e2 λ t2. >>=-returned _ s2 h2 λ rows s3 e3 h3.
                  execute-returned driver _ s2 e3 λ t3 run3.
                    let kept : two driver rows ≡ answer =
                      ok_kept (sym (ap (λ (r : Outcome (Session S) (List Row)). r.1) h3)) in
                    let same3 : s3 ≡ session =
                      ap (λ (r : Outcome (Session S) (List Row)). r.0) h3 in
                    let ran1 : Executed driver before s1.trace s1.store =
                      Traces-perform driver _ before (record { trace = []; store = before }) s1 _ e1
                        refl in
                    let ran2 : Executed driver before s2.trace s2.store =
                      Traces-perform driver _ before s1 s2 _ e2 ran1 in
                    record {
                      session = session;
                      asked = s2.store;
                      rows = rows;
                      row = row;
                      committed =
                          subst
                            (λ (z : S × List Row).
                              IsCommitted driver (read_worker_body platform driver tenant person on)
                                before z.0 z.1 session)
                            (λ i. (same i, one i)) committed;
                      executed = cc (same3, t1, t2, t3);
                      reached = rw (t2, t1) at ran2;
                      answered = rw same3 at run3;
                      rows_are = kept ∙ one;
                      read_as = read;
                    }

pub validate_effective_on-kept :
    (a : Argument) {on : Argument} → validate_effective_on a ≡ ok on → on ≡ a
unfolding validate_effective_on
validate_effective_on-kept a h = ground arith

read_target-kept :
    (tenant person : ℕ) (effective_on on : Argument) {t p : ℕ}
    → read_target (uuid tenant) (uuid person) effective_on ≡ ok (t, p, on)
    → (t ≡ tenant) × (p ≡ person) × (on ≡ effective_on)
unfolding read_target
read_target-kept tenant person effective_on on {t} {p} h =
    >>=-ok_elim (checked (validate_operational_uuid "tenant_record_id" (uuid tenant))) h λ m e h1.
      >>=-ok_elim (checked (validate_operational_uuid "person_record_id" (uuid person))) h1
        λ n e' h2. >>=-ok_elim (checked (validate_effective_on effective_on)) h2 λ o e'' h3.
          let q = ok_kept h3 in
          let same_tenant : t ≡ m = ap (λ (x : ℕ × ℕ × Argument). x.0) q in
          let same_person : p ≡ n = ap (λ (x : ℕ × ℕ × Argument). x.1) q in
          let same_on : on ≡ o = ap (λ (x : ℕ × ℕ × Argument). x.2) q in
          let own_tenant : uuid tenant ≡ uuid m = uuid_of _ _ (checked-ok _ e) in
          let own_person : uuid person ≡ uuid n = uuid_of _ _ (checked-ok _ e') in
          (
            cc (same_tenant, own_tenant),
            cc (same_person, own_person),
            same_on ∙ validate_effective_on-kept effective_on (checked-ok _ e''),
          )

module _ (platform : Platform) {S : Type 0} (driver : Driver S) where
  read_port-some :
      (tenant person : ℕ) (effective_on : Argument) (before : S) {after : S}
      {worker : WorkerPeopleRecord}
      → read_port platform driver tenant person effective_on before ≡ (after, ok (some worker))
      → IsFetchedWorker platform driver tenant person effective_on before after worker
  unfolding store_read_worker
  read_port-some tenant person effective_on before {after} {worker} h =
      by_target (read_target (uuid tenant) (uuid person) effective_on) refl h
    where
      by_target :
          (target : Result ServiceError (ℕ × ℕ × Argument))
          → read_target (uuid tenant) (uuid person) effective_on ≡ target
          → read_target_of platform driver target before ≡ (after, ok (some worker))
          → IsFetchedWorker platform driver tenant person effective_on before after worker
      by_target (err raised) e q = cc
      by_target (ok (t, p, on)) e q =
          let (same_tenant, same_person, same_on) =
            read_target-kept tenant person effective_on on e in
          found_worker-some platform driver tenant person effective_on before
            (rw (same_tenant, same_person, same_on) at q)

-- A read through the application layer and the adapter that returns a view: it was permitted, for a
-- tenant and a person that the arguments name, and the view holds only requested fields with the
-- values of one record of theirs. The transaction for that tenant and person and the day of the
-- arguments ended in a session of three statements, of which none inserts; they were run one after
-- the other from the store before, what they left was committed, and the record is that of the only
-- row which the last of them, for the tenant, the person and the day, was answered with.
pub read_worker-stored :
    (platform : Platform) {S : Type 0} (driver : Driver S) (principal : AuthenticatedPrincipal)
    (purpose : String) (fields : List String) (policy : PurposeBoundAccessPolicy) (before after : S)
    (tenant_record_id person_record_id effective_on : Argument) {view : AuthorizedWorkerPeopleView}
    → read_worker_people_record principal tenant_record_id person_record_id effective_on purpose
        fields policy
        (read_port platform driver)
        before
      ≡ (after, ok view)
    → (tenant person : ℕ) × (tenant_record_id ≡ uuid tenant)
      × (person_record_id ≡ uuid person)
      × (governed : IsGovernedView principal tenant person effective_on purpose fields policy
          (read_port platform driver)
          before
          after
          view)
      × IsFetchedWorker platform driver tenant person effective_on before after governed.worker
read_worker-stored platform driver principal purpose fields policy before after tenant_record_id
      person_record_id effective_on h =
    let (tenant, person, named, named', governed) =
      read_worker-governed principal purpose fields policy (read_port platform driver) before
        tenant_record_id person_record_id effective_on after h in
    (
      tenant,
      person,
      named,
      named',
      governed,
      read_port-some platform driver tenant person effective_on before governed.answered,
    )
