-- ===== src/People/Store/Executed.antt =====
-- The statements that a transaction executed, of postgres_mutations.py, postgres_hire.py and
-- postgres.py in services/people-api/src/orgmetra_people_api, against the store.
use orgmetra.Base.{◌≡◌, refl, ap, List, [], ◌∷◌, Result, ok}
use orgmetra.People.Errors.{ServiceError, Outcome}
use orgmetra.People.Store.{Statement, Row, Driver}
use orgmetra.People.Store.Session.{Session, Tx, ◌>>=◌, lift, execute, perform, return, transaction}
use orgmetra.People.Store.Steps.{
  >>=-returned, lift-returned, execute-returned, transaction-returned,
}

module _ {S : Type 0} (driver : Driver S) where
  -- The statements, the latest first, were run one after the other without an exception, and took
  -- the store from its state before the first of them to its state after the last.
  abbrev pub Executed : S → List Statement → S → Type 0
  Executed before [] after = before ≡ after
  Executed before (statement ∷ earlier) after =
      (middle : S) × (rows : List Row) × Executed before earlier middle
      × (driver.run statement middle ≡ (after, ok rows))

  -- A step that returns adds to the trace what it ran, and nothing else.
  abbrev pub Traces : {A : Type 0} → Tx S A → Type 0
  Traces {A} step =
      (start : S) (before after : Session S) (a : A)
      → step before ≡ (after, ok a)
      → Executed start before.trace before.store
      → Executed start after.trace after.store

  pub Traces-lift : {A : Type 0} (result : Result ServiceError A) → Traces (lift result)
  Traces-lift result start before after a h ran =
      lift-returned result before h λ read same. rw same at ran

  pub Traces-return : {A : Type 0} (a : A) → Traces (return a)
  Traces-return {A} a start before after b h ran =
      let same : before ≡ after = ap (λ (r : Outcome (Session S) A). r.0) h in rw same at ran

  pub Traces-execute : (statement : Statement) → Traces (execute driver statement)
  Traces-execute statement start before after rows h ran =
      execute-returned driver statement before h λ t run. rw t (before.store, rows, ran, run)

  pub Traces->>= :
      {A B : Type 0} (step : Tx S A) (next : A → Tx S B)
      → Traces step
      → ((a : A) → Traces (next a))
      → Traces (step >>= next)
  Traces->>= step next first rest start before after b h ran =
      >>=-returned step before h
        λ a middle e e'. rest a start middle after b e' (first start before middle a e ran)

  pub Traces-perform : (statement : Statement) → Traces (perform driver statement)
  Traces-perform statement = Traces->>= _ _ (Traces-execute statement) (λ rows. Traces-return tt)

  -- A transaction that returned: its body ended in this session, whose statements were executed
  -- from the store before, and the state that they left was committed.
  pub record IsCommitted {A : Type 0} (body : Tx S A) (before after : S) (a : A)
      (session : Session S) : Type 0 where
    pub ended : body (record { trace = []; store = before }) ≡ (session, ok a)
    pub executed : Executed before session.trace session.store
    pub committed : driver.commit before session.store ≡ (after, ok tt)

  pub transaction-IsCommitted {ℓ} :
      {A : Type 0} {P : Type ℓ} (body : Tx S A) (before : S) {after : S} {a : A}
      → Traces body
      → transaction driver body before ≡ (after, ok a)
      → ((session : Session S) → IsCommitted body before after a session → P)
      → P
  transaction-IsCommitted body before {after} {a} traces h k =
      transaction-returned driver body before h λ session ended committed. k session (record {
        ended = ended;
        executed = traces before (record { trace = []; store = before }) session a ended refl;
        committed = committed;
      })
