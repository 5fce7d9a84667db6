-- ===== src/People/Store/Hire/Laws.antt =====
-- What a hire promises: it was confirmed by the decision that the database answered, and the
-- statements were these, in this order.
use orgmetra.Base.{
  Bool, true, false, if◌then◌else◌, String, ◌≡◌, ap, ◌∙◌, ◌⊎◌, inl, inr, Option, none, some, List,
  [], ◌∷◌, ok, err, ok_kept,
}
use orgmetra.Keyverse.Authorization.{
  PurposeBoundAccessPolicy, AuthorizationDecision, decision, access_permitted,
}
use orgmetra.Keyverse.Authorization.Laws.{Permits}
use orgmetra.Kernel.Audit.{AuditOutboxEvent}
use orgmetra.People.Errors.{Outcome}
use orgmetra.People.Auth.{AuthenticatedPrincipal}
use orgmetra.People.Governance.{hire_request, accept_confirmed_hire-performed}
use orgmetra.People.Hire.{HireAcceptanceCommand, HireAcceptanceResult, accept_confirmed_hire}
use orgmetra.People.Digest.{Platform}
use orgmetra.People.Store.{Driver, Statement, lock_key, read_key}
use orgmetra.People.Store.Session.{Session, transaction}
use orgmetra.People.Store.Steps.{perform-returned, execute-returned, >>=-returned, lift-returned}
use orgmetra.People.Store.Executed.{IsCommitted, transaction-IsCommitted}
use orgmetra.People.Store.Hire.Traces.{accept_hire_body-Traces}
use orgmetra.People.Store.Writes.{authorized_transaction}
use orgmetra.People.Store.Writes.Laws.{
  opening_statements, begin-returned, record_audit_event-returned,
}
use orgmetra.People.Store.Port.Laws.{answered}
use orgmetra.People.Store.Provenance.{
  unmatched, validate_hire_authorization, hire_key, hire_result, Provenance,
}
use orgmetra.People.Store.Provenance.Laws.{provenance-IsConfirmed, hire_replayed-bound}
use orgmetra.People.Store.Hire.Outcomes.{IsHireReplay, IsBoundHire, IsStoredHire, hire_statements}
use orgmetra.People.Store.Hire.{
  replayed_hire, record_hire_idempotency, store_hire, answer_hire, accept_hire_body,
  store_accept_hire, hire_port,
}

module _ (platform : Platform) {S : Type 0} (driver : Driver S) (command : HireAcceptanceCommand)
    (decided : AuthorizationDecision) where
  pub replayed_hire-returned :
      (before : Session S) {after : Session S} {replayed : Option HireAcceptanceResult}
      → replayed_hire platform driver command decided before ≡ (after, ok replayed)
      → IsHireReplay platform driver command decided replayed
        × (after.trace ≡ read_key (hire_key command) ∷ lock_key (hire_key command) ∷ before.trace)
  unfolding replayed_hire
  replayed_hire-returned before h = >>=-returned _ before h λ done s1 e1 h1.
      perform-returned driver _ before e1 λ t1. >>=-returned _ s1 h1 λ rows s2 e2 h2.
        execute-returned driver _ s1 e2 λ t2 run2. lift-returned _ s2 h2 λ read3 same3. (
          record {
            asked = s1.store;
            left = s2.store;
            rows = rows;
            answered = run2;
            read_as = read3;
          },
          cc (t1, t2, same3),
        )

  -- The statements of the inserts.
  store_hire-returned :
      (provenance : Provenance) (event : AuditOutboxEvent) (before : Session S) {after : Session S}
      → store_hire platform driver command decided provenance.recorded_at event before
        ≡ (after, ok tt)
      → after.trace ≡ hire_statements platform driver command decided provenance event before.trace
  unfolding store_hire record_hire_idempotency
  store_hire-returned provenance event before h = >>=-returned _ before h λ done1 s1 e1 h1.
      perform-returned driver _ before e1 λ t1. >>=-returned _ s1 h1 λ done2 s2 e2 h2.
        perform-returned driver _ s1 e2 λ t2. >>=-returned _ s2 h2 λ done3 s3 e3 h3.
          perform-returned driver _ s2 e3 λ t3. >>=-returned _ s3 h3 λ done4 s4 e4 h4.
            perform-returned driver _ s3 e4 λ t4. >>=-returned _ s4 h4 λ done5 s5 e5 h5.
              let t5 = record_audit_event-returned platform driver _ _ _ event s4 e5 in
              >>=-returned _ s5 h5 λ done6 s6 e6 h6.
                perform-returned driver _ s5 e6
                  λ t6. perform-returned driver _ s6 h6 λ t7. cc (t1, t2, t3, t4, t5, t6, t7)

  -- How a body that returned has ended: the key was bound to this very hire, or the hire was
  -- confirmed and stored.
  abbrev pub Hired : List Statement → Type 0
  Hired trace =
      IsBoundHire platform driver command decided trace
      ⊎ IsStoredHire platform driver command decided trace

  pub accept_hire_body-returned :
      (store : S) {after : Session S} {result : HireAcceptanceResult}
      → accept_hire_body platform driver command decided (record { trace = []; store = store })
        ≡ (after, ok result)
      → (result ≡ hire_result command) × Hired after.trace
  unfolding accept_hire_body answer_hire
  accept_hire_body-returned store {after} {result} h = >>=-returned _ _ h λ done s1 e1 h1.
      let t1 = begin-returned platform driver command.tenant_record_id _ e1 in
      >>=-returned _ s1 h1 λ replayed s2 e2 h2.
        let (replay, t2) = replayed_hire-returned s1 e2 in
        by_replay s2 replayed replay (cc (t1, t2)) h2
    where
      by_replay :
          (s2 : Session S) (replayed : Option HireAcceptanceResult)
          → IsHireReplay platform driver command decided replayed
          → s2.trace ≡ opening_statements (hire_key command) command.tenant_record_id
          → answer_hire platform driver command decided replayed s2 ≡ (after, ok result)
          → (result ≡ hire_result command) × Hired after.trace
      by_replay s2 (some found) replay t h' =
          let same : s2 ≡ after = ap (λ (r : Outcome (Session S) HireAcceptanceResult). r.0) h' in
          let named : result ≡ found =
            ok_kept (ap (λ (r : Outcome (Session S) HireAcceptanceResult). r.1) h') in
          let (bound, exact) = hire_replayed-bound command _ _ replay.read_as in
          (
            named ∙ exact,
            inl (record {
              asked = replay.asked;
              left = replay.left;
              rows = replay.rows;
              answered = replay.answered;
              bound = bound;
              executed = cc (same, t);
            }),
          )
      by_replay s2 none replay t h' = >>=-returned _ s2 h' λ rows s3 e3 h3.
          execute-returned driver _ s2 e3 λ t3 run3. >>=-returned _ s3 h3 λ provenance s4 e4 h4.
            lift-returned _ s3 e4 λ read4 same4. >>=-returned _ s4 h4 λ event s5 e5 h5.
              lift-returned _ s4 e5 λ created same5. >>=-returned _ s5 h5 λ done s6 e6 h6.
                let t6 = store_hire-returned provenance event s5 e6 in
                let same7 : s6 ≡ after =
                  ap (λ (r : Outcome (Session S) HireAcceptanceResult). r.0) h6 in
                (
                  ok_kept (ap (λ (r : Outcome (Session S) HireAcceptanceResult). r.1) h6),
                  inr (record {
                    provenance = provenance;
                    event = event;
                    asked = s2.store;
                    left = s3.store;
                    rows = rows;
                    answered = run3;
                    confirmed = provenance-IsConfirmed platform command decided _ read4;
                    created = created;
                    executed = cc (same7, t6, same5, same4, t3, t);
                  }),
                )

-- A hire through the application layer and the adapter, when it returns: the policy permits the
-- principal to materialize a worker from exactly the decision of the command, the body of the
-- transaction, under the allowing decision, ended in a session whose statements were run one after
-- the other from the store before, what they left was committed, the result has the identifiers of the command, and either the key was bound to this
-- very hire and nothing was inserted, or the one row of the sealed decision confirms the hire, for
-- the same actor and purpose and not after the transaction or the effective date, and the inserts
-- are those of the worker, of the audit pair, of the conversion and of the key, in order.
pub accept_confirmed_hire-stored :
    (platform : Platform) {S : Type 0} (driver : Driver S) (principal : AuthenticatedPrincipal)
    (purpose : String) (policy : PurposeBoundAccessPolicy) (before after : S)
    (command : HireAcceptanceCommand) {result : HireAcceptanceResult}
    → accept_confirmed_hire principal
        (some command)
        purpose
        policy
        (some (hire_port platform driver))
        before
      ≡ (after, ok result)
    → Permits (hire_request principal command purpose) policy
      × (session : Session S) × IsCommitted driver
          (accept_hire_body platform driver command
            (decision (hire_request principal command purpose) policy true access_permitted))
          before
          after
          result
          session
      × (result ≡ hire_result command)
      × Hired platform driver command
          (decision (hire_request principal command purpose) policy true access_permitted)
          session.trace
unfolding store_accept_hire validate_hire_authorization
accept_confirmed_hire-stored platform {S} driver principal purpose policy before after command
      {result} h =
    let (permits, performed) =
      accept_confirmed_hire-performed principal purpose policy before (hire_port platform driver)
        command after h in
    let (session, committed, named, hired) = by_decision _ _ (answered _ performed) in
    (permits, session, committed, named, hired)
  where
    by_decision :
        (allowing : AuthorizationDecision) (matched : Bool)
        → authorized_transaction
            (if matched then ok allowing else err unmatched)
            (λ d. transaction driver (accept_hire_body platform driver command d) before)
            before
          ≡ (after, ok result)
        → (session : Session S) × IsCommitted driver
            (accept_hire_body platform driver command allowing)
            before
            after
            result
            session
          × (result ≡ hire_result command)
          × Hired platform driver command allowing session.trace
    by_decision allowing false q = cc
    by_decision allowing true q =
        transaction-IsCommitted driver (accept_hire_body platform driver command allowing) before
          (accept_hire_body-Traces platform driver command allowing) q
          λ session committed.
            let (named, hired) =
              accept_hire_body-returned platform driver command allowing before committed.ended in
            (session, committed, named, hired)
