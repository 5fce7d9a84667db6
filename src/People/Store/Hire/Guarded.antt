-- ===== src/People/Store/Hire/Guarded.antt =====
-- `accept_hire` of postgres_hire.py, however it ends: no insert before the decision is verified.
use mathlib.Core.List.{Memᴰ}
use orgmetra.Base.{◌≡◌, refl, true, Option, none, some, List, [], Result, ok}
use orgmetra.Keyverse.Authorization.{AuthorizationDecision}
use orgmetra.People.Errors.{ServiceError}
use orgmetra.People.Hire.{HireAcceptanceCommand, HireAcceptanceResult}
use orgmetra.People.Digest.{Platform}
use orgmetra.People.Store.{Driver, Statement, Row, decision_provenance}
use orgmetra.People.Store.Session.{Session, two}
use orgmetra.People.Store.Steps.{lift-returned, execute-returned}
use orgmetra.People.Store.Guarded.{
  inserts, Guarded, Guarded-lift, Guarded-return, Guarded-execute, Guarded-perform, Guarded->>=,
  Guarded-of,
}
use orgmetra.People.Store.Writes.Guarded.{begin-Guarded}
use orgmetra.People.Store.Provenance.{Provenance}
use orgmetra.People.Store.Provenance.Laws.{IsConfirmed, provenance-IsConfirmed}
use orgmetra.People.Store.Hire.{replayed_hire, answer_hire, accept_hire_body}
use orgmetra.People.Store.Hire.Outcomes.{IsHireReplay}
use orgmetra.People.Store.Hire.Laws.{replayed_hire-returned}

-- A hire that may be stored: its key is free, and the rows that the database answered for its
-- decision confirm it.
pub record IsStorableHire (platform : Platform) {S : Type 0} (driver : Driver S)
    (command : HireAcceptanceCommand) (decided : AuthorizationDecision) : Type 0 where
  pub free : IsHireReplay platform driver command decided none
  pub provenance : Provenance
  pub asked : S
  pub left : S
  pub rows : List Row
  pub answered :
      driver.run
        (decision_provenance command.tenant_record_id command.selection_decision_id
          command.candidate_profile_id)
        asked
      ≡ (left, ok rows)
  pub confirmed : IsConfirmed platform command decided (two driver rows) provenance

module _ (platform : Platform) {S : Type 0} (driver : Driver S) (command : HireAcceptanceCommand)
    (decided : AuthorizationDecision) where
  abbrev Storable : Type 0
  Storable = IsStorableHire platform driver command decided

  replayed_hire-Guarded : Guarded Storable (replayed_hire platform driver command decided)
  unfolding replayed_hire
  replayed_hire-Guarded =
      Guarded->>= Storable _ _ (Guarded-perform Storable driver _ refl) λ b1 m1 done e1.
        Guarded->>= Storable _ _ (Guarded-execute Storable driver _ refl)
          λ b2 m2 rows e2. Guarded-lift Storable _

  answer_hire-Guarded :
      (replayed : Option HireAcceptanceResult)
      → IsHireReplay platform driver command decided replayed
      → Guarded Storable (answer_hire platform driver command decided replayed)
  unfolding answer_hire
  answer_hire-Guarded (some result) free = Guarded-return Storable _
  answer_hire-Guarded none free =
      Guarded->>= Storable _ _ (Guarded-execute Storable driver _ refl) λ b1 m1 rows e1.
        execute-returned driver _ b1 e1 λ t run.
          Guarded->>= Storable _ _ (Guarded-lift Storable _) λ b2 m2 provenance e2.
            lift-returned _ b2 e2 λ read same. Guarded-of Storable _ (record {
              free = free;
              provenance = provenance;
              asked = b1.store;
              left = m1.store;
              rows = rows;
              answered = run;
              confirmed = provenance-IsConfirmed platform command decided _ read;
            })

  accept_hire_body-Guarded : Guarded Storable (accept_hire_body platform driver command decided)
  unfolding accept_hire_body
  accept_hire_body-Guarded =
      Guarded->>= Storable _ _ (begin-Guarded platform driver Storable _) λ b1 m1 done e1.
        Guarded->>= Storable _ _ replayed_hire-Guarded λ b2 m2 replayed e2.
          let (replay, t) = replayed_hire-returned platform driver command decided b2 e2 in
          answer_hire-Guarded replayed replay

  -- However the body of the transaction ends, with a result or with an exception anywhere on its
  -- path: if it has executed a statement that inserts, the database had answered that the key of
  -- the hire is free, and with one row of the sealed decision that confirms the hire, for the same
  -- actor and purpose and not after the transaction or the effective date.
  pub accept_hire_body-guarded :
      (store : S) (session : Session S) (outcome : Result ServiceError HireAcceptanceResult)
      → accept_hire_body platform driver command decided (record { trace = []; store = store })
        ≡ (session, outcome)
      → (s : Statement) → Memᴰ s session.trace
      → inserts s ≡ true
      → IsStorableHire platform driver command decided
  accept_hire_body-guarded store session outcome h s m i =
      accept_hire_body-Guarded (record { trace = []; store = store }) session outcome h
        (λ s m i. elim m [ ]) s m i
