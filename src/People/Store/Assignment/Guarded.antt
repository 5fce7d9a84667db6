-- ===== src/People/Store/Assignment/Guarded.antt =====
-- `create_assignment` of postgres_mutations.py, however it ends: no insert before the check.
use mathlib.Core.List.{Memᴰ}
use orgmetra.Base.{ℕ, ◌≡◌, refl, true, Option, none, some, [], Result}
use orgmetra.Keyverse.Authorization.{AuthorizationDecision}
use orgmetra.Kernel.Intervals.{Datetime}
use orgmetra.People.Errors.{ServiceError}
use orgmetra.People.Commands.Assignment.{
  AssignmentMutationCommand, AssignmentMutationResult, assignment,
}
use orgmetra.People.Digest.{Platform}
use orgmetra.People.Store.{Driver, Statement}
use orgmetra.People.Store.Session.{Session}
use orgmetra.People.Store.Guarded.{
  inserts, Guarded, Guarded-lift, Guarded-return, Guarded-execute, Guarded->>=, Guarded-of,
}
use orgmetra.People.Store.Writes.Laws.{IsReplay, replayed_record_id-returned}
use orgmetra.People.Store.Writes.Guarded.{begin-Guarded, replayed_record_id-Guarded, clock-Guarded}
use orgmetra.People.Store.Assignment.{check_assignment, answer_assignment, create_assignment_body}
use orgmetra.People.Store.Assignment.Check.{IsCheckedAssignment, check_assignment-returned}

module _ (platform : Platform) {S : Type 0} (driver : Driver S)
    (command : AssignmentMutationCommand) where
  check_assignment-Guarded : (P : Type 0) → Guarded P (check_assignment platform driver command)
  unfolding check_assignment
  check_assignment-Guarded P = Guarded->>= P _ _ (Guarded-execute P driver _ refl) λ b1 m1 a1 e1.
      Guarded->>= P _ _ (Guarded-lift P _) λ b2 m2 a2 e2.
        Guarded->>= P _ _ (Guarded-execute P driver _ refl) λ b3 m3 a3 e3.
          Guarded->>= P _ _ (Guarded-lift P _) λ b4 m4 a4 e4.
            Guarded->>= P _ _ (Guarded-execute P driver _ refl) λ b5 m5 a5 e5.
              Guarded->>= P _ _ (Guarded-lift P _) λ b6 m6 a6 e6.
                Guarded->>= P _ _ (clock-Guarded platform driver P) λ b7 m7 a7 e7.
                  Guarded->>= P _ _ (Guarded-execute P driver _ refl) λ b8 m8 a8 e8.
                    Guarded->>= P _ _ (Guarded-lift P _) λ b9 m9 a9 e9.
                      Guarded->>= P _ _ (Guarded-lift P _) λ b10 m10 a10 e10.
                        Guarded->>= P _ _ (Guarded-lift P _) λ b11 m11 a11 e11. Guarded-return P _

  module _ (decision : AuthorizationDecision) where
    -- The key is free, and the rule of the kernel accepts the assignment at the instant of the
    -- clock, over what the database answered.
    abbrev pub Insertable : Type 0
    Insertable =
        IsReplay platform driver (assignment command) decision none
        × (recorded_at : Datetime) × IsCheckedAssignment driver command recorded_at

    answer_assignment-Guarded :
        (replayed : Option ℕ)
        → IsReplay platform driver (assignment command) decision replayed
        → Guarded Insertable (answer_assignment platform driver command decision replayed)
    unfolding answer_assignment
    answer_assignment-Guarded (some created) replay = Guarded-return Insertable _
    answer_assignment-Guarded none replay =
        Guarded->>= Insertable _ _ (check_assignment-Guarded Insertable)
          λ before middle recorded_at e.
            let (checked, t) = check_assignment-returned platform driver command before e in
            Guarded-of Insertable _ (replay, recorded_at, checked)

    create_assignment_body-Guarded :
        Guarded Insertable (create_assignment_body platform driver command decision)
    unfolding create_assignment_body
    create_assignment_body-Guarded =
        Guarded->>= Insertable _ _ (begin-Guarded platform driver Insertable _) λ b1 m1 done e1.
          Guarded->>= Insertable _ _
            (replayed_record_id-Guarded platform driver Insertable _ decision)
            λ b2 m2 replayed e2.
              let (replay, t) =
                replayed_record_id-returned platform driver (assignment command) decision b2 e2 in
              answer_assignment-Guarded replayed replay

    -- However the body of the transaction ends, with a result or with an exception anywhere on its
    -- path: if it has executed a statement that inserts, the database had answered that the key of
    -- the command is free, the conversion, the versions, the assignments and the instant of the
    -- clock, and the rule of the kernel had accepted the proposed assignment over them.
    pub create_assignment_body-guarded :
        (store : S) (session : Session S) (outcome : Result ServiceError AssignmentMutationResult)
        → create_assignment_body platform driver command decision
            (record { trace = []; store = store })
          ≡ (session, outcome)
        → (s : Statement) → Memᴰ s session.trace
        → inserts s ≡ true
        → Insertable
    create_assignment_body-guarded store session outcome h s m i =
        create_assignment_body-Guarded (record { trace = []; store = store }) session outcome h
          (λ s m i. elim m [ ]) s m i
