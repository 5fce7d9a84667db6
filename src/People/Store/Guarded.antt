-- ===== src/People/Store/Guarded.antt =====
-- Which statements of the adapters in services/people-api/src/orgmetra_people_api insert, and what
-- has to hold before the first of them is executed, on the paths that raise too.
use mathlib.Core.List.{Memᴰ}
use orgmetra.Base.{
  ◌≡◌, refl, sym, ap, subst, Bool, true, false, List, ◌∷◌, Result, ok, err, mem-cons_cases, inl,
  inr,
}
use orgmetra.People.Errors.{ServiceError, Outcome}
use orgmetra.People.Store.{
  Statement, Row, Driver, insert_key, insert_employment, insert_employment_version, insert_position,
  insert_position_version, insert_assignment, insert_person, insert_person_name,
  insert_hired_version, insert_conversion, record_audit,
}
use orgmetra.People.Store.Session.{Session, Tx, ◌>>=◌, lift, return, execute, perform}

-- The statements that add rows.
abbrev pub inserts : Statement → Bool
inserts (insert_key tenant id route key digest created) = true
inserts (insert_employment tenant employment person at) = true
inserts (insert_employment_version tenant version employment status concurrency day at) = true
inserts (insert_position tenant position unit profile at) = true
inserts (insert_position_version tenant version position status day at) = true
inserts (insert_assignment tenant assignment employment person position ratio day at) = true
inserts (insert_person tenant person at) = true
inserts (insert_person_name tenant name person display day at) = true
inserts (insert_hired_version tenant version employment status day at) = true
inserts (insert_conversion tenant id candidate person employment decision event day at) = true
inserts (record_audit tenant event delivery envelope digest topic) = true
inserts _ = false

-- An inserting statement of the trace shows P.
abbrev pub Shows : Type 0 → List Statement → Type 0
Shows P trace = (s : Statement) → Memᴰ s trace → inserts s ≡ true → P

module _ {S : Type 0} (P : Type 0) where
  -- However the step ends, it has executed no insert unless P holds.
  abbrev pub Guarded : {A : Type 0} → Tx S A → Type 0
  Guarded {A} step =
      (before after : Session S) (outcome : Result ServiceError A)
      → step before ≡ (after, outcome)
      → Shows P before.trace
      → Shows P after.trace

  pub Guarded-lift : {A : Type 0} (result : Result ServiceError A) → Guarded (lift result)
  Guarded-lift {A} result before after outcome h shown =
      let same : before ≡ after = ap (λ (r : Outcome (Session S) A). r.0) h in rw same at shown

  pub Guarded-return : {A : Type 0} (a : A) → Guarded (return a)
  Guarded-return {A} a before after outcome h shown =
      let same : before ≡ after = ap (λ (r : Outcome (Session S) A). r.0) h in rw same at shown

  pub Guarded-execute :
      (driver : Driver S) (statement : Statement)
      → inserts statement ≡ false
      → Guarded (execute driver statement)
  unfolding execute
  Guarded-execute driver statement reads before after outcome h shown s m i =
      let t : statement ∷ before.trace ≡ after.trace =
        ap (λ (r : Outcome (Session S) (List Row)). r.0.trace) h in
      elim (mem-cons_cases (subst (Memᴰ s) (sym t) m)) [
        | inl here ↦ cc (ap inserts here)
        | inr there ↦ shown s there i
      ]

  -- What follows a step may use that the step returned.
  pub Guarded->>= :
      {A B : Type 0} (step : Tx S A) (next : A → Tx S B)
      → Guarded step
      → ((before middle : Session S) (a : A) → step before ≡ (middle, ok a) → Guarded (next a))
      → Guarded (step >>= next)
  unfolding ◌>>=◌
  Guarded->>= {A = A} {B = B} step next first rest before after outcome h shown =
      by_result (step before) refl h
    where
      by_result :
          (r : Outcome (Session S) A)
          → step before ≡ r
          → (elim (r.1) as (λ x. Outcome (Session S) B) [
            | ok value ↦ next value r.0
            | err raised ↦ (r.0, err raised)
          ])
            ≡ (after, outcome)
          → Shows P after.trace
      by_result (middle, ok a) e q =
          rest before middle a e middle after outcome q (first before middle (ok a) e shown)
      by_result (middle, err raised) e q =
          let same : middle ≡ after = ap (λ (r : Outcome (Session S) B). r.0) q in
          let shown' = first before middle (err raised) e shown in rw same at shown'

  pub Guarded-perform :
      (driver : Driver S) (statement : Statement)
      → inserts statement ≡ false
      → Guarded (perform driver statement)
  Guarded-perform driver statement reads =
      Guarded->>= _ _ (Guarded-execute driver statement reads)
        λ before middle rows e. Guarded-return tt

  -- Once P holds, any step is guarded.
  pub Guarded-of : {A : Type 0} (step : Tx S A) → P → Guarded step
  Guarded-of step p before after outcome h shown s m i = p
