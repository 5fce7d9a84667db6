-- ===== src/People/Store/Writes/Guarded.antt =====
-- The steps that the writes of postgres_mutations.py share and that insert nothing.
use orgmetra.Base.{ℕ, refl}
use orgmetra.Keyverse.Authorization.{AuthorizationDecision}
use orgmetra.People.Commands.Assignment.{Command}
use orgmetra.People.Digest.{Platform}
use orgmetra.People.Store.{Driver}
use orgmetra.People.Store.Guarded.{
  Guarded, Guarded-lift, Guarded-execute, Guarded-perform, Guarded->>=,
}
use orgmetra.People.Store.Writes.{replayed_record_id, post_lock_recorded_at, begin}

module _ (platform : Platform) {S : Type 0} (driver : Driver S) (P : Type 0) where
  pub begin-Guarded : (tenant : ℕ) → Guarded P (begin platform driver tenant)
  begin-Guarded tenant =
      Guarded->>= P _ _ (Guarded-perform P driver _ refl)
        λ before middle done e. Guarded-perform P driver _ refl

  pub replayed_record_id-Guarded :
      (command : Command) (decision : AuthorizationDecision)
      → Guarded P (replayed_record_id platform driver command decision)
  unfolding replayed_record_id
  replayed_record_id-Guarded command decision = Guarded->>= P _ _ (Guarded-lift P _) λ b1 m1 key e1.
      Guarded->>= P _ _ (Guarded-lift P _) λ b2 m2 digest e2.
        Guarded->>= P _ _ (Guarded-perform P driver _ refl) λ b3 m3 done e3.
          Guarded->>= P _ _ (Guarded-execute P driver _ refl) λ b4 m4 rows e4. Guarded-lift P _

  pub clock-Guarded : Guarded P (post_lock_recorded_at platform driver)
  unfolding post_lock_recorded_at
  clock-Guarded =
      Guarded->>= P _ _ (Guarded-execute P driver _ refl) λ before middle rows e. Guarded-lift P _
