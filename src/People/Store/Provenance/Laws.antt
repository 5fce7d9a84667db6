-- ===== src/People/Store/Provenance/Laws.antt =====
-- What the row of a confirmed decision holds, when it is accepted.
use orgmetra.Base.{
  some, ◌==◌, subst, ℕ, String, ◌≡◌, sym, ap, ◌≤◌, Bool, true, not, List, [], ◌∷◌, Result, ok, err,
  guard, str_eq, eq_iff, ltb, guard-eq-ok, >>=-ok_elim, ok_kept, arith,
}
use orgmetra.Base.Regex.{full_match, reference_pattern}
use orgmetra.Kernel.Errors.{Error as KernelError}
use orgmetra.Keyverse.Authorization.{AuthorizationDecision}
use orgmetra.Kernel.Intervals.{Datetime, has_offset, lt_datetime}
use orgmetra.Kernel.Values.{Cell, uuid, text, day, stamp, decimal, flag, nothing, other}
use orgmetra.People.Errors.{ServiceError}
use orgmetra.People.Hire.{HireAcceptanceResult, HireAcceptanceCommand}
use orgmetra.People.Digest.{Platform}
use orgmetra.People.Store.{Row}
use orgmetra.People.Store.Session.{from_kernel}
use orgmetra.People.Store.Rows.{cell_text, operational_uuid, aware_datetime}
use orgmetra.People.Store.Rows.Laws.{IsOperational}
use orgmetra.People.Store.Provenance.{
  invalid_hire_row, other_hire, other_conversion, hire_result, hire_replayed_from_rows, not_a_hire,
  other_actor, other_purpose, invalid_evidence, invalid_timestamps, too_early, effective_too_early,
  Provenance, is_text, confirmation_of, provenance_from_rows,
}

is_text-eq : (cell : Cell) (s : String) → is_text cell s ≡ true → cell ≡ text s
is_text-eq (text t) s h = ap text ((eq_iff t s).0 h)
is_text-eq (uuid n) s h = cc
is_text-eq (day d) s h = cc
is_text-eq (stamp t) s h = cc
is_text-eq (decimal q) s h = cc
is_text-eq (flag b) s h = cc
is_text-eq nothing s h = cc
is_text-eq other s h = cc

confirmation_of-ok :
    (cell : Cell) {s : String}
    → confirmation_of cell ≡ ok s
    → (cell ≡ text s) × (full_match reference_pattern s ≡ true)
confirmation_of-ok (text t) h = ground arith
confirmation_of-ok (uuid n) h = cc
confirmation_of-ok (day d) h = cc
confirmation_of-ok (stamp t) h = cc
confirmation_of-ok (decimal q) h = cc
confirmation_of-ok (flag b) h = cc
confirmation_of-ok nothing h = cc
confirmation_of-ok other h = cc

operational_uuid-ok :
    (e : ServiceError) (cell : Cell) {n : ℕ}
    → operational_uuid e cell ≡ ok n
    → (cell ≡ uuid n) × IsOperational n
unfolding operational_uuid
operational_uuid-ok e (uuid m) h =
    (ground arith, record { not_nil = λ q. ground arith; not_max = λ q. ground arith })
operational_uuid-ok e (text t) h = cc
operational_uuid-ok e (day d) h = cc
operational_uuid-ok e (stamp t) h = cc
operational_uuid-ok e (decimal q) h = cc
operational_uuid-ok e (flag b) h = cc
operational_uuid-ok e nothing h = cc
operational_uuid-ok e other h = cc

aware_datetime-ok :
    (e : ServiceError) (cell : Cell) {t : Datetime}
    → aware_datetime e cell ≡ ok t
    → (cell ≡ stamp t) × (has_offset t ≡ true)
unfolding aware_datetime
aware_datetime-ok e (stamp u) h = ground arith
aware_datetime-ok e (text t) h = cc
aware_datetime-ok e (day d) h = cc
aware_datetime-ok e (uuid n) h = cc
aware_datetime-ok e (decimal q) h = cc
aware_datetime-ok e (flag b) h = cc
aware_datetime-ok e nothing h = cc
aware_datetime-ok e other h = cc

from_kernel-ok : {A : Type 0} (m : Result KernelError A) {a : A} → from_kernel m ≡ ok a → m ≡ ok a
from_kernel-ok (ok b) h = ground arith
from_kernel-ok (err raised) h = cc

-- Neither instant is before the other's wall clock: both have an offset.
not_before :
    (a b : Datetime) (early : Bool)
    → has_offset a ≡ true
    → has_offset b ≡ true
    → lt_datetime a b ≡ ok early
    → not early ≡ true
    → b.ticks ≤ a.ticks
unfolding lt_datetime
not_before a b early aware_a aware_b h late = ground arith

-- The one row of a decision that confirms a hire, and what its cells are for the command.
pub record IsConfirmed (platform : Platform) (command : HireAcceptanceCommand)
    (decision : AuthorizationDecision) (rows : List Row) (provenance : Provenance) : Type 0 where
  pub rows_are :
      rows
      ≡ (text decision.actor_reference
          ∷ text decision.purpose_code
          ∷ text "hire"
          ∷ text provenance.confirmation_reference
          ∷ stamp provenance.decided_at
          ∷ uuid provenance.evidence_set_id
          ∷ stamp provenance.recorded_at
          ∷ [])
        ∷ []
  pub confirmed : full_match reference_pattern provenance.confirmation_reference ≡ true
  pub sealed : IsOperational provenance.evidence_set_id
  pub aware : has_offset provenance.recorded_at ≡ true
  pub ordered : provenance.decided_at.ticks ≤ provenance.recorded_at.ticks
  pub effective : platform.date_of provenance.decided_at ≤ command.effective_from

module _ (platform : Platform) (command : HireAcceptanceCommand)
    (decision : AuthorizationDecision) where
  pub provenance-IsConfirmed :
      (rows : List Row) {provenance : Provenance}
      → provenance_from_rows platform command decision rows ≡ ok provenance
      → IsConfirmed platform command decision rows provenance
  unfolding provenance_from_rows
  provenance-IsConfirmed [] h = cc
  provenance-IsConfirmed (a ∷ b ∷ rows) h = cc
  provenance-IsConfirmed ([] ∷ []) h = cc
  provenance-IsConfirmed ((a ∷ []) ∷ []) h = cc
  provenance-IsConfirmed ((a ∷ b ∷ []) ∷ []) h = cc
  provenance-IsConfirmed ((a ∷ b ∷ c ∷ []) ∷ []) h = cc
  provenance-IsConfirmed ((a ∷ b ∷ c ∷ d ∷ []) ∷ []) h = cc
  provenance-IsConfirmed ((a ∷ b ∷ c ∷ d ∷ e ∷ []) ∷ []) h = cc
  provenance-IsConfirmed ((a ∷ b ∷ c ∷ d ∷ e ∷ f ∷ []) ∷ []) h = cc
  provenance-IsConfirmed ((a ∷ b ∷ c ∷ d ∷ e ∷ f ∷ g ∷ i ∷ more) ∷ []) h = cc
  provenance-IsConfirmed ((a ∷ b ∷ c ∷ d ∷ e ∷ f ∷ g ∷ []) ∷ []) {provenance} h =
      >>=-ok_elim (guard (is_text c "hire") not_a_hire) h λ u1 e1 h1.
        >>=-ok_elim (guard (is_text a decision.actor_reference) other_actor) h1 λ u2 e2 h2.
          >>=-ok_elim (guard (is_text b decision.purpose_code) other_purpose) h2 λ u3 e3 h3.
            >>=-ok_elim (confirmation_of d) h3 λ confirmation e4 h4.
              >>=-ok_elim (operational_uuid invalid_evidence f) h4 λ evidence e5 h5.
                >>=-ok_elim (aware_datetime invalid_timestamps e) h5 λ decided e6 h6.
                  >>=-ok_elim (aware_datetime invalid_timestamps g) h6 λ recorded e7 h7.
                    >>=-ok_elim (from_kernel (lt_datetime recorded decided)) h7 λ early e8 h8.
                      >>=-ok_elim (guard (not early) too_early) h8 λ u9 e9 h9.
                        >>=-ok_elim
                          (guard (not (ltb command.effective_from (platform.date_of decided)))
                            effective_too_early)
                          h9
                          λ u10 e10 h10.
                            let code = is_text-eq c "hire" (guard-eq-ok (is_text c "hire") _ e1) in
                            let actor =
                              is_text-eq a decision.actor_reference
                                (guard-eq-ok (is_text a decision.actor_reference) _ e2) in
                            let purpose =
                              is_text-eq b decision.purpose_code
                                (guard-eq-ok (is_text b decision.purpose_code) _ e3) in
                            let (confirmation_cell, matched) = confirmation_of-ok d e4 in
                            let (evidence_cell, operational) = operational_uuid-ok _ f e5 in
                            let (decided_cell, aware_decided) = aware_datetime-ok _ e e6 in
                            let (recorded_cell, aware_recorded) = aware_datetime-ok _ g e7 in
                            let late =
                              not_before recorded decided early aware_recorded aware_decided
                                (from_kernel-ok (lt_datetime recorded decided) e8)
                                (guard-eq-ok (not early) _ e9) in
                            let after_decision =
                              guard-eq-ok
                                (not (ltb command.effective_from (platform.date_of decided))) _
                                e10 in
                            let meant : Provenance = record {
                              confirmation_reference = confirmation;
                              decided_at = decided;
                              evidence_set_id = evidence;
                              recorded_at = recorded;
                            } in
                            let found : IsConfirmed platform command decision
                                ((a ∷ b ∷ c ∷ d ∷ e ∷ f ∷ g ∷ []) ∷ []) meant =
                              record {
                                rows_are = cc (
                                  code, actor, purpose, confirmation_cell, evidence_cell,
                                  decided_cell, recorded_cell,
                                );
                                confirmed = matched;
                                sealed = operational;
                                aware = aware_recorded;
                                ordered = late;
                                effective = ground arith;
                              } in
                            subst
                              (IsConfirmed platform command decision
                                ((a ∷ b ∷ c ∷ d ∷ e ∷ f ∷ g ∷ []) ∷ []))
                              (sym (ok_kept h10)) found

cell_text-ok :
    (e : ServiceError) (cell : Cell) {s : String} → cell_text e cell ≡ ok s → cell ≡ text s
cell_text-ok e (text t) h = ground arith
cell_text-ok e (uuid n) h = cc
cell_text-ok e (day d) h = cc
cell_text-ok e (stamp t) h = cc
cell_text-ok e (decimal q) h = cc
cell_text-ok e (flag b) h = cc
cell_text-ok e nothing h = cc
cell_text-ok e other h = cc

module _ (command : HireAcceptanceCommand) (digest : String) where
  -- A key that is bound to a hire has one row: the conversion of the command, under its digest.
  pub hire_replayed-bound :
      (rows : List Row) {result : HireAcceptanceResult}
      → hire_replayed_from_rows command digest rows ≡ ok (some result)
      → (rows ≡ (uuid command.candidate_worker_conversion_record_id ∷ text digest ∷ []) ∷ [])
        × (result ≡ hire_result command)
  unfolding hire_replayed_from_rows
  hire_replayed-bound [] h = cc
  hire_replayed-bound ([] ∷ r ∷ rows) h = cc
  hire_replayed-bound ((a ∷ []) ∷ r ∷ rows) h = cc
  hire_replayed-bound ((a ∷ b ∷ []) ∷ r ∷ rows) h = cc
  hire_replayed-bound ((a ∷ b ∷ c ∷ more) ∷ r ∷ rows) h = cc
  hire_replayed-bound ([] ∷ []) h = cc
  hire_replayed-bound ((a ∷ []) ∷ []) h = cc
  hire_replayed-bound ((a ∷ b ∷ c ∷ more) ∷ []) h = cc
  hire_replayed-bound ((a ∷ b ∷ []) ∷ []) {result} h =
      >>=-ok_elim (operational_uuid invalid_hire_row a) h λ created e1 h1.
        >>=-ok_elim (cell_text invalid_hire_row b) h1 λ stored e2 h2.
          >>=-ok_elim (guard (str_eq stored digest) other_hire) h2 λ u3 e3 h3.
            >>=-ok_elim
              (guard (created == command.candidate_worker_conversion_record_id) other_conversion) h3
              λ u4 e4 h4.
                let (created_cell, operational) = operational_uuid-ok _ a e1 in
                let digest_cell = cell_text-ok _ b e2 in
                let same_digest : stored ≡ digest =
                  (eq_iff stored digest).0 (guard-eq-ok (str_eq stored digest) _ e3) in
                let test : (created == command.candidate_worker_conversion_record_id) ≡ true =
                  guard-eq-ok (created == command.candidate_worker_conversion_record_id) _ e4 in
                let same : created ≡ command.candidate_worker_conversion_record_id = ground arith in
                (cc (created_cell, digest_cell, same_digest, same), cc (h4, same))
