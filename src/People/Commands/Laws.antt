-- ===== src/People/Commands/Laws.antt =====
-- What a validated assignment command promises to the kernel.
use native.Mathlib.Omega.{pow_step}
use native.Mathlib.Nat.{one-le-mul}
use orgmetra.Base.{sym, subst, zero, suc, ℕ, ◌≡◌, ◌≤◌, ◌*◌, ◌^◌, true, ok, arith, >>=-eq-ok}
use orgmetra.Base.Int.{ℤ, pos, negsuc}
use orgmetra.Kernel.Assignment.{ratio_is_valid}
use orgmetra.People.Commands.{
  validate_idempotency_key, validate_evidence_version, validate_confirmation,
  validate_effective_from, validate_operational_uuid, Argument, uuid, day, text, decimal,
  not_finite, moment, other,
}
use orgmetra.People.Commands.Ratio.{validate_allocation_ratio}
use orgmetra.People.Commands.Assignment.{AssignmentMutationCommand, assignment_mutation_command}

positive_power : (n : ℕ) → 1 ≤ 10 ^ n
positive_power zero = omega arith
positive_power (suc n) = rw (pow_step 10 n) (omega (arith, positive_power n))

whole : (t : ℕ) → 1 ≤ t → t ≤ 1 → ratio_is_valid (pos (t * 10000)) ≡ true
unfolding ratio_is_valid
whole t p q = ground arith

-- What the checks leave is a ratio of the kernel.
pub allocation_ratio-valid :
    (a : Argument) {r : ℤ} → validate_allocation_ratio a ≡ ok r → ratio_is_valid r ≡ true
unfolding validate_allocation_ratio ratio_is_valid
allocation_ratio-valid (decimal negative digits (pos n)) {r} h =
    let same : r ≡ pos (digits * 10 ^ n * 10000) = ground arith in
    let positive : 1 ≤ digits = ground arith in
    let bounded : digits * 10 ^ n ≤ 1 = ground arith in
    subst (λ z. ratio_is_valid z ≡ true) (sym same)
      (whole (digits * 10 ^ n) (one-le-mul positive (positive_power n)) bounded)
allocation_ratio-valid (decimal negative digits (negsuc zero)) h = ground arith
allocation_ratio-valid (decimal negative digits (negsuc (suc zero))) h = ground arith
allocation_ratio-valid (decimal negative digits (negsuc (suc (suc zero)))) h = ground arith
allocation_ratio-valid (decimal negative digits (negsuc (suc (suc (suc zero))))) h = ground arith
allocation_ratio-valid (decimal negative digits (negsuc (suc (suc (suc (suc n)))))) h = ground arith
allocation_ratio-valid not_finite h = cc
allocation_ratio-valid (uuid n) h = cc
allocation_ratio-valid (day n) h = cc
allocation_ratio-valid (text s) h = cc
allocation_ratio-valid moment h = cc
allocation_ratio-valid other h = cc

-- A command that was accepted has an allocation ratio that the rules of the kernel accept.
pub command-ratio_is_valid :
    (tenant employment_id person position_id assignment_id event delivery ratio start confirmation
      evidence key : Argument)
    {c : AssignmentMutationCommand}
    → assignment_mutation_command tenant employment_id person position_id assignment_id event
        delivery ratio start confirmation evidence key
      ≡ ok c
    → ratio_is_valid c.allocation_ratio ≡ true
unfolding assignment_mutation_command
command-ratio_is_valid tenant employment_id person position_id assignment_id event delivery ratio
      start confirmation evidence key {c} h =
    let (x1, e1, h1) = >>=-eq-ok (validate_operational_uuid "tenant_record_id" tenant) _ h in
    let (x2, e2, h2) =
      >>=-eq-ok (validate_operational_uuid "employment_record_id" employment_id) _ h1 in
    let (x3, e3, h3) = >>=-eq-ok (validate_operational_uuid "person_record_id" person) _ h2 in
    let (x4, e4, h4) =
      >>=-eq-ok (validate_operational_uuid "position_record_id" position_id) _ h3 in
    let (x5, e5, h5) =
      >>=-eq-ok (validate_operational_uuid "assignment_record_id" assignment_id) _ h4 in
    let (x6, e6, h6) = >>=-eq-ok (validate_operational_uuid "audit_event_record_id" event) _ h5 in
    let (x7, e7, h7) =
      >>=-eq-ok (validate_operational_uuid "outbox_delivery_record_id" delivery) _ h6 in
    let (x8, e8, h8) = >>=-eq-ok (validate_effective_from start) _ h7 in
    let (x9, e9, h9) = >>=-eq-ok (validate_allocation_ratio ratio) _ h8 in
    let (x10, e10, h10) = >>=-eq-ok (validate_confirmation confirmation) _ h9 in
    let (x11, e11, h11) = >>=-eq-ok (validate_evidence_version evidence) _ h10 in
    let (x12, e12, h12) = >>=-eq-ok (validate_idempotency_key key) _ h11 in
    let same : x9 ≡ c.allocation_ratio = ground arith in
    subst (λ r. ratio_is_valid r ≡ true) same (allocation_ratio-valid ratio e9)
