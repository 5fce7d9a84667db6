-- ===== src/People/Commands/Ratio.antt =====
-- The allocation ratio of services/people-api/src/orgmetra_people_api/mutations.py: the checks of a
-- command on its Decimal, and the parser of the request's text.
use orgmetra.Base.{
  ℕ, ◌+◌, ◌-◌, ◌*◌, ◌^◌, String, Bool, false, not, ◌||◌, List, [], ◌∷◌, ltb, ◌==◌, if◌then◌else◌,
  Result, ok, err, ◌>>◌, guard,
}
use orgmetra.Base.Int.{ℤ, pos, negsuc}
use orgmetra.Base.Regex.{Regex, codes, full_match, in_range, seq, alt, cls, literal}
use orgmetra.Keyverse.Validation.{Error, value_error}
use orgmetra.People.Commands.{Argument, decimal, not_finite, text}

-- `value <= Decimal("0")`
abbrev pub is_not_positive : Bool → ℕ → Bool
is_not_positive negative digits = negative || digits == 0

-- `value > Decimal("1.0000")`, for a value that is not negative.
abbrev pub exceeds_one : ℕ → ℤ → Bool
exceeds_one digits (pos n) = ltb 1 (digits * 10 ^ n)
exceeds_one digits (negsuc n) = ltb (10 ^ (n + 1)) digits

-- `value.as_tuple().exponent < -4`
abbrev pub is_too_fine : ℤ → Bool
is_too_fine (pos n) = false
is_too_fine (negsuc n) = ltb 4 (n + 1)

-- The value in ten-thousandths, where it is not negative and its exponent is at least -4.
abbrev pub ten_thousandths : ℕ → ℤ → ℕ
ten_thousandths digits (pos n) = digits * 10 ^ n * 10000
ten_thousandths digits (negsuc n) = digits * 10 ^ (3 - n)

abbrev pub ratio_error : String → Error
ratio_error = value_error "allocation_ratio"

-- The ratio of an accepted argument, in ten-thousandths.
unfoldable pub validate_allocation_ratio : Argument → Result Error ℤ
validate_allocation_ratio (decimal negative digits exponent) = do
  guard (not (is_not_positive negative digits || exceeds_one digits exponent))
      (ratio_error "must be greater than 0 and at most 1.0000.")
  guard (not (is_too_fine exponent)) (ratio_error "must have at most four decimal places.")
  ok (pos (ten_thousandths digits exponent))
validate_allocation_ratio not_finite = err (ratio_error "must be finite.")
validate_allocation_ratio _ = err (ratio_error "must be a Decimal.")

abbrev pub digit : Regex
digit = cls (in_range b'0' b'9')

-- `^(0\.[0-9]{4}|1\.0000)$`
abbrev pub ratio_pattern : Regex
ratio_pattern =
    alt (seq (literal (codes "0.")) (seq digit (seq digit (seq digit digit))))
      (literal (codes "1.0000"))

-- The number that the decimal digits among the characters spell, after one that was read.
unfoldable pub spelled : ℕ → List ℕ → ℕ
spelled read [] = read
spelled read (c ∷ cs) = if c == b'.' then spelled read cs else spelled (read * 10 + (c - b'0')) cs

-- `Decimal(raw_value)` of a text in that form has four places.
unfoldable pub parse_allocation_ratio : Argument → Result Error Argument
unfolding spelled
parse_allocation_ratio (text raw) =
    if full_match ratio_pattern raw
    then ok (decimal false (spelled 0 (codes raw)) (negsuc 3))
    else err (ratio_error "must match 0.0001-1.0000 four-decimal form.")
parse_allocation_ratio _ = err (ratio_error "must match 0.0001-1.0000 four-decimal form.")
