-- ===== src/Base/Regex.antt =====
-- Regular expressions over code points, matched by derivatives: `pattern.fullmatch(text)`.
use Prim.Native.Char.{code}
use Prim.Native.Nat.{ℕ}
use Prim.Native.String.{String}
use mathlib.Core.Bool.{Bool, true, false, ◌&&◌, ◌||◌}
use mathlib.Core.List.{List, [], ◌∷◌}
use orgmetra.Base.Tests.{ltb, leb, ◌==◌, if◌then◌else◌}

-- `cls` is a class of characters; an optional part is `alt r eps`.
pub data Regex : Type 0 where
  void eps : Regex
  cls : (ℕ → Bool) → Regex
  seq alt : Regex → Regex → Regex
  star : Regex → Regex

abbrev pub codes : String → List ℕ
codes String.[] = []
codes (String.◌∷◌ c s) = code c ∷ codes s

unfoldable pub nullable : Regex → Bool
nullable void = false
nullable eps = true
nullable (cls p) = false
nullable (seq r s) = nullable r && nullable s
nullable (alt r s) = nullable r || nullable s
nullable (star r) = true

-- What may follow the character.
unfoldable pub derivative : ℕ → Regex → Regex
unfolding nullable
derivative c void = void
derivative c eps = void
derivative c (cls p) = if p c then eps else void
derivative c (seq r s) =
    let first = seq (derivative c r) s in
    let second = derivative c s in if nullable r then alt first second else first
derivative c (alt r s) = alt (derivative c r) (derivative c s)
derivative c (star r) = seq (derivative c r) (star r)

unfoldable pub match_codes : Regex → List ℕ → Bool
unfolding derivative nullable
match_codes r [] = nullable r
match_codes r (c ∷ cs) = match_codes (derivative c r) cs

unfoldable pub full_match : Regex → String → Bool
unfolding match_codes
full_match r s = match_codes r (codes s)

-- The order of texts, by code points.
abbrev pub codes_lt : List ℕ → List ℕ → Bool
codes_lt cs [] = false
codes_lt [] (d ∷ ds) = true
codes_lt (c ∷ cs) (d ∷ ds) = if ltb c d then true else if c == d then codes_lt cs ds else false

-- `not value.strip()`, where the test is Python's white space.
abbrev pub is_blank : (ℕ → Bool) → List ℕ → Bool
is_blank is_space [] = true
is_blank is_space (c ∷ cs) = is_space c && is_blank is_space cs

abbrev pub in_range : ℕ → ℕ → ℕ → Bool
in_range lo hi c = leb lo c && leb c hi

-- `[a-z]`, `[a-z0-9]`, `[a-z0-9_]`, `[A-Za-z0-9]`
abbrev pub lower_letter : Regex
lower_letter = cls (in_range b'a' b'z')

abbrev pub lower_or_digit : Regex
lower_or_digit = cls (λ c. in_range b'a' b'z' c || in_range b'0' b'9' c)

abbrev pub lower_digit_or_underscore : Regex
lower_digit_or_underscore = cls (λ c. in_range b'a' b'z' c || in_range b'0' b'9' c || c == b'_')

abbrev pub is_alphanumeric : ℕ → Bool
is_alphanumeric c = in_range b'A' b'Z' c || in_range b'a' b'z' c || in_range b'0' b'9' c

abbrev pub one_code : ℕ → Regex
one_code k = cls (λ c. c == k)

abbrev pub plus : Regex → Regex
plus r = seq r (star r)

-- `_[a-z0-9]+`
abbrev pub underscore_word : Regex
underscore_word = seq (one_code b'_') (plus lower_or_digit)

-- `^[a-z][a-z0-9]*(?:_[a-z0-9]+)*$`
abbrev pub code_pattern : Regex
code_pattern = seq lower_letter (seq (star lower_or_digit) (star underscore_word))

-- `^[a-z][a-z0-9]*(?:_[a-z0-9]+)+$`
abbrev pub two_word_pattern : Regex
two_word_pattern = seq lower_letter (seq (star lower_or_digit) (plus underscore_word))

-- `\.[a-z][a-z0-9_]*`
abbrev pub dot_segment : Regex
dot_segment = seq (one_code b'.') (seq lower_letter (star lower_digit_or_underscore))

abbrev pub literal : List ℕ → Regex
literal [] = eps
literal (c ∷ cs) = seq (one_code c) (literal cs)

-- `^orgmetra(?:\.[a-z][a-z0-9_]*){2,}$`
abbrev pub scope_pattern : Regex
scope_pattern = seq (literal (codes "orgmetra")) (seq dot_segment (plus dot_segment))

-- `^[a-z][a-z0-9_]*:[A-Za-z0-9][A-Za-z0-9._~-]*$`
abbrev pub reference_pattern : Regex
reference_pattern = seq lower_letter (
    seq (star lower_digit_or_underscore) (
      seq (one_code b':') (
        seq (cls is_alphanumeric) (
          star
            (cls (λ c. is_alphanumeric c || c == b'.' || c == b'_' || c == b'~' || c == b'-'))))))

-- `^[A-Za-z0-9][A-Za-z0-9._:-]*$`
abbrev pub version_pattern : Regex
version_pattern =
    seq (cls is_alphanumeric)
      (star (cls (λ c. is_alphanumeric c || c == b'.' || c == b'_' || c == b':' || c == b'-')))
