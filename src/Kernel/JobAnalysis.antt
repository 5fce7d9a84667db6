-- ===== src/Kernel/JobAnalysis.antt =====
-- packages/hris-kernel/src/orgmetra_hris_kernel/job_analysis.py: the checks of one value, and the
-- evidence records with their constructors.
--
-- A constructor argument is a dynamic value. `is_space` is Python's table of white space, and
-- `urlsplit` the library's function: what the code reads of its result, or its ValueError.
-- Normalized text is its code points.
pub mod Evidence
pub mod Snapshot
use orgmetra.Base.{
  ℕ, String, Bool, true, false, not, ◌&&◌, ◌||◌, List, [], ◌∷◌, ◌++◌, length, any_of, ltb, leb,
  ◌==◌, str_eq, if◌then◌else◌, Result, ok, err, ◌>>=◌, ◌>>◌, guard,
}
use orgmetra.Base.Int.{ℤ, pos, negsuc}
use orgmetra.Base.Regex.{
  seq, star, cls, plus, one_code, lower_letter, lower_digit_or_underscore, is_alphanumeric,
  in_range, Regex, codes, full_match, two_word_pattern, version_pattern,
}
use orgmetra.Base.Uuid.{concat, max_uuid}
use orgmetra.Kernel.Errors.{Error, value_error}
use orgmetra.Kernel.Intervals.{Datetime, is_naive, has_offset}

-- `whole` is an integer that is not a bool.
pub data Value : Type 0 where
  uuid : ℕ → Value
  text : String → Value
  whole : ℤ → Value
  flag : Bool → Value
  day : ℕ → Value
  stamp : Datetime → Value
  other : Value

-- `^[a-z][a-z0-9_]*:[A-Za-z0-9._~-]+$`
abbrev pub subject_pattern : Regex
subject_pattern = seq lower_letter (
    seq (star lower_digit_or_underscore) (
      seq (one_code b':')
        (plus (cls (λ c. is_alphanumeric c || c == b'.' || c == b'_' || c == b'~' || c == b'-')))))

-- `^[0-9a-f]{64}$`
abbrev pub is_sha256 : String → Bool
is_sha256 s =
    (length (codes s) == 64)
    && not (any_of (λ c. not (in_range b'0' b'9' c || in_range b'a' b'f' c)) (codes s))

abbrev pub allowed_origins : List String
allowed_origins =
    "authoritative_occupation_source" ∷ "job_incumbent" ∷ "supervisor_sme" ∷ "occupational_expert"
    ∷ "web_research" ∷ "llm_draft" ∷ []

abbrev pub allowed_ksao_categories : List String
allowed_ksao_categories =
    "knowledge_requirement" ∷ "skill_requirement" ∷ "ability_requirement" ∷ "other_characteristic"
    ∷ []

-- The messages begin with the name of the field.
abbrev pub fault : String → String → Error
fault field_name message = value_error (concat field_name message)

unfoldable pub validate_uuid : Value → String → Result Error ℕ
validate_uuid (uuid n) field_name =
    if n == 0
    then err (fault field_name " must not be the nil UUID")
    else if n == max_uuid
    then err (fault field_name " must not be the max UUID")
    else ok n
validate_uuid _ field_name = err (fault field_name " must be a UUID")

-- A text that the pattern matches.
abbrev pub validate_matching : Regex → String → Value → String → Result Error String
validate_matching pattern message (text s) field_name =
    if full_match pattern s then ok s else err (fault field_name message)
validate_matching pattern message _ field_name = err (fault field_name " must be a string")

unfoldable pub validate_code : Value → String → Result Error String
validate_code = validate_matching two_word_pattern " must be a two-or-more-word snake_case code"

unfoldable pub validate_reference : Value → String → Result Error String
validate_reference = validate_matching subject_pattern " must be a namespaced opaque reference"

unfoldable pub validate_version : Value → String → Result Error String
validate_version = validate_matching version_pattern " must be a compact version token"

unfoldable pub validate_level : Value → String → Result Error ℕ
validate_level (whole (pos n)) field_name =
    if leb 1 n && leb n 5 then ok n else err (fault field_name " must be between 1 and 5")
validate_level (whole (negsuc n)) field_name = err (fault field_name " must be between 1 and 5")
validate_level _ field_name = err (fault field_name " must be an integer")

unfoldable pub validate_aware_datetime : Value → String → Result Error Datetime
validate_aware_datetime (stamp t) field_name =
    if is_naive t
    then err (fault field_name " must be timezone-aware")
    else if not (has_offset t)
    then err (fault field_name " must resolve to a UTC offset")
    else ok t
validate_aware_datetime _ field_name = err (fault field_name " must be a datetime")

-- A worker-function code: an integer from 0 to a maximum; its message ends in the maximum's text.
unfoldable pub validate_function : ℕ → String → Value → String → Result Error ℕ
validate_function maximum shown (whole (pos n)) field_name =
    if leb n maximum then ok n else err (fault field_name (concat " must be between 0 and " shown))
validate_function maximum shown (whole (negsuc n)) field_name =
    err (fault field_name (concat " must be between 0 and " shown))
validate_function maximum shown _ field_name = err (fault field_name " must be an integer")

-- What the code reads of the result of `urlsplit`.
pub record SplitUrl : Type 0 where
  pub scheme : String
  pub has_hostname : Bool
  pub has_username : Bool
  pub has_password : Bool

pub record EvidenceSource : Type 0 where
  pub source_uri : String
  pub source_title : List ℕ
  pub source_version_code : String
  pub retrieved_at : Datetime
  pub content_digest_sha256 : String
  pub origin_code : String

pub record TaskEvidence : Type 0 where
  pub tenant_record_id : ℕ
  pub job_record_id : ℕ
  pub task_record_id : ℕ
  pub task_statement : List ℕ
  pub importance_level : ℕ
  pub difficulty_level : ℕ
  pub source : EvidenceSource

pub record KsaoRequirement : Type 0 where
  pub tenant_record_id : ℕ
  pub job_record_id : ℕ
  pub ksao_record_id : ℕ
  pub category_code : String
  pub requirement_statement : List ℕ
  pub importance_level : ℕ
  pub proficiency_level : ℕ
  pub source : EvidenceSource

pub record FunctionalJobAnalysisProfile : Type 0 where
  pub tenant_record_id : ℕ
  pub job_record_id : ℕ
  pub data_function_code : ℕ
  pub people_function_code : ℕ
  pub things_function_code : ℕ
  pub source : EvidenceSource

pub record TaskKsaoLink : Type 0 where
  pub task_record_id : ℕ
  pub ksao_record_id : ℕ
  pub relationship_strength : ℕ
  pub essential_for_task : Bool
