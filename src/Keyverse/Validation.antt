-- ===== src/Keyverse/Validation.antt =====
-- The `_validate_…` helpers of
-- packages/keyverse-adapter/src/orgmetra_keyverse_adapter/authorization.py.
--
-- A constructor argument is a dynamic value; the helpers hand on what they accepted. A ValueError
-- carries the field that it names and the rule that was broken.
use orgmetra.Base.{
  ℕ, String, Bool, true, false, not, ◌&&◌, ◌||◌, Option, none, some, List, [], ◌∷◌, ◌==◌,
  if◌then◌else◌, Result, ok, err, ◌>>=◌, ◌>>◌, guard,
}
use orgmetra.Base.Uuid.{max_uuid}
use orgmetra.Base.Regex.{
  Regex, codes, full_match, code_pattern, two_word_pattern, scope_pattern, reference_pattern,
  version_pattern,
}

-- A value that may stand in a set, or as an argument.
pub data Atom : Type 0 where
  uuid : ℕ → Atom
  text : String → Atom
  other : Atom

pub data Value : Type 0 where
  atom : Atom → Value
  frozenset : List Atom → Value

pub data Error : Type 0 where
  value_error : (field rule : String) → Error

unfoldable pub validate_uuid : String → Value → Result Error ℕ
validate_uuid field_name (atom (uuid n)) =
    if n == 0 || n == max_uuid
    then err (value_error field_name "must not use a reserved UUID sentinel.")
    else ok n
validate_uuid field_name _ = err (value_error field_name "must be a UUID.")

-- A text that matches a pattern, or the error.
abbrev pub require_match : Regex → Error → Value → Result Error String
require_match pattern error (atom (text s)) = if full_match pattern s then ok s else err error
require_match pattern error _ = err error

unfoldable pub validate_code : String → Value → Result Error String
validate_code field_name =
    require_match code_pattern (value_error field_name "must be a lower snake_case code.")

unfoldable pub validate_resource_kind : Value → Result Error String
validate_resource_kind =
    require_match two_word_pattern
      (value_error "resource_kind" "must contain two or more lower snake_case words.")

unfoldable pub validate_scope : String → Value → Result Error String
validate_scope field_name =
    require_match scope_pattern
      (value_error field_name "must be an explicit orgmetra.<context>.<operation> scope.")

-- `value.partition(":")[0]`, on code points.
unfoldable pub before_colon : List ℕ → List ℕ
before_colon [] = []
before_colon (c ∷ cs) = if c == b':' then [] else c ∷ before_colon cs

abbrev pub codes_eq : List ℕ → List ℕ → Bool
codes_eq [] [] = true
codes_eq (c ∷ cs) (d ∷ ds) = c == d && codes_eq cs ds
codes_eq _ _ = false

unfoldable pub validate_reference : String → Option String → Value → Result Error String
unfolding before_colon
validate_reference field_name expected_namespace value = do
  reference ←
      require_match reference_pattern
        (value_error field_name "must be a namespaced opaque reference.") value
  elim expected_namespace [
    | none ↦ ok reference
    | some namespace ↦
        if codes_eq (before_colon (codes reference)) (codes namespace)
        then ok reference
        else err (value_error field_name "namespace must match resource_kind.")
  ]

unfoldable pub validate_version : Value → Result Error String
validate_version =
    require_match version_pattern
      (value_error "policy_version_code" "must be a whitespace-free version token.")

-- Every element is a text that matches; the texts.
unfoldable pub matching_texts : Regex → Error → List Atom → Result Error (List String)
matching_texts pattern error [] = ok []
matching_texts pattern error (a ∷ atoms) = do
  s ← require_match pattern error (atom a)
  rest ← matching_texts pattern error atoms
  ok (s ∷ rest)

abbrev pub is_empty : List Atom → Bool
is_empty [] = true
is_empty (a ∷ atoms) = false

unfoldable pub validate_field_set : String → Value → Result Error (List String)
unfolding matching_texts
validate_field_set field_name (atom a) = err (value_error field_name "must be a frozenset.")
validate_field_set field_name (frozenset values) = do
  guard (not (is_empty values)) (value_error field_name "must not be empty.")
  matching_texts code_pattern
      (value_error field_name "must contain only explicit lower snake_case field names.") values

unfoldable pub validate_scope_set : Value → Result Error (List String)
unfolding matching_texts
validate_scope_set (atom a) = err (value_error "granted_scope_codes" "must be a frozenset.")
validate_scope_set (frozenset values) = do
  guard (not (is_empty values)) (value_error "granted_scope_codes" "must not be empty.")
  matching_texts scope_pattern
      (value_error "granted_scope_codes" "must contain only explicit Orgmetra scopes.") values
