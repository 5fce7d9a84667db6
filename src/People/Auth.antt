-- ===== src/People/Auth.antt =====
-- services/people-api/src/orgmetra_people_api/auth.py: the principal and the bearer token.
--
-- A header is its code points. `casefold` is Python's; the comparison with "bearer" sees only the
-- ASCII letters, since no other character folds to one of those six.
pub mod Laws
use orgmetra.Base.{
  ℕ, ◌+◌, String, Bool, not, ◌&&◌, Option, none, some, List, [], ◌∷◌, map, length, any_of, ltb,
  ◌==◌, if◌then◌else◌, Result, ok, err, ◌>>=◌, ◌>>◌, guard,
}
use orgmetra.Base.Regex.{codes, in_range, reference_pattern}
use orgmetra.Keyverse.Validation.{
  Value, Error, value_error, validate_uuid, validate_scope_set, require_match, codes_eq,
}
use orgmetra.People.Errors.{ServiceError, authentication_failed}

pub record AuthenticatedPrincipal : Type 0 where
  pub tenant_record_id : ℕ
  pub actor_reference : String
  pub granted_scope_codes : List String

-- The constructor of a principal with its `__post_init__`.
unfoldable pub authenticated_principal : Value → Value → Value → Result Error AuthenticatedPrincipal
authenticated_principal tenant_record_id actor_reference granted_scope_codes = do
  tenant ← validate_uuid "tenant_record_id" tenant_record_id
  actor ←
      require_match reference_pattern
        (value_error "actor_reference" "must be a namespaced opaque reference.") actor_reference
  scopes ← validate_scope_set granted_scope_codes
  ok (record { tenant_record_id = tenant; actor_reference = actor; granted_scope_codes = scopes })

-- The parts of `authorization_header.split(" ", 1)`; none where there is no space.
unfoldable pub split_space : List ℕ → Option (List ℕ × List ℕ)
split_space [] = none
split_space (c ∷ cs) =
    if c == b' '
    then some ([], cs)
    else elim (split_space cs) [ none ↦ none | some (scheme, token) ↦ some (c ∷ scheme, token) ]

abbrev pub casefold : ℕ → ℕ
casefold c = if in_range b'A' b'Z' c then c + 32 else c

abbrev pub visible_ascii : ℕ → Bool
visible_ascii c = in_range b'!' b'~' c

unfoldable pub extract_bearer_token : Option (List ℕ) → Result ServiceError (List ℕ)
unfolding split_space
extract_bearer_token none = err (authentication_failed "bearer authentication is required")
extract_bearer_token (some header) = elim (split_space header) [
  | none ↦ err (authentication_failed "authorization must use the Bearer scheme")
  | some (scheme, token) ↦ do
    guard (codes_eq (map casefold scheme) (codes "bearer"))
        (authentication_failed "authorization must use the Bearer scheme")
    guard (ltb 0 (length token) && not (ltb 8192 (length token)))
        (authentication_failed "bearer token length is invalid")
    guard (not (any_of (λ c. not (visible_ascii c)) token))
        (authentication_failed "bearer token contains invalid characters")
    ok token
]
