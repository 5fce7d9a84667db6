-- ===== src/People/Auth/Laws.antt =====
-- What a bearer token that was extracted is.
use orgmetra.Base.{
  ℕ, ◌≡◌, ◌≤◌, refl, true, false, not, some, List, [], ◌∷◌, ◌++◌, map, length, any_of, ok, arith,
  Bool-cases, inl, inr, ◌==◌, Option-cases,
}
use orgmetra.Base.Regex.{codes}
use orgmetra.Keyverse.Validation.{codes_eq}
use orgmetra.People.Auth.{split_space, casefold, visible_ascii, extract_bearer_token}

split_space-some :
    (cs : List ℕ) {scheme token : List ℕ}
    → split_space cs ≡ some (scheme, token)
    → cs ≡ scheme ++ (b' ' ∷ token)
unfolding split_space
split_space-some [] h = cc
split_space-some (c ∷ cs) {scheme} {token} h = elim (Bool-cases (c == b' ')) [
  | inl e ↦
      let q : scheme ≡ [] = ground arith in
      let r : token ≡ cs = ground arith in let k : c ≡ b' ' = ground arith in rw (q, r, k) refl
  | inr e ↦ elim (Option-cases (split_space cs)) [
    | inl e' ↦ ground arith
    | inr ((s, t), e') ↦
        let q : scheme ≡ c ∷ s = ground arith in
        let r : token ≡ t = ground arith in rw (q, r, split_space-some cs e') refl
  ]
]

-- A token that is extracted stands in the header after a scheme, which is bearer in some case of
-- its letters, and the first space. It has 1 to 8192 characters, all visible ASCII.
pub extract_bearer_token-ok :
    (header token : List ℕ)
    → extract_bearer_token (some header) ≡ ok token
    → (scheme : List ℕ) × (header ≡ scheme ++ (b' ' ∷ token))
      × (codes_eq (map casefold scheme) (codes "bearer") ≡ true)
      × (1 ≤ length token)
      × (length token ≤ 8192)
      × (any_of (λ c. not (visible_ascii c)) token ≡ false)
unfolding extract_bearer_token
extract_bearer_token-ok header token h = elim (Option-cases (split_space header)) [
  | inl e ↦ ground arith
  | inr ((s, t), e) ↦
      let same : token ≡ t = ground arith in
      (
        s,
        rw same (split_space-some header e),
        ground arith,
        ground arith,
        ground arith,
        ground arith,
      )
]
