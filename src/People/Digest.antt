-- ===== src/People/Digest.antt =====
-- The durable identity of a write in services/people-api/src/orgmetra_people_api/mutations.py: its
-- route, its idempotency identity and the digest of its meaning.
pub mod Laws
use Prim.Native.Nat.{◌/◌, ◌%◌}
use orgmetra.Base.{
  ℕ, ◌+◌, String, Bool, true, Option, none, some, List, [], ◌∷◌, ◌++◌, Result, ok, err, ◌>>=◌,
}
use orgmetra.Base.Int.{ℤ, pos_part}
use orgmetra.Base.Regex.{codes}
use orgmetra.Base.Json.{Json, object, no_members, member, dumps}
use orgmetra.Base.Uuid.{uuid_text}
use orgmetra.Keyverse.Authorization.{AuthorizationDecision}
use orgmetra.Kernel.Intervals.{Datetime}
use orgmetra.Kernel.Audit.{entry}
use orgmetra.People.Errors.{ServiceError, type_error}
use orgmetra.People.Commands.Assignment.{
  Command, employment, position, assignment, another, command_route,
}

-- What the code calls of Python's library: the test for white space, SHA-256 of a text's UTF-8
-- bytes in hexadecimal, UUID version 5 in the namespace of the module, the texts of a date and of
-- an instant in UTC, and the date of an instant in its own zone.
pub record Platform : Type 0 where
  pub is_space : ℕ → Bool
  pub sha256 : List ℕ → String
  pub uuid5 : List ℕ → ℕ
  pub day_text : ℕ → String
  pub utc_text : Datetime → String
  pub date_of : Datetime → ℕ

-- `_canonical_allocation_ratio`, for a ratio of at most 1.0000 in ten-thousandths: one digit, the
-- point and four digits.
unfoldable pub canonical_allocation_ratio : ℤ → List ℕ
canonical_allocation_ratio ratio =
    let n = pos_part ratio in
    (b'0' + n / 10000 % 10)
    ∷ b'.'
    ∷ (b'0' + n / 1000 % 10)
    ∷ (b'0' + n / 100 % 10)
    ∷ (b'0' + n / 10 % 10)
    ∷ (b'0' + n % 10)
    ∷ []

-- The tenant, the route and the key that bind a command.
pub record CommandKey : Type 0 where
  pub tenant_record_id : ℕ
  pub command_route : String
  pub idempotency_key : String

unfoldable pub command_key : Command → Result ServiceError CommandKey
unfolding command_route
command_key (employment c) = do
  route ← command_route (employment c)
  ok (record {
    tenant_record_id = c.tenant_record_id;
    command_route = route;
    idempotency_key = c.idempotency_key;
  })
command_key (position c) = do
  route ← command_route (position c)
  ok (record {
    tenant_record_id = c.tenant_record_id;
    command_route = route;
    idempotency_key = c.idempotency_key;
  })
command_key (assignment c) = do
  route ← command_route (assignment c)
  ok (record {
    tenant_record_id = c.tenant_record_id;
    command_route = route;
    idempotency_key = c.idempotency_key;
  })
command_key another = err (type_error "command must be a governed People mutation command")

module _ (platform : Platform) where
  unfoldable pub idempotency_record_id : CommandKey → ℕ
  idempotency_record_id key = platform.uuid5 (
      codes (uuid_text key.tenant_record_id)
      ++ b':' ∷ (codes key.command_route ++ b':' ∷ codes key.idempotency_key))

  unfoldable pub semantic_command : Command → Result ServiceError Json
  semantic_command (employment c) = ok (
      object (
        entry "confirmation_reference" (codes c.confirmation_reference) (
          entry "effective_from" (codes (platform.day_text c.effective_from)) (
            entry "employment_concurrency_code" (codes c.employment_concurrency_code) (
              entry "employment_status_code" (codes c.employment_status_code) (
                entry "evidence_version_code" (codes c.evidence_version_code)
                  (entry "person_record_id" (codes (uuid_text c.person_record_id)) no_members)))))))
  semantic_command (position c) = ok (
      object (
        entry "confirmation_reference" (codes c.confirmation_reference) (
          entry "effective_from" (codes (platform.day_text c.effective_from)) (
            entry "evidence_version_code" (codes c.evidence_version_code) (
              entry "job_profile_id" (codes (uuid_text c.job_profile_id)) (
                entry "organization_unit_id" (codes (uuid_text c.organization_unit_id))
                  (entry "position_status_code" (codes c.position_status_code) no_members)))))))
  semantic_command (assignment c) = ok (
      object (
        entry "allocation_ratio" (canonical_allocation_ratio c.allocation_ratio) (
          entry "confirmation_reference" (codes c.confirmation_reference) (
            entry "effective_from" (codes (platform.day_text c.effective_from)) (
              entry "employment_record_id" (codes (uuid_text c.employment_record_id)) (
                entry "evidence_version_code" (codes c.evidence_version_code) (
                  entry "person_record_id" (codes (uuid_text c.person_record_id)) (
                    entry "position_record_id" (codes (uuid_text c.position_record_id))
                      no_members))))))))
  semantic_command another = err (type_error "command must be a governed People mutation command")

  -- The document that is digested.
  unfoldable pub digest_payload : AuthorizationDecision → CommandKey → Json → Json
  digest_payload authorization key semantic = object (
      entry "actor_reference" (codes authorization.actor_reference) (
        entry "command_route" (codes key.command_route) (
          entry "method" (codes "POST") (
            entry "purpose_code" (codes authorization.purpose_code) (
              member (codes "semantic_command") semantic
                (entry "tenant_record_id" (codes (uuid_text key.tenant_record_id)) no_members))))))

  -- An authorization of none is an object of another class.
  unfoldable pub mutation_command_digest :
      Command → Option AuthorizationDecision → Result ServiceError String
  unfolding digest_payload
  mutation_command_digest command none =
      err (type_error "authorization must be an AuthorizationDecision")
  mutation_command_digest command (some authorization) = do
    semantic ← semantic_command command
    key ← command_key command
    ok (platform.sha256 (dumps true (digest_payload authorization key semantic)))
