-- ===== src/People/Digest/Laws.antt =====
-- A retry has the key and the digest of the first command.
use orgmetra.Base.{ℕ, ◌≡◌, refl, some}
use orgmetra.Keyverse.Authorization.{AuthorizationDecision}
use orgmetra.People.Commands.Assignment.{Command, employment, position, assignment, another}
use orgmetra.People.Digest.{
  Platform, command_key, semantic_command, digest_payload, mutation_command_digest,
}

-- The command with other generated identifiers: those of the records, of the event and of the
-- delivery.
abbrev pub with_identifiers : (created version event delivery : ℕ) → Command → Command
with_identifiers created version event delivery (employment c) = employment (record {
  tenant_record_id = c.tenant_record_id;
  person_record_id = c.person_record_id;
  employment_record_id = created;
  employment_record_version_id = version;
  audit_event_record_id = event;
  outbox_delivery_record_id = delivery;
  employment_status_code = c.employment_status_code;
  employment_concurrency_code = c.employment_concurrency_code;
  effective_from = c.effective_from;
  confirmation_reference = c.confirmation_reference;
  evidence_version_code = c.evidence_version_code;
  idempotency_key = c.idempotency_key;
})
with_identifiers created version event delivery (position c) = position (record {
  tenant_record_id = c.tenant_record_id;
  organization_unit_id = c.organization_unit_id;
  job_profile_id = c.job_profile_id;
  position_record_id = created;
  position_record_version_id = version;
  audit_event_record_id = event;
  outbox_delivery_record_id = delivery;
  position_status_code = c.position_status_code;
  effective_from = c.effective_from;
  confirmation_reference = c.confirmation_reference;
  evidence_version_code = c.evidence_version_code;
  idempotency_key = c.idempotency_key;
})
with_identifiers created version event delivery (assignment c) = assignment (record {
  tenant_record_id = c.tenant_record_id;
  employment_record_id = c.employment_record_id;
  person_record_id = c.person_record_id;
  position_record_id = c.position_record_id;
  assignment_record_id = created;
  audit_event_record_id = event;
  outbox_delivery_record_id = delivery;
  allocation_ratio = c.allocation_ratio;
  effective_from = c.effective_from;
  confirmation_reference = c.confirmation_reference;
  evidence_version_code = c.evidence_version_code;
  idempotency_key = c.idempotency_key;
})
with_identifiers created version event delivery another = another

-- A retry of any command with other generated identifiers, under a decision for the same actor and
-- purpose, has the same key and the same digest, or is refused with the same error.
pub digest-retry :
    (platform : Platform) (command : Command) (created version event delivery : ℕ)
    (first again : AuthorizationDecision)
    → again.actor_reference ≡ first.actor_reference
    → again.purpose_code ≡ first.purpose_code
    → (command_key (with_identifiers created version event delivery command) ≡ command_key command)
      × (mutation_command_digest platform
            (with_identifiers created version event delivery command)
            (some again)
          ≡ mutation_command_digest platform command (some first))
unfolding command_key semantic_command digest_payload mutation_command_digest
digest-retry platform (employment c) created version event delivery first again actor purpose =
    (refl, rw (actor, purpose) refl)
digest-retry platform (position c) created version event delivery first again actor purpose =
    (refl, rw (actor, purpose) refl)
digest-retry platform (assignment c) created version event delivery first again actor purpose =
    (refl, rw (actor, purpose) refl)
digest-retry platform another created version event delivery first again actor purpose =
    (refl, refl)
