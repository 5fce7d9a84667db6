-- ===== src/People/Store/Samples.antt =====
-- A platform, a database that answers with fixed rows and counts its statements, and a caller.
use orgmetra.Base.{ℕ, suc, none, List, [], ◌∷◌, ok, ◌==◌}
use orgmetra.Kernel.Samples.{at, days, since}
use orgmetra.Kernel.Values.{uuid, text, stamp}
use orgmetra.Kernel.Facts.{EmploymentVersion, PositionVersion}
use orgmetra.People.Auth.{AuthenticatedPrincipal}
use orgmetra.People.Digest.{Platform}
use orgmetra.People.Store.{
  Driver, Row, Statement, clock, read_key, find_conversion, named_employment_versions,
  named_position_versions, decision_provenance, worker_at,
}
use orgmetra.People.Store.Rows.Laws.{employment_row, position_row}

abbrev pub platform : Platform
platform = record {
  is_space = λ c. c == 32;
  sha256 = λ bytes. "digest";
  uuid5 = λ name. 77;
  day_text = λ d. "2026-01-01";
  utc_text = λ t. "2026-01-01T00:00:00Z";
  date_of = λ t. 8;
}

abbrev pub employed : EmploymentVersion
employed = record {
  tenant_record_id = 1;
  employment_record_id = 3;
  employment_record_version_id = 30;
  person_record_id = 2;
  employment_status_code = "active";
  effective = days 0 none;
  recorded = since 5;
  employment_concurrency_code = "exclusive";
}

abbrev pub seat : PositionVersion
seat = record {
  tenant_record_id = 1;
  position_record_id = 9;
  position_record_version_id = 40;
  position_status_code = "open";
  effective = days 0 none;
  recorded = since 5;
}

-- The database: the position's clock and conversion rows, the versions, and what it has for a key.
abbrev pub rows_of : List Row → Statement → List Row
rows_of keyed (read_key key) = keyed
rows_of keyed clock = (stamp (at 9) ∷ []) ∷ []
rows_of keyed (find_conversion tenant person) = (uuid 50 ∷ stamp (at 9) ∷ []) ∷ []
rows_of keyed (named_employment_versions tenant id) = employment_row employed ∷ []
rows_of keyed (named_position_versions tenant id) = position_row seat ∷ []
rows_of keyed (decision_provenance tenant selection candidate) =
    (text "actor:a1"
      ∷ text "staffing"
      ∷ text "hire"
      ∷ text "approval:a1"
      ∷ stamp (at 7)
      ∷ uuid 60
      ∷ stamp (at 9)
      ∷ [])
    ∷ []
rows_of keyed (worker_at tenant person on) =
    (uuid 1 ∷ uuid 24 ∷ uuid 21 ∷ uuid 2 ∷ uuid 3 ∷ text "Ada" ∷ text "active" ∷ []) ∷ []
rows_of keyed statement = []

-- The state counts the statements.
abbrev pub database : List Row → Driver ℕ
database keyed = record {
  run = λ statement count. (suc count, ok (rows_of keyed statement));
  commit = λ before after. (after, ok tt);
  rollback = λ before after. before;
}

abbrev pub principal : AuthenticatedPrincipal
principal = record {
  tenant_record_id = 1;
  actor_reference = "actor:a1";
  granted_scope_codes = "orgmetra.people.write" ∷ [];
}
