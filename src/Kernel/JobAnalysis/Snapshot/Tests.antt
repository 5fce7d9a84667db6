-- ===== src/Kernel/JobAnalysis/Snapshot/Tests.antt =====
-- A validated snapshot.
use orgmetra.Base.{refl, ◌≡◌, true, some, [], ◌∷◌, ok, any_of, for_each}
use orgmetra.Base.Regex.{full_match, match_codes, derivative, nullable, codes}
use orgmetra.Kernel.Samples.{at}
use orgmetra.Kernel.Intervals.{lt_datetime}
use orgmetra.Kernel.JobAnalysis.{
  uuid, text, day, stamp, EvidenceSource, TaskEvidence, KsaoRequirement,
  FunctionalJobAnalysisProfile, TaskKsaoLink, validate_uuid, validate_version, validate_code,
  validate_reference, validate_aware_datetime,
}
use orgmetra.Kernel.JobAnalysis.Snapshot.{
  JobAnalysisSnapshot, validate_effective_date, check_scope, any_after, has_repeated, check_links,
  check_review, check_validated, job_analysis_snapshot,
}
use orgmetra.Kernel.JobAnalysis.Snapshot.Laws.{IsAccountable, job_analysis_snapshot-IsAccountable}

abbrev interview : EvidenceSource
interview = record {
  source_uri = "https://example.org/interview";
  source_title = codes "Interview";
  source_version_code = "v1";
  retrieved_at = at 3;
  content_digest_sha256 = "0";
  origin_code = "job_incumbent";
}

abbrev task : TaskEvidence
task = record {
  tenant_record_id = 1;
  job_record_id = 2;
  task_record_id = 3;
  task_statement = codes "Plans the weekly shifts";
  importance_level = 4;
  difficulty_level = 2;
  source = interview;
}

abbrev skill : KsaoRequirement
skill = record {
  tenant_record_id = 1;
  job_record_id = 2;
  ksao_record_id = 4;
  category_code = "skill_requirement";
  requirement_statement = codes "Scheduling under constraints";
  importance_level = 4;
  proficiency_level = 3;
  source = interview;
}

abbrev functions : FunctionalJobAnalysisProfile
functions = record {
  tenant_record_id = 1;
  job_record_id = 2;
  data_function_code = 3;
  people_function_code = 6;
  things_function_code = 7;
  source = interview;
}

abbrev link : TaskKsaoLink
link = record {
  task_record_id = 3;
  ksao_record_id = 4;
  relationship_strength = 5;
  essential_for_task = true;
}

abbrev validated : JobAnalysisSnapshot
validated = record {
  analysis_record_id = 9;
  tenant_record_id = 1;
  job_record_id = 2;
  analysis_version_code = "v1";
  status_code = "analysis_validated";
  effective_from = 10;
  recorded_at = at 7;
  tasks = task ∷ [];
  ksao_requirements = skill ∷ [];
  task_ksao_links = link ∷ [];
  fja_profile = functions;
  review = some ("reviewer:r1", at 5);
}

constructed :
    job_analysis_snapshot
      (uuid 9)
      (uuid 1)
      (uuid 2)
      (text "v1")
      (text "analysis_validated")
      (day 10)
      (stamp (at 7))
      (some (task ∷ []))
      (some (skill ∷ []))
      (some (some link ∷ []))
      (some functions)
      (some (text "reviewer:r1"))
      (some (stamp (at 5)))
    ≡ ok validated
unfolding full_match match_codes derivative nullable any_of for_each lt_datetime validate_uuid
    validate_version validate_code validate_reference validate_aware_datetime
    validate_effective_date check_scope any_after has_repeated check_links check_review
    check_validated job_analysis_snapshot
constructed = refl

job_analysis_snapshot-IsAccountable_example : IsAccountable validated
job_analysis_snapshot-IsAccountable_example =
    job_analysis_snapshot-IsAccountable (uuid 9) (uuid 1) (uuid 2) (text "v1")
      (text "analysis_validated") (day 10) (stamp (at 7)) (some (task ∷ [])) (some (skill ∷ []))
      (some (some link ∷ [])) (some functions) (some (text "reviewer:r1")) (some (stamp (at 5)))
      validated constructed refl
