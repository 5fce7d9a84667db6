-- ===== src/Kernel/JobAnalysis/Evidence.antt =====
-- The constructors of the evidence records of job_analysis.py, with their `__post_init__`.
use orgmetra.Base.{
  ◌++◌, ℕ, String, Bool, true, false, not, ◌&&◌, ◌||◌, List, [], ◌∷◌, length, any_of, ltb, str_eq,
  if◌then◌else◌, Option, none, some, Result, ok, err, ◌>>=◌, ◌>>◌, guard,
}
use orgmetra.Base.Regex.{codes}
use orgmetra.Kernel.Errors.{Error, value_error}
use orgmetra.Kernel.JobAnalysis.{
  Value, text, flag, fault, SplitUrl, EvidenceSource, TaskEvidence, KsaoRequirement,
  FunctionalJobAnalysisProfile, TaskKsaoLink, validate_uuid, validate_code, validate_version,
  validate_level, validate_aware_datetime, validate_function, is_sha256, allowed_origins,
  allowed_ksao_categories,
}

module _ (is_space : ℕ → Bool) where
  -- `" ".join(value.split())`: the pending word is in order, and each later word follows a space.
  unfoldable pub collapse : (started pending : Bool) → List ℕ → List ℕ
  collapse started pending [] = []
  collapse started pending (c ∷ cs) = elim (is_space c) [
    | true ↦ collapse started true cs
    | false ↦ (if started && pending then b' ' ∷ [] else []) ++ (c ∷ collapse true false cs)
  ]

  unfoldable pub validate_text : (minimum : ℕ) → Value → String → Result Error (List ℕ)
  validate_text minimum (text s) field_name =
      let normalized = collapse false false (codes s) in
      if ltb (length normalized) minimum
      then err (fault field_name " is too short")
      else ok normalized
  validate_text minimum _ field_name = err (fault field_name " must be a string")

  module _ (urlsplit : String → Result Error SplitUrl) where
    unfoldable pub validate_source_uri : Value → Result Error String
    validate_source_uri (text uri) = do
      parsed ← urlsplit uri
      guard (str_eq parsed.scheme "https" && parsed.has_hostname)
          (value_error "source_uri must be an absolute HTTPS URI")
      guard (not (parsed.has_username || parsed.has_password))
          (value_error "source_uri must not contain credentials")
      ok uri
    validate_source_uri _ = err (value_error "source_uri must be a string")

    unfoldable pub validate_digest : Value → Result Error String
    validate_digest (text s) =
        if is_sha256 s
        then ok s
        else err (value_error "content_digest_sha256 must be 64 lowercase hexadecimal characters")
    validate_digest _ = err (value_error "content_digest_sha256 must be a string")

    unfoldable pub evidence_source :
        (source_uri source_title source_version_code retrieved_at content_digest_sha256
          origin_code : Value)
        → Result Error EvidenceSource
    evidence_source source_uri source_title source_version_code retrieved_at content_digest_sha256
          origin_code =
        do
          uri ← validate_source_uri source_uri
          title ← validate_text 3 source_title "source_title"
          version ← validate_version source_version_code "source_version_code"
          retrieved ← validate_aware_datetime retrieved_at "retrieved_at"
          digest ← validate_digest content_digest_sha256
          origin ← validate_code origin_code "origin_code"
          guard (any_of (str_eq origin) allowed_origins)
              (value_error "origin_code is not an allowed job-analysis evidence origin")
          ok (record {
            source_uri = uri;
            source_title = title;
            source_version_code = version;
            retrieved_at = retrieved;
            content_digest_sha256 = digest;
            origin_code = origin;
          })

  -- `isinstance(source, EvidenceSource)`: none is an object of another class.
  abbrev pub require_source : Option EvidenceSource → Result Error EvidenceSource
  require_source none = err (value_error "source must be EvidenceSource")
  require_source (some source) = ok source

  unfoldable pub task_evidence :
      (tenant_record_id job_record_id task_record_id task_statement importance_level
        difficulty_level : Value)
      → Option EvidenceSource
      → Result Error TaskEvidence
  task_evidence tenant_record_id job_record_id task_record_id task_statement importance_level
        difficulty_level source =
      do
        tenant ← validate_uuid tenant_record_id "tenant_record_id"
        job ← validate_uuid job_record_id "job_record_id"
        task ← validate_uuid task_record_id "task_record_id"
        statement ← validate_text 10 task_statement "task_statement"
        importance ← validate_level importance_level "importance_level"
        difficulty ← validate_level difficulty_level "difficulty_level"
        provenance ← require_source source
        ok (record {
          tenant_record_id = tenant;
          job_record_id = job;
          task_record_id = task;
          task_statement = statement;
          importance_level = importance;
          difficulty_level = difficulty;
          source = provenance;
        })

  unfoldable pub ksao_requirement :
      (tenant_record_id job_record_id ksao_record_id category_code requirement_statement
        importance_level proficiency_level : Value)
      → Option EvidenceSource
      → Result Error KsaoRequirement
  ksao_requirement tenant_record_id job_record_id ksao_record_id category_code requirement_statement
        importance_level proficiency_level source =
      do
        tenant ← validate_uuid tenant_record_id "tenant_record_id"
        job ← validate_uuid job_record_id "job_record_id"
        ksao ← validate_uuid ksao_record_id "ksao_record_id"
        category ← validate_code category_code "category_code"
        guard (any_of (str_eq category) allowed_ksao_categories)
            (value_error "category_code is not an allowed KSAO category")
        statement ← validate_text 10 requirement_statement "requirement_statement"
        importance ← validate_level importance_level "importance_level"
        proficiency ← validate_level proficiency_level "proficiency_level"
        provenance ← require_source source
        ok (record {
          tenant_record_id = tenant;
          job_record_id = job;
          ksao_record_id = ksao;
          category_code = category;
          requirement_statement = statement;
          importance_level = importance;
          proficiency_level = proficiency;
          source = provenance;
        })

  unfoldable pub functional_job_analysis_profile :
      (tenant_record_id job_record_id data_function_code people_function_code
        things_function_code : Value)
      → Option EvidenceSource
      → Result Error FunctionalJobAnalysisProfile
  functional_job_analysis_profile tenant_record_id job_record_id data_function_code
        people_function_code things_function_code source =
      do
        tenant ← validate_uuid tenant_record_id "tenant_record_id"
        job ← validate_uuid job_record_id "job_record_id"
        data_code ← validate_function 6 "6" data_function_code "data_function_code"
        people_code ← validate_function 8 "8" people_function_code "people_function_code"
        things_code ← validate_function 7 "7" things_function_code "things_function_code"
        provenance ← require_source source
        ok (record {
          tenant_record_id = tenant;
          job_record_id = job;
          data_function_code = data_code;
          people_function_code = people_code;
          things_function_code = things_code;
          source = provenance;
        })

unfoldable pub validate_essential : Value → Result Error Bool
validate_essential (flag b) = ok b
validate_essential _ = err (value_error "essential_for_task must be a bool")

unfoldable pub task_ksao_link :
    (task_record_id ksao_record_id relationship_strength essential_for_task : Value)
    → Result Error TaskKsaoLink
task_ksao_link task_record_id ksao_record_id relationship_strength essential_for_task = do
  task ← validate_uuid task_record_id "task_record_id"
  ksao ← validate_uuid ksao_record_id "ksao_record_id"
  strength ← validate_level relationship_strength "relationship_strength"
  essential ← validate_essential essential_for_task
  ok (record {
    task_record_id = task;
    ksao_record_id = ksao;
    relationship_strength = strength;
    essential_for_task = essential;
  })
