-- ===== src/Kernel/JobAnalysis/Snapshot.antt =====
-- The snapshot of job_analysis.py: its constructor with the governance checks of `__post_init__`.
--
-- A tuple of tasks or of requirements is a list, and none stands for an object of another class, as
-- it does for an item of the links and for the profile. A review argument of none is Python's None.
pub mod Laws
mod Tests
use orgmetra.Base.{
  ℕ, String, Bool, true, false, not, ◌&&◌, ◌||◌, List, [], ◌∷◌, ◌++◌, map, any_of, ◌==◌, str_eq,
  if◌then◌else◌, Option, none, some, Result, ok, err, ◌>>=◌, ◌>>◌, guard, for_each,
}
use orgmetra.Kernel.Errors.{Error, value_error}
use orgmetra.Kernel.Intervals.{Datetime, lt_datetime}
use orgmetra.Kernel.JobAnalysis.{
  Value, day, EvidenceSource, TaskEvidence, KsaoRequirement, FunctionalJobAnalysisProfile,
  TaskKsaoLink, validate_uuid, validate_version, validate_code, validate_reference,
  validate_aware_datetime,
}

abbrev pub allowed_status_codes : List String
allowed_status_codes = "analysis_draft" ∷ "analysis_validated" ∷ []

pub record JobAnalysisSnapshot : Type 0 where
  pub analysis_record_id : ℕ
  pub tenant_record_id : ℕ
  pub job_record_id : ℕ
  pub analysis_version_code : String
  pub status_code : String
  pub effective_from : ℕ
  pub recorded_at : Datetime
  pub tasks : List TaskEvidence
  pub ksao_requirements : List KsaoRequirement
  pub task_ksao_links : List TaskKsaoLink
  pub fja_profile : FunctionalJobAnalysisProfile
  pub review : Option (String × Datetime)

-- `isinstance(items, tuple)`, and the tuple is not empty.
abbrev pub require_items {ℓ} : {A : Type ℓ} → String → Option (List A) → Result Error (List A)
require_items message none = err (value_error message)
require_items message (some []) = err (value_error message)
require_items message (some (item ∷ items)) = ok (item ∷ items)

abbrev pub require_profile :
    Option FunctionalJobAnalysisProfile → Result Error FunctionalJobAnalysisProfile
require_profile none = err (value_error "fja_profile must be FunctionalJobAnalysisProfile")
require_profile (some profile) = ok profile

unfoldable pub validate_effective_date : Value → Result Error ℕ
validate_effective_date (day d) = ok d
validate_effective_date _ = err (value_error "effective_from must be a date")

-- An item of the evidence, by its tenant and its job.
unfoldable pub check_scope : (tenant job : ℕ) → ℕ × ℕ → Result Error (Unit {0})
check_scope tenant job (item_tenant, item_job) = do
  guard (item_tenant == tenant)
      (value_error "all job-analysis evidence must share tenant_record_id")
  guard (item_job == job) (value_error "all job-analysis evidence must share job_record_id")

-- `any(source.retrieved_at > bound for source in sources)`
unfoldable pub any_after : Datetime → List EvidenceSource → Result Error Bool
any_after bound [] = ok false
any_after bound (source ∷ sources) = do
  late ← lt_datetime bound source.retrieved_at
  elim late [ true ↦ ok true | false ↦ any_after bound sources ]

-- `len(ids) != len(set(ids))`
unfoldable pub has_repeated : List ℕ → Bool
has_repeated [] = false
has_repeated (id ∷ ids) = any_of (λ other. other == id) ids || has_repeated ids

-- The loop over the links, with the pairs that it has seen.
unfoldable pub check_links :
    (task_ids ksao_ids : List ℕ)
    → List (ℕ × ℕ)
    → List (Option TaskKsaoLink)
    → Result Error (List TaskKsaoLink)
check_links task_ids ksao_ids seen [] = ok []
check_links task_ids ksao_ids seen (none ∷ links) =
    err (value_error "task_ksao_links must contain TaskKSAOLink values")
check_links task_ids ksao_ids seen (some link ∷ links) = do
  guard (any_of (λ id. id == link.task_record_id) task_ids)
      (value_error "task_ksao_links contains an unknown task_record_id")
  guard (any_of (λ id. id == link.ksao_record_id) ksao_ids)
      (value_error "task_ksao_links contains an unknown ksao_record_id")
  guard
      (not (any_of (λ pair. pair.0 == link.task_record_id && (pair.1 == link.ksao_record_id)) seen))
      (value_error "task_ksao_links must not duplicate a task and KSAO pair")
  rest ← check_links task_ids ksao_ids ((link.task_record_id, link.ksao_record_id) ∷ seen) links
  ok (link ∷ rest)

-- The reviewer and the instant of the review, together or not at all.
unfoldable pub check_review :
    Datetime
    → List EvidenceSource
    → (reviewed_by_reference reviewed_at : Option Value) → Result Error (Option (String × Datetime))
check_review recorded_at sources none none = ok none
check_review recorded_at sources (some reference) (some instant) = do
  reviewed_by ← validate_reference reference "reviewed_by_reference"
  reviewed_at ← validate_aware_datetime instant "reviewed_at"
  late ← lt_datetime recorded_at reviewed_at
  guard (not late) (value_error "reviewed_at must not be later than recorded_at")
  early ← any_after reviewed_at sources
  guard (not early) (value_error "reviewed_at must not be earlier than evidence retrieval")
  ok (some (reviewed_by, reviewed_at))
check_review recorded_at sources reference instant =
    err (value_error "reviewed_by_reference and reviewed_at must be supplied together")

-- Two lists hold the same identifiers.
abbrev pub same_ids : List ℕ → List ℕ → Bool
same_ids xs ys =
    not (any_of (λ x. not (any_of (λ y. y == x) ys)) xs)
    && not (any_of (λ y. not (any_of (λ x. x == y) xs)) ys)

abbrev pub is_reviewed : Option (String × Datetime) → Bool
is_reviewed none = false
is_reviewed (some review) = true

-- The checks of a validated snapshot.
unfoldable pub check_validated :
    (review : Option (String × Datetime)) (task_ids ksao_ids : List ℕ)
    → List TaskKsaoLink
    → List EvidenceSource
    → Result Error (Unit {0})
check_validated review task_ids ksao_ids links sources = do
  guard (is_reviewed review) (value_error "validated analysis requires accountable human review")
  guard (same_ids (map (λ (l : TaskKsaoLink). l.task_record_id) links) task_ids)
      (value_error "validated analysis must link every task to at least one KSAO")
  guard (same_ids (map (λ (l : TaskKsaoLink). l.ksao_record_id) links) ksao_ids)
      (value_error "validated analysis must link every KSAO to at least one task")
  guard (not (any_of (λ (s : EvidenceSource). str_eq s.origin_code "llm_draft") sources))
      (value_error "LLM-origin evidence must remain analysis_draft")

-- The sources and the identifiers of the evidence.
abbrev pub evidence_of :
    List TaskEvidence → List KsaoRequirement → FunctionalJobAnalysisProfile → List EvidenceSource
evidence_of tasks ksaos profile =
    map (λ (t : TaskEvidence). t.source) tasks
    ++ (map (λ (k : KsaoRequirement). k.source) ksaos ++ (profile.source ∷ []))

abbrev pub task_ids_of : List TaskEvidence → List ℕ
task_ids_of tasks = map (λ (t : TaskEvidence). t.task_record_id) tasks

abbrev pub ksao_ids_of : List KsaoRequirement → List ℕ
ksao_ids_of ksaos = map (λ (k : KsaoRequirement). k.ksao_record_id) ksaos

-- The constructor, with its `__post_init__`.
unfoldable pub job_analysis_snapshot :
    (analysis_record_id tenant_record_id job_record_id analysis_version_code status_code
      effective_from recorded_at : Value)
    → Option (List TaskEvidence)
    → Option (List KsaoRequirement)
    → Option (List (Option TaskKsaoLink))
    → Option FunctionalJobAnalysisProfile
    → (reviewed_by_reference reviewed_at : Option Value) → Result Error JobAnalysisSnapshot
unfolding has_repeated
job_analysis_snapshot analysis_record_id tenant_record_id job_record_id analysis_version_code
      status_code effective_from recorded_at tasks ksao_requirements task_ksao_links fja_profile
      reviewed_by_reference reviewed_at =
    do
      analysis ← validate_uuid analysis_record_id "analysis_record_id"
      tenant ← validate_uuid tenant_record_id "tenant_record_id"
      job ← validate_uuid job_record_id "job_record_id"
      version ← validate_version analysis_version_code "analysis_version_code"
      status ← validate_code status_code "status_code"
      guard (any_of (str_eq status) allowed_status_codes)
          (value_error "status_code is not an allowed analysis status")
      effective ← validate_effective_date effective_from
      recorded ← validate_aware_datetime recorded_at "recorded_at"
      task_items ← require_items "tasks must be a non-empty tuple" tasks
      ksao_items ← require_items "ksao_requirements must be a non-empty tuple" ksao_requirements
      link_items ← require_items "task_ksao_links must be a non-empty tuple" task_ksao_links
      profile ← require_profile fja_profile
      for_each (check_scope tenant job) (
          map (λ (t : TaskEvidence). (t.tenant_record_id, t.job_record_id)) task_items
          ++ (map (λ (k : KsaoRequirement). (k.tenant_record_id, k.job_record_id)) ksao_items
              ++ ((profile.tenant_record_id, profile.job_record_id) ∷ [])))
      let sources =
          map (λ (t : TaskEvidence). t.source) task_items
          ++ (map (λ (k : KsaoRequirement). k.source) ksao_items ++ (profile.source ∷ []))
      unretrieved ← any_after recorded sources
      guard (not unretrieved) (value_error "retrieved_at must not be later than recorded_at")
      let task_ids = task_ids_of task_items
      let ksao_ids = ksao_ids_of ksao_items
      guard (not (has_repeated task_ids)) (value_error "task_record_id values must be unique")
      guard (not (has_repeated ksao_ids)) (value_error "ksao_record_id values must be unique")
      links ← check_links task_ids ksao_ids [] link_items
      review ← check_review recorded sources reviewed_by_reference reviewed_at
      if str_eq status "analysis_validated"
          then check_validated review task_ids ksao_ids links sources
          else ok tt
      ok (record {
        analysis_record_id = analysis;
        tenant_record_id = tenant;
        job_record_id = job;
        analysis_version_code = version;
        status_code = status;
        effective_from = effective;
        recorded_at = recorded;
        tasks = task_items;
        ksao_requirements = ksao_items;
        task_ksao_links = links;
        fja_profile = profile;
        review = review;
      })
