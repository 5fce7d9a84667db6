-- ===== src/Kernel/JobAnalysis/Snapshot/Laws.antt =====
-- What a snapshot with the status of a validated analysis promises.
use orgmetra.Base.{
  ◌∙◌, ℕ, String, Bool, true, false, not, ◌&&◌, ◌≡◌, ◌≢◌, refl, sym, ap, subst, List, [], ◌∷◌, ◌++◌,
  map, any_of, ◌==◌, str_eq, eq_iff, if◌then◌else◌, Option, none, some, Result, ok, guard,
  guard-eq-ok, for_each, >>=-ok_elim, ok_kept, any_of-mem, mem_of_any_of, map-mem, mem-map_cases,
  arith,
}
use mathlib.Core.List.{Memᴰ}
use orgmetra.Kernel.Errors.{Error, value_error}
use orgmetra.Kernel.Intervals.{Datetime}
use orgmetra.Kernel.JobAnalysis.{
  Value, EvidenceSource, TaskEvidence, KsaoRequirement, FunctionalJobAnalysisProfile, TaskKsaoLink,
  validate_uuid, validate_version, validate_code, validate_aware_datetime,
}
use orgmetra.Kernel.JobAnalysis.Snapshot.{
  JobAnalysisSnapshot, allowed_status_codes, require_items, require_profile,
  validate_effective_date, check_scope, any_after, has_repeated, check_links, check_review,
  same_ids, is_reviewed, check_validated, job_analysis_snapshot, task_ids_of, ksao_ids_of,
  evidence_of,
}

-- A person has reviewed it, no evidence comes from a language model, and each task and each
-- requirement has a link.
pub record IsAccountable (s : JobAnalysisSnapshot) : Type 0 where
  pub reviewed_by : String
  pub reviewed_at : Datetime
  pub review : s.review ≡ some (reviewed_by, reviewed_at)
  pub not_generated :
      (e : EvidenceSource)
      → Memᴰ e (evidence_of s.tasks s.ksao_requirements s.fja_profile)
      → e.origin_code ≢ "llm_draft"
  pub tasks_linked :
      (t : TaskEvidence)
      → Memᴰ t s.tasks
      → (l : TaskKsaoLink) × Memᴰ l s.task_ksao_links × (l.task_record_id ≡ t.task_record_id)
  pub ksaos_linked :
      (k : KsaoRequirement)
      → Memᴰ k s.ksao_requirements
      → (l : TaskKsaoLink) × Memᴰ l s.task_ksao_links × (l.ksao_record_id ≡ k.ksao_record_id)

both : (b c : Bool) → (b && c) ≡ true → c ≡ true
both true c h = h
both false c h = cc

true_of_not : (b : Bool) → (not b ≡ true → true ≡ false) → b ≡ true
true_of_not true k = refl
true_of_not false k = cc (k refl)

-- An identifier of the second list is in the first.
same_ids-mem : (xs ys : List ℕ) {y : ℕ} → same_ids xs ys ≡ true → Memᴰ y ys → Memᴰ y xs
same_ids-mem xs ys {y} h m =
    let missing = any_of-mem (λ z. not (any_of (λ x. x == z) xs)) ys m in
    let here : any_of (λ x. x == y) xs ≡ true = true_of_not _ (λ q.
      let r = missing q in
      let s =
        both (not (any_of (λ x. not (any_of (λ z. z == x) ys)) xs))
          (not (any_of (λ z. not (any_of (λ x. x == z) xs)) ys)) h in
      cc (r, s)) in
    let (x, n, e) = mem_of_any_of (λ x. x == y) xs here in
    let same : x ≡ y = ground arith in subst (λ z. Memᴰ z xs) same n

linked :
    {A : Type 0} (id_of : A → ℕ) (link_id : TaskKsaoLink → ℕ) (links : List TaskKsaoLink)
    (items : List A)
    → same_ids (map link_id links) (map id_of items) ≡ true
    → (a : A) → Memᴰ a items
    → (l : TaskKsaoLink) × Memᴰ l links × (link_id l ≡ id_of a)
linked id_of link_id links items h a m =
    let (l, n, e) = mem-map_cases link_id links (same_ids-mem _ _ h (map-mem id_of items m)) in
    (l, n, sym e)

review_of :
    (review : Option (String × Datetime))
    → is_reviewed review ≡ true
    → (by : String) × (at : Datetime) × (review ≡ some (by, at))
review_of none h = cc
review_of (some (by, at)) h = (by, at, refl)

accountable :
    (s : JobAnalysisSnapshot)
    → check_validated s.review
        (task_ids_of s.tasks)
        (ksao_ids_of s.ksao_requirements)
        s.task_ksao_links
        (evidence_of s.tasks s.ksao_requirements s.fja_profile)
      ≡ ok tt
    → IsAccountable s
unfolding check_validated
accountable s h =
    >>=-ok_elim
      (guard (is_reviewed s.review)
        (value_error "validated analysis requires accountable human review"))
      h
      λ u0 e0 h0.
        >>=-ok_elim
          (guard
            (same_ids (map (λ (l : TaskKsaoLink). l.task_record_id) s.task_ksao_links)
              (task_ids_of s.tasks))
            (value_error "validated analysis must link every task to at least one KSAO"))
          h0
          λ u1 e1 h1.
            >>=-ok_elim
              (guard
                (same_ids (map (λ (l : TaskKsaoLink). l.ksao_record_id) s.task_ksao_links)
                  (ksao_ids_of s.ksao_requirements))
                (value_error "validated analysis must link every KSAO to at least one task"))
              h1
              λ u2 e2 h2.
                let (by, at, reviewed) =
                  review_of s.review (guard-eq-ok (is_reviewed s.review) _ e0) in
                let sources = evidence_of s.tasks s.ksao_requirements s.fja_profile in
                let clean : not
                      (any_of (λ (e : EvidenceSource). str_eq e.origin_code "llm_draft") sources)
                    ≡ true =
                  guard-eq-ok _ _ h2 in
                record {
                  reviewed_by = by;
                  reviewed_at = at;
                  review = reviewed;
                  not_generated = λ e m q.
                      let found =
                        any_of-mem (λ (e : EvidenceSource). str_eq e.origin_code "llm_draft")
                          sources m ((eq_iff e.origin_code "llm_draft").1 q) in
                      cc (found, clean);
                  tasks_linked =
                      linked (λ (t : TaskEvidence). t.task_record_id)
                        (λ (l : TaskKsaoLink). l.task_record_id) s.task_ksao_links s.tasks
                        (guard-eq-ok
                          (same_ids (map (λ (l : TaskKsaoLink). l.task_record_id) s.task_ksao_links)
                            (task_ids_of s.tasks))
                          _ e1);
                  ksaos_linked =
                      linked (λ (k : KsaoRequirement). k.ksao_record_id)
                        (λ (l : TaskKsaoLink). l.ksao_record_id) s.task_ksao_links
                        s.ksao_requirements
                        (guard-eq-ok
                          (same_ids (map (λ (l : TaskKsaoLink). l.ksao_record_id) s.task_ksao_links)
                            (ksao_ids_of s.ksao_requirements))
                          _ e2);
                }

-- A snapshot that is constructed with the status analysis_validated is accountable: a person has
-- reviewed it, no evidence comes from a language model, and each task and each requirement is
-- linked.
pub job_analysis_snapshot-IsAccountable :
    (analysis_record_id tenant_record_id job_record_id analysis_version_code status_code
      effective_from recorded_at : Value)
    (tasks : Option (List TaskEvidence)) (ksao_requirements : Option (List KsaoRequirement))
    (task_ksao_links : Option (List (Option TaskKsaoLink)))
    (fja_profile : Option FunctionalJobAnalysisProfile)
    (reviewed_by_reference reviewed_at : Option Value) (snapshot : JobAnalysisSnapshot)
    → job_analysis_snapshot analysis_record_id tenant_record_id job_record_id analysis_version_code
        status_code effective_from recorded_at tasks ksao_requirements task_ksao_links fja_profile
        reviewed_by_reference reviewed_at
      ≡ ok snapshot
    → snapshot.status_code ≡ "analysis_validated"
    → IsAccountable snapshot
unfolding job_analysis_snapshot
job_analysis_snapshot-IsAccountable analysis_record_id tenant_record_id job_record_id
      analysis_version_code status_code effective_from recorded_at tasks ksao_requirements
      task_ksao_links fja_profile reviewed_by_reference reviewed_at snapshot h validated =
    >>=-ok_elim (validate_uuid analysis_record_id "analysis_record_id") h λ analysis e0 h0.
      >>=-ok_elim (validate_uuid tenant_record_id "tenant_record_id") h0 λ tenant e1 h1.
        >>=-ok_elim (validate_uuid job_record_id "job_record_id") h1 λ job e2 h2.
          >>=-ok_elim (validate_version analysis_version_code "analysis_version_code") h2
            λ version e3 h3.
              >>=-ok_elim (validate_code status_code "status_code") h3 λ status e4 h4.
                >>=-ok_elim
                  (guard (any_of (str_eq status) allowed_status_codes)
                    (value_error "status_code is not an allowed analysis status"))
                  h4
                  λ u5 e5 h5.
                    >>=-ok_elim (validate_effective_date effective_from) h5 λ effective e6 h6.
                      >>=-ok_elim (validate_aware_datetime recorded_at "recorded_at") h6
                        λ recorded e7 h7.
                          >>=-ok_elim (require_items "tasks must be a non-empty tuple" tasks) h7
                            λ task_items e8 h8.
                              >>=-ok_elim
                                (require_items "ksao_requirements must be a non-empty tuple"
                                  ksao_requirements)
                                h8
                                λ ksao_items e9 h9.
                                  >>=-ok_elim
                                    (require_items "task_ksao_links must be a non-empty tuple"
                                      task_ksao_links)
                                    h9
                                    λ link_items e10 h10.
                                      >>=-ok_elim (require_profile fja_profile) h10
                                        λ profile e11 h11.
                                          >>=-ok_elim
                                            (for_each (check_scope tenant job) (
                                              map
                                                (λ (t : TaskEvidence).
                                                  (t.tenant_record_id, t.job_record_id))
                                                task_items
                                              ++ (map
                                                    (λ (k : KsaoRequirement).
                                                      (k.tenant_record_id, k.job_record_id))
                                                    ksao_items
                                                  ++ ((
                                                    profile.tenant_record_id, profile.job_record_id,
                                                  )
                                                      ∷ []))))
                                            h11
                                            λ u12 e12 h12.
                                              >>=-ok_elim
                                                (any_after recorded
                                                  (evidence_of task_items ksao_items profile))
                                                h12
                                                λ unretrieved e13 h13.
                                                  >>=-ok_elim
                                                    (guard (not unretrieved) (
                                                      value_error
                                                        "retrieved_at must not be later than recorded_at"))
                                                    h13
                                                    λ u14 e14 h14.
                                                      >>=-ok_elim
                                                        (guard
                                                          (not
                                                            (has_repeated (task_ids_of task_items)))
                                                          (value_error
                                                            "task_record_id values must be unique"))
                                                        h14
                                                        λ u15 e15 h15.
                                                          >>=-ok_elim
                                                            (guard
                                                            (not
                                                            (has_repeated (ksao_ids_of ksao_items)))
                                                            (value_error
                                                            "ksao_record_id values must be unique"))
                                                            h15
                                                            λ u16 e16 h16.
                                                            >>=-ok_elim
                                                            (check_links (task_ids_of task_items)
                                                            (ksao_ids_of ksao_items) [] link_items)
                                                            h16
                                                            λ links e17 h17.
                                                            >>=-ok_elim
                                                            (check_review recorded
                                                            (evidence_of task_items ksao_items
                                                            profile)
                                                            reviewed_by_reference reviewed_at)
                                                            h17
                                                            λ review e18 h18.
                                                            >>=-ok_elim
                                                            (if str_eq status "analysis_validated"
                                                            then check_validated review
                                                            (task_ids_of task_items)
                                                            (ksao_ids_of ksao_items) links
                                                            (evidence_of task_items ksao_items
                                                            profile)
                                                            else ok tt)
                                                            h18
                                                            λ u19 e19 h19.
                                                            let same = ok_kept h19 in
                                                            let status_is : status
                                                            ≡ "analysis_validated" =
                                                            sym (
                                                            ap
                                                            (λ (s : JobAnalysisSnapshot).
                                                            s.status_code)
                                                            same)
                                                            ∙ validated in
                                                            accountable snapshot (
                                                            cc (
                                                            same,
                                                            checked_when _
                                                            ((eq_iff status "analysis_validated").1
                                                            status_is)
                                                            e19,
                                                            ))
  where
    checked_when :
        {m : Result Error (Unit {0})} (b : Bool)
        → b ≡ true
        → (if b then m else ok tt) ≡ ok tt
        → m ≡ ok tt
    checked_when true t q = q
    checked_when false t q = cc
