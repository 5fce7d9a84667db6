-- ===== src/Kernel/Workforce/Reported.antt =====
-- Which versions a report of
-- packages/hris-kernel/src/orgmetra_hris_kernel/workforce.py counts: each of them, and once.
use mathlib.Core.List.{Memᴰ}
use orgmetra.Base.{
  ◌⊎◌, ℕ, ◌≡◌, ◌↔◌, ◌==◌, ==_iff, sym, subst, ap, ◌∙◌, Bool-cases, Option, none, some, List, [],
  ◌∷◌, map, mem-keep_if, mem-cons_cases, mem-if_cons, if_cons-mem, mem-map_cases, map-mem, inl, inr,
  if◌then◌else◌, ok, ok_kept,
}
use orgmetra.Kernel.Intervals.{Datetime}
use orgmetra.Kernel.Facts.{EmploymentVersion, employment_fact}
use orgmetra.Kernel.Resolution.{resolve_single_valued_fact}
use orgmetra.Kernel.Resolution.Laws.{
  resolve_single_valued_fact-some, resolve_single_valued_fact-none,
}
use orgmetra.Kernel.Organization.Walk.{IsDistinct}
use orgmetra.Kernel.Workforce.{visible_employments_of, visible_employments}
use orgmetra.Kernel.Workforce.Sorted.{
  IsAscending-IsDistinct, sorted_ids-IsAscending, sorted_ids-mem,
}
use orgmetra.Kernel.Workforce.Visible.{
  IsReportable, included, status_of_included, included_of_status, VisibleAs, VisibleAs-id,
  VisibleAs-of, round,
}

module _ (versions : List EmploymentVersion) (tenant day : ℕ) (known_at : Datetime) where
  -- What the loop keeps is a reportable version of one of the identities.
  reported_of_mem :
      (ids : List ℕ) (out : List EmploymentVersion)
      → visible_employments_of versions tenant day known_at ids ≡ ok out
      → {v : EmploymentVersion} → Memᴰ v out
      → Memᴰ v versions × IsReportable tenant day known_at v × Memᴰ v.employment_record_id ids
  unfolding visible_employments_of
  reported_of_mem [] out h m = elim (subst (Memᴰ _) (ok_kept h) m) [ ]
  reported_of_mem (id ∷ ids) out h {v} m =
      let (resolved, rest, e, e', same) = round versions tenant day known_at id ids out h in
      by_resolved resolved rest e (reported_of_mem ids rest e') (subst (Memᴰ v) same m)
    where
      by_resolved :
          (resolved : Option EmploymentVersion) (rest : List EmploymentVersion)
          → resolve_single_valued_fact versions tenant "employment_record_id" id day known_at
            ≡ ok resolved
          → (Memᴰ v rest
              → Memᴰ v versions
                × IsReportable tenant day known_at v
                × Memᴰ v.employment_record_id ids)
          → Memᴰ v (elim resolved as (λ x. List EmploymentVersion) [
            | none ↦ rest
            | some version ↦ if included version then version ∷ rest else rest
          ])
          → Memᴰ v versions
            × IsReportable tenant day known_at v
            × Memᴰ v.employment_record_id (id ∷ ids)
      by_resolved none rest e later n = let r = later n in (r.0, r.1, Memᴰ.tail r.2)
      by_resolved (some w) rest e later n = elim (mem-if_cons (included w) w v rest n) [
        | inl here ↦
            let (there, seen, only) =
              resolve_single_valued_fact-some tenant "employment_record_id" id day known_at versions
                w e in
            let same : w ≡ v = sym here.0 in
            (
              subst (λ z. Memᴰ z versions) same there,
              subst (IsReportable tenant day known_at) same (record {
                of_tenant = seen.of_tenant;
                in_effect = seen.in_effect;
                known = seen.known;
                status = status_of_included w here.1;
              }),
              Memᴰ.head (
                  ap (λ (z : EmploymentVersion). z.employment_record_id) here.0
                  ∙ VisibleAs-id versions tenant day known_at id w seen),
            )
        | inr n' ↦ let r = later n' in (r.0, r.1, Memᴰ.tail r.2)
      ]

  -- The loop keeps every reportable version of the identities.
  mem_of_reported :
      (ids : List ℕ) (out : List EmploymentVersion)
      → visible_employments_of versions tenant day known_at ids ≡ ok out
      → {v : EmploymentVersion} → Memᴰ v versions
      → IsReportable tenant day known_at v
      → Memᴰ v.employment_record_id ids
      → Memᴰ v out
  mem_of_reported [] out h m r i = elim i [ ]
  mem_of_reported (id ∷ ids) out h {v} m r i =
      let (resolved, rest, e, e', same) = round versions tenant day known_at id ids out h in
      subst (Memᴰ v) (sym same) (
        by_resolved resolved rest e (elim (mem-cons_cases i) [
          | inl here ↦ inl here
          | inr later ↦ inr (mem_of_reported ids rest e' m r later)
        ]))
    where
      by_resolved :
          (resolved : Option EmploymentVersion) (rest : List EmploymentVersion)
          → resolve_single_valued_fact versions tenant "employment_record_id" id day known_at
            ≡ ok resolved
          → (v.employment_record_id ≡ id) ⊎ Memᴰ v rest
          → Memᴰ v (elim resolved as (λ x. List EmploymentVersion) [
            | none ↦ rest
            | some version ↦ if included version then version ∷ rest else rest
          ])
      by_resolved none rest e (inr n) = n
      by_resolved none rest e (inl here) = absurd (
          resolve_single_valued_fact-none tenant "employment_record_id" id day known_at versions e v
            m
            (subst (λ k. VisibleAs versions tenant day known_at k v) here
              (VisibleAs-of versions tenant day known_at v r)))
      by_resolved (some w) rest e (inr n) = if_cons-mem (included w) w v rest (inr n)
      by_resolved (some w) rest e (inl here) =
          let (there, seen, only) =
            resolve_single_valued_fact-some tenant "employment_record_id" id day known_at versions w
              e in
          let same : v ≡ w = only v m (
            subst (λ k. VisibleAs versions tenant day known_at k v) here
              (VisibleAs-of versions tenant day known_at v r)) in
          if_cons-mem (included w) w v rest
            (inl (same, ap included (sym same) ∙ included_of_status v r.status))

  reported_ids-IsDistinct :
      (ids : List ℕ) (out : List EmploymentVersion)
      → visible_employments_of versions tenant day known_at ids ≡ ok out
      → IsDistinct ids
      → IsDistinct (map (λ v. v.employment_record_id) out)
  unfolding visible_employments_of
  reported_ids-IsDistinct [] out h d =
      subst (λ z. IsDistinct (map (λ (v : EmploymentVersion). v.employment_record_id) z))
        (sym (ok_kept h)) tt
  reported_ids-IsDistinct (id ∷ ids) out h d =
      let (resolved, rest, e, e', same) = round versions tenant day known_at id ids out h in
      subst (λ z. IsDistinct (map (λ (v : EmploymentVersion). v.employment_record_id) z)) (sym same)
        (by_resolved resolved rest e (λ v n. reported_of_mem ids rest e' n)
          (reported_ids-IsDistinct ids rest e' d.1))
    where
      by_resolved :
          (resolved : Option EmploymentVersion) (rest : List EmploymentVersion)
          → resolve_single_valued_fact versions tenant "employment_record_id" id day known_at
            ≡ ok resolved
          → ((v : EmploymentVersion)
              → Memᴰ v rest
              → Memᴰ v versions
                × IsReportable tenant day known_at v
                × Memᴰ v.employment_record_id ids)
          → IsDistinct (map (λ v. v.employment_record_id) rest)
          → IsDistinct (
              map
                (λ v. v.employment_record_id)
                (elim resolved as (λ x. List EmploymentVersion) [
                  | none ↦ rest
                  | some version ↦ if included version then version ∷ rest else rest
                ]))
      by_resolved none rest e later distinct_rest = distinct_rest
      by_resolved (some w) rest e later distinct_rest = elim (Bool-cases (included w)) [
        | inl yes' ↦ rw yes' (
          λ m.
              let (v, n, same) =
                mem-map_cases (λ (v : EmploymentVersion). v.employment_record_id) rest m in
              let (there, seen, only) =
                resolve_single_valued_fact-some tenant "employment_record_id" id day known_at
                  versions w e in
              let w_id = VisibleAs-id versions tenant day known_at id w seen in
              d.0 (subst (λ k. Memᴰ k ids) (sym same ∙ w_id) (later v n).2),
          distinct_rest,
        )
        | inr not' ↦ rw not' distinct_rest
      ]

  -- The employments of a report: every reportable version, and one for each identity.
  pub visible_employments_iff :
      (out : List EmploymentVersion)
      → visible_employments versions tenant day known_at ≡ ok out
      → ((v : EmploymentVersion)
          → Memᴰ v out ↔ (Memᴰ v versions × IsReportable tenant day known_at v))
        × IsDistinct (map (λ v. v.employment_record_id) out)
  unfolding visible_employments
  visible_employments_iff out h = (
    λ v. (
      λ m. let r = reported_of_mem _ out h m in (r.0, r.1),
      λ (m, r). mem_of_reported _ out h m r (
          sorted_ids-mem _ (
            map-mem (λ (v : EmploymentVersion). v.employment_record_id) _
              (mem-keep_if (λ (v : EmploymentVersion). v.tenant_record_id == tenant) versions m
                ((==_iff v.tenant_record_id tenant).1 r.of_tenant)))),
    ),
    reported_ids-IsDistinct _ out h (IsAscending-IsDistinct _ (sorted_ids-IsAscending _)),
  )
