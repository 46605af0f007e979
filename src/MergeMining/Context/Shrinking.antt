-- ===== src/MergeMining/Context/Shrinking.antt =====
-- src/merge_mining.rs: the eviction loops add no key to any table and keep the announcements.
use demand_cli.Prelude.{ℕ, zero, suc, ◌≡◌, refl, ◌⊎◌, inr, true, none, List, length, arith}
use demand_cli.Prelude.Map.{get, contains_key, get-insert}
use demand_cli.MergeMining.Types.{ContextState, TemplateDraft, JobBinding}
use demand_cli.MergeMining.Context.{
  remove_template_generation, evict_templates, insert_template, inserted_template, evict_jobs,
  insert_job, inserted_job, remove_binding,
}
use demand_cli.MergeMining.Context.Removal.{removed-frame, get-remove_binding, remove_binding-frame}
use demand_cli.MergeMining.Context.Invariant.{evict_templates_round}
use demand_cli.MergeMining.Context.Jobs.{evict_jobs_round}

-- At each key the second state has the entry of the first, or none.
abbrev pub Shrinks : ContextState → ContextState → Type 0
Shrinks s r =
    ((k : ℕ) → (get k r.templates ≡ none) ⊎ (get k r.templates ≡ get k s.templates))
    × ((k : ℕ) → (get k r.jobs ≡ none) ⊎ (get k r.jobs ≡ get k s.jobs))
    × (r.job_announcements ≡ s.job_announcements)

Shrinks-refl : (s : ContextState) → Shrinks s s
Shrinks-refl s = (λ k. inr refl, λ k. inr refl, refl)

Shrinks-trans : (s r q : ContextState) → Shrinks s r → Shrinks r q → Shrinks s q
Shrinks-trans s r q f g =
    (λ k. ground (arith, f.0 k, g.0 k), λ k. ground (arith, f.1 k, g.1 k), ground (arith, f.2, g.2))

pub removal-Shrinks :
    (s : ContextState) (order : List ℕ) (g : ℕ)
    → Shrinks s (remove_template_generation (record s { template_order = order }) g)
removal-Shrinks s order g =
    let s' : ContextState = record s { template_order = order } in
    (
      λ k. ground (arith, removed-frame s' g k),
      λ k. ground (arith, removed-frame s' g k),
      ground (arith, removed-frame s' g 0),
    )

evict_templates-Shrinks :
    (fuel : ℕ) (s : ContextState) (g : ℕ) → Shrinks s (evict_templates fuel s g).0
evict_templates-Shrinks zero s g = unfold evict_templates in Shrinks-refl s
evict_templates-Shrinks (suc fuel) s g =
    evict_templates_round (λ r. Shrinks s r.0) fuel s g (λ _. (Shrinks-refl s))
      (λ _ _. removal-Shrinks s s.template_order g)
      (λ x rest _ _.
        let s' : ContextState = record s { template_order = rest } in
        let q = remove_template_generation s' x in
        Shrinks-trans s q (evict_templates fuel q g).0 (removal-Shrinks s rest x)
          (evict_templates-Shrinks fuel q g))

pub insert_template-keys :
    (s : ContextState) (g : ℕ) (draft : TemplateDraft) (k : ℕ)
    → let r = (insert_template s g draft).0 in
      (contains_key k r.templates ≡ true → (k ≡ g) ⊎ (contains_key k s.templates ≡ true))
      × ((get k r.jobs ≡ none) ⊎ (get k r.jobs ≡ get k s.jobs))
      × (r.job_announcements ≡ s.job_announcements)
unfolding insert_template inserted_template
insert_template-keys s g draft k =
    let s' = inserted_template s g draft in
    let q = evict_templates-Shrinks (length s'.template_order) s' g in
    (λ h. ground (arith, q.0 k, get-insert g k draft s.templates), q.1 k, q.2)

evict_jobs-Shrinks : (fuel : ℕ) (s : ContextState) → Shrinks s (evict_jobs fuel s)
evict_jobs-Shrinks zero s = unfold evict_jobs in Shrinks-refl s
evict_jobs-Shrinks (suc fuel) s =
    evict_jobs_round (Shrinks s) fuel s (λ _. (Shrinks-refl s)) (λ _. (Shrinks-refl s))
      (λ x rest _.
        let s' : ContextState = record s { job_order = rest } in
        Shrinks-trans s (remove_binding s' x) (evict_jobs fuel (remove_binding s' x))
          (
            λ k. ground (arith, remove_binding-frame s' x),
            λ k. ground (arith, get-remove_binding s' x k),
            ground (arith, remove_binding-frame s' x),
          )
          (evict_jobs-Shrinks fuel (remove_binding s' x)))

pub insert_job-keys :
    (s : ContextState) (job : JobBinding) (k : ℕ)
    → (k ≡ job.binding_id)
      ⊎ (get k (insert_job s job).jobs ≡ none)
      ⊎ (get k (insert_job s job).jobs ≡ get k s.jobs)
unfolding insert_job inserted_job
insert_job-keys s job k =
    let s' = inserted_job s job in
    ground (
      arith,
      (evict_jobs-Shrinks (length s'.job_order) s').1 k,
      get-insert job.binding_id k job s.jobs,
    )
