-- ===== src/MergeMining/Context/Jobs.antt =====
-- src/merge_mining.rs, `insert_job` and `announce_job`: the table of job bindings and the queue of
-- announcements are bounded, and protected bindings stay.
use demand_cli.Prelude.{
  ℕ, zero, suc, ◌≤◌, ◌≡◌, ◌≢◌, ◌⊎◌, inl, inr, refl, Bool, true, false, Option, none, some, List, [],
  ◌∷◌, length, contains, arith, ltb, Bool-cases, pop_front, length-append, Option-cases,
  remove_first,
}
use demand_cli.Prelude.Map.{get, contains_key, get-insert, insert-IsUnique}
use demand_cli.MergeMining.Types.{ContextState, JobBinding, max_jobs, max_job_announcements}
use demand_cli.MergeMining.Context.{
  remove_binding, is_unprotected, evict_jobs, inserted_job, insert_job, announce_job,
}
use demand_cli.MergeMining.Context.Tables.{
  IsConsistent, contains-append, append-IsNodup, remove_first_lem, remove_first-IsNodup,
}
use demand_cli.MergeMining.Context.Removal.{
  get-remove_binding, remove_binding-current, remove_binding-frame, remove_binding-IsUnique,
}
use demand_cli.MergeMining.Context.Templates.{IsProtected}

-- A new binding of a template that is still kept.
pub record CanBind (s : ContextState) (job : JobBinding) : Type 0 where
  pub consistent : IsConsistent s
  pub unused : get job.binding_id s.jobs ≡ none
  pub template_kept : contains_key job.template_generation s.templates ≡ true

inserted_job-IsConsistent :
    (s : ContextState) (job : JobBinding) → CanBind s job → IsConsistent (inserted_job s job)
unfolding inserted_job
inserted_job-IsConsistent s job can =
    let c = can.consistent in
    record {
      kept = λ b j e.
          ground (arith, c.kept b j, get-insert job.binding_id b job s.jobs, can.template_kept);
      current_templates = c.current_templates;
      current_jobs = λ j b e. ground (
        arith,
        c.current_jobs j b,
        can.unused,
        get-insert job.binding_id b job s.jobs,
        get-insert job.job_id j job.binding_id s.current_jobs,
      );
      template_keys = c.template_keys;
      job_keys = λ b. ground (
        arith,
        c.job_keys b,
        contains-append s.job_order (job.binding_id ∷ []) b,
        get-insert job.binding_id b job s.jobs,
      );
      bindings_once = insert-IsUnique job.binding_id job s.jobs c.bindings_once;
      current_jobs_once =
          insert-IsUnique job.job_id job.binding_id s.current_jobs c.current_jobs_once;
      job_order_once =
          append-IsNodup s.job_order job.binding_id c.job_order_once
            (ground (arith, c.job_keys job.binding_id, can.unused));
      active = λ b e. ground (arith, c.active b, get-insert job.binding_id b job s.jobs);
      pending = λ b e. ground (arith, c.pending b, get-insert job.binding_id b job s.jobs);
    }

-- An unprotected binding may go.
evicted-IsConsistent :
    (s : ContextState) (x : ℕ) (rest : List ℕ)
    → IsConsistent s
    → remove_first (is_unprotected s) s.job_order ≡ some (x, rest)
    → IsConsistent (remove_binding (record s { job_order = rest }) x)
unfolding is_unprotected
evicted-IsConsistent s x rest c e =
    let s' : ContextState = record s { job_order = rest } in
    let f = remove_binding-frame s' x in
    record {
      kept = λ b j h. ground (arith, f, c.kept b j, get-remove_binding s' x b);
      current_templates = λ t g h. ground (arith, f, c.current_templates t g);
      current_jobs = remove_binding-current s' x c.current_jobs;
      template_keys = λ k. ground (arith, f, c.template_keys k);
      job_keys = λ b. ground (
        arith,
        f,
        c.job_keys b,
        get-remove_binding s' x b,
        remove_first_lem (is_unprotected s) s.job_order x rest b e,
        remove_first-IsNodup (is_unprotected s) s.job_order x rest e c.job_order_once,
      );
      bindings_once = (remove_binding-IsUnique s' x c.bindings_once c.current_jobs_once).0;
      current_jobs_once = (remove_binding-IsUnique s' x c.bindings_once c.current_jobs_once).1;
      job_order_once =
          ground (
            arith,
            f,
            remove_first-IsNodup (is_unprotected s) s.job_order x rest e c.job_order_once,
          );
      active = λ b h. ground (
        arith,
        f,
        c.active b,
        get-remove_binding s' x b,
        remove_first_lem (is_unprotected s) s.job_order x rest b e,
      );
      pending = λ b h. ground (
        arith,
        f,
        c.pending b,
        get-remove_binding s' x b,
        remove_first_lem (is_unprotected s) s.job_order x rest b e,
      );
    }

pub evict_jobs_round :
    (P : ContextState → Type 0) (fuel : ℕ) (s : ContextState)
    → (length s.job_order ≤ max_jobs → P s)
    → (remove_first (is_unprotected s) s.job_order ≡ none → P s)
    → ((x : ℕ) (rest : List ℕ)
        → remove_first (is_unprotected s) s.job_order ≡ some (x, rest)
        → P (evict_jobs fuel (remove_binding (record s { job_order = rest }) x)))
    → P (evict_jobs (suc fuel) s)
unfolding evict_jobs
evict_jobs_round P fuel s fits stuck evicts =
    elim (Bool-cases (ltb max_jobs (length s.job_order))) [
      | inl over ↦ elim (Option-cases (remove_first (is_unprotected s) s.job_order)) [
        | inl e ↦ rw (over, e, evict_jobs) (stuck e)
        | inr ((x, rest), e) ↦ rw (over, e, evict_jobs) (evicts x rest e)
      ]
      | inr under ↦ rw (under, evict_jobs) (fits (ground arith))
    ]

evict_jobs-IsConsistent :
    (fuel : ℕ) (s : ContextState) → IsConsistent s → IsConsistent (evict_jobs fuel s)
evict_jobs-IsConsistent zero s c = unfold evict_jobs in c
evict_jobs-IsConsistent (suc fuel) s c =
    evict_jobs_round IsConsistent fuel s (λ _. c) (λ _. c)
      (λ x rest e. evict_jobs-IsConsistent fuel _ (evicted-IsConsistent s x rest c e))

-- Either the table is within its limit, or every binding in it is protected.
abbrev pub Settled : ContextState → Type 0
Settled s =
    (length s.job_order ≤ max_jobs) ⊎ ((b : ℕ) → contains s.job_order b ≡ true → IsProtected s b)

remove_first-none :
    (p : ℕ → Bool) (xs : List ℕ) (b : ℕ)
    → remove_first p xs ≡ none
    → contains xs b ≡ true
    → p b ≡ false
remove_first-none p [] b e h = cc
remove_first-none p (x ∷ xs) b e h = elim (Option-cases (remove_first p xs)) [
  | inl missing ↦ ground (arith, missing, remove_first-none p xs b missing)
  | inr (found, e') ↦ ground (arith, e')
]

all-IsProtected :
    (s : ContextState) (b : ℕ)
    → remove_first (is_unprotected s) s.job_order ≡ none
    → contains s.job_order b ≡ true
    → IsProtected s b
unfolding is_unprotected
all-IsProtected s b e h = ground (arith, remove_first-none (is_unprotected s) s.job_order b e h)

evict_jobs-Settled :
    (fuel : ℕ) (s : ContextState) → length s.job_order ≤ fuel → Settled (evict_jobs fuel s)
evict_jobs-Settled zero s h = unfold evict_jobs in inl (omega arith)
evict_jobs-Settled (suc fuel) s h =
    evict_jobs_round Settled fuel s (λ u. inl u) (λ e. inr (λ b m. all-IsProtected s b e m))
      (λ x rest e.
        let s' : ContextState = record s { job_order = rest } in
        evict_jobs-Settled fuel (remove_binding s' x) (
          ground (
            arith,
            remove_binding-frame s' x,
            remove_first_lem (is_unprotected s) s.job_order x rest 0 e,
          )))

evicted_unprotected :
    (s : ContextState) (x b : ℕ) (rest : List ℕ)
    → remove_first (is_unprotected s) s.job_order ≡ some (x, rest)
    → IsProtected s b
    → x ≢ b
unfolding is_unprotected
evicted_unprotected s x b rest e p =
    ground (arith, remove_first_lem (is_unprotected s) s.job_order x rest 0 e)

evict_jobs-keeps :
    (fuel : ℕ) (s : ContextState) (b : ℕ) (job : JobBinding)
    → get b s.jobs ≡ some job
    → IsProtected s b
    → (get b (evict_jobs fuel s).jobs ≡ some job) × IsProtected (evict_jobs fuel s) b
evict_jobs-keeps zero s b job e p = unfold evict_jobs in (e, p)
evict_jobs-keeps (suc fuel) s b job e p =
    evict_jobs_round (λ r. (get b r.jobs ≡ some job) × IsProtected r b) fuel s (λ _. (e, p))
      (λ _. (e, p))
      (λ x rest picked.
        let s' : ContextState = record s { job_order = rest } in
        let q = evicted_unprotected s x b rest picked p in
        evict_jobs-keeps fuel (remove_binding s' x) b job
          (ground (arith, get-remove_binding s' x b)) (ground (arith, remove_binding-frame s' x)))

-- The other tables are left alone.
evict_jobs-frame :
    (fuel : ℕ) (s : ContextState)
    → ((evict_jobs fuel s).templates ≡ s.templates)
      × ((evict_jobs fuel s).template_order ≡ s.template_order)
      × ((evict_jobs fuel s).job_announcements ≡ s.job_announcements)
      × ((evict_jobs fuel s).active_binding ≡ s.active_binding)
evict_jobs-frame zero s = unfold evict_jobs in (refl, refl, refl, refl)
evict_jobs-frame (suc fuel) s =
    evict_jobs_round
      (λ r.
        (r.templates ≡ s.templates)
        × (r.template_order ≡ s.template_order)
        × (r.job_announcements ≡ s.job_announcements)
        × (r.active_binding ≡ s.active_binding))
      fuel s (λ _. (refl, refl, refl, refl)) (λ _. (refl, refl, refl, refl))
      (λ x rest e.
        let s' : ContextState = record s { job_order = rest } in
        ground (arith, remove_binding-frame s' x, evict_jobs-frame fuel (remove_binding s' x)))

-- `insert_job` keeps the tables consistent, and stops with at most 256 bindings unless each of
-- those that remain is protected; templates and announcements stay.
pub insert_job_lem :
    (s : ContextState) (job : JobBinding)
    → CanBind s job
    → IsConsistent (insert_job s job)
      × Settled (insert_job s job)
      × ((insert_job s job).templates ≡ s.templates)
      × ((insert_job s job).template_order ≡ s.template_order)
      × ((insert_job s job).job_announcements ≡ s.job_announcements)
unfolding insert_job inserted_job
insert_job_lem s job can =
    let s' = inserted_job s job in
    let fuel = length s'.job_order in
    let f = evict_jobs-frame fuel s' in
    (
      evict_jobs-IsConsistent fuel s' (inserted_job-IsConsistent s job can),
      evict_jobs-Settled fuel s' (omega arith),
      f.0,
      f.1,
      f.2,
    )

-- Whatever `insert_job` evicts, the active binding and those that wait for their activation stay.
pub insert_job_keeps_IsProtected :
    (s : ContextState) (job kept : JobBinding) (b : ℕ)
    → CanBind s job
    → get b s.jobs ≡ some kept
    → IsProtected s b
    → (get b (insert_job s job).jobs ≡ some kept) × IsProtected (insert_job s job) b
unfolding insert_job inserted_job
insert_job_keeps_IsProtected s job kept b can e p =
    let s' = inserted_job s job in
    evict_jobs-keeps (length s'.job_order) s' b kept
      (ground (arith, get-insert job.binding_id b job s.jobs, can.unused)) p

-- The queue of announcements keeps its newest 256 entries.
pub announce_job-bound :
    (s : ContextState) (job_id : ℕ) (binding : Option ℕ)
    → length s.job_announcements ≤ max_job_announcements
    → length (announce_job s job_id binding).job_announcements ≤ max_job_announcements
unfolding announce_job
announce_job-bound s job_id binding h = ground (
  arith,
  length-append {0} s.job_announcements ((job_id, binding) ∷ []),
  length-append {0} (pop_front s.job_announcements) ((job_id, binding) ∷ []),
)
