-- ===== src/MergeMining/Context.antt =====
-- src/merge_mining.rs: the free functions on `ContextState`. The eviction loops run on fuel, the
-- length of the queue that they shorten: each round takes an entry off it.
pub mod Tables
pub mod Removal
pub mod Invariant
pub mod Templates
pub mod Jobs
pub mod Shrinking
use demand_cli.Prelude.{
  ℕ, zero, suc, Bool, true, false, not, ◌&&◌, ◌||◌, Option, none, some, List, [], ◌∷◌, ◌++◌, length,
  retain, any, remove_first, contains, pop_front, ltb, leb, ◌==◌, if◌then◌else◌, is_some_and,
  and_then, option_eq,
}
use demand_cli.Prelude.Map.{HashMap, get, insert, remove}
use demand_cli.MergeMining.Types.{
  ContextState, TemplateDraft, JobBinding, max_templates, max_jobs, max_job_announcements,
}

-- The values of a map, for `values().any(..)`.
abbrev pub any_value {ℓ} : {V : Type ℓ} → (V → Bool) → HashMap V → Bool
any_value p m = any (λ entry. p entry.1) m

-- The keys whose values pass a test, for `iter().filter_map(..)`.
abbrev pub keys_where {ℓ} : {V : Type ℓ} → (V → Bool) → HashMap V → List ℕ
keys_where p [] = []
keys_where p ((k, v) ∷ m) = if p v then k ∷ keys_where p m else keys_where p m

abbrev pub of_generation : ℕ → JobBinding → Bool
of_generation generation job = job.template_generation == generation

-- `map.remove(key)` if the map sends the key to that value.
pub remove_if_current : ℕ → ℕ → HashMap ℕ → HashMap ℕ
remove_if_current k v m = if is_some_and (get k m) (λ w. w == v) then remove k m else m

unfoldable pub invalidate_current_template : ContextState → ℕ → ContextState
invalidate_current_template state template_id = record state {
  current_templates = remove template_id state.current_templates;
  current_jobs =
      retain
        (λ entry.
          is_some_and (get entry.1 state.jobs) (λ job. not (job.template_id == template_id)))
        state.current_jobs;
}

unfoldable pub generation_is_protected : ContextState → ℕ → Bool
generation_is_protected state generation =
    is_some_and (and_then state.active_binding (λ b. get b state.jobs)) (of_generation generation)
    || any (λ b. is_some_and (get b state.jobs) (of_generation generation))
        state.pending_activation_bindings

-- The removal of one expired binding, from `jobs` and from `current_jobs`.
pub remove_binding : ContextState → ℕ → ContextState
unfolding remove_if_current
remove_binding state binding_id = elim (get binding_id state.jobs) [
  | none ↦ state
  | some job ↦ record state {
    jobs = remove binding_id state.jobs;
    current_jobs = remove_if_current job.job_id binding_id state.current_jobs;
  }
]

pub remove_bindings : ContextState → List ℕ → ContextState
remove_bindings state [] = state
remove_bindings state (b ∷ bs) = remove_bindings (remove_binding state b) bs

-- The first half of `remove_template_generation`: the template and its place in the queue.
pub drop_template : ContextState → ℕ → ContextState
unfolding remove_if_current
drop_template state generation =
    let order = retain (λ candidate. not (candidate == generation)) state.template_order in
    elim (get generation state.templates) [
      | none ↦ record state { template_order = order }
      | some template ↦ record state {
        template_order = order;
        templates = remove generation state.templates;
        current_templates =
            remove_if_current template.template_id generation state.current_templates;
      }
    ]

pub remove_template_generation : ContextState → ℕ → ContextState
unfolding drop_template remove_bindings
remove_template_generation state generation =
    let expired_bindings = keys_where (of_generation generation) state.jobs in
    let cleared = remove_bindings (drop_template state generation) expired_bindings in
    record cleared {
      active_binding =
          if is_some_and cleared.active_binding (contains expired_bindings)
          then none
          else cleared.active_binding;
      pending_activation_bindings =
          retain (λ b. not (contains expired_bindings b)) cleared.pending_activation_bindings;
      job_order = retain (λ b. not (contains expired_bindings b)) cleared.job_order;
    }

-- The generation to evict: one that no job uses, else one that is neither protected nor announced.
pub is_unused : ContextState → ℕ → ℕ → Bool
is_unused state generation candidate =
    not (candidate == generation) && not (any_value (of_generation candidate) state.jobs)

pub is_evictable : ContextState → ℕ → ℕ → Bool
unfolding generation_is_protected
is_evictable state generation candidate =
    not (candidate == generation)
    && not (generation_is_protected state candidate)
    && not (
        any
          (λ announced.
            is_some_and (and_then announced.1 (λ b. get b state.jobs)) (of_generation candidate))
          state.job_announcements)

pub or_else {ℓ} : {A : Type ℓ} → Option A → Option A → Option A
or_else none other = other
or_else (some a) other = some a

pub pick_expired : ContextState → ℕ → Option (ℕ × List ℕ)
unfolding is_unused is_evictable or_else
pick_expired state generation =
    or_else (remove_first (is_unused state generation) state.template_order)
      (remove_first (is_evictable state generation) state.template_order)

-- The `while` of `insert_template`, which ends with whether the new template stayed.
unfoldable pub evict_templates : ℕ → ContextState → ℕ → ContextState × Bool
evict_templates zero state generation = (state, true)
evict_templates (suc fuel) state generation =
    elim (ltb max_templates (length state.template_order)) [
      | false ↦ (state, true)
      | true ↦ elim (pick_expired state generation) [
        | none ↦ (remove_template_generation state generation, false)
        | some (expired, rest) ↦
            evict_templates fuel
              (remove_template_generation (record state { template_order = rest }) expired)
              generation
      ]
    ]

-- `insert_template` before its loop: the new template is in the tables.
unfoldable pub inserted_template : ContextState → ℕ → TemplateDraft → ContextState
inserted_template state generation template = record state {
  templates = insert generation template state.templates;
  current_templates = insert template.template_id generation state.current_templates;
  template_order = state.template_order ++ generation ∷ [];
}

unfoldable pub insert_template : ContextState → ℕ → TemplateDraft → ContextState × Bool
unfolding evict_templates inserted_template
insert_template state generation template =
    let inserted = inserted_template state generation template in
    evict_templates (length inserted.template_order) inserted generation

-- Whether `insert_job` may evict a binding.
pub is_unprotected : ContextState → ℕ → Bool
is_unprotected state candidate =
    not (option_eq (some candidate) state.active_binding)
    && not (contains state.pending_activation_bindings candidate)

-- The `while` of `insert_job`, which gives up when every binding is protected.
unfoldable pub evict_jobs : ℕ → ContextState → ContextState
evict_jobs zero state = state
evict_jobs (suc fuel) state = elim (ltb max_jobs (length state.job_order)) [
  | false ↦ state
  | true ↦ elim (remove_first (is_unprotected state) state.job_order) [
    | none ↦ state
    | some (expired, rest) ↦
        evict_jobs fuel (remove_binding (record state { job_order = rest }) expired)
  ]
]

-- `insert_job` before its loop.
unfoldable pub inserted_job : ContextState → JobBinding → ContextState
inserted_job state job = record state {
  current_jobs = insert job.job_id job.binding_id state.current_jobs;
  jobs = insert job.binding_id job state.jobs;
  job_order = state.job_order ++ job.binding_id ∷ [];
}

unfoldable pub insert_job : ContextState → JobBinding → ContextState
unfolding evict_jobs inserted_job
insert_job state job =
    let inserted = inserted_job state job in evict_jobs (length inserted.job_order) inserted

unfoldable pub announce_job : ContextState → ℕ → Option ℕ → ContextState
announce_job state job_id binding_id =
    let kept =
      if leb max_job_announcements (length state.job_announcements)
      then pop_front state.job_announcements
      else state.job_announcements in
    record state { job_announcements = kept ++ (job_id, binding_id) ∷ [] }
