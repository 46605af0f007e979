-- ===== src/MergeMining/Bindings/Frozen.antt =====
-- src/merge_mining.rs: a binding that has its chain state is never rewritten.
use demand_cli.Prelude.{
  ℕ, ◌≡◌, ◌<◌, ◌≤◌, ◌⊎◌, inl, inr, refl, Bool, Option, none, some, List, arith, Option-cases,
}
use demand_cli.Prelude.Map.{get, remove}
use demand_cli.MergeMining.Types.{Core, ContextState, ChainState, JobBinding, next_id}
use demand_cli.MergeMining.Context.{announce_job}
use demand_cli.MergeMining.Context.Shrinking.{insert_job-keys, removal-Shrinks}
use demand_cli.MergeMining.Bindings.{
  binding_for, bind_chain, record_chain_state, record_transaction_count, create_with_template,
  create_job_binding, announce_created, bind_job_generation, clear_template_session,
  discard_template_generation, announce_unbound_job, set_active_job_binding,
  clear_pending_job_binding, claim_job_binding,
}
use demand_cli.MergeMining.Bindings.Effects.{get-map, set_active-frame}
use demand_cli.MergeMining.Bindings.Validity.{next_id_lem, next_id_mono}

-- At the key the second table has the same binding, or none.
abbrev pub Unwritten : ℕ → JobBinding → ContextState → Type 0
Unwritten b job r = (get b r.jobs ≡ none) ⊎ (get b r.jobs ≡ some job)

pub record_chain_state-Unwritten :
    (s : ContextState) (t : ℕ) (chain old : ChainState) (b : ℕ) (job : JobBinding)
    → Unwritten b job s
    → job.chain ≡ some old
    → Unwritten b job (record_chain_state s t chain)
unfolding record_chain_state bind_chain
record_chain_state-Unwritten s t chain old b job e h =
    elim (Option-cases (get t s.current_templates)) [
      | inl absent ↦ ground (arith, absent)
      | inr (g, found) ↦ ground (arith, found, get-map (bind_chain g chain) s.jobs b)
    ]

pub record_transaction_count-Unwritten :
    (s : ContextState) (g n b : ℕ) (job : JobBinding)
    → Unwritten b job s
    → Unwritten b job (record_transaction_count s g n)
unfolding record_transaction_count
record_transaction_count-Unwritten s g n b job e = ground arith

create_job_binding-Unwritten :
    (core : Core) (j g b : ℕ) (prefix suffix : List ℕ) (job : JobBinding)
    → b < core.next_binding_id
    → Unwritten b job core.context
    → Unwritten b job (create_job_binding core j g prefix suffix).0.context
unfolding create_job_binding create_with_template binding_for
create_job_binding-Unwritten core j g b prefix suffix job v e =
    elim (Option-cases (get g core.context.templates)) [
      | inl absent ↦ ground (arith, absent)
      | inr (draft, found) ↦ elim (Option-cases (next_id core.next_binding_id).1) [
        | inl exhausted ↦ ground (arith, found, exhausted)
        | inr (id, fresh) ↦
            let s : ContextState = record core.context {
              current_jobs = remove j core.context.current_jobs;
            } in
            ground (
              arith,
              found,
              fresh,
              next_id_lem core.next_binding_id id fresh,
              v,
              insert_job-keys s (binding_for id j g prefix suffix draft) b,
            )
      ]
    ]

announce_created-Unwritten :
    (j b : ℕ) (job : JobBinding) (r : Core × Option ℕ)
    → Unwritten b job r.0.context
    → Unwritten b job (announce_created j r).0.context
unfolding announce_created announce_job
announce_created-Unwritten j b job (core, none) u = u
announce_created-Unwritten j b job (core, some x) u = u

pub bind_job_generation-Unwritten :
    (core : Core) (j g b : ℕ) (prefix suffix : List ℕ) (job : JobBinding)
    → b < core.next_binding_id
    → Unwritten b job core.context
    → Unwritten b job (bind_job_generation core j g prefix suffix).0.context
unfolding bind_job_generation
bind_job_generation-Unwritten core j g b prefix suffix job v e =
    announce_created-Unwritten j b job (create_job_binding core j g prefix suffix)
      (create_job_binding-Unwritten core j g b prefix suffix job v e)

-- The counter of bindings never goes back.
announce_created-counter :
    (j : ℕ) (r : Core × Option ℕ) → (announce_created j r).0.next_binding_id ≡ r.0.next_binding_id
unfolding announce_created
announce_created-counter j (core, none) = refl
announce_created-counter j (core, some x) = refl

pub bind_job_generation-counter :
    (core : Core) (j g : ℕ) (prefix suffix : List ℕ)
    → core.next_binding_id ≤ (bind_job_generation core j g prefix suffix).0.next_binding_id
unfolding bind_job_generation create_job_binding create_with_template
bind_job_generation-counter core j g prefix suffix = ground (
  arith,
  announce_created-counter j (create_job_binding core j g prefix suffix),
  next_id_mono core.next_binding_id,
)

-- The other methods write no binding.
pub others-Unwritten :
    (s : ContextState) (n : ℕ) (x : Option ℕ) (b : ℕ) (job : JobBinding)
    → Unwritten b job s
    → Unwritten b job (clear_template_session s)
      × Unwritten b job (discard_template_generation s n)
      × Unwritten b job (announce_unbound_job s n)
      × Unwritten b job (set_active_job_binding s x)
      × Unwritten b job (clear_pending_job_binding s n)
unfolding clear_template_session discard_template_generation announce_unbound_job announce_job
    clear_pending_job_binding
others-Unwritten s n x b job u = (
  u,
  ground (arith, (removal-Shrinks s s.template_order n).1 b),
  u,
  ground (arith, set_active-frame s x),
  u,
)

pub claim-frame :
    (core : Core) (j : ℕ) (mark : Bool)
    → ((claim_job_binding core j mark).0.next_binding_id ≡ core.next_binding_id)
      × ((claim_job_binding core j mark).0.context.jobs ≡ core.context.jobs)
unfolding claim_job_binding
claim-frame core j mark = ground arith
