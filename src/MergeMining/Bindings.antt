-- ===== src/MergeMining/Bindings.antt =====
-- src/merge_mining.rs: the methods of `MergeMining` that record templates, job bindings and chain
-- states. Each runs under the lock of the context. `wake_worker`, which only tells the observer
-- thread to look again, is left out.
pub mod Effects
pub mod Validity
pub mod Claims
pub mod Frozen
use demand_cli.Prelude.{
  ℕ, ◌+◌, ◌^◌, ◌-◌, Bool, true, false, not, ◌&&◌, Option, none, some, List, [], ◌∷◌, ◌++◌, map,
  retain, any, contains, bytes_eq, ltb, leb, ◌==◌, if◌then◌else◌, is_some_and, is_some, and_then,
}
use demand_cli.Prelude.Map.{HashMap, get, insert, remove, contains_key}
use demand_cli.MergeMining.Types.{
  Core, ContextState, TemplateDraft, JobBinding, ChainState, DesiredPair, next_id, fetch_add,
}
use demand_cli.MergeMining.Context.{insert_job, announce_job, remove_template_generation}
use demand_cli.MergeMining.Commitment.{is_rsk_payload}

-- `record_transaction_count`: the count with the coinbase, where it is a positive `i32`.
pub block_count : ℕ → Option ℕ
block_count transaction_count =
    if leb (transaction_count + 1) (2 ^ 31 - 1) then some (transaction_count + 1) else none

pub set_count : Option ℕ → TemplateDraft → TemplateDraft
set_count count template = elim template.block_tx_count [
  | none ↦ record template { block_tx_count = count }
  | some _ ↦ template
]

unfoldable pub update_value {ℓ} : {V : Type ℓ} → ℕ → (V → V) → HashMap V → HashMap V
update_value k f m = elim (get k m) [ none ↦ m | some v ↦ insert k (f v) m ]

pub record_transaction_count : ContextState → ℕ → ℕ → ContextState
unfolding block_count set_count update_value
record_transaction_count state template_generation transaction_count =
    elim (block_count transaction_count) [
      | none ↦ state
      | some count ↦ record state {
        templates = update_value template_generation (set_count (some count)) state.templates;
      }
    ]

-- A binding of the generation takes the chain state if it has none.
unfoldable pub bind_chain : ℕ → ChainState → JobBinding → JobBinding
bind_chain generation chain job =
    if job.template_generation == generation && not (is_some job.chain)
    then record job { chain = some chain }
    else job

unfoldable pub record_chain_state : ContextState → ℕ → ChainState → ContextState
unfolding bind_chain update_value
record_chain_state state template_id chain = elim (get template_id state.current_templates) [
  | none ↦ record state { active_chain = some chain }
  | some generation ↦ record state {
    active_chain = some chain;
    templates =
        update_value generation (λ template. record template { chain = some chain })
          state.templates;
    jobs = map (λ entry. (entry.0, bind_chain generation chain entry.1)) state.jobs;
  }
]

-- `clear_template_session`.
pub clear_template_session : ContextState → ContextState
clear_template_session state = record state {
  current_templates = [];
  active_chain = none;
  current_jobs = [];
  job_announcements = [];
  pending_activation_bindings = [];
}

-- The binding that `create_job_binding` makes for a template.
unfoldable pub binding_for : ℕ → ℕ → ℕ → List ℕ → List ℕ → TemplateDraft → JobBinding
binding_for binding_id job_id generation prefix suffix template = record {
  binding_id = binding_id;
  job_id = job_id;
  template_id = template.template_id;
  template_generation = generation;
  chain = template.chain;
  coinbase_prefix = prefix;
  coinbase_suffix = suffix;
}

unfoldable pub create_with_template :
    Core → ContextState → ℕ → ℕ → List ℕ → List ℕ → TemplateDraft → Core × Option ℕ
unfolding binding_for
create_with_template core state job_id generation prefix suffix template =
    let (next, id) = next_id core.next_binding_id in
    if is_rsk_payload template.desired.payload
    then elim id [
      | none ↦ (record core { context = state; next_binding_id = next }, none)
      | some binding_id ↦ (
        record core {
          context =
              insert_job state (binding_for binding_id job_id generation prefix suffix template);
          next_binding_id = next;
        },
        some binding_id,
      )
    ]
    else (record core { context = state }, none)

unfoldable pub create_job_binding : Core → ℕ → ℕ → List ℕ → List ℕ → Core × Option ℕ
unfolding create_with_template
create_job_binding core job_id generation prefix suffix =
    let state : ContextState = record core.context {
      current_jobs = remove job_id core.context.current_jobs;
    } in
    elim (get generation state.templates) [
      | none ↦ (record core { context = state }, none)
      | some template ↦ create_with_template core state job_id generation prefix suffix template
    ]

unfoldable pub announce_created : ℕ → Core × Option ℕ → Core × Bool
announce_created job_id (core, none) = (core, false)
announce_created job_id (core, some binding_id) =
    (record core { context = announce_job core.context job_id (some binding_id) }, true)

unfoldable pub bind_job_generation : Core → ℕ → ℕ → List ℕ → List ℕ → Core × Bool
unfolding announce_created
bind_job_generation core job_id generation prefix suffix =
    announce_created job_id (create_job_binding core job_id generation prefix suffix)

pub announce_unbound_job : ContextState → ℕ → ContextState
announce_unbound_job state job_id =
    announce_job (record state { current_jobs = remove job_id state.current_jobs }) job_id none

-- `job_announcements.drain(..=position).next_back()`: the first announcement of the job, and what
-- stands behind it.
unfoldable pub drain_through : ℕ → List (ℕ × Option ℕ) → Option (Option ℕ × List (ℕ × Option ℕ))
drain_through job_id [] = none
drain_through job_id ((announced_job_id, binding_id) ∷ announcements) =
    if announced_job_id == job_id
    then some (binding_id, announcements)
    else drain_through job_id announcements

-- A hash set of bindings holds each once.
unfoldable pub insert_pending : ContextState → Option ℕ → List ℕ
insert_pending state none = state.pending_activation_bindings
insert_pending state (some b) =
    if contains_key b state.jobs && not (contains state.pending_activation_bindings b)
    then b ∷ state.pending_activation_bindings
    else state.pending_activation_bindings

-- `claim_job_binding_`: a job that was not announced counts as a mismatch and drains nothing.
unfoldable pub claim_job_binding : Core → ℕ → Bool → Core × Option ℕ
unfolding insert_pending
claim_job_binding core job_id mark_pending =
    elim (drain_through job_id core.context.job_announcements) [
      | none ↦
          (record core { announcement_mismatches = fetch_add core.announcement_mismatches }, none)
      | some (binding_id, announcements) ↦ (
        record core {
          context = record core.context {
            job_announcements = announcements;
            pending_activation_bindings =
                if mark_pending
                then insert_pending core.context binding_id
                else core.context.pending_activation_bindings;
          };
        },
        binding_id,
      )
    ]

unfoldable pub clear_pending_job_binding : ContextState → ℕ → ContextState
clear_pending_job_binding state binding_id = record state {
  pending_activation_bindings =
      retain (λ b. not (b == binding_id)) state.pending_activation_bindings;
}

-- `Option::filter(contains_key)`.
unfoldable pub retained_binding : ContextState → Option ℕ → Option ℕ
retained_binding state none = none
retained_binding state (some b) = if contains_key b state.jobs then some b else none

unfoldable pub set_active_job_binding : ContextState → Option ℕ → ContextState
unfolding retained_binding clear_pending_job_binding
set_active_job_binding state none = record state { active_binding = none }
set_active_job_binding state (some b) = record (clear_pending_job_binding state b) {
  active_binding = retained_binding state (some b);
}

pub discard_template_generation : ContextState → ℕ → ContextState
discard_template_generation state generation = remove_template_generation state generation
