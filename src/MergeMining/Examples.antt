-- ===== src/MergeMining/Examples.antt =====
-- src/merge_mining.rs at concrete inputs: a pair, a template, its job, and a lagging consumer.
mod Observing
use demand_cli.Prelude.{
  ℕ, zero, suc, ◌+◌, ◌≤◌, ◌<◌, ◌≡◌, ◌≢◌, ◌⊎◌, inl, ◌↔◌, refl, true, false, Option, none, some, List,
  [], ◌∷◌, ◌++◌, length, take, drop, ◌^◌, arith,
}
use demand_cli.Prelude.Map.{get, insert, remove, contains_key}
use demand_cli.MergeMining.Types.{
  Core, DesiredPair, ChainState, TemplateDraft, JobBinding, next_id, max_templates,
}
use demand_cli.MergeMining.Commitment.{
  rsk_tag, is_rsk_payload, raw_rsk_commitment_matches, matches_last, matches_at,
  last_raw_tag_position, last_position, or_here, tree_height, constant_time_eq,
}
use demand_cli.MergeMining.Commitment.Rule.{Committed, raw_rsk_commitment_matches_lem}
use demand_cli.MergeMining.Commitment.Height.{tree_height_least}
use demand_cli.MergeMining.Commitment.Secret.{constant_time_eq_lem}
use demand_cli.MergeMining.Context.{
  insert_template, evict_templates, inserted_template, invalidate_current_template, insert_job,
  evict_jobs, inserted_job, announce_job,
}
use demand_cli.MergeMining.Context.Tables.{IsConsistent}
use demand_cli.MergeMining.Context.Templates.{
  CanInsert, Outcome, IsProtected, insert_template_lem, insert_template_keeps_IsProtected,
}
use demand_cli.MergeMining.Context.Jobs.{
  CanBind, Settled, insert_job_lem, insert_job_keeps_IsProtected,
}
use demand_cli.MergeMining.Bindings.{
  record_chain_state, update_value, bind_chain, bind_job_generation, announce_created,
  create_job_binding, create_with_template, binding_for, claim_job_binding, drain_through,
  insert_pending, set_active_job_binding, retained_binding, clear_pending_job_binding,
}
use demand_cli.MergeMining.Bindings.Claims.{claim_takes_first, claim_protects}
use demand_cli.MergeMining.Bindings.Validity.{IsValid}
use demand_cli.MergeMining.Template.{
  NewTemplate, register_template, prepare_outputs, plan_outputs, append_output, scan_outputs,
  is_already_last, keep_outputs, is_bad_commitment, apply_prepared, publish, first_position,
  after_here, ok, with_outputs, apply_to_template_with_output_limit,
}
use demand_cli.MergeMining.Template.Publishing.{IsPublished, template_changes_only_on_success}
use demand_cli.MergeMining.Session.{
  Call, new, run, step, sets_desired_pair, registers, discards, records_chain, binds, claims,
  activates,
}
use demand_cli.MergeMining.Session.Safety.{run-new-IsValid}
use demand_cli.MergeMining.Session.Frozen.{binding_keeps_its_chain}

abbrev pub copies : ℕ → ℕ → List ℕ
copies zero x = []
copies (suc n) x = x ∷ copies n x

-- The tag and a hash of 32 bytes, in an output of 52 bytes.
abbrev pub pair : DesiredPair
pair = record {
  payload = rsk_tag ++ copies 32 7;
  payload_hex = [];
  target_le = [];
  target_hex = [];
  output = copies 8 0 ++ 43 ∷ 106 ∷ 41 ∷ rsk_tag ++ copies 32 7;
}

abbrev pub template : NewTemplate
template = record {
  template_id = 3;
  future_template = false;
  coinbase_tx_outputs_count = 0;
  coinbase_tx_outputs = [];
  coinbase_tx_locktime = 9;
  merkle_path = [];
}

abbrev pub chain : ChainState
chain = record { prev_hash = copies 32 1; n_bits = 500 }

-- A template with its chain, two jobs of one identifier, and the first is claimed and activated.
abbrev calls : List Call
calls =
    sets_desired_pair pair
    ∷ records_chain 3 chain
    ∷ registers template pair
    ∷ binds 5 1 [] []
    ∷ binds 5 1 (1 ∷ []) []
    ∷ claims 5 true
    ∷ activates (some 1)
    ∷ []

abbrev pub core : Core
core = run new calls

core-IsValid : IsValid core
core-IsValid = run-new-IsValid calls

abbrev pub job : JobBinding
job = record {
  binding_id = 1;
  job_id = 5;
  template_id = 3;
  template_generation = 1;
  chain = some chain;
  coinbase_prefix = [];
  coinbase_suffix = [];
}

core_job : get 1 core.context.jobs ≡ some job
unfolding run step new get insert remove record_chain_state update_value bind_job_generation
    announce_created create_job_binding create_with_template binding_for claim_job_binding
    drain_through insert_pending set_active_job_binding retained_binding clear_pending_job_binding
    register_template insert_template evict_templates inserted_template insert_job evict_jobs
    inserted_job announce_job next_id is_rsk_payload bind_chain
core_job = refl

core_active : core.context.active_binding ≡ some 1
unfolding run step new get insert remove record_chain_state update_value bind_job_generation
    announce_created create_job_binding create_with_template binding_for claim_job_binding
    drain_through insert_pending set_active_job_binding retained_binding clear_pending_job_binding
    register_template insert_template evict_templates inserted_template insert_job evict_jobs
    inserted_job announce_job next_id is_rsk_payload bind_chain
core_active = refl

run-new-IsValid_example : IsValid (run new calls)
run-new-IsValid_example = run-new-IsValid calls

abbrev later_calls : List Call
later_calls = records_chain 3 (record { prev_hash = copies 32 2; n_bits = 500 }) ∷ discards 1 ∷ []

binding_keeps_its_chain_example :
    (get 1 (run core later_calls).context.jobs ≡ none)
    ⊎ (get 1 (run core later_calls).context.jobs ≡ some job)
binding_keeps_its_chain_example =
    binding_keeps_its_chain core later_calls 1 job chain core-IsValid core_job refl

abbrev draft : TemplateDraft
draft = record {
  template_id = 3;
  desired = pair;
  merkle_path = [];
  block_tx_count = none;
  chain = none;
}

core_new : get 2 core.context.templates ≡ none
unfolding run step new get insert remove record_chain_state update_value bind_job_generation
    announce_created create_job_binding create_with_template binding_for claim_job_binding
    drain_through insert_pending set_active_job_binding retained_binding clear_pending_job_binding
    register_template insert_template evict_templates inserted_template insert_job evict_jobs
    inserted_job announce_job next_id is_rsk_payload bind_chain
core_new = refl

core_room : CanInsert core.context 2
core_room = record {
  consistent = core-IsValid.consistent;
  bounded = core-IsValid.templates_bounded;
  fresh = core_new;
}

insert_template_lem_example :
    IsConsistent (insert_template core.context 2 draft).0
    × (length (insert_template core.context 2 draft).0.template_order ≤ max_templates)
    × Outcome 2 draft (insert_template core.context 2 draft)
insert_template_lem_example = insert_template_lem core.context 2 draft core_room

insert_template_keeps_IsProtected_example :
    (get 1 (insert_template core.context 2 draft).0.jobs ≡ some job)
    × IsProtected (insert_template core.context 2 draft).0 1
insert_template_keeps_IsProtected_example =
    insert_template_keeps_IsProtected core.context 2 1 draft job core_room core_job
      (inl core_active)

abbrev next_job : JobBinding
next_job = record job { binding_id = 3 }

core_unused : get 3 core.context.jobs ≡ none
unfolding run step new get insert remove record_chain_state update_value bind_job_generation
    announce_created create_job_binding create_with_template binding_for claim_job_binding
    drain_through insert_pending set_active_job_binding retained_binding clear_pending_job_binding
    register_template insert_template evict_templates inserted_template insert_job evict_jobs
    inserted_job announce_job next_id is_rsk_payload bind_chain
core_unused = refl

core_template : contains_key 1 core.context.templates ≡ true
unfolding run step new get insert remove record_chain_state update_value bind_job_generation
    announce_created create_job_binding create_with_template binding_for claim_job_binding
    drain_through insert_pending set_active_job_binding retained_binding clear_pending_job_binding
    register_template insert_template evict_templates inserted_template insert_job evict_jobs
    inserted_job announce_job next_id is_rsk_payload bind_chain
core_template = refl

core_binds : CanBind core.context next_job
core_binds = record {
  consistent = core-IsValid.consistent;
  unused = core_unused;
  template_kept = core_template;
}

insert_job_lem_example :
    IsConsistent (insert_job core.context next_job)
    × Settled (insert_job core.context next_job)
    × ((insert_job core.context next_job).templates ≡ core.context.templates)
    × ((insert_job core.context next_job).template_order ≡ core.context.template_order)
    × ((insert_job core.context next_job).job_announcements ≡ core.context.job_announcements)
insert_job_lem_example = insert_job_lem core.context next_job core_binds

insert_job_keeps_IsProtected_example :
    (get 1 (insert_job core.context next_job).jobs ≡ some job)
    × IsProtected (insert_job core.context next_job) 1
insert_job_keeps_IsProtected_example =
    insert_job_keeps_IsProtected core.context next_job job 1 core_binds core_job (inl core_active)

-- The queue of a consumer that lags behind: the identifier 5 was used twice.
abbrev queue : List (ℕ × Option ℕ)
queue = (4, none) ∷ (5, some 1) ∷ (5, some 2) ∷ []

abbrev lagging : Core
lagging = record core { context = record core.context { job_announcements = queue } }

claim_takes_first_example :
    ((claim_job_binding lagging 5 false).1 ≡ some 1)
    × ((claim_job_binding lagging 5 false).0.context.job_announcements ≡ (5, some 2) ∷ [])
claim_takes_first_example =
    claim_takes_first lagging 5 false ((4, none) ∷ []) ((5, some 2) ∷ []) (some 1) refl
      (omega arith, tt)

core_kept : contains_key 1 core.context.jobs ≡ true
unfolding run step new get insert remove record_chain_state update_value bind_job_generation
    announce_created create_job_binding create_with_template binding_for claim_job_binding
    drain_through insert_pending set_active_job_binding retained_binding clear_pending_job_binding
    register_template insert_template evict_templates inserted_template insert_job evict_jobs
    inserted_job announce_job next_id is_rsk_payload bind_chain
core_kept = refl

claim_protects_example : IsProtected (claim_job_binding lagging 5 true).0.context 1
claim_protects_example =
    claim_protects lagging 5 1 ((4, none) ∷ []) ((5, some 2) ∷ []) refl (omega arith, tt) core_kept

-- A codec for outputs of one length byte and that many bytes.
abbrev decode : List ℕ → Option (List ℕ × List ℕ)
decode [] = none
decode (n ∷ bytes) = some (n ∷ take n bytes, drop n bytes)

abbrev sized : DesiredPair
sized = record pair { output = 41 ∷ pair.payload }

abbrev pub desiring : Core
desiring = record core { context = record core.context { desired = some sized } }

template_changes_only_on_success_example :
    let r =
      apply_to_template_with_output_limit
        (List ℕ)
        decode
        (λ o. o)
        (λ o. true)
        desiring
        template
        true
        100
        4 in
    ((r.2 ≢ ok true) × (r.1 ≡ template))
    ⊎ ((r.2 ≡ ok true)
        × (desired : DesiredPair) × (desiring.context.desired ≡ some desired)
        × IsPublished template desired 4 r.1)
template_changes_only_on_success_example =
    template_changes_only_on_success (List ℕ) decode (λ o. o) (λ o. true) desiring template true 100
      4

-- With the output of the pair appended, the template gets generation 2.
template_published :
    apply_to_template_with_output_limit
      (List ℕ)
      decode
      (λ o. o)
      (λ o. true)
      desiring
      template
      true
      100
      4
    ≡ (
      (register_template
          (record desiring { context = invalidate_current_template desiring.context 3 })
          template
          sized).0,
      record template { coinbase_tx_outputs = sized.output; coinbase_tx_outputs_count = 1 },
      ok true,
    )
unfolding apply_to_template_with_output_limit prepare_outputs plan_outputs append_output
    scan_outputs is_already_last keep_outputs is_bad_commitment apply_prepared publish with_outputs
    first_position after_here raw_rsk_commitment_matches matches_last matches_at
    last_raw_tag_position last_position or_here invalidate_current_template run step new get insert
    remove record_chain_state update_value bind_job_generation announce_created create_job_binding
    create_with_template binding_for claim_job_binding drain_through insert_pending
    set_active_job_binding retained_binding clear_pending_job_binding register_template
    insert_template evict_templates inserted_template insert_job evict_jobs inserted_job
    announce_job next_id is_rsk_payload bind_chain
template_published = refl

-- The desired output of the pair, ready at the end of a coinbase with 4 bytes behind it.
abbrev coinbase : List ℕ
coinbase = 1 ∷ 2 ∷ rsk_tag ++ copies 32 7 ++ copies 4 0

raw_rsk_commitment_matches_lem_example :
    (raw_rsk_commitment_matches coinbase pair ≡ true)
    ↔ ((is_rsk_payload pair.payload ≡ true) × Committed pair.payload coinbase)
raw_rsk_commitment_matches_lem_example = raw_rsk_commitment_matches_lem coinbase pair

coinbase_matches : raw_rsk_commitment_matches coinbase pair ≡ true
unfolding raw_rsk_commitment_matches matches_last matches_at last_raw_tag_position last_position
    or_here is_rsk_payload
coinbase_matches = refl

tree_height_least_example :
    (tree_height 5 ≡ some 3)
    ↔ ((0 < 5) × (5 < 2 ^ 31) × (5 ≤ 2 ^ 3) × ((k : ℕ) → 5 ≤ 2 ^ k → 3 ≤ k))
tree_height_least_example = tree_height_least 5 3

abbrev pub secret : List ℕ
secret = 1 ∷ 0 ∷ []

abbrev guess : List ℕ
guess = 1 ∷ []
