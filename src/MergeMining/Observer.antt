-- ===== src/MergeMining/Observer.antt =====
-- src/merge_mining.rs: the observer thread, which turns accepted shares into jobs for RSK, and the
-- queue from which the API takes them. Transactions, scripts and hashes belong to the crates bitcoin
-- and roles_logic_sv2, and are the parameter `Bitcoin`.
pub mod Worker
pub mod Found
pub mod Proofs
pub mod Early
use demand_cli.Prelude.{
  ℕ, zero, suc, ◌+◌, ◌-◌, Bool, true, false, not, ◌&&◌, ◌||◌, Option, none, some, List, [], ◌∷◌,
  ◌++◌, map, length, any, pop_front, ltb, leb, ◌==◌, if◌then◌else◌, is_some_and, option_eq,
  bytes_eq, starts_with,
}
use demand_cli.Prelude.Map.{get}
use demand_cli.MergeMining.Types.{
  Core, ContextState, DesiredPair, TemplateDraft, JobBinding, ChainState, ShareObservation,
  CandidateContext, ResolveContext, ready, incomplete, obsolete, FoundJob, FoundState, next_id,
  fetch_add, max_early_shares, max_found_jobs, max_dedup_identities, state_unavailable,
}
use demand_cli.MergeMining.Commitment.{
  rsk_tag, is_rsk_payload, raw_rsk_commitment_matches, tree_height,
}
use demand_cli.MergeMining.Context.{or_else}
use demand_cli.MergeMining.Template.{Result, ok, err}

-- What `script.instructions()` yields; `invalid` is its error.
pub data Instruction : Type 0 where
  op : ℕ → Instruction
  push_bytes : List ℕ → Instruction
  invalid : Instruction

-- The fields of a block header; the version is the `u32` of the share.
pub record Header : Type 0 where
  pub version : ℕ
  pub prev_blockhash : List ℕ
  pub merkle_root : List ℕ
  pub time : ℕ
  pub bits : ℕ
  pub nonce : ℕ

-- What the code uses of the crates. `exceeds` compares two targets of 32 bytes.
pub record Bitcoin : Type 1 where
  pub Transaction : Type 0
  pub TxOut : Type 0
  pub deserialize : List ℕ → Option Transaction
  pub clear_witness : Transaction → Transaction
  pub serialize : Transaction → List ℕ
  pub compute_txid : Transaction → List ℕ
  pub output : Transaction → List TxOut
  pub serialize_output : TxOut → List ℕ
  pub is_op_return : TxOut → Bool
  pub instructions : TxOut → List Instruction
  pub merkle_root_from_path : List ℕ → List (List ℕ) → List ℕ
  pub serialize_header : Header → List ℕ
  pub block_hash : Header → List ℕ
  pub exceeds : List ℕ → List ℕ → Bool
  pub as_hex : List ℕ → List ℕ
  pub hash_to_string : List ℕ → List ℕ

-- `OP_RETURN`.
abbrev pub op_return : ℕ
op_return = 106

pub only_push : List Instruction → Option (List ℕ)
only_push [] = none
only_push (push_bytes bytes ∷ []) = some bytes
only_push (push_bytes bytes ∷ next ∷ rest) = none
only_push (op code ∷ rest) = none
only_push (invalid ∷ rest) = none

pub payload_of : List Instruction → Option (List ℕ)
unfolding only_push
payload_of [] = none
payload_of (op code ∷ rest) = if code == op_return then only_push rest else none
payload_of (push_bytes bytes ∷ rest) = none
payload_of (invalid ∷ rest) = none

-- `resolve_context`.
pub resolve_template :
    ShareObservation → JobBinding → TemplateDraft → Option ℕ → Option ChainState → ResolveContext
resolve_template observation job template none chain = incomplete
resolve_template observation job template (some count) none = incomplete
resolve_template observation job template (some count) (some chain) =
    if option_eq (tree_height count) (some (length template.merkle_path))
    then ready (record {
      template_id = job.template_id;
      desired = template.desired;
      merkle_path = template.merkle_path;
      block_tx_count = count;
      chain = chain;
      coinbase_prefix = job.coinbase_prefix;
      coinbase_suffix = job.coinbase_suffix;
    })
    else obsolete

pub resolve_job : ContextState → ShareObservation → JobBinding → ResolveContext
unfolding resolve_template
resolve_job state observation job = elim (get job.template_generation state.templates) [
  | none ↦ obsolete
  | some template ↦
      if is_rsk_payload template.desired.payload
      then resolve_template observation job template template.block_tx_count job.chain
      else obsolete
]

pub resolve_context : ContextState → ShareObservation → ResolveContext
unfolding resolve_job
resolve_context state observation = elim (get observation.binding_id state.jobs) [
  | none ↦ obsolete
  | some job ↦ resolve_job state observation job
]

-- A queue that drops its oldest entry when it is full.
abbrev pub make_room {ℓ} : {A : Type ℓ} → ℕ → List A → List A
make_room limit queue = if leb limit (length queue) then pop_front queue else queue

-- Whether the header and coinbase were seen.
pub is_recent : List ℕ → List ℕ → List (List ℕ × List ℕ) → Bool
is_recent header_hex coinbase_hex recent =
    any (λ seen. bytes_eq seen.0 header_hex && bytes_eq seen.1 coinbase_hex) recent

-- The end of `process_candidate`: the job is queued unless it was seen.
pub queue_found : Core → FoundJob → Core
unfolding is_recent
queue_found core job =
    if is_recent job.block_header_hex job.coinbase_tx_hex core.found.recent
    then core
    else record core {
      found = record {
        pending = make_room max_found_jobs core.found.pending ++ job ∷ [];
        recent =
            make_room max_dedup_identities core.found.recent
            ++ (job.block_header_hex, job.coinbase_tx_hex) ∷ [];
      };
      queue_overflows =
          if leb max_found_jobs (length core.found.pending)
          then fetch_add core.queue_overflows
          else core.queue_overflows;
    }

-- `MergeMining::take_found_job`.
unfoldable pub take_found_job : Core → Bool → Core × Result (Option FoundJob)
take_found_job core false = (core, err state_unavailable)
take_found_job core true = elim core.found.pending [
  | [] ↦ (core, ok none)
  | job ∷ pending ↦ (record core { found = record core.found { pending = pending } }, ok (some job))
]

-- A full queue of early shares drops the oldest.
pub keep_early : Core → List ShareObservation → ShareObservation → Core × List ShareObservation
keep_early core early observation = (
  if leb max_early_shares (length early)
      then record core { dropped_observations = fetch_add core.dropped_observations }
      else core,
  make_room max_early_shares early ++ observation ∷ [],
)

-- `Work`.
pub data Work : Type 0 where
  share : ShareObservation → Work
  wake : Work

module _ (bitcoin : Bitcoin) where
  open bitcoin use {
    Transaction, TxOut, deserialize, clear_witness, serialize, compute_txid, output,
    serialize_output, is_op_return, instructions, merkle_root_from_path, serialize_header,
    block_hash, exceeds, as_hex, hash_to_string,
  }

  pub single_op_return_payload : TxOut → Option (List ℕ)
  unfolding payload_of
  single_op_return_payload out = if is_op_return out then payload_of (instructions out) else none

  -- The test of one output with an RSK payload, none for the others.
  pub rsk_output_matches : DesiredPair → TxOut → Option Bool
  unfolding single_op_return_payload
  rsk_output_matches desired out = elim (single_op_return_payload out) [
    | none ↦ none
    | some payload ↦
        if starts_with payload rsk_tag
        then some (bytes_eq (serialize_output out) desired.output)
        else none
  ]

  -- `filter_map(..).next_back()`.
  pub last_rsk_output : DesiredPair → List TxOut → Option Bool
  unfolding rsk_output_matches
  last_rsk_output desired [] = none
  last_rsk_output desired (out ∷ outs) =
      or_else (last_rsk_output desired outs) (rsk_output_matches desired out)

  pub has_canonical_last_rsk_commitment : Transaction → DesiredPair → Bool
  unfolding last_rsk_output
  has_canonical_last_rsk_commitment transaction desired =
      is_some_and (last_rsk_output desired (output transaction)) (λ matches. matches)
