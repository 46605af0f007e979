-- ===== src/MergeMining/Types.antt =====
-- src/merge_mining.rs: the types and the limits. A byte string is a list of numbers below 256, a
-- hash map an association list, a hash set of bindings a list of numbers. Mutexes and atomics are
-- fields: every operation runs under its lock, and no lock is poisoned.
use demand_cli.Prelude.{ℕ, Option, List, ◌+◌, ◌-◌, ◌^◌, ltb, if◌then◌else◌, ◌==◌, none, some}
use demand_cli.Prelude.Map.{HashMap}

abbrev pub max_templates : ℕ
max_templates = 128

abbrev pub max_jobs : ℕ
max_jobs = 256

abbrev pub max_job_announcements : ℕ
max_job_announcements = 256

abbrev pub max_early_shares : ℕ
max_early_shares = 64

abbrev pub max_found_jobs : ℕ
max_found_jobs = 32

abbrev pub max_dedup_identities : ℕ
max_dedup_identities = 128

pub record DesiredPair : Type 0 where
  pub payload : List ℕ
  pub payload_hex : List ℕ
  pub target_le : List ℕ
  pub target_hex : List ℕ
  pub output : List ℕ

pub record ChainState : Type 0 where
  pub prev_hash : List ℕ
  pub n_bits : ℕ

pub record TemplateDraft : Type 0 where
  pub template_id : ℕ
  pub desired : DesiredPair
  pub merkle_path : List (List ℕ)
  pub block_tx_count : Option ℕ
  pub chain : Option ChainState

pub record JobBinding : Type 0 where
  pub binding_id : ℕ
  pub job_id : ℕ
  pub template_id : ℕ
  pub template_generation : ℕ
  pub chain : Option ChainState
  pub coinbase_prefix : List ℕ
  pub coinbase_suffix : List ℕ

pub record ContextState : Type 0 where
  pub desired : Option DesiredPair
  pub templates : HashMap TemplateDraft
  pub current_templates : HashMap ℕ
  pub template_order : List ℕ
  pub active_chain : Option ChainState
  pub jobs : HashMap JobBinding
  pub current_jobs : HashMap ℕ
  pub job_order : List ℕ
  pub job_announcements : List (ℕ × Option ℕ)
  pub active_binding : Option ℕ
  pub pending_activation_bindings : List ℕ

pub record ShareObservation : Type 0 where
  pub binding_id : ℕ
  pub observed_at_unix_ts : ℕ
  pub version : ℕ
  pub timestamp : ℕ
  pub nonce : ℕ
  pub full_extranonce : List ℕ

pub record CandidateContext : Type 0 where
  pub template_id : ℕ
  pub desired : DesiredPair
  pub merkle_path : List (List ℕ)
  pub block_tx_count : ℕ
  pub chain : ChainState
  pub coinbase_prefix : List ℕ
  pub coinbase_suffix : List ℕ

pub data ResolveContext : Type 0 where
  ready : CandidateContext → ResolveContext
  incomplete obsolete : ResolveContext

pub record FoundJob : Type 0 where
  pub id : ℕ
  pub observed_at_unix_ts : ℕ
  pub template_id : ℕ
  pub version : ℕ
  pub header_timestamp : ℕ
  pub header_nonce : ℕ
  pub bitcoin_block_hash_hex : List ℕ
  pub block_header_hex : List ℕ
  pub coinbase_tx_hex : List ℕ
  pub merkle_hashes_hex : List (List ℕ)
  pub block_tx_count : ℕ
  pub op_return_payload_hex : List ℕ
  pub rsk_target_hex : List ℕ

pub record FoundState : Type 0 where
  pub pending : List FoundJob
  pub recent : List (List ℕ × List ℕ)

-- `Core`, less the flag of the observer thread, which is an argument where it matters.
pub record Core : Type 0 where
  pub context : ContextState
  pub found : FoundState
  pub next_template_generation : ℕ
  pub next_binding_id : ℕ
  pub next_found_id : ℕ
  pub dropped_observations : ℕ
  pub queue_overflows : ℕ
  pub announcement_mismatches : ℕ

pub data MergeMiningError : Type 0 where
  empty_payload invalid_payload_hex ambiguous_rsk_payload : MergeMiningError
  payload_too_large : ℕ → MergeMiningError
  invalid_target : MergeMiningError
  output_too_large : ℕ → MergeMiningError
  invalid_template_outputs invalid_rsk_commitment : MergeMiningError
  too_many_template_outputs template_outputs_too_large state_unavailable : MergeMiningError

-- `next_id`: the counter's old value, unless the counter is exhausted or at 0.
unfoldable pub next_id : ℕ → ℕ × Option ℕ
next_id current =
    if ltb current (2 ^ 64 - 1)
    then (current + 1, if current == 0 then none else some current)
    else (current, none)

-- `fetch_add(1)` on an `AtomicU64` that does not reach its end.
abbrev pub fetch_add : ℕ → ℕ
fetch_add n = n + 1
