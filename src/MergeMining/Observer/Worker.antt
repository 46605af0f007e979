-- ===== src/MergeMining/Observer/Worker.antt =====
-- src/merge_mining.rs: the candidate of a share, the loop of the observer thread, and the channel
-- that feeds it.
use demand_cli.Prelude.{
  ℕ, zero, suc, Bool, not, ◌&&◌, Option, none, some, List, [], ◌∷◌, ◌++◌, map, length, ltb,
  if◌then◌else◌,
}
use mathlib.Core.List.{reverse}
use demand_cli.MergeMining.Types.{
  Core, ShareObservation, CandidateContext, ResolveContext, ready, incomplete, obsolete, FoundJob,
  next_id, fetch_add,
}
use demand_cli.MergeMining.Commitment.{raw_rsk_commitment_matches}
use demand_cli.MergeMining.Observer.{
  Bitcoin, Header, Work, share, wake, resolve_context, has_canonical_last_rsk_commitment,
  queue_found, keep_early,
}

-- `MAX_PENDING_SHARES`.
abbrev pub max_pending_shares : ℕ
max_pending_shares = 128

-- `sync_channel(MAX_PENDING_SHARES)`: a full channel refuses.
abbrev pub try_send : List Work → Work → Option (List Work)
try_send channel work =
    if ltb (length channel) max_pending_shares then some (channel ++ work ∷ []) else none

-- `try_observe_share` with its observation; `observer_ready` says whether there is a sender.
pub try_observe_share : Core → List Work → Bool → ShareObservation → Core × List Work
try_observe_share core channel observer_ready observation =
    let sent = if observer_ready then try_send channel (share observation) else none in
    elim sent [
      | some channel' ↦ (core, channel')
      | none ↦ (record core { dropped_observations = fetch_add core.dropped_observations }, channel)
    ]

module _ (bitcoin : Bitcoin) where
  open bitcoin use {
    Transaction, deserialize, clear_witness, serialize, compute_txid, merkle_root_from_path,
    serialize_header, block_hash, exceeds, as_hex, hash_to_string,
  }

  -- The coinbase of the share, without its witness.
  unfoldable pub stripped_coinbase : ShareObservation → CandidateContext → Option Transaction
  stripped_coinbase observation context =
      elim (deserialize
        (context.coinbase_prefix ++ observation.full_extranonce ++ context.coinbase_suffix)) [
          | none ↦ none
          | some coinbase ↦ some (clear_witness coinbase)
        ]

  unfoldable pub candidate_header : ShareObservation → CandidateContext → Transaction → Header
  candidate_header observation context coinbase = record {
    version = observation.version;
    prev_blockhash = context.chain.prev_hash;
    merkle_root = merkle_root_from_path (compute_txid coinbase) context.merkle_path;
    time = observation.timestamp;
    bits = context.chain.n_bits;
    nonce = observation.nonce;
  }

  -- The tests of `process_candidate`: both rules on the commitment, and the target of RSK.
  unfoldable pub is_proof : ShareObservation → CandidateContext → Transaction → Bool
  is_proof observation context coinbase =
      has_canonical_last_rsk_commitment bitcoin coinbase context.desired
      && raw_rsk_commitment_matches (serialize coinbase) context.desired
      && not (
          exceeds (block_hash (candidate_header observation context coinbase))
            context.desired.target_le)

  unfoldable pub found_job : ℕ → ShareObservation → CandidateContext → Transaction → FoundJob
  found_job id observation context coinbase =
      let header = candidate_header observation context coinbase in
      record {
        id = id;
        observed_at_unix_ts = observation.observed_at_unix_ts;
        template_id = context.template_id;
        version = observation.version;
        header_timestamp = observation.timestamp;
        header_nonce = observation.nonce;
        bitcoin_block_hash_hex = hash_to_string (block_hash header);
        block_header_hex = as_hex (serialize_header header);
        coinbase_tx_hex = as_hex (serialize coinbase);
        merkle_hashes_hex = map (λ hash. as_hex (reverse hash)) context.merkle_path;
        block_tx_count = context.block_tx_count;
        op_return_payload_hex = context.desired.payload_hex;
        rsk_target_hex = context.desired.target_hex;
      }

  -- A proof takes the next identifier and is queued.
  unfoldable pub queue_proof : Core → ShareObservation → CandidateContext → Transaction → Core
  queue_proof core observation context coinbase =
      let (next, id) = next_id core.next_found_id in
      elim id [
        | none ↦ record core { next_found_id = next }
        | some i ↦
            queue_found (record core { next_found_id = next })
              (found_job i observation context coinbase)
      ]

  unfoldable pub process_candidate : Core → ShareObservation → CandidateContext → Core
  unfolding queue_proof stripped_coinbase
  process_candidate core observation context = elim (stripped_coinbase observation context) [
    | none ↦ core
    | some coinbase ↦
        if is_proof observation context coinbase
        then queue_proof core observation context coinbase
        else core
  ]

  unfoldable pub handle_resolved :
      Core
      → List ShareObservation
      → ShareObservation
      → ResolveContext
      → Core × List ShareObservation
  handle_resolved core early observation (ready context) =
      (process_candidate core observation context, early)
  handle_resolved core early observation incomplete = keep_early core early observation
  handle_resolved core early observation obsolete = (core, early)

  unfoldable pub handle_observation :
      Core → List ShareObservation → ShareObservation → Core × List ShareObservation
  unfolding handle_resolved
  handle_observation core early observation =
      handle_resolved core early observation (resolve_context core.context observation)

  -- The loop of `retry_early`, for so many attempts.
  unfoldable pub retry : ℕ → Core → List ShareObservation → Core × List ShareObservation
  retry zero core early = (core, early)
  retry (suc attempts) core [] = (core, [])
  retry (suc attempts) core (observation ∷ early) =
      let handled = handle_observation core early observation in retry attempts handled.0 handled.1

  unfoldable pub retry_early : Core → List ShareObservation → Core × List ShareObservation
  unfolding retry
  retry_early core early = retry (length early) core early

  -- One round of `worker_loop`; a timeout is a wake.
  unfoldable pub worker_loop : Core → List ShareObservation → Work → Core × List ShareObservation
  unfolding retry_early handle_observation
  worker_loop core early (share observation) =
      let handled = handle_observation core early observation in retry_early handled.0 handled.1
  worker_loop core early wake = retry_early core early
