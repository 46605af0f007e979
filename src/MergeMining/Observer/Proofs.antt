-- ===== src/MergeMining/Observer/Proofs.antt =====
-- src/merge_mining.rs: what every job in the queue of found jobs is.
use demand_cli.Prelude.{◌≡◌, true, some, List, ◌++◌, map, false}
use demand_cli.MergeMining.Types.{
  Core, ContextState, FoundJob, ShareObservation, CandidateContext, ready,
}
use mathlib.Core.List.{reverse}
use demand_cli.MergeMining.Commitment.{raw_rsk_commitment_matches}
use demand_cli.MergeMining.Observer.{
  Header, has_canonical_last_rsk_commitment, Bitcoin, resolve_context,
}
use demand_cli.MergeMining.Observer.{map}

module _ (bitcoin : Bitcoin) where
  -- What makes a share a proof: its binding had a coherent context, the coinbase is that of the
  -- share without its witness, it carries the commitment by both rules, and the header, which is
  -- written out, meets the target.
  pub record Proof : Type 0 where
    pub state : ContextState
    pub observation : ShareObservation
    pub context : CandidateContext
    pub transaction : bitcoin.Transaction
    pub coinbase : bitcoin.Transaction
    pub header : Header
    pub resolved : resolve_context state observation ≡ ready context
    pub deserialized :
        bitcoin.deserialize
          (context.coinbase_prefix ++ observation.full_extranonce ++ context.coinbase_suffix)
        ≡ some transaction
    pub stripped : coinbase ≡ bitcoin.clear_witness transaction
    pub built : header ≡ record {
      version = observation.version;
      prev_blockhash = context.chain.prev_hash;
      merkle_root =
          bitcoin.merkle_root_from_path (bitcoin.compute_txid coinbase) context.merkle_path;
      time = observation.timestamp;
      bits = context.chain.n_bits;
      nonce = observation.nonce;
    }
    pub canonical : has_canonical_last_rsk_commitment bitcoin coinbase context.desired ≡ true
    pub raw_matches : raw_rsk_commitment_matches (bitcoin.serialize coinbase) context.desired ≡ true
    pub meets_target : bitcoin.exceeds (bitcoin.block_hash header) context.desired.target_le ≡ false

  -- The job reports a proof: its header, hash, coinbase and path, and the pair of its template.
  pub record IsProof (job : FoundJob) : Type 0 where
    pub proof : Proof
    pub observed_at : job.observed_at_unix_ts ≡ proof.observation.observed_at_unix_ts
    pub template_id : job.template_id ≡ proof.context.template_id
    pub version : job.version ≡ proof.observation.version
    pub header_timestamp : job.header_timestamp ≡ proof.observation.timestamp
    pub header_nonce : job.header_nonce ≡ proof.observation.nonce
    pub block_hash :
        job.bitcoin_block_hash_hex ≡ bitcoin.hash_to_string (bitcoin.block_hash proof.header)
    pub block_header : job.block_header_hex ≡ bitcoin.as_hex (bitcoin.serialize_header proof.header)
    pub coinbase_tx : job.coinbase_tx_hex ≡ bitcoin.as_hex (bitcoin.serialize proof.coinbase)
    pub merkle_hashes :
        job.merkle_hashes_hex
        ≡ map (λ hash. bitcoin.as_hex (reverse hash)) proof.context.merkle_path
    pub block_tx_count : job.block_tx_count ≡ proof.context.block_tx_count
    pub payload : job.op_return_payload_hex ≡ proof.context.desired.payload_hex
    pub target : job.rsk_target_hex ≡ proof.context.desired.target_hex
