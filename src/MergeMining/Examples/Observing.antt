-- ===== src/MergeMining/Examples/Observing.antt =====
-- src/merge_mining.rs: the observer and the handlers at concrete inputs, with a small codec in place
-- of the crates.
use demand_cli.Prelude.{
  ℕ, ◌≤◌, ◌≡◌, ◌≢◌, ◌⊎◌, refl, true, false, Option, none, some, List, [], ◌∷◌, length, get_elem?,
  pop_front, retain, drop, take, arith,
}
use demand_cli.MergeMining.Types.{Core, DesiredPair, ShareObservation}
use demand_cli.MergeMining.Commitment.{is_rsk_payload}
use demand_cli.MergeMining.Template.{ok}
use demand_cli.MergeMining.Session.{new}
use demand_cli.MergeMining.Observer.{Bitcoin, op, push_bytes, share, take_found_job}
use demand_cli.MergeMining.Observer.Worker.{worker_loop, retry_early}
use demand_cli.MergeMining.Observer.Found.{IsFoundValid, worker_loop-IsFoundValid}
use demand_cli.MergeMining.Observer.Early.{waits, retry_early-waits}
use demand_cli.MergeMining.Pair.{
  answered, accepted, parse, parse_payload, parse_target, strip_0x, poll_found_job_api,
  set_pair_api, reserved_coinbase_output_bytes,
}
use demand_cli.MergeMining.Pair.Parsing.{IsPayload, parse_lem}
use demand_cli.MergeMining.Pair.Access.{Parsed, poll_found_job_api_lem, set_pair_api_lem}
use demand_cli.MergeMining.Examples.{pair, job, chain, secret}
use mathlib.Core.List.{reverse}

-- A transaction is its bytes, and its only output; every target is met.
abbrev plain : Bitcoin
plain = record {
  Transaction = List ℕ;
  TxOut = List ℕ;
  deserialize = λ bytes. some bytes;
  clear_witness = λ transaction. transaction;
  serialize = λ transaction. transaction;
  compute_txid = λ transaction. take 32 transaction;
  output = λ transaction. transaction ∷ [];
  serialize_output = λ out. out;
  is_op_return = λ out. true;
  instructions = λ out. op 106 ∷ push_bytes (drop 11 out) ∷ [];
  merkle_root_from_path = λ root path. root;
  serialize_header = λ header. header.nonce ∷ header.time ∷ header.merkle_root;
  block_hash = λ header. header.nonce ∷ [];
  exceeds = λ hash target. false;
  as_hex = λ bytes. bytes;
  hash_to_string = λ bytes. bytes;
}

-- One binding, whose template has its count; the coinbase is the output of the pair.
abbrev observing : Core
observing = record new {
  context = record new.context {
    templates =
        (
          1,
          record {
            template_id = 3;
            desired = pair;
            merkle_path = [];
            block_tx_count = some 1;
            chain = some chain;
          },
        )
        ∷ (
          2,
          record {
            template_id = 4;
            desired = pair;
            merkle_path = [];
            block_tx_count = none;
            chain = some chain;
          },
        )
        ∷ [];
    jobs =
        (1, record job { coinbase_suffix = pair.output })
        ∷ (2, record job { binding_id = 2; template_generation = 2 })
        ∷ [];
  };
}

abbrev observed : ℕ → ShareObservation
observed binding_id = record {
  binding_id = binding_id;
  observed_at_unix_ts = 100;
  version = 4;
  timestamp = 99;
  nonce = 12;
  full_extranonce = [];
}

observing-IsFoundValid : IsFoundValid observing
unfolding new
observing-IsFoundValid = record {
  pending_bounded = omega arith;
  recent_bounded = omega arith;
  recent_once = tt;
  ascending = tt;
  below_next = tt;
}

worker_loop-IsFoundValid_example :
    IsFoundValid (worker_loop plain observing (observed 2 ∷ []) (share (observed 1))).0
    × IsFoundValid (take_found_job observing true).0
worker_loop-IsFoundValid_example =
    worker_loop-IsFoundValid plain observing (observed 2 ∷ []) (share (observed 1)) true
      observing-IsFoundValid

retry_early-waits_example :
    ((retry_early plain observing (observed 1 ∷ observed 2 ∷ [])).1
      ≡ retain (waits observing.context) (observed 1 ∷ observed 2 ∷ []))
    × ((retry_early plain observing (observed 1 ∷ observed 2 ∷ [])).0.context ≡ observing.context)
    × ((retry_early plain observing (observed 1 ∷ observed 2 ∷ [])).0.dropped_observations
        ≡ observing.dropped_observations)
retry_early-waits_example =
    retry_early-waits plain observing (observed 1 ∷ observed 2 ∷ []) (omega arith)

-- Text without a target prefix stands for itself, and any payload has an output of one byte more.
abbrev hex : List ℕ → Option (List ℕ)
hex bytes = some bytes

abbrev framed : List ℕ → Option (List ℕ)
framed bytes = some (106 ∷ bytes)

abbrev payload_text : List ℕ
payload_text = 5 ∷ 6 ∷ []

abbrev target_text : List ℕ
target_text =
    1 ∷ 2 ∷ 3 ∷ 4 ∷ 5 ∷ 6 ∷ 7 ∷ 8 ∷ 1 ∷ 2 ∷ 3 ∷ 4 ∷ 5 ∷ 6 ∷ 7 ∷ 8 ∷ 1 ∷ 2 ∷ 3 ∷ 4 ∷ 5 ∷ 6 ∷ 7 ∷ 8
    ∷ 1 ∷ 2 ∷ 3 ∷ 4 ∷ 5 ∷ 6 ∷ 7 ∷ 8 ∷ []

abbrev parsed : DesiredPair
parsed = record {
  payload = payload_text;
  payload_hex = payload_text;
  target_le = reverse target_text;
  target_hex = target_text;
  output = 106 ∷ payload_text;
}

parses : parse (λ text. text) hex framed payload_text target_text ≡ ok parsed
unfolding parse parse_payload parse_target strip_0x is_rsk_payload
parses = refl

parse_lem_example :
    IsPayload (λ text. text) hex framed parsed.payload_hex parsed.payload
    × (hex parsed.target_hex ≡ some (reverse parsed.target_le))
    × (length parsed.target_le ≡ 32)
    × (framed parsed.payload ≡ some parsed.output)
    × (length parsed.output ≤ reserved_coinbase_output_bytes)
parse_lem_example = parse_lem (λ text. text) hex framed payload_text target_text parsed parses

poll_found_job_api_lem_example :
    let r = poll_found_job_api observing (some secret) true secret in
    ((r.1 ≢ answered) × (r.0 ≡ observing) × (r.2 ≡ none))
    ⊎ ((r.1 ≡ answered)
        × (some secret ≡ some secret)
        × (secret ≢ [])
        × (r.2 ≡ get_elem? observing.found.pending 0)
        × (r.0.found.pending ≡ pop_front observing.found.pending))
poll_found_job_api_lem_example = poll_found_job_api_lem observing (some secret) true secret

set_pair_api_lem_example :
    let r =
      set_pair_api
        (λ text. text)
        hex
        framed
        observing
        (some secret)
        true
        secret
        payload_text
        (some target_text) in
    ((r.1 ≢ accepted) × (r.0 ≡ observing))
    ⊎ ((r.1 ≡ accepted)
        × (some secret ≡ some secret)
        × (secret ≢ [])
        × Parsed (λ text. text) hex framed payload_text (some target_text) observing r.0)
set_pair_api_lem_example =
    set_pair_api_lem (λ text. text) hex framed observing (some secret) true secret payload_text
      (some target_text)
