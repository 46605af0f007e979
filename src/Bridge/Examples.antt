-- ===== src/Bridge/Examples.antt =====
-- src/translator/proxy/bridge.rs: the theorems at a concrete bridge.
use demand_cli.Prelude.{
  ℕ, ◌≤◌, ◌≡◌, ◌⊎◌, refl, true, false, none, some, List, [], ◌∷◌, codes, arith, ◌==◌,
}
use demand_cli.Sv1.{SetNewPrevHash}
use demand_cli.MergeMining.Types.{ContextState}
use demand_cli.Downstream.Submit.{SubmitShareWithChannelId}
use demand_cli.ShareLimit.{share_rate_limit_per_minute}
use demand_cli.ShareLimit.Window.{count_window}
use demand_cli.Downstream.Requests.{forward_submit_share}
use demand_cli.Downstream.Examples.{
  configured, sample_api, sample_hashing, miner_request, forwarded_submit, miner-IsForwarded,
}
use demand_cli.Bridge.{
  Bridge, ChannelFactory, Arrival, BoundExtendedJob, SubmitSharesExtended, submit_shares,
  send_submit_share_upstream, upstream_times, handle_new_prev_hash, translate_submit,
}
use demand_cli.Bridge.Resolve.{upstream_at_most_limit}
use mathlib.Core.List.{reverse}
use demand_cli.Bridge.Work.{IsReleased, future_jobs-IsReleased}
use demand_cli.Bridge.Versions.{IsRolled, forwarded_translates}

-- A factory that knows the job 7 and finds every share good enough for the pool.
abbrev sample_factory : ChannelFactory ℕ
sample_factory = record {
  has_job = λ f id. id == 7;
  set_target = λ target f. f;
  update_target_for_channel = λ f id target. f;
  last_valid_job_version = λ f. some 0x2000_0000;
  on_submit_shares_extended = λ f share. (f, send_submit_share_upstream share);
  on_new_prev_hash = λ f prev_hash. some f;
  on_new_extended_mining_job = λ f job. some f;
  to_non_segwit = λ f job. job;
  difficulty_too_low_error_code = codes "difficulty-too-low";
  stale_share_error_code = codes "stale-share";
  invalid_job_id_error_code = codes "invalid-job-id";
}

abbrev future_job : ℕ → ℕ → BoundExtendedJob
future_job job_id binding = record {
  job = record {
    job_id = job_id;
    min_ntime = none;
    version = 0x2000_0000;
    coinbase_tx_prefix = 1 ∷ [];
    coinbase_tx_suffix = 2 ∷ [];
    merkle_path = [];
  };
  merge_mining_binding_id = some binding;
}

abbrev waiting_context : ContextState
waiting_context = record {
  desired = none;
  templates = [];
  current_templates = [];
  template_order = [];
  active_chain = none;
  jobs = [];
  current_jobs = [];
  job_order = [];
  job_announcements = [];
  active_binding = none;
  pending_activation_bindings = 1 ∷ 2 ∷ [];
}

abbrev sample_bridge : Bridge ℕ
sample_bridge = record {
  last_notify = none;
  channel_factory = 0;
  future_jobs = future_job 6 1 ∷ future_job 7 2 ∷ [];
  last_p_hash = none;
  target = [];
  submit_fail_counter = 0;
  limiter = record { timestamps = []; is_rate_limited = false };
  context = waiting_context;
}

abbrev sample_share : SubmitShareWithChannelId
sample_share = record {
  channel_id = 2;
  share = record {
    id = 4;
    user_name = codes "miner";
    job_id = 7;
    extra_nonce2 = 8 ∷ 9 ∷ [];
    time = 1700000001;
    nonce = 3;
    version_bits = none;
  };
  extranonce = 1 ∷ [];
  extranonce2_len = 2;
  version_rolling_mask = none;
}

abbrev two_arrivals : List Arrival
two_arrivals =
    record { now = 10; upstream_open = true; message = submit_shares sample_share }
    ∷ record { now = 20; upstream_open = true; message = submit_shares sample_share }
    ∷ []

upstream_at_most_limit_example :
    count_window 0 (upstream_times sample_factory false sample_bridge two_arrivals)
    ≤ share_rate_limit_per_minute
upstream_at_most_limit_example =
    upstream_at_most_limit sample_factory sample_bridge two_arrivals 0 refl
      ((omega arith, tt), (tt, tt))

abbrev new_prev_hash : SetNewPrevHash
new_prev_hash = record { job_id = 7; prev_hash = 5 ∷ []; min_ntime = 1700000000; nbits = 9 }

future_jobs-IsReleased_example :
    let r = handle_new_prev_hash sample_factory sample_bridge new_prev_hash in
    ((sample_factory.on_new_prev_hash 0 new_prev_hash ≡ none)
      × (r.2 ≡ false)
      × (r.1 ≡ none)
      × (r.0 ≡ record sample_bridge { last_p_hash = some new_prev_hash }))
    ⊎ ((channel_factory : ℕ) × (sample_factory.on_new_prev_hash 0 new_prev_hash
          ≡ some channel_factory)
        × (r.2 ≡ true)
        × IsReleased sample_factory new_prev_hash
            (record sample_bridge {
              channel_factory = channel_factory;
              last_p_hash = some new_prev_hash;
              future_jobs = [];
            })
            (reverse sample_bridge.future_jobs)
            r.0
            r.1)
future_jobs-IsReleased_example = future_jobs-IsReleased sample_factory sample_bridge new_prev_hash

forwarded_translates_example :
    (share : SubmitSharesExtended) × (translate_submit sample_factory 0 2 forwarded_submit (some 0)
      ≡ some share)
    × (share.job_id ≡ 7)
    × IsRolled 0x2000_0000 (some 0) (some 0) share.version
unfolding forward_submit_share
forwarded_translates_example =
    forwarded_translates sample_factory sample_api sample_hashing configured miner_request
      (forward_submit_share configured forwarded_submit) 0 0x2000_0000 miner-IsForwarded refl
