-- ===== src/Downstream/Examples.antt =====
-- src/translator/downstream/downstream.rs: the theorems at a concrete connection.
use demand_cli.Prelude.{
  ℕ, ◌≡◌, ◌⊎◌, refl, true, false, none, some, [], ◌∷◌, ◌++◌, codes, if◌then◌else◌, bytes_eq,
}
use demand_cli.Prelude.Map.{get, insert}
use demand_cli.Sv1.{Notify, Submit, apply_mask, sv1_rolling, effective_version}
use demand_cli.Sv1.Share.{Hashing, validate_share, get_hash, meets_target, merkle_root_of}
use demand_cli.RecentJobs.{
  IssuedJob, RecentJobs, new, add_job_with_binding, new_v1, draw_id, issue, enter_v1,
  remove_evicted, get_matching_job, back,
}
use demand_cli.RecentJobs.Buffer.{empty, push_back}
use demand_cli.RecentJobs.Reach.{Reachable, start, added}
use demand_cli.RecentJobs.Linked.{pool_job}
use demand_cli.Downstream.{Text, Downstream, Configure, handle_configure, current_difficulty}
use demand_cli.Downstream.Submit.{
  Sv1Api, Request, standard_request, unanswered, panicked, done, is_valid_submission,
  has_valid_version_bits,
}
use demand_cli.Downstream.Requests.{
  handle_submit_message, handle_submit_request, submit_known, submit_validated, observe,
  forward_submit_share, process_incoming_message,
}
use demand_cli.Downstream.Answers.{
  IsPanicking, IsSettled, submit_message-IsSettled, answers, forwards,
}
use demand_cli.Downstream.Forwarding.{IsForwarded, sent_share-IsForwarded}
use demand_cli.Downstream.Counting.{repeat, submits-forwarded}
use demand_cli.Downstream.Configuring.{second_configure}

abbrev pool_notify : ℕ → Notify
pool_notify job_id = record {
  job_id = job_id;
  prev_hash = 1 ∷ 2 ∷ [];
  coin_base1 = 3 ∷ [];
  coin_base2 = 4 ∷ [];
  merkle_branch = [];
  version = 0x2000_0000;
  bits = 0x1703_4219;
  time = 1700000000;
  clean_jobs = true;
}

abbrev after_first : RecentJobs
after_first = record {
  v1_to_v2 = (10, 7) ∷ [];
  v2_to_v1 = (7, 10 ∷ []) ∷ [];
  issued_jobs =
      (10, record { notify = pool_notify 7; difficulty = 5; merge_mining_binding_id = some 1 })
      ∷ [];
  jobs = record { notify = pool_notify 7; merge_mining_binding_id = some 1 } ∷ [];
  last_v2s = record { buffer = some 7 ∷ none ∷ none ∷ []; len = 1; start = 0 };
  tracked_jobs = 3;
}

abbrev first_issued : IssuedJob
first_issued = record { notify = pool_notify 7; difficulty = 5; merge_mining_binding_id = some 1 }

abbrev connected : Downstream
connected = record {
  connection_id = 2;
  authorized_names = codes "miner" ∷ [];
  extranonce1 = 1 ∷ [];
  version_rolling_mask = none;
  version_rolling_min_bit = none;
  extranonce2_len = 2;
  difficulty_mgmt = record { submits = []; current_difficulties = 5 ∷ []; initial_difficulty = 5 };
  recent_jobs = new;
  first_job = pool_notify 7;
  first_job_merge_mining_binding_id = some 1;
  updates_upstream_token = true;
  submit_counts_for_diff = false;
  channel_hashrate_registered = false;
  closed = false;
}

-- The mask is 0 where the miner asks for none.
abbrev pub configured : Downstream
configured = record connected {
  version_rolling_mask = some 0;
  version_rolling_min_bit = some 0;
  recent_jobs = after_first;
  first_job = pool_notify 10;
}

abbrev no_rolling : Configure
no_rolling = record { version_rolling_mask = none; version_rolling_min_bit_count = none }

configured_first : handle_configure connected no_rolling (10 ∷ []) ≡ some (configured, (0, 0))
unfolding handle_configure sv1_rolling add_job_with_binding new empty new_v1 draw_id issue enter_v1
    remove_evicted push_back apply_mask get insert current_difficulty back
configured_first = refl

first_added :
    add_job_with_binding new (pool_notify 7) (some 0) 5 (some 1) (10 ∷ [])
    ≡ some (after_first, pool_notify 10)
unfolding add_job_with_binding new empty new_v1 draw_id issue enter_v1 remove_evicted push_back
    apply_mask get insert
first_added = refl

configured-Reachable : Reachable configured.recent_jobs
configured-Reachable =
    added (pool_notify 7) (some 0) 5 (some 1) (10 ∷ []) after_first (pool_notify 10) start
      first_added

-- A miner that asks for the job 10 with the nonce 3, which meets the difficulty 5 here.
abbrev miner_submit : Submit Text
miner_submit = record {
  id = 4;
  user_name = codes "miner";
  job_id = codes "10";
  extra_nonce2 = 8 ∷ 9 ∷ [];
  time = 1700000001;
  nonce = 3;
  version_bits = some 0;
}

abbrev pub miner_request : Request
miner_request = record { id = 4; method = codes "mining.submit"; params = none }

abbrev pub sample_api : Sv1Api
sample_api = record {
  submit_try_from = λ r. some (record miner_submit { id = r.id });
  check_mask = λ mask bits. true;
  trim = λ t. t;
  parse_u32 = λ t. if bytes_eq t (codes "10") then some 10 else none;
  parse_i64 = λ t. none;
  hex_u32 = λ t. none;
  handle_message = λ d m. (d, unanswered);
}

abbrev pub sample_hashing : Hashing
sample_hashing = record {
  sha256d = λ bytes. bytes;
  u256_from_vec = λ bytes. some bytes;
  u256_to_block_hash = λ bytes. bytes;
  block_hash = λ header. header.nonce ∷ [];
  difficulty_to_target = λ difficulty. difficulty ∷ [];
}

submit_message-IsSettled_example :
    let r = handle_submit_message sample_api sample_hashing configured miner_request true in
    (IsPanicking sample_api sample_hashing configured miner_request
      × (r.2 ≡ panicked)
      × (answers r.1 ≡ [])
      × (forwards r.1 ≡ []))
    ⊎ (IsSettled 2 4 r.1 × (r.2 ≡ done))
submit_message-IsSettled_example =
    submit_message-IsSettled sample_api sample_hashing configured miner_request true
      (λ submit e. cc)

abbrev pub forwarded_submit : Submit ℕ
forwarded_submit = record {
  id = 4;
  user_name = codes "miner";
  job_id = 7;
  extra_nonce2 = 8 ∷ 9 ∷ [];
  time = 1700000001;
  nonce = 3;
  version_bits = some 0;
}

miner_submit_forwarded :
    forwards (handle_submit_message sample_api sample_hashing configured miner_request true).1
    ≡ forward_submit_share configured forwarded_submit ∷ []
unfolding handle_submit_message is_valid_submission has_valid_version_bits handle_submit_request
    get_matching_job get submit_known observe submit_validated validate_share meets_target get_hash
    merkle_root_of effective_version
miner_submit_forwarded = refl

sent_share-IsForwarded_example :
    IsForwarded sample_api sample_hashing configured miner_request
      (forward_submit_share configured forwarded_submit)
sent_share-IsForwarded_example =
    sent_share-IsForwarded sample_api sample_hashing configured miner_request true
      (forward_submit_share configured forwarded_submit) configured-Reachable miner_submit_forwarded

submits-forwarded_example :
    let r =
      process_incoming_message sample_api sample_hashing configured
        (standard_request miner_request)
        true
        false
        90 in
    r.0.difficulty_mgmt.submits ≡ [] ++ repeat (forwards r.1) 90
submits-forwarded_example =
    submits-forwarded sample_api sample_hashing configured (standard_request miner_request)
      miner_request true 90 refl

-- No share meets the target.
abbrev strict_hashing : Hashing
strict_hashing = record sample_hashing { difficulty_to_target = λ difficulty. [] }

abbrev reconfigured : Downstream
reconfigured = record configured {
  recent_jobs = record {
    v1_to_v2 = (10, 7) ∷ (11, 10) ∷ [];
    v2_to_v1 = (7, 10 ∷ []) ∷ (10, 11 ∷ []) ∷ [];
    issued_jobs =
        after_first.issued_jobs
        ++ (
          11,
          record { notify = pool_notify 10; difficulty = 5; merge_mining_binding_id = some 1 },
        )
          ∷ [];
    jobs =
        after_first.jobs
        ++ record { notify = pool_notify 10; merge_mining_binding_id = some 1 } ∷ [];
    last_v2s = record { buffer = some 7 ∷ some 10 ∷ none ∷ []; len = 2; start = 0 };
    tracked_jobs = 3;
  };
  first_job = pool_notify 11;
}

configured_second : handle_configure configured no_rolling (11 ∷ []) ≡ some (reconfigured, (0, 0))
unfolding handle_configure sv1_rolling add_job_with_binding new_v1 draw_id issue enter_v1
    remove_evicted push_back apply_mask get insert current_difficulty back
configured_second = refl

second_configure_example : pool_job (get_matching_job reconfigured.recent_jobs 11) ≡ some 10
second_configure_example =
    second_configure connected configured reconfigured no_rolling no_rolling (10 ∷ []) (11 ∷ [])
      (0, 0) (0, 0) start configured_first configured_second

pub miner-IsForwarded :
    IsForwarded sample_api sample_hashing configured miner_request
      (forward_submit_share configured forwarded_submit)
miner-IsForwarded =
    sent_share-IsForwarded sample_api sample_hashing configured miner_request true
      (forward_submit_share configured forwarded_submit) configured-Reachable miner_submit_forwarded
