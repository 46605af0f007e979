-- ===== src/Downstream/Requests.antt =====
-- src/translator/downstream/downstream.rs, `handle_submit_request` and `handle_incoming_sv1`, and
-- `process_incoming_message` of src/translator/downstream/receive_from_downstream.rs.
use demand_cli.Downstream.{
  Text, Downstream, reset_submit_diff_count_flag, take_submit_diff_count_flag, on_new_valid_share,
}
use demand_cli.Downstream.Submit.{
  RejectionReason, job_id_not_found, invalid_share, invalid_job_id_format, upstream_rejected, ℤ,
  pos, ShareInfo, Request, Message, SubmitShareWithChannelId, Effect, insert_share,
  update_accepted_shares, update_rejected_shares, counts_share, observes_share, submit_shares,
  send_message, Outcome, done, failed, panicked, Handled, answered, unanswered, invalid_submission,
  error, Sv1Api, respond, is_submit, is_valid_submission, reject_invalid_submit,
}
use demand_cli.Sv1.{Submit, effective_version}
use demand_cli.Sv1.Share.{Hashing, validate_share}
use demand_cli.RecentJobs.{IssuedJob, get_matching_job}
use demand_cli.Prelude.{
  ℕ, Bool, true, false, Option, none, some, List, [], ◌∷◌, ◌++◌, if◌then◌else◌,
}

-- The share of a request and what a rejection does with it.
abbrev pub share_of : Submit Text → Option ℕ → ℤ → Option RejectionReason → ShareInfo
share_of request difficulty job_id rejection_reason = record {
  worker_name = request.user_name;
  difficulty = difficulty;
  job_id = job_id;
  nonce = pos request.nonce;
  rejection_reason = rejection_reason;
}

abbrev pub reject : Downstream → Submit Text → ℤ → RejectionReason → List Effect
reject downstream request job_id reason =
    insert_share (share_of request none job_id (some reason))
    ∷ update_rejected_shares downstream.connection_id
    ∷ respond request false
    ∷ []

-- `upstream_request`.
abbrev pub upstream_request : Submit Text → IssuedJob → Submit ℕ
upstream_request request job = record {
  id = request.id;
  user_name = request.user_name;
  job_id = job.notify.job_id;
  extra_nonce2 = request.extra_nonce2;
  time = request.time;
  nonce = request.nonce;
  version_bits = request.version_bits;
}

-- The observation for merge mining, before the share is validated.
unfoldable pub observe : Downstream → Submit Text → IssuedJob → Option ℕ → List Effect
observe downstream request job none = []
observe downstream request job (some binding_id) =
    observes_share binding_id
      (effective_version job.notify.version request.version_bits downstream.version_rolling_mask)
      request.time request.nonce (downstream.extranonce1 ++ request.extra_nonce2)
    ∷ []

-- `forward_submit_share`: the message, unless the bridge is gone.
unfoldable pub forward_submit_share : Downstream → Submit ℕ → SubmitShareWithChannelId
forward_submit_share downstream request = record {
  channel_id = downstream.connection_id;
  share = request;
  extranonce = downstream.extranonce1;
  extranonce2_len = downstream.extranonce2_len;
  version_rolling_mask = downstream.version_rolling_mask;
}

-- The share of a known job, validated or not, with the bridge open or not.
unfoldable pub submit_validated :
    Downstream
    → Submit Text
    → ℕ
    → IssuedJob
    → Bool
    → Option Bool
    → Downstream × List Effect × Outcome
submit_validated downstream request job_id job bridge_open none = (downstream, [], panicked)
submit_validated downstream request job_id job bridge_open (some false) =
    (downstream, reject downstream request (pos job_id) invalid_share, done)
submit_validated downstream request job_id job true (some true) = (
  record downstream { submit_counts_for_diff = true },
  submit_shares (forward_submit_share downstream (upstream_request request job))
      ∷ insert_share (share_of request (some job.difficulty) (pos job_id) none)
      ∷ update_accepted_shares downstream.connection_id
      ∷ respond request true
      ∷ [],
  done,
)
submit_validated downstream request job_id job false (some true) =
    (downstream, reject downstream request (pos job_id) upstream_rejected, done)

abbrev pub before :
    List Effect → Downstream × List Effect × Outcome → Downstream × List Effect × Outcome
before effects (downstream, later, outcome) = (downstream, effects ++ later, outcome)

module _ (api : Sv1Api) (hashing : Hashing) where
  unfoldable pub submit_known :
      Downstream → Submit Text → ℕ → IssuedJob → Bool → Downstream × List Effect × Outcome
  submit_known downstream request job_id job bridge_open =
      before
        (counts_share downstream.connection_id
          ∷ observe downstream request job job.merge_mining_binding_id)
        (submit_validated downstream request job_id job bridge_open (
          validate_share hashing (upstream_request request job) job.notify job.difficulty
            downstream.extranonce1 downstream.version_rolling_mask))

  unfoldable pub handle_submit_request :
      Downstream → Submit Text → Bool → Downstream × List Effect × Outcome
  handle_submit_request downstream request bridge_open = elim (api.parse_u32 request.job_id) [
    | none ↦ (downstream, reject downstream request (pos 0) invalid_job_id_format, done)
    | some job_id ↦ elim (get_matching_job downstream.recent_jobs job_id) [
      | none ↦ (
        downstream,
        counts_share downstream.connection_id
            ∷ reject downstream request (pos job_id) job_id_not_found,
        done,
      )
      | some job ↦ submit_known downstream request job_id job bridge_open
    ]
  ]

  -- `handle_incoming_sv1`, of a `mining.submit`.
  unfoldable pub handle_submit_message :
      Downstream → Request → Bool → Downstream × List Effect × Outcome
  handle_submit_message downstream request bridge_open = elim (api.submit_try_from request) [
    | none ↦ (downstream, reject_invalid_submit api downstream request, done)
    | some submit ↦
        if is_valid_submission api downstream submit
        then handle_submit_request downstream submit bridge_open
        else (downstream, reject_invalid_submit api downstream request, done)
  ]

  -- The `match` on the answer of `handle_message`; the message is no `mining.submit`, so that an
  -- invalid submission is not rejected either.
  unfoldable pub answer_handled : Downstream → Handled → Downstream × List Effect × Outcome
  answer_handled downstream (answered message) = (downstream, send_message message ∷ [], done)
  answer_handled downstream unanswered = (downstream, [], done)
  answer_handled downstream invalid_submission = (downstream, [], done)
  answer_handled downstream error = (downstream, [], failed)

  unfoldable pub handle_incoming_sv1 :
      Downstream → Message → Bool → Downstream × List Effect × Outcome
  handle_incoming_sv1 downstream message bridge_open = elim (is_submit message) [
    | some request ↦ handle_submit_message downstream request bridge_open
    | none ↦
        let handled = api.handle_message downstream message in answer_handled handled.0 handled.1
  ]

  -- `save_share` of src/translator/downstream/diff_management.rs, unless updates are disabled.
  unfoldable pub save_share : Bool → ℕ → Downstream → Downstream
  save_share updates_disabled now downstream =
      if updates_disabled
      then downstream
      else record downstream { difficulty_mgmt = on_new_valid_share now downstream.difficulty_mgmt }

  -- The share is saved when the flag says so and the call went well.
  unfoldable pub count_submit :
      Bool → ℕ → Downstream × List Effect × Outcome → Downstream × List Effect × Outcome
  count_submit updates_disabled now (downstream, effects, done) =
      let taken = take_submit_diff_count_flag downstream in
      (if taken.1 then save_share updates_disabled now taken.0 else taken.0, effects, done)
  count_submit updates_disabled now (downstream, effects, failed) = (downstream, effects, failed)
  count_submit updates_disabled now (downstream, effects, panicked) =
      (downstream, effects, panicked)

  unfoldable pub process_incoming_message :
      Downstream → Message → Bool → Bool → ℕ → Downstream × List Effect × Outcome
  process_incoming_message downstream message bridge_open updates_disabled now =
      elim (is_submit message) [
        | some request ↦
            count_submit updates_disabled now
              (handle_incoming_sv1 (reset_submit_diff_count_flag downstream) message bridge_open)
        | none ↦ handle_incoming_sv1 downstream message bridge_open
      ]
