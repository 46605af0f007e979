-- ===== src/Bridge.antt =====
-- src/translator/proxy/bridge.rs: the bridge from the miners' shares to the pool's channel, and from
-- the pool's jobs to the miners. `SubmitShareWithChannelId` is src/translator/downstream/mod.rs, and
-- `submit_error_to_rejection_reason` src/translator/utils.rs.
pub mod Resolve
pub mod Work
pub mod Versions
mod Examples
use Prim.Native.Nat.{bit_and, bit_or}
use mathlib.Core.List.{reverse}
use demand_cli.Prelude.{
  ◌++◌, ℕ, ◌+◌, Bool, true, false, Option, none, some, List, [], ◌∷◌, bytes_eq, leb, ◌==◌,
  if◌then◌else◌, ◌||◌,
}
use demand_cli.Sv1.{
  Notify, MiningNotify, ExtendedJob, SetNewPrevHash, Submit, complement, create_notify, is_future,
}
use demand_cli.Downstream.Submit.{
  SubmitShareWithChannelId, RejectionReason, job_id_not_found, difficulty_mismatch,
  upstream_rejected, rate_limited,
}
use demand_cli.ShareLimit.{Limiter, allow_submit_share}
use demand_cli.MergeMining.Types.{ContextState}
use demand_cli.MergeMining.Bindings.{set_active_job_binding, clear_pending_job_binding}

pub record SubmitSharesExtended : Type 0 where
  pub channel_id : ℕ
  pub sequence_number : ℕ
  pub job_id : ℕ
  pub nonce : ℕ
  pub ntime : ℕ
  pub version : ℕ
  pub extranonce : List ℕ

-- `OnNewShare`, with the variants that the code calls unreachable, and the errors.
pub data OnNewShare : Type 0 where
  send_error_downstream : List ℕ → OnNewShare
  send_submit_share_upstream : SubmitSharesExtended → OnNewShare
  relay_submit_share_upstream : OnNewShare
  share_meet_downstream_target : OnNewShare
  share_meet_bitcoin_target : OnNewShare
  factory_error : OnNewShare

-- `ProxyExtendedChannelFactory` of roles_logic_sv2, with its state, and its error codes.
pub record ChannelFactory (F : Type 0) : Type 0 where
  pub has_job : F → ℕ → Bool
  pub set_target : List ℕ → F → F
  pub update_target_for_channel : F → ℕ → List ℕ → F
  pub last_valid_job_version : F → Option ℕ
  pub on_submit_shares_extended : F → SubmitSharesExtended → F × OnNewShare
  pub on_new_prev_hash : F → SetNewPrevHash → Option F
  pub on_new_extended_mining_job : F → ExtendedJob → Option F
  pub to_non_segwit : F → ExtendedJob → ExtendedJob
  pub difficulty_too_low_error_code : List ℕ
  pub stale_share_error_code : List ℕ
  pub invalid_job_id_error_code : List ℕ

pub record BoundExtendedJob : Type 0 where
  pub job : ExtendedJob
  pub merge_mining_binding_id : Option ℕ

-- The bridge with what it shares: the count of failed submits, the limiter of the shares and the
-- merge-mining context. Its channels are results of the calls.
pub record Bridge (F : Type 0) : Type 0 where
  pub last_notify : Option MiningNotify
  pub channel_factory : F
  pub future_jobs : List BoundExtendedJob
  pub last_p_hash : Option SetNewPrevHash
  pub target : List ℕ
  pub submit_fail_counter : ℕ
  pub limiter : Limiter
  pub context : ContextState

pub data DownstreamMessages : Type 0 where
  submit_shares : SubmitShareWithChannelId → DownstreamMessages
  set_downstream_target : ℕ → List ℕ → DownstreamMessages

-- A message with the time at which it is handled, and whether the channel upstream is there.
pub record Arrival : Type 0 where
  pub now : ℕ
  pub upstream_open : Bool
  pub message : DownstreamMessages

-- What becomes of a share: its result is sent to the connection, or it goes upstream with the
-- sender of the result, or the bridge panics.
pub data Fate : Type 0 where
  resolved : Option RejectionReason → Fate
  upstream : SubmitSharesExtended → Fate
  panicked : Fate

module _ {F : Type 0} (factory : ChannelFactory F) where
  unfoldable pub submit_error_to_rejection_reason : List ℕ → RejectionReason
  submit_error_to_rejection_reason code =
      if bytes_eq code factory.difficulty_too_low_error_code
      then difficulty_mismatch
      else if bytes_eq code factory.stale_share_error_code
          || bytes_eq code factory.invalid_job_id_error_code
      then job_id_not_found
      else upstream_rejected

  -- The version of `translate_submit`, none for bits without a mask or a mask without bits.
  unfoldable pub translate_version : ℕ → Option ℕ → Option ℕ → Option ℕ
  translate_version last_version (some vb) (some mask) =
      some (bit_or (bit_and last_version (complement mask)) (bit_and vb mask))
  translate_version last_version none none = some last_version
  translate_version last_version (some vb) none = none
  translate_version last_version none (some mask) = none

  unfoldable pub translate_submit : F → ℕ → Submit ℕ → Option ℕ → Option SubmitSharesExtended
  translate_submit channel_factory channel_id submit version_rolling_mask =
      elim (factory.last_valid_job_version channel_factory) [
        | none ↦ none
        | some last_version ↦
            elim (translate_version last_version submit.version_bits version_rolling_mask) [
              | none ↦ none
              | some version ↦ some (record {
                channel_id = channel_id;
                sequence_number = 0;
                job_id = submit.job_id;
                nonce = submit.nonce;
                ntime = submit.time;
                version = version;
                extranonce = submit.extra_nonce2;
              })
            ]
      ]

  -- The share goes upstream if the limit allows it and the channel is there; true is an Ok.
  unfoldable pub send_upstream :
      Bool → Bool → ℕ → Bridge F → SubmitSharesExtended → Bridge F × Fate × Bool
  send_upstream limit_disabled upstream_open now bridge share =
      let allowed = allow_submit_share limit_disabled bridge.limiter now in
      let limited = record bridge { limiter = allowed.0 } in
      if allowed.1
      then if upstream_open
        then (limited, upstream share, true)
        else (limited, resolved (some upstream_rejected), false)
      else (limited, resolved (some rate_limited), true)

  -- The `match` on the answer of the channel factory.
  unfoldable pub on_new_share : Bool → Bool → ℕ → Bridge F → OnNewShare → Bridge F × Fate × Bool
  on_new_share limit_disabled upstream_open now bridge (send_error_downstream code) =
      (bridge, resolved (some (submit_error_to_rejection_reason code)), true)
  on_new_share limit_disabled upstream_open now bridge (send_submit_share_upstream share) =
      send_upstream limit_disabled upstream_open now bridge share
  on_new_share limit_disabled upstream_open now bridge relay_submit_share_upstream =
      (bridge, panicked, false)
  on_new_share limit_disabled upstream_open now bridge share_meet_downstream_target =
      (bridge, resolved none, true)
  on_new_share limit_disabled upstream_open now bridge share_meet_bitcoin_target =
      (bridge, panicked, false)
  on_new_share limit_disabled upstream_open now bridge factory_error =
      (bridge, resolved (some upstream_rejected), false)

  -- The branch `NoValidJob`: the tenth failure in a row is an error.
  unfoldable pub fail_translation : Bridge F → Bridge F × Fate × Bool
  fail_translation bridge =
      let count = bridge.submit_fail_counter + 1 in
      (
        record bridge { submit_fail_counter = count },
        resolved (some job_id_not_found),
        if leb 10 count then false else true,
      )

  unfoldable pub handle_submit_shares :
      Bool → Bool → ℕ → Bridge F → SubmitShareWithChannelId → Bridge F × Fate × Bool
  handle_submit_shares limit_disabled upstream_open now bridge message =
      if factory.has_job bridge.channel_factory message.share.job_id
      then (let targeted : Bridge F = record bridge {
        channel_factory = factory.set_target bridge.target bridge.channel_factory;
      } in
          elim (translate_submit targeted.channel_factory message.channel_id message.share
            message.version_rolling_mask) [
              | none ↦ fail_translation targeted
              | some share ↦
                  let answer = factory.on_submit_shares_extended targeted.channel_factory share in
                  on_new_share limit_disabled upstream_open now
                    (record targeted { submit_fail_counter = 0; channel_factory = answer.0 })
                    answer.1
            ])
      else (bridge, resolved (some job_id_not_found), true)

  -- A pass of the loop of `handle_downstream_messages`.
  unfoldable pub handle_downstream_message :
      Bool → Bridge F → Arrival → Bridge F × Option Fate × Bool
  handle_downstream_message limit_disabled bridge arrival = elim arrival.message [
    | submit_shares share ↦
        let handled =
          handle_submit_shares limit_disabled arrival.upstream_open arrival.now bridge share in
        (handled.0, some handled.1, handled.2)
    | set_downstream_target channel_id new_target ↦ (
      record bridge {
        channel_factory =
            factory.update_target_for_channel bridge.channel_factory channel_id new_target;
      },
      none,
      true,
    )
  ]

  abbrev pub goes_upstream : Option Fate → Bool
  goes_upstream none = false
  goes_upstream (some (resolved result)) = false
  goes_upstream (some (upstream share)) = true
  goes_upstream (some panicked) = false

  -- The loop ends with the first error; the times at which shares go upstream.
  unfoldable pub upstream_times : Bool → Bridge F → List Arrival → List ℕ
  upstream_times limit_disabled bridge [] = []
  upstream_times limit_disabled bridge (arrival ∷ arrivals) =
      let handled = handle_downstream_message limit_disabled bridge arrival in
      let rest = upstream_times limit_disabled handled.0 arrivals in
      let later = if handled.2 then rest else [] in
      if goes_upstream handled.1 then arrival.now ∷ later else later

  -- `clear_pending_job_binding`, of a binding if there is one.
  abbrev pub clear_binding : ContextState → Option ℕ → ContextState
  clear_binding context none = context
  clear_binding context (some binding_id) = clear_pending_job_binding context binding_id

  -- The bindings of jobs that will not be activated.
  unfoldable pub discard : ContextState → List BoundExtendedJob → ContextState
  discard context [] = context
  discard context (job ∷ jobs) = discard (clear_binding context job.merge_mining_binding_id) jobs

  -- `notify` of a job, which becomes the active one.
  abbrev pub mining_notify : F → SetNewPrevHash → BoundExtendedJob → MiningNotify
  mining_notify channel_factory new_prev_hash bound = record {
    notify = create_notify (factory.to_non_segwit channel_factory) new_prev_hash bound.job true;
    merge_mining_binding_id = bound.merge_mining_binding_id;
  }

  abbrev pub activate : Bridge F → MiningNotify → Bridge F
  activate bridge notify = record bridge {
    context = set_active_job_binding bridge.context notify.merge_mining_binding_id;
    last_notify = some notify;
  }

  -- The loop of `handle_new_prev_hash_`: the future jobs from the last one on.
  unfoldable pub match_future_job :
      SetNewPrevHash → Bridge F → List BoundExtendedJob → Bridge F × Option MiningNotify
  match_future_job new_prev_hash bridge [] = (bridge, none)
  match_future_job new_prev_hash bridge (bound ∷ future_jobs) =
      let later =
        match_future_job new_prev_hash
          (record bridge { context = clear_binding bridge.context bound.merge_mining_binding_id })
          future_jobs in
      if bound.job.job_id == new_prev_hash.job_id
      then (let notify = mining_notify bridge.channel_factory new_prev_hash bound in
          let activated = activate bridge notify in
          (
            record activated { context = discard activated.context (reverse future_jobs) },
            some notify,
          ))
      else later

  -- `handle_new_prev_hash_`: the notify that is broadcast, if any, and true for an Ok.
  unfoldable pub handle_new_prev_hash :
      Bridge F → SetNewPrevHash → Bridge F × Option MiningNotify × Bool
  handle_new_prev_hash bridge new_prev_hash =
      let noted : Bridge F = record bridge { last_p_hash = some new_prev_hash } in
      elim (factory.on_new_prev_hash noted.channel_factory new_prev_hash) [
        | none ↦ (noted, none, false)
        | some channel_factory ↦
            let matched =
              match_future_job new_prev_hash
                (record noted { channel_factory = channel_factory; future_jobs = [] })
                (reverse bridge.future_jobs) in
            (matched.0, matched.1, true)
      ]

  unfoldable pub handle_new_extended_mining_job :
      Bridge F → ExtendedJob → Option ℕ → Bridge F × Option MiningNotify × Bool
  handle_new_extended_mining_job bridge job merge_mining_binding_id =
      let bound : BoundExtendedJob = record {
        job = job;
        merge_mining_binding_id = merge_mining_binding_id;
      } in
      elim (factory.on_new_extended_mining_job bridge.channel_factory job) [
        | none ↦ (bridge, none, false)
        | some channel_factory ↦
            let taken : Bridge F = record bridge { channel_factory = channel_factory } in
            if is_future job
            then (record taken { future_jobs = bridge.future_jobs ++ bound ∷ [] }, none, true)
            else elim bridge.last_p_hash [
              | none ↦ (taken, none, false)
              | some last_p_hash ↦
                  let notify = mining_notify channel_factory last_p_hash bound in
                  (activate taken notify, some notify, true)
            ]
      ]
