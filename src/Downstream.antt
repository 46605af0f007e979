-- ===== src/Downstream.antt =====
-- src/translator/downstream/downstream.rs: the connection of a miner, its difficulties, and its
-- answers to `mining.configure` and `mining.authorize`. RejectionReason and ShareInfo are
-- src/monitor/shares.rs.
pub mod Submit
pub mod Requests
pub mod Answers
pub mod Forwarding
pub mod Validity
pub mod Counting
pub mod Configuring
pub mod Examples
use demand_cli.Prelude.{
  ℕ, ◌-◌, Bool, true, false, not, Option, none, some, List, [], ◌∷◌, ◌++◌, length, pop_front, any,
  bytes_eq, ltb, leb, is_some, if◌then◌else◌,
}
use demand_cli.Sv1.{Notify, sv1_rolling, or_default}
use demand_cli.RecentJobs.{RecentJobs, add_job_with_binding, clone_last, back}

abbrev pub Text : Type 0
Text = List ℕ

-- Difficulties are floats, which are only copied; times are milliseconds.
pub record DownstreamDifficultyConfig : Type 0 where
  pub submits : List ℕ
  pub current_difficulties : List ℕ
  pub initial_difficulty : ℕ

-- `on_new_valid_share`, at the time `now`.
unfoldable pub on_new_valid_share : ℕ → DownstreamDifficultyConfig → DownstreamDifficultyConfig
on_new_valid_share now config = record config { submits = config.submits ++ now ∷ [] }

unfoldable pub reset : DownstreamDifficultyConfig → DownstreamDifficultyConfig
reset config = record config { submits = [] }

unfoldable pub add_difficulty : DownstreamDifficultyConfig → ℕ → DownstreamDifficultyConfig
add_difficulty config new_diff =
    let kept =
      if leb 3 (length config.current_difficulties)
      then pop_front config.current_difficulties
      else config.current_difficulties in
    record config { current_difficulties = kept ++ new_diff ∷ [] }

-- What `share_count` finds: nothing yet, or shares over a span of milliseconds, none of them if
-- the last is a minute old.
pub data ShareCount : Type 0 where
  too_early : ShareCount
  counted : ℕ → ℕ → ShareCount
  no_shares : ShareCount

-- The loop of `share_count`: the submits that are left, and the count.
unfoldable pub count_shares : ℕ → List ℕ → List ℕ × ShareCount
count_shares now [] = ([], no_shares)
count_shares now (oldest ∷ submits) =
    let later = count_shares now submits in
    let elapsed = now - oldest in
    if ltb elapsed 20_000
    then (oldest ∷ submits, too_early)
    else if ltb elapsed 60_000
    then (oldest ∷ submits, counted (length (oldest ∷ submits)) elapsed)
    else later

unfoldable pub share_count :
    ℕ → DownstreamDifficultyConfig → DownstreamDifficultyConfig × ShareCount
share_count now config =
    let found = count_shares now config.submits in (record config { submits = found.0 }, found.1)

-- The parts of `Downstream` that its handlers of messages read and change; its channels are effects.
pub record Downstream : Type 0 where
  pub connection_id : ℕ
  pub authorized_names : List Text
  pub extranonce1 : List ℕ
  pub version_rolling_mask : Option ℕ
  pub version_rolling_min_bit : Option ℕ
  pub extranonce2_len : ℕ
  pub difficulty_mgmt : DownstreamDifficultyConfig
  pub recent_jobs : RecentJobs
  pub first_job : Notify
  pub first_job_merge_mining_binding_id : Option ℕ
  pub updates_upstream_token : Bool
  pub submit_counts_for_diff : Bool
  pub channel_hashrate_registered : Bool
  pub closed : Bool

unfoldable pub current_difficulty : Downstream → ℕ
current_difficulty downstream =
    or_default (back downstream.difficulty_mgmt.current_difficulties)
      downstream.difficulty_mgmt.initial_difficulty

abbrev pub reset_submit_diff_count_flag : Downstream → Downstream
reset_submit_diff_count_flag downstream = record downstream { submit_counts_for_diff = false }

abbrev pub take_submit_diff_count_flag : Downstream → Downstream × Bool
take_submit_diff_count_flag downstream =
    (record downstream { submit_counts_for_diff = false }, downstream.submit_counts_for_diff)

abbrev pub mark_channel_hashrate_registered : Downstream → Downstream
mark_channel_hashrate_registered downstream = record downstream {
  channel_hashrate_registered = true;
}

abbrev pub take_channel_hashrate_registered : Downstream → Downstream × Bool
take_channel_hashrate_registered downstream = (
  record downstream { channel_hashrate_registered = false },
  downstream.channel_hashrate_registered,
)

abbrev pub mark_closed : Downstream → Downstream
mark_closed downstream = record downstream { closed = true }

abbrev pub is_authorized : Downstream → Text → Bool
is_authorized downstream name = any (bytes_eq name) downstream.authorized_names

abbrev pub authorize : Downstream → Text → Downstream
authorize downstream name = record downstream {
  authorized_names = downstream.authorized_names ++ name ∷ [];
}

pub record Configure : Type 0 where
  pub version_rolling_mask : Option ℕ
  pub version_rolling_min_bit_count : Option ℕ

-- `handle_configure`, with the random draws for the first job; it answers the mask and the
-- minimum bit count.
unfoldable pub handle_configure : Downstream → Configure → List ℕ → Option (Downstream × (ℕ × ℕ))
handle_configure downstream request draws =
    let rolling = sv1_rolling request.version_rolling_mask request.version_rolling_min_bit_count in
    elim (add_job_with_binding downstream.recent_jobs downstream.first_job (some rolling.0)
      (current_difficulty downstream) downstream.first_job_merge_mining_binding_id draws) [
        | none ↦ none
        | some (recent_jobs, first_job) ↦ some (
          record downstream {
            version_rolling_mask = some rolling.0;
            version_rolling_min_bit = some rolling.1;
            recent_jobs = recent_jobs;
            first_job = first_job;
          },
          rolling,
        )
      ]

-- `current_or_initial_job` of src/translator/downstream/notify.rs: what a miner gets first.
unfoldable pub current_or_initial_job : Downstream → List ℕ → Option (Downstream × Notify)
current_or_initial_job downstream draws =
    let difficulty = current_difficulty downstream in
    elim (clone_last downstream.recent_jobs difficulty draws) [
      | none ↦ none
      | some (recent_jobs, some job) ↦ some (record downstream { recent_jobs = recent_jobs }, job)
      | some (recent_jobs, none) ↦
          elim (add_job_with_binding recent_jobs downstream.first_job
            downstream.version_rolling_mask difficulty downstream.first_job_merge_mining_binding_id
            draws) [
              | none ↦ none
              | some (added, first_job) ↦
                  some (record downstream { recent_jobs = added }, first_job)
            ]
    ]

pub record Authorize : Type 0 where
  pub name : Text
  pub password : Text

abbrev pub is_empty : Text → Bool
is_empty [] = true
is_empty (c ∷ cs) = false

-- `handle_authorize`: the token that all connections share afterwards, the token that is sent
-- upstream if any, the worker that is reported as connected if any, and the answer.
pub record Authorized : Type 0 where
  pub token : Text
  pub update : Option Text
  pub connected : Option (Text × Text)
  pub answer : Bool

unfoldable pub handle_authorize : Downstream → Text → Authorize → Authorized
handle_authorize downstream token request =
    if not (leb (length downstream.authorized_names) 0)
    then record { token = token; update = none; connected = none; answer = false }
    else if not downstream.updates_upstream_token
    then record {
      token = token;
      update = none;
      connected = some (request.name, token);
      answer = true;
    }
    else if is_empty request.password
    then record { token = token; update = none; connected = none; answer = false }
    else record {
      token = request.password;
      update = some request.password;
      connected = some (request.name, request.password);
      answer = true;
    }

-- `claim_upstream_token_update`: the flag after the exchange, and whether this call set it.
unfoldable pub claim_upstream_token_update : Bool → Bool × Bool
claim_upstream_token_update claimed = (true, not claimed)
