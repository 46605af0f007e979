-- ===== src/Sv1.antt =====
-- The messages of mining that the translator works with, and the version of a share:
-- src/translator/proxy/next_mining_notify.rs, `effective_version` of src/translator/utils.rs,
-- `sv1_rolling` of src/shared/utils.rs and `apply_mask` of src/translator/downstream/downstream.rs.
-- The messages themselves are types of sv1_api and mining_sv2, with the fields that the code reads.
-- A job identifier that the proxy wrote as text is its number; a float is carried as its bits.
pub mod Share
use Prim.Native.Nat.{bit_and, bit_or}
use demand_cli.Prelude.{ℕ, ◌-◌, ◌^◌, Bool, true, false, Option, none, some, List}

-- `mining.notify`.
pub record Notify : Type 0 where
  pub job_id : ℕ
  pub prev_hash : List ℕ
  pub coin_base1 : List ℕ
  pub coin_base2 : List ℕ
  pub merkle_branch : List (List ℕ)
  pub version : ℕ
  pub bits : ℕ
  pub time : ℕ
  pub clean_jobs : Bool

pub record MiningNotify : Type 0 where
  pub notify : Notify
  pub merge_mining_binding_id : Option ℕ

-- `NewExtendedMiningJob`; a future job has no `min_ntime`.
pub record ExtendedJob : Type 0 where
  pub job_id : ℕ
  pub min_ntime : Option ℕ
  pub version : ℕ
  pub coinbase_tx_prefix : List ℕ
  pub coinbase_tx_suffix : List ℕ
  pub merkle_path : List (List ℕ)

pub record SetNewPrevHash : Type 0 where
  pub job_id : ℕ
  pub prev_hash : List ℕ
  pub min_ntime : ℕ
  pub nbits : ℕ

abbrev pub is_future : ExtendedJob → Bool
is_future job = elim job.min_ntime [ none ↦ true | some _ ↦ false ]

-- `time`: the minimum of the job, or of the prevhash for a future job.
unfoldable pub ntime_of : Option ℕ → SetNewPrevHash → ℕ
ntime_of none new_prev_hash = new_prev_hash.min_ntime
ntime_of (some min_ntime) new_prev_hash = min_ntime

-- `create_notify`; `to_non_segwit` is `extended_job_to_non_segwit` at the extranonce length, which
-- the code expects to succeed.
unfoldable pub create_notify :
    (ExtendedJob → ExtendedJob) → SetNewPrevHash → ExtendedJob → Bool → Notify
unfolding ntime_of
create_notify to_non_segwit new_prev_hash job clean_jobs =
    let new_job = to_non_segwit job in
    record {
      job_id = new_job.job_id;
      prev_hash = new_prev_hash.prev_hash;
      coin_base1 = new_job.coinbase_tx_prefix;
      coin_base2 = new_job.coinbase_tx_suffix;
      merkle_branch = new_job.merkle_path;
      version = new_job.version;
      bits = new_prev_hash.nbits;
      time = ntime_of new_job.min_ntime new_prev_hash;
      clean_jobs = clean_jobs;
    }

-- `!mask` on `u32`.
abbrev pub complement : ℕ → ℕ
complement mask = 2 ^ 32 - 1 - mask

-- The mask where no rolling was negotiated.
abbrev pub default_mask : ℕ
default_mask = 0x1fff_e000

abbrev pub or_default : Option ℕ → ℕ → ℕ
or_default none d = d
or_default (some a) d = a

unfoldable pub effective_version : ℕ → Option ℕ → Option ℕ → ℕ
effective_version job_version request_version version_rolling_mask =
    let request = or_default request_version job_version in
    let mask = or_default version_rolling_mask default_mask in
    bit_or (bit_and job_version (complement mask)) (bit_and request mask)

-- `sv1_rolling`: the mask that the miner asks for, within the default, and its minimum bit count.
unfoldable pub sv1_rolling : Option ℕ → Option ℕ → ℕ × ℕ
sv1_rolling requested_mask min_bit_count = (
  elim requested_mask [ none ↦ 0 | some mask ↦ bit_and mask default_mask ],
  or_default min_bit_count 0,
)

unfoldable pub apply_mask : Option ℕ → Notify → Notify
apply_mask none message = message
apply_mask (some mask) message = record message {
  version = bit_and message.version (complement mask);
}

-- `mining.submit`, with the job identifier as the miner's text or as the number of a pool job.
pub record Submit (JobId : Type 0) : Type 0 where
  pub id : ℕ
  pub user_name : List ℕ
  pub job_id : JobId
  pub extra_nonce2 : List ℕ
  pub time : ℕ
  pub nonce : ℕ
  pub version_bits : Option ℕ
