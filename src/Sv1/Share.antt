-- ===== src/Sv1/Share.antt =====
-- The validation of a miner's share: `validate_share` and `get_hash` of src/translator/utils.rs.
use mathlib.Core.List.{reverse}
use demand_cli.Prelude.{
  ℕ, ◌^◌, Bool, true, false, Option, none, some, List, [], ◌∷◌, ◌++◌, ltb, ◌==◌, if◌then◌else◌,
}
use demand_cli.Sv1.{Notify, Submit, effective_version}

pub record Header : Type 0 where
  pub version : ℕ
  pub prev_blockhash : List ℕ
  pub merkle_root : List ℕ
  pub time : ℕ
  pub bits : ℕ
  pub nonce : ℕ

-- What other crates compute, and the target of a difficulty, which is arithmetic of floats.
pub record Hashing : Type 0 where
  pub sha256d : List ℕ → List ℕ
  pub u256_from_vec : List ℕ → Option (List ℕ)
  pub u256_to_block_hash : List ℕ → List ℕ
  pub block_hash : Header → List ℕ
  pub difficulty_to_target : ℕ → List ℕ

-- `<=` on byte arrays.
abbrev pub bytes_le : List ℕ → List ℕ → Bool
bytes_le [] ys = true
bytes_le (x ∷ xs) [] = false
bytes_le (x ∷ xs) (y ∷ ys) = if ltb x y then true else if x == y then bytes_le xs ys else false

module _ (hashing : Hashing) where
  unfoldable pub merkle_root_of : List ℕ → List (List ℕ) → List ℕ
  merkle_root_of root [] = root
  merkle_root_of root (path ∷ paths) = merkle_root_of (hashing.sha256d (root ++ path)) paths

  -- None where the conversion of the version to `i32` panics.
  unfoldable pub get_hash : ℕ → ℕ → ℕ → List ℕ → Notify → List ℕ → List (List ℕ) → Option (List ℕ)
  get_hash nonce version ntime extranonce job prev_hash merkle_path =
      let coinbase = job.coin_base1 ++ extranonce ++ job.coin_base2 in
      if ltb version (2 ^ 31)
      then some (
          hashing.block_hash (record {
            version = version;
            prev_blockhash = prev_hash;
            merkle_root = merkle_root_of (hashing.sha256d coinbase) merkle_path;
            time = ntime;
            bits = job.bits;
            nonce = nonce;
          }))
      else none

  -- The comparison with the target, the hash reversed.
  unfoldable pub meets_target : List ℕ → Option (List ℕ) → Option Bool
  meets_target target none = none
  meets_target target (some hash) = some (bytes_le (reverse hash) target)

  -- None where `get_hash` panics.
  unfoldable pub validate_share : Submit ℕ → Notify → ℕ → List ℕ → Option ℕ → Option Bool
  validate_share request job difficulty extranonce1 version_rolling_mask =
      elim (hashing.u256_from_vec job.prev_hash) [
        | none ↦ some false
        | some prev_hash ↦ meets_target (hashing.difficulty_to_target difficulty) (
            get_hash request.nonce
              (effective_version job.version request.version_bits version_rolling_mask) request.time
              (extranonce1 ++ request.extra_nonce2) job (hashing.u256_to_block_hash prev_hash)
              job.merkle_branch)
      ]
