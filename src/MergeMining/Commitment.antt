-- ===== src/MergeMining/Commitment.antt =====
-- src/merge_mining.rs: the rules by which RskJ finds its commitment in a serialized coinbase, the
-- height of the merkle tree, and the comparison of the API secret.
pub mod LastTag
pub mod Rule
pub mod Height
pub mod Secret
use Prim.Native.Nat.{bit_or, bit_xor, max}
use demand_cli.Prelude.{
  ℕ, zero, suc, ◌+◌, ◌-◌, ◌/◌, ◌^◌, Bool, true, false, ◌&&◌, ◌||◌, Option, none, some, List, [],
  ◌∷◌, ◌++◌, length, get_or, take, drop, starts_with, bytes_eq, codes, ltb, leb, ◌==◌,
  if◌then◌else◌,
}
use demand_cli.MergeMining.Types.{DesiredPair}

-- `RSK_TAG`.
abbrev pub rsk_tag : List ℕ
rsk_tag = codes "RSKBLOCK:"

abbrev pub rsk_hash_bytes : ℕ
rsk_hash_bytes = 32

abbrev pub rsk_max_trailing_coinbase_bytes : ℕ
rsk_max_trailing_coinbase_bytes = 128

unfoldable pub is_rsk_payload : List ℕ → Bool
is_rsk_payload payload =
    (length payload == length rsk_tag + rsk_hash_bytes) && starts_with payload rsk_tag

-- `windows(n).rposition(|window| window == tag)`: the last offset at which the tag stands.
unfoldable pub or_here : Bool → Option ℕ → Option ℕ
or_here here (some i) = some (suc i)
or_here true none = some 0
or_here false none = none

unfoldable pub last_position : List ℕ → List ℕ → Option ℕ
last_position tag [] = none
last_position tag (b ∷ bytes) = or_here (starts_with (b ∷ bytes) tag) (last_position tag bytes)

unfoldable pub last_raw_tag_position : List ℕ → Option ℕ
last_raw_tag_position bytes = last_position rsk_tag bytes

-- `bytes.get(position..end) == Some(payload)`, then at most 128 bytes behind it.
unfoldable pub matches_at : List ℕ → List ℕ → ℕ → Bool
matches_at payload bytes position =
    leb (position + length payload) (length bytes)
    && bytes_eq (take (length payload) (drop position bytes)) payload
    && leb (length bytes - (position + length payload)) rsk_max_trailing_coinbase_bytes

unfoldable pub matches_last : List ℕ → List ℕ → Option ℕ → Bool
matches_last payload bytes none = false
matches_last payload bytes (some position) = matches_at payload bytes position

unfoldable pub raw_rsk_commitment_matches : List ℕ → DesiredPair → Bool
unfolding matches_last matches_at last_raw_tag_position last_position or_here
raw_rsk_commitment_matches bytes desired =
    is_rsk_payload desired.payload
    && matches_last desired.payload bytes (last_raw_tag_position bytes)

-- `width.div_ceil(2)`.
abbrev pub div_ceil2 : ℕ → ℕ
div_ceil2 width = (width + 1) / 2

-- The `while` of `tree_height`, on fuel.
unfoldable pub halvings : ℕ → ℕ → ℕ → ℕ
halvings zero width height = height
halvings (suc fuel) width height = elim (ltb 1 width) [
  | false ↦ height
  | true ↦ halvings fuel (div_ceil2 width) (height + 1)
]

-- A width below 2 ^ 31 takes at most 31 rounds.
unfoldable pub tree_height : ℕ → Option ℕ
unfolding halvings
tree_height block_tx_count =
    if (block_tx_count == 0) || ltb (2 ^ 31 - 1) block_tx_count
    then none
    else some (halvings 31 block_tx_count 0)

-- The loop of `constant_time_eq` over the indices `index..length`.
pub differences : ℕ → List ℕ → List ℕ → ℕ → ℕ → ℕ
differences zero expected supplied index difference = difference
differences (suc left) expected supplied index difference =
    differences left expected supplied (index + 1)
      (bit_or difference (bit_xor (get_or expected index 0) (get_or supplied index 0)))

pub constant_time_eq : List ℕ → List ℕ → Bool
unfolding differences
constant_time_eq expected supplied =
    differences (max (length expected) (length supplied)) expected supplied 0
      (bit_xor (length expected) (length supplied))
    == 0
