-- ===== src/MergeMining/Commitment/Height.antt =====
-- src/merge_mining.rs, `tree_height`: the height of the merkle tree over a block's transactions.
use native.Mathlib.Nat.{pow-suc}
use demand_cli.Prelude.{ℕ, zero, suc, ◌+◌, ◌^◌, ◌≤◌, ◌<◌, ◌≡◌, ◌↔◌, some, arith}
use demand_cli.MergeMining.Commitment.{halvings, div_ceil2, tree_height}

halvings-add : (fuel w h : ℕ) → halvings fuel w h ≡ h + halvings fuel w 0
unfolding halvings
halvings-add zero w h = omega arith
halvings-add (suc fuel) w h =
    ground (arith, halvings-add fuel (div_ceil2 w) (h + 1), halvings-add fuel (div_ceil2 w) (0 + 1))

halvings_covers : (fuel w : ℕ) → w ≤ 2 ^ fuel → w ≤ 2 ^ halvings fuel w 0
unfolding halvings
halvings_covers zero w h = h
halvings_covers (suc fuel) w h = ground (
  arith,
  pow-suc 2 fuel,
  pow-suc 2 (halvings fuel (div_ceil2 w) 0),
  halvings-add fuel (div_ceil2 w) (0 + 1),
  halvings_covers fuel (div_ceil2 w),
)

halvings_least : (fuel w k : ℕ) → w ≤ 2 ^ k → halvings fuel w 0 ≤ k
unfolding halvings
halvings_least zero w k h = omega arith
halvings_least (suc fuel) w zero h = ground arith
halvings_least (suc fuel) w (suc k) h = ground (
  arith,
  pow-suc 2 k,
  halvings-add fuel (div_ceil2 w) (0 + 1),
  halvings_least fuel (div_ceil2 w) k,
)

-- The tree has a height exactly for the counts from 1 to 2 ^ 31 - 1, and the height is the least h
-- with the count at most 2 ^ h.
pub tree_height_least :
    (count height : ℕ)
    → (tree_height count ≡ some height) ↔ (
        (0 < count)
        × (count < 2 ^ 31)
        × (count ≤ 2 ^ height)
        × ((k : ℕ) → count ≤ 2 ^ k → height ≤ k))
unfolding tree_height
tree_height_least count height = (
  λ e. ground (arith, halvings_covers 31 count, halvings_least 31 count),
  λ h.
      ground (
        arith,
        halvings_covers 31 count,
        halvings_least 31 count height,
        h.3 (halvings 31 count 0),
      ),
)
