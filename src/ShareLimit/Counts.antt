-- ===== src/ShareLimit/Counts.antt =====
-- src/translator/utils.rs: what `get_share_count` says after calls of `update_share_count`.
use demand_cli.Prelude.{
  ℕ, ◌+◌, ◌-◌, ◌≤◌, ◌<◌, ◌≡◌, ◌≢◌, false, some, List, [], ◌∷◌, length, All, ltb, is_some_and,
  if◌then◌else◌, arith,
}
use demand_cli.Prelude.Map.{get, get-insert}
use demand_cli.ShareLimit.{
  ShareCounts, share_rate_limit_window, update_share_count, get_share_count, bump_count, read_count,
}

-- Shares of one connection at the given times.
pub shares : ShareCounts → ℕ → List ℕ → ShareCounts
shares counts id [] = counts
shares counts id (now ∷ times) = shares (update_share_count counts id now) id times

abbrev InCount : ℕ → ℕ → Type 0
InCount began time = (began ≤ time) × (time < began + share_rate_limit_window)

counts_on :
    (counts : ShareCounts) (id began n : ℕ) (times : List ℕ)
    → get id counts ≡ some (n, began)
    → All (InCount began) times
    → get id (shares counts id times) ≡ some (n + length times, began)
unfolding shares update_share_count bump_count
counts_on counts id began n [] e a = ground arith
counts_on counts id began n (now ∷ times) e a = ground (
  arith,
  get-insert id id (bump_count (get id counts) now) counts,
  counts_on (update_share_count counts id now) id began (n + 1) times,
)

-- A connection whose last count ended a minute ago or that has none: after a first share and others
-- less than a minute later, a reading in that minute is the number of the shares, and any reading
-- after it is 0.
pub share_count_of_minute :
    (counts : ShareCounts) (id began now : ℕ) (times : List ℕ)
    → is_some_and (get id counts) (λ c. ltb (began - c.1) share_rate_limit_window) ≡ false
    → All (InCount began) times
    → began ≤ now
    → get_share_count (shares counts id (began ∷ times)) id now
      ≡ (if ltb now (began + share_rate_limit_window) then length times + 1 else 0)
unfolding shares update_share_count get_share_count bump_count read_count
share_count_of_minute counts id began now times z a h =
    let counts' = update_share_count counts id began in
    ground (
      arith,
      get-insert id id (bump_count (get id counts) began) counts,
      counts_on counts' id began 1 times,
    )

-- A share of one connection leaves the count of every other.
share_counts_apart :
    (counts : ShareCounts) (id other now later : ℕ)
    → id ≢ other
    → get_share_count (update_share_count counts id now) other later
      ≡ get_share_count counts other later
unfolding update_share_count get_share_count
share_counts_apart counts id other now later n =
    ground (arith, get-insert id other (bump_count (get id counts) now) counts)
