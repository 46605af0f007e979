-- ===== src/ShareLimit.antt =====
-- src/translator/utils.rs: the rolling limit on the shares that go upstream, its background tick,
-- and the share counter of each connection. An `Instant` is a number of milliseconds and
-- `duration_since` stops at 0, as tokio's does. The statics are records that the functions take and
-- return; their mutexes are never poisoned. `SHARE_PER_MIN` and the hashrate arithmetic are floats
-- and stay outside: a round of the tick says which of the two requests it makes.
pub mod Window
pub mod Rounds
pub mod Ticks
pub mod Counts
mod Examples
use demand_cli.Prelude.{
  ℕ, suc, ◌+◌, ◌-◌, Bool, true, false, not, ◌&&◌, ◌||◌, Option, none, some, List, [], ◌∷◌, ◌++◌,
  length, leb, ltb, if◌then◌else◌,
}
use demand_cli.Prelude.Map.{HashMap, get, insert}

-- `SHARE_RATE_LIMIT_PER_MINUTE`.
abbrev pub share_rate_limit_per_minute : ℕ
share_rate_limit_per_minute = 70

-- `SHARE_RATE_LIMIT_WINDOW`, in milliseconds.
abbrev pub share_rate_limit_window : ℕ
share_rate_limit_window = 60_000

-- `UPSTREAM_RATE_LIMIT_RETARGET_INTERVAL`, in milliseconds.
abbrev pub upstream_rate_limit_retarget_interval : ℕ
upstream_rate_limit_retarget_interval = 5_000

-- The `while let` pops from the front until a time inside the window.
pub prune_expired_share_timestamps : List ℕ → ℕ → List ℕ
prune_expired_share_timestamps [] now = []
prune_expired_share_timestamps (front ∷ timestamps) now =
    if leb share_rate_limit_window (now - front)
    then prune_expired_share_timestamps timestamps now
    else front ∷ timestamps

unfoldable pub reserve_share_slot : List ℕ → ℕ → List ℕ × Bool
reserve_share_slot timestamps now =
    let kept = prune_expired_share_timestamps timestamps now in
    if leb share_rate_limit_per_minute (length kept)
    then (kept, false)
    else (kept ++ now ∷ [], true)

-- `SHARE_TIMESTAMPS` and `IS_RATE_LIMITED`.
pub record Limiter : Type 0 where
  pub timestamps : List ℕ
  pub is_rate_limited : Bool

-- `disabled` is `Configuration::difficulty_updates_disabled()`.
unfoldable pub allow_submit_share : Bool → Limiter → ℕ → Limiter × Bool
allow_submit_share true limiter now = (limiter, true)
allow_submit_share false limiter now =
    let (timestamps, allowed) = reserve_share_slot limiter.timestamps now in
    (
      record {
        timestamps = timestamps;
        is_rate_limited = not allowed || leb share_rate_limit_per_minute (length timestamps);
      },
      allowed,
    )

-- `LAST_UPSTREAM_RATE_LIMIT_RETARGET`, and whether the retarget is requested.
pub maybe_request_upstream_rate_limit_retarget : Option ℕ → ℕ → Option ℕ × Bool
maybe_request_upstream_rate_limit_retarget none now = (some now, true)
maybe_request_upstream_rate_limit_retarget (some last_update) now =
    if leb upstream_rate_limit_retarget_interval (now - last_update)
    then (some now, true)
    else (some last_update, false)

-- `SHARE_COUNTS`: for each connection a count and the time when the count began.
abbrev pub ShareCounts : Type 0
ShareCounts = HashMap (ℕ × ℕ)

pub bump_count : Option (ℕ × ℕ) → ℕ → ℕ × ℕ
bump_count none now = (1, now)
bump_count (some (count, last_update)) now =
    if ltb (now - last_update) share_rate_limit_window then (count + 1, last_update) else (1, now)

pub update_share_count : ShareCounts → ℕ → ℕ → ShareCounts
update_share_count share_counts connection_id now =
    insert connection_id (bump_count (get connection_id share_counts) now) share_counts

pub read_count : Option (ℕ × ℕ) → ℕ → ℕ
read_count none now = 0
read_count (some (count, last_update)) now =
    if ltb (now - last_update) share_rate_limit_window then count else 0

pub get_share_count : ShareCounts → ℕ → ℕ → ℕ
get_share_count share_counts connection_id now = read_count (get connection_id share_counts) now
