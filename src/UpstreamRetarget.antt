-- ===== src/UpstreamRetarget.antt =====
-- src/translator/upstream/diff_management.rs: the revision counter that asks for an `UpdateChannel`
-- at once, the limiter of those messages, and the loop that sends them. Times are numbers of
-- microseconds; the channel's hashrate is a float of the message and stays outside.
pub mod Rate
mod Examples
use demand_cli.Prelude.{
  ℕ, ◌+◌, ◌-◌, ◌/◌, ◌%◌, ◌^◌, Bool, true, false, Option, none, some, leb, if◌then◌else◌, and_then,
}

-- `MAX_UPSTREAM_RETARGETS_PER_MINUTE`.
abbrev pub max_upstream_retargets_per_minute : ℕ
max_upstream_retargets_per_minute = 100

pub record UpstreamRetargetRateLimiter : Type 0 where
  pub min_interval : ℕ
  pub next_allowed_at : Option ℕ

-- `max(1)` keeps the division defined.
pub new : ℕ → UpstreamRetargetRateLimiter
new max_per_minute = record {
  min_interval = 60_000_000 / (if leb max_per_minute 1 then 1 else max_per_minute);
  next_allowed_at = none;
}

-- `checked_duration_since`: none where the other time is later.
pub checked_duration_since : ℕ → ℕ → Option ℕ
checked_duration_since later now = if leb now later then some (later - now) else none

pub not_zero : ℕ → Option ℕ
not_zero wait = if leb wait 0 then none else some wait

pub wait_duration : UpstreamRetargetRateLimiter → ℕ → Option ℕ
unfolding checked_duration_since not_zero
wait_duration limiter now =
    and_then (and_then limiter.next_allowed_at (λ next. checked_duration_since next now)) not_zero

pub record_send : UpstreamRetargetRateLimiter → ℕ → UpstreamRetargetRateLimiter
record_send limiter now = record limiter { next_allowed_at = some (now + limiter.min_interval) }

-- `request_immediate_update`: the revision that the watch channel carries, a `u64` that wraps.
pub request_immediate_update : ℕ → ℕ
request_immediate_update revision = (revision + 1) % 2 ^ 64

-- The state of `run_diff_management`: the limiter and `pending_update`.
pub record DiffManagement : Type 0 where
  pub retarget_limiter : UpstreamRetargetRateLimiter
  pub pending_update : Bool

-- What a pass of the loop meets: without a pending update the loop waits for the timeout, for a
-- change of the revision or for the channel to close; with one it reads the clock, and after a
-- send it reads the clock again. `send_fails` is an error of `try_update_hashrate`.
pub data Event : Type 0 where
  timeout changed closed : Event
  pass : ℕ → ℕ → Event
  send_fails : ℕ → Event

-- What a pass does: it sleeps for so long, sends at that time, goes on, or leaves the loop.
pub data Action : Type 0 where
  sleeps sends : ℕ → Action
  goes_on returns : Action

pub send_or_sleep : UpstreamRetargetRateLimiter → Option ℕ → ℕ → ℕ → DiffManagement × Action
send_or_sleep limiter (some wait) checked recorded =
    (record { retarget_limiter = limiter; pending_update = true }, Action.sleeps wait)
send_or_sleep limiter none checked recorded = (
  record { retarget_limiter = record_send limiter recorded; pending_update = false },
  Action.sends checked,
)

pub fail_or_sleep : DiffManagement → Option ℕ → DiffManagement × Action
fail_or_sleep m (some wait) = (m, Action.sleeps wait)
fail_or_sleep m none = (m, Action.returns)

pub step_pending : DiffManagement → Event → DiffManagement × Action
unfolding send_or_sleep fail_or_sleep
step_pending m (pass checked recorded) =
    send_or_sleep m.retarget_limiter (wait_duration m.retarget_limiter checked) checked recorded
step_pending m (send_fails checked) = fail_or_sleep m (wait_duration m.retarget_limiter checked)
step_pending m timeout = (m, Action.goes_on)
step_pending m changed = (m, Action.goes_on)
step_pending m closed = (m, Action.goes_on)

pub step_idle : DiffManagement → Event → DiffManagement × Action
step_idle m timeout = (record m { pending_update = true }, Action.goes_on)
step_idle m changed = (record m { pending_update = true }, Action.goes_on)
step_idle m closed = (m, Action.returns)
step_idle m (pass checked recorded) = (m, Action.goes_on)
step_idle m (send_fails checked) = (m, Action.goes_on)

-- One pass of the loop in `run_diff_management`. An event that the state does not wait for changes
-- nothing.
pub run_diff_management : DiffManagement → Event → DiffManagement × Action
unfolding step_pending step_idle
run_diff_management m event = if m.pending_update then step_pending m event else step_idle m event
