-- ===== src/UpstreamRetarget/Examples.antt =====
-- src/translator/upstream/diff_management.rs: the limiter at concrete times.
use demand_cli.Prelude.{◌+◌, ◌≤◌, ◌≡◌, refl, some, List, [], ◌∷◌, arith}
use demand_cli.Prelude.Pacing.{count_between}
use demand_cli.UpstreamRetarget.{
  DiffManagement, Event, changed, pass, new, wait_duration, run_diff_management, record_send,
  max_upstream_retargets_per_minute,
}
use demand_cli.UpstreamRetarget.Rate.{
  IsTimely, initial, send_times, sent_at, retargets_at_most_limit,
}
use demand_cli.Prelude.{true}

-- A request, its send, a second request that has to wait, and the send after the wait.
abbrev requests : List Event
requests = changed ∷ pass 1_000 1_500 ∷ changed ∷ pass 200_000 200_000 ∷ pass 601_500 602_000 ∷ []

requests-IsTimely : IsTimely 0 requests
requests-IsTimely =
    (omega arith, omega arith, (omega arith, omega arith, (omega arith, omega arith, tt)))

retargets_at_most_limit_example :
    count_between 0 (0 + 60_000_000) (send_times initial requests)
    ≤ max_upstream_retargets_per_minute
retargets_at_most_limit_example = retargets_at_most_limit 0 0 requests requests-IsTimely

-- The second request waits until 600 ms after the first send.
requests_sent : send_times initial requests ≡ 1_000 ∷ 601_500 ∷ []
unfolding send_times initial sent_at new run_diff_management wait_duration record_send
requests_sent = refl

abbrev waiting : DiffManagement
waiting = record {
  retarget_limiter = record { min_interval = 600_000; next_allowed_at = some 601_500 };
  pending_update = true;
}
