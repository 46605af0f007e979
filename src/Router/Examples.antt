-- ===== src/Router/Examples.antt =====
-- src/router/mod.rs: the monitor at concrete latencies.
use demand_cli.Prelude.{ℕ, ◌≡◌, refl, Option, none, some, List, [], ◌∷◌}
use demand_cli.Router.{Router, select_from, select_pool, select_pool_monitor, monitor_upstream}
use demand_cli.Router.Least.{IsFaster, monitor_upstream-IsFaster}

-- Three pools, one of them not reached.
abbrev two_pools : List (ℕ × Option ℕ)
two_pools = (1, some 900) ∷ (2, none) ∷ (3, some 400) ∷ []

abbrev on_first : Router
on_first = record { pool_addresses = 1 ∷ 2 ∷ 3 ∷ []; current_pool = some 1; latency = some 900 }

first_is_slower : monitor_upstream on_first 100 two_pools (some 880) ≡ some 3
unfolding monitor_upstream select_pool_monitor select_pool select_from
first_is_slower = refl

monitor_upstream-IsFaster_example : IsFaster 1 100 two_pools (some 880) 3
monitor_upstream-IsFaster_example =
    monitor_upstream-IsFaster on_first 100 two_pools (some 880) 1 3 refl first_is_slower
