-- ===== src/Router.antt =====
-- src/router/mod.rs: the choice of the pool, from the latencies that were measured. A duration is a
-- number of nanoseconds; a pool is the number of its address.
pub mod Least
mod Examples
use demand_cli.Prelude.{
  ℕ, ◌+◌, ◌-◌, ◌*◌, ◌^◌, Bool, true, false, not, Option, none, some, List, [], ◌∷◌, ltb, leb,
  length, ◌==◌, if◌then◌else◌,
}

-- `latency` is what `latency_tx` holds.
pub record Router : Type 0 where
  pub pool_addresses : List ℕ
  pub current_pool : Option ℕ
  pub latency : Option ℕ

-- The latencies of the stages of a connection, each if it was reached.
pub record PoolLatency : Type 0 where
  pub open_sv2_mining_connection : Option ℕ
  pub setup_a_channel : Option ℕ
  pub receive_first_job : Option ℕ
  pub receive_first_set_new_prev_hash : Option ℕ
  pub open_sv2_jd_connection : Option ℕ
  pub get_a_mining_token : Option ℕ

-- `flatten().sum()`.
unfoldable pub sum_of : List (Option ℕ) → ℕ
sum_of [] = 0
sum_of (none ∷ latencies) = sum_of latencies
sum_of (some latency ∷ latencies) = latency + sum_of latencies

-- `get_latency`, when both measurements went well; none otherwise.
unfoldable pub get_latency : Bool → Bool → PoolLatency → Option ℕ
get_latency mining_measured jd_measured pool =
    if not mining_measured
    then none
    else if not jd_measured
    then none
    else some (
        sum_of (
          pool.open_sv2_mining_connection ∷ pool.setup_a_channel ∷ pool.receive_first_job
          ∷ pool.receive_first_set_new_prev_hash ∷ pool.open_sv2_jd_connection
          ∷ pool.get_a_mining_token ∷ []))

-- `Duration::MAX`.
abbrev pub duration_max : ℕ
duration_max = (2 ^ 64 - 1) * 1_000_000_000 + 999_999_999

abbrev pub with_latency : Option ℕ → ℕ → Option (ℕ × ℕ)
with_latency none latency = none
with_latency (some pool) latency = some (pool, latency)

-- The loop of `select_pool`, over the pools with what `get_latency` measures for each.
unfoldable pub select_from : Option ℕ → ℕ → List (ℕ × Option ℕ) → Option (ℕ × ℕ)
select_from best_pool least_latency [] = with_latency best_pool least_latency
select_from best_pool least_latency ((pool, none) ∷ measured) =
    select_from best_pool least_latency measured
select_from best_pool least_latency ((pool, some latency) ∷ measured) =
    let faster = ltb latency least_latency in
    select_from (if faster then some pool else best_pool)
      (if faster then latency else least_latency) measured

unfoldable pub select_pool : List (ℕ × Option ℕ) → Option (ℕ × ℕ)
select_pool measured = select_from none duration_max measured

-- `select_pool_connect`: the only pool is not measured.
unfoldable pub select_pool_connect : Router → List (ℕ × Option ℕ) → Router × Option ℕ
select_pool_connect router measured = elim router.pool_addresses [
  | [] ↦ (router, none)
  | pool ∷ pools ↦
      if leb (length pools) 0 then (router, some pool) else elim (select_pool measured) [
        | none ↦ (router, none)
        | some (best, latency) ↦ (record router { latency = some latency }, some best)
      ]
]

-- `select_pool_monitor`, with the latency that is measured for the current pool.
unfoldable pub select_pool_monitor : Router → ℕ → List (ℕ × Option ℕ) → Option ℕ → Option ℕ
select_pool_monitor router epsilon measured current_latency = elim (select_pool measured) [
  | none ↦ none
  | some (best_pool, best_pool_latency) ↦ elim router.current_pool [
    | none ↦ some best_pool
    | some current_pool ↦ if best_pool == current_pool then none else elim current_latency [
      | none ↦ none
      | some latency ↦ if ltb best_pool_latency (latency - epsilon) then some best_pool else none
    ]
  ]
]

abbrev pub is_current : Option ℕ → ℕ → Bool
is_current none pool = false
is_current (some current) pool = pool == current

unfoldable pub monitor_upstream : Router → ℕ → List (ℕ × Option ℕ) → Option ℕ → Option ℕ
monitor_upstream router epsilon measured current_latency =
    elim (select_pool_monitor router epsilon measured current_latency) [
      | none ↦ none
      | some best_pool ↦ if is_current router.current_pool best_pool then none else some best_pool
    ]
