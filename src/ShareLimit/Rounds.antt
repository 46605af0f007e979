-- ===== src/ShareLimit/Rounds.antt =====
-- src/translator/utils.rs, `check_share_rate_limit`: the background loops, one for each connection,
-- between the calls of `allow_submit_share`. A round of a loop is two steps: it counts the queue
-- under its lock, and after the lock it stores the flag and goes on with what it counted. Anything
-- may come between the two. The store and the request for a retarget write different statics, and
-- are one step.
use demand_cli.Prelude.{
  ℕ, ◌+◌, ◌-◌, Bool, true, false, ◌&&◌, Option, none, some, List, [], ◌∷◌, length, leb, ◌==◌,
  if◌then◌else◌,
}
use demand_cli.ShareLimit.{
  Limiter, share_rate_limit_per_minute, prune_expired_share_timestamps, allow_submit_share,
  maybe_request_upstream_rate_limit_retarget,
}

-- The variables of one loop; `counted` is the time and the count of a round that is under way.
pub record Loop : Type 0 where
  pub last_update : ℕ
  pub rate_limit_hit_count : ℕ
  pub counted : Option (ℕ × ℕ)

-- The statics, and the loop of each connection.
pub record System : Type 0 where
  pub limiter : Limiter
  pub last_retarget : Option ℕ
  pub loops : ℕ → Loop

-- What one round of a loop asks for.
pub record Requests : Type 0 where
  pub upstream_retarget : Bool
  pub difficulty_update : Bool

-- The critical section at the beginning of a round: the queue is pruned and counted.
unfoldable pub count_timestamps : Limiter → ℕ → Limiter × ℕ
count_timestamps limiter now =
    let timestamps = prune_expired_share_timestamps limiter.timestamps now in
    (record limiter { timestamps = timestamps }, length timestamps)

unfoldable pub count_hit : Bool → ℕ → ℕ
count_hit true hits = hits + 1
count_hit false hits = 0

unfoldable pub set_loop : (ℕ → Loop) → ℕ → Loop → ℕ → Loop
set_loop loops connection_id changed other = if other == connection_id then changed else loops other

-- The rest of a round, from the store of the flag on, with its time and what it counted.
unfoldable pub finish_round : System → ℕ → ℕ → ℕ → System × Requests
unfolding count_hit
finish_round system connection_id now count =
    let loop = system.loops connection_id in
    let is_limited = leb share_rate_limit_per_minute count in
    let hits = count_hit is_limited loop.rate_limit_hit_count in
    let limiter = record system.limiter { is_rate_limited = is_limited } in
    let (last_retarget, requested) =
      maybe_request_upstream_rate_limit_retarget system.last_retarget now in
    if leb 5 hits && leb 2_000 (now - loop.last_update)
    then (
      record {
        limiter = limiter;
        last_retarget = last_retarget;
        loops =
            set_loop system.loops connection_id
              (record { last_update = now; rate_limit_hit_count = 0; counted = none });
      },
      record { upstream_retarget = requested; difficulty_update = true },
    )
    else (
      record system {
        limiter = limiter;
        loops =
            set_loop system.loops connection_id
              (record loop { rate_limit_hit_count = hits; counted = none });
      },
      record { upstream_retarget = false; difficulty_update = false },
    )

-- A share that asks for its slot, the first and the second step of a connection's round.
pub data Event : Type 0 where
  share : ℕ → Event
  counts : ℕ → ℕ → Event
  finishes : ℕ → Event

-- The second step, of a loop with a round under way; none of another one, and then nothing happens.
unfoldable pub finish_counted : System → ℕ → Option (ℕ × ℕ) → System × Option (ℕ × Requests)
finish_counted system connection_id none = (system, none)
finish_counted system connection_id (some (now, count)) =
    let finished = finish_round system connection_id now count in
    (finished.0, some (now, finished.1))

-- One event, with the time and the requests of a round that it finishes. Difficulty updates are
-- enabled: where they are not, no loop runs and every share is allowed.
unfoldable pub check_share_rate_limit : System → Event → System × Option (ℕ × Requests)
unfolding finish_counted
check_share_rate_limit system (share now) =
    (record system { limiter = (allow_submit_share false system.limiter now).0 }, none)
check_share_rate_limit system (counts connection_id now) =
    let (limiter, count) = count_timestamps system.limiter now in
    (
      record system {
        limiter = limiter;
        loops =
            set_loop system.loops connection_id
              (record (system.loops connection_id) { counted = some (now, count) });
      },
      none,
    )
check_share_rate_limit system (finishes connection_id) =
    finish_counted system connection_id (system.loops connection_id).counted

-- The system after so many events.
unfoldable pub after : System → List Event → System
after system [] = system
after system (event ∷ events) = after (check_share_rate_limit system event).0 events
