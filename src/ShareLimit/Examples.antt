-- ===== src/ShareLimit/Examples.antt =====
-- src/translator/utils.rs: the limiter and the counts at concrete times.
use demand_cli.Prelude.{
  ℕ, zero, suc, ◌+◌, ◌≤◌, ◌≡◌, refl, true, false, none, List, [], ◌∷◌, length, ltb, if◌then◌else◌,
  retain, ◌++◌, arith,
}
use demand_cli.Prelude.Pacing.{count_between}
use demand_cli.Prelude.Map.{get}
use demand_cli.ShareLimit.{
  share_rate_limit_per_minute, reserve_share_slot, prune_expired_share_timestamps,
  allow_submit_share, maybe_request_upstream_rate_limit_retarget, get_share_count,
}
use demand_cli.ShareLimit.Window.{
  IsOrdered, count_window, admitted, is_recent, admitted_at_most_limit, reserve_exactly_when,
}
use demand_cli.ShareLimit.Rounds.{
  Loop, System, Event, share, counts, finishes, count_timestamps, set_loop, finish_round,
  finish_counted, check_share_rate_limit, after, count_hit,
}
use demand_cli.ShareLimit.Ticks.{
  IsCoherent, round, retarget_times, limiter_stays-IsCoherent, retarget_requests_per_minute,
}
use demand_cli.ShareLimit.Counts.{shares, share_count_of_minute}

-- Times from the first on, one every 100 milliseconds.
abbrev burst : ℕ → ℕ → List ℕ
burst zero first = []
burst (suc n) first = first ∷ burst n (first + 100)

abbrev three : List ℕ
three = 1_000 ∷ 30_000 ∷ 61_500 ∷ []

three-IsOrdered : IsOrdered three
three-IsOrdered = ((omega arith, (omega arith, tt)), ((omega arith, tt), (tt, tt)))

-- The 71st share of a minute is refused.
burst_of_71 : length (admitted [] (burst 71 0)) ≡ 70
unfolding admitted reserve_share_slot prune_expired_share_timestamps
burst_of_71 = refl

admitted_at_most_limit_example : count_window 500 (admitted [] three) ≤ share_rate_limit_per_minute
admitted_at_most_limit_example = admitted_at_most_limit 500 three three-IsOrdered

reserve_exactly_when_example :
    ((reserve_share_slot three 61_600).1
      ≡ ltb (length (retain (is_recent 61_600) three)) share_rate_limit_per_minute)
    × ((reserve_share_slot three 61_600).0
        ≡ retain (is_recent 61_600) three
          ++ (if (reserve_share_slot three 61_600).1 then 61_600 ∷ [] else []))
reserve_exactly_when_example = reserve_exactly_when 61_600 three three-IsOrdered

abbrev waiting : ℕ → Loop
waiting connection_id = record { last_update = 0; rate_limit_hit_count = 4; counted = none }

abbrev idle : System
idle = record {
  limiter = record { timestamps = three; is_rate_limited = false };
  last_retarget = none;
  loops = waiting;
}

-- A share comes between the two steps of the round of connection 2.
abbrev interleaved : List Event
interleaved = counts 2 61_000 ∷ share 61_550 ∷ finishes 2 ∷ []

limiter_stays-IsCoherent_example :
    (length (after idle interleaved).limiter.timestamps ≤ share_rate_limit_per_minute)
    × IsCoherent (check_share_rate_limit (after idle interleaved) (share 61_600)).0.limiter
    × IsCoherent (after (after idle interleaved) (round 3 61_600)).limiter
limiter_stays-IsCoherent_example = limiter_stays-IsCoherent idle interleaved 61_600 3 (omega arith)

-- One slot is free when a round counts the queue; a share takes it before the round stores the flag.
abbrev one_free : System
one_free = record {
  limiter = record { timestamps = burst 69 100_000; is_rate_limited = false };
  last_retarget = none;
  loops = waiting;
}

abbrev raced : System
raced = after one_free (counts 2 107_000 ∷ share 107_000 ∷ finishes 2 ∷ [])

raced_flag : (raced.limiter.is_rate_limited ≡ false) × (length raced.limiter.timestamps ≡ 70)
unfolding after check_share_rate_limit count_timestamps finish_counted finish_round set_loop
    allow_submit_share reserve_share_slot prune_expired_share_timestamps count_hit
    maybe_request_upstream_rate_limit_retarget
raced_flag = (refl, refl)

-- The queue is full, and the limit was hit on the last four rounds.
abbrev full : System
full = record idle { limiter = record { timestamps = burst 70 100_000; is_rate_limited = true } }

abbrev two_rounds : List Event
two_rounds =
    counts 2 110_000
    ∷ counts 3 110_100
    ∷ finishes 3
    ∷ share 110_150
    ∷ finishes 2
    ∷ counts 2 111_000
    ∷ finishes 2
    ∷ []

-- The round of connection 2 is later in its store, but not in its time.
full_requests : retarget_times full two_rounds ≡ 110_100 ∷ []
unfolding retarget_times check_share_rate_limit count_timestamps finish_counted finish_round
    set_loop allow_submit_share reserve_share_slot prune_expired_share_timestamps count_hit
    maybe_request_upstream_rate_limit_retarget
full_requests = refl

retarget_requests_per_minute_example :
    count_between 100_000 (100_000 + 60_000) (retarget_times full two_rounds) ≤ 12
retarget_requests_per_minute_example = retarget_requests_per_minute 100_000 full two_rounds

share_count_of_minute_example :
    get_share_count (shares [] 7 (1_000 ∷ 2_000 ∷ 3_000 ∷ [])) 7 5_000
    ≡ (if ltb 5_000 (1_000 + 60_000) then 3 else 0)
unfolding get
share_count_of_minute_example =
    share_count_of_minute [] 7 1_000 5_000 (2_000 ∷ 3_000 ∷ []) refl
      ((omega arith, omega arith), ((omega arith, omega arith), tt)) (omega arith)
