-- ===== src/ShareLimit/Ticks.antt =====
-- src/translator/utils.rs: the flag `IS_RATE_LIMITED`, and the pacing of the retarget requests, when
-- the loops of `check_share_rate_limit` and the calls of `allow_submit_share` take their steps in
-- any order.
use demand_cli.Prelude.{
  ℕ, ◌+◌, ◌≤◌, ◌≡◌, refl, ap, true, false, Option, none, some, List, [], ◌∷◌, length, length-append,
  leb, if◌then◌else◌, arith, All,
}
use demand_cli.ShareLimit.{
  Limiter, share_rate_limit_per_minute, upstream_rate_limit_retarget_interval,
  prune_expired_share_timestamps, reserve_share_slot, allow_submit_share,
  maybe_request_upstream_rate_limit_retarget,
}
use demand_cli.ShareLimit.Rounds.{
  Loop, System, Requests, Event, share, counts, finishes, count_timestamps, set_loop, finish_round,
  finish_counted, check_share_rate_limit, after,
}
use demand_cli.Prelude.Pacing.{
  IsSpaced, count_between, count_between_spaced, All-le, All-grow, IsSpaced-grow,
}
use demand_cli.ShareLimit.Window.{prune-length-le}

abbrev pub IsBounded : System → Type 0
IsBounded system = length system.limiter.timestamps ≤ share_rate_limit_per_minute

-- What the flag promises: it says whether the queue is full.
abbrev pub IsCoherent : Limiter → Type 0
IsCoherent limiter =
    limiter.is_rate_limited ≡ leb share_rate_limit_per_minute (length limiter.timestamps)

finish_round-timestamps :
    (system : System) (i now count : ℕ)
    → ((finish_round system i now count).0.limiter.timestamps ≡ system.limiter.timestamps)
      × ((finish_round system i now count).0.limiter.is_rate_limited
          ≡ leb share_rate_limit_per_minute count)
unfolding finish_round
finish_round-timestamps system i now count = ground arith

finish_counted-IsBounded :
    (system : System) (i : ℕ) (counted : Option (ℕ × ℕ))
    → IsBounded system
    → IsBounded (finish_counted system i counted).0
unfolding finish_counted
finish_counted-IsBounded system i none h = h
finish_counted-IsBounded system i (some (now, count)) h =
    rw ((finish_round-timestamps system i now count).0) h

allow-IsCoherent :
    (limiter : Limiter) (now : ℕ)
    → length limiter.timestamps ≤ share_rate_limit_per_minute
    → (length (allow_submit_share false limiter now).0.timestamps ≤ share_rate_limit_per_minute)
      × IsCoherent (allow_submit_share false limiter now).0
unfolding allow_submit_share reserve_share_slot
allow-IsCoherent limiter now h = ground (
  arith,
  prune-length-le limiter.timestamps now,
  length-append (prune_expired_share_timestamps limiter.timestamps now) (now ∷ []),
)

event-IsBounded :
    (system : System) (event : Event)
    → IsBounded system
    → IsBounded (check_share_rate_limit system event).0
unfolding check_share_rate_limit count_timestamps
event-IsBounded system (share now) h = (allow-IsCoherent system.limiter now h).0
event-IsBounded system (counts i now) h =
    omega (arith, h, prune-length-le system.limiter.timestamps now)
event-IsBounded system (finishes i) h = finish_counted-IsBounded system i (system.loops i).counted h

after-IsBounded :
    (system : System) (events : List Event) → IsBounded system → IsBounded (after system events)
unfolding after
after-IsBounded system [] h = h
after-IsBounded system (event ∷ events) h =
    after-IsBounded (check_share_rate_limit system event).0 events (event-IsBounded system event h)

set_loop-same : (loops : ℕ → Loop) (i : ℕ) (changed : Loop) → set_loop loops i changed i ≡ changed
unfolding set_loop
set_loop-same loops i changed = ground arith

-- The two steps of a round, with nothing between them.
abbrev pub round : ℕ → ℕ → List Event
round connection_id now = counts connection_id now ∷ finishes connection_id ∷ []

finish_counted-flag :
    (system : System) (i now : ℕ) (counted : Option (ℕ × ℕ))
    → counted ≡ some (now, length system.limiter.timestamps)
    → IsCoherent (finish_counted system i counted).0.limiter
unfolding finish_counted
finish_counted-flag system i now none e = absurd (ground (arith, e))
finish_counted-flag system i now (some (time, count)) e =
    let counted_all : count ≡ length system.limiter.timestamps = cc in
    let (kept, flagged) = finish_round-timestamps system i time count in
    rw (kept, flagged, counted_all) refl

round-IsCoherent : (system : System) (i now : ℕ) → IsCoherent (after system (round i now)).limiter
unfolding after check_share_rate_limit count_timestamps
round-IsCoherent system i now =
    let begun = (check_share_rate_limit system (counts i now)).0 in
    finish_counted-flag begun i now (begun.loops i).counted
      (ap (λ loop. loop.counted) (set_loop-same system.loops i _))

-- From a queue within 70 entries, whatever steps shares and loops take and in whatever order, the
-- queue stays within 70 entries; and the next share leaves `IS_RATE_LIMITED` equal to "the queue is
-- full", as does a round of a loop if nothing comes between its two steps.
pub limiter_stays-IsCoherent :
    (system : System) (events : List Event) (now connection_id : ℕ)
    → length system.limiter.timestamps ≤ share_rate_limit_per_minute
    → (length (after system events).limiter.timestamps ≤ share_rate_limit_per_minute)
      × IsCoherent (check_share_rate_limit (after system events) (share now)).0.limiter
      × IsCoherent (after (after system events) (round connection_id now)).limiter
unfolding check_share_rate_limit
limiter_stays-IsCoherent system events now connection_id h =
    let bounded = after-IsBounded system events h in
    (
      bounded,
      (allow-IsCoherent (after system events).limiter now bounded).1,
      round-IsCoherent (after system events) connection_id now,
    )

-- Was a retarget requested, by a round at which time?
abbrev pub requested_at : Option (ℕ × Requests) → List ℕ → List ℕ
requested_at none later = later
requested_at (some (now, requests)) later =
    if requests.upstream_retarget then now ∷ later else later

-- The times of the rounds that request an upstream retarget.
unfoldable pub retarget_times : System → List Event → List ℕ
retarget_times system [] = []
retarget_times system (event ∷ events) =
    let step = check_share_rate_limit system event in
    requested_at step.1 (retarget_times step.0 events)

abbrev next_retarget : Option ℕ → ℕ
next_retarget none = 0
next_retarget (some last) = last + upstream_rate_limit_retarget_interval

-- A round requests a retarget only when five seconds have passed since the last one, and notes it.
round-retarget :
    (system : System) (i now count : ℕ)
    → ((finish_round system i now count).1.upstream_retarget ≡ true
        → (next_retarget system.last_retarget ≤ now)
          × (next_retarget (finish_round system i now count).0.last_retarget
              ≡ now + upstream_rate_limit_retarget_interval))
      × (next_retarget system.last_retarget
          ≤ next_retarget (finish_round system i now count).0.last_retarget)
unfolding finish_round maybe_request_upstream_rate_limit_retarget
round-retarget system i now count = ground arith

-- Times that are allowed after a step and spaced are so with the step's own.
IsPaced : ℕ → List ℕ → Type 0
IsPaced low times =
    All (λ time. low ≤ time) times × IsSpaced upstream_rate_limit_retarget_interval times

finish-IsPaced :
    (system : System) (i : ℕ) (counted : Option (ℕ × ℕ)) (later : List ℕ)
    → IsPaced (next_retarget (finish_counted system i counted).0.last_retarget) later
    → IsPaced
        (next_retarget system.last_retarget)
        (requested_at (finish_counted system i counted).1 later)
unfolding finish_counted IsPaced
finish-IsPaced system i none later p = p
finish-IsPaced system i (some (now, count)) later p =
    let paced = round-retarget system i now count in
    let low = next_retarget system.last_retarget in
    let high = next_retarget (finish_round system i now count).0.last_retarget in
    let requested = (finish_round system i now count).1.upstream_retarget in
    (
      All-grow (λ time. low ≤ time) requested now later (λ e. (paced.0 e).0)
          (All-le (λ y. y) low high later paced.1 p.0),
      IsSpaced-grow upstream_rate_limit_retarget_interval requested now later
          (λ e.
            All-le (λ y. y) (now + upstream_rate_limit_retarget_interval) high later
              (omega (arith, (paced.0 e).1)) p.0)
          p.1,
    )

retargets-IsPaced :
    (system : System) (events : List Event)
    → IsPaced (next_retarget system.last_retarget) (retarget_times system events)
unfolding retarget_times check_share_rate_limit IsPaced
retargets-IsPaced system [] = (tt, tt)
retargets-IsPaced system (share now ∷ events) =
    retargets-IsPaced (check_share_rate_limit system (share now)).0 events
retargets-IsPaced system (counts i now ∷ events) =
    retargets-IsPaced (check_share_rate_limit system (counts i now)).0 events
retargets-IsPaced system (finishes i ∷ events) =
    finish-IsPaced system i (system.loops i).counted _
      (retargets-IsPaced (check_share_rate_limit system (finishes i)).0 events)

-- Whatever state the loops of the connections are in, and in whatever order their steps and the
-- shares come, at most 12 of the requests of all loops for an upstream retarget fall into any
-- minute.
pub retarget_requests_per_minute :
    (start : ℕ) (system : System) (events : List Event)
    → count_between start (start + 60_000) (retarget_times system events) ≤ 12
unfolding IsPaced
retarget_requests_per_minute start system events =
    count_between_spaced 5_000 (retarget_times system events) 12 start (start + 60_000)
      (omega arith) (retargets-IsPaced system events).1
