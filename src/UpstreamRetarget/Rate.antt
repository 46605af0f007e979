-- ===== src/UpstreamRetarget/Rate.antt =====
-- src/translator/upstream/diff_management.rs: the distance between two `UpdateChannel` messages.
use demand_cli.Prelude.{ℕ, ◌+◌, ◌≤◌, ◌≡◌, refl, subst, false, none, some, List, [], ◌∷◌, arith, All}
use demand_cli.Prelude.Pacing.{IsSpaced, count_between, count_between_spaced, All-le}
use demand_cli.UpstreamRetarget.{
  UpstreamRetargetRateLimiter, DiffManagement, Event, Action, timeout, changed, closed, pass,
  send_fails, new, wait_duration, record_send, run_diff_management,
  max_upstream_retargets_per_minute,
}

-- The times at which a run of the loop sends.
unfoldable pub sent_at : Action → List ℕ → List ℕ
sent_at (Action.sends time) later = time ∷ later
sent_at (Action.sleeps wait) later = later
sent_at Action.goes_on later = later
sent_at Action.returns later = []

unfoldable pub send_times : DiffManagement → List Event → List ℕ
send_times m [] = []
send_times m (event ∷ events) =
    let step = run_diff_management m event in sent_at step.1 (send_times step.0 events)

-- The last reading of the clock after an event, where `low` is the one before.
abbrev pub clock : ℕ → Event → ℕ
clock low (pass checked recorded) = recorded
clock low (send_fails checked) = checked
clock low timeout = low
clock low changed = low
clock low closed = low

-- The clock does not go back.
abbrev pub IsTimely : ℕ → List Event → Type 0
IsTimely low [] = Unit {0}
IsTimely low (pass checked recorded ∷ events) =
    (low ≤ checked) × (checked ≤ recorded) × IsTimely recorded events
IsTimely low (send_fails checked ∷ events) = (low ≤ checked) × IsTimely checked events
IsTimely low (timeout ∷ events) = IsTimely low events
IsTimely low (changed ∷ events) = IsTimely low events
IsTimely low (closed ∷ events) = IsTimely low events

IsTimely-tail :
    (low : ℕ) (event : Event) (events : List Event)
    → IsTimely low (event ∷ events)
    → (low ≤ clock low event) × IsTimely (clock low event) events
IsTimely-tail low (pass checked recorded) events t = (omega arith, t.2)
IsTimely-tail low (send_fails checked) events t = t
IsTimely-tail low timeout events t = (omega arith, t)
IsTimely-tail low changed events t = (omega arith, t)
IsTimely-tail low closed events t = (omega arith, t)

sent_at-All :
    (P : ℕ → Type 0) (action : Action) (later : List ℕ)
    → ((time : ℕ) → action ≡ Action.sends time → P time)
    → All P later
    → All P (sent_at action later)
unfolding sent_at
sent_at-All P (Action.sends time) later h a = (h time refl, a)
sent_at-All P (Action.sleeps wait) later h a = a
sent_at-All P Action.goes_on later h a = a
sent_at-All P Action.returns later h a = tt

-- The earliest time of the next send.
abbrev next_send : UpstreamRetargetRateLimiter → ℕ
next_send limiter = elim limiter.next_allowed_at [ none ↦ 0 | some next ↦ next ]

wait-none :
    (limiter : UpstreamRetargetRateLimiter) (now : ℕ)
    → wait_duration limiter now ≡ none
    → next_send limiter ≤ now
unfolding wait_duration
wait-none limiter now h = ground arith

-- A send is a pass: it reads the clock first, meets the limiter, and then records a later reading.
send_allowed :
    (m : DiffManagement) (event : Event) (events : List Event) (low time : ℕ)
    → IsTimely low (event ∷ events)
    → (run_diff_management m event).1 ≡ Action.sends time
    → (low ≤ time)
      × (next_send m.retarget_limiter ≤ time)
      × (time + m.retarget_limiter.min_interval
          ≤ next_send (run_diff_management m event).0.retarget_limiter)
unfolding run_diff_management record_send
send_allowed m (pass checked recorded) events low time t e =
    ground (arith, wait-none m.retarget_limiter checked)
send_allowed m (send_fails checked) events low time t e = ground arith
send_allowed m timeout events low time t e = ground arith
send_allowed m changed events low time t e = ground arith
send_allowed m closed events low time t e = ground arith

-- A pass changes the limiter only to move the next send on.
limiter_moves_on :
    (m : DiffManagement) (event : Event) (events : List Event) (low : ℕ)
    → IsTimely low (event ∷ events)
    → ((run_diff_management m event).0.retarget_limiter.min_interval
        ≡ m.retarget_limiter.min_interval)
      × (next_send m.retarget_limiter ≤ next_send (run_diff_management m event).0.retarget_limiter)
unfolding run_diff_management record_send
limiter_moves_on m (pass checked recorded) events low t =
    ground (arith, wait-none m.retarget_limiter checked)
limiter_moves_on m (send_fails checked) events low t = ground arith
limiter_moves_on m timeout events low t = ground arith
limiter_moves_on m changed events low t = ground arith
limiter_moves_on m closed events low t = ground arith

sends_allowed :
    (m : DiffManagement) (events : List Event) (low : ℕ)
    → IsTimely low events
    → All (λ time. next_send m.retarget_limiter ≤ time) (send_times m events)
unfolding send_times
sends_allowed m [] low t = tt
sends_allowed m (event ∷ events) low t =
    let next = (run_diff_management m event).0 in
    sent_at-All (λ time. next_send m.retarget_limiter ≤ time) (run_diff_management m event).1
      (send_times next events) (λ time e. (send_allowed m event events low time t e).1)
      (All-le (λ y. y) (next_send m.retarget_limiter) (next_send next.retarget_limiter)
        (send_times next events) (limiter_moves_on m event events low t).1
        (sends_allowed next events (clock low event) (IsTimely-tail low event events t).1))

sent_at-IsSpaced :
    (gap : ℕ) (action : Action) (later : List ℕ)
    → ((time : ℕ) → action ≡ Action.sends time → All (λ x. time + gap ≤ x) later)
    → IsSpaced gap later
    → IsSpaced gap (sent_at action later)
unfolding sent_at
sent_at-IsSpaced gap (Action.sends time) later h s = (h time refl, s)
sent_at-IsSpaced gap (Action.sleeps wait) later h s = s
sent_at-IsSpaced gap Action.goes_on later h s = s
sent_at-IsSpaced gap Action.returns later h s = tt

sends-IsSpaced :
    (m : DiffManagement) (events : List Event) (low : ℕ)
    → IsTimely low events
    → IsSpaced m.retarget_limiter.min_interval (send_times m events)
unfolding send_times
sends-IsSpaced m [] low t = tt
sends-IsSpaced m (event ∷ events) low t =
    let next = (run_diff_management m event).0 in
    let tail = (IsTimely-tail low event events t).1 in
    sent_at-IsSpaced m.retarget_limiter.min_interval (run_diff_management m event).1
      (send_times next events)
      (λ time e.
        All-le (λ y. y) (time + m.retarget_limiter.min_interval) (next_send next.retarget_limiter)
          (send_times next events) (send_allowed m event events low time t e).2
          (sends_allowed next events (clock low event) tail))
      (subst (λ gap. IsSpaced gap (send_times next events))
        (limiter_moves_on m event events low t).0
        (sends-IsSpaced next events (clock low event) tail))

-- The loop's start: `new` with the configured maximum, and nothing pending.
unfoldable pub initial : DiffManagement
initial = record {
  retarget_limiter = new max_upstream_retargets_per_minute;
  pending_update = false;
}

-- Whatever timeouts, revisions and passes the loop meets, as long as the clock does not go back it
-- sends at most 100 `UpdateChannel` messages in any minute, whenever that minute begins.
pub retargets_at_most_limit :
    (start low : ℕ) (events : List Event)
    → IsTimely low events
    → count_between start (start + 60_000_000) (send_times initial events)
      ≤ max_upstream_retargets_per_minute
unfolding initial new
retargets_at_most_limit start low events t =
    count_between_spaced 600_000 (send_times initial events) 100 start (start + 60_000_000)
      (omega arith) (sends-IsSpaced initial events low t)
