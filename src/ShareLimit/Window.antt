-- ===== src/ShareLimit/Window.antt =====
-- src/translator/utils.rs, `reserve_share_slot`: the limit over every window of a minute.
use demand_cli.Prelude.{
  ℕ, ◌+◌, ◌-◌, ◌≤◌, ◌<◌, ◌≡◌, refl, ap, ◌⊎◌, inl, Bool, true, false, retain, ◌&&◌, List, [], ◌∷◌,
  ◌++◌, length, length-append, All, leb, ltb, if◌then◌else◌, arith,
}
use demand_cli.ShareLimit.{
  share_rate_limit_per_minute, share_rate_limit_window, prune_expired_share_timestamps,
  reserve_share_slot,
}

-- How many of the times lie in the minute that begins at `start`.
abbrev pub in_window : ℕ → ℕ → Bool
in_window start time = leb start time && ltb time (start + share_rate_limit_window)

abbrev pub count_window : ℕ → List ℕ → ℕ
count_window start [] = 0
count_window start (time ∷ times) =
    (if in_window start time then 1 else 0) + count_window start times

-- The times of the shares that are let through, from calls at the given times.
unfoldable pub admitted : List ℕ → List ℕ → List ℕ
admitted timestamps [] = []
admitted timestamps (now ∷ calls) =
    let step = reserve_share_slot timestamps now in
    let later = admitted step.0 calls in if step.1 then now ∷ later else later

-- Each time is at most the next.
abbrev pub IsOrdered : List ℕ → Type 0
IsOrdered [] = Unit {0}
IsOrdered (time ∷ times) = All (λ later. time ≤ later) times × IsOrdered times

count_window-append :
    (start : ℕ) (xs ys : List ℕ)
    → count_window start (xs ++ ys) ≡ count_window start xs + count_window start ys
count_window-append start [] ys = omega arith
count_window-append start (x ∷ xs) ys = omega (arith, count_window-append start xs ys)

count_window-le-length : (start : ℕ) (xs : List ℕ) → count_window start xs ≤ length xs
count_window-le-length start [] = omega arith
count_window-le-length start (x ∷ xs) = ground (arith, count_window-le-length start xs)

count_window_late :
    (start low : ℕ) (xs : List ℕ)
    → start + share_rate_limit_window ≤ low
    → All (λ x. low ≤ x) xs
    → count_window start xs ≡ 0
count_window_late start low [] h a = refl
count_window_late start low (x ∷ xs) h a = ground (arith, count_window_late start low xs h a.1)

-- What is pruned lies in no window that a later share can fall into.
prune_window :
    (start now : ℕ) (xs : List ℕ)
    → (count_window start xs ≡ count_window start (prune_expired_share_timestamps xs now))
      ⊎ (start + share_rate_limit_window ≤ now)
unfolding prune_expired_share_timestamps
prune_window start now [] = inl refl
prune_window start now (x ∷ xs) = ground (arith, prune_window start now xs)

pub prune-length-le :
    (xs : List ℕ) (now : ℕ) → length (prune_expired_share_timestamps xs now) ≤ length xs
unfolding prune_expired_share_timestamps
prune-length-le [] now = omega arith
prune-length-le (x ∷ xs) now = ground (arith, prune-length-le xs now)

admitted_after :
    (low : ℕ) (timestamps calls : List ℕ)
    → All (λ x. low ≤ x) calls
    → All (λ x. low ≤ x) (admitted timestamps calls)
unfolding admitted
admitted_after low timestamps [] a = tt
admitted_after low timestamps (now ∷ calls) a =
    ground (arith, a.0, admitted_after low (reserve_share_slot timestamps now).0 calls a.1)

-- The queue never outgrows the limit.
pub reserve-length :
    (xs : List ℕ) (now : ℕ)
    → length xs ≤ share_rate_limit_per_minute
    → length (reserve_share_slot xs now).0 ≤ share_rate_limit_per_minute
unfolding reserve_share_slot
reserve-length xs now h = ground (
  arith,
  prune-length-le xs now,
  length-append (prune_expired_share_timestamps xs now) (now ∷ []),
)

-- A call keeps the window's shares in the queue, the new one included.
reserve_window :
    (start now : ℕ) (xs : List ℕ)
    → let step = reserve_share_slot xs now in
      (count_window start step.0
        ≡ count_window start (prune_expired_share_timestamps xs now)
          + (if step.1 then count_window start (now ∷ []) else 0))
unfolding reserve_share_slot
reserve_window start now xs =
    ground (arith, count_window-append start (prune_expired_share_timestamps xs now) (now ∷ []))

admitted_window :
    (start : ℕ) (timestamps calls : List ℕ)
    → length timestamps ≤ share_rate_limit_per_minute
    → IsOrdered calls
    → count_window start (admitted timestamps calls) + count_window start timestamps
      ≤ share_rate_limit_per_minute
unfolding admitted
admitted_window start ts [] h o = omega (arith, count_window-le-length start ts)
admitted_window start ts (now ∷ calls) h o = ground (
  arith,
  admitted_window start (reserve_share_slot ts now).0 calls (reserve-length ts now h) o.1,
  reserve_window start now ts,
  prune_window start now ts,
  count_window-le-length start ts,
  count_window_late start now (admitted (reserve_share_slot ts now).0 calls),
  admitted_after now (reserve_share_slot ts now).0 calls o.0,
)

-- From an empty queue and calls in the order of time, at most 70 of the shares that are let
-- through fall into any minute, whenever that minute begins.
pub admitted_at_most_limit :
    (start : ℕ) (calls : List ℕ)
    → IsOrdered calls
    → count_window start (admitted [] calls) ≤ share_rate_limit_per_minute
admitted_at_most_limit start calls o = omega (arith, admitted_window start [] calls (omega arith) o)

-- Less than a minute old?
abbrev pub is_recent : ℕ → ℕ → Bool
is_recent now time = ltb (now - time) share_rate_limit_window

retain-All :
    (now low : ℕ) (xs : List ℕ)
    → now - low < share_rate_limit_window
    → All (λ x. low ≤ x) xs
    → retain (is_recent now) xs ≡ xs
retain-All now low [] h a = refl
retain-All now low (x ∷ xs) h a = ground (arith, h, a, retain-All now low xs h a.1)

prune-retain :
    (now : ℕ) (xs : List ℕ)
    → IsOrdered xs
    → prune_expired_share_timestamps xs now ≡ retain (is_recent now) xs
unfolding prune_expired_share_timestamps
prune-retain now [] o = refl
prune-retain now (x ∷ xs) o = ground (arith, o, prune-retain now xs o.1, retain-All now x xs)

append-nil : (xs : List ℕ) → xs ++ [] ≡ xs
append-nil [] = refl
append-nil (x ∷ xs) = ap (◌∷◌ x) (append-nil xs)

reserve-kept :
    (now : ℕ) (kept : List ℕ)
    → let r : List ℕ × Bool =
        if leb share_rate_limit_per_minute (length kept)
        then (kept, false)
        else (kept ++ now ∷ [], true) in
      (r.1 ≡ ltb (length kept) share_rate_limit_per_minute)
      × (r.0 ≡ kept ++ (if r.1 then now ∷ [] else []))
reserve-kept now kept = ground (arith, append-nil kept)

-- With an ordered queue a slot is given exactly when fewer than 70 of its times are less than a
-- minute old. A refused call leaves those times, a granted one adds its own behind them.
pub reserve_exactly_when :
    (now : ℕ) (timestamps : List ℕ)
    → IsOrdered timestamps
    → ((reserve_share_slot timestamps now).1
        ≡ ltb (length (retain (is_recent now) timestamps)) share_rate_limit_per_minute)
      × ((reserve_share_slot timestamps now).0
          ≡ retain (is_recent now) timestamps
            ++ (if (reserve_share_slot timestamps now).1 then now ∷ [] else []))
unfolding reserve_share_slot
reserve_exactly_when now ts o =
    rw (prune-retain now ts o) (reserve-kept now (retain (is_recent now) ts))
