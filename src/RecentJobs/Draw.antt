-- ===== src/RecentJobs/Draw.antt =====
-- src/translator/downstream/downstream.rs, `RecentJobs::new_v1`: the loop that draws an identifier
-- ends.
use Prim.Native.Nat.{ℕ, ◌≤◌, ◌<◌}
use demand_cli.Prelude.{
  ◌≡◌, inl, inr, refl, true, false, Option, none, some, List, [], ◌∷◌, length, contains, arith,
  Option-cases,
}
use demand_cli.Prelude.Map.{HashMap, get, remove, get-remove}
use demand_cli.RecentJobs.{RecentJobs}
use demand_cli.RecentJobs.{Notify}
use demand_cli.RecentJobs.Tracked.{IsDistinct}
use demand_cli.Prelude.Map.{contains_key}
use demand_cli.RecentJobs.{draw_id}
use demand_cli.RecentJobs.{new_v1}
use demand_cli.RecentJobs.{add_job_with_binding}

-- The identifier drawn is free.
pub draw_id-free :
    (taken : HashMap ℕ) (draws : List ℕ) (id : ℕ) (rest : List ℕ)
    → draw_id taken draws ≡ some (id, rest)
    → get id taken ≡ none
unfolding draw_id
draw_id-free taken [] id rest h = cc
draw_id-free taken (d ∷ ds) id rest h = ground (arith, h, draw_id-free taken ds id rest)

-- Distinct draws, more than there are entries: one of them is free.
draw_id-remove :
    (taken : HashMap ℕ) (draws : List ℕ) (k : ℕ)
    → contains draws k ≡ false
    → draw_id taken draws ≡ none
    → draw_id (remove k taken) draws ≡ none
unfolding draw_id
draw_id-remove taken [] k e h = refl
draw_id-remove taken (d ∷ ds) k e h =
    ground (arith, e, h, draw_id-remove taken ds k, get-remove k d taken)

length-remove : {V : Type 0} (k : ℕ) (m : HashMap V) → length (remove k m) ≤ length m
unfolding remove
length-remove k [] = omega arith
length-remove k ((j, v) ∷ m) = ground (arith, length-remove k m)

length-remove_key :
    {V : Type 0} (k : ℕ) (m : HashMap V) → contains_key k m ≡ true → length (remove k m) < length m
unfolding get remove
length-remove_key k [] h = cc
length-remove_key k ((j, v) ∷ m) h = ground (arith, h, length-remove k m, length-remove_key k m)

draw_id-none :
    (draws : List ℕ) (taken : HashMap ℕ)
    → IsDistinct draws
    → draw_id taken draws ≡ none
    → length draws ≤ length taken
unfolding draw_id
draw_id-none [] taken d h = omega arith
draw_id-none (x ∷ xs) taken d h = ground (
  arith,
  h,
  d,
  draw_id-none xs (remove x taken) d.1,
  draw_id-remove taken xs x d.0,
  length-remove_key x taken,
)

pub draw_id-total :
    (taken : HashMap ℕ) (draws : List ℕ)
    → IsDistinct draws
    → length taken < length draws
    → (id : ℕ) × (rest : List ℕ) × (draw_id taken draws ≡ some (id, rest))
draw_id-total taken draws d h = elim (Option-cases (draw_id taken draws)) [
  | inl e ↦ absurd (omega (arith, h, draw_id-none draws taken d e))
  | inr ((id, rest), e) ↦ (id, rest, e)
]

draw_id-contains :
    (taken : HashMap ℕ) (draws : List ℕ) (id : ℕ) (rest : List ℕ)
    → draw_id taken draws ≡ some (id, rest)
    → contains draws id ≡ true
unfolding draw_id
draw_id-contains taken [] id rest h = cc
draw_id-contains taken (d ∷ ds) id rest h = ground (arith, h, draw_id-contains taken ds id rest)

-- If the random draws are distinct and more than the identifiers in use, the loop ends and
-- `add_job_with_binding` returns, and the identifier that it sends is one of the draws and was
-- not in use.
pub add_job-total :
    (recent : RecentJobs) (notify : Notify) (mask : Option ℕ) (difficulty : ℕ) (binding : Option ℕ)
    (draws : List ℕ)
    → IsDistinct draws
    → length recent.v1_to_v2 < length draws
    → (after : RecentJobs) × (sent : Notify) × (add_job_with_binding recent notify mask difficulty
          binding draws
        ≡ some (after, sent))
      × (contains draws sent.job_id ≡ true)
      × (get sent.job_id recent.v1_to_v2 ≡ none)
unfolding add_job_with_binding new_v1
add_job-total recent notify mask difficulty binding draws d l =
    let (id, rest, e) = draw_id-total recent.v1_to_v2 draws d l in
    rw (add_job_with_binding, new_v1, e)
      (
        _,
        _,
        refl,
        draw_id-contains recent.v1_to_v2 draws id rest e,
        draw_id-free recent.v1_to_v2 draws id rest e,
      )
