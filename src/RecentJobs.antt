-- ===== src/RecentJobs.antt =====
-- src/translator/downstream/downstream.rs: the jobs that a miner may submit shares for. Each `notify`
-- to a miner gets an own random identifier (v1) for the job of the pool (v2), and the identifiers
-- of the three pool jobs issued last are valid.
pub mod Buffer
pub mod Linked
pub mod Tracked
pub mod Draw
pub mod Parts
pub mod Reach
pub mod Lookup
mod Examples
use demand_cli.Prelude.{
  ℕ, zero, suc, ◌+◌, ◌-◌, Bool, true, false, Option, none, some, List, [], ◌∷◌, ◌++◌, length,
  pop_front, ltb, leb, if◌then◌else◌,
}
use demand_cli.Prelude.Map.{HashMap, get, insert, remove, contains_key}
use demand_cli.Sv1.{Notify, apply_mask}
use demand_cli.RecentJobs.Buffer.{CircularBuffer, push_back, empty}

abbrev pub tracked_recent_jobs : ℕ
tracked_recent_jobs = 3

-- The difficulty is a float, which is only copied.
pub record IssuedJob : Type 0 where
  pub notify : Notify
  pub difficulty : ℕ
  pub merge_mining_binding_id : Option ℕ

pub record RawJob : Type 0 where
  pub notify : Notify
  pub merge_mining_binding_id : Option ℕ

pub record RecentJobs : Type 0 where
  pub v1_to_v2 : HashMap ℕ
  pub v2_to_v1 : HashMap (List ℕ)
  pub issued_jobs : HashMap IssuedJob
  pub jobs : List RawJob
  pub last_v2s : CircularBuffer ℕ
  pub tracked_jobs : ℕ

unfoldable pub new : RecentJobs
unfolding empty
new = record {
  v1_to_v2 = [];
  v2_to_v1 = [];
  issued_jobs = [];
  jobs = [];
  last_v2s = empty tracked_recent_jobs;
  tracked_jobs = tracked_recent_jobs;
}

-- `while v1_to_v2.contains_key(&v1_id)`: the first draw that is not taken, and the draws behind it.
unfoldable pub draw_id : HashMap ℕ → List ℕ → Option (ℕ × List ℕ)
draw_id taken [] = none
draw_id taken (id ∷ draws) =
    let later = draw_id taken draws in if contains_key id taken then later else some (id, draws)

-- The loop of `remove_v2`.
unfoldable pub remove_keys {ℓ} : {V : Type ℓ} → List ℕ → HashMap V → HashMap V
remove_keys [] m = m
remove_keys (k ∷ ks) m = remove_keys ks (remove k m)

unfoldable pub remove_v2 : RecentJobs → ℕ → RecentJobs
remove_v2 recent v2_id = elim (get v2_id recent.v2_to_v1) [
  | none ↦ recent
  | some v1_ids ↦ record recent {
    v2_to_v1 = remove v2_id recent.v2_to_v1;
    v1_to_v2 = remove_keys v1_ids recent.v1_to_v2;
    issued_jobs = remove_keys v1_ids recent.issued_jobs;
  }
]

unfoldable pub remove_evicted : RecentJobs → Option ℕ → RecentJobs
remove_evicted recent none = recent
remove_evicted recent (some first) = remove_v2 recent first

-- The `match` of `new_v1` on the entry of the pool's job.
unfoldable pub enter_v1 : RecentJobs → ℕ → ℕ → RecentJobs
enter_v1 recent v2_id v1_id = elim (get v2_id recent.v2_to_v1) [
  | some v1_ids ↦ record recent { v2_to_v1 = insert v2_id (v1_ids ++ v1_id ∷ []) recent.v2_to_v1 }
  | none ↦
      let pushed = push_back recent.last_v2s v2_id in
      remove_evicted
        (record recent {
          v2_to_v1 = insert v2_id (v1_id ∷ []) recent.v2_to_v1;
          last_v2s = pushed.0;
        })
        pushed.1
]

-- The rest of `new_v1`, with the identifier drawn.
unfoldable pub issue : RecentJobs → ℕ → ℕ → IssuedJob → RecentJobs
issue recent v1_id v2_id job =
    let entered = enter_v1 recent v2_id v1_id in
    record entered {
      v1_to_v2 = insert v1_id v2_id entered.v1_to_v2;
      issued_jobs = insert v1_id job entered.issued_jobs;
    }

-- `new_v1`, with the random draws: none while all of them are taken.
unfoldable pub new_v1 : RecentJobs → List ℕ → IssuedJob → Option (RecentJobs × ℕ)
new_v1 recent draws job = elim (draw_id recent.v1_to_v2 draws) [
  | none ↦ none
  | some (v1_id, rest) ↦ some (issue recent v1_id job.notify.job_id job, v1_id)
]

abbrev pub pop_tracked : RecentJobs → RecentJobs
pop_tracked recent =
    if ltb recent.tracked_jobs (length recent.jobs)
    then record recent { jobs = pop_front recent.jobs }
    else recent

-- `add_job_with_binding`: the notify goes out with the new identifier.
unfoldable pub add_job_with_binding :
    RecentJobs → Notify → Option ℕ → ℕ → Option ℕ → List ℕ → Option (RecentJobs × Notify)
add_job_with_binding recent notify mask difficulty binding draws =
    let masked = apply_mask mask notify in
    let pushed : RecentJobs = record recent {
      jobs = recent.jobs ++ record { notify = masked; merge_mining_binding_id = binding } ∷ [];
    } in
    elim (new_v1 pushed draws
      (record { notify = masked; difficulty = difficulty; merge_mining_binding_id = binding })) [
        | none ↦ none
        | some (issued, new_id) ↦ some (pop_tracked issued, record masked { job_id = new_id })
      ]

-- `jobs.back()`.
unfoldable pub back {ℓ} : {A : Type ℓ} → List A → Option A
back [] = none
back (x ∷ []) = some x
back (x ∷ y ∷ rest) = back (y ∷ rest)

-- `clone_last`: the last job again, under a new identifier; the inner none is its `None`.
unfoldable pub clone_last : RecentJobs → ℕ → List ℕ → Option (RecentJobs × Option Notify)
clone_last recent difficulty draws = elim (back recent.jobs) [
  | none ↦ some (recent, none)
  | some job ↦
      elim (new_v1 recent draws (record {
        notify = job.notify;
        difficulty = difficulty;
        merge_mining_binding_id = job.merge_mining_binding_id;
      })) [
        | none ↦ none
        | some (issued, new_id) ↦ some (issued, some (record job.notify { job_id = new_id }))
      ]
]

unfoldable pub get_matching_job : RecentJobs → ℕ → Option IssuedJob
get_matching_job recent v1_id = get v1_id recent.issued_jobs
