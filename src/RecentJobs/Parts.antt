-- ===== src/RecentJobs/Parts.antt =====
-- src/translator/downstream/downstream.rs, `RecentJobs`: what a successful call does, in one equation.
use Prim.Native.Nat.{ℕ}
use demand_cli.Prelude.{
  ◌≡◌, inl, inr, refl, Option, none, some, List, [], ◌∷◌, ◌++◌, arith, Option-cases,
}
use demand_cli.Prelude.Map.{get, insert}
use demand_cli.RecentJobs.Buffer.{push_back}
use demand_cli.RecentJobs.{RecentJobs, IssuedJob, remove_v2, remove_evicted, enter_v1, issue}
use demand_cli.RecentJobs.{IssuedJob, Notify}
use demand_cli.RecentJobs.{draw_id}
use demand_cli.RecentJobs.{new_v1}
use demand_cli.RecentJobs.{add_job_with_binding}
use demand_cli.RecentJobs.{apply_mask}
use demand_cli.RecentJobs.{pop_tracked}
use demand_cli.RecentJobs.Draw.{draw_id-free}

-- What `issue` leaves as it is.
remove_evicted-rest :
    (recent : RecentJobs) (evicted : Option ℕ)
    → ((remove_evicted recent evicted).jobs ≡ recent.jobs)
      × ((remove_evicted recent evicted).tracked_jobs ≡ recent.tracked_jobs)
unfolding remove_evicted remove_v2
remove_evicted-rest recent none = (refl, refl)
remove_evicted-rest recent (some first) = elim (Option-cases (get first recent.v2_to_v1)) [
  | inl e ↦ rw (e, remove_v2) (refl, refl)
  | inr (ids, e) ↦ rw (e, remove_v2) (refl, refl)
]

pub issue-rest :
    (recent : RecentJobs) (v1_id v2_id : ℕ) (job : IssuedJob)
    → ((issue recent v1_id v2_id job).jobs ≡ recent.jobs)
      × ((issue recent v1_id v2_id job).tracked_jobs ≡ recent.tracked_jobs)
unfolding issue enter_v1
issue-rest recent v1_id v2_id job = elim (Option-cases (get v2_id recent.v2_to_v1)) [
  | inl e ↦
      rw (e, issue, enter_v1)
        (remove_evicted-rest
          (record recent {
            v2_to_v1 = insert v2_id (v1_id ∷ []) recent.v2_to_v1;
            last_v2s = (push_back recent.last_v2s v2_id).0;
          })
          (push_back recent.last_v2s v2_id).1)
  | inr (ids, e) ↦ rw (e, issue, enter_v1) (refl, refl)
]

pub new_v1-parts :
    (recent : RecentJobs) (draws : List ℕ) (job : IssuedJob) (after : RecentJobs) (v1_id : ℕ)
    → new_v1 recent draws job ≡ some (after, v1_id)
    → (get v1_id recent.v1_to_v2 ≡ none) × (after ≡ issue recent v1_id job.notify.job_id job)
unfolding new_v1
new_v1-parts recent draws job after v1_id h = elim (Option-cases (draw_id recent.v1_to_v2 draws)) [
  | inl e ↦ absurd (ground (arith, h, e))
  | inr ((id, rest), e) ↦ ground (arith, h, e, draw_id-free recent.v1_to_v2 draws id rest e)
]

-- What `add_job_with_binding` does before it draws, and what the job is issued as.
abbrev pub job_added : RecentJobs → Notify → Option ℕ → Option ℕ → RecentJobs
job_added recent notify mask binding = record recent {
  jobs =
      recent.jobs
      ++ record { notify = apply_mask mask notify; merge_mining_binding_id = binding } ∷ [];
}

abbrev pub job_issued : Notify → Option ℕ → ℕ → Option ℕ → IssuedJob
job_issued notify mask difficulty binding = record {
  notify = apply_mask mask notify;
  difficulty = difficulty;
  merge_mining_binding_id = binding;
}

pub add_job-parts :
    (recent : RecentJobs) (notify : Notify) (mask : Option ℕ) (difficulty : ℕ) (binding : Option ℕ)
    (draws : List ℕ) (after : RecentJobs) (sent : Notify)
    → add_job_with_binding recent notify mask difficulty binding draws ≡ some (after, sent)
    → (get sent.job_id recent.v1_to_v2 ≡ none)
      × (after
          ≡ pop_tracked (
              issue
                (job_added recent notify mask binding)
                sent.job_id
                (apply_mask mask notify).job_id
                (job_issued notify mask difficulty binding)))
      × (sent ≡ record (apply_mask mask notify) { job_id = sent.job_id })
unfolding add_job_with_binding
add_job-parts recent notify mask difficulty binding draws after sent h =
    elim (Option-cases (
      new_v1 (job_added recent notify mask binding) draws
        (job_issued notify mask difficulty binding))) [
          | inl e ↦ absurd (ground (arith, h, e))
          | inr ((issued, id), e) ↦
              let parts =
                new_v1-parts (job_added recent notify mask binding) draws
                  (job_issued notify mask difficulty binding) issued id e in
              ground (arith, h, e, parts.0, parts.1)
        ]
