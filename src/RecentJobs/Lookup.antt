-- ===== src/RecentJobs/Lookup.antt =====
-- src/translator/downstream/downstream.rs, `RecentJobs`: which jobs shares are matched with.
use Prim.Native.Nat.{ℕ}
use demand_cli.Prelude.{
  ◌==◌, ◌≡◌, inl, inr, refl, ◌∙◌, Bool, false, Option, none, some, List, [], ◌∷◌, ◌++◌, length, ltb,
  if◌then◌else◌, arith, Bool-cases, Option-cases,
}
use demand_cli.Prelude.Map.{HashMap, get, insert, get-insert, get-remove}
use demand_cli.RecentJobs.Buffer.{push_back}
use demand_cli.RecentJobs.{RecentJobs, IssuedJob, remove_v2, remove_evicted, enter_v1, issue}
use demand_cli.RecentJobs.{IssuedJob, Notify}
use demand_cli.RecentJobs.Linked.{IsLinked, pool_job, is_for, has_id}
use demand_cli.Prelude.Map.{contains_key}
use demand_cli.RecentJobs.{add_job_with_binding}
use demand_cli.RecentJobs.{pop_tracked}
use demand_cli.RecentJobs.Parts.{add_job-parts, job_added, job_issued}
use demand_cli.RecentJobs.Linked.{get-remove_keys}
use demand_cli.RecentJobs.Linked.{contains-append}
use demand_cli.RecentJobs.{get_matching_job}
use demand_cli.RecentJobs.Reach.{IsValid}
use demand_cli.RecentJobs.Reach.{IsConsistent-jobs}

-- Is the pool job listed?
abbrev pub still_tracked : HashMap (List ℕ) → Option ℕ → Bool
still_tracked v2_to_v1 none = false
still_tracked v2_to_v1 (some v2_id) = contains_key v2_id v2_to_v1

-- Eviction drops the jobs of the evicted pool job and no other, of the identifiers listed right.
matching_job-remove_v2 :
    (recent : RecentJobs) (first x : ℕ)
    → ((w : ℕ) → has_id (get w recent.v2_to_v1) x ≡ is_for (pool_job (get x recent.issued_jobs)) w)
    → get x (remove_v2 recent first).issued_jobs ≡ (
        if still_tracked (remove_v2 recent first).v2_to_v1 (pool_job (get x recent.issued_jobs))
        then get x recent.issued_jobs
        else none)
unfolding remove_v2
matching_job-remove_v2 recent first x listed = elim (Option-cases (get x recent.issued_jobs)) [
  | inl none_issued ↦ elim (Option-cases (get first recent.v2_to_v1)) [
    | inl e ↦ rw (e, remove_v2) (ground (arith, none_issued))
    | inr (ids, e) ↦
        rw (e, remove_v2) (ground (arith, none_issued, get-remove_keys ids x recent.issued_jobs))
  ]
  | inr (job, found) ↦ elim (Option-cases (get first recent.v2_to_v1)) [
    | inl e ↦ rw (e, remove_v2) (ground (arith, found, listed job.notify.job_id))
    | inr (ids, e) ↦
        rw (e, remove_v2)
          (ground (
            arith,
            e,
            found,
            listed job.notify.job_id,
            listed first,
            get-remove_keys ids x recent.issued_jobs,
            get-remove first job.notify.job_id recent.v2_to_v1,
          ))
  ]
]

matching_job-remove_evicted :
    (recent : RecentJobs) (evicted : Option ℕ) (x : ℕ)
    → ((w : ℕ) → has_id (get w recent.v2_to_v1) x ≡ is_for (pool_job (get x recent.issued_jobs)) w)
    → get x (remove_evicted recent evicted).issued_jobs ≡ (
        if still_tracked
          (remove_evicted recent evicted).v2_to_v1
          (pool_job (get x recent.issued_jobs))
        then get x recent.issued_jobs
        else none)
unfolding remove_evicted
matching_job-remove_evicted recent (some first) x listed =
    matching_job-remove_v2 recent first x listed
matching_job-remove_evicted recent none x listed = elim (Option-cases (get x recent.issued_jobs)) [
  | inl none_issued ↦ ground (arith, none_issued)
  | inr (job, found) ↦ ground (arith, found, listed job.notify.job_id)
]

matching_job-issue :
    (recent : RecentJobs) (v1_id v2_id x : ℕ) (job : IssuedJob)
    → IsLinked recent
    → get v1_id recent.v1_to_v2 ≡ none
    → get x (issue recent v1_id v2_id job).issued_jobs ≡ (
        if v1_id == x
        then some job
        else if still_tracked
            (issue recent v1_id v2_id job).v2_to_v1
            (pool_job (get x recent.issued_jobs))
        then get x recent.issued_jobs
        else none)
unfolding issue enter_v1 remove_evicted
matching_job-issue recent v1_id v2_id x job h free = elim (Bool-cases (v1_id == x)) [
  | inl same ↦
      rw same
        (ground (arith, same, get-insert v1_id x job (enter_v1 recent v2_id v1_id).issued_jobs))
  | inr apart ↦ rw apart (
      get-insert v1_id x job (enter_v1 recent v2_id v1_id).issued_jobs
      ∙ rw apart (elim (Option-cases (get v2_id recent.v2_to_v1)) [
        | inl e ↦
            rw (e, enter_v1, issue)
              (matching_job-remove_evicted
                (record recent {
                  v2_to_v1 = insert v2_id (v1_id ∷ []) recent.v2_to_v1;
                  last_v2s = (push_back recent.last_v2s v2_id).0;
                })
                (push_back recent.last_v2s v2_id).1 x
                (λ w. ground (
                  arith,
                  apart,
                  e,
                  get-insert v2_id w (v1_id ∷ []) recent.v2_to_v1,
                  h.listed_for x w,
                  h.listed_for x v2_id,
                  h.issued_for x,
                )))
        | inr (ids, e) ↦
            rw (e, enter_v1, issue)
              (matching_job-remove_evicted
                (record recent { v2_to_v1 = insert v2_id (ids ++ v1_id ∷ []) recent.v2_to_v1 }) none
                x
                (λ w. ground (
                  arith,
                  apart,
                  e,
                  contains-append ids v1_id x,
                  get-insert v2_id w (ids ++ v1_id ∷ []) recent.v2_to_v1,
                  h.listed_for x w,
                  h.listed_for x v2_id,
                  h.issued_for x,
                )))
      ]))
]

pop_tracked-maps :
    (recent : RecentJobs)
    → ((pop_tracked recent).issued_jobs ≡ recent.issued_jobs)
      × ((pop_tracked recent).v2_to_v1 ≡ recent.v2_to_v1)
pop_tracked-maps recent = elim (Bool-cases (ltb recent.tracked_jobs (length recent.jobs))) [
  | inl e ↦ rw e (refl, refl)
  | inr e ↦ rw e (refl, refl)
]

-- After a job is added to valid jobs, its new identifier finds it as it was added; another
-- identifier finds what it found before if the pool job of that is still tracked, and nothing
-- otherwise.
pub matching_job-add_job :
    (recent : RecentJobs) (notify : Notify) (mask : Option ℕ) (difficulty : ℕ) (binding : Option ℕ)
    (draws : List ℕ) (after : RecentJobs) (sent : Notify) (id : ℕ)
    → IsValid recent
    → add_job_with_binding recent notify mask difficulty binding draws ≡ some (after, sent)
    → get_matching_job after id ≡ (
        if sent.job_id == id
        then some (job_issued notify mask difficulty binding)
        else if still_tracked after.v2_to_v1 (pool_job (get_matching_job recent id))
        then get_matching_job recent id
        else none)
unfolding get_matching_job
matching_job-add_job recent notify mask difficulty binding draws after sent id v h =
    let parts = add_job-parts recent notify mask difficulty binding draws after sent h in
    let before = job_added recent notify mask binding in
    let job = job_issued notify mask difficulty binding in
    let found =
      matching_job-issue before sent.job_id job.notify.job_id id job
        (IsConsistent-jobs recent before.jobs v.consistent).linked parts.0 in
    let maps = pop_tracked-maps (issue before sent.job_id job.notify.job_id job) in
    rw (parts.1, maps.0, maps.1) found
