-- ===== src/RecentJobs/Reach.antt =====
-- src/translator/downstream/downstream.rs, `RecentJobs`: what holds after every sequence of jobs
-- that a connection issues.
use Prim.Native.Nat.{ℕ, suc, ◌≤◌}
use demand_cli.Prelude.{
  subst, ◌≡◌, inl, inr, refl, ap, ◌∙◌, Option, some, List, [], ◌∷◌, length, pop_front, ltb, arith,
  Bool-cases, Option-cases,
}
use demand_cli.Prelude.Map.{get}
use demand_cli.RecentJobs.Buffer.{empty}
use demand_cli.RecentJobs.{RecentJobs, IssuedJob, issue, new, tracked_recent_jobs}
use demand_cli.RecentJobs.{IssuedJob, RawJob, Notify}
use demand_cli.RecentJobs.Tracked.{IsConsistent, issue-IsConsistent}
use demand_cli.RecentJobs.{new_v1}
use demand_cli.RecentJobs.{add_job_with_binding}
use demand_cli.RecentJobs.{clone_last}
use demand_cli.Prelude.{length-append}
use demand_cli.RecentJobs.{apply_mask}
use demand_cli.RecentJobs.{back}
use demand_cli.RecentJobs.{pop_tracked}
use demand_cli.RecentJobs.Buffer.{length-pop_front}
use demand_cli.RecentJobs.Parts.{issue-rest, new_v1-parts, add_job-parts, job_added, job_issued}

-- The maps do not mention the list of jobs.
pub IsConsistent-jobs :
    (recent : RecentJobs) (jobs : List RawJob)
    → IsConsistent recent
    → IsConsistent (record recent { jobs = jobs })
IsConsistent-jobs recent jobs h = record {
  linked = record { issued_for = h.linked.issued_for; listed_for = h.linked.listed_for };
  queue = h.queue;
  tracked = record {
    holds = h.tracked.holds;
    room = h.tracked.room;
    distinct = h.tracked.distinct;
    queued = h.tracked.queued;
  };
}

-- The maps agree, the pool jobs tracked are distinct and three at most, and so are the jobs kept.
pub record IsValid (recent : RecentJobs) : Type 0 where
  pub consistent : IsConsistent recent
  pub tracks : recent.tracked_jobs ≡ tracked_recent_jobs
  pub few : length recent.jobs ≤ tracked_recent_jobs

new-IsValid : IsValid new
unfolding new empty get
new-IsValid = record {
  consistent = record {
    linked = record { issued_for = λ x. refl; listed_for = λ x w. refl };
    queue = [];
    tracked = record {
      holds = record {
        start_in = omega arith;
        len_is = refl;
        len_in = omega arith;
        entries = λ i below. absurd (omega (arith, below));
      };
      room = refl;
      distinct = tt;
      queued = λ w. refl;
    };
  };
  tracks = refl;
  few = omega arith;
}

pop_tracked-IsValid :
    (recent : RecentJobs)
    → IsConsistent recent
    → recent.tracked_jobs ≡ tracked_recent_jobs
    → length recent.jobs ≤ suc tracked_recent_jobs
    → IsValid (pop_tracked recent)
pop_tracked-IsValid recent c t l =
    elim (Bool-cases (ltb recent.tracked_jobs (length recent.jobs))) [
      | inl e ↦ rw e (record {
        consistent = IsConsistent-jobs recent (pop_front recent.jobs) c;
        tracks = t;
        few = omega (arith, l, length-pop_front recent.jobs);
      })
      | inr e ↦ rw e (record { consistent = c; tracks = t; few = ground (arith, t, e) })
    ]

-- What a connection can come to hold: the jobs of its start, after any of its operations.
pub data Reachable : RecentJobs → Type 0 where
  start : Reachable new
  added :
      {recent : RecentJobs} (notify : Notify) (mask : Option ℕ) (difficulty : ℕ)
      (binding : Option ℕ) (draws : List ℕ) (after : RecentJobs) (sent : Notify)
      → Reachable recent
      → add_job_with_binding recent notify mask difficulty binding draws ≡ some (after, sent)
      → Reachable after
  again :
      {recent : RecentJobs} (difficulty : ℕ) (draws : List ℕ) (after : RecentJobs)
      (sent : Option Notify)
      → Reachable recent
      → clone_last recent difficulty draws ≡ some (after, sent)
      → Reachable after

pub add_job-IsValid :
    (recent : RecentJobs) (notify : Notify) (mask : Option ℕ) (difficulty : ℕ) (binding : Option ℕ)
    (draws : List ℕ) (after : RecentJobs) (sent : Notify)
    → IsValid recent
    → add_job_with_binding recent notify mask difficulty binding draws ≡ some (after, sent)
    → IsValid after
add_job-IsValid recent notify mask difficulty binding draws after sent v h =
    let parts = add_job-parts recent notify mask difficulty binding draws after sent h in
    let before = job_added recent notify mask binding in
    let job = job_issued notify mask difficulty binding in
    let rest = issue-rest before sent.job_id job.notify.job_id job in
    rw parts.1 (
      pop_tracked-IsValid (issue before sent.job_id job.notify.job_id job)
        (issue-IsConsistent before sent.job_id job.notify.job_id job refl parts.0
          (IsConsistent-jobs recent before.jobs v.consistent))
        (rest.1 ∙ v.tracks)
        (omega (
          arith,
          ap length rest.0,
          v.few,
          length-append recent.jobs
              (record { notify = apply_mask mask notify; merge_mining_binding_id = binding } ∷ []),
        )))

clone_last-IsValid :
    (recent : RecentJobs) (difficulty : ℕ) (draws : List ℕ) (after : RecentJobs)
    (sent : Option Notify)
    → IsValid recent
    → clone_last recent difficulty draws ≡ some (after, sent)
    → IsValid after
unfolding clone_last
clone_last-IsValid recent difficulty draws after sent v h = elim (Option-cases (back recent.jobs)) [
  | inl e ↦ let same : (recent ≡ after) = ground (arith, h, e) in subst IsValid same v
  | inr (job, e) ↦
      let copy : IssuedJob = record {
        notify = job.notify;
        difficulty = difficulty;
        merge_mining_binding_id = job.merge_mining_binding_id;
      } in
      elim (Option-cases (new_v1 recent draws copy)) [
        | inl none_free ↦ absurd (ground (arith, h, e, none_free))
        | inr ((issued, id), drawn) ↦
            let parts = new_v1-parts recent draws copy issued id drawn in
            let rest = issue-rest recent id copy.notify.job_id copy in
            let same : (issue recent id copy.notify.job_id copy ≡ after) =
              ground (arith, h, e, drawn, parts.1) in
            subst IsValid same (record {
              consistent =
                  issue-IsConsistent recent id copy.notify.job_id copy refl parts.0 v.consistent;
              tracks = rest.1 ∙ v.tracks;
              few = omega (arith, ap length rest.0, v.few);
            })
      ]
]

-- Whatever jobs a connection issues, anew or again, its jobs are valid: each identifier issued
-- is of the pool job that lists it and that its job names, the pool jobs with a list are
-- distinct, those in the ring, and at most three, and at most three jobs are kept.
pub Reachable-IsValid : (recent : RecentJobs) → Reachable recent → IsValid recent
Reachable-IsValid recent start = new-IsValid
Reachable-IsValid recent (added notify mask difficulty binding draws after sent r h) =
    add_job-IsValid _ notify mask difficulty binding draws recent sent (Reachable-IsValid _ r) h
Reachable-IsValid recent (again difficulty draws after sent r h) =
    clone_last-IsValid _ difficulty draws recent sent (Reachable-IsValid _ r) h
