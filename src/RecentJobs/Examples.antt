-- ===== src/RecentJobs/Examples.antt =====
-- src/translator/downstream/downstream.rs, `RecentJobs`: the theorems at concrete jobs.
use demand_cli.Prelude.{ℕ, zero, suc, ◌+◌, ◌≡◌, ◌%◌, refl, true, none, some, [], ◌∷◌, arith}
use demand_cli.Prelude.Map.{get, insert}
use demand_cli.Prelude.{◌++◌, if◌then◌else◌, ◌<◌}
use demand_cli.RecentJobs.Buffer.{empty}
use demand_cli.RecentJobs.Parts.{job_issued}
use demand_cli.RecentJobs.Linked.{pool_job}
use demand_cli.Sv1.{Notify, apply_mask}
use demand_cli.RecentJobs.{
  IssuedJob, RecentJobs, new, issue, add_job_with_binding, clone_last, get_matching_job,
}
use demand_cli.RecentJobs.Reach.{start, added, again, Reachable, IsValid, Reachable-IsValid}
use demand_cli.RecentJobs.Buffer.{CircularBuffer, Holds, push_back, push_bounded, push_back-Holds}
use demand_cli.RecentJobs.Draw.{add_job-total}
use demand_cli.RecentJobs.Lookup.{matching_job-add_job}
use demand_cli.Prelude.{◌<◌}
use demand_cli.RecentJobs.{back}
use demand_cli.RecentJobs.{empty}
use demand_cli.RecentJobs.{new_v1}
use demand_cli.Prelude.{get_or}
use demand_cli.RecentJobs.{draw_id}
use demand_cli.Prelude.{get_elem?}
use demand_cli.RecentJobs.{enter_v1}
use demand_cli.RecentJobs.{remove_evicted}
use demand_cli.RecentJobs.{get}
use demand_cli.RecentJobs.{insert}
use demand_cli.Prelude.{◌==◌}
use demand_cli.RecentJobs.Lookup.{still_tracked}
use demand_cli.Prelude.{contains}

-- A ring that is full, its oldest entry in the second place.
abbrev full_ring : CircularBuffer ℕ
full_ring = record { buffer = some 4 ∷ some 2 ∷ some 3 ∷ []; len = 3; start = 1 }

full_ring_entries :
    (i : ℕ) → i < 3 → get_or full_ring.buffer ((1 + i) % 3) none ≡ get_elem? (2 ∷ 3 ∷ 4 ∷ []) i
full_ring_entries zero h = refl
full_ring_entries (suc zero) h = refl
full_ring_entries (suc (suc zero)) h = refl
full_ring_entries (suc (suc (suc i))) h = absurd (omega (arith, h))

full_ring-Holds : Holds full_ring (2 ∷ 3 ∷ 4 ∷ [])
full_ring-Holds = record {
  start_in = omega arith;
  len_is = refl;
  len_in = omega arith;
  entries = full_ring_entries;
}

push_back-Holds_example :
    Holds (push_back full_ring 5).0 (push_bounded 3 (2 ∷ 3 ∷ 4 ∷ []) 5).0
    × ((push_back full_ring 5).1 ≡ (push_bounded 3 (2 ∷ 3 ∷ 4 ∷ []) 5).1)
push_back-Holds_example = push_back-Holds full_ring (2 ∷ 3 ∷ 4 ∷ []) 5 full_ring-Holds

push_back_test : (push_back full_ring 5).1 ≡ some 2
unfolding push_back
push_back_test = refl

abbrev pool_notify : ℕ → Notify
pool_notify job_id = record {
  job_id = job_id;
  prev_hash = 1 ∷ 2 ∷ [];
  coin_base1 = 3 ∷ [];
  coin_base2 = 4 ∷ [];
  merkle_branch = [];
  version = 0x2000_0000;
  bits = 0x1703_4219;
  time = 1700000000;
  clean_jobs = true;
}

-- Two jobs of the pool, and the second one again.
abbrev version_mask : ℕ
version_mask = 0x1fff_e000

abbrev after_first : RecentJobs
after_first = record {
  v1_to_v2 = (10, 7) ∷ [];
  v2_to_v1 = (7, 10 ∷ []) ∷ [];
  issued_jobs =
      (10, record { notify = pool_notify 7; difficulty = 5; merge_mining_binding_id = some 1 })
      ∷ [];
  jobs = record { notify = pool_notify 7; merge_mining_binding_id = some 1 } ∷ [];
  last_v2s = record { buffer = some 7 ∷ none ∷ none ∷ []; len = 1; start = 0 };
  tracked_jobs = 3;
}

first_added :
    add_job_with_binding new (pool_notify 7) (some version_mask) 5 (some 1) (10 ∷ [])
    ≡ some (after_first, pool_notify 10)
unfolding add_job_with_binding new empty new_v1 draw_id issue enter_v1 remove_evicted push_back
    apply_mask get insert
first_added = refl

abbrev issued_again : IssuedJob
issued_again = record { notify = pool_notify 7; difficulty = 6; merge_mining_binding_id = some 1 }

abbrev after_again : RecentJobs
after_again = record after_first {
  v1_to_v2 = (10, 7) ∷ (11, 7) ∷ [];
  v2_to_v1 = (7, 10 ∷ 11 ∷ []) ∷ [];
  issued_jobs =
      (10, record { notify = pool_notify 7; difficulty = 5; merge_mining_binding_id = some 1 })
      ∷ (11, issued_again)
      ∷ [];
}

first_again : clone_last after_first 6 (10 ∷ 11 ∷ []) ≡ some (after_again, some (pool_notify 11))
unfolding clone_last back new_v1 draw_id issue enter_v1 remove_evicted push_back get insert
first_again = refl

after_again-Reachable : Reachable after_again
after_again-Reachable =
    again 6 (10 ∷ 11 ∷ []) after_again (some (pool_notify 11))
      (added (pool_notify 7) (some version_mask) 5 (some 1) (10 ∷ []) after_first (pool_notify 10)
        start first_added)
      first_again

Reachable-IsValid_example : IsValid after_again
Reachable-IsValid_example = Reachable-IsValid after_again after_again-Reachable

abbrev after_second : RecentJobs
after_second = record after_again {
  v1_to_v2 = (10, 7) ∷ (11, 7) ∷ (12, 8) ∷ [];
  v2_to_v1 = (7, 10 ∷ 11 ∷ []) ∷ (8, 12 ∷ []) ∷ [];
  issued_jobs =
      after_again.issued_jobs
      ++ (12, record { notify = pool_notify 8; difficulty = 5; merge_mining_binding_id = some 2 })
        ∷ [];
  jobs =
      after_again.jobs ++ record { notify = pool_notify 8; merge_mining_binding_id = some 2 } ∷ [];
  last_v2s = record { buffer = some 7 ∷ some 8 ∷ none ∷ []; len = 2; start = 0 };
}

second_added :
    add_job_with_binding after_again (pool_notify 8) (some version_mask) 5 (some 2) (11 ∷ 12 ∷ [])
    ≡ some (after_second, pool_notify 12)
unfolding add_job_with_binding new_v1 draw_id issue enter_v1 remove_evicted push_back apply_mask get
    insert
second_added = refl

-- The second job: the identifiers of the first stay.
matching_job-add_job_example : get_matching_job after_second 10 ≡ (
    if 12 == 10
    then some (job_issued (pool_notify 8) (some version_mask) 5 (some 2))
    else if still_tracked after_second.v2_to_v1 (pool_job (get_matching_job after_again 10))
    then get_matching_job after_again 10
    else none)
matching_job-add_job_example =
    matching_job-add_job after_again (pool_notify 8) (some version_mask) 5 (some 2) (11 ∷ 12 ∷ [])
      after_second (pool_notify 12) 10 Reachable-IsValid_example second_added

add_job-total_example :
    (after : RecentJobs) × (sent : Notify) × (add_job_with_binding after_again
        (pool_notify 8)
        (some version_mask)
        5
        (some 2)
        (11 ∷ 10 ∷ 12 ∷ [])
      ≡ some (after, sent))
    × (contains (11 ∷ 10 ∷ 12 ∷ []) sent.job_id ≡ true)
    × (get sent.job_id after_again.v1_to_v2 ≡ none)
add_job-total_example =
    add_job-total after_again (pool_notify 8) (some version_mask) 5 (some 2) (11 ∷ 10 ∷ 12 ∷ [])
      (refl, (refl, (refl, tt))) (omega arith)
