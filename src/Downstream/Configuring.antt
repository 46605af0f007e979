-- ===== src/Downstream/Configuring.antt =====
-- src/translator/downstream/downstream.rs, `handle_configure`: the first job of a connection.
use demand_cli.RecentJobs.Lookup.{matching_job-add_job}
use demand_cli.RecentJobs.Reach.{add_job-IsValid}
use demand_cli.Prelude.{==_refl}
use demand_cli.RecentJobs.{add_job_with_binding}
use demand_cli.Sv1.{sv1_rolling, apply_mask}
use demand_cli.Downstream.{Downstream}
use demand_cli.RecentJobs.{get_matching_job}
use demand_cli.Prelude.{ℕ, ◌≡◌, inl, inr, ap, some, List, arith, Option-cases}
use demand_cli.Downstream.{Configure, handle_configure, current_difficulty}
use demand_cli.RecentJobs.Reach.{Reachable, Reachable-IsValid}
use demand_cli.RecentJobs.Linked.{pool_job}

configured :
    (downstream after : Downstream) (request : Configure) (draws : List ℕ) (answer : ℕ × ℕ)
    → handle_configure downstream request draws ≡ some (after, answer)
    → add_job_with_binding downstream.recent_jobs downstream.first_job
        (some (sv1_rolling request.version_rolling_mask request.version_rolling_min_bit_count).0)
        (current_difficulty downstream)
        downstream.first_job_merge_mining_binding_id
        draws
      ≡ some (after.recent_jobs, after.first_job)
unfolding handle_configure
configured downstream after request draws answer h =
    elim (Option-cases (
      add_job_with_binding downstream.recent_jobs downstream.first_job
        (some (sv1_rolling request.version_rolling_mask request.version_rolling_min_bit_count).0)
        (current_difficulty downstream) downstream.first_job_merge_mining_binding_id draws)) [
          | inl e ↦ absurd (ground (arith, h, e))
          | inr ((recent_jobs, first_job), e) ↦ ground (arith, h, e)
        ]

-- After a second `mining.configure` of a connection with jobs it can have come to, the
-- identifier of the first job stands for a pool job that is named by the identifier issued by
-- the first `mining.configure`, not by the pool's.
pub second_configure :
    (downstream after again : Downstream) (request request' : Configure) (draws draws' : List ℕ)
    (answer answer' : ℕ × ℕ)
    → Reachable downstream.recent_jobs
    → handle_configure downstream request draws ≡ some (after, answer)
    → handle_configure after request' draws' ≡ some (again, answer')
    → pool_job (get_matching_job again.recent_jobs again.first_job.job_id)
      ≡ some after.first_job.job_id
unfolding apply_mask
second_configure downstream after again request request' draws draws' answer answer' reach h h' =
    let added = configured downstream after request draws answer h in
    let valid =
      add_job-IsValid _ _ _ _ _ _ _ _ (Reachable-IsValid downstream.recent_jobs reach) added in
    let found =
      matching_job-add_job _ _ _ _ _ _ _ _ again.first_job.job_id valid
        (configured after again request' draws' answer' h') in
    ap pool_job (rw (==_refl again.first_job.job_id) at found)
