-- ===== src/RecentJobs/Linked.antt =====
-- src/translator/downstream/downstream.rs, `RecentJobs`: its three maps agree with one another and
-- with the pool jobs tracked, through every job issued.
use Prim.Native.Nat.{ℕ}
use demand_cli.Prelude.{
  ◌==◌, ◌≡◌, ◌≢◌, inl, inr, refl, Bool, false, ◌||◌, Option, none, some, List, [], ◌∷◌, ◌++◌,
  if◌then◌else◌, contains, arith, Option-cases,
}
use demand_cli.Prelude.Map.{HashMap, get, insert, remove, get-insert, get-remove}
use demand_cli.RecentJobs.Buffer.{CircularBuffer}
use demand_cli.RecentJobs.{RecentJobs, IssuedJob, remove_keys, remove_v2}

-- The pool job that an issued job stands for.
abbrev pub pool_job : Option IssuedJob → Option ℕ
pool_job none = none
pool_job (some job) = some job.notify.job_id

abbrev pub has_id : Option (List ℕ) → ℕ → Bool
has_id none v1_id = false
has_id (some v1_ids) v1_id = contains v1_ids v1_id

abbrev pub is_for : Option ℕ → ℕ → Bool
is_for none v2_id = false
is_for (some id) v2_id = id == v2_id

-- A miner's identifier is of one pool job, in all three maps.
pub record IsLinked (recent : RecentJobs) : Type 0 where
  pub issued_for : (v1_id : ℕ) → pool_job (get v1_id recent.issued_jobs) ≡ get v1_id recent.v1_to_v2
  pub listed_for :
      (v1_id v2_id : ℕ)
      → has_id (get v2_id recent.v2_to_v1) v1_id ≡ is_for (get v1_id recent.v1_to_v2) v2_id

pub contains-append :
    (xs : List ℕ) (y x : ℕ) → contains (xs ++ y ∷ []) x ≡ (contains xs x || (y == x))
contains-append [] y x = ground arith
contains-append (z ∷ xs) y x = ground (arith, contains-append xs y x)

pub get-remove_keys :
    {V : Type 0} (ks : List ℕ) (x : ℕ) (m : HashMap V)
    → get x (remove_keys ks m) ≡ (if contains ks x then none else get x m)
unfolding remove_keys
get-remove_keys [] x m = refl
get-remove_keys (k ∷ ks) x m = ground (arith, get-remove_keys ks x (remove k m), get-remove k x m)

-- The two insertions at the end of `new_v1`.
abbrev pub entered : RecentJobs → ℕ → ℕ → IssuedJob → RecentJobs
entered recent v1_id v2_id job = record recent {
  v1_to_v2 = insert v1_id v2_id recent.v1_to_v2;
  issued_jobs = insert v1_id job recent.issued_jobs;
}

pub remove_v2-IsLinked :
    (recent : RecentJobs) (v1_id v2_id : ℕ) (job : IssuedJob) (first : ℕ)
    → first ≢ v2_id
    → get v1_id recent.v1_to_v2 ≡ none
    → IsLinked (entered recent v1_id v2_id job)
    → IsLinked (entered (remove_v2 recent first) v1_id v2_id job)
unfolding remove_v2
remove_v2-IsLinked recent v1_id v2_id job first apart free h =
    elim (Option-cases (get first recent.v2_to_v1)) [
      | inl e ↦ rw (e, remove_v2) h
      | inr (ids, e) ↦
          rw (e, remove_v2)
            (record {
              issued_for = λ x. ground (
                arith,
                get-insert v1_id x v2_id (remove_keys ids recent.v1_to_v2),
                get-insert v1_id x v2_id recent.v1_to_v2,
                get-insert v1_id x job (remove_keys ids recent.issued_jobs),
                get-insert v1_id x job recent.issued_jobs,
                get-remove_keys ids x recent.issued_jobs,
                get-remove_keys ids x recent.v1_to_v2,
                h.issued_for x,
              );
              listed_for = λ x w. ground (
                arith,
                e,
                get-insert v1_id x v2_id (remove_keys ids recent.v1_to_v2),
                get-insert v1_id x v2_id recent.v1_to_v2,
                get-remove_keys ids x recent.v1_to_v2,
                get-remove first w recent.v2_to_v1,
                h.listed_for x w,
                h.listed_for x first,
              );
            })
    ]

-- A new identifier joins the list of its pool job, or starts one.
pub enter_old-IsLinked :
    (recent : RecentJobs) (v1_id v2_id : ℕ) (job : IssuedJob) (ids : List ℕ)
    → job.notify.job_id ≡ v2_id
    → get v1_id recent.v1_to_v2 ≡ none
    → get v2_id recent.v2_to_v1 ≡ some ids
    → IsLinked recent
    → IsLinked (
        entered
          (record recent { v2_to_v1 = insert v2_id (ids ++ v1_id ∷ []) recent.v2_to_v1 })
          v1_id
          v2_id
          job)
enter_old-IsLinked recent v1_id v2_id job ids of_job free e h = record {
  issued_for = λ x. ground (
    arith,
    get-insert v1_id x v2_id recent.v1_to_v2,
    get-insert v1_id x job recent.issued_jobs,
    h.issued_for x,
  );
  listed_for = λ x w. ground (
    arith,
    get-insert v1_id x v2_id recent.v1_to_v2,
    get-insert v2_id w (ids ++ v1_id ∷ []) recent.v2_to_v1,
    contains-append ids v1_id x,
    h.listed_for x w,
  );
}

pub enter_new-IsLinked :
    (recent : RecentJobs) (v1_id v2_id : ℕ) (job : IssuedJob) (ring : CircularBuffer ℕ)
    → job.notify.job_id ≡ v2_id
    → get v1_id recent.v1_to_v2 ≡ none
    → get v2_id recent.v2_to_v1 ≡ none
    → IsLinked recent
    → IsLinked (
        entered
          (record recent { v2_to_v1 = insert v2_id (v1_id ∷ []) recent.v2_to_v1; last_v2s = ring })
          v1_id
          v2_id
          job)
enter_new-IsLinked recent v1_id v2_id job ring of_job free e h = record {
  issued_for = λ x. ground (
    arith,
    get-insert v1_id x v2_id recent.v1_to_v2,
    get-insert v1_id x job recent.issued_jobs,
    h.issued_for x,
  );
  listed_for = λ x w. ground (
    arith,
    get-insert v1_id x v2_id recent.v1_to_v2,
    get-insert v2_id w (v1_id ∷ []) recent.v2_to_v1,
    h.listed_for x w,
  );
}
