-- ===== src/MergeMining/Observer/Found.antt =====
-- src/merge_mining.rs: the queue of found jobs and the window of seen headers.
use demand_cli.Prelude.{
  ℕ, zero, suc, ◌≤◌, ◌<◌, ◌≡◌, refl, Bool, true, false, ◌&&◌, List, [], ◌∷◌, ◌++◌, length,
  pop_front, All, All-append, length-append, leb, bytes_eq, arith, Option-cases, Bool-cases, inl,
  inr, ◌⊎◌, ap, subst, sym,
}
use demand_cli.MergeMining.Types.{
  Core, FoundJob, next_id, max_found_jobs, max_dedup_identities, max_early_shares, fetch_add,
  ShareObservation, CandidateContext, ResolveContext, ready, incomplete, obsolete,
}
use demand_cli.MergeMining.Bindings.Validity.{next_id_lem, next_id_mono}
use demand_cli.MergeMining.Observer.{
  Bitcoin, Work, share, wake, make_room, is_recent, queue_found, take_found_job, keep_early,
  resolve_context,
}
use demand_cli.MergeMining.Observer.Worker.{
  queue_proof, process_candidate, stripped_coinbase, is_proof, found_job, handle_resolved,
  handle_observation, retry, retry_early, worker_loop,
}

-- Each element stands in the relation to all behind it.
abbrev pub IsPairwise {ℓ κ} : {A : Type ℓ} → (A → A → Type κ) → List A → Type κ
IsPairwise R [] = Unit
IsPairwise R (x ∷ xs) = All (R x) xs × IsPairwise R xs

module _ {ℓ κ} {A : Type ℓ} (R : A → A → Type κ) where
  IsPairwise-append :
      (xs : List A) (x : A) → IsPairwise R xs → All (λ y. R y x) xs → IsPairwise R (xs ++ x ∷ [])
  IsPairwise-append [] x p a = (tt, tt)
  IsPairwise-append (y ∷ ys) x p a =
      (All-append (R y) ys (x ∷ []) p.0 (a.0, tt), IsPairwise-append ys x p.1 a.1)

  IsPairwise-pop : (xs : List A) → IsPairwise R xs → IsPairwise R (pop_front xs)
  IsPairwise-pop [] p = tt
  IsPairwise-pop (x ∷ xs) p = p.1

  IsPairwise-room : (limit : ℕ) (xs : List A) → IsPairwise R xs → IsPairwise R (make_room limit xs)
  IsPairwise-room limit xs p = elim (Bool-cases (leb limit (length xs))) [
    | inl e ↦ rw e (IsPairwise-pop xs p)
    | inr e ↦ rw e p
  ]

module _ {ℓ κ} {A : Type ℓ} (P : A → Type κ) where
  All-pop : (xs : List A) → All P xs → All P (pop_front xs)
  All-pop [] a = tt
  All-pop (x ∷ xs) a = a.1

  pub All-room : (limit : ℕ) (xs : List A) → All P xs → All P (make_room limit xs)
  All-room limit xs a = elim (Bool-cases (leb limit (length xs))) [
    | inl e ↦ rw e (All-pop xs a)
    | inr e ↦ rw e a
  ]

pub length-room {ℓ} :
    {A : Type ℓ} (limit : ℕ) (xs : List A) (x : A)
    → 0 < limit
    → length xs ≤ limit
    → length (make_room limit xs ++ x ∷ []) ≤ limit
length-room limit [] x h k = ground arith
length-room limit (y ∷ ys) x h k =
    ground (arith, length-append {_} ys (x ∷ []), length-append {_} (y ∷ ys) (x ∷ []))

pub List-cases {ℓ} :
    {A : Type ℓ} (xs : List A) → (xs ≡ []) ⊎ ((x : A) × (rest : List A) × (xs ≡ x ∷ rest))
List-cases [] = inl refl
List-cases (x ∷ xs) = inr (x, xs, refl)

-- Another header or another coinbase.
abbrev pub Differ : List ℕ × List ℕ → List ℕ × List ℕ → Type 0
Differ seen other = (bytes_eq seen.0 other.0 && bytes_eq seen.1 other.1) ≡ false

-- The queue and the window are bounded, no candidate is in the window twice, and the identifiers of
-- the queue ascend.
pub record IsFoundValid (core : Core) : Type 0 where
  pub pending_bounded : length core.found.pending ≤ max_found_jobs
  pub recent_bounded : length core.found.recent ≤ max_dedup_identities
  pub recent_once : IsPairwise Differ core.found.recent
  pub ascending : IsPairwise (λ job later. job.id < later.id) core.found.pending
  pub below_next : All (λ job. job.id < core.next_found_id) core.found.pending

not_recent :
    (header coinbase : List ℕ) (recent : List (List ℕ × List ℕ))
    → is_recent header coinbase recent ≡ false
    → All (λ seen. Differ seen (header, coinbase)) recent
unfolding is_recent
not_recent header coinbase [] e = tt
not_recent header coinbase (seen ∷ recent) e =
    (ground (arith, e), not_recent header coinbase recent (ground (arith, e)))

All-le-next :
    (n m : ℕ) (jobs : List FoundJob)
    → n ≤ m
    → All (λ job. job.id < n) jobs
    → All (λ job. job.id < m) jobs
All-le-next n m [] h a = tt
All-le-next n m (job ∷ jobs) h a = (omega (arith, h, a.0), All-le-next n m jobs h a.1)

queue_found-IsFoundValid :
    (core : Core) (job : FoundJob)
    → IsFoundValid core
    → All (λ earlier. earlier.id < job.id) core.found.pending
    → job.id < core.next_found_id
    → IsFoundValid (queue_found core job)
unfolding queue_found
queue_found-IsFoundValid core job v a h =
    elim (Bool-cases (is_recent job.block_header_hex job.coinbase_tx_hex core.found.recent)) [
      | inl e ↦ rw (e, queue_found) v
      | inr e ↦
          rw (e, queue_found)
            (record {
              pending_bounded =
                  length-room max_found_jobs core.found.pending job (omega arith) v.pending_bounded;
              recent_bounded =
                  length-room max_dedup_identities core.found.recent
                    (job.block_header_hex, job.coinbase_tx_hex) (omega arith) v.recent_bounded;
              recent_once =
                  IsPairwise-append Differ (make_room max_dedup_identities core.found.recent)
                    (job.block_header_hex, job.coinbase_tx_hex)
                    (IsPairwise-room Differ max_dedup_identities core.found.recent v.recent_once)
                    (All-room (λ seen. Differ seen (job.block_header_hex, job.coinbase_tx_hex))
                      max_dedup_identities core.found.recent
                      (not_recent job.block_header_hex job.coinbase_tx_hex core.found.recent e));
              ascending =
                  IsPairwise-append (λ earlier later. earlier.id < later.id)
                    (make_room max_found_jobs core.found.pending) job
                    (IsPairwise-room (λ earlier later. earlier.id < later.id) max_found_jobs
                      core.found.pending v.ascending)
                    (All-room (λ earlier. earlier.id < job.id) max_found_jobs core.found.pending a);
              below_next =
                  All-append (λ j. j.id < core.next_found_id)
                    (make_room max_found_jobs core.found.pending) (job ∷ [])
                    (All-room (λ j. j.id < core.next_found_id) max_found_jobs core.found.pending
                      v.below_next)
                    (h, tt);
            })
    ]

-- Calls on other parts of the state.
other_fields-IsFoundValid :
    (core other : Core)
    → other.found ≡ core.found
    → core.next_found_id ≤ other.next_found_id
    → IsFoundValid core
    → IsFoundValid other
other_fields-IsFoundValid core other e h v = record {
  pending_bounded = rw e v.pending_bounded;
  recent_bounded = rw e v.recent_bounded;
  recent_once = rw e v.recent_once;
  ascending = rw e v.ascending;
  below_next =
      rw e (All-le-next core.next_found_id other.next_found_id core.found.pending h v.below_next);
}

take_found_job-IsFoundValid :
    (core : Core) (observer_ready : Bool)
    → IsFoundValid core
    → IsFoundValid (take_found_job core observer_ready).0
unfolding take_found_job
take_found_job-IsFoundValid core false v = v
take_found_job-IsFoundValid core true v = elim (List-cases core.found.pending) [
  | inl e ↦ rw (e, take_found_job) v
  | inr (job, pending, e) ↦
      rw (e, take_found_job)
        (record {
          pending_bounded = omega (arith, ap length e, v.pending_bounded);
          recent_bounded = v.recent_bounded;
          recent_once = v.recent_once;
          ascending = (subst (IsPairwise (λ earlier later. earlier.id < later.id)) e v.ascending).1;
          below_next = (subst (All (λ j. j.id < core.next_found_id)) e v.below_next).1;
        })
]

module _ (bitcoin : Bitcoin) where
  queue_proof-IsFoundValid :
      (core : Core) (observation : ShareObservation) (context : CandidateContext)
      (coinbase : bitcoin.Transaction)
      → IsFoundValid core
      → IsFoundValid (queue_proof bitcoin core observation context coinbase)
  unfolding queue_proof found_job
  queue_proof-IsFoundValid core observation context coinbase v =
      let next = (next_id core.next_found_id).0 in
      let moved =
        other_fields-IsFoundValid core (record core { next_found_id = next }) refl
          (next_id_mono core.next_found_id) v in
      elim (Option-cases (next_id core.next_found_id).1) [
        | inl e ↦ rw (e, queue_proof) moved
        | inr (i, e) ↦
            let id = next_id_lem core.next_found_id i e in
            rw (e, queue_proof)
              (queue_found-IsFoundValid (record core { next_found_id = next })
                (found_job bitcoin i observation context coinbase) moved
                (subst (λ n. All (λ job. job.id < n) core.found.pending) (sym id.0) v.below_next)
                (omega (arith, id.1)))
      ]

  process_candidate-IsFoundValid :
      (core : Core) (observation : ShareObservation) (context : CandidateContext)
      → IsFoundValid core
      → IsFoundValid (process_candidate bitcoin core observation context)
  unfolding process_candidate
  process_candidate-IsFoundValid core observation context v =
      elim (Option-cases (stripped_coinbase bitcoin observation context)) [
        | inl e ↦ rw (e, process_candidate) v
        | inr (coinbase, e) ↦ elim (Bool-cases (is_proof bitcoin observation context coinbase)) [
          | inl proof ↦
              rw (e, proof, process_candidate)
                (queue_proof-IsFoundValid core observation context coinbase v)
          | inr none_found ↦ rw (e, none_found, process_candidate) v
        ]
      ]

  keep_early-IsFoundValid :
      (core : Core) (early : List ShareObservation) (observation : ShareObservation)
      → IsFoundValid core
      → IsFoundValid (keep_early core early observation).0
  unfolding keep_early
  keep_early-IsFoundValid core early observation v =
      elim (Bool-cases (leb max_early_shares (length early))) [
        | inl e ↦
            rw (e, keep_early)
              (other_fields-IsFoundValid core
                (record core { dropped_observations = fetch_add core.dropped_observations }) refl
                (omega arith) v)
        | inr e ↦ rw (e, keep_early) v
      ]

  resolved-IsFoundValid :
      (core : Core) (early : List ShareObservation) (observation : ShareObservation)
      (resolved : ResolveContext)
      → IsFoundValid core
      → IsFoundValid (handle_resolved bitcoin core early observation resolved).0
  unfolding handle_resolved
  resolved-IsFoundValid core early observation (ready context) v =
      process_candidate-IsFoundValid core observation context v
  resolved-IsFoundValid core early observation incomplete v =
      keep_early-IsFoundValid core early observation v
  resolved-IsFoundValid core early observation obsolete v = v

  retry-IsFoundValid :
      (attempts : ℕ) (core : Core) (early : List ShareObservation)
      → IsFoundValid core
      → IsFoundValid (retry bitcoin attempts core early).0
  unfolding retry handle_observation
  retry-IsFoundValid zero core early v = v
  retry-IsFoundValid (suc attempts) core [] v = v
  retry-IsFoundValid (suc attempts) core (observation ∷ early) v =
      let handled = handle_observation bitcoin core early observation in
      retry-IsFoundValid attempts handled.0 handled.1
        (resolved-IsFoundValid core early observation (resolve_context core.context observation) v)

  -- Every round of the observer and every poll keep the queue within 32 jobs and the window within
  -- 128 candidates; no candidate is in the window twice, and the identifiers of the queue ascend
  -- below the next one.
  pub worker_loop-IsFoundValid :
      (core : Core) (early : List ShareObservation) (work : Work) (observer_ready : Bool)
      → IsFoundValid core
      → IsFoundValid (worker_loop bitcoin core early work).0
        × IsFoundValid (take_found_job core observer_ready).0
  unfolding worker_loop retry_early handle_observation
  worker_loop-IsFoundValid core early wake observer_ready v = (
    retry-IsFoundValid (length early) core early v,
    take_found_job-IsFoundValid core observer_ready v,
  )
  worker_loop-IsFoundValid core early (share observation) observer_ready v =
      let handled = handle_observation bitcoin core early observation in
      (
        retry-IsFoundValid (length handled.1) handled.0 handled.1 (
            resolved-IsFoundValid core early observation (resolve_context core.context observation)
              v),
        take_found_job-IsFoundValid core observer_ready v,
      )
