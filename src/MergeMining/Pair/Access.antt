-- ===== src/MergeMining/Pair/Access.antt =====
-- src/merge_mining.rs: what the API handlers let through.
use demand_cli.Prelude.{
  ℕ, ◌≡◌, ◌≢◌, refl, Bool, true, false, Option, none, some, List, [], ◌∷◌, get_elem?, pop_front,
  arith, Option-cases, Bool-cases, inl, inr, ◌⊎◌, ap,
}
use demand_cli.MergeMining.Types.{Core, DesiredPair, MergeMiningError}
use demand_cli.MergeMining.Commitment.{constant_time_eq}
use demand_cli.MergeMining.Commitment.Secret.{constant_time_eq_lem}
use demand_cli.MergeMining.Template.{ok, err, Result-cases}
use demand_cli.MergeMining.Observer.{take_found_job}
use demand_cli.MergeMining.Observer.Found.{List-cases}
use demand_cli.MergeMining.Pair.{
  Status, answered, accepted, authorize, poll_answer, poll_found_job_api, parse, replace_pair,
  set_desired_pair, set_answer, set_pair_api,
}

-- A request that is let through carries the secret that is set, and that is not empty.
authorize-none :
    (expected : Option (List ℕ)) (supplied : List ℕ)
    → authorize expected supplied ≡ none
    → (expected ≡ some supplied) × (supplied ≢ [])
unfolding authorize
authorize-none none supplied e = cc
authorize-none (some []) supplied e = cc
authorize-none (some (c ∷ secret)) supplied e =
    elim (Bool-cases (constant_time_eq (c ∷ secret) supplied)) [
      | inl q ↦
          let same = (constant_time_eq_lem (c ∷ secret) supplied).0 q in (ap some same, λ z. cc)
      | inr q ↦ ground (arith, e, q)
    ]

authorize_refuses :
    (expected : Option (List ℕ)) (supplied : List ℕ) (status : Status)
    → authorize expected supplied ≡ some status
    → (status ≢ accepted) × (status ≢ answered)
unfolding authorize
authorize_refuses none supplied status e = ground (arith, e)
authorize_refuses (some []) supplied status e = ground (arith, e)
authorize_refuses (some (c ∷ secret)) supplied status e = ground (arith, e)

polled :
    {E S : Type 0} (core : Core) (observer_ready : Bool)
    → E × S
    → let r = poll_answer (take_found_job core observer_ready) in
      ((r.1 ≢ answered) × (r.0 ≡ core) × (r.2 ≡ none))
      ⊎ ((r.1 ≡ answered)
          × E
          × S
          × (r.2 ≡ get_elem? core.found.pending 0)
          × (r.0.found.pending ≡ pop_front core.found.pending))
unfolding poll_answer take_found_job
polled core false a = inl (λ e. cc, refl, refl)
polled core true a = elim (List-cases core.found.pending) [
  | inl e ↦ rw (e, take_found_job) (inr (refl, a.0, a.1, refl, e))
  | inr (job, rest, e) ↦ rw (e, take_found_job) (inr (refl, a.0, a.1, refl, refl))
]

-- A poll that is answered carried the secret that is set, and took the oldest found job, if there is
-- one; any other poll takes no job and changes nothing.
pub poll_found_job_api_lem :
    (core : Core) (expected : Option (List ℕ)) (observer_ready : Bool) (secret : List ℕ)
    → let r = poll_found_job_api core expected observer_ready secret in
      ((r.1 ≢ answered) × (r.0 ≡ core) × (r.2 ≡ none))
      ⊎ ((r.1 ≡ answered)
          × (expected ≡ some secret)
          × (secret ≢ [])
          × (r.2 ≡ get_elem? core.found.pending 0)
          × (r.0.found.pending ≡ pop_front core.found.pending))
unfolding poll_found_job_api poll_answer
poll_found_job_api_lem core expected observer_ready secret =
    elim (Option-cases (authorize expected secret)) [
      | inr (status, e) ↦
          rw (e, poll_found_job_api)
            (inl ((authorize_refuses expected secret status e).1, refl, refl))
      | inl e ↦
          rw (e, poll_found_job_api) (polled core observer_ready (authorize-none expected secret e))
    ]

module _ (trim : List ℕ → List ℕ) (from_hex : List ℕ → Option (List ℕ))
    (op_return_output : List ℕ → Option (List ℕ)) where
  -- The state after a pair that parses became the desired one.
  abbrev pub Parsed : List ℕ → Option (List ℕ) → Core → Core → Type 0
  Parsed data_hex target_hex core after =
      (target : List ℕ) × (pair : DesiredPair) × (target_hex ≡ some target)
      × (parse trim from_hex op_return_output data_hex target ≡ ok pair)
      × (after ≡ record core { context = record core.context { desired = some pair } })

  refused :
      (core : Core) (failed : MergeMiningError)
      → let r = set_answer trim from_hex op_return_output (core, err failed) in
        (r.1 ≢ accepted) × (r.0 ≡ core)
  unfolding set_answer
  refused core failed = ground arith

  replaced :
      (core : Core) (observer_ready : Bool) (data_hex target : List ℕ) (pair : DesiredPair)
      → parse trim from_hex op_return_output data_hex target ≡ ok pair
      → let r =
          set_answer trim from_hex op_return_output
            (replace_pair trim from_hex op_return_output core observer_ready (ok pair)) in
        ((r.1 ≢ accepted) × (r.0 ≡ core))
        ⊎ ((r.1 ≡ accepted) × Parsed data_hex (some target) core r.0)
  unfolding set_answer replace_pair
  replaced core false data_hex target pair e = inl (λ h. cc, refl)
  replaced core true data_hex target pair e = inr (refl, (target, pair, refl, e, refl))

  set_cases :
      (core : Core) (observer_ready : Bool) (data_hex target : List ℕ)
      → let r =
          set_answer trim from_hex op_return_output
            (set_desired_pair trim from_hex op_return_output core observer_ready data_hex target) in
        ((r.1 ≢ accepted) × (r.0 ≡ core))
        ⊎ ((r.1 ≡ accepted) × Parsed data_hex (some target) core r.0)
  unfolding set_answer set_desired_pair replace_pair
  set_cases core observer_ready data_hex target =
      elim (Result-cases (parse trim from_hex op_return_output data_hex target)) [
        | inl (failed, e) ↦ rw (e, set_desired_pair, replace_pair) (inl (refused core failed))
        | inr (pair, e) ↦
            rw (e, set_desired_pair) (replaced core observer_ready data_hex target pair e)
      ]

  -- A request that is accepted carried the secret that is set, and a pair that parses, which is the
  -- desired pair from then on; any other request changes nothing.
  pub set_pair_api_lem :
      (core : Core) (expected : Option (List ℕ)) (observer_ready : Bool) (secret data_hex : List ℕ)
      (target_hex : Option (List ℕ))
      → let r =
          set_pair_api trim from_hex op_return_output core expected observer_ready secret data_hex
            target_hex in
        ((r.1 ≢ accepted) × (r.0 ≡ core))
        ⊎ ((r.1 ≡ accepted)
            × (expected ≡ some secret)
            × (secret ≢ [])
            × Parsed data_hex target_hex core r.0)
  unfolding set_pair_api
  set_pair_api_lem core expected observer_ready secret data_hex target_hex =
      elim (Option-cases (authorize expected secret)) [
        | inr (status, e) ↦
            rw (e, set_pair_api) (inl ((authorize_refuses expected secret status e).0, refl))
        | inl e ↦
            let a = authorize-none expected secret e in
            elim (Option-cases target_hex) [
              | inl t ↦ rw (e, t, set_pair_api) (inl (λ h. cc, refl))
              | inr (target, t) ↦
                  rw (e, t, set_pair_api)
                    (elim (set_cases core observer_ready data_hex target) [
                      | inl no_pair ↦ inl no_pair
                      | inr (q, p) ↦ inr (q, a.0, a.1, p)
                    ])
            ]
      ]
