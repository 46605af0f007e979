-- ===== src/Downstream/Answers.antt =====
-- src/translator/downstream/downstream.rs, `handle_incoming_sv1` of a `mining.submit`: what a miner,
-- the statistics and the bridge get.
use demand_cli.Downstream.{Text, Downstream}
use demand_cli.Downstream.Submit.{
  Request, SubmitShareWithChannelId, Effect, insert_share, update_accepted_shares,
  update_rejected_shares, counts_share, observes_share, submit_shares, send_message, boolean,
  Outcome, Response, done, panicked, Sv1Api, is_valid_submission, reject_invalid_submit,
  invalid_submit_share,
}
use demand_cli.Downstream.Requests.{
  upstream_request, observe, submit_validated, before, submit_known, handle_submit_request,
  handle_submit_message,
}
use demand_cli.Sv1.{Submit}
use demand_cli.Sv1.Share.{Hashing, validate_share}
use demand_cli.RecentJobs.{IssuedJob, get_matching_job}
use demand_cli.Prelude.{
  ℕ, ◌≡◌, ◌⊎◌, inl, inr, refl, subst, Bool, true, false, Option, none, some, List, [], ◌∷◌,
  Bool-cases, Option-cases,
}

-- The effects of each kind.
abbrev pub answers : List Effect → List Response
answers [] = []
answers (send_message message ∷ effects) = message ∷ answers effects
answers (insert_share share ∷ effects) = answers effects
answers (update_accepted_shares id ∷ effects) = answers effects
answers (update_rejected_shares id ∷ effects) = answers effects
answers (counts_share id ∷ effects) = answers effects
answers (observes_share b v t n e ∷ effects) = answers effects
answers (submit_shares share ∷ effects) = answers effects

abbrev pub forwards : List Effect → List SubmitShareWithChannelId
forwards [] = []
forwards (send_message message ∷ effects) = forwards effects
forwards (insert_share share ∷ effects) = forwards effects
forwards (update_accepted_shares id ∷ effects) = forwards effects
forwards (update_rejected_shares id ∷ effects) = forwards effects
forwards (counts_share id ∷ effects) = forwards effects
forwards (observes_share b v t n e ∷ effects) = forwards effects
forwards (submit_shares share ∷ effects) = share ∷ forwards effects

-- The connections whose share was counted as accepted, or as rejected.
abbrev pub accepted_shares : List Effect → List ℕ
accepted_shares [] = []
accepted_shares (send_message message ∷ effects) = accepted_shares effects
accepted_shares (insert_share share ∷ effects) = accepted_shares effects
accepted_shares (update_accepted_shares id ∷ effects) = id ∷ accepted_shares effects
accepted_shares (update_rejected_shares id ∷ effects) = accepted_shares effects
accepted_shares (counts_share id ∷ effects) = accepted_shares effects
accepted_shares (observes_share b v t n e ∷ effects) = accepted_shares effects
accepted_shares (submit_shares share ∷ effects) = accepted_shares effects

abbrev pub rejected_shares : List Effect → List ℕ
rejected_shares [] = []
rejected_shares (send_message message ∷ effects) = rejected_shares effects
rejected_shares (insert_share share ∷ effects) = rejected_shares effects
rejected_shares (update_accepted_shares id ∷ effects) = rejected_shares effects
rejected_shares (update_rejected_shares id ∷ effects) = id ∷ rejected_shares effects
rejected_shares (counts_share id ∷ effects) = rejected_shares effects
rejected_shares (observes_share b v t n e ∷ effects) = rejected_shares effects
rejected_shares (submit_shares share ∷ effects) = rejected_shares effects

-- The observations for merge mining, with their arguments.
abbrev pub observations : List Effect → List (ℕ × (ℕ × (ℕ × (ℕ × List ℕ))))
observations [] = []
observations (send_message message ∷ effects) = observations effects
observations (insert_share share ∷ effects) = observations effects
observations (update_accepted_shares id ∷ effects) = observations effects
observations (update_rejected_shares id ∷ effects) = observations effects
observations (counts_share id ∷ effects) = observations effects
observations (observes_share b v t n e ∷ effects) = (b, (v, (t, (n, e)))) ∷ observations effects
observations (submit_shares share ∷ effects) = observations effects

-- A submit of a connection is settled: it was sent on, is counted as accepted, and the miner's
-- request is answered by true; or it was not, is counted as rejected, and is answered by false.
pub data IsSettled (connection id : ℕ) (effects : List Effect) : Type 0 where
  taken :
      (share : SubmitShareWithChannelId)
      → forwards effects ≡ share ∷ []
      → answers effects ≡ record { id = id; result = boolean true } ∷ []
      → accepted_shares effects ≡ connection ∷ []
      → rejected_shares effects ≡ []
      → IsSettled connection id effects
  refused :
      forwards effects ≡ []
      → answers effects ≡ record { id = id; result = boolean false } ∷ []
      → accepted_shares effects ≡ []
      → rejected_shares effects ≡ connection ∷ []
      → IsSettled connection id effects

module _ (api : Sv1Api) (hashing : Hashing) where
  -- The validation of the share panics: it is that of a valid submit with a known job.
  pub record IsPanicking (downstream : Downstream) (request : Request) : Type 0 where
    pub submit : Submit Text
    pub parsed : api.submit_try_from request ≡ some submit
    pub valid : is_valid_submission api downstream submit ≡ true
    pub job_id : ℕ
    pub named : api.parse_u32 submit.job_id ≡ some job_id
    pub job : IssuedJob
    pub issued : get_matching_job downstream.recent_jobs job_id ≡ some job
    pub panics :
        validate_share hashing
          (upstream_request submit job)
          job.notify
          job.difficulty
          downstream.extranonce1
          downstream.version_rolling_mask
        ≡ none

  submit_known-IsSettled :
      (downstream : Downstream) (request : Submit Text) (job_id : ℕ) (job : IssuedJob)
      (bridge_open : Bool) (binding : Option ℕ) (validated : Option Bool)
      → let r =
          before
            (counts_share downstream.connection_id ∷ observe downstream request job binding)
            (submit_validated downstream request job_id job bridge_open validated) in
        ((validated ≡ none) × (r.2 ≡ panicked) × (answers r.1 ≡ []) × (forwards r.1 ≡ []))
        ⊎ (IsSettled downstream.connection_id request.id r.1 × (r.2 ≡ done))
  unfolding submit_validated observe
  submit_known-IsSettled d r i job live none none = inl (refl, refl, refl, refl)
  submit_known-IsSettled d r i job live none (some false) = inr (refused refl refl refl refl, refl)
  submit_known-IsSettled d r i job true none (some true) = inr (taken _ refl refl refl refl, refl)
  submit_known-IsSettled d r i job false none (some true) = inr (refused refl refl refl refl, refl)
  submit_known-IsSettled d r i job live (some b) none = inl (refl, refl, refl, refl)
  submit_known-IsSettled d r i job live (some b) (some false) =
      inr (refused refl refl refl refl, refl)
  submit_known-IsSettled d r i job true (some b) (some true) =
      inr (taken _ refl refl refl refl, refl)
  submit_known-IsSettled d r i job false (some b) (some true) =
      inr (refused refl refl refl refl, refl)

  submit_request-IsSettled :
      (downstream : Downstream) (request : Request) (submit : Submit Text) (bridge_open : Bool)
      → api.submit_try_from request ≡ some submit
      → is_valid_submission api downstream submit ≡ true
      → let r = handle_submit_request api hashing downstream submit bridge_open in
        (IsPanicking downstream request
          × (r.2 ≡ panicked)
          × (answers r.1 ≡ [])
          × (forwards r.1 ≡ []))
        ⊎ (IsSettled downstream.connection_id submit.id r.1 × (r.2 ≡ done))
  unfolding handle_submit_request submit_known
  submit_request-IsSettled downstream request submit bridge_open parsed valid =
      elim (Option-cases (api.parse_u32 submit.job_id)) [
        | inl e ↦ rw (e, handle_submit_request) (inr (refused refl refl refl refl, refl))
        | inr (job_id, e) ↦ elim (Option-cases (get_matching_job downstream.recent_jobs job_id)) [
          | inl f ↦ rw (e, handle_submit_request, f) (inr (refused refl refl refl refl, refl))
          | inr (job, f) ↦
              elim (submit_known-IsSettled downstream submit job_id job bridge_open
                job.merge_mining_binding_id
                (validate_share hashing (upstream_request submit job) job.notify job.difficulty
                  downstream.extranonce1 downstream.version_rolling_mask)) [
                    | inr settled ↦ rw (e, handle_submit_request, f) (inr settled)
                    | inl (panics, ends, unanswered, kept) ↦
                        rw (e, handle_submit_request, f)
                          (inl (
                            record {
                              submit = submit;
                              parsed = parsed;
                              valid = valid;
                              job_id = job_id;
                              named = e;
                              job = job;
                              issued = f;
                              panics = panics;
                            },
                            ends,
                            unanswered,
                            kept,
                          ))
                  ]
        ]
      ]

  reject_invalid-IsSettled :
      (downstream : Downstream) (request : Request)
      → IsSettled downstream.connection_id request.id (reject_invalid_submit api downstream request)
  unfolding reject_invalid_submit
  reject_invalid-IsSettled downstream request =
      elim (Option-cases (invalid_submit_share api request)) [
        | inl e ↦ rw (e, reject_invalid_submit) (refused refl refl refl refl)
        | inr (share, e) ↦ rw (e, reject_invalid_submit) (refused refl refl refl refl)
      ]

  IsSettled-id :
      (downstream : Downstream) (request : Request) (i j : ℕ)
      (r : Downstream × List Effect × Outcome)
      → i ≡ j
      → (IsPanicking downstream request
          × (r.2 ≡ panicked)
          × (answers r.1 ≡ [])
          × (forwards r.1 ≡ []))
        ⊎ (IsSettled downstream.connection_id i r.1 × (r.2 ≡ done))
      → (IsPanicking downstream request
          × (r.2 ≡ panicked)
          × (answers r.1 ≡ [])
          × (forwards r.1 ≡ []))
        ⊎ (IsSettled downstream.connection_id j r.1 × (r.2 ≡ done))
  IsSettled-id downstream request i j r e (inl panicking) = inl panicking
  IsSettled-id downstream request i j r e (inr (settled, ends)) =
      inr (subst (λ id. IsSettled downstream.connection_id id r.1) e settled, ends)

  -- If the parser keeps the identifier of the request, a `mining.submit` is settled and its call
  -- is done: forwarded once, counted as accepted and answered by true, or not forwarded, counted as
  -- rejected and answered by false; unless the submit is valid, its job is known, and the
  -- validation of its share panics: then the call panics and it is neither answered nor forwarded.
  pub submit_message-IsSettled :
      (downstream : Downstream) (request : Request) (bridge_open : Bool)
      → ((submit : Submit Text)
          → api.submit_try_from request ≡ some submit
          → submit.id ≡ request.id)
      → let r = handle_submit_message api hashing downstream request bridge_open in
        (IsPanicking downstream request
          × (r.2 ≡ panicked)
          × (answers r.1 ≡ [])
          × (forwards r.1 ≡ []))
        ⊎ (IsSettled downstream.connection_id request.id r.1 × (r.2 ≡ done))
  unfolding handle_submit_message
  submit_message-IsSettled downstream request bridge_open keeps_id =
      elim (Option-cases (api.submit_try_from request)) [
        | inl e ↦
            rw (e, handle_submit_message) (inr (reject_invalid-IsSettled downstream request, refl))
        | inr (submit, e) ↦ elim (Bool-cases (is_valid_submission api downstream submit)) [
          | inl f ↦
              rw (e, handle_submit_message, f)
                (IsSettled-id downstream request submit.id request.id
                  (handle_submit_request api hashing downstream submit bridge_open)
                  (keeps_id submit e)
                  (submit_request-IsSettled downstream request submit bridge_open e f))
          | inr f ↦
              rw (e, handle_submit_message, f)
                (inr (reject_invalid-IsSettled downstream request, refl))
        ]
      ]
