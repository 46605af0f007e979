-- ===== src/Downstream/Forwarding.antt =====
-- src/translator/downstream/downstream.rs, `handle_incoming_sv1` of a `mining.submit`: which shares
-- go to the bridge, which are observed, and which count for the difficulty.
use demand_cli.Downstream.{Text, Downstream}
use demand_cli.Downstream.Submit.{
  Request, SubmitShareWithChannelId, counts_share, Sv1Api, is_valid_submission,
  has_valid_version_bits, reject_invalid_submit, invalid_submit_share,
}
use demand_cli.Downstream.Requests.{
  upstream_request, observe, forward_submit_share, submit_validated, before, submit_known,
  handle_submit_request, handle_submit_message,
}
use demand_cli.Sv1.{Submit}
use demand_cli.Sv1.Share.{Hashing, validate_share}
use demand_cli.RecentJobs.{IssuedJob, RecentJobs, get_matching_job}
use demand_cli.Prelude.Map.{contains_key}
use demand_cli.Prelude.{
  ℕ, ◌≡◌, inl, inr, refl, sym, ◌∙◌, Bool, true, false, Option, none, some, List, [], ◌∷◌, arith,
  Bool-cases, Option-cases, any, bytes_eq, length, subst,
}
use demand_cli.Downstream.Answers.{forwards}
use demand_cli.RecentJobs.Reach.{Reachable, IsValid, Reachable-IsValid}

none_sent : {A : Type 0} {B : Type 0} {x : A} {xs : List A} → xs ≡ [] → xs ≡ x ∷ [] → B
none_sent e h = cc

module _ (api : Sv1Api) (hashing : Hashing) where
  -- The version bits fit the mask: neither was negotiated or sent, or the bits pass its test.
  pub data FitsMask : Option ℕ → Option ℕ → Type 0 where
    neither : FitsMask none none
    both : (mask bits : ℕ) → api.check_mask mask bits ≡ true → FitsMask (some mask) (some bits)

  -- Why a share is sent on, and what is sent: the worker is authorized, extranonce and version bits
  -- are as negotiated, the job was issued and is tracked, the share that is sent meets the target of
  -- that job, and it is the miner's in all but the identifier of the job, which is the pool's.
  pub record IsForwarded (downstream : Downstream) (request : Request)
      (share : SubmitShareWithChannelId) : Type 0 where
    pub submit : Submit Text
    pub parsed : api.submit_try_from request ≡ some submit
    pub authorized : any (bytes_eq submit.user_name) downstream.authorized_names ≡ true
    pub extranonce2_length : length submit.extra_nonce2 ≡ downstream.extranonce2_len
    pub fits_mask : FitsMask downstream.version_rolling_mask submit.version_bits
    pub job_id : ℕ
    pub named : api.parse_u32 submit.job_id ≡ some job_id
    pub job : IssuedJob
    pub issued : get_matching_job downstream.recent_jobs job_id ≡ some job
    pub tracked : contains_key job.notify.job_id downstream.recent_jobs.v2_to_v1 ≡ true
    pub validated :
        validate_share hashing share.share job.notify job.difficulty downstream.extranonce1
          downstream.version_rolling_mask
        ≡ some true
    pub sent_job_id : share.share.job_id ≡ job.notify.job_id
    pub sent_id : share.share.id ≡ submit.id
    pub sent_user_name : share.share.user_name ≡ submit.user_name
    pub sent_extra_nonce2 : share.share.extra_nonce2 ≡ submit.extra_nonce2
    pub sent_time : share.share.time ≡ submit.time
    pub sent_nonce : share.share.nonce ≡ submit.nonce
    pub sent_version_bits : share.share.version_bits ≡ submit.version_bits
    pub channel_id : share.channel_id ≡ downstream.connection_id
    pub extranonce : share.extranonce ≡ downstream.extranonce1
    pub extranonce2_len : share.extranonce2_len ≡ downstream.extranonce2_len
    pub version_rolling_mask : share.version_rolling_mask ≡ downstream.version_rolling_mask

  valid_bits-FitsMask :
      (mask bits : Option ℕ) → has_valid_version_bits api mask bits ≡ true → FitsMask mask bits
  unfolding has_valid_version_bits
  valid_bits-FitsMask (some mask) (some bits) h = both mask bits h
  valid_bits-FitsMask none (some bits) h = cc
  valid_bits-FitsMask (some mask) none h = cc
  valid_bits-FitsMask none none h = neither

  valid_submission-parts :
      (downstream : Downstream) (submit : Submit Text)
      → is_valid_submission api downstream submit ≡ true
      → (any (bytes_eq submit.user_name) downstream.authorized_names ≡ true)
        × (length submit.extra_nonce2 ≡ downstream.extranonce2_len)
        × (has_valid_version_bits api downstream.version_rolling_mask submit.version_bits ≡ true)
  unfolding is_valid_submission
  valid_submission-parts downstream submit h = ground (arith, h)

  pub forwards-reject_invalid :
      (downstream : Downstream) (request : Request)
      → forwards (reject_invalid_submit api downstream request) ≡ []
  unfolding reject_invalid_submit
  forwards-reject_invalid downstream request =
      elim (Option-cases (invalid_submit_share api request)) [
        | inl e ↦ rw (e, reject_invalid_submit) refl
        | inr (share, e) ↦ rw (e, reject_invalid_submit) refl
      ]

  submit_known-forwards :
      (downstream : Downstream) (request : Submit Text) (job_id : ℕ) (job : IssuedJob)
      (bridge_open : Bool) (binding : Option ℕ) (validated : Option Bool)
      (share : SubmitShareWithChannelId)
      → forwards
          (before
            (counts_share downstream.connection_id ∷ observe downstream request job binding)
            (submit_validated downstream request job_id job bridge_open validated)).1
        ≡ share ∷ []
      → (validated ≡ some true)
        × (share ≡ forward_submit_share downstream (upstream_request request job))
  unfolding submit_validated observe
  submit_known-forwards d r i job live none none share h = cc
  submit_known-forwards d r i job live none (some false) share h = cc
  submit_known-forwards d r i job true none (some true) share h = (refl, cc)
  submit_known-forwards d r i job false none (some true) share h = cc
  submit_known-forwards d r i job live (some b) none share h = cc
  submit_known-forwards d r i job live (some b) (some false) share h = cc
  submit_known-forwards d r i job true (some b) (some true) share h = (refl, cc)
  submit_known-forwards d r i job false (some b) (some true) share h = cc

  matching_job-IsTracked :
      (recent : RecentJobs) (id : ℕ) (job : IssuedJob)
      → IsValid recent
      → get_matching_job recent id ≡ some job
      → contains_key job.notify.job_id recent.v2_to_v1 ≡ true
  unfolding get_matching_job
  matching_job-IsTracked recent id job v h = ground (
    arith,
    h,
    v.consistent.linked.issued_for id,
    v.consistent.linked.listed_for id job.notify.job_id,
  )

  forward-IsForwarded :
      (downstream : Downstream) (request : Request) (submit : Submit Text) (job_id : ℕ)
      (job : IssuedJob)
      → api.submit_try_from request ≡ some submit
      → is_valid_submission api downstream submit ≡ true
      → api.parse_u32 submit.job_id ≡ some job_id
      → get_matching_job downstream.recent_jobs job_id ≡ some job
      → contains_key job.notify.job_id downstream.recent_jobs.v2_to_v1 ≡ true
      → validate_share hashing
          (upstream_request submit job)
          job.notify
          job.difficulty
          downstream.extranonce1
          downstream.version_rolling_mask
        ≡ some true
      → IsForwarded downstream request
          (forward_submit_share downstream (upstream_request submit job))
  unfolding forward_submit_share
  forward-IsForwarded downstream request submit job_id job parsed valid named issued tracked
        checked =
      let (authorized, extranonce2_length, bits) = valid_submission-parts downstream submit valid in
      record {
        submit = submit;
        parsed = parsed;
        authorized = authorized;
        extranonce2_length = extranonce2_length;
        fits_mask = valid_bits-FitsMask downstream.version_rolling_mask submit.version_bits bits;
        job_id = job_id;
        named = named;
        job = job;
        issued = issued;
        tracked = tracked;
        validated = checked;
        sent_job_id = refl;
        sent_id = refl;
        sent_user_name = refl;
        sent_extra_nonce2 = refl;
        sent_time = refl;
        sent_nonce = refl;
        sent_version_bits = refl;
        channel_id = refl;
        extranonce = refl;
        extranonce2_len = refl;
        version_rolling_mask = refl;
      }

  -- With jobs that the connection can have come to, a share that is sent to the bridge is that of
  -- a submit whose worker is among the authorized names, whose extranonce has the negotiated length
  -- and whose version bits fit the mask; its job was issued and is still tracked, the share that is
  -- sent meets the target of that job, names the pool's job, and has all else from the submit and
  -- the connection.
  pub sent_share-IsForwarded :
      (downstream : Downstream) (request : Request) (bridge_open : Bool)
      (share : SubmitShareWithChannelId)
      → Reachable downstream.recent_jobs
      → forwards (handle_submit_message api hashing downstream request bridge_open).1 ≡ share ∷ []
      → IsForwarded downstream request share
  unfolding handle_submit_message handle_submit_request submit_known
  sent_share-IsForwarded downstream request bridge_open share reach h =
      elim (Option-cases (api.submit_try_from request)) [
        | inl e ↦
            none_sent (rw (e, handle_submit_message) (forwards-reject_invalid downstream request)) h
        | inr (submit, e) ↦ elim (Bool-cases (is_valid_submission api downstream submit)) [
          | inr f ↦
              none_sent
                (rw (e, handle_submit_message, f) (forwards-reject_invalid downstream request)) h
          | inl f ↦ elim (Option-cases (api.parse_u32 submit.job_id)) [
            | inl g ↦ none_sent (rw (e, handle_submit_message, f, g, handle_submit_request) refl) h
            | inr (job_id, g) ↦
                elim (Option-cases (get_matching_job downstream.recent_jobs job_id)) [
                  | inl i ↦
                      none_sent (rw (e, handle_submit_message, f, g, handle_submit_request, i) refl)
                        h
                  | inr (job, i) ↦
                      let validated =
                        validate_share hashing (upstream_request submit job) job.notify
                          job.difficulty downstream.extranonce1 downstream.version_rolling_mask in
                      let known =
                        submit_known-forwards downstream submit job_id job bridge_open
                          job.merge_mining_binding_id validated share
                          (sym (rw (e, handle_submit_message, f, g, handle_submit_request, i) refl)
                            ∙ h) in
                      subst (IsForwarded downstream request) (sym known.1) (
                        forward-IsForwarded downstream request submit job_id job e f g i
                          (matching_job-IsTracked downstream.recent_jobs job_id job
                            (Reachable-IsValid downstream.recent_jobs reach) i)
                          known.0)
                ]
          ]
        ]
      ]
