-- ===== src/Downstream/Counting.antt =====
-- src/translator/downstream/receive_from_downstream.rs, `process_incoming_message`: which submits
-- count for the miner's difficulty.
use mathlib.Core.List.{append-nil}
use demand_cli.Downstream.{Text, Downstream, reset_submit_diff_count_flag, on_new_valid_share}
use demand_cli.Downstream.Submit.{
  Request, Message, SubmitShareWithChannelId, Effect, counts_share, Outcome, done, failed, panicked,
  Sv1Api, is_submit, is_valid_submission,
}
use demand_cli.Downstream.Requests.{
  observe, submit_validated, before, submit_known, handle_submit_request, handle_submit_message,
  handle_incoming_sv1, save_share, count_submit, process_incoming_message,
}
use demand_cli.Sv1.{Submit}
use demand_cli.Sv1.Share.{Hashing}
use demand_cli.RecentJobs.{IssuedJob, get_matching_job}
use demand_cli.Prelude.{
  ℕ, ◌≡◌, inl, inr, refl, sym, ap, ◌∙◌, Bool, true, false, Option, none, some, List, [], ◌∷◌, ◌++◌,
  Bool-cases, Option-cases,
}
use demand_cli.Downstream.Answers.{forwards}
use demand_cli.Downstream.Forwarding.{forwards-reject_invalid}

-- As many times as there are shares.
abbrev pub repeat : List SubmitShareWithChannelId → ℕ → List ℕ
repeat [] now = []
repeat (share ∷ shares) now = now ∷ repeat shares now

-- The flag is set just when a share was forwarded, and the difficulty is as it was.
pub data IsFlagged (submits : List ℕ) (r : Downstream × List Effect × Outcome) : Type 0 where
  flagged :
      (share : SubmitShareWithChannelId)
      → r.2 ≡ done
      → r.0.submit_counts_for_diff ≡ true
      → forwards r.1 ≡ share ∷ []
      → r.0.difficulty_mgmt.submits ≡ submits
      → IsFlagged submits r
  unflagged :
      r.0.submit_counts_for_diff ≡ false
      → forwards r.1 ≡ []
      → r.0.difficulty_mgmt.submits ≡ submits
      → IsFlagged submits r

submit_known-IsFlagged :
    (downstream : Downstream) (request : Submit Text) (job_id : ℕ) (job : IssuedJob)
    (bridge_open : Bool) (binding : Option ℕ) (validated : Option Bool)
    → downstream.submit_counts_for_diff ≡ false
    → IsFlagged downstream.difficulty_mgmt.submits (
        before
          (counts_share downstream.connection_id ∷ observe downstream request job binding)
          (submit_validated downstream request job_id job bridge_open validated))
unfolding submit_validated observe
submit_known-IsFlagged d r i job live none none h = unflagged h refl refl
submit_known-IsFlagged d r i job live none (some false) h = unflagged h refl refl
submit_known-IsFlagged d r i job true none (some true) h = flagged _ refl refl refl refl
submit_known-IsFlagged d r i job false none (some true) h = unflagged h refl refl
submit_known-IsFlagged d r i job live (some b) none h = unflagged h refl refl
submit_known-IsFlagged d r i job live (some b) (some false) h = unflagged h refl refl
submit_known-IsFlagged d r i job true (some b) (some true) h = flagged _ refl refl refl refl
submit_known-IsFlagged d r i job false (some b) (some true) h = unflagged h refl refl

module _ (api : Sv1Api) (hashing : Hashing) where
  submit_message-IsFlagged :
      (downstream : Downstream) (request : Request) (bridge_open : Bool)
      → downstream.submit_counts_for_diff ≡ false
      → IsFlagged downstream.difficulty_mgmt.submits
          (handle_submit_message api hashing downstream request bridge_open)
  unfolding handle_submit_message handle_submit_request submit_known
  submit_message-IsFlagged downstream request bridge_open h =
      elim (Option-cases (api.submit_try_from request)) [
        | inl e ↦
            rw (e, handle_submit_message)
              (unflagged h (forwards-reject_invalid api hashing downstream request) refl)
        | inr (submit, e) ↦ elim (Bool-cases (is_valid_submission api downstream submit)) [
          | inr f ↦
              rw (e, handle_submit_message, f)
                (unflagged h (forwards-reject_invalid api hashing downstream request) refl)
          | inl f ↦ elim (Option-cases (api.parse_u32 submit.job_id)) [
            | inl g ↦
                rw (e, handle_submit_message, f, g, handle_submit_request) (unflagged h refl refl)
            | inr (job_id, g) ↦
                elim (Option-cases (get_matching_job downstream.recent_jobs job_id)) [
                  | inl i ↦
                      rw (e, handle_submit_message, f, g, handle_submit_request, i)
                        (unflagged h refl refl)
                  | inr (job, i) ↦
                      rw (e, handle_submit_message, f, g, handle_submit_request, i)
                        (submit_known-IsFlagged downstream submit job_id job bridge_open
                          job.merge_mining_binding_id _ h)
                ]
          ]
        ]
      ]

  count_submit-IsFlagged :
      (submits : List ℕ) (now : ℕ) (r : Downstream × List Effect × Outcome)
      → IsFlagged submits r
      → (count_submit api hashing false now r).0.difficulty_mgmt.submits
        ≡ submits ++ repeat (forwards (count_submit api hashing false now r).1) now
  unfolding count_submit save_share on_new_valid_share
  count_submit-IsFlagged submits now (d, effects, done) (flagged share o w f s) =
      rw (w, f) (ap (λ l. l ++ now ∷ []) s)
  count_submit-IsFlagged submits now (d, effects, failed) (flagged share o w f s) = cc
  count_submit-IsFlagged submits now (d, effects, panicked) (flagged share o w f s) = cc
  count_submit-IsFlagged submits now (d, effects, done) (unflagged w f s) =
      rw (w, f) (s ∙ sym (append-nil submits))
  count_submit-IsFlagged submits now (d, effects, failed) (unflagged w f s) =
      rw f (s ∙ sym (append-nil submits))
  count_submit-IsFlagged submits now (d, effects, panicked) (unflagged w f s) =
      rw f (s ∙ sym (append-nil submits))

  -- While updates of the difficulty are enabled, a `mining.submit` adds its time to the
  -- submits that count for the difficulty once for each share that it forwards, and else
  -- leaves them.
  pub submits-forwarded :
      (downstream : Downstream) (message : Message) (request : Request) (bridge_open : Bool)
      (now : ℕ)
      → is_submit message ≡ some request
      → let r = process_incoming_message api hashing downstream message bridge_open false now in
        r.0.difficulty_mgmt.submits
        ≡ downstream.difficulty_mgmt.submits ++ repeat (forwards r.1) now
  unfolding process_incoming_message handle_incoming_sv1
  submits-forwarded downstream message request bridge_open now e =
      rw (e, process_incoming_message)
        (rw (e, handle_incoming_sv1)
          (count_submit-IsFlagged downstream.difficulty_mgmt.submits now _ (
            submit_message-IsFlagged (reset_submit_diff_count_flag downstream) request bridge_open
              refl)))
