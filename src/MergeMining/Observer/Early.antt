-- ===== src/MergeMining/Observer/Early.antt =====
-- src/merge_mining.rs: the shares that come before the count of transactions or the prevhash of
-- their template.
use mathlib.Core.List.{append_assoc, append-nil}
use demand_cli.Prelude.{
  ◌≤◌, ◌<◌, ◌≡◌, refl, Bool, true, false, List, [], ◌∷◌, ◌++◌, length, retain, length-append,
  if◌then◌else◌, arith, Option-cases, Bool-cases, inl, inr, ap, subst, sym, ◌∙◌,
}
use demand_cli.MergeMining.Types.{
  Core, ContextState, max_early_shares, ShareObservation, CandidateContext, ResolveContext, ready,
  incomplete, obsolete,
}
use demand_cli.MergeMining.Observer.{Bitcoin, queue_found, keep_early, resolve_context}
use demand_cli.MergeMining.Observer.Worker.{
  queue_proof, process_candidate, stripped_coinbase, handle_resolved, handle_observation, retry,
  retry_early,
}

abbrev is_incomplete : ResolveContext → Bool
is_incomplete (ready context) = false
is_incomplete incomplete = true
is_incomplete obsolete = false

-- The share still waits for its context.
abbrev pub waits : ContextState → ShareObservation → Bool
waits state observation = is_incomplete (resolve_context state observation)

-- The calls of the observer leave the context, and those that find a job drop no share.
abbrev pub IsQuiet : Core → Core → Type 0
IsQuiet core other =
    (other.context ≡ core.context) × (other.dropped_observations ≡ core.dropped_observations)

module _ (bitcoin : Bitcoin) where
  process_candidate-IsQuiet :
      (core : Core) (observation : ShareObservation) (context : CandidateContext)
      → IsQuiet core (process_candidate bitcoin core observation context)
  unfolding process_candidate queue_proof queue_found
  process_candidate-IsQuiet core observation context =
      elim (Option-cases (stripped_coinbase bitcoin observation context)) [
        | inl e ↦ rw (e, process_candidate) (refl, refl)
        | inr (coinbase, e) ↦ ground (arith, e)
      ]

  resolved_frame :
      (core : Core) (early : List ShareObservation) (observation : ShareObservation)
      (resolved : ResolveContext)
      → length early < max_early_shares
      → let r = handle_resolved bitcoin core early observation resolved in
        IsQuiet core r.0
        × (r.1 ≡ (if is_incomplete resolved then early ++ observation ∷ [] else early))
  unfolding handle_resolved keep_early
  resolved_frame core early observation (ready context) h =
      (process_candidate-IsQuiet core observation context, refl)
  resolved_frame core early observation incomplete h = ground arith
  resolved_frame core early observation obsolete h = ((refl, refl), refl)

  -- `Kept` says what is left after the shares `xs` were tried, with `ys` already behind them.
  abbrev Kept :
      Core
      → ContextState
      → List ShareObservation
      → List ShareObservation
      → Core × List ShareObservation
      → Type 0
  Kept core state xs ys r =
      (r.1 ≡ ys ++ retain (waits state) xs)
      × (r.0.context ≡ state)
      × (r.0.dropped_observations ≡ core.dropped_observations)

  retry_keeps :
      (core : Core) (state : ContextState) (xs ys queue : List ShareObservation)
      → core.context ≡ state
      → queue ≡ xs ++ ys
      → length queue ≤ max_early_shares
      → Kept core state xs ys (retry bitcoin (length xs) core queue)
  unfolding retry handle_observation
  retry_keeps core state [] ys queue c e h = (rw (append-nil ys) e, c, refl)
  retry_keeps core state (x ∷ xs) ys queue c e h =
      let early = xs ++ ys in
      let bound : (length early < max_early_shares) = omega (arith, h, ap length e) in
      let f = resolved_frame core early x (resolve_context core.context x) bound in
      let r = handle_observation bitcoin core early x in
      let more = length-append {_} early (x ∷ []) in
      elim (Bool-cases (waits state x)) [
        | inl w ↦
            let q =
              f.1
              ∙ ap (λ b. if b then early ++ x ∷ [] else early)
                  (subst (λ s. waits s x ≡ true) (sym c) w) in
            let ih =
              retry_keeps r.0 state xs (ys ++ x ∷ []) r.1 (f.0.0 ∙ c)
                (q ∙ append_assoc xs ys (x ∷ [])) (omega (arith, ap length q, more, bound)) in
            rw (e, w)
              (ih.0 ∙ append_assoc ys (x ∷ []) (retain (waits state) xs), ih.1, ih.2 ∙ f.0.1)
        | inr w ↦
            let q =
              f.1
              ∙ ap (λ b. if b then early ++ x ∷ [] else early)
                  (subst (λ s. waits s x ≡ false) (sym c) w) in
            let ih =
              retry_keeps r.0 state xs ys r.1 (f.0.0 ∙ c) q (omega (arith, ap length q, bound)) in
            rw (e, w) (ih.0, ih.1, ih.2 ∙ f.0.1)
      ]

  -- With at most 64 early shares, a retry leaves in the queue those, and in their order, whose
  -- context is still incomplete, it drops none, and it leaves the context as it is.
  pub retry_early-waits :
      (core : Core) (early : List ShareObservation)
      → length early ≤ max_early_shares
      → ((retry_early bitcoin core early).1 ≡ retain (waits core.context) early)
        × ((retry_early bitcoin core early).0.context ≡ core.context)
        × ((retry_early bitcoin core early).0.dropped_observations ≡ core.dropped_observations)
  unfolding retry_early
  retry_early-waits core early h =
      retry_keeps core core.context early [] early refl (sym (append-nil early)) h
