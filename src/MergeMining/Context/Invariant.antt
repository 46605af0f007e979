-- ===== src/MergeMining/Context/Invariant.antt =====
-- src/merge_mining.rs: the free functions on `ContextState` keep its tables consistent.
use demand_cli.Prelude.{
  ℕ, zero, suc, ◌+◌, ◌≤◌, ◌≡◌, ◌≢◌, ◌⊎◌, refl, Bool, true, false, not, ◌||◌, none, some, List, [],
  ◌∷◌, length, contains, ◌==◌, arith, Bool-cases, Option-cases, inl, inr, remove_first, ltb, ltb→lt,
  ◌<◌,
}
use demand_cli.Prelude.Map.{get, get-insert}
use demand_cli.MergeMining.Types.{ContextState, TemplateDraft, max_templates}
use demand_cli.MergeMining.Context.{
  inserted_template, of_generation, remove_template_generation, evict_templates, pick_expired,
  is_unused, is_evictable,
}
use demand_cli.MergeMining.Context.Tables.{
  IsConsistent, contains-append, contains-retain, retain-IsNodup, remove_first_lem,
  keys_where_complete,
}
use demand_cli.MergeMining.Context.Removal.{
  expired_of, removed-frame, removed-current, removed-IsUnique,
}

-- A generation goes with its template, every binding made for it and every mention of those, and
-- nothing points to them afterwards. The queue may have lost the generation already.
pub removal-IsConsistent :
    (s : ContextState) (g : ℕ) (order : List ℕ)
    → IsConsistent s
    → ((k : ℕ) → k ≢ g → contains order k ≡ contains s.template_order k)
    → IsConsistent (remove_template_generation (record s { template_order = order }) g)
removal-IsConsistent s g order c same =
    let s' : ContextState = record s { template_order = order } in
    record {
      kept = λ b job e. ground (
        arith,
        removed-frame s' g b,
        removed-frame s' g job.template_generation,
        keys_where_complete (of_generation g) s.jobs b job,
        c.kept b job,
      );
      current_templates = (removed-current s' g c.current_templates c.current_jobs).0;
      current_jobs = (removed-current s' g c.current_templates c.current_jobs).1;
      template_keys = λ k. ground (
        arith,
        removed-frame s' g k,
        same k,
        c.template_keys k,
        contains-retain (λ candidate. not (candidate == g)) order k,
      );
      job_keys = λ b. ground (
        arith,
        removed-frame s' g b,
        c.job_keys b,
        contains-retain (λ x. not (contains (expired_of s g) x)) s.job_order b,
      );
      bindings_once = (removed-IsUnique s' g c.bindings_once c.current_jobs_once).0;
      current_jobs_once = (removed-IsUnique s' g c.bindings_once c.current_jobs_once).1;
      job_order_once = ground (
        arith,
        removed-frame s' g 0,
        retain-IsNodup (λ x. not (contains (expired_of s g) x)) s.job_order c.job_order_once,
      );
      active = λ b e. ground (arith, removed-frame s' g b, c.active b);
      pending = λ b e. ground (
        arith,
        removed-frame s' g b,
        c.pending b,
        contains-retain (λ x. not (contains (expired_of s g) x)) s.pending_activation_bindings b,
      );
    }

-- The state with the new template in the tables, before anything is evicted.
pub inserted_template-IsConsistent :
    (s : ContextState) (g : ℕ) (draft : TemplateDraft)
    → IsConsistent s
    → get g s.templates ≡ none
    → IsConsistent (inserted_template s g draft)
unfolding inserted_template
inserted_template-IsConsistent s g draft c fresh = record {
  kept = λ b job e.
      ground (arith, c.kept b job, get-insert g job.template_generation draft s.templates);
  current_templates = λ t k. ground (
    arith,
    c.current_templates t k,
    get-insert g k draft s.templates,
    get-insert draft.template_id t g s.current_templates,
  );
  current_jobs = c.current_jobs;
  template_keys = λ k. ground (
    arith,
    c.template_keys k,
    contains-append s.template_order (g ∷ []) k,
    get-insert g k draft s.templates,
  );
  job_keys = c.job_keys;
  bindings_once = c.bindings_once;
  current_jobs_once = c.current_jobs_once;
  job_order_once = c.job_order_once;
  active = c.active;
  pending = c.pending;
}

-- What is picked is another generation, and comes off the queue.
pub pick_expired_lem :
    (s : ContextState) (g x : ℕ) (rest : List ℕ) (a : ℕ)
    → pick_expired s g ≡ some (x, rest)
    → (x ≢ g)
      × ((is_unused s g x ≡ true) ⊎ (is_evictable s g x ≡ true))
      × (length s.template_order ≡ length rest + 1)
      × (contains s.template_order a ≡ ((x == a) || contains rest a))
unfolding pick_expired is_unused is_evictable
pick_expired_lem s g x rest a e =
    elim (Option-cases (remove_first (is_unused s g) s.template_order)) [
      | inl no_unused ↦
          ground (arith, no_unused, remove_first_lem (is_evictable s g) s.template_order x rest a)
      | inr ((y, ys), found) ↦
          ground (arith, found, remove_first_lem (is_unused s g) s.template_order y ys a found)
    ]

-- The three ways in which a round of the loop goes.
pub evict_templates_round :
    (P : ContextState × Bool → Type 0) (fuel : ℕ) (s : ContextState) (g : ℕ)
    → (length s.template_order ≤ max_templates → P (s, true))
    → (max_templates < length s.template_order
        → pick_expired s g ≡ none
        → P (remove_template_generation s g, false))
    → ((x : ℕ) (rest : List ℕ)
        → max_templates < length s.template_order
        → pick_expired s g ≡ some (x, rest)
        → P (
            evict_templates fuel
              (remove_template_generation (record s { template_order = rest }) x)
              g))
    → P (evict_templates (suc fuel) s g)
unfolding evict_templates
evict_templates_round P fuel s g fits fails evicts =
    elim (Bool-cases (ltb max_templates (length s.template_order))) [
      | inl over ↦ elim (Option-cases (pick_expired s g)) [
        | inl e ↦ rw (over, e, evict_templates) (fails (ltb→lt _ _ over) e)
        | inr ((x, rest), e) ↦ rw (over, e, evict_templates) (evicts x rest (ltb→lt _ _ over) e)
      ]
      | inr under ↦ rw (under, evict_templates) (fits (ground arith))
    ]

pub evict_templates-IsConsistent :
    (fuel : ℕ) (s : ContextState) (g : ℕ)
    → IsConsistent s
    → IsConsistent (evict_templates fuel s g).0
evict_templates-IsConsistent zero s g c = unfold evict_templates in c
evict_templates-IsConsistent (suc fuel) s g c =
    evict_templates_round (λ r. IsConsistent r.0) fuel s g (λ _. c)
      (λ _ _. removal-IsConsistent s g s.template_order c (λ k n. refl))
      (λ x rest _ e.
        evict_templates-IsConsistent fuel _ g (
          removal-IsConsistent s x rest c (λ k n. ground (arith, pick_expired_lem s g x rest k e))))
