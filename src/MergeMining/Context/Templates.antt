-- ===== src/MergeMining/Context/Templates.antt =====
-- src/merge_mining.rs, `insert_template`: the table of templates is bounded, and work that a miner
-- may still answer is not evicted.
use demand_cli.Prelude.{
  ℕ, zero, suc, ◌+◌, ◌≤◌, ◌<◌, ◌≡◌, ◌≢◌, ◌⊎◌, inl, refl, Bool, true, false, not, none, some, List,
  [], ◌∷◌, length, retain, any, contains, ◌==◌, is_some_and, arith, length-retain-le, length-append,
}
use demand_cli.Prelude.Map.{HashMap, get, get-insert}
use demand_cli.MergeMining.Types.{ContextState, TemplateDraft, JobBinding, max_templates}
use demand_cli.MergeMining.Context.{
  inserted_template, any_value, of_generation, remove_template_generation, generation_is_protected,
  insert_template, evict_templates, pick_expired, is_unused, is_evictable,
}
use demand_cli.MergeMining.Context.Tables.{
  IsConsistent, contains-append, contains-retain, keys_where_sound,
}
use demand_cli.MergeMining.Context.Removal.{expired_of, removed-frame}
use demand_cli.MergeMining.Context.Invariant.{
  inserted_template-IsConsistent, pick_expired_lem, evict_templates_round,
  evict_templates-IsConsistent, removal-IsConsistent,
}

-- The bindings that the miner works on, or is about to.
abbrev pub IsProtected : ContextState → ℕ → Type 0
IsProtected s b = (s.active_binding ≡ some b) ⊎ (contains s.pending_activation_bindings b ≡ true)

retain-shrinks :
    (xs : List ℕ) (g : ℕ)
    → contains xs g ≡ true
    → length (retain (λ candidate. not (candidate == g)) xs) < length xs
retain-shrinks [] g h = cc
retain-shrinks (x ∷ xs) g h =
    ground (arith, retain-shrinks xs g, length-retain-le (λ candidate. not (candidate == g)) xs)

any_value-of {ℓ} :
    {V : Type ℓ} (p : V → Bool) (m : HashMap V) (k : ℕ) (v : V)
    → get k m ≡ some v
    → p v ≡ true
    → any_value p m ≡ true
unfolding get
any_value-of p [] k v e h = cc
any_value-of p ((j, w) ∷ m) k v e h = ground (arith, any_value-of p m k v)

any-contains :
    (p : ℕ → Bool) (xs : List ℕ) (b : ℕ) → contains xs b ≡ true → p b ≡ true → any p xs ≡ true
any-contains p [] b h e = cc
any-contains p (x ∷ xs) b h e = ground (arith, any-contains p xs b)

-- The generation of a protected binding is never picked for eviction.
protected-not-picked :
    (s : ContextState) (g x b : ℕ) (rest : List ℕ) (job : JobBinding)
    → pick_expired s g ≡ some (x, rest)
    → get b s.jobs ≡ some job
    → IsProtected s b
    → job.template_generation ≢ x
unfolding is_unused is_evictable generation_is_protected
protected-not-picked s g x b rest job e h p = ground (
  arith,
  pick_expired_lem s g x rest 0 e,
  any_value-of (of_generation x) s.jobs b job h,
  any-contains (λ c. is_some_and (get c s.jobs) (of_generation x)) s.pending_activation_bindings b,
)

-- A removed generation takes no binding of another with it.
removal-keeps :
    (s : ContextState) (order : List ℕ) (x b : ℕ) (job : JobBinding)
    → IsConsistent s
    → get b s.jobs ≡ some job
    → IsProtected s b
    → job.template_generation ≢ x
    → let r = remove_template_generation (record s { template_order = order }) x in
      (get b r.jobs ≡ some job) × IsProtected r b
removal-keeps s order x b job c e p n =
    let s' : ContextState = record s { template_order = order } in
    ground (
      arith,
      removed-frame s' x b,
      keys_where_sound (of_generation x) s.jobs b job c.bindings_once e,
      contains-retain (λ y. not (contains (expired_of s x) y)) s.pending_activation_bindings b,
    )

evict_templates-keeps :
    (fuel : ℕ) (s : ContextState) (g b : ℕ) (job : JobBinding)
    → IsConsistent s
    → get b s.jobs ≡ some job
    → IsProtected s b
    → job.template_generation ≢ g
    → let r = (evict_templates fuel s g).0 in (get b r.jobs ≡ some job) × IsProtected r b
evict_templates-keeps zero s g b job c e p n = unfold evict_templates in (e, p)
evict_templates-keeps (suc fuel) s g b job c e p n =
    evict_templates_round (λ r. (get b r.0.jobs ≡ some job) × IsProtected r.0 b) fuel s g
      (λ _. (e, p)) (λ _ _. removal-keeps s s.template_order g b job c e p n)
      (λ x rest _ picked.
        let kept =
          removal-keeps s rest x b job c e p (protected-not-picked s g x b rest job picked e p) in
        evict_templates-keeps fuel _ g b job
          (removal-IsConsistent s x rest c
            (λ k m. ground (arith, pick_expired_lem s g x rest k picked)))
          kept.0 kept.1 n)

-- The outcome for the new template: it is kept and current, or nothing of it is left.
abbrev pub Outcome : ℕ → TemplateDraft → ContextState × Bool → Type 0
Outcome g draft r =
    ((r.1 ≡ true) × (get g r.0.templates ≡ some draft) × (contains r.0.template_order g ≡ true))
    ⊎ ((r.1 ≡ false) × (get g r.0.templates ≡ none) × (contains r.0.template_order g ≡ false))

evict_templates-Outcome :
    (fuel : ℕ) (s : ContextState) (g : ℕ) (draft : TemplateDraft)
    → get g s.templates ≡ some draft
    → contains s.template_order g ≡ true
    → Outcome g draft (evict_templates fuel s g)
evict_templates-Outcome zero s g draft e h = unfold evict_templates in inl (refl, e, h)
evict_templates-Outcome (suc fuel) s g draft e h =
    evict_templates_round (Outcome g draft) fuel s g (λ _. inl (refl, e, h))
      (λ _ _. ground (
        arith,
        removed-frame s g g,
        contains-retain (λ candidate. not (candidate == g)) s.template_order g,
      ))
      (λ x rest _ picked.
        let s' : ContextState = record s { template_order = rest } in
        let q = pick_expired_lem s g x rest g picked in
        evict_templates-Outcome fuel (remove_template_generation s' x) g draft
          (ground (arith, removed-frame s' x g))
          (ground (
            arith,
            removed-frame s' x g,
            contains-retain (λ candidate. not (candidate == x)) rest g,
          )))

-- Enough fuel leaves the queue within its limit.
evict_templates-within :
    (fuel : ℕ) (s : ContextState) (g : ℕ)
    → length s.template_order ≤ max_templates
    → length (evict_templates fuel s g).0.template_order ≤ max_templates
evict_templates-within zero s g m = unfold evict_templates in m
evict_templates-within (suc fuel) s g m =
    evict_templates_round (λ r. length r.0.template_order ≤ max_templates) fuel s g (λ u. u)
      (λ over _. absurd (omega arith)) (λ x rest over _. absurd (omega arith))

evict_templates-bound :
    (fuel : ℕ) (s : ContextState) (g : ℕ)
    → contains s.template_order g ≡ true
    → length s.template_order ≤ max_templates + 1
    → 1 ≤ fuel
    → length (evict_templates fuel s g).0.template_order ≤ max_templates
evict_templates-bound zero s g h m f = absurd (omega arith)
evict_templates-bound (suc fuel) s g h m f =
    evict_templates_round (λ r. length r.0.template_order ≤ max_templates) fuel s g (λ u. u)
      (λ _ _. ground (arith, removed-frame s g g, retain-shrinks s.template_order g))
      (λ x rest _ picked.
        let s' : ContextState = record s { template_order = rest } in
        let q = pick_expired_lem s g x rest g picked in
        evict_templates-within fuel (remove_template_generation s' x) g (
          ground (
            arith,
            removed-frame s' x g,
            length-retain-le (λ candidate. not (candidate == x)) rest,
          )))

-- Within the limits a new generation may be inserted.
pub record CanInsert (s : ContextState) (g : ℕ) : Type 0 where
  pub consistent : IsConsistent s
  pub bounded : length s.template_order ≤ max_templates
  pub fresh : get g s.templates ≡ none

-- `insert_template` keeps the tables consistent and at most 128 generations, and says truly whether
-- the new template was kept: if so it is in the table, otherwise nothing of it is left there.
pub insert_template_lem :
    (s : ContextState) (g : ℕ) (draft : TemplateDraft)
    → CanInsert s g
    → IsConsistent (insert_template s g draft).0
      × (length (insert_template s g draft).0.template_order ≤ max_templates)
      × Outcome g draft (insert_template s g draft)
unfolding insert_template
insert_template_lem s g draft can =
    let s' = inserted_template s g draft in
    let fuel = length s'.template_order in
    let here : contains s'.template_order g ≡ true =
      ground (arith, contains-append s.template_order (g ∷ []) g) in
    (
      evict_templates-IsConsistent fuel s' g
          (inserted_template-IsConsistent s g draft can.consistent can.fresh),
      evict_templates-bound fuel s' g here
          (omega (arith, length-append {0} s.template_order (g ∷ []), can.bounded))
          (omega (arith, length-append {0} s.template_order (g ∷ []))),
      evict_templates-Outcome fuel s' g draft (ground (arith, get-insert g g draft s.templates))
          here,
    )

-- Whatever `insert_template` evicts, the binding that the miner works on and every binding that
-- waits for its activation stay in the table, as they are, and stay protected.
pub insert_template_keeps_IsProtected :
    (s : ContextState) (g b : ℕ) (draft : TemplateDraft) (job : JobBinding)
    → CanInsert s g
    → get b s.jobs ≡ some job
    → IsProtected s b
    → (get b (insert_template s g draft).0.jobs ≡ some job)
      × IsProtected (insert_template s g draft).0 b
unfolding insert_template
insert_template_keeps_IsProtected s g b draft job can e p =
    let s' = inserted_template s g draft in
    evict_templates-keeps (length s'.template_order) s' g b job
      (inserted_template-IsConsistent s g draft can.consistent can.fresh) e p
      (ground (arith, can.consistent.kept b job e, can.fresh))
