-- ===== src/MergeMining/Context/Removal.antt =====
-- src/merge_mining.rs, `remove_template_generation`: what it leaves of the tables.
use demand_cli.Prelude.{
  ℕ, ◌≡◌, refl, not, none, List, [], ◌∷◌, retain, contains, ◌==◌, if◌then◌else◌, is_some_and, arith,
  Option-cases, inl, inr,
}
use demand_cli.Prelude.Map.{HashMap, get, get-remove, IsUnique, remove-IsUnique}
use demand_cli.MergeMining.Types.{ContextState}
use demand_cli.MergeMining.Context.{
  of_generation, keys_where, remove_binding, remove_bindings, drop_template, remove_if_current,
  remove_template_generation,
}
use demand_cli.MergeMining.Context.Tables.{JobsCurrent, TemplatesCurrent, get-remove_if_current}

pub get-remove_binding :
    (s : ContextState) (b k : ℕ)
    → get k (remove_binding s b).jobs ≡ (if b == k then none else get k s.jobs)
unfolding remove_binding
get-remove_binding s b k = ground (arith, get-remove b k s.jobs)

-- The removal of a binding leaves no index entry that points to it.
pub remove_binding-current :
    (s : ContextState) (b : ℕ)
    → JobsCurrent s.current_jobs s.jobs
    → JobsCurrent (remove_binding s b).current_jobs (remove_binding s b).jobs
unfolding remove_binding
remove_binding-current s b c j k = elim (Option-cases (get b s.jobs)) [
  | inl e ↦ ground (arith, c j k)
  | inr (job, e) ↦
      ground (
        arith,
        e,
        c j k,
        get-remove b k s.jobs,
        get-remove_if_current job.job_id b j s.current_jobs,
      )
]

-- Everything else of the state stays.
pub remove_binding-frame :
    (s : ContextState) (b : ℕ)
    → ((remove_binding s b).templates ≡ s.templates)
      × ((remove_binding s b).current_templates ≡ s.current_templates)
      × ((remove_binding s b).template_order ≡ s.template_order)
      × ((remove_binding s b).job_order ≡ s.job_order)
      × ((remove_binding s b).job_announcements ≡ s.job_announcements)
      × ((remove_binding s b).active_binding ≡ s.active_binding)
      × ((remove_binding s b).pending_activation_bindings ≡ s.pending_activation_bindings)
unfolding remove_binding
remove_binding-frame s b = ground arith

pub get-remove_bindings :
    (s : ContextState) (bs : List ℕ) (k : ℕ)
    → get k (remove_bindings s bs).jobs ≡ (if contains bs k then none else get k s.jobs)
unfolding remove_bindings
get-remove_bindings s [] k = refl
get-remove_bindings s (b ∷ bs) k =
    ground (arith, get-remove_binding s b k, get-remove_bindings (remove_binding s b) bs k)

pub remove_bindings-current :
    (s : ContextState) (bs : List ℕ)
    → JobsCurrent s.current_jobs s.jobs
    → JobsCurrent (remove_bindings s bs).current_jobs (remove_bindings s bs).jobs
unfolding remove_bindings
remove_bindings-current s [] c = c
remove_bindings-current s (b ∷ bs) c =
    remove_bindings-current (remove_binding s b) bs (remove_binding-current s b c)

pub remove_bindings-frame :
    (s : ContextState) (bs : List ℕ)
    → ((remove_bindings s bs).templates ≡ s.templates)
      × ((remove_bindings s bs).current_templates ≡ s.current_templates)
      × ((remove_bindings s bs).template_order ≡ s.template_order)
      × ((remove_bindings s bs).job_order ≡ s.job_order)
      × ((remove_bindings s bs).job_announcements ≡ s.job_announcements)
      × ((remove_bindings s bs).active_binding ≡ s.active_binding)
      × ((remove_bindings s bs).pending_activation_bindings ≡ s.pending_activation_bindings)
unfolding remove_bindings
remove_bindings-frame s [] = (refl, refl, refl, refl, refl, refl, refl)
remove_bindings-frame s (b ∷ bs) =
    ground (arith, remove_binding-frame s b, remove_bindings-frame (remove_binding s b) bs)

drop_template-frame :
    (s : ContextState) (g k : ℕ)
    → (get k (drop_template s g).templates ≡ (if g == k then none else get k s.templates))
      × ((drop_template s g).jobs ≡ s.jobs)
      × ((drop_template s g).current_jobs ≡ s.current_jobs)
      × ((drop_template s g).job_order ≡ s.job_order)
      × ((drop_template s g).job_announcements ≡ s.job_announcements)
      × ((drop_template s g).active_binding ≡ s.active_binding)
      × ((drop_template s g).pending_activation_bindings ≡ s.pending_activation_bindings)
      × ((drop_template s g).template_order
          ≡ retain (λ candidate. not (candidate == g)) s.template_order)
unfolding drop_template
drop_template-frame s g k = ground (arith, get-remove g k s.templates)

drop_template-current :
    (s : ContextState) (g : ℕ)
    → TemplatesCurrent s.current_templates s.templates
    → TemplatesCurrent (drop_template s g).current_templates (drop_template s g).templates
unfolding drop_template
drop_template-current s g c t k = elim (Option-cases (get g s.templates)) [
  | inl e ↦ ground (arith, c t k)
  | inr (draft, e) ↦ ground (
    arith,
    e,
    c t k,
    get-remove g k s.templates,
    get-remove_if_current draft.template_id g t s.current_templates,
  )
]

-- The bindings that go with a generation, and what is left when they are gone.
abbrev pub expired_of : ContextState → ℕ → List ℕ
expired_of s g = keys_where (of_generation g) s.jobs

pub removed-frame :
    (s : ContextState) (g k : ℕ)
    → (get k (remove_template_generation s g).templates
        ≡ (if g == k then none else get k s.templates))
      × (get k (remove_template_generation s g).jobs
          ≡ (if contains (expired_of s g) k then none else get k s.jobs))
      × ((remove_template_generation s g).job_announcements ≡ s.job_announcements)
      × ((remove_template_generation s g).template_order
          ≡ retain (λ candidate. not (candidate == g)) s.template_order)
      × ((remove_template_generation s g).active_binding ≡ (
          if is_some_and s.active_binding (contains (expired_of s g))
          then none
          else s.active_binding))
      × ((remove_template_generation s g).job_order
          ≡ retain (λ b. not (contains (expired_of s g) b)) s.job_order)
      × ((remove_template_generation s g).pending_activation_bindings
          ≡ retain (λ b. not (contains (expired_of s g) b)) s.pending_activation_bindings)
unfolding remove_template_generation
removed-frame s g k = ground (
  arith,
  drop_template-frame s g k,
  remove_bindings-frame (drop_template s g) (expired_of s g),
  get-remove_bindings (drop_template s g) (expired_of s g) k,
)

remove_if_current-IsUnique :
    (k v : ℕ) (m : HashMap ℕ) → IsUnique m → IsUnique (remove_if_current k v m)
unfolding remove_if_current
remove_if_current-IsUnique k v m u = ground (arith, remove-IsUnique k m u)

pub remove_binding-IsUnique :
    (s : ContextState) (b : ℕ)
    → IsUnique s.jobs
    → IsUnique s.current_jobs
    → IsUnique (remove_binding s b).jobs × IsUnique (remove_binding s b).current_jobs
unfolding remove_binding
remove_binding-IsUnique s b u v = elim (Option-cases (get b s.jobs)) [
  | inl e ↦ rw (e, remove_binding) (u, v)
  | inr (job, e) ↦
      rw (e, remove_binding)
        (remove-IsUnique b s.jobs u, remove_if_current-IsUnique job.job_id b s.current_jobs v)
]

remove_bindings-IsUnique :
    (s : ContextState) (bs : List ℕ)
    → IsUnique s.jobs
    → IsUnique s.current_jobs
    → IsUnique (remove_bindings s bs).jobs × IsUnique (remove_bindings s bs).current_jobs
unfolding remove_bindings
remove_bindings-IsUnique s [] u v = (u, v)
remove_bindings-IsUnique s (b ∷ bs) u v =
    let w = remove_binding-IsUnique s b u v in
    remove_bindings-IsUnique (remove_binding s b) bs w.0 w.1

pub removed-IsUnique :
    (s : ContextState) (g : ℕ)
    → IsUnique s.jobs
    → IsUnique s.current_jobs
    → IsUnique (remove_template_generation s g).jobs
      × IsUnique (remove_template_generation s g).current_jobs
unfolding remove_template_generation
removed-IsUnique s g u v =
    remove_bindings-IsUnique (drop_template s g) (expired_of s g)
      (ground (arith, drop_template-frame s g 0)) (ground (arith, drop_template-frame s g 0))

pub removed-current :
    (s : ContextState) (g : ℕ)
    → TemplatesCurrent s.current_templates s.templates
    → JobsCurrent s.current_jobs s.jobs
    → TemplatesCurrent
        (remove_template_generation s g).current_templates
        (remove_template_generation s g).templates
      × JobsCurrent
          (remove_template_generation s g).current_jobs
          (remove_template_generation s g).jobs
unfolding remove_template_generation
removed-current s g ct cj = (
  λ t k. ground (
    arith,
    drop_template-current s g ct t k,
    remove_bindings-frame (drop_template s g) (expired_of s g),
  ),
  remove_bindings-current (drop_template s g) (expired_of s g)
      (λ j k. ground (arith, drop_template-frame s g k, cj j k)),
)
