-- ===== src/MergeMining/Bindings/Effects.antt =====
-- src/merge_mining.rs: the methods that record, claim and activate keep the tables consistent.
use demand_cli.Prelude.{
  ℕ, ◌≡◌, inl, inr, refl, Bool, true, not, Option, none, some, List, [], ◌∷◌, map, contains, retain,
  ◌==◌, if◌then◌else◌, is_some_and, arith, Option-cases,
}
use demand_cli.Prelude.Map.{
  HashMap, get, remove, contains_key, get-insert, get-remove, IsUnique, remove-IsUnique,
}
use demand_cli.MergeMining.Types.{ContextState, TemplateDraft, JobBinding, ChainState, DesiredPair}
use demand_cli.MergeMining.Context.{announce_job, invalidate_current_template}
use demand_cli.MergeMining.Context.Tables.{IsConsistent, contains-retain}
use demand_cli.MergeMining.Bindings.{
  update_value, set_count, block_count, bind_chain, record_transaction_count, record_chain_state,
  clear_template_session, clear_pending_job_binding, set_active_job_binding, retained_binding,
}

abbrev pub mapped {ℓ κ} : {A : Type ℓ} {B : Type κ} → (A → B) → Option A → Option B
mapped f none = none
mapped f (some a) = some (f a)

get-update_value {ℓ} :
    {V : Type ℓ} (k j : ℕ) (f : V → V) (m : HashMap V)
    → get j (update_value k f m) ≡ (if k == j then mapped f (get j m) else get j m)
unfolding update_value
get-update_value k j f m = elim (Option-cases (get k m)) [
  | inl e ↦ ground (arith, e)
  | inr (v, e) ↦ ground (arith, e, get-insert k j (f v) m)
]

pub get-map {ℓ} :
    {V : Type ℓ} (f : V → V) (m : HashMap V) (k : ℕ)
    → get k (map (λ entry. (entry.0, f entry.1)) m) ≡ mapped f (get k m)
unfolding get
get-map f [] k = refl
get-map f ((j, v) ∷ m) k = ground (arith, get-map f m k)

map-IsUnique {ℓ} :
    {V : Type ℓ} (f : V → V) (m : HashMap V)
    → IsUnique m
    → IsUnique (map (λ entry. (entry.0, f entry.1)) m)
map-IsUnique f [] u = tt
map-IsUnique f ((j, v) ∷ m) u = ground (arith, get-map f m j, map-IsUnique f m u.1)

set_count-id :
    (count : Option ℕ) (d : TemplateDraft) → (set_count count d).template_id ≡ d.template_id
unfolding set_count
set_count-id count d = ground arith

bind_chain-ids :
    (g : ℕ) (chain : ChainState) (job : JobBinding)
    → ((bind_chain g chain job).binding_id ≡ job.binding_id)
      × ((bind_chain g chain job).job_id ≡ job.job_id)
      × ((bind_chain g chain job).template_generation ≡ job.template_generation)
unfolding bind_chain
bind_chain-ids g chain job = ground arith

-- A change of the drafts that keeps their identifiers.
templates-IsConsistent :
    (s : ContextState) (k : ℕ) (f : TemplateDraft → TemplateDraft)
    → ((draft : TemplateDraft) → (f draft).template_id ≡ draft.template_id)
    → IsConsistent s
    → IsConsistent (record s { templates = update_value k f s.templates })
templates-IsConsistent s k f same c = record {
  kept = λ b job e.
      ground (arith, c.kept b job, get-update_value k job.template_generation f s.templates);
  current_templates = λ t g e. elim (Option-cases (get g s.templates)) [
    | inl missing ↦ ground (arith, missing, c.current_templates t g)
    | inr (draft, found) ↦
        ground
          (arith, found, c.current_templates t g, same draft, get-update_value k g f s.templates)
  ];
  current_jobs = c.current_jobs;
  template_keys = λ g. ground (arith, c.template_keys g, get-update_value k g f s.templates);
  job_keys = c.job_keys;
  bindings_once = c.bindings_once;
  current_jobs_once = c.current_jobs_once;
  job_order_once = c.job_order_once;
  active = c.active;
  pending = c.pending;
}

-- A change of the bindings that keeps their identifiers.
jobs-IsConsistent :
    (s : ContextState) (f : JobBinding → JobBinding)
    → ((job : JobBinding)
        → ((f job).binding_id ≡ job.binding_id)
          × ((f job).job_id ≡ job.job_id)
          × ((f job).template_generation ≡ job.template_generation))
    → IsConsistent s
    → IsConsistent (record s { jobs = map (λ entry. (entry.0, f entry.1)) s.jobs })
jobs-IsConsistent s f same c = record {
  kept = λ b job e. elim (Option-cases (get b s.jobs)) [
    | inl missing ↦ ground (arith, missing, get-map f s.jobs b)
    | inr (old, found) ↦ ground (arith, found, get-map f s.jobs b, same old, c.kept b old)
  ];
  current_templates = c.current_templates;
  current_jobs = λ j b e. elim (Option-cases (get b s.jobs)) [
    | inl missing ↦ ground (arith, missing, c.current_jobs j b)
    | inr (old, found) ↦ ground (arith, found, get-map f s.jobs b, same old, c.current_jobs j b)
  ];
  template_keys = c.template_keys;
  job_keys = λ b. ground (arith, c.job_keys b, get-map f s.jobs b);
  bindings_once = map-IsUnique f s.jobs c.bindings_once;
  current_jobs_once = c.current_jobs_once;
  job_order_once = c.job_order_once;
  active = λ b e. ground (arith, c.active b, get-map f s.jobs b);
  pending = λ b e. ground (arith, c.pending b, get-map f s.jobs b);
}

-- The fields that no table depends on.
pub other_fields-IsConsistent :
    (s : ContextState) (desired : Option DesiredPair) (chain : Option ChainState)
    (announcements : List (ℕ × Option ℕ))
    → IsConsistent s
    → IsConsistent
        (record s { desired = desired; active_chain = chain; job_announcements = announcements })
other_fields-IsConsistent s desired chain announcements c = record {
  kept = c.kept;
  current_templates = c.current_templates;
  current_jobs = c.current_jobs;
  template_keys = c.template_keys;
  job_keys = c.job_keys;
  bindings_once = c.bindings_once;
  current_jobs_once = c.current_jobs_once;
  job_order_once = c.job_order_once;
  active = c.active;
  pending = c.pending;
}

-- The indexes of the current templates and jobs may lose entries.
pub indexes-IsConsistent :
    (s : ContextState) (templates jobs : HashMap ℕ)
    → ((t g : ℕ) → get t templates ≡ some g → get t s.current_templates ≡ some g)
    → ((j b : ℕ) → get j jobs ≡ some b → get j s.current_jobs ≡ some b)
    → IsUnique jobs
    → IsConsistent s
    → IsConsistent (record s { current_templates = templates; current_jobs = jobs })
indexes-IsConsistent s templates jobs ft fj u c = record {
  kept = c.kept;
  current_templates = λ t g e. c.current_templates t g (ft t g e);
  current_jobs = λ j b e. c.current_jobs j b (fj j b e);
  template_keys = c.template_keys;
  job_keys = c.job_keys;
  bindings_once = c.bindings_once;
  current_jobs_once = u;
  job_order_once = c.job_order_once;
  active = c.active;
  pending = c.pending;
}

-- The bindings that are active or wait may be any that are kept.
pub marks-IsConsistent :
    (s : ContextState) (active : Option ℕ) (pending : List ℕ)
    → ((b : ℕ) → active ≡ some b → contains_key b s.jobs ≡ true)
    → ((b : ℕ) → contains pending b ≡ true → contains_key b s.jobs ≡ true)
    → IsConsistent s
    → IsConsistent (record s { active_binding = active; pending_activation_bindings = pending })
marks-IsConsistent s active pending fa fp c = record {
  kept = c.kept;
  current_templates = c.current_templates;
  current_jobs = c.current_jobs;
  template_keys = c.template_keys;
  job_keys = c.job_keys;
  bindings_once = c.bindings_once;
  current_jobs_once = c.current_jobs_once;
  job_order_once = c.job_order_once;
  active = fa;
  pending = fp;
}

pub record_transaction_count-IsConsistent :
    (s : ContextState) (g n : ℕ) → IsConsistent s → IsConsistent (record_transaction_count s g n)
unfolding record_transaction_count
record_transaction_count-IsConsistent s g n c = elim (Option-cases (block_count n)) [
  | inl e ↦ rw (record_transaction_count, e) c
  | inr (count, e) ↦
      rw (record_transaction_count, e)
        (templates-IsConsistent s g (set_count (some count)) (set_count-id (some count)) c)
]

pub record_chain_state-IsConsistent :
    (s : ContextState) (t : ℕ) (chain : ChainState)
    → IsConsistent s
    → IsConsistent (record_chain_state s t chain)
unfolding record_chain_state
record_chain_state-IsConsistent s t chain c =
    let c' = other_fields-IsConsistent s s.desired (some chain) s.job_announcements c in
    elim (Option-cases (get t s.current_templates)) [
      | inl e ↦ rw (record_chain_state, e) c'
      | inr (g, e) ↦
          rw (record_chain_state, e)
            (jobs-IsConsistent _ (bind_chain g chain) (bind_chain-ids g chain)
              (templates-IsConsistent _ g (λ d. record d { chain = some chain }) (λ d. refl) c'))
    ]

pub clear_template_session-IsConsistent :
    (s : ContextState) → IsConsistent s → IsConsistent (clear_template_session s)
unfolding clear_template_session get
clear_template_session-IsConsistent s c = record {
  kept = c.kept;
  current_templates = λ t g e. cc;
  current_jobs = λ j b e. cc;
  template_keys = c.template_keys;
  job_keys = c.job_keys;
  bindings_once = c.bindings_once;
  current_jobs_once = tt;
  job_order_once = c.job_order_once;
  active = c.active;
  pending = λ b e. cc;
}

get-retain-if :
    (p : ℕ × ℕ → Bool) (m : HashMap ℕ) (j b : ℕ)
    → IsUnique m
    → get j (retain p m) ≡ some b
    → get j m ≡ some b
unfolding get
get-retain-if p [] j b u e = e
get-retain-if p ((i, v) ∷ m) j b u e = ground (arith, get-retain-if p m j b u.1)

pub set_active-IsConsistent :
    (s : ContextState) (binding : Option ℕ)
    → IsConsistent s
    → IsConsistent (set_active_job_binding s binding)
unfolding set_active_job_binding
set_active-IsConsistent s none c =
    marks-IsConsistent s none s.pending_activation_bindings (λ b e. cc) c.pending c
set_active-IsConsistent s (some b) c =
    marks-IsConsistent s (retained_binding s (some b))
      (retain (λ x. not (x == b)) s.pending_activation_bindings) (λ x e. ground arith)
      (λ x e.
        ground
          (arith, c.pending x, contains-retain (λ y. not (y == b)) s.pending_activation_bindings x))
      c

pub clear_pending-IsConsistent :
    (s : ContextState) (b : ℕ) → IsConsistent s → IsConsistent (clear_pending_job_binding s b)
unfolding clear_pending_job_binding
clear_pending-IsConsistent s b c =
    marks-IsConsistent s s.active_binding (retain (λ x. not (x == b)) s.pending_activation_bindings)
      c.active
      (λ x e.
        ground
          (arith, c.pending x, contains-retain (λ y. not (y == b)) s.pending_activation_bindings x))
      c

retain-none :
    (p : ℕ × ℕ → Bool) (m : HashMap ℕ) (k : ℕ)
    → IsUnique m
    → get k m ≡ none
    → get k (retain p m) ≡ none
unfolding get
retain-none p [] k u e = refl
retain-none p ((i, v) ∷ m) k u e = ground (arith, retain-none p m k u.1)

retain-IsUnique : (p : ℕ × ℕ → Bool) (m : HashMap ℕ) → IsUnique m → IsUnique (retain p m)
retain-IsUnique p [] u = tt
retain-IsUnique p ((i, v) ∷ m) u = ground (arith, retain-none p m i u.1, retain-IsUnique p m u.1)

pub invalidate-IsConsistent :
    (s : ContextState) (t : ℕ) → IsConsistent s → IsConsistent (invalidate_current_template s t)
unfolding invalidate_current_template
invalidate-IsConsistent s t c =
    let p =
      λ (entry : ℕ × ℕ). is_some_and (get entry.1 s.jobs) (λ job. not (job.template_id == t)) in
    indexes-IsConsistent s (remove t s.current_templates) (retain p s.current_jobs)
      (λ u g e. ground (arith, get-remove t u s.current_templates))
      (λ j b e. get-retain-if p s.current_jobs j b c.current_jobs_once e)
      (retain-IsUnique p s.current_jobs c.current_jobs_once) c

pub announce-IsConsistent :
    (s : ContextState) (job_id : ℕ) (binding : Option ℕ)
    → IsConsistent s
    → IsConsistent (announce_job s job_id binding)
unfolding announce_job
announce-IsConsistent s job_id binding c = other_fields-IsConsistent s s.desired s.active_chain _ c

pub forget_job-IsConsistent :
    (s : ContextState) (job_id : ℕ)
    → IsConsistent s
    → IsConsistent (record s { current_jobs = remove job_id s.current_jobs })
forget_job-IsConsistent s job_id c =
    indexes-IsConsistent s s.current_templates (remove job_id s.current_jobs) (λ t g e. e)
      (λ j b e. ground (arith, get-remove job_id j s.current_jobs))
      (remove-IsUnique job_id s.current_jobs c.current_jobs_once) c

-- What the records of counts, of chain states and of the active binding leave as it was.
abbrev pub SameKeys : ContextState → ContextState → ℕ → Type 0
SameKeys s r k =
    (contains_key k r.templates ≡ contains_key k s.templates)
    × (contains_key k r.jobs ≡ contains_key k s.jobs)
    × (r.template_order ≡ s.template_order)
    × (r.job_announcements ≡ s.job_announcements)

pub record_transaction_count-frame :
    (s : ContextState) (g n k : ℕ) → SameKeys s (record_transaction_count s g n) k
unfolding record_transaction_count
record_transaction_count-frame s g n k = elim (Option-cases (block_count n)) [
  | inl e ↦ ground (arith, e)
  | inr (count, e) ↦ ground (arith, e, get-update_value g k (set_count (some count)) s.templates)
]

pub record_chain_state-frame :
    (s : ContextState) (t : ℕ) (chain : ChainState) (k : ℕ)
    → SameKeys s (record_chain_state s t chain) k
unfolding record_chain_state
record_chain_state-frame s t chain k = elim (Option-cases (get t s.current_templates)) [
  | inl e ↦ ground (arith, e)
  | inr (g, e) ↦ ground (
    arith,
    e,
    get-map (bind_chain g chain) s.jobs k,
    get-update_value g k (λ d. record d { chain = some chain }) s.templates,
  )
]

pub set_active-frame :
    (s : ContextState) (binding : Option ℕ)
    → ((set_active_job_binding s binding).templates ≡ s.templates)
      × ((set_active_job_binding s binding).jobs ≡ s.jobs)
      × ((set_active_job_binding s binding).template_order ≡ s.template_order)
      × ((set_active_job_binding s binding).job_announcements ≡ s.job_announcements)
unfolding set_active_job_binding clear_pending_job_binding
set_active-frame s none = ground arith
set_active-frame s (some b) = ground arith
