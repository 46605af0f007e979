-- ===== src/MergeMining/Context/Tables.antt =====
-- src/merge_mining.rs: the well-formedness of `ContextState`, and the laws of the lists and tables
-- under removal that its preservation needs.
use demand_cli.Prelude.{
  ℕ, ◌≡◌, refl, Bool, true, false, ◌&&◌, ◌||◌, none, some, List, [], ◌∷◌, ◌++◌, length, retain,
  remove_first, contains, ◌==◌, if◌then◌else◌, is_some_and, arith, ◌+◌, Option-cases, inl, inr,
}
use demand_cli.Prelude.Map.{HashMap, get, contains_key, get-remove, IsUnique}
use demand_cli.MergeMining.Types.{ContextState, TemplateDraft, JobBinding}
use demand_cli.MergeMining.Context.{keys_where, remove_if_current}

-- No entry stands twice.
abbrev pub IsNodup : List ℕ → Type 0
IsNodup [] = Unit {0}
IsNodup (x ∷ xs) = (contains xs x ≡ false) × IsNodup xs

-- Every binding belongs to a template generation that is still kept, under its own key.
abbrev pub BindingsKept : HashMap JobBinding → HashMap TemplateDraft → Type 0
BindingsKept jobs templates =
    (b : ℕ) (job : JobBinding)
    → get b jobs ≡ some job
    → (contains_key job.template_generation templates ≡ true) × (job.binding_id ≡ b)

abbrev pub TemplatesCurrent : HashMap ℕ → HashMap TemplateDraft → Type 0
TemplatesCurrent current templates =
    (t g : ℕ)
    → get t current ≡ some g
    → is_some_and (get g templates) (λ draft. draft.template_id == t) ≡ true

abbrev pub JobsCurrent : HashMap ℕ → HashMap JobBinding → Type 0
JobsCurrent current jobs =
    (j b : ℕ) → get j current ≡ some b → is_some_and (get b jobs) (λ job. job.job_id == j) ≡ true

-- The list holds the keys of the map.
abbrev pub HoldsKeys {ℓ} : {V : Type ℓ} → List ℕ → HashMap V → Type 0
HoldsKeys order m = (k : ℕ) → contains order k ≡ contains_key k m

-- The listed bindings are kept.
abbrev pub AreKept : List ℕ → HashMap JobBinding → Type 0
AreKept bs jobs = (b : ℕ) → contains bs b ≡ true → contains_key b jobs ≡ true

-- The tables agree with one another, and no binding outlives its template.
pub record IsConsistent (s : ContextState) : Type 0 where
  pub kept : BindingsKept s.jobs s.templates
  pub current_templates : TemplatesCurrent s.current_templates s.templates
  pub current_jobs : JobsCurrent s.current_jobs s.jobs
  pub template_keys : HoldsKeys s.template_order s.templates
  pub job_keys : HoldsKeys s.job_order s.jobs
  pub bindings_once : IsUnique s.jobs
  pub current_jobs_once : IsUnique s.current_jobs
  pub job_order_once : IsNodup s.job_order
  pub active : (b : ℕ) → s.active_binding ≡ some b → contains_key b s.jobs ≡ true
  pub pending : AreKept s.pending_activation_bindings s.jobs

pub contains-append :
    (xs ys : List ℕ) (a : ℕ) → contains (xs ++ ys) a ≡ (contains xs a || contains ys a)
contains-append [] ys a = refl
contains-append (x ∷ xs) ys a = ground (arith, contains-append xs ys a)

pub contains-retain :
    (p : ℕ → Bool) (xs : List ℕ) (a : ℕ) → contains (retain p xs) a ≡ (contains xs a && p a)
contains-retain p [] a = refl
contains-retain p (x ∷ xs) a = ground (arith, contains-retain p xs a)

pub retain-IsNodup : (p : ℕ → Bool) (xs : List ℕ) → IsNodup xs → IsNodup (retain p xs)
retain-IsNodup p [] n = tt
retain-IsNodup p (x ∷ xs) n = ground (arith, contains-retain p xs x, retain-IsNodup p xs n.1)

pub append-IsNodup :
    (xs : List ℕ) (a : ℕ) → IsNodup xs → contains xs a ≡ false → IsNodup (xs ++ a ∷ [])
append-IsNodup [] a n h = (refl, tt)
append-IsNodup (x ∷ xs) a n h =
    ground (arith, contains-append xs (a ∷ []) x, append-IsNodup xs a n.1)

-- What `position` and `remove` take out of a list.
pub remove_first_lem :
    (p : ℕ → Bool) (xs : List ℕ) (x : ℕ) (rest : List ℕ) (a : ℕ)
    → remove_first p xs ≡ some (x, rest)
    → (p x ≡ true) × (length xs ≡ length rest + 1) × (contains xs a ≡ ((x == a) || contains rest a))
remove_first_lem p [] x rest a e = cc
remove_first_lem p (y ∷ ys) x rest a e = elim (Option-cases (remove_first p ys)) [
  | inl missing ↦ ground arith
  | inr ((z, zs), found) ↦ ground (arith, remove_first_lem p ys z zs a found)
]

pub remove_first-IsNodup :
    (p : ℕ → Bool) (xs : List ℕ) (x : ℕ) (rest : List ℕ)
    → remove_first p xs ≡ some (x, rest)
    → IsNodup xs
    → (contains rest x ≡ false) × IsNodup rest
remove_first-IsNodup p [] x rest e n = cc
remove_first-IsNodup p (y ∷ ys) x rest e n = elim (Option-cases (remove_first p ys)) [
  | inl missing ↦ ground arith
  | inr ((z, zs), found) ↦ ground (
    arith,
    remove_first_lem p ys z zs y found,
    remove_first_lem p ys z zs z found,
    remove_first-IsNodup p ys z zs found n.1,
  )
]

-- Every key that `keys_where` lists has, where keys are unique, a value that passes; a value that
-- passes is listed.
pub keys_where_complete {ℓ} :
    {V : Type ℓ} (p : V → Bool) (m : HashMap V) (k : ℕ) (v : V)
    → get k m ≡ some v
    → p v ≡ true
    → contains (keys_where p m) k ≡ true
unfolding get
keys_where_complete p [] k v e h = cc
keys_where_complete p ((j, w) ∷ m) k v e h = ground (arith, keys_where_complete p m k v)

pub keys_where-kept {ℓ} :
    {V : Type ℓ} (p : V → Bool) (m : HashMap V) (k : ℕ)
    → contains (keys_where p m) k ≡ true
    → contains_key k m ≡ true
unfolding get
keys_where-kept p [] k h = cc
keys_where-kept p ((j, w) ∷ m) k h = ground (arith, keys_where-kept p m k)

-- With unique keys a value that fails is not listed.
pub keys_where_sound {ℓ} :
    {V : Type ℓ} (p : V → Bool) (m : HashMap V) (k : ℕ) (v : V)
    → IsUnique m
    → get k m ≡ some v
    → p v ≡ false
    → contains (keys_where p m) k ≡ false
unfolding get
keys_where_sound p [] k v u e h = refl
keys_where_sound p ((j, w) ∷ m) k v u e h =
    ground (arith, keys_where_sound p m k v u.1, keys_where-kept p m k)

pub get-remove_if_current :
    (k v j : ℕ) (m : HashMap ℕ)
    → get j (remove_if_current k v m)
      ≡ (if (k == j) && is_some_and (get k m) (λ w. w == v) then none else get j m)
unfolding remove_if_current
get-remove_if_current k v j m = ground (arith, get-remove k j m)
