-- ===== src/MergeMining/Bindings/Validity.antt =====
-- src/merge_mining.rs: the invariant of the shared state of merge mining, and that the methods which
-- record, bind, claim and activate keep it.
use demand_cli.Prelude.{
  ℕ, ◌≤◌, ◌<◌, ◌≡◌, inl, inr, refl, Bool, true, Option, none, some, List, [], ◌∷◌, length, contains,
  ◌==◌, arith, Option-cases, Bool-cases, not, length-retain-le,
}
use demand_cli.Prelude.Map.{get, contains_key, remove}
use demand_cli.MergeMining.Types.{
  Core, ContextState, TemplateDraft, JobBinding, ChainState, next_id, max_templates,
  max_job_announcements,
}
use demand_cli.MergeMining.Commitment.{is_rsk_payload}
use demand_cli.MergeMining.Context.{insert_job, announce_job, remove_template_generation}
use demand_cli.MergeMining.Context.Tables.{IsConsistent}
use demand_cli.MergeMining.Context.Invariant.{removal-IsConsistent}
use demand_cli.MergeMining.Context.Removal.{removed-frame}
use demand_cli.MergeMining.Context.Jobs.{insert_job_lem, announce_job-bound}
use demand_cli.MergeMining.Context.Shrinking.{insert_job-keys, removal-Shrinks}
use demand_cli.MergeMining.Bindings.{
  binding_for, create_with_template, create_job_binding, announce_created, bind_job_generation,
  claim_job_binding, drain_through, announce_unbound_job, insert_pending, record_chain_state,
  record_transaction_count, clear_template_session, set_active_job_binding,
  clear_pending_job_binding, discard_template_generation,
}
use demand_cli.MergeMining.Bindings.Effects.{
  announce-IsConsistent, forget_job-IsConsistent, marks-IsConsistent, other_fields-IsConsistent,
  record_transaction_count-IsConsistent, record_chain_state-IsConsistent,
  clear_template_session-IsConsistent, set_active-IsConsistent, clear_pending-IsConsistent,
  record_transaction_count-frame, record_chain_state-frame, set_active-frame,
}

-- Consistent tables within their limits, and identifiers that were not given out before.
pub record IsValid (core : Core) : Type 0 where
  pub consistent : IsConsistent core.context
  pub templates_bounded : length core.context.template_order ≤ max_templates
  pub announcements_bounded : length core.context.job_announcements ≤ max_job_announcements
  pub generations_new :
      (g : ℕ) → contains_key g core.context.templates ≡ true → g < core.next_template_generation
  pub bindings_new : (b : ℕ) → contains_key b core.context.jobs ≡ true → b < core.next_binding_id

-- A call that inserts no key and keeps the counters.
pub same_counters-IsValid :
    (core : Core) (s : ContextState)
    → IsValid core
    → IsConsistent s
    → length s.template_order ≤ max_templates
    → length s.job_announcements ≤ max_job_announcements
    → ((g : ℕ) → contains_key g s.templates ≡ true → contains_key g core.context.templates ≡ true)
    → ((b : ℕ) → contains_key b s.jobs ≡ true → contains_key b core.context.jobs ≡ true)
    → IsValid (record core { context = s })
same_counters-IsValid core s v c bt ba ft fj = record {
  consistent = c;
  templates_bounded = bt;
  announcements_bounded = ba;
  generations_new = λ g e. v.generations_new g (ft g e);
  bindings_new = λ b e. v.bindings_new b (fj b e);
}

-- An identifier is the counter's value, and the counter goes past it.
pub next_id_lem :
    (current id : ℕ) → (next_id current).1 ≡ some id → (id ≡ current) × (id < (next_id current).0)
unfolding next_id
next_id_lem current id e = ground arith

pub next_id_mono : (current : ℕ) → current ≤ (next_id current).0
unfolding next_id
next_id_mono current = ground arith

-- The state after a new binding went in.
bound-IsValid :
    (core : Core) (s : ContextState) (job : JobBinding)
    → IsValid (record core { context = s })
    → (next_id core.next_binding_id).1 ≡ some job.binding_id
    → contains_key job.template_generation s.templates ≡ true
    → IsValid (record core {
      context = insert_job s job;
      next_binding_id = (next_id core.next_binding_id).0;
    })
bound-IsValid core s job v e h =
    let id = next_id_lem core.next_binding_id job.binding_id e in
    let unused : get job.binding_id s.jobs ≡ none =
      elim (Option-cases (get job.binding_id s.jobs)) [
        | inl absent ↦ absent
        | inr (old, there) ↦ absurd (ground (arith, id, there, v.bindings_new job.binding_id))
      ] in
    let q =
      insert_job_lem s job
        (record { consistent = v.consistent; unused = unused; template_kept = h }) in
    record {
      consistent = q.0;
      templates_bounded = ground (arith, q.3, v.templates_bounded);
      announcements_bounded = ground (arith, q.4, v.announcements_bounded);
      generations_new = λ g k. ground (arith, q.2, v.generations_new g);
      bindings_new = λ b k.
          ground (
            arith,
            insert_job-keys s job b,
            id,
            v.bindings_new b,
            next_id_mono core.next_binding_id,
          );
    }

-- An identifier that is not used leaves a gap.
skipped-IsValid :
    (core : Core) (s : ContextState)
    → IsValid (record core { context = s })
    → IsValid (record core { context = s; next_binding_id = (next_id core.next_binding_id).0 })
skipped-IsValid core s v = record {
  consistent = v.consistent;
  templates_bounded = v.templates_bounded;
  announcements_bounded = v.announcements_bounded;
  generations_new = v.generations_new;
  bindings_new = λ b k. ground (arith, v.bindings_new b, next_id_mono core.next_binding_id);
}

create_with_template-IsValid :
    (core : Core) (s : ContextState) (j g : ℕ) (prefix suffix : List ℕ) (draft : TemplateDraft)
    → IsValid (record core { context = s })
    → get g s.templates ≡ some draft
    → IsValid (create_with_template core s j g prefix suffix draft).0
unfolding create_with_template
create_with_template-IsValid core s j g prefix suffix draft v e =
    elim (Bool-cases (is_rsk_payload draft.desired.payload)) [
      | inl rsk ↦ elim (Option-cases (next_id core.next_binding_id).1) [
        | inl exhausted ↦ rw (rsk, exhausted, create_with_template) (skipped-IsValid core s v)
        | inr (id, fresh) ↦
            rw (rsk, fresh, create_with_template)
              (bound-IsValid core s (binding_for id j g prefix suffix draft) v fresh (ground arith))
      ]
      | inr other ↦ rw (other, create_with_template) v
    ]

forgotten-IsValid :
    (core : Core) (job_id : ℕ)
    → IsValid core
    → IsValid (record core {
      context = record core.context { current_jobs = remove job_id core.context.current_jobs };
    })
forgotten-IsValid core job_id v =
    same_counters-IsValid core _ v (forget_job-IsConsistent core.context job_id v.consistent)
      v.templates_bounded v.announcements_bounded (λ g e. e) (λ b e. e)

pub create_job_binding-IsValid :
    (core : Core) (j g : ℕ) (prefix suffix : List ℕ)
    → IsValid core
    → IsValid (create_job_binding core j g prefix suffix).0
unfolding create_job_binding
create_job_binding-IsValid core j g prefix suffix v =
    elim (Option-cases (get g core.context.templates)) [
      | inl e ↦ rw (e, create_job_binding) (forgotten-IsValid core j v)
      | inr (draft, e) ↦
          rw (e, create_job_binding)
            (create_with_template-IsValid core _ j g prefix suffix draft
              (forgotten-IsValid core j v) e)
    ]

announced-IsValid :
    (core : Core) (job_id : ℕ) (binding : Option ℕ)
    → IsValid core
    → IsValid (record core { context = announce_job core.context job_id binding })
announced-IsValid core job_id binding v =
    same_counters-IsValid core (announce_job core.context job_id binding) v
      (announce-IsConsistent core.context job_id binding v.consistent)
      (unfold announce_job in v.templates_bounded)
      (announce_job-bound core.context job_id binding v.announcements_bounded)
      (unfold announce_job in λ g e. e) (unfold announce_job in λ b e. e)

pub announce_created-IsValid :
    (j : ℕ) (r : Core × Option ℕ) → IsValid r.0 → IsValid (announce_created j r).0
unfolding announce_created
announce_created-IsValid j (core, none) v = v
announce_created-IsValid j (core, some b) v = announced-IsValid core j (some b) v

pub bind_job_generation-IsValid :
    (core : Core) (j g : ℕ) (prefix suffix : List ℕ)
    → IsValid core
    → IsValid (bind_job_generation core j g prefix suffix).0
unfolding bind_job_generation
bind_job_generation-IsValid core j g prefix suffix v =
    announce_created-IsValid j (create_job_binding core j g prefix suffix)
      (create_job_binding-IsValid core j g prefix suffix v)

pub announce_unbound-IsValid :
    (core : Core) (job_id : ℕ)
    → IsValid core
    → IsValid (record core { context = announce_unbound_job core.context job_id })
unfolding announce_unbound_job
announce_unbound-IsValid core job_id v =
    announced-IsValid _ job_id none (forgotten-IsValid core job_id v)

drain_through-length :
    (j : ℕ) (xs : List (ℕ × Option ℕ)) (b : Option ℕ) (rest : List (ℕ × Option ℕ))
    → drain_through j xs ≡ some (b, rest)
    → length rest < length xs
unfolding drain_through
drain_through-length j [] b rest e = cc
drain_through-length j ((i, c) ∷ xs) b rest e = ground (arith, drain_through-length j xs b rest)

insert_pending-kept :
    (s : ContextState) (binding : Option ℕ) (x : ℕ)
    → IsConsistent s
    → contains (insert_pending s binding) x ≡ true
    → contains_key x s.jobs ≡ true
unfolding insert_pending
insert_pending-kept s none x c h = c.pending x h
insert_pending-kept s (some b) x c h = ground (arith, c.pending x)

pub claim-IsValid :
    (core : Core) (job_id : ℕ) (mark : Bool)
    → IsValid core
    → IsValid (claim_job_binding core job_id mark).0
unfolding claim_job_binding
claim-IsValid core job_id mark v =
    let s = core.context in
    elim (Option-cases (drain_through job_id s.job_announcements)) [
      | inl e ↦
          rw (e, claim_job_binding)
            (record {
              consistent = v.consistent;
              templates_bounded = v.templates_bounded;
              announcements_bounded = v.announcements_bounded;
              generations_new = v.generations_new;
              bindings_new = v.bindings_new;
            })
      | inr ((binding, rest), e) ↦
          rw (e, claim_job_binding)
            (same_counters-IsValid core _ v
              (marks-IsConsistent _ s.active_binding _ v.consistent.active
                (λ b h.
                  ground
                    (arith, v.consistent.pending b, insert_pending-kept s binding b v.consistent))
                (other_fields-IsConsistent s s.desired s.active_chain rest v.consistent))
              v.templates_bounded
              (omega (
                arith,
                drain_through-length job_id s.job_announcements binding rest e,
                v.announcements_bounded,
              ))
              (λ g h. h) (λ b h. h))
    ]

pub discard-IsValid :
    (core : Core) (g : ℕ)
    → IsValid core
    → IsValid (record core { context = discard_template_generation core.context g })
unfolding discard_template_generation
discard-IsValid core g v =
    let s = core.context in
    let q = removal-Shrinks s s.template_order g in
    same_counters-IsValid core (remove_template_generation s g) v
      (removal-IsConsistent s g s.template_order v.consistent (λ k n. refl))
      (ground (
        arith,
        removed-frame s g 0,
        v.templates_bounded,
        length-retain-le (λ candidate. not (candidate == g)) s.template_order,
      ))
      (ground (arith, q.2, v.announcements_bounded)) (λ k e. ground (arith, q.0 k))
      (λ b e. ground (arith, q.1 b))

pub record_count-IsValid :
    (core : Core) (g n : ℕ)
    → IsValid core
    → IsValid (record core { context = record_transaction_count core.context g n })
record_count-IsValid core g n v =
    let s = core.context in
    let f = record_transaction_count-frame s g n in
    same_counters-IsValid core (record_transaction_count s g n) v
      (record_transaction_count-IsConsistent s g n v.consistent)
      (ground (arith, f 0, v.templates_bounded)) (ground (arith, f 0, v.announcements_bounded))
      (λ k e. ground (arith, f k)) (λ b e. ground (arith, f b))

pub record_chain-IsValid :
    (core : Core) (t : ℕ) (chain : ChainState)
    → IsValid core
    → IsValid (record core { context = record_chain_state core.context t chain })
record_chain-IsValid core t chain v =
    let s = core.context in
    let f = record_chain_state-frame s t chain in
    same_counters-IsValid core (record_chain_state s t chain) v
      (record_chain_state-IsConsistent s t chain v.consistent)
      (ground (arith, f 0, v.templates_bounded)) (ground (arith, f 0, v.announcements_bounded))
      (λ k e. ground (arith, f k)) (λ b e. ground (arith, f b))

pub clear_session-IsValid :
    (core : Core)
    → IsValid core
    → IsValid (record core { context = clear_template_session core.context })
clear_session-IsValid core v =
    same_counters-IsValid core (clear_template_session core.context) v
      (clear_template_session-IsConsistent core.context v.consistent)
      (unfold clear_template_session in v.templates_bounded)
      (unfold clear_template_session in omega arith) (unfold clear_template_session in λ g e. e)
      (unfold clear_template_session in λ b e. e)

pub set_active-IsValid :
    (core : Core) (binding : Option ℕ)
    → IsValid core
    → IsValid (record core { context = set_active_job_binding core.context binding })
set_active-IsValid core binding v =
    let f = set_active-frame core.context binding in
    same_counters-IsValid core (set_active_job_binding core.context binding) v
      (set_active-IsConsistent core.context binding v.consistent)
      (ground (arith, f, v.templates_bounded)) (ground (arith, f, v.announcements_bounded))
      (λ g e. ground (arith, f)) (λ b e. ground (arith, f))

pub clear_pending-IsValid :
    (core : Core) (b : ℕ)
    → IsValid core
    → IsValid (record core { context = clear_pending_job_binding core.context b })
clear_pending-IsValid core b v =
    same_counters-IsValid core (clear_pending_job_binding core.context b) v
      (clear_pending-IsConsistent core.context b v.consistent)
      (unfold clear_pending_job_binding in v.templates_bounded)
      (unfold clear_pending_job_binding in v.announcements_bounded)
      (unfold clear_pending_job_binding in λ g e. e) (unfold clear_pending_job_binding in λ b e. e)
