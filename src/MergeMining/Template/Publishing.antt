-- ===== src/MergeMining/Template/Publishing.antt =====
-- src/merge_mining.rs, `apply_to_template_with_output_limit`: what a template and the tables are
-- afterwards.
use demand_cli.Prelude.{
  ℕ, ◌+◌, ◌≤◌, ◌≡◌, ◌≢◌, ◌⊎◌, inl, inr, refl, Bool, true, false, Option, none, some, List, ◌++◌,
  arith, Option-cases,
}
use demand_cli.Prelude.Map.{get}
use demand_cli.MergeMining.Types.{Core, TemplateDraft, DesiredPair, next_id}
use demand_cli.MergeMining.Commitment.{is_rsk_payload, raw_rsk_commitment_matches}
use demand_cli.MergeMining.Context.{insert_template, invalidate_current_template}
use demand_cli.MergeMining.Context.Templates.{CanInsert, insert_template_lem}
use demand_cli.MergeMining.Context.Shrinking.{insert_template-keys}
use demand_cli.MergeMining.Bindings.Validity.{IsValid, next_id_lem, next_id_mono}
use demand_cli.MergeMining.Template.{
  NewTemplate, Result, ok, err, Result-cases, register_template, with_outputs, publish, output_tail,
  plan_outputs, prepare_outputs, scan_outputs, apply_prepared, apply_to_template_with_output_limit,
}

can_insert :
    (core : Core) (g : ℕ)
    → IsValid core
    → (next_id core.next_template_generation).1 ≡ some g
    → CanInsert core.context g
can_insert core g v e =
    let id = next_id_lem core.next_template_generation g e in
    record {
      consistent = v.consistent;
      bounded = v.templates_bounded;
      fresh = elim (Option-cases (get g core.context.templates)) [
        | inl absent ↦ absent
        | inr (old, there) ↦ absurd (ground (arith, id, there, v.generations_new g))
      ];
    }

inserted-IsValid :
    (core : Core) (g : ℕ) (draft : TemplateDraft)
    → IsValid core
    → (next_id core.next_template_generation).1 ≡ some g
    → IsValid (record core {
      context = (insert_template core.context g draft).0;
      next_template_generation = (next_id core.next_template_generation).0;
    })
inserted-IsValid core g draft v e =
    let q = insert_template_lem core.context g draft (can_insert core g v e) in
    let id = next_id_lem core.next_template_generation g e in
    record {
      consistent = q.0;
      templates_bounded = q.1;
      announcements_bounded =
          ground (arith, insert_template-keys core.context g draft 0, v.announcements_bounded);
      generations_new = λ k h. ground (
        arith,
        insert_template-keys core.context g draft k,
        id,
        v.generations_new k,
        next_id_mono core.next_template_generation,
      );
      bindings_new =
          λ b h. ground (arith, insert_template-keys core.context g draft b, v.bindings_new b);
    }

pub register_template-IsValid :
    (core : Core) (template : NewTemplate) (desired : DesiredPair)
    → IsValid core
    → IsValid (register_template core template desired).0
unfolding register_template
register_template-IsValid core template desired v =
    elim (Option-cases (next_id core.next_template_generation).1) [
      | inl e ↦
          rw (e, register_template)
            (record {
              consistent = v.consistent;
              templates_bounded = v.templates_bounded;
              announcements_bounded = v.announcements_bounded;
              generations_new = λ g h.
                  ground (arith, v.generations_new g, next_id_mono core.next_template_generation);
              bindings_new = v.bindings_new;
            })
      | inr (g, e) ↦ rw (e, register_template) (inserted-IsValid core g _ v e)
    ]

-- A registration writes no binding and takes no identifier of one.
pub register_template-frame :
    (core : Core) (template : NewTemplate) (desired : DesiredPair) (b : ℕ)
    → let r = (register_template core template desired).0 in
      (r.next_binding_id ≡ core.next_binding_id)
      × ((get b r.context.jobs ≡ none) ⊎ (get b r.context.jobs ≡ get b core.context.jobs))
unfolding register_template
register_template-frame core template desired b =
    elim (Option-cases (next_id core.next_template_generation).1) [
      | inl e ↦ ground (arith, e)
      | inr (g, e) ↦ rw (e, register_template) (refl, (insert_template-keys core.context g _ b).1)
    ]

-- The commitment that RskJ would take from the outputs is the desired one.
abbrev pub IsCommitted : List ℕ → ℕ → DesiredPair → Type 0
IsCommitted outputs locktime desired =
    (is_rsk_payload desired.payload ≡ false)
    ⊎ (raw_rsk_commitment_matches (output_tail outputs locktime) desired ≡ true)

-- What a plan promises of the template that it is written to.
abbrev IsPlan : NewTemplate → DesiredPair → ℕ → ℕ × Option (List ℕ) → Type 0
IsPlan template desired limit plan =
    ((plan.1 ≡ none)
      × (template.coinbase_tx_outputs_count ≤ limit)
      × IsCommitted template.coinbase_tx_outputs template.coinbase_tx_locktime desired)
    ⊎ ((plan.1 ≡ some (template.coinbase_tx_outputs ++ desired.output))
        × (plan.0 ≡ template.coinbase_tx_outputs_count + 1)
        × (plan.0 ≤ limit)
        × IsCommitted (template.coinbase_tx_outputs ++ desired.output) template.coinbase_tx_locktime
            desired)

-- What a published template has of the one that came in.
pub record IsPublished (template : NewTemplate) (desired : DesiredPair) (limit : ℕ)
    (published : NewTemplate) : Type 0 where
  pub template_id : published.template_id ≡ template.template_id
  pub future_template : published.future_template ≡ template.future_template
  pub locktime : published.coinbase_tx_locktime ≡ template.coinbase_tx_locktime
  pub merkle_path : published.merkle_path ≡ template.merkle_path
  pub outputs :
      ((published.coinbase_tx_outputs ≡ template.coinbase_tx_outputs)
        × (published.coinbase_tx_outputs_count ≡ template.coinbase_tx_outputs_count))
      ⊎ ((published.coinbase_tx_outputs ≡ template.coinbase_tx_outputs ++ desired.output)
          × (published.coinbase_tx_outputs_count ≡ template.coinbase_tx_outputs_count + 1))
  pub bounded : published.coinbase_tx_outputs_count ≤ limit
  pub committed : IsCommitted published.coinbase_tx_outputs published.coinbase_tx_locktime desired

with_outputs-IsPublished :
    (template : NewTemplate) (desired : DesiredPair) (limit : ℕ) (plan : ℕ × Option (List ℕ))
    → IsPlan template desired limit plan
    → IsPublished template desired limit (with_outputs template plan)
unfolding with_outputs
with_outputs-IsPublished template desired limit (count, none) (inl (e, h, c)) = record {
  template_id = refl;
  future_template = refl;
  locktime = refl;
  merkle_path = refl;
  outputs = inl (refl, refl);
  bounded = h;
  committed = c;
}
with_outputs-IsPublished template desired limit (count, none) (inr (e, n, h, c)) =
    absurd (ground (arith, e))
with_outputs-IsPublished template desired limit (count, some outputs) (inl (e, h, c)) =
    absurd (ground (arith, e))
with_outputs-IsPublished template desired limit (count, some outputs) (inr (e, n, h, c)) =
    let same : outputs ≡ template.coinbase_tx_outputs ++ desired.output = cc in
    record {
      template_id = refl;
      future_template = refl;
      locktime = refl;
      merkle_path = refl;
      outputs = inr (same, n);
      bounded = h;
      committed = rw (same) c;
    }

publish_cases :
    (template : NewTemplate) (plan : ℕ × Option (List ℕ)) (r : Core × Result Bool)
    → (((publish template plan r).2 ≢ ok true) × ((publish template plan r).1 ≡ template))
      ⊎ (((publish template plan r).2 ≡ ok true)
          × ((publish template plan r).1 ≡ with_outputs template plan))
unfolding publish
publish_cases template plan (core, ok true) = inr (refl, refl)
publish_cases template plan (core, ok false) = inl (λ e. cc, refl)
publish_cases template plan (core, err e) = inl (λ h. cc, refl)

module _ (TxOut : Type 0) (consensus_decode : List ℕ → Option (TxOut × List ℕ))
    (serialize : TxOut → List ℕ) (fits_b064k : List ℕ → Bool) where
  plan_outputs-IsPlan :
      (template : NewTemplate) (desired : DesiredPair) (limit : ℕ) (last : Option ℕ)
      (plan : ℕ × Option (List ℕ))
      → plan_outputs TxOut consensus_decode serialize fits_b064k template desired limit last
        ≡ ok plan
      → IsPlan template desired limit plan
  unfolding plan_outputs with_outputs
  plan_outputs-IsPlan template desired limit last plan e = ground arith

  prepare_outputs-IsPlan :
      (template : NewTemplate) (desired : DesiredPair) (reserved limit : ℕ)
      (plan : ℕ × Option (List ℕ))
      → prepare_outputs TxOut consensus_decode serialize fits_b064k template desired reserved limit
        ≡ ok plan
      → IsPlan template desired limit plan
  unfolding prepare_outputs
  prepare_outputs-IsPlan template desired reserved limit plan e = elim (Result-cases scanned) [
    | inl (failed, s) ↦ ground (arith, s)
    | inr ((cursor, last), s) ↦ elim (Result-cases (planned last)) [
      | inl (failed, q) ↦ ground (arith, s, q)
      | inr (found, q) ↦
          ground (arith, s, q, plan_outputs-IsPlan template desired limit last found q)
    ]
  ]
    where
      scanned : Result (List ℕ × Option ℕ)
      scanned =
          scan_outputs TxOut consensus_decode serialize fits_b064k
            template.coinbase_tx_outputs_count template.coinbase_tx_outputs desired
            template.coinbase_tx_outputs none

      planned : Option ℕ → Result (ℕ × Option (List ℕ))
      planned last =
          plan_outputs TxOut consensus_decode serialize fits_b064k template desired limit last

  -- Unless the call says `Ok(true)` the template is as it was. If it says so, the call found a
  -- desired pair, identifier, future flag, locktime and merkle path are as they were, and either
  -- outputs and count are too, or the pair's output stands behind the old outputs and the count is
  -- one more. The count is within the limit, and for an RSK payload RskJ takes the pair's commitment
  -- from the outputs and the locktime.
  pub template_changes_only_on_success :
      (core : Core) (template : NewTemplate) (ready : Bool) (reserved limit : ℕ)
      → let r =
          apply_to_template_with_output_limit TxOut consensus_decode serialize fits_b064k core
            template ready reserved limit in
        ((r.2 ≢ ok true) × (r.1 ≡ template))
        ⊎ ((r.2 ≡ ok true)
            × (desired : DesiredPair) × (core.context.desired ≡ some desired)
            × IsPublished template desired limit r.1)
  unfolding apply_to_template_with_output_limit
  template_changes_only_on_success core template false reserved limit = inl (λ e. cc, refl)
  template_changes_only_on_success core template true reserved limit =
      elim (Option-cases core.context.desired) [
        | inl e ↦ rw (e, apply_to_template_with_output_limit) (inl (λ h. cc, refl))
        | inr (desired, e) ↦ elim (Result-cases (prepared desired)) [
          | inl (failed, q) ↦
              rw (e, q, apply_to_template_with_output_limit, apply_prepared) (inl (λ h. cc, refl))
          | inr (plan, q) ↦
              elim (publish_cases template plan (register_template invalidated template desired)) [
                | inl (refused, same) ↦
                    rw (e, q, apply_to_template_with_output_limit, apply_prepared)
                      (inl (refused, same))
                | inr (done, written) ↦
                    rw (e, q, apply_to_template_with_output_limit, apply_prepared)
                      (inr (
                        done,
                        desired,
                        refl,
                        rw (written) (
                            with_outputs-IsPublished template desired limit plan
                              (prepare_outputs-IsPlan template desired reserved limit plan q)),
                      ))
              ]
        ]
      ]
    where
      invalidated : Core
      invalidated = record core {
        context = invalidate_current_template core.context template.template_id;
      }

      prepared : DesiredPair → Result (ℕ × Option (List ℕ))
      prepared desired =
          prepare_outputs TxOut consensus_decode serialize fits_b064k template desired reserved
            limit
