-- ===== src/MergeMining/Template.antt =====
-- src/merge_mining.rs, `apply_to_template_with_output_limit`: the OP_RETURN output of the desired
-- pair is added to a template, or nothing of the template changes. The codec of transaction outputs
-- (`TxOut::consensus_decode` with `serialize`) and the limit of the SV2 field B064K belong to other
-- crates and are parameters.
pub mod Publishing
use demand_cli.Prelude.{
  ℕ, zero, suc, ◌+◌, ◌-◌, ◌/◌, ◌%◌, ◌^◌, Bool, true, false, not, ◌&&◌, ◌||◌, Option, none, some,
  List, [], ◌∷◌, ◌++◌, length, bytes_eq, starts_with, ltb, leb, ◌==◌, if◌then◌else◌, option_eq, ◌≡◌,
  ◌⊎◌, inl, inr, refl,
}
use demand_cli.MergeMining.Types.{
  Core, ContextState, TemplateDraft, DesiredPair, MergeMiningError, empty_payload, output_too_large,
  invalid_template_outputs, invalid_rsk_commitment, too_many_template_outputs,
  template_outputs_too_large, state_unavailable, next_id,
}
use demand_cli.MergeMining.Commitment.{
  rsk_tag, is_rsk_payload, last_raw_tag_position, raw_rsk_commitment_matches,
}
use demand_cli.MergeMining.Context.{insert_template, invalidate_current_template}

-- The fields of `NewTemplate` that the code reads or writes.
pub record NewTemplate : Type 0 where
  pub template_id : ℕ
  pub future_template : Bool
  pub coinbase_tx_outputs_count : ℕ
  pub coinbase_tx_outputs : List ℕ
  pub coinbase_tx_locktime : ℕ
  pub merkle_path : List (List ℕ)

pub data Result {ℓ} (T : Type ℓ) : Type ℓ where
  err : MergeMiningError → Result T
  ok : T → Result T

infixl 5 ◌>>=◌ ◌>>◌
abbrev pub ◌>>=◌ {ℓ κ} : {T : Type ℓ} {U : Type κ} → Result T → (T → Result U) → Result U
err failure >>= next = err failure
ok value >>= next = next value

abbrev pub ◌>>◌ {ℓ} : {U : Type ℓ} → Result (Unit {0}) → Result U → Result U
err failure >> next = err failure
ok tt >> next = next

pub Result-cases {ℓ} :
    {A : Type ℓ} (r : Result A) → ((e : MergeMiningError) × (r ≡ err e)) ⊎ ((a : A) × (r ≡ ok a))
Result-cases (ok a) = inr (a, refl)
Result-cases (err e) = inl (e, refl)

-- `MAX_SINGLE_BYTE_COINBASE_OUTPUTS`.
abbrev pub max_single_byte_coinbase_outputs : ℕ
max_single_byte_coinbase_outputs = 252

abbrev pub refuse_if : Bool → MergeMiningError → Result (Unit {0})
refuse_if true e = err e
refuse_if false e = ok tt

-- `coinbase_tx_locktime.to_le_bytes()`.
abbrev pub to_le_bytes : ℕ → List ℕ
to_le_bytes n = n % 256 ∷ n / 2 ^ 8 % 256 ∷ n / 2 ^ 16 % 256 ∷ n / 2 ^ 24 % 256 ∷ []

-- `windows(n).position(|window| window == tag)`: the first offset.
unfoldable pub after_here : Bool → Option ℕ → Option ℕ
after_here true later = some 0
after_here false none = none
after_here false (some i) = some (suc i)

unfoldable pub first_position : List ℕ → List ℕ → Option ℕ
unfolding after_here
first_position tag [] = none
first_position tag (b ∷ bytes) = after_here (starts_with (b ∷ bytes) tag) (first_position tag bytes)

abbrev pub plus : ℕ → Option ℕ → Option ℕ
plus n none = none
plus n (some i) = some (n + i)

abbrev pub any_not_hash : List (List ℕ) → Bool
any_not_hash [] = false
any_not_hash (sibling ∷ path) = not (length sibling == 32) || any_not_hash path

-- The output tail in which RskJ looks for its tag: the outputs and the locktime behind them.
abbrev pub output_tail : List ℕ → ℕ → List ℕ
output_tail outputs locktime = outputs ++ to_le_bytes locktime

-- The last step: the template gets its generation and its place in the tables.
unfoldable pub register_template : Core → NewTemplate → DesiredPair → Core × Result Bool
register_template core template desired =
    let (next, id) = next_id core.next_template_generation in
    elim id [
      | none ↦ (record core { next_template_generation = next }, err state_unavailable)
      | some generation ↦
          let (context, inserted) = insert_template core.context generation (record {
            template_id = template.template_id;
            desired = desired;
            merkle_path = template.merkle_path;
            block_tx_count = none;
            chain = if template.future_template then none else core.context.active_chain;
          }) in
          (record core { next_template_generation = next; context = context }, ok inserted)
    ]

-- The template with the planned outputs.
unfoldable pub with_outputs : NewTemplate → ℕ × Option (List ℕ) → NewTemplate
with_outputs template (count, none) = template
with_outputs template (count, some outputs) = record template {
  coinbase_tx_outputs = outputs;
  coinbase_tx_outputs_count = count;
}

unfoldable pub publish :
    NewTemplate → ℕ × Option (List ℕ) → Core × Result Bool → Core × NewTemplate × Result Bool
unfolding with_outputs
publish template plan (core, ok true) = (core, with_outputs template plan, ok true)
publish template plan (core, ok false) = (core, template, ok false)
publish template plan (core, err e) = (core, template, err e)

-- An RSK payload must be the last raw tag of the tail, where the appended output puts it.
unfoldable pub is_bad_commitment : List ℕ → NewTemplate → DesiredPair → Bool
is_bad_commitment outputs template desired =
    let tail = output_tail outputs template.coinbase_tx_locktime in
    is_rsk_payload desired.payload
    && (not (raw_rsk_commitment_matches tail desired)
        || not (
            option_eq (last_raw_tag_position tail)
              (plus (length template.coinbase_tx_outputs) (first_position rsk_tag desired.output))))

unfoldable pub is_already_last : NewTemplate → DesiredPair → Option ℕ → Bool
is_already_last template desired last =
    let tail = output_tail template.coinbase_tx_outputs template.coinbase_tx_locktime in
    is_rsk_payload desired.payload
    && raw_rsk_commitment_matches tail desired
    && option_eq (last_raw_tag_position tail) last

-- The desired output is the last one that RskJ would take.
unfoldable pub keep_outputs : NewTemplate → ℕ → Result (ℕ × Option (List ℕ))
keep_outputs template max_outputs = do
  refuse_if (ltb max_outputs template.coinbase_tx_outputs_count) too_many_template_outputs
  ok (template.coinbase_tx_outputs_count, none)

unfoldable pub apply_prepared :
    Core
    → NewTemplate
    → DesiredPair
    → Result (ℕ × Option (List ℕ))
    → Core × NewTemplate × Result Bool
unfolding publish register_template
apply_prepared core template desired (err e) = (core, template, err e)
apply_prepared core template desired (ok plan) =
    publish template plan (register_template core template desired)

module _ (TxOut : Type 0) (consensus_decode : List ℕ → Option (TxOut × List ℕ))
    (serialize : TxOut → List ℕ) (fits_b064k : List ℕ → Bool) where
  -- The loop over the outputs: what is left of the cursor, and where the tag of the last output
  -- that equals the desired one begins.
  unfoldable pub scan_outputs :
      ℕ → List ℕ → DesiredPair → List ℕ → Option ℕ → Result (List ℕ × Option ℕ)
  scan_outputs zero all desired cursor last = ok (cursor, last)
  scan_outputs (suc count) all desired cursor last = elim (consensus_decode cursor) [
    | none ↦ err invalid_template_outputs
    | some (output, rest) ↦ scan_outputs count all desired rest (
        if bytes_eq (serialize output) desired.output
        then plus (length all - length cursor) (first_position rsk_tag desired.output)
        else last)
  ]

  -- The desired output is appended.
  unfoldable pub append_output : NewTemplate → DesiredPair → ℕ → Result (ℕ × Option (List ℕ))
  unfolding is_bad_commitment
  append_output template desired max_outputs = do
    let count = template.coinbase_tx_outputs_count
    let outputs = template.coinbase_tx_outputs ++ desired.output
    refuse_if (leb (2 ^ 32 - 1) count) too_many_template_outputs
    refuse_if (ltb max_outputs (count + 1)) too_many_template_outputs
    refuse_if (is_bad_commitment outputs template desired) invalid_rsk_commitment
    refuse_if (not (fits_b064k outputs)) template_outputs_too_large
    ok (count + 1, some outputs)

  -- The new count and, where the output is not there yet, the new outputs.
  unfoldable pub plan_outputs :
      NewTemplate → DesiredPair → ℕ → Option ℕ → Result (ℕ × Option (List ℕ))
  unfolding is_already_last keep_outputs append_output
  plan_outputs template desired max_outputs last =
      if is_already_last template desired last
      then keep_outputs template max_outputs
      else append_output template desired max_outputs

  unfoldable pub prepare_outputs : NewTemplate → DesiredPair → ℕ → ℕ → Result (ℕ × Option (List ℕ))
  unfolding plan_outputs scan_outputs
  prepare_outputs template desired reserved_bytes max_outputs = do
    refuse_if (ltb reserved_bytes (length desired.output))
        (output_too_large (length desired.output))
    scanned ←
        scan_outputs template.coinbase_tx_outputs_count template.coinbase_tx_outputs desired
          template.coinbase_tx_outputs none
    refuse_if (ltb 0 (length scanned.0)) invalid_template_outputs
    plan ← plan_outputs template desired max_outputs scanned.1
    refuse_if (any_not_hash template.merkle_path) invalid_template_outputs
    ok plan

  -- `observer_ready` is what `ensure_observer` answers.
  unfoldable pub apply_to_template_with_output_limit :
      Core → NewTemplate → Bool → ℕ → ℕ → Core × NewTemplate × Result Bool
  unfolding apply_prepared prepare_outputs
  apply_to_template_with_output_limit core template observer_ready reserved_bytes max_outputs =
      let invalidated : Core = record core {
        context = invalidate_current_template core.context template.template_id;
      } in
      if observer_ready
      then elim core.context.desired [
        | none ↦ (invalidated, template, ok false)
        | some desired ↦
            apply_prepared invalidated template desired
              (prepare_outputs template desired reserved_bytes max_outputs)
      ]
      else (invalidated, template, err state_unavailable)

  pub apply_to_template_with_pool_output_count :
      Core → NewTemplate → Bool → ℕ → ℕ → Core × NewTemplate × Result Bool
  unfolding apply_to_template_with_output_limit
  apply_to_template_with_pool_output_count core template observer_ready reserved_bytes
        pool_outputs =
      if ltb max_single_byte_coinbase_outputs pool_outputs
      then (core, template, err too_many_template_outputs)
      else apply_to_template_with_output_limit core template observer_ready reserved_bytes
          (max_single_byte_coinbase_outputs - pool_outputs)
