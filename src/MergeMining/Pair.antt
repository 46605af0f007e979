-- ===== src/MergeMining/Pair.antt =====
-- src/merge_mining.rs: the desired pair as the API sets it, the secret, and the two handlers. Text
-- is a list of bytes. `str::trim`, the hex decoder and the encoding of an OP_RETURN output belong to
-- std and to the crate bitcoin, and are parameters.
pub mod Parsing
pub mod Access
use mathlib.Core.List.{reverse}
use demand_cli.Prelude.{
  ℕ, zero, suc, ◌+◌, ◌%◌, Bool, true, false, not, ◌&&◌, ◌||◌, Option, none, some, List, [], ◌∷◌,
  map, length, drop, starts_with, codes, ltb, leb, ◌==◌, if◌then◌else◌, is_some,
}
use demand_cli.MergeMining.Types.{
  Core, ContextState, DesiredPair, FoundJob, MergeMiningError, empty_payload, invalid_payload_hex,
  ambiguous_rsk_payload, payload_too_large, invalid_target, output_too_large, state_unavailable,
}
use demand_cli.MergeMining.Commitment.{rsk_tag, is_rsk_payload, last_position, constant_time_eq}
use demand_cli.MergeMining.Template.{Result, ok, err, ◌>>=◌, ◌>>◌, refuse_if}
use demand_cli.MergeMining.Observer.{take_found_job}

-- `MAX_PAYLOAD_BYTES`.
abbrev pub max_payload_bytes : ℕ
max_payload_bytes = 80

-- `RESERVED_COINBASE_OUTPUT_BYTES`.
abbrev pub reserved_coinbase_output_bytes : ℕ
reserved_coinbase_output_bytes = 100

abbrev pub lowercase : ℕ → ℕ
lowercase c = if leb 65 c && leb c 90 then c + 32 else c

-- `to_ascii_lowercase`.
abbrev pub to_ascii_lowercase : List ℕ → List ℕ
to_ascii_lowercase text = map lowercase text

-- `ok_or`.
abbrev pub ok_or {ℓ} : {A : Type ℓ} → Option A → MergeMiningError → Result A
ok_or none e = err e
ok_or (some a) e = ok a

-- Whether the tag stands somewhere in the bytes.
abbrev pub has_tag : List ℕ → Bool
has_tag bytes = is_some (last_position rsk_tag bytes)

-- `strip_prefix("0x")` or `strip_prefix("0X")`, else the text.
unfoldable pub strip_0x : List ℕ → List ℕ
strip_0x text =
    if starts_with text (codes "0x") || starts_with text (codes "0X") then drop 2 text else text

pub record AcceptedPair : Type 0 where
  pub payload_len_bytes : ℕ
  pub tx_out_len_bytes : ℕ
  pub replaced_pending : Bool

-- The status codes that the handlers answer.
pub data Status : Type 0 where
  answered accepted bad_request unauthorized service_unavailable : Status

-- `authorize`: `expected` is the variable `API_SECRET`.
pub authorize : Option (List ℕ) → List ℕ → Option Status
authorize none supplied = some service_unavailable
authorize (some []) supplied = some service_unavailable
authorize (some (c ∷ expected)) supplied =
    if constant_time_eq (c ∷ expected) supplied then none else some unauthorized

-- `poll_found_job_api`.
pub poll_answer : Core × Result (Option FoundJob) → Core × Status × Option FoundJob
poll_answer (core, ok job) = (core, answered, job)
poll_answer (core, err e) = (core, service_unavailable, none)

pub poll_found_job_api : Core → Option (List ℕ) → Bool → List ℕ → Core × Status × Option FoundJob
unfolding poll_answer
poll_found_job_api core expected observer_ready secret = elim (authorize expected secret) [
  | some status ↦ (core, status, none)
  | none ↦ poll_answer (take_found_job core observer_ready)
]

module _ (trim : List ℕ → List ℕ) (from_hex : List ℕ → Option (List ℕ))
    (op_return_output : List ℕ → Option (List ℕ)) where
  -- `DesiredPair::parse`.
  unfoldable pub parse_payload : List ℕ → Result (List ℕ)
  parse_payload payload_hex = do
    refuse_if (length payload_hex == 0) empty_payload
    refuse_if (not (length payload_hex % 2 == 0)) invalid_payload_hex
    payload ← ok_or (from_hex payload_hex) invalid_payload_hex
    refuse_if (length payload == 0) empty_payload
    refuse_if (ltb max_payload_bytes (length payload)) (payload_too_large (length payload))
    refuse_if (is_rsk_payload payload && has_tag (drop (length rsk_tag) payload))
        ambiguous_rsk_payload
    ok payload

  unfoldable pub parse_target : List ℕ → Result (List ℕ)
  parse_target target_hex = do
    target_be ← ok_or (from_hex target_hex) invalid_target
    refuse_if (not (length target_be == 32)) invalid_target
    ok target_be

  unfoldable pub parse : List ℕ → List ℕ → Result DesiredPair
  unfolding parse_payload parse_target strip_0x
  parse data_hex target_hex = do
    let payload_hex = to_ascii_lowercase (trim data_hex)
    let normalized_target = to_ascii_lowercase (strip_0x (trim target_hex))
    payload ← parse_payload payload_hex
    target_be ← parse_target normalized_target
    encoded ← ok_or (op_return_output payload) invalid_payload_hex
    refuse_if (ltb reserved_coinbase_output_bytes (length encoded))
        (output_too_large (length encoded))
    ok (record {
      payload = payload;
      payload_hex = payload_hex;
      target_le = reverse target_be;
      target_hex = normalized_target;
      output = encoded;
    })

  pub replace_pair : Core → Bool → Result DesiredPair → Core × Result AcceptedPair
  replace_pair core observer_ready (err e) = (core, err e)
  replace_pair core false (ok desired) = (core, err state_unavailable)
  replace_pair core true (ok desired) = (
    record core { context = record core.context { desired = some desired } },
    ok (record {
      payload_len_bytes = length desired.payload;
      tx_out_len_bytes = length desired.output;
      replaced_pending = is_some core.context.desired;
    }),
  )

  pub set_desired_pair : Core → Bool → List ℕ → List ℕ → Core × Result AcceptedPair
  unfolding replace_pair
  set_desired_pair core observer_ready data_hex target_hex =
      replace_pair core observer_ready (parse data_hex target_hex)

  pub set_answer : Core × Result AcceptedPair → Core × Status × Option AcceptedPair
  set_answer (core, ok pair) = (core, accepted, some pair)
  set_answer (core, err state_unavailable) = (core, service_unavailable, none)
  set_answer (core, err e) = (core, bad_request, none)

  -- `set_pair_api`: the request carries the secret, the payload and perhaps the target.
  pub set_pair_api :
      Core
      → Option (List ℕ)
      → Bool
      → List ℕ
      → List ℕ
      → Option (List ℕ)
      → Core × Status × Option AcceptedPair
  unfolding set_desired_pair set_answer
  set_pair_api core expected observer_ready secret data_hex target_hex =
      elim (authorize expected secret) [
        | some status ↦ (core, status, none)
        | none ↦ elim target_hex [
          | none ↦ (core, bad_request, none)
          | some target ↦ set_answer (set_desired_pair core observer_ready data_hex target)
        ]
      ]
