-- ===== src/Downstream/Submit.antt =====
-- src/translator/downstream/downstream.rs: how a connection answers `mining.submit`, from
-- `process_incoming_message` of src/translator/downstream/receive_from_downstream.rs on.
-- The channels, the monitor and the statistics that a call uses are the list of its effects.
use demand_cli.Downstream.{Text, Downstream, is_authorized, is_empty}
use demand_cli.Sv1.{Submit}
use demand_cli.Prelude.{
  ℕ, ◌-◌, ◌^◌, Bool, true, false, not, ◌&&◌, Option, none, some, List, [], ◌∷◌, ◌++◌, length,
  get_elem?, bytes_eq, codes, leb, ◌==◌, if◌then◌else◌,
}

pub data RejectionReason : Type 0 where
  job_id_not_found : RejectionReason
  invalid_share : RejectionReason
  invalid_job_id_format : RejectionReason
  difficulty_mismatch : RejectionReason
  upstream_rejected : RejectionReason
  rate_limited : RejectionReason

-- An `i64`: a number, or one more than a number below zero.
pub data ℤ : Type 0 where
  pos : ℕ → ℤ
  negsuc : ℕ → ℤ

-- Without its time stamp.
pub record ShareInfo : Type 0 where
  pub worker_name : Text
  pub difficulty : Option ℕ
  pub job_id : ℤ
  pub nonce : ℤ
  pub rejection_reason : Option RejectionReason

-- What the code reads of a JSON value.
pub data JsonValue : Type 0 where
  string : Text → JsonValue
  unsigned : ℕ → JsonValue
  negative : ℕ → JsonValue
  boolean : Bool → JsonValue
  other : JsonValue

pub record Request : Type 0 where
  pub id : ℕ
  pub method : Text
  pub params : Option (List JsonValue)

pub data Message : Type 0 where
  standard_request : Request → Message
  notification : Message
  response : Message

pub record Response : Type 0 where
  pub id : ℕ
  pub result : JsonValue

-- The message to the bridge; its sender of the result is left out.
pub record SubmitShareWithChannelId : Type 0 where
  pub channel_id : ℕ
  pub share : Submit ℕ
  pub extranonce : List ℕ
  pub extranonce2_len : ℕ
  pub version_rolling_mask : Option ℕ

pub data Effect : Type 0 where
  insert_share : ShareInfo → Effect
  update_accepted_shares : ℕ → Effect
  update_rejected_shares : ℕ → Effect
  counts_share : ℕ → Effect
  observes_share : ℕ → ℕ → ℕ → ℕ → List ℕ → Effect
  submit_shares : SubmitShareWithChannelId → Effect
  send_message : Response → Effect

-- The parts of the text of `invalid_submit_reason`.
pub data Reason : Type 0 where
  unauthorized_worker : Text → Reason
  invalid_extranonce2_length : ℕ → ℕ → Reason
  invalid_version_bits : ℕ → ℕ → Reason
  missing_version_bits : ℕ → Reason
  unexpected_version_bits : ℕ → Reason

-- How a call ends: it returns Ok, or an error, or the task panics.
pub data Outcome : Type 0 where
  done : Outcome
  failed : Outcome
  panicked : Outcome

pub data Handled : Type 0 where
  answered : Response → Handled
  unanswered : Handled
  invalid_submission : Handled
  error : Handled

-- Other crates: the parsers of std, the parser of a submit and the mask test of sv1_api, and its
-- dispatch of the other messages to the handlers of the connection.
pub record Sv1Api : Type 0 where
  pub submit_try_from : Request → Option (Submit Text)
  pub check_mask : ℕ → ℕ → Bool
  pub trim : Text → Text
  pub parse_u32 : Text → Option ℕ
  pub parse_i64 : Text → Option ℤ
  pub hex_u32 : Text → Option ℕ
  pub handle_message : Downstream → Message → Downstream × Handled

-- `request.respond(ok)`.
abbrev pub respond : {JobId : Type 0} → Submit JobId → Bool → Effect
respond request ok = send_message (record { id = request.id; result = boolean ok })

abbrev pub is_submit : Message → Option Request
is_submit (standard_request request) =
    if bytes_eq request.method (codes "mining.submit") then some request else none
is_submit notification = none
is_submit response = none

module _ (api : Sv1Api) where
  -- `has_valid_version_bits`, of the mask and the bits.
  unfoldable pub has_valid_version_bits : Option ℕ → Option ℕ → Bool
  has_valid_version_bits (some mask) (some version_bits) = api.check_mask mask version_bits
  has_valid_version_bits none (some version_bits) = false
  has_valid_version_bits (some mask) none = false
  has_valid_version_bits none none = true

  unfoldable pub is_valid_submission : Downstream → Submit Text → Bool
  is_valid_submission downstream submit =
      is_authorized downstream submit.user_name
      && (downstream.extranonce2_len == length submit.extra_nonce2)
      && has_valid_version_bits downstream.version_rolling_mask submit.version_bits

  -- The last reason of `invalid_submit_reason`.
  unfoldable pub version_reasons : Option ℕ → Option ℕ → List Reason
  version_reasons (some mask) (some version_bits) =
      if not (api.check_mask mask version_bits)
      then invalid_version_bits version_bits mask ∷ []
      else []
  version_reasons (some mask) none = missing_version_bits mask ∷ []
  version_reasons none (some version_bits) = unexpected_version_bits version_bits ∷ []
  version_reasons none none = []

  -- The `reasons` of `invalid_submit_reason`.
  unfoldable pub invalid_submit_reasons : Downstream → Submit Text → List Reason
  invalid_submit_reasons downstream submit =
      (if not (is_authorized downstream submit.user_name)
        then unauthorized_worker submit.user_name ∷ []
        else [])
      ++ (if not (downstream.extranonce2_len == length submit.extra_nonce2)
          then invalid_extranonce2_length downstream.extranonce2_len (length submit.extra_nonce2)
            ∷ []
          else [])
      ++ version_reasons downstream.version_rolling_mask submit.version_bits

  -- `unwrap_or_default` of an `i64`.
  abbrev pub or_zero : Option ℤ → ℤ
  or_zero none = pos 0
  or_zero (some i) = i

  abbrev pub or_second : {A : Type 0} → Option A → Option A → Option A
  or_second none b = b
  or_second (some a) b = some a

  -- `as_i64`, of a number in its range.
  abbrev pub as_i64 : JsonValue → Option ℤ
  as_i64 (string s) = none
  as_i64 (unsigned n) = if leb n (2 ^ 63 - 1) then some (pos n) else none
  as_i64 (negative n) = some (negsuc n)
  as_i64 (boolean b) = none
  as_i64 other = none

  abbrev pub as_str : JsonValue → Option Text
  as_str (string s) = some s
  as_str (unsigned n) = none
  as_str (negative n) = none
  as_str (boolean b) = none
  as_str other = none

  -- `params.get(1)` and `params.get(4)`, read as the code reads them.
  unfoldable pub job_id_param : Option JsonValue → Option ℤ
  job_id_param none = none
  job_id_param (some value) =
      or_second (elim (as_str value) [ none ↦ none | some s ↦ api.parse_i64 s ]) (as_i64 value)

  unfoldable pub nonce_param : Option JsonValue → Option ℤ
  nonce_param none = none
  nonce_param (some (string s)) = elim (api.hex_u32 s) [
    | none ↦ none
    | some nonce ↦ some (pos nonce)
  ]
  nonce_param (some (unsigned n)) = some (pos (if leb n (2 ^ 63 - 1) then n else 2 ^ 63 - 1))
  nonce_param (some (negative n)) = none
  nonce_param (some (boolean b)) = none
  nonce_param (some other) = none

  -- The share of the two ends of `invalid_submit_share`, none for an empty worker.
  unfoldable pub invalid_share_of : Text → ℤ → ℤ → Option ShareInfo
  invalid_share_of worker_name job_id nonce =
      if is_empty worker_name
      then none
      else some (record {
        worker_name = worker_name;
        difficulty = none;
        job_id = job_id;
        nonce = nonce;
        rejection_reason = some invalid_share;
      })

  -- `params.first()?.as_str()?`.
  abbrev pub first_str : List JsonValue → Option Text
  first_str [] = none
  first_str (value ∷ values) = as_str value

  unfoldable pub invalid_submit_share : Request → Option ShareInfo
  invalid_submit_share request = elim (api.submit_try_from request) [
    | some submit ↦
        invalid_share_of (api.trim submit.user_name) (or_zero (api.parse_i64 submit.job_id))
          (pos submit.nonce)
    | none ↦ elim request.params [
      | none ↦ none
      | some params ↦ elim (first_str params) [
        | none ↦ none
        | some worker_name ↦
            invalid_share_of (api.trim worker_name) (or_zero (job_id_param (get_elem? params 1)))
              (or_zero (nonce_param (get_elem? params 4)))
      ]
    ]
  ]

  abbrev pub insert_invalid : Option ShareInfo → List Effect
  insert_invalid none = []
  insert_invalid (some share) = insert_share share ∷ []

  -- `reject_invalid_submit`, of a `mining.submit`.
  unfoldable pub reject_invalid_submit : Downstream → Request → List Effect
  reject_invalid_submit downstream request =
      update_rejected_shares downstream.connection_id
        ∷ insert_invalid (invalid_submit_share request)
      ++ send_message (record { id = request.id; result = boolean false }) ∷ []
