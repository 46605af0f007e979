-- ===== src/MergeMining/Pair/Parsing.antt =====
-- src/merge_mining.rs, `DesiredPair::parse`: what an accepted pair is.
use mathlib.Core.List.{reverse, reverse-reverse, reverse-cons}
use demand_cli.Prelude.{
  ℕ, ◌≤◌, ◌<◌, ◌≡◌, refl, false, ◌&&◌, Option, some, List, [], ◌∷◌, length, length-append, drop,
  arith, Option-cases, inl, inr,
}
use demand_cli.MergeMining.Types.{DesiredPair}
use demand_cli.MergeMining.Commitment.{rsk_tag, is_rsk_payload}
use demand_cli.MergeMining.Template.{ok, Result-cases}
use demand_cli.MergeMining.Pair.{
  has_tag, max_payload_bytes, reserved_coinbase_output_bytes, parse_payload, parse_target, parse,
  strip_0x, to_ascii_lowercase,
}

length-reverse : (xs : List ℕ) → length (reverse xs) ≡ length xs
length-reverse [] = refl
length-reverse (x ∷ xs) =
    rw (reverse-cons x xs)
      (omega (arith, length-reverse xs, length-append {_} (reverse xs) (x ∷ [])))

module _ (trim : List ℕ → List ℕ) (from_hex : List ℕ → Option (List ℕ))
    (op_return_output : List ℕ → Option (List ℕ)) where
  abbrev pub IsPayload : List ℕ → List ℕ → Type 0
  IsPayload payload_hex payload =
      (from_hex payload_hex ≡ some payload)
      × (0 < length payload)
      × (length payload ≤ max_payload_bytes)
      × ((is_rsk_payload payload && has_tag (drop (length rsk_tag) payload)) ≡ false)

  parse_payload-IsPayload :
      (payload_hex payload : List ℕ)
      → parse_payload trim from_hex op_return_output payload_hex ≡ ok payload
      → IsPayload payload_hex payload
  unfolding parse_payload
  parse_payload-IsPayload payload_hex payload e = elim (Option-cases (from_hex payload_hex)) [
    | inl f ↦ ground (arith, e, f)
    | inr (bytes, f) ↦ ground (arith, e, f)
  ]

  parse_target_lem :
      (target_hex target_be : List ℕ)
      → parse_target trim from_hex op_return_output target_hex ≡ ok target_be
      → (from_hex target_hex ≡ some target_be) × (length target_be ≡ 32)
  unfolding parse_target
  parse_target_lem target_hex target_be e = elim (Option-cases (from_hex target_hex)) [
    | inl f ↦ ground (arith, e, f)
    | inr (bytes, f) ↦ ground (arith, e, f)
  ]

  -- A parsed pair has a payload of 1 to 80 bytes, the value of its hex text; an RSK payload holds no
  -- other tag; the target has 32 bytes, little-endian, the reverse of its hex text; the output is
  -- the OP_RETURN output of the payload and has at most 100 bytes.
  pub parse_lem :
      (data_hex target_hex : List ℕ) (pair : DesiredPair)
      → parse trim from_hex op_return_output data_hex target_hex ≡ ok pair
      → IsPayload pair.payload_hex pair.payload
        × (from_hex pair.target_hex ≡ some (reverse pair.target_le))
        × (length pair.target_le ≡ 32)
        × (op_return_output pair.payload ≡ some pair.output)
        × (length pair.output ≤ reserved_coinbase_output_bytes)
  unfolding parse
  parse_lem data_hex target_hex pair e =
      let text = to_ascii_lowercase (trim data_hex) in
      let target = to_ascii_lowercase (strip_0x (trim target_hex)) in
      elim (Result-cases (parse_payload trim from_hex op_return_output text)) [
        | inl (failed, p) ↦ ground (arith, e, p)
        | inr (payload, p) ↦
            elim (Result-cases (parse_target trim from_hex op_return_output target)) [
              | inl (failed, t) ↦ ground (arith, e, p, t)
              | inr (target_be, t) ↦ elim (Option-cases (op_return_output payload)) [
                | inl o ↦ ground (arith, e, p, t, o)
                | inr (encoded, o) ↦ ground (
                  arith,
                  e,
                  p,
                  t,
                  o,
                  parse_payload-IsPayload text payload p,
                  parse_target_lem target target_be t,
                  length-reverse target_be,
                  reverse-reverse target_be,
                )
              ]
            ]
      ]
