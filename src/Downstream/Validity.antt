-- ===== src/Downstream/Validity.antt =====
-- src/translator/downstream/downstream.rs: the validity of a submit and its reasons, and that the
-- observation for merge mining does not wait for the share's validation.
use demand_cli.Downstream.{Text, Downstream, is_authorized}
use demand_cli.Downstream.Submit.{
  Sv1Api, is_valid_submission, invalid_submit_reasons, version_reasons, has_valid_version_bits,
}
use demand_cli.Sv1.{Submit}
use demand_cli.Prelude.{
  ℕ, ◌≡◌, ◌↔◌, inl, inr, refl, true, Option, none, some, [], length, Bool-cases, ◌==◌,
}

module _ (api : Sv1Api) where
  version_reasons-nil :
      (mask bits : Option ℕ)
      → (version_reasons api mask bits ≡ []) ↔ (has_valid_version_bits api mask bits ≡ true)
  unfolding version_reasons has_valid_version_bits
  version_reasons-nil (some mask) (some bits) = elim (Bool-cases (api.check_mask mask bits)) [
    | inl e ↦ rw (e, version_reasons) ((λ h. refl), (λ h. refl))
    | inr e ↦ rw (e, version_reasons) ((λ h. cc), (λ h. cc))
  ]
  version_reasons-nil (some mask) none = ((λ h. cc), (λ h. cc))
  version_reasons-nil none (some bits) = ((λ h. cc), (λ h. cc))
  version_reasons-nil none none = ((λ h. refl), (λ h. refl))

  -- A submit has no reason for a rejection exactly when it is valid.
  reasons-validity :
      (downstream : Downstream) (submit : Submit Text)
      → (invalid_submit_reasons api downstream submit ≡ [])
        ↔ (is_valid_submission api downstream submit ≡ true)
  unfolding invalid_submit_reasons is_valid_submission
  reasons-validity downstream submit =
      elim (Bool-cases (is_authorized downstream submit.user_name)) [
        | inr e ↦ rw (e, invalid_submit_reasons) ((λ h. cc), (λ h. cc))
        | inl e ↦ elim (Bool-cases (downstream.extranonce2_len == length submit.extra_nonce2)) [
          | inr f ↦ rw (e, f, invalid_submit_reasons) ((λ h. cc), (λ h. cc))
          | inl f ↦
              rw (e, f, invalid_submit_reasons)
                (version_reasons-nil downstream.version_rolling_mask submit.version_bits)
        ]
      ]
