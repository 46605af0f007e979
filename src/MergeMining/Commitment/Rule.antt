-- ===== src/MergeMining/Commitment/Rule.antt =====
-- src/merge_mining.rs, `raw_rsk_commitment_matches`: what it accepts, without its search.
use demand_cli.Prelude.{
  ℕ, ◌+◌, ◌-◌, ◌≤◌, ◌<◌, ◌≡◌, ◌↔◌, inl, inr, refl, subst, sym, ap, ◌∙◌, true, false, Option, none,
  some, List, [], ◌++◌, length, take, drop, starts_with, bytes_eq, eq_of_bytes_eq, bytes_eq_refl,
  take-append, drop-append, length-append, length-take, length-drop, take-drop, arith, Option-cases,
  &&_split, starts_with_append_left,
}
use demand_cli.MergeMining.Types.{DesiredPair}
use demand_cli.MergeMining.Commitment.{
  rsk_tag, is_rsk_payload, last_position, last_raw_tag_position, matches_at, matches_last,
  raw_rsk_commitment_matches,
}
use demand_cli.MergeMining.Commitment.LastTag.{
  IsLastTag, last_position-none, last_position-IsLastTag,
}

-- The payload stands in the bytes, at most 128 bytes stand behind it, and the tag starts nowhere
-- later than there.
abbrev pub IsCommitted : List ℕ → List ℕ → List ℕ → List ℕ → Type 0
IsCommitted payload bytes before after =
    (bytes ≡ before ++ (payload ++ after))
    × (length after ≤ 128)
    × ((i : ℕ) → length before < i → starts_with (drop i bytes) rsk_tag ≡ false)

last_is_one : (tag bytes : List ℕ) (p q : ℕ) → IsLastTag tag bytes p → IsLastTag tag bytes q → p ≡ q
last_is_one tag bytes p q h l = ground (arith, h.0, l.0, h.1 q, l.1 p)

last_position_unique :
    (tag bytes : List ℕ) (p : ℕ)
    → starts_with [] tag ≡ false
    → IsLastTag tag bytes p
    → last_position tag bytes ≡ some p
last_position_unique tag bytes p t h = elim (Option-cases (last_position tag bytes)) [
  | inl n ↦ (let no = last_position-none tag bytes t n p in ground (arith, no, h.0))
  | inr (q, e) ↦
      let l = last_position-IsLastTag tag bytes q t e in e ∙ ap some (last_is_one tag bytes q p l h)
]

matches_at-IsCommitted :
    (payload bytes : List ℕ) (p : ℕ)
    → IsLastTag rsk_tag bytes p
    → matches_at payload bytes p ≡ true
    → IsCommitted payload bytes (take p bytes) (drop (length payload) (drop p bytes))
unfolding matches_at
matches_at-IsCommitted payload bytes p l e =
    let fits : (p + length payload ≤ length bytes) = ground (arith, e) in
    let same : (bytes_eq (take (length payload) (drop p bytes)) payload ≡ true) =
      ground (arith, e) in
    let rest : (length bytes - (p + length payload) ≤ 128) = ground (arith, e) in
    let here : (take (length payload) (drop p bytes) ≡ payload) =
      eq_of_bytes_eq (take (length payload) (drop p bytes)) payload same in
    let split : (payload ++ drop (length payload) (drop p bytes) ≡ drop p bytes) =
      subst (λ x. x ++ drop (length payload) (drop p bytes) ≡ drop p bytes) here
        (take-drop (length payload) (drop p bytes)) in
    (
      sym (ap (λ x. take p bytes ++ x) split ∙ take-drop p bytes),
      omega (arith, rest, length-drop (length payload) (drop p bytes), length-drop p bytes),
      λ i k. l.1 i (omega (arith, k, fits, length-take p bytes)),
    )

matches_at-append :
    (payload before after : List ℕ)
    → length after ≤ 128
    → matches_at payload (before ++ (payload ++ after)) (length before) ≡ true
unfolding matches_at
matches_at-append payload before after h =
    rw (drop-append before (payload ++ after), take-append payload after, bytes_eq_refl payload)
      ground (arith, h, length-append before (payload ++ after), length-append payload after)

IsCommitted-matches_at :
    (payload bytes before after : List ℕ)
    → IsCommitted payload bytes before after
    → matches_at payload bytes (length before) ≡ true
IsCommitted-matches_at payload bytes before after c =
    subst (λ x. matches_at payload x (length before) ≡ true) (sym c.0)
      (matches_at-append payload before after c.1)

payload-IsLastTag :
    (payload bytes before after : List ℕ)
    → is_rsk_payload payload ≡ true
    → IsCommitted payload bytes before after
    → IsLastTag rsk_tag bytes (length before)
unfolding is_rsk_payload
payload-IsLastTag payload bytes before after r c = (
  subst (λ x. starts_with (drop (length before) x) rsk_tag ≡ true) (sym c.0)
      (rw (drop-append before (payload ++ after))
        (starts_with_append_left payload after rsk_tag (ground (arith, r)))),
  c.2,
)

abbrev pub Committed : List ℕ → List ℕ → Type 0
Committed payload bytes =
    (before : List ℕ) × (after : List ℕ) × IsCommitted payload bytes before after

matches_last-Committed :
    (payload bytes : List ℕ) (position : Option ℕ)
    → last_position rsk_tag bytes ≡ position
    → matches_last payload bytes position ≡ true
    → Committed payload bytes
unfolding matches_last
matches_last-Committed payload bytes none e h = cc
matches_last-Committed payload bytes (some p) e h = (
  take p bytes,
  drop (length payload) (drop p bytes),
  matches_at-IsCommitted payload bytes p (last_position-IsLastTag rsk_tag bytes p refl e) h,
)

Committed-matches_last :
    (payload bytes : List ℕ)
    → is_rsk_payload payload ≡ true
    → Committed payload bytes
    → matches_last payload bytes (last_position rsk_tag bytes) ≡ true
unfolding matches_last
Committed-matches_last payload bytes r (before, after, c) =
    rw
      (last_position_unique rsk_tag bytes (length before) refl
        (payload-IsLastTag payload bytes before after r c))
      (IsCommitted-matches_at payload bytes before after c)

-- The rule accepts a coinbase exactly when the pair's payload is the tag with a 32-byte hash, stands
-- in the coinbase with at most 128 bytes behind it, and the tag starts at no later offset.
pub raw_rsk_commitment_matches_lem :
    (bytes : List ℕ) (desired : DesiredPair)
    → (raw_rsk_commitment_matches bytes desired ≡ true)
      ↔ ((is_rsk_payload desired.payload ≡ true) × Committed desired.payload bytes)
unfolding raw_rsk_commitment_matches last_raw_tag_position
raw_rsk_commitment_matches_lem bytes desired = (
  λ e.
      let parts =
        &&_split (is_rsk_payload desired.payload)
          (matches_last desired.payload bytes (last_position rsk_tag bytes)) e in
      (
        parts.0,
        matches_last-Committed desired.payload bytes (last_position rsk_tag bytes) refl parts.1,
      ),
  λ h. let m = Committed-matches_last desired.payload bytes h.0 h.1 in rw (h.0, m) refl,
)
