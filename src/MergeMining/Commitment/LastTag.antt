-- ===== src/MergeMining/Commitment/LastTag.antt =====
-- src/merge_mining.rs, `raw_rsk_commitment_matches`: the rule of RskJ, as a statement about the
-- bytes.
use demand_cli.Prelude.{
  ℕ, zero, suc, ◌<◌, ◌≡◌, inl, inr, refl, subst, Bool, true, false, none, some, List, [], ◌∷◌, drop,
  starts_with, arith, Option-cases, Bool-cases,
}
use demand_cli.MergeMining.Commitment.{or_here, last_position}

-- The tag stands at that offset, and at no later one.
abbrev pub IsLastTag : List ℕ → List ℕ → ℕ → Type 0
IsLastTag tag bytes p =
    (starts_with (drop p bytes) tag ≡ true)
    × ((i : ℕ) → p < i → starts_with (drop i bytes) tag ≡ false)

pub last_position-none :
    (tag bytes : List ℕ)
    → starts_with [] tag ≡ false
    → last_position tag bytes ≡ none
    → (i : ℕ) → starts_with (drop i bytes) tag ≡ false
unfolding last_position or_here
last_position-none tag [] t e zero = t
last_position-none tag [] t e (suc i) = t
last_position-none tag (b ∷ bytes) t e zero = ground arith
last_position-none tag (b ∷ bytes) t e (suc i) = elim (Option-cases (last_position tag bytes)) [
  | inl n ↦ last_position-none tag bytes t n i
  | inr (j, f) ↦ ground (arith, f, e, Bool-cases (starts_with (b ∷ bytes) tag))
]

or_here-none : (here : Bool) (p : ℕ) → or_here here none ≡ some p → (here ≡ true) × (p ≡ 0)
unfolding or_here
or_here-none true p e = (refl, cc)
or_here-none false p e = cc

or_here-some : (here : Bool) (j p : ℕ) → or_here here (some j) ≡ some p → p ≡ suc j
unfolding or_here
or_here-some here j p e = cc

drop_later :
    (tag : List ℕ) (b : ℕ) (bytes : List ℕ)
    → ((i : ℕ) → starts_with (drop i bytes) tag ≡ false)
    → (i : ℕ) → 0 < i
    → starts_with (drop i (b ∷ bytes)) tag ≡ false
drop_later tag b bytes h zero k = absurd (omega (arith, k))
drop_later tag b bytes h (suc i) k = h i

drop_beyond :
    (tag : List ℕ) (b : ℕ) (bytes : List ℕ) (j : ℕ)
    → ((i : ℕ) → j < i → starts_with (drop i bytes) tag ≡ false)
    → (i : ℕ) → suc j < i
    → starts_with (drop i (b ∷ bytes)) tag ≡ false
drop_beyond tag b bytes j h zero k = absurd (omega (arith, k))
drop_beyond tag b bytes j h (suc i) k = h i (omega (arith, k))

pub last_position-IsLastTag :
    (tag bytes : List ℕ) (p : ℕ)
    → starts_with [] tag ≡ false
    → last_position tag bytes ≡ some p
    → IsLastTag tag bytes p
unfolding last_position or_here
last_position-IsLastTag tag [] p t e = ground (arith, e)
last_position-IsLastTag tag (b ∷ bytes) p t e = elim (Option-cases (last_position tag bytes)) [
  | inl n ↦
      let (here, q) =
        or_here-none (starts_with (b ∷ bytes) tag) p
          (subst (λ o. or_here (starts_with (b ∷ bytes) tag) o ≡ some p) n e) in
      rw q (here, drop_later tag b bytes (last_position-none tag bytes t n))
  | inr (j, f) ↦
      let q =
        or_here-some (starts_with (b ∷ bytes) tag) j p
          (subst (λ o. or_here (starts_with (b ∷ bytes) tag) o ≡ some p) f e) in
      let ih = last_position-IsLastTag tag bytes j t f in
      rw q (ih.0, drop_beyond tag b bytes j ih.1)
]
