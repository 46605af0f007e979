-- ===== src/Prelude/Pacing.antt =====
-- Times that keep a distance, as the limiters of the translator enforce it.
use Prim.Native.Nat.{ℕ, zero, suc, ◌+◌, ◌*◌, ◌≤◌}
use mathlib.Core.Path.{◌≡◌, refl}
use mathlib.Core.Logic.{inl, inr}
use mathlib.Core.Bool.{Bool, true, false, ◌&&◌}
use mathlib.Core.List.{List, [], ◌∷◌}
use native.Mathlib.Omega.{arith}
use demand_cli.Prelude.Tests.{leb, ltb, if◌then◌else◌, Bool-cases}
use demand_cli.Prelude.Lists.{All}

-- Each time is at least `gap` after all before it.
abbrev pub IsSpaced : ℕ → List ℕ → Type 0
IsSpaced gap [] = Unit {0}
IsSpaced gap (time ∷ times) = All (λ later. time + gap ≤ later) times × IsSpaced gap times

-- How many times lie in [low, high).
abbrev pub count_between : ℕ → ℕ → List ℕ → ℕ
count_between low high [] = 0
count_between low high (time ∷ times) =
    (if leb low time && ltb time high then 1 else 0) + count_between low high times

count_between_later :
    (low mid high : ℕ) (times : List ℕ)
    → low ≤ mid
    → All (λ time. mid ≤ time) times
    → count_between low high times ≡ count_between mid high times
count_between_later low mid high [] h a = refl
count_between_later low mid high (x ∷ xs) h a =
    ground (arith, count_between_later low mid high xs h a.1)

count_between_past : (low high : ℕ) (times : List ℕ) → high ≤ low → count_between low high times ≡ 0
count_between_past low high [] h = refl
count_between_past low high (x ∷ xs) h = ground (arith, count_between_past low high xs h)

pub All-le {ℓ} :
    {A : Type ℓ} (f : A → ℕ) (low mid : ℕ) (xs : List A)
    → low ≤ mid
    → All (λ x. mid ≤ f x) xs
    → All (λ x. low ≤ f x) xs
All-le f low mid [] h a = tt
All-le f low mid (x ∷ xs) h a = ground (arith, All-le f low mid xs h a.1)

-- No more than `n` of them fall into a span of `n` gaps.
pub count_between_spaced :
    (gap : ℕ) (times : List ℕ) (n low high : ℕ)
    → high ≤ low + n * gap
    → IsSpaced gap times
    → count_between low high times ≤ n
count_between_spaced gap [] n low high h s = omega arith
count_between_spaced gap (x ∷ xs) zero low high h s =
    omega (arith, count_between_past low high (x ∷ xs) (omega arith))
count_between_spaced gap (x ∷ xs) (suc n) low high h s = elim (Bool-cases (leb low x)) [
  | inl inside ↦ ground (
    arith,
    count_between_later low (low + gap) high xs,
    All-le (λ y. y) (low + gap) (x + gap) xs,
    count_between_spaced gap xs n (low + gap) high (omega arith) s.1,
  )
  | inr early ↦ ground (arith, count_between_spaced gap xs (suc n) low high h s.1)
]

-- A list that grows by an entry if a test passes.
pub All-grow :
    (P : ℕ → Type 0) (test : Bool) (time : ℕ) (later : List ℕ)
    → (test ≡ true → P time)
    → All P later
    → All P (if test then time ∷ later else later)
All-grow P true time later h a = (h refl, a)
All-grow P false time later h a = a

pub IsSpaced-grow :
    (gap : ℕ) (test : Bool) (time : ℕ) (later : List ℕ)
    → (test ≡ true → All (λ x. time + gap ≤ x) later)
    → IsSpaced gap later
    → IsSpaced gap (if test then time ∷ later else later)
IsSpaced-grow gap true time later h s = (h refl, s)
IsSpaced-grow gap false time later h s = s
