-- ===== src/MergeMining/Commitment/Secret.antt =====
-- src/merge_mining.rs, `constant_time_eq`: the comparison of the API secret, which looks at every
-- byte, is equality.
use Prim.Native.Nat.{bit_or, bit_xor, digits, differ, max, bit_or-bitwise, bit_xor-bitwise}
use demand_cli.Prelude.{
  ℕ, zero, suc, ◌+◌, ◌/◌, ◌%◌, ◌≤◌, ◌<◌, ◌≡◌, ◌↔◌, ◌⊎◌, inl, inr, refl, sym, true, List, [], ◌∷◌,
  length, get_or, ==_iff, arith, ap,
}
use demand_cli.MergeMining.Commitment.{differences, constant_time_eq}

differ-zero : (x y : ℕ) → differ x y ≡ 0 → x ≡ y
differ-zero zero y e = omega (arith, e)
differ-zero (suc x) zero e = cc
differ-zero (suc x) (suc y) e = ap suc (differ-zero x y e)

differ_self : (x : ℕ) → differ x x ≡ 0
differ_self zero = refl
differ_self (suc x) = differ_self x

xor_digits-zero : (n a b : ℕ) → a ≤ n → digits (λ y. y) differ n a b ≡ 0 → a ≡ b
xor_digits-zero zero zero b h e = omega (arith, e)
xor_digits-zero zero (suc a) b h e = absurd (omega arith)
xor_digits-zero (suc n) zero b h e = omega (arith, e)
xor_digits-zero (suc n) (suc a) b h e = omega (
  arith,
  e,
  xor_digits-zero n (suc a / 2) (b / 2) (omega arith) (omega (arith, e)),
  differ-zero (suc a % 2) (b % 2) (omega (arith, e)),
)

xor_digits_self : (n a : ℕ) → a ≤ n → digits (λ y. y) differ n a a ≡ 0
xor_digits_self zero zero h = refl
xor_digits_self zero (suc a) h = absurd (omega arith)
xor_digits_self (suc n) zero h = refl
xor_digits_self (suc n) (suc a) h =
    omega (arith, xor_digits_self n (suc a / 2) (omega arith), differ_self (suc a % 2))

or_digits-zero : (n a b : ℕ) → a ≤ n → digits (λ y. y) max n a b ≡ 0 → (a ≡ 0) × (b ≡ 0)
or_digits-zero zero zero b h e = omega (arith, e)
or_digits-zero zero (suc a) b h e = absurd (omega arith)
or_digits-zero (suc n) zero b h e = omega (arith, e)
or_digits-zero (suc n) (suc a) b h e =
    omega (arith, e, or_digits-zero n (suc a / 2) (b / 2) (omega arith) (omega (arith, e)))

bit_xor_self : (a : ℕ) → bit_xor a a ≡ 0
bit_xor_self a = omega (arith, bit_xor-bitwise a a, xor_digits_self a a (omega arith))

pub bit_xor-zero_iff : (a b : ℕ) → (bit_xor a b ≡ 0) ↔ (a ≡ b)
bit_xor-zero_iff a b = (
  λ e. xor_digits-zero a a b (omega arith) (omega (arith, e, bit_xor-bitwise a b)),
  λ e. rw (sym e) (bit_xor_self a),
)

bit_or-zero : (a b : ℕ) → a ≡ 0 → b ≡ 0 → bit_or a b ≡ 0
bit_or-zero a b e f = rw (e, f) refl

pub bit_or-zero_iff : (a b : ℕ) → (bit_or a b ≡ 0) ↔ ((a ≡ 0) × (b ≡ 0))
bit_or-zero_iff a b = (
  λ e. or_digits-zero a a b (omega arith) (omega (arith, e, bit_or-bitwise a b)),
  λ e. bit_or-zero a b e.0 e.1,
)

first_or_later : (index i : ℕ) → index ≤ i → (index ≡ i) ⊎ (index < i)
first_or_later index i h = ground (arith, h)

differences-zero :
    (left : ℕ) (xs ys : List ℕ) (index difference : ℕ)
    → differences left xs ys index difference ≡ 0
    → (difference ≡ 0) × ((i : ℕ) → index ≤ i → i < index + left → get_or xs i 0 ≡ get_or ys i 0)
unfolding differences
differences-zero zero xs ys index d e = (e, λ i h k. absurd (omega (arith, h, k)))
differences-zero (suc left) xs ys index d e =
    let rest =
      differences-zero left xs ys (index + 1)
        (bit_or d (bit_xor (get_or xs index 0) (get_or ys index 0))) e in
    let here = (bit_or-zero_iff d (bit_xor (get_or xs index 0) (get_or ys index 0))).0 rest.0 in
    (
      here.0,
      λ i h k. elim (first_or_later index i h) [
        | inl s ↦ rw (sym s) ((bit_xor-zero_iff (get_or xs index 0) (get_or ys index 0)).0 here.1)
        | inr l ↦ rest.1 i (omega (arith, l)) (omega (arith, k))
      ],
    )

differences_self : (left : ℕ) (xs : List ℕ) (index : ℕ) → differences left xs xs index 0 ≡ 0
unfolding differences
differences_self zero xs index = refl
differences_self (suc left) xs index =
    rw (bit_xor_self (get_or xs index 0)) (differences_self left xs (index + 1))

eq_of_agree :
    (xs ys : List ℕ)
    → length xs ≡ length ys
    → ((i : ℕ) → i < length xs → get_or xs i 0 ≡ get_or ys i 0)
    → xs ≡ ys
eq_of_agree [] [] e h = refl
eq_of_agree [] (y ∷ ys) e h = cc
eq_of_agree (x ∷ xs) [] e h = cc
eq_of_agree (x ∷ xs) (y ∷ ys) e h =
    rw
      (
        h 0 (omega arith),
        eq_of_agree xs ys (omega (arith, e)) (λ i k. h (suc i) (omega (arith, k))),
      )
      refl

constant_time_eq-equal :
    (expected supplied : List ℕ) → constant_time_eq expected supplied ≡ true → expected ≡ supplied
unfolding constant_time_eq
constant_time_eq-equal xs ys e =
    let all =
      differences-zero (max (length xs) (length ys)) xs ys 0 (bit_xor (length xs) (length ys)) (
        (==_iff
            (differences (max (length xs) (length ys)) xs ys 0 (bit_xor (length xs) (length ys)))
            0).0
          e) in
    let lengths = (bit_xor-zero_iff (length xs) (length ys)).0 all.0 in
    eq_of_agree xs ys lengths (λ i k. all.1 i (omega arith) (omega (arith, k)))

-- The comparison answers true exactly for equal byte strings.
pub constant_time_eq_lem :
    (expected supplied : List ℕ)
    → (constant_time_eq expected supplied ≡ true) ↔ (expected ≡ supplied)
unfolding constant_time_eq
constant_time_eq_lem xs ys = (
  constant_time_eq-equal xs ys,
  λ e.
      rw (sym e, bit_xor_self (length xs), differences_self (max (length xs) (length xs)) xs 0)
        refl,
)
