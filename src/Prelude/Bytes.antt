-- ===== src/Prelude/Bytes.antt =====
-- Byte strings as lists of numbers: equality and prefixes.
use Prim.Native.Nat.{ℕ}
use Prim.Native.Char.{code}
use Prim.Native.String.{String}
use mathlib.Core.Path.{◌≡◌, refl}
use mathlib.Core.Bool.{Bool, true, false, ◌&&◌}
use mathlib.Core.List.{List, [], ◌∷◌, ◌++◌}
use native.Mathlib.Omega.{arith}
use demand_cli.Prelude.Tests.{◌==◌, ==_refl}

-- The code points of a text: its bytes, where it is ASCII.
abbrev pub codes : String → List ℕ
codes String.[] = []
codes (String.◌∷◌ c s) = code c ∷ codes s

abbrev pub bytes_eq : List ℕ → List ℕ → Bool
bytes_eq [] [] = true
bytes_eq [] (y ∷ ys) = false
bytes_eq (x ∷ xs) [] = false
bytes_eq (x ∷ xs) (y ∷ ys) = (x == y) && bytes_eq xs ys

abbrev pub starts_with : List ℕ → List ℕ → Bool
starts_with xs [] = true
starts_with [] (p ∷ ps) = false
starts_with (x ∷ xs) (p ∷ ps) = (x == p) && starts_with xs ps

pub bytes_eq_refl : (xs : List ℕ) → bytes_eq xs xs ≡ true
bytes_eq_refl [] = refl
bytes_eq_refl (x ∷ xs) = rw (==_refl x) (bytes_eq_refl xs)

pub eq_of_bytes_eq : (xs ys : List ℕ) → bytes_eq xs ys ≡ true → xs ≡ ys
eq_of_bytes_eq [] [] h = refl
eq_of_bytes_eq [] (y ∷ ys) h = cc
eq_of_bytes_eq (x ∷ xs) [] h = cc
eq_of_bytes_eq (x ∷ xs) (y ∷ ys) h = ground (arith, eq_of_bytes_eq xs ys)

pub starts_with-append : (p xs : List ℕ) → starts_with (p ++ xs) p ≡ true
starts_with-append [] [] = refl
starts_with-append [] (x ∷ xs) = refl
starts_with-append (a ∷ p) xs = rw (==_refl a) (starts_with-append p xs)

pub starts_with_append_left :
    (xs ys p : List ℕ) → starts_with xs p ≡ true → starts_with (xs ++ ys) p ≡ true
starts_with_append_left [] [] [] h = refl
starts_with_append_left [] (y ∷ ys) [] h = refl
starts_with_append_left (x ∷ xs) ys [] h = refl
starts_with_append_left [] ys (a ∷ p) h = cc
starts_with_append_left (x ∷ xs) ys (a ∷ p) h = ground (arith, h, starts_with_append_left xs ys p)
