-- ===== src/Prelude/Int.antt =====
-- Signed integers over the native numbers, as far as the program tests their sign.
use Prim.Native.Nat.{ℕ, compare, Ordering}
use mathlib.Core.Path.{◌≡◌}
use mathlib.Core.Logic.{◌≢◌, inl, inr}
use mathlib.Core.Bool.{Bool, true, false}
use native.Mathlib.Omega.{arith}
use centry.Prelude.Tests.{Bool-cases}

-- `negsuc n` is -(n + 1).
pub data ℤ : Type 0 where
  pos : ℕ → ℤ
  negsuc : ℕ → ℤ

abbrev pub pos_part : ℤ → ℕ
pos_part (pos n) = n
pos_part (negsuc n) = 0

-- `a < b` is `lt`, `a === b` is `eq` and `a > b` is `gt`.
unfoldable pub int_compare : ℤ → ℤ → Ordering
int_compare (pos m) (pos n) = compare m n
int_compare (pos m) (negsuc n) = Ordering.gt
int_compare (negsuc m) (pos n) = Ordering.lt
int_compare (negsuc m) (negsuc n) = compare n m

unfoldable pub int_eq : ℤ → ℤ → Bool
unfolding int_compare
int_eq a b = elim (int_compare a b) [ Ordering.eq ↦ true | _ ↦ false ]

pub int_eq_sound : (a b : ℤ) → int_eq a b ≡ true → a ≡ b
unfolding int_eq
int_eq_sound (pos m) (pos n) h = ground arith
int_eq_sound (pos m) (negsuc n) h = cc
int_eq_sound (negsuc m) (pos n) h = cc
int_eq_sound (negsuc m) (negsuc n) h = ground arith

pub int_eq_refl : (a : ℤ) → int_eq a a ≡ true
unfolding int_eq
int_eq_refl (pos m) = ground arith
int_eq_refl (negsuc m) = ground arith

pub int_eq_ne : (a b : ℤ) → a ≢ b → int_eq a b ≡ false
int_eq_ne a b h = elim (Bool-cases (int_eq a b)) [
  | inl e ↦ absurd (h (int_eq_sound a b e))
  | inr e ↦ e
]
