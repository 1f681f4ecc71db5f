-- ===== src/Prelude/Text.antt =====
-- JavaScript strings as lists of code units: equality, `toLowerCase` and the order `>`.
use Prim.Native.Char.{code}
use Prim.Native.String.{String}
use Prim.Native.Nat.{ℕ, ◌+◌}
use mathlib.Core.Path.{◌≡◌, refl}
use mathlib.Core.Bool.{Bool, true, false, ◌&&◌}
use mathlib.Core.Logic.{◌↔◌, ◌≢◌, inl, inr}
use mathlib.Core.List.{List, [], ◌∷◌, map}
use native.Mathlib.Omega.{arith}
use centry.Prelude.Tests.{ltb, leb, ◌==◌, Bool-cases, if◌then◌else◌}

abbrev pub Text : Type 0
Text = List ℕ

abbrev pub codes : String → Text
codes String.[] = []
codes (String.◌∷◌ c s) = code c ∷ codes s

-- `a === b`
unfoldable pub text_eq : Text → Text → Bool
text_eq [] [] = true
text_eq [] (b ∷ t) = false
text_eq (a ∷ s) [] = false
text_eq (a ∷ s) (b ∷ t) = (a == b) && text_eq s t

pub text_eq_refl : (s : Text) → text_eq s s ≡ true
unfolding text_eq
text_eq_refl [] = refl
text_eq_refl (a ∷ s) = ground (arith, text_eq_refl s)

pub text_eq_sound : (s t : Text) → text_eq s t ≡ true → s ≡ t
unfolding text_eq
text_eq_sound [] [] h = refl
text_eq_sound [] (b ∷ t) h = cc
text_eq_sound (a ∷ s) [] h = cc
text_eq_sound (a ∷ s) (b ∷ t) h = ground (arith, text_eq_sound s t)

pub text_eq_iff : (s t : Text) → (text_eq s t ≡ true) ↔ (s ≡ t)
text_eq_iff s t = (text_eq_sound s t, λ e. rw e (text_eq_refl t))

pub text_eq_ne : (s t : Text) → s ≢ t → text_eq s t ≡ false
text_eq_ne s t h = elim (Bool-cases (text_eq s t)) [
  | inl e ↦ absurd (h (text_eq_sound s t e))
  | inr e ↦ e
]

pub text_eq-differ : (s t : Text) → text_eq s t ≡ false → s ≢ t
text_eq-differ s t h same = let e : text_eq s t ≡ true = (text_eq_iff s t).1 same in cc

-- `toLowerCase` of one code unit of an ASCII string.
unfoldable pub lower : ℕ → ℕ
lower c = if leb b'A' c && leb c b'Z' then c + 32 else c

-- `s.toLowerCase()`, for the ASCII strings of hexadecimal digits that the program lowers.
unfoldable pub to_lower_case : Text → Text
to_lower_case s = map lower s

-- `a > b` on strings: the order of the first code units that differ.
unfoldable pub text_gt : Text → Text → Bool
text_gt [] t = false
text_gt (a ∷ s) [] = true
text_gt (a ∷ s) (b ∷ t) = let rest = text_gt s t in if a == b then rest else ltb b a

-- Of two different strings exactly one is the greater.
pub text_gt_flip : (s t : Text) → text_gt s t ≡ false → text_gt t s ≡ false → s ≡ t
unfolding text_gt
text_gt_flip [] [] h k = refl
text_gt_flip [] (b ∷ t) h k = cc
text_gt_flip (a ∷ s) [] h k = cc
text_gt_flip (a ∷ s) (b ∷ t) h k = ground (arith, text_gt_flip s t)

pub text_gt_asymm : (s t : Text) → text_gt s t ≡ true → text_gt t s ≡ false
unfolding text_gt
text_gt_asymm [] [] h = refl
text_gt_asymm [] (b ∷ t) h = cc
text_gt_asymm (a ∷ s) [] h = refl
text_gt_asymm (a ∷ s) (b ∷ t) h = ground (arith, text_gt_asymm s t)
