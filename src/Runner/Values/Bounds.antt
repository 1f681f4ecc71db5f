-- ===== src/Runner/Values/Bounds.antt =====
-- The bounds of the numbers that are read, and the address that is.
use centry.Prelude.{
  ℕ, zero, suc, ◌≤◌, ◌≡◌, ap, ◌∙◌, inl, inr, Option, Option-cases, none, some, ok, err,
  ok_injective, arith,
}
use centry.Prelude.Int.{ℤ, pos, negsuc}
use centry.Prelude.Text.{Text}
use centry.Prelude.Trim.{trim, big_int}
use centry.Prelude.Assoc.{lookup}
use centry.Rewards.Types.{Field, absent, empty, malformed, int}
use centry.Runner.Values.{
  not_an_address, unsupported_asset, Viem, asset_decimals, text_or_empty, clamp_int,
  positive_amount, positive_uint, amount_in_units, address_of,
}

pub clamp_int_bounds :
    (f : Field) (low high fallback : ℕ)
    → low ≤ fallback
    → fallback ≤ high
    → (low ≤ clamp_int f low high fallback) × (clamp_int f low high fallback ≤ high)
unfolding clamp_int
clamp_int_bounds absent low high fallback h k = (h, k)
clamp_int_bounds malformed low high fallback h k = (h, k)
clamp_int_bounds empty low high fallback h k = (omega arith, omega arith)
clamp_int_bounds (int (pos n)) low high fallback h k = (omega arith, omega arith)
clamp_int_bounds (int (negsuc n)) low high fallback h k = (omega arith, omega arith)

pub positive_amount_pos : (o : Option ℤ) (n : ℕ) → positive_amount o ≡ ok n → 1 ≤ n
unfolding positive_amount
positive_amount_pos none n h = cc
positive_amount_pos (some (pos zero)) n h = cc
positive_amount_pos (some (pos (suc m))) n h = ground arith
positive_amount_pos (some (negsuc m)) n h = cc

pub address_of-eq :
    (viem : Viem) (t a : Text) → address_of viem t ≡ ok a → viem.get_address t ≡ some a
unfolding address_of
address_of-eq viem t a h = elim (Option-cases (viem.get_address t)) [
  | inl e ↦ let wrong : err not_an_address ≡ ok a = rw (address_of, e) at h in cc
  | inr (b, e) ↦ let same : ok b ≡ ok a = rw (address_of, e) at h in e ∙ ap some (ok_injective same)
]

pub positive_uint_pos : (o : Option Text) (n : ℕ) → positive_uint o ≡ ok n → 1 ≤ n
unfolding positive_uint
positive_uint_pos none n h = cc
positive_uint_pos (some t) n h = positive_amount_pos (big_int t) n h

pub amount_in_units_pos :
    (viem : Viem) (o : Option Text) (symbol : Text) (n : ℕ)
    → amount_in_units viem o symbol ≡ ok n
    → 1 ≤ n
unfolding amount_in_units
amount_in_units_pos viem o symbol n h = elim (Option-cases (lookup symbol asset_decimals)) [
  | inl e ↦ let wrong : err unsupported_asset ≡ ok n = rw (amount_in_units, e) at h in cc
  | inr (d, e) ↦
      positive_amount_pos (viem.parse_units (trim (text_or_empty o)) d) n
        (rw (amount_in_units, e) at h)
]
