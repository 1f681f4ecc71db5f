-- ===== src/Prelude/Number.antt =====
-- `Number(n)` of a non-negative BigInt: the nearest double, ties to the even one.
use centry.Prelude.Tests.{ltb, lt→ltb, ◌==◌, if◌then◌else◌}
use Prim.Native.Nat.{ℕ, zero, suc, ◌+◌, ◌*◌, ◌/◌, ◌%◌, ◌^◌, ◌<◌}
use mathlib.Core.Path.{◌≡◌, refl}
use mathlib.Core.Bool.{Bool, ◌&&◌, ◌||◌}

-- How often to halve until 53 bits are left. 256 rounds serve a uint256.
unfoldable pub excess_bits : ℕ → ℕ → ℕ
excess_bits zero n = 0
excess_bits (suc fuel) n =
    let more = suc (excess_bits fuel (n / 2)) in if ltb n (2 ^ 53) then 0 else more

-- Is the part `r` below the `k`th bit above the half, or at the half of an odd `q`?
unfoldable pub rounds_up : ℕ → ℕ → ℕ → Bool
rounds_up k q r = ltb (2 ^ k) (2 * r) || (2 * r == 2 ^ k && q % 2 == 1)

unfoldable pub number : ℕ → ℕ
unfolding excess_bits rounds_up
number n =
    let k = excess_bits 256 n in
    let q = n / 2 ^ k in
    let r = n % 2 ^ k in if k == 0 then n else ((if rounds_up k q r then q + 1 else q) * 2 ^ k)

excess_bits-zero : (fuel n : ℕ) → n < 2 ^ 53 → excess_bits fuel n ≡ 0
unfolding excess_bits
excess_bits-zero zero n h = refl
excess_bits-zero (suc fuel) n h = rw (lt→ltb n (2 ^ 53) h)

-- Below 2^53 nothing is lost.
pub number_exact : (n : ℕ) → n < 2 ^ 53 → number n ≡ n
unfolding number
number_exact n h = rw (excess_bits-zero 256 n h)

number_rounds : number (2 ^ 53 + 3) ≡ 2 ^ 53 + 4
unfolding number
number_rounds = refl
