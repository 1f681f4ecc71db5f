-- ===== src/Prelude/Trim.antt =====
-- `trim`, `toUpperCase` and `BigInt` of a JavaScript string.
use centry.Prelude.Tests.{ltb, leb, ◌==◌, if◌then◌else◌}
use centry.Prelude.Text.{Text}
use centry.Prelude.Int.{ℤ, pos, negsuc}
use Prim.Native.Nat.{ℕ, zero, suc, ◌+◌, ◌-◌, ◌*◌}
use mathlib.Core.Bool.{Bool, ◌&&◌, ◌||◌}
use mathlib.Core.Option.{Option, none, some}
use mathlib.Core.List.{[], ◌∷◌, map, reverse}

-- White space and line ends, as JavaScript has them.
unfoldable pub is_space : ℕ → Bool
is_space c =
    (leb 9 c && leb c 13)
    || c == 32
    || c == 160
    || c == 5760
    || (leb 8192 c && leb c 8202)
    || c == 8232
    || c == 8233
    || c == 8239
    || c == 8287
    || c == 12288
    || c == 65279

unfoldable pub trim_start : Text → Text
unfolding is_space
trim_start [] = []
trim_start (c ∷ t) = let rest = trim_start t in if is_space c then rest else c ∷ t

unfoldable pub trim : Text → Text
unfolding trim_start
trim t = reverse (trim_start (reverse (trim_start t)))

-- `toUpperCase` of one code unit of an ASCII string.
unfoldable pub upper : ℕ → ℕ
upper c = if leb b'a' c && leb c b'z' then c - 32 else c

unfoldable pub to_upper_case : Text → Text
unfolding upper
to_upper_case t = map upper t

-- The value of a digit, up to 36.
unfoldable pub digit : ℕ → ℕ
digit c =
    if leb b'0' c && leb c b'9'
    then c - b'0'
    else (if leb b'a' c && leb c b'z'
        then c - b'a' + 10
        else (if leb b'A' c && leb c b'Z' then c - b'A' + 10 else 36))

-- The digits after a first part of the value `acc`.
unfoldable pub digits_from : ℕ → ℕ → Text → Option ℕ
unfolding digit
digits_from base acc [] = some acc
digits_from base acc (c ∷ t) =
    let rest = digits_from base (acc * base + digit c) t in
    if ltb (digit c) base then rest else none

-- At least one digit.
unfoldable pub digits : ℕ → Text → Option ℕ
unfolding digits_from
digits base [] = none
digits base (c ∷ t) = digits_from base 0 (c ∷ t)

abbrev pub minus : ℕ → ℤ
minus zero = pos zero
minus (suc n) = negsuc n

unfoldable pub signed : (ℕ → ℤ) → Option ℕ → Option ℤ
signed sign none = none
signed sign (some n) = some (sign n)

-- The number after its first character: a sign, or `0` and perhaps a base.
unfoldable pub signed_digits : ℕ → Text → Option ℤ
unfolding digits signed
signed_digits c t =
    if c == b'-'
    then signed minus (digits 10 t)
    else (if c == b'+' then signed pos (digits 10 t) else signed pos (digits 10 (c ∷ t)))

unfoldable pub big_int_trimmed : Text → Option ℤ
unfolding signed_digits
big_int_trimmed [] = some (pos 0)
big_int_trimmed (a ∷ []) = signed_digits a []
big_int_trimmed (a ∷ b ∷ t) =
    if a == b'0' && (b == b'x' || b == b'X')
    then signed pos (digits 16 t)
    else (if a == b'0' && (b == b'o' || b == b'O')
        then signed pos (digits 8 t)
        else (if a == b'0' && (b == b'b' || b == b'B')
            then signed pos (digits 2 t)
            else signed_digits a (b ∷ t)))

-- `BigInt(t)`, with `none` for a `SyntaxError`.
unfoldable pub big_int : Text → Option ℤ
unfolding trim big_int_trimmed
big_int t = big_int_trimmed (trim t)
