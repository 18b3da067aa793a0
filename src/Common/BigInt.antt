-- ===== src/Common/BigInt.antt =====
-- `BigInt(s)` and `toString()` of the source's bigints.
pub mod RoundTrip
use Prim.Native.Nat.{ℕ, zero, suc, ◌+◌, ◌-◌, ◌*◌, ◌/◌, ◌%◌}
use mathlib.Core.Bool.{Bool, true, false, ◌&&◌, ◌||◌}
use mathlib.Core.Option
use mathlib.Core.Option.{Option, none, some}
use mathlib.Core.List.{[], ◌∷◌, ◌++◌}
use ethonline.Common.Tests.{ltb, leb, ◌==◌, if◌then◌else◌}
use ethonline.Common.Int.{ℤ, pos, negsuc, sub_ℕ}
use ethonline.Common.Text.{Text, starts_with, trim}

-- The value of a digit or letter in a numeral, 36 for any other code unit.
unfoldable pub digit_value : ℕ → ℕ
digit_value c =
    if leb b'0' c && leb c b'9'
    then c - b'0'
    else if leb b'a' c && leb c b'z'
    then c - 87
    else if leb b'A' c && leb c b'Z'
    then c - 55
    else 36

unfoldable pub parse_from : ℕ → ℕ → Text → Option ℕ
parse_from radix acc [] = some acc
parse_from radix acc (c ∷ s) = elim (ltb (digit_value c) radix) [
  | true ↦ parse_from radix (acc * radix + digit_value c) s
  | false ↦ none
]

-- At least one digit.
unfoldable pub parse_digits : ℕ → Text → Option ℕ
unfolding parse_from digit_value
parse_digits radix [] = none
parse_digits radix (c ∷ s) = parse_from radix 0 (c ∷ s)

unfoldable pub skip_two : Text → Text
skip_two (a ∷ b ∷ s) = s
skip_two _ = []

abbrev has_prefix : Text → ℕ → ℕ → Bool
has_prefix s b c = starts_with s (b'0' ∷ b ∷ []) || starts_with s (b'0' ∷ c ∷ [])

abbrev negate : ℕ → ℤ
negate n = sub_ℕ 0 n

-- A decimal literal with an optional sign, or an unsigned one.
unfoldable pub parse_signed : Text → Option ℤ
unfolding parse_digits
parse_signed [] = some (pos 0)
parse_signed (c ∷ s) =
    if c == b'-'
    then Option.map negate (parse_digits 10 s)
    else Option.map pos (parse_digits 10 (if c == b'+' then s else c ∷ s))

abbrev parse_trimmed : Text → Option ℤ
parse_trimmed s =
    if has_prefix s b'x' b'X'
    then Option.map pos (parse_digits 16 (skip_two s))
    else if has_prefix s b'o' b'O'
    then Option.map pos (parse_digits 8 (skip_two s))
    else if has_prefix s b'b' b'B'
    then Option.map pos (parse_digits 2 (skip_two s))
    else parse_signed s

-- `BigInt(s)`; `none` is the SyntaxError.
unfoldable pub parse_big_int : Text → Option ℤ
unfolding trim parse_signed skip_two starts_with
parse_big_int s = parse_trimmed (trim s)

abbrev digit : ℕ → ℕ
digit n = b'0' + n

-- The decimal digits of `n`; a fuel of `n + 1` is enough, since each step divides by ten.
unfoldable pub print_from : ℕ → ℕ → Text
print_from zero n = []
print_from (suc f) n = elim (ltb n 10) [
  | true ↦ digit n ∷ []
  | false ↦ print_from f (n / 10) ++ digit (n % 10) ∷ []
]

unfoldable pub print_nat : ℕ → Text
unfolding print_from
print_nat n = print_from (suc n) n

-- `z.toString()`
unfoldable pub print_big_int : ℤ → Text
unfolding print_nat
print_big_int (pos n) = print_nat n
print_big_int (negsuc n) = b'-' ∷ print_nat (suc n)
