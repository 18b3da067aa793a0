-- ===== src/Common/BigInt/RoundTrip.antt =====
-- Reading back a printed bigint gives the same bigint.
use Prim.Native.Nat.{ℕ, zero, suc, ◌+◌, ◌*◌, ◌/◌, ◌%◌, ◌≤◌, ◌<◌}
use mathlib.Core.Path.{◌≡◌, refl, ◌∙◌, ap}
use mathlib.Core.Logic.{inl, inr}
use mathlib.Core.Bool.{true, false}
use mathlib.Core.Option.{some}
use mathlib.Core.List.{[], ◌∷◌, ◌++◌, reverse, reverse-append, reverse-reverse}
use native.Mathlib.Omega.{arith}
use ethonline.Common.Tests.{ltb, Bool-cases}
use ethonline.Common.Lists.{All, All-append}
use ethonline.Common.Int.{ℤ, pos, negsuc}
use ethonline.Common.Text.{Text, starts_with, is_space, trim_start, trim}
use ethonline.Common.BigInt.{
  digit_value, parse_from, parse_signed, parse_trimmed, parse_big_int, digit, print_from, print_nat,
  print_big_int,
}

abbrev IsDigit : ℕ → Type 0
IsDigit c = (b'0' ≤ c) × (c ≤ b'9')

digit_value-digit : (n : ℕ) → n < 10 → digit_value (digit n) ≡ n
unfolding digit_value
digit_value-digit n h = ground arith

parse_from-concat :
    (acc v n : ℕ) (s : Text)
    → n < 10
    → parse_from 10 acc s ≡ some v
    → parse_from 10 acc (s ++ digit n ∷ []) ≡ some (v * 10 + n)
unfolding parse_from
parse_from-concat acc v n [] h e = ground (arith, digit_value-digit n h)
parse_from-concat acc v n (c ∷ s) h e =
    ground (arith, parse_from-concat (acc * 10 + digit_value c) v n s h)

print_from-small : (f n : ℕ) → ltb n 10 ≡ true → print_from (suc f) n ≡ digit n ∷ []
unfolding print_from
print_from-small f n h = ground arith

print_from-big :
    (f n : ℕ)
    → ltb n 10 ≡ false
    → print_from (suc f) n ≡ print_from f (n / 10) ++ digit (n % 10) ∷ []
unfolding print_from
print_from-big f n h = ground arith

-- Reading back what `print_from` writes.
parse_from-print_from : (f n : ℕ) → n < f → parse_from 10 0 (print_from f n) ≡ some n
parse_from-print_from zero n h = absurd (omega arith)
parse_from-print_from (suc f) n h = elim (Bool-cases (ltb n 10)) [
  | inl small ↦ rw (print_from-small f n small) (
      parse_from-concat 0 0 n [] (ground arith) (unfold parse_from in refl) ∙ ap some (omega arith))
  | inr big ↦ rw (print_from-big f n big) (
      parse_from-concat 0 (n / 10) (n % 10) (print_from f (n / 10)) (omega arith)
        (parse_from-print_from f (n / 10) (ground arith))
      ∙ ap some (omega arith))
]

print_from-IsDigit : (f n : ℕ) → All IsDigit (print_from f n)
print_from-IsDigit zero n = unfold print_from in tt
print_from-IsDigit (suc f) n = elim (Bool-cases (ltb n 10)) [
  | inl small ↦ rw (print_from-small f n small) (ground arith)
  | inr big ↦
      rw (print_from-big f n big)
        (All-append IsDigit (print_from f (n / 10)) _ (print_from-IsDigit f (n / 10)) (omega arith))
]

-- The first code unit is a digit.
print_from-cons : (f n : ℕ) → n < f → (c : ℕ) × (s : Text) × (print_from f n ≡ c ∷ s)
print_from-cons zero n h = absurd (omega arith)
print_from-cons (suc f) n h = elim (Bool-cases (ltb n 10)) [
  | inl small ↦ (digit n, [], print_from-small f n small)
  | inr big ↦
      let (c, s, e) = print_from-cons f (n / 10) (ground arith) in
      (c, s ++ digit (n % 10) ∷ [], print_from-big f n big ∙ rw e)
]

is_space-digit : (c : ℕ) → IsDigit c → is_space c ≡ false
unfolding is_space
is_space-digit c h = ground arith

abbrev IsPlain : ℕ → Type 0
IsPlain c = is_space c ≡ false

All-IsPlain : (s : Text) → All IsDigit s → All IsPlain s
All-IsPlain [] h = tt
All-IsPlain (c ∷ s) h = (is_space-digit c h.0, All-IsPlain s h.1)

trim_start-IsPlain : (s : Text) → All IsPlain s → trim_start s ≡ s
unfolding trim_start
trim_start-IsPlain [] h = refl
trim_start-IsPlain (c ∷ s) h = ground arith

reverse-IsPlain : (s : Text) → All IsPlain s → All IsPlain (reverse s)
reverse-IsPlain [] h = tt
reverse-IsPlain (c ∷ s) h =
    rw (reverse-append (c ∷ []) s)
      (All-append IsPlain (reverse s) (c ∷ []) (reverse-IsPlain s h.1) (h.0, tt))

-- Text with no white space in it has none at its ends.
trim-IsPlain : (s : Text) → All IsPlain s → trim s ≡ s
unfolding trim
trim-IsPlain s h =
    rw (trim_start-IsPlain s h)
      (rw (trim_start-IsPlain (reverse s) (reverse-IsPlain s h)) (reverse-reverse s))

no_prefix :
    (c b : ℕ) (s : Text)
    → All IsDigit (c ∷ s)
    → b'9' < b
    → starts_with (c ∷ s) (48 ∷ b ∷ []) ≡ false
unfolding starts_with
no_prefix c b [] h lt = ground arith
no_prefix c b (d ∷ s) h lt = ground arith

parse_signed-digits :
    (c : ℕ) (s : Text) (n : ℕ)
    → IsDigit c
    → parse_from 10 0 (c ∷ s) ≡ some n
    → parse_signed (c ∷ s) ≡ some (pos n)
unfolding parse_signed
parse_signed-digits c s n h e = ground arith

-- A numeral of digits alone has no radix prefix and no sign.
parse_trimmed-digits :
    (c : ℕ) (s : Text) (n : ℕ)
    → All IsDigit (c ∷ s)
    → parse_from 10 0 (c ∷ s) ≡ some n
    → parse_trimmed (c ∷ s) ≡ some (pos n)
parse_trimmed-digits c s n h e =
    rw
      (
        no_prefix c b'x' s h (omega arith),
        no_prefix c b'X' s h (omega arith),
        no_prefix c b'o' s h (omega arith),
        no_prefix c b'O' s h (omega arith),
        no_prefix c b'b' s h (omega arith),
        no_prefix c b'B' s h (omega arith),
      )
      (parse_signed-digits c s n h.0 e)

parse_big_int-print_nat : (n : ℕ) → parse_big_int (print_nat n) ≡ some (pos n)
unfolding parse_big_int print_nat
parse_big_int-print_nat n =
    let (c, s, e) = print_from-cons (suc n) n (omega arith) in
    let digits : All IsDigit (c ∷ s) = rw e at (print_from-IsDigit (suc n) n) in
    let value : parse_from 10 0 (c ∷ s) ≡ some n =
      rw e at (parse_from-print_from (suc n) n (omega arith)) in
    rw e (
      rw (trim-IsPlain (c ∷ s) (All-IsPlain (c ∷ s) digits))
        (parse_trimmed-digits c s n digits value))

no_prefix_minus : (b : ℕ) (s : Text) → starts_with (b'-' ∷ s) (48 ∷ b ∷ []) ≡ false
unfolding starts_with
no_prefix_minus b s = ground arith

parse_signed-minus :
    (c : ℕ) (s : Text) (n : ℕ)
    → parse_from 10 0 (c ∷ s) ≡ some (suc n)
    → parse_signed (b'-' ∷ c ∷ s) ≡ some (negsuc n)
unfolding parse_signed
parse_signed-minus c s n e = ground arith

parse_trimmed-minus :
    (c : ℕ) (s : Text) (n : ℕ)
    → parse_from 10 0 (c ∷ s) ≡ some (suc n)
    → parse_trimmed (b'-' ∷ c ∷ s) ≡ some (negsuc n)
parse_trimmed-minus c s n e = simp no_prefix_minus (parse_signed-minus c s n e)

is_space-minus : is_space b'-' ≡ false
unfolding is_space
is_space-minus = refl

parse_big_int-print_negsuc : (n : ℕ) → parse_big_int (print_big_int (negsuc n)) ≡ some (negsuc n)
unfolding parse_big_int print_big_int
parse_big_int-print_negsuc n =
    let m = suc n in
    let (c, s, e) = print_from-cons (suc m) m (omega arith) in
    let digits : All IsDigit (c ∷ s) = rw e at (print_from-IsDigit (suc m) m) in
    let value : parse_from 10 0 (c ∷ s) ≡ some m =
      rw e at (parse_from-print_from (suc m) m (omega arith)) in
    rw e (
      rw (trim-IsPlain (b'-' ∷ c ∷ s) (is_space-minus, All-IsPlain (c ∷ s) digits))
        (parse_trimmed-minus c s n value))

-- `BigInt(z.toString())` is `z`, for every bigint `z`.
pub parse_big_int-print_big_int : (z : ℤ) → parse_big_int (print_big_int z) ≡ some z
parse_big_int-print_big_int (pos n) = unfold print_big_int in parse_big_int-print_nat n
parse_big_int-print_big_int (negsuc n) = parse_big_int-print_negsuc n
