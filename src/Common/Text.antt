-- ===== src/Common/Text.antt =====
-- JavaScript strings as lists of UTF-16 code units, with the string methods that the source calls.
-- `toLowerCase` is modelled on every character whose lower case holds an ASCII letter.
use Prim.Native.Nat.{ℕ, ◌+◌}
use Prim.Native.Char.{code}
use Prim.Native.String.{String}
use mathlib.Core.Path.{◌≡◌, refl}
use mathlib.Core.Logic.{◌↔◌, inl, inr}
use mathlib.Core.Bool.{Bool, true, false, ◌&&◌, ◌||◌}
use mathlib.Core.Option.{Option, none, some}
use mathlib.Core.List.{List, [], ◌∷◌, ◌++◌, reverse, reverse-append}
use native.Mathlib.Omega.{arith}
use ethonline.Common.Tests.{leb, ◌==◌, if◌then◌else◌, Bool-cases}

abbrev pub Text : Type 0
Text = List ℕ

-- The code units of a literal.
abbrev pub codes : String → Text
codes String.[] = []
codes (String.◌∷◌ c s) = code c ∷ codes s

-- `a === b`
unfoldable pub text_eq : Text → Text → Bool
text_eq [] [] = true
text_eq (a ∷ s) (b ∷ t) = a == b && text_eq s t
text_eq _ _ = false

text_eq_sound : (s t : Text) → text_eq s t ≡ true → s ≡ t
unfolding text_eq
text_eq_sound [] [] h = refl
text_eq_sound [] (b ∷ t) h = cc
text_eq_sound (a ∷ s) [] h = cc
text_eq_sound (a ∷ s) (b ∷ t) h = ground (arith, text_eq_sound s t)

pub text_eq_refl : (s : Text) → text_eq s s ≡ true
unfolding text_eq
text_eq_refl [] = refl
text_eq_refl (a ∷ s) = ground (arith, text_eq_refl s)

pub text_eq_iff : (s t : Text) → (text_eq s t ≡ true) ↔ (s ≡ t)
text_eq_iff s t = (text_eq_sound s t, λ e. rw e (text_eq_refl t))

-- `a.includes(b)` on an array of strings
unfoldable pub contains : List Text → Text → Bool
contains [] t = false
contains (s ∷ ss) t = text_eq s t || contains ss t

-- `s.startsWith(p)`
unfoldable pub starts_with : Text → Text → Bool
starts_with s [] = true
starts_with [] (b ∷ p) = false
starts_with (a ∷ s) (b ∷ p) = a == b && starts_with s p

-- What follows the prefix `p` in `s`.
unfoldable pub drop_prefix : Text → Text → Option Text
drop_prefix [] s = some s
drop_prefix (b ∷ p) [] = none
drop_prefix (b ∷ p) (c ∷ s) = let rest = drop_prefix p s in if b == c then rest else none

pub drop_prefix-append : (p s : Text) → drop_prefix p (p ++ s) ≡ some s
unfolding drop_prefix
drop_prefix-append [] s = refl
drop_prefix-append (b ∷ p) s = ground (arith, drop_prefix-append p s)

pub starts_with-append : (p s : Text) → starts_with (p ++ s) p ≡ true
unfolding starts_with
starts_with-append [] s = refl
starts_with-append (b ∷ p) s = ground (arith, starts_with-append p s)

-- The Kelvin sign, 8490, is the one character beyond ASCII whose lower case is an ASCII letter.
abbrev lower_code : ℕ → ℕ
lower_code c = if leb b'A' c && leb c b'Z' then c + 32 else if c == 8490 then b'k' else c

-- `s.toLowerCase()`; the capital I with a dot, 304, becomes two characters, of which the first is an
-- ASCII letter. Other letters beyond ASCII are left alone: the code compares with ASCII words and
-- addresses, in which no form of them stands.
unfoldable pub to_lower : Text → Text
to_lower [] = []
to_lower (c ∷ s) =
    let rest = to_lower s in if c == 304 then b'i' ∷ 775 ∷ rest else lower_code c ∷ rest

lower_code_lem : (c : ℕ) → lower_code (lower_code c) ≡ lower_code c
lower_code_lem c = ground arith

pub to_lower-to_lower : (s : Text) → to_lower (to_lower s) ≡ to_lower s
unfolding to_lower
to_lower-to_lower [] = refl
to_lower-to_lower (c ∷ s) = elim (Bool-cases (c == 304)) [
  | inl dotted ↦ rw (dotted, to_lower-to_lower s) refl
  | inr plain ↦
      let stays : lower_code c == 304 ≡ false = ground arith in
      rw (plain, stays, lower_code_lem c, to_lower-to_lower s) refl
]

-- The white space and line terminators of ECMAScript, which `trim` removes and `\s` matches.
unfoldable pub is_space : ℕ → Bool
is_space c =
    (leb 9 c && leb c 13)
    || c == 32
    || c == 160
    || c == 5760
    || (leb 8192 c && leb c 8202)
    || c == 8232
    || c == 8233
    || c == 8239
    || c == 8287
    || c == 12288
    || c == 65279

unfoldable pub trim_start : Text → Text
trim_start [] = []
trim_start (c ∷ s) = elim (is_space c) [ true ↦ trim_start s | false ↦ c ∷ s ]

-- `s.trim()`
unfoldable pub trim : Text → Text
unfolding trim_start is_space
trim s = reverse (trim_start (reverse (trim_start s)))

abbrev pub is_empty : Text → Bool
is_empty [] = true
is_empty (c ∷ s) = false

trim_start-concat :
    (c : ℕ) (s : Text) → is_space c ≡ false → is_empty (trim_start (s ++ c ∷ [])) ≡ false
unfolding trim_start
trim_start-concat c [] h = ground arith
trim_start-concat c (b ∷ s) h = ground (arith, trim_start-concat c s h)

is_empty-reverse : (s : Text) → is_empty s ≡ false → is_empty (reverse s) ≡ false
is_empty-reverse [] h = h
is_empty-reverse (c ∷ s) h = rw (reverse-append (c ∷ []) s) (is_empty-concat (reverse s) c)
  where
    is_empty-concat : (t : Text) (b : ℕ) → is_empty (t ++ b ∷ []) ≡ false
    is_empty-concat [] b = refl
    is_empty-concat (a ∷ t) b = refl

-- A text that begins with something other than white space is not blank.
pub trim-cons : (c : ℕ) (s : Text) → is_space c ≡ false → is_empty (trim (c ∷ s)) ≡ false
unfolding trim
trim-cons c s h =
    let stays : trim_start (c ∷ s) ≡ c ∷ s = unfold trim_start in ground arith in
    rw stays (
      rw (reverse-append (c ∷ []) s)
        (is_empty-reverse (trim_start (reverse s ++ c ∷ [])) (trim_start-concat c (reverse s) h)))

-- A falsy optional string: `undefined`, `null` and the empty string.
abbrev pub truthy : Option Text → Option Text
truthy none = none
truthy (some []) = none
truthy (some (c ∷ s)) = some (c ∷ s)

pub truthy-some : (o : Option Text) (t : Text) → truthy o ≡ some t → o ≡ some t
truthy-some none t e = e
truthy-some (some []) t e = cc
truthy-some (some (c ∷ u)) t e = e

-- `[0-9a-fA-F]`
abbrev pub is_hex : ℕ → Bool
is_hex c = (leb b'0' c && leb c b'9') || (leb b'a' c && leb c b'f') || (leb b'A' c && leb c b'F')

unfoldable pub all_hex : Text → Bool
all_hex [] = true
all_hex (c ∷ s) = is_hex c && all_hex s

-- `s.split(c)` on one code unit
abbrev pub push_code : ℕ → List Text → List Text
push_code c [] = (c ∷ []) ∷ []
push_code c (t ∷ ts) = (c ∷ t) ∷ ts

unfoldable pub split : ℕ → Text → List Text
split c [] = [] ∷ []
split c (b ∷ s) = let rest = split c s in if b == c then [] ∷ rest else push_code b rest
