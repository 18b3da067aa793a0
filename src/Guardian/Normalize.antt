-- ===== src/Guardian/Normalize.antt =====
-- `normalizeText` of risk-analysis.service.ts.
use ethonline.Common.{
  ℕ, Bool, true, false, ◌&&◌, ◌||◌, List, [], ◌∷◌, ◌++◌, leb, ◌==◌, any, map, if◌then◌else◌,
}
use ethonline.Common.Text.{Text, to_lower, is_space, trim}

-- `LEET_SUBSTITUTION_MAP`; 0 where the map has no entry.
unfoldable pub leet_substitution : ℕ → ℕ
leet_substitution c =
    if c == b'0'
    then b'o'
    else if c == b'1' || c == b'!'
    then b'i'
    else if c == b'|'
    then b'l'
    else if c == b'3'
    then b'e'
    else if c == b'4' || c == b'@'
    then b'a'
    else if c == b'5' || c == b'$'
    then b's'
    else if c == b'7' || c == b'+'
    then b't'
    else if c == b'8'
    then b'b'
    else if c == b'9'
    then b'g'
    else 0

-- The characters that `/[\._\-\/\\\|\+\*\^~`,;:]/g` replaces by a space.
unfoldable pub is_separator : ℕ → Bool
is_separator c =
    c == b'.'
    || c == b'_'
    || c == b'-'
    || c == b'/'
    || c == 92
    || c == b'|'
    || c == b'+'
    || c == b'*'
    || c == b'^'
    || c == b'~'
    || c == 96
    || c == b','
    || c == b';'
    || c == b':'

unfoldable pub pre_split : Text → Text
unfolding is_separator
pre_split s = map (λ c. if is_separator c then 32 else c) s

abbrev add_word : Text → List Text → List Text
add_word [] ws = ws
add_word (c ∷ w) ws = (c ∷ w) ∷ ws

-- `preSplit.split(/\s+/).filter(Boolean)`, with the word read so far.
unfoldable pub words_from : Text → Text → List Text
words_from w [] = add_word w []
words_from w (c ∷ s) = elim (is_space c) [
  | true ↦ add_word w (words_from [] s)
  | false ↦ words_from (w ++ c ∷ []) s
]

abbrev is_digit : ℕ → Bool
is_digit c = leb b'0' c && leb c b'9'

abbrev is_letter : ℕ → Bool
is_letter c = leb b'a' c && leb c b'z'

-- After at least one digit, `/[0-9]*%?$/`.
unfoldable pub rest_is_number : Text → Bool
rest_is_number [] = true
rest_is_number (c ∷ []) = is_digit c || c == b'%'
rest_is_number (c ∷ d ∷ s) = is_digit c && rest_is_number (d ∷ s)

-- `/^[0-9]+%?$/`
unfoldable pub is_number : Text → Bool
unfolding rest_is_number
is_number [] = false
is_number (c ∷ s) = is_digit c && rest_is_number s

-- The loop over the characters of a word: the text so far and whether a substitution counted.
unfoldable pub deobfuscate : Bool → Text → Bool → Text → Text × Bool
deobfuscate has_letters deob leet [] = (deob, leet)
deobfuscate has_letters deob leet (c ∷ s) =
    let l = leet_substitution c in
    let deob' = deob ++ (if l == 0 then c else l) ∷ [] in
    deobfuscate has_letters deob'
      (if l == 0 then leet else leet || has_letters || any is_letter deob') s

-- One word, and whether it was written in leetspeak.
unfoldable pub normalize_word : Text → Text × Bool
unfolding is_number deobfuscate
normalize_word word =
    if is_number word
    then (to_lower word, false)
    else let lower = to_lower word in
      let (deob, leet) = deobfuscate (any is_letter lower) [] false lower in
      (if leet then deob else lower, leet)

-- `words.join(' ')`
unfoldable pub join : List Text → Text
join [] = []
join (w ∷ []) = w
join (w ∷ v ∷ ws) = w ++ (32 ∷ join (v ∷ ws))

pub record Normalized : Type 0 where
  pub normalized : Text
  pub was_leetspeak : Bool

-- `normalizeText`
unfoldable pub normalize_text : Text → Normalized
unfolding pre_split normalize_word join
normalize_text input =
    let words = map normalize_word (words_from [] (pre_split input)) in
    record { normalized = trim (join (map (λ w. w.0) words)); was_leetspeak = any (λ w. w.1) words }
