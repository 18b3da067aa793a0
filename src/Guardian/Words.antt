-- ===== src/Guardian/Words.antt =====
-- What a whole word of a text is, and that `match_token` finds one at the start of a text.
use ethonline.Common.{
  ℕ, ◌≡◌, ◌≢◌, refl, sym, ap, ◌∙◌, Bool, true, false, not, [], ◌∷◌, ◌++◌, ◌&&◌, ◌==◌, All, any,
  arith, Bool-cases, inl, inr,
}
use ethonline.Common.Text.{Text, is_space, trim_start}
use ethonline.Guardian.Tokens.{
  is_word, ends_word, match_token, subversion_intent_tokens, target_constraint_tokens,
  exfiltration_intent_tokens,
}

-- A piece of text that spells the token: each space of the token stands for one or more characters
-- of white space, and every other character for itself.
pub data Spells : Text → Text → Type 0 where
  ends : Spells [] []
  letter : {rest piece : Text} (c : ℕ) → c ≢ 32 → Spells rest piece → Spells (c ∷ rest) (c ∷ piece)
  space :
      {rest piece : Text} (c : ℕ) (more : Text)
      → is_space c ≡ true
      → All (λ d. is_space d ≡ true) more
      → Spells rest piece
      → Spells (32 ∷ rest) (c ∷ (more ++ piece))

-- No word character stands at the start.
abbrev pub IsBoundary : Text → Type 0
IsBoundary [] = Unit
IsBoundary (c ∷ s) = is_word c ≡ false

-- Each space is followed by a character that is no white space.
abbrev pub is_token : Text → Bool
is_token [] = true
is_token (c ∷ []) = not (c == 32)
is_token (c ∷ d ∷ t) = not (c == 32 && is_space d) && is_token (d ∷ t)

abbrev pub IsToken : Text → Type 0
IsToken t = is_token t ≡ true

-- Every token of the clusters is of this form.
clusters-IsToken :
    any
      (λ t. not (is_token t))
      (subversion_intent_tokens ++ (target_constraint_tokens ++ exfiltration_intent_tokens))
    ≡ false
unfolding is_space
clusters-IsToken = refl

-- Whether a word character stands at the end of `s`, or before it if `s` is empty.
abbrev pub ends_in_word : Bool → Text → Bool
ends_in_word prev [] = prev
ends_in_word prev (c ∷ s) = ends_in_word (is_word c) s

-- The token stands in the text as a whole word: a piece of the text spells it, the part before it
-- does not end in a word character and the part after it does not begin with one.
pub record IsWholeWord (prev : Bool) (token text : Text) : Type 0 where
  pub before : Text
  pub word : Text
  pub after : Text
  pub splits : text ≡ before ++ (word ++ after)
  pub left : ends_in_word prev before ≡ false
  pub spells : Spells token word
  pub right : IsBoundary after

append_assoc : (a b c : Text) → (a ++ b) ++ c ≡ a ++ (b ++ c)
append_assoc [] b c = refl
append_assoc (x ∷ a) b c = ap (λ u. x ∷ u) (append_assoc a b c)

trim_start-splits :
    (s : Text) → (more : Text) × (s ≡ more ++ trim_start s) × All (λ d. is_space d ≡ true) more
unfolding trim_start
trim_start-splits [] = ([], refl, tt)
trim_start-splits (c ∷ s) = elim (Bool-cases (is_space c)) [
  | inr stays ↦ ([], rw (trim_start, stays) refl, tt)
  | inl blank ↦
      let (more, splits, spaces) = trim_start-splits s in
      (c ∷ more, rw (trim_start, blank) (ap (λ u. c ∷ u) splits), (blank, spaces))
]

trim_start-spaces :
    (more s : Text) → All (λ d. is_space d ≡ true) more → trim_start (more ++ s) ≡ trim_start s
unfolding trim_start
trim_start-spaces [] s h = refl
trim_start-spaces (c ∷ more) s h = rw (trim_start, h.0) (trim_start-spaces more s h.1)

trim_start-stays : (c : ℕ) (s : Text) → is_space c ≡ false → trim_start (c ∷ s) ≡ c ∷ s
unfolding trim_start
trim_start-stays c s stays = rw (trim_start, stays) refl

ends_word-IsBoundary : (s : Text) → ends_word s ≡ true → IsBoundary s
ends_word-IsBoundary [] h = tt
ends_word-IsBoundary (c ∷ s) h = ground arith

IsBoundary-ends_word : (s : Text) → IsBoundary s → ends_word s ≡ true
IsBoundary-ends_word [] h = refl
IsBoundary-ends_word (c ∷ s) h = ground arith

pub match_token_sound :
    (t s : Text)
    → match_token t s ≡ true
    → (word after : Text) × (s ≡ word ++ after) × Spells t word × IsBoundary after
unfolding match_token
match_token_sound [] s h = ([], s, refl, ends, ends_word-IsBoundary s h)
match_token_sound (b ∷ t) [] h = absurd (ground arith)
match_token_sound (b ∷ t) (c ∷ s) h = elim (Bool-cases (b == 32)) [
  | inl gap ↦
      let is : 32 ≡ b = ground arith in
      let blank : is_space c ≡ true = ground arith in
      let (word, after, splits, spells, right) =
        match_token_sound t (trim_start s) (ground arith) in
      let (more, whole, spaces) = trim_start-splits s in
      (
        c ∷ (more ++ word),
        after,
        ap (λ u. c ∷ u) (whole ∙ ap (λ u. more ++ u) splits ∙ sym (append_assoc more word after)),
        rw (← is) (space c more blank spaces spells),
        right,
      )
  | inr other ↦
      let same : c ≡ b = ground arith in
      let (word, after, splits, spells, right) = match_token_sound t s (ground arith) in
      (
        b ∷ word,
        after,
        ap (λ u. c ∷ u) splits ∙ ap (λ x. x ∷ (word ++ after)) same,
        letter b (ground arith) spells,
        right,
      )
]

tail-IsToken : (c : ℕ) (t : Text) → IsToken (c ∷ t) → IsToken t
tail-IsToken c [] h = refl
tail-IsToken c (d ∷ t) h = ground arith

-- After a space of a token comes a piece that begins with no white space.
Spells-stays :
    (t u after : Text) → IsToken (32 ∷ t) → Spells t u → trim_start (u ++ after) ≡ u ++ after
Spells-stays t u after token ends = absurd (ground arith)
Spells-stays t u after token (letter {rest} {piece} c other below) =
    trim_start-stays c (piece ++ after) (ground arith)
Spells-stays t u after token (space c more blank spaces below) =
    absurd (unfold is_space in ground arith)

pub match_token_complete :
    (t word after : Text)
    → IsToken t
    → Spells t word
    → IsBoundary after
    → match_token t (word ++ after) ≡ true
unfolding match_token
match_token_complete t word after token ends right = IsBoundary-ends_word after right
match_token_complete t word after token (letter {rest} {piece} c other below) right =
    let ih = match_token_complete rest piece after (tail-IsToken c rest token) below right in
    ground arith
match_token_complete t word after token (space {rest} {piece} c more blank spaces below) right =
    let ih = match_token_complete rest piece after (tail-IsToken 32 rest token) below right in
    let trimmed : trim_start ((more ++ piece) ++ after) ≡ piece ++ after =
      ap trim_start (append_assoc more piece after)
      ∙ trim_start-spaces more (piece ++ after) spaces
      ∙ Spells-stays rest piece after token below in
    rw (match_token, trimmed, ih, blank) refl
