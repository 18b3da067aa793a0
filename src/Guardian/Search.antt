-- ===== src/Guardian/Search.antt =====
-- The search of `containsTokenFromCluster` finds exactly the whole words of the text.
use ethonline.Common.{
  ℕ, ◌≡◌, ◌∙◌, refl, ◌↔◌, Bool, true, false, not, [], ◌∷◌, ◌++◌, ◌&&◌, arith, ap, Bool-cases, inl,
  inr,
}
use ethonline.Common.Text.{Text}
use ethonline.Guardian.Words.{
  IsToken, ends_in_word, IsWholeWord, match_token_sound, match_token_complete,
}
use ethonline.Guardian.Tokens.{is_word, match_token, occurs_from}

-- What `match_token` finds at some place.
record IsMatched (prev : Bool) (token text : Text) : Type 0 where
  before : Text
  rest : Text
  splits : text ≡ before ++ rest
  left : ends_in_word prev before ≡ false
  right : match_token token rest ≡ true

occurs_from_sound : (prev : Bool) (t s : Text) → occurs_from prev t s ≡ true → IsMatched prev t s
unfolding occurs_from
occurs_from_sound prev t [] h = record {
  before = [];
  rest = [];
  splits = refl;
  left = ground arith;
  right = ground arith;
}
occurs_from_sound prev t (c ∷ s) h = elim (Bool-cases (not prev && match_token t (c ∷ s))) [
  | inl now ↦ record {
    before = [];
    rest = c ∷ s;
    splits = refl;
    left = ground arith;
    right = ground arith;
  }
  | inr later ↦
      let w = occurs_from_sound (is_word c) t s (ground arith) in
      record {
        before = c ∷ w.before;
        rest = w.rest;
        splits = ap (λ (u : Text). c ∷ u) w.splits;
        left = w.left;
        right = w.right;
      }
]

occurs_from-here : (t rest : Text) → match_token t rest ≡ true → occurs_from false t rest ≡ true
unfolding occurs_from
occurs_from-here t [] h = ground arith
occurs_from-here t (c ∷ s) h = ground arith

occurs_from-later :
    (prev : Bool) (t : Text) (c : ℕ) (s : Text)
    → occurs_from (is_word c) t s ≡ true
    → occurs_from prev t (c ∷ s) ≡ true
unfolding occurs_from
occurs_from-later prev t c s h = ground arith

occurs_from_complete :
    (prev : Bool) (t before rest : Text)
    → ends_in_word prev before ≡ false
    → match_token t rest ≡ true
    → occurs_from prev t (before ++ rest) ≡ true
occurs_from_complete prev t [] rest l r = rw l (occurs_from-here t rest r)
occurs_from_complete prev t (c ∷ before) rest l r =
    occurs_from-later prev t c (before ++ rest) (occurs_from_complete (is_word c) t before rest l r)

occurs_from-IsMatched :
    (prev : Bool) (t s : Text) → (occurs_from prev t s ≡ true) ↔ IsMatched prev t s
occurs_from-IsMatched prev t s = (
  occurs_from_sound prev t s,
  λ w. rw w.splits (occurs_from_complete prev t w.before w.rest w.left w.right),
)

-- The left-to-right search answers exactly whether the token stands in the text as a whole word,
-- at any position, for a token in which each space is followed by a character that is no white
-- space.
pub occurs_from_iff :
    (prev : Bool) (t s : Text) → IsToken t → (occurs_from prev t s ≡ true) ↔ IsWholeWord prev t s
occurs_from_iff prev t s token = (
  λ found.
      let w = occurs_from_sound prev t s found in
      let (word, after, splits, spells, boundary) = match_token_sound t w.rest w.right in
      record {
        before = w.before;
        word = word;
        after = after;
        splits = w.splits ∙ ap (λ u. w.before ++ u) splits;
        left = w.left;
        spells = spells;
        right = boundary;
      },
  λ w. rw w.splits (
      occurs_from_complete prev t w.before (w.word ++ w.after) w.left
        (match_token_complete t w.word w.after token w.spells w.right)),
)
