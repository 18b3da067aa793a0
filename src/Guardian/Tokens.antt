-- ===== src/Guardian/Tokens.antt =====
-- `containsTokenFromCluster`: a token of a cluster as a whole word of the text, which is what the
-- pattern `(?<!\w)token(?!\w)` with `\s+` for each space of the token finds.
use ethonline.Common.{
  ℕ, Bool, true, false, not, ◌&&◌, ◌||◌, List, [], ◌∷◌, leb, ◌==◌, any, if◌then◌else◌,
}
use ethonline.Common.Text.{Text, codes, to_lower, is_space, trim_start}

-- `\w`
abbrev pub is_word : ℕ → Bool
is_word c =
    (leb b'0' c && leb c b'9')
    || (leb b'A' c && leb c b'Z')
    || c == b'_'
    || (leb b'a' c && leb c b'z')

-- `(?!\w)`
abbrev pub ends_word : Text → Bool
ends_word [] = true
ends_word (c ∷ s) = not (is_word c)

-- The token at the start of the text, with no word character behind it. A token has no two spaces
-- in a row, so `\s+` takes all the white space.
unfoldable pub match_token : Text → Text → Bool
match_token [] s = ends_word s
match_token (b ∷ t) [] = false
match_token (b ∷ t) (c ∷ s) =
    let rest = match_token t s in
    let after_space = match_token t (trim_start s) in
    if b == 32 then is_space c && after_space else b == c && rest

-- A search from left to right; `prev` is whether a word character stands before.
unfoldable pub occurs_from : Bool → Text → Text → Bool
occurs_from prev t [] = not prev && match_token t []
occurs_from prev t (c ∷ s) = (not prev && match_token t (c ∷ s)) || occurs_from (is_word c) t s

unfoldable pub contains_token_from_cluster : Text → List Text → Bool
unfolding occurs_from
contains_token_from_cluster text cluster = any (λ t. occurs_from false t (to_lower text)) cluster

-- `SUBVERSION_INTENT_TOKENS`
abbrev pub subversion_intent_tokens : List Text
subversion_intent_tokens =
    codes "ignore"
    ∷ codes "disregard"
    ∷ codes "override"
    ∷ codes "bypass"
    ∷ codes "forget"
    ∷ codes "neglect"
    ∷ codes "revoke"
    ∷ codes "cancel"
    ∷ codes "jailbreak"
    ∷ codes "dan"
    ∷ codes "unrestricted"
    ∷ codes "developer mode"
    ∷ []

-- `TARGET_CONSTRAINT_TOKENS`
abbrev pub target_constraint_tokens : List Text
target_constraint_tokens =
    codes "instruction"
    ∷ codes "instructions"
    ∷ codes "rule"
    ∷ codes "rules"
    ∷ codes "guard"
    ∷ codes "guardrail"
    ∷ codes "guardrails"
    ∷ codes "prompt"
    ∷ codes "system prompt"
    ∷ codes "mandate"
    ∷ codes "constraint"
    ∷ codes "constraints"
    ∷ []

-- `EXFILTRATION_INTENT_TOKENS`
abbrev pub exfiltration_intent_tokens : List Text
exfiltration_intent_tokens =
    codes "drain"
    ∷ codes "sweep"
    ∷ codes "empty"
    ∷ codes "liquidate"
    ∷ codes "100%"
    ∷ codes "all balance"
    ∷ codes "full balance"
    ∷ codes "entire balance"
    ∷ codes "all funds"
    ∷ codes "all assets"
    ∷ codes "unlimited allowance"
    ∷ codes "max allowance"
    ∷ []
