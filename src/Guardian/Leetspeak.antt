-- ===== src/Guardian/Leetspeak.antt =====
-- Every justification that x402-payments.service.ts writes counts as leetspeak: its first word is
-- "x402".
use ethonline.Common.{◌≡◌, refl, ◌≢◌, ◌↔◌, Bool, true, false, ◌||◌, [], ◌++◌}
use ethonline.Common.Text.{Text, codes, is_empty, is_space, to_lower, trim, trim-cons}
use ethonline.Guardian.Normalize.{normalize_text, words_from, leet_substitution, Normalized}
use ethonline.Guardian.Semantic.{
  perform_semantic_analysis, is_subversive, is_exfiltrating, names_constraint, assess,
  analyse_normalized,
}

-- The text that the spending policy hands to the analysis.
abbrev pub x402_text : Text → Text
x402_text s = codes "x402: " ++ s

normalize_text-x402 : (s : Text) → (normalize_text (x402_text s)).was_leetspeak ≡ true
unfolding normalize_text words_from is_space leet_substitution to_lower
normalize_text-x402 s = refl

x402_text-not_blank : (s : Text) → is_empty (trim (x402_text s)) ≡ false
x402_text-not_blank s = trim-cons b'x' _ (unfold is_space in refl)

assess-leetspeak :
    (subversion target exfiltration : Bool)
    → ((assess subversion target exfiltration true).1 ≢ []) ↔ ((subversion || exfiltration) ≡ true)
unfolding assess
assess-leetspeak true true true = ((λ _. refl), (λ _ h. cc))
assess-leetspeak true true false = ((λ _. refl), (λ _ h. cc))
assess-leetspeak true false true = ((λ _. refl), (λ _ h. cc))
assess-leetspeak true false false = ((λ _. refl), (λ _ h. cc))
assess-leetspeak false target true = ((λ _. refl), (λ _ h. cc))
assess-leetspeak false target false = ((λ h. absurd (h refl)), (λ h. cc))

analyse_normalized-leetspeak :
    (n : Normalized)
    → n.was_leetspeak ≡ true
    → ((analyse_normalized n).detected_intents ≢ [])
      ↔ ((is_subversive n.normalized || is_exfiltrating n.normalized) ≡ true)
unfolding analyse_normalized
analyse_normalized-leetspeak n h = rw h (
    assess-leetspeak (is_subversive n.normalized) (names_constraint n.normalized)
      (is_exfiltrating n.normalized))

-- A justification that begins with "x402: " raises an intent exactly when its normal form holds a
-- subversion word or an exfiltration word; no constraint word beside it is needed, since the
-- prefix itself counts as leetspeak.
pub perform_semantic_analysis-x402 :
    (s : Text)
    → let n = normalize_text (x402_text s) in
      ((perform_semantic_analysis (x402_text s)).detected_intents ≢ [])
      ↔ ((is_subversive n.normalized || is_exfiltrating n.normalized) ≡ true)
unfolding perform_semantic_analysis
perform_semantic_analysis-x402 s =
    rw (x402_text-not_blank s)
      (analyse_normalized-leetspeak (normalize_text (x402_text s)) (normalize_text-x402 s))
