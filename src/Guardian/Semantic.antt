-- ===== src/Guardian/Semantic.antt =====
-- `performMultiLayerSemanticAnalysis` of risk-analysis.service.ts.
use ethonline.Common.{
  ℕ, ◌+◌, Bool, false, ◌&&◌, ◌||◌, List, [], ◌∷◌, ◌++◌, ◌==◌, length, if◌then◌else◌,
}
use Prim.Native.Nat.{min, ◌*◌}
use ethonline.Common.Text.{Text, is_empty, trim}
use ethonline.Domain.{Intent}
use ethonline.Guardian.Normalize.{Normalized, normalize_text}
use ethonline.Guardian.Tokens.{
  contains_token_from_cluster, subversion_intent_tokens, target_constraint_tokens,
  exfiltration_intent_tokens,
}

-- `SemanticAnalysisResult`; the confidence is in hundredths.
pub record SemanticResult : Type 0 where
  pub risk_score : ℕ
  pub detected_intents : List Intent
  pub normalized_content : Text
  pub leetspeak_normalized : Bool
  pub confidence : ℕ

-- The score and the intents, from what the text contains.
unfoldable pub assess : Bool → Bool → Bool → Bool → ℕ × List Intent
assess subversion target exfiltration leet = (
  (if subversion && target then 70 else 0)
      + (if exfiltration then 65 else 0)
      + (if leet && (subversion || exfiltration) then 15 else 0),
  (if subversion && target then Intent.instruction_subversion_attempt ∷ [] else [])
      ++ ((if exfiltration then Intent.treasury_drain_exfiltration_intent ∷ [] else [])
          ++ (if leet && (subversion || exfiltration)
              then Intent.obfuscation_evasion_technique ∷ []
              else [])),
)

abbrev pub is_subversive : Text → Bool
is_subversive s = contains_token_from_cluster s subversion_intent_tokens

abbrev pub names_constraint : Text → Bool
names_constraint s = contains_token_from_cluster s target_constraint_tokens

abbrev pub is_exfiltrating : Text → Bool
is_exfiltrating s = contains_token_from_cluster s exfiltration_intent_tokens

-- The analysis of a text that is not blank, from its normal form.
unfoldable pub analyse_normalized : Normalized → SemanticResult
analyse_normalized n =
    let (cumulative_risk, intents) =
      assess (is_subversive n.normalized) (names_constraint n.normalized)
        (is_exfiltrating n.normalized) n.was_leetspeak in
    record {
      risk_score = min 100 cumulative_risk;
      detected_intents = intents;
      normalized_content = n.normalized;
      leetspeak_normalized = n.was_leetspeak;
      confidence = if length intents == 0 then 10 else min 98 (65 + length intents * 15);
    }

unfoldable pub perform_semantic_analysis : Text → SemanticResult
unfolding analyse_normalized
perform_semantic_analysis text =
    if is_empty (trim text)
    then record {
      risk_score = 0;
      detected_intents = [];
      normalized_content = [];
      leetspeak_normalized = false;
      confidence = 0;
    }
    else analyse_normalized (normalize_text text)
