-- ===== src/Guardian/Decide.antt =====
-- `evaluateAction` of risk-analysis.service.ts.
use ethonline.Common.{
  ℕ, ◌*◌, ◌/◌, ◌≤◌, ◌≡◌, true, false, none, some, List, [], ◌∷◌, ◌++◌, ◌||◌, if◌then◌else◌,
}
use ethonline.Common.Int.{ℤ, pos, ◌+ℤ◌, ltb_ℤ, eq_ℤ, max_ℤ, quotient, scale}
use ethonline.Common.Text.{Text}
use ethonline.Common.BigInt.{parse_big_int}
use ethonline.Common.Results.{HttpError, Result, ok, err}
use ethonline.Domain.{Decision, TreasuryAction, GuardianDecision, Reason}
use ethonline.Policy.{Policy, evaluate_deterministic_rules}
use ethonline.Guardian.Semantic.{SemanticResult, perform_semantic_analysis}

-- `q ↦ Math.floor((Number(q) / 10000) * 25)` in double precision, with its values on the quotients of
-- an amount from zero up to the single limit.
pub record FloatPoints : Type 0 where
  pub points : ℤ → ℤ
  pub points_exact : (q : ℕ) → q ≤ 10000 → points (pos q) ≡ pos (q * 25 / 10000)

abbrev pub intent_reasons : SemanticResult → List Reason
intent_reasons s = elim s.detected_intents [
  | [] ↦ []
  | i ∷ is ↦ Reason.suspicious_intents s.detected_intents s.confidence ∷ []
]

module _ (floats : FloatPoints) where
  -- The semantic score, raised by the share of the single limit that the amount takes.
  unfoldable pub risk_of : ℕ → ℤ → ℤ → ℤ
  risk_of semantic amount most =
      if eq_ℤ most (pos 0) || ltb_ℤ most amount
      then max_ℤ (pos semantic) (pos 75)
      else pos semantic +ℤ floats.points (quotient (scale amount 10000) most)

  -- The decision, from the deterministic result, the reasons so far and the risk score.
  unfoldable pub conclude : Text → Decision → List Reason → ℤ → GuardianDecision
  conclude id Decision.block reasons risk = record {
    action_id = id;
    decision = Decision.block;
    risk_score = pos 100;
    reasons = reasons;
    deterministic_passed = false;
    requires_human_approval = false;
  }
  conclude id Decision.escalate reasons risk = record {
    action_id = id;
    decision = Decision.escalate;
    risk_score = max_ℤ risk (pos 75);
    reasons = reasons;
    deterministic_passed = false;
    requires_human_approval = true;
  }
  conclude id Decision.allow reasons risk =
      if ltb_ℤ risk (pos 50)
      then record {
        action_id = id;
        decision = Decision.allow;
        risk_score = risk;
        reasons = reasons;
        deterministic_passed = true;
        requires_human_approval = false;
      }
      else record {
        action_id = id;
        decision = Decision.escalate;
        risk_score = risk;
        reasons = reasons ++ (Reason.semantic_risk ∷ []);
        deterministic_passed = true;
        requires_human_approval = true;
      }

  -- `evaluateAction` at a time in seconds.
  unfoldable pub evaluate_action : TreasuryAction → ℕ → Policy → Result GuardianDecision × Policy
  evaluate_action a t p =
      let (rules, p') = evaluate_deterministic_rules a t p in
      let semantic = perform_semantic_analysis a.justification in
      elim rules [
        | err e ↦ (err e, p')
        | ok r ↦ elim (parse_big_int a.amount) [
          | none ↦ (err HttpError.internal, p')
          | some amount ↦ (
            ok (
                conclude a.id r.decision (r.reasons ++ intent_reasons semantic)
                  (risk_of semantic.risk_score amount p'.mandate.max_autonomous_amount)),
            p',
          )
        ]
      ]
