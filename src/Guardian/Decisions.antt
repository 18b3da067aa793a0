-- ===== src/Guardian/Decisions.antt =====
-- When the Guardian allows, escalates and blocks.
use ethonline.Common.{
  ◌≢◌, ◌*◌, ◌/◌, ◌≤◌, ◌<◌, ℕ, ◌≡◌, ◌↔◌, true, Option, none, some, List, ◌++◌, arith, inl, inr,
}
use ethonline.Common.Int.{ℤ, pos, negsuc, ◌+ℤ◌, ◌≤ℤ◌, ◌<ℤ◌, scale, quotient, int_laws}
use ethonline.Common.Text.{Text}
use native.Mathlib.Decide.{dec_lt, dec_le}
use ethonline.Common.BigInt.{parse_big_int}
use ethonline.Common.Results.{Result, ok, err, Result-cases}
use ethonline.Domain.{Decision, TreasuryAction, GuardianDecision, Reason}
use ethonline.Policy.{Policy, evaluate_deterministic_rules}
use ethonline.Policy.Rules.{decided}
use ethonline.Guardian.Semantic.{perform_semantic_analysis}
use ethonline.Guardian.Decide.{FloatPoints, risk_of, conclude, evaluate_action, intent_reasons}

-- The decision that `evaluateAction` returns.
abbrev pub concluded : Result GuardianDecision → Option Decision
concluded (ok d) = some d.decision
concluded (err e) = none

module _ (floats : FloatPoints) (id : Text) (reasons : List Reason) (risk : ℤ) where
  abbrev done : Decision → GuardianDecision
  done d = conclude floats id d reasons risk

  conclude_iff :
      (d : Decision)
      → (((done d).decision ≡ Decision.allow) ↔ ((d ≡ Decision.allow) × (risk <ℤ pos 50)))
        × (((done d).decision ≡ Decision.block) ↔ (d ≡ Decision.block))
        × (((done d).requires_human_approval ≡ true) ↔ ((done d).decision ≡ Decision.escalate))
  unfolding conclude
  conclude_iff Decision.allow = ground arith
  conclude_iff Decision.escalate = ground arith
  conclude_iff Decision.block = ground arith

module _ (floats : FloatPoints) (a : TreasuryAction) (t : ℕ) (p : Policy) where
  abbrev pub rules : Option Decision
  rules = decided (evaluate_deterministic_rules a t p).0

  -- The risk score of the action for an amount.
  abbrev pub risk : ℤ → ℤ
  risk amount =
      risk_of floats (perform_semantic_analysis a.justification).risk_score amount
        (evaluate_deterministic_rules a t p).1.mandate.max_autonomous_amount

  abbrev pub conclusion : Option Decision
  conclusion = concluded (evaluate_action floats a t p).0

  pub evaluate_action_iff :
      (amount : ℤ)
      → parse_big_int a.amount ≡ some amount
      → ((conclusion ≡ some Decision.allow)
          ↔ ((rules ≡ some Decision.allow) × (risk amount <ℤ pos 50)))
        × ((conclusion ≡ some Decision.block) ↔ (rules ≡ some Decision.block))
        × ((d : GuardianDecision)
            → (evaluate_action floats a t p).0 ≡ ok d
            → (d.requires_human_approval ≡ true) ↔ (d.decision ≡ Decision.escalate))
  unfolding evaluate_action
  evaluate_action_iff amount e = elim (Result-cases (evaluate_deterministic_rules a t p).0) [
    | inl (r, passed) ↦
        let c =
          conclude_iff floats a.id
            (r.reasons ++ intent_reasons (perform_semantic_analysis a.justification)) (risk amount)
            r.decision in
        (
          ((λ h. ground (arith, c.0)), (λ h. ground (arith, c.0))),
          ((λ h. ground (arith, c.1)), (λ h. ground (arith, c.1))),
          (λ d h. ((λ k. ground (arith, c.2)), (λ k. ground (arith, c.2)))),
        )
    | inr (x, failed) ↦ (
      ((λ h. ground arith), (λ h. ground arith)),
      ((λ h. ground arith), (λ h. ground arith)),
      (λ d h. absurd (ground arith)),
    )
  ]

div-le : (n m : ℕ) → n ≤ m → 0 < m → n * 10000 / m ≤ 10000
div-le n m h p = grind arith

+ℤ-pos : (a b : ℕ) → pos a ≤ℤ pos a +ℤ pos b
+ℤ-pos a b = omega int_laws

-- An amount of zero or more never lowers the risk below the semantic score.
risk_of-ge :
    (floats : FloatPoints) (semantic n : ℕ) (most : ℤ)
    → pos semantic ≤ℤ risk_of floats semantic (pos n) most
unfolding risk_of scale quotient
risk_of-ge floats semantic n (pos m) = elim (dec_lt 0 m) [
  | yes p ↦ elim (dec_le n m) [
    | yes q ↦
        let e = floats.points_exact (n * 10000 / m) (div-le n m q p) in
        ground (arith, +ℤ-pos semantic (n * 10000 / m * 25 / 10000))
    | no q ↦ ground arith
  ]
  | no p ↦ ground arith
]
risk_of-ge floats semantic n (negsuc m) = ground arith

-- A justification whose semantic score is 50 or more is never allowed, at any amount that is zero
-- or more.
pub evaluate_action-suspicious :
    (floats : FloatPoints) (a : TreasuryAction) (t : ℕ) (p : Policy) (n : ℕ)
    → parse_big_int a.amount ≡ some (pos n)
    → 50 ≤ (perform_semantic_analysis a.justification).risk_score
    → conclusion floats a t p ≢ some Decision.allow
evaluate_action-suspicious floats a t p n e score allowed =
    let below = ((evaluate_action_iff floats a t p (pos n) e).0.0 allowed).1 in
    omega (
      int_laws,
      below,
      risk_of-ge floats (perform_semantic_analysis a.justification).risk_score n
          (evaluate_deterministic_rules a t p).1.mandate.max_autonomous_amount,
    )
