-- ===== src/X402/Spending.antt =====
-- backend/src/x402/x402-spending-policy.service.ts
pub mod Total
pub mod Limit
use ethonline.Common.{
  ℕ, ◌-◌, ◌%◌, Bool, true, false, not, ◌&&◌, ◌||◌, Option, none, some, List, [], ◌∷◌, ◌++◌, leb,
  ltb, keep, if◌then◌else◌,
}
use ethonline.Common.Int.{ℤ, pos, ◌+ℤ◌, ltb_ℤ}
use ethonline.Common.Text.{Text, codes, text_eq, contains, starts_with, to_lower}
use ethonline.Common.BigInt.{parse_big_int}
use ethonline.Common.Results.{HttpError, Result, ok, err}
use ethonline.Domain.{Decision, ActionStatus, same_status, TreasuryAction, Intent, Reason}
use ethonline.ActionStore.{Store, list_actions}
use ethonline.Guardian.Semantic.{SemanticResult, perform_semantic_analysis}
use ethonline.X402.Ethers.{Ethers}

-- `X402Config`
pub record Config : Type 0 where
  pub network : Text
  pub facilitator_url : Text
  pub usdc_address : Text
  pub pay_to_address : Text
  pub partner_pay_to_address : Text
  pub public_base_url : Text
  pub approved_pay_to : List Text
  pub autonomous_limit : ℤ
  pub daily_limit : ℤ
  pub ledger_approver_address : Text

-- `X402PaymentRequirementsInput`
pub record Requirements : Type 0 where
  pub network : Text
  pub asset : Text
  pub pay_to : Text
  pub amount : Text

-- `X402PolicyDecision`
pub record PolicyDecision : Type 0 where
  pub decision : Decision
  pub risk_score : ℕ
  pub reasons : List Reason

abbrev pub blocked : Reason → PolicyDecision
blocked reason = record { decision = Decision.block; risk_score = 100; reasons = reason ∷ [] }

-- The start of the UTC day of a time in milliseconds.
abbrev pub start_of_day : ℕ → ℕ
start_of_day now = now - now % 86400000

-- The filter of `getTodaysApprovedTotal`
unfoldable pub is_counted : Text → ℕ → TreasuryAction → Bool
is_counted agent start a =
    text_eq (to_lower a.agent_address) (to_lower agent)
    && starts_with a.justification (codes "x402: ")
    && (same_status a.status ActionStatus.approved || same_status a.status ActionStatus.executed)
    && leb start a.created_at

-- The sum of the amounts; `none` when `BigInt` throws.
unfoldable pub sum_amounts : ℤ → List TreasuryAction → Option ℤ
sum_amounts sum [] = some sum
sum_amounts sum (a ∷ rest) = elim (parse_big_int a.amount) [
  | none ↦ none
  | some n ↦ sum_amounts (sum +ℤ n) rest
]

-- `getTodaysApprovedTotal`
unfoldable pub get_todays_approved_total : Text → ℕ → Store → Option ℤ
unfolding sum_amounts list_actions
get_todays_approved_total agent now s =
    sum_amounts (pos 0) (keep (is_counted agent (start_of_day now)) (list_actions none s))

-- What the intents of the justification add to a decision.
abbrev pub raised : List Intent → ℕ → Decision → ℕ → List Reason → PolicyDecision
raised [] score decision risk reasons = record {
  decision = decision;
  risk_score = risk;
  reasons = elim decision [
    | Decision.allow ↦ reasons ++ Reason.spending_policy_complies ∷ []
    | _ ↦ reasons
  ];
}
raised (i ∷ is) score decision risk reasons = record {
  decision = elim decision [ Decision.allow ↦ Decision.escalate | d ↦ d ];
  risk_score = if ltb risk score then score else risk;
  reasons = reasons ++ Reason.adversarial_justification (i ∷ is) ∷ [];
}

-- The end of `evaluate`: the semantic analysis of the justification.
unfoldable pub conclude : Text → Decision → ℕ → List Reason → PolicyDecision
conclude justification decision risk reasons =
    let semantic = perform_semantic_analysis justification in
    raised semantic.detected_intents semantic.risk_score decision risk reasons

module _ (config : Config) (agent justification : Text) (now : ℕ) (s : Store) where
  -- The limits on the amount.
  unfoldable pub evaluate_amount : Text → Result PolicyDecision
  evaluate_amount amount = elim (parse_big_int amount) [
    | none ↦ err HttpError.internal
    | some n ↦
        if ltb_ℤ config.autonomous_limit n
        then ok (
            conclude justification Decision.escalate 60
              (Reason.over_autonomous_limit n config.autonomous_limit ∷ []))
        else elim (get_todays_approved_total agent now s) [
          | none ↦ err HttpError.internal
          | some total ↦
              if ltb_ℤ config.daily_limit (total +ℤ n)
              then ok (
                  conclude justification Decision.escalate 60
                    (Reason.over_daily_x402_limit (total +ℤ n) config.daily_limit ∷ []))
              else ok (conclude justification Decision.allow 10 [])
        ]
  ]

  -- The payee, after the checksummed addresses are known.
  unfoldable pub evaluate_payee : Text → Text → Result PolicyDecision
  evaluate_payee pay_to amount =
      if contains config.approved_pay_to pay_to
      then evaluate_amount amount
      else ok (blocked (Reason.payee_not_approved pay_to))

  module _ (ethers : Ethers) where
    unfoldable pub evaluate_asset : Text → Text → Text → Result PolicyDecision
    evaluate_asset asset pay_to amount = elim (ethers.get_address config.usdc_address) [
      | none ↦ err HttpError.internal
      | some usdc ↦
          if text_eq asset usdc
          then evaluate_payee pay_to amount
          else ok (blocked (Reason.asset_not_approved asset))
    ]

    -- `evaluate`
    unfoldable pub evaluate : Requirements → Result PolicyDecision
    evaluate r =
        if text_eq r.network config.network
        then elim (ethers.get_address r.asset) [
          | none ↦ ok (blocked Reason.malformed_address)
          | some asset ↦ elim (ethers.get_address r.pay_to) [
            | none ↦ ok (blocked Reason.malformed_address)
            | some pay_to ↦ evaluate_asset asset pay_to r.amount
          ]
        ]
        else ok (blocked (Reason.network_not_approved r.network config.network))
