-- ===== src/Domain.antt =====
-- backend/src/domain: the treasury action, the mandate, and the Guardian's decision.
-- Addresses, hashes and ids are strings; dates are milliseconds since the epoch.
use ethonline.Common.{ℕ, Bool, true, false, Option, List}
use ethonline.Common.Int.{ℤ}
use ethonline.Common.Text.{Text}

-- `GuardianDecisionType`
pub data Decision : Type 0 where
  allow escalate block : Decision

-- `TreasuryActionStatus`
pub data ActionStatus : Type 0 where
  pending approved rejected executed : ActionStatus

-- `a === b`
abbrev pub same_status : ActionStatus → ActionStatus → Bool
same_status ActionStatus.pending ActionStatus.pending = true
same_status ActionStatus.approved ActionStatus.approved = true
same_status ActionStatus.rejected ActionStatus.rejected = true
same_status ActionStatus.executed ActionStatus.executed = true
same_status _ _ = false

-- `TreasuryAction`; the field `data` is `call_data` here.
pub record TreasuryAction : Type 0 where
  pub id : Text
  pub target : Text
  pub value : Text
  pub call_data : Text
  pub token : Text
  pub recipient : Text
  pub amount : Text
  pub agent_address : Text
  pub justification : Text
  pub status : ActionStatus
  pub nonce : ℕ
  pub deadline : ℕ
  pub risk_score : ℤ
  pub requires_human_approval : Bool
  pub signature : Option Text
  pub tx_hash : Option Text
  pub created_at : ℕ
  pub updated_at : ℕ

-- `TreasuryMandate`
pub record TreasuryMandate : Type 0 where
  pub chain_id : ℕ
  pub safe_address : Text
  pub guard_address : Text
  pub autonomous_agent : Text
  pub human_signer : Text
  pub max_autonomous_amount : ℤ
  pub daily_autonomous_limit : ℤ
  pub approved_recipients : List Text
  pub approved_tokens : List Text

-- `ProposeActionDto`, without the optional World ID proof.
pub record ProposeActionDto : Type 0 where
  pub target : Text
  pub value : Text
  pub call_data : Text
  pub token : Text
  pub recipient : Text
  pub amount : Text
  pub agent_address : Text
  pub justification : Text

-- The intents that risk-analysis.service.ts names.
pub data Intent : Type 0 where
  instruction_subversion_attempt : Intent
  treasury_drain_exfiltration_intent : Intent
  obfuscation_evasion_technique : Intent

-- The reasons that a decision carries; the source formats each as a sentence.
pub data Reason : Type 0 where
  recipient_not_approved : Text → Reason
  token_not_approved : Text → Reason
  amount_over_single_limit : Text → ℤ → Reason
  over_daily_limit : ℤ → ℤ → Reason
  mandate_complies : Reason
  suspicious_intents : List Intent → ℕ → Reason
  semantic_risk : Reason
  insufficient_budget : ℤ → ℤ → Text → Reason
  network_not_approved : Text → Text → Reason
  malformed_address : Reason
  asset_not_approved : Text → Reason
  payee_not_approved : Text → Reason
  over_autonomous_limit : ℤ → ℤ → Reason
  over_daily_x402_limit : ℤ → ℤ → Reason
  adversarial_justification : List Intent → Reason
  spending_policy_complies : Reason

-- `GuardianDecision`, without the time of the evaluation.
pub record GuardianDecision : Type 0 where
  pub action_id : Text
  pub decision : Decision
  pub risk_score : ℤ
  pub reasons : List Reason
  pub deterministic_passed : Bool
  pub requires_human_approval : Bool
