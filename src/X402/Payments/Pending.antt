-- ===== src/X402/Payments/Pending.antt =====
-- listPendingApprovals and getApprovalConfig of backend/src/x402/x402-payments.service.ts.
use ethonline.Common.{ℕ, ◌≡◌, refl, none, some, List, [], ◌∷◌, if◌then◌else◌, arith}
use ethonline.Common.Int.{ℤ}
use ethonline.Common.Text.{Text}
use ethonline.Common.Dict.{values}
use ethonline.Domain.{Reason, TreasuryAction}
use ethonline.ActionStore.{Store, get_action}
use ethonline.ActionStore.Mirror.{IsMirrored, get_action_lem}
use ethonline.X402.Escalation.{TypedData, Escalation, is_awaiting}
use ethonline.X402.Spending.{Config}
use ethonline.X402.Payments.{Payments}

-- What the human is shown of an escalation.
pub record PendingApproval : Type 0 where
  pub action_id : Text
  pub resource_url : Text
  pub amount : Text
  pub pay_to : Text
  pub agent_address : Text
  pub justification : Text
  pub risk_score : ℤ
  pub reasons : List Reason
  pub typed_data : TypedData
  pub created_at : ℕ

abbrev pub pending_approval : Escalation → TreasuryAction → PendingApproval
pending_approval e a = record {
  action_id = e.action_id;
  resource_url = e.resource_url;
  amount = a.amount;
  pay_to = a.recipient;
  agent_address = a.agent_address;
  justification = a.justification;
  risk_score = a.risk_score;
  reasons = e.reasons;
  typed_data = e.typed_data;
  created_at = e.created_at;
}

-- The loop of `listPendingApprovals`; an action that is only in the table is cached.
unfoldable pub pending_from : List Escalation → Store → List PendingApproval × Store
pending_from [] s = ([], s)
pending_from (e ∷ rest) s =
    let skipped = pending_from rest s in
    let (found, s') = get_action e.action_id s in
    let (shown, s'') = pending_from rest s' in
    if is_awaiting e.status
    then elim found [ none ↦ (shown, s'') | some a ↦ (pending_approval e a ∷ shown, s'') ]
    else skipped

-- `listPendingApprovals`
unfoldable pub list_pending_approvals : Payments → List PendingApproval × Payments
list_pending_approvals s =
    let (shown, store) = pending_from (values s.escalations) s.store in
    (shown, record s { store = store })

-- `getApprovalConfig`
pub record ApprovalConfig : Type 0 where
  pub approver_address : Text
  pub network : Text
  pub usdc_address : Text

unfoldable pub get_approval_config : Config → ApprovalConfig
get_approval_config c = record {
  approver_address = c.ledger_approver_address;
  network = c.network;
  usdc_address = c.usdc_address;
}

-- A store that mirrors its table is left as it is.
pub pending_from-store :
    (es : List Escalation) (s : Store) → IsMirrored s → (pending_from es s).1 ≡ s
unfolding pending_from
pending_from-store [] s h = refl
pending_from-store (e ∷ rest) s h =
    ground (arith, get_action_lem e.action_id s h, pending_from-store rest s h)
