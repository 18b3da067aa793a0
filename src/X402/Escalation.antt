-- ===== src/X402/Escalation.antt =====
-- The rows of the x402_escalations table (backend/src/database/database.interface.ts).
use ethonline.Common.{ℕ, ◌/◌, Bool, true, false, not, Option, none, some, List}
use ethonline.Common.Int.{ℤ, pos, ltb_ℤ}
use ethonline.Common.Text.{Text}
use ethonline.Domain.{Reason}

-- The fields of the EIP-712 typed data that the service reads; `payload` is the rest of it. A
-- field that has not the type of an address is `none`, as is a number that is not finite.
pub record TypedData : Type 0 where
  pub primary_type : Option Text
  pub verifying_contract : Option Text
  pub chain_id : Option ℤ
  pub from : Option Text
  pub to : Option Text
  pub value : Text
  pub valid_before : Option ℤ
  pub payload : Text

pub data EscalationStatus : Type 0 where
  awaiting_signature signed rejected : EscalationStatus

-- `X402EscalationRow`
pub record Escalation : Type 0 where
  pub action_id : Text
  pub resource_url : Text
  pub typed_data : TypedData
  pub reasons : List Reason
  pub signature : Option Text
  pub status : EscalationStatus
  pub created_at : ℕ
  pub updated_at : ℕ

abbrev pub seconds : ℕ → ℤ
seconds now = pos (now / 1000)

-- Whether the authorization has expired: `Number(validBefore) <= now`, false when not a number.
abbrev pub is_expired : TypedData → ℕ → Bool
is_expired td now = elim td.valid_before [ none ↦ false | some t ↦ not (ltb_ℤ (seconds now) t) ]

abbrev pub is_awaiting : EscalationStatus → Bool
is_awaiting EscalationStatus.awaiting_signature = true
is_awaiting _ = false
