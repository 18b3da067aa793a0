-- ===== src/ActionStore/Reached.antt =====
-- The states of a service that starts over empty tables.
use ethonline.Common.{ℕ, Bool, []}
use ethonline.Common.Int.{ℤ}
use ethonline.Common.Text.{Text}
use ethonline.Domain.{ActionStatus, ProposeActionDto}
use ethonline.ActionStore.{Store, Metadata, create_action, update_status, set_risk, clear}
use ethonline.ActionStore.Mirror.{
  IsMirrored, create_action-IsMirrored, update_status-IsMirrored, set_risk-IsMirrored,
  clear-IsMirrored,
}

-- `risked` is what the callers write on an action that the service gave them.
pub data Reach : Store → Type 0 where
  started : Reach (record { actions = []; current_nonce = 1; rows = [] })
  created :
      {s : Store} (dto : ProposeActionDto) (id : Text) (now : ℕ)
      → Reach s
      → Reach (create_action dto id now s).1
  updated :
      {s : Store} (id : Text) (status : ActionStatus) (m : Metadata) (now : ℕ)
      → Reach s
      → Reach (update_status id status m now s).1
  risked :
      {s : Store} (id : Text) (score : ℤ) (human : Bool)
      → Reach s
      → Reach (set_risk id score human s)
  cleared : {s : Store} → Reach s → Reach (clear s)

-- In every state that creations, status updates, writes of the risk score and clears lead to from
-- the empty service, the table mirrors the map: each action has one row, equal to it but for the
-- risk fields, which stand at their first values, and every nonce is below the counter.
pub Reach-IsMirrored : (s : Store) → Reach s → IsMirrored s
unfolding clear
Reach-IsMirrored _ started =
    clear-IsMirrored (record { actions = []; current_nonce = 1; rows = [] })
Reach-IsMirrored _ (created {s} dto id now r) =
    create_action-IsMirrored dto id now s (Reach-IsMirrored s r)
Reach-IsMirrored _ (updated {s} id status m now r) =
    update_status-IsMirrored id status m now s (Reach-IsMirrored s r)
Reach-IsMirrored _ (risked {s} id score human r) =
    set_risk-IsMirrored id score human s (Reach-IsMirrored s r)
Reach-IsMirrored _ (cleared {s} r) = clear-IsMirrored s
