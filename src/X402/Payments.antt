-- ===== src/X402/Payments.antt =====
-- backend/src/x402/x402-payments.service.ts over the x402_escalations table of
-- backend/src/database/database.service.ts.
pub mod Approval
pub mod Authorize
pub mod Kept
pub mod Escalations
pub mod Answers
pub mod Sound
pub mod Signed
pub mod Receipts
pub mod Settle
pub mod Pending
pub mod Shown
use ethonline.Common.{ℕ, Bool, true, false, ◌&&◌, Option, none, some, List, ◌∷◌, if◌then◌else◌}
use ethonline.Common.Int.{pos, eq_ℤ, ltb_ℤ}
use ethonline.Common.Text.{Text, codes, text_eq, to_lower}
use ethonline.Common.Dict.{Dict, lookup, insert, erase}
use ethonline.Common.BigInt.{parse_big_int}
use ethonline.Common.Results.{HttpError, Result, ok, err}
use ethonline.Domain.{Decision, ActionStatus, same_status, TreasuryAction, ProposeActionDto, Reason}
use ethonline.ActionStore.{
  Store, Metadata, no_metadata, create_action, get_action, update_status, set_risk,
}
use ethonline.Actions.{Event}
use ethonline.X402.Justification.{full_justification, extract_resource_url}
use ethonline.X402.Escalation.{TypedData, EscalationStatus, Escalation, seconds}
use ethonline.X402.Ethers.{Ethers, is_same_address}
use ethonline.World.Bindings.{Binding}
use ethonline.X402.Spending.{Config, Requirements, PolicyDecision, evaluate}
use ethonline.X402.Transfers.{Receipt, verified, unverified, verify_token_transfer}

-- The service's own map, its table, the store of actions, and what was sent.
pub record Payments : Type 0 where
  pub store : Store
  pub escalation_reasons : Dict (List Reason)
  pub escalations : Dict Escalation
  pub bindings : Dict Binding
  pub events : List Event

-- `AuthorizePaymentDto`
pub record AuthorizeDto : Type 0 where
  pub resource_url : Text
  pub requirements : Requirements
  pub justification : Text

-- `AuthorizePaymentDto`'s answer
pub record Authorization : Type 0 where
  pub action_id : Text
  pub decision : Decision
  pub risk_score : ℕ
  pub reasons : List Reason

abbrev pub x402_action : AuthorizeDto → Text → ProposeActionDto
x402_action dto agent = record {
  target = dto.requirements.asset;
  value = codes "0";
  call_data = codes "0x";
  token = dto.requirements.asset;
  recipient = dto.requirements.pay_to;
  amount = dto.requirements.amount;
  agent_address = agent;
  justification = full_justification dto.resource_url dto.justification;
}

-- The row that `submitEscalation` inserts.
abbrev pub new_escalation : Text → TreasuryAction → TypedData → List Reason → ℕ → Escalation
new_escalation id a td reasons now = record {
  action_id = id;
  resource_url = extract_resource_url a.justification;
  typed_data = td;
  reasons = reasons;
  signature = none;
  status = EscalationStatus.awaiting_signature;
  created_at = now;
  updated_at = now;
}

abbrev pub emit : Event → Payments → Payments
emit e s = record s { events = e ∷ s.events }

abbrev pub mark : Text → ActionStatus → Metadata → ℕ → Payments → Payments
mark id status m now s = record s { store = (update_status id status m now s.store).1 }

-- What `authorize` does with the decision of the policy.
unfoldable pub apply_policy : PolicyDecision → Text → ℕ → Payments → Payments
apply_policy policy id now s = elim policy.decision [
  | Decision.block ↦
      emit (Event.action_blocked id) (mark id ActionStatus.rejected no_metadata now s)
  | Decision.escalate ↦
      let s' = mark id ActionStatus.pending no_metadata now s in
      record s' { escalation_reasons = insert id policy.reasons s'.escalation_reasons }
  | Decision.allow ↦
      emit (Event.action_approved id) (mark id ActionStatus.approved no_metadata now s)
]

-- Sending an event after `updateStatus` found the action.
abbrev pub emit_if : Option TreasuryAction → Event → Payments → Payments
emit_if none e s = s
emit_if (some a) e s = emit e s

-- A status update that is followed by an event if the action exists.
abbrev pub mark_and_emit : Text → ActionStatus → Metadata → Event → ℕ → Payments → Payments
mark_and_emit id status m e now s =
    let (updated, store) = update_status id status m now s.store in
    emit_if updated e (record s { store = store })

abbrev pub requires_human : Decision → Bool
requires_human Decision.allow = false
requires_human _ = true

module _ (ethers : Ethers) where
  -- `isSameAddress` on a value that may be no string
  abbrev pub is_address : Option Text → Text → Bool
  is_address none b = false
  is_address (some a) b = is_same_address ethers a b

  -- `authorize`; `id` is the generated id, `now` in milliseconds.
  unfoldable pub authorize :
      Config → Text → AuthorizeDto → Text → ℕ → Payments → Result Authorization × Payments
  authorize config agent dto id now s =
      let full = full_justification dto.resource_url dto.justification in
      let (action, store) = create_action (x402_action dto agent) id now s.store in
      let s' = emit (Event.action_proposed action.id) (record s { store = store }) in
      elim (evaluate config agent full now store ethers dto.requirements) [
        | err e ↦ (err e, s')
        | ok policy ↦
            let scored = record s' {
              store =
                  set_risk action.id (pos policy.risk_score) (requires_human policy.decision)
                    s'.store;
            } in
            (
              ok (record {
                action_id = action.id;
                decision = policy.decision;
                risk_score = policy.risk_score;
                reasons = policy.reasons;
              }),
              apply_policy policy action.id now scored,
            )
      ]

  -- `getOwnedAction`
  unfoldable pub get_owned_action : Text → Text → Payments → Result TreasuryAction × Payments
  get_owned_action agent id s =
      let (found, store) = get_action id s.store in
      (
        elim found [
          | none ↦ err HttpError.not_found
          | some a ↦
              if text_eq (to_lower a.agent_address) (to_lower agent)
              then ok a
              else err HttpError.forbidden
        ],
        record s { store = store },
      )

  -- The conditions of `assertValidEscalationTypedData`, each a bad request.
  unfoldable pub is_valid_typed_data : Config → TypedData → TreasuryAction → ℕ → Bool
  is_valid_typed_data config td a now =
      elim td.primary_type [
        | none ↦ false
        | some type ↦ text_eq type (codes "TransferWithAuthorization")
      ]
      && is_address td.verifying_contract config.usdc_address
      && elim td.chain_id [ none ↦ false | some chain ↦ eq_ℤ chain (pos 84532) ]
      && is_address td.from config.ledger_approver_address
      && is_address td.to a.recipient
      && text_eq td.value a.amount
      && elim td.valid_before [ none ↦ false | some t ↦ ltb_ℤ (seconds now) t ]

  -- `submitEscalation`; the typed data is `none` when the body is no object.
  unfoldable pub submit_escalation :
      Config → Text → Text → Option TypedData → ℕ → Payments → Result (Unit {0}) × Payments
  submit_escalation config agent id typed_data now s =
      let (owned, s') = get_owned_action agent id s in
      elim owned [
        | err e ↦ (err e, s')
        | ok a ↦
            if same_status a.status ActionStatus.pending
            then elim typed_data [
              | none ↦ (err HttpError.bad_request, s')
              | some td ↦
                  if is_valid_typed_data config td a now
                  then elim (lookup id s'.escalation_reasons) [
                    | none ↦ (err HttpError.bad_request, s')
                    | some reasons ↦ (
                      ok tt,
                      emit (Event.action_escalated a.id) (record s' {
                        escalations = insert id (new_escalation id a td reasons now) s'.escalations;
                        escalation_reasons = erase id s'.escalation_reasons;
                      }),
                    )
                  ]
                  else (err HttpError.bad_request, s')
            ]
            else (err HttpError.bad_request, s')
      ]

  -- `deriveDecision`
  unfoldable pub derive_decision : ActionStatus → Option Escalation → Decision
  derive_decision ActionStatus.approved e = Decision.allow
  derive_decision ActionStatus.executed e = Decision.allow
  derive_decision ActionStatus.pending e = Decision.escalate
  derive_decision ActionStatus.rejected none = Decision.block
  derive_decision ActionStatus.rejected (some e) = Decision.escalate

  -- `getPaymentStatus`: the decision and the status of the action, of the escalation, the signature.
  unfoldable pub get_payment_status :
      Text
      → Text
      → Payments
      → Result (Decision × ActionStatus × Option EscalationStatus × Option Text) × Payments
  get_payment_status agent id s =
      let (owned, s') = get_owned_action agent id s in
      let escalation = lookup id s'.escalations in
      (
        elim owned [
          | err e ↦ err e
          | ok a ↦ ok (
            derive_decision a.status escalation,
            a.status,
            elim escalation [ none ↦ none | some e ↦ some e.status ],
            a.signature,
          )
        ],
        s',
      )

  -- `settle`: the transaction hash of the answer.
  unfoldable pub settle :
      (Text → Option Receipt) → Text → Text → Text → ℕ → Payments → Result Text × Payments
  settle receipts agent id hash now s =
      let (owned, s') = get_owned_action agent id s in
      elim owned [
        | err e ↦ (err e, s')
        | ok a ↦
            if same_status a.status ActionStatus.approved
            then elim (parse_big_int a.amount) [
              | none ↦ (err HttpError.internal, s')
              | some minimum ↦
                  elim (verify_token_transfer ethers (receipts hash) a.token a.recipient minimum) [
                    | err e ↦ (err e, s')
                    | ok unverified ↦ (err HttpError.bad_request, s')
                    | ok (verified transferred) ↦ (
                      ok (to_lower hash),
                      mark_and_emit id ActionStatus.executed
                          (record { signature = none; tx_hash = some hash })
                          (Event.action_executed id) now s',
                    )
                  ]
            ]
            else (err HttpError.bad_request, s')
      ]
