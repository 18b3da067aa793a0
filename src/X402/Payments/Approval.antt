-- ===== src/X402/Payments/Approval.antt =====
-- The decision of the human approver on an escalation: approveWithSignature and rejectWithSignature of
-- x402-payments.service.ts.
use ethonline.Common.{ℕ, Bool, Option, none, some, ◌++◌, if◌then◌else◌}
use ethonline.Common.Text.{Text, codes, truthy}
use ethonline.Common.Dict.{lookup, insert}
use ethonline.Common.Results.{HttpError, Result, ok, err}
use ethonline.Domain.{ActionStatus}
use ethonline.ActionStore.{no_metadata}
use ethonline.Actions.{Event}
use ethonline.X402.Escalation.{TypedData, EscalationStatus, Escalation, is_expired, is_awaiting}
use ethonline.X402.Ethers.{Ethers, is_same_address}
use ethonline.World.Bindings.{assert_verified_for_approval}
use ethonline.X402.Spending.{Config}
use ethonline.X402.Payments.{Payments, mark_and_emit}

module _ (ethers : Ethers) where
  -- `getAwaitingEscalation`
  unfoldable pub get_awaiting_escalation : Text → Payments → Result Escalation
  get_awaiting_escalation id s = elim (lookup id s.escalations) [
    | none ↦ err HttpError.not_found
    | some e ↦ if is_awaiting e.status then ok e else err HttpError.not_found
  ]

  -- `UPDATE x402_escalations SET status = ?, signature = ?, updated_at = ? WHERE action_id = ?`
  unfoldable pub update_escalation : EscalationStatus → Text → ℕ → Text → Payments → Payments
  update_escalation status signature now id s = elim (lookup id s.escalations) [
    | none ↦ s
    | some e ↦ record s {
      escalations =
          insert id
            (record e { status = status; signature = truthy (some signature); updated_at = now })
            s.escalations;
    }
  ]

  -- The call of `assertLedgerApproverVerifiedForApproval` of
  -- backend/src/world/world-id-approver.service.ts, which has the table human_bindings.
  unfoldable pub assert_approver_verified :
      Config → Bool → ℕ → Payments → Result (Unit {0}) × Payments
  assert_approver_verified config world_id_required now s =
      let (human, bindings) =
        assert_verified_for_approval ethers config.ledger_approver_address world_id_required now
          s.bindings in
      (human, record s { bindings = bindings })

  module _ (config : Config) where
    -- The signature of the approver, recovered by `verify`.
    unfoldable pub assert_approver : Option Text → Result (Unit {0})
    assert_approver none = err HttpError.unauthorized
    assert_approver (some recovered) =
        if is_same_address ethers recovered config.ledger_approver_address
        then ok tt
        else err HttpError.unauthorized

    -- `approveWithSignature`; `verify` is `verifyTypedData` of ethers.
    unfoldable pub approve_with_signature :
        (TypedData → Text → Option Text)
        → Bool
        → Text
        → Text
        → ℕ
        → Payments
        → Result (Unit {0}) × Payments
    approve_with_signature verify world_id_required id signature now s =
        elim (get_awaiting_escalation id s) [
          | err e ↦ (err e, s)
          | ok escalation ↦
              if is_expired escalation.typed_data now
              then (err HttpError.bad_request, s)
              else elim (assert_approver (verify escalation.typed_data signature)) [
                | err e ↦ (err e, s)
                | ok _ ↦
                    let (human, s') = assert_approver_verified config world_id_required now s in
                    elim human [
                      | err e ↦ (err e, s')
                      | ok _ ↦ (
                        ok tt,
                        mark_and_emit id ActionStatus.approved
                            (record { signature = some signature; tx_hash = none })
                            (Event.action_approved id) now
                            (update_escalation EscalationStatus.signed signature now id s'),
                      )
                    ]
              ]
        ]

    -- `rejectWithSignature`
    unfoldable pub reject_with_signature : Text → Text → ℕ → Payments → Result (Unit {0}) × Payments
    reject_with_signature id signature now s = elim (get_awaiting_escalation id s) [
      | err e ↦ (err e, s)
      | ok _ ↦
          elim (assert_approver
            (ethers.verify_message (codes "chapter2-reject:" ++ id) signature)) [
              | err e ↦ (err e, s)
              | ok _ ↦ (
                ok tt,
                mark_and_emit id ActionStatus.rejected no_metadata (Event.action_rejected id) now
                    (update_escalation EscalationStatus.rejected signature now id s),
              )
            ]
    ]
