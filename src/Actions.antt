-- ===== src/Actions.antt =====
-- backend/src/actions/actions.controller.ts: proposing, approving and rejecting treasury actions.
pub mod Propose
pub mod Approve
use ethonline.Common.{
  ℕ, ◌/◌, Bool, true, false, not, Option, none, some, List, [], ◌∷◌, if◌then◌else◌,
}
use ethonline.Common.Int.{ℤ, pos}
use ethonline.Common.Text.{Text, text_eq}
use ethonline.Common.Results.{HttpError, Result, ok, err}
use ethonline.Domain.{
  Decision, ActionStatus, same_status, TreasuryAction, TreasuryMandate, ProposeActionDto,
  GuardianDecision, Reason,
}
use ethonline.ActionStore.{
  Store, Metadata, no_metadata, create_action, get_action, update_status, set_risk,
}
use ethonline.Reservations.{
  Reservations, Acquired, reserved, refused, acquire_reservation, commit_reservation,
  release_reservation,
}
use ethonline.Guardian.Decide.{FloatPoints, evaluate_action}

-- What the gateway sends about an action, newest first.
pub data Event : Type 0 where
  action_proposed action_blocked action_escalated action_approved action_rejected action_executed :
      Text → Event

-- The services that the controller holds.
pub record Treasury : Type 0 where
  pub store : Store
  pub reservations : Reservations
  pub events : List Event

-- `TreasuryActionApprovalParams`
pub record ApprovalParams : Type 0 where
  pub action_id : Text
  pub agent : Text
  pub recipient : Text
  pub token : Text
  pub amount : Text
  pub nonce : ℕ
  pub deadline : ℕ
  pub mandate_hash : Text
  pub risk_score : ℤ

-- What the controller calls outside the backend: checksummed addresses, the hash of the mandate,
-- the check of an EIP-712 signature, and the human signer that the deployed guard names.
pub record Chain : Type 0 where
  pub get_address : Text → Option Text
  pub mandate_hash : TreasuryMandate → Text
  pub verify_signature : ApprovalParams → Text → Text → Bool
  pub guard_human_signer : Option Text

-- The default of `ttlSeconds`.
abbrev pub default_ttl : ℕ
default_ttl = 300

abbrev pub no_budget : Text → Reason → GuardianDecision
no_budget id reason = record {
  action_id = id;
  decision = Decision.block;
  risk_score = pos 100;
  reasons = reason ∷ [];
  deterministic_passed = false;
  requires_human_approval = false;
}

abbrev pub emit : Event → Treasury → Treasury
emit e s = record s { events = e ∷ s.events }

abbrev pub mark : Text → ActionStatus → Metadata → ℕ → Treasury → Treasury
mark id status m now s = record s { store = (update_status id status m now s.store).1 }

-- What `proposeAction` does with the Guardian's decision.
unfoldable pub apply_decision : Decision → Text → ℕ → Treasury → Result (Unit {0}) × Treasury
apply_decision Decision.block id now s =
    let freed = record s { reservations = (release_reservation id s.reservations).1 } in
    (ok tt, emit (Event.action_blocked id) (mark id ActionStatus.rejected no_metadata now freed))
apply_decision Decision.escalate id now s =
    (ok tt, emit (Event.action_escalated id) (mark id ActionStatus.pending no_metadata now s))
apply_decision Decision.allow id now s =
    let (committed, reservations) = commit_reservation id (now / 1000) s.reservations in
    let s' = record s { reservations = reservations } in
    elim committed [
      | err e ↦ (err e, s')
      | ok _ ↦ (
        ok tt,
        emit (Event.action_approved id) (mark id ActionStatus.approved no_metadata now s'),
      )
    ]

module _ (floats : FloatPoints) where
  -- The part of `proposeAction` after a granted reservation.
  unfoldable pub evaluate_proposal :
      TreasuryAction → ℕ → Treasury → Result GuardianDecision × Treasury
  evaluate_proposal action now s =
      let (decision, policy) = evaluate_action floats action (now / 1000) s.reservations.policy in
      let s' = record s { reservations = record s.reservations { policy = policy } } in
      elim decision [
        | err e ↦ (err e, s')
        | ok d ↦
            let scored = record s' {
              store = set_risk action.id d.risk_score d.requires_human_approval s'.store;
            } in
            let (applied, after) = apply_decision d.decision action.id now scored in
            elim applied [ ok _ ↦ (ok d, after) | err e ↦ (err e, after) ]
      ]

  -- `proposeAction` without a World ID proof; `now` is in milliseconds, `id` the generated id.
  unfoldable pub propose_action :
      ProposeActionDto → Text → ℕ → Treasury → Result GuardianDecision × Treasury
  propose_action dto id now s =
      let (action, store) = create_action dto id now s.store in
      let (acquired, reservations) =
        acquire_reservation action.id action.amount default_ttl (now / 1000) s.reservations in
      let s' = record s { store = store; reservations = reservations } in
      elim acquired [
        | err e ↦ (err e, s')
        | ok (refused reason) ↦ (
          ok (no_budget action.id reason),
          emit (Event.action_blocked action.id)
              (mark action.id ActionStatus.rejected no_metadata now s'),
        )
        | ok (reserved r) ↦ evaluate_proposal action now (emit (Event.action_proposed action.id) s')
      ]

module _ (chain : Chain) where
  abbrev pub approval_params : TreasuryAction → TreasuryMandate → ApprovalParams
  approval_params a mandate = record {
    action_id = a.id;
    agent = a.agent_address;
    recipient = a.recipient;
    token = a.token;
    amount = a.amount;
    nonce = a.nonce;
    deadline = a.deadline;
    mandate_hash = chain.mandate_hash mandate;
    risk_score = a.risk_score;
  }

  -- The checks of `approveAction`: the normalized signer, or the exception.
  unfoldable pub check_approval : TreasuryAction → TreasuryMandate → Text → Text → Result Text
  check_approval a mandate signer signature =
      if same_status a.status ActionStatus.pending
      then elim (chain.get_address signer) [
        | none ↦ err HttpError.internal
        | some normalized ↦
            if chain.verify_signature (approval_params a mandate) signature normalized
            then elim chain.guard_human_signer [
              | none ↦ err HttpError.unavailable
              | some authorized ↦
                  if text_eq normalized authorized then ok normalized else err HttpError.forbidden
            ]
            else err HttpError.bad_request
      ]
      else err HttpError.bad_request

  -- `approveAction`: the signer. The World ID activity of the signer is left out.
  unfoldable pub approve_action : Text → Text → Text → ℕ → Treasury → Result Text × Treasury
  approve_action id signer signature now s =
      let (found, store) = get_action id s.store in
      let s' = record s { store = store } in
      elim found [
        | none ↦ (err HttpError.not_found, s')
        | some a ↦ elim (check_approval a s.reservations.policy.mandate signer signature) [
          | err e ↦ (err e, s')
          | ok normalized ↦
              let (committed, reservations) =
                commit_reservation a.id (now / 1000) s'.reservations in
              let spent = record s' { reservations = reservations } in
              elim committed [
                | err e ↦ (err e, spent)
                | ok _ ↦ (
                  ok normalized,
                  emit (Event.action_approved a.id) (
                      mark a.id ActionStatus.approved
                        (record { signature = some signature; tx_hash = none }) now spent),
                )
              ]
        ]
      ]

-- `rejectAction`
unfoldable pub reject_action : Text → ℕ → Treasury → Result (Unit {0}) × Treasury
reject_action id now s =
    let (found, store) = get_action id s.store in
    let s' = record s { store = store } in
    elim found [
      | none ↦ (err HttpError.not_found, s')
      | some a ↦
          let freed = record s' { reservations = (release_reservation a.id s'.reservations).1 } in
          if same_status a.status ActionStatus.pending
          then (
            ok tt,
            emit (Event.action_rejected a.id)
                (mark a.id ActionStatus.rejected no_metadata now freed),
          )
          else (err HttpError.bad_request, s')
    ]
