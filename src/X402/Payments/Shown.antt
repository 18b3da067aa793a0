-- ===== src/X402/Payments/Shown.antt =====
-- What the human is shown of an escalation is what the signature pays.
use ethonline.Common.{
  ℕ, ◌≡◌, refl, ap, ◌∙◌, Bool, true, Option, none, some, List, [], ◌∷◌, ◌++◌, All, arith,
  Bool-cases, Option-cases, inl, inr,
}
use ethonline.Actions.{Event}
use ethonline.Common.Keyed
use ethonline.Common.Int.{pos}
use ethonline.Common.Text.{Text, codes}
use ethonline.Common.Dict.{Dict, lookup, values}
use ethonline.Common.Results.{Result-cases}
use ethonline.Domain.{ActionStatus, same_status}
use ethonline.ActionStore.{Metadata, no_metadata, get_action, update_status}
use ethonline.ActionStore.Mirror.{get_action_lem}
use ethonline.X402.Ethers.{Ethers}
use ethonline.X402.Escalation.{TypedData, EscalationStatus, Escalation, is_awaiting, is_expired}
use ethonline.X402.Spending.{Config}
use ethonline.X402.Transfers.{Receipt}
use ethonline.X402.Payments.{
  Payments, AuthorizeDto, is_address, is_valid_typed_data, new_escalation, mark_and_emit,
  apply_policy, authorize, get_owned_action, submit_escalation, settle,
}
use ethonline.X402.Payments.Approval.{
  update_escalation, assert_approver, assert_approver_verified, approve_with_signature,
  reject_with_signature, get_awaiting_escalation,
}
use ethonline.X402.Payments.Escalations.{IsSound}
use ethonline.X402.Payments.Answers.{assert_approver_verified-same}
use ethonline.X402.Payments.Signed.{
  Step, authorizes, submits, settles, approves, rejects, marks, proposes, risks, binds, restarts,
  Reach, here, next, Reach-IsSound,
}
use ethonline.X402.Payments.Pending.{PendingApproval, pending_from, list_pending_approvals}

-- Every escalation stands under the id of its action, once.
abbrev pub IsFiled : Dict Escalation → Type 0
IsFiled = Keyed.IsKeyed (λ (e : Escalation). e.action_id)

mark_and_emit-escalations :
    (id : Text) (status : ActionStatus) (m : Metadata) (e : Event) (now : ℕ) (s : Payments)
    → (mark_and_emit id status m e now s).escalations ≡ s.escalations
mark_and_emit-escalations id status m e now s =
    elim (Option-cases (update_status id status m now s.store).0) [
      | inl missing ↦ rw missing refl
      | inr (a, found) ↦ rw found refl
    ]

module _ (ethers : Ethers) (config : Config) where
  authorize-escalations :
      (agent id : Text) (dto : AuthorizeDto) (now : ℕ) (s : Payments)
      → (authorize ethers config agent dto id now s).1.escalations ≡ s.escalations
  unfolding authorize apply_policy
  authorize-escalations agent id dto now s = ground arith

  settle-escalations :
      (receipts : Text → Option Receipt) (agent id hash : Text) (now : ℕ) (s : Payments)
      → (settle ethers receipts agent id hash now s).1.escalations ≡ s.escalations
  unfolding settle get_owned_action
  settle-escalations receipts agent id hash now s = ground arith

  update_escalation-IsFiled :
      (status : EscalationStatus) (signature : Text) (now : ℕ) (id : Text) (s : Payments)
      → IsFiled s.escalations
      → IsFiled (update_escalation ethers status signature now id s).escalations
  unfolding update_escalation
  update_escalation-IsFiled status signature now id s h =
      elim (Option-cases (lookup id s.escalations)) [
        | inl missing ↦ rw (update_escalation, missing) h
        | inr (o, found) ↦
            rw (update_escalation, found)
              (Keyed.insert-IsKeyed (λ (e : Escalation). e.action_id) id _ s.escalations
                (Keyed.IsKeyed-lookup (λ (e : Escalation). e.action_id) id o s.escalations h found)
                h)
      ]

  submit-IsFiled :
      (agent id : Text) (td : Option TypedData) (now : ℕ) (s : Payments)
      → IsFiled s.escalations
      → IsFiled (submit_escalation ethers config agent id td now s).1.escalations
  unfolding submit_escalation get_owned_action
  submit-IsFiled agent id td now s h = elim (Result-cases (get_owned_action ethers agent id s).0) [
    | inr (e, bad) ↦ rw (submit_escalation, bad) h
    | inl (a, good) ↦ elim (Bool-cases (same_status a.status ActionStatus.pending)) [
      | inr late ↦ rw (submit_escalation, good, late) h
      | inl pending ↦ elim (Option-cases td) [
        | inl empty ↦ rw (submit_escalation, good, pending, empty) h
        | inr (d, given) ↦ elim (Bool-cases (is_valid_typed_data ethers config d a now)) [
          | inr wrong ↦ rw (submit_escalation, good, pending, given, wrong) h
          | inl valid ↦
              elim (Option-cases
                (lookup id (get_owned_action ethers agent id s).1.escalation_reasons)) [
                  | inl unknown ↦ rw (submit_escalation, good, pending, given, valid, unknown) h
                  | inr (reasons, known) ↦
                      rw (submit_escalation, good, pending, given, valid, known)
                        (Keyed.insert-IsKeyed (λ (e : Escalation). e.action_id) id
                          (new_escalation id a d reasons now) s.escalations refl h)
                ]
        ]
      ]
    ]
  ]

  reject-IsFiled :
      (id signature : Text) (now : ℕ) (s : Payments)
      → IsFiled s.escalations
      → IsFiled (reject_with_signature ethers config id signature now s).1.escalations
  unfolding reject_with_signature
  reject-IsFiled id signature now s h = elim (Result-cases (get_awaiting_escalation ethers id s)) [
    | inr (e, bad) ↦ rw (reject_with_signature, bad) h
    | inl (e, good) ↦
        elim (Result-cases (
          assert_approver ethers config
            (ethers.verify_message (codes "chapter2-reject:" ++ id) signature))) [
              | inr (f, bad) ↦ rw (reject_with_signature, good, bad) h
              | inl (u, own) ↦
                  rw (reject_with_signature, good, own)
                    (rw
                      (mark_and_emit-escalations id ActionStatus.rejected no_metadata
                        (Event.action_rejected id) now
                        (update_escalation ethers EscalationStatus.rejected signature now id s))
                      (update_escalation-IsFiled EscalationStatus.rejected signature now id s h))
            ]
  ]

  approve-IsFiled :
      (verify : TypedData → Text → Option Text) (required : Bool) (id signature : Text) (now : ℕ)
      (s : Payments)
      → IsFiled s.escalations
      → IsFiled
          (approve_with_signature ethers config verify required id signature now s).1.escalations
  unfolding approve_with_signature
  approve-IsFiled verify required id signature now s h =
      let s' = (assert_approver_verified ethers config required now s).1 in
      let table : s'.escalations ≡ s.escalations =
        (assert_approver_verified-same ethers config required now s).1 in
      elim (Result-cases (get_awaiting_escalation ethers id s)) [
        | inr (e, bad) ↦ rw (approve_with_signature, bad) h
        | inl (e, good) ↦ elim (Bool-cases (is_expired e.typed_data now)) [
          | inl late ↦ rw (approve_with_signature, good, late) h
          | inr fresh ↦
              elim (Result-cases (assert_approver ethers config (verify e.typed_data signature))) [
                | inr (f, bad) ↦ rw (approve_with_signature, good, fresh, bad) h
                | inl (u, own) ↦
                    elim (Result-cases (assert_approver_verified ethers config required now s).0) [
                      | inr (f, bad) ↦
                          rw (approve_with_signature, good, fresh, own, bad) (rw table h)
                      | inl (v, human) ↦
                          rw (approve_with_signature, good, fresh, own, human)
                            (rw
                              (mark_and_emit-escalations id ActionStatus.approved
                                (record { signature = some signature; tx_hash = none })
                                (Event.action_approved id) now
                                (update_escalation ethers EscalationStatus.signed signature now id
                                  s'))
                              (update_escalation-IsFiled EscalationStatus.signed signature now id s'
                                (rw table h)))
                    ]
              ]
        ]
      ]

  Step-IsFiled :
      {s t : Payments} → Step ethers config s t → IsFiled s.escalations → IsFiled t.escalations
  Step-IsFiled (authorizes agent dto id now s fresh) h =
      rw (authorize-escalations agent id dto now s) h
  Step-IsFiled (submits agent id td now s) h = submit-IsFiled agent id td now s h
  Step-IsFiled (settles receipts agent id hash now s) h =
      rw (settle-escalations receipts agent id hash now s) h
  Step-IsFiled (approves verify required id signature now s) h =
      approve-IsFiled verify required id signature now s h
  Step-IsFiled (rejects id signature now s) h = reject-IsFiled id signature now s h
  Step-IsFiled (marks id status m now s) h = h
  Step-IsFiled (proposes dto id now s fresh) h = h
  Step-IsFiled (risks id score human s) h = h
  Step-IsFiled (binds bindings s) h = h
  Step-IsFiled (restarts s) h = h

  Reach-IsFiled :
      {s t : Payments} → Reach ethers config s t → IsFiled s.escalations → IsFiled t.escalations
  Reach-IsFiled here h = h
  Reach-IsFiled (next before st) h = Step-IsFiled st (Reach-IsFiled before h)

  -- What is shown is what is paid: a TransferWithAuthorization of the amount to the payee, in the
  -- token on its chain and by the approver.
  abbrev pub IsShown : PendingApproval → Type 0
  IsShown p =
      (p.typed_data.primary_type ≡ some (codes "TransferWithAuthorization"))
      × (p.typed_data.chain_id ≡ some (pos 84532))
      × (p.typed_data.value ≡ p.amount)
      × (is_address ethers p.typed_data.to p.pay_to ≡ true)
      × (is_address ethers p.typed_data.verifying_contract config.usdc_address ≡ true)
      × (is_address ethers p.typed_data.from config.ledger_approver_address ≡ true)

  pending_from-IsShown :
      (es : List Escalation) (s : Payments)
      → IsSound ethers config s
      → All (λ e. lookup e.action_id s.escalations ≡ some e) es
      → All IsShown (pending_from es s.store).0
  unfolding pending_from
  pending_from-IsShown [] s h filed = tt
  pending_from-IsShown (e ∷ rest) s h filed =
      let below = pending_from-IsShown rest s h filed.1 in
      let (a, listed, pays) = h.bound e.action_id e filed.0 in
      let found : get_action e.action_id s.store ≡ (some a, s.store) =
        get_action_lem e.action_id s.store h.mirrored ∙ ap (λ o. (o, s.store)) listed in
      let kept : (get_action e.action_id s.store).1 ≡ s.store = ap (λ r. r.1) found in
      let given : (get_action e.action_id s.store).0 ≡ some a = ap (λ r. r.0) found in
      elim (Bool-cases (is_awaiting e.status)) [
        | inr done ↦ rw (pending_from, done) below
        | inl waits ↦
            rw (pending_from, waits, given, kept)
              ((pays.kind, pays.chain, pays.value, pays.payee, pays.contract, pays.payer), below)
      ]

  -- Whatever operations of the services and restarts came before, each approval that the human is
  -- shown is what a signature pays: its typed data is a TransferWithAuthorization of exactly the
  -- shown amount to the shown payee, in the configured token on the configured chain and from the
  -- configured approver. This holds from a state where the table of actions mirrors the map, each
  -- escalation pays its action, and each stands under the id of its action; a new action has an id
  -- that no action has.
  pub list_pending_approvals-IsShown :
      (s t : Payments)
      → IsSound ethers config s
      → IsFiled s.escalations
      → Reach ethers config s t
      → All IsShown (list_pending_approvals t).0
  unfolding list_pending_approvals
  list_pending_approvals-IsShown s t sound filed r =
      pending_from-IsShown (values t.escalations) t (Reach-IsSound ethers config s t sound r) (
        Keyed.values-lookup (λ (e : Escalation). e.action_id) t.escalations (Reach-IsFiled r filed))
