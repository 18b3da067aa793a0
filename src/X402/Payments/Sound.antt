-- ===== src/X402/Payments/Sound.antt =====
-- Settlements, authorizations and marks keep every escalation a payment of its action.
use ethonline.Common.{
  ℕ, ◌≡◌, refl, ◌∙◌, sym, ap, Bool, Option, none, Bool-cases, Option-cases, inl, inr,
}
use ethonline.Common.Int.{ℤ, pos}
use ethonline.Common.Text.{Text}
use ethonline.Common.Dict.{lookup}
use ethonline.Common.BigInt.{parse_big_int}
use ethonline.Common.Results.{Result-cases}
use ethonline.Domain.{Decision, ActionStatus, same_status}
use ethonline.ActionStore.{no_metadata, new_action, create_action, update_status, set_risk}
use ethonline.ActionStore.Mirror.{
  create_action-IsMirrored, set_risk-IsMirrored, update_status-IsMirrored,
}
use ethonline.X402.Ethers.{Ethers}
use ethonline.X402.Spending.{Config, PolicyDecision, evaluate}
use ethonline.X402.Justification.{full_justification}
use ethonline.X402.Transfers.{Receipt, verified, unverified, verify_token_transfer}
use ethonline.X402.Payments.{
  Payments, AuthorizeDto, x402_action, get_owned_action, authorize, apply_policy, settle,
  requires_human, Event, emit,
}
use ethonline.X402.Payments.Kept.{create_action-Keeps, set_risk-Keeps, update_status-Keeps}
use ethonline.X402.Payments.Escalations.{IsSound, Sound-kept, get_owned_action_lem}
use ethonline.X402.Payments.Answers.{mark_and_emit-IsSound}

module _ (ethers : Ethers) (config : Config) where
  pub settle-IsSound :
      (receipts : Text → Option Receipt) (agent id hash : Text) (now : ℕ) (s : Payments)
      → IsSound ethers config s
      → IsSound ethers config (settle ethers receipts agent id hash now s).1
  unfolding settle
  settle-IsSound receipts agent id hash now s h =
      let s' = (get_owned_action ethers agent id s).1 in
      let h' : IsSound ethers config s' =
        rw (get_owned_action_lem ethers config agent id s h.mirrored) h in
      elim (Result-cases (get_owned_action ethers agent id s).0) [
        | inr (e, bad) ↦ rw (settle, bad) h'
        | inl (a, good) ↦ elim (Bool-cases (same_status a.status ActionStatus.approved)) [
          | inr early ↦ rw (settle, good, early) h'
          | inl ready ↦ elim (Option-cases (parse_big_int a.amount)) [
            | inl bad ↦ rw (settle, good, ready, bad) h'
            | inr (n, amount) ↦
                elim (Result-cases
                  (verify_token_transfer ethers (receipts hash) a.token a.recipient n)) [
                    | inr (e, bad) ↦ rw (settle, good, ready, amount, bad) h'
                    | inl (unverified, missing) ↦ rw (settle, good, ready, amount, missing) h'
                    | inl (verified v, there) ↦
                        rw (settle, good, ready, amount, there)
                          (mark_and_emit-IsSound ethers config id ActionStatus.executed _ _ now s'
                            h')
                  ]
          ]
        ]
      ]

  marked-IsSound :
      (status : ActionStatus) (id : Text) (now : ℕ) (s t : Payments)
      → IsSound ethers config s
      → t.store ≡ (update_status id status no_metadata now s.store).1
      → t.escalations ≡ s.escalations
      → IsSound ethers config t
  marked-IsSound status id now s t h store table =
      Sound-kept ethers config s t h
        (rw store (update_status-IsMirrored id status no_metadata now s.store h.mirrored))
        (rw store (update_status-Keeps id status no_metadata now s.store h.mirrored))
        (λ k o there. (o, ap (lookup k) (sym table) ∙ there, refl))

  apply_policy-IsSound :
      (policy : PolicyDecision) (id : Text) (now : ℕ) (s : Payments)
      → IsSound ethers config s
      → IsSound ethers config (apply_policy policy id now s)
  unfolding apply_policy
  apply_policy-IsSound policy id now s h =
      elim policy.decision
        as (λ d. IsSound ethers config (apply_policy (record policy { decision = d }) id now s)) [
          | Decision.allow ↦ marked-IsSound ActionStatus.approved id now s _ h refl refl
          | Decision.escalate ↦ marked-IsSound ActionStatus.pending id now s _ h refl refl
          | Decision.block ↦ marked-IsSound ActionStatus.rejected id now s _ h refl refl
        ]

  -- The store after a new action, and after its risk is written.
  created-IsSound :
      (agent : Text) (dto : AuthorizeDto) (id : Text) (now : ℕ) (s : Payments)
      → lookup id s.store.actions ≡ none
      → IsSound ethers config s
      → IsSound ethers config (
          emit
            (Event.action_proposed id)
            (record s { store = (create_action (x402_action dto agent) id now s.store).1 }))
  created-IsSound agent dto id now s fresh h =
      Sound-kept ethers config s _ h
        (create_action-IsMirrored (x402_action dto agent) id now s.store h.mirrored)
        (create_action-Keeps (x402_action dto agent) id now s.store fresh)
        (λ k o there. (o, there, refl))

  set_risk-IsSound :
      (id : Text) (score : ℤ) (human : Bool) (s : Payments)
      → IsSound ethers config s
      → IsSound ethers config (record s { store = set_risk id score human s.store })
  set_risk-IsSound id score human s h =
      Sound-kept ethers config s _ h (set_risk-IsMirrored id score human s.store h.mirrored)
        (set_risk-Keeps id score human s.store) (λ k o there. (o, there, refl))

  new_id :
      (agent : Text) (dto : AuthorizeDto) (id : Text) (now : ℕ) (s : Payments)
      → (create_action (x402_action dto agent) id now s.store).0.id ≡ id
  unfolding create_action new_action
  new_id agent dto id now s = refl

  pub authorize-IsSound :
      (agent : Text) (dto : AuthorizeDto) (id : Text) (now : ℕ) (s : Payments)
      → lookup id s.store.actions ≡ none
      → IsSound ethers config s
      → IsSound ethers config (authorize ethers config agent dto id now s).1
  unfolding authorize
  authorize-IsSound agent dto id now s fresh h =
      let created = created-IsSound agent dto id now s fresh h in
      let same = new_id agent dto id now s in
      elim (Result-cases (
        evaluate config agent (full_justification dto.resource_url dto.justification) now
          (create_action (x402_action dto agent) id now s.store).1 ethers dto.requirements)) [
            | inr (e, bad) ↦ rw (authorize, bad, same) created
            | inl (policy, good) ↦
                rw (authorize, good, same)
                  (apply_policy-IsSound policy id now _ (
                    set_risk-IsSound id (pos policy.risk_score) (requires_human policy.decision) _
                      created))
          ]
