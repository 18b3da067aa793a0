-- ===== src/X402/Payments/Signed.antt =====
-- The payments service as a whole: what a human signs is what the action pays.
use ethonline.Common.{
  ℕ, ◌≡◌, refl, ◌∙◌, sym, ap, Bool, true, false, Option, none, some, [], arith, Bool-cases,
  Option-cases, inl, inr,
}
use ethonline.Common.Text.{Text}
use ethonline.Common.Dict.{Dict, lookup, lookup-insert_self}
use ethonline.Common.Results.{ok, Result-cases, none_ne_some}
use ethonline.Domain.{ActionStatus, TreasuryAction, ProposeActionDto}
use ethonline.ActionStore.{
  Metadata, update_status, with_status, create_action, set_risk, load_from_database,
}
use ethonline.ActionStore.Mirror.{
  IsMirrored, update_status-IsMirrored, update_status-some, create_action-IsMirrored,
  set_risk-IsMirrored,
}
use ethonline.ActionStore.Loaded.{load_from_database-IsMirrored}
use ethonline.World.Bindings.{Binding}
use ethonline.Common.Int.{ℤ}
use ethonline.X402.Ethers.{Ethers, is_same_address}
use ethonline.X402.Escalation.{TypedData, EscalationStatus, Escalation, is_expired, is_awaiting}
use ethonline.X402.Spending.{Config}
use ethonline.X402.Transfers.{Receipt}
use ethonline.X402.Payments.{
  Payments, AuthorizeDto, submit_escalation, mark_and_emit, authorize, settle, Event, emit_if,
}
use ethonline.X402.Payments.Approval.{
  assert_approver, assert_approver_verified, approve_with_signature, reject_with_signature,
  get_awaiting_escalation,
}
use ethonline.X402.Payments.Kept.{
  update_status-Keeps, create_action-Keeps, set_risk-Keeps, load_from_database-Keeps,
}
use ethonline.X402.Payments.Escalations.{IsPayment, IsSound, Sound-kept, submit-IsSound}
use ethonline.X402.Payments.Answers.{
  reject-IsSound, approve-IsSound, assert_approver_verified-same, update_escalation-store,
}
use ethonline.X402.Payments.Sound.{settle-IsSound, authorize-IsSound}

module _ (ethers : Ethers) (config : Config) where
  -- What the services do: the operations of the payments service; what the controller of the actions
  -- does to the shared store, which is to create an action under a new id, to write its risk and to
  -- change statuses; what World ID does to the bindings; and a restart, which loses what is only in
  -- memory. Only tests clear the store.
  pub data Step : Payments → Payments → Type 0 where
    authorizes :
        (agent : Text) (dto : AuthorizeDto) (id : Text) (now : ℕ) (s : Payments)
        → lookup id s.store.actions ≡ none
        → Step s (authorize ethers config agent dto id now s).1
    submits :
        (agent id : Text) (td : Option TypedData) (now : ℕ) (s : Payments)
        → Step s (submit_escalation ethers config agent id td now s).1
    settles :
        (receipts : Text → Option Receipt) (agent id hash : Text) (now : ℕ) (s : Payments)
        → Step s (settle ethers receipts agent id hash now s).1
    approves :
        (verify : TypedData → Text → Option Text) (required : Bool) (id signature : Text) (now : ℕ)
        (s : Payments)
        → Step s (approve_with_signature ethers config verify required id signature now s).1
    rejects :
        (id signature : Text) (now : ℕ) (s : Payments)
        → Step s (reject_with_signature ethers config id signature now s).1
    marks :
        (id : Text) (status : ActionStatus) (m : Metadata) (now : ℕ) (s : Payments)
        → Step s (record s { store = (update_status id status m now s.store).1 })
    proposes :
        (dto : ProposeActionDto) (id : Text) (now : ℕ) (s : Payments)
        → lookup id s.store.actions ≡ none
        → Step s (record s { store = (create_action dto id now s.store).1 })
    risks :
        (id : Text) (score : ℤ) (human : Bool) (s : Payments)
        → Step s (record s { store = set_risk id score human s.store })
    binds : (bindings : Dict Binding) (s : Payments) → Step s (record s { bindings = bindings })
    restarts :
        (s : Payments)
        → Step s (record s {
          store = load_from_database s.store.rows;
          escalation_reasons = [];
          events = [];
        })

  pub data Reach (s : Payments) : Payments → Type 0 where
    here : Reach s s
    next : {u v : Payments} → Reach s u → Step u v → Reach s v

  Step-IsSound : {s t : Payments} → Step s t → IsSound ethers config s → IsSound ethers config t
  Step-IsSound (authorizes agent dto id now s fresh) h =
      authorize-IsSound ethers config agent dto id now s fresh h
  Step-IsSound (submits agent id td now s) h = submit-IsSound ethers config agent id td now s h
  Step-IsSound (settles receipts agent id hash now s) h =
      settle-IsSound ethers config receipts agent id hash now s h
  Step-IsSound (approves verify required id signature now s) h =
      approve-IsSound ethers config verify required id signature now s h
  Step-IsSound (rejects id signature now s) h = reject-IsSound ethers config id signature now s h
  Step-IsSound (marks id status m now s) h =
      Sound-kept ethers config s _ h (update_status-IsMirrored id status m now s.store h.mirrored)
        (update_status-Keeps id status m now s.store h.mirrored) (λ k o there. (o, there, refl))
  Step-IsSound (proposes dto id now s fresh) h =
      Sound-kept ethers config s _ h (create_action-IsMirrored dto id now s.store h.mirrored)
        (create_action-Keeps dto id now s.store fresh) (λ k o there. (o, there, refl))
  Step-IsSound (risks id score human s) h =
      Sound-kept ethers config s _ h (set_risk-IsMirrored id score human s.store h.mirrored)
        (set_risk-Keeps id score human s.store) (λ k o there. (o, there, refl))
  Step-IsSound (binds bindings s) h =
      Sound-kept ethers config s _ h h.mirrored (λ k a e. (a, e, (refl, refl)))
        (λ k o there. (o, there, refl))
  Step-IsSound (restarts s) h =
      Sound-kept ethers config s _ h (load_from_database-IsMirrored s.store h.mirrored)
        (load_from_database-Keeps s.store h.mirrored) (λ k o there. (o, there, refl))

  -- However the operations of the service, those of the others on the store of actions and restarts
  -- follow each other, every row of x402_escalations stands under the id of an action and is a
  -- transfer of exactly the amount of this action to its recipient, in the configured token on the
  -- configured chain and from the configured approver, if this holds to begin with and the table of
  -- actions mirrors the map then. A new action has an id that no action has.
  pub Reach-IsSound :
      (s t : Payments) → IsSound ethers config s → Reach s t → IsSound ethers config t
  Reach-IsSound s t h here = h
  Reach-IsSound s t h (next before st) = Step-IsSound st (Reach-IsSound s _ h before)

  assert_approver-ok :
      (recovered : Option Text)
      → assert_approver ethers config recovered ≡ ok tt
      → (r : Text) × (recovered ≡ some r)
        × (is_same_address ethers r config.ledger_approver_address ≡ true)
  unfolding assert_approver
  assert_approver-ok none e = absurd cc
  assert_approver-ok (some r) e = (r, refl, ground arith)

  awaiting-ok :
      (id : Text) (s : Payments) (e : Escalation)
      → get_awaiting_escalation ethers id s ≡ ok e
      → (lookup id s.escalations ≡ some e) × (is_awaiting e.status ≡ true)
  unfolding get_awaiting_escalation
  awaiting-ok id s e done = elim (Option-cases (lookup id s.escalations)) [
    | inl missing ↦ absurd (ground arith)
    | inr (o, found) ↦
        let waits : is_awaiting o.status ≡ true = ground arith in
        let same : o ≡ e = ground arith in
        (found ∙ ap some same, ap (λ x. is_awaiting x.status) (sym same) ∙ waits)
  ]

  pub mark_and_emit-store :
      (id : Text) (status : ActionStatus) (m : Metadata) (e : Event) (now : ℕ) (s : Payments)
      → (mark_and_emit id status m e now s).store ≡ (update_status id status m now s.store).1
  mark_and_emit-store id status m e now s =
      elim (update_status id status m now s.store).0
        as (λ u.
          (emit_if u e (record s { store = (update_status id status m now s.store).1 })).store
          ≡ (update_status id status m now s.store).1) [ none ↦ refl | some a ↦ refl ]

  -- The action after a status update on a state with the store of `s`.
  pub marked_action :
      (id : Text) (status : ActionStatus) (m : Metadata) (e : Event) (now : ℕ) (s t : Payments)
      (a : TreasuryAction)
      → IsMirrored s.store
      → t.store ≡ s.store
      → lookup id s.store.actions ≡ some a
      → lookup id (mark_and_emit id status m e now t).store.actions
        ≡ some (with_status status m now a)
  marked_action id status m e now s t a mirrored same listed =
      rw
        (
          mark_and_emit-store id status m e now t,
          same,
          update_status-some id status m now s.store a mirrored listed,
        )
        (lookup-insert_self id (with_status status m now a) s.store.actions)

  -- An approval on a state that is sound.
  approval-ok :
      (verify : TypedData → Text → Option Text) (required : Bool) (id signature : Text) (now : ℕ)
      (s : Payments)
      → IsSound ethers config s
      → (approve_with_signature ethers config verify required id signature now s).0 ≡ ok tt
      → (e : Escalation) × (a : TreasuryAction) × (r : Text) × (lookup id s.escalations ≡ some e)
        × (is_awaiting e.status ≡ true)
        × (is_expired e.typed_data now ≡ false)
        × (verify e.typed_data signature ≡ some r)
        × (is_same_address ethers r config.ledger_approver_address ≡ true)
        × (lookup id s.store.actions ≡ some a)
        × IsPayment ethers config e.typed_data a
        × (lookup id
              (approve_with_signature ethers config verify required id signature now
                s).1.store.actions
            ≡ some (
                with_status ActionStatus.approved
                  (record { signature = some signature; tx_hash = none })
                  now
                  a))
  unfolding approve_with_signature
  approval-ok verify required id signature now s h done =
      elim (Result-cases (get_awaiting_escalation ethers id s)) [
        | inr (e, bad) ↦ absurd (ground arith)
        | inl (e, good) ↦ elim (Bool-cases (is_expired e.typed_data now)) [
          | inl late ↦ absurd (ground arith)
          | inr fresh ↦
              elim (Result-cases (assert_approver ethers config (verify e.typed_data signature))) [
                | inr (f, bad) ↦ absurd (ground arith)
                | inl (u, own) ↦
                    elim (Result-cases (assert_approver_verified ethers config required now s).0) [
                      | inr (f, bad) ↦ absurd (ground arith)
                      | inl (v, human) ↦
                          let (there, waits) = awaiting-ok id s e good in
                          let (r, signed, by) =
                            assert_approver-ok (verify e.typed_data signature) own in
                          let (a, listed, pays) = h.bound id e there in
                          let same =
                            update_escalation-store ethers config EscalationStatus.signed signature
                              now id (assert_approver_verified ethers config required now s).1
                            ∙ (assert_approver_verified-same ethers config required now s).0 in
                          (
                            e,
                            a,
                            r,
                            there,
                            waits,
                            fresh,
                            signed,
                            by,
                            listed,
                            pays,
                            rw (approve_with_signature, good, fresh, own, human)
                                (marked_action id ActionStatus.approved _ _ now s _ a h.mirrored
                                  same listed),
                          )
                    ]
              ]
        ]
      ]

  -- A service over no escalations yet, whose table of actions mirrors its map.
  pub record IsStart (s : Payments) : Type 0 where
    pub mirrored : IsMirrored s.store
    pub empty : s.escalations ≡ []

  pub IsStart-IsSound : (s : Payments) → IsStart s → IsSound ethers config s
  unfolding lookup
  IsStart-IsSound s h = record {
    mirrored = h.mirrored;
    bound = λ id e there.
        let none_there : lookup id s.escalations ≡ none = ap (lookup id) h.empty in
        absurd (none_ne_some e (sym none_there ∙ there));
  }

  -- Whatever operations lead there from a service without escalations, whose table of actions
  -- mirrors its map, an approval succeeds only for an escalation that waits for a signature and has
  -- not expired, with a signature of its typed data by the configured approver; this typed data
  -- transfers exactly the amount of the action to its recipient, in the configured token on the
  -- configured chain, and the action is then approved with the signature. A new action has an id
  -- that no action has.
  pub approve_with_signature-IsPayment :
      (start : Payments) (verify : TypedData → Text → Option Text) (required : Bool)
      (id signature : Text) (now : ℕ) (s : Payments)
      → IsStart start
      → Reach start s
      → (approve_with_signature ethers config verify required id signature now s).0 ≡ ok tt
      → (e : Escalation) × (a : TreasuryAction) × (r : Text) × (lookup id s.escalations ≡ some e)
        × (is_awaiting e.status ≡ true)
        × (is_expired e.typed_data now ≡ false)
        × (verify e.typed_data signature ≡ some r)
        × (is_same_address ethers r config.ledger_approver_address ≡ true)
        × (lookup id s.store.actions ≡ some a)
        × IsPayment ethers config e.typed_data a
        × (lookup id
              (approve_with_signature ethers config verify required id signature now
                s).1.store.actions
            ≡ some (
                with_status ActionStatus.approved
                  (record { signature = some signature; tx_hash = none })
                  now
                  a))
  approve_with_signature-IsPayment start verify required id signature now s begins before done =
      approval-ok verify required id signature now s
        (Reach-IsSound start s (IsStart-IsSound start begins) before) done
