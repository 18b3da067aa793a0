-- ===== src/X402/Payments/Answers.antt =====
-- The operations that change the status of an escalation keep what it pays.
use ethonline.Common.{
  ℕ, ◌≡◌, refl, ◌∙◌, sym, ap, Bool, ◌++◌, Option, none, some, Bool-cases, Option-cases, inl, inr,
}
use ethonline.Common.Text.{Text, codes, text_eq, text_eq_iff, truthy}
use ethonline.Common.Dict.{lookup, insert, lookup-insert}
use ethonline.Common.Results.{some_injective, Result-cases}
use ethonline.Domain.{ActionStatus}
use ethonline.ActionStore.{Metadata, no_metadata, update_status}
use ethonline.ActionStore.Mirror.{update_status-IsMirrored}
use ethonline.X402.Ethers.{Ethers}
use ethonline.X402.Escalation.{TypedData, EscalationStatus, Escalation, is_expired}
use ethonline.X402.Spending.{Config}
use ethonline.X402.Payments.{Event, Payments, emit_if, mark_and_emit}
use ethonline.X402.Payments.Approval.{
  update_escalation, assert_approver, assert_approver_verified, approve_with_signature,
  reject_with_signature, get_awaiting_escalation,
}
use ethonline.X402.Payments.Kept.{update_status-Keeps}
use ethonline.X402.Payments.Escalations.{IsSound, Sound-kept}

module _ (ethers : Ethers) (config : Config) where
  update_escalation-none :
      (status : EscalationStatus) (signature : Text) (now : ℕ) (id : Text) (s : Payments)
      → lookup id s.escalations ≡ none
      → update_escalation ethers status signature now id s ≡ s
  unfolding update_escalation
  update_escalation-none status signature now id s missing = rw (update_escalation, missing) refl

  update_escalation-some :
      (status : EscalationStatus) (signature : Text) (now : ℕ) (id : Text) (s : Payments)
      (o : Escalation)
      → lookup id s.escalations ≡ some o
      → update_escalation ethers status signature now id s ≡ record s {
        escalations =
            insert id
              (record o { status = status; signature = truthy (some signature); updated_at = now })
              s.escalations;
      }
  unfolding update_escalation
  update_escalation-some status signature now id s o found = rw (update_escalation, found) refl

  update_escalation-old :
      (status : EscalationStatus) (signature : Text) (now : ℕ) (id : Text) (s : Payments) (k : Text)
      (e : Escalation)
      → lookup k (update_escalation ethers status signature now id s).escalations ≡ some e
      → (o : Escalation) × (lookup k s.escalations ≡ some o) × (o.typed_data ≡ e.typed_data)
  update_escalation-old status signature now id s k e there =
      elim (Option-cases (lookup id s.escalations)) [
        | inl missing ↦ (
          e,
          ap (λ x. lookup k x.escalations)
                (sym (update_escalation-none status signature now id s missing))
              ∙ there,
          refl,
        )
        | inr (o, found) ↦
            let new = record o {
              status = status;
              signature = truthy (some signature);
              updated_at = now;
            } in
            let put =
              ap (λ x. lookup k x.escalations)
                (update_escalation-some status signature now id s o found) in
            elim (Bool-cases (text_eq k id)) [
              | inl here ↦
                  let is : new ≡ e =
                    some_injective new e (
                      sym (lookup-insert id k new s.escalations ∙ rw here refl)
                      ∙ sym put
                      ∙ there) in
                  (
                    o,
                    ap (λ x. lookup x s.escalations) ((text_eq_iff k id).0 here) ∙ found,
                    ap (λ x. x.typed_data) is,
                  )
              | inr other ↦ (
                e,
                sym (lookup-insert id k new s.escalations ∙ rw other refl) ∙ sym put ∙ there,
                refl,
              )
            ]
      ]

  pub update_escalation-store :
      (status : EscalationStatus) (signature : Text) (now : ℕ) (id : Text) (s : Payments)
      → (update_escalation ethers status signature now id s).store ≡ s.store
  unfolding update_escalation
  update_escalation-store status signature now id s =
      elim (Option-cases (lookup id s.escalations)) [
        | inl missing ↦ rw (update_escalation, missing) refl
        | inr (o, found) ↦ rw (update_escalation, found) refl
      ]

  -- A status update of an action, and one of an escalation.
  pub mark_and_emit-IsSound :
      (id : Text) (status : ActionStatus) (m : Metadata) (e : Event) (now : ℕ) (s : Payments)
      → IsSound ethers config s
      → IsSound ethers config (mark_and_emit id status m e now s)
  mark_and_emit-IsSound id status m e now s h =
      elim (update_status id status m now s.store).0
        as (λ u.
          IsSound ethers config
            (emit_if u e (record s { store = (update_status id status m now s.store).1 }))) [
              | none ↦
                  Sound-kept ethers config s _ h
                    (update_status-IsMirrored id status m now s.store h.mirrored)
                    (update_status-Keeps id status m now s.store h.mirrored)
                    (λ k o there. (o, there, refl))
              | some a ↦
                  Sound-kept ethers config s _ h
                    (update_status-IsMirrored id status m now s.store h.mirrored)
                    (update_status-Keeps id status m now s.store h.mirrored)
                    (λ k o there. (o, there, refl))
            ]

  update_escalation-IsSound :
      (status : EscalationStatus) (signature : Text) (now : ℕ) (id : Text) (s : Payments)
      → IsSound ethers config s
      → IsSound ethers config (update_escalation ethers status signature now id s)
  update_escalation-IsSound status signature now id s h =
      let back = update_escalation-store status signature now id s in
      Sound-kept ethers config s _ h (rw back h.mirrored) (rw back (λ k a e. (a, e, (refl, refl))))
        (update_escalation-old status signature now id s)

  pub reject-IsSound :
      (id signature : Text) (now : ℕ) (s : Payments)
      → IsSound ethers config s
      → IsSound ethers config (reject_with_signature ethers config id signature now s).1
  unfolding reject_with_signature
  reject-IsSound id signature now s h = elim (Result-cases (get_awaiting_escalation ethers id s)) [
    | inr (e, bad) ↦ rw (reject_with_signature, bad) h
    | inl (e, good) ↦
        elim (Result-cases (
          assert_approver ethers config
            (ethers.verify_message (codes "chapter2-reject:" ++ id) signature))) [
              | inr (f, bad) ↦ rw (reject_with_signature, good, bad) h
              | inl (u, own) ↦
                  rw (reject_with_signature, good, own)
                    (mark_and_emit-IsSound id ActionStatus.rejected no_metadata
                      (Event.action_rejected id) now _
                      (update_escalation-IsSound EscalationStatus.rejected signature now id s h))
            ]
  ]

  pub assert_approver_verified-same :
      (world_id_required : Bool) (now : ℕ) (s : Payments)
      → ((assert_approver_verified ethers config world_id_required now s).1.store ≡ s.store)
        × ((assert_approver_verified ethers config world_id_required now s).1.escalations
            ≡ s.escalations)
  unfolding assert_approver_verified
  assert_approver_verified-same world_id_required now s = (refl, refl)

  verified-IsSound :
      (world_id_required : Bool) (now : ℕ) (s : Payments)
      → IsSound ethers config s
      → IsSound ethers config (assert_approver_verified ethers config world_id_required now s).1
  verified-IsSound world_id_required now s h =
      let (store, table) = assert_approver_verified-same world_id_required now s in
      Sound-kept ethers config s _ h (rw store h.mirrored)
        (rw store (λ k a e. (a, e, (refl, refl))))
        (λ k o there. (o, ap (lookup k) (sym table) ∙ there, refl))

  module _ (verify : TypedData → Text → Option Text) (world_id_required : Bool) where
    pub approve-IsSound :
        (id signature : Text) (now : ℕ) (s : Payments)
        → IsSound ethers config s
        → IsSound ethers config
            (approve_with_signature ethers config verify world_id_required id signature now s).1
    unfolding approve_with_signature
    approve-IsSound id signature now s h =
        elim (Result-cases (get_awaiting_escalation ethers id s)) [
          | inr (e, bad) ↦ rw (approve_with_signature, bad) h
          | inl (e, good) ↦ elim (Bool-cases (is_expired e.typed_data now)) [
            | inl late ↦ rw (approve_with_signature, good, late) h
            | inr fresh ↦
                elim (Result-cases
                  (assert_approver ethers config (verify e.typed_data signature))) [
                    | inr (f, bad) ↦ rw (approve_with_signature, good, fresh, bad) h
                    | inl (u, own) ↦
                        let g = verified-IsSound world_id_required now s h in
                        elim (Result-cases
                          (assert_approver_verified ethers config world_id_required now s).0) [
                            | inr (f, bad) ↦ rw (approve_with_signature, good, fresh, own, bad) g
                            | inl (v, human) ↦
                                rw (approve_with_signature, good, fresh, own, human)
                                  (mark_and_emit-IsSound id ActionStatus.approved _ _ now _ (
                                    update_escalation-IsSound EscalationStatus.signed signature now
                                      id _ g))
                          ]
                  ]
          ]
        ]
