-- ===== src/X402/Payments/Escalations.antt =====
-- What a human signs: every escalation in the table pays exactly what its action asks for.
use ethonline.Common.{
  ℕ, ◌≡◌, refl, ◌∙◌, sym, ap, Bool, true, false, ◌&&◌, Option, none, some, arith, Bool-cases,
  Option-cases, inl, inr,
}
use ethonline.Common.Int.{ℤ, pos, negsuc, eq_ℤ}
use ethonline.Common.Text.{Text, codes, text_eq, text_eq_iff, to_lower}
use ethonline.Common.Dict.{lookup, insert, lookup-insert}
use ethonline.Common.Results.{some_injective, ok, Result-cases}
use ethonline.Domain.{ActionStatus, same_status, TreasuryAction}
use ethonline.ActionStore.Mirror.{IsMirrored, get_action_lem}
use ethonline.X402.Ethers.{Ethers}
use ethonline.X402.Escalation.{TypedData, Escalation}
use ethonline.X402.Spending.{Config}
use ethonline.X402.Payments.{
  Payments, is_address, is_valid_typed_data, get_owned_action, submit_escalation, new_escalation,
}
use ethonline.X402.Payments.Kept.{Keeps}

module _ (ethers : Ethers) (config : Config) where
  -- The transfer that the typed data authorizes is the payment of the action.
  pub record IsPayment (td : TypedData) (a : TreasuryAction) : Type 0 where
    pub kind : td.primary_type ≡ some (codes "TransferWithAuthorization")
    pub contract : is_address ethers td.verifying_contract config.usdc_address ≡ true
    pub chain : td.chain_id ≡ some (pos 84532)
    pub payer : is_address ethers td.from config.ledger_approver_address ≡ true
    pub payee : is_address ethers td.to a.recipient ≡ true
    pub value : td.value ≡ a.amount

  pub record IsSound (s : Payments) : Type 0 where
    pub mirrored : IsMirrored s.store
    pub bound :
        (id : Text) (e : Escalation)
        → lookup id s.escalations ≡ some e
        → (a : TreasuryAction) × (lookup id s.store.actions ≡ some a) × IsPayment e.typed_data a

  eq_ℤ_sound : (a b : ℤ) → eq_ℤ a b ≡ true → a ≡ b
  eq_ℤ_sound (pos m) (pos n) e = ap pos (ground arith)
  eq_ℤ_sound (pos m) (negsuc n) e = absurd (ground arith)
  eq_ℤ_sound (negsuc m) (pos n) e = absurd (ground arith)
  eq_ℤ_sound (negsuc m) (negsuc n) e = ap negsuc (ground arith)

  and_cases : (a b : Bool) → (a && b) ≡ true → (a ≡ true) × (b ≡ true)
  and_cases a b e = (ground arith, ground arith)

  is_type :
      (o : Option Text) (t : Text)
      → elim o [ none ↦ false | some x ↦ text_eq x t ] ≡ true
      → o ≡ some t
  is_type none t e = cc
  is_type (some x) t e = ap some ((text_eq_iff x t).0 e)

  is_chain :
      (o : Option ℤ) (n : ℤ) → elim o [ none ↦ false | some x ↦ eq_ℤ x n ] ≡ true → o ≡ some n
  is_chain none n e = cc
  is_chain (some x) n e = ap some (eq_ℤ_sound x n e)

  valid-IsPayment :
      (td : TypedData) (a : TreasuryAction) (now : ℕ)
      → is_valid_typed_data ethers config td a now ≡ true
      → IsPayment td a
  unfolding is_valid_typed_data
  valid-IsPayment td a now e =
      let (e1, future) = and_cases _ _ e in
      let (e2, value) = and_cases _ _ e1 in
      let (e3, payee) = and_cases _ _ e2 in
      let (e4, payer) = and_cases _ _ e3 in
      let (e5, chain) = and_cases _ _ e4 in
      let (kind, contract) = and_cases _ _ e5 in
      record {
        kind = is_type td.primary_type (codes "TransferWithAuthorization") kind;
        contract = contract;
        chain = is_chain td.chain_id (pos 84532) chain;
        payer = payer;
        payee = payee;
        value = (text_eq_iff td.value a.amount).0 value;
      }

  -- A step that keeps the actions, and whose escalations have typed data of before.
  pub Sound-kept :
      (s t : Payments)
      → IsSound s
      → IsMirrored t.store
      → Keeps s.store t.store
      → ((id : Text) (e : Escalation)
          → lookup id t.escalations ≡ some e
          → (o : Escalation) × (lookup id s.escalations ≡ some o) × (o.typed_data ≡ e.typed_data))
      → IsSound t
  Sound-kept s t h m keeps old = record {
    mirrored = m;
    bound = λ id e there.
        let (o, was, same) = old id e there in
        let (a, listed, pays) = h.bound id o was in
        let (b, then, (recipient, amount)) = keeps id a listed in
        (
          b,
          then,
          rw (← same) (record {
            kind = pays.kind;
            contract = pays.contract;
            chain = pays.chain;
            payer = pays.payer;
            payee = rw (← recipient) pays.payee;
            value = pays.value ∙ amount;
          }),
        );
  }

  pub get_owned_action_lem :
      (agent id : Text) (s : Payments)
      → IsMirrored s.store
      → (get_owned_action ethers agent id s).1 ≡ s
  unfolding get_owned_action
  get_owned_action_lem agent id s h = rw (get_action_lem id s.store h) refl

  pub get_owned_action-ok :
      (agent id : Text) (s : Payments) (a : TreasuryAction)
      → IsMirrored s.store
      → (get_owned_action ethers agent id s).0 ≡ ok a
      → (lookup id s.store.actions ≡ some a) × (to_lower a.agent_address ≡ to_lower agent)
  unfolding get_owned_action
  get_owned_action-ok agent id s a h e = elim (Option-cases (lookup id s.store.actions)) [
    | inl missing ↦ absurd (ground (arith, get_action_lem id s.store h))
    | inr (b, found) ↦
        let own : text_eq (to_lower b.agent_address) (to_lower agent) ≡ true =
          ground (arith, get_action_lem id s.store h) in
        let same : b ≡ a = ground (arith, get_action_lem id s.store h) in
        (
          found ∙ ap some same,
          ap (λ x. to_lower x.agent_address) (sym same)
              ∙ (text_eq_iff (to_lower b.agent_address) (to_lower agent)).0 own,
        )
  ]

  put-bound :
      (s t : Payments) (id : Text) (e : Escalation) (a : TreasuryAction)
      → IsSound s
      → t.store ≡ s.store
      → t.escalations ≡ insert id e s.escalations
      → lookup id s.store.actions ≡ some a
      → IsPayment e.typed_data a
      → IsSound t
  put-bound s t id e a h same put listed pays = record {
    mirrored = rw same h.mirrored;
    bound = λ k o there. elim (Bool-cases (text_eq k id)) [
      | inl here ↦
          let is : e ≡ o = some_injective e o (
            sym (lookup-insert id k e s.escalations ∙ rw here refl)
            ∙ (ap (lookup k) (sym put) ∙ there)) in
          (a, rw (same, (text_eq_iff k id).0 here) listed, rw (← is) pays)
      | inr other ↦
          let was : lookup k s.escalations ≡ some o =
            sym (lookup-insert id k e s.escalations ∙ rw other refl)
            ∙ (ap (lookup k) (sym put) ∙ there) in
          let (b, held, paid) = h.bound k o was in (b, rw same held, paid)
    ];
  }

  pub submit-IsSound :
      (agent id : Text) (td : Option TypedData) (now : ℕ) (s : Payments)
      → IsSound s
      → IsSound (submit_escalation ethers config agent id td now s).1
  unfolding submit_escalation
  submit-IsSound agent id td now s h =
      let s' = (get_owned_action ethers agent id s).1 in
      let back = get_owned_action_lem agent id s h.mirrored in
      let h' : IsSound s' = rw back h in
      elim (Result-cases (get_owned_action ethers agent id s).0) [
        | inr (e, bad) ↦ rw (submit_escalation, bad) h'
        | inl (a, good) ↦ elim (Bool-cases (same_status a.status ActionStatus.pending)) [
          | inr late ↦ rw (submit_escalation, good, late) h'
          | inl pending ↦ elim (Option-cases td) [
            | inl empty ↦ rw (submit_escalation, good, pending, empty) h'
            | inr (d, given) ↦ elim (Bool-cases (is_valid_typed_data ethers config d a now)) [
              | inr wrong ↦ rw (submit_escalation, good, pending, given, wrong) h'
              | inl valid ↦ elim (Option-cases (lookup id s'.escalation_reasons)) [
                | inl unknown ↦ rw (submit_escalation, good, pending, given, valid, unknown) h'
                | inr (reasons, known) ↦
                    rw (submit_escalation, good, pending, given, valid, known)
                      (put-bound s' _ id (new_escalation id a d reasons now) a h' refl refl
                        (rw back (get_owned_action-ok agent id s a h.mirrored good).0)
                        (valid-IsPayment d a now valid))
              ]
            ]
          ]
        ]
      ]
