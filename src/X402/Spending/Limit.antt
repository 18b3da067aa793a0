-- ===== src/X402/Spending/Limit.antt =====
-- Exactly which payments the spending policy lets through without a human.
use ethonline.Common.{
  ℕ, ◌≡◌, refl, ◌∙◌, sym, ap, ◌↔◌, true, false, Option, none, some, List, [], ◌∷◌, arith,
  Bool-cases, Option-cases, inl, inr,
}
use ethonline.Common.Int.{ℤ, ◌+ℤ◌, ◌≤ℤ◌, ltb_ℤ}
use ethonline.Common.Text.{Text, text_eq, text_eq_iff, text_eq_refl, contains}
use ethonline.Common.BigInt.{parse_big_int}
use ethonline.Common.Results.{Result, ok, err}
use ethonline.Domain.{Decision, Intent, Reason}
use ethonline.ActionStore.{Store}
use ethonline.Guardian.Semantic.{perform_semantic_analysis}
use ethonline.X402.Ethers.{Ethers}
use ethonline.X402.Spending.{
  Config, Requirements, PolicyDecision, get_todays_approved_total, raised, conclude,
  evaluate_amount, evaluate_payee, evaluate_asset, evaluate,
}

abbrev pub decided : Result PolicyDecision → Option Decision
decided (ok d) = some d.decision
decided (err e) = none

raised-allow :
    (is : List Intent) (score risk : ℕ) (d : Decision) (reasons : List Reason)
    → ((raised is score d risk reasons).decision ≡ Decision.allow)
      ↔ ((d ≡ Decision.allow) × (is ≡ []))
raised-allow [] score risk d reasons = (λ e. (e, refl), λ e. e.0)
raised-allow (i ∷ is) score risk Decision.allow reasons = (λ e. cc, λ e. cc)
raised-allow (i ∷ is) score risk Decision.escalate reasons = (λ e. cc, λ e. cc)
raised-allow (i ∷ is) score risk Decision.block reasons = (λ e. cc, λ e. cc)

conclude-allow :
    (justification : Text) (d : Decision) (risk : ℕ) (reasons : List Reason)
    → ((conclude justification d risk reasons).decision ≡ Decision.allow)
      ↔ ((d ≡ Decision.allow) × ((perform_semantic_analysis justification).detected_intents ≡ []))
unfolding conclude
conclude-allow justification d risk reasons =
    raised-allow (perform_semantic_analysis justification).detected_intents _ risk d reasons

module _ (config : Config) (agent justification : Text) (now : ℕ) (s : Store) where
  -- What the policy asks of an amount.
  pub record IsAffordable (amount : Text) : Type 0 where
    pub value : ℤ
    pub total : ℤ
    pub parsed : parse_big_int amount ≡ some value
    pub autonomous : value ≤ℤ config.autonomous_limit
    pub today : get_todays_approved_total agent now s ≡ some total
    pub daily : total +ℤ value ≤ℤ config.daily_limit
    pub clean : (perform_semantic_analysis justification).detected_intents ≡ []

  evaluate_amount-allow :
      (amount : Text)
      → (decided (evaluate_amount config agent justification now s amount) ≡ some Decision.allow)
      → IsAffordable amount
  unfolding evaluate_amount
  evaluate_amount-allow amount e = elim (Option-cases (parse_big_int amount)) [
    | inl bad ↦ absurd (ground arith)
    | inr (n, good) ↦ elim (Bool-cases (ltb_ℤ config.autonomous_limit n)) [
      | inl large ↦ absurd (
          ground (
            arith,
            conclude-allow justification Decision.escalate 60
                (Reason.over_autonomous_limit n config.autonomous_limit ∷ []),
          ))
      | inr small ↦ elim (Option-cases (get_todays_approved_total agent now s)) [
        | inl bad ↦ absurd (ground arith)
        | inr (total, today) ↦ elim (Bool-cases (ltb_ℤ config.daily_limit (total +ℤ n))) [
          | inl over ↦ absurd (
              ground (
                arith,
                conclude-allow justification Decision.escalate 60
                    (Reason.over_daily_x402_limit (total +ℤ n) config.daily_limit ∷ []),
              ))
          | inr within ↦
              let all = conclude-allow justification Decision.allow 10 [] in
              record {
                value = n;
                total = total;
                parsed = good;
                autonomous = ground arith;
                today = today;
                daily = ground arith;
                clean = ground (arith, all);
              }
        ]
      ]
    ]
  ]

  allow-evaluate_amount :
      (amount : Text)
      → IsAffordable amount
      → decided (evaluate_amount config agent justification now s amount) ≡ some Decision.allow
  unfolding evaluate_amount
  allow-evaluate_amount amount h =
      let small : ltb_ℤ config.autonomous_limit h.value ≡ false = ground (arith, h.autonomous) in
      let within : ltb_ℤ config.daily_limit (h.total +ℤ h.value) ≡ false =
        ground (arith, h.daily) in
      rw (evaluate_amount, h.parsed, small, h.today, within)
        (ap some ((conclude-allow justification Decision.allow 10 []).1 (refl, h.clean)))

  module _ (ethers : Ethers) (r : Requirements) where
    -- A payment that the policy allows.
    pub record IsAllowed : Type 0 where
      pub asset : Text
      pub payee : Text
      pub network : r.network ≡ config.network
      pub paid_in : ethers.get_address r.asset ≡ some asset
      pub usdc : ethers.get_address config.usdc_address ≡ some asset
      pub paid_to : ethers.get_address r.pay_to ≡ some payee
      pub approved : contains config.approved_pay_to payee ≡ true
      pub affordable : IsAffordable r.amount

    abbrev verdict : Result PolicyDecision
    verdict = evaluate config agent justification now s ethers r

    evaluate-allow : decided verdict ≡ some Decision.allow → IsAllowed
    unfolding evaluate evaluate_asset evaluate_payee
    evaluate-allow e = elim (Option-cases (ethers.get_address r.asset)) [
      | inl bad ↦ absurd (ground arith)
      | inr (asset, in_) ↦ elim (Option-cases (ethers.get_address r.pay_to)) [
        | inl bad ↦ absurd (ground arith)
        | inr (payee, to) ↦ elim (Option-cases (ethers.get_address config.usdc_address)) [
          | inl bad ↦ absurd (ground arith)
          | inr (usdc, known) ↦
              let same : text_eq asset usdc ≡ true = ground arith in
              let net : text_eq r.network config.network ≡ true = ground arith in
              let listed : contains config.approved_pay_to payee ≡ true = ground arith in
              let rest : decided (evaluate_amount config agent justification now s r.amount)
                  ≡ some Decision.allow =
                ground arith in
              record {
                asset = asset;
                payee = payee;
                network = (text_eq_iff r.network config.network).0 net;
                paid_in = in_;
                usdc = known ∙ ap some (sym ((text_eq_iff asset usdc).0 same));
                paid_to = to;
                approved = listed;
                affordable = evaluate_amount-allow r.amount rest;
              }
        ]
      ]
    ]

    -- The policy allows a payment without a human exactly when it is on the network and in the
    -- USDC token of the configuration, to an approved payee, when its amount is within the
    -- autonomous limit and, with all that was approved for the agent since midnight UTC, within
    -- the daily limit, and when the analysis of the justification finds nothing.
    pub evaluate_iff : (decided verdict ≡ some Decision.allow) ↔ IsAllowed
    unfolding evaluate evaluate_asset evaluate_payee
    evaluate_iff = (
      evaluate-allow,
      λ h.
          rw
            (
              evaluate,
              (text_eq_iff r.network config.network).1 h.network,
              h.paid_in,
              h.paid_to,
              evaluate_asset,
              h.usdc,
              text_eq_refl h.asset,
              evaluate_payee,
              h.approved,
            )
            (allow-evaluate_amount r.amount h.affordable),
    )
