-- ===== src/X402/Payments/Authorize.antt =====
-- What an authorization does to the store, and that the daily limit holds after it.
use ethonline.Common.{
  ℕ, ◌≡◌, refl, ◌∙◌, sym, ap, ◌++◌, leb, Bool, true, false, none, some, arith, inl, inr,
}
use ethonline.Common.Int.{ℤ, pos, ◌+ℤ◌, ◌≤ℤ◌}
use ethonline.Common.Text.{Text, codes, text_eq_refl, to_lower, starts_with-append}
use ethonline.Common.Dict.{Dict, lookup, insert, lookup-insert_self}
use ethonline.Common.BigInt.{parse_big_int}
use ethonline.Common.Results.{some_injective, Result, ok, Result-cases}
use ethonline.Domain.{Decision, ActionStatus, TreasuryAction}
use ethonline.ActionStore.{
  Store, no_metadata, new_action, create_action, update_status, set_risk, with_risk, with_status,
  list_actions,
}
use ethonline.ActionStore.Mirror.{
  IsMirrored, create_action-IsMirrored, set_risk-IsMirrored, set_risk-some, update_status-some,
}
use ethonline.X402.Ethers.{Ethers}
use ethonline.X402.Justification.{full_justification}
use ethonline.X402.Spending.{
  Config, PolicyDecision, evaluate, is_counted, start_of_day, get_todays_approved_total,
}
use ethonline.X402.Spending.Total.{
  sum_counted, sum_counted-insert_uncounted, sum_counted-insert_counted,
}
use ethonline.X402.Spending.Limit.{decided, evaluate_iff, IsAllowed}
use ethonline.X402.Payments.{
  Payments, AuthorizeDto, Authorization, x402_action, apply_policy, requires_human, authorize,
}

-- The status that an action gets with a decision.
abbrev pub status_for : Decision → ActionStatus
status_for Decision.allow = ActionStatus.approved
status_for Decision.escalate = ActionStatus.pending
status_for Decision.block = ActionStatus.rejected

module _ (ethers : Ethers) (config : Config) (agent : Text) (dto : AuthorizeDto) (id : Text)
    (now : ℕ) (s : Payments) where
  abbrev first : TreasuryAction
  first = new_action (x402_action dto agent) id now s.store.current_nonce

  abbrev created : Store
  created = (create_action (x402_action dto agent) id now s.store).1

  abbrev verdict : Result PolicyDecision
  verdict =
      evaluate config agent (full_justification dto.resource_url dto.justification) now created
        ethers dto.requirements

  -- The action as it is left by a decision.
  abbrev pub authorized_action : Decision → ℕ → TreasuryAction
  authorized_action d score =
      with_status (status_for d) no_metadata now (with_risk (pos score) (requires_human d) first)

  apply_policy-store :
      (policy : PolicyDecision) (t : Payments)
      → (apply_policy policy id now t).store
        ≡ (update_status id (status_for policy.decision) no_metadata now t.store).1
  unfolding apply_policy
  apply_policy-store policy t =
      elim policy.decision
        as (λ d.
          (apply_policy (record policy { decision = d }) id now t).store
          ≡ (update_status id (status_for d) no_metadata now t.store).1) [
            | Decision.allow ↦ refl
            | Decision.escalate ↦ refl
            | Decision.block ↦ refl
          ]

  authorize-ok :
      (d : Authorization)
      → (authorize ethers config agent dto id now s).0 ≡ ok d
      → (policy : PolicyDecision) × (verdict ≡ ok policy)
        × (d.decision ≡ policy.decision)
        × (d.risk_score ≡ policy.risk_score)
        × ((authorize ethers config agent dto id now s).1.store
            ≡ (update_status id
                (status_for policy.decision)
                no_metadata
                now
                (set_risk id (pos policy.risk_score) (requires_human policy.decision) created)).1)
  unfolding authorize create_action
  authorize-ok d done = elim (Result-cases verdict) [
    | inr (e, bad) ↦ absurd (ground arith)
    | inl (policy, good) ↦ (
      policy,
      good,
      ground arith,
      ground arith,
      rw (authorize, good) (apply_policy-store policy _),
    )
  ]

  module _ (h : IsMirrored s.store) (policy : PolicyDecision) where
    abbrev scored : Dict TreasuryAction
    scored =
        insert id (with_risk (pos policy.risk_score) (requires_human policy.decision) first)
          (insert id first s.store.actions)

    created-actions : created.actions ≡ insert id first s.store.actions
    unfolding create_action
    created-actions = refl

    marked_actions :
        (update_status id
          (status_for policy.decision)
          no_metadata
          now
          (set_risk id (pos policy.risk_score) (requires_human policy.decision) created)).1.actions
        ≡ insert id (authorized_action policy.decision policy.risk_score) scored
    marked_actions =
        let score = pos policy.risk_score in
        let human = requires_human policy.decision in
        let m0 = create_action-IsMirrored (x402_action dto agent) id now s.store h in
        let here0 : lookup id created.actions ≡ some first =
          rw created-actions (lookup-insert_self id first s.store.actions) in
        let m1 = set_risk-IsMirrored id score human created m0 in
        let step1 = set_risk-some id score human created first here0 in
        let here1 : lookup id (set_risk id score human created).actions
            ≡ some (with_risk score human first) =
          rw step1 (lookup-insert_self id (with_risk score human first) created.actions) in
        ap (λ x. x.1.actions)
          (update_status-some id (status_for policy.decision) no_metadata now
            (set_risk id score human created) (with_risk score human first) m1 here1)
        ∙ rw (step1, created-actions) refl

  module _ (h : IsMirrored s.store) (fresh : lookup id s.store.actions ≡ none) where
    abbrev start : ℕ
    start = start_of_day now

    first-uncounted : is_counted agent start first ≡ false
    unfolding is_counted new_action
    first-uncounted = ground arith

    risk-uncounted :
        (score : ℕ) (human : Bool)
        → is_counted agent start (with_risk (pos score) human first) ≡ false
    unfolding is_counted new_action
    risk-uncounted score human = ground arith

    approved-counted :
        (score : ℕ) → is_counted agent start (authorized_action Decision.allow score) ≡ true
    unfolding is_counted new_action with_status
    approved-counted score =
        let today : leb start now ≡ true = ground arith in
        rw
          (
            is_counted,
            text_eq_refl (to_lower agent),
            starts_with-append (codes "x402: ")
                (dto.resource_url ++ (codes " | " ++ dto.justification)),
            today,
          )
          refl

    -- The new action does not count until it is approved.
    created-total :
        get_todays_approved_total agent now created ≡ get_todays_approved_total agent now s.store
    unfolding get_todays_approved_total create_action list_actions
    created-total =
        sum_counted-insert_uncounted agent start id first s.store.actions (pos 0) first-uncounted
          (λ b e. ground arith)

    total-actions :
        (t : Store)
        → get_todays_approved_total agent now t ≡ sum_counted agent start (pos 0) t.actions
    unfolding get_todays_approved_total list_actions
    total-actions t = refl

    approved-total :
        (policy : PolicyDecision) (n total : ℤ)
        → policy.decision ≡ Decision.allow
        → parse_big_int dto.requirements.amount ≡ some n
        → get_todays_approved_total agent now s.store ≡ some total
        → sum_counted agent start
            (pos 0)
            (insert id (authorized_action policy.decision policy.risk_score) (scored h policy))
          ≡ some (total +ℤ n)
    approved-total policy n total allowed amount before =
        let risk = with_risk (pos policy.risk_score) (requires_human policy.decision) first in
        let out = risk-uncounted policy.risk_score (requires_human policy.decision) in
        let d = insert id first s.store.actions in
        let only_first : (b : TreasuryAction)
            → lookup id d ≡ some b
            → is_counted agent start b ≡ false =
          λ b e.
            rw (some_injective b first (sym e ∙ lookup-insert_self id first s.store.actions))
              first-uncounted in
        let created_sum : sum_counted agent start (pos 0) d
            ≡ get_todays_approved_total agent now s.store =
          ap (sum_counted agent start (pos 0)) (sym (created-actions h policy))
          ∙ sym (total-actions created)
          ∙ created-total in
        let held : lookup id (scored h policy) ≡ some risk = lookup-insert_self id risk d in
        sum_counted-insert_counted agent start id
          (authorized_action policy.decision policy.risk_score) risk (scored h policy) (pos 0) total
          n (rw allowed (approved-counted policy.risk_score))
          (unfold with_status new_action in amount) held out
          (sum_counted-insert_uncounted agent start id risk d (pos 0) out only_first
            ∙ created_sum
            ∙ before)

    -- An authorization that needs no human leaves the total that is approved for the agent since
    -- midnight UTC within the daily limit: the total grows by exactly the amount of the payment,
    -- which is within the autonomous limit. The action is a new one.
    pub authorize-IsWithin :
        (d : Authorization)
        → (authorize ethers config agent dto id now s).0 ≡ ok d
        → d.decision ≡ Decision.allow
        → (n : ℤ) × (total : ℤ) × (parse_big_int dto.requirements.amount ≡ some n)
          × (n ≤ℤ config.autonomous_limit)
          × (get_todays_approved_total agent now s.store ≡ some total)
          × (get_todays_approved_total agent now
                (authorize ethers config agent dto id now s).1.store
              ≡ some (total +ℤ n))
          × (total +ℤ n ≤ℤ config.daily_limit)
    authorize-IsWithin d done allow =
        let (policy, good, same, score, after) = authorize-ok d done in
        let allowed : policy.decision ≡ Decision.allow = sym same ∙ allow in
        let justification = full_justification dto.resource_url dto.justification in
        let passed : IsAllowed config agent justification now created ethers dto.requirements =
          (evaluate_iff config agent justification now created ethers dto.requirements).0
            (ap decided good ∙ ap some allowed) in
        let p = passed.affordable in
        let before : get_todays_approved_total agent now s.store ≡ some p.total =
          sym created-total ∙ p.today in
        (
          p.value,
          p.total,
          p.parsed,
          p.autonomous,
          before,
          ap (get_todays_approved_total agent now) after
              ∙ total-actions _
              ∙ ap (sum_counted agent start (pos 0)) (marked_actions h policy)
              ∙ approved-total policy p.value p.total allowed p.parsed before,
          p.daily,
        )
