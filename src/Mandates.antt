-- ===== src/Mandates.antt =====
-- backend/src/policies/mandates.controller.ts: the active mandate and its updates by the owners of
-- agents. The balance of the treasury, and the amounts in USDC, which are floating-point, are left out.
pub mod Takeover
use ethonline.Common.{ℕ, Option, none, some, List, map}
use ethonline.Common.Int.{ℤ}
use ethonline.Common.Text.{Text, to_lower, truthy}
use ethonline.Common.Dict.{Dict}
use ethonline.Common.BigInt.{parse_big_int, print_big_int}
use ethonline.Common.Results.{HttpError, Result, ok, err}
use ethonline.Domain.{TreasuryMandate}
use ethonline.Policy.{Policy, get_daily_spent, get_remaining_daily_budget, update_mandate}
use ethonline.X402.Ethers.{Ethers}
use ethonline.Agents.{Agent, assert_agent_ownership}

-- `DeployAgentDto`
pub record DeployAgentDto : Type 0 where
  pub agent_address : Text
  pub max_autonomous_amount : Option Text
  pub daily_autonomous_limit : Option Text
  pub approved_recipients : Option (List Text)
  pub approved_tokens : Option (List Text)

-- `UpdateCapsDto`
pub record UpdateCapsDto : Type 0 where
  pub max_autonomous_amount : Text
  pub daily_autonomous_limit : Text

-- What `getActiveMandate` answers.
pub record ActiveMandate : Type 0 where
  pub chain_id : ℕ
  pub safe_address : Text
  pub guard_address : Text
  pub autonomous_agent : Text
  pub human_signer : Text
  pub max_autonomous_amount : Text
  pub daily_autonomous_limit : Text
  pub daily_spent : ℤ
  pub remaining_budget : ℤ
  pub approved_recipients : List Text
  pub approved_tokens : List Text

-- `getActiveMandate`, at a time in seconds; the total of the day is cached.
unfoldable pub get_active_mandate : ℕ → Policy → ActiveMandate × Policy
get_active_mandate now p =
    let m = p.mandate in
    let (spent, p') = get_daily_spent now p in
    let (remaining, p'') = get_remaining_daily_budget now p' in
    (
      record {
        chain_id = m.chain_id;
        safe_address = m.safe_address;
        guard_address = m.guard_address;
        autonomous_agent = m.autonomous_agent;
        human_signer = m.human_signer;
        max_autonomous_amount = print_big_int m.max_autonomous_amount;
        daily_autonomous_limit = print_big_int m.daily_autonomous_limit;
        daily_spent = spent;
        remaining_budget = remaining;
        approved_recipients = m.approved_recipients;
        approved_tokens = m.approved_tokens;
      },
      p'',
    )

-- `if (dto.x) { update.x = BigInt(dto.x) }`; `none` where `BigInt` throws.
unfoldable pub amount_or : Option Text → ℤ → Option ℤ
amount_or given old = elim (truthy given) [ none ↦ some old | some t ↦ parse_big_int t ]

abbrev pub addresses_or : Option (List Text) → List Text → List Text
addresses_or none old = old
addresses_or (some given) old = map to_lower given

abbrev pub mandate_answer : ℕ → Policy → Result ActiveMandate × Policy
mandate_answer now p = let (active, p') = get_active_mandate now p in (ok active, p')

module _ (ethers : Ethers) (agents : Dict Agent) (user : Text) (now : ℕ) where
  -- `deployAgent`
  unfoldable pub deploy_agent : DeployAgentDto → Policy → Result ActiveMandate × Policy
  deploy_agent dto p = elim (assert_agent_ownership ethers user dto.agent_address agents) [
    | err e ↦ (err e, p)
    | ok _ ↦ elim (amount_or dto.max_autonomous_amount p.mandate.max_autonomous_amount) [
      | none ↦ (err HttpError.internal, p)
      | some most ↦ elim (amount_or dto.daily_autonomous_limit p.mandate.daily_autonomous_limit) [
        | none ↦ (err HttpError.internal, p)
        | some daily ↦ mandate_answer now (
            update_mandate
              (record p.mandate {
                autonomous_agent = to_lower dto.agent_address;
                max_autonomous_amount = most;
                daily_autonomous_limit = daily;
                approved_recipients =
                    addresses_or dto.approved_recipients p.mandate.approved_recipients;
                approved_tokens = addresses_or dto.approved_tokens p.mandate.approved_tokens;
              })
              p)
      ]
    ]
  ]

  -- `updateCaps`
  unfoldable pub update_caps : UpdateCapsDto → Policy → Result ActiveMandate × Policy
  update_caps dto p = elim (assert_agent_ownership ethers user p.mandate.autonomous_agent agents) [
    | err e ↦ (err e, p)
    | ok _ ↦ elim (parse_big_int dto.max_autonomous_amount) [
      | none ↦ (err HttpError.internal, p)
      | some most ↦ elim (parse_big_int dto.daily_autonomous_limit) [
        | none ↦ (err HttpError.internal, p)
        | some daily ↦ mandate_answer now (
            update_mandate
              (record p.mandate { max_autonomous_amount = most; daily_autonomous_limit = daily }) p)
      ]
    ]
  ]
