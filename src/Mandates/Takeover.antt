-- ===== src/Mandates/Takeover.antt =====
-- Who can change the limits of the mandate: the owner of any agent, and anyone can bind an agent.
use ethonline.Common.{ℕ, suc, ◌≡◌, refl, ap, ◌∙◌, ◌≢◌, length, some, ◌∷◌, arith}
use ethonline.Common.Int.{ℤ}
use ethonline.Common.Text.{Text, to_lower}
use ethonline.Common.Dict.{Dict}
use ethonline.Common.Results.{ok}
use ethonline.Domain.{TreasuryMandate}
use ethonline.Policy.{
  Policy, get_daily_spent, get_remaining_daily_budget, update_mandate, persist_mandate,
}
use ethonline.Policy.Ledger.{get_daily_spent-mandate}
use ethonline.X402.Ethers.{Ethers}
use ethonline.Agents.{Agent, BindAgentDto, bind_agent, assert_agent_ownership}
use ethonline.Agents.Bind.{Reach, bind_agent-IsOwner}
use ethonline.Mandates.{
  DeployAgentDto, ActiveMandate, get_active_mandate, amount_or, addresses_or, mandate_answer,
  deploy_agent,
}

cons_ne : (c : ℕ) (s : Text) → (c ∷ s) ≢ s
cons_ne c s h = let e : suc (length s) ≡ length s = ap length h in omega arith

get_remaining_daily_budget-mandate :
    (t : ℕ) (p : Policy) → (get_remaining_daily_budget t p).1.mandate ≡ p.mandate
unfolding get_remaining_daily_budget
get_remaining_daily_budget-mandate t p = get_daily_spent-mandate t p

mandate_answer-mandate : (t : ℕ) (p : Policy) → (mandate_answer t p).1.mandate ≡ p.mandate
unfolding get_active_mandate
mandate_answer-mandate t p =
    get_remaining_daily_budget-mandate t (get_daily_spent t p).1 ∙ get_daily_spent-mandate t p

-- The mandate that `deployAgent` leaves.
abbrev pub deployed : DeployAgentDto → ℤ → ℤ → TreasuryMandate → TreasuryMandate
deployed dto most daily m = record m {
  autonomous_agent = to_lower dto.agent_address;
  max_autonomous_amount = most;
  daily_autonomous_limit = daily;
  approved_recipients = addresses_or dto.approved_recipients m.approved_recipients;
  approved_tokens = addresses_or dto.approved_tokens m.approved_tokens;
}

deploy_agent-owned :
    (ethers : Ethers) (agents : Dict Agent) (user : Text) (now : ℕ) (dto : DeployAgentDto)
    (most daily : ℤ) (p : Policy)
    → assert_agent_ownership ethers user dto.agent_address agents ≡ ok tt
    → amount_or dto.max_autonomous_amount p.mandate.max_autonomous_amount ≡ some most
    → amount_or dto.daily_autonomous_limit p.mandate.daily_autonomous_limit ≡ some daily
    → deploy_agent ethers agents user now dto p
      ≡ mandate_answer now (update_mandate (deployed dto most daily p.mandate) p)
unfolding deploy_agent
deploy_agent-owned ethers agents user now dto most daily p own h1 h2 =
    rw (deploy_agent, own, h1, h2) refl

-- Whoever binds an agent can set the limits of the one mandate of the treasury: after a binding
-- that succeeds, in a table that bindings and deleted accounts made, a deployment of this agent
-- with amounts that are bigints succeeds, makes it the autonomous agent and takes the given
-- limits, recipients and tokens; the Safe, the guard and the human signer stay.
pub deploy_agent-bound :
    (ethers : Ethers) (user id : Text) (dto : BindAgentDto) (t now : ℕ) (d : Dict Agent) (a : Agent)
    (deployment : DeployAgentDto) (most daily : ℤ) (p : Policy)
    → Reach ethers d
    → (bind_agent ethers user id dto t d).0 ≡ ok a
    → deployment.agent_address ≡ dto.agent_address
    → amount_or deployment.max_autonomous_amount p.mandate.max_autonomous_amount ≡ some most
    → amount_or deployment.daily_autonomous_limit p.mandate.daily_autonomous_limit ≡ some daily
    → ((active : ActiveMandate) × ((deploy_agent ethers
            (bind_agent ethers user id dto t d).1
            user
            now
            deployment
            p).0
          ≡ ok active))
      × ((deploy_agent ethers (bind_agent ethers user id dto t d).1 user now deployment p).1.mandate
          ≡ deployed deployment most daily p.mandate)
deploy_agent-bound ethers user id dto t now d a deployment most daily p r bound same h1 h2 =
    let (own, _) =
      bind_agent-IsOwner ethers user (0 ∷ user) id dto t d a r bound (cons_ne 0 user) in
    let made =
      deploy_agent-owned ethers (bind_agent ethers user id dto t d).1 user now deployment most daily
        p (rw same own) h1 h2 in
    let after =
      mandate_answer-mandate now (update_mandate (deployed deployment most daily p.mandate) p) in
    rw made ((_, refl), after ∙ unfold update_mandate in unfold persist_mandate in refl)
