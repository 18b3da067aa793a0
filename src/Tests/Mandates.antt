-- ===== src/Tests/Mandates.antt =====
-- A run of a user that binds an agent and then raises the limits of the treasury.
use ethonline.Common.{◌≡◌, refl, none, some, [], ◌∷◌}
use ethonline.Common.Int.{pos}
use ethonline.Common.Text.{codes}
use ethonline.Common.BigInt.{parse_big_int}
use ethonline.Common.Results.{ok}
use ethonline.Agents.{bind_agent}
use ethonline.Agents.Bind.{empty}
use ethonline.Mandates.{DeployAgentDto, ActiveMandate, amount_or, deploy_agent}
use ethonline.Mandates.Takeover.{deployed, deploy_agent-bound}
use ethonline.Tests.Accounts.{ethers, dto, owner, bound_agent, bind_lem}
use ethonline.Tests.Data.{policy}

abbrev deployment : DeployAgentDto
deployment = record {
  agent_address = dto.agent_address;
  max_autonomous_amount = some (codes "1000000");
  daily_autonomous_limit = none;
  approved_recipients = some (codes "0xMALLORY" ∷ []);
  approved_tokens = none;
}

most_lem :
    amount_or deployment.max_autonomous_amount policy.mandate.max_autonomous_amount
    ≡ some (pos 1000000)
unfolding amount_or parse_big_int
most_lem = refl

daily_lem :
    amount_or deployment.daily_autonomous_limit policy.mandate.daily_autonomous_limit
    ≡ some policy.mandate.daily_autonomous_limit
unfolding amount_or
daily_lem = refl

deploy_agent-bound_example :
    ((active : ActiveMandate) × ((deploy_agent ethers
          (bind_agent ethers owner (codes "agent-1") dto 1000 []).1
          owner
          5
          deployment
          policy).0
        ≡ ok active))
    × ((deploy_agent ethers
          (bind_agent ethers owner (codes "agent-1") dto 1000 []).1
          owner
          5
          deployment
          policy).1.mandate
        ≡ deployed deployment (pos 1000000) policy.mandate.daily_autonomous_limit policy.mandate)
deploy_agent-bound_example =
    deploy_agent-bound ethers owner (codes "agent-1") dto 1000 5 [] bound_agent deployment
      (pos 1000000) policy.mandate.daily_autonomous_limit policy empty bind_lem refl most_lem
      daily_lem
