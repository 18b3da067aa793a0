-- ===== src/Tests/Guard.antt =====
-- Runs of the guard: a request with a timestamp 60 seconds ahead passes twice.
use ethonline.Common.{ℕ, ◌+◌, ◌/◌, ◌≤◌, ◌≡◌, refl, none, some, [], ◌∷◌}
use ethonline.Common.Int.{ℤ, pos, ◌+ℤ◌}
use ethonline.Common.Text.{Text, codes, text_eq, to_lower, truthy}
use ethonline.Common.Dict.{Dict, lookup, insert, values}
use ethonline.Common.BigInt.{parse_big_int}
use ethonline.Common.Results.{ok}
use ethonline.X402.Ethers.{Ethers}
use ethonline.Agents.{Agent, AgentStatus, agents_at, get_agent_by_address}
use ethonline.X402.Guard.{
  Request, signature_ttl, prune_used_signatures, signed_message, authenticate, activate_fresh,
  can_activate,
}
use ethonline.X402.Guard.Signed.{IsFresh, IsSignedBy, can_activate-IsSignedBy}
use ethonline.X402.Guard.Replay.{none_yet, can_activate-twice}
use ethonline.Tests.Data.{agent}

abbrev ethers : Ethers
ethers = record { get_address = some; verify_message = λ message signature. some signature }

abbrev worker : Agent
worker = record {
  id = codes "agent-1";
  user_id = codes "user-1";
  agent_address = agent;
  name = codes "worker";
  purpose = none;
  safe_address = codes "0xSafe";
  guard_address = codes "0xGuard";
  chain_id = 84532;
  status = AgentStatus.active;
  created_at = 0;
  updated_at = 0;
}

abbrev agents : Dict Agent
agents = (worker.id, worker) ∷ []

abbrev sha256 : Text → Text
sha256 body = codes "digest"

abbrev request : Request
request = record {
  agent_address = some agent;
  timestamp = some (codes "65");
  signature = some agent;
  method = codes "post";
  path = codes "/x402/claim";
  body = [];
}

abbrev after : Dict ℕ
after = (can_activate ethers sha256 agents request 5000 []).1

first_lem : (can_activate ethers sha256 agents request 5000 []).0 ≡ ok worker
unfolding can_activate activate_fresh prune_used_signatures authenticate signed_message lookup
    text_eq to_lower values agents_at get_agent_by_address parse_big_int ◌+ℤ◌
first_lem = refl

second_lem : (can_activate ethers sha256 agents request 125000 after).0 ≡ ok worker
unfolding can_activate activate_fresh prune_used_signatures authenticate signed_message lookup
    insert text_eq to_lower values agents_at get_agent_by_address parse_big_int ◌+ℤ◌
second_lem = refl

can_activate-twice_example :
    (5000 + signature_ttl ≤ 125000)
    × (125000 / 1000 ≡ 5000 / 1000 + 120)
    × ((header : Text) × (truthy (some (codes "65")) ≡ some header)
        × (parse_big_int header ≡ some (pos (5000 / 1000 + 60))))
can_activate-twice_example =
    can_activate-twice ethers sha256 agents request 5000 125000 [] after worker worker first_lem
      none_yet second_lem

can_activate-IsSignedBy_example :
    (address signature header : Text) × (timestamp : ℤ) × (truthy (some agent) ≡ some address)
    × (truthy (some agent) ≡ some signature)
    × (truthy (some (codes "65")) ≡ some header)
    × (parse_big_int header ≡ some timestamp)
    × IsFresh timestamp (5000 / 1000)
    × IsSignedBy ethers sha256 agents request address signature timestamp worker
can_activate-IsSignedBy_example =
    can_activate-IsSignedBy ethers sha256 agents request 5000 [] worker first_lem
