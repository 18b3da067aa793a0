-- ===== src/Agents.antt =====
-- backend/src/agents/agents.service.ts: finding an agent and its owner, over the table of agents of
-- backend/src/database/database.service.ts.
pub mod Lookup
pub mod Ownership
pub mod Owners
pub mod Keyed
pub mod Written
pub mod Bind
use ethonline.Common.{
  ℕ, Bool, true, false, not, ◌&&◌, Option, none, some, List, [], ◌∷◌, ◌==◌, keep, find,
  if◌then◌else◌,
}
use ethonline.Common.Text.{Text, text_eq, to_lower, is_empty, truthy}
use ethonline.Common.Dict.{Dict, lookup, insert, values}
use ethonline.Common.Results.{HttpError, Result, ok, err}
use ethonline.X402.Ethers.{Ethers}

pub data AgentStatus : Type 0 where
  active paused revoked inactive : AgentStatus

-- `AgentEntity`
pub record Agent : Type 0 where
  pub id : Text
  pub user_id : Text
  pub agent_address : Text
  pub name : Text
  pub purpose : Option Text
  pub safe_address : Text
  pub guard_address : Text
  pub chain_id : ℕ
  pub status : AgentStatus
  pub created_at : ℕ
  pub updated_at : ℕ

abbrev pub is_active : Agent → Bool
is_active a = elim a.status [ AgentStatus.active ↦ true | _ ↦ false ]

-- `SELECT * FROM agent WHERE "agentAddress" = ?`
unfoldable pub agents_at : Text → Dict Agent → List Agent
agents_at address d = keep (λ a. text_eq (to_lower a.agent_address) (to_lower address)) (values d)

abbrev pub first_of : List Agent → Option Agent
first_of [] = none
first_of (a ∷ rest) = some a

-- `getAgentById`
unfoldable pub get_agent_by_id : Text → Dict Agent → Option Agent
get_agent_by_id id d = lookup id d

-- `getAgentsForUser`
unfoldable pub get_agents_for_user : Text → Dict Agent → List Agent
get_agents_for_user user d = keep (λ a. text_eq a.user_id user) (values d)

module _ (ethers : Ethers) where
  -- `getAgentByAddress`: an active row before the first one
  unfoldable pub get_agent_by_address : Text → Dict Agent → Result (Option Agent)
  get_agent_by_address address d = elim (ethers.get_address address) [
    | none ↦ err HttpError.internal
    | some normalized ↦ elim (find is_active (agents_at normalized d)) [
      | some a ↦ ok (some a)
      | none ↦ ok (first_of (agents_at normalized d))
    ]
  ]

  -- `verifyAgentOwnership`
  unfoldable pub verify_agent_ownership : Text → Text → Dict Agent → Result Bool
  verify_agent_ownership user address d = elim (get_agent_by_address address d) [
    | err e ↦ err e
    | ok none ↦ ok false
    | ok (some a) ↦ ok (text_eq a.user_id user && is_active a)
  ]

  -- `assertAgentOwnership`
  unfoldable pub assert_agent_ownership : Text → Text → Dict Agent → Result (Unit {0})
  assert_agent_ownership user address d = elim (verify_agent_ownership user address d) [
    | err e ↦ err e
    | ok owned ↦ if owned then ok tt else err HttpError.forbidden
  ]

-- `BindAgentDto`, which its validator has checked
pub record BindAgentDto : Type 0 where
  pub agent_address : Text
  pub name : Text
  pub purpose : Option Text
  pub safe_address : Text
  pub guard_address : Text
  pub chain_id : Option ℕ

-- `dto.chainId || 84532`
abbrev pub chain_or_default : Option ℕ → ℕ
chain_or_default none = 84532
chain_or_default (some n) = if n == 0 then 84532 else n

-- `rows.find((row) => row.userId === userId) ?? rows[0]`
unfoldable pub reusable : Text → List Agent → Option Agent
reusable user rows = elim (find (λ (a : Agent). text_eq a.user_id user) rows) [
  | some a ↦ some a
  | none ↦ first_of rows
]

-- What `UPDATE agent SET ... WHERE id = ?` makes of a row.
abbrev pub rebound_row : Text → BindAgentDto → Text → Text → ℕ → Agent → Agent
rebound_row user dto safe guard now a = record a {
  user_id = user;
  name = dto.name;
  purpose = truthy dto.purpose;
  safe_address = safe;
  guard_address = guard;
  chain_id = chain_or_default dto.chain_id;
  status = AgentStatus.active;
  updated_at = now;
}

-- What `INSERT INTO agent` adds.
abbrev pub bound_row : Text → Text → BindAgentDto → Text → Text → Text → ℕ → Agent
bound_row id user dto address safe guard now = record {
  id = id;
  user_id = user;
  agent_address = address;
  name = dto.name;
  purpose = truthy dto.purpose;
  safe_address = safe;
  guard_address = guard;
  chain_id = chain_or_default dto.chain_id;
  status = AgentStatus.active;
  created_at = now;
  updated_at = now;
}

-- The writes of `bindAgent`, with the row that is read back. The update of the table of mandates has
-- no branch in the in-memory tables and changes nothing.
unfoldable pub write_agent :
    Text → Text → BindAgentDto → Text → Text → Text → ℕ → Dict Agent → Result Agent × Dict Agent
write_agent user id dto address safe guard now d = elim (reusable user (agents_at address d)) [
  | some r ↦ elim (lookup r.id d) [
    | none ↦ (err HttpError.internal, d)
    | some a ↦ let row = rebound_row user dto safe guard now a in (ok row, insert r.id row d)
  ]
  | none ↦ let row = bound_row id user dto address safe guard now in (ok row, insert id row d)
]

-- `row.status === 'ACTIVE' && row.userId !== userId`
abbrev pub is_active_elsewhere : Text → Agent → Bool
is_active_elsewhere user a = is_active a && not (text_eq a.user_id user)

-- `bindAgent`; `id` is the new id.
unfoldable pub bind_agent :
    Ethers → Text → Text → BindAgentDto → ℕ → Dict Agent → Result Agent × Dict Agent
bind_agent ethers user id dto now d =
    if is_empty user
    then (err HttpError.bad_request, d)
    else elim (ethers.get_address dto.agent_address) [
      | none ↦ (err HttpError.internal, d)
      | some address ↦ elim (ethers.get_address dto.safe_address) [
        | none ↦ (err HttpError.internal, d)
        | some safe ↦ elim (ethers.get_address dto.guard_address) [
          | none ↦ (err HttpError.internal, d)
          | some guard ↦ elim (find (is_active_elsewhere user) (agents_at address d)) [
            | some other ↦ (err HttpError.conflict, d)
            | none ↦ write_agent user id dto address safe guard now d
          ]
        ]
      ]
    ]

-- `UPDATE agent SET status = ?, "updatedAt" = ? WHERE "userId" = ?`
unfoldable pub deactivate : Text → ℕ → Dict Agent → Dict Agent
deactivate user now [] = []
deactivate user now ((k, a) ∷ d) =
    (
      k,
      if text_eq a.user_id user
          then record a { status = AgentStatus.inactive; updated_at = now }
          else a,
    )
    ∷ deactivate user now d
