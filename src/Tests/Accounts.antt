-- ===== src/Tests/Accounts.antt =====
-- Runs of a login with the e-mail address of another user, and of a binding of an agent.
use ethonline.Common.{◌≡◌, refl, ◌≢◌, true, false, none, some, [], ◌∷◌}
use ethonline.Common.Text.{Text, codes, text_eq, text_eq_iff, to_lower, drop_prefix}
use ethonline.Common.Dict.{Dict, lookup, insert, values}
use ethonline.Common.Results.{HttpError, ok, err}
use ethonline.X402.Ethers.{Ethers}
use ethonline.Agents.{
  Agent, BindAgentDto, bound_row, bind_agent, write_agent, reusable, agents_at,
  assert_agent_ownership,
}
use ethonline.Agents.Bind.{empty, bind_agent-IsOwner}
use ethonline.Auth.{User, Metadata, Privy, PrivyUser, wallet_of, user_with_email, login}
use ethonline.Auth.Takeover.{login-takeover}

abbrev pub ethers : Ethers
ethers = record { get_address = some; verify_message = λ message signature. some signature }

abbrev pub dto : BindAgentDto
dto = record {
  agent_address = codes "0xAgent";
  name = codes "worker";
  purpose = none;
  safe_address = codes "0xSafe";
  guard_address = codes "0xGuard";
  chain_id = none;
}

abbrev pub owner : Text
owner = codes "user-1"

abbrev stranger : Text
stranger = codes "user-2"

abbrev pub bound_agent : Agent
bound_agent =
    bound_row (codes "agent-1") owner dto dto.agent_address dto.safe_address dto.guard_address 1000

pub bind_lem : (bind_agent ethers owner (codes "agent-1") dto 1000 []).0 ≡ ok bound_agent
unfolding bind_agent write_agent reusable agents_at values
bind_lem = refl

stranger_lem : stranger ≢ owner
unfolding text_eq
stranger_lem h = let e : false ≡ true = (text_eq_iff stranger owner).1 h in cc

bind_agent-IsOwner_example :
    (assert_agent_ownership ethers owner dto.agent_address
        (bind_agent ethers owner (codes "agent-1") dto 1000 []).1
      ≡ ok tt)
    × (assert_agent_ownership ethers stranger dto.agent_address
          (bind_agent ethers owner (codes "agent-1") dto 1000 []).1
        ≡ err HttpError.forbidden)
bind_agent-IsOwner_example =
    bind_agent-IsOwner ethers owner stranger (codes "agent-1") dto 1000 [] bound_agent empty
      bind_lem stranger_lem

abbrev token : Text
token = codes "token"

abbrev did : Text
did = codes "did:privy:mallory"

abbrev mail : Text
mail = codes "alice@example.com"

-- A user that Privy knows by a wallet only.
abbrev mallory : PrivyUser
mallory = record {
  id = did;
  google_email = none;
  google_name = none;
  email_address = none;
  linked_accounts = [];
  wallet = some (codes "0xMallory");
}

abbrev privy : Privy
privy = record {
  verify_auth_token = λ t. some did;
  get_user = λ d. some (some mallory);
  create_wallets = λ d. none;
}

abbrev alice : User
alice = record {
  id = codes "did:privy:alice";
  email = some mail;
  name = some (codes "Alice");
  avatar_url = none;
  wallet_address = some (codes "0xAlice");
  deleted_at = none;
  created_at = 0;
  updated_at = 0;
}

abbrev users : Dict User
users = (alice.id, alice) ∷ []

abbrev metadata : Metadata
metadata = record { email = some mail; name = none }

bare_lem : drop_prefix (codes "Bearer ") token ≡ none
unfolding drop_prefix
bare_lem = refl

new_lem : lookup did users ≡ none
unfolding lookup text_eq
new_lem = refl

found_lem : user_with_email mail users ≡ some alice
unfolding user_with_email values text_eq to_lower
found_lem = refl

keyed_lem : lookup alice.id users ≡ some alice
unfolding lookup text_eq
keyed_lem = refl

login-takeover_example :
    (r : User) × (login (some privy) token metadata 5000 users
      ≡ (ok (some r, false), insert alice.id r users))
    × (r.id ≡ alice.id)
    × (r.wallet_address ≡ some (codes "0xMallory"))
unfolding wallet_of
login-takeover_example =
    login-takeover privy token did mail (codes "0xMallory") mallory alice metadata 5000 users refl
      bare_lem refl refl refl refl refl refl new_lem found_lem keyed_lem
