-- ===== src/Tests/Shop.antt =====
-- Runs of a redemption, of a purchase request that waits for its claim.
use ethonline.Common.{◌≤◌, ◌≡◌, refl, ◌≢◌, ◌++◌, false, none, some, [], ◌∷◌, arith}
use ethonline.Common.Int.{pos}
use ethonline.Common.Text.{Text, codes, text_eq, to_lower, drop_prefix, contains, trim, all_hex}
use ethonline.Common.Dict.{Dict, lookup, insert, values}
use ethonline.Common.BigInt.{parse_big_int}
use ethonline.Common.Results.{Result, ok}
use ethonline.Agents.{
  Agent, AgentStatus, assert_agent_ownership, verify_agent_ownership, get_agent_by_address,
  agents_at,
}
use ethonline.X402.Ethers.{Ethers}
use ethonline.X402.Transfers.{Verification, verified}
use ethonline.X402.Requests.{PurchaseStatus, Row, Desk, is_queued}
use ethonline.X402.Requests.Create.{
  ParamValue, CreateDto, CatalogEntry, is_allowed, assign, validate_query_params, queued_request,
  check_request, create_request,
}
use ethonline.X402.Requests.Queue.{queue_length, run_claims, create_request-claimed}
use ethonline.Vendor.{Requirements, PaymentReceipt, is_tx_hash, begin_redemption, finish_redemption}
use ethonline.Vendor.Redeem.{here, redeem-once}

abbrev eight : Text → Text
eight t = t ++ (t ++ (t ++ (t ++ (t ++ (t ++ (t ++ t))))))

abbrev hash_a : Text
hash_a = codes "0x" ++ eight (codes "Aa00Aa00")

abbrev hash_b : Text
hash_b = codes "0x" ++ eight (codes "0b0b0b0b")

abbrev req : Requirements
req = record {
  address = codes "0xPay";
  amount = codes "40";
  token = codes "0xToken";
  chain_id = 84532;
}

abbrev answer : Result Verification
answer = ok (verified (pos 40))

abbrev key_a : Text
key_a = codes "0x" ++ eight (codes "aa00aa00")

abbrev receipts : Dict PaymentReceipt
receipts = (finish_redemption key_a answer (codes "bill:b1") 1000 []).1

began_lem : begin_redemption 84532 hash_a req [] ≡ ok (key_a, pos 40)
unfolding begin_redemption is_tx_hash all_hex drop_prefix to_lower lookup parse_big_int
began_lem = refl

began'_lem : begin_redemption 84532 hash_b req receipts ≡ ok (hash_b, pos 40)
unfolding begin_redemption is_tx_hash all_hex drop_prefix to_lower lookup parse_big_int
    finish_redemption insert text_eq
began'_lem = refl

first_lem : (finish_redemption key_a answer (codes "bill:b1") 1000 []).0 ≡ ok key_a
unfolding finish_redemption lookup
first_lem = refl

second_lem : (finish_redemption hash_b answer (codes "bill:b2") 2000 receipts).0 ≡ ok hash_b
unfolding finish_redemption lookup insert text_eq
second_lem = refl

redeem-once_example : to_lower hash_a ≢ to_lower hash_b
redeem-once_example =
    redeem-once 84532 1000 2000 hash_a hash_b key_a hash_b (codes "bill:b1") (codes "bill:b2") key_a
      hash_b req req (pos 40) (pos 40) answer answer [] receipts [] receipts began_lem began'_lem
      first_lem here second_lem

abbrev ethers : Ethers
ethers = record { get_address = some; verify_message = λ message signature. some signature }

abbrev agent : Text
agent = codes "0xAgent"

abbrev user : Text
user = codes "user-1"

abbrev agents : Dict Agent
agents =
    (
      codes "agent-1",
      record {
        id = codes "agent-1";
        user_id = user;
        agent_address = agent;
        name = codes "worker";
        purpose = none;
        safe_address = codes "0xSafe";
        guard_address = codes "0xGuard";
        chain_id = 84532;
        status = AgentStatus.active;
        created_at = 0;
        updated_at = 0;
      },
    )
    ∷ []

abbrev entry : CatalogEntry
entry = record {
  resource = codes "https://shop/weather";
  service_name = codes "weather";
  amount = codes "10";
  query_params = codes "city" ∷ [];
}

abbrev dto : CreateDto
dto = record {
  agent_address = agent;
  resource_url = entry.resource;
  query_params = (codes "city", ParamValue.text (codes "Rome")) ∷ [];
  justification = codes "plan";
}

abbrev empty_desk : Desk
empty_desk = record { requests = []; store = record { actions = []; current_nonce = 1; rows = [] } }

abbrev params : Dict Text
params = (codes "city", codes "Rome") ∷ []

abbrev request : Row
request = queued_request (codes "pr-1") user agent entry params dto 1000

created_lem :
    (create_request ethers agents (entry ∷ []) user (codes "pr-1") dto 1000 empty_desk).0
    ≡ ok request
unfolding create_request check_request assert_agent_ownership verify_agent_ownership
    get_agent_by_address agents_at values text_eq to_lower validate_query_params is_allowed assign
    insert trim contains
created_lem = refl

short_lem :
    queue_length agent
      (create_request ethers agents (entry ∷ []) user (codes "pr-1") dto 1000 empty_desk).1.requests
    ≤ 1
unfolding create_request check_request assert_agent_ownership verify_agent_ownership
    get_agent_by_address agents_at values text_eq to_lower validate_query_params is_allowed assign
    insert trim contains queue_length
short_lem = omega arith

create_request-claimed_example :
    (request.status ≡ PurchaseStatus.queued)
    × ((r : Row) × (lookup
            (codes "pr-1")
            (run_claims ethers agent
              (2000 ∷ [])
              (create_request ethers agents
                (entry ∷ [])
                user
                (codes "pr-1")
                dto
                1000
                empty_desk).1).requests
          ≡ some r)
        × (is_queued r.status ≡ false))
create_request-claimed_example =
    create_request-claimed ethers agents (entry ∷ []) user (codes "pr-1") agent agent dto 1000
      (2000 ∷ []) empty_desk request tt created_lem refl refl short_lem
