-- ===== src/Tests/Requests.antt =====
-- Runs of the purchase requests: two claims, a progress report, and a paid result.
use ethonline.Common.{ℕ, ◌≤◌, ◌≡◌, refl, ◌≢◌, true, none, some, [], ◌∷◌}
use ethonline.Common.Text.{
  Text, codes, text_eq, to_lower, truthy, starts_with, drop_prefix, is_space,
}
use ethonline.Common.Dict.{lookup, insert, values}
use ethonline.Common.Results.{ok}
use ethonline.Domain.{Decision, ActionStatus, TreasuryAction}
use ethonline.ActionStore.{new_action, get_action}
use ethonline.X402.Ethers.{Ethers, is_same_address_or_text}
use ethonline.X402.Requests.{
  PurchaseStatus, ResultStatus, Row, Desk, ProgressDto, ResultDto, insert_by_age, rows_of_agent,
  claim_row, claim_oldest_queued, claim, up_to_space, action_authorizes_resource,
  serialize_response, report_progress, assert_paid, assert_result, resolved_row, resolve,
  report_result,
}
use ethonline.X402.Requests.Lifecycle.{IsKeyed, here, next, progress, Reach-terminal}
use ethonline.X402.Requests.Claims.{claim-oldest, claim-once}
use ethonline.X402.Requests.Reports.{IsPaid, report_result-IsPaid}
use ethonline.Tests.Data.{agent, purchase}

abbrev ethers : Ethers
ethers = record { get_address = some; verify_message = λ message signature. some signature }

abbrev url : Text
url = codes "https://shop/x"

abbrev row : Text → ℕ → Row
row key created = record {
  id = key;
  user_id = codes "user-1";
  agent_address = agent;
  service_name = codes "shop";
  resource_url = url;
  query_params = [];
  justification = codes "data";
  amount = codes "60";
  status = PurchaseStatus.queued;
  action_id = none;
  decision = none;
  reasons = [];
  transaction_hash = none;
  response = none;
  error = none;
  created_at = created;
  updated_at = created;
}

abbrev late : Text
late = codes "pr-1"

abbrev early : Text
early = codes "pr-2"

abbrev action : TreasuryAction
action = record (new_action (purchase (codes "60")) (codes "act-1") 5000 1) {
  justification = codes "x402: https://shop/x?q=1 | data";
  status = ActionStatus.executed;
  tx_hash = some (codes "0xAB");
}

-- The later request stands first in the table.
abbrev desk : Desk
desk = record {
  requests = (late, row late 20) ∷ (early, row early 10) ∷ [];
  store = record { actions = (codes "act-1", action) ∷ []; current_nonce = 2; rows = [] };
}

desk-IsKeyed : IsKeyed desk.requests
desk-IsKeyed = (refl, unfold lookup text_eq in refl, (refl, unfold lookup in refl, tt))

abbrev claimed_row : Text → ℕ → ℕ → Row
claimed_row key created now = record (row key created) {
  status = PurchaseStatus.processing;
  updated_at = now;
}

abbrev once : Desk
once = (claim ethers agent 30 desk).1

first_lem : (claim ethers agent 30 desk).0 ≡ ok (some (claimed_row early 10 30))
unfolding claim claim_oldest_queued claim_row rows_of_agent insert_by_age lookup text_eq to_lower
    values
first_lem = refl

second_lem : (claim ethers agent 40 once).0 ≡ ok (some (claimed_row late 20 40))
unfolding claim claim_oldest_queued claim_row rows_of_agent insert_by_age lookup insert text_eq
    to_lower values
second_lem = refl

claim-oldest_example :
    (PurchaseStatus.processing ≡ PurchaseStatus.processing)
    × (to_lower agent ≡ to_lower agent)
    × (lookup early once.requests ≡ some (claimed_row early 10 30))
    × ((q : Row) × (lookup early desk.requests ≡ some q)
        × (claimed_row early 10 30
            ≡ record q { status = PurchaseStatus.processing; updated_at = 30 })
        × (q.status ≡ PurchaseStatus.queued))
    × ((k : Text) (q : Row)
        → lookup k desk.requests ≡ some q
        → text_eq (to_lower q.agent_address) (to_lower agent) ≡ true
        → q.status ≡ PurchaseStatus.queued
        → 10 ≤ q.created_at)
claim-oldest_example =
    claim-oldest ethers agent agent 30 desk (claimed_row early 10 30) desk-IsKeyed refl first_lem

claim-once_example : early ≢ late
claim-once_example =
    claim-once ethers agent agent agent agent 30 40 desk once (claimed_row early 10 30)
      (claimed_row late 20 40) desk-IsKeyed refl refl first_lem here second_lem

-- The claimed request is authorized by the action, and then paid.
abbrev report : ProgressDto
report = record { action_id = codes "act-1"; decision = Decision.allow; reasons = [] }

abbrev authorized_row : Row
authorized_row = record (claimed_row early 10 30) {
  status = PurchaseStatus.authorized;
  action_id = some (codes "act-1");
  decision = some Decision.allow;
  updated_at = 50;
}

authorized_lem : (report_progress ethers agent early report 50 once).0 ≡ ok authorized_row
unfolding claim claim_oldest_queued claim_row rows_of_agent insert_by_age lookup insert text_eq
    to_lower values report_progress get_action is_same_address_or_text action_authorizes_resource
    up_to_space drop_prefix starts_with is_space new_action
authorized_lem = refl

abbrev outcome : ResultDto
outcome = record {
  status = ResultStatus.paid;
  action_id = some (codes "act-1");
  decision = none;
  reasons = none;
  transaction_hash = some (codes "0xaB");
  response = none;
  error = none;
}

abbrev paid_row : Row
paid_row = record (claimed_row early 10 30) {
  status = PurchaseStatus.paid;
  action_id = some (codes "act-1");
  transaction_hash = some (codes "0xab");
  updated_at = 60;
}

abbrev resolved : Desk
resolved = (report_result ethers agent early outcome 60 once).1

paid_lem : (report_result ethers agent early outcome 60 once).0 ≡ ok paid_row
unfolding claim claim_oldest_queued claim_row rows_of_agent insert_by_age lookup insert text_eq
    to_lower values report_result resolve resolved_row assert_result assert_paid get_action
    serialize_response is_same_address_or_text new_action
paid_lem = refl

report_result-IsPaid_example :
    (action_id : Text) × (hash : Text) × (a : TreasuryAction) × IsPaid ethers agent once.store
      action_id hash a
    × (truthy outcome.action_id ≡ some action_id)
    × (truthy outcome.transaction_hash ≡ some hash)
    × (lookup early resolved.requests ≡ some paid_row)
    × (some (codes "act-1") ≡ some action_id)
    × (some (codes "0xab") ≡ some (to_lower hash))
    × (is_same_address_or_text ethers agent agent ≡ true)
report_result-IsPaid_example =
    report_result-IsPaid ethers agent early outcome 60 once paid_row paid_lem refl

stored_lem : lookup early resolved.requests ≡ some paid_row
unfolding claim claim_oldest_queued claim_row rows_of_agent insert_by_age lookup insert text_eq
    to_lower values report_result resolve resolved_row assert_result assert_paid get_action
    serialize_response is_same_address_or_text new_action
stored_lem = refl

Reach-terminal_example :
    lookup early (report_progress ethers agent early report 70 resolved).1.requests ≡ some paid_row
Reach-terminal_example =
    Reach-terminal ethers resolved (report_progress ethers agent early report 70 resolved).1 early
      paid_row (next here (progress agent early report 70 resolved)) stored_lem refl
