-- ===== src/Tests/Payments.antt =====
-- Runs of the x402 payments: an allowed payment, an escalated one, and two settlements.
use ethonline.Common.{◌≡◌, refl, ◌↔◌, true, false, Option, none, some, [], ◌∷◌, All}
use ethonline.Common.Int.{ℤ, pos, ◌+ℤ◌, ◌≤ℤ◌}
use ethonline.Common.Text.{
  Text, codes, text_eq, to_lower, contains, starts_with, drop_prefix, trim, trim_start, is_space,
}
use ethonline.Common.Dict.{lookup, insert, erase, values}
use ethonline.Common.BigInt.{parse_big_int}
use ethonline.Common.Results.{ok}
use ethonline.Domain.{Decision, ActionStatus, TreasuryAction, Reason}
use ethonline.ActionStore.{
  create_action, new_action, get_action, update_status, set_risk, with_status, list_actions,
  update_row, insert_row, row_of_action,
}
use ethonline.Guardian.Normalize.{
  normalize_text, words_from, pre_split, is_separator, normalize_word, deobfuscate, rest_is_number,
  is_number, join, leet_substitution,
}
use ethonline.Guardian.Tokens.{occurs_from, contains_token_from_cluster, match_token}
use ethonline.Guardian.Semantic.{perform_semantic_analysis, analyse_normalized, assess}
use ethonline.X402.Ethers.{Ethers, is_same_address}
use ethonline.X402.Justification.{
  full_justification, extract_resource_url, before_bar, extract_resource_url-full_justification,
}
use ethonline.X402.Escalation.{TypedData, Escalation, is_expired, is_awaiting}
use ethonline.X402.Spending.{
  Config, evaluate, evaluate_asset, evaluate_payee, evaluate_amount, conclude,
  get_todays_approved_total, sum_amounts, is_counted,
}
use ethonline.X402.Spending.Limit.{decided, IsAllowed, evaluate_iff}
use ethonline.X402.Transfers.{Receipt, sum_transfers, verify_token_transfer}
use ethonline.World.Bindings.{assert_verified_for_approval}
use ethonline.X402.Payments.{
  Payments, AuthorizeDto, Authorization, authorize, apply_policy, submit_escalation,
  get_owned_action, is_valid_typed_data, settle,
}
use ethonline.X402.Payments.Approval.{
  approve_with_signature, get_awaiting_escalation, assert_approver, assert_approver_verified,
}
use ethonline.X402.Payments.Authorize.{authorize-IsWithin}
use ethonline.X402.Payments.Escalations.{IsSound, IsPayment}
use ethonline.X402.Payments.Signed.{
  Reach, here, next, authorizes, submits, Reach-IsSound, IsStart, IsStart-IsSound,
  approve_with_signature-IsPayment,
}
use ethonline.X402.Payments.Pending.{list_pending_approvals}
use ethonline.X402.Payments.Shown.{IsShown, list_pending_approvals-IsShown}
use ethonline.X402.Payments.Receipts.{IsTransfer}
use ethonline.X402.Payments.Settle.{settle-IsTransfer}
use ethonline.Tests.Data.{agent, human, usdc, vendor, store}
use ethonline.Tests.Treasury.{store-IsMirrored}

abbrev ethers : Ethers
ethers = record { get_address = some; verify_message = λ message signature. some signature }

abbrev config : Config
config = record {
  network = codes "base";
  facilitator_url = codes "https://facilitator";
  usdc_address = usdc;
  pay_to_address = vendor;
  partner_pay_to_address = codes "0xPartner";
  public_base_url = codes "https://shop";
  approved_pay_to = vendor ∷ [];
  autonomous_limit = pos 100;
  daily_limit = pos 500;
  ledger_approver_address = human;
}

abbrev request : Text → AuthorizeDto
request amount = record {
  resource_url = codes "https://shop/x";
  requirements = record { network = codes "base"; asset = usdc; pay_to = vendor; amount = amount };
  justification = codes "data";
}

abbrev start : Payments
start = record {
  store = store;
  escalation_reasons = [];
  escalations = [];
  bindings = [];
  events = [];
}

start-IsStart : IsStart ethers config start
start-IsStart = record { mirrored = store-IsMirrored; empty = refl }

start-IsSound : IsSound ethers config start
start-IsSound = IsStart-IsSound ethers config start start-IsStart

abbrev id : Text
id = codes "act-1"

abbrev other : Text
other = codes "act-2"

-- A payment of 60, which the policy allows.
abbrev paid : Payments
paid = (authorize ethers config agent (request (codes "60")) id 5000 start).1

abbrev allowed : Authorization
allowed = record {
  action_id = id;
  decision = Decision.allow;
  risk_score = 10;
  reasons = Reason.spending_policy_complies ∷ [];
}

allowed_lem : (authorize ethers config agent (request (codes "60")) id 5000 start).0 ≡ ok allowed
unfolding perform_semantic_analysis analyse_normalized assess trim trim_start is_space
    contains_token_from_cluster occurs_from match_token normalize_text words_from pre_split
    is_separator normalize_word deobfuscate rest_is_number is_number join leet_substitution to_lower
    authorize create_action new_action insert_row row_of_action set_risk apply_policy update_status
    update_row with_status get_action evaluate evaluate_asset evaluate_payee evaluate_amount
    conclude get_todays_approved_total sum_amounts list_actions is_counted values lookup insert
    text_eq contains starts_with parse_big_int ◌+ℤ◌
allowed_lem = refl

authorize-IsWithin_example :
    (n : ℤ) × (total : ℤ) × (parse_big_int (codes "60") ≡ some n)
    × (n ≤ℤ pos 100)
    × (get_todays_approved_total agent 5000 store ≡ some total)
    × (get_todays_approved_total agent 5000 paid.store ≡ some (total +ℤ n))
    × (total +ℤ n ≤ℤ pos 500)
authorize-IsWithin_example =
    authorize-IsWithin ethers config agent (request (codes "60")) id 5000 start store-IsMirrored
      (unfold lookup in refl) allowed allowed_lem refl

evaluate_iff_example :
    (decided
        (evaluate config agent (codes "data") 5000 store ethers (request (codes "60")).requirements)
      ≡ some Decision.allow)
    ↔ IsAllowed config agent (codes "data") 5000 store ethers (request (codes "60")).requirements
evaluate_iff_example =
    evaluate_iff config agent (codes "data") 5000 store ethers (request (codes "60")).requirements

extract_resource_url-full_justification_example :
    extract_resource_url (full_justification (codes "a/b") (codes "data | x")) ≡ codes "a/b"
extract_resource_url-full_justification_example =
    extract_resource_url-full_justification (codes "a/b") (codes "data | x")
      (unfold is_space in (refl, (refl, (refl, tt))))

-- A payment of 200, which is escalated and then submitted with its typed data.
abbrev asked : Payments
asked = (authorize ethers config agent (request (codes "200")) other 5000 start).1

abbrev transfer : TypedData
transfer = record {
  primary_type = some (codes "TransferWithAuthorization");
  verifying_contract = some usdc;
  chain_id = some (pos 84532);
  from = some human;
  to = some vendor;
  value = codes "200";
  valid_before = some (pos 900);
  payload = [];
}

abbrev submitted : Payments
submitted = (submit_escalation ethers config agent other (some transfer) 6000 asked).1

submission : Reach ethers config start submitted
submission =
    next
      (next here
        (authorizes agent (request (codes "200")) other 5000 start (unfold lookup in refl)))
      (submits agent other (some transfer) 6000 asked)

list_pending_approvals-IsShown_example :
    All (IsShown ethers config) (list_pending_approvals submitted).0
list_pending_approvals-IsShown_example =
    list_pending_approvals-IsShown ethers config start submitted start-IsSound tt submission

Reach-IsSound_example : IsSound ethers config submitted
Reach-IsSound_example = Reach-IsSound ethers config start submitted start-IsSound submission

-- The signature of a text is the text itself.
abbrev recover : TypedData → Text → Option Text
recover td signature = some signature

signed_lem :
    (approve_with_signature ethers config recover false other human 7000 submitted).0 ≡ ok tt
unfolding perform_semantic_analysis analyse_normalized assess trim trim_start is_space
    contains_token_from_cluster occurs_from match_token normalize_text words_from pre_split
    is_separator normalize_word deobfuscate rest_is_number is_number join leet_substitution to_lower
    authorize create_action new_action insert_row row_of_action set_risk apply_policy update_status
    update_row with_status get_action evaluate evaluate_asset evaluate_payee evaluate_amount
    conclude get_todays_approved_total sum_amounts list_actions is_counted values lookup insert
    text_eq contains starts_with parse_big_int ◌+ℤ◌ submit_escalation get_owned_action
    is_valid_typed_data is_same_address extract_resource_url drop_prefix before_bar erase
    approve_with_signature get_awaiting_escalation assert_approver assert_approver_verified
    assert_verified_for_approval
signed_lem = refl

approve_with_signature-IsPayment_example :
    (e : Escalation) × (a : TreasuryAction) × (r : Text) × (lookup other submitted.escalations
      ≡ some e)
    × (is_awaiting e.status ≡ true)
    × (is_expired e.typed_data 7000 ≡ false)
    × (recover e.typed_data human ≡ some r)
    × (is_same_address ethers r human ≡ true)
    × (lookup other submitted.store.actions ≡ some a)
    × IsPayment ethers config e.typed_data a
    × (lookup other
          (approve_with_signature ethers config recover false other human 7000
            submitted).1.store.actions
        ≡ some (
            with_status ActionStatus.approved
              (record { signature = some human; tx_hash = none })
              7000
              a))
approve_with_signature-IsPayment_example =
    approve_with_signature-IsPayment ethers config start recover false other human 7000 submitted
      start-IsStart submission signed_lem

-- Two allowed payments of 60, and one transaction that pays 60.
abbrev twice : Payments
twice = (authorize ethers config agent (request (codes "60")) other 5500 paid).1

other_is_new : lookup other paid.store.actions ≡ none
unfolding perform_semantic_analysis analyse_normalized assess trim trim_start is_space
    contains_token_from_cluster occurs_from match_token normalize_text words_from pre_split
    is_separator normalize_word deobfuscate rest_is_number is_number join leet_substitution to_lower
    authorize create_action new_action insert_row row_of_action set_risk apply_policy update_status
    update_row with_status get_action evaluate evaluate_asset evaluate_payee evaluate_amount
    conclude get_todays_approved_total sum_amounts list_actions is_counted values lookup insert
    text_eq contains starts_with parse_big_int ◌+ℤ◌
other_is_new = refl

twice-IsSound : IsSound ethers config twice
twice-IsSound = Reach-IsSound ethers config start twice start-IsSound (
    next (next here (authorizes agent (request (codes "60")) id 5000 start (unfold lookup in refl)))
      (authorizes agent (request (codes "60")) other 5500 paid other_is_new))

abbrev receipt : Receipt
receipt = record {
  status = 1;
  logs = record { address = usdc; transfer = some (record { to = vendor; value = 60 }) } ∷ [];
}

abbrev receipts : Text → Option Receipt
receipts hash = some receipt

abbrev hash : Text
hash = codes "0xAB"

settled_lem : (settle ethers receipts agent id hash 8000 twice).0 ≡ ok (codes "0xab")
unfolding perform_semantic_analysis analyse_normalized assess trim trim_start is_space
    contains_token_from_cluster occurs_from match_token normalize_text words_from pre_split
    is_separator normalize_word deobfuscate rest_is_number is_number join leet_substitution to_lower
    authorize create_action new_action insert_row row_of_action set_risk apply_policy update_status
    update_row with_status get_action evaluate evaluate_asset evaluate_payee evaluate_amount
    conclude get_todays_approved_total sum_amounts list_actions is_counted values lookup insert
    text_eq contains starts_with parse_big_int ◌+ℤ◌ settle get_owned_action verify_token_transfer
    sum_transfers
settled_lem = refl

settle-IsTransfer_example :
    (a : TreasuryAction) × (r : Receipt) × (n : ℤ) × (lookup id twice.store.actions ≡ some a)
    × (to_lower a.agent_address ≡ to_lower agent)
    × (a.status ≡ ActionStatus.approved)
    × (parse_big_int a.amount ≡ some n)
    × (receipts hash ≡ some r)
    × IsTransfer ethers r a.token a.recipient n
    × (codes "0xab" ≡ to_lower hash)
    × (lookup id (settle ethers receipts agent id hash 8000 twice).1.store.actions
        ≡ some (
            with_status ActionStatus.executed
              (record { signature = none; tx_hash = some hash })
              8000
              a))
settle-IsTransfer_example =
    settle-IsTransfer ethers config receipts agent hash id 8000 twice (codes "0xab")
      twice-IsSound.mirrored settled_lem
