-- ===== src/Policy.antt =====
-- backend/src/policies/policy-engine.service.ts: the mandate, the deterministic rules and the daily
-- ledger of autonomous spending, over the tables treasury_mandates and daily_spent_ledger.
pub mod Ledger
pub mod Reload
pub mod Rules
use ethonline.Common.{
  ℕ, ◌+◌, ◌/◌, Bool, true, false, Option, none, some, List, [], ◌∷◌, ◌++◌, any, if◌then◌else◌,
}
use ethonline.Common.Int.{ℤ, pos, ◌+ℤ◌, ◌-ℤ◌, ltb_ℤ}
use ethonline.Common.Text.{Text, codes, text_eq, to_lower}
use ethonline.Common.Dict
use ethonline.Common.Dict.{Dict}
use ethonline.Common.NatDict.{NatDict, lookup, insert}
use ethonline.Common.BigInt.{parse_big_int, print_big_int, print_nat}
use ethonline.Common.Results.{HttpError, Result, ok, err}
use ethonline.Domain.{Decision, TreasuryAction, TreasuryMandate, Reason}

-- `TreasuryMandateRow`: the amounts are text, the two JSON columns are lists.
pub record MandateRow : Type 0 where
  pub chain_id : ℕ
  pub safe_address : Text
  pub guard_address : Text
  pub autonomous_agent : Text
  pub human_signer : Text
  pub max_autonomous_amount : Text
  pub daily_autonomous_limit : Text
  pub approved_recipients : List Text
  pub approved_tokens : List Text

-- The service's fields and the two tables. `spent_rows` holds the column cumulative_spent.
pub record Policy : Type 0 where
  pub mandate : TreasuryMandate
  pub daily_spent : NatDict ℤ
  pub mandate_rows : Dict MandateRow
  pub spent_rows : NatDict Text

-- `PolicyEvaluationResult`
pub record PolicyResult : Type 0 where
  pub passed : Bool
  pub decision : Decision
  pub reasons : List Reason
  pub requires_human_approval : Bool

-- The key of the table treasury_mandates.
unfoldable pub mandate_key : ℕ → Text → Text
mandate_key chain_id safe_address = print_nat chain_id ++ codes "_" ++ to_lower safe_address

-- `persistMandate`
unfoldable pub persist_mandate : Policy → Policy
persist_mandate p =
    let m = p.mandate in
    record p {
      mandate_rows =
          Dict.insert (mandate_key m.chain_id m.safe_address)
            (record {
              chain_id = m.chain_id;
              safe_address = m.safe_address;
              guard_address = m.guard_address;
              autonomous_agent = m.autonomous_agent;
              human_signer = m.human_signer;
              max_autonomous_amount = print_big_int m.max_autonomous_amount;
              daily_autonomous_limit = print_big_int m.daily_autonomous_limit;
              approved_recipients = m.approved_recipients;
              approved_tokens = m.approved_tokens;
            })
            p.mandate_rows;
    }

-- The mandate that a row of the table stands for; `none` where an amount is no bigint.
unfoldable pub mandate_of_row : MandateRow → Option TreasuryMandate
mandate_of_row r = elim (parse_big_int r.max_autonomous_amount) [
  | none ↦ none
  | some most ↦ elim (parse_big_int r.daily_autonomous_limit) [
    | none ↦ none
    | some daily ↦ some (record {
      chain_id = r.chain_id;
      safe_address = r.safe_address;
      guard_address = r.guard_address;
      autonomous_agent = r.autonomous_agent;
      human_signer = r.human_signer;
      max_autonomous_amount = most;
      daily_autonomous_limit = daily;
      approved_recipients = r.approved_recipients;
      approved_tokens = r.approved_tokens;
    })
  ]
]

-- The loop of `loadFromDatabase` over the ledger; the `catch` ends it at the first bad row.
unfoldable pub load_spent : NatDict Text → Policy → Policy
load_spent [] p = p
load_spent ((day, text) ∷ rows) p = elim (parse_big_int text) [
  | none ↦ p
  | some spent ↦ load_spent rows (record p { daily_spent = insert day spent p.daily_spent })
]

-- `loadFromDatabase`
unfoldable pub load_from_database : Policy → Policy
load_from_database p =
    elim (Dict.lookup (mandate_key p.mandate.chain_id p.mandate.safe_address) p.mandate_rows) [
      | none ↦ load_spent p.spent_rows (persist_mandate p)
      | some r ↦ elim (mandate_of_row r) [
        | none ↦ p
        | some m ↦ load_spent p.spent_rows (record p { mandate = m })
      ]
    ]

-- `updateMandate`, given the merged mandate.
unfoldable pub update_mandate : TreasuryMandate → Policy → Policy
unfolding persist_mandate
update_mandate m p = persist_mandate (record p { mandate = m })

-- `Math.floor(timestampSeconds / 86400)`
abbrev pub day_id : ℕ → ℕ
day_id seconds = seconds / 86400

-- `getDailySpent`: the map first, then the table, whose value is cached; a bad row counts as 0.
unfoldable pub get_daily_spent : ℕ → Policy → ℤ × Policy
get_daily_spent seconds p = elim (lookup (day_id seconds) p.daily_spent) [
  | some spent ↦ (spent, p)
  | none ↦ elim (lookup (day_id seconds) p.spent_rows) [
    | none ↦ (pos 0, p)
    | some text ↦ elim (parse_big_int text) [
      | none ↦ (pos 0, p)
      | some spent ↦ (spent, record p { daily_spent = insert (day_id seconds) spent p.daily_spent })
    ]
  ]
]

-- `recordAutonomousSpend`
unfoldable pub record_autonomous_spend : Text → ℕ → Policy → Result (Unit {0}) × Policy
record_autonomous_spend amount seconds p =
    let (current, p') = get_daily_spent seconds p in
    elim (parse_big_int amount) [
      | none ↦ (err HttpError.internal, p')
      | some a ↦ (
        ok tt,
        record p' {
          daily_spent = insert (day_id seconds) (current +ℤ a) p'.daily_spent;
          spent_rows = insert (day_id seconds) (print_big_int (current +ℤ a)) p'.spent_rows;
        },
      )
    ]

-- `getRemainingDailyBudget`
unfoldable pub get_remaining_daily_budget : ℕ → Policy → ℤ × Policy
get_remaining_daily_budget seconds p =
    let (spent, p') = get_daily_spent seconds p in
    (
      if ltb_ℤ spent p.mandate.daily_autonomous_limit
          then p.mandate.daily_autonomous_limit -ℤ spent
          else pos 0,
      p',
    )

-- `list.some((x) => x.toLowerCase() === lowered)`
unfoldable pub lists_address : List Text → Text → Bool
lists_address xs address = any (λ x. text_eq (to_lower x) (to_lower address)) xs

abbrev pub verdict : Bool → Decision → Bool → Reason → PolicyResult
verdict passed decision human reason = record {
  passed = passed;
  decision = decision;
  reasons = reason ∷ [];
  requires_human_approval = human;
}

-- The limits on the amount, once the recipient and the token are approved.
unfoldable pub evaluate_amount : TreasuryMandate → Text → ℤ → ℤ → PolicyResult
evaluate_amount m text amount spent =
    if ltb_ℤ m.max_autonomous_amount amount
    then verdict false Decision.escalate true
        (Reason.amount_over_single_limit text m.max_autonomous_amount)
    else if ltb_ℤ m.daily_autonomous_limit (spent +ℤ amount)
    then verdict false Decision.escalate true
        (Reason.over_daily_limit (spent +ℤ amount) m.daily_autonomous_limit)
    else verdict true Decision.allow false Reason.mandate_complies

-- `evaluateDeterministicRules`
unfoldable pub evaluate_deterministic_rules :
    TreasuryAction → ℕ → Policy → Result PolicyResult × Policy
evaluate_deterministic_rules a seconds p =
    if lists_address p.mandate.approved_recipients a.recipient
    then if lists_address p.mandate.approved_tokens a.token
      then elim (parse_big_int a.amount) [
        | none ↦ (err HttpError.internal, p)
        | some amount ↦
            let (spent, p') = get_daily_spent seconds p in
            (ok (evaluate_amount p.mandate a.amount amount spent), p')
      ]
      else (ok (verdict false Decision.block false (Reason.token_not_approved a.token)), p)
    else (ok (verdict false Decision.block false (Reason.recipient_not_approved a.recipient)), p)
